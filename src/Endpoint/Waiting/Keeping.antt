-- ===== src/Endpoint/Waiting/Keeping.antt =====
-- What every attempt of a wait keeps, the wait keeps (`wait_until` in
-- endpoint/src/endpoint_impl.rs).
use component_iroh.Prelude.{List, [], ◌∷◌, Option, none, some, All}
use component_iroh.Endpoint.State.{Run, ended, panicked, out_of_fuel}
use component_iroh.Endpoint.Waiting.{wait_until}

module _ {ℓ κ} {S : Type ℓ} {R : Type κ} (P : S → Type 0) (Q : S → R → Type 0) where
  -- The run comes to an end: with a value and `Q`, or without one and `P`.
  abbrev pub Settles : Run (S × Option R) → Type 0
  Settles panicked = ⊥
  Settles out_of_fuel = ⊥
  Settles (ended (s, none)) = P s
  Settles (ended (s, some r)) = Q s r

  module _ (check : S → Run (S × Option R)) (h : (s : S) → P s → Settles (check s)) where
    settle_step :
        (others : S → S) (more : List (S → S)) (r : Run (S × Option R))
        → Settles r
        → ((s : S) → P s → Settles (wait_until check more (others s)))
        → Settles (elim r [
          | panicked ↦ panicked
          | out_of_fuel ↦ out_of_fuel
          | ended (s', some a) ↦ ended (s', some a)
          | ended (s', none) ↦ wait_until check more (others s')
        ])
    settle_step others more panicked hr rest = hr
    settle_step others more out_of_fuel hr rest = hr
    settle_step others more (ended (s, some a)) hr rest = hr
    settle_step others more (ended (s, none)) hr rest = rest s hr

    pub wait_until-Settles :
        (others : List (S → S))
        → All (λ f. (s : S) → P s → P (f s)) others
        → (s : S) → P s
        → Settles (wait_until check others s)
    unfolding wait_until
    wait_until-Settles [] hf s hs = h s hs
    wait_until-Settles (f ∷ more) hf s hs =
        settle_step f more (check s) (h s hs)
          (λ s' hs'. wait_until-Settles more hf.1 (f s') (hf.0 s' hs'))
