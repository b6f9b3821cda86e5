-- ===== src/Endpoint/State/Totality.antt =====
-- A run that has enough fuel, and a rule for loops: one whose steps use up a measure ends (for `drain`
-- in endpoint/src/endpoint_impl.rs).
use component_iroh.Prelude.{ℕ, zero, suc, ◌≡◌, ◌<◌, ◌≤◌, refl, Bool, true, inl, inr, arith}
use component_iroh.Endpoint.State.{Run, ◌>>=◌, ended, panicked, out_of_fuel, while_progress}
use component_iroh.Endpoint.State.Drains.{Run-cases}

-- A run that does not run out of fuel.
abbrev pub Total {ℓ} : {A : Type ℓ} → (A → Type 0) → Run A → Type 0
Total P (ended a) = P a
Total P panicked = Unit
Total P out_of_fuel = ⊥

pub Total->>= {ℓ κ} :
    {A : Type ℓ} {B : Type κ} (P : A → Type 0) (Q : B → Type 0) (m : Run A) (f : A → Run B)
    → Total P m
    → ((a : A) → P a → Total Q (f a))
    → Total Q (m >>= f)
Total->>= P Q (ended a) f h g = g a h
Total->>= P Q panicked f h g = tt
Total->>= P Q out_of_fuel f h g = absurd h

-- The measure is at most `k`, and below it if anything was done.
abbrev pub Fell {ℓ} : {S : Type ℓ} → (S → ℕ) → ℕ → S × Bool → Type 0
Fell measure k r = (measure r.0 ≤ k) × (r.1 ≡ true → measure r.0 < k)

flagged {ℓ} :
    {S : Type ℓ} (measure : S → ℕ) (j k : ℕ) (r : Run (S × Bool))
    → j < k
    → Total (Fell measure j) r
    → Total (Fell measure k) (elim r [
      | panicked ↦ panicked
      | out_of_fuel ↦ out_of_fuel
      | ended (s, _) ↦ ended (s, true)
    ])
flagged measure j k (ended (s, b)) l h = (omega arith, λ e. omega arith)
flagged measure j k panicked l h = tt
flagged measure j k out_of_fuel l h = h

-- A loop whose steps use up a measure ends, on more fuel than the measure.
module _ {ℓ} {S : Type ℓ} (measure : S → ℕ) (bound : ℕ) (step : S → Run (S × Bool))
    (falls : (s : S) → measure s < bound → Total (Fell measure (measure s)) (step s)) where
  pub while_progress-Total :
      (fuel : ℕ) (s : S)
      → measure s < fuel
      → measure s < bound
      → Total (Fell measure (measure s)) (while_progress fuel step s)
  unfolding while_progress
  while_progress-Total zero s l b = absurd (omega arith)
  while_progress-Total (suc fuel) s l b = elim (Run-cases (step s)) [
    | inl e ↦ rw (e, while_progress) tt
    | inr (inl e) ↦ absurd (rw e at (falls s b))
    | inr (inr (inl (s', e))) ↦ rw (e, while_progress) (rw e at (falls s b))
    | inr (inr (inr (s', e))) ↦
        let (le, lt) = rw e at (falls s b) in
        rw (e, while_progress)
          (flagged measure (measure s') (measure s) _ (lt refl)
            (while_progress-Total fuel s' (omega (arith, lt refl)) (omega (arith, lt refl))))
  ]
