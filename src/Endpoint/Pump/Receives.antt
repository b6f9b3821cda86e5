-- ===== src/Endpoint/Pump/Receives.antt =====
-- The receives that the pump has in flight (`relay_recvs` and `channel_recvs` of `pump` in
-- endpoint/src/endpoint_impl.rs), and the wires that they wait on.
use component_iroh.Prelude.{
  ℕ, suc, ◌≤◌, ◌<◌, ◌≡◌, ◌≢◌, sym, ◌∙◌, refl, List, [], ◌∷◌, ◌++◌, Option, none, some, nat_key, eq?,
  ite, lookup, remove, lookup-remove, subst, All, All-append, arith,
}
use component_iroh.Endpoint.Noq.{Noq}
use component_iroh.Endpoint.Pump.{rearm}

pub All-map {ℓ κ} :
    {A : Type ℓ} (P Q : A → Type κ) (xs : List A) → ((a : A) → P a → Q a) → All P xs → All Q xs
All-map P Q [] f h = tt
All-map P Q (x ∷ xs) f h = (f x h.0, All-map P Q xs f h.1)

All-both {ℓ κ} :
    {A : Type ℓ} (P Q : A → Type κ) (xs : List A) → All P xs → All Q xs → All (λ a. P a × Q a) xs
All-both P Q [] h k = tt
All-both P Q (x ∷ xs) h k = ((h.0, k.0), All-both P Q xs h.1 k.1)

All-lookup :
    (P : ℕ × ℕ → Type 0) (m : List (ℕ × ℕ)) (k c : ℕ) → All P m → lookup k m ≡ some c → P (k, c)
unfolding lookup
All-lookup P [] k c h e = absurd (ground arith)
All-lookup P ((j, d) ∷ m) k c h e =
    elim (eq? j k) as (λ (t : Dec (j ≡ k)). ite t (some d) (lookup k m) ≡ some c → P (k, c)) [
      | yes s ↦ λ e'. subst P (ground arith) h.0
      | no _ ↦ λ e'. All-lookup P m k c h.1 e'
    ]
      e

-- `wire` is the wire that is open under a key, and the keys in use lie below `next`.
module _ (wire : ℕ → Option ℕ) (next : ℕ) where
  abbrev pub IsOpen : ℕ × ℕ → Type 0
  IsOpen r = (wire r.0 ≡ some r.1) × (r.0 < next)

  abbrev IsApart : List (ℕ × ℕ) → ℕ × ℕ → Type 0
  IsApart recvs r = lookup r.0 recvs ≡ none

  -- Every receive in flight, and every one that is to be armed, waits on the wire that is open under
  -- its key; no key that is to be armed is in flight already.
  pub record InFlight (recvs news : List (ℕ × ℕ)) : Type 0 where
    pub flying : All IsOpen recvs
    pub coming : All IsOpen news
    pub apart : All (IsApart recvs) news

  lookup-eq-none :
      (k : ℕ) (recvs : List (ℕ × ℕ)) → All IsOpen recvs → next ≤ k → lookup k recvs ≡ none
  unfolding lookup
  lookup-eq-none k [] h le = refl
  lookup-eq-none k ((j, c) ∷ recvs) h le = ground (arith, lookup-eq-none k recvs h.1 le)

  All-remove :
      (k : ℕ) (recvs : List (ℕ × ℕ))
      → All IsOpen recvs
      → All (λ r. IsOpen r × (k ≢ r.0)) (remove k recvs)
  unfolding remove
  All-remove k [] h = tt
  All-remove k ((j, c) ∷ recvs) h =
      elim (eq? j k)
        as (λ d.
          All (λ r. IsOpen r × (k ≢ r.0)) (ite d (remove k recvs) ((j, c) ∷ remove k recvs))) [
            | yes _ ↦ All-remove k recvs h.1
            | no n ↦ ((h.0, λ e. n (sym e)), All-remove k recvs h.1)
          ]

  pub arm-InFlight : (recvs news : List (ℕ × ℕ)) → InFlight recvs news → InFlight (recvs ++ news) []
  arm-InFlight recvs news v = record {
    flying = All-append IsOpen recvs news v.flying v.coming;
    coming = tt;
    apart = tt;
  }

  pub lookup-append_none :
      (k : ℕ) (xs ys : List (ℕ × ℕ))
      → lookup k xs ≡ none
      → lookup k ys ≡ none
      → lookup k (xs ++ ys) ≡ none
  unfolding lookup
  lookup-append_none k [] ys hx hy = hy
  lookup-append_none k ((j, c) ∷ xs) ys hx hy = ground (arith, lookup-append_none k xs ys)

  remove-IsApart :
      (k : ℕ) (recvs : List (ℕ × ℕ)) (r : ℕ × ℕ) → IsApart recvs r → IsApart (remove k recvs) r
  remove-IsApart k recvs r h = ground (arith, lookup-remove k r.0 recvs)

  -- A receive came back with a datagram, and the pump waits again on the wire that is open.
  pub rearm-InFlight :
      (N : Noq) (k c : ℕ) (recvs news : List (ℕ × ℕ))
      → lookup k recvs ≡ some c
      → InFlight recvs news
      → InFlight (rearm N k (wire k) (remove k recvs)) news
  unfolding rearm lookup
  rearm-InFlight N k c recvs news came v =
      let open_now = All-lookup IsOpen recvs k c v.flying came in
      rw open_now.0 (record {
        flying =
            All-append IsOpen (remove k recvs) ((k, c) ∷ [])
              (All-map _ IsOpen _ (λ r h. h.0) (All-remove k recvs v.flying)) (open_now, tt);
        coming = v.coming;
        apart =
            All-map (IsApart recvs) (IsApart (remove k recvs ++ ((k, c) ∷ []))) news
              (λ r h.
                lookup-append_none r.0 (remove k recvs) ((k, c) ∷ []) (remove-IsApart k recvs r h)
                  (ground arith))
              v.apart;
      })

-- The wire under `k` has closed, and its receive came back with that.
pub closed-InFlight :
    (wire wire' : ℕ → Option ℕ) (next k c : ℕ) (recvs news : List (ℕ × ℕ))
    → ((j : ℕ) → k ≢ j → wire' j ≡ wire j)
    → lookup k recvs ≡ some c
    → InFlight wire next recvs news
    → InFlight wire' next (remove k recvs) news
closed-InFlight wire wire' next k c recvs news same came v = record {
  flying =
      All-map _ (IsOpen wire' next) _ (λ r h. (same r.0 h.1 ∙ h.0.0, h.0.1))
        (All-remove wire next k recvs v.flying);
  coming =
      All-map _ (IsOpen wire' next) news (λ r h. (same r.0 (λ e. ground arith) ∙ h.0.0, h.0.1))
        (All-both (IsOpen wire next) (λ r. lookup r.0 recvs ≡ none) news v.coming v.apart);
  apart = All-map _ _ news (remove-IsApart wire next k recvs) v.apart;
}

-- A wire is opened under the next key, and its receive is to be armed.
pub opened-InFlight :
    (wire wire' : ℕ → Option ℕ) (next c : ℕ) (recvs news : List (ℕ × ℕ))
    → ((j : ℕ) → j < next → wire' j ≡ wire j)
    → wire' next ≡ some c
    → InFlight wire next recvs news
    → InFlight wire' (suc next) recvs (news ++ ((next, c) ∷ []))
opened-InFlight wire wire' next c recvs news same fresh v =
    let later : (r : ℕ × ℕ) → IsOpen wire next r → IsOpen wire' (suc next) r =
      λ r h. (same r.0 h.1 ∙ h.0, omega (arith, h.1)) in
    record {
      flying = All-map _ _ recvs later v.flying;
      coming =
          All-append _ news ((next, c) ∷ []) (All-map _ _ news later v.coming)
            ((fresh, omega arith), tt);
      apart =
          All-append _ news ((next, c) ∷ []) v.apart
            (lookup-eq-none wire next next recvs v.flying (omega arith), tt);
    }
