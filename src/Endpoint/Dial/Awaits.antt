-- ===== src/Endpoint/Dial/Awaits.antt =====
-- What the awaits of `connect` keep (endpoint/src/endpoint_impl.rs).
use component_iroh.Prelude.{
  ℕ, ◌≡◌, ◌⊎◌, refl, List, [], ◌∷◌, Option, none, some, Result, ok, err, inl, inr, Text, nat_key,
  lookup, All,
}
use component_iroh.Endpoint.Types.{Error}
use component_iroh.Endpoint.Noq.{Noq}
use component_iroh.Endpoint.Wires.{Peer}
use component_iroh.Endpoint.State.{Run, ended, panicked, out_of_fuel, State, ConnEntry}
use component_iroh.Endpoint.State.Drains.{AllAuthentic}
use component_iroh.Endpoint.Waiting.Keeping.{Settles, wait_until-Settles}
use component_iroh.Endpoint.Dial.{
  claim_relay, Claim, pooled, refused_claim, claimed, waits, finish_open,
}
use component_iroh.Endpoint.Dial.Connecting.{
  Clocked, Call, ◌>>=◌, give, Opening, wait_check, ensure_relay, dial_key, upgrade_key,
}

module _ (N : Noq) where
  -- The connection stands under the handle, for the peer.
  abbrev pub IsExpected : ℕ → Peer → State N → Type 0
  IsExpected handle peer s =
      (entry : ConnEntry N) × (lookup handle s.conns ≡ some entry)
      × (entry.expected_peer ≡ some peer)

  -- What others do keeps every connection authentic, and drops none that is expected.
  pub record IsFair (turn : Clocked N → Clocked N) : Type 0 where
    pub authentic : (p : Clocked N) → AllAuthentic N (p.1).conns → AllAuthentic N ((turn p).1).conns
    pub expected :
        (p : Clocked N) (handle : ℕ) (peer : Peer)
        → IsExpected handle peer (p.1)
        → IsExpected handle peer ((turn p).1)

  -- It does not panic, and if it returns a value, this holds of it.
  abbrev pub Gives {ℓ} :
      {A : Type ℓ} → (A → State N → Type 0) → Run (Clocked N × Option (Result A Error)) → Type 0
  Gives G (ended (p, some (ok a))) = G a (p.1)
  Gives G (ended (p, some (err e))) = Unit
  Gives G (ended (p, none)) = Unit
  Gives G panicked = ⊥
  Gives G out_of_fuel = ⊥

  pub record Sure {ℓ} {A : Type ℓ} (P : State N → Type 0) (G : A → State N → Type 0) (m : Call N A)
      : Type ℓ where
    pub sure : (p : Clocked N) → P (p.1) → Gives G (m p)

  after-Gives {ℓ κ} :
      {A : Type ℓ} {B : Type κ} (G : A → State N → Type 0) (H : B → State N → Type 0)
      (r : Run (Clocked N × Option (Result A Error))) (f : A → Call N B)
      → Gives G r
      → ((a : A) → Sure (G a) H (f a))
      → Gives H (elim r [
        | panicked ↦ panicked
        | out_of_fuel ↦ out_of_fuel
        | ended (q, none) ↦ ended (q, none)
        | ended (q, some (err e)) ↦ ended (q, some (err e))
        | ended (q, some (ok a)) ↦ f a q
      ])
  after-Gives G H panicked f h g = h
  after-Gives G H out_of_fuel f h g = h
  after-Gives G H (ended (q, none)) f h g = tt
  after-Gives G H (ended (q, some (err e))) f h g = tt
  after-Gives G H (ended (q, some (ok a))) f h g = (g a).sure q h

  pub >>=-Sure {ℓ κ} :
      {A : Type ℓ} {B : Type κ} (P : State N → Type 0) (G : A → State N → Type 0)
      (H : B → State N → Type 0) (m : Call N A) (f : A → Call N B)
      → Sure P G m
      → ((a : A) → Sure (G a) H (f a))
      → Sure P H (◌>>=◌ N m f)
  unfolding ◌>>=◌
  >>=-Sure P G H m f h g = record { sure = λ p v. after-Gives G H (m p) f (h.sure p v) g }

  give-Sure {ℓ} :
      {A : Type ℓ} (P : State N → Type 0) (G : A → State N → Type 0) (r : Result A Error)
      → ((a : A) (s : State N) → r ≡ ok a → P s → G a s)
      → Sure P G (give N r)
  give-Sure P G (ok a) h = record { sure = λ p v. h a (p.1) refl v }
  give-Sure P G (err e) h = record { sure = λ p v. tt }

  abbrev pub Authentic : State N → Type 0
  Authentic s = AllAuthentic N s.conns

  pub settled-Gives {ℓ} :
      {A : Type ℓ} (P : Clocked N → Type 0) (Q : A → State N → Type 0)
      (r : Run (Clocked N × Option (Result A Error)))
      → Settles P (λ p x. Gives Q (ended (p, some x))) r
      → Gives Q r
  settled-Gives P Q panicked h = h
  settled-Gives P Q out_of_fuel h = h
  settled-Gives P Q (ended (q, none)) h = tt
  settled-Gives P Q (ended (q, some (err e))) h = tt
  settled-Gives P Q (ended (q, some (ok a))) h = h

  abbrev pub KeyGiven : ℕ → State N → Type 0
  KeyGiven key s = Authentic s

  given_key :
      (p : Clocked N) (r : Option (Result ℕ Error))
      → Authentic (p.1)
      → Settles (λ q. Authentic (q.1)) (λ q x. Gives KeyGiven (ended (q, some x))) (ended (p, r))
  given_key p none v = v
  given_key p (some (ok key)) v = v
  given_key p (some (err e)) v = tt

  result_key :
      (p : Clocked N) (r : Result ℕ Error) → Authentic (p.1) → Gives KeyGiven (ended (p, some r))
  result_key p (ok key) v = v
  result_key p (err e) v = tt

  pub record IsFairOpening (o : Opening N) : Type 0 where
    pub during : IsFair (o.during)
    pub waiting : All IsFair o.waiting

  fair_turns :
      (turns : List (Clocked N → Clocked N))
      → All IsFair turns
      → All (λ f. (p : Clocked N) → Authentic (p.1) → Authentic ((f p).1)) turns
  fair_turns [] k = tt
  fair_turns (turn ∷ turns) (fair, k) = (fair.authentic, fair_turns turns k)

  Claim-cases :
      (c : Claim)
      → ((key : ℕ) × (c ≡ pooled key))
        ⊎ (((e : Error) × (c ≡ refused_claim e)) ⊎ ((c ≡ claimed) ⊎ (c ≡ waits)))
  Claim-cases (pooled key) = inl (key, refl)
  Claim-cases (refused_claim e) = inr (inl (e, refl))
  Claim-cases claimed = inr (inr (inl refl))
  Claim-cases waits = inr (inr (inr refl))

  ensure_relay-Sure :
      (second : ℕ) (o : Opening N) (url : Text)
      → IsFairOpening o
      → Sure Authentic KeyGiven (ensure_relay N second o url)
  unfolding ensure_relay
  ensure_relay-Sure second o url fair = record {
    sure = λ p v. elim (Claim-cases (claim_relay (p.1).wires url).1) [
      | inl (key, e) ↦ rw (e, ensure_relay) v
      | inr (inl (x, e)) ↦ rw (e, ensure_relay) tt
      | inr (inr (inl e)) ↦
          let t = o.during (p.0, record (p.1) { wires = (claim_relay (p.1).wires url).0 }) in
          let (w, result) = finish_open (t.1).wires url o.opened in
          rw (e, ensure_relay)
            (result_key (t.0, record (t.1) { wires = w }) result (fair.during.authentic _ v))
      | inr (inr (inr e)) ↦
          rw (e, ensure_relay)
            (settled-Gives (λ q. Authentic (q.1)) KeyGiven _
              (wait_until-Settles (λ q. Authentic (q.1)) (λ q x. Gives KeyGiven (ended (q, some x)))
                (wait_check N second (p.0) url) (λ q. given_key q _) o.waiting
                (fair_turns o.waiting fair.waiting) _ v))
    ];
  }

  pub dial_key-Sure :
      (second : ℕ) (o : Opening N) (url : Option Text)
      → IsFairOpening o
      → Sure Authentic KeyGiven (dial_key N second o url)
  unfolding dial_key
  dial_key-Sure second o none fair = give-Sure Authentic KeyGiven _ (λ a s e v. v)
  dial_key-Sure second o (some url) fair = ensure_relay-Sure second o url fair

  pub upgrade_key-Sure :
      (second : ℕ) (o : Opening N) (url : Option Text)
      → IsFairOpening o
      → Sure Authentic (λ key s. Authentic s) (upgrade_key N second o url)
  unfolding upgrade_key
  upgrade_key-Sure second o none fair = give-Sure Authentic (λ key s. Authentic s) _ (λ a s e v. v)
  upgrade_key-Sure second o (some url) fair =
      >>=-Sure Authentic KeyGiven (λ key s. Authentic s) (ensure_relay N second o url) _
        (ensure_relay-Sure second o url fair)
        (λ key. give-Sure (KeyGiven key) (λ key s. Authentic s) _ (λ a s e v. v))
