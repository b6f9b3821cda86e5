-- ===== src/Endpoint/Streams/Writing.antt =====
-- `write_all` puts the bytes on the stream, in order and once (endpoint/src/endpoint_impl.rs).
use native.Mathlib.Numerals.{unary_clauses}
use component_iroh.Prelude.{
  ℕ, zero, suc, ◌+◌, ◌-◌, ◌≤◌, ◌<◌, ◌≡◌, refl, sym, subst, append-nil, ap, ◌∙◌, List, [], ◌∷◌, ◌++◌,
  map, Option, none, some, Option-cases, Result, ok, err, length, take, drop, All, Result-cases,
  inl, inr, nat_key, lookup, insert, lookup-insert_self, length-drop, append_assoc, arith,
}
use component_iroh.Relay.Frames.{Bytes}
use component_iroh.Endpoint.Types.{Error}
use component_iroh.Endpoint.Noq.{Noq, WriteError}
use component_iroh.Endpoint.State.{Run, ended, panicked, out_of_fuel, ◌>>=◌, ConnEntry, State}
use component_iroh.Endpoint.Waiting.{wait_until, with_entry_run}
use component_iroh.Endpoint.Waiting.Keeping.{Settles, wait_until-Settles}
use component_iroh.Endpoint.Streams.{
  Progress, write_loop, write_attempt, write_check, write_all, beside,
}

-- What the QUIC crate documents of `write`: it takes over a prefix of the slice, whose length it
-- returns, and nothing when it fails.
pub record Writes (N : Noq) : Type 0 where
  pub accepted : ℕ → N.Conn → Bytes
  pub write_some :
      (id : ℕ) (bytes : Bytes) (conn : N.Conn) (n : ℕ)
      → (N.write id bytes conn).1 ≡ ok n
      → (n ≤ length bytes)
        × (accepted id ((N.write id bytes conn).0) ≡ accepted id conn ++ take n bytes)
  pub write_none :
      (id : ℕ) (bytes : Bytes) (conn : N.Conn) (e : WriteError)
      → (N.write id bytes conn).1 ≡ err e
      → accepted id ((N.write id bytes conn).0) ≡ accepted id conn

pub add_suc : (m n : ℕ) → suc m + n ≡ suc (m + n)
add_suc m n = omega arith

take_add {ℓ} :
    {A : Type ℓ} (m n : ℕ) (xs : List A) → take (m + n) xs ≡ take m xs ++ take n (drop m xs)
take_add zero n xs = ap (λ k. take k xs) (omega arith)
take_add (suc m) zero [] = simp unary_clauses refl
take_add (suc m) (suc n) [] = simp unary_clauses refl
take_add (suc m) n (x ∷ xs) =
    ap (λ k. take k (x ∷ xs)) (add_suc m n) ∙ ap (λ ys. x ∷ ys) (take_add m n xs)

pub take_all {ℓ} : {A : Type ℓ} (xs : List A) → take (length xs) xs ≡ xs
take_all [] = refl
take_all (x ∷ xs) = ap (◌∷◌ x) (take_all xs)

module _ (N : Noq) (L : Writes N) where
  open L use {accepted, write_some, write_none}

  -- The stream carries the first `offset` bytes behind what it carried before.
  abbrev Carries : Bytes → ℕ → Bytes → N.Conn → ℕ → Type 0
  Carries base id bytes conn offset =
      (accepted id conn ≡ base ++ take offset bytes) × (offset ≤ length bytes)

  abbrev Advanced : Bytes → ℕ → Bytes → Run (N.Conn × Progress N) → Type 0
  Advanced base id bytes panicked = ⊥
  Advanced base id bytes out_of_fuel = ⊥
  Advanced base id bytes (ended r) =
      Carries base id bytes (r.0) (r.1.0) × (r.1.1 ≡ some (ok tt) → r.1.0 ≡ length bytes)

  write-Carries :
      (id : ℕ) (base bytes : Bytes) (offset n : ℕ) (conn : N.Conn)
      → Carries base id bytes conn offset
      → (N.write id (drop offset bytes) conn).1 ≡ ok n
      → Carries base id bytes ((N.write id (drop offset bytes) conn).0) (offset + n)
  write-Carries id base bytes offset n conn h e = ground (
    arith,
    write_some id (drop offset bytes) conn n e,
    take_add offset n bytes,
    length-drop offset bytes,
    append_assoc base (take offset bytes) (take n (drop offset bytes)),
  )

  write_loop-Advanced :
      (fuel id : ℕ) (base bytes : Bytes) (offset : ℕ) (conn : N.Conn)
      → length bytes - offset < fuel
      → Carries base id bytes conn offset
      → Advanced base id bytes (write_loop N fuel id bytes offset conn)
  unfolding write_loop
  write_loop-Advanced zero id base bytes offset conn hf h = absurd (omega (arith, hf))
  write_loop-Advanced (suc fuel) id base bytes offset conn hf h =
      elim (Result-cases (N.write id (drop offset bytes) conn).1) [
        | inl (n, e) ↦ ground (
          arith,
          write-Carries id base bytes offset n conn h e,
          write_loop-Advanced fuel id base bytes (offset + n)
              ((N.write id (drop offset bytes) conn).0),
        )
        | inr (f, e) ↦ ground (arith, write_none id (drop offset bytes) conn f e)
      ]

  -- The stream of the connection under a handle carries these bytes.
  unfoldable pub HasAccepted : ℕ → ℕ → Bytes → State N → Type 0
  HasAccepted handle id bytes s =
      (entry : ConnEntry N) × (lookup handle s.conns ≡ some entry)
      × (accepted id entry.conn ≡ bytes)

  AttemptDone : ℕ → Bytes → Bytes → Run (ConnEntry N × Progress N) → Type 0
  AttemptDone id base bytes panicked = ⊥
  AttemptDone id base bytes out_of_fuel = ⊥
  AttemptDone id base bytes (ended r) =
      Carries base id bytes ((r.0).conn) (r.1.0) × (r.1.1 ≡ some (ok tt) → r.1.0 ≡ length bytes)

  attempt-bind :
      (id : ℕ) (base bytes : Bytes) (entry : ConnEntry N) (r : Run (N.Conn × Progress N))
      → Advanced base id bytes r
      → AttemptDone id base bytes
          (r >>= (λ (p : N.Conn × Progress N). ended (record entry { conn = p.0 }, p.1)))
  unfolding AttemptDone
  attempt-bind id base bytes entry (ended r) h = h
  attempt-bind id base bytes entry panicked h = h
  attempt-bind id base bytes entry out_of_fuel h = h

  write_attempt-Done :
      (id : ℕ) (base bytes : Bytes) (offset : ℕ) (entry : ConnEntry N)
      → Carries base id bytes entry.conn offset
      → AttemptDone id base bytes (write_attempt N id bytes offset entry)
  unfolding write_attempt AttemptDone
  write_attempt-Done id base bytes offset entry h = elim (Option-cases entry.error) [
    | inr (e, q) ↦ rw q (h, λ q'. absurd (ground (arith, q')))
    | inl q ↦ rw q (
        attempt-bind id base bytes (record entry { error = none })
          (write_loop N (suc (length bytes - offset)) id bytes offset entry.conn)
          (write_loop-Advanced (suc (length bytes - offset)) id base bytes offset entry.conn
            (omega arith) h))
  ]

  abbrev store : ℕ → State N → ConnEntry N × Progress N → Run (State N × Progress N)
  store handle s p = ended (record s { conns = insert handle (p.0) s.conns }, p.1)

  abbrev regroup : State N × Progress N → Run ((State N × ℕ) × Option (Result (Unit {0}) Error))
  regroup q = ended ((q.0, q.1.0), q.1.1)

  module _ (handle id : ℕ) (base bytes : Bytes) where
    abbrev Under : State N × ℕ → Type 0
    Under p = HasAccepted handle id (base ++ take (p.1) bytes) (p.0) × (p.1 ≤ length bytes)

    abbrev Final : State N × ℕ → Result (Unit {0}) Error → Type 0
    Final p r = Under p × (r ≡ ok tt → p.1 ≡ length bytes)

    check-bind :
        (s : State N) (r : Run (ConnEntry N × Progress N))
        → AttemptDone id base bytes r
        → Settles Under Final (r >>= store handle s >>= regroup)
    unfolding AttemptDone HasAccepted
    check-bind s (ended (entry, (offset, none))) h =
        ((entry, lookup-insert_self handle entry s.conns, h.0.0), h.0.1)
    check-bind s (ended (entry, (offset, some r))) h =
        (((entry, lookup-insert_self handle entry s.conns, h.0.0), h.0.1), λ q. h.1 (ap some q))
    check-bind s panicked h = h
    check-bind s out_of_fuel h = h

    write_check-Settles :
        (p : State N × ℕ) → Under p → Settles Under Final (write_check N handle id bytes p)
    unfolding write_check with_entry_run HasAccepted
    write_check-Settles p ((entry, found, carried), h) =
        rw (found, Settles)
          (check-bind (p.0) (write_attempt N id bytes (p.1) entry)
            (write_attempt-Done id base bytes (p.1) entry (carried, h)))

  -- The call has put all the bytes on the stream, behind what it carried, or fails or waits with a
  -- prefix of them there.
  unfoldable pub WroteAll :
      ℕ → ℕ → Bytes → Bytes → Run (State N × Option (Result (Unit {0}) Error)) → Type 0
  WroteAll handle id base bytes panicked = ⊥
  WroteAll handle id base bytes out_of_fuel = ⊥
  WroteAll handle id base bytes (ended (s, some (ok _))) = HasAccepted handle id (base ++ bytes) s
  WroteAll handle id base bytes (ended (s, _)) =
      (n : ℕ) × (n ≤ length bytes) × HasAccepted handle id (base ++ take n bytes) s

  all-WroteAll :
      (handle id : ℕ) (base bytes : Bytes)
      (r : Run ((State N × ℕ) × Option (Result (Unit {0}) Error)))
      → Settles (Under handle id base bytes) (Final handle id base bytes) r
      → WroteAll handle id base bytes
          (r >>= (λ (q : (State N × ℕ) × Option (Result (Unit {0}) Error)). ended (q.0.0, q.1)))
  unfolding WroteAll
  all-WroteAll handle id base bytes panicked h = h
  all-WroteAll handle id base bytes out_of_fuel h = h
  all-WroteAll handle id base bytes (ended ((s, n), none)) h = (n, h.1, h.0)
  all-WroteAll handle id base bytes (ended ((s, n), some (err e))) h = (n, h.0.1, h.0.0)
  all-WroteAll handle id base bytes (ended ((s, n), some (ok tt))) h =
      subst (λ ys. HasAccepted handle id (base ++ ys) s)
        (ap (λ k. take k bytes) (h.1 refl) ∙ take_all bytes) h.0.0

  beside-Under :
      (handle id : ℕ) (base bytes : Bytes) (others : List (State N → State N))
      → All
          (λ f.
            (x : Bytes) (s : State N) → HasAccepted handle id x s → HasAccepted handle id x (f s))
          others
      → All
          (λ f. (p : State N × ℕ) → Under handle id base bytes p → Under handle id base bytes (f p))
          (map (beside N) others)
  beside-Under handle id base bytes [] h = tt
  beside-Under handle id base bytes (f ∷ fs) h = (
    λ p u. (h.0 (base ++ take (p.1) bytes) (p.0) u.0, u.1),
    beside-Under handle id base bytes fs h.1,
  )

  -- Under the documented behaviour of the QUIC crate's `write`, and if what happens between its
  -- attempts keeps the connection and the bytes of the stream, `write_all` neither panics nor loops
  -- for ever. When it reports success, the stream carries exactly the bytes given, behind what it
  -- carried before. When it fails or still waits, it carries a prefix of them there.
  pub write_all-WroteAll :
      (handle id : ℕ) (base bytes : Bytes) (others : List (State N → State N)) (s : State N)
      → All
          (λ f.
            (x : Bytes) (s' : State N)
            → HasAccepted handle id x s'
            → HasAccepted handle id x (f s'))
          others
      → HasAccepted handle id base s
      → WroteAll handle id base bytes (write_all N handle id bytes others s)
  unfolding write_all
  write_all-WroteAll handle id base bytes others s hf hs =
      all-WroteAll handle id base bytes
        (wait_until (write_check N handle id bytes) (map (beside N) others) (s, 0))
        (wait_until-Settles (Under handle id base bytes) (Final handle id base bytes)
          (write_check N handle id bytes) (write_check-Settles handle id base bytes)
          (map (beside N) others) (beside-Under handle id base bytes others hf) (s, 0)
          (subst (λ ys. HasAccepted handle id ys s) (sym (append-nil base)) hs, omega arith))
