-- ===== src/Guest/Drained/Rounds.antt =====
-- The transmits, the rounds and the drain of the spike's loop come to an end (guest/src/endpoint.rs,
-- `run`), if its connection runs out.
use component_iroh.Prelude.{
  ℕ, zero, suc, ◌≤◌, ◌<◌, ◌≡◌, refl, inl, inr, ◌⊎◌, Bool, true, false, ◌||◌, Option, Option-cases,
  Result-cases, length, Text, arith,
}
use component_iroh.Relay.Frames.{Bytes}
use component_iroh.Endpoint.Noq.{Noq}
use component_iroh.Guest.{Wire}
use component_iroh.Guest.Task.{
  Outcome, finished, failed, suspended, out_of_fuel, Task, and_then, pure, ◌>>=◌,
}
use component_iroh.Guest.Settling.{
  IsFueled, Settles, Returns, at_once, later, reindexed, through, and_then-Settles,
}
use component_iroh.Guest.Side.{Demo}
use component_iroh.Guest.Line.{Line, Busy, send}
use component_iroh.Guest.Turn.{transmits, drain_round, drain, on_line, with_conn}
use component_iroh.Guest.Ebbing.{Ebbs}
use component_iroh.Guest.Drained.{
  inbound, outbound, Taken, endpoint_events-Settles, app_events-Settles,
}

module _ {N : Noq} {W : Wire} {D : Demo N} (E : Ebbs D) (fault : ℕ → Option Text) where
  -- What the transmits leave.
  abbrev Sent : Busy N W → Busy N W → Bool → Type 0
  Sent b b' true =
      (inbound E fault b' ≤ inbound E fault b) × (outbound E fault b' < outbound E fault b)
  Sent b b' false =
      (inbound E fault b' ≤ inbound E fault b) × (outbound E fault b' ≤ outbound E fault b)

  sent :
      (b b1 b' : Busy N W) (p : Bool)
      → (inbound E fault b1 ≤ inbound E fault b) × (outbound E fault b1 < outbound E fault b)
      → Sent b1 b' p
      → (inbound E fault b' ≤ inbound E fault b) × (outbound E fault b' < outbound E fault b)
  sent b b1 b' true (h, o) (q, r) = (omega arith, omega arith)
  sent b b1 b' false (h, o) (q, r) = (omega arith, omega arith)

  pub send-Returns : (payload : Bytes) (l : Line W) → Returns (λ k. send fault payload l)
  unfolding send
  send-Returns payload l = elim (Result-cases (W.address l.wire)) [
    | inr (e, q) ↦ rw (q, send) (at_once _ _ tt)
    | inl (to, q) ↦ elim (Option-cases (fault (length l.sent))) [
      | inl r ↦ rw (q, r, send) (at_once _ _ tt)
      | inr (e, r) ↦ rw (q, r, send) (at_once _ _ tt)
    ]
  ]

  on_line-Settles :
      (payload : Bytes) (b : Busy N W)
      → Settles false
          (λ b' (_ : Unit {0}). b'.side ≡ b.side)
          (λ k. on_line D fault (send fault payload) b)
  on_line-Settles payload b =
      through _ _
        (λ o. elim o as (λ _. Outcome (Busy N W) (Unit {0})) [
          | finished l a ↦ finished (record b { line = l }) a
          | failed l e ↦ failed (record b { line = l }) e
          | suspended l ↦ suspended (record b { line = l })
          | out_of_fuel ↦ out_of_fuel
        ])
        _ (send-Returns payload b.line) (λ o h. kept o h)
    where
      kept :
          (o : Outcome (Line W) (Unit {0}))
          → IsFueled false (λ _ _. Unit {0}) o
          → IsFueled false
              (λ b' (_ : Unit {0}). b'.side ≡ b.side)
              (elim o as (λ _. Outcome (Busy N W) (Unit {0})) [
                | finished l a ↦ finished (record b { line = l }) a
                | failed l e ↦ failed (record b { line = l }) e
                | suspended l ↦ suspended (record b { line = l })
                | out_of_fuel ↦ out_of_fuel
              ])
      kept (finished l a) h = refl
      kept (failed l e) h = tt
      kept (suspended l) h = absurd h
      kept out_of_fuel h = absurd h

  transmits-Settles :
      (m now : ℕ) (b : Busy N W)
      → outbound E fault b < m
      → Settles false (λ b' p. Sent b b' p) (λ k. transmits D fault k now b)
  unfolding transmits
  transmits-Settles zero now b lt = absurd (omega arith)
  transmits-Settles (suc m) now b lt = elim (Option-cases (N.poll_transmit now b.side.conn).1) [
    | inl q ↦
        let h = rw q at (E.transmit_falls now b.side.conn) in
        later _ _ (λ k. finished (with_conn D fault ((N.poll_transmit now b.side.conn).0) b) false)
          (λ k. rw (q, transmits) refl) (at_once _ _ h)
    | inr (x, q) ↦
        let h = rw q at (E.transmit_falls now b.side.conn) in
        let b0 = with_conn D fault ((N.poll_transmit now b.side.conn).0) b in
        later _ _
          (λ k.
            and_then (on_line D fault (send fault x.datagram) b0)
              (λ _ b'. and_then (transmits D fault k now b') (λ _. pure true)))
          (λ k. rw (q, transmits) refl)
          (and_then-Settles _ _ _ _ (on_line-Settles x.datagram b0) (λ b1 _ e.
            let h1 : (inbound E fault b1 ≤ inbound E fault b)
                × (outbound E fault b1 < outbound E fault b) =
              rw e h in
            and_then-Settles _ _ _ _ (transmits-Settles m now b1 (omega (arith, h1.1)))
              (λ b' p t. at_once _ _ (sent b b1 b' p h1 t))))
  ]

  -- What a round leaves, if it progressed: less to come in, or no more, and less to go out.
  abbrev Moved : Busy N W → Busy N W → Bool → Type 0
  Moved b b' true =
      (inbound E fault b' < inbound E fault b)
      ⊎ ((inbound E fault b' ≤ inbound E fault b) × (outbound E fault b' < outbound E fault b))
  Moved b b' false = Unit

  moved :
      (b b1 b2 b3 : Busy N W) (p q r : Bool)
      → Taken E fault b b1 p
      → Taken E fault b1 b2 q
      → Sent b2 b3 r
      → Moved b b3 (p || (q || r))
  moved b b1 b2 b3 true true true h i (j, _) = inl (omega arith)
  moved b b1 b2 b3 true true false h i (j, _) = inl (omega arith)
  moved b b1 b2 b3 true false true h (i, _) (j, _) = inl (omega arith)
  moved b b1 b2 b3 true false false h (i, _) (j, _) = inl (omega arith)
  moved b b1 b2 b3 false true true (h, _) i (j, _) = inl (omega arith)
  moved b b1 b2 b3 false true false (h, _) i (j, _) = inl (omega arith)
  moved b b1 b2 b3 false false true (h, x) (i, y) (j, z) = inr (omega arith, omega arith)
  moved b b1 b2 b3 false false false h i j = tt

  drain_round-Settles :
      (handle started now : ℕ) (b : Busy N W)
      → Settles false (λ b' p. Moved b b' p) (λ k. drain_round D fault k handle started now b)
  unfolding drain_round ◌>>=◌
  drain_round-Settles handle started now b =
      and_then-Settles _ _ _ _
        (endpoint_events-Settles E fault (suc (inbound E fault b)) handle b (omega arith))
        (λ b1 p h.
          and_then-Settles _ _ _ _
            (app_events-Settles E fault (suc (inbound E fault b1)) started now b1 (omega arith))
            (λ b2 q i.
              and_then-Settles _ _ _ _
                (transmits-Settles (suc (outbound E fault b2)) now b2 (omega arith))
                (λ b3 r j. at_once _ _ (moved b b1 b2 b3 p q r h i j))))

  after_round-Returns :
      (rest : ℕ → Task (Busy N W) (Unit {0})) (p : Bool) (b b' : Busy N W)
      → Moved b b' p
      → (Moved b b' true → Returns (λ k. rest k b'))
      → Returns (λ k.
        (elim p as (λ _. Task (Busy N W) (Unit {0})) [ false ↦ pure tt | true ↦ rest k ]) b')
  after_round-Returns rest true b b' h k = k h
  after_round-Returns rest false b b' h k = at_once _ _ tt

  pub drain-Returns :
      (i j handle started now : ℕ) (g : ℕ → ℕ) (b : Busy N W)
      → inbound E fault b < i
      → outbound E fault b < j
      → ((n : ℕ) → n ≤ g n)
      → Returns (λ k. drain D fault k (g k) handle started now b)
  unfolding drain
  drain-Returns zero j handle started now g b h o more = absurd (omega arith)
  drain-Returns (suc i) zero handle started now g b h o more = absurd (omega arith)
  drain-Returns (suc i) (suc j) handle started now g b h o more =
      later _ _ _ (λ k. refl)
        (and_then-Settles _ _ _ _
          (reindexed _ (λ k. g (suc k)) _ (λ k. omega (arith, more (suc k)))
            (drain_round-Settles handle started now b))
          (λ b' p q.
            after_round-Returns (λ k. drain D fault k (g (suc k)) handle started now) p b b' q
              (λ q'. elim q' [
                | inl x ↦
                    drain-Returns i (suc (outbound E fault b')) handle started now (λ k. g (suc k))
                      b' (omega arith) (omega arith) (λ k. omega (arith, more (suc k)))
                | inr (x, y) ↦
                    drain-Returns (suc i) j handle started now (λ k. g (suc k)) b' (omega arith)
                      (omega arith) (λ k. omega (arith, more (suc k)))
              ])))
