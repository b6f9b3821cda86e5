-- ===== src/Guest/Drained.antt =====
-- The drain of the spike's loop comes to an end (guest/src/endpoint.rs, `run`), if its connection runs
-- out.
pub mod Rounds
use component_iroh.Prelude.{
  ℕ, zero, suc, ◌≤◌, ◌<◌, ◌≡◌, refl, inl, inr, ◌⊎◌, Bool, true, false, ◌||◌, Option, Option-cases,
  Result-cases, length, none, some, Result, ok, err, Text, arith,
}
use component_iroh.Relay.Frames.{Bytes}
use component_iroh.Endpoint.Noq.{Noq, Event, Transmit}
use component_iroh.Guest.{Wire}
use component_iroh.Guest.Task.{
  Outcome, finished, failed, suspended, out_of_fuel, Task, and_then, pure, ◌>>=◌,
}
use component_iroh.Guest.Settling.{
  IsFueled, Settles, Returns, at_once, later, reindexed, through, and_then-Settles,
}
use component_iroh.Guest.Side.{Demo, Side}
use component_iroh.Guest.App.{handle_event}
use component_iroh.Guest.Line.{Line, Busy, send}
use component_iroh.Guest.Turn.{
  endpoint_events, app_events, transmits, drain_round, drain, on_side, on_line, with_conn,
}
use component_iroh.Guest.Ebbing.{Ebbs, Falls, Low}
use component_iroh.Guest.Ebbing.Taking.{handle_event-Ending}

module _ {N : Noq} {W : Wire} {D : Demo N} (E : Ebbs D) (fault : ℕ → Option Text) where
  abbrev pub inbound : Busy N W → ℕ
  inbound b = E.inbound b.side.conn

  abbrev pub outbound : Busy N W → ℕ
  outbound b = E.outbound b.side.conn

  -- What a loop that takes in leaves, by whether it progressed.
  abbrev pub Taken : Busy N W → Busy N W → Bool → Type 0
  Taken b b' true = inbound b' < inbound b
  Taken b b' false = (inbound b' ≤ inbound b) × (outbound b' ≤ outbound b)

  taken :
      (b b1 b' : Busy N W) (p : Bool)
      → inbound b1 < inbound b
      → Taken b1 b' p
      → inbound b' < inbound b
  taken b b1 b' true h q = omega arith
  taken b b1 b' false h (q, _) = omega arith

  pub on_side-Settles :
      {A : Type 0} {Q : Side N → A → Type 0} (m : ℕ → Task (Side N) A) (b : Busy N W)
      → Settles false Q (λ k. m k b.side)
      → Settles false (λ (b' : Busy N W) a. Q b'.side a) (λ k. on_side D fault (m k) b)
  on_side-Settles {A} {Q} m b k =
      through _ _
        (λ o. elim o as (λ _. Outcome (Busy N W) A) [
          | finished s a ↦ finished (record b { side = s }) a
          | failed s e ↦ failed (record b { side = s }) e
          | suspended s ↦ suspended (record b { side = s })
          | out_of_fuel ↦ out_of_fuel
        ])
        _ k (λ o h. kept o h)
    where
      kept :
          (o : Outcome (Side N) A)
          → IsFueled false Q o
          → IsFueled false
              (λ (b' : Busy N W) a. Q b'.side a)
              (elim o as (λ _. Outcome (Busy N W) A) [
                | finished s a ↦ finished (record b { side = s }) a
                | failed s e ↦ failed (record b { side = s }) e
                | suspended s ↦ suspended (record b { side = s })
                | out_of_fuel ↦ out_of_fuel
              ])
      kept (finished s a) h = h
      kept (failed s e) h = tt
      kept (suspended s) h = h
      kept out_of_fuel h = h

  -- The state after an event of the endpoint.
  abbrev after_event : ℕ → N.EndpointEvent → Busy N W → Busy N W
  after_event handle e b =
      let conn = (N.poll_endpoint_events b.side.conn).0 in
      record b {
        endpoint = (N.endpoint_event handle e b.endpoint).0;
        side = record (b.side) {
          conn = elim (N.endpoint_event handle e b.endpoint).1 [
            | none ↦ conn
            | some x ↦ N.conn_event x conn
          ];
        };
      }

  pub endpoint_events-Settles :
      (m handle : ℕ) (b : Busy N W)
      → inbound b < m
      → Settles false (λ b' p. Taken b b' p) (λ k. endpoint_events D fault k handle b)
  unfolding endpoint_events
  endpoint_events-Settles zero handle b lt = absurd (omega arith)
  endpoint_events-Settles (suc m) handle b lt =
      elim (Option-cases (N.poll_endpoint_events b.side.conn).1) [
        | inl q ↦
            later _ _
              (λ k. finished (with_conn D fault ((N.poll_endpoint_events b.side.conn).0) b) false)
              (λ k. rw (q, endpoint_events) refl) (at_once _ _ (E.no_event_falls b.side.conn q))
        | inr (e, q) ↦
            let h = E.event_falls handle b.side.conn e b.endpoint q in
            later _ _
              (λ k.
                and_then (endpoint_events D fault k handle (after_event handle e b))
                  (λ _. pure true))
              (λ k. rw (q, endpoint_events) refl)
              (and_then-Settles _ _ _ _
                (endpoint_events-Settles m handle (after_event handle e b) (omega arith))
                (λ b' p t. at_once _ _ (taken b (after_event handle e b) b' p h t)))
      ]

  pub app_events-Settles :
      (m started now : ℕ) (b : Busy N W)
      → inbound b < m
      → Settles false (λ b' p. Taken b b' p) (λ k. app_events D fault k started now b)
  unfolding app_events
  app_events-Settles zero started now b lt = absurd (omega arith)
  app_events-Settles (suc m) started now b lt = elim (Option-cases (N.poll b.side.conn).1) [
    | inl q ↦
        let h = rw q at (E.poll_falls b.side.conn) in
        later _ _ (λ k. finished (with_conn D fault ((N.poll b.side.conn).0) b) false)
          (λ k. rw (q, app_events) refl) (at_once _ _ h)
    | inr (e, q) ↦
        let h = rw q at (E.poll_falls b.side.conn) in
        let c = (N.poll b.side.conn).0 in
        later _ _
          (λ k.
            and_then
              (on_side D fault (handle_event D (suc k) started now e) (with_conn D fault c b))
              (λ _ b'. and_then (app_events D fault k started now b') (λ _. pure true)))
          (λ k. rw (q, app_events) refl)
          (and_then-Settles _ _ _ _
            (on_side-Settles (λ k. handle_event D (suc k) started now e) (with_conn D fault c b)
              (reindexed _ suc _ (λ k. omega arith)
                (handle_event-Ending E (E.inbound c) started now e (record (b.side) { conn = c })
                  (omega arith))))
            (λ b1 _ h1.
              and_then-Settles _ _ _ _ (app_events-Settles m started now b1 (omega (arith, h, h1)))
                (λ b' p t. at_once _ _ (taken b b1 b' p (omega (arith, h, h1)) t))))
  ]
