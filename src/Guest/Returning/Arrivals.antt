-- ===== src/Guest/Returning/Arrivals.antt =====
-- What the wire and the clock bring to the spike's loop is dealt with (guest/src/endpoint.rs,
-- `handle_datagram` and `run`).
use component_iroh.Prelude.{
  ℕ, inl, inr, Bool-cases, false, ◌&&◌, Option, Option-cases, none, some, is_some, Result-cases,
  Text,
}
use component_iroh.Relay.Frames.{Bytes}
use component_iroh.Endpoint.Noq.{Noq, DatagramEvent, connection_event, new_connection, response}
use component_iroh.Guest.{Wire}
use component_iroh.Guest.Task.{Outcome, finished, failed, suspended, out_of_fuel}
use component_iroh.Guest.Settling.{
  IsFueled, Returns, at_once, through, and_then-Settles, result-Returns,
}
use component_iroh.Guest.Side.{Demo, report}
use component_iroh.Guest.Line.{Line, received, tick, Arrival, Pump, send}
use component_iroh.Guest.Loop.{
  remote_of, pass_event, accept_first, handle_datagram, on_closed, on_arrival,
}
use component_iroh.Guest.Ebbing.{Ebbs}
use component_iroh.Guest.Drained.Rounds.{send-Returns}

module _ {N : Noq} {W : Wire} {D : Demo N} (E : Ebbs D) (fault : ℕ → Option Text) where
  accept_first-Returns :
      (now : ℕ) (incoming : N.Incoming) (p : Pump N W)
      → Returns (λ k. accept_first D fault now incoming p)
  unfolding accept_first
  accept_first-Returns now incoming p = elim (Option-cases p.connection) [
    | inr (c, q) ↦ rw (q, accept_first) (at_once _ _ tt)
    | inl q ↦ elim (Result-cases (N.accept now incoming p.endpoint).1) [
      | inl (pair, r) ↦ rw (q, r, accept_first) (at_once _ _ tt)
      | inr (e, r) ↦ rw (q, r, accept_first) (at_once _ _ tt)
    ]
  ]

  on_response-Returns :
      (payload : Bytes) (p : Pump N W)
      → Returns (λ k. elim (send fault payload p.line) as (λ _. Outcome (Pump N W) (Unit {0})) [
        | finished l a ↦ finished (record p { line = l }) a
        | failed l e ↦ failed (record p { line = l }) e
        | suspended l ↦ suspended (record p { line = l })
        | out_of_fuel ↦ out_of_fuel
      ])
  on_response-Returns payload p =
      through _ _
        (λ o. elim o as (λ _. Outcome (Pump N W) (Unit {0})) [
          | finished l a ↦ finished (record p { line = l }) a
          | failed l e ↦ failed (record p { line = l }) e
          | suspended l ↦ suspended (record p { line = l })
          | out_of_fuel ↦ out_of_fuel
        ])
        _ (send-Returns E fault payload p.line) (λ o h. kept o h)
    where
      kept :
          (o : Outcome (Line W) (Unit {0}))
          → IsFueled false (λ _ _. Unit {0}) o
          → IsFueled false
              (λ _ _. Unit {0})
              (elim o as (λ _. Outcome (Pump N W) (Unit {0})) [
                | finished l a ↦ finished (record p { line = l }) a
                | failed l e ↦ failed (record p { line = l }) e
                | suspended l ↦ suspended (record p { line = l })
                | out_of_fuel ↦ out_of_fuel
              ])
      kept (finished l a) h = tt
      kept (failed l e) h = tt
      kept (suspended l) h = h
      kept out_of_fuel h = h

  handle_datagram-Returns :
      (now : ℕ) (datagram : Bytes) (p : Pump N W)
      → Returns (λ k. handle_datagram D fault now datagram p)
  unfolding handle_datagram
  handle_datagram-Returns now datagram p =
      go (record p { endpoint = (N.handle now (remote_of N p.connection) datagram p.endpoint).0 })
        ((N.handle now (remote_of N p.connection) datagram p.endpoint).1)
    where
      go :
          (p' : Pump N W) (event : Option (DatagramEvent N.ConnEvent N.Incoming))
          → Returns (λ k. elim event as (λ _. Outcome (Pump N W) (Unit {0})) [
            | none ↦ finished p' tt
            | some (connection_event handle e) ↦
                finished (record p' { connection = pass_event N handle e p.connection }) tt
            | some (new_connection incoming) ↦ accept_first D fault now incoming p'
            | some (response payload) ↦
                elim (send fault payload p.line) as (λ _. Outcome (Pump N W) (Unit {0})) [
                  | finished l a ↦ finished (record p' { line = l }) a
                  | failed l e ↦ failed (record p' { line = l }) e
                  | suspended l ↦ suspended (record p' { line = l })
                  | out_of_fuel ↦ out_of_fuel
                ]
          ])
      go p' none = at_once _ _ tt
      go p' (some (connection_event handle e)) = at_once _ _ tt
      go p' (some (new_connection incoming)) = accept_first-Returns now incoming p'
      go p' (some (response payload)) = on_response-Returns payload (record p' { line = p.line })

  on_closed-Returns : (e : Text) (p : Pump N W) → Returns (λ k. on_closed D fault e p)
  unfolding on_closed
  on_closed-Returns e p = elim (Bool-cases (is_some p.app.done_at && is_some p.connection)) [
    | inr q ↦ rw (q, on_closed) (at_once _ _ tt)
    | inl q ↦
        rw (q, on_closed)
          (and_then-Settles _ _ _ _ (result-Returns (report p.app) p) (λ s r _. at_once _ _ tt))
  ]

  pub on_arrival-Returns :
      (now : ℕ) (a : Arrival W) (p : Pump N W) → Returns (λ k. on_arrival D fault now a p)
  unfolding on_arrival
  on_arrival-Returns now tick p = at_once _ _ tt
  on_arrival-Returns now (received raw) p = elim (Result-cases (W.receive raw p.line.wire).1) [
    | inr (e, q) ↦ rw (q, on_arrival) (on_closed-Returns e _)
    | inl (none, q) ↦ rw (q, on_arrival) (at_once _ _ tt)
    | inl (some datagram, q) ↦
        rw (q, on_arrival)
          (and_then-Settles _ _ _ _ (handle_datagram-Returns now datagram _)
            (λ s _ _. at_once _ _ tt))
  ]
