-- ===== src/Guest/Returning.antt =====
-- A turn of the spike's loop comes to an end (guest/src/endpoint.rs, `run`), if its connection runs
-- out.
mod Arrivals
mod Signaled
pub mod Meeting
pub mod Loop
use component_iroh.Prelude.{
  ℕ, suc, ◌<◌, ◌-◌, refl, inl, inr, Bool, Bool-cases, true, false, not, ◌&&◌, ◌++◌, Option,
  Option-cases, none, some, is_some, codes, Text, arith, ltb,
}
use component_iroh.Relay.Frames.{Bytes}
use component_iroh.Endpoint.Noq.{Noq}
use component_iroh.Guest.{Wire}
use component_iroh.Guest.Task.{
  Outcome, finished, failed, suspended, out_of_fuel, Task, and_then, pure, ◌>>=◌, of_result,
}
use component_iroh.Guest.Settling.{
  IsFueled, Settles, Returns, at_once, through, and_then-Settles, result-Returns,
}
use component_iroh.Guest.Settling.Cases.{by_test, by_if, by_decision, by_option}
use component_iroh.Guest.Side.{client, server, datagram_copies, Demo, Side, Role, Report, report}
use component_iroh.Guest.App.{send_copies, send_demo, close_demo, drive}
use component_iroh.Guest.Line.{Busy, Pump, run_deadline}
use component_iroh.Guest.Turn.{is_over, drive_round, on_busy, as_pump, begin_turn}
use component_iroh.Guest.Ebbing.{Ebbs}
use component_iroh.Guest.Ebbing.Sending.{send_copies-Ending}
use component_iroh.Guest.Drained.{inbound, outbound, on_side-Settles}
use component_iroh.Guest.Drained.Rounds.{drain-Returns}

module _ {N : Noq} {D : Demo N} (E : Ebbs D) where
  send_demo-Returns : (message : Bytes) (s : Side N) → Returns (λ k. send_demo D message s)
  unfolding send_demo
  send_demo-Returns message s =
      by_test (is_some s.app.received && not s.app.is_datagram_sent) _ _ s
        (and_then-Settles _ _ _ _
          (send_copies-Ending E (E.inbound s.conn) (codes "datagram send: ") datagram_copies
            (codes "datagram " ++ message) s (omega arith))
          (λ s1 _ _. at_once _ _ tt))
        (at_once _ _ tt)

  close_demo-Returns : (now : ℕ) (s : Side N) → Returns (λ k. close_demo D now s)
  unfolding close_demo
  close_demo-Returns now s =
      by_test (is_some s.app.datagram_received && not s.app.is_close_sent) _ _ s (at_once _ _ tt)
        (at_once _ _ tt)

  drive-Returns : (now : ℕ) (s : Side N) → Returns (λ k. drive D now s)
  unfolding drive ◌>>=◌
  drive-Returns now s = go s.app.role
    where
      go :
          (role : Role)
          → Returns (λ k.
            (elim role as (λ _. Task (Side N) (Unit {0})) [
              | server ↦ pure tt
              | client message ↦ send_demo D message >>= λ _. close_demo D now
            ])
              s)
      go server = at_once _ _ tt
      go (client message) =
          and_then-Settles _ _ _ _ (send_demo-Returns message s)
            (λ s1 _ _. close_demo-Returns now s1)

module _ {N : Noq} {W : Wire} {D : Demo N} (E : Ebbs D) (fault : ℕ → Option Text) where
  drive_round-Returns :
      (handle started now : ℕ) (b : Busy N W)
      → Returns (λ k. drive_round D fault k handle started now b)
  unfolding drive_round
  drive_round-Returns handle started now b =
      and_then-Settles _ _ _ _
        (drain-Returns E fault (suc (inbound E fault b)) (suc (outbound E fault b)) handle started
          now (λ k. k) b (omega arith) (omega arith) (λ k. omega arith))
        (λ b1 _ _.
          and_then-Settles _ _ _ _
            (on_side-Settles E fault (λ k. drive D now) b1 (drive-Returns E now b1.side))
            (λ b2 _ _.
              by_test (is_over now b2.side) _ _ b2
                (and_then-Settles _ _ _ _ (result-Returns (report b2.side.app) b2)
                  (λ b3 r _. at_once _ _ tt))
                (at_once _ _ tt)))

  on_busy-Returns :
      {A : Type 0} (handle : ℕ) (conn : N.Conn) (m : ℕ → Task (Busy N W) A) (p : Pump N W)
      → ((b : Busy N W) → Returns (λ k. m k b))
      → Returns (λ k. on_busy D fault handle conn (m k) p)
  on_busy-Returns {A} handle conn m p k =
      through _ _
        (λ o. elim o as (λ _. Outcome (Pump N W) A) [
          | finished b a ↦ finished (as_pump D fault handle b p) a
          | failed b e ↦ failed (as_pump D fault handle b p) e
          | suspended b ↦ suspended (as_pump D fault handle b p)
          | out_of_fuel ↦ out_of_fuel
        ])
        _ (k _) (λ o h. kept o h)
    where
      kept :
          (o : Outcome (Busy N W) A)
          → IsFueled false (λ _ _. Unit {0}) o
          → IsFueled false
              (λ _ _. Unit {0})
              (elim o as (λ _. Outcome (Pump N W) A) [
                | finished b a ↦ finished (as_pump D fault handle b p) a
                | failed b e ↦ failed (as_pump D fault handle b p) e
                | suspended b ↦ suspended (as_pump D fault handle b p)
                | out_of_fuel ↦ out_of_fuel
              ])
      kept (finished b a) h = tt
      kept (failed b e) h = tt
      kept (suspended b) h = h
      kept out_of_fuel h = h

  pub begin_turn-Returns :
      (started now : ℕ) (p : Pump N W) → Returns (λ k. begin_turn D fault k started now p)
  unfolding begin_turn
  begin_turn-Returns started now p = elim (Bool-cases (ltb run_deadline (now - started))) [
    | inl e ↦ rw (e, begin_turn) (at_once _ _ tt)
    | inr e ↦ elim (Option-cases p.connection) [
      | inl q ↦ rw (e, q, begin_turn) (at_once _ _ tt)
      | inr ((handle, conn), q) ↦
          rw (e, q, begin_turn)
            (on_busy-Returns handle conn (λ k. drive_round D fault k handle started now) p
              (drive_round-Returns handle started now))
    ]
  ]
