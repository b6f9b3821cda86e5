-- ===== src/Guest/Returning/Loop.antt =====
-- A run of the spike's loop comes to an end, or waits (guest/src/endpoint.rs, `run`), if its
-- connection runs out.
use component_iroh.Prelude.{
  ℕ, ◌≡◌, refl, ap, ◌∙◌, ◌+◌, inl, inr, Bool-cases, true, List, [], ◌∷◌, Option, Result,
  Result-cases, ok, err, Text, arith,
}
use component_iroh.Endpoint.Noq.{Noq}
use component_iroh.Endpoint.Wires.{Peer}
use component_iroh.Guest.{Wire}
use component_iroh.Guest.Task.{Outcome, finished, failed, suspended, out_of_fuel}
use component_iroh.Guest.Settling.{
  Settles-IsFueled, IsFueled, IsFueled-finished, Settles, at_once, through, and_then-Settles,
  patient,
}
use component_iroh.Guest.Settling.Cases.{by_option}
use component_iroh.Guest.Side.{Role, Demo, Report}
use component_iroh.Guest.Line.{received, tick, Round, Pump, Setup}
use component_iroh.Guest.Loop.{
  set_up, run_loop, drain_recv, last_tick, teardown, torn_down, new_pump, run,
}
use component_iroh.Guest.Ebbing.{Ebbs}
use component_iroh.Guest.Returning.{begin_turn-Returns}
use component_iroh.Guest.Reporting.{HasReported, run-Reported}
use component_iroh.Guest.Returning.Arrivals.{on_arrival-Returns}

module _ {N : Noq} {W : Wire} where
  -- How a run concludes: it fails, it still waits, or it reports what is so.
  abbrev pub Concludes : Role → Result (Outcome (Pump N W) Report) Text → Type 0
  Concludes role (err e) = Unit
  Concludes role (ok o) = IsFueled true (HasReported role) o

module _ {N : Noq} {W : Wire} {D : Demo N} (E : Ebbs D) (fault : ℕ → Option Text) where
  run_loop-Settles :
      (started now : ℕ) (rounds : List (Round W)) (p : Pump N W)
      → Settles true (λ _ _. Unit {0}) (λ k. run_loop D fault k started now rounds p)
  unfolding run_loop
  run_loop-Settles started now [] p =
      and_then-Settles _ _ _ _ (patient _ (begin_turn-Returns E fault started now p))
        (λ p1 over _. by_option over _ _ p1 (λ r. at_once _ _ tt) (at_once _ _ tt))
  run_loop-Settles started now ((at, arrival) ∷ rounds) p =
      and_then-Settles _ _ _ _ (patient _ (begin_turn-Returns E fault started now p)) (λ p1 over _.
        by_option over _ _ p1 (λ r. at_once _ _ tt)
          (and_then-Settles _ _ _ _
            (patient _ (on_arrival-Returns E fault at arrival (record p1 { inbox = rounds })))
            (λ p2 over' _.
              by_option over' _ _ p2 (λ r. at_once _ _ tt)
                (run_loop-Settles started at rounds p2))))

  drain_recv-Settles :
      (rounds : List (Round W)) (p : Pump N W)
      → Settles true (λ _ _. Unit {0}) (λ k. drain_recv D fault rounds p)
  unfolding drain_recv
  drain_recv-Settles [] p = at_once _ _ tt
  drain_recv-Settles ((at, tick) ∷ rounds) p = drain_recv-Settles rounds p
  drain_recv-Settles ((at, received raw) ∷ rounds) p =
      elim (Result-cases (W.receive raw p.line.wire).1) [
        | inl (x, q) ↦ rw (q, drain_recv) (drain_recv-Settles rounds _)
        | inr (e, q) ↦ rw (q, drain_recv) (at_once _ _ tt)
      ]

  last_tick-Settles :
      (rounds : List (Round W)) (p : Pump N W)
      → Settles true (λ _ _. Unit {0}) (λ k. last_tick D fault rounds p)
  unfolding last_tick
  last_tick-Settles [] p = at_once _ _ tt
  last_tick-Settles ((at, tick) ∷ rounds) p = at_once _ _ tt
  last_tick-Settles ((at, received raw) ∷ rounds) p = last_tick-Settles rounds p

  teardown-Settles : (p : Pump N W) → Settles true (λ _ _. Unit {0}) (λ k. teardown D fault p)
  unfolding teardown
  teardown-Settles p = elim (Bool-cases p.is_armed) [
    | inl q ↦
        rw (q, teardown)
          (and_then-Settles _ _ _ _ (drain_recv-Settles p.inbox _)
            (λ s _ _. last_tick-Settles s.inbox s))
    | inr q ↦ rw (q, teardown) (last_tick-Settles p.inbox _)
  ]

  torn_down-Fueled :
      (o : Outcome (Pump N W) Report)
      → IsFueled true (λ _ _. Unit {0}) o
      → IsFueled true (λ _ _. Unit {0}) (torn_down D fault o)
  unfolding torn_down
  torn_down-Fueled (finished p r) h =
      Settles-IsFueled (λ _ _. Unit {0}) (torn_down D fault (finished p r))
        (and_then-Settles _ _ _ _ (teardown-Settles p) (λ s _ _. at_once _ _ tt))
  torn_down-Fueled (failed p e) h =
      Settles-IsFueled (λ _ _. Unit {0}) (torn_down D fault (failed p e))
        (and_then-Settles _ _ _ _ (teardown-Settles p) (λ s _ _. at_once _ _ tt))
  torn_down-Fueled (suspended p) h = tt
  torn_down-Fueled out_of_fuel h = h

  pub torn_loop-Settles :
      (started now : ℕ) (rounds : List (Round W)) (p : Pump N W)
      → Settles true
          (λ _ _. Unit {0})
          (λ k. torn_down D fault (run_loop D fault k started now rounds p))
  torn_loop-Settles started now rounds p =
      through _ _ (torn_down D fault) _ (run_loop-Settles started now rounds p) torn_down-Fueled

  -- If the polls, reads and transmits of a connection use up what is to come in and to go out of
  -- it, and its other calls bring nothing in, a run of the spike's loop concludes with any fuel
  -- from some on: it fails, or it waits for more than its wire and the clock bring, or it reports.
  -- One that reports has closed its wire with no receive in flight, its application is done, and
  -- what that has noted is true: its peer is the TLS identity of a connection, a noted datagram is
  -- the echo of the client's, and a sent close follows one.
  pub run-Concludes :
      (S : Setup N) (now : ℕ) (peer : Option Peer) (role : Role) (wire : W.State)
      (rounds : List (Round W))
      → (enough : ℕ) × ((more : ℕ)
          → Concludes role (run D fault S (enough + more) now peer role wire rounds))
  unfolding run
  run-Concludes S now peer role wire rounds = elim (Result-cases (set_up N S now peer role)) [
    | inr (e, q) ↦ (0, λ more. rw (q, run) tt)
    | inl ((endpoint, connection), q) ↦
        let p0 = new_pump D fault endpoint connection role wire rounds in
        let torn = λ (n : ℕ). torn_down D fault (run_loop D fault n now now rounds p0) in
        let k = torn_loop-Settles now now rounds p0 in
        (
          k.fuel,
          λ more.
              let e : run D fault S (k.fuel + more) now peer role wire rounds
                  ≡ ok (torn (k.fuel + more)) =
                rw (q, run) refl in
              rw e (
                IsFueled-finished true (λ _ _. Unit {0}) (HasReported role) (torn (k.fuel + more))
                  (rw (k.settled (k.fuel + more) (omega arith)) k.fueled)
                  (λ p r f.
                    run-Reported D fault S (k.fuel + more) now peer role wire rounds p r
                      (e ∙ ap ok f))),
        )
  ]
