-- ===== src/Guest/Reporting.antt =====
-- What a run of the spike has done when it reports (guest/src/endpoint.rs, `run`).
use component_iroh.Prelude.{
  ℕ, ◌≡◌, refl, sym, inl, inr, subst, Bool, true, false, List, [], ◌∷◌, Option, ok, Result-cases,
  Text,
}
use component_iroh.Endpoint.Noq.{Noq}
use component_iroh.Endpoint.Wires.{Peer}
use component_iroh.Guest.{Wire}
use component_iroh.Guest.Task.{
  Outcome, finished, failed, suspended, out_of_fuel, Post, and_then-Post, finished-Post,
}
use component_iroh.Guest.Side.{Role, App, Report, report, Demo}
use component_iroh.Guest.Line.{Round, received, tick, Pump, Setup}
use component_iroh.Guest.Loop.{drain_recv, last_tick, teardown, torn_down, set_up, new_pump, run}
use component_iroh.Guest.Exchange.{Has, IsSound, new_app-IsSound}
use component_iroh.Guest.Running.{Done, run_loop-Done}

-- After the teardown: the wire is closed and no receive is in flight; the application is as before.
abbrev TornDown : {N : Noq} {W : Wire} → App → Pump N W → Type 0
TornDown app p = (p.app ≡ app) × (p.line.is_closed ≡ true) × (p.is_armed ≡ false)

module _ {N : Noq} {W : Wire} where
  -- A run that reports `r`.
  pub record HasReported (role : Role) (p : Pump N W) (r : Report) : Type 0 where
    pub sound : IsSound N role p.app
    pub done : Has p.app.done_at
    pub reported : report p.app ≡ ok r
    pub is_closed : p.line.is_closed ≡ true
    pub is_idle : p.is_armed ≡ false

module _ {N : Noq} {W : Wire} (D : Demo N) (fault : ℕ → Option Text) where
  last_tick-Ended :
      (rounds : List (Round W)) (app : App) (p : Pump N W)
      → TornDown app p
      → Post (λ q (_ : Unit {0}). TornDown app q) (last_tick D fault rounds p)
  unfolding last_tick
  last_tick-Ended [] app p v = tt
  last_tick-Ended ((at, tick) ∷ rounds) app p v = v
  last_tick-Ended ((at, received raw) ∷ rounds) app p v = last_tick-Ended rounds app p v

  -- Closed, of an application.
  abbrev IsClosing : App → Pump N W → Type 0
  IsClosing app p = (p.app ≡ app) × (p.line.is_closed ≡ true)

  drain_recv-Ended :
      (rounds : List (Round W)) (app : App) (p : Pump N W)
      → IsClosing app p
      → Post (λ q (_ : Unit {0}). TornDown app q) (drain_recv D fault rounds p)
  unfolding drain_recv
  drain_recv-Ended [] app p v = tt
  drain_recv-Ended ((at, tick) ∷ rounds) app p v = drain_recv-Ended rounds app p v
  drain_recv-Ended ((at, received raw) ∷ rounds) app p v =
      elim (Result-cases (W.receive raw p.line.wire).1) [
        | inl (x, e) ↦ rw (e, drain_recv) (drain_recv-Ended rounds app _ v)
        | inr (x, e) ↦ rw (e, drain_recv) (v.0, v.1, refl)
      ]

  drained-Ended :
      (armed : Bool) (rounds : List (Round W)) (app : App) (p : Pump N W)
      → p.is_armed ≡ armed
      → IsClosing app p
      → Post
          (λ q (_ : Unit {0}). TornDown app q)
          (elim armed as (λ _. Outcome (Pump N W) (Unit {0})) [
            | true ↦ drain_recv D fault rounds p
            | false ↦ finished p tt
          ])
  drained-Ended true rounds app p e v = drain_recv-Ended rounds app p v
  drained-Ended false rounds app p e v = (v.0, v.1, e)

  teardown-Ended : (p : Pump N W) → Post (λ q (_ : Unit {0}). TornDown p.app q) (teardown D fault p)
  unfolding teardown
  teardown-Ended p =
      and_then-Post (λ q (_ : Unit {0}). TornDown p.app q) (λ q (_ : Unit {0}). TornDown p.app q) _
        _ (drained-Ended p.is_armed p.inbox p.app _ refl (refl, refl))
        (λ q _ w. last_tick-Ended q.inbox p.app q w)

  torn_down-Reported :
      (role : Role) (o : Outcome (Pump N W) Report)
      → Post (Done D fault role) o
      → Post (HasReported role) (torn_down D fault o)
  unfolding torn_down
  torn_down-Reported role (finished p r) v =
      and_then-Post (λ q (_ : Unit {0}). TornDown p.app q) (HasReported role) _ _ (teardown-Ended p)
        (λ q _ w. record {
          sound = subst (IsSound N role) (sym w.0) v.0;
          done = rw w.0 v.1.0;
          reported = rw w.0 v.1.1;
          is_closed = w.1;
          is_idle = w.2;
        })
  torn_down-Reported role (failed p e) v =
      and_then-Post (λ q (_ : Unit {0}). TornDown p.app q) (HasReported role) _ _ (teardown-Ended p)
        (λ q _ w. tt)
  torn_down-Reported role (suspended p) v = tt
  torn_down-Reported role out_of_fuel v = tt

  -- A run of the spike that reports has closed its wire, and no receive is in flight. Its application
  -- is done, and everything that it has noted is true: the reported peer is the TLS identity of a
  -- connection, and what the client took for the echo of its datagram is that.
  pub run-Reported :
      (S : Setup N) (fuel now : ℕ) (peer : Option Peer) (role : Role) (wire : W.State)
      (rounds : List (Round W)) (p : Pump N W) (r : Report)
      → run D fault S fuel now peer role wire rounds ≡ ok (finished p r)
      → HasReported role p r
  unfolding run
  run-Reported S fuel now peer role wire rounds p r e =
      elim (Result-cases (set_up N S now peer role)) [
        | inr (x, q) ↦ let h = rw (q, run) at e in cc
        | inl ((endpoint, connection), q) ↦
            let h = rw (q, run) at e in
            finished-Post (HasReported role) _ p r (cc) (
              torn_down-Reported role _ (
                run_loop-Done D fault role fuel now now rounds
                  (new_pump D fault endpoint connection role wire rounds) (new_app-IsSound N role)))
      ]
