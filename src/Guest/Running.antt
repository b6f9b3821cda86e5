-- ===== src/Guest/Running.antt =====
-- What a run of the spike has done when it reports (guest/src/endpoint.rs, `run`).
use component_iroh.Prelude.{
  ℕ, ◌≡◌, refl, inl, inr, Bool, true, false, ◌&&◌, List, [], ◌∷◌, Option, none, some, Result, ok,
  err, Result-cases, Option-cases, codes, Text, is_some, arith, ltb, ◌-◌,
}
use component_iroh.Relay.Frames.{Bytes}
use component_iroh.Endpoint.Noq.{Noq, DatagramEvent, connection_event, new_connection, response}
use component_iroh.Guest.{Wire}
use component_iroh.Guest.Task.{
  Outcome, finished, failed, suspended, out_of_fuel, Task, ◌>>=◌, and_then, of_result, Post,
  and_then-Post, pure,
}
use component_iroh.Guest.Side.{Role, App, Report, report, Demo, Side}
use component_iroh.Guest.App.{drive}
use component_iroh.Guest.Line.{run_deadline, Line, Round, Arrival, received, tick, Pump, Busy, send}
use component_iroh.Guest.Turn.{is_over, drive_round, begin_turn, on_busy, as_pump}
use component_iroh.Guest.Loop.{
  handle_datagram, on_closed, on_arrival, run_loop, accept_first, pass_event,
}
use component_iroh.Guest.Exchange.{Has, IsSound}
use component_iroh.Guest.Exchange.Driving.{drive-Keeps}
use component_iroh.Guest.Draining.{Held, on_side-Held, drain-Held}

-- A report comes from an application that is done.
abbrev pub Reported : App → Option Report → Type 0
Reported app none = Unit
Reported app (some r) = Has app.done_at × (report app ≡ ok r)

module _ (N : Noq) (role : Role) where
  reporting-Post :
      {S : Type 0} (view : S → App) (app : App) (s : S)
      → Has app.done_at
      → IsSound N role app
      → view s ≡ app
      → Post
          (λ s' r. IsSound N role (view s') × Reported (view s') r)
          ((of_result (report app) >>= λ r. pure (some r)) s)
  unfolding ◌>>=◌
  reporting-Post view app s d v e = elim (Result-cases (report app)) [
    | inr (x, q) ↦ rw q tt
    | inl (r, q) ↦ rw q (rw e (v, (d, q)))
  ]

  is_over-Has : (now : ℕ) (s : Side N) → is_over now s ≡ true → Has s.app.done_at
  unfolding is_over
  is_over-Has now s e = elim (Option-cases s.app.done_at) [ inl q ↦ cc | inr (at, q) ↦ rw q refl ]

module _ {N : Noq} {W : Wire} (D : Demo N) (fault : ℕ → Option Text) (role : Role) where
  abbrev Settled : Busy N W → Option Report → Type 0
  Settled b r = IsSound N role b.side.app × Reported b.side.app r

  over_as-Settled :
      (b : Busy N W) (over : Bool)
      → (over ≡ true → Has b.side.app.done_at)
      → IsSound N role b.side.app
      → Post Settled (
          elim over as (λ _. Task (Busy N W) (Option Report)) [
            | false ↦ pure none
            | true ↦ of_result (report b.side.app) >>= λ r. pure (some r)
          ]
            b)
  over_as-Settled b false h v = (v, tt)
  over_as-Settled b true h v =
      reporting-Post N role (λ (s : Busy N W). s.side.app) b.side.app b (h refl) v refl

  drive_round-Settled :
      (fuel : ℕ) (handle : ℕ) (started now : ℕ) (b : Busy N W)
      → IsSound N role b.side.app
      → Post Settled (drive_round D fault fuel handle started now b)
  unfolding drive_round
  drive_round-Settled fuel handle started now b v =
      and_then-Post (Held D fault role) Settled _ _
        (drain-Held D fault role fuel fuel handle started now b v)
        (λ t _ w.
          and_then-Post (Held D fault role) Settled _ _
            (on_side-Held D fault role (drive D now) t (drive-Keeps D role now) w)
            (λ u _ z. over_as-Settled u (is_over now u.side) (is_over-Has N role now u.side) z))

  abbrev Ran : Pump N W → Option Report → Type 0
  Ran p r = IsSound N role p.app × Reported p.app r

  abbrev SoundPump : {A : Type 0} → Pump N W → A → Type 0
  SoundPump p a = IsSound N role p.app

  on_busy-Ran :
      (handle : ℕ) (p : Pump N W) (o : Outcome (Busy N W) (Option Report))
      → Post Settled o
      → Post Ran (elim o as (λ _. Outcome (Pump N W) (Option Report)) [
        | finished b a ↦ finished (as_pump D fault handle b p) a
        | failed b e ↦ failed (as_pump D fault handle b p) e
        | suspended b ↦ suspended (as_pump D fault handle b p)
        | out_of_fuel ↦ out_of_fuel
      ])
  on_busy-Ran handle p (finished b a) q = q
  on_busy-Ran handle p (failed b e) q = tt
  on_busy-Ran handle p (suspended b) q = tt
  on_busy-Ran handle p out_of_fuel q = tt

  begin_turn_as-Ran :
      (fuel : ℕ) (started now : ℕ) (is_late : Bool) (connection : Option (ℕ × N.Conn))
      (p : Pump N W)
      → IsSound N role p.app
      → Post Ran (elim is_late as (λ _. Outcome (Pump N W) (Option Report)) [
        | true ↦ failed p (codes "run deadline exceeded")
        | false ↦ elim connection as (λ _. Outcome (Pump N W) (Option Report)) [
          | none ↦ finished p none
          | some (handle, conn) ↦
              on_busy D fault handle conn (drive_round D fault fuel handle started now) p
        ]
      ])
  begin_turn_as-Ran fuel started now true connection p v = tt
  begin_turn_as-Ran fuel started now false none p v = (v, tt)
  begin_turn_as-Ran fuel started now false (some (handle, conn)) p v =
      on_busy-Ran handle p _ (drive_round-Settled fuel handle started now _ v)

  begin_turn-Ran :
      (fuel : ℕ) (started now : ℕ) (p : Pump N W)
      → IsSound N role p.app
      → Post Ran (begin_turn D fault fuel started now p)
  unfolding begin_turn
  begin_turn-Ran fuel started now p v =
      begin_turn_as-Ran fuel started now (ltb run_deadline (now - started)) p.connection p v

  accept_as-Sound :
      (now : ℕ) (incoming : N.Incoming) (connection : Option (ℕ × N.Conn)) (p : Pump N W)
      → IsSound N role p.app
      → Post SoundPump (accept_first D fault now incoming (record p { connection = connection }))
  unfolding accept_first
  accept_as-Sound now incoming (some c) p v = v
  accept_as-Sound now incoming none p v = elim (Result-cases (N.accept now incoming p.endpoint).1) [
    | inl (pair, e) ↦ rw (e, accept_first) v
    | inr (x, e) ↦ rw (e, accept_first) tt
  ]

  sent-Sound :
      (p : Pump N W) (o : Outcome (Line W) (Unit {0}))
      → IsSound N role p.app
      → Post SoundPump (elim o as (λ _. Outcome (Pump N W) (Unit {0})) [
        | finished l a ↦ finished (record p { line = l }) a
        | failed l e ↦ failed (record p { line = l }) e
        | suspended l ↦ suspended (record p { line = l })
        | out_of_fuel ↦ out_of_fuel
      ])
  sent-Sound p (finished l a) v = v
  sent-Sound p (failed l e) v = tt
  sent-Sound p (suspended l) v = tt
  sent-Sound p out_of_fuel v = tt

  handled-Sound :
      (now : ℕ) (p : Pump N W) (event : Option (DatagramEvent N.ConnEvent N.Incoming))
      → IsSound N role p.app
      → Post SoundPump (elim event as (λ _. Outcome (Pump N W) (Unit {0})) [
        | none ↦ finished p tt
        | some (connection_event handle e) ↦
            finished (record p { connection = pass_event N handle e p.connection }) tt
        | some (new_connection incoming) ↦ accept_first D fault now incoming p
        | some (response payload) ↦ elim (send fault payload p.line) [
          | finished l a ↦ finished (record p { line = l }) a
          | failed l e ↦ failed (record p { line = l }) e
          | suspended l ↦ suspended (record p { line = l })
          | out_of_fuel ↦ out_of_fuel
        ]
      ])
  handled-Sound now p none v = v
  handled-Sound now p (some (connection_event handle e)) v = v
  handled-Sound now p (some (new_connection incoming)) v =
      accept_as-Sound now incoming p.connection p v
  handled-Sound now p (some (response payload)) v = sent-Sound p (send fault payload p.line) v

  handle_datagram-Sound :
      (now : ℕ) (datagram : Bytes) (p : Pump N W)
      → IsSound N role p.app
      → Post SoundPump (handle_datagram D fault now datagram p)
  unfolding handle_datagram
  handle_datagram-Sound now datagram p v = handled-Sound now _ _ v

  closed_as-Ran :
      (e : Text) (is_end : Bool) (p : Pump N W)
      → (is_end ≡ true → Has p.app.done_at)
      → IsSound N role p.app
      → Post Ran (elim is_end as (λ _. Outcome (Pump N W) (Option Report)) [
        | false ↦ failed p e
        | true ↦ and_then (of_result (report p.app) p) (λ r. pure (some r))
      ])
  unfolding ◌>>=◌
  closed_as-Ran e false p h v = tt
  closed_as-Ran e true p h v =
      reporting-Post N role (λ (q : Pump N W). q.app) p.app p (h refl) v refl

  on_closed-Ran :
      (e : Text) (p : Pump N W) → IsSound N role p.app → Post Ran (on_closed D fault e p)
  unfolding on_closed
  on_closed-Ran e p v =
      closed_as-Ran e (is_some p.app.done_at && is_some p.connection) p (λ h. ground (arith, h)) v

  came-Ran :
      (now : ℕ) (p : Pump N W) (result : Result (Option Bytes) Text)
      → IsSound N role p.app
      → Post Ran (elim result as (λ _. Outcome (Pump N W) (Option Report)) [
        | err e ↦ on_closed D fault e (record p { is_armed = false })
        | ok none ↦ finished p none
        | ok (some datagram) ↦ and_then (handle_datagram D fault now datagram p) (λ _. pure none)
      ])
  came-Ran now p (err e) v = on_closed-Ran e _ v
  came-Ran now p (ok none) v = (v, tt)
  came-Ran now p (ok (some datagram)) v =
      and_then-Post SoundPump Ran _ _ (handle_datagram-Sound now datagram p v) (λ q _ w. (w, tt))

  on_arrival-Ran :
      (now : ℕ) (arrival : Arrival W) (p : Pump N W)
      → IsSound N role p.app
      → Post Ran (on_arrival D fault now arrival p)
  unfolding on_arrival
  on_arrival-Ran now tick p v = (v, tt)
  on_arrival-Ran now (received raw) p v = came-Ran now _ (W.receive raw p.line.wire).1 v

  abbrev pub Done : Pump N W → Report → Type 0
  Done p r = Ran p (some r)

  unless_over-Done :
      (rest : Task (Pump N W) Report) (over : Option Report) (p : Pump N W)
      → ((q : Pump N W) → IsSound N role q.app → Post Done (rest q))
      → Ran p over
      → Post Done (elim over as (λ _. Task (Pump N W) Report) [ some r ↦ pure r | none ↦ rest ] p)
  unless_over-Done rest none p h v = h p v.0
  unless_over-Done rest (some r) p h v = v

  pub run_loop-Done :
      (fuel : ℕ) (started now : ℕ) (rounds : List (Round W)) (p : Pump N W)
      → IsSound N role p.app
      → Post Done (run_loop D fault fuel started now rounds p)
  unfolding run_loop
  run_loop-Done fuel started now [] p v =
      and_then-Post Ran Done _ _ (begin_turn-Ran fuel started now p v)
        (λ q over w. unless_over-Done suspended over q (λ _ _. tt) w)
  run_loop-Done fuel started now ((at, arrival) ∷ rounds) p v =
      and_then-Post Ran Done _ _ (begin_turn-Ran fuel started now p v) (λ q over w.
        unless_over-Done
          (λ p'. and_then (on_arrival D fault at arrival (record p' { inbox = rounds })) (λ over'.
            elim over' [ some r ↦ pure r | none ↦ run_loop D fault fuel started at rounds ]))
          over q
          (λ u z. and_then-Post Ran Done _ _ (on_arrival-Ran at arrival _ z) (λ u' over' y.
            unless_over-Done (run_loop D fault fuel started at rounds) over' u'
              (λ x k. run_loop-Done fuel started at rounds x k) y))
          w)
