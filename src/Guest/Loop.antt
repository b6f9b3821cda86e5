-- ===== src/Guest/Loop.antt =====
-- The loop of the spike (guest/src/endpoint.rs, `run` and `handle_datagram`): its turns, what the wire
-- and the clock bring, and the teardown.
use component_iroh.Prelude.{
  ℕ, true, false, List, [], ◌∷◌, ◌++◌, Option, none, some, Result, ok, err, ◌&&◌, codes, Text, ◌==◌,
  leb, is_some, unwrap_or, if◌then◌else◌,
}
use component_iroh.Relay.Frames.{Bytes}
use component_iroh.Endpoint.Types.{SocketAddr}
use component_iroh.Endpoint.Noq.{Noq, connection_event, new_connection, response}
use component_iroh.Endpoint.Wires.{Peer}
use component_iroh.Guest.{Wire}
use component_iroh.Guest.Task.{
  Outcome, finished, failed, suspended, out_of_fuel, Task, and_then, pure, fail, of_result,
}
use component_iroh.Guest.Line.{
  client_addr, server_addr, Arrival, received, tick, Round, Pump, Setup, send,
}
use component_iroh.Guest.Turn.{begin_turn}
use component_iroh.Guest.Side.{Role, client, server, new_app, Report, Demo, report}

module _ (N : Noq) where
  unfoldable pub remote_of : Option (ℕ × N.Conn) → SocketAddr
  remote_of none = client_addr
  remote_of (some (_, conn)) = unwrap_or (N.network_path conn) client_addr

  -- An event for the connection under this handle.
  unfoldable pub pass_event : ℕ → N.ConnEvent → Option (ℕ × N.Conn) → Option (ℕ × N.Conn)
  pass_event handle event none = none
  pass_event handle event (some (ours, conn)) =
      if ours == handle then some (ours, N.conn_event event conn) else some (ours, conn)

  unfoldable pub on_tick : (now : ℕ) → Option (ℕ × N.Conn) → Option (ℕ × N.Conn)
  on_tick now none = none
  on_tick now (some (handle, conn)) = elim (N.poll_timeout conn) [
    | none ↦ some (handle, conn)
    | some deadline ↦
        if leb deadline now then some (handle, N.handle_timeout now conn) else some (handle, conn)
  ]

  -- The endpoint of a role, and a client's connection.
  unfoldable pub set_up :
      Setup N → (now : ℕ) → Option Peer → Role → Result (N.Endpoint × Option (ℕ × N.Conn)) Text
  set_up S now none (client message) = err (codes "client role requires the peer's endpoint id")
  set_up S now (some peer) (client message) = elim S.client_endpoint [
    | err e ↦ err e
    | ok endpoint ↦ elim (S.client_config peer) [
      | err e ↦ err (codes "client tls config: " ++ e)
      | ok config ↦
          let (endpoint', pair) = S.connect now config server_addr endpoint in
          elim pair [ err e ↦ err (codes "connect: " ++ e) | ok p ↦ ok (endpoint', some p) ]
    ]
  ]
  set_up S now peer server = elim S.server_config [
    | err e ↦ err e
    | ok config ↦ elim (S.server_endpoint config) [
      | err e ↦ err e
      | ok endpoint ↦ ok (endpoint, none)
    ]
  ]

-- `fault n` is the error of the n-th send.
module _ {N : Noq} {W : Wire} (D : Demo N) (fault : ℕ → Option Text) where
  -- A second connection is dropped.
  unfoldable pub accept_first : (now : ℕ) → N.Incoming → Task (Pump N W) (Unit {0})
  accept_first now incoming p = elim p.connection [
    | some c ↦ finished p tt
    | none ↦
        let (endpoint, accepted) = N.accept now incoming p.endpoint in
        elim accepted [
          | ok pair ↦ finished (record p { endpoint = endpoint; connection = some pair }) tt
          | err e ↦ failed (record p { endpoint = endpoint }) (codes "accept: " ++ D.accept_text e)
        ]
  ]

  unfoldable pub handle_datagram : (now : ℕ) → Bytes → Task (Pump N W) (Unit {0})
  unfolding remote_of pass_event accept_first send
  handle_datagram now datagram p =
      let (endpoint, event) = N.handle now (remote_of N p.connection) datagram p.endpoint in
      let p' : Pump N W = record p { endpoint = endpoint } in
      elim event [
        | none ↦ finished p' tt
        | some (connection_event handle e) ↦
            finished (record p' { connection = pass_event N handle e p.connection }) tt
        | some (new_connection incoming) ↦ accept_first now incoming p'
        | some (response payload) ↦ elim (send fault payload p.line) [
          | finished l a ↦ finished (record p' { line = l }) a
          | failed l e ↦ failed (record p' { line = l }) e
          | suspended l ↦ suspended (record p' { line = l })
          | out_of_fuel ↦ out_of_fuel
        ]
      ]

  -- The error of the wire's `receive`: completion for a side that only lingers.
  unfoldable pub on_closed : Text → Task (Pump N W) (Option Report)
  unfolding report
  on_closed e p = elim (is_some p.app.done_at && is_some p.connection) [
    | false ↦ failed p e
    | true ↦ and_then (of_result (report p.app) p) (λ r. pure (some r))
  ]

  unfoldable pub on_arrival : (now : ℕ) → Arrival W → Task (Pump N W) (Option Report)
  unfolding handle_datagram on_closed on_tick
  on_arrival now tick p = finished (record p { connection = on_tick N now p.connection }) none
  on_arrival now (received raw) p =
      let (wire, result) = W.receive raw p.line.wire in
      let p' : Pump N W = record p { line = record (p.line) { wire = wire } } in
      elim result [
        | err e ↦ on_closed e (record p' { is_armed = false })
        | ok none ↦ finished p' none
        | ok (some datagram) ↦ and_then (handle_datagram now datagram p') (λ _. pure none)
      ]

  -- The loop; the list is the inbox at this turn.
  unfoldable pub run_loop : (fuel : ℕ) → (started now : ℕ) → List (Round W) → Task (Pump N W) Report
  unfolding begin_turn on_arrival
  run_loop fuel started now [] p =
      and_then (begin_turn D fault fuel started now p)
        (λ over. elim over [ some r ↦ pure r | none ↦ suspended ])
  run_loop fuel started now ((at, arrival) ∷ rounds) p =
      and_then (begin_turn D fault fuel started now p) (λ over. elim over [
        | some r ↦ pure r
        | none ↦ λ p'.
            and_then (on_arrival at arrival (record p' { inbox = rounds }))
              (λ over'. elim over' [ some r ↦ pure r | none ↦ run_loop fuel started at rounds ])
      ])

  -- The receive in flight is drained to its error.
  unfoldable pub drain_recv : List (Round W) → Task (Pump N W) (Unit {0})
  drain_recv [] p = suspended (record p { inbox = [] })
  drain_recv ((at, tick) ∷ rounds) p = drain_recv rounds p
  drain_recv ((at, received raw) ∷ rounds) p =
      let (wire, result) = W.receive raw p.line.wire in
      let p' : Pump N W = record p { line = record (p.line) { wire = wire } } in
      elim result [
        | ok _ ↦ drain_recv rounds p'
        | err _ ↦ finished (record p' { is_armed = false; inbox = rounds }) tt
      ]

  -- Then the last tick fires.
  unfoldable pub last_tick : List (Round W) → Task (Pump N W) (Unit {0})
  last_tick [] p = suspended (record p { inbox = [] })
  last_tick ((at, tick) ∷ rounds) p = finished (record p { inbox = rounds }) tt
  last_tick ((at, received raw) ∷ rounds) p = last_tick rounds p

  unfoldable pub teardown : Task (Pump N W) (Unit {0})
  unfolding drain_recv last_tick
  teardown p =
      let p' : Pump N W = record p { line = record (p.line) { is_closed = true } } in
      and_then (elim p.is_armed [ true ↦ drain_recv p.inbox p' | false ↦ finished p' tt ])
        (λ _ q. last_tick q.inbox q)

  -- Every exit of the loop goes through the teardown.
  unfoldable pub torn_down : Outcome (Pump N W) Report → Outcome (Pump N W) Report
  unfolding teardown
  torn_down (finished p r) = and_then (teardown p) (λ _. pure r)
  torn_down (failed p e) = and_then (teardown p) (λ _. fail e)
  torn_down (suspended p) = suspended p
  torn_down out_of_fuel = out_of_fuel

  abbrev pub new_pump :
      N.Endpoint → Option (ℕ × N.Conn) → Role → W.State → List (Round W) → Pump N W
  new_pump endpoint connection role wire rounds = record {
    endpoint = endpoint;
    connection = connection;
    app = new_app role;
    line = record { wire = wire; sent = []; is_closed = false };
    is_armed = true;
    inbox = rounds;
  }

  unfoldable pub run :
      Setup N
      → (fuel now : ℕ) → Option Peer
      → Role
      → W.State
      → List (Round W)
      → Result (Outcome (Pump N W) Report) Text
  unfolding set_up run_loop torn_down
  run S fuel now peer role wire rounds = elim (set_up N S now peer role) [
    | err e ↦ err e
    | ok (endpoint, connection) ↦
        ok
          (torn_down (run_loop fuel now now rounds (new_pump endpoint connection role wire rounds)))
  ]
