-- ===== src/Endpoint/Pump/History.antt =====
-- The loop of the pump among the other tasks, as a relation (`pump` in
-- endpoint/src/endpoint_impl.rs): the states at its waits, and those with which it stops.
use component_iroh.Prelude.{ℕ, ◌≡◌, Bool, true, false, [], nat_key}
use component_iroh.Relay.Frames.{Bytes}
use component_iroh.Endpoint.Noq.{Noq}
use component_iroh.Endpoint.Wires.Routing.{HasRoom}
use component_iroh.Endpoint.State.{ended, State, new_state}
use component_iroh.Endpoint.State.Drains.{IsValid}
use component_iroh.Endpoint.Pump.{Armed, PumpEvent, on_pump_event, Sent, stops, selects, begin_turn}
use component_iroh.Endpoint.Pump.Flying.{Others}
use component_iroh.Endpoint.Pump.Turns.{Came}

module _ (N : Noq) where
  -- The pump beside the other tasks, from its start to a wait for an event.
  pub data Reach : State N → Armed → Type 0 where
    starts :
        (noq : N.Endpoint) (webrtc_enabled : Bool)
        → Reach
            (new_state N noq webrtc_enabled)
            (record { relay_recvs = []; channel_recvs = []; spawned = [] })
    acts :
        {s s' : State N} {a : Armed}
        → Reach s a
        → Others s.wires s'.wires
        → IsValid N s'
        → Reach s' a
    turns :
        (fuel linger now : ℕ) (has_udp : Bool) (fails : ℕ → Bytes → Bool) {s s' : State N}
        {a a' : Armed} {sent : Sent}
        → Reach s a
        → begin_turn N fuel linger now has_udp fails s a ≡ ended (selects s' a' sent)
        → Reach s' a'
    reacts :
        (now : ℕ) (event : PumpEvent) {s s' : State N} {a a' : Armed}
        → Reach s a
        → HasRoom s.wires
        → Came N a event
        → on_pump_event N now event s a ≡ (false, s', a')
        → Reach s' a'

  -- The pump leaves its loop.
  pub data Stops : State N → Armed → Type 0 where
    turn_stops :
        (fuel linger now : ℕ) (has_udp : Bool) (fails : ℕ → Bytes → Bool) {s s' : State N}
        {a a' : Armed} {sent : Sent}
        → Reach s a
        → begin_turn N fuel linger now has_udp fails s a ≡ ended (stops s' a' sent)
        → Stops s' a'
    event_stops :
        (now : ℕ) (event : PumpEvent) {s s' : State N} {a a' : Armed}
        → Reach s a
        → Came N a event
        → on_pump_event N now event s a ≡ (true, s', a')
        → Stops s' a'
