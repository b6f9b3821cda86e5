-- ===== src/Endpoint/Pump/Examples.antt =====
-- The end of the pump on a concrete history: two relays, of which the home relay fails.
use component_iroh.Prelude.{
  ◌≡◌, refl, true, false, [], ◌∷◌, some, lookup, remove, ℕ_discrete, nat_key, err, codes, All,
  arith,
}
use component_iroh.Endpoint.Wires.{Wires, new_wires, register_relay}
use component_iroh.Endpoint.Wires.Routing.{new_wires-IsRouted}
use component_iroh.Endpoint.Wires.Steps.{registers_relay}
use component_iroh.Endpoint.State.{State, new_state, ended, drain, drain_all}
use component_iroh.Endpoint.Inbound.{mark_dead}
use component_iroh.Endpoint.Pump.{Armed, relay_event, flush, begin_turn, on_pump_event, selects}
use component_iroh.Endpoint.Pump.Teardown.{teardown, last_waits}
use component_iroh.Endpoint.Pump.Flying.{Others, idle, acted}
use component_iroh.Endpoint.Pump.History.{starts, acts, turns, Stops, event_stops}
use component_iroh.Endpoint.Pump.Waits.{Ends}
use component_iroh.Endpoint.Pump.Ending.{teardown-EndsAll}
use component_iroh.Endpoint.Toy.{toy}

abbrev fresh : Wires
fresh = new_wires true

abbrev one_relay : Wires
one_relay = (register_relay fresh (codes "http://home") 7).0

abbrev two_relays : Wires
two_relays = (register_relay one_relay (codes "http://other") 8).0

registered : Others fresh two_relays
unfolding new_wires register_relay
registered =
    acted (acted idle (registers_relay (codes "http://home") 7) (omega arith))
      (registers_relay (codes "http://other") 8) (omega arith)

abbrev unarmed : Armed
unarmed = record { relay_recvs = []; channel_recvs = []; spawned = [] }

-- Both relays are armed; then the receive of the home relay fails.
abbrev both_armed : Armed
both_armed = record unarmed { relay_recvs = (0, 7) ∷ (1, 8) ∷ [] }

abbrev other_armed : Armed
other_armed = record unarmed { relay_recvs = (1, 8) ∷ [] }

abbrev pooled : State toy
pooled = record { wires = record two_relays { new_relays = [] }; noq = 0; conns = [] }

abbrev dead_state : State toy
dead_state = record pooled { wires = record (pooled.wires) { dead = some (codes "gone") } }

selected :
    begin_turn toy 5 500 0 false
      (λ conn datagram. false)
      (record { wires = two_relays; noq = 0; conns = [] })
      unarmed
    ≡ ended (selects pooled both_armed (record { relayed = []; by_udp = []; by_channel = [] }))
unfolding begin_turn drain drain_all flush new_wires register_relay
selected = refl

stopped : Stops toy dead_state other_armed
unfolding new_state on_pump_event mark_dead lookup remove ℕ_discrete register_relay new_wires
stopped =
    event_stops 0 (relay_event 0 (err (codes "gone")))
      (turns 5 500 0 false (λ conn datagram. false)
        (acts (starts 0 true) registered
          (record { tables_ok = new_wires-IsRouted true; authentic = tt }))
        selected)
      (7, refl) refl

teardown-EndsAll_example :
    All (Ends (teardown false (λ w. w) dead_state.wires)) (last_waits false false other_armed)
teardown-EndsAll_example = teardown-EndsAll toy stopped false false (λ w. w) idle
