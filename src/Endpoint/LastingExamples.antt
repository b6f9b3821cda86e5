-- ===== src/Endpoint/LastingExamples.antt =====
-- The theorem on lasting standins at a concrete history, over the small QUIC crate.
use component_iroh.Prelude.{
  ◌≡◌, refl, true, false, [], ◌∷◌, arith, lookup, insert, ℕ_discrete, bytes_key, codes,
}
use component_iroh.Endpoint.Types.{doc_prefix_addr}
use component_iroh.Endpoint.Wires.{Peer, new_wires, addr_for_peer, fresh_addr}
use component_iroh.Endpoint.Wires.Routing.{HasRoom, new_wires-IsRouted}
use component_iroh.Endpoint.State.{
  State, new_state, ended, drain, drain_all, drain_entry, while_progress, turn,
  endpoint_events_step, events_step, transmits_step,
}
use component_iroh.Endpoint.State.Drains.{IsValid}
use component_iroh.Endpoint.Inbound.{shut}
use component_iroh.Endpoint.Dial.{claim_relay}
use component_iroh.Endpoint.Lasting.{addressed, turned, here, turns, shuts, claims, standin_lasts}
use component_iroh.Endpoint.Pump.{
  Armed, Turn, selects, begin_turn, flush, flush_relays, flush_udp, flush_channels, after_flush,
}
use component_iroh.Endpoint.Toy.{toy}

abbrev seven : Peer
seven = 7 ∷ []

-- A relay is open and a datagram is queued on it.
abbrev sending : State toy
sending =
    let s = new_state toy 9 true in
    record s {
      wires = record (s.wires) {
        relay_pool = (1, 5) ∷ [];
        relay_outbound = (1, seven, 5 ∷ []) ∷ [];
      };
    }

sending-HasRoom : HasRoom sending.wires
unfolding new_state new_wires
sending-HasRoom = (omega arith, omega arith)

sending-IsValid : IsValid toy sending
unfolding new_state new_wires
sending-IsValid = record { tables_ok = (new_wires-IsRouted true); authentic = tt }

abbrev unarmed : Armed
unarmed = record { relay_recvs = []; channel_recvs = []; spawned = [] }

abbrev handed_out : State toy
handed_out = addressed toy sending seven 0

abbrev flushed_turn : Turn toy
flushed_turn =
    selects (record handed_out { wires = record (handed_out.wires) { relay_outbound = [] } })
      unarmed (record { relayed = (5, seven, 5 ∷ []) ∷ []; by_udp = []; by_channel = [] })

flushes :
    begin_turn toy 5 500 0 false (λ conn datagram. false) handed_out unarmed ≡ ended flushed_turn
unfolding begin_turn drain drain_all drain_entry while_progress turn endpoint_events_step
    events_step transmits_step flush flush_relays flush_udp flush_channels after_flush new_state
    new_wires lookup addr_for_peer fresh_addr doc_prefix_addr ℕ_discrete insert
flushes = refl

-- The pump flushes, a relay is claimed for a dial and the endpoint is closed.
abbrev claimed : State toy
claimed =
    let u = turned toy flushed_turn in
    record u { wires = (claim_relay u.wires (codes "https://relay.example")).0 }

abbrev at_last : State toy
at_last = shut toy 3 [] claimed

standin_lasts_example :
    addr_for_peer at_last.wires seven 1 ≡ (at_last.wires, (addr_for_peer sending.wires seven 0).1)
standin_lasts_example =
    standin_lasts toy sending at_last seven 0 1 sending-IsValid sending-HasRoom (
      shuts 3 [] (
        claims (codes "https://relay.example")
          (turns 5 500 0 false (λ conn datagram. false) unarmed here flushes)))
