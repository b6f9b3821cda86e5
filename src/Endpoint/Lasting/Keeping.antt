-- ===== src/Endpoint/Lasting/Keeping.antt =====
-- Inbound datagrams, the events and turns of the pump and dials keep a peer's standin
-- (endpoint/src/endpoint_impl.rs).
use component_iroh.Prelude.{
  ℕ, ◌≡◌, Bool, ◌||◌, [], ◌∷◌, Option, none, some, ok, err, Option-cases, Bool-cases, Result-cases,
  inl, inr, is_some, ◌==◌, nat_key, bytes_key, lookup,
}
use component_iroh.Relay.Frames.{Bytes}
use component_iroh.Endpoint.Types.{SocketAddr, addr_key, relay, channel}
use component_iroh.Endpoint.Noq.{Noq, connection_event, new_connection, response}
use component_iroh.Endpoint.Wires.{Peer, Wires, home_relay, addr_for_peer}
use component_iroh.Endpoint.Wires.Steps.{
  push_response-tables, push_transmit-tables, handle_signal-tables, same_tables,
}
use component_iroh.Endpoint.Wires.Routing.{IsRouted}
use component_iroh.Endpoint.Wires.Standins.{addr_for_peer-keeps, table_keeps, retire_channel-keeps}
use component_iroh.Endpoint.State.{State, drain}
use component_iroh.Endpoint.State.Drains.{IsValid, Keeps, Keeps-map, Keeps->>=, drain-Keeps}
use component_iroh.Endpoint.Inbound.{
  respond, on_incoming, handle_datagram, handle_relay_datagram, handle_channel_datagram,
  handle_udp_datagram, mark_dead, handle_timeouts,
}
use component_iroh.Endpoint.Pump.{
  Armed, PumpEvent, relay_event, udp_event, channel_event, tick, signal_prefix, on_payload,
  on_pump_event, Turn, Sent, arm, stops, selects, flush, flush_relays, flush_udp, flush_channels,
  after_flush, is_over, begin_turn,
}
use component_iroh.Endpoint.Dial.{dial_standin, dial_remote, push_upgrade, start_dial}

module _ (N : Noq) (p : Peer) (a : SocketAddr) where
  -- The standin of `p` is `a`.
  abbrev pub Known : Wires → Type 0
  Known w = lookup p w.peer_to_addr ≡ some a

  on_incoming-Known :
      (now : ℕ) (s : State N) (addr : SocketAddr) (source : Option Peer) (incoming : N.Incoming)
      → Known s.wires
      → Known (on_incoming N now s addr source incoming).wires
  unfolding on_incoming respond
  on_incoming-Known now s addr source incoming h = elim (Bool-cases s.wires.is_closed) [
    | inl e ↦ simp e h
    | inr e ↦ simp e (elim (Result-cases (N.accept now incoming s.noq).1) [
      | inl (_, q) ↦ rw q h
      | inr (some payload, q) ↦
          rw q (table_keeps p a (push_response-tables s.wires addr source payload) h)
      | inr (none, q) ↦ rw q h
    ])
  ]

  handle_datagram-Known :
      (now : ℕ) (s : State N) (addr : SocketAddr) (source : Option Peer) (payload : Bytes)
      → Known s.wires
      → Known (handle_datagram N now s addr source payload).wires
  unfolding handle_datagram respond
  handle_datagram-Known now s addr source payload h =
      let s' : State N = record s { noq = (N.handle now addr payload s.noq).0 } in
      elim (Option-cases (N.handle now addr payload s.noq).1) [
        | inl e ↦ rw (e, handle_datagram) h
        | inr (connection_event handle x, e) ↦ rw (e, handle_datagram) h
        | inr (new_connection incoming, e) ↦
            rw (e, handle_datagram) (on_incoming-Known now s' addr source incoming h)
        | inr (response bytes, e) ↦
            rw (e, handle_datagram)
              (table_keeps p a (push_response-tables s.wires addr source bytes) h)
      ]

  handle_relay_datagram-Known :
      (now : ℕ) (s : State N) (via : ℕ) (source : Peer) (payload : Bytes)
      → Known s.wires
      → Known (handle_relay_datagram N now s via source payload).wires
  unfolding handle_relay_datagram
  handle_relay_datagram-Known now s via source payload h =
      handle_datagram-Known now _ _ (some source) payload
        (addr_for_peer-keeps s.wires source p via a h)

  handle_channel_datagram-Known :
      (now : ℕ) (s : State N) (id : ℕ) (payload : Bytes)
      → Known s.wires
      → Known (handle_channel_datagram N now s id payload).wires
  unfolding handle_channel_datagram
  handle_channel_datagram-Known now s id payload h =
      elim (Option-cases (lookup id s.wires.channels)) [
        | inl e ↦ rw (e, handle_channel_datagram) h
        | inr (entry, e) ↦
            rw (e, handle_channel_datagram)
              (handle_datagram-Known now _ _ (some entry.peer) payload
                (addr_for_peer-keeps s.wires entry.peer p entry.fallback_relay a h))
      ]

  on_payload-Known :
      (now : ℕ) (s : State N) (key : ℕ) (source : Peer) (payload : Bytes)
      → Known s.wires
      → Known (on_payload N now s key source payload).wires
  unfolding on_payload
  on_payload-Known now s key source [] h = handle_relay_datagram-Known now s key source [] h
  on_payload-Known now s key source (b ∷ rest) h = elim (Bool-cases (b == signal_prefix)) [
    | inl e ↦ rw (e, on_payload) (table_keeps p a (handle_signal-tables s.wires key source rest) h)
    | inr e ↦ rw (e, on_payload) (handle_relay_datagram-Known now s key source (b ∷ rest) h)
  ]

  pub on_pump_event-Known :
      (now : ℕ) (event : PumpEvent) (s : State N) (r : Armed)
      → Known s.wires
      → Known (on_pump_event N now event s r).1.wires
  unfolding on_pump_event handle_udp_datagram handle_timeouts mark_dead
  on_pump_event-Known now (relay_event key (ok (source, payload))) s r h =
      on_payload-Known now s key source payload h
  on_pump_event-Known now (relay_event key (err e)) s r h = elim (Bool-cases (key == home_relay)) [
    | inl q ↦ rw (q, on_pump_event) h
    | inr q ↦ rw (q, on_pump_event) h
  ]
  on_pump_event-Known now (udp_event none) s r h = h
  on_pump_event-Known now (udp_event (some (payload, remote))) s r h =
      handle_datagram-Known now s remote none payload h
  on_pump_event-Known now (channel_event id (ok none)) s r h = h
  on_pump_event-Known now (channel_event id (ok (some datagram))) s r h =
      handle_channel_datagram-Known now s id datagram h
  on_pump_event-Known now (channel_event id (err e)) s r h = rw (retire_channel-keeps s.wires id) h
  on_pump_event-Known now tick s r h = h

  dial_remote-Known :
      (w : Wires) (peer : Peer) (dial_key : ℕ) (direct : Option SocketAddr)
      → Known w
      → Known (dial_remote w peer dial_key direct).0
  unfolding dial_remote dial_standin
  dial_remote-Known w peer dial_key (some real) h = h
  dial_remote-Known w peer dial_key none h =
      let kept = addr_for_peer-keeps w peer p dial_key a h in
      let (w', standin) = addr_for_peer w peer dial_key in
      elim (Option-cases (lookup standin w'.routes)) [
        | inl e ↦ rw (e, dial_standin) kept
        | inr (relay _, e) ↦ rw (e, dial_standin) kept
        | inr (channel _, e) ↦ rw (e, dial_standin) kept
      ]

  push_upgrade-Known :
      (w : Wires) (peer : Peer) (key : Option ℕ) → Known w → Known (push_upgrade N w peer key)
  push_upgrade-Known w peer none h = h
  push_upgrade-Known w peer (some key) h = h

  pub start_dial-Known :
      (now : ℕ) (s : State N) (peer : Peer) (direct : Option SocketAddr) (dial_key : ℕ)
      (upgrade_key : Option ℕ)
      → Known s.wires
      → Known (start_dial N now s peer direct dial_key upgrade_key).0.wires
  unfolding start_dial
  start_dial-Known now s peer direct dial_key upgrade_key h =
      elim (Bool-cases (is_some s.wires.dead || s.wires.is_closed)) [
        | inl e ↦ rw (e, start_dial) h
        | inr e ↦
            rw (e, start_dial)
              (elim (Result-cases
                (N.connect now (dial_remote s.wires peer dial_key direct).1 s.noq).1) [
                  | inl ((handle, conn), d) ↦ rw d (
                      push_upgrade-Known _ peer upgrade_key
                        (dial_remote-Known s.wires peer dial_key direct h))
                  | inr (text, d) ↦ rw d (dial_remote-Known s.wires peer dial_key direct h)
                ])
      ]

  abbrev pub TurnKnown : Turn N → Type 0
  TurnKnown (stops s r sent) = Known s.wires
  TurnKnown (selects s r sent) = Known s.wires

  after_flush-Known :
      (linger now : ℕ) (s : State N) (r : Armed) (sent : Sent)
      → Known s.wires
      → TurnKnown (after_flush N linger now s r sent)
  unfolding after_flush arm
  after_flush-Known linger now s r sent h =
      elim (Bool-cases (is_over N linger now (record s { wires = (arm s.wires r).0 }))) [
        | inl e ↦ rw (e, after_flush) h
        | inr e ↦ rw (e, after_flush) h
      ]

  -- The state behind a flush that does not fail, and what was sent.
  abbrev flushed : (ℕ → Bytes → Bool) → State N → State N
  flushed fails s = record s {
    wires = record (s.wires) {
      relay_outbound = (flush_relays fails s.wires.relay_pool s.wires.relay_outbound).0;
      udp_outbound = [];
      channel_outbound = [];
    };
  }

  abbrev sent_out : Bool → (ℕ → Bytes → Bool) → State N → Sent
  sent_out has_udp fails s = record {
    relayed = (flush_relays fails s.wires.relay_pool s.wires.relay_outbound).1;
    by_udp = flush_udp has_udp s.wires.udp_outbound;
    by_channel = flush_channels s.wires.channels s.wires.channel_outbound;
  }

  flush-Known :
      (linger now : ℕ) (has_udp : Bool) (fails : ℕ → Bytes → Bool) (s : State N) (r : Armed)
      → Known s.wires
      → TurnKnown (flush N linger now has_udp fails s r)
  unfolding flush mark_dead
  flush-Known linger now has_udp fails s r h =
      elim (Bool-cases (flush_relays fails s.wires.relay_pool s.wires.relay_outbound).2) [
        | inl e ↦ rw (e, flush) h
        | inr e ↦
            rw (e, flush)
              (after_flush-Known linger now (flushed fails s) r (sent_out has_udp fails s) h)
      ]

  pub begin_turn-Known :
      (fuel linger now : ℕ) (has_udp : Bool) (fails : ℕ → Bytes → Bool) (s : State N) (r : Armed)
      → IsValid N s
      → Known s.wires
      → Keeps TurnKnown (begin_turn N fuel linger now has_udp fails s r)
  unfolding begin_turn
  begin_turn-Known fuel linger now has_udp fails s r v h =
      Keeps->>= (λ (s' : State N). Known s'.wires) TurnKnown (drain N fuel now s) _
        (Keeps-map _ (λ (s' : State N). Known s'.wires) _ (λ s' k. k.1.1)
          (drain-Keeps N (λ w. IsRouted w × Known w) (λ w k. k.0) (λ w queue k. k)
            (λ w destination datagram w' sent k. (
              same_tables (push_transmit-tables w destination datagram w' sent) k.0,
              table_keeps p a (push_transmit-tables w destination datagram w' sent) k.1,
            ))
            fuel now s v.authentic (v.tables_ok, h)))
        (λ s' k. flush-Known linger now has_udp fails s' r k)
