-- ===== src/Endpoint/Pump/Turns.antt =====
-- A turn of the pump and its reaction to an event leave each receive in flight on an open wire (`pump`
-- in endpoint/src/endpoint_impl.rs).
use component_iroh.Prelude.{
  ℕ, ◌≡◌, refl, ap, Bool, [], Option, none, some, ok, err, nat_key, lookup, remove, lookup-remove,
  Bool-cases, Option-cases, inl, inr, ◌==◌, arith,
}
use component_iroh.Relay.Frames.{Bytes}
use component_iroh.Endpoint.Noq.{Noq}
use component_iroh.Endpoint.Wires.{ChannelEntry, Wires, home_relay, retire_channel}
use component_iroh.Endpoint.State.{State}
use component_iroh.Endpoint.Inbound.{
  handle_udp_datagram, handle_channel_datagram, mark_dead, handle_timeouts,
}
use component_iroh.Endpoint.Pump.{
  Armed, PumpEvent, relay_event, udp_event, channel_event, tick, on_pump_event, Turn, Sent, arm,
  stops, selects, flush, flush_relays, after_flush, is_over, wire_of,
}
use component_iroh.Endpoint.Pump.Receives.{arm-InFlight, rearm-InFlight, closed-InFlight}
use component_iroh.Endpoint.Pump.Flying.{lines, Flying, same_lines}
use component_iroh.Endpoint.Pump.Handling.{
  handle_datagram-lines, handle_channel_datagram-lines, on_payload-lines,
}

module _ (N : Noq) where
  -- A turn leaves each receive in flight on an open wire, also when it stops.
  unfoldable pub TurnFlies : Turn N → Type 0
  TurnFlies (stops s a sent) = Flying N a (lines s.wires)
  TurnFlies (selects s a sent) = Flying N a (lines s.wires)

  arm-Flying :
      (w : Wires) (a : Armed) → Flying N a (lines w) → Flying N (arm w a).1 (lines (arm w a).0)
  unfolding arm
  arm-Flying w a v = record {
    relays = arm-InFlight _ _ a.relay_recvs w.new_relays v.relays;
    over_channels = arm-InFlight _ _ a.channel_recvs w.new_channels v.over_channels;
  }

  after_flush-TurnFlies :
      (linger now : ℕ) (s : State N) (a : Armed) (sent : Sent)
      → Flying N a (lines s.wires)
      → TurnFlies (after_flush N linger now s a sent)
  unfolding after_flush TurnFlies
  after_flush-TurnFlies linger now s a sent v =
      elim (Bool-cases (is_over N linger now (record s { wires = (arm s.wires a).0 }))) [
        | inl e ↦ rw (e, after_flush) (arm-Flying s.wires a v)
        | inr e ↦ rw (e, after_flush) (arm-Flying s.wires a v)
      ]

  pub flush-TurnFlies :
      (linger now : ℕ) (has_udp : Bool) (fails : ℕ → Bytes → Bool) (s : State N) (a : Armed)
      → Flying N a (lines s.wires)
      → TurnFlies (flush N linger now has_udp fails s a)
  unfolding flush mark_dead
  flush-TurnFlies linger now has_udp fails s a v =
      elim (Bool-cases (flush_relays fails s.wires.relay_pool s.wires.relay_outbound).2) [
        | inl e ↦
            rw (e, flush)
              (unfold TurnFlies in record { relays = v.relays; over_channels = v.over_channels })
        | inr e ↦
            rw (e, flush)
              (after_flush-TurnFlies linger now
                (record s {
                  wires = record (s.wires) {
                    relay_outbound =
                        (flush_relays fails s.wires.relay_pool s.wires.relay_outbound).0;
                    udp_outbound = [];
                    channel_outbound = [];
                  };
                })
                a _ (record { relays = v.relays; over_channels = v.over_channels }))
      ]

  -- The receive that the event comes from is in flight.
  abbrev pub Came : Armed → PumpEvent → Type 0
  Came a (relay_event key _) = (conn : ℕ) × (lookup key a.relay_recvs ≡ some conn)
  Came a (channel_event id _) = (wire : ℕ) × (lookup id a.channel_recvs ≡ some wire)
  Came a _ = Unit

  retired-lines :
      (w : Wires) (id : ℕ) (entry : ChannelEntry)
      → lookup id w.channels ≡ some entry
      → lines (retire_channel w id) ≡ record (lines w) { channels = remove id w.channels }
  unfolding retire_channel
  retired-lines w id entry e = ground arith

  retire_channel-Flying :
      (w : Wires) (a : Armed) (id wire : ℕ)
      → lookup id a.channel_recvs ≡ some wire
      → Flying N a (lines w)
      → Flying N
          (record a { channel_recvs = remove id a.channel_recvs })
          (lines (retire_channel w id))
  unfolding retire_channel
  retire_channel-Flying w a id wire came v = elim (Option-cases (lookup id w.channels)) [
    | inl e ↦
        rw (e, retire_channel)
          (record {
            relays = v.relays;
            over_channels =
                closed-InFlight (λ j. wire_of N (lookup j w.channels))
                  (λ j. wire_of N (lookup j w.channels)) _ id wire a.channel_recvs w.new_channels
                  (λ j ne. refl) came v.over_channels;
          })
    | inr (entry, e) ↦
        let gone : Flying N (record a { channel_recvs = remove id a.channel_recvs })
            (record (lines w) { channels = remove id w.channels }) =
          record {
            relays = v.relays;
            over_channels =
                closed-InFlight (λ j. wire_of N (lookup j w.channels))
                  (λ j. wire_of N (lookup j (remove id w.channels))) _ id wire a.channel_recvs
                  w.new_channels
                  (λ j ne. ap (wire_of N) (ground (arith, lookup-remove id j w.channels))) came
                  v.over_channels;
          } in
        same_lines N _ (retired-lines w id entry e) gone
  ]

  heard-lines :
      (now id : ℕ) (payload : Option Bytes) (s : State N)
      → (let s' : State N = elim payload [
        | none ↦ s
        | some datagram ↦ handle_channel_datagram N now s id datagram
      ] in
          lines s'.wires)
        ≡ lines s.wires
  heard-lines now id none s = refl
  heard-lines now id (some datagram) s = handle_channel_datagram-lines N now s id datagram

  -- The reaction to an event of a receive in flight.
  pub on_pump_event-Flying :
      (now : ℕ) (event : PumpEvent) (s : State N) (a : Armed)
      → Came a event
      → Flying N a (lines s.wires)
      → Flying N (on_pump_event N now event s a).2 (lines (on_pump_event N now event s a).1.wires)
  unfolding on_pump_event handle_udp_datagram handle_timeouts mark_dead
  on_pump_event-Flying now (relay_event key (ok (source, payload))) s a (conn, came) v =
      same_lines N _ (on_payload-lines N now s key source payload) (record {
        relays =
            rearm-InFlight (λ k. lookup k s.wires.relay_pool) _ N key conn a.relay_recvs _ came
              v.relays;
        over_channels = v.over_channels;
      })
  on_pump_event-Flying now (relay_event key (err e)) s a (conn, came) v =
      elim (Bool-cases (key == home_relay)) [
        | inl h ↦
            rw (h, on_pump_event)
              (record {
                relays =
                    closed-InFlight (λ k. lookup k s.wires.relay_pool)
                      (λ k. lookup k s.wires.relay_pool) _ key conn a.relay_recvs _ (λ j ne. refl)
                      came v.relays;
                over_channels = v.over_channels;
              })
        | inr h ↦
            rw (h, on_pump_event)
              (record {
                relays =
                    closed-InFlight (λ k. lookup k s.wires.relay_pool)
                      (λ k. lookup k (remove key s.wires.relay_pool)) _ key conn a.relay_recvs _
                      (λ j ne. ground (arith, lookup-remove key j s.wires.relay_pool)) came
                      v.relays;
                over_channels = v.over_channels;
              })
      ]
  on_pump_event-Flying now (udp_event none) s a came v = v
  on_pump_event-Flying now (udp_event (some (payload, remote))) s a came v =
      same_lines N _ (handle_datagram-lines N now s remote none payload) v
  on_pump_event-Flying now (channel_event id (ok payload)) s a (wire, came) v =
      same_lines N _ (heard-lines now id payload s) (record {
        relays = v.relays;
        over_channels =
            rearm-InFlight (λ k. wire_of N (lookup k s.wires.channels)) _ N id wire a.channel_recvs
              _ came v.over_channels;
      })
  on_pump_event-Flying now (channel_event id (err _)) s a (wire, came) v =
      retire_channel-Flying s.wires a id wire came v
  on_pump_event-Flying now tick s a came v = v
