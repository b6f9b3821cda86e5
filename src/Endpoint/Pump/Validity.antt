-- ===== src/Endpoint/Pump/Validity.antt =====
-- A turn of the pump keeps the state valid (`pump` in endpoint/src/endpoint_impl.rs).
use component_iroh.Prelude.{
  ℕ, ◌≡◌, refl, Bool, true, false, ◌||◌, [], ◌∷◌, none, some, ok, err, Option-cases, Bool-cases,
  inl, inr, is_some, Text, ◌==◌, nat_key, leb, arith,
}
use component_iroh.Relay.Frames.{Bytes}
use component_iroh.Endpoint.Noq.{Noq}
use component_iroh.Endpoint.Wires.{Peer, home_relay}
use component_iroh.Endpoint.Wires.Routing.{HasRoom}
use component_iroh.Endpoint.Wires.Channels.{retire_channel-IsRouted}
use component_iroh.Endpoint.Wires.Steps.{same_tables, handle_signal-tables}
use component_iroh.Endpoint.State.{ConnEntry, State, drain}
use component_iroh.Endpoint.State.Identity.{IsAuthentic, same_identity}
use component_iroh.Endpoint.State.Drains.{IsValid, Keeps, Keeps->>=, drain-IsValid}
use component_iroh.Endpoint.Inbound.{
  handle_udp_datagram, kill_entry, timeout_entry, mark_dead, handle_timeouts,
}
use component_iroh.Endpoint.Inbound.Validity.{
  modify_all-AllAuthentic, handle_datagram-IsValid, handle_relay_datagram-IsValid,
  handle_channel_datagram-IsValid,
}
use component_iroh.Endpoint.Pump.{
  Armed, PumpEvent, relay_event, udp_event, channel_event, tick, signal_prefix, on_payload,
  on_pump_event, Turn, Sent, arm, stops, selects, flush, flush_relays, after_flush, is_over,
  begin_turn,
}

module _ (N : Noq) where
  kill_entry-IsAuthentic :
      (entry : ConnEntry N) → IsAuthentic N entry → IsAuthentic N (kill_entry N entry)
  unfolding kill_entry
  kill_entry-IsAuthentic entry v = elim (Option-cases entry.error) [
    | inl e ↦ rw (e, kill_entry) (same_identity N entry _ refl refl refl v)
    | inr (x, e) ↦ rw (e, kill_entry) (same_identity N entry _ refl refl refl v)
  ]

  mark_dead-IsValid : (reason : Text) (s : State N) → IsValid N s → IsValid N (mark_dead N reason s)
  unfolding mark_dead
  mark_dead-IsValid reason s v = record {
    tables_ok = v.tables_ok;
    authentic = modify_all-AllAuthentic N (kill_entry N) s.conns kill_entry-IsAuthentic v.authentic;
  }

  timeout_entry-IsAuthentic :
      (now : ℕ) (entry : ConnEntry N)
      → IsAuthentic N entry
      → IsAuthentic N (timeout_entry N now entry)
  unfolding timeout_entry
  timeout_entry-IsAuthentic now entry v = elim (Option-cases (N.poll_timeout entry.conn)) [
    | inl e ↦ rw (e, timeout_entry) v
    | inr (deadline, e) ↦ elim (Bool-cases (leb deadline now)) [
      | inl b ↦ rw (e, timeout_entry, b) (same_identity N entry _ refl refl refl v)
      | inr b ↦ rw (e, timeout_entry, b) v
    ]
  ]

  handle_timeouts-IsValid :
      (now : ℕ) (s : State N) → IsValid N s → IsValid N (handle_timeouts N now s)
  unfolding handle_timeouts
  handle_timeouts-IsValid now s v = record {
    tables_ok = v.tables_ok;
    authentic =
        modify_all-AllAuthentic N (timeout_entry N now) s.conns (timeout_entry-IsAuthentic now)
          v.authentic;
  }

  on_payload-IsValid :
      (now : ℕ) (s : State N) (key : ℕ) (source : Peer) (payload : Bytes)
      → HasRoom s.wires
      → IsValid N s
      → IsValid N (on_payload N now s key source payload)
  unfolding on_payload
  on_payload-IsValid now s key source [] room v =
      handle_relay_datagram-IsValid N now s key source [] room v
  on_payload-IsValid now s key source (b ∷ rest) room v = elim (Bool-cases (b == signal_prefix)) [
    | inl e ↦
        rw (e, on_payload)
          (record {
            tables_ok = same_tables (handle_signal-tables s.wires key source rest) v.tables_ok;
            authentic = v.authentic;
          })
    | inr e ↦
        rw (e, on_payload) (handle_relay_datagram-IsValid N now s key source (b ∷ rest) room v)
  ]

  -- Whatever event the pump takes up, the state stays valid, while the counters have room.
  pub on_pump_event-IsValid :
      (now : ℕ) (event : PumpEvent) (s : State N) (a : Armed)
      → HasRoom s.wires
      → IsValid N s
      → IsValid N (on_pump_event N now event s a).1
  unfolding on_pump_event handle_udp_datagram
  on_pump_event-IsValid now (relay_event key (ok (source, payload))) s a room v =
      on_payload-IsValid now s key source payload room v
  on_pump_event-IsValid now (relay_event key (err e)) s a room v =
      elim (Bool-cases (key == home_relay)) [
        | inl h ↦ rw (h, on_pump_event) (mark_dead-IsValid e s v)
        | inr h ↦
            rw (h, on_pump_event) (record { tables_ok = v.tables_ok; authentic = v.authentic })
      ]
  on_pump_event-IsValid now (udp_event none) s a room v = v
  on_pump_event-IsValid now (udp_event (some (payload, remote))) s a room v =
      handle_datagram-IsValid N now s remote none payload v
  on_pump_event-IsValid now (channel_event id (ok none)) s a room v = v
  on_pump_event-IsValid now (channel_event id (ok (some datagram))) s a room v =
      handle_channel_datagram-IsValid N now s id datagram room v
  on_pump_event-IsValid now (channel_event id (err e)) s a room v = record {
    tables_ok = retire_channel-IsRouted s.wires id v.tables_ok;
    authentic = v.authentic;
  }
  on_pump_event-IsValid now tick s a room v = handle_timeouts-IsValid now s v

  abbrev pub TurnIsValid : Turn N → Type 0
  TurnIsValid (stops s a sent) = IsValid N s × ((is_some s.wires.dead || s.wires.is_closed) ≡ true)
  TurnIsValid (selects s a sent) = IsValid N s × (s.wires.dead ≡ none)

  is_over-true :
      (linger now : ℕ) (s : State N)
      → is_over N linger now s ≡ true
      → (is_some s.wires.dead || s.wires.is_closed) ≡ true
  unfolding is_over
  is_over-true linger now s h = ground arith

  is_over-false :
      (linger now : ℕ) (s : State N) → is_over N linger now s ≡ false → s.wires.dead ≡ none
  unfolding is_over
  is_over-false linger now s h = ground arith

  after_flush-IsValid :
      (linger now : ℕ) (s : State N) (a : Armed) (sent : Sent)
      → IsValid N s
      → TurnIsValid (after_flush N linger now s a sent)
  unfolding after_flush arm
  after_flush-IsValid linger now s a sent v =
      let s' : State N = record s { wires = (arm s.wires a).0 } in
      elim (Bool-cases (is_over N linger now s')) [
        | inl e ↦
            rw (e, after_flush)
              (
                record { tables_ok = v.tables_ok; authentic = v.authentic },
                is_over-true linger now s' e,
              )
        | inr e ↦
            rw (e, after_flush)
              (
                record { tables_ok = v.tables_ok; authentic = v.authentic },
                is_over-false linger now s' e,
              )
      ]

  pub flush-IsValid :
      (linger now : ℕ) (has_udp : Bool) (fails : ℕ → Bytes → Bool) (s : State N) (a : Armed)
      → IsValid N s
      → TurnIsValid (flush N linger now has_udp fails s a)
  unfolding flush mark_dead
  flush-IsValid linger now has_udp fails s a v =
      elim (Bool-cases (flush_relays fails s.wires.relay_pool s.wires.relay_outbound).2) [
        | inl e ↦
            rw (e, flush)
              (
                mark_dead-IsValid _
                    (record s {
                      wires = record (s.wires) {
                        relay_outbound =
                            (flush_relays fails s.wires.relay_pool s.wires.relay_outbound).0;
                      };
                    })
                    (record { tables_ok = v.tables_ok; authentic = v.authentic }),
                refl,
              )
        | inr e ↦
            rw (e, flush)
              (after_flush-IsValid linger now _ a _
                (record { tables_ok = v.tables_ok; authentic = v.authentic }))
      ]

  -- Before it waits for an event, the pump never panics and keeps a valid state valid. It stops only
  -- when the endpoint is dead or closed, and goes on only when it is not dead.
  pub begin_turn-IsValid :
      (fuel linger now : ℕ) (has_udp : Bool) (fails : ℕ → Bytes → Bool) (s : State N) (a : Armed)
      → IsValid N s
      → Keeps TurnIsValid (begin_turn N fuel linger now has_udp fails s a)
  unfolding begin_turn
  begin_turn-IsValid fuel linger now has_udp fails s a v =
      Keeps->>= (IsValid N) TurnIsValid (drain N fuel now s) _ (drain-IsValid N fuel now s v)
        (λ s' v'. flush-IsValid linger now has_udp fails s' a v')
