-- ===== src/Endpoint/Pump/Ending.antt =====
-- The end of the pump (`pump` in endpoint/src/endpoint_impl.rs): its teardown closes the wire of every
-- receive that is still in flight, so that each of them comes back.
use component_iroh.Prelude.{
  ℕ, ◌≡◌, refl, Bool, true, false, inl, inr, [], ◌∷◌, nat_key, All, All-append, not, ◌&&◌,
  if◌then◌else◌,
}
use component_iroh.Relay.Frames.{Bytes}
use component_iroh.Endpoint.Noq.{Noq}
use component_iroh.Endpoint.Wires.{Wires, new_wires}
use component_iroh.Endpoint.Wires.Routing.{new_wires-IsRouted}
use component_iroh.Endpoint.State.{State, new_state, drain}
use component_iroh.Endpoint.State.Drains.{IsValid, Keeps, Keeps->>=}
use component_iroh.Endpoint.Pump.{Armed, begin_turn}
use component_iroh.Endpoint.Pump.Teardown.{
  closes_relay, closes_channel, close_relays, teardown, waits_udp, waits_tick, relay_waits,
  channel_waits, last_waits,
}
use component_iroh.Endpoint.Pump.Validity.{on_pump_event-IsValid, flush-IsValid, TurnIsValid}
use component_iroh.Endpoint.Pump.Receives.{All-map}
use component_iroh.Endpoint.Pump.Flying.{lines, Flying, same_lines, Others, Others-Flying}
use component_iroh.Endpoint.Pump.Handling.{drain-lines}
use component_iroh.Endpoint.Pump.Turns.{TurnFlies, flush-TurnFlies, on_pump_event-Flying}
use component_iroh.Endpoint.Pump.Waits.{
  Occurs, Ends, Occurs-append_left, Occurs-append_right, close_relays-Occurs, close_channels-Occurs,
  relay_waits-Ends, channel_waits-Ends,
}
use component_iroh.Endpoint.Pump.History.{
  Reach, starts, acts, turns, reacts, Stops, turn_stops, event_stops,
}

module _ (N : Noq) where
  begin_turn-Flies :
      (fuel linger now : ℕ) (has_udp : Bool) (fails : ℕ → Bytes → Bool) (s : State N) (a : Armed)
      → IsValid N s
      → Flying N a (lines s.wires)
      → Keeps
          (λ t. TurnIsValid N t × TurnFlies N t)
          (begin_turn N fuel linger now has_udp fails s a)
  unfolding begin_turn
  begin_turn-Flies fuel linger now has_udp fails s a v f =
      Keeps->>= (λ (s' : State N). IsValid N s' × (lines s'.wires ≡ lines s.wires))
        (λ t. TurnIsValid N t × TurnFlies N t) (drain N fuel now s) _ (drain-lines N fuel now s v)
        (λ s' h. (
          flush-IsValid N linger now has_udp fails s' a h.0,
          flush-TurnFlies N linger now has_udp fails s' a (same_lines N a h.1 f),
        ))

  Reach-Flying : {s : State N} {a : Armed} → Reach N s a → IsValid N s × Flying N a (lines s.wires)
  unfolding new_state new_wires TurnFlies
  Reach-Flying (starts noq webrtc_enabled) = (
    record { tables_ok = new_wires-IsRouted webrtc_enabled; authentic = tt },
    record {
      relays = record { flying = tt; coming = tt; apart = tt };
      over_channels = record { flying = tt; coming = tt; apart = tt };
    },
  )
  Reach-Flying (acts r o v) = (v, Others-Flying N _ o (Reach-Flying r).1)
  Reach-Flying (turns fuel linger now has_udp fails {s} {a = a} r e) =
      let (v, f) = Reach-Flying r in
      let (v', f') = rw e at (begin_turn-Flies fuel linger now has_udp fails s a v f) in (v'.0, f')
  Reach-Flying (reacts now event {s} {a = a} r room came e) =
      let (v, f) = Reach-Flying r in
      (
        rw e at (on_pump_event-IsValid N now event s a room v),
        rw e at (on_pump_event-Flying N now event s a came f),
      )

  Stops-Flying : {s : State N} {a : Armed} → Stops N s a → Flying N a (lines s.wires)
  unfolding TurnFlies
  Stops-Flying (turn_stops fuel linger now has_udp fails {s} {a = a} r e) =
      let (v, f) = Reach-Flying r in
      (rw e at (begin_turn-Flies fuel linger now has_udp fails s a v f)).1
  Stops-Flying (event_stops now event {s} {a = a} r came e) =
      rw e at (on_pump_event-Flying N now event s a came (Reach-Flying r).1)

  relays-Occur :
      (s : State N) (a : Armed)
      → Flying N a (lines s.wires)
      → (has_udp : Bool) (during : Wires → Wires)
      → All
          (λ (r : ℕ × ℕ). Occurs (closes_relay r.1) (teardown has_udp during s.wires))
          a.relay_recvs
  unfolding teardown
  relays-Occur s a f has_udp during =
      All-map _ _ a.relay_recvs
        (λ r h.
          Occurs-append_left _ (close_relays s.wires.relay_pool) _
            (close_relays-Occurs s.wires.relay_pool r.0 r.1 h.0))
        f.relays.flying

  -- The wires of the channel receives are closed after others have acted, if there is a socket.
  channels-Occur :
      (s : State N) (a : Armed)
      → Flying N a (lines s.wires)
      → (has_udp : Bool) (during : Wires → Wires) → Others s.wires (during s.wires)
      → All
          (λ (r : ℕ × ℕ). Occurs (closes_channel r.1) (teardown has_udp during s.wires))
          a.channel_recvs
  unfolding teardown
  channels-Occur s a f true during others =
      All-map _ _ a.channel_recvs
        (λ r h.
          Occurs-append_right _ (close_relays s.wires.relay_pool) _
            (inr (close_channels-Occurs N (during s.wires).channels r.0 r.1 h.0)))
        (Others-Flying N a others f).over_channels.flying
  channels-Occur s a f false during others =
      All-map _ _ a.channel_recvs
        (λ r h.
          Occurs-append_right _ (close_relays s.wires.relay_pool) _
            (close_channels-Occurs N s.wires.channels r.0 r.1 h.0))
        f.over_channels.flying

  udp-Ends :
      (s : State N) (has_udp udp_terminated : Bool) (during : Wires → Wires)
      → All
          (Ends (teardown has_udp during s.wires))
          (if has_udp && not udp_terminated then waits_udp ∷ [] else [])
  unfolding teardown
  udp-Ends s true true during = tt
  udp-Ends s true false during =
      (Occurs-append_right _ (close_relays s.wires.relay_pool) _ (inl refl), tt)
  udp-Ends s false udp_terminated during = tt

  -- When the pump leaves its loop, after any history in which the other tasks retire no channel, open
  -- no wire past the range of the counters, and keep the state valid, and if they act so also while
  -- the UDP socket wakes itself: what the pump then waits for comes back. The teardown has closed the
  -- wire of each relay receive and of each channel receive in flight, and has woken the UDP socket if
  -- its receive is awaited.
  pub teardown-EndsAll :
      {s : State N} {a : Armed}
      → Stops N s a
      → (has_udp udp_terminated : Bool) (during : Wires → Wires) → Others s.wires (during s.wires)
      → All (Ends (teardown has_udp during s.wires)) (last_waits has_udp udp_terminated a)
  unfolding last_waits
  teardown-EndsAll {s} {a} stopped has_udp udp_terminated during others =
      let f = Stops-Flying stopped in
      let closings = teardown has_udp during s.wires in
      All-append (Ends closings) (relay_waits a.relay_recvs) _
        (relay_waits-Ends closings a.relay_recvs (relays-Occur s a f has_udp during))
        (All-append (Ends closings) _ _ (udp-Ends s has_udp udp_terminated during) (
          All-append (Ends closings) (channel_waits a.channel_recvs) (waits_tick ∷ [])
            (channel_waits-Ends closings a.channel_recvs
              (channels-Occur s a f has_udp during others))
            (tt, tt)))
