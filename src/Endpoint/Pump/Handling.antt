-- ===== src/Endpoint/Pump/Handling.antt =====
-- Draining and the handling of a datagram open and close no wire (`State::drain` and the handlers of
-- endpoint/src/endpoint_impl.rs).
use component_iroh.Prelude.{
  ℕ, ◌≡◌, refl, ◌∙◌, [], ◌∷◌, Option, none, some, Result-cases, nat_key, lookup, Bool-cases,
  Option-cases, inl, inr, ◌==◌,
}
use component_iroh.Relay.Frames.{Bytes}
use component_iroh.Endpoint.Types.{SocketAddr}
use component_iroh.Endpoint.Noq.{Noq, connection_event, new_connection, response}
use component_iroh.Endpoint.Wires.{Peer}
use component_iroh.Endpoint.Wires.Routing.{IsRouted}
use component_iroh.Endpoint.Wires.Steps.{same_tables, push_transmit-tables}
use component_iroh.Endpoint.State.{State, drain}
use component_iroh.Endpoint.State.Drains.{IsValid, Keeps, Keeps-map, drain-Keeps}
use component_iroh.Endpoint.Inbound.{
  respond, on_incoming, handle_datagram, handle_relay_datagram, handle_channel_datagram,
}
use component_iroh.Endpoint.Pump.{signal_prefix, on_payload}
use component_iroh.Endpoint.Pump.Flying.{
  lines, addr_for_peer-lines, push_response-lines, push_transmit-lines, handle_signal-lines,
}

module _ (N : Noq) where
  on_incoming-lines :
      (now : ℕ) (s : State N) (addr : SocketAddr) (source : Option Peer) (incoming : N.Incoming)
      → lines (on_incoming N now s addr source incoming).wires ≡ lines s.wires
  unfolding on_incoming respond
  on_incoming-lines now s addr source incoming = elim (Bool-cases s.wires.is_closed) [
    | inl e ↦ simp e refl
    | inr e ↦ simp e (elim (Result-cases (N.accept now incoming s.noq).1) [
      | inl (_, h) ↦ rw h
      | inr (some payload, h) ↦ rw h (push_response-lines s.wires addr source payload)
      | inr (none, h) ↦ rw h
    ])
  ]

  pub handle_datagram-lines :
      (now : ℕ) (s : State N) (addr : SocketAddr) (source : Option Peer) (payload : Bytes)
      → lines (handle_datagram N now s addr source payload).wires ≡ lines s.wires
  unfolding handle_datagram respond
  handle_datagram-lines now s addr source payload =
      let s' : State N = record s { noq = (N.handle now addr payload s.noq).0 } in
      elim (Option-cases (N.handle now addr payload s.noq).1) [
        | inl e ↦ rw (e, handle_datagram)
        | inr (connection_event handle x, e) ↦ rw (e, handle_datagram)
        | inr (new_connection incoming, e) ↦
            rw (e, handle_datagram) (on_incoming-lines now s' addr source incoming)
        | inr (response bytes, e) ↦
            rw (e, handle_datagram) (push_response-lines s.wires addr source bytes)
      ]

  handle_relay_datagram-lines :
      (now : ℕ) (s : State N) (via : ℕ) (source : Peer) (payload : Bytes)
      → lines (handle_relay_datagram N now s via source payload).wires ≡ lines s.wires
  unfolding handle_relay_datagram
  handle_relay_datagram-lines now s via source payload =
      handle_datagram-lines now _ _ (some source) payload ∙ addr_for_peer-lines s.wires source via

  pub handle_channel_datagram-lines :
      (now : ℕ) (s : State N) (id : ℕ) (payload : Bytes)
      → lines (handle_channel_datagram N now s id payload).wires ≡ lines s.wires
  unfolding handle_channel_datagram
  handle_channel_datagram-lines now s id payload =
      elim (Option-cases (lookup id s.wires.channels)) [
        | inl e ↦ rw (e, handle_channel_datagram)
        | inr (entry, e) ↦
            rw (e, handle_channel_datagram)
              (handle_datagram-lines now _ _ (some entry.peer) payload
                ∙ addr_for_peer-lines s.wires entry.peer entry.fallback_relay)
      ]

  pub on_payload-lines :
      (now : ℕ) (s : State N) (key : ℕ) (source : Peer) (payload : Bytes)
      → lines (on_payload N now s key source payload).wires ≡ lines s.wires
  unfolding on_payload
  on_payload-lines now s key source [] = handle_relay_datagram-lines now s key source []
  on_payload-lines now s key source (b ∷ rest) = elim (Bool-cases (b == signal_prefix)) [
    | inl e ↦ rw (e, on_payload) (handle_signal-lines s.wires key source rest)
    | inr e ↦ rw (e, on_payload) (handle_relay_datagram-lines now s key source (b ∷ rest))
  ]

  -- `drain` opens and closes no wire.
  pub drain-lines :
      (fuel now : ℕ) (s : State N)
      → IsValid N s
      → Keeps
          (λ (s' : State N). IsValid N s' × (lines s'.wires ≡ lines s.wires))
          (drain N fuel now s)
  drain-lines fuel now s v =
      Keeps-map _ (λ (s' : State N). IsValid N s' × (lines s'.wires ≡ lines s.wires)) _
        (λ s' h. (record { tables_ok = h.1.0; authentic = h.0 }, h.1.1))
        (drain-Keeps N (λ w. IsRouted w × (lines w ≡ lines s.wires)) (λ w h. h.0) (λ w queue h. h)
          (λ w destination datagram w' sent h. (
            same_tables (push_transmit-tables w destination datagram w' sent) h.0,
            push_transmit-lines w destination datagram w' sent ∙ h.1,
          ))
          fuel now s v.authentic (v.tables_ok, refl))
