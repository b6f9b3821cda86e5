-- ===== src/Endpoint/Inbound.antt =====
-- The methods of `State` on inbound datagrams, timers, closing and death
-- (endpoint/src/endpoint_impl.rs).
pub mod Validity
pub mod Closing
use component_iroh.Prelude.{
  ℕ, Bool, true, false, not, ◌&&◌, ◌||◌, List, [], ◌∷◌, ◌++◌, map, Option, none, some, Result, ok,
  err, nat_key, ite, eq?, lookup, insert, Text, leb, if◌then◌else◌, is_some,
}
use component_iroh.Relay.Frames.{Bytes}
use component_iroh.Endpoint.Types.{SocketAddr, Error, closed}
use component_iroh.Endpoint.Noq.{Noq, DatagramEvent, connection_event, new_connection, response}
use component_iroh.Endpoint.Wires.{Peer, ChannelEntry, Wires, addr_for_peer, push_response}
use component_iroh.Endpoint.State.{ConnEntry, State, new_entry}

-- Applies a change to the value of a key, if it is there (`get_mut`).
abbrev pub modify {ℓ} : {V : Type ℓ} → ℕ → (V → V) → List (ℕ × V) → List (ℕ × V)
modify k f [] = []
modify k f ((j, v) ∷ m) = ite (eq? j k) ((j, f v) ∷ m) ((j, v) ∷ modify k f m)

-- `values_mut`.
abbrev pub modify_all {ℓ} : {V : Type ℓ} → (V → V) → List (ℕ × V) → List (ℕ × V)
modify_all f [] = []
modify_all f ((j, v) ∷ m) = (j, f v) ∷ modify_all f m

module _ (N : Noq) where
  open N use {Incoming, ConnEvent, conn_event, poll_timeout, handle_timeout, close, Conn, Endpoint}

  unfoldable pub respond : State N → SocketAddr → Option Peer → Bytes → State N
  respond s addr source payload = record s { wires = push_response s.wires addr source payload }

  unfoldable pub on_incoming : ℕ → State N → SocketAddr → Option Peer → Incoming → State N
  unfolding respond new_entry
  on_incoming now s addr source incoming =
      if s.wires.is_closed
      then s
      else (let (noq, accepted) = N.accept now incoming s.noq in
          let s' = record s { noq = noq } in
          elim accepted [
            | ok (handle, conn) ↦ record s' {
              conns = insert handle (new_entry N conn source true) s.conns;
            }
            | err (some payload) ↦ respond s' addr source payload
            | err none ↦ s'
          ])

  unfoldable pub handle_datagram : ℕ → State N → SocketAddr → Option Peer → Bytes → State N
  unfolding on_incoming respond
  handle_datagram now s addr source payload =
      let (noq, event) = N.handle now addr payload s.noq in
      let s' = record s { noq = noq } in
      elim event [
        | none ↦ s'
        | some (connection_event handle e) ↦ record s' {
          conns =
              modify handle
                (λ (entry : ConnEntry N). record entry { conn = conn_event e entry.conn }) s.conns;
        }
        | some (new_connection incoming) ↦ on_incoming now s' addr source incoming
        | some (response bytes) ↦ respond s' addr source bytes
      ]

  unfoldable pub handle_relay_datagram : ℕ → State N → ℕ → Peer → Bytes → State N
  unfolding handle_datagram
  handle_relay_datagram now s via source payload =
      let (wires, addr) = addr_for_peer s.wires source via in
      handle_datagram now (record s { wires = wires }) addr (some source) payload

  unfoldable pub handle_udp_datagram : ℕ → State N → SocketAddr → Bytes → State N
  unfolding handle_datagram
  handle_udp_datagram now s remote payload = handle_datagram now s remote none payload

  unfoldable pub handle_channel_datagram : ℕ → State N → ℕ → Bytes → State N
  unfolding handle_datagram
  handle_channel_datagram now s id payload = elim (lookup id s.wires.channels) [
    | none ↦ s
    | some entry ↦
        let (wires, synthetic) = addr_for_peer s.wires entry.peer entry.fallback_relay in
        handle_datagram now (record s { wires = wires }) synthetic (some entry.peer) payload
  ]

  -- `poll_timeout` is taken to leave the connection as it is.
  unfoldable pub timeout_entry : ℕ → ConnEntry N → ConnEntry N
  timeout_entry now entry = elim (poll_timeout entry.conn) [
    | none ↦ entry
    | some deadline ↦
        if leb deadline now then record entry { conn = handle_timeout now entry.conn } else entry
  ]

  unfoldable pub handle_timeouts : ℕ → State N → State N
  unfolding timeout_entry
  handle_timeouts now s = record s { conns = modify_all (timeout_entry now) s.conns }

  unfoldable pub close_entry : ℕ → Bytes → ConnEntry N → ConnEntry N
  close_entry now reason entry =
      if not (is_some entry.error) && not entry.drained
      then record entry { conn = close now 0 reason entry.conn }
      else entry

  unfoldable pub close_all : ℕ → Bytes → State N → State N
  unfolding close_entry
  close_all now reason s = record s { conns = modify_all (close_entry now reason) s.conns }

  unfoldable pub kill_entry : ConnEntry N → ConnEntry N
  kill_entry entry = elim entry.error [
    | none ↦ record entry { error = some closed }
    | some _ ↦ entry
  ]

  unfoldable pub mark_dead : Text → State N → State N
  unfolding kill_entry
  mark_dead reason s = record s {
    wires = record (s.wires) { dead = some reason };
    conns = modify_all kill_entry s.conns;
  }

  -- `EndpointRes::close`, and `drop` with another reason.
  unfoldable pub shut : ℕ → Bytes → State N → State N
  unfolding close_all
  shut now reason s =
      if s.wires.is_closed
      then s
      else close_all now reason
          (record s { wires = record (s.wires) { is_closed = true; closed_at = some now } })
