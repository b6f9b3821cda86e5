-- ===== src/Endpoint/Connection.antt =====
-- The `connection` resource (`ConnectionRes` in endpoint/src/endpoint_impl.rs). A method that waits
-- is one attempt on the entry, repeated by `wait_until`.
pub mod Paths
use component_iroh.Prelude.{
  ℕ, Bool, true, false, not, ◌&&◌, ◌||◌, ◌%◌, ◌^◌, List, [], ◌∷◌, ◌++◌, Option, none, some, Result,
  ok, err, nat_key, lookup, codes, if◌then◌else◌, is_some, unwrap_or,
}
use component_iroh.Relay.Frames.{Bytes}
use component_iroh.Endpoint.Types.{
  SocketAddr, addr_key, Error, invalid_argument, other, RouteWire, relay, channel,
}
use component_iroh.Endpoint.Noq.{
  Noq, Dir, bi, uni, SendDatagramError, too_large, unsupported_by_peer, other_send_error,
}
use component_iroh.Endpoint.State.{Run, ConnEntry, State}
use component_iroh.Endpoint.Waiting.{wait_until, with_entry, unless_failed}

pub data ConnectionState : Type 0 where
  connecting open_state closed_state : ConnectionState

pub data PathKind : Type 0 where
  relay_path ip_path webrtc_path : PathKind

unfoldable pub send_error : SendDatagramError → Error
send_error too_large = invalid_argument (codes "datagram exceeds max-datagram-size")
send_error unsupported_by_peer = invalid_argument (codes "peer does not accept datagrams")
send_error (other_send_error text) = other (codes "send-datagram: " ++ text)

-- `pop_front().map(Ok)`, else the entry's error.
unfoldable pub or_error {ℓ} : {R : Type ℓ} → Option R → Option Error → Option (Result R Error)
or_error (some r) error = some (ok r)
or_error none none = none
or_error none (some e) = some (err e)

unfoldable pub path_of : Option RouteWire → PathKind
path_of (some (channel _)) = webrtc_path
path_of (some (relay _)) = relay_path
path_of none = ip_path

module _ (N : Noq) where
  open N use {Conn, streams_open, network_path}

  unfoldable pub open_attempt : Dir → ConnEntry N → ConnEntry N × Option (Result ℕ Error)
  unfolding unless_failed
  open_attempt dir entry = unless_failed N entry (λ (e : ConnEntry N).
      let (conn, opened) = streams_open dir e.conn in
      (record e { conn = conn }, elim opened [ none ↦ none | some id ↦ some (ok id) ]))

  unfoldable pub pop_stream : Dir → ConnEntry N → ConnEntry N × Option ℕ
  pop_stream bi entry = elim entry.bi_queue [
    | [] ↦ (entry, none)
    | id ∷ rest ↦ (record entry { bi_queue = rest }, some id)
  ]
  pop_stream uni entry = elim entry.uni_queue [
    | [] ↦ (entry, none)
    | id ∷ rest ↦ (record entry { uni_queue = rest }, some id)
  ]

  unfoldable pub accept_attempt : Dir → ConnEntry N → ConnEntry N × Option (Result ℕ Error)
  unfolding pop_stream or_error
  accept_attempt dir entry =
      let (entry', id) = pop_stream dir entry in (entry', or_error id entry.error)

  unfoldable pub recv_attempt : ConnEntry N → ConnEntry N × Option (Result Bytes Error)
  unfolding or_error
  recv_attempt entry =
      let (conn, bytes) = N.recv_datagram entry.conn in
      (record entry { conn = conn }, or_error bytes entry.error)

  unfoldable pub closed_attempt : ConnEntry N → ConnEntry N × Option (Unit {0})
  closed_attempt entry = (entry, if entry.drained || is_some entry.error then some tt else none)

  unfoldable pub open_stream :
      ℕ → Dir → List (State N → State N) → State N → Run (State N × Option (Result ℕ Error))
  unfolding wait_until with_entry open_attempt
  open_stream handle dir = wait_until (with_entry N handle (open_attempt dir))

  unfoldable pub accept_stream :
      ℕ → Dir → List (State N → State N) → State N → Run (State N × Option (Result ℕ Error))
  unfolding wait_until with_entry accept_attempt
  accept_stream handle dir = wait_until (with_entry N handle (accept_attempt dir))

  unfoldable pub recv_datagram :
      ℕ → List (State N → State N) → State N → Run (State N × Option (Result Bytes Error))
  unfolding wait_until with_entry recv_attempt
  recv_datagram handle = wait_until (with_entry N handle recv_attempt)

  unfoldable pub wait_closed :
      ℕ → List (State N → State N) → State N → Run (State N × Option (Unit {0}))
  unfolding wait_until with_entry closed_attempt
  wait_closed handle = wait_until (with_entry N handle closed_attempt)

  unfoldable pub peer : ConnEntry N → Bytes
  peer entry = unwrap_or entry.peer []

  unfoldable pub state : ConnEntry N → ConnectionState
  state entry =
      if entry.drained || is_some entry.error
      then closed_state
      else if entry.is_connected
      then open_state
      else connecting

  unfoldable pub path : State N → ℕ → PathKind
  unfolding path_of
  path s handle = elim (lookup handle s.conns) [
    | none ↦ relay_path
    | some entry ↦ elim (network_path entry.conn) [
      | none ↦ relay_path
      | some remote ↦ path_of (lookup remote s.wires.routes)
    ]
  ]

  -- `s as u32`.
  unfoldable pub max_datagram_size : ConnEntry N → Option ℕ
  max_datagram_size entry = elim (N.max_datagram_size entry.conn) [
    | none ↦ none
    | some size ↦ some (size % 2 ^ 32)
  ]

  unfoldable pub send_datagram :
      Bytes → ConnEntry N → ConnEntry N × Option (Result (Unit {0}) Error)
  unfolding unless_failed send_error
  send_datagram bytes entry = unless_failed N entry (λ (e : ConnEntry N).
      let (conn, sent) = N.send_datagram bytes e.conn in
      (
        record e { conn = conn },
        elim sent [ ok _ ↦ some (ok tt) | err problem ↦ some (err (send_error problem)) ],
      ))

  unfoldable pub close : ℕ → ℕ → Bytes → ConnEntry N → ConnEntry N
  close now code reason entry =
      if not (is_some entry.error) && not entry.drained
      then record entry { conn = N.close now code reason entry.conn }
      else entry
