-- ===== src/Endpoint/Noq.antt =====
-- The QUIC crate `noq_proto` as the endpoint uses it: state types that only it can look into, the
-- calls that the source makes of them, and the data that those calls take and return. Instants are
-- numbers.
use component_iroh.Prelude.{ℕ, Bool, Option, Result, List}
use component_iroh.Relay.Frames.{Bytes}
use component_iroh.Endpoint.Types.{SocketAddr}

pub data LostReason : Type 0 where
  application_closed locally_closed : LostReason
  other_reason : Bytes → LostReason

pub data Dir : Type 0 where
  bi uni : Dir

pub data Event : Type 0 where
  handshake_data_ready handshake_confirmed path nat_traversal connected : Event
  stream_opened : Dir → Event
  stream_readable : ℕ → Event
  stream_other datagram_received datagrams_unblocked : Event
  connection_lost : LostReason → Event

pub data WriteError : Type 0 where
  write_blocked write_closed : WriteError
  write_stopped : Bytes → WriteError

pub data FinishError : Type 0 where
  finish_closed : FinishError
  finish_stopped : Bytes → FinishError

-- `recv.read(true)` and `chunks.next(max)` in one result.
pub data ReadResult : Type 0 where
  read_closed_stream illegal_ordered_read read_fin read_blocked : ReadResult
  read_chunk : Bytes → ReadResult
  read_reset : Bytes → ReadResult

pub data SendDatagramError : Type 0 where
  too_large unsupported_by_peer : SendDatagramError
  other_send_error : Bytes → SendDatagramError

pub record Transmit : Type 0 where
  pub destination : SocketAddr
  pub datagram : Bytes

pub data DatagramEvent (ConnEvent Incoming : Type 0) : Type 0 where
  connection_event : ℕ → ConnEvent → DatagramEvent ConnEvent Incoming
  new_connection : Incoming → DatagramEvent ConnEvent Incoming
  response : Bytes → DatagramEvent ConnEvent Incoming

-- A connection handle and a stream id are numbers; a peer's certificates are byte strings.
pub record Noq : Type 1 where
  pub Endpoint : Type 0
  pub Conn : Type 0
  pub EndpointEvent : Type 0
  pub ConnEvent : Type 0
  pub Incoming : Type 0
  -- The endpoint's `handle_event`, `handle`, `accept` and `connect`.
  pub endpoint_event : ℕ → EndpointEvent → Endpoint → Endpoint × Option ConnEvent
  pub handle :
      ℕ → SocketAddr → Bytes → Endpoint → Endpoint × Option (DatagramEvent ConnEvent Incoming)
  pub accept : ℕ → Incoming → Endpoint → Endpoint × Result (ℕ × Conn) (Option Bytes)
  pub connect : ℕ → SocketAddr → Endpoint → Endpoint × Result (ℕ × Conn) Bytes
  -- The connection's event sources and sinks.
  pub poll_endpoint_events : Conn → Conn × Option EndpointEvent
  pub conn_event : ConnEvent → Conn → Conn
  pub poll : Conn → Conn × Option Event
  pub poll_transmit : ℕ → Conn → Conn × Option Transmit
  pub is_drained : Conn → Bool
  pub poll_timeout : Conn → Option ℕ
  pub handle_timeout : ℕ → Conn → Conn
  pub close : ℕ → ℕ → Bytes → Conn → Conn
  -- `crypto_session().handshake_data()`, with its protocol, and `.peer_identity()`.
  pub handshake_data : Conn → Option (Option Bytes)
  pub peer_identity : Conn → Option (List Bytes)
  pub network_path : Conn → Option SocketAddr
  -- Streams and datagrams.
  pub streams_accept : Dir → Conn → Conn × Option ℕ
  pub streams_open : Dir → Conn → Conn × Option ℕ
  pub write : ℕ → Bytes → Conn → Conn × Result ℕ WriteError
  pub finish : ℕ → Conn → Conn × Result (Unit {0}) FinishError
  pub reset : ℕ → ℕ → Conn → Conn
  pub read : ℕ → ℕ → Conn → Conn × ReadResult
  pub stop : ℕ → ℕ → Conn → Conn
  pub max_datagram_size : Conn → Option ℕ
  pub send_datagram : Bytes → Conn → Conn × Result (Unit {0}) SendDatagramError
  pub recv_datagram : Conn → Conn × Option Bytes
  -- `public_key_from_ed25519_spki` of the TLS sibling.
  pub public_key_from_spki : Bytes → Option Bytes
