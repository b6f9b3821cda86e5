-- ===== src/Endpoint/State.antt =====
-- `State`, `ConnEntry`, `on_event` and the methods of `State` that reach into QUIC objects
-- (endpoint/src/endpoint_impl.rs). An instant is an argument of each method. A loop over a source of
-- events takes fuel; `out_of_fuel` and `panicked` are no results of the program.
pub mod Identity
pub mod Drains
pub mod Totality
pub mod Quiescence
use component_iroh.Prelude.{
  ℕ, zero, suc, ◌+◌, Bool, true, false, not, ◌&&◌, ◌||◌, List, [], ◌∷◌, ◌++◌, map, Option, none,
  some, Result, ok, err, ite, eq?, bytes_key, nat_key, lookup, insert, remove, Text, codes, leb,
  if◌then◌else◌, is_some, unwrap_or,
}
use component_iroh.Relay.Frames.{Bytes}
use component_iroh.Endpoint.Types.{SocketAddr, addr_key, Error, closed, connect_failed, other}
use component_iroh.Endpoint.Noq.{
  Noq, Event, handshake_data_ready, handshake_confirmed, path, nat_traversal, connected,
  stream_opened, stream_other, datagram_received, datagrams_unblocked, connection_lost, LostReason,
  application_closed, locally_closed, other_reason, Dir, bi, uni, Transmit, DatagramEvent,
  connection_event, new_connection, response,
}
use component_iroh.Endpoint.Wires.{
  Peer, ChannelEntry, Wires, addr_for_peer, push_transmit, push_response, new_wires,
}

pub data Run {ℓ} (A : Type ℓ) : Type ℓ where
  ended : A → Run A
  panicked : Run A
  out_of_fuel : Run A

infixl 5 ◌>>=◌
abbrev pub ◌>>=◌ {ℓ κ} : {A : Type ℓ} {B : Type κ} → Run A → (A → Run B) → Run B
ended a >>= f = f a
panicked >>= f = panicked
out_of_fuel >>= f = out_of_fuel

-- Repeats a step that says whether it had anything to do, until it had not. The flag that comes
-- back says whether any step had.
unfoldable pub while_progress {ℓ} : {S : Type ℓ} → ℕ → (S → Run (S × Bool)) → S → Run (S × Bool)
while_progress zero step s = out_of_fuel
while_progress (suc fuel) step s = elim (step s) [
  | panicked ↦ panicked
  | out_of_fuel ↦ out_of_fuel
  | ended (s', false) ↦ ended (s', false)
  | ended (s', true) ↦ elim (while_progress fuel step s') [
    | panicked ↦ panicked
    | out_of_fuel ↦ out_of_fuel
    | ended (s'', _) ↦ ended (s'', true)
  ]
]

-- The match guard: any authenticated key where none is expected, else the expected one.
unfoldable pub admits : Option Peer → Option Peer → Option Peer
admits none expected = none
admits (some id) none = some id
admits (some id) (some expected) = ite (eq? expected id) (some id) none

unfoldable pub lost_error : LostReason → Error
lost_error application_closed = closed
lost_error locally_closed = closed
lost_error (other_reason text) = other (codes "connection lost: " ++ text)

module _ (N : Noq) where
  open N use {
    Endpoint, Conn, endpoint_event, poll_endpoint_events, conn_event, poll, poll_transmit,
    is_drained, close, handshake_data, peer_identity, streams_accept, public_key_from_spki,
  }

  pub record ConnEntry : Type 0 where
    pub conn : Conn
    pub expected_peer : Option Peer
    pub peer : Option Peer
    pub accepted_side : Bool
    pub is_connected : Bool
    pub alpn : Bytes
    pub error : Option Error
    pub drained : Bool
    pub bi_queue : List ℕ
    pub uni_queue : List ℕ

  unfoldable pub new_entry : Conn → Option Peer → Bool → ConnEntry
  new_entry conn expected_peer accepted_side = record {
    conn = conn;
    expected_peer = expected_peer;
    peer = none;
    accepted_side = accepted_side;
    is_connected = false;
    alpn = [];
    error = none;
    drained = false;
    bi_queue = [];
    uni_queue = [];
  }

  pub record State : Type 0 where
    pub wires : Wires
    pub noq : Endpoint
    pub conns : List (ℕ × ConnEntry)

  unfoldable pub new_state : Endpoint → Bool → State
  new_state noq webrtc_enabled = record { wires = new_wires webrtc_enabled; noq = noq; conns = [] }

  -- `certs.first().and_then(endpoint_id_from_spki)` of the session's peer identity.
  unfoldable pub tls_peer : Conn → Option Peer
  tls_peer conn = elim (peer_identity conn) [
    | none ↦ none
    | some [] ↦ none
    | some (cert ∷ _) ↦ public_key_from_spki cert
  ]

  unfoldable pub mismatch : ℕ → ConnEntry → ConnEntry
  mismatch now entry = record entry {
    error = some (connect_failed (codes "authenticated key differs from the addressed peer"));
    conn = close now 1 (codes "identity mismatch") entry.conn;
  }

  unfoldable pub on_connected : ℕ → ConnEntry → ℕ → List ℕ → ConnEntry × List ℕ
  unfolding tls_peer admits mismatch
  on_connected now entry handle accept_queue =
      let entry' = record entry {
        alpn = elim (handshake_data entry.conn) [
          | none ↦ entry.alpn
          | some protocol ↦ unwrap_or protocol []
        ];
      } in
      elim (admits (tls_peer entry.conn) entry.expected_peer) [
        | none ↦ (mismatch now entry', accept_queue)
        | some id ↦ (
          record entry' { peer = some id; is_connected = true },
          if entry.accepted_side then accept_queue ++ (handle ∷ []) else accept_queue,
        )
      ]

  unfoldable pub queue_stream : Dir → ℕ → ConnEntry → ConnEntry
  queue_stream bi id entry = record entry { bi_queue = entry.bi_queue ++ (id ∷ []) }
  queue_stream uni id entry = record entry { uni_queue = entry.uni_queue ++ (id ∷ []) }

  -- One turn of `while let Some(id) = entry.conn.streams().accept(dir)`.
  unfoldable pub accept_stream_step : Dir → ConnEntry → Run (ConnEntry × Bool)
  unfolding queue_stream
  accept_stream_step dir entry =
      let (conn, opened) = streams_accept dir entry.conn in
      elim opened [
        | none ↦ ended (record entry { conn = conn }, false)
        | some id ↦ ended (queue_stream dir id (record entry { conn = conn }), true)
      ]

  unfoldable pub on_event : ℕ → ℕ → ConnEntry → ℕ → Event → List ℕ → Run (ConnEntry × List ℕ)
  unfolding on_connected accept_stream_step lost_error
  on_event fuel now entry handle connected queue = ended (on_connected now entry handle queue)
  on_event fuel now entry handle (stream_opened _) queue = do
    (entry', _) ← while_progress fuel (accept_stream_step bi) entry
    (entry'', _) ← while_progress fuel (accept_stream_step uni) entry'
    ended (entry'', queue)
  on_event fuel now entry handle (connection_lost reason) queue =
      ended (record entry { error = some (lost_error reason) }, queue)
  on_event fuel now entry handle _ queue = ended (entry, queue)

  -- What the body of the drain loop works on: one entry, the endpoint, and the wires.
  pub record Draining : Type 0 where
    pub entry : ConnEntry
    pub endpoint : Endpoint
    pub wires : Wires

  unfoldable pub endpoint_events_step : ℕ → Draining → Run (Draining × Bool)
  endpoint_events_step handle d =
      let (conn, event) = poll_endpoint_events d.entry.conn in
      elim event [
        | none ↦ ended (record d { entry = record (d.entry) { conn = conn } }, false)
        | some e ↦
            let (endpoint', back) = endpoint_event handle e d.endpoint in
            let conn' : Conn = elim back [ none ↦ conn | some b ↦ conn_event b conn ] in
            ended
              (record d { entry = record (d.entry) { conn = conn' }; endpoint = endpoint' }, true)
      ]

  unfoldable pub events_step : ℕ → ℕ → ℕ → Draining → Run (Draining × Bool)
  unfolding on_event
  events_step fuel now handle d =
      let (conn, event) = poll d.entry.conn in
      let polled = record (d.entry) { conn = conn } in
      elim event [
        | none ↦ ended (record d { entry = polled }, false)
        | some e ↦
            (on_event fuel now polled handle e d.wires.accept_queue >>= (λ r.
              ended
                (record d { entry = r.0; wires = record (d.wires) { accept_queue = r.1 } }, true)))
      ]

  unfoldable pub transmits_step : ℕ → Draining → Run (Draining × Bool)
  transmits_step now d =
      let (conn, transmit) = poll_transmit now d.entry.conn in
      let polled = record (d.entry) { conn = conn } in
      elim transmit [
        | none ↦ ended (record d { entry = polled }, false)
        | some t ↦ elim (push_transmit d.wires t.destination t.datagram) [
          | none ↦ panicked
          | some wires' ↦ ended (record d { entry = polled; wires = wires' }, true)
        ]
      ]

  unfoldable pub turn : ℕ → ℕ → ℕ → Draining → Run (Draining × Bool)
  turn fuel now handle d = do
    (d1, a) ← while_progress fuel (endpoint_events_step handle) d
    (d2, b) ← while_progress fuel (events_step fuel now handle) d1
    (d3, c) ← while_progress fuel (transmits_step now) d2
    ended (d3, a || (b || c))

  unfoldable pub drain_entry : ℕ → ℕ → ℕ → Draining → Run Draining
  drain_entry fuel now handle d = do
    (d', _) ← while_progress fuel (turn fuel now handle) d
    ended (record d' {
      entry = record (d'.entry) { drained = d'.entry.drained || is_drained d'.entry.conn };
    })

  -- `for (handle, entry) in conns.iter_mut()`, in the order of the list.
  unfoldable pub drain_all :
      ℕ
      → ℕ
      → List (ℕ × ConnEntry)
      → Endpoint
      → Wires
      → Run (List (ℕ × ConnEntry) × Endpoint × Wires)
  drain_all fuel now [] endpoint wires = ended ([], endpoint, wires)
  drain_all fuel now ((handle, entry) ∷ conns) endpoint wires = do
    d ← drain_entry fuel now handle (record { entry = entry; endpoint = endpoint; wires = wires })
    (rest, endpoint', wires') ← drain_all fuel now conns d.endpoint d.wires
    ended ((handle, d.entry) ∷ rest, endpoint', wires')

  unfoldable pub drain : ℕ → ℕ → State → Run State
  drain fuel now s = do
    (conns', noq', wires') ← drain_all fuel now s.conns s.noq s.wires
    ended (record { wires = wires'; noq = noq'; conns = conns' })
