-- ===== src/Guest/App.antt =====
-- The demo's application (guest/src/endpoint.rs, `App`): what it does with an event of its connection,
-- and what it does between events.
use component_iroh.Prelude.{
  ℕ, zero, suc, Bool, true, false, not, ◌&&◌, ◌++◌, Option, none, some, ok, err, map_err, ok_or,
  bytes_key, eq?, codes, Text, ◌==◌, is_some, unwrap_or, length, nat_key, if◌then◌else◌,
}
use component_iroh.Relay.Frames.{Bytes}
use component_iroh.Endpoint.Noq.{
  Noq, Event, connected, stream_opened, stream_readable, datagram_received, connection_lost,
  LostReason, application_closed, bi,
}
use component_iroh.Guest.{peer_endpoint_id}
use component_iroh.Guest.Task.{
  finished, failed, out_of_fuel, Task, ◌>>=◌, pure, fail, gets, of_result,
}
use component_iroh.Guest.Side.{
  client, server, datagram_copies, fin, blocked, broken, chunk, Demo, elapsed_ms, Side, labelled,
  on_conn, on_app,
}

module _ {N : Noq} (D : Demo N) where
  -- `write`, which must take everything, and `finish`; the texts are those of their errors.
  unfoldable pub send_whole :
      (write_label short finish_label : Text) → ℕ → Bytes → Task (Side N) (Unit {0})
  unfolding ◌>>=◌
  send_whole write_label short finish_label id bytes = do
    result ← on_conn (N.write id bytes)
    wrote ← of_result (map_err (labelled write_label D.write_text) result)
    _ ← of_result (if wrote == length bytes then ok tt else err short)
    ended ← on_conn (N.finish id)
    of_result (map_err (labelled finish_label D.finish_text) ended)

  unfoldable pub send_copies : (label : Text) → ℕ → Bytes → Task (Side N) (Unit {0})
  unfolding ◌>>=◌
  send_copies label zero payload = pure tt
  send_copies label (suc n) payload = do
    sent ← on_conn (N.send_datagram payload)
    _ ← of_result (map_err (labelled label D.datagram_text) sent)
    send_copies label n payload

  -- The client opens its stream and sends its message.
  unfoldable pub start_demo : (now : ℕ) → Bytes → Task (Side N) (Unit {0})
  unfolding ◌>>=◌ send_whole
  start_demo now message = do
    opened ← on_conn (N.streams_open bi)
    id ← of_result (ok_or opened (codes "no bidirectional stream credit"))
    _ ← on_app (λ a. record a { stream = some id })
    _ ←
        send_whole (codes "stream write: ") (codes "demo message did not fit the stream window")
          (codes "stream finish: ") id message
    on_app (λ a. record a { sent_at = some now })

  unfoldable pub on_connected : (started now : ℕ) → Task (Side N) (Unit {0})
  unfolding ◌>>=◌ start_demo
  on_connected started now = do
    _ ← on_app (λ a. record a { handshake_ms = some (elapsed_ms started now) })
    identity ← gets (λ s. peer_endpoint_id N s.conn)
    peer ← of_result identity
    _ ← on_app (λ a. record a { peer_id = some peer })
    role ← gets (λ s. s.app.role)
    elim role [ server ↦ pure tt | client message ↦ start_demo now message ]

  -- The loop over the chunks; whether it met the end of the stream.
  unfoldable pub read_chunks : (fuel : ℕ) → ℕ → Task (Side N) Bool
  read_chunks zero id s = out_of_fuel
  read_chunks (suc fuel) id s =
      let (conn, next) = D.chunks_next id s.conn in
      let s' : Side N = record s { conn = conn } in
      elim next [
        | fin ↦ finished s' true
        | blocked ↦ finished s' false
        | broken e ↦ failed s' (codes "stream read: " ++ e)
        | chunk bytes ↦
            read_chunks fuel id
              (record s' { app = record (s.app) { inbound = s.app.inbound ++ bytes } })
      ]

  -- After the end of the stream: the server echoes.
  unfoldable pub complete : (now : ℕ) → ℕ → Task (Side N) (Unit {0})
  unfolding ◌>>=◌ send_whole
  complete now id = do
    text ← gets (λ s. D.from_utf8_lossy s.app.inbound)
    _ ← on_app (λ a. record a { received = some text })
    role ← gets (λ s. s.app.role)
    elim role [
      | client _ ↦ on_app (λ a. record a {
        roundtrip_ms = elim a.sent_at [ none ↦ 0 | some at ↦ elapsed_ms at now ];
      })
      | server ↦
          send_whole (codes "echo write: ") (codes "echo did not fit the stream window")
            (codes "echo finish: ") id (D.as_bytes (D.to_uppercase text))
    ]

  unfoldable pub read_stream : (fuel now : ℕ) → ℕ → Task (Side N) (Unit {0})
  unfolding ◌>>=◌ read_chunks complete
  read_stream fuel now id = do
    is_open ← on_conn (D.chunks_open id)
    elim is_open [
      | false ↦ pure tt
      | true ↦ do
        is_end ← read_chunks fuel id
        _ ← on_conn (λ conn. (D.chunks_finalize id conn, tt))
        elim is_end [ false ↦ pure tt | true ↦ complete now id ]
    ]

  -- The server takes its first stream, and reads what came before it did.
  unfoldable pub on_opened : (fuel now : ℕ) → Task (Side N) (Unit {0})
  unfolding ◌>>=◌ read_stream
  on_opened fuel now = do
    app ← gets (λ s. s.app)
    elim app.role [
      | client _ ↦ pure tt
      | server ↦ elim app.stream [
        | some _ ↦ pure tt
        | none ↦ do
          accepted ← on_conn (N.streams_accept bi)
          _ ← on_app (λ a. record a { stream = accepted })
          elim accepted [ none ↦ pure tt | some id ↦ read_stream fuel now id ]
      ]
    ]

  abbrev pub mismatch_text : (expected got : Bytes) → Text
  mismatch_text expected got =
      codes "datagram echo mismatch: expected "
      ++ (D.decimal (length expected) ++ (codes " bytes, got " ++ D.decimal (length got)))

  unfoldable pub on_datagram : Bytes → Task (Side N) (Unit {0})
  unfolding ◌>>=◌ send_copies
  on_datagram bytes = do
    role ← gets (λ s. s.app.role)
    elim role [
      | server ↦ send_copies (codes "datagram echo: ") datagram_copies bytes
      | client message ↦ elim (eq? bytes (codes "datagram " ++ message)) [
        | yes _ ↦ on_app (λ a. record a { datagram_received = some bytes })
        | no _ ↦ fail (mismatch_text (codes "datagram " ++ message) bytes)
      ]
    ]

  unfoldable pub recv_datagrams : (fuel : ℕ) → Task (Side N) (Unit {0})
  unfolding ◌>>=◌ on_datagram
  recv_datagrams zero s = out_of_fuel
  recv_datagrams (suc fuel) s =
      let (conn, received) = N.recv_datagram s.conn in
      let s' : Side N = record s { conn = conn } in
      elim received [
        | none ↦ finished s' tt
        | some bytes ↦ (on_datagram bytes >>= λ _. recv_datagrams fuel) s'
      ]

  unfoldable pub is_happy_end : LostReason → Option Text → Bool
  is_happy_end application_closed (some _) = true
  is_happy_end _ _ = false

  unfoldable pub on_lost : (now : ℕ) → LostReason → Task (Side N) (Unit {0})
  unfolding ◌>>=◌ is_happy_end
  on_lost now reason = do
    app ← gets (λ s. s.app)
    elim (is_happy_end reason app.received) [
      | true ↦ on_app (λ a. record a { done_at = some (unwrap_or a.done_at now) })
      | false ↦ fail (codes "connection lost: " ++ D.lost_text reason)
    ]

  unfoldable pub on_readable : (fuel now : ℕ) → ℕ → Task (Side N) (Unit {0})
  unfolding ◌>>=◌ read_stream
  on_readable fuel now id = do
    stream ← gets (λ s. s.app.stream)
    elim stream [
      | none ↦ pure tt
      | some ours ↦ if ours == id then read_stream fuel now id else pure tt
    ]

  unfoldable pub handle_event : (fuel started now : ℕ) → Event → Task (Side N) (Unit {0})
  unfolding on_connected on_opened on_readable recv_datagrams on_lost
  handle_event fuel started now connected = on_connected started now
  handle_event fuel started now (stream_opened bi) = on_opened fuel now
  handle_event fuel started now (stream_readable id) = on_readable fuel now id
  handle_event fuel started now datagram_received = recv_datagrams fuel
  handle_event fuel started now (connection_lost reason) = on_lost now reason
  handle_event fuel started now _ = pure tt

  -- The two parts of `drive` on a client.
  unfoldable pub send_demo : Bytes → Task (Side N) (Unit {0})
  unfolding ◌>>=◌ send_copies
  send_demo message = do
    app ← gets (λ s. s.app)
    elim (is_some app.received && not app.is_datagram_sent) [
      | false ↦ pure tt
      | true ↦ do
        _ ← send_copies (codes "datagram send: ") datagram_copies (codes "datagram " ++ message)
        on_app (λ a. record a { is_datagram_sent = true })
    ]

  unfoldable pub close_demo : (now : ℕ) → Task (Side N) (Unit {0})
  unfolding ◌>>=◌
  close_demo now = do
    app ← gets (λ s. s.app)
    elim (is_some app.datagram_received && not app.is_close_sent) [
      | false ↦ pure tt
      | true ↦ do
        _ ← on_conn (λ conn. (N.close now 0 (codes "done") conn, tt))
        on_app (λ a. record a { is_close_sent = true; done_at = some now })
    ]

  unfoldable pub drive : (now : ℕ) → Task (Side N) (Unit {0})
  unfolding ◌>>=◌ send_demo close_demo
  drive now = do
    role ← gets (λ s. s.app.role)
    elim role [ server ↦ pure tt | client message ↦ do _ ← send_demo message; close_demo now ]
