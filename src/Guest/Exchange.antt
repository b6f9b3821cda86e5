-- ===== src/Guest/Exchange.antt =====
-- What the demo's application keeps true of itself (guest/src/endpoint.rs, `App`), whatever its
-- connection does.
pub mod Connecting
pub mod Reading
pub mod Opening
pub mod Events
pub mod Driving
use component_iroh.Prelude.{
  ℕ, zero, suc, ◌≡◌, sym, ◌⊎◌, refl, inl, inr, Bool, true, false, not, ◌&&◌, ◌++◌, Option, none,
  some, ok, err, ok_or, Result-cases, Option-cases, Bool-cases, bytes_key, eq?, codes, Text,
  is_some, arith, map_err, length, ◌==◌, if◌then◌else◌, unwrap_or,
}
use component_iroh.Relay.Frames.{Bytes}
use component_iroh.Endpoint.Noq.{
  Noq, Event, connected, stream_opened, stream_readable, datagram_received, connection_lost,
  LostReason, uni, application_closed, locally_closed, other_reason, bi,
}
use component_iroh.Endpoint.Wires.{Peer}
use component_iroh.Guest.{peer_endpoint_id}
use component_iroh.Guest.Task.{Task, ◌>>=◌, Post, and_then-Post, Post-mono, pure, fail}
use component_iroh.Guest.Keeping.{
  Keeps, Leaves, >>=-Keeps, of_result-Keeps, pure-Keeps, on_conn-Keeps, on_app-Keeps,
}
use component_iroh.Guest.Side.{
  Role, client, server, datagram_copies, on_conn, on_app, new_app, labelled, elapsed_ms,
  NextChunk-cases, App, Demo, Side,
}
use component_iroh.Guest.App.{
  mismatch_text, send_whole, send_copies, start_demo, on_connected, read_chunks, complete,
  read_stream, on_opened, on_datagram, recv_datagrams, on_lost, is_happy_end, on_readable,
  handle_event, send_demo, close_demo, drive,
}

abbrev pub Has {ℓ} : {A : Type ℓ} → Option A → Type 0
Has o = is_some o ≡ true

-- Facts about what the application has noted, in a role.
pub record Facts (N : Noq) (role ours : Role) (handshake stream : Option ℕ) (peer : Option Peer)
    (text : Option Text) (is_sent : Bool) (echo : Option Bytes) (done_at : Option ℕ)
    (is_closed : Bool) : Type 0 where
  pub has_role : ours ≡ role
  pub timed : Has peer → Has handshake
  pub authentic : (p : Peer) → peer ≡ some p → (conn : N.Conn) × (peer_endpoint_id N conn ≡ ok p)
  pub streamed : Has text → Has stream
  pub client_stream : (message : Bytes) → role ≡ client message → Has stream → Has peer
  pub echoed :
      (b : Bytes)
      → echo ≡ some b
      → (message : Bytes) × (role ≡ client message) × (b ≡ codes "datagram " ++ message)
  pub sent : is_sent ≡ true → Has text
  pub closed : is_closed ≡ true → Has echo
  pub done : Has done_at → Has text ⊎ Has echo

abbrev pub IsSound : Noq → Role → App → Type 0
IsSound N role app =
    Facts N role app.role app.handshake_ms app.stream app.peer_id app.received app.is_datagram_sent
      app.datagram_received app.done_at app.is_close_sent

module _ {N : Noq} (D : Demo N) where
  pub send_whole-Keeps :
      (P : App → Type 0) (l short k : Text) (id : ℕ) (bytes : Bytes)
      → Keeps P (send_whole D l short k id bytes)
  unfolding send_whole
  send_whole-Keeps P l short k id bytes =
      >>=-Keeps P _ _ (on_conn-Keeps D P (N.write id bytes)) (λ result.
        >>=-Keeps P _ _ (of_result-Keeps P (map_err (labelled l D.write_text) result)) (λ wrote.
          >>=-Keeps P _ _ (of_result-Keeps P (if wrote == length bytes then ok tt else err short))
            (λ _.
              >>=-Keeps P _ _ (on_conn-Keeps D P (N.finish id))
                (λ ended. of_result-Keeps P (map_err (labelled k D.finish_text) ended)))))

  pub send_copies-Keeps :
      (P : App → Type 0) (label : Text) (n : ℕ) (payload : Bytes)
      → Keeps P (send_copies D label n payload)
  unfolding send_copies
  send_copies-Keeps P label zero payload = pure-Keeps P tt
  send_copies-Keeps P label (suc n) payload =
      >>=-Keeps P _ _ (on_conn-Keeps D P (N.send_datagram payload)) (λ sent.
        >>=-Keeps P _ _ (of_result-Keeps P (map_err (labelled label D.datagram_text) sent))
          (λ _. send_copies-Keeps P label n payload))

pub new_app-IsSound : (N : Noq) (role : Role) → IsSound N role (new_app role)
new_app-IsSound N role = record {
  has_role = refl;
  timed = λ e. cc;
  authentic = λ p e. cc;
  streamed = λ e. cc;
  client_stream = λ m e h. cc;
  echoed = λ b e. cc;
  sent = λ e. cc;
  closed = λ e. cc;
  done = λ e. cc;
}
