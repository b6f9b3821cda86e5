-- ===== src/Guest/Ebbing/Sending.antt =====
-- What the demo's application sends (guest/src/endpoint.rs, `App`) comes to an end.
use component_iroh.Prelude.{
  ℕ, zero, suc, ◌≤◌, ◌++◌, some, map_err, ok_or, ok, err, codes, Text, ◌==◌, length, eq?, bytes_key,
  if◌then◌else◌,
}
use component_iroh.Relay.Frames.{Bytes}
use component_iroh.Endpoint.Noq.{Noq, LostReason, bi}
use component_iroh.Guest.{peer_endpoint_id}
use component_iroh.Guest.Task.{pure}
use component_iroh.Guest.Settling.{at_once}
use component_iroh.Guest.Settling.Cases.{by_test, by_decision}
use component_iroh.Guest.Side.{datagram_copies, Demo, Side, labelled, elapsed_ms}
use component_iroh.Guest.App.{
  send_whole, send_copies, start_demo, on_connected, complete, on_datagram, is_happy_end, on_lost,
}
use component_iroh.Guest.Ebbing.{Ebbs, Ending, past, low, checked, on, by_role-Ending}

module _ {N : Noq} {D : Demo N} (E : Ebbs D) (n : ℕ) where
  send_whole-Ending :
      (write_label short finish_label : Text) (id : ℕ) (bytes : Bytes) (s : Side N)
      → E.inbound s.conn ≤ n
      → Ending E n (λ k. send_whole D write_label short finish_label id bytes s)
  unfolding send_whole
  send_whole-Ending wl short fl id bytes s h =
      on E n _ _
        (checked E n (map_err (labelled wl D.write_text) ((N.write id bytes s.conn).1))
          (past (N.write id bytes) s)
          (low E n (N.write id bytes) s.conn (E.write_keeps id bytes) h))
        (λ s1 wrote h1.
          on E n _ _ (checked E n (if wrote == length bytes then ok tt else err short) s1 h1)
            (λ s2 _ h2.
              checked E n (map_err (labelled fl D.finish_text) ((N.finish id s2.conn).1))
                (past (N.finish id) s2) (low E n (N.finish id) s2.conn (E.finish_keeps id) h2)))

  pub send_copies-Ending :
      (label : Text) (copies : ℕ) (payload : Bytes) (s : Side N)
      → E.inbound s.conn ≤ n
      → Ending E n (λ k. send_copies D label copies payload s)
  unfolding send_copies
  send_copies-Ending label zero payload s h = at_once _ _ h
  send_copies-Ending label (suc copies) payload s h =
      on E n _ _
        (checked E n (map_err (labelled label D.datagram_text) ((N.send_datagram payload s.conn).1))
          (past (N.send_datagram payload) s)
          (low E n (N.send_datagram payload) s.conn (E.send_keeps payload) h))
        (λ s1 _ h1. send_copies-Ending label copies payload s1 h1)

  start_demo-Ending :
      (now : ℕ) (message : Bytes) (s : Side N)
      → E.inbound s.conn ≤ n
      → Ending E n (λ k. start_demo D now message s)
  unfolding start_demo
  start_demo-Ending now message s h =
      on E n _ _
        (checked E n (ok_or ((N.streams_open bi s.conn).1) (codes "no bidirectional stream credit"))
          (past (N.streams_open bi) s) (low E n (N.streams_open bi) s.conn E.open_keeps h))
        (λ s1 id h1.
          on E n _ _
            (send_whole-Ending (codes "stream write: ")
              (codes "demo message did not fit the stream window") (codes "stream finish: ") id
              message (record s1 { app = record (s1.app) { stream = some id } }) h1)
            (λ s2 _ h2. at_once _ _ h2))

  pub on_connected-Ending :
      (started now : ℕ) (s : Side N)
      → E.inbound s.conn ≤ n
      → Ending E n (λ k. on_connected D started now s)
  unfolding on_connected
  on_connected-Ending started now s h =
      on E n _ _
        (checked E n (peer_endpoint_id N s.conn)
          (record s { app = record (s.app) { handshake_ms = some (elapsed_ms started now) } }) h)
        (λ s1 peer h1.
          by_role-Ending E n s1.app.role (λ k. start_demo D now) (λ k. pure tt) _
            (λ message. start_demo-Ending now message _ h1) (at_once _ _ h1))

  pub complete-Ending :
      (now id : ℕ) (s : Side N) → E.inbound s.conn ≤ n → Ending E n (λ k. complete D now id s)
  unfolding complete
  complete-Ending now id s h =
      by_role-Ending E n s.app.role _ _ _ (λ _. at_once _ _ h)
        (send_whole-Ending (codes "echo write: ") (codes "echo did not fit the stream window")
          (codes "echo finish: ") id _
          (record s { app = record (s.app) { received = some (D.from_utf8_lossy s.app.inbound) } })
          h)

  pub on_datagram-Ending :
      (bytes : Bytes) (s : Side N) → E.inbound s.conn ≤ n → Ending E n (λ k. on_datagram D bytes s)
  unfolding on_datagram
  on_datagram-Ending bytes s h =
      by_role-Ending E n s.app.role _ _ s
        (λ message.
          by_decision (eq? bytes (codes "datagram " ++ message)) _ _ s (at_once _ _ h)
            (at_once _ _ tt))
        (send_copies-Ending (codes "datagram echo: ") datagram_copies bytes s h)

  pub on_lost-Ending :
      (now : ℕ) (reason : LostReason) (s : Side N)
      → E.inbound s.conn ≤ n
      → Ending E n (λ k. on_lost D now reason s)
  unfolding on_lost
  on_lost-Ending now reason s h =
      by_test (is_happy_end D reason s.app.received) _ _ s (at_once _ _ h) (at_once _ _ tt)
