-- ===== src/Guest/Exchange/Connecting.antt =====
-- The demo's application keeps what it has noted true when its handshake is over
-- (guest/src/endpoint.rs, `App::handle_event`).
use component_iroh.Prelude.{ℕ, ◌≡◌, refl, inl, inr, some, ok, ok_or, Result-cases, bytes_key, codes}
use component_iroh.Relay.Frames.{Bytes}
use component_iroh.Endpoint.Noq.{Noq, bi}
use component_iroh.Endpoint.Wires.{Peer}
use component_iroh.Guest.{peer_endpoint_id}
use component_iroh.Guest.Task.{Task, Post-mono, pure}
use component_iroh.Guest.Keeping.{
  Keeps, Leaves, >>=-Keeps, of_result-Keeps, pure-Keeps, on_conn-Keeps, on_app-Keeps,
}
use component_iroh.Guest.Side.{Role, client, server, App, Demo, Side}
use component_iroh.Guest.App.{start_demo, on_connected}
use component_iroh.Guest.Exchange.{Has, IsSound, send_whole-Keeps}

module _ {N : Noq} (D : Demo N) where
  module _ (role : Role) where
    abbrev Sound : App → Type 0
    Sound = IsSound N role

    -- Where the peer is known.
    abbrev Named : App → Type 0
    Named app = Sound app × Has app.peer_id

    stream-Named : (app : App) (id : ℕ) → Named app → Named (record app { stream = some id })
    stream-Named app id (v, h) = (
      record {
        has_role = v.has_role;
        timed = v.timed;
        authentic = v.authentic;
        streamed = λ _. refl;
        client_stream = λ _ _ _. h;
        echoed = v.echoed;
        sent = v.sent;
        closed = v.closed;
        done = v.done;
      },
      h,
    )

    start_demo-Keeps : (now : ℕ) (message : Bytes) → Keeps Named (start_demo D now message)
    unfolding start_demo
    start_demo-Keeps now message =
        >>=-Keeps Named _ _ (on_conn-Keeps D Named (N.streams_open bi)) (λ opened.
          >>=-Keeps Named _ _
            (of_result-Keeps Named (ok_or opened (codes "no bidirectional stream credit")))
            (λ id.
              >>=-Keeps Named _ _
                (on_app-Keeps D Named (λ a. record a { stream = some id })
                  (λ a v. stream-Named a id v))
                (λ _.
                  >>=-Keeps Named _ _
                    (send_whole-Keeps D Named (codes "stream write: ")
                      (codes "demo message did not fit the stream window") (codes "stream finish: ")
                      id message)
                    (λ _. on_app-Keeps D Named (λ a. record a { sent_at = some now }) (λ a v. v)))))

    after_peer-Keeps :
        (now : ℕ) (ours : Role)
        → Keeps Named (elim ours as (λ _. Task (Side N) (Unit {0})) [
          | server ↦ pure tt
          | client message ↦ start_demo D now message
        ])
    after_peer-Keeps now server = pure-Keeps Named tt
    after_peer-Keeps now (client message) = start_demo-Keeps now message

    peer-Named :
        (app : App) (t : ℕ) (conn : N.Conn) (peer : Peer)
        → peer_endpoint_id N conn ≡ ok peer
        → Sound app
        → Named (record app { handshake_ms = some t; peer_id = some peer })
    peer-Named app t conn peer q v = (
      record {
        has_role = v.has_role;
        timed = λ _. refl;
        authentic = λ p e. (conn, cc);
        streamed = v.streamed;
        client_stream = λ _ _ _. refl;
        echoed = v.echoed;
        sent = v.sent;
        closed = v.closed;
        done = v.done;
      },
      refl,
    )

    pub on_connected-Keeps : (started now : ℕ) → Keeps Sound (on_connected D started now)
    unfolding on_connected
    on_connected-Keeps started now = record {
      keeps = λ s v. elim (Result-cases (peer_endpoint_id N s.conn)) [
        | inr (e, q) ↦ rw (q, on_connected) tt
        | inl (peer, q) ↦
            rw (q, on_connected)
              (Post-mono (Leaves Named) (Leaves Sound) _ (λ _ _ h. h.0)
                ((after_peer-Keeps now s.app.role).keeps _ (peer-Named s.app _ s.conn peer q v)))
      ];
    }
