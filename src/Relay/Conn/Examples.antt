-- ===== src/Relay/Conn/Examples.antt =====
-- The connection theorems at concrete inputs.
use component_iroh.Prelude.{
  ◌≡◌, refl, [], ◌∷◌, ◌++◌, none, ok, replicate, codes, false, Result, Text, bytes_eq, ℕ_discrete,
}
use component_iroh.Relay.Frames.{Bytes, split_tag, decode_relay_datagrams, encode_client_auth}
use component_iroh.Relay.Url.{relay_url}
use component_iroh.Relay.Conn.{
  binary, text, failure, Websocket, WsError, RelayConn, ready, Signer, recv_datagram, connect,
  on_frame, send, on_handshake,
}
use component_iroh.Relay.Conn.Delivery.{Delivers, undelivered, recv_datagram-Delivers}
use component_iroh.Relay.Conn.Handshake.{Completed, connect-Completed}

abbrev key : Bytes
key = replicate 32 42

abbrev live : RelayConn
live = record {
  ws = record {
    inbox =
        binary (9 ∷ replicate 8 1)
        ∷ text
        ∷ binary (7 ∷ (key ++ (3 ∷ 0 ∷ 1 ∷ 5 ∷ 6 ∷ [])))
        ∷ failure (WsError.ws_error 0)
        ∷ [];
    sent = [];
    fault = λ n. none;
    is_closing = false;
  };
  pending = [];
}

first_out : (recv_datagram live).0 ≡ ready (record { source = key; payload = 5 ∷ [] })
unfolding recv_datagram on_frame send split_tag decode_relay_datagrams
first_out = refl

recv_datagram-Delivers_example : Delivers (undelivered live) (recv_datagram live)
recv_datagram-Delivers_example = recv_datagram-Delivers live

abbrev signer : Signer
signer = record {
  endpoint_id = key;
  sign = λ message. ok (replicate 64 7);
  derive_key = λ challenge. challenge;
  to_extend = λ auth frame. frame ++ auth.signature;
  denial_reason = λ payload. payload;
}

abbrev opening : Websocket
opening = record {
  inbox = binary (0 ∷ replicate 16 5) ∷ binary (2 ∷ []) ∷ text ∷ [];
  sent = [];
  fault = λ n. none;
  is_closing = false;
}

abbrev connected : RelayConn
connected = record {
  ws = record opening { inbox = text ∷ []; sent = (1 ∷ replicate 64 7) ∷ [] };
  pending = [];
}

connects : connect (λ url. ok opening) signer (codes "https://h/") ≡ ready connected
unfolding connect on_handshake send split_tag encode_client_auth relay_url bytes_eq ℕ_discrete
connects = refl

connect-Completed_example :
    (url : Text) × (ws : Websocket) × (relay_url (codes "https://h/") ≡ ok url)
    × (◌≡◌ {A = Result Websocket WsError} (ok opening) (ok ws))
    × Completed signer ws.inbox ws.sent connected
connect-Completed_example =
    connect-Completed (λ url. ok opening) signer (codes "https://h/") connected connects
