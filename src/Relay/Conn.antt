-- ===== src/Relay/Conn.antt =====
-- core/src/relay.rs: the connection to a relay. The websocket is the environment's: what its
-- `receive` calls return, in order, is the list `inbox` (a call beyond its end stays pending), and
-- `fault n` says whether the n-th `send` fails.
pub mod Delivery
pub mod Handshake
mod Examples
use component_iroh.Prelude.{
  ℕ, suc, ◌+◌, Bool, true, false, ◌||◌, List, [], ◌∷◌, ◌++◌, Option, none, some, Result, ok, err,
  ◌>>=◌, map_err, ok_or, length, ◌==◌, if◌then◌else◌,
}
use component_iroh.Prelude.{Text}
use component_iroh.Relay.Frames.{
  Bytes, Datagram, ClientAuth, split_tag, encode_client_datagram, encode_client_auth, encode_pong,
  decode_relay_datagrams, server_challenge, server_confirms_auth, server_denies_auth,
  relay_to_client_datagram, relay_to_client_datagram_batch, ping,
}
use component_iroh.Relay.Url.{UrlError, relay_url}

-- A websocket error, as far as this code looks at it.
pub data WsError : Type 0 where
  ws_error : ℕ → WsError

pub data Arrival : Type 0 where
  binary : Bytes → Arrival
  text : Arrival
  failure : WsError → Arrival

pub record Websocket : Type 0 where
  pub inbox : List Arrival
  pub sent : List Bytes
  pub fault : ℕ → Option WsError
  pub is_closing : Bool

-- The message `String`s of the source, by the place that makes them.
pub data RelayError : Type 0 where
  bad_url : UrlError → RelayError
  refused lost pong_failed send_failed : WsError → RelayError
  empty_frame malformed_challenge bad_signature : RelayError
  sign_failed : ℕ → RelayError
  denied : Bytes → RelayError
  unexpected_frame : ℕ → RelayError

-- What awaiting a future gives: a result, or a wait that the environment has not ended.
pub data Outcome {ℓ} (A : Type ℓ) : Type ℓ where
  ready : A → Outcome A
  failed : RelayError → Outcome A
  waiting : Outcome A

-- `ws.send` of one binary message.
unfoldable pub send : Bytes → Websocket → Result Websocket WsError
send message ws = elim (ws.fault (length ws.sent)) [
  | none ↦ ok (record ws { sent = ws.sent ++ (message ∷ []) })
  | some e ↦ err e
]

pub record RelayConn : Type 0 where
  pub ws : Websocket
  pub pending : List Datagram

-- What one received frame makes the client do.
pub data Reaction : Type 0 where
  queue : List Datagram → Reaction
  reply : Bytes → Reaction
  skip : Reaction

unfoldable pub on_datagrams : Option (List Datagram) → Reaction
on_datagrams none = skip
on_datagrams (some ds) = queue ds

unfoldable pub on_tagged : ℕ → Bytes → Reaction
unfolding on_datagrams
on_tagged tag payload =
    if tag == relay_to_client_datagram || tag == relay_to_client_datagram_batch
    then on_datagrams (decode_relay_datagrams payload (tag == relay_to_client_datagram_batch))
    else if tag == ping
    then (if length payload == 8 then reply (encode_pong payload) else skip)
    else skip

unfoldable pub on_frame : Bytes → Reaction
unfolding on_tagged
on_frame frame = elim (split_tag frame) [
  | none ↦ skip
  | some (tag, payload) ↦ on_tagged tag payload
]

-- The loop of `recv_datagram`, over what is pending and what arrives.
unfoldable pub recv_loop : List Datagram → List Arrival → Websocket → Outcome Datagram × RelayConn
recv_loop (d ∷ pending) inbox ws =
    (ready d, record { ws = record ws { inbox = inbox }; pending = pending })
recv_loop [] [] ws = (waiting, record { ws = record ws { inbox = [] }; pending = [] })
recv_loop [] (text ∷ inbox) ws = recv_loop [] inbox ws
recv_loop [] (failure e ∷ inbox) ws =
    (failed (lost e), record { ws = record ws { inbox = inbox }; pending = [] })
recv_loop [] (binary frame ∷ inbox) ws = elim (on_frame frame) [
  | skip ↦ recv_loop [] inbox ws
  | queue ds ↦ recv_loop ds inbox ws
  | reply message ↦ elim (send message ws) [
    | ok ws' ↦ recv_loop [] inbox ws'
    | err e ↦ (failed (pong_failed e), record { ws = record ws { inbox = inbox }; pending = [] })
  ]
]

unfoldable pub recv_datagram : RelayConn → Outcome Datagram × RelayConn
unfolding recv_loop
recv_datagram conn = recv_loop conn.pending conn.ws.inbox conn.ws

unfoldable pub send_datagram : RelayConn → Bytes → Bytes → Result RelayConn RelayError
send_datagram conn dst payload = do
  ws ← map_err send_failed (send (encode_client_datagram dst payload) conn.ws)
  ok (record conn { ws = ws })

-- The identity and the crates that the handshake calls.
pub record Signer : Type 0 where
  pub endpoint_id : Bytes
  pub sign : Bytes → Result Bytes ℕ
  pub derive_key : Bytes → Bytes
  pub to_extend : ClientAuth → Bytes → Bytes
  pub denial_reason : Bytes → Bytes

pub data Verdict : Type 0 where
  answer : Bytes → Verdict
  confirmed : Verdict
  reject : RelayError → Verdict

unfoldable pub as_signature : Bytes → Result Bytes RelayError
as_signature bytes = if length bytes == 64 then ok bytes else err bad_signature

unfoldable pub sign_challenge : Signer → Bytes → Result Bytes RelayError
unfolding as_signature
sign_challenge s challenge = do
  bytes ← map_err sign_failed (s.sign (s.derive_key challenge))
  signature ← as_signature bytes
  ok (encode_client_auth s.to_extend s.endpoint_id signature)

unfoldable pub on_challenge : Signer → Bytes → Verdict
unfolding sign_challenge
on_challenge s payload =
    if length payload == 16
    then elim (sign_challenge s payload) [ ok auth ↦ answer auth | err e ↦ reject e ]
    else reject malformed_challenge

unfoldable pub on_handshake : Signer → Bytes → Verdict
unfolding on_challenge
on_handshake s frame = elim (split_tag frame) [
  | none ↦ reject empty_frame
  | some (tag, payload) ↦
      if tag == server_challenge
      then on_challenge s payload
      else if tag == server_confirms_auth
      then confirmed
      else if tag == server_denies_auth
      then reject (denied (s.denial_reason payload))
      else reject (unexpected_frame tag)
]

-- The loop of `connect`, after the websocket is open.
unfoldable pub handshake : Signer → List Arrival → Websocket → Outcome RelayConn
handshake s [] ws = waiting
handshake s (text ∷ inbox) ws = handshake s inbox ws
handshake s (failure e ∷ inbox) ws = failed (lost e)
handshake s (binary frame ∷ inbox) ws = elim (on_handshake s frame) [
  | confirmed ↦ ready (record { ws = record ws { inbox = inbox }; pending = [] })
  | reject e ↦ failed e
  | answer auth ↦ elim (send auth ws) [ ok ws' ↦ handshake s inbox ws' | err e ↦ failed (lost e) ]
]

-- `Websocket::connect` is the argument `open_ws`.
unfoldable pub connect :
    (open_ws : Text → Result Websocket WsError) → Signer → Text → Outcome RelayConn
unfolding handshake
connect open_ws s server =
    elim (map_err bad_url (relay_url server) >>= (λ url. map_err refused (open_ws url))) [
      | err e ↦ failed e
      | ok ws ↦ handshake s ws.inbox ws
    ]

-- `close`, which initiates the close of the websocket; a second call does no more.
unfoldable pub close : RelayConn → RelayConn
close c = record c { ws = record (c.ws) { is_closing = true } }
