-- ===== src/Relay/Conn/Handshake.antt =====
-- What a completed handshake has exchanged.
use component_iroh.Prelude.{
  ◌≡◌, refl, List, [], ◌∷◌, ◌++◌, some, ok, arith, append-nil, append_assoc, ap, ◌∙◌, length, ◌⊎◌,
  inl, inr, Result-cases, Option-cases, ◌≢◌, Text, Result,
}
use component_iroh.Relay.Frames.{
  Bytes, split_tag, encode_client_auth, server_challenge, server_confirms_auth,
}
use component_iroh.Relay.Conn.{
  Arrival, binary, text, failure, Websocket, RelayConn, ready, Signer, Verdict, answer, confirmed,
  reject, on_handshake, on_challenge, sign_challenge, as_signature, handshake, send, RelayError,
  WsError, connect,
}
use component_iroh.Relay.Url.{relay_url}
use component_iroh.Relay.Conn.Delivery.{send-sent}

-- The frame that answers a challenge: the auth frame over the identity's 64-byte signature of the
-- key derived from the 16-byte challenge.
abbrev pub IsAuth : Signer → Bytes → Bytes → Type 0
IsAuth s frame auth =
    (challenge : Bytes) × (signature : Bytes) × (split_tag frame
      ≡ some (server_challenge, challenge))
    × (length challenge ≡ 16)
    × (s.sign (s.derive_key challenge) ≡ ok signature)
    × (length signature ≡ 64)
    × (auth ≡ encode_client_auth s.to_extend s.endpoint_id signature)

-- An exchange: texts are ignored, and each challenge is answered, in order.
pub data Exchange (s : Signer) : List Arrival → List Bytes → Type 0 where
  done : Exchange s [] []
  ignored :
      {inbox : List Arrival} {sent : List Bytes}
      → Exchange s inbox sent
      → Exchange s (text ∷ inbox) sent
  answered :
      {frame auth : Bytes} {inbox : List Arrival} {sent : List Bytes}
      → IsAuth s frame auth
      → Exchange s inbox sent
      → Exchange s (binary frame ∷ inbox) (auth ∷ sent)

sign_challenge-IsAuth :
    (s : Signer) (frame challenge auth : Bytes)
    → split_tag frame ≡ some (server_challenge, challenge)
    → length challenge ≡ 16
    → sign_challenge s challenge ≡ ok auth
    → IsAuth s frame auth
unfolding sign_challenge as_signature
sign_challenge-IsAuth s frame challenge auth tagged len e =
    elim (Result-cases (s.sign (s.derive_key challenge))) [
      | inl (signature, signed) ↦
          (challenge, signature, tagged, len, signed, ground arith, ground arith)
      | inr (fault, refused) ↦ absurd (ground arith)
    ]

Verdict-cases :
    (v : Verdict)
    → (v ≡ confirmed) ⊎ (((auth : Bytes) × (v ≡ answer auth)) ⊎ ((e : RelayError) × (v ≡ reject e)))
Verdict-cases (answer auth) = inr (inl (auth, refl))
Verdict-cases confirmed = inl refl
Verdict-cases (reject e) = inr (inr (e, refl))

on_challenge-IsAuth :
    (s : Signer) (frame payload auth : Bytes)
    → split_tag frame ≡ some (server_challenge, payload)
    → on_challenge s payload ≡ answer auth
    → IsAuth s frame auth
unfolding on_challenge
on_challenge-IsAuth s frame payload auth tagged e = elim (Result-cases (sign_challenge s payload)) [
  | inl (auth', signed) ↦
      let same : auth' ≡ auth = ground arith in
      sign_challenge-IsAuth s frame payload auth tagged (ground arith) (signed ∙ ap ok same)
  | inr (fault, refused) ↦ absurd (ground arith)
]

on_challenge-ne-confirmed : (s : Signer) (payload : Bytes) → on_challenge s payload ≢ confirmed
unfolding on_challenge
on_challenge-ne-confirmed s payload = ground arith

on_handshake-answer :
    (s : Signer) (frame auth : Bytes) → on_handshake s frame ≡ answer auth → IsAuth s frame auth
unfolding on_handshake
on_handshake-answer s frame auth e = elim (Option-cases (split_tag frame)) [
  | inl none_read ↦ absurd (ground arith)
  | inr ((tag, payload), read) ↦
      on_challenge-IsAuth s frame payload auth (ground arith) (ground arith)
]

on_handshake-confirmed :
    (s : Signer) (frame : Bytes)
    → on_handshake s frame ≡ confirmed
    → (payload : Bytes) × (split_tag frame ≡ some (server_confirms_auth, payload))
unfolding on_handshake
on_handshake-confirmed s frame e = elim (Option-cases (split_tag frame)) [
  | inl none_read ↦ absurd (ground arith)
  | inr ((tag, payload), read) ↦ (payload, ground (arith, on_challenge-ne-confirmed s payload))
]

-- A handshake over the arrivals `inbox`, from what was sent before, that led to `conn`.
abbrev pub Completed : Signer → List Arrival → List Bytes → RelayConn → Type 0
Completed s inbox sent conn =
    (asked : List Arrival) × (auths : List Bytes) × (frame : Bytes) × (payload : Bytes) × Exchange s
      asked auths
    × (inbox ≡ asked ++ (binary frame ∷ conn.ws.inbox))
    × (split_tag frame ≡ some (server_confirms_auth, payload))
    × (conn.ws.sent ≡ sent ++ auths)
    × (conn.pending ≡ [])

Completed-ignored :
    (s : Signer) (inbox : List Arrival) (sent : List Bytes) (conn : RelayConn)
    → Completed s inbox sent conn
    → Completed s (text ∷ inbox) sent conn
Completed-ignored s inbox sent conn (asked, auths, frame, payload, x, e, tag, out, quiet) =
    (text ∷ asked, auths, frame, payload, ignored x, ap (◌∷◌ text) e, tag, out, quiet)

Completed-answered :
    (s : Signer) (question auth : Bytes) (inbox : List Arrival) (sent sent' : List Bytes)
    (conn : RelayConn)
    → IsAuth s question auth
    → sent' ≡ sent ++ (auth ∷ [])
    → Completed s inbox sent' conn
    → Completed s (binary question ∷ inbox) sent conn
Completed-answered s question auth inbox sent sent' conn a grown
      (asked, auths, frame, payload, x, e, tag, out, quiet) =
    (
      binary question ∷ asked,
      auth ∷ auths,
      frame,
      payload,
      answered a x,
      ap (◌∷◌ (binary question)) e,
      tag,
      out ∙ ap (λ (t : List Bytes). t ++ auths) grown ∙ append_assoc sent (auth ∷ []) auths,
      quiet,
    )

handshake-Completed :
    (s : Signer) (inbox : List Arrival) (ws : Websocket) (conn : RelayConn)
    → handshake s inbox ws ≡ ready conn
    → Completed s inbox ws.sent conn
unfolding handshake
handshake-Completed s [] ws conn h = cc
handshake-Completed s (text ∷ inbox) ws conn h =
    Completed-ignored s inbox ws.sent conn (handshake-Completed s inbox ws conn h)
handshake-Completed s (failure e ∷ inbox) ws conn h = cc
handshake-Completed s (binary frame ∷ inbox) ws conn h =
    elim (Verdict-cases (on_handshake s frame)) [
      | inl e ↦
          let (payload, tag) = on_handshake-confirmed s frame e in
          (
            [],
            [],
            frame,
            payload,
            done,
            ground arith,
            tag,
            ground (arith, append-nil ws.sent),
            ground arith,
          )
      | inr (inl (auth, e)) ↦ elim (Result-cases (send auth ws)) [
        | inl (ws', sent) ↦
            Completed-answered s frame auth inbox ws.sent ws'.sent conn
              (on_handshake-answer s frame auth e) (send-sent auth ws ws' sent)
              (handshake-Completed s inbox ws' conn (rw (e, handshake, sent) at h))
        | inr (fault, refused) ↦ absurd (ground arith)
      ]
      | inr (inr (x, e)) ↦ absurd (ground arith)
    ]

-- A connection that `connect` hands out stands on a websocket opened at the relay's URL; what was
-- received before the confirming frame were texts and well-formed challenges only; what was sent is
-- exactly one auth frame for each challenge, in order, over the identity's signature of the key
-- derived from it; and nothing is pending.
pub connect-Completed :
    (open_ws : Text → Result Websocket WsError) (s : Signer) (server : Text) (conn : RelayConn)
    → connect open_ws s server ≡ ready conn
    → (url : Text) × (ws : Websocket) × (relay_url server ≡ ok url)
      × (open_ws url ≡ ok ws)
      × Completed s ws.inbox ws.sent conn
unfolding connect
connect-Completed open_ws s server conn h = elim (Result-cases (relay_url server)) [
  | inr (x, e) ↦ absurd (ground arith)
  | inl (url, e) ↦ elim (Result-cases (open_ws url)) [
    | inr (x, o) ↦ absurd (ground arith)
    | inl (ws, o) ↦ (url, ws, e, o, handshake-Completed s ws.inbox ws conn (ground arith))
  ]
]
