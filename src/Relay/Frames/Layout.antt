-- ===== src/Relay/Frames/Layout.antt =====
-- What the client writes, read back: tags, addresses and payloads of its own frames.
use component_iroh.Prelude.{◌≡◌, ◌<◌, false, [], ◌∷◌, ◌++◌, some, arith, length, length-append}
use component_iroh.Relay.Frames.{
  Bytes, ClientAuth, split_tag, encode_client_datagram, encode_client_auth, encode_pong,
  decode_relay_datagrams, decode_single, client_to_relay_datagram, client_auth, pong,
}
use component_iroh.Relay.Frames.Batch.{decode_split}

-- A datagram frame carries its tag, and what follows is the layout of a relayed datagram, so that
-- a relay which swaps the address for the sender's delivers exactly the payload.
pub encode_client_datagram-decode :
    (dst payload : Bytes)
    → length dst ≡ 32
    → (body : Bytes) × (split_tag (encode_client_datagram dst payload)
        ≡ some (client_to_relay_datagram, body))
      × (decode_relay_datagrams body false ≡ some (record { source = dst; payload = payload } ∷ []))
unfolding split_tag encode_client_datagram decode_single
encode_client_datagram-decode dst payload h =
    (dst ++ (0 ∷ payload), ground arith, decode_split dst (0 ∷ payload) false h)

-- A pong frame is tagged as such and echoes the ping's payload.
pub split_tag-encode_pong :
    (payload : Bytes) → split_tag (encode_pong payload) ≡ some (pong, payload)
unfolding split_tag encode_pong
split_tag-encode_pong payload = ground arith

-- postcard's documented layout of the struct: the key's 32 bytes are raw, the signature is a
-- sequence with a varint length, which is one byte below 128.
abbrev pub IsPostcard : (ClientAuth → Bytes → Bytes) → Type 0
IsPostcard to_extend =
    (auth : ClientAuth) (frame : Bytes)
    → length auth.signature < 128
    → to_extend auth frame ≡ frame ++ (auth.public_key ++ (length auth.signature ∷ auth.signature))

-- The auth frame of a 32-byte key and a 64-byte signature has 98 bytes: tag 1, the key, the length
-- 64, the signature; and it splits into tag and body.
pub encode_client_auth_layout :
    (to_extend : ClientAuth → Bytes → Bytes) (public_key signature : Bytes)
    → IsPostcard to_extend
    → length public_key ≡ 32
    → length signature ≡ 64
    → let frame = encode_client_auth to_extend public_key signature in
      (length frame ≡ 98) × (split_tag frame ≡ some (client_auth, public_key ++ (64 ∷ signature)))
unfolding encode_client_auth split_tag
encode_client_auth_layout to_extend public_key signature postcard hk hs =
    let auth : ClientAuth = record { public_key = public_key; signature = signature } in
    let written = postcard auth (client_auth ∷ []) (omega arith) in
    rw (written, hs) (omega (arith, length-append public_key (64 ∷ signature)), ground arith)
