-- ===== src/Relay/Frames/Examples.antt =====
-- The framing theorems at concrete inputs, and the source's own known-answer tests.
use component_iroh.Prelude.{
  ◌≡◌, ◌<◌, ◌↔◌, ◌⊎◌, refl, true, false, List, [], ◌∷◌, ◌++◌, some, none, arith, length, replicate,
  take, drop, codes, All,
}
use component_iroh.Relay.Frames.{
  Bytes, Datagram, ClientAuth, split_tag, encode_client_datagram, encode_pong,
  decode_relay_datagrams, ping, client_to_relay_datagram,
}
use component_iroh.Relay.Frames.Varint.{varint, split_tag-varint, split_tag_inv, Encodes}
use component_iroh.Relay.Frames.Layout.{encode_client_datagram-decode}
use component_iroh.Relay.Frames.Batch.{
  batch_payload, payloads, join, IsChunked, decode_relay_datagrams-batch,
  decode_relay_datagrams-eq-none,
}

abbrev key : Bytes
key = replicate 32 42

abbrev hello : Bytes
hello = codes "Hello World!"

ping_frame : split_tag (9 ∷ replicate 8 42) ≡ some (ping, replicate 8 42)
unfolding split_tag
ping_frame = refl

pong_frame : encode_pong (replicate 8 42) ≡ 0x0a ∷ replicate 8 42
unfolding encode_pong
pong_frame = refl

batch_frame :
    decode_relay_datagrams (key ++ (3 ∷ 0 ∷ 6 ∷ hello)) true
    ≡ some (
        record { source = key; payload = codes "Hello " }
        ∷ record { source = key; payload = codes "World!" }
        ∷ [])
unfolding decode_relay_datagrams
batch_frame = refl

split_tag-varint_example : split_tag (varint 1 300 ++ (7 ∷ [])) ≡ some (300, 7 ∷ [])
split_tag-varint_example = split_tag-varint 1 300 (7 ∷ []) (omega arith) (omega arith)

split_tag_inv_example : Encodes (0x41 ∷ 0x2c ∷ 7 ∷ []) 300 (7 ∷ [])
unfolding split_tag
split_tag_inv_example = split_tag_inv (0x41 ∷ 0x2c ∷ 7 ∷ []) 300 (7 ∷ []) (omega arith) refl

decode_relay_datagrams-batch_example :
    (ds : List Datagram) × (decode_relay_datagrams (batch_payload key 3 6 hello) true ≡ some ds)
    × (join (payloads ds) ≡ hello)
    × IsChunked 6 (payloads ds)
    × All (λ d. d.source ≡ key) ds
decode_relay_datagrams-batch_example =
    decode_relay_datagrams-batch key 3 6 hello refl (omega arith) (omega arith)

decode_relay_datagrams-eq-none_example :
    (decode_relay_datagrams (key ++ (3 ∷ 0 ∷ 0 ∷ hello)) true ≡ none) ↔ (
      (◌≡◌ {A = Bytes} (3 ∷ 0 ∷ 0 ∷ hello) [])
      ⊎ ((true ≡ true)
          × ((length (3 ∷ 0 ∷ 0 ∷ hello) < 3)
              ⊎ (◌≡◌ {A = Bytes} (take 2 (drop 1 (3 ∷ 0 ∷ 0 ∷ hello))) (0 ∷ 0 ∷ [])))))
decode_relay_datagrams-eq-none_example =
    decode_relay_datagrams-eq-none key (3 ∷ 0 ∷ 0 ∷ hello) true refl

encode_client_datagram-decode_example :
    (body : Bytes) × (split_tag (encode_client_datagram key hello)
      ≡ some (client_to_relay_datagram, body))
    × (decode_relay_datagrams body false ≡ some (record { source = key; payload = hello } ∷ []))
encode_client_datagram-decode_example = encode_client_datagram-decode key hello refl

abbrev postcard : ClientAuth → Bytes → Bytes
postcard auth frame = frame ++ (auth.public_key ++ (length auth.signature ∷ auth.signature))
