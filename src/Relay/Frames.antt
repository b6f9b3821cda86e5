-- ===== src/Relay/Frames.antt =====
-- core/src/relay_frames.rs: frame tags, the varint tag, and the datagram, auth and pong payloads.
-- A byte is a number, and a byte slice a list of them.
pub mod Varint
pub mod Layout
pub mod Batch
mod Examples
use mathlib.Core.List.{foldl}
use component_iroh.Prelude.{
  ℕ, zero, suc, ◌+◌, ◌-◌, ◌*◌, ◌/◌, ◌%◌, ◌^◌, Bool, List, [], ◌∷◌, ◌++◌, map, Option, none, some,
  length, take, drop, ltb, ◌==◌, if◌then◌else◌,
}

abbrev pub Bytes : Type 0
Bytes = List ℕ

abbrev pub server_challenge : ℕ
server_challenge = 0

abbrev pub client_auth : ℕ
client_auth = 1

abbrev pub server_confirms_auth : ℕ
server_confirms_auth = 2

abbrev pub server_denies_auth : ℕ
server_denies_auth = 3

abbrev pub client_to_relay_datagram : ℕ
client_to_relay_datagram = 4

abbrev pub relay_to_client_datagram : ℕ
relay_to_client_datagram = 6

abbrev pub relay_to_client_datagram_batch : ℕ
relay_to_client_datagram_batch = 7

abbrev pub ping : ℕ
ping = 9

abbrev pub pong : ℕ
pong = 10

-- `(value << 8) | byte` on a u64: the shift drops what leaves the 64 bits, and the byte fills the
-- eight zero bits.
abbrev pub push_byte : ℕ → ℕ → ℕ
push_byte value byte = value * 256 % 2 ^ 64 + byte

-- `first >> 6` is `first / 64` and `first & 0x3f` is `first % 64`.
unfoldable pub split_tag : Bytes → Option (ℕ × Bytes)
split_tag [] = none
split_tag (first ∷ more) =
    let len = 2 ^ (first / 64) in
    if ltb (suc (length more)) len
    then none
    else some (foldl push_byte (first % 64) (take (len - 1) more), drop (len - 1) more)

pub record Datagram : Type 0 where
  pub source : Bytes
  pub payload : Bytes

unfoldable pub encode_client_datagram : Bytes → Bytes → Bytes
encode_client_datagram dst payload = client_to_relay_datagram ∷ (dst ++ (0 ∷ payload))

pub record ClientAuth : Type 0 where
  pub public_key : Bytes
  pub signature : Bytes

-- `to_extend` is postcard's serialization of the struct, appended to the frame.
unfoldable pub encode_client_auth : (to_extend : ClientAuth → Bytes → Bytes) → Bytes → Bytes → Bytes
encode_client_auth to_extend public_key signature =
    to_extend (record { public_key = public_key; signature = signature }) (client_auth ∷ [])

unfoldable pub encode_pong : Bytes → Bytes
encode_pong payload = pong ∷ payload

-- `slice::chunks`; each round takes an element at least when the size is not 0.
unfoldable pub chunks_loop : ℕ → ℕ → Bytes → List Bytes
chunks_loop fuel size [] = []
chunks_loop zero size (b ∷ bs) = []
chunks_loop (suc fuel) size (b ∷ bs) =
    take size (b ∷ bs) ∷ chunks_loop fuel size (drop size (b ∷ bs))

unfoldable pub chunks : ℕ → Bytes → List Bytes
unfolding chunks_loop
chunks size contents = chunks_loop (length contents) size contents

-- The part behind the source: ECN byte, segment size, contents.
unfoldable pub decode_batch : Bytes → Bytes → Option (List Datagram)
unfolding chunks
decode_batch source (ecn ∷ hi ∷ lo ∷ contents) =
    let segment_size = hi * 256 + lo in
    if segment_size == 0
    then none
    else some
        (map (λ chunk. record { source = source; payload = chunk }) (chunks segment_size contents))
decode_batch source short = none

unfoldable pub decode_single : Bytes → Bytes → Option (List Datagram)
decode_single source [] = none
decode_single source (ecn ∷ contents) = some (record { source = source; payload = contents } ∷ [])

unfoldable pub decode_relay_datagrams : Bytes → Bool → Option (List Datagram)
unfolding decode_batch decode_single
decode_relay_datagrams payload batch =
    if ltb (length payload) 32
    then none
    else if batch
    then decode_batch (take 32 payload) (drop 32 payload)
    else decode_single (take 32 payload) (drop 32 payload)

-- `from_bytes` is postcard's string decoder and `from_utf8_lossy` the standard library's.
unfoldable pub decode_denial_reason :
    (from_bytes : Bytes → Option Bytes) (from_utf8_lossy : Bytes → Bytes) → Bytes → Bytes
decode_denial_reason from_bytes from_utf8_lossy payload = elim (from_bytes payload) [
  | some text ↦ text
  | none ↦ from_utf8_lossy payload
]
