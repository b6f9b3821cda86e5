-- ===== src/Relay/Frames/Varint.antt =====
-- The frame tag against RFC 9000's variable-length integers.
use mathlib.Core.List.{foldl}
use component_iroh.Prelude.{
  ℕ, zero, suc, ◌+◌, ◌-◌, ◌*◌, ◌/◌, ◌%◌, ◌^◌, ◌<◌, ◌≡◌, [], ◌∷◌, ◌++◌, some, none, arith, length,
  take, drop, All, ltb, if◌then◌else◌, ◌⊎◌, inl, inr,
}
use component_iroh.Relay.Frames.{Bytes, push_byte, split_tag}

-- The `n` low bytes of `v`, most significant first.
unfoldable pub be_bytes : ℕ → ℕ → Bytes
be_bytes zero v = []
be_bytes (suc n) v = v / 256 ^ n % 256 ∷ be_bytes n v

-- RFC 9000, section 16: two bits of size class `k`, then the number, in 2 ^ k bytes.
unfoldable pub varint : ℕ → ℕ → Bytes
unfolding be_bytes
varint k v = (k * 64 + v / 256 ^ (2 ^ k - 1)) ∷ be_bytes (2 ^ k - 1) v

abbrev pub varint_limit : ℕ → ℕ
varint_limit k = 64 * 256 ^ (2 ^ k - 1)

header_fields : (k top : ℕ) → top < 64 → ((k * 64 + top) / 64 ≡ k) × ((k * 64 + top) % 64 ≡ top)
header_fields k top h = (omega arith, omega arith)

fold_four : (v : ℕ) → v < varint_limit 2 → foldl push_byte (v / 256 ^ 3) (be_bytes 3 v) ≡ v
unfolding be_bytes
fold_four v h = omega arith

fold_eight : (v : ℕ) → v < varint_limit 3 → foldl push_byte (v / 256 ^ 7) (be_bytes 7 v) ≡ v
unfolding be_bytes
fold_eight v h = omega arith

-- Every size class reads back, whatever follows, also where a shorter class would do.
pub split_tag-varint :
    (k v : ℕ) (rest : Bytes)
    → k < 4
    → v < varint_limit k
    → split_tag (varint k v ++ rest) ≡ some (v, rest)
unfolding split_tag varint
split_tag-varint zero v rest hk h = ground arith
split_tag-varint (suc zero) v rest hk h = ground arith
split_tag-varint (suc (suc zero)) v rest hk h =
    let (size, low) = header_fields 2 (v / 256 ^ 3) (omega arith) in
    rw (size, low) (ground (arith, fold_four v h))
split_tag-varint (suc (suc (suc zero))) v rest hk h =
    let (size, low) = header_fields 3 (v / 256 ^ 7) (omega arith) in
    rw (size, low) (ground (arith, fold_eight v h))
split_tag-varint (suc (suc (suc (suc k)))) v rest hk h = absurd (omega arith)

abbrev pub IsByte : ℕ → Type 0
IsByte b = b < 256

split_tag_len :
    (k first : ℕ) (more : Bytes)
    → first / 64 ≡ k
    → split_tag (first ∷ more) ≡ (
        if ltb (suc (length more)) (2 ^ k)
        then none
        else some (foldl push_byte (first % 64) (take (2 ^ k - 1) more), drop (2 ^ k - 1) more))
unfolding split_tag
split_tag_len k first more e = rw e

abbrev pub Encodes : Bytes → ℕ → Bytes → Type 0
Encodes frame v rest = (k : ℕ) × (k < 4) × (v < varint_limit k) × (frame ≡ varint k v ++ rest)

decode_one :
    (first v : ℕ) (more rest : Bytes)
    → first / 64 ≡ 0
    → split_tag (first ∷ more) ≡ some (v, rest)
    → Encodes (first ∷ more) v rest
unfolding varint
decode_one first v more rest h e =
    let read = split_tag_len 0 first more h in
    (0, omega arith, ground (arith, read), ground (arith, read))

decode_two :
    (first v : ℕ) (more rest : Bytes)
    → first / 64 ≡ 1
    → All IsByte more
    → split_tag (first ∷ more) ≡ some (v, rest)
    → Encodes (first ∷ more) v rest
unfolding varint
decode_two first v [] rest h b e = cc (split_tag_len 1 first [] h)
decode_two first v (b1 ∷ more) rest h b e =
    let read = split_tag_len 1 first (b1 ∷ more) h in
    (1, omega arith, ground (arith, read), ground (arith, read))

decode_four :
    (first v : ℕ) (more rest : Bytes)
    → first / 64 ≡ 2
    → All IsByte more
    → split_tag (first ∷ more) ≡ some (v, rest)
    → Encodes (first ∷ more) v rest
unfolding varint
decode_four first v (b1 ∷ b2 ∷ b3 ∷ more) rest h b e =
    let read = split_tag_len 2 first (b1 ∷ b2 ∷ b3 ∷ more) h in
    (2, omega arith, ground (arith, read), ground (arith, read))
decode_four first v more rest h b e = cc (split_tag_len 2 first more h)

decode_eight :
    (first v : ℕ) (more rest : Bytes)
    → first / 64 ≡ 3
    → All IsByte more
    → split_tag (first ∷ more) ≡ some (v, rest)
    → Encodes (first ∷ more) v rest
unfolding varint
decode_eight first v (b1 ∷ b2 ∷ b3 ∷ b4 ∷ b5 ∷ b6 ∷ b7 ∷ more) rest h b e =
    let read = split_tag_len 3 first (b1 ∷ b2 ∷ b3 ∷ b4 ∷ b5 ∷ b6 ∷ b7 ∷ more) h in
    (3, omega arith, ground (arith, read), ground (arith, read))
decode_eight first v more rest h b e = cc (split_tag_len 3 first more h)

class_cases : (b : ℕ) → b < 256 → (b / 64 ≡ 0) ⊎ ((b / 64 ≡ 1) ⊎ ((b / 64 ≡ 2) ⊎ (b / 64 ≡ 3)))
class_cases b h = ground arith

-- Whatever is accepted is such an encoding of the number that comes back, followed by the rest.
pub split_tag_inv :
    (frame : Bytes) (v : ℕ) (rest : Bytes)
    → All IsByte frame
    → split_tag frame ≡ some (v, rest)
    → (k : ℕ) × (k < 4) × (v < varint_limit k) × (frame ≡ varint k v ++ rest)
split_tag_inv [] v rest b e = unfold split_tag in cc
split_tag_inv (first ∷ more) v rest b e = elim (class_cases first b.0) [
  | inl h ↦ decode_one first v more rest h e
  | inr (inl h) ↦ decode_two first v more rest h b.1 e
  | inr (inr (inl h)) ↦ decode_four first v more rest h b.1 e
  | inr (inr (inr h)) ↦ decode_eight first v more rest h b.1 e
]
