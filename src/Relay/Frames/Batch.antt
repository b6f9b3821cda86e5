-- ===== src/Relay/Frames/Batch.antt =====
-- Datagrams out of a relayed frame: where decoding fails, and what a batch is cut into.
use component_iroh.Prelude.{
  ℕ, zero, suc, ◌+◌, ◌*◌, ◌/◌, ◌%◌, ◌<◌, ◌≤◌, ◌≡◌, refl, ap, Bool, true, ◌⊎◌, ◌↔◌, List, [], ◌∷◌,
  ◌++◌, map, none, some, arith, length, take, drop, length-take, length-drop, length-append,
  take-append-drop, take-append, drop-append, All, subst, ◌≢◌, dec_le, ◌∙◌, ◌^◌, if◌then◌else◌,
}
use component_iroh.Relay.Frames.{
  Bytes, Datagram, chunks_loop, chunks, decode_batch, decode_single, decode_relay_datagrams,
}

-- Every piece but the last has exactly `size` bytes, and the last has 1 to `size`.
abbrev pub IsChunked : ℕ → List Bytes → Type 0
IsChunked size [] = Unit
IsChunked size (c ∷ []) = (0 < length c) × (length c ≤ size)
IsChunked size (c ∷ d ∷ cs) = (length c ≡ size) × IsChunked size (d ∷ cs)

abbrev pub join : List Bytes → Bytes
join [] = []
join (c ∷ cs) = c ++ join cs

chunks_loop-join :
    (fuel size : ℕ) (xs : Bytes)
    → 0 < size
    → length xs ≤ fuel
    → join (chunks_loop fuel size xs) ≡ xs
unfolding chunks_loop
chunks_loop-join fuel size [] hs hf = refl
chunks_loop-join zero size (x ∷ xs) hs hf = absurd (omega arith)
chunks_loop-join (suc fuel) zero (x ∷ xs) hs hf = absurd (omega arith)
chunks_loop-join (suc fuel) (suc n) (x ∷ xs) hs hf =
    rw (chunks_loop-join fuel (suc n) (drop n xs) hs (omega (arith, length-drop n xs)))
      (ap (◌∷◌ x) (take-append-drop n xs))

IsChunked-cons :
    (size : ℕ) (c : Bytes) (cs : List Bytes)
    → 0 < length c
    → length c ≤ size
    → (cs ≢ [] → length c ≡ size)
    → IsChunked size cs
    → IsChunked size (c ∷ cs)
IsChunked-cons size c [] lo hi full h = (lo, hi)
IsChunked-cons size c (d ∷ cs) lo hi full h = (full (λ e. cc), h)

chunks_loop-nil : (fuel size : ℕ) → chunks_loop fuel size [] ≡ []
unfolding chunks_loop
chunks_loop-nil fuel size = refl

drop_all : (n : ℕ) (xs : Bytes) → length xs ≤ n → drop n xs ≡ []
drop_all zero [] h = refl
drop_all zero (x ∷ xs) h = absurd (omega arith)
drop_all (suc n) [] h = refl
drop_all (suc n) (x ∷ xs) h = drop_all n xs (omega arith)

chunk_full :
    (fuel n : ℕ) (xs : Bytes)
    → chunks_loop fuel (suc n) (drop n xs) ≢ []
    → suc (length (take n xs)) ≡ suc n
chunk_full fuel n xs more = elim (dec_le (length xs) n) [
  | yes short ↦ absurd (more (rw (drop_all n xs short) (chunks_loop-nil fuel (suc n))))
  | no long ↦ omega (arith, length-take n xs)
]

chunks_loop-IsChunked :
    (fuel size : ℕ) (xs : Bytes)
    → 0 < size
    → length xs ≤ fuel
    → IsChunked size (chunks_loop fuel size xs)
unfolding chunks_loop
chunks_loop-IsChunked fuel size [] hs hf = tt
chunks_loop-IsChunked zero size (x ∷ xs) hs hf = absurd (omega arith)
chunks_loop-IsChunked (suc fuel) zero (x ∷ xs) hs hf = absurd (omega arith)
chunks_loop-IsChunked (suc fuel) (suc n) (x ∷ xs) hs hf =
    IsChunked-cons (suc n) (take (suc n) (x ∷ xs)) _ (omega arith) (omega (arith, length-take n xs))
      (chunk_full fuel n xs)
      (chunks_loop-IsChunked fuel (suc n) (drop n xs) hs (omega (arith, length-drop n xs)))

abbrev pub payloads : List Datagram → List Bytes
payloads = map λ d. d.payload

abbrev from_source : Bytes → List Bytes → List Datagram
from_source source = map λ chunk. record { source = source; payload = chunk }

payloads-from_source : (source : Bytes) (cs : List Bytes) → payloads (from_source source cs) ≡ cs
payloads-from_source source [] = refl
payloads-from_source source (c ∷ cs) = ap (◌∷◌ c) (payloads-from_source source cs)

All-from_source :
    (source : Bytes) (cs : List Bytes) → All (λ d. d.source ≡ source) (from_source source cs)
All-from_source source [] = tt
All-from_source source (c ∷ cs) = (refl, All-from_source source cs)

-- The bytes of a batch frame's payload, as the relay protocol lays them out.
abbrev pub batch_payload : Bytes → ℕ → ℕ → Bytes → Bytes
batch_payload source ecn size contents = source ++ (ecn ∷ size / 256 ∷ size % 256 ∷ contents)

pub decode_split :
    (source tail : Bytes) (batch : Bool)
    → length source ≡ 32
    → decode_relay_datagrams (source ++ tail) batch
      ≡ (if batch then decode_batch source tail else decode_single source tail)
unfolding decode_relay_datagrams
decode_split source tail batch h =
    let front : take 32 (source ++ tail) ≡ source =
      subst (λ n. take n (source ++ tail) ≡ source) h (take-append source tail) in
    let back : drop 32 (source ++ tail) ≡ tail =
      subst (λ n. drop n (source ++ tail) ≡ tail) h (drop-append source tail) in
    ground (arith, front, back, length-append source tail)

-- A batch with a segment size from 1 to 65535 decodes, for every content: the pieces joined are
-- the content, each comes from the frame's source, and all but the last have the segment's size.
pub decode_relay_datagrams-batch :
    (source : Bytes) (ecn size : ℕ) (contents : Bytes)
    → length source ≡ 32
    → 0 < size
    → size < 2 ^ 16
    → (ds : List Datagram) × (decode_relay_datagrams (batch_payload source ecn size contents) true
        ≡ some ds)
      × (join (payloads ds) ≡ contents)
      × IsChunked size (payloads ds)
      × All (λ d. d.source ≡ source) ds
unfolding decode_batch
decode_relay_datagrams-batch source ecn size contents h lo hi =
    let size_bytes : size / 256 * 256 + size % 256 ≡ size = omega arith in
    (
      from_source source (chunks size contents),
      decode_split source _ true h ∙ ground (arith, size_bytes),
      rw payloads-from_source (chunks_loop-join (length contents) size contents lo (omega arith)),
      rw payloads-from_source
          (chunks_loop-IsChunked (length contents) size contents lo (omega arith)),
      All-from_source source _,
    )

-- A payload is refused exactly when it is too short for its fixed fields, or is a batch of
-- segment size 0.
pub decode_relay_datagrams-eq-none :
    (source tail : Bytes) (batch : Bool)
    → length source ≡ 32
    → (decode_relay_datagrams (source ++ tail) batch ≡ none)
      ↔ ((tail ≡ []) ⊎ ((batch ≡ true) × ((length tail < 3) ⊎ (take 2 (drop 1 tail) ≡ 0 ∷ 0 ∷ []))))
unfolding decode_batch decode_single
decode_relay_datagrams-eq-none source [] batch h =
    rw (decode_split source [] batch h) (ground arith)
decode_relay_datagrams-eq-none source (ecn ∷ []) batch h =
    rw (decode_split source (ecn ∷ []) batch h) (ground arith)
decode_relay_datagrams-eq-none source (ecn ∷ hi ∷ []) batch h =
    rw (decode_split source (ecn ∷ hi ∷ []) batch h) (ground arith)
decode_relay_datagrams-eq-none source (ecn ∷ hi ∷ lo ∷ contents) batch h =
    rw (decode_split source (ecn ∷ hi ∷ lo ∷ contents) batch h) (ground arith)
