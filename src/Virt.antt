-- ===== src/Virt.antt =====
-- The pollables and the datagram queue of experiments/udp-wake/virt/src/lib.rs. What the host gives
-- is the environment's: `batches` is what its `source::drain` calls return, in order (nothing beyond
-- the end), and what its `poll` calls return is a list of answers.
pub mod Sockets
pub mod Passthrough
pub mod Readiness
pub mod Rounds
pub mod Polling
pub mod Fifo
mod Examples
use mathlib.Core.Option
use component_iroh.Prelude.{
  ℕ, suc, ◌+◌, Bool, true, false, not, ◌||◌, List, [], ◌∷◌, ◌++◌, Option, none, some, nat_key,
  lookup, insert, if◌then◌else◌, unwrap_or, get_elem?,
}
use component_iroh.Relay.Frames.{Bytes}

pub record Incoming : Type 0 where
  pub payload : Bytes
  pub port : ℕ

-- The queues of the sockets by number, the source, and what was sent through it.
pub record World : Type 0 where
  pub queues : List (ℕ × List Incoming)
  pub batches : List (List Incoming)
  pub sent : List (Bytes × ℕ)

abbrev pub queue_of : World → ℕ → List Incoming
queue_of w socket = unwrap_or (lookup socket w.queues) []

unfoldable pub drain_batch : World → ℕ → List (List Incoming) → World
drain_batch w socket [] = w
drain_batch w socket (batch ∷ batches) = record w {
  queues = insert socket (queue_of w socket ++ batch) w.queues;
  batches = batches;
}

-- `Shared::drain`.
unfoldable pub drain : World → ℕ → World
unfolding drain_batch
drain w socket = drain_batch w socket w.batches

abbrev pub is_empty {ℓ} : {A : Type ℓ} → List A → Bool
is_empty [] = true
is_empty (_ ∷ _) = false

unfoldable pub drain_if_empty : World → ℕ → World
unfolding drain
drain_if_empty w socket = if is_empty (queue_of w socket) then drain w socket else w

-- `Shared::has_data`.
unfoldable pub has_data : World → ℕ → World × Bool
unfolding drain_if_empty
has_data w socket = let w' = drain_if_empty w socket in (w', not (is_empty (queue_of w' socket)))

-- A host pollable is its number.
pub data Inner : Type 0 where
  host udp_incoming : ℕ → Inner
  always_ready never : Inner

unfoldable pub ready_local : World → Inner → World × Bool
unfolding has_data
ready_local w always_ready = (w, true)
ready_local w (udp_incoming socket) = has_data w socket
ready_local w (host _) = (w, false)
ready_local w never = (w, false)

-- `ready`, where `host_ready` is the host's own `ready`.
unfoldable pub ready : (host_ready : ℕ → Bool) → World → Inner → World × Bool
unfolding has_data
ready host_ready w always_ready = (w, true)
ready host_ready w never = (w, false)
ready host_ready w (udp_incoming socket) = has_data w socket
ready host_ready w (host p) = (w, host_ready p)

-- What a call that may block gives; `waits` is a call that the environment has not let return.
pub data Blocking {ℓ} (A : Type ℓ) : Type ℓ where
  returns : A → Blocking A
  waits : Blocking A
  panics : Blocking A

-- The loop of `block` on a socket, over the batches that are still to come: each `src.block()`
-- returns before the next one is drained.
unfoldable pub block_socket : ℕ → List (List Incoming) → World → Blocking World
block_socket socket [] w = if is_empty (queue_of w socket) then waits else returns w
block_socket socket (batch ∷ batches) w = elim (is_empty (queue_of w socket)) [
  | false ↦ returns w
  | true ↦ block_socket socket batches (drain_batch w socket (batch ∷ batches))
]

-- `block`; `host_blocks` is what the host's own call gives.
unfoldable pub block : (host_blocks : ℕ → Blocking (Unit {0})) → World → Inner → Blocking World
unfolding block_socket
block host_blocks w always_ready = returns w
block host_blocks w (host p) = elim (host_blocks p) [
  | returns _ ↦ returns w
  | waits ↦ waits
  | panics ↦ panics
]
block host_blocks w (udp_incoming socket) = block_socket socket w.batches w
block host_blocks w never = panics

-- Pass 1 of `poll`, over the pollables from index `i` on.
unfoldable pub local_ready : World → ℕ → List Inner → World × List ℕ
unfolding ready_local
local_ready w i [] = (w, [])
local_ready w i (p ∷ pollables) =
    let (w', now) = ready_local w p in
    let (w'', rest) = local_ready w' (i + 1) pollables in (w'', if now then i ∷ rest else rest)

-- Pass 2: the indices with a host counterpart, in order (`back`); `none` is the `unreachable!`.
unfoldable pub host_backed : ℕ → List Inner → Option (List ℕ)
host_backed i [] = some []
host_backed i (host _ ∷ pollables) = Option.map (◌∷◌ i) (host_backed (i + 1) pollables)
host_backed i (udp_incoming _ ∷ pollables) = Option.map (◌∷◌ i) (host_backed (i + 1) pollables)
host_backed i (always_ready ∷ pollables) = none
host_backed i (never ∷ pollables) = host_backed (i + 1) pollables

infixl 5 ◌>>=◌
abbrev pub ◌>>=◌ {ℓ κ} : {A : Type ℓ} {B : Type κ} → Option A → (A → Option B) → Option B
some a >>= f = f a
none >>= f = none

-- One fired index, mapped back: `none` is an index out of range, or the second `unreachable!`.
unfoldable pub fired_one : World → ℕ → Option Inner → Option (World × List ℕ)
unfolding has_data
fired_one w i none = none
fired_one w i (some (host _)) = some (w, i ∷ [])
fired_one w i (some (udp_incoming socket)) =
    let (w', now) = has_data w socket in some (w', if now then i ∷ [] else [])
fired_one w i (some always_ready) = none
fired_one w i (some never) = none

unfoldable pub fired_ready : World → List Inner → List ℕ → List ℕ → Option (World × List ℕ)
unfolding fired_one
fired_ready w pollables back [] = some (w, [])
fired_ready w pollables back (h ∷ fired) = do
  i ← get_elem? back h
  (w', here) ← fired_one w i (get_elem? pollables i)
  (w'', rest) ← fired_ready w' pollables back fired
  some (w'', here ++ rest)

-- The loop of `poll`, over the answers of the host: the first that makes something ready ends it.
unfoldable pub poll_loop : List Inner → List (List ℕ) → World → Blocking (World × List ℕ)
unfolding local_ready host_backed fired_ready
poll_loop pollables [] w =
    let (w', now) = local_ready w 0 pollables in
    elim now [
      | i ∷ rest ↦ returns (w', i ∷ rest)
      | [] ↦ elim (host_backed 0 pollables) [
        | none ↦ panics
        | some [] ↦ panics
        | some (_ ∷ _) ↦ waits
      ]
    ]
poll_loop pollables (fired ∷ answers) w =
    let (w', now) = local_ready w 0 pollables in
    elim now [
      | i ∷ rest ↦ returns (w', i ∷ rest)
      | [] ↦ elim (host_backed 0 pollables) [
        | none ↦ panics
        | some [] ↦ panics
        | some (b ∷ back) ↦ elim (fired_ready w' pollables (b ∷ back) fired) [
          | none ↦ panics
          | some (w'', []) ↦ poll_loop pollables answers w''
          | some (w'', i ∷ rest) ↦ returns (w'', i ∷ rest)
        ]
      ]
    ]

unfoldable pub poll : List Inner → List (List ℕ) → World → Blocking (World × List ℕ)
unfolding poll_loop
poll [] answers w = panics
poll (p ∷ pollables) answers w = poll_loop (p ∷ pollables) answers w
