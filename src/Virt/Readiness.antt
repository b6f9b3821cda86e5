-- ===== src/Virt/Readiness.antt =====
-- When a pollable is ready, and that a look at one keeps the others ready
-- (experiments/udp-wake/virt/src/lib.rs).
use mathlib.Core.List.{Memᴰ}
use component_iroh.Prelude.{
  ℕ, suc, ◌+◌, ◌≡◌, refl, true, false, List, [], ◌∷◌, ◌++◌, some, nat_key, lookup-insert, get_elem?,
  arith,
}
use component_iroh.Virt.{
  World, Incoming, queue_of, drain_batch, drain, is_empty, drain_if_empty, has_data, Inner, host,
  udp_incoming, always_ready, never, ready_local, local_ready, host_backed,
}

abbrev pub HasData : World → ℕ → Type 0
HasData w socket = is_empty (queue_of w socket) ≡ false

is_empty-append : (xs ys : List Incoming) → is_empty xs ≡ false → is_empty (xs ++ ys) ≡ false
is_empty-append [] ys h = absurd (ground arith)
is_empty-append (x ∷ xs) ys h = refl

-- A drain takes nothing out of a queue.
pub drain_batch-HasData :
    (w : World) (socket t : ℕ) (batches : List (List Incoming))
    → HasData w t
    → HasData (drain_batch w socket batches) t
unfolding drain_batch
drain_batch-HasData w socket t [] h = h
drain_batch-HasData w socket t (b ∷ bs) h = ground (
  arith,
  lookup-insert socket t (queue_of w socket ++ b) w.queues,
  is_empty-append (queue_of w t) b,
)

pub has_data-HasData : (w : World) (socket t : ℕ) → HasData w t → HasData (has_data w socket).0 t
unfolding has_data drain_if_empty drain
has_data-HasData w socket t h = ground (arith, drain_batch-HasData w socket t w.batches)

pub has_data_lem :
    (w : World) (socket : ℕ) → (has_data w socket).1 ≡ true → HasData (has_data w socket).0 socket
unfolding has_data
has_data_lem w socket h = ground arith

pub ready_local-HasData :
    (w : World) (p : Inner) (t : ℕ) → HasData w t → HasData (ready_local w p).0 t
unfolding ready_local
ready_local-HasData w always_ready t h = h
ready_local-HasData w (udp_incoming s) t h = has_data-HasData w s t h
ready_local-HasData w (host _) t h = h
ready_local-HasData w never t h = h

pub local_ready-HasData :
    (w : World) (i : ℕ) (ps : List Inner) (t : ℕ) → HasData w t → HasData (local_ready w i ps).0 t
unfolding local_ready
local_ready-HasData w i [] t h = h
local_ready-HasData w i (p ∷ ps) t h =
    local_ready-HasData (ready_local w p).0 (i + 1) ps t (ready_local-HasData w p t h)

-- Some answer of the host fires the entry at index `i`.
pub record Fires (ps : List Inner) (answers : List (List ℕ)) (i : ℕ) : Type 0 where
  pub back : List ℕ
  pub mapped : host_backed 0 ps ≡ some back
  pub fired : List ℕ
  pub given : Memᴰ fired answers
  pub h : ℕ
  pub among : Memᴰ h fired
  pub is_entry : get_elem? back h ≡ some i

-- A pollable is ready: it always is, or its queue holds a datagram, or the host fired it.
pub data IsReady (ps : List Inner) (answers : List (List ℕ)) (w : World) (i : ℕ) : Type 0 where
  constant : get_elem? ps i ≡ some always_ready → IsReady ps answers w i
  filled :
      (socket : ℕ)
      → get_elem? ps i ≡ some (udp_incoming socket)
      → is_empty (queue_of w socket) ≡ false
      → IsReady ps answers w i
  fires : (p : ℕ) → get_elem? ps i ≡ some (host p) → Fires ps answers i → IsReady ps answers w i

-- How many pollables have a host counterpart.
abbrev pub backed_count : List Inner → ℕ
backed_count [] = 0
backed_count (host _ ∷ qs) = suc (backed_count qs)
backed_count (udp_incoming _ ∷ qs) = suc (backed_count qs)
backed_count (_ ∷ qs) = backed_count qs

abbrev pub IsBacked : Inner → Type 0
IsBacked (host _) = Unit
IsBacked (udp_incoming _) = Unit
IsBacked _ = ⊥
