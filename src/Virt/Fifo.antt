-- ===== src/Virt/Fifo.antt =====
-- The synthetic socket as a queue: experiments/udp-wake/virt/src/lib.rs.
use mathlib.Core.List.{map-append}
use component_iroh.Prelude.{
  ℕ, ◌≡◌, refl, ap, sym, ◌∙◌, List, [], ◌∷◌, ◌++◌, map, append_assoc, Bool-cases, inl, inr, nat_key,
  lookup-insert_self, min, length, take, drop, take-append-drop,
}
use component_iroh.Virt.{
  World, Incoming, queue_of, drain_batch, drain, is_empty, drain_if_empty, has_data,
}
use component_iroh.Virt.Sockets.{IncomingDatagram, to_incoming, as_usize, receive}

-- What is asked of one socket: whether it has data, or up to so many datagrams.
pub data Op : Type 0 where
  ask : Op
  fetch : ℕ → Op

-- The datagrams that come out, over a history of calls.
unfoldable pub run : ℕ → List Op → World → World × List IncomingDatagram
run socket [] w = (w, [])
run socket (ask ∷ ops) w = run socket ops (has_data w socket).0
run socket (fetch n ∷ ops) w =
    let (w', out) = receive socket n w in let (w'', rest) = run socket ops w' in (w'', out ++ rest)

abbrev concat : List (List Incoming) → List Incoming
concat [] = []
concat (batch ∷ batches) = batch ++ concat batches

-- What a socket still has to hand out, if it alone drains the source.
abbrev pub remaining : World → ℕ → List Incoming
remaining w socket = queue_of w socket ++ concat w.batches

drain_batch-remaining :
    (w : World) (socket : ℕ) (batches : List (List Incoming))
    → w.batches ≡ batches
    → remaining (drain_batch w socket batches) socket ≡ remaining w socket
unfolding drain_batch
drain_batch-remaining w socket [] e = refl
drain_batch-remaining w socket (batch ∷ batches) e =
    rw (lookup-insert_self socket (queue_of w socket ++ batch) w.queues) (
      append_assoc (queue_of w socket) batch (concat batches)
      ∙ ap (λ bs. queue_of w socket ++ concat bs) (sym e))

has_data-remaining :
    (w : World) (socket : ℕ) → remaining (has_data w socket).0 socket ≡ remaining w socket
unfolding has_data drain_if_empty drain
has_data-remaining w socket = elim (Bool-cases (is_empty (queue_of w socket))) [
  | inl e ↦ rw e (drain_batch-remaining w socket w.batches refl)
  | inr e ↦ rw e refl
]

receive-remaining :
    (w : World) (socket n : ℕ)
    → (receive socket n w).1 ++ map to_incoming (remaining (receive socket n w).0 socket)
      ≡ map to_incoming (remaining w socket)
unfolding receive drain
receive-remaining w socket n =
    let w' = drain w socket in
    let q = queue_of w' socket in
    let k = min (as_usize n) (length q) in
    rw (lookup-insert_self socket (drop k q) w'.queues) (
      sym (map-append to_incoming (take k q) (drop k q ++ concat w'.batches))
      ∙ ap (map to_incoming) (
          sym (append_assoc (take k q) (drop k q) (concat w'.batches))
          ∙ ap (λ xs. xs ++ concat w'.batches) (take-append-drop k q)
          ∙ drain_batch-remaining w socket w.batches refl))

-- Whatever is asked of a socket that alone drains the source, and in whatever order, the datagrams that come out are those that
-- it held and that the source gave, in order, each once; what has not come out is still to come.
pub run_fifo :
    (socket : ℕ) (ops : List Op) (w : World)
    → (run socket ops w).1 ++ map to_incoming (remaining (run socket ops w).0 socket)
      ≡ map to_incoming (remaining w socket)
unfolding run
run_fifo socket [] w = refl
run_fifo socket (ask ∷ ops) w =
    run_fifo socket ops (has_data w socket).0 ∙ ap (map to_incoming) (has_data-remaining w socket)
run_fifo socket (fetch n ∷ ops) w =
    append_assoc (receive socket n w).1 _ _
    ∙ ap (λ xs. (receive socket n w).1 ++ xs) (run_fifo socket ops (receive socket n w).0)
    ∙ receive-remaining w socket n
