-- ===== src/Virt/Examples.antt =====
-- The theorems on the socket virtualization at concrete inputs.
use component_iroh.Prelude.{ℕ, ◌≡◌, refl, List, [], ◌∷◌, ◌++◌, map, arith}
use component_iroh.Virt.{World, Incoming, Inner, host, udp_incoming, never, poll}
use component_iroh.Virt.Polling.{Polled, poll-Polled}
use component_iroh.Virt.Sockets.{to_incoming}
use component_iroh.Virt.Fifo.{Op, ask, fetch, run, remaining, run_fifo}

abbrev datagram : ℕ → Incoming
datagram port = record { payload = port ∷ []; port = port }

-- The source gives two datagrams, then none, then one more.
abbrev sourced : World
sourced = record {
  queues = [];
  batches = (datagram 1 ∷ datagram 2 ∷ []) ∷ [] ∷ (datagram 3 ∷ []) ∷ [];
  sent = [];
}

abbrev drained : World
drained = record sourced { batches = [] ∷ (datagram 3 ∷ []) ∷ [] }

abbrev watched : List Inner
watched = never ∷ udp_incoming 5 ∷ host 0 ∷ []

-- The source fires and has nothing, then it fires and has a datagram.
abbrev answers : List (List ℕ)
answers = (0 ∷ []) ∷ (0 ∷ 1 ∷ []) ∷ []

poll-Polled_example : Polled watched answers (poll watched answers drained)
poll-Polled_example =
    poll-Polled watched answers drained refl
      ((omega arith, tt), ((omega arith, (omega arith, tt)), tt))

abbrev calls : List Op
calls = ask ∷ fetch 1 ∷ fetch 7 ∷ ask ∷ fetch 2 ∷ []

run_fifo_example :
    (run 5 calls sourced).1 ++ map to_incoming (remaining (run 5 calls sourced).0 5)
    ≡ map to_incoming (remaining sourced 5)
run_fifo_example = run_fifo 5 calls sourced
