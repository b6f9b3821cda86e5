-- ===== src/Endpoint/Streams/Piping.antt =====
-- A stream joined to a byte pipe of the host: write_via_stream and read_via_stream
-- (endpoint/src/endpoint_impl.rs).
use component_iroh.Prelude.{
  ℕ, Bool, true, false, List, [], ◌∷◌, ◌++◌, Option, none, some, Result, ok, err, codes,
}
use component_iroh.Relay.Frames.{Bytes}
use component_iroh.Endpoint.Types.{Error, other}
use component_iroh.Endpoint.Noq.{Noq}
use component_iroh.Endpoint.State.{Run, ended, panicked, out_of_fuel, State}
use component_iroh.Endpoint.Waiting.{with_entry}
use component_iroh.Endpoint.Streams.{write_all, finish, read_some}

module _ (N : Noq) where
  -- One read of the pipe: what others do before it returns, whether it is the last, and its bytes;
  -- and what others do while these are written.
  pub record PipeRead : Type 0 where
    pub during : State N → State N
    pub is_last : Bool
    pub bytes : Bytes
    pub others : List (State N → State N)

  unfoldable pub write_chunk :
      ℕ
      → ℕ
      → Bytes
      → List (State N → State N)
      → State N
      → Run (State N × Option (Result (Unit {0}) Error))
  unfolding write_all
  write_chunk handle id [] others s = ended (s, some (ok tt))
  write_chunk handle id (b ∷ bytes) others s = write_all N handle id (b ∷ bytes) others s

  -- `none` waits, for the pipe or in `write_all`.
  unfoldable pub write_via_stream :
      ℕ → ℕ → List PipeRead → State N → Run (State N × Option (Result (Unit {0}) Error))
  unfolding write_chunk with_entry finish
  write_via_stream handle id [] s = ended (s, none)
  write_via_stream handle id (r ∷ reads) s =
      elim (write_chunk handle id r.bytes r.others (r.during s)) [
        | panicked ↦ panicked
        | out_of_fuel ↦ out_of_fuel
        | ended (s', none) ↦ ended (s', none)
        | ended (s', some (err e)) ↦ ended (s', some (err e))
        | ended (s', some (ok _)) ↦ elim r.is_last [
          | true ↦ with_entry N handle (finish N id) s'
          | false ↦ write_via_stream handle id reads s'
        ]
      ]

  -- `read_via_stream` up to its task; the flag is the resource's cell.
  unfoldable pub take_streaming : (streaming : Bool) → Bool × Result (Unit {0}) Error
  take_streaming true = (true, err (other (codes "read-via-stream may be called once")))
  take_streaming false = (true, ok tt)

  -- One round of the task: what others do while the stream is read, whether the pipe takes the whole
  -- chunk, and what others do while it does.
  pub record PipeWrite : Type 0 where
    pub others : List (State N → State N)
    pub is_taken : Bool
    pub during : State N → State N

  abbrev pub delivered : Bytes → Run (State N × Bytes × Bool) → Run (State N × Bytes × Bool)
  delivered chunk (ended (s, bytes, is_over)) = ended (s, chunk ++ bytes, is_over)
  delivered chunk panicked = panicked
  delivered chunk out_of_fuel = out_of_fuel

  -- The task: the chunks that the pipe was given, and whether the task is over.
  unfoldable pub forward : ℕ → ℕ → List PipeWrite → State N → Run (State N × Bytes × Bool)
  unfolding read_some
  forward handle id [] s = ended (s, [], false)
  forward handle id (r ∷ rounds) s = elim (read_some N handle id 16384 r.others s) [
    | panicked ↦ panicked
    | out_of_fuel ↦ out_of_fuel
    | ended (s', none) ↦ ended (s', [], false)
    | ended (s', some (err _)) ↦ ended (s', [], true)
    | ended (s', some (ok none)) ↦ ended (s', [], true)
    | ended (s', some (ok (some chunk))) ↦ elim r.is_taken [
      | true ↦ delivered chunk (forward handle id rounds (r.during s'))
      | false ↦ ended (r.during s', chunk, true)
    ]
  ]
