-- ===== src/Endpoint/Streams.antt =====
-- The `send-stream` and `recv-stream` resources (endpoint/src/endpoint_impl.rs).

pub mod Writing
pub mod Piping
pub mod Piped
use component_iroh.Prelude.{
  ℕ, zero, suc, ◌+◌, ◌-◌, Bool, true, false, List, [], ◌∷◌, map, Option, none, some, Result, ok,
  err, codes, length, drop, ltb, ◌==◌, if◌then◌else◌,
}
use component_iroh.Relay.Frames.{Bytes}
use component_iroh.Endpoint.Types.{Error, closed, reset, other}
use component_iroh.Endpoint.Noq.{
  Noq, write_blocked, write_closed, write_stopped, finish_closed, finish_stopped, ReadResult,
  read_closed_stream, illegal_ordered_read, read_fin, read_blocked, read_chunk, read_reset,
}
use component_iroh.Endpoint.State.{Run, ended, panicked, out_of_fuel, ◌>>=◌, ConnEntry, State}
use component_iroh.Endpoint.Waiting.{wait_until, with_entry, with_entry_run, unless_failed}

unfoldable pub read_outcome : ReadResult → Option (Result (Option Bytes) Error)
read_outcome read_closed_stream = some (ok none)
read_outcome illegal_ordered_read = some (err (other (codes "illegal ordered read")))
read_outcome (read_chunk bytes) = some (ok (some bytes))
read_outcome read_fin = some (ok none)
read_outcome read_blocked = none
read_outcome (read_reset code) = some (err (reset code))

-- The error of a connection as the end of a stream.
unfoldable pub read_failure : Error → Result (Option Bytes) Error
read_failure closed = ok none
read_failure e = err e

module _ (N : Noq) where
  open N use {Conn}

  -- What one attempt of `write_all` gives: the offset, and the result of the call if it ends.
  abbrev pub Progress : Type 0
  Progress = ℕ × Option (Result (Unit {0}) Error)

  -- The inner loop of `write_all`. An offset beyond the end makes the slice `bytes[offset..]` panic.
  -- Each round but the last advances the offset.
  unfoldable pub write_loop : ℕ → ℕ → Bytes → ℕ → Conn → Run (Conn × Progress)
  write_loop zero id bytes offset conn = out_of_fuel
  write_loop (suc fuel) id bytes offset conn =
      let (conn', result) = N.write id (drop offset bytes) conn in
      elim (ltb (length bytes) offset) [
        | true ↦ panicked
        | false ↦ elim result [
          | err write_blocked ↦ ended (conn', (offset, none))
          | err (write_stopped code) ↦ ended (conn', (offset, some (err (reset code))))
          | err write_closed ↦ ended (conn', (offset, some (err closed)))
          | ok written ↦ elim (offset + written == length bytes) [
            | true ↦ ended (conn', (offset + written, some (ok tt)))
            | false ↦ elim (written == 0) [
              | true ↦ ended (conn', (offset + written, none))
              | false ↦ write_loop fuel id bytes (offset + written) conn'
            ]
          ]
        ]
      ]

  unfoldable pub write_attempt : ℕ → Bytes → ℕ → ConnEntry N → Run (ConnEntry N × Progress)
  unfolding write_loop
  write_attempt id bytes offset entry = elim entry.error [
    | some e ↦ ended (entry, (offset, some (err e)))
    | none ↦ do
      (conn, progress) ← write_loop (suc (length bytes - offset)) id bytes offset entry.conn
      ended (record entry { conn = conn }, progress)
  ]

  -- One attempt of `write_all`; the closure keeps the offset.
  unfoldable pub write_check :
      ℕ → ℕ → Bytes → State N × ℕ → Run ((State N × ℕ) × Option (Result (Unit {0}) Error))
  unfolding with_entry_run write_attempt
  write_check handle id bytes p =
      with_entry_run N handle (write_attempt id bytes (p.1)) (p.0)
      >>= (λ r. ended ((r.0, r.1.0), r.1.1))

  abbrev pub beside : (State N → State N) → State N × ℕ → State N × ℕ
  beside others p = (others (p.0), p.1)

  unfoldable pub write_all :
      ℕ
      → ℕ
      → Bytes
      → List (State N → State N)
      → State N
      → Run (State N × Option (Result (Unit {0}) Error))
  unfolding wait_until write_check
  write_all handle id bytes others s =
      wait_until (write_check handle id bytes) (map beside others) (s, 0)
      >>= (λ r. ended (r.0.0, r.1))

  unfoldable pub read_attempt :
      ℕ → ℕ → ConnEntry N → ConnEntry N × Option (Result (Option Bytes) Error)
  unfolding read_outcome read_failure
  read_attempt id max entry = elim entry.error [
    | some e ↦ (entry, some (read_failure e))
    | none ↦
        let (conn, result) = N.read id max entry.conn in
        (record entry { conn = conn }, read_outcome result)
  ]

  unfoldable pub read_some :
      ℕ
      → ℕ
      → ℕ
      → List (State N → State N)
      → State N
      → Run (State N × Option (Result (Option Bytes) Error))
  unfolding wait_until with_entry read_attempt
  read_some handle id max = wait_until (with_entry N handle (read_attempt id max))

  unfoldable pub finish : ℕ → ConnEntry N → ConnEntry N × Option (Result (Unit {0}) Error)
  unfolding unless_failed
  finish id entry = unless_failed N entry (λ (e : ConnEntry N).
      let (conn, result) = N.finish id e.conn in
      (
        record e { conn = conn },
        elim result [
          | ok _ ↦ some (ok tt)
          | err (finish_stopped code) ↦ some (err (reset code))
          | err finish_closed ↦ some (err closed)
        ],
      ))

  unfoldable pub reset_stream : ℕ → ℕ → ConnEntry N → ConnEntry N
  reset_stream id code entry = record entry { conn = N.reset id code entry.conn }

  unfoldable pub stop : ℕ → ℕ → ConnEntry N → ConnEntry N
  stop id code entry = record entry { conn = N.stop id code entry.conn }

  -- `RecvStreamRes::read`; `streaming` is the resource's cell.
  unfoldable pub read :
      (streaming : Bool)
      → ℕ
      → ℕ
      → ℕ
      → List (State N → State N)
      → State N
      → Run (State N × Option (Result (Option Bytes) Error))
  unfolding read_some
  read true handle id max others s =
      ended (s, some (err (other (codes "the stream's bytes were taken by read-via-stream"))))
  read false handle id max others s =
      if max == 0 then ended (s, some (ok (some []))) else read_some handle id max others s
