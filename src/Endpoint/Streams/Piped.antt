-- ===== src/Endpoint/Streams/Piped.antt =====
-- `write_via_stream` puts what the pipe gives on the stream (endpoint/src/endpoint_impl.rs).
use component_iroh.Prelude.{
  ℕ, zero, suc, ◌+◌, ◌≤◌, ◌≡◌, refl, sym, subst, ap, ◌∙◌, append-nil, Bool-cases, inl, inr, List,
  [], ◌∷◌, ◌++◌, Option, none, some, Result, ok, err, length, take, All, nat_key,
  lookup-insert_self, append_assoc, length-append, arith, Option-cases, if◌then◌else◌,
}
use component_iroh.Relay.Frames.{Bytes}
use component_iroh.Endpoint.Types.{Error}
use component_iroh.Endpoint.Noq.{Noq}
use component_iroh.Endpoint.State.{Run, ended, panicked, out_of_fuel, ConnEntry, State}
use component_iroh.Endpoint.Waiting.{with_entry, unless_failed}
use component_iroh.Endpoint.Streams.{finish}
use component_iroh.Endpoint.Streams.Piping.{PipeRead, write_chunk, write_via_stream}
use component_iroh.Endpoint.Streams.Writing.{
  Writes, HasAccepted, WroteAll, write_all-WroteAll, take_all, add_suc,
}

take-prefix : (n : ℕ) (xs ys : Bytes) → n ≤ length xs → take n (xs ++ ys) ≡ take n xs
take-prefix zero xs ys h = refl
take-prefix (suc n) [] ys h = absurd (omega arith)
take-prefix (suc n) (x ∷ xs) ys h = ap (◌∷◌ x) (take-prefix n xs ys (omega arith))

take-beyond : (n : ℕ) (xs ys : Bytes) → take (length xs + n) (xs ++ ys) ≡ xs ++ take n ys
take-beyond n [] ys = ap (λ k. take k ys) (omega arith)
take-beyond n (x ∷ xs) ys =
    ap (λ k. take k (x ∷ (xs ++ ys))) (add_suc (length xs) n) ∙ ap (◌∷◌ x) (take-beyond n xs ys)

-- What the pipe gives, up to its last read.
abbrev pub piped : (N : Noq) → List (PipeRead N) → Bytes
piped N [] = []
piped N (r ∷ reads) = r.bytes ++ (if r.is_last then [] else piped N reads)

module _ (N : Noq) (W : Writes N)
    (finish_keeps : (id : ℕ) (conn : N.Conn)
      → W.accepted id (N.finish id conn).0 ≡ W.accepted id conn) where
  -- What others do keeps the connection and the bytes of every stream.
  abbrev pub Spares : ℕ → ℕ → (State N → State N) → Type 0
  Spares handle id turn =
      (x : Bytes) (s : State N)
      → HasAccepted N W handle id x s
      → HasAccepted N W handle id x (turn s)

  abbrev pub AllSpare : ℕ → ℕ → List (PipeRead N) → Type 0
  AllSpare handle id [] = Unit
  AllSpare handle id (r ∷ reads) =
      (Spares handle id r.during × All (Spares handle id) r.others) × AllSpare handle id reads

  abbrev HasPrefix : ℕ → ℕ → Bytes → Bytes → State N → Type 0
  HasPrefix handle id base bytes s =
      (n : ℕ) × (n ≤ length bytes) × HasAccepted N W handle id (base ++ take n bytes) s

  all-HasPrefix :
      (handle id : ℕ) (base bytes : Bytes) (s : State N)
      → HasAccepted N W handle id (base ++ bytes) s
      → HasPrefix handle id base bytes s
  all-HasPrefix handle id base bytes s h = (
    length bytes,
    omega arith,
    subst (λ ys. HasAccepted N W handle id (base ++ ys) s) (sym (take_all bytes)) h,
  )

  full-WroteAll :
      (handle id : ℕ) (base bytes : Bytes) (s : State N) (r : Option (Result (Unit {0}) Error))
      → HasAccepted N W handle id (base ++ bytes) s
      → WroteAll N W handle id base bytes (ended (s, r))
  unfolding WroteAll
  full-WroteAll handle id base bytes s none h = all-HasPrefix handle id base bytes s h
  full-WroteAll handle id base bytes s (some (err e)) h = all-HasPrefix handle id base bytes s h
  full-WroteAll handle id base bytes s (some (ok u)) h = h

  further-HasPrefix :
      (handle id : ℕ) (base bytes rest : Bytes) (s : State N)
      → HasPrefix handle id (base ++ bytes) rest s
      → HasPrefix handle id base (bytes ++ rest) s
  further-HasPrefix handle id base bytes rest s (n, le, h) = (
    length bytes + n,
    omega (arith, length-append bytes rest),
    subst (λ ys. HasAccepted N W handle id ys s)
        (append_assoc base bytes (take n rest)
          ∙ ap (λ ys. base ++ ys) (sym (take-beyond n bytes rest)))
        h,
  )

  further-WroteAll :
      (handle id : ℕ) (base bytes rest : Bytes)
      (r : Run (State N × Option (Result (Unit {0}) Error)))
      → WroteAll N W handle id (base ++ bytes) rest r
      → WroteAll N W handle id base (bytes ++ rest) r
  unfolding WroteAll
  further-WroteAll handle id base bytes rest panicked h = h
  further-WroteAll handle id base bytes rest out_of_fuel h = h
  further-WroteAll handle id base bytes rest (ended (s, some (ok u))) h =
      subst (λ ys. HasAccepted N W handle id ys s) (append_assoc base bytes rest) h
  further-WroteAll handle id base bytes rest (ended (s, some (err e))) h =
      further-HasPrefix handle id base bytes rest s h
  further-WroteAll handle id base bytes rest (ended (s, none)) h =
      further-HasPrefix handle id base bytes rest s h

  -- A call that stops on the way leaves a prefix of everything.
  shortened-HasPrefix :
      (handle id : ℕ) (base bytes rest : Bytes) (s : State N)
      → HasPrefix handle id base bytes s
      → HasPrefix handle id base (bytes ++ rest) s
  shortened-HasPrefix handle id base bytes rest s (n, le, h) = (
    n,
    omega (arith, length-append bytes rest),
    subst (λ ys. HasAccepted N W handle id (base ++ ys) s) (sym (take-prefix n bytes rest le)) h,
  )

  finish_kept :
      (id : ℕ) (entry : ConnEntry N)
      → W.accepted id ((finish N id entry).0.conn) ≡ W.accepted id entry.conn
  unfolding finish unless_failed
  finish_kept id entry = elim (Option-cases entry.error) [
    | inl e ↦ rw (e, finish) (finish_keeps id entry.conn)
    | inr (x, e) ↦ rw (e, finish) refl
  ]

  finish-WroteAll :
      (handle id : ℕ) (base bytes : Bytes) (s : State N)
      → HasAccepted N W handle id (base ++ bytes) s
      → WroteAll N W handle id base bytes (with_entry N handle (finish N id) s)
  unfolding with_entry HasAccepted
  finish-WroteAll handle id base bytes s (entry, found, carried) =
      rw (found, with_entry)
        (full-WroteAll handle id base bytes _ (finish N id entry).1 (
          (finish N id entry).0,
          lookup-insert_self handle (finish N id entry).0 s.conns,
          finish_kept id entry ∙ carried,
        ))

  write_chunk-WroteAll :
      (handle id : ℕ) (base bytes : Bytes) (others : List (State N → State N)) (s : State N)
      → All (Spares handle id) others
      → HasAccepted N W handle id base s
      → WroteAll N W handle id base bytes (write_chunk N handle id bytes others s)
  unfolding write_chunk
  write_chunk-WroteAll handle id base [] others s k h =
      full-WroteAll handle id base [] s (some (ok tt))
        (subst (λ ys. HasAccepted N W handle id ys s) (sym (append-nil base)) h)
  write_chunk-WroteAll handle id base (b ∷ bytes) others s k h =
      write_all-WroteAll N W handle id base (b ∷ bytes) others s k h

  -- What follows a chunk's write, in a pipe that goes on with `rest`.
  chunk-WroteAll :
      (handle id : ℕ) (base bytes rest : Bytes)
      (c : Run (State N × Option (Result (Unit {0}) Error)))
      (next : State N → Run (State N × Option (Result (Unit {0}) Error)))
      → WroteAll N W handle id base bytes c
      → ((s : State N)
          → HasAccepted N W handle id (base ++ bytes) s
          → WroteAll N W handle id base (bytes ++ rest) (next s))
      → WroteAll N W handle id base (bytes ++ rest) (elim c [
        | panicked ↦ panicked
        | out_of_fuel ↦ out_of_fuel
        | ended (s', none) ↦ ended (s', none)
        | ended (s', some (err e)) ↦ ended (s', some (err e))
        | ended (s', some (ok _)) ↦ next s'
      ])
  unfolding WroteAll
  chunk-WroteAll handle id base bytes rest panicked next h k = h
  chunk-WroteAll handle id base bytes rest out_of_fuel next h k = h
  chunk-WroteAll handle id base bytes rest (ended (s, none)) next h k =
      shortened-HasPrefix handle id base bytes rest s h
  chunk-WroteAll handle id base bytes rest (ended (s, some (err e))) next h k =
      shortened-HasPrefix handle id base bytes rest s h
  chunk-WroteAll handle id base bytes rest (ended (s, some (ok u))) next h k = k s h

  -- Under the QUIC crate's documented write, a finish that leaves the stream's bytes, and if what
  -- others do keeps the connection and the bytes of the stream: write_via_stream neither panics nor
  -- loops for ever. When it reports success, the stream carries exactly what the pipe gave up to its
  -- end, in order, behind what it carried. When it fails or still waits, it carries a prefix of what
  -- the pipe gave.
  pub write_via_stream-WroteAll :
      (handle id : ℕ) (base : Bytes) (reads : List (PipeRead N)) (s : State N)
      → AllSpare handle id reads
      → HasAccepted N W handle id base s
      → WroteAll N W handle id base (piped N reads) (write_via_stream N handle id reads s)
  unfolding write_via_stream
  write_via_stream-WroteAll handle id base [] s k h =
      full-WroteAll handle id base [] s none
        (subst (λ ys. HasAccepted N W handle id ys s) (sym (append-nil base)) h)
  write_via_stream-WroteAll handle id base (r ∷ reads) s ((spares, others), k) h =
      chunk-WroteAll handle id base r.bytes _
        (write_chunk N handle id r.bytes r.others (r.during s)) _
        (write_chunk-WroteAll handle id base r.bytes r.others (r.during s) others (spares base s h))
        (λ s' h'. elim (Bool-cases r.is_last) [
          | inl e ↦ rw e (
              finish-WroteAll handle id base (r.bytes ++ []) s' (
                subst (λ ys. HasAccepted N W handle id (base ++ ys) s') (sym (append-nil r.bytes))
                  h'))
          | inr e ↦ rw e (
              further-WroteAll handle id base r.bytes (piped N reads) _
                (write_via_stream-WroteAll handle id (base ++ r.bytes) reads s' k h'))
        ])
