-- ===== src/Guest/Ebbing/Taking.antt =====
-- What the demo's application takes in (guest/src/endpoint.rs, `App`) comes to an end.
use component_iroh.Prelude.{
  ℕ, zero, suc, ◌≤◌, ◌<◌, ◌≡◌, refl, Bool, true, false, ◌++◌, Option, none, some, codes, ◌==◌,
  arith, bytes_key,
}
use component_iroh.Relay.Frames.{Bytes}
use component_iroh.Endpoint.Noq.{
  Noq, Event, connected, stream_opened, stream_readable, datagram_received, connection_lost, bi,
}
use component_iroh.Guest.Task.{Outcome, finished, failed, ◌>>=◌, and_then}
use component_iroh.Guest.Settling.{at_once, later, and_then-Settles}
use component_iroh.Guest.Settling.Cases.{by_test, by_if, by_option}
use component_iroh.Guest.Side.{fin, blocked, broken, chunk, NextChunk, Demo, Side}
use component_iroh.Guest.App.{
  read_chunks, read_stream, on_opened, on_datagram, recv_datagrams, on_readable, handle_event,
}
use component_iroh.Guest.Ebbing.{Ebbs, Falls, Ending, past, low, on, by_role-Ending}
use component_iroh.Guest.Ebbing.Sending.{
  complete-Ending, on_connected-Ending, on_datagram-Ending, on_lost-Ending,
}

module _ {N : Noq} {D : Demo N} (E : Ebbs D) (n : ℕ) where
  next_chunk-Ending :
      (id : ℕ) (next : NextChunk) (s : Side N)
      → E.inbound s.conn ≤ n
      → ((bytes : Bytes)
          → next ≡ chunk bytes
          → Ending E n (λ k.
            read_chunks D k id
              (record s { app = record (s.app) { inbound = s.app.inbound ++ bytes } })))
      → Ending E n (λ k. elim next as (λ _. Outcome (Side N) Bool) [
        | fin ↦ finished s true
        | blocked ↦ finished s false
        | broken e ↦ failed s (codes "stream read: " ++ e)
        | chunk bytes ↦
            read_chunks D k id
              (record s { app = record (s.app) { inbound = s.app.inbound ++ bytes } })
      ])
  next_chunk-Ending id fin s h f = at_once _ _ h
  next_chunk-Ending id blocked s h f = at_once _ _ h
  next_chunk-Ending id (broken e) s h f = at_once _ _ tt
  next_chunk-Ending id (chunk bytes) s h f = f bytes refl

  read_chunks-Ending :
      (m id : ℕ) (s : Side N)
      → E.inbound s.conn < m
      → E.inbound s.conn ≤ n
      → Ending E n (λ k. read_chunks D k id s)
  unfolding read_chunks
  read_chunks-Ending zero id s lt h = absurd (omega arith)
  read_chunks-Ending (suc m) id s lt h =
      later _ _ _ (λ k. refl)
        (next_chunk-Ending id ((D.chunks_next id s.conn).1) (past (D.chunks_next id) s)
          (low E n (D.chunks_next id) s.conn (E.chunk_keeps id) h)
          (λ bytes q.
            read_chunks-Ending m id _ (omega (arith, E.chunk_falls id s.conn bytes q))
              (low E n (D.chunks_next id) s.conn (E.chunk_keeps id) h)))

  read_stream-Ending :
      (now id : ℕ) (s : Side N) → E.inbound s.conn ≤ n → Ending E n (λ k. read_stream D k now id s)
  unfolding read_stream
  read_stream-Ending now id s h =
      by_test ((D.chunks_open id s.conn).1) _ _ (past (D.chunks_open id) s)
        (on E n _ _
          (read_chunks-Ending (suc (E.inbound ((D.chunks_open id s.conn).0))) id
            (past (D.chunks_open id) s) (omega arith)
            (low E n (D.chunks_open id) s.conn (E.chunks_keep id) h))
          (λ s1 is_end h1.
            by_test is_end _ _ (record s1 { conn = D.chunks_finalize id s1.conn })
              (complete-Ending E n now id (record s1 { conn = D.chunks_finalize id s1.conn })
                (omega (arith, E.finalize_keeps id s1.conn)))
              (at_once _ _ (omega (arith, E.finalize_keeps id s1.conn)))))
        (at_once _ _ (low E n (D.chunks_open id) s.conn (E.chunks_keep id) h))

  on_opened-Ending :
      (now : ℕ) (s : Side N) → E.inbound s.conn ≤ n → Ending E n (λ k. on_opened D k now s)
  unfolding on_opened
  on_opened-Ending now s h =
      by_role-Ending E n s.app.role _ _ s (λ _. at_once _ _ h)
        (by_option s.app.stream _ _ s (λ _. at_once _ _ h)
          (by_option ((N.streams_accept bi s.conn).1) _ _ _
            (λ id.
              read_stream-Ending now id _ (low E n (N.streams_accept bi) s.conn E.accept_keeps h))
            (at_once _ _ (low E n (N.streams_accept bi) s.conn E.accept_keeps h))))

  on_readable-Ending :
      (now id : ℕ) (s : Side N) → E.inbound s.conn ≤ n → Ending E n (λ k. on_readable D k now id s)
  unfolding on_readable
  on_readable-Ending now id s h =
      by_option s.app.stream _ _ s
        (λ ours. by_if (ours == id) _ _ s (read_stream-Ending now id s h) (at_once _ _ h))
        (at_once _ _ h)

  next_datagram-Ending :
      (s : Side N) (o : Option Bytes)
      → Falls E.inbound E.outbound s.conn ((N.recv_datagram s.conn).0, o)
      → E.inbound s.conn ≤ n
      → ((s' : Side N)
          → E.inbound s'.conn < E.inbound s.conn
          → Ending E n (λ k. recv_datagrams D k s'))
      → Ending E n (λ k. elim o as (λ _. Outcome (Side N) (Unit {0})) [
        | none ↦ finished (past N.recv_datagram s) tt
        | some bytes ↦
            and_then (on_datagram D bytes (past N.recv_datagram s)) (λ _. recv_datagrams D k)
      ])
  next_datagram-Ending s none (a, _) h rest = at_once _ _ (omega arith)
  next_datagram-Ending s (some bytes) a h rest =
      and_then-Settles _ _ _ _
        (on_datagram-Ending E (E.inbound ((N.recv_datagram s.conn).0)) bytes
          (past N.recv_datagram s) (omega arith))
        (λ s1 _ h1. rest s1 (omega arith))

  recv_datagrams-Ending :
      (m : ℕ) (s : Side N)
      → E.inbound s.conn < m
      → E.inbound s.conn ≤ n
      → Ending E n (λ k. recv_datagrams D k s)
  unfolding recv_datagrams ◌>>=◌
  recv_datagrams-Ending zero s lt h = absurd (omega arith)
  recv_datagrams-Ending (suc m) s lt h =
      later _ _ _ (λ k. refl)
        (next_datagram-Ending s ((N.recv_datagram s.conn).1) (E.datagram_falls s.conn) h
          (λ s1 b. recv_datagrams-Ending m s1 (omega arith) (omega arith)))

  pub handle_event-Ending :
      (started now : ℕ) (e : Event) (s : Side N)
      → E.inbound s.conn ≤ n
      → Ending E n (λ k. handle_event D k started now e s)
  unfolding handle_event
  handle_event-Ending started now connected s h = on_connected-Ending E n started now s h
  handle_event-Ending started now (stream_opened bi) s h = on_opened-Ending now s h
  handle_event-Ending started now (stream_readable id) s h = on_readable-Ending now id s h
  handle_event-Ending started now datagram_received s h =
      recv_datagrams-Ending (suc (E.inbound s.conn)) s (omega arith) h
  handle_event-Ending started now (connection_lost reason) s h = on_lost-Ending E n now reason s h
  handle_event-Ending started now _ s h = at_once _ _ h
