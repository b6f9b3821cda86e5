-- ===== src/Guest/Ebbing.antt =====
-- The demo's application comes to the end of each event (guest/src/endpoint.rs, `App`), if what its
-- connection has for it runs out.
pub mod Sending
pub mod Taking
use component_iroh.Prelude.{
  ℕ, zero, suc, ◌≤◌, ◌<◌, ◌≡◌, refl, ap, inl, inr, Bool, true, false, ◌++◌, Option, Option-cases,
  none, some, Bool-cases, map_err, ok_or, Result, ok, err, codes, Text, ◌==◌, length, arith, eq?,
  bytes_key, if◌then◌else◌,
}
use component_iroh.Relay.Frames.{Bytes}
use component_iroh.Endpoint.Noq.{
  Noq, Event, connected, stream_opened, stream_readable, datagram_received, connection_lost,
  LostReason, Transmit, bi,
}
use component_iroh.Guest.{peer_endpoint_id}
use component_iroh.Guest.Task.{
  Outcome, finished, failed, out_of_fuel, Task, ◌>>=◌, and_then, of_result, pure, fail, gets,
}
use component_iroh.Guest.Settling.{Settles, at_once, result-Settles, later, and_then-Settles}
use component_iroh.Guest.Side.{
  Role, client, server, datagram_copies, fin, blocked, broken, chunk, NextChunk, NextChunk-cases,
  Demo, Side, App, labelled, elapsed_ms, on_conn, on_app,
}
use component_iroh.Guest.App.{
  send_whole, send_copies, start_demo, on_connected, read_chunks, complete, read_stream, on_opened,
  on_datagram, recv_datagrams, is_happy_end, on_lost, on_readable, handle_event,
}

-- What a poll leaves, by what it has: less to come, or no more than before.
abbrev pub Falls : {C A : Type 0} → (inbound outbound : C → ℕ) → C → C × Option A → Type 0
Falls inbound outbound c (c', some a) = inbound c' < inbound c
Falls inbound outbound c (c', none) = (inbound c' ≤ inbound c) × (outbound c' ≤ outbound c)

-- A transmit leaves less to go out, and brings nothing in.
abbrev pub Sends : {C A : Type 0} → (inbound outbound : C → ℕ) → C → C × Option A → Type 0
Sends inbound outbound c (c', some a) = (inbound c' ≤ inbound c) × (outbound c' < outbound c)
Sends inbound outbound c (c', none) = (inbound c' ≤ inbound c) × (outbound c' ≤ outbound c)

-- A call of a stream or a datagram brings nothing in.
abbrev pub Quiet : {C A : Type 0} → (C → ℕ) → (C → C × A) → Type 0
Quiet {C} inbound f = (c : C) → inbound ((f c).0) ≤ inbound c

-- What is to come in and to go out of a connection is bounded. What comes in is taken by the polls,
-- the reads and the datagrams received; what goes out, by the transmits.
pub record Ebbs {N : Noq} (D : Demo N) : Type 0 where
  pub inbound : N.Conn → ℕ
  pub outbound : N.Conn → ℕ
  pub poll_falls : (c : N.Conn) → Falls inbound outbound c (N.poll c)
  pub event_falls :
      (handle : ℕ) (c : N.Conn) (e : N.EndpointEvent) (endpoint : N.Endpoint)
      → (N.poll_endpoint_events c).1 ≡ some e
      → inbound (elim ((N.endpoint_event handle e endpoint).1) [
        | none ↦ (N.poll_endpoint_events c).0
        | some x ↦ N.conn_event x ((N.poll_endpoint_events c).0)
      ])
        < inbound c
  pub no_event_falls :
      (c : N.Conn)
      → (N.poll_endpoint_events c).1 ≡ none
      → (inbound ((N.poll_endpoint_events c).0) ≤ inbound c)
        × (outbound ((N.poll_endpoint_events c).0) ≤ outbound c)
  pub transmit_falls : (now : ℕ) (c : N.Conn) → Sends inbound outbound c (N.poll_transmit now c)
  pub chunk_falls :
      (id : ℕ) (c : N.Conn) (bytes : Bytes)
      → (D.chunks_next id c).1 ≡ chunk bytes
      → inbound ((D.chunks_next id c).0) < inbound c
  pub chunk_keeps : (id : ℕ) → Quiet inbound (D.chunks_next id)
  pub datagram_falls : (c : N.Conn) → Falls inbound outbound c (N.recv_datagram c)
  pub open_keeps : Quiet inbound (N.streams_open bi)
  pub accept_keeps : Quiet inbound (N.streams_accept bi)
  pub write_keeps : (id : ℕ) (bytes : Bytes) → Quiet inbound (N.write id bytes)
  pub finish_keeps : (id : ℕ) → Quiet inbound (N.finish id)
  pub send_keeps : (bytes : Bytes) → Quiet inbound (N.send_datagram bytes)
  pub chunks_keep : (id : ℕ) → Quiet inbound (D.chunks_open id)
  pub finalize_keeps : (id : ℕ) (c : N.Conn) → inbound (D.chunks_finalize id c) ≤ inbound c

-- The state after a call of the connection.
abbrev pub past : {N : Noq} {A : Type 0} → (N.Conn → N.Conn × A) → Side N → Side N
past f s = record s { conn = (f s.conn).0 }

module _ {N : Noq} {D : Demo N} (E : Ebbs D) (n : ℕ) where
  -- No more than `n` is to come.
  abbrev pub Low : {A : Type 0} → Side N → A → Type 0
  Low s a = E.inbound s.conn ≤ n

  -- With enough fuel the call ends, and brings nothing in.
  abbrev pub Ending : {A : Type 0} → (ℕ → Outcome (Side N) A) → Type 0
  Ending {A} run = Settles false (Low {A = A}) run

  pub low :
      {A : Type 0} (f : N.Conn → N.Conn × A) (c : N.Conn)
      → Quiet E.inbound f
      → E.inbound c ≤ n
      → E.inbound ((f c).0) ≤ n
  low f c q h = omega (arith, q c)

  pub checked :
      {A : Type 0} (r : Result A Text) (s : Side N)
      → E.inbound s.conn ≤ n
      → Ending (λ k. of_result r s)
  checked r s h = result-Settles _ r s (λ a. h)

  pub on :
      {A B : Type 0} (m : ℕ → Outcome (Side N) A) (f : ℕ → A → Task (Side N) B)
      → Ending m
      → ((s : Side N) (a : A) → E.inbound s.conn ≤ n → Ending (λ k. f k a s))
      → Ending (λ k. and_then (m k) (f k))
  on m f k g = and_then-Settles _ _ m f k g

  pub by_role-Ending :
      {A : Type 0} (role : Role) (f : ℕ → Bytes → Task (Side N) A) (g : ℕ → Task (Side N) A)
      (s : Side N)
      → ((message : Bytes) → Ending (λ k. f k message s))
      → Ending (λ k. g k s)
      → Ending (λ k.
        (elim role as (λ _. Task (Side N) A) [ server ↦ g k | client message ↦ f k message ]) s)
  by_role-Ending (client message) f g s a b = a message
  by_role-Ending server f g s a b = b
