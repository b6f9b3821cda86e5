-- ===== src/Endpoint/State/Quiescence.antt =====
-- `drain` comes to an end when the QUIC crate's event sources run dry.
use component_iroh.Prelude.{
  ℕ, ◌≡◌, ◌<◌, ◌≤◌, refl, true, List, [], ◌∷◌, none, some, Option-cases, inl, inr, arith,
}
use component_iroh.Relay.Frames.{Bytes}
use component_iroh.Endpoint.Noq.{
  Noq, Event, connected, stream_opened, connection_lost, Dir, bi, uni, Transmit,
}
use component_iroh.Endpoint.Wires.{Wires, push_transmit}
use component_iroh.Endpoint.State.{
  Run, ended, panicked, out_of_fuel, ConnEntry, Draining, State, admits, tls_peer, queue_stream,
  mismatch, on_connected, accept_stream_step, on_event, endpoint_events_step, events_step,
  transmits_step, turn, drain_entry, drain_all, drain,
}
use component_iroh.Endpoint.State.Drains.{Keeps, IsValid, drain-IsValid}
use component_iroh.Endpoint.State.Totality.{Total, Total->>=, Fell, while_progress-Total}

-- What the QUIC crate documents of its event sources: each is polled until it has nothing to report.
-- `work` bounds what a connection has still to report, its streams that wait to be accepted
-- included, whatever the endpoint answers and also when it is closed on its first event.
pub record Quiesces (N : Noq) : Type 0 where
  pub work : N.Conn → ℕ
  pub endpoint_none :
      (c : N.Conn)
      → (N.poll_endpoint_events c).1 ≡ none
      → work (N.poll_endpoint_events c).0 ≤ work c
  pub endpoint_unanswered :
      (c : N.Conn) (e : N.EndpointEvent)
      → (N.poll_endpoint_events c).1 ≡ some e
      → work (N.poll_endpoint_events c).0 < work c
  pub endpoint_answered :
      (c : N.Conn) (e : N.EndpointEvent) (handle : ℕ) (endpoint : N.Endpoint) (back : N.ConnEvent)
      → (N.poll_endpoint_events c).1 ≡ some e
      → (N.endpoint_event handle e endpoint).1 ≡ some back
      → work (N.conn_event back (N.poll_endpoint_events c).0) < work c
  pub poll_none : (c : N.Conn) → (N.poll c).1 ≡ none → work (N.poll c).0 ≤ work c
  pub poll_some : (c : N.Conn) (e : Event) → (N.poll c).1 ≡ some e → work (N.poll c).0 < work c
  pub poll_close :
      (c : N.Conn) (now : ℕ) (reason : Bytes)
      → (N.poll c).1 ≡ some connected
      → work (N.close now 1 reason (N.poll c).0) < work c
  pub transmit_none :
      (c : N.Conn) (now : ℕ)
      → (N.poll_transmit now c).1 ≡ none
      → work (N.poll_transmit now c).0 ≤ work c
  pub transmit_some :
      (c : N.Conn) (now : ℕ) (t : Transmit)
      → (N.poll_transmit now c).1 ≡ some t
      → work (N.poll_transmit now c).0 < work c
  pub accept_none :
      (c : N.Conn) (dir : Dir)
      → (N.streams_accept dir c).1 ≡ none
      → work (N.streams_accept dir c).0 ≤ work c
  pub accept_some :
      (c : N.Conn) (dir : Dir) (id : ℕ)
      → (N.streams_accept dir c).1 ≡ some id
      → work (N.streams_accept dir c).0 < work c

module _ (N : Noq) (L : Quiesces N) where
  open L use {work}

  abbrev entry_work : ConnEntry N → ℕ
  entry_work entry = work entry.conn

  accept_stream_step-Total :
      (dir : Dir) (entry : ConnEntry N)
      → Total (Fell entry_work (entry_work entry)) (accept_stream_step N dir entry)
  unfolding accept_stream_step
  accept_stream_step-Total dir entry = elim (Option-cases (N.streams_accept dir entry.conn).1) [
    | inl e ↦
        rw (e, accept_stream_step) (L.accept_none entry.conn dir e, λ q. absurd (ground arith))
    | inr (id, e) ↦ rw (e, accept_stream_step) (queued dir id _ (L.accept_some entry.conn dir id e))
  ]
    where
      queued :
          (dir' : Dir) (id : ℕ) (entry' : ConnEntry N)
          → entry_work entry' < entry_work entry
          → Fell entry_work (entry_work entry) (queue_stream N dir' id entry', true)
      queued bi id entry' l = (omega arith, λ q. l)
      queued uni id entry' l = (omega arith, λ q. l)

  -- After `poll` gave an event, its handling leaves less than there was.
  on_event-Total :
      (fuel now k : ℕ) (entry : ConnEntry N) (handle : ℕ) (event : Event) (queue : List ℕ)
      → k ≤ fuel
      → entry_work entry < k
      → (event ≡ connected → (reason : Bytes) → work (N.close now 1 reason entry.conn) < k)
      → Total (λ r. entry_work r.0 < k) (on_event N fuel now entry handle event queue)
  unfolding on_event on_connected mismatch
  on_event-Total fuel now k entry handle connected queue f l c =
      elim (Option-cases (admits (tls_peer N entry.conn) entry.expected_peer)) [
        | inl e ↦ rw (e, on_event, on_connected) (c refl _)
        | inr (id, e) ↦ rw (e, on_event, on_connected) l
      ]
  on_event-Total fuel now k entry handle (stream_opened _) queue f l c =
      Total->>= (Fell entry_work (entry_work entry)) (λ r. entry_work r.0 < k) _ _
        (while_progress-Total entry_work fuel _ (λ s b. accept_stream_step-Total bi s) fuel entry
          (omega arith) (omega arith))
        (λ r h.
          Total->>= (Fell entry_work (entry_work r.0)) (λ r'. entry_work r'.0 < k) _ _
            (while_progress-Total entry_work fuel _ (λ s b. accept_stream_step-Total uni s) fuel r.0
              (omega (arith, h.0)) (omega (arith, h.0)))
            (λ r' h'. omega (arith, h.0, h'.0)))
  on_event-Total fuel now k entry handle (connection_lost reason) queue f l c = l
  on_event-Total fuel now k entry handle _ queue f l c = l

  abbrev load : Draining N → ℕ
  load d = entry_work d.entry

  endpoint_events_step-Total :
      (handle : ℕ) (d : Draining N) → Total (Fell load (load d)) (endpoint_events_step N handle d)
  unfolding endpoint_events_step
  endpoint_events_step-Total handle d =
      elim (Option-cases (N.poll_endpoint_events d.entry.conn).1) [
        | inl e ↦
            rw (e, endpoint_events_step)
              (L.endpoint_none d.entry.conn e, λ q. absurd (ground arith))
        | inr (x, e) ↦ elim (Option-cases (N.endpoint_event handle x d.endpoint).1) [
          | inl b ↦
              let less = L.endpoint_unanswered d.entry.conn x e in
              rw (e, endpoint_events_step, b) (omega arith, λ q. less)
          | inr (back, b) ↦
              let less = L.endpoint_answered d.entry.conn x handle d.endpoint back e b in
              rw (e, endpoint_events_step, b) (omega arith, λ q. less)
        ]
      ]

  events_step-Total :
      (fuel now handle : ℕ) (d : Draining N)
      → load d < fuel
      → Total (Fell load (load d)) (events_step N fuel now handle d)
  unfolding events_step
  events_step-Total fuel now handle d l = elim (Option-cases (N.poll d.entry.conn).1) [
    | inl e ↦ rw (e, events_step) (L.poll_none d.entry.conn e, λ q. absurd (ground arith))
    | inr (x, e) ↦
        rw (e, events_step)
          (Total->>= (λ r. entry_work r.0 < load d) (Fell load (load d)) _ _
            (on_event-Total fuel now (load d) _ handle x _ (omega arith)
              (L.poll_some d.entry.conn x e)
              (λ is reason. L.poll_close d.entry.conn now reason (rw is at e)))
            (λ r h. (omega arith, λ q. h)))
  ]

  transmits_step-Total :
      (now : ℕ) (d : Draining N) → Total (Fell load (load d)) (transmits_step N now d)
  unfolding transmits_step
  transmits_step-Total now d = elim (Option-cases (N.poll_transmit now d.entry.conn).1) [
    | inl e ↦
        rw (e, transmits_step) (L.transmit_none d.entry.conn now e, λ q. absurd (ground arith))
    | inr (t, e) ↦
        let less = L.transmit_some d.entry.conn now t e in
        elim (Option-cases (push_transmit d.wires t.destination t.datagram)) [
          | inl p ↦ rw (e, transmits_step, p) tt
          | inr (w, p) ↦ rw (e, transmits_step, p) (omega arith, λ q. less)
        ]
  ]

  turn-Total :
      (fuel now handle : ℕ) (d : Draining N)
      → load d < fuel
      → Total (Fell load (load d)) (turn N fuel now handle d)
  unfolding turn
  turn-Total fuel now handle d l =
      Total->>= (Fell load (load d)) (Fell load (load d)) _ _
        (while_progress-Total load fuel _ (λ s b. endpoint_events_step-Total handle s) fuel d l l)
        (λ r1 h1.
          Total->>= (Fell load (load r1.0)) (Fell load (load d)) _ _
            (while_progress-Total load fuel _ (events_step-Total fuel now handle) fuel r1.0
              (omega (arith, h1.0)) (omega (arith, h1.0)))
            (λ r2 h2.
              Total->>= (Fell load (load r2.0)) (Fell load (load d)) _ _
                (while_progress-Total load fuel _ (λ s b. transmits_step-Total now s) fuel r2.0
                  (omega (arith, h1.0, h2.0)) (omega (arith, h1.0, h2.0)))
                (λ r3 h3. ground (arith, h1, h2, h3))))

  drain_entry-Total :
      (fuel now handle : ℕ) (d : Draining N)
      → load d < fuel
      → Total (λ d'. Unit {0}) (drain_entry N fuel now handle d)
  unfolding drain_entry
  drain_entry-Total fuel now handle d l =
      Total->>= (Fell load (load d)) (λ d'. Unit {0}) _ _
        (while_progress-Total load fuel _ (turn-Total fuel now handle) fuel d l l) (λ r h. tt)

  -- Every connection has less to report than the fuel.
  abbrev pub AllBelow : ℕ → List (ℕ × ConnEntry N) → Type 0
  AllBelow fuel [] = Unit
  AllBelow fuel ((handle, entry) ∷ conns) = (work entry.conn < fuel) × AllBelow fuel conns

  drain_all-Total :
      (fuel now : ℕ) (conns : List (ℕ × ConnEntry N)) (endpoint : N.Endpoint) (w : Wires)
      → AllBelow fuel conns
      → Total (λ r. Unit {0}) (drain_all N fuel now conns endpoint w)
  unfolding drain_all
  drain_all-Total fuel now [] endpoint w b = tt
  drain_all-Total fuel now ((handle, entry) ∷ conns) endpoint w b =
      Total->>= (λ d. Unit {0}) (λ r. Unit {0}) _ _ (drain_entry-Total fuel now handle _ b.0)
        (λ d h.
          Total->>= (λ r. Unit {0}) (λ r. Unit {0}) _ _
            (drain_all-Total fuel now conns d.endpoint d.wires b.1) (λ r k. tt))

  drain-Total :
      (fuel now : ℕ) (s : State N)
      → AllBelow fuel s.conns
      → Total (λ s'. Unit {0}) (drain N fuel now s)
  unfolding drain
  drain-Total fuel now s b =
      Total->>= (λ r. Unit {0}) (λ s'. Unit {0}) _ _
        (drain_all-Total fuel now s.conns s.noq s.wires b) (λ r h. tt)

  settled :
      (r : Run (State N))
      → Keeps (IsValid N) r
      → Total (λ s. Unit {0}) r
      → (s' : State N) × (r ≡ ended s') × IsValid N s'
  settled (ended s) v t = (s, refl, v)
  settled panicked v t = absurd v
  settled out_of_fuel v t = absurd t

  -- With a QUIC crate whose event sources run dry, and more fuel than any connection has to report,
  -- `drain` on a valid state ends, in a valid state: it neither panics nor loops for ever, also when
  -- it closes connections and accepts streams on its way.
  pub drain-ended :
      (fuel now : ℕ) (s : State N)
      → IsValid N s
      → AllBelow fuel s.conns
      → (s' : State N) × (drain N fuel now s ≡ ended s') × IsValid N s'
  drain-ended fuel now s v b = settled _ (drain-IsValid N fuel now s v) (drain-Total fuel now s b)
