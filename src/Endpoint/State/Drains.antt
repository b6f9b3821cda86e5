-- ===== src/Endpoint/State/Drains.antt =====
-- `drain` never panics, and keeps the routing tables and the authenticity of every connection.
use component_iroh.Prelude.{
  ℕ, zero, suc, ◌≡◌, refl, Bool, true, false, List, [], ◌∷◌, Option-cases, some, inl, inr, ◌⊎◌,
}
use component_iroh.Endpoint.Noq.{
  Noq, Event, connected, stream_opened, connection_lost, Dir, bi, uni,
}
use component_iroh.Relay.Frames.{Bytes}
use component_iroh.Endpoint.Types.{SocketAddr}
use component_iroh.Endpoint.Wires.{Wires, push_transmit}
use component_iroh.Endpoint.Wires.Routing.{IsRouted}
use component_iroh.Endpoint.Wires.Steps.{same_tables, push_transmit-tables}
use component_iroh.Endpoint.Wires.Delivery.{push_transmit-total}
use component_iroh.Endpoint.State.{
  Run, ◌>>=◌, ended, panicked, out_of_fuel, while_progress, ConnEntry, Draining, State,
  queue_stream, accept_stream_step, on_event, endpoint_events_step, events_step, transmits_step,
  turn, drain_entry, drain_all, drain,
}
use component_iroh.Endpoint.State.Identity.{IsAuthentic, same_identity, on_connected-IsAuthentic}

-- No panic, and the property holds of what a run ends with.
abbrev pub Keeps {ℓ} : {S : Type ℓ} → (S → Type 0) → Run S → Type 0
Keeps P (ended s) = P s
Keeps P panicked = ⊥
Keeps P out_of_fuel = Unit

abbrev pub First {ℓ κ} : {S : Type ℓ} {T : Type κ} → (S → Type 0) → S × T → Type 0
First P r = P r.0

pub Keeps->>= {ℓ κ} :
    {A : Type ℓ} {B : Type κ} (P : A → Type 0) (Q : B → Type 0) (m : Run A) (f : A → Run B)
    → Keeps P m
    → ((a : A) → P a → Keeps Q (f a))
    → Keeps Q (m >>= f)
Keeps->>= P Q (ended a) f h g = g a h
Keeps->>= P Q panicked f h g = absurd h
Keeps->>= P Q out_of_fuel f h g = tt

pub Keeps-map {ℓ} :
    {S : Type ℓ} (P Q : S → Type 0) (m : Run S) → ((s : S) → P s → Q s) → Keeps P m → Keeps Q m
Keeps-map P Q (ended s) f h = f s h
Keeps-map P Q panicked f h = h
Keeps-map P Q out_of_fuel f h = tt

pub Run-cases {ℓ} :
    {S : Type ℓ} (r : Run (S × Bool))
    → (r ≡ panicked)
      ⊎ ((r ≡ out_of_fuel)
          ⊎ (((s : S) × (r ≡ ended (s, false))) ⊎ ((s : S) × (r ≡ ended (s, true)))))
Run-cases panicked = inl refl
Run-cases out_of_fuel = inr (inl refl)
Run-cases (ended (s, false)) = inr (inr (inl (s, refl)))
Run-cases (ended (s, true)) = inr (inr (inr (s, refl)))

flagged {ℓ} :
    {S : Type ℓ} (P : S → Type 0) (r : Run (S × Bool))
    → Keeps (First P) r
    → Keeps (First P) (elim r [
      | panicked ↦ panicked
      | out_of_fuel ↦ out_of_fuel
      | ended (s, _) ↦ ended (s, true)
    ])
flagged P (ended (s, b)) h = h
flagged P panicked h = h
flagged P out_of_fuel h = tt

module _ {ℓ} {S : Type ℓ} (P : S → Type 0) (step : S → Run (S × Bool))
    (keep : (s : S) → P s → Keeps (First P) (step s)) where
  while_progress-Keeps : (fuel : ℕ) (s : S) → P s → Keeps (First P) (while_progress fuel step s)
  unfolding while_progress
  while_progress-Keeps zero s h = tt
  while_progress-Keeps (suc fuel) s h = elim (Run-cases (step s)) [
    | inl e ↦ absurd (rw e at (keep s h))
    | inr (inl e) ↦ rw (e, while_progress) tt
    | inr (inr (inl (s', e))) ↦ rw (e, while_progress) (rw e at (keep s h))
    | inr (inr (inr (s', e))) ↦
        rw (e, while_progress) (flagged P _ (while_progress-Keeps fuel s' (rw e at (keep s h))))
  ]

module _ (N : Noq) where
  queue_stream-IsAuthentic :
      (dir : Dir) (id : ℕ) (entry : ConnEntry N)
      → IsAuthentic N entry
      → IsAuthentic N (queue_stream N dir id entry)
  unfolding queue_stream
  queue_stream-IsAuthentic bi id entry v = same_identity N entry _ refl refl refl v
  queue_stream-IsAuthentic uni id entry v = same_identity N entry _ refl refl refl v

  accept_stream_step-Keeps :
      (dir : Dir) (entry : ConnEntry N)
      → IsAuthentic N entry
      → Keeps (First (IsAuthentic N)) (accept_stream_step N dir entry)
  unfolding accept_stream_step
  accept_stream_step-Keeps dir entry v = elim (Option-cases (N.streams_accept dir entry.conn).1) [
    | inl e ↦ rw (e, accept_stream_step) (same_identity N entry _ refl refl refl v)
    | inr (id, e) ↦
        rw (e, accept_stream_step)
          (same_identity N _ _ refl refl refl
            (queue_stream-IsAuthentic dir id _ (same_identity N entry _ refl refl refl v)))
  ]

  on_event-Keeps :
      (fuel now : ℕ) (entry : ConnEntry N) (handle : ℕ) (event : Event) (queue : List ℕ)
      → IsAuthentic N entry
      → Keeps (First (IsAuthentic N)) (on_event N fuel now entry handle event queue)
  unfolding on_event
  on_event-Keeps fuel now entry handle connected queue v =
      on_connected-IsAuthentic N now entry handle queue v
  on_event-Keeps fuel now entry handle (stream_opened _) queue v =
      Keeps->>= (First (IsAuthentic N)) (First (IsAuthentic N)) _ _
        (while_progress-Keeps (IsAuthentic N) _ (accept_stream_step-Keeps bi) fuel entry v)
        (λ r h.
          Keeps->>= (First (IsAuthentic N)) (First (IsAuthentic N)) _ _
            (while_progress-Keeps (IsAuthentic N) _ (accept_stream_step-Keeps uni) fuel r.0 h)
            (λ r' h'. h'))
  on_event-Keeps fuel now entry handle (connection_lost reason) queue v =
      same_identity N entry _ refl refl refl v
  on_event-Keeps fuel now entry handle _ queue v = v

  abbrev pub AllAuthentic : List (ℕ × ConnEntry N) → Type 0
  AllAuthentic [] = Unit
  AllAuthentic ((handle, entry) ∷ conns) = IsAuthentic N entry × AllAuthentic conns

-- A property of the wires that makes the tables consistent, and that queues keep.
module _ (N : Noq) (R : Wires → Type 0) (routed : (w : Wires) → R w → IsRouted w)
    (queues : (w : Wires) (queue : List ℕ) → R w → R (record w { accept_queue = queue }))
    (sends : (w : Wires) (destination : SocketAddr) (datagram : Bytes) (w' : Wires)
      → push_transmit w destination datagram ≡ some w'
      → R w
      → R w') where
  -- What the drain loop keeps.
  abbrev IsSound : Draining N → Type 0
  IsSound d = R d.wires × IsAuthentic N d.entry

  endpoint_events_step-Keeps :
      (handle : ℕ) (d : Draining N)
      → IsSound d
      → Keeps (First IsSound) (endpoint_events_step N handle d)
  unfolding endpoint_events_step
  endpoint_events_step-Keeps handle d v =
      elim (Option-cases (N.poll_endpoint_events d.entry.conn).1) [
        | inl e ↦ rw (e, endpoint_events_step) (v.0, same_identity N d.entry _ refl refl refl v.1)
        | inr (x, e) ↦
            rw (e, endpoint_events_step) (v.0, same_identity N d.entry _ refl refl refl v.1)
      ]

  events_step-Keeps :
      (fuel now handle : ℕ) (d : Draining N)
      → IsSound d
      → Keeps (First IsSound) (events_step N fuel now handle d)
  unfolding events_step
  events_step-Keeps fuel now handle d v = elim (Option-cases (N.poll d.entry.conn).1) [
    | inl e ↦ rw (e, events_step) (v.0, same_identity N d.entry _ refl refl refl v.1)
    | inr (x, e) ↦
        rw (e, events_step)
          (Keeps->>= (First (IsAuthentic N)) (First IsSound) _ _
            (on_event-Keeps N fuel now _ handle x _ (same_identity N d.entry _ refl refl refl v.1))
            (λ r h. (queues d.wires r.1 v.0, h)))
  ]

  transmits_step-Keeps :
      (now : ℕ) (d : Draining N) → IsSound d → Keeps (First IsSound) (transmits_step N now d)
  unfolding transmits_step
  transmits_step-Keeps now d v = elim (Option-cases (N.poll_transmit now d.entry.conn).1) [
    | inl e ↦ rw (e, transmits_step) (v.0, same_identity N d.entry _ refl refl refl v.1)
    | inr (t, e) ↦
        let (w', sent) =
          push_transmit-total d.wires t.destination t.datagram (routed d.wires v.0) in
        rw (e, transmits_step, sent)
          (
            sends d.wires t.destination t.datagram w' sent v.0,
            same_identity N d.entry _ refl refl refl v.1,
          )
  ]

  turn-Keeps :
      (fuel now handle : ℕ) (d : Draining N)
      → IsSound d
      → Keeps (First IsSound) (turn N fuel now handle d)
  unfolding turn
  turn-Keeps fuel now handle d v =
      Keeps->>= (First IsSound) (First IsSound) _ _
        (while_progress-Keeps IsSound _ (endpoint_events_step-Keeps handle) fuel d v)
        (λ r1 h1.
          Keeps->>= (First IsSound) (First IsSound) _ _
            (while_progress-Keeps IsSound _ (events_step-Keeps fuel now handle) fuel r1.0 h1)
            (λ r2 h2.
              Keeps->>= (First IsSound) (First IsSound) _ _
                (while_progress-Keeps IsSound _ (transmits_step-Keeps now) fuel r2.0 h2)
                (λ r3 h3. h3)))

  drain_entry-Keeps :
      (fuel now handle : ℕ) (d : Draining N)
      → IsSound d
      → Keeps IsSound (drain_entry N fuel now handle d)
  unfolding drain_entry
  drain_entry-Keeps fuel now handle d v =
      Keeps->>= (First IsSound) IsSound _ _
        (while_progress-Keeps IsSound _ (turn-Keeps fuel now handle) fuel d v)
        (λ r h. (h.0, same_identity N r.0.entry _ refl refl refl h.1))

  drain_all-Keeps :
      (fuel now : ℕ) (conns : List (ℕ × ConnEntry N)) (endpoint : N.Endpoint) (w : Wires)
      → AllAuthentic N conns
      → R w
      → Keeps (λ r. AllAuthentic N r.0 × R r.2) (drain_all N fuel now conns endpoint w)
  unfolding drain_all
  drain_all-Keeps fuel now [] endpoint w a v = (tt, v)
  drain_all-Keeps fuel now ((handle, entry) ∷ conns) endpoint w a v =
      Keeps->>= IsSound (λ r. AllAuthentic N r.0 × R r.2) _ _
        (drain_entry-Keeps fuel now handle _ (v, a.0))
        (λ d h.
          Keeps->>= (λ r. AllAuthentic N r.0 × R r.2) (λ r. AllAuthentic N r.0 × R r.2) _ _
            (drain_all-Keeps fuel now conns d.endpoint d.wires a.1 h.0) (λ r k. ((h.1, k.0), k.1)))

  pub drain-Keeps :
      (fuel now : ℕ) (s : State N)
      → AllAuthentic N s.conns
      → R s.wires
      → Keeps (λ (s' : State N). AllAuthentic N s'.conns × R s'.wires) (drain N fuel now s)
  unfolding drain
  drain-Keeps fuel now s a v =
      Keeps->>= (λ r. AllAuthentic N r.0 × R r.2)
        (λ (s' : State N). AllAuthentic N s'.conns × R s'.wires) _ _
        (drain_all-Keeps fuel now s.conns s.noq s.wires a v) (λ r h. h)

module _ (N : Noq) where
  pub record IsValid (s : State N) : Type 0 where
    pub tables_ok : IsRouted s.wires
    pub authentic : AllAuthentic N s.conns

  -- Whatever the QUIC crate does, and however long its loops run: on a valid state `drain` does not
  -- panic (every relay-routed destination has its peer), and a state that it ends with is valid: the
  -- tables are consistent, and every connection that is up is named by the identity that it must
  -- have.
  pub drain-IsValid : (fuel now : ℕ) (s : State N) → IsValid s → Keeps IsValid (drain N fuel now s)
  drain-IsValid fuel now s v =
      Keeps-map _ IsValid _ (λ s' h. record { tables_ok = h.1; authentic = h.0 })
        (drain-Keeps N IsRouted (λ w h. h) (λ w queue h. h)
          (λ w destination datagram w' sent h.
            same_tables (push_transmit-tables w destination datagram w' sent) h)
          fuel now s v.authentic v.tables_ok)
