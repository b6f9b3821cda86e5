-- ===== src/Guest/Draining.antt =====
-- A turn of the spike's loop keeps what its application has noted sound (guest/src/endpoint.rs).
use component_iroh.Prelude.{ℕ, zero, suc, inl, inr, Bool, true, false, Option, Option-cases, Text}
use component_iroh.Endpoint.Noq.{Noq}
use component_iroh.Guest.{Wire}
use component_iroh.Guest.Task.{
  Outcome, finished, failed, suspended, out_of_fuel, Task, Post, and_then-Post, pure,
}
use component_iroh.Guest.Side.{Role, Demo, Side}
use component_iroh.Guest.App.{handle_event}
use component_iroh.Guest.Line.{Line, Busy, send}
use component_iroh.Guest.Turn.{endpoint_events, app_events, transmits, drain_round, drain, on_side}
use component_iroh.Guest.Keeping.{Keeps, Leaves}
use component_iroh.Guest.Exchange.{IsSound}
use component_iroh.Guest.Exchange.Events.{handle_event-Keeps}

module _ {N : Noq} {W : Wire} (D : Demo N) (fault : ℕ → Option Text) (role : Role) where
  abbrev pub Held : {A : Type 0} → Busy N W → A → Type 0
  Held b a = IsSound N role b.side.app

  pub on_side-Held :
      {A : Type 0} (m : Task (Side N) A) (b : Busy N W)
      → Keeps (IsSound N role) m
      → IsSound N role b.side.app
      → Post Held (on_side D fault m b)
  on_side-Held m b k v = go (m b.side) (k.keeps b.side v)
    where
      go :
          {A : Type 0} (o : Outcome (Side N) A)
          → Post (Leaves (IsSound N role)) o
          → Post Held (elim o as (λ _. Outcome (Busy N W) A) [
            | finished s a ↦ finished (record b { side = s }) a
            | failed s e ↦ failed (record b { side = s }) e
            | suspended s ↦ suspended (record b { side = s })
            | out_of_fuel ↦ out_of_fuel
          ])
      go (finished s a) q = q
      go (failed s e) q = tt
      go (suspended s) q = tt
      go out_of_fuel q = tt

  on_line-Held :
      {A : Type 0} (b : Busy N W) (o : Outcome (Line W) A)
      → IsSound N role b.side.app
      → Post Held (elim o as (λ _. Outcome (Busy N W) A) [
        | finished l a ↦ finished (record b { line = l }) a
        | failed l e ↦ failed (record b { line = l }) e
        | suspended l ↦ suspended (record b { line = l })
        | out_of_fuel ↦ out_of_fuel
      ])
  on_line-Held b (finished l a) v = v
  on_line-Held b (failed l e) v = tt
  on_line-Held b (suspended l) v = tt
  on_line-Held b out_of_fuel v = tt

  endpoint_events-Held :
      (fuel : ℕ) (handle : ℕ) (b : Busy N W)
      → IsSound N role b.side.app
      → Post Held (endpoint_events D fault fuel handle b)
  unfolding endpoint_events
  endpoint_events-Held zero handle b v = tt
  endpoint_events-Held (suc fuel) handle b v =
      elim (Option-cases (N.poll_endpoint_events b.side.conn).1) [
        | inl e ↦ rw (e, endpoint_events) v
        | inr (x, e) ↦
            rw (e, endpoint_events)
              (and_then-Post Held Held _ _ (endpoint_events-Held fuel handle _ v) (λ t _ w. w))
      ]

  app_events-Held :
      (fuel : ℕ) (started now : ℕ) (b : Busy N W)
      → IsSound N role b.side.app
      → Post Held (app_events D fault fuel started now b)
  unfolding app_events
  app_events-Held zero started now b v = tt
  app_events-Held (suc fuel) started now b v = elim (Option-cases (N.poll b.side.conn).1) [
    | inl e ↦ rw (e, app_events) v
    | inr (x, e) ↦
        rw (e, app_events)
          (and_then-Post Held Held _ _
            (on_side-Held (handle_event D (suc fuel) started now x) _
              (handle_event-Keeps D role (suc fuel) started now x) v)
            (λ t _ w.
              and_then-Post Held Held _ _ (app_events-Held fuel started now t w) (λ u _ z. z)))
  ]

  transmits-Held :
      (fuel : ℕ) (now : ℕ) (b : Busy N W)
      → IsSound N role b.side.app
      → Post Held (transmits D fault fuel now b)
  unfolding transmits
  transmits-Held zero now b v = tt
  transmits-Held (suc fuel) now b v = elim (Option-cases (N.poll_transmit now b.side.conn).1) [
    | inl e ↦ rw (e, transmits) v
    | inr (x, e) ↦
        rw (e, transmits)
          (and_then-Post Held Held _ _
            (on_line-Held
              (record b { side = record (b.side) { conn = (N.poll_transmit now b.side.conn).0 } })
              (send fault x.datagram b.line) v)
            (λ t _ w. and_then-Post Held Held _ _ (transmits-Held fuel now t w) (λ u _ z. z)))
  ]

  drain_round-Held :
      (fuel : ℕ) (handle : ℕ) (started now : ℕ) (b : Busy N W)
      → IsSound N role b.side.app
      → Post Held (drain_round D fault fuel handle started now b)
  unfolding drain_round
  drain_round-Held fuel handle started now b v =
      and_then-Post Held Held _ _ (endpoint_events-Held fuel handle b v) (λ t _ w.
        and_then-Post Held Held _ _ (app_events-Held fuel started now t w)
          (λ u _ z. and_then-Post Held Held _ _ (transmits-Held fuel now u z) (λ _ _ y. y)))

  after_round-Held :
      (rest : Task (Busy N W) (Unit {0})) (progressed : Bool) (t : Busy N W)
      → ((u : Busy N W) → IsSound N role u.side.app → Post Held (rest u))
      → IsSound N role t.side.app
      → Post Held
          (elim progressed as (λ _. Task (Busy N W) (Unit {0})) [ false ↦ pure tt | true ↦ rest ] t)
  after_round-Held rest false t h w = w
  after_round-Held rest true t h w = h t w

  pub drain-Held :
      (rounds fuel : ℕ) (handle : ℕ) (started now : ℕ) (b : Busy N W)
      → IsSound N role b.side.app
      → Post Held (drain D fault rounds fuel handle started now b)
  unfolding drain
  drain-Held zero fuel handle started now b v = tt
  drain-Held (suc rounds) fuel handle started now b v =
      and_then-Post Held Held _ _ (drain_round-Held fuel handle started now b v) (λ t progressed w.
        after_round-Held (drain D fault rounds fuel handle started now) progressed t
          (λ u z. drain-Held rounds fuel handle started now u z) w)
