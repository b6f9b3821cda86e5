-- ===== src/Guest/Turn.antt =====
-- A turn of the spike's loop (guest/src/endpoint.rs, `run`), up to its select: it drains the
-- connection and drives the application.
use component_iroh.Prelude.{
  ℕ, zero, suc, ◌-◌, Bool, true, false, ◌||◌, Option, none, some, codes, Text, ltb, leb,
}
use component_iroh.Endpoint.Noq.{Noq}
use component_iroh.Guest.{Wire}
use component_iroh.Guest.Task.{
  finished, failed, suspended, out_of_fuel, Task, and_then, ◌>>=◌, pure, gets, of_result,
}
use component_iroh.Guest.Line.{linger, run_deadline, Line, Pump, Busy, send}
use component_iroh.Guest.Side.{Report, Demo, Side, report}
use component_iroh.Guest.App.{handle_event, drive}

module _ {N : Noq} where
  -- Done, and lingered or drained.
  unfoldable pub is_over : (now : ℕ) → Side N → Bool
  is_over now s = elim s.app.done_at [
    | none ↦ false
    | some at ↦ leb linger (now - at) || N.is_drained s.conn
  ]

-- `fault n` is the error of the n-th send.
module _ {N : Noq} {W : Wire} (D : Demo N) (fault : ℕ → Option Text) where
  abbrev pub on_line : {A : Type 0} → Task (Line W) A → Task (Busy N W) A
  on_line m b = elim (m b.line) [
    | finished l a ↦ finished (record b { line = l }) a
    | failed l e ↦ failed (record b { line = l }) e
    | suspended l ↦ suspended (record b { line = l })
    | out_of_fuel ↦ out_of_fuel
  ]

  abbrev pub on_side : {A : Type 0} → Task (Side N) A → Task (Busy N W) A
  on_side m b = elim (m b.side) [
    | finished s a ↦ finished (record b { side = s }) a
    | failed s e ↦ failed (record b { side = s }) e
    | suspended s ↦ suspended (record b { side = s })
    | out_of_fuel ↦ out_of_fuel
  ]

  abbrev pub with_conn : N.Conn → Busy N W → Busy N W
  with_conn conn b = record b { side = record (b.side) { conn = conn } }

  -- The three loops of a round, each with whether it progressed.
  unfoldable pub endpoint_events : (fuel : ℕ) → ℕ → Task (Busy N W) Bool
  endpoint_events zero handle b = out_of_fuel
  endpoint_events (suc fuel) handle b =
      let (conn, event) = N.poll_endpoint_events b.side.conn in
      elim event [
        | none ↦ finished (with_conn conn b) false
        | some e ↦
            let (endpoint, back) = N.endpoint_event handle e b.endpoint in
            let conn' : N.Conn = elim back [ none ↦ conn | some x ↦ N.conn_event x conn ] in
            and_then
              (endpoint_events fuel handle (record (with_conn conn' b) { endpoint = endpoint }))
              (λ _. pure true)
      ]

  unfoldable pub app_events : (fuel : ℕ) → (started now : ℕ) → Task (Busy N W) Bool
  unfolding handle_event
  app_events zero started now b = out_of_fuel
  app_events (suc fuel) started now b =
      let (conn, event) = N.poll b.side.conn in
      elim event [
        | none ↦ finished (with_conn conn b) false
        | some e ↦
            and_then (on_side (handle_event D (suc fuel) started now e) (with_conn conn b))
              (λ _ b'. and_then (app_events fuel started now b') (λ _. pure true))
      ]

  unfoldable pub transmits : (fuel : ℕ) → (now : ℕ) → Task (Busy N W) Bool
  unfolding send
  transmits zero now b = out_of_fuel
  transmits (suc fuel) now b =
      let (conn, transmit) = N.poll_transmit now b.side.conn in
      elim transmit [
        | none ↦ finished (with_conn conn b) false
        | some t ↦
            and_then (on_line (send fault t.datagram) (with_conn conn b))
              (λ _ b'. and_then (transmits fuel now b') (λ _. pure true))
      ]

  unfoldable pub drain_round : (fuel : ℕ) → ℕ → (started now : ℕ) → Task (Busy N W) Bool
  unfolding ◌>>=◌ endpoint_events app_events transmits
  drain_round fuel handle started now = do
    a ← endpoint_events fuel handle
    b ← app_events fuel started now
    c ← transmits fuel now
    pure (a || (b || c))

  -- Rounds until one without progress.
  unfoldable pub drain : (rounds fuel : ℕ) → ℕ → (started now : ℕ) → Task (Busy N W) (Unit {0})
  unfolding drain_round
  drain zero fuel handle started now b = out_of_fuel
  drain (suc rounds) fuel handle started now b =
      and_then (drain_round fuel handle started now b) (λ progressed. elim progressed [
        | false ↦ pure tt
        | true ↦ drain rounds fuel handle started now
      ])

  unfoldable pub drive_round : (fuel : ℕ) → ℕ → (started now : ℕ) → Task (Busy N W) (Option Report)
  unfolding ◌>>=◌ drain drive is_over report
  drive_round fuel handle started now = do
    _ ← drain fuel fuel handle started now
    _ ← on_side (drive D now)
    side ← gets (λ (b : Busy N W). b.side)
    elim (is_over now side) [
      | false ↦ pure none
      | true ↦ do r ← of_result (report side.app); pure (some r)
    ]

  abbrev pub as_pump : ℕ → Busy N W → Pump N W → Pump N W
  as_pump handle b p = record p {
    endpoint = b.endpoint;
    connection = some (handle, b.side.conn);
    app = b.side.app;
    line = b.line;
  }

  abbrev pub on_busy : {A : Type 0} → ℕ → N.Conn → Task (Busy N W) A → Task (Pump N W) A
  on_busy handle conn m p =
      elim (m (record {
        endpoint = p.endpoint;
        side = record { app = p.app; conn = conn };
        line = p.line;
      })) [
        | finished b a ↦ finished (as_pump handle b p) a
        | failed b e ↦ failed (as_pump handle b p) e
        | suspended b ↦ suspended (as_pump handle b p)
        | out_of_fuel ↦ out_of_fuel
      ]

  -- A turn, up to the select; `some` ends the loop.
  unfoldable pub begin_turn : (fuel : ℕ) → (started now : ℕ) → Task (Pump N W) (Option Report)
  unfolding drive_round
  begin_turn fuel started now p = elim (ltb run_deadline (now - started)) [
    | true ↦ failed p (codes "run deadline exceeded")
    | false ↦ elim p.connection [
      | none ↦ finished p none
      | some (handle, conn) ↦ on_busy handle conn (drive_round fuel handle started now) p
    ]
  ]
