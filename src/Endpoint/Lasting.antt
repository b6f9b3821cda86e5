-- ===== src/Endpoint/Lasting.antt =====
-- Standins over the later states of an endpoint (`State` in endpoint/src/endpoint_impl.rs).
pub mod Keeping
use component_iroh.Prelude.{
  ℕ, ◌≡◌, refl, Bool, Bool-cases, ◌||◌, if◌then◌else◌, Option, Option-cases, Result, Result-cases,
  ok, err, none, some, [], ◌∷◌, List, inl, inr, Text, is_some, not, ◌&&◌, bytes_key, nat_key,
  lookup,
}
use component_iroh.Relay.Frames.{Bytes}
use component_iroh.Endpoint.Types.{SocketAddr, addr_key, Error, closed, normalize_relay_url}
use component_iroh.Endpoint.Noq.{Noq}
use component_iroh.Endpoint.Wires.{Peer, Wires, addr_for_peer, register_relay, is_closed_or_dead}
use component_iroh.Endpoint.Wires.Routing.{HasRoom, addr_for_peer-IsRouted}
use component_iroh.Endpoint.Wires.Steps.{Step, Step-IsRouted}
use component_iroh.Endpoint.Wires.Standins.{Step-keeps, addr_for_peer-known, addr_for_peer-recorded}
use component_iroh.Endpoint.State.{Run, ended, ConnEntry, State}
use component_iroh.Endpoint.State.Identity.{IsAuthentic, same_identity}
use component_iroh.Endpoint.State.Drains.{IsValid, Keeps, AllAuthentic}
use component_iroh.Endpoint.Inbound.{close_entry, close_all, shut}
use component_iroh.Endpoint.Inbound.Validity.{modify_all-AllAuthentic}
use component_iroh.Endpoint.Pump.{Armed, PumpEvent, Turn, stops, selects, on_pump_event, begin_turn}
use component_iroh.Endpoint.Pump.Validity.{TurnIsValid, on_pump_event-IsValid, begin_turn-IsValid}
use component_iroh.Endpoint.Dial.{claim_relay, finish_open, start_dial, accept_attempt}
use component_iroh.Endpoint.Dial.Standing.{start_dial-IsValid}
use component_iroh.Endpoint.Lasting.Keeping.{
  Known, TurnKnown, on_pump_event-Known, start_dial-Known, begin_turn-Known,
}

module _ (N : Noq) where
  -- The state that a turn comes to.
  abbrev pub turned : Turn N → State N
  turned (stops s r sent) = s
  turned (selects s r sent) = s

  -- A later state of an endpoint: the pump takes turns, with their flushes, and reacts to events; a dial
  -- claims and opens a relay and starts, an accept is tried, the endpoint is closed, and a task calls
  -- an operation on the wires. The calls of a connection or a stream change the connections alone.
  -- What numbers standins or channels does so while the u32 counters have room.
  pub data Later (s : State N) : State N → Type 0 where
    here : Later s s
    turns :
        (fuel linger now : ℕ) (has_udp : Bool) (fails : ℕ → Bytes → Bool) (a : Armed) {u : State N}
        {turn : Turn N}
        → Later s u
        → begin_turn N fuel linger now has_udp fails u a ≡ ended turn
        → Later s (turned turn)
    reacts :
        (now : ℕ) (event : PumpEvent) (a : Armed) {u : State N}
        → Later s u
        → HasRoom u.wires
        → Later s (on_pump_event N now event u a).1
    dials :
        (now : ℕ) (peer : Peer) (direct : Option SocketAddr) (dial_key : ℕ) (upgrade_key : Option ℕ)
        {u : State N}
        → Later s u
        → HasRoom u.wires
        → Later s (start_dial N now u peer direct dial_key upgrade_key).0
    claims :
        (url : Text) {u : State N}
        → Later s u
        → Later s (record u { wires = (claim_relay u.wires url).0 })
    opens :
        (url : Text) (opened : Result ℕ Text) {u : State N}
        → Later s u
        → Later s (record u { wires = (finish_open u.wires url opened).0 })
    accepts :
        {u : State N} {r : State N × Option (Result ℕ Error)}
        → Later s u
        → accept_attempt N u ≡ ended r
        → Later s (r.0)
    shuts : (now : ℕ) (reason : Bytes) {u : State N} → Later s u → Later s (shut N now reason u)
    calls :
        {u : State N} {w : Wires} → Later s u → Step u.wires w → Later s (record u { wires = w })
    changes :
        (conns : List (ℕ × ConnEntry N)) {u : State N}
        → Later s u
        → AllAuthentic N conns
        → Later s (record u { conns = conns })

  close_entry-IsAuthentic :
      (now : ℕ) (reason : Bytes) (entry : ConnEntry N)
      → IsAuthentic N entry
      → IsAuthentic N (close_entry N now reason entry)
  unfolding close_entry
  close_entry-IsAuthentic now reason entry v =
      elim (Bool-cases (not (is_some entry.error) && not entry.drained)) [
        | inl e ↦ rw (e, close_entry) (same_identity N entry _ refl refl refl v)
        | inr e ↦ rw (e, close_entry) v
      ]

  -- The state is valid and the standin of `p` is `a`.
  abbrev Holds : Peer → SocketAddr → State N → Type 0
  Holds p a s = IsValid N s × Known N p a s.wires

  shut-Holds :
      (now : ℕ) (reason : Bytes) (p : Peer) (a : SocketAddr) (s : State N)
      → Holds p a s
      → Holds p a (shut N now reason s)
  unfolding shut close_all
  shut-Holds now reason p a s (v, h) = elim (Bool-cases s.wires.is_closed) [
    | inl e ↦ simp e (record { tables_ok = v.tables_ok; authentic = v.authentic }, h)
    | inr e ↦ simp e (
      record {
        tables_ok = v.tables_ok;
        authentic =
            modify_all-AllAuthentic N (close_entry N now reason) s.conns
              (close_entry-IsAuthentic now reason) v.authentic;
      },
      h,
    )
  ]

  claim_relay-Holds :
      (url : Text) (p : Peer) (a : SocketAddr) (s : State N)
      → Holds p a s
      → Holds p a (record s { wires = (claim_relay s.wires url).0 })
  unfolding claim_relay
  claim_relay-Holds url p a s (v, h) =
      elim (Option-cases (lookup (normalize_relay_url url) s.wires.relay_keys)) [
        | inr (key, e) ↦ rw (e, claim_relay) (v, h)
        | inl e ↦ elim (Bool-cases (is_closed_or_dead s.wires)) [
          | inl b ↦ rw (e, b, claim_relay) (v, h)
          | inr b ↦
              rw (e, b, claim_relay)
                (record { tables_ok = v.tables_ok; authentic = v.authentic }, h)
        ]
      ]

  finish_open-Holds :
      (url : Text) (opened : Result ℕ Text) (p : Peer) (a : SocketAddr) (s : State N)
      → Holds p a s
      → Holds p a (record s { wires = (finish_open s.wires url opened).0 })
  unfolding finish_open register_relay
  finish_open-Holds url (ok conn) p a s (v, h) =
      (record { tables_ok = v.tables_ok; authentic = v.authentic }, h)
  finish_open-Holds url (err e) p a s (v, h) =
      (record { tables_ok = v.tables_ok; authentic = v.authentic }, h)

  accepted-Holds :
      (p : Peer) (a : SocketAddr) (s : State N) (queue : List ℕ)
      → Holds p a s
      → Keeps
          (λ (r : State N × Option (Result ℕ Error)). Holds p a (r.0))
          (elim queue [
            | handle ∷ rest ↦
                ended
                  (record s { wires = record (s.wires) { accept_queue = rest } }, some (ok handle))
            | [] ↦
                ended
                  (s, if is_some s.wires.dead || s.wires.is_closed then some (err closed) else none)
          ])
  accepted-Holds p a s [] h = h
  accepted-Holds p a s (handle ∷ rest) (v, h) =
      (record { tables_ok = v.tables_ok; authentic = v.authentic }, h)

  accept_attempt-Holds :
      (p : Peer) (a : SocketAddr) (s : State N)
      → Holds p a s
      → Keeps (λ r. Holds p a (r.0)) (accept_attempt N s)
  unfolding accept_attempt
  accept_attempt-Holds p a s h = accepted-Holds p a s s.wires.accept_queue h

  turn-Holds :
      (p : Peer) (a : SocketAddr) (t : Turn N)
      → TurnIsValid N t
      → TurnKnown N p a t
      → Holds p a (turned t)
  turn-Holds p a (stops s r sent) v h = (v.0, h)
  turn-Holds p a (selects s r sent) v h = (v.0, h)

  kept {ℓ} : {S : Type ℓ} (P : S → Type 0) (r : Run S) (s : S) → Keeps P r → r ≡ ended s → P s
  kept P r s k e = rw e at k

  Later-Holds : (p : Peer) (a : SocketAddr) {s t : State N} → Later s t → Holds p a s → Holds p a t
  Later-Holds p a here h = h
  Later-Holds p a (turns fuel linger now has_udp fails r {u = u} {turn = turn} l e) h =
      let (v, k) = Later-Holds p a l h in
      turn-Holds p a turn
        (kept (TurnIsValid N) _ turn (begin_turn-IsValid N fuel linger now has_udp fails u r v) e)
        (kept (TurnKnown N p a) _ turn
          (begin_turn-Known N p a fuel linger now has_udp fails u r v k) e)
  Later-Holds p a (reacts now event r {u = u} l room) h =
      let (v, k) = Later-Holds p a l h in
      (on_pump_event-IsValid N now event u r room v, on_pump_event-Known N p a now event u r k)
  Later-Holds p a (dials now peer direct dial_key upgrade_key {u = u} l room) h =
      let (v, k) = Later-Holds p a l h in
      (
        start_dial-IsValid N now u peer direct dial_key upgrade_key room v,
        start_dial-Known N p a now u peer direct dial_key upgrade_key k,
      )
  Later-Holds p a (claims url {u = u} l) h = claim_relay-Holds url p a u (Later-Holds p a l h)
  Later-Holds p a (opens url opened {u = u} l) h =
      finish_open-Holds url opened p a u (Later-Holds p a l h)
  Later-Holds p a (accepts {u = u} {r = r} l e) h =
      kept (λ r'. Holds p a (r'.0)) _ r (accept_attempt-Holds p a u (Later-Holds p a l h)) e
  Later-Holds p a (shuts now reason {u = u} l) h = shut-Holds now reason p a u (Later-Holds p a l h)
  Later-Holds p a (calls {u = u} l st) h =
      let (v, k) = Later-Holds p a l h in
      (
        record { tables_ok = Step-IsRouted st v.tables_ok; authentic = v.authentic },
        Step-keeps p a st k,
      )
  Later-Holds p a (changes conns l authentic) h =
      let (v, k) = Later-Holds p a l h in
      (record { tables_ok = v.tables_ok; authentic = authentic }, k)

  -- The state in which the standin of a peer has just been handed out.
  abbrev pub addressed : State N → Peer → ℕ → State N
  addressed s peer via = record s { wires = (addr_for_peer s.wires peer via).0 }

  -- A peer's standin is stable: once it is handed out, in a valid state with room, the same address is
  -- handed out, whichever relay is named, after whatever turns and events of the pump, dials, accepts,
  -- opens of relays, calls on the wires, changes of connections and closing, as long as what numbers
  -- standins or channels has room; and that call changes nothing.
  pub standin_lasts :
      (s t : State N) (peer : Peer) (via via' : ℕ)
      → IsValid N s
      → HasRoom s.wires
      → Later (addressed s peer via) t
      → addr_for_peer t.wires peer via' ≡ (t.wires, (addr_for_peer s.wires peer via).1)
  standin_lasts s t peer via via' v room l =
      let a = (addr_for_peer s.wires peer via).1 in
      let valid : IsValid N (addressed s peer via) = record {
        tables_ok = addr_for_peer-IsRouted s.wires v.tables_ok peer via room.0;
        authentic = v.authentic;
      } in
      addr_for_peer-known t.wires peer via' a
        (Later-Holds peer a l (valid, addr_for_peer-recorded s.wires peer via)).1
