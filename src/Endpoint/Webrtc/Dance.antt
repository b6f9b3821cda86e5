-- ===== src/Endpoint/Webrtc/Dance.antt =====
-- A task that waits (endpoint/src/webrtc.rs): what it does between two awaits it does at once, and at
-- an await the others have their turn. Here are the waits for the peer's signals.
use component_iroh.Prelude.{
  ℕ, ◌*◌, ◌-◌, Bool, List, [], ◌∷◌, ◌++◌, Option, none, some, Result, ok, err, map_err, bytes_key,
  lookup, insert, codes, Text, ltb, if◌then◌else◌,
}
use component_iroh.Relay.Frames.{Bytes}
use component_iroh.Endpoint.Types.{Error, closed, connect_failed}
use component_iroh.Endpoint.Wires.{Peer, Wires, is_closed_or_dead}
use component_iroh.Endpoint.Webrtc.{
  Candidate, Signal, offer, answer, local_candidate, end_of_candidates, done, Json, next_attempt,
}

-- The clock, the shared wires, and what the others do to both at the awaits to come.
pub record Session : Type 0 where
  pub now : ℕ
  pub wires : Wires
  pub others : List (ℕ × Wires → ℕ × Wires)

-- A task that has not finished when the list of the others' turns ends is suspended.
pub data Outcome {ℓ} (A : Type ℓ) : Type ℓ where
  finished : Session → Result A Error → Outcome A
  suspended : Wires → Outcome A

abbrev pub Dance {ℓ} : Type ℓ → Type ℓ
Dance A = Session → Outcome A

infixl 5 ◌>>=◌
unfoldable pub ◌>>=◌ {ℓ κ} : {A : Type ℓ} {B : Type κ} → Dance A → (A → Dance B) → Dance B
(m >>= f) s = elim (m s) [
  | suspended w ↦ suspended w
  | finished s' (err e) ↦ finished s' (err e)
  | finished s' (ok a) ↦ f a s'
]

abbrev pub pure {ℓ} : {A : Type ℓ} → A → Dance A
pure a s = finished s (ok a)

abbrev pub fail {ℓ} : {A : Type ℓ} → Error → Dance A
fail e s = finished s (err e)

abbrev pub resumed : (ℕ × Wires → ℕ × Wires) → List (ℕ × Wires → ℕ × Wires) → Session → Session
resumed turn others s =
    let p = turn (s.now, s.wires) in record { now = p.0; wires = p.1; others = others }

unfoldable pub resume : List (ℕ × Wires → ℕ × Wires) → Dance (Unit {0})
resume [] s = suspended s.wires
resume (turn ∷ others) s = finished (resumed turn others s) (ok tt)

abbrev pub awaited : Dance (Unit {0})
awaited s = resume s.others s

abbrev pub rtc : Text → Error
rtc e = connect_failed (codes "webrtc: " ++ e)

-- A call of the peer connection, without and with an await.
abbrev pub host_call {ℓ} : {A : Type ℓ} → Result A Text → Dance A
host_call r s = finished s (map_err rtc r)

abbrev pub async_call {ℓ} : {A : Type ℓ} → Result A Text → Dance A
async_call r = awaited >>= (λ _. host_call r)

abbrev pub on_wires {ℓ} : {A : Type ℓ} → (Wires → Wires × Result A Error) → Dance A
on_wires f s = let (w, r) = f s.wires in finished (record s { wires = w }) r

-- In nanoseconds.
abbrev pub signal_deadline : ℕ
signal_deadline = 30 * 1000000000

-- `started.elapsed() > SIGNAL_DEADLINE`.
unfoldable pub is_expired : (started now : ℕ) → Bool
is_expired started now = ltb signal_deadline (now - started)

unfoldable pub next_signal_loop :
    Json → Peer → (started : ℕ) → List (ℕ × Wires → ℕ × Wires) → Dance (Option Signal)
unfolding next_attempt is_expired
next_signal_loop codec peer started [] s =
    let (w, result) = next_attempt codec peer (is_expired started s.now) s.wires in
    elim result [ none ↦ suspended w | some r ↦ finished (record s { wires = w; others = [] }) r ]
next_signal_loop codec peer started (turn ∷ others) s =
    let (w, result) = next_attempt codec peer (is_expired started s.now) s.wires in
    elim result [
      | none ↦
          next_signal_loop codec peer started others (resumed turn others (record s { wires = w }))
      | some r ↦ finished (record s { wires = w; others = turn ∷ others }) r
    ]

unfoldable pub next_signal : Json → Peer → (started : ℕ) → Dance (Option Signal)
unfolding next_signal_loop
next_signal codec peer started s = next_signal_loop codec peer started s.others s

-- The calls of the peer connection that a consumed signal makes.
pub data RtcCall : Type 0 where
  set_remote_answer : Text → RtcCall
  add_ice_candidate : Candidate → RtcCall

-- Where `consume_signaling` stands at its next await, or at its end.
pub data Next : Type 0 where
  await_signal : Next
  await_call : RtcCall → Next
  over : Result (Unit {0}) Error → Next

-- `none` goes on with the next signal at once; `done` ends the peer's signals.
unfoldable pub consume_one : Signal → Option Next
consume_one (answer sdp) = some (await_call (set_remote_answer sdp))
consume_one (offer _) = some (over (err (connect_failed (codes "unexpected second offer"))))
consume_one (local_candidate c) = some (await_call (add_ice_candidate c))
consume_one end_of_candidates = none
consume_one done = some (over (ok tt))

unfoldable pub consume_inbox : Json → (expired : Bool) → List Bytes → List Bytes × Next
unfolding consume_one
consume_inbox codec expired [] = (
  [],
  if expired
      then over (err (connect_failed (codes "webrtc signaling timed out")))
      else await_signal,
)
consume_inbox codec expired (payload ∷ inbox) = elim (codec.from_slice payload) [
  | none ↦ consume_inbox codec expired inbox
  | some signal ↦ elim (consume_one signal) [
    | none ↦ consume_inbox codec expired inbox
    | some next ↦ (inbox, next)
  ]
]

-- The rounds of `consume_signaling`, with `next_signal` in each, up to the next await.
unfoldable pub consume_rounds : Json → Peer → (expired : Bool) → Wires → Wires × Next
unfolding is_closed_or_dead consume_inbox
consume_rounds codec peer expired w =
    if is_closed_or_dead w then (w, over (err closed)) else elim (lookup peer w.signal_inboxes) [
      | none ↦ (w, (consume_inbox codec expired []).1)
      | some inbox ↦
          let (rest, next) = consume_inbox codec expired inbox in
          (record w { signal_inboxes = insert peer rest w.signal_inboxes }, next)
    ]

-- `answers` is what the peer connection gives for a call, made at an instant.
unfoldable pub consume_loop :
    Json
    → (answers : ℕ → RtcCall → Result (Unit {0}) Text) → Peer
    → (started : ℕ) → List (ℕ × Wires → ℕ × Wires)
    → Dance (Unit {0})
unfolding consume_rounds is_expired
consume_loop codec answers peer started [] s =
    let (w, next) = consume_rounds codec peer (is_expired started s.now) s.wires in
    elim next [
      | over r ↦ finished (record s { wires = w; others = [] }) r
      | await_signal ↦ suspended w
      | await_call _ ↦ suspended w
    ]
consume_loop codec answers peer started (turn ∷ others) s =
    let (w, next) = consume_rounds codec peer (is_expired started s.now) s.wires in
    elim next [
      | over r ↦ finished (record s { wires = w; others = turn ∷ others }) r
      | await_signal ↦
          consume_loop codec answers peer started others
            (resumed turn others (record s { wires = w }))
      | await_call call ↦ elim (answers s.now call) [
        | err e ↦ finished (resumed turn others (record s { wires = w })) (err (rtc e))
        | ok _ ↦
            consume_loop codec answers peer started others
              (resumed turn others (record s { wires = w }))
      ]
    ]

unfoldable pub consume_signaling :
    Json
    → (answers : ℕ → RtcCall → Result (Unit {0}) Text) → Peer
    → (started : ℕ) → Dance (Unit {0})
unfolding consume_loop
consume_signaling codec answers peer started s = consume_loop codec answers peer started s.others s
