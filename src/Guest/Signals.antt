-- ===== src/Guest/Signals.antt =====
-- The signaling of the spike hears one peer, whole and in order (guest/src/lib.rs).
use mathlib.Core.Option
use component_iroh.Prelude.{
  ◌⊎◌, if_pos, ℕ, zero, suc, ◌≡◌, ◌≤◌, refl, inl, inr, List, [], ◌∷◌, ◌++◌, sym, subst, Option,
  none, some, Option-cases, Result, unwrap_or, ok, err, bytes_key, eq?, ite, Text, codes, length,
  arith,
}
use component_iroh.Relay.Frames.{Bytes, Datagram}
use component_iroh.Endpoint.Wires.{Peer}
use component_iroh.Endpoint.Webrtc.{
  Signal, offer, answer, local_candidate, end_of_candidates, done, signal_result,
}
use component_iroh.Guest.Task.{Outcome, finished, failed, suspended, out_of_fuel}
use component_iroh.Guest.Signaling.{Signaling, Codec, payload_json, signal_json, recv_loop, recv}

-- How the calls of `recv`, one after another, come to an end.
pub data Heard : Type 0 where
  told : Signal → Heard → Heard
  silent all_told : Heard
  broken : Heard

module _ (C : Codec) where
  -- `recv` until the peer is done or there is an error. A call takes an arrival at least.
  unfoldable pub hear : (fuel : ℕ) → Signaling → Option Heard
  unfolding recv
  hear zero s = none
  hear (suc fuel) s = elim (recv C s) [
    | suspended _ ↦ some silent
    | out_of_fuel ↦ none
    | failed _ _ ↦ some broken
    | finished t none ↦ some all_told
    | finished t (some signal) ↦ Option.map (told signal) (hear fuel t)
  ]

  -- The same after a call of `recv`.
  abbrev heard : (fuel : ℕ) → Outcome Signaling (Option Signal) → Option Heard
  heard fuel o = elim o [
    | suspended _ ↦ some silent
    | out_of_fuel ↦ none
    | failed _ _ ↦ some broken
    | finished t none ↦ some all_told
    | finished t (some signal) ↦ Option.map (told signal) (hear fuel t)
  ]

abbrev pub with_json : Option Bytes → List (Result Bytes Text) → List (Result Bytes Text)
with_json none rest = rest
with_json (some json) rest = ok json ∷ rest

-- What is behind the prefix of one peer's datagrams, up to an error.
abbrev pub jsons : Peer → List (Result Datagram Text) → List (Result Bytes Text)
jsons peer [] = []
jsons peer (err e ∷ arrivals) = err e ∷ jsons peer arrivals
jsons peer (ok d ∷ arrivals) =
    with_json (ite (eq? peer d.source) (signal_json d.payload) none) (jsons peer arrivals)

-- Their signals, in order, up to `done`.
abbrev pub signals : Codec → List (Result Bytes Text) → Heard
signals C [] = silent
signals C (err e ∷ rest) = broken
signals C (ok json ∷ rest) = elim (C.json.from_slice json) [
  | none ↦ broken
  | some done ↦ all_told
  | some signal ↦ told signal (signals C rest)
]

told-signals :
    (C : Codec) (json : Bytes) (rest : List (Result Bytes Text)) (x : Signal)
    → C.json.from_slice json ≡ some x
    → ((x ≡ done) × (signals C (ok json ∷ rest) ≡ all_told))
      ⊎ ((signal_result x ≡ some x) × (signals C (ok json ∷ rest) ≡ told x (signals C rest)))
unfolding signal_result
told-signals C json rest done e = inl (refl, rw (e, signals) refl)
told-signals C json rest (offer x) e = inr (refl, rw (e, signals) refl)
told-signals C json rest (answer x) e = inr (refl, rw (e, signals) refl)
told-signals C json rest (local_candidate x) e = inr (refl, rw (e, signals) refl)
told-signals C json rest end_of_candidates e = inr (refl, rw (e, signals) refl)

payload_json-ite :
    (peer : Peer) (d : Datagram)
    → payload_json (ite (eq? peer d.source) (some d.payload) none)
      ≡ ite (eq? peer d.source) (signal_json d.payload) none
unfolding payload_json
payload_json-ite peer d =
    elim (eq? peer d.source)
      as (λ q. payload_json (ite q (some d.payload) none) ≡ ite q (signal_json d.payload) none) [
        | yes _ ↦ refl
        | no _ ↦ refl
      ]

module _ (C : Codec) (peer : Peer) (sent : List (Peer × Bytes)) where
  abbrev bound : List (Result Datagram Text) → Signaling
  bound arrivals = record { peer = some peer; arrivals = arrivals; sent = sent }

  -- What `recv` does of the JSON of one arrival.
  abbrev on_json : List (Result Datagram Text) → Option Bytes → Outcome Signaling (Option Signal)
  on_json arrivals found = elim found [
    | none ↦ recv_loop C arrivals (bound arrivals)
    | some json ↦ elim (C.json.from_slice json) [
      | none ↦ failed (bound arrivals) (codes "decode signal: " ++ C.decode_text json)
      | some signal ↦ finished (bound arrivals) (signal_result signal)
    ]
  ]

  on_json-signals :
      (arrivals : List (Result Datagram Text)) (fuel : ℕ) (found : Option Bytes)
      → heard C fuel (recv_loop C arrivals (bound arrivals))
        ≡ some (signals C (jsons peer arrivals))
      → hear C fuel (bound arrivals) ≡ some (signals C (jsons peer arrivals))
      → heard C fuel (on_json arrivals found)
        ≡ some (signals C (with_json found (jsons peer arrivals)))
  unfolding signal_result
  on_json-signals arrivals fuel none h k = h
  on_json-signals arrivals fuel (some json) h k = elim (Option-cases (C.json.from_slice json)) [
    | inl q ↦ rw (q, heard, on_json, signals) refl
    | inr (x, q) ↦ elim (told-signals C json (jsons peer arrivals) x q) [
      | inl (e, s) ↦ rw (s, q, e, heard, on_json, signal_result) refl
      | inr (e, s) ↦ rw (s, q, e, heard, on_json, k) refl
    ]
  ]

  heard-signals :
      (arrivals before : List (Result Datagram Text)) (fuel : ℕ)
      → length arrivals ≤ fuel
      → heard C fuel (recv_loop C arrivals (bound before)) ≡ some (signals C (jsons peer arrivals))
  unfolding recv_loop hear
  heard-signals [] before fuel h = refl
  heard-signals (err e ∷ arrivals) before fuel h = refl
  heard-signals (ok d ∷ arrivals) before zero h = absurd (omega (arith, h))
  heard-signals (ok d ∷ arrivals) before (suc fuel) h =
      subst
        (λ j.
          heard C (suc fuel) (on_json arrivals j) ≡ some (signals C (jsons peer (ok d ∷ arrivals))))
        (sym (payload_json-ite peer d))
        ((on_json-signals arrivals (suc fuel) (ite (eq? peer d.source) (signal_json d.payload) none)
          (heard-signals arrivals arrivals (suc fuel) (omega (arith, h)))
          (heard-signals arrivals arrivals fuel (omega (arith, h)))))

-- The calls of `recv`, with the peer set or still to be learned from the first datagram, hear the
-- signals of that one peer, in order: other sources and other datagrams do not count, and the first
-- error, `done`, or the lack of more ends it.
pub hear-signals :
    (C : Codec) (peer : Option Peer) (sent : List (Peer × Bytes)) (d : Datagram)
    (arrivals : List (Result Datagram Text))
    → hear C
        (suc (suc (length arrivals)))
        (record { peer = peer; arrivals = ok d ∷ arrivals; sent = sent })
      ≡ some (signals C (jsons (unwrap_or peer d.source) (ok d ∷ arrivals)))
unfolding hear
hear-signals C (some peer) sent d arrivals =
    heard-signals C peer sent (ok d ∷ arrivals) (ok d ∷ arrivals) (suc (length arrivals))
      (omega arith)
hear-signals C none sent d arrivals =
    let n = length arrivals in
    subst
      (λ j.
        heard C (suc n) (on_json C d.source sent arrivals (signal_json d.payload))
        ≡ some (signals C (with_json j (jsons d.source arrivals))))
      (sym (if_pos (eq? d.source d.source) refl (signal_json d.payload) none))
      (on_json-signals C d.source sent arrivals (suc n) (signal_json d.payload)
        (heard-signals C d.source sent arrivals arrivals (suc n) (omega arith))
        (heard-signals C d.source sent arrivals arrivals n (omega arith)))
