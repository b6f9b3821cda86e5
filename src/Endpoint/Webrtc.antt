-- ===== src/Endpoint/Webrtc.antt =====
-- The signals of a WebRTC session (endpoint/src/webrtc.rs): publishing, and the peer's next signal.
-- serde_json is a record of functions.
pub mod Wire
pub mod Dance
pub mod Dialing
pub mod Holding
pub mod Keeping
pub mod Danced
pub mod Sessions
pub mod Deadline
pub mod Fallback
mod Examples
use component_iroh.Prelude.{
  ℕ, ◌-◌, ◌≡◌, refl, Bool, true, false, List, [], ◌∷◌, ◌++◌, Option, none, some, Option-cases,
  Result-cases, inl, inr, ◌⊎◌, Result, ok, err, bytes_key, lookup, insert, Text, codes, ltb,
  if◌then◌else◌,
}
use component_iroh.Relay.Frames.{Bytes}
use component_iroh.Endpoint.Types.{Error, closed, connect_failed, other}
use component_iroh.Endpoint.Wires.{
  Peer, Wires, is_closed_or_dead, signaling_relay, push_signal_outbound,
}
use component_iroh.Endpoint.Pump.{signal_prefix}

pub record Candidate : Type 0 where
  pub candidate : Text
  pub sdp_mid : Option Text
  pub sdp_mline_index : Option ℕ

pub data Signal : Type 0 where
  offer answer : Text → Signal
  local_candidate : Candidate → Signal
  end_of_candidates done : Signal

pub record Json : Type 0 where
  pub to_writer : Signal → Result Bytes Text
  pub from_slice : Bytes → Option Signal

unfoldable pub publish : Json → Peer → Signal → Wires → Wires × Result (Unit {0}) Error
unfolding signaling_relay push_signal_outbound
publish codec peer signal w = elim (codec.to_writer signal) [
  | err e ↦ (w, err (other (codes "encode signal: " ++ e)))
  | ok json ↦ elim (signaling_relay w peer) [
    | none ↦ (w, err (other (codes "signal outside a session")))
    | some relay ↦ (push_signal_outbound w relay peer (signal_prefix ∷ json), ok tt)
  ]
]

-- The pops of `next_signal` up to a payload that decodes; nothing happens between them.
unfoldable pub first_signal : Json → List Bytes → List Bytes × Option Signal
first_signal codec [] = ([], none)
first_signal codec (payload ∷ inbox) = elim (codec.from_slice payload) [
  | some signal ↦ (inbox, some signal)
  | none ↦ first_signal codec inbox
]

-- `done` ends the peer's signals.
unfoldable pub signal_result : Signal → Option Signal
signal_result done = none
signal_result signal = some signal

unfoldable pub on_empty : (expired : Bool) → Option (Result (Option Signal) Error)
on_empty true = some (err (connect_failed (codes "webrtc signaling timed out")))
on_empty false = none

-- The rounds of `next_signal` between two sleeps.
unfoldable pub next_attempt :
    Json → Peer → (expired : Bool) → Wires → Wires × Option (Result (Option Signal) Error)
unfolding is_closed_or_dead first_signal signal_result on_empty
next_attempt codec peer expired w =
    if is_closed_or_dead w then (w, some (err closed)) else elim (lookup peer w.signal_inboxes) [
      | none ↦ (w, on_empty expired)
      | some inbox ↦
          let (rest, found) = first_signal codec inbox in
          (
            record w { signal_inboxes = insert peer rest w.signal_inboxes },
            elim found [ none ↦ on_empty expired | some signal ↦ some (ok (signal_result signal)) ],
          )
    ]

-- The candidates, in order, and the end; the first failure ends it.
unfoldable pub publish_candidates :
    Json → Peer → List Candidate → Wires → Wires × Result (Unit {0}) Error
unfolding publish
publish_candidates codec peer [] w = publish codec peer end_of_candidates w
publish_candidates codec peer (c ∷ candidates) w =
    let (w', result) = publish codec peer (local_candidate c) w in
    elim result [ err e ↦ (w', err e) | ok _ ↦ publish_candidates codec peer candidates w' ]

-- A published signal is one datagram behind what was queued: the prefix byte and the encoding, to the
-- peer, through the session's relay. Else there is an error, and nothing changes.
pub publish_cases :
    (codec : Json) (peer : Peer) (signal : Signal) (w : Wires)
    → ((json : Bytes) × (via : ℕ) × (codec.to_writer signal ≡ ok json)
        × (lookup peer w.signaling ≡ some via)
        × (publish codec peer signal w ≡ (
          record w {
            relay_outbound = w.relay_outbound ++ ((via, peer, signal_prefix ∷ json) ∷ []);
          },
          ok tt,
        )))
      ⊎ ((e : Error) × (publish codec peer signal w ≡ (w, err e)))
unfolding publish signaling_relay push_signal_outbound
publish_cases codec peer signal w = elim (Result-cases (codec.to_writer signal)) [
  | inr (e, q) ↦ inr (other (codes "encode signal: " ++ e), rw (q, publish) refl)
  | inl (json, q) ↦ elim (Option-cases (lookup peer w.signaling)) [
    | inl n ↦ inr (other (codes "signal outside a session"), rw (q, publish, n) refl)
    | inr (via, n) ↦ inl (json, via, q, n, rw (q, publish, n) refl)
  ]
]
