-- ===== src/Guest/Consuming.antt =====
-- The spike's loop over the peer's signals ends (guest/src/lib.rs, `consume_signaling`).
use component_iroh.Prelude.{
  ℕ, zero, suc, ◌≡◌, ◌≤◌, ◌<◌, refl, List, [], ◌∷◌, Option, none, some, Option-cases, inl, inr,
  Result, ok, err, Text, length, arith,
}
use component_iroh.Relay.Frames.{Datagram}
use component_iroh.Endpoint.Webrtc.{Signal, offer, answer, local_candidate, end_of_candidates, done}
use component_iroh.Endpoint.Webrtc.Dance.{set_remote_answer, add_ice_candidate}
use component_iroh.Endpoint.Webrtc.Dialing.{PeerConnection}
use component_iroh.Guest.{take_datagram}
use component_iroh.Guest.Task.{
  Outcome, finished, failed, suspended, out_of_fuel, Task, ◌>>=◌, and_then,
}
use component_iroh.Guest.Signaling.{Signaling, Codec, payload_json, recv_loop, recv}
use component_iroh.Guest.Driver.{apply_signal, consume, consume_signaling, rtc_call}

-- Comes to an end, or waits for what has not come, when nothing that came is left.
abbrev pub Ends : {A : Type 0} → Outcome Signaling A → Type 0
Ends (finished s a) = Unit
Ends (failed s e) = Unit
Ends (suspended s) = s.arrivals ≡ []
Ends out_of_fuel = ⊥

-- If it finishes, it leaves fewer than `n` arrivals.
abbrev Shorter : {A : Type 0} → ℕ → Outcome Signaling A → Type 0
Shorter n (finished s a) = length s.arrivals < n
Shorter n (failed s e) = Unit
Shorter n (suspended s) = s.arrivals ≡ []
Shorter n out_of_fuel = ⊥

module _ (C : Codec) where
  recv_loop-Shorter :
      (arrivals : List (Result Datagram Text)) (s : Signaling) (n : ℕ)
      → length arrivals ≤ n
      → Shorter n (recv_loop C arrivals s)
  unfolding recv_loop
  recv_loop-Shorter [] s n h = refl
  recv_loop-Shorter (err e ∷ arrivals) s n h = tt
  recv_loop-Shorter (ok d ∷ arrivals) s n h =
      elim (Option-cases (payload_json (take_datagram s.peer d).1)) [
        | inl q ↦ rw (q, recv_loop) (recv_loop-Shorter arrivals _ n (omega (arith, h)))
        | inr (json, q) ↦ elim (Option-cases (C.json.from_slice json)) [
          | inl k ↦ rw (q, k, recv_loop) tt
          | inr (x, k) ↦ rw (q, k, recv_loop) (omega (arith, h))
        ]
      ]

  module _ (conn : PeerConnection) where
    call_as-Ends :
        (r : Result (Unit {0}) Text) (s : Signaling) (rest : Task Signaling (Unit {0}))
        → Ends (rest s)
        → Ends (and_then (rtc_call r s) (λ _. rest))
    call_as-Ends (ok u) s rest h = h
    call_as-Ends (err e) s rest h = tt

    -- A signal leaves the arrivals as they are.
    apply_signal-Ends :
        (x : Signal) (s : Signaling) (rest : Task Signaling (Unit {0}))
        → Ends (rest s)
        → Ends ((apply_signal C conn x >>= λ _. rest) s)
    unfolding ◌>>=◌ apply_signal
    apply_signal-Ends (answer sdp) s rest h =
        call_as-Ends (conn.answers (length s.arrivals) (set_remote_answer sdp)) s rest h
    apply_signal-Ends (offer _) s rest h = tt
    apply_signal-Ends (local_candidate c) s rest h =
        call_as-Ends (conn.answers (length s.arrivals) (add_ice_candidate c)) s rest h
    apply_signal-Ends end_of_candidates s rest h = h
    apply_signal-Ends done s rest h = h

    after_recv-Ends :
        (fuel : ℕ) (o : Outcome Signaling (Option Signal))
        → Shorter fuel o
        → ((t : Signaling) → length t.arrivals < fuel → Ends (consume C conn fuel t))
        → Ends (
            and_then o (λ signal. elim signal as (λ _. Task Signaling (Unit {0})) [
              | none ↦ (λ t. finished t tt)
              | some x ↦ (apply_signal C conn x >>= λ _. consume C conn fuel)
            ]))
    after_recv-Ends fuel (finished t none) h k = tt
    after_recv-Ends fuel (finished t (some x)) h k =
        apply_signal-Ends x t (consume C conn fuel) (k t h)
    after_recv-Ends fuel (failed t e) h k = tt
    after_recv-Ends fuel (suspended t) h k = h
    after_recv-Ends fuel out_of_fuel h k = h

    consume-Ends :
        (fuel : ℕ) (s : Signaling) → length s.arrivals < fuel → Ends (consume C conn fuel s)
    unfolding consume recv
    consume-Ends zero s h = absurd (omega (arith, h))
    consume-Ends (suc fuel) s h =
        after_recv-Ends fuel (recv_loop C s.arrivals s)
          (recv_loop-Shorter s.arrivals s fuel (omega (arith, h))) (λ t k. consume-Ends fuel t k)

    -- `consume_signaling` ends, or it waits with nothing left of what came.
    pub consume_signaling-Ends : (s : Signaling) → Ends (consume_signaling C conn s)
    unfolding consume_signaling
    consume_signaling-Ends s = consume-Ends (suc (length s.arrivals)) s (omega arith)
