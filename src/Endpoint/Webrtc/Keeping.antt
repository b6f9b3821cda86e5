-- ===== src/Endpoint/Webrtc/Keeping.antt =====
-- What the signaling of endpoint/src/webrtc.rs keeps, when the others' turns keep it.
use component_iroh.Prelude.{
  ℕ, ◌≡◌, ◌⊎◌, refl, Bool, List, [], ◌∷◌, Option-cases, Result, Result-cases, inl, inr, bytes_key,
  lookup, All, Text, Bool-cases,
}
use component_iroh.Endpoint.Types.{Error}
use component_iroh.Endpoint.Wires.{Peer, Wires, signaling_relay, is_closed_or_dead}
use component_iroh.Endpoint.Webrtc.{
  Candidate, Signal, local_candidate, end_of_candidates, Json, publish, publish_candidates,
  next_attempt,
}
use component_iroh.Endpoint.Webrtc.Dance.{
  Session, next_signal_loop, next_signal, is_expired, await_signal, await_call, over, Next, RtcCall,
  consume_rounds, consume_loop, consume_signaling,
}
use component_iroh.Endpoint.Webrtc.Holding.{IsSignalProof, Respects, Held, Holds}

module _ (I : Wires → Type 0) (C : IsSignalProof I) (codec : Json) where
  open C use {queued, read}

  pub publish-keeps :
      (peer : Peer) (signal : Signal) (w : Wires) → I w → I (publish codec peer signal w).0
  unfolding publish signaling_relay
  publish-keeps peer signal w v = elim (Result-cases (codec.to_writer signal)) [
    | inr (e, q) ↦ rw (q, publish) v
    | inl (json, q) ↦ elim (Option-cases (lookup peer w.signaling)) [
      | inl n ↦ rw (q, publish, n) v
      | inr (via, n) ↦ rw (q, publish, n) (queued w via peer _ v)
    ]
  ]

  pub publish_candidates-keeps :
      (peer : Peer) (candidates : List Candidate) (w : Wires)
      → I w
      → I (publish_candidates codec peer candidates w).0
  unfolding publish_candidates
  publish_candidates-keeps peer [] w v = publish-keeps peer end_of_candidates w v
  publish_candidates-keeps peer (c ∷ candidates) w v =
      let k = publish-keeps peer (local_candidate c) w v in
      elim (Result-cases (publish codec peer (local_candidate c) w).1) [
        | inr (e, q) ↦ rw (q, publish_candidates) k
        | inl (u, q) ↦ rw (q, publish_candidates) (publish_candidates-keeps peer candidates _ k)
      ]

  next_attempt-keeps :
      (peer : Peer) (expired : Bool) (w : Wires) → I w → I (next_attempt codec peer expired w).0
  unfolding next_attempt
  next_attempt-keeps peer expired w v = elim (Bool-cases (is_closed_or_dead w)) [
    | inl e ↦ rw (e, next_attempt) v
    | inr e ↦ elim (Option-cases (lookup peer w.signal_inboxes)) [
      | inl n ↦ rw (e, next_attempt, n) v
      | inr (inbox, n) ↦ rw (e, next_attempt, n) (read w peer _ v)
    ]
  ]

  consume_rounds-keeps :
      (peer : Peer) (expired : Bool) (w : Wires) → I w → I (consume_rounds codec peer expired w).0
  unfolding consume_rounds
  consume_rounds-keeps peer expired w v = elim (Bool-cases (is_closed_or_dead w)) [
    | inl e ↦ rw (e, consume_rounds) v
    | inr e ↦ elim (Option-cases (lookup peer w.signal_inboxes)) [
      | inl n ↦ rw (e, consume_rounds, n) v
      | inr (inbox, n) ↦ rw (e, consume_rounds, n) (read w peer _ v)
    ]
  ]

  next_signal_loop-Held :
      (peer : Peer) (started : ℕ) (others : List (ℕ × Wires → ℕ × Wires)) (s : Session)
      → I s.wires
      → All (Respects I) others
      → Held I (next_signal_loop codec peer started others s)
  unfolding next_signal_loop
  next_signal_loop-Held peer started [] s v k =
      let v' = next_attempt-keeps peer (is_expired started s.now) s.wires v in
      elim (Option-cases (next_attempt codec peer (is_expired started s.now) s.wires).1) [
        | inl e ↦ rw (e, next_signal_loop) v'
        | inr (r, e) ↦ rw (e, next_signal_loop) (v', tt)
      ]
  next_signal_loop-Held peer started (turn ∷ others) s v (respects, k) =
      let v' = next_attempt-keeps peer (is_expired started s.now) s.wires v in
      elim (Option-cases (next_attempt codec peer (is_expired started s.now) s.wires).1) [
        | inl e ↦
            rw (e, next_signal_loop) (next_signal_loop-Held peer started others _ (respects _ v') k)
        | inr (r, e) ↦ rw (e, next_signal_loop) (v', (respects, k))
      ]

  Next-cases :
      (n : Next)
      → (n ≡ await_signal)
        ⊎ (((call : RtcCall) × (n ≡ await_call call))
            ⊎ ((r : Result (Unit {0}) Error) × (n ≡ over r)))
  Next-cases await_signal = inl refl
  Next-cases (await_call call) = inr (inl (call, refl))
  Next-cases (over r) = inr (inr (r, refl))

  consume_loop-Held :
      (answers : ℕ → RtcCall → Result (Unit {0}) Text) (peer : Peer) (started : ℕ)
      (others : List (ℕ × Wires → ℕ × Wires)) (s : Session)
      → I s.wires
      → All (Respects I) others
      → Held I (consume_loop codec answers peer started others s)
  unfolding consume_loop
  consume_loop-Held answers peer started [] s v k =
      let v' = consume_rounds-keeps peer (is_expired started s.now) s.wires v in
      elim (Next-cases (consume_rounds codec peer (is_expired started s.now) s.wires).1) [
        | inl e ↦ rw (e, consume_loop) v'
        | inr (inl (call, e)) ↦ rw (e, consume_loop) v'
        | inr (inr (r, e)) ↦ rw (e, consume_loop) (v', tt)
      ]
  consume_loop-Held answers peer started (turn ∷ others) s v (respects, k) =
      let v' = consume_rounds-keeps peer (is_expired started s.now) s.wires v in
      elim (Next-cases (consume_rounds codec peer (is_expired started s.now) s.wires).1) [
        | inl e ↦
            rw (e, consume_loop) (consume_loop-Held answers peer started others _ (respects _ v') k)
        | inr (inl (call, e)) ↦ elim (Result-cases (answers s.now call)) [
          | inl (u, q) ↦
              rw (e, consume_loop, q)
                (consume_loop-Held answers peer started others _ (respects _ v') k)
          | inr (x, q) ↦ rw (e, consume_loop, q) (respects _ v', k)
        ]
        | inr (inr (r, e)) ↦ rw (e, consume_loop) (v', (respects, k))
      ]

  pub next_signal-Holds : (peer : Peer) (started : ℕ) → Holds I (next_signal codec peer started)
  unfolding next_signal
  next_signal-Holds peer started = record {
    holds = λ s k. next_signal_loop-Held peer started s.others s k.0 k.1;
  }

  pub consume_signaling-Holds :
      (answers : ℕ → RtcCall → Result (Unit {0}) Text) (peer : Peer) (started : ℕ)
      → Holds I (consume_signaling codec answers peer started)
  unfolding consume_signaling
  consume_signaling-Holds answers peer started = record {
    holds = λ s k. consume_loop-Held answers peer started s.others s k.0 k.1;
  }
