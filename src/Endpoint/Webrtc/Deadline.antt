-- ===== src/Endpoint/Webrtc/Deadline.antt =====
-- The wait for a signal ends at its deadline (next_signal of endpoint/src/webrtc.rs).
use component_iroh.Prelude.{
  ℕ, ◌+◌, ◌≡◌, ◌≤◌, ◌<◌, refl, Bool, true, false, List, [], ◌∷◌, Option, some, Option-cases,
  Bool-cases, inl, inr, Result, All, arith, bytes_key, lookup,
}
use component_iroh.Endpoint.Types.{Error}
use component_iroh.Endpoint.Wires.{Peer, Wires, is_closed_or_dead}
use component_iroh.Endpoint.Webrtc.{Signal, Json, next_attempt, first_signal, on_empty}
use component_iroh.Endpoint.Webrtc.Dance.{
  Session, finished, signal_deadline, is_expired, next_signal_loop, next_signal,
}

-- A turn of the others takes at least so long.
abbrev pub Takes : ℕ → (ℕ × Wires → ℕ × Wires) → Type 0
Takes step turn = (p : ℕ × Wires) → p.0 + step ≤ (turn p).0

abbrev pub duration : ℕ → List (ℕ × Wires → ℕ × Wires) → ℕ
duration step [] = 0
duration step (_ ∷ others) = step + duration step others

expired_attempt :
    (codec : Json) (peer : Peer) (expired : Bool) (w : Wires)
    → expired ≡ true
    → (r : Result (Option Signal) Error) × ((next_attempt codec peer expired w).1 ≡ some r)
unfolding next_attempt on_empty
expired_attempt codec peer false w h = absurd (ground arith)
expired_attempt codec peer true w h = elim (Bool-cases (is_closed_or_dead w)) [
  | inl e ↦ rw (e, next_attempt) (_, refl)
  | inr e ↦ elim (Option-cases (lookup peer w.signal_inboxes)) [
    | inl n ↦ rw (e, next_attempt, n) (_, refl)
    | inr (inbox, n) ↦ elim (Option-cases (first_signal codec inbox).1) [
      | inl f ↦ rw (e, next_attempt, n, f) (_, refl)
      | inr (signal, f) ↦ rw (e, next_attempt, n, f) (_, refl)
    ]
  ]
]

module _ (codec : Json) (peer : Peer) (started step : ℕ) where
  next_signal_loop-Returns :
      (others : List (ℕ × Wires → ℕ × Wires)) (s : Session)
      → All (Takes step) others
      → started + signal_deadline < s.now + duration step others
      → (t : Session) × (r : Result (Option Signal) Error) × (next_signal_loop codec peer started
            others s
          ≡ finished t r)
  unfolding next_signal_loop is_expired
  next_signal_loop-Returns [] s k l =
      let (r, e) = expired_attempt codec peer (is_expired started s.now) s.wires (ground arith) in
      rw (e, next_signal_loop) (_, r, refl)
  next_signal_loop-Returns (turn ∷ others) s (takes, k) l =
      elim (Option-cases (next_attempt codec peer (is_expired started s.now) s.wires).1) [
        | inr (r, e) ↦ rw (e, next_signal_loop) (_, r, refl)
        | inl e ↦
            let w = (next_attempt codec peer (is_expired started s.now) s.wires).0 in
            rw (e, next_signal_loop)
              (next_signal_loop-Returns others _ k (omega (arith, takes (s.now, w))))
      ]

  -- If each turn of the others takes at least `step`, and there are enough turns to reach the
  -- deadline, the wait for the peer's signal returns: a signal, the end of them, or an error.
  pub next_signal-Returns :
      (s : Session)
      → All (Takes step) s.others
      → started + signal_deadline < s.now + duration step s.others
      → (t : Session) × (r : Result (Option Signal) Error) × (next_signal codec peer started s
          ≡ finished t r)
  unfolding next_signal
  next_signal-Returns s k l = next_signal_loop-Returns s.others s k l
