-- ===== src/Virt/Polling.antt =====
-- `poll` returns indices of pollables that are ready (experiments/udp-wake/virt/src/lib.rs).
use mathlib.Core.List.{Memᴰ}
use component_iroh.Prelude.{
  ℕ, ◌+◌, ◌≡◌, ◌<◌, refl, ap, subst, sym, ◌∙◌, Bool, true, false, List, [], ◌∷◌, some, ◌⊎◌, inl,
  inr, nat_key, get_elem?, length, All, arith,
}
use component_iroh.Virt.{
  World, is_empty, Inner, host, udp_incoming, always_ready, never, ready_local, local_ready,
  Blocking, returns, waits, panics, poll_loop, poll,
}
use component_iroh.Virt.Readiness.{IsReady, backed_count}
use component_iroh.Virt.Rounds.{
  StandsAt, Leads, host_backed-Mapped, local_ready-IsReady, fired_ready-Progressed,
}

-- A pollable that can become ready.
abbrev pub can_wake : List Inner → Bool
can_wake [] = false
can_wake (never ∷ ps) = can_wake ps
can_wake (_ ∷ ps) = true

-- What `poll` gives: at least one index, each of a pollable that is ready, or it waits for the host.
abbrev pub Polled : List Inner → List (List ℕ) → Blocking (World × List ℕ) → Type 0
Polled ps answers (returns (w, indices)) =
    (is_empty indices ≡ false) × All (IsReady ps answers w) indices
Polled ps answers waits = Unit
Polled ps answers panics = ⊥

List-cases {ℓ} : {A : Type ℓ} (xs : List A) → (xs ≡ []) ⊎ ((x : A) × (ys : List A) × (xs ≡ x ∷ ys))
List-cases [] = inl refl
List-cases (x ∷ xs) = inr (x, xs, refl)

backed_count-pos :
    (w : World) (i : ℕ) (qs : List Inner)
    → can_wake qs ≡ true
    → (local_ready w i qs).1 ≡ []
    → 0 < backed_count qs
unfolding local_ready ready_local
backed_count-pos w i [] c e = absurd (ground arith)
backed_count-pos w i (always_ready ∷ qs) c e = absurd (ground arith)
backed_count-pos w i (never ∷ qs) c e = backed_count-pos w (i + 1) qs c e
backed_count-pos w i (host p ∷ qs) c e = omega arith
backed_count-pos w i (udp_incoming s ∷ qs) c e = omega arith

module _ (ps : List Inner) (full : List (List ℕ)) (wakes : can_wake ps ≡ true) where
  stands : StandsAt ps full 0 ps
  stands k q h = subst (λ j. get_elem? ps j ≡ some q) (omega arith) h

  poll_loop-Polled :
      (answers : List (List ℕ)) (w : World)
      → ((f : List ℕ) → Memᴰ f answers → Memᴰ f full)
      → All (All (λ h. h < backed_count ps)) answers
      → Polled ps full (poll_loop ps answers w)
  unfolding poll_loop
  poll_loop-Polled [] w sub a = elim (List-cases (local_ready w 0 ps).1) [
    | inr (i, rest, e) ↦
        rw (e, poll_loop) (refl, rw e at (local_ready-IsReady ps full w 0 ps stands))
    | inl e ↦
        let m = host_backed-Mapped ps full w 0 ps stands e in
        elim (List-cases m.back) [
          | inl q ↦ absurd (omega (arith, backed_count-pos w 0 ps wakes e, m.sized, ap length q))
          | inr (b, back, q) ↦ rw (e, poll_loop, m.is_back ∙ ap some q) tt
        ]
  ]
  poll_loop-Polled (fired ∷ answers) w sub a = elim (List-cases (local_ready w 0 ps).1) [
    | inr (i, rest, e) ↦
        rw (e, poll_loop) (refl, rw e at (local_ready-IsReady ps full w 0 ps stands))
    | inl e ↦
        let m = host_backed-Mapped ps full w 0 ps stands e in
        elim (List-cases m.back) [
          | inl q ↦ absurd (omega (arith, backed_count-pos w 0 ps wakes e, m.sized, ap length q))
          | inr (b, back, q) ↦
              let r =
                fired_ready-Progressed ps full (b ∷ back) (m.is_back ∙ ap some q)
                  (subst (All (Leads ps full)) q m.leads) (local_ready w 0 ps).0 fired
                  (λ h o. (fired, sub fired (Memᴰ.head refl), o))
                  (subst (λ n. All (λ h. h < n) fired) (sym m.sized ∙ ap length q) a.0) in
              elim (List-cases r.indices) [
                | inl none_yet ↦
                    rw
                      (
                        e,
                        poll_loop,
                        m.is_back ∙ ap some q,
                        r.is_some ∙ ap (λ is. some (r.after, is)) none_yet,
                      )
                      (poll_loop-Polled answers r.after (λ f o. sub f (Memᴰ.tail o)) a.1)
                | inr (i, rest, some_now) ↦
                    rw
                      (
                        e,
                        poll_loop,
                        m.is_back ∙ ap some q,
                        r.is_some ∙ ap (λ is. some (r.after, is)) some_now,
                      )
                      (refl, rw some_now at r.all_ready)
              ]
        ]
  ]

-- With a pollable among those given that can become ready, and a host that answers with indices of
-- what it was given, `poll` does not panic: it returns at least one index, each of a pollable that is
-- ready, or waits for the host's next answer.
pub poll-Polled :
    (ps : List Inner) (answers : List (List ℕ)) (w : World)
    → can_wake ps ≡ true
    → All (All (λ h. h < backed_count ps)) answers
    → Polled ps answers (poll ps answers w)
unfolding poll
poll-Polled [] answers w c a = absurd (ground arith)
poll-Polled (p ∷ ps) answers w c a = poll_loop-Polled (p ∷ ps) answers c answers w (λ f o. o) a
