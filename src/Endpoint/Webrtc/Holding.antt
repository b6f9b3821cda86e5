-- ===== src/Endpoint/Webrtc/Holding.antt =====
-- Rules for what a dance keeps, when the others' turns keep it (endpoint/src/webrtc.rs).
use component_iroh.Prelude.{ℕ, List, [], ◌∷◌, Result, ok, err, bytes_key, insert, All, Text}
use component_iroh.Relay.Frames.{Bytes}
use component_iroh.Endpoint.Types.{Error}
use component_iroh.Endpoint.Wires.{Peer, Wires, push_signal_outbound}
use component_iroh.Endpoint.Webrtc.Dance.{
  Session, Outcome, finished, suspended, Dance, ◌>>=◌, resume, host_call, async_call, on_wires,
  awaited, pure,
}

-- What queueing a signal and reading an inbox keep.
pub record IsSignalProof (I : Wires → Type 0) : Type 0 where
  pub queued :
      (w : Wires) (via : ℕ) (peer : Peer) (payload : Bytes)
      → I w
      → I (push_signal_outbound w via peer payload)
  pub read :
      (w : Wires) (peer : Peer) (inbox : List Bytes)
      → I w
      → I (record w { signal_inboxes = insert peer inbox w.signal_inboxes })

module _ (I : Wires → Type 0) where
  abbrev pub Respects : (ℕ × Wires → ℕ × Wires) → Type 0
  Respects turn = (p : ℕ × Wires) → I (p.1) → I ((turn p).1)

  -- The wires are fine, and the others will keep them so.
  abbrev pub IsKept : Session → Type 0
  IsKept s = I s.wires × All Respects s.others

  abbrev pub Held {ℓ} : {A : Type ℓ} → Outcome A → Type 0
  Held (finished s r) = IsKept s
  Held (suspended w) = I w

  pub record Holds {ℓ} {A : Type ℓ} (m : Dance A) : Type ℓ where
    pub holds : (s : Session) → IsKept s → Held (m s)

module _ (I : Wires → Type 0) where
  after-Held {ℓ κ} :
      {A : Type ℓ} {B : Type κ} (o : Outcome A) (f : A → Dance B)
      → Held I o
      → ((a : A) → Holds I (f a))
      → Held I (elim o [
        | suspended w ↦ suspended w
        | finished s' (err e) ↦ finished s' (err e)
        | finished s' (ok a) ↦ f a s'
      ])
  after-Held (suspended w) f h g = h
  after-Held (finished s (err e)) f h g = h
  after-Held (finished s (ok a)) f h g = (g a).holds s h

  pub >>=-Holds {ℓ κ} :
      {A : Type ℓ} {B : Type κ} (m : Dance A) (f : A → Dance B)
      → Holds I m
      → ((a : A) → Holds I (f a))
      → Holds I (m >>= f)
  unfolding ◌>>=◌
  >>=-Holds m f h g = record { holds = λ s k. after-Held (m s) f (h.holds s k) g }

  pub resume-Held :
      (others : List (ℕ × Wires → ℕ × Wires)) (s : Session)
      → I s.wires
      → All (Respects I) others
      → Held I (resume others s)
  unfolding resume
  resume-Held [] s v k = v
  resume-Held (turn ∷ others) s v (respects, k) = (respects (s.now, s.wires) v, k)

  pub awaited-Holds : Holds I awaited
  awaited-Holds = record { holds = λ s k. resume-Held s.others s k.0 k.1 }

  pub host_call-Holds {ℓ} : {A : Type ℓ} (r : Result A Text) → Holds I (host_call r)
  host_call-Holds r = record { holds = λ s k. k }

  pub async_call-Holds {ℓ} : {A : Type ℓ} (r : Result A Text) → Holds I (async_call r)
  async_call-Holds r = >>=-Holds awaited (λ _. host_call r) awaited-Holds (λ _. host_call-Holds r)

  pub on_wires-Holds {ℓ} :
      {A : Type ℓ} (f : Wires → Wires × Result A Error)
      → ((w : Wires) → I w → I (f w).0)
      → Holds I (on_wires f)
  on_wires-Holds f h = record { holds = λ s k. (h s.wires k.0, k.1) }

  pub pure-Holds {ℓ} : {A : Type ℓ} (a : A) → Holds I (pure a)
  pure-Holds a = record { holds = λ s k. k }
