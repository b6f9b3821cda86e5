-- ===== src/Endpoint/Webrtc/Sessions.antt =====
-- What the dances leave behind (endpoint/src/webrtc.rs): consistent tables, and no session.
use component_iroh.Prelude.{
  ℕ, ◌≡◌, refl, All, none, ok, err, inl, inr, bytes_key, lookup, ◌⊎◌, lookup-remove, arith,
}
use component_iroh.Endpoint.Types.{Error}
use component_iroh.Endpoint.Wires.{
  Peer, Wires, begin_signaling, end_signaling, register_channel, push_signal_outbound,
  addr_for_peer, fresh_addr,
}
use component_iroh.Endpoint.Wires.Routing.{IsRouted, HasRoom}
use component_iroh.Endpoint.Wires.Steps.{begin_signaling-tables, same_tables}
use component_iroh.Endpoint.Wires.Channels.{register_channel-IsRouted}
use component_iroh.Endpoint.Webrtc.{Json}
use component_iroh.Endpoint.Webrtc.Dance.{Session, Outcome, finished, suspended, ◌>>=◌}
use component_iroh.Endpoint.Webrtc.Dialing.{
  PeerConnection, guarded, dial_session, dial, upgrade, answer_session, answer_inner,
}
use component_iroh.Endpoint.Webrtc.Dialing
use component_iroh.Endpoint.Webrtc.Holding.{IsSignalProof, Respects, IsKept, Held}
use component_iroh.Endpoint.Webrtc.Danced.{dial_session-Holds, answer_session-Holds}

IsRouted-IsSignalProof : IsSignalProof IsRouted
unfolding push_signal_outbound
IsRouted-IsSignalProof = record { queued = λ w via peer payload v. v; read = λ w peer inbox v. v }

pub Outcome-cases {ℓ} :
    {A : Type ℓ} (o : Outcome A)
    → ((w : Wires) × (o ≡ suspended w))
      ⊎ (((t : Session) × (e : Error) × (o ≡ finished t (err e)))
          ⊎ ((t : Session) × (a : A) × (o ≡ finished t (ok a))))
Outcome-cases (suspended w) = inl (w, refl)
Outcome-cases (finished t (err e)) = inr (inl (t, e, refl))
Outcome-cases (finished t (ok a)) = inr (inr (t, a, refl))

-- No session with the peer, and nothing in its inbox.
abbrev pub HasNoSession : Peer → Wires → Type 0
HasNoSession peer w = (lookup peer w.signaling ≡ none) × (lookup peer w.signal_inboxes ≡ none)

-- At the end the tables are consistent and the session is over; on the way they are consistent.
abbrev pub Settled {ℓ} : {A : Type ℓ} → Peer → Outcome A → Type 0
Settled peer (finished t r) = IsRouted t.wires × HasNoSession peer t.wires
Settled peer (suspended w) = IsRouted w

end_signaling-HasNoSession : (w : Wires) (peer : Peer) → HasNoSession peer (end_signaling w peer)
unfolding end_signaling
end_signaling-HasNoSession w peer = (
  ground (arith, lookup-remove peer peer w.signaling),
  ground (arith, lookup-remove peer peer w.signal_inboxes),
)

guarded-Settled {ℓ} :
    {A : Type ℓ} (peer : Peer) (o : Outcome A) → Held IsRouted o → Settled peer (guarded peer o)
unfolding guarded end_signaling
guarded-Settled peer (finished t r) k = (k.0, end_signaling-HasNoSession t.wires peer)
guarded-Settled peer (suspended w) k = k

register_channel-signaling :
    (w : Wires) (peer : Peer) (wire : ℕ)
    → ((register_channel w peer wire).0.signaling ≡ w.signaling)
      × ((register_channel w peer wire).0.signal_inboxes ≡ w.signal_inboxes)
unfolding register_channel addr_for_peer fresh_addr
register_channel-signaling w peer wire = ground arith

registered-Settled :
    (w : Wires) (peer : Peer) (wire : ℕ)
    → HasRoom w
    → IsRouted w
    → HasNoSession peer w
    → IsRouted (register_channel w peer wire).0 × HasNoSession peer (register_channel w peer wire).0
registered-Settled w peer wire room v (slot, inbox) =
    let (signaling, inboxes) = register_channel-signaling w peer wire in
    (register_channel-IsRouted w peer wire room v, (rw signaling slot, rw inboxes inbox))

module _ (codec : Json) (conn : PeerConnection) (peer : Peer) where
  dial-Settled :
      (via : ℕ) (s : Session) (w : Wires)
      → begin_signaling s.wires peer via ≡ ok w
      → IsKept IsRouted s
      → Settled peer (dial codec conn peer via s)
  unfolding dial
  dial-Settled via s w q (v, k) =
      rw (q, dial)
        (guarded-Settled peer _ (
          (dial_session-Holds IsRouted IsRouted-IsSignalProof codec conn peer s.now).holds
            (record s { wires = w })
            (same_tables (begin_signaling-tables s.wires peer via w q) v, k)))

  -- An upgrade that has claimed the session with its peer, on consistent tables that the others keep
  -- consistent: while it waits the tables are consistent. If it finishes, with a channel or without,
  -- they still are, provided that the counters have room when it registers the channel, and the
  -- session's slot and inbox are free.
  pub upgrade-Settled :
      (via : ℕ) (s : Session) (w : Wires)
      → begin_signaling s.wires peer via ≡ ok w
      → IsRouted s.wires
      → All (Respects IsRouted) s.others
      → ((t : Session) (wire : ℕ)
          → dial codec conn peer via s ≡ finished t (ok wire)
          → HasRoom t.wires)
      → Settled peer (upgrade codec conn peer via s)
  unfolding upgrade
  upgrade-Settled via s w q v k room =
      let d = dial-Settled via s w q (v, k) in
      elim (Outcome-cases (dial codec conn peer via s)) [
        | inl (u, e) ↦ rw (e, upgrade) (rw e at d)
        | inr (inl (t, x, e)) ↦ rw (e, upgrade) (rw e at d)
        | inr (inr (t, wire, e)) ↦
            let (routed, free) = rw e at d in
            rw (e, upgrade) (registered-Settled t.wires peer wire (room t wire e) routed free)
      ]

  answer_inner-Held :
      (s : Session)
      → IsKept IsRouted s
      → ((t : Session) (wire : ℕ)
          → answer_session codec conn peer s.now s ≡ finished t (ok wire)
          → HasRoom t.wires)
      → Held IsRouted (answer_inner codec conn peer s.now s)
  unfolding answer_inner ◌>>=◌
  answer_inner-Held s k room =
      let h =
        (answer_session-Holds IsRouted IsRouted-IsSignalProof codec conn peer s.now).holds s k in
      elim (Outcome-cases (answer_session codec conn peer s.now s)) [
        | inl (u, e) ↦ rw (e, answer_inner) (rw e at h)
        | inr (inl (t, x, e)) ↦ rw (e, answer_inner) (rw e at h)
        | inr (inr (t, wire, e)) ↦
            let (routed, others) = rw e at h in
            rw (e, answer_inner)
              (register_channel-IsRouted t.wires peer wire (room t wire e) routed, others)
      ]

  silent-Settled :
      (o : Outcome (Unit {0}))
      → Settled peer o
      → Settled peer (elim o as (λ _. Outcome (Unit {0})) [
        | suspended w ↦ suspended w
        | finished t _ ↦ finished t (ok tt)
      ])
  silent-Settled (suspended w) h = h
  silent-Settled (finished t r) h = h

  -- The same of an answerer, whose session was claimed by the signal that spawned it.
  pub answer-Settled :
      (s : Session)
      → IsRouted s.wires
      → All (Respects IsRouted) s.others
      → ((t : Session) (wire : ℕ)
          → answer_session codec conn peer s.now s ≡ finished t (ok wire)
          → HasRoom t.wires)
      → Settled peer (Dialing.answer codec conn peer s)
  unfolding Dialing.answer
  answer-Settled s v k room =
      silent-Settled _ (guarded-Settled peer _ (answer_inner-Held s (v, k) room))
