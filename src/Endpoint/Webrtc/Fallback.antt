-- ===== src/Endpoint/Webrtc/Fallback.antt =====
-- Where a peer's route returns when its channel dies (endpoint/src/webrtc.rs, and register_channel and
-- retire_channel of endpoint/src/endpoint_impl.rs).
use component_iroh.Prelude.{
  ℕ, ◌≡◌, refl, ◌∙◌, ap, All, none, some, ok, err, Result-cases, inl, inr, false, bytes_key,
  nat_key, lookup, lookup-insert_self, lookup-remove, arith, unwrap_or,
}
use component_iroh.Endpoint.Types.{SocketAddr, addr_key, relay, channel}
use component_iroh.Endpoint.Wires.{
  Peer, Wires, begin_signaling, end_signaling, register_channel, push_signal_outbound,
  is_closed_or_dead, signaling_relay, home_relay, retire_channel, addr_for_peer, next_u32,
}
use component_iroh.Endpoint.Wires.Routing.{
  IsRouted, HasRoom, addr_for_peer-IsRouted, addr_for_peer-owner, open_channel-IsRouted,
}
use component_iroh.Endpoint.Wires.Channels.{new_entry, opened}
use component_iroh.Endpoint.Webrtc.{Json}
use component_iroh.Endpoint.Webrtc.Dance.{Session, Outcome, finished, suspended, ◌>>=◌}
use component_iroh.Endpoint.Webrtc.Dialing.{
  PeerConnection, guarded, dial_session, dial, upgrade, answer_session, answer_inner,
}
use component_iroh.Endpoint.Webrtc.Dialing
use component_iroh.Endpoint.Webrtc.Holding.{IsSignalProof, Respects, IsKept}
use component_iroh.Endpoint.Webrtc.Danced.{answer_session-Holds}

-- The peer's standin leads to a channel, and when that is retired, to this relay.
pub record FallsBack (w : Wires) (peer : Peer) (key : ℕ) : Type 0 where
  pub standin : SocketAddr
  pub id : ℕ
  pub of_peer : lookup peer w.peer_to_addr ≡ some standin
  pub on_channel : lookup standin w.routes ≡ some (channel id)
  pub retired : lookup standin (retire_channel w id).routes ≡ some (relay key)

-- The peer's standin leads to a channel that falls back to this relay.
record Leads (w : Wires) (peer : Peer) (key : ℕ) : Type 0 where
  wire : ℕ
  id : ℕ
  standin : SocketAddr
  open_as : lookup id w.channels ≡ some (record { wire = wire; peer = peer; fallback_relay = key })
  of_peer : lookup peer w.peer_to_addr ≡ some standin
  on_channel : lookup standin w.routes ≡ some (channel id)

Leads-FallsBack : (w : Wires) (peer : Peer) (key : ℕ) → Leads w peer key → FallsBack w peer key
unfolding retire_channel
Leads-FallsBack w peer key l = record {
  standin = l.standin;
  id = l.id;
  of_peer = l.of_peer;
  on_channel = l.on_channel;
  retired =
      rw (l.open_as, retire_channel, l.of_peer, l.on_channel)
        (ground (arith, lookup-insert_self l.standin (relay key) w.routes));
}

end_signaling-Leads :
    (w : Wires) (peer : Peer) (key : ℕ) → Leads w peer key → Leads (end_signaling w peer) peer key
unfolding end_signaling
end_signaling-Leads w peer key l = record {
  wire = l.wire;
  id = l.id;
  standin = l.standin;
  open_as = l.open_as;
  of_peer = l.of_peer;
  on_channel = l.on_channel;
}

register_channel-Leads :
    (w : Wires) (peer : Peer) (wire key : ℕ)
    → IsRouted w
    → HasRoom w
    → is_closed_or_dead w ≡ false
    → unwrap_or (lookup peer w.signaling) home_relay ≡ key
    → Leads (register_channel w peer wire).0 peer key
unfolding register_channel signaling_relay
register_channel-Leads w peer wire key v room live falls =
    let id = next_u32 w.next_channel_id in
    let entry = new_entry w peer wire in
    let (w2, a) = addr_for_peer (opened w peer wire) peer entry.fallback_relay in
    let v1 : IsRouted (opened w peer wire) = open_channel-IsRouted w v entry room.1 in
    let v2 = addr_for_peer-IsRouted (opened w peer wire) v1 peer entry.fallback_relay room.0 in
    let (owner, same, _) = addr_for_peer-owner (opened w peer wire) v1 peer entry.fallback_relay in
    rw (live, register_channel)
      (record {
        wire = wire;
        id = id;
        standin = a;
        open_as = rw same (
            lookup-insert_self id entry w.channels
            ∙ ap (λ k. some (record entry { fallback_relay = k })) falls);
        of_peer = v2.addr_peer a peer owner;
        on_channel = lookup-insert_self a (channel id) w2.routes;
      })

-- A success of the guarded dance leaves no session's slot.
abbrev FreesOnSuccess {ℓ} : {A : Type ℓ} → Peer → Outcome A → Type 0
FreesOnSuccess peer (finished t (ok a)) = lookup peer t.wires.signaling ≡ none
FreesOnSuccess peer _ = Unit

guarded-FreesOnSuccess {ℓ} :
    {A : Type ℓ} (peer : Peer) (o : Outcome A) → FreesOnSuccess peer (guarded peer o)
unfolding guarded end_signaling
guarded-FreesOnSuccess peer (finished t (ok a)) =
    ground (arith, lookup-remove peer peer t.wires.signaling)
guarded-FreesOnSuccess peer (finished t (err e)) = tt
guarded-FreesOnSuccess peer (suspended w) = tt

module _ (codec : Json) (conn : PeerConnection) (peer : Peer) (via : ℕ) where
  dial-FreesOnSuccess : (s : Session) → FreesOnSuccess peer (dial codec conn peer via s)
  unfolding dial
  dial-FreesOnSuccess s = elim (Result-cases (begin_signaling s.wires peer via)) [
    | inr (e, q) ↦ rw (q, dial) tt
    | inl (w, q) ↦ rw (q, dial) (guarded-FreesOnSuccess peer _)
  ]

  -- When an upgrade through the relay `via` succeeds, on consistent tables with room and an open
  -- endpoint, the peer's standin leads to the new channel. When that channel is retired, the standin
  -- goes to the home relay, whichever relay the session went through.
  pub upgrade-FallsBack :
      (s t : Session) (wire : ℕ)
      → dial codec conn peer via s ≡ finished t (ok wire)
      → IsRouted t.wires
      → HasRoom t.wires
      → is_closed_or_dead t.wires ≡ false
      → (t' : Session) × (upgrade codec conn peer via s ≡ finished t' (ok tt))
        × FallsBack t'.wires peer home_relay
  unfolding upgrade
  upgrade-FallsBack s t wire e v room live =
      let free : lookup peer t.wires.signaling ≡ none = rw e at (dial-FreesOnSuccess s) in
      rw (e, upgrade)
        (
          _,
          refl,
          Leads-FallsBack _ peer home_relay
              (register_channel-Leads t.wires peer wire home_relay v room live (rw free refl)),
        )

  -- The session's slot is there, on consistent tables.
  abbrev pub IsOwned : Wires → Type 0
  IsOwned w = IsRouted w × (lookup peer w.signaling ≡ some via)

  IsOwned-IsSignalProof : IsSignalProof IsOwned
  unfolding push_signal_outbound
  IsOwned-IsSignalProof = record { queued = λ w other to payload v. v; read = λ w from inbox v. v }

  -- When an answerer succeeds whose session was claimed for the relay `via`, and that the others do
  -- not end, then with room and an open endpoint the peer's standin leads to the new channel. When
  -- that channel is retired, the standin goes to `via`.
  pub answer-FallsBack :
      (s t : Session) (wire : ℕ)
      → IsOwned s.wires
      → All (Respects IsOwned) s.others
      → answer_session codec conn peer s.now s ≡ finished t (ok wire)
      → HasRoom t.wires
      → is_closed_or_dead t.wires ≡ false
      → (t' : Session) × (Dialing.answer codec conn peer s ≡ finished t' (ok tt))
        × FallsBack t'.wires peer via
  unfolding Dialing.answer answer_inner ◌>>=◌ guarded
  answer-FallsBack s t wire owned k e room live =
      let ((v, slot), _) : IsKept IsOwned t = rw e at (
        (answer_session-Holds IsOwned IsOwned-IsSignalProof codec conn peer s.now).holds s
          (owned, k)) in
      let l = register_channel-Leads t.wires peer wire via v room live (rw slot refl) in
      rw (e, Dialing.answer, answer_inner)
        (_, refl, Leads-FallsBack _ peer via (end_signaling-Leads _ peer via l))
