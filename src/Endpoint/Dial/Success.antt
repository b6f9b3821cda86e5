-- ===== src/Endpoint/Dial/Success.antt =====
-- What a successful `connect` has reached (endpoint/src/endpoint_impl.rs).
use component_iroh.Prelude.{
  ℕ, ◌≡◌, ◌⊎◌, refl, subst, ap, ◌∙◌, true, false, Bool-cases, List, [], ◌∷◌, Option, none, some,
  Option-cases, Result, ok, err, Result-cases, inl, inr, nat_key, eq?, lookup, lookup-insert_self,
  All, arith, is_some, ◌||◌,
}
use component_iroh.Relay.Frames.{Bytes}
use component_iroh.Endpoint.Types.{SocketAddr, Error}
use component_iroh.Endpoint.Noq.{Noq}
use component_iroh.Endpoint.Wires.{Peer}
use component_iroh.Endpoint.State.{ended, State, ConnEntry, new_entry}
use component_iroh.Endpoint.State.Identity.{IsAuthentic, new_entry-IsAuthentic}
use component_iroh.Endpoint.State.Drains.{AllAuthentic}
use component_iroh.Endpoint.Inbound.Validity.{insert-AllAuthentic}
use component_iroh.Endpoint.Waiting.{wait_until, with_entry}
use component_iroh.Endpoint.Waiting.Keeping.{Settles, wait_until-Settles}
use component_iroh.Endpoint.Dial.{
  TransportAddr, endpoint_id, relay_to_dial, relay_to_upgrade, start_dial, connected_attempt,
  dial_remote,
}
use component_iroh.Endpoint.Dial.Standing.{start_dial_expects}
use component_iroh.Endpoint.Dial.Connecting.{
  Clocked, Call, ◌>>=◌, give, connect_check, Dialer, connect, dial_peer, start_call, choose_path,
}
use component_iroh.Endpoint.Dial.Awaits.{
  IsExpected, IsFair, Gives, Sure, >>=-Sure, settled-Gives, Authentic, KeyGiven, IsFairOpening,
  dial_key-Sure, upgrade_key-Sure,
}

module _ (N : Noq) where
  -- It is up, and its authenticated identity is the peer.
  abbrev pub IsUp : ℕ → Peer → State N → Type 0
  IsUp handle peer s =
      (entry : ConnEntry N) × (lookup handle s.conns ≡ some entry)
      × (entry.is_connected ≡ true)
      × (entry.peer ≡ some peer)

  lookup-IsAuthentic :
      (handle : ℕ) (entry : ConnEntry N) (conns : List (ℕ × ConnEntry N))
      → AllAuthentic N conns
      → lookup handle conns ≡ some entry
      → IsAuthentic N entry
  unfolding lookup
  lookup-IsAuthentic handle entry [] a h = absurd (ground arith)
  lookup-IsAuthentic handle entry ((j, e) ∷ conns) a h = elim (eq? j handle) [
    | yes q ↦ subst (IsAuthentic N) (same q) a.0
    | no n ↦ lookup-IsAuthentic handle entry conns a.1 (ground arith)
  ]
    where
      same : j ≡ handle → e ≡ entry
      same q = ground arith

  -- The connection is expected for the peer, among authentic ones.
  abbrev Waiting : ℕ → Peer → State N → Type 0
  Waiting handle peer s = Authentic N s × IsExpected N handle peer s

  start_dial-Gives :
      (p : Clocked N) (peer : Peer) (direct : Option SocketAddr) (to_dial : ℕ)
      (to_upgrade : Option ℕ) (s : State N) (r : Result ℕ Error)
      → start_dial N (p.0) (p.1) peer direct to_dial to_upgrade ≡ (s, r)
      → Authentic N s
      → Gives N (λ handle. Waiting handle peer) (ended ((p.0, s), some r))
  unfolding new_entry
  start_dial-Gives p peer direct to_dial to_upgrade s (err e) h v = tt
  start_dial-Gives p peer direct to_dial to_upgrade s (ok handle) h v =
      let (conn, found) =
        start_dial_expects N (p.0) (p.1) s peer direct to_dial to_upgrade handle h in
      (v, (_, found, refl))

  start_dial-Authentic :
      (now : ℕ) (s : State N) (peer : Peer) (direct : Option SocketAddr) (to_dial : ℕ)
      (to_upgrade : Option ℕ)
      → Authentic N s
      → Authentic N (start_dial N now s peer direct to_dial to_upgrade).0
  unfolding start_dial
  start_dial-Authentic now s peer direct to_dial to_upgrade v =
      elim (Bool-cases (is_some s.wires.dead || s.wires.is_closed)) [
        | inl e ↦ rw (e, start_dial) v
        | inr e ↦
            rw (e, start_dial)
              (elim (Result-cases
                (N.connect now (dial_remote s.wires peer to_dial direct).1 s.noq).1) [
                  | inl ((handle, conn), d) ↦ rw d (
                      insert-AllAuthentic N handle _ s.conns
                        (new_entry-IsAuthentic N conn (some peer) false) v)
                  | inr (text, d) ↦ rw d v
                ])
      ]

  -- The handle's connection is up, for the peer with this id.
  abbrev pub Connects : Bytes → ℕ → State N → Type 0
  Connects id handle s = (peer : Peer) × (endpoint_id id ≡ ok peer) × IsUp handle peer s

  connected_attempt-cases :
      (entry : ConnEntry N)
      → ((e : Error) × (connected_attempt N entry ≡ (entry, some (err e))))
        ⊎ (((entry.is_connected ≡ true) × (connected_attempt N entry ≡ (entry, some (ok tt))))
            ⊎ (connected_attempt N entry ≡ (entry, none)))
  unfolding connected_attempt
  connected_attempt-cases entry = elim (Option-cases entry.error) [
    | inr (e, q) ↦ inl (e, ground arith)
    | inl q ↦ elim (Bool-cases entry.is_connected) [
      | inl up ↦ inr (inl (up, ground arith))
      | inr down ↦ inr (inr (ground arith))
    ]
  ]

  connect_check-Settles :
      (id : Bytes) (handle : ℕ) (peer : Peer) (p : Clocked N)
      → endpoint_id id ≡ ok peer
      → Waiting handle peer (p.1)
      → Settles
          (λ q. Waiting handle peer (q.1))
          (λ q x. Gives N (λ (u : Unit {0}) s. Connects id handle s) (ended (q, some x)))
          (connect_check N handle p)
  unfolding with_entry
  connect_check-Settles id handle peer p h (v, (entry, found, claim)) =
      let a = lookup-IsAuthentic handle entry (p.1).conns v found in
      let kept = insert-AllAuthentic N handle entry (p.1).conns a v in
      let still = lookup-insert_self handle entry (p.1).conns in
      elim (connected_attempt-cases entry) [
        | inl (x, q) ↦ rw (found, with_entry, q) tt
        | inr (inl (up, q)) ↦
            let (name, named) = a.named up in
            let same = a.expected name peer named claim in
            rw (found, with_entry, q) (peer, h, (entry, still, up, named ∙ ap some same))
        | inr (inr q) ↦ rw (found, with_entry, q) (kept, (entry, still, claim))
      ]

  kept_turns :
      (handle : ℕ) (peer : Peer) (turns : List (Clocked N → Clocked N))
      → All (IsFair N) turns
      → All (λ f. (p : Clocked N) → Waiting handle peer (p.1) → Waiting handle peer ((f p).1)) turns
  kept_turns handle peer [] k = tt
  kept_turns handle peer (turn ∷ turns) (fair, k) = (
    λ p w. (fair.authentic p w.0, fair.expected p handle peer w.1),
    kept_turns handle peer turns k,
  )

  handshake-Sure :
      (id : Bytes) (peer : Peer) (handle : ℕ) (turns : List (Clocked N → Clocked N))
      → endpoint_id id ≡ ok peer
      → All (IsFair N) turns
      → Sure N
          (Waiting handle peer)
          (λ u s. Connects id handle s)
          (wait_until (connect_check N handle) turns)
  handshake-Sure id peer handle turns h k = record {
    sure = λ p w.
        settled-Gives N (λ q. Waiting handle peer (q.1)) (λ u s. Connects id handle s) _
          (wait_until-Settles (λ q. Waiting handle peer (q.1))
            (λ q x. Gives N (λ (u : Unit {0}) s. Connects id handle s) (ended (q, some x)))
            (connect_check N handle) (λ q v. connect_check-Settles id handle peer q h v) turns
            (kept_turns handle peer turns k) p w);
  }

  give_bind-Sure {ℓ κ} :
      {A : Type ℓ} {B : Type κ} (P : State N → Type 0) (H : B → State N → Type 0)
      (r : Result A Error) (f : A → Call N B)
      → ((a : A) → r ≡ ok a → Sure N P H (f a))
      → Sure N P H (◌>>=◌ N (give N r) f)
  unfolding ◌>>=◌
  give_bind-Sure P H (ok a) f h = record { sure = λ p v. (h a refl).sure p v }
  give_bind-Sure P H (err e) f h = record { sure = λ p v. tt }

  module _ (d : Dialer N) (id : Bytes) (peer : Peer) (named : endpoint_id id ≡ ok peer)
      (fair_dial : IsFairOpening N d.to_dial) (fair_upgrade : IsFairOpening N d.to_upgrade)
      (fair_shake : All (IsFair N) d.handshake) where
    start_dial-Sure :
        (direct : Option SocketAddr) (to_dial : ℕ) (to_upgrade : Option ℕ)
        → Sure N
            (Authentic N)
            (λ handle. Waiting handle peer)
            (start_call N peer direct to_dial to_upgrade)
    start_dial-Sure direct to_dial to_upgrade = record {
      sure = λ p v.
          start_dial-Gives p peer direct to_dial to_upgrade _ _ refl
            (start_dial-Authentic (p.0) (p.1) peer direct to_dial to_upgrade v);
    }

    handle-Sure :
        (handle : ℕ)
        → Sure N
            (Waiting handle peer)
            (Connects id)
            (◌>>=◌ N (wait_until (connect_check N handle) d.handshake) (λ _. give N (ok handle)))
    handle-Sure handle =
        >>=-Sure N (Waiting handle peer) (λ u s. Connects id handle s) (Connects id) _ _
          (handshake-Sure id peer handle d.handshake named fair_shake)
          (λ u. record { sure = λ p c. c })

    dialing-Sure :
        (addrs : List TransportAddr) (alpn : Bytes)
        → Sure N (Authentic N) (Connects id) (dial_peer N d peer addrs alpn)
    unfolding dial_peer
    dialing-Sure addrs alpn =
        >>=-Sure N (Authentic N) (λ path s. Authentic N s) (Connects id) (choose_path N d addrs) _
          (record { sure = λ p v. v })
          (λ path.
            >>=-Sure N (Authentic N) (KeyGiven N) (Connects id) _ _
              (dial_key-Sure N d.second d.to_dial (relay_to_dial path) fair_dial)
              (λ to_dial.
                >>=-Sure N (Authentic N) (λ key s. Authentic N s) (Connects id) _ _
                  (upgrade_key-Sure N d.second d.to_upgrade (relay_to_upgrade path) fair_upgrade)
                  (λ to_upgrade.
                    give_bind-Sure (Authentic N) (Connects id) (d.config peer alpn) _ (λ u e.
                      >>=-Sure N (Authentic N) (λ handle. Waiting handle peer) (Connects id) _ _
                        (start_dial-Sure path.direct to_dial to_upgrade) handle-Sure))))

  -- If what others do keeps every connection authentic and drops none that is expected, then on a
  -- state of authentic connections `connect` never panics, and when it returns a handle, the endpoint
  -- has under it a connection that is up and whose authenticated identity is the id that was dialed.
  pub connect-Connects :
      (d : Dialer N) (id : Bytes) (addrs : List TransportAddr) (alpn : Bytes) (p : Clocked N)
      → IsFairOpening N d.to_dial
      → IsFairOpening N d.to_upgrade
      → All (IsFair N) d.handshake
      → AllAuthentic N (p.1).conns
      → Gives N (Connects id) (connect N d id addrs alpn p)
  unfolding connect
  connect-Connects d id addrs alpn p dial upgrade shake v =
      (give_bind-Sure (Authentic N) (Connects id) (endpoint_id id) _
          (λ peer h. dialing-Sure d id peer h dial upgrade shake addrs alpn)).sure
        p v
