-- ===== src/Endpoint/Dial/Connecting.antt =====
-- `connect` as a whole, and `ensure_relay` with its awaits (endpoint/src/endpoint_impl.rs).
use component_iroh.Prelude.{ℕ, Bool, List, Option, none, some, Result, ok, err, Text}
use component_iroh.Relay.Frames.{Bytes}
use component_iroh.Endpoint.Types.{SocketAddr, Error}
use component_iroh.Endpoint.Noq.{Noq}
use component_iroh.Endpoint.Wires.{Peer, home_relay}
use component_iroh.Endpoint.State.{Run, ended, panicked, out_of_fuel, State}
use component_iroh.Endpoint.Waiting.{wait_until, with_entry}
use component_iroh.Endpoint.Dial.{
  TransportAddr, DialPath, dial_path, relay_to_dial, relay_to_upgrade, claim_relay, pooled,
  refused_claim, claimed, waits, finish_open, wait_relay, endpoint_id, start_dial,
  connected_attempt,
}

module _ (N : Noq) where
  -- The clock and the state. A turn is what others do to both at an await.
  abbrev pub Clocked : Type 0
  Clocked = ℕ × State N

  -- A call that has not returned when the list of a wait's turns ends gives `none`.
  abbrev pub Call {ℓ} : Type ℓ → Type ℓ
  Call A = Clocked → Run (Clocked × Option (Result A Error))

  infixl 5 ◌>>=◌
  unfoldable pub ◌>>=◌ {ℓ κ} : {A : Type ℓ} {B : Type κ} → Call A → (A → Call B) → Call B
  (m >>= f) p = elim (m p) [
    | panicked ↦ panicked
    | out_of_fuel ↦ out_of_fuel
    | ended (q, none) ↦ ended (q, none)
    | ended (q, some (err e)) ↦ ended (q, some (err e))
    | ended (q, some (ok a)) ↦ f a q
  ]

  abbrev pub give {ℓ} : {A : Type ℓ} → Result A Error → Call A
  give r p = ended (p, some r)

  -- What an open of a relay meets: the turn of the others while it is made and its result, for the
  -- one that claims it, and the turns for one that waits.
  pub record Opening : Type 0 where
    pub during : Clocked → Clocked
    pub opened : Result ℕ Text
    pub waiting : List (Clocked → Clocked)

  abbrev pub wait_check : (second started : ℕ) → Text → Call ℕ
  wait_check second started url p = ended (p, wait_relay second (p.0) started url ((p.1).wires))

  unfoldable pub ensure_relay : (second : ℕ) → Opening → Text → Call ℕ
  unfolding claim_relay finish_open wait_until
  ensure_relay second o url p =
      let (w, claim) = claim_relay ((p.1).wires) url in
      let q : Clocked = (p.0, record (p.1) { wires = w }) in
      elim claim [
        | pooled key ↦ ended (q, some (ok key))
        | refused_claim e ↦ ended (q, some (err e))
        | claimed ↦
            let (now, s) = o.during q in
            let (w', result) = finish_open s.wires url o.opened in
            ended ((now, record s { wires = w' }), some result)
        | waits ↦ wait_until (wait_check second (p.0) url) o.waiting q
      ]

  -- The keys that the dial and the upgrade take.
  unfoldable pub dial_key : (second : ℕ) → Opening → Option Text → Call ℕ
  unfolding ensure_relay
  dial_key second o none = give (ok home_relay)
  dial_key second o (some url) = ensure_relay second o url

  unfoldable pub upgrade_key : (second : ℕ) → Opening → Option Text → Call (Option ℕ)
  unfolding ensure_relay ◌>>=◌
  upgrade_key second o none = give (ok none)
  upgrade_key second o (some url) = ensure_relay second o url >>= (λ key. give (ok (some key)))

  abbrev pub with_clock {ℓ} : {R : Type ℓ} → ℕ → Run (State N × R) → Run (Clocked × R)
  with_clock now (ended (s, r)) = ended ((now, s), r)
  with_clock now panicked = panicked
  with_clock now out_of_fuel = out_of_fuel

  abbrev pub connect_check : ℕ → Call (Unit {0})
  connect_check handle p = with_clock (p.0) (with_entry N handle (connected_attempt N) (p.1))

  -- `config` makes the TLS and QUIC configuration for the peer and the protocol; `second` is in the
  -- unit of the clock.
  pub record Dialer : Type 0 where
    pub parse : Text → Option SocketAddr
    pub has_udp : Bool
    pub second : ℕ
    pub config : Peer → Bytes → Result (Unit {0}) Error
    pub to_dial : Opening
    pub to_upgrade : Opening
    pub handshake : List (Clocked → Clocked)

  abbrev pub choose_path : Dialer → List TransportAddr → Call DialPath
  choose_path d addrs p =
      ended (p, some (ok (dial_path d.parse d.has_udp (p.1).wires.webrtc_enabled addrs)))

  abbrev pub start_call : Peer → Option SocketAddr → ℕ → Option ℕ → Call ℕ
  start_call peer direct to_dial to_upgrade p =
      let (s, dialed) = start_dial N (p.0) (p.1) peer direct to_dial to_upgrade in
      ended ((p.0, s), some dialed)

  unfoldable pub dial_peer : Dialer → Peer → List TransportAddr → Bytes → Call ℕ
  unfolding ◌>>=◌ dial_path dial_key upgrade_key start_dial wait_until
  dial_peer d peer addrs alpn = do
    path ← choose_path d addrs
    to_dial ← dial_key d.second d.to_dial (relay_to_dial path)
    to_upgrade ← upgrade_key d.second d.to_upgrade (relay_to_upgrade path)
    _ ← give (d.config peer alpn)
    handle ← start_call peer path.direct to_dial to_upgrade
    _ ← wait_until (connect_check handle) d.handshake
    give (ok handle)

  unfoldable pub connect : Dialer → Bytes → List TransportAddr → Bytes → Call ℕ
  unfolding ◌>>=◌ endpoint_id dial_peer
  connect d id addrs alpn = do peer ← give (endpoint_id id); dial_peer d peer addrs alpn
