-- ===== src/Endpoint/Dial/Standing.antt =====
-- A dial keeps the state valid, and records whom it must reach (`connect` in
-- endpoint/src/endpoint_impl.rs).
use component_iroh.Prelude.{
  ℕ, ◌≡◌, refl, false, ◌||◌, Option, none, some, Option-cases, Result-cases, Bool-cases, inl, inr,
  ◌⊎◌, ok, nat_key, bytes_key, ite, eq?, lookup, insert, lookup-insert, lookup-insert_self, is_some,
  arith,
}
use component_iroh.Endpoint.Types.{SocketAddr, addr_key, RouteWire, relay, channel}
use component_iroh.Endpoint.Noq.{Noq}
use component_iroh.Endpoint.Wires.{Peer, ChannelEntry, Wires, addr_for_peer, fresh_addr}
use component_iroh.Endpoint.Wires.Routing.{IsRouted, HasRoom, addr_for_peer-IsRouted}
use component_iroh.Endpoint.State.{State, new_entry}
use component_iroh.Endpoint.State.Identity.{new_entry-IsAuthentic}
use component_iroh.Endpoint.State.Drains.{IsValid}
use component_iroh.Endpoint.Inbound.Validity.{insert-AllAuthentic}
use component_iroh.Endpoint.Dial.{dial_standin, dial_remote, push_upgrade, start_dial}

rerouted-IsRouted :
    (w : Wires) (a : SocketAddr) (old new : ℕ)
    → IsRouted w
    → lookup a w.routes ≡ some (relay old)
    → IsRouted (record w { routes = insert a (relay new) w.routes })
rerouted-IsRouted w a old new v e = record {
  peer_addr = v.peer_addr;
  addr_peer = v.addr_peer;
  standins = v.standins;
  known = λ b r h. elim (eq? a b) [
    | yes q ↦ let (p, k) = v.known a (relay old) e in (p, ground arith)
    | no n ↦ v.known b r (ground (arith, to_route b))
  ];
  routed = λ b p h. elim (eq? a b) [
    | yes q ↦ (relay new, ground (arith, to_route b))
    | no n ↦ let (r, k) = v.routed b p h in (r, ground (arith, to_route b))
  ];
  live = λ b id h. v.live b id (ground (arith, to_route b));
  ids = v.ids;
}
  where
    to_route :
        (b : SocketAddr)
        → lookup b (insert a (relay new) w.routes)
          ≡ ite (eq? a b) (some (relay new)) (lookup b w.routes)
    to_route b = lookup-insert a b (relay new) w.routes

dial_standin-IsRouted :
    (w : Wires) (peer : Peer) (dial_key : ℕ)
    → HasRoom w
    → IsRouted w
    → IsRouted (dial_standin w peer dial_key).0
unfolding dial_standin
dial_standin-IsRouted w peer dial_key room v =
    let v' = addr_for_peer-IsRouted w v peer dial_key room.0 in
    go (lookup (addr_for_peer w peer dial_key).1 (addr_for_peer w peer dial_key).0.routes) refl v'
  where
    go :
        (r : Option RouteWire)
        → lookup (addr_for_peer w peer dial_key).1 (addr_for_peer w peer dial_key).0.routes ≡ r
        → IsRouted (addr_for_peer w peer dial_key).0
        → IsRouted (dial_standin w peer dial_key).0
    go (some (relay old)) e v' =
        rw (e, dial_standin)
          (rerouted-IsRouted (addr_for_peer w peer dial_key).0 (addr_for_peer w peer dial_key).1 old
            dial_key v' e)
    go (some (channel id)) e v' = rw (e, dial_standin) v'
    go none e v' = rw (e, dial_standin) v'

-- Whom a dial through a relay reaches: the peer's own standin, over the relay of the dial or over an
-- open channel to that peer.
pub Reaches : Wires × SocketAddr → Peer → ℕ → Type 0
Reaches r peer dial_key =
    (lookup r.1 r.0.addr_to_peer ≡ some peer)
    × ((lookup r.1 r.0.routes ≡ some (relay dial_key))
        ⊎ ((id : ℕ) × (wire : ChannelEntry) × (lookup r.1 r.0.routes ≡ some (channel id))
            × (lookup id r.0.channels ≡ some wire)
            × (wire.peer ≡ peer)))

addr_for_peer-owner :
    (w : Wires) (peer : Peer) (via : ℕ)
    → IsRouted w
    → lookup (addr_for_peer w peer via).1 (addr_for_peer w peer via).0.addr_to_peer ≡ some peer
unfolding addr_for_peer fresh_addr
addr_for_peer-owner w peer via v = elim (Option-cases (lookup peer w.peer_to_addr)) [
  | inl e ↦ rw (e, addr_for_peer) (lookup-insert_self _ peer w.addr_to_peer)
  | inr (addr, e) ↦ rw (e, addr_for_peer) (v.peer_addr peer addr e)
]

-- In consistent tables with room, a dial through a relay goes to the standin of the dialed peer,
-- which then routes to that relay, or to an open channel to that peer.
pub dial_standin-Reaches :
    (w : Wires) (peer : Peer) (dial_key : ℕ)
    → HasRoom w
    → IsRouted w
    → Reaches (dial_standin w peer dial_key) peer dial_key
unfolding dial_standin Reaches
dial_standin-Reaches w peer dial_key room v =
    let v' = addr_for_peer-IsRouted w v peer dial_key room.0 in
    let (r, e) = v'.routed (addr_for_peer w peer dial_key).1 peer owner in go r e v'
  where
    owner :
        lookup (addr_for_peer w peer dial_key).1 (addr_for_peer w peer dial_key).0.addr_to_peer
        ≡ some peer
    owner = addr_for_peer-owner w peer dial_key v

    go :
        (r : RouteWire)
        → lookup (addr_for_peer w peer dial_key).1 (addr_for_peer w peer dial_key).0.routes ≡ some r
        → IsRouted (addr_for_peer w peer dial_key).0
        → Reaches (dial_standin w peer dial_key) peer dial_key
    go (relay old) e v' =
        rw (e, dial_standin) (owner, inl (lookup-insert_self _ (relay dial_key) _))
    go (channel id) e v' =
        let (wire, k, o) = v'.live (addr_for_peer w peer dial_key).1 id e in
        rw (e, dial_standin) (owner, inr (id, wire, e, k, ground (arith, owner)))

dial_remote-IsRouted :
    (w : Wires) (peer : Peer) (dial_key : ℕ) (direct : Option SocketAddr)
    → HasRoom w
    → IsRouted w
    → IsRouted (dial_remote w peer dial_key direct).0
unfolding dial_remote
dial_remote-IsRouted w peer dial_key (some real) room v = v
dial_remote-IsRouted w peer dial_key none room v = dial_standin-IsRouted w peer dial_key room v

push_upgrade-IsRouted :
    (N : Noq) (w : Wires) (peer : Peer) (upgrade_key : Option ℕ)
    → IsRouted w
    → IsRouted (push_upgrade N w peer upgrade_key)
push_upgrade-IsRouted N w peer none v = v
push_upgrade-IsRouted N w peer (some key) v = v

module _ (N : Noq) where
  -- A dial keeps the state valid, while there is room for one more standin, whatever the QUIC crate
  -- answers.
  pub start_dial-IsValid :
      (now : ℕ) (s : State N) (peer : Peer) (direct : Option SocketAddr) (dial_key : ℕ)
      (upgrade_key : Option ℕ)
      → HasRoom s.wires
      → IsValid N s
      → IsValid N (start_dial N now s peer direct dial_key upgrade_key).0
  unfolding start_dial
  start_dial-IsValid now s peer direct dial_key upgrade_key room v =
      elim (Bool-cases (is_some s.wires.dead || s.wires.is_closed)) [
        | inl e ↦ rw (e, start_dial) v
        | inr e ↦
            rw (e, start_dial)
              (elim (Result-cases
                (N.connect now (dial_remote s.wires peer dial_key direct).1 s.noq).1) [
                  | inl ((handle, conn), d) ↦ rw d (record {
                    tables_ok =
                        push_upgrade-IsRouted N _ peer upgrade_key
                          (dial_remote-IsRouted s.wires peer dial_key direct room v.tables_ok);
                    authentic =
                        insert-AllAuthentic N handle _ s.conns
                          (new_entry-IsAuthentic N conn (some peer) false) v.authentic;
                  })
                  | inr (text, d) ↦ rw d (record {
                    tables_ok = dial_remote-IsRouted s.wires peer dial_key direct room v.tables_ok;
                    authentic = v.authentic;
                  })
                ])
      ]

  -- A dial that starts records the connection under its handle with the dialed peer as the one
  -- expected, as not accepted and not yet connected.
  pub start_dial_expects :
      (now : ℕ) (s s' : State N) (peer : Peer) (direct : Option SocketAddr) (dial_key : ℕ)
      (upgrade_key : Option ℕ) (handle : ℕ)
      → start_dial N now s peer direct dial_key upgrade_key ≡ (s', ok handle)
      → (conn : N.Conn) × (lookup handle s'.conns ≡ some (new_entry N conn (some peer) false))
  unfolding start_dial
  start_dial_expects now s s' peer direct dial_key upgrade_key handle h =
      elim (Bool-cases (is_some s.wires.dead || s.wires.is_closed)) [
        | inl e ↦ absurd (ground arith)
        | inr e ↦
            elim (Result-cases
              (N.connect now (dial_remote s.wires peer dial_key direct).1 s.noq).1) [
                | inl ((handle', conn), d) ↦ (
                  conn,
                  ground (
                    arith,
                    lookup-insert_self handle' (new_entry N conn (some peer) false) s.conns,
                  ),
                )
                | inr (text, d) ↦ absurd (ground arith)
              ]
      ]
