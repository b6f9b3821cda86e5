-- ===== src/Endpoint/Wires/Routing.antt =====
-- The routing tables: standins are one-to-one with peers, every standin has a route, and a route
-- onto a channel is live and leads to the standin's own peer.
use component_iroh.Prelude.{
  ℕ, ◌+◌, ◌^◌, ◌≡◌, ◌<◌, ◌≤◌, refl, sym, Bool, List, none, some, ite, eq?, bytes_key, nat_key,
  lookup, insert, lookup-insert, lookup-insert_self, arith, Option-cases, inl, inr,
}
use component_iroh.Endpoint.Types.{
  SocketAddr, addr_key, RouteWire, relay, channel, doc_prefix_addr, doc_prefix_addr-injective,
}
use component_iroh.Endpoint.Wires.{
  Peer, ChannelEntry, Wires, new_wires, next_u32, fresh_addr, addr_for_peer,
}

-- The fields of `Wires` that routing rests on.
pub record Tables : Type 0 where
  pub peer_to_addr : List (Peer × SocketAddr)
  pub addr_to_peer : List (SocketAddr × Peer)
  pub next_host : ℕ
  pub routes : List (SocketAddr × RouteWire)
  pub channels : List (ℕ × ChannelEntry)
  pub next_channel_id : ℕ

abbrev pub tables : Wires → Tables
tables w = record {
  peer_to_addr = w.peer_to_addr;
  addr_to_peer = w.addr_to_peer;
  next_host = w.next_host;
  routes = w.routes;
  channels = w.channels;
  next_channel_id = w.next_channel_id;
}

abbrev pub Standin : Tables → SocketAddr → Type 0
Standin w a = (host : ℕ) × (host ≤ w.next_host) × (a ≡ doc_prefix_addr 0x77 host)

pub record IsConsistent (w : Tables) : Type 0 where
  pub peer_addr :
      (p : Peer) (a : SocketAddr)
      → lookup p w.peer_to_addr ≡ some a
      → lookup a w.addr_to_peer ≡ some p
  pub addr_peer :
      (a : SocketAddr) (p : Peer)
      → lookup a w.addr_to_peer ≡ some p
      → lookup p w.peer_to_addr ≡ some a
  pub standins : (a : SocketAddr) (p : Peer) → lookup a w.addr_to_peer ≡ some p → Standin w a
  pub known :
      (a : SocketAddr) (r : RouteWire)
      → lookup a w.routes ≡ some r
      → (p : Peer) × (lookup a w.addr_to_peer ≡ some p)
  pub routed :
      (a : SocketAddr) (p : Peer)
      → lookup a w.addr_to_peer ≡ some p
      → (r : RouteWire) × (lookup a w.routes ≡ some r)
  pub live :
      (a : SocketAddr) (id : ℕ)
      → lookup a w.routes ≡ some (channel id)
      → (e : ChannelEntry) × (lookup id w.channels ≡ some e)
        × (lookup a w.addr_to_peer ≡ some e.peer)
  pub ids : (id : ℕ) (e : ChannelEntry) → lookup id w.channels ≡ some e → id ≤ w.next_channel_id

abbrev pub IsRouted : Wires → Type 0
IsRouted w = IsConsistent (tables w)

-- The u32 counters can still be raised without a wrap.
abbrev pub HasRoom : Wires → Type 0
HasRoom w = (w.next_host + 1 < 2 ^ 32) × (w.next_channel_id + 1 < 2 ^ 32)

pub new_wires-IsRouted : (webrtc_enabled : Bool) → IsRouted (new_wires webrtc_enabled)
unfolding new_wires lookup
new_wires-IsRouted b = record {
  peer_addr = λ p a h. absurd (ground arith);
  addr_peer = λ p a h. absurd (ground arith);
  standins = λ p a h. absurd (ground arith);
  known = λ p a h. absurd (ground arith);
  routed = λ p a h. absurd (ground arith);
  live = λ p a h. absurd (ground arith);
  ids = λ p a h. absurd (ground arith);
}

module _ (w : Wires) (v : IsRouted w) where
  abbrev next_addr : SocketAddr
  next_addr = doc_prefix_addr 0x77 (next_u32 w.next_host)

  next_addr-unused : w.next_host + 1 < 2 ^ 32 → lookup next_addr w.addr_to_peer ≡ none
  next_addr-unused room = elim (Option-cases (lookup next_addr w.addr_to_peer)) [
    | inl e ↦ e
    | inr (p, e) ↦
        let (host, bound, same) = v.standins next_addr p e in
        absurd (
          omega (
            arith,
            doc_prefix_addr-injective 0x77 (next_u32 w.next_host) host (omega arith) (omega arith)
                same,
          ))
  ]

  fresh_addr-IsRouted :
      (peer : Peer) (via : ℕ)
      → w.next_host + 1 < 2 ^ 32
      → lookup peer w.peer_to_addr ≡ none
      → IsRouted (fresh_addr w peer via).0
  unfolding fresh_addr
  fresh_addr-IsRouted peer via room new = record {
    peer_addr = λ p a h. ground (arith, unused, to_addr p, to_peer a, v.peer_addr p a);
    addr_peer = λ a p h. ground (arith, new, to_addr p, to_peer a, v.addr_peer a p);
    standins = λ a p h. elim (eq? next_addr a) [
      | yes e ↦ (next_u32 w.next_host, omega arith, sym e)
      | no n ↦
          let (host, bound, same) = v.standins a p (ground (arith, to_peer a)) in
          (host, omega arith, same)
    ];
    known = λ a r h. elim (eq? next_addr a) [
      | yes e ↦ (peer, ground (arith, to_peer a))
      | no n ↦
          let (p, k) = v.known a r (ground (arith, to_route a)) in (p, ground (arith, to_peer a))
    ];
    routed = λ a p h. elim (eq? next_addr a) [
      | yes e ↦ (relay via, ground (arith, to_route a))
      | no n ↦
          let (r, k) = v.routed a p (ground (arith, to_peer a)) in (r, ground (arith, to_route a))
    ];
    live = λ a id h. elim (eq? next_addr a) [
      | yes e ↦ absurd (ground (arith, to_route a))
      | no n ↦
          let (entry, k, o) = v.live a id (ground (arith, to_route a)) in
          (entry, k, ground (arith, to_peer a))
    ];
    ids = v.ids;
  }
    where
      unused : lookup next_addr w.addr_to_peer ≡ none
      unused = next_addr-unused room

      to_addr :
          (p : Peer)
          → lookup p (insert peer next_addr w.peer_to_addr)
            ≡ ite (eq? peer p) (some next_addr) (lookup p w.peer_to_addr)
      to_addr p = lookup-insert peer p next_addr w.peer_to_addr

      to_peer :
          (a : SocketAddr)
          → lookup a (insert next_addr peer w.addr_to_peer)
            ≡ ite (eq? next_addr a) (some peer) (lookup a w.addr_to_peer)
      to_peer a = lookup-insert next_addr a peer w.addr_to_peer

      to_route :
          (a : SocketAddr)
          → lookup a (insert next_addr (relay via) w.routes)
            ≡ ite (eq? next_addr a) (some (relay via)) (lookup a w.routes)
      to_route a = lookup-insert next_addr a (relay via) w.routes

  pub addr_for_peer-IsRouted :
      (peer : Peer) (via : ℕ) → w.next_host + 1 < 2 ^ 32 → IsRouted (addr_for_peer w peer via).0
  unfolding addr_for_peer
  addr_for_peer-IsRouted peer via room = elim (Option-cases (lookup peer w.peer_to_addr)) [
    | inl e ↦ rw (e, addr_for_peer) (fresh_addr-IsRouted peer via room e)
    | inr (a, e) ↦ rw (e, addr_for_peer) v
  ]

  pub addr_for_peer-owner :
      (peer : Peer) (via : ℕ)
      → let (w', a) = addr_for_peer w peer via in
        (lookup a w'.addr_to_peer ≡ some peer)
        × (w'.channels ≡ w.channels)
        × (w'.next_channel_id ≡ w.next_channel_id)
  unfolding addr_for_peer fresh_addr
  addr_for_peer-owner peer via = elim (Option-cases (lookup peer w.peer_to_addr)) [
    | inl e ↦ rw (e, addr_for_peer) (lookup-insert_self next_addr peer w.addr_to_peer, refl, refl)
    | inr (a, e) ↦ rw (e, addr_for_peer) (v.peer_addr peer a e, refl, refl)
  ]

  -- A new channel under an unused id leaves the tables consistent.
  pub open_channel-IsRouted :
      (entry : ChannelEntry)
      → w.next_channel_id + 1 < 2 ^ 32
      → let id = next_u32 w.next_channel_id in
        IsRouted (record w { next_channel_id = id; channels = insert id entry w.channels })
  open_channel-IsRouted entry room = record {
    peer_addr = v.peer_addr;
    addr_peer = v.addr_peer;
    standins = v.standins;
    known = v.known;
    routed = v.routed;
    live = λ a id h.
        let (e, k, o) = v.live a id h in
        let old = v.ids id e k in
        let fresh = lookup-insert (next_u32 w.next_channel_id) id entry w.channels in
        (e, ground (arith, fresh), o);
    ids = λ id e h.
        let fresh = lookup-insert (next_u32 w.next_channel_id) id entry w.channels in
        ground (arith, fresh, v.ids id e);
  }

  -- The standin of a channel's own peer may be routed onto it.
  pub flip_route-IsRouted :
      (a : SocketAddr) (id : ℕ) (entry : ChannelEntry)
      → lookup a w.addr_to_peer ≡ some entry.peer
      → lookup id w.channels ≡ some entry
      → IsRouted (record w { routes = insert a (channel id) w.routes })
  flip_route-IsRouted a id entry owner opened = record {
    peer_addr = v.peer_addr;
    addr_peer = v.addr_peer;
    standins = v.standins;
    known = λ b r h. elim (eq? a b) [
      | yes e ↦ (entry.peer, ground arith)
      | no n ↦ v.known b r (ground (arith, to_route b))
    ];
    routed = λ b p h. elim (eq? a b) [
      | yes e ↦ (channel id, ground (arith, to_route b))
      | no n ↦ let (r, k) = v.routed b p h in (r, ground (arith, to_route b))
    ];
    live = λ b id' h. elim (eq? a b) [
      | yes e ↦ (entry, ground (arith, to_route b), ground arith)
      | no n ↦ v.live b id' (ground (arith, to_route b))
    ];
    ids = v.ids;
  }
    where
      to_route :
          (b : SocketAddr)
          → lookup b (insert a (channel id) w.routes)
            ≡ ite (eq? a b) (some (channel id)) (lookup b w.routes)
      to_route b = lookup-insert a b (channel id) w.routes
