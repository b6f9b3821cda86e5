-- ===== src/Endpoint/Wires/Channels.antt =====
-- Channels come and go without breaking the routing tables.
use component_iroh.Prelude.{
  ℕ, ◌≡◌, ◌≢◌, ap, ◌∙◌, true, [], ◌∷◌, ◌++◌, Option, none, some, ite, eq?, bytes_key, nat_key,
  lookup, insert, remove, lookup-insert, lookup-remove, lookup-insert_self, unwrap_or, arith,
  Option-cases, inl, inr, Bool-cases,
}
use component_iroh.Endpoint.Types.{SocketAddr, addr_key, RouteWire, relay, channel}
use component_iroh.Endpoint.Wires.{
  Peer, ChannelEntry, Wires, next_u32, addr_for_peer, register_channel, retire_channel,
  is_closed_or_dead, signaling_relay, home_relay, is_channel,
}
use component_iroh.Endpoint.Wires.Routing.{
  IsRouted, HasRoom, addr_for_peer-IsRouted, addr_for_peer-owner, open_channel-IsRouted,
  flip_route-IsRouted,
}

abbrev pub new_entry : Wires → Peer → ℕ → ChannelEntry
new_entry w peer wire = record {
  wire = wire;
  peer = peer;
  fallback_relay = unwrap_or (signaling_relay w peer) home_relay;
}

abbrev pub opened : Wires → Peer → ℕ → Wires
opened w peer wire =
    let id = next_u32 w.next_channel_id in
    record w {
      next_channel_id = id;
      channels = insert id (new_entry w peer wire) w.channels;
      new_channels = w.new_channels ++ ((id, wire) ∷ []);
    }

pub register_channel-IsRouted :
    (w : Wires) (peer : Peer) (wire : ℕ)
    → HasRoom w
    → IsRouted w
    → IsRouted (register_channel w peer wire).0
unfolding register_channel
register_channel-IsRouted w peer wire room v = elim (Bool-cases (is_closed_or_dead w)) [
  | inl e ↦ rw (e, register_channel) v
  | inr e ↦
      let id = next_u32 w.next_channel_id in
      let entry = new_entry w peer wire in
      let (w2, a) = addr_for_peer (opened w peer wire) peer entry.fallback_relay in
      let v1 : IsRouted (opened w peer wire) = open_channel-IsRouted w v entry room.1 in
      let v2 = addr_for_peer-IsRouted (opened w peer wire) v1 peer entry.fallback_relay room.0 in
      let (owner, same, _) =
        addr_for_peer-owner (opened w peer wire) v1 peer entry.fallback_relay in
      rw (e, register_channel)
        (flip_route-IsRouted w2 v2 a id entry owner
          (rw same (lookup-insert_self id entry w.channels)))
]

module _ (w : Wires) (v : IsRouted w) (id : ℕ) (entry : ChannelEntry)
    (opened_as : lookup id w.channels ≡ some entry) where
  removed : (j : ℕ) → lookup j (remove id w.channels) ≡ ite (eq? id j) none (lookup j w.channels)
  removed j = lookup-remove id j w.channels

  -- Every route onto the channel belongs to its peer's one standin.
  route_owner :
      (a : SocketAddr)
      → lookup a w.routes ≡ some (channel id)
      → lookup entry.peer w.peer_to_addr ≡ some a
  route_owner a h =
      let (e, k, o) = v.live a id h in
      let same : e ≡ entry = ground arith in
      v.addr_peer a entry.peer (o ∙ ap (λ (x : ChannelEntry). some x.peer) same)

  unrouted-IsRouted :
      ((a : SocketAddr) → lookup a w.routes ≢ some (channel id))
      → IsRouted (record w { channels = remove id w.channels })
  unrouted-IsRouted free = record {
    peer_addr = v.peer_addr;
    addr_peer = v.addr_peer;
    standins = v.standins;
    known = v.known;
    routed = v.routed;
    live = λ a j h. let (e, k, o) = v.live a j h in (e, ground (arith, removed j, free a), o);
    ids = λ j e h. ground (arith, removed j, v.ids j e);
  }

  rerouted-IsRouted :
      (a : SocketAddr) (key : ℕ)
      → lookup entry.peer w.peer_to_addr ≡ some a
      → IsRouted
          (record w { channels = remove id w.channels; routes = insert a (relay key) w.routes })
  rerouted-IsRouted a key owner = record {
    peer_addr = v.peer_addr;
    addr_peer = v.addr_peer;
    standins = v.standins;
    known = λ b r h. elim (eq? a b) [
      | yes e ↦ (entry.peer, ground (arith, v.peer_addr entry.peer a owner))
      | no n ↦ v.known b r (ground (arith, to_route b))
    ];
    routed = λ b p h. elim (eq? a b) [
      | yes e ↦ (relay key, ground (arith, to_route b))
      | no n ↦ let (r, k) = v.routed b p h in (r, ground (arith, to_route b))
    ];
    live = λ b j h. elim (eq? a b) [
      | yes e ↦ absurd (ground (arith, to_route b))
      | no n ↦
          let before : lookup b w.routes ≡ some (channel j) = ground (arith, to_route b) in
          let (e, k, o) = v.live b j before in (e, ground (arith, removed j, route_owner b), o)
    ];
    ids = λ j e h. ground (arith, removed j, v.ids j e);
  }
    where
      to_route :
          (b : SocketAddr)
          → lookup b (insert a (relay key) w.routes)
            ≡ ite (eq? a b) (some (relay key)) (lookup b w.routes)
      to_route b = lookup-insert a b (relay key) w.routes

is_channel-true : (r : Option RouteWire) (id : ℕ) → is_channel r id ≡ true → r ≡ some (channel id)
is_channel-true r id h = ground arith

pub retire_channel-IsRouted : (w : Wires) (id : ℕ) → IsRouted w → IsRouted (retire_channel w id)
unfolding retire_channel
retire_channel-IsRouted w id v = elim (Option-cases (lookup id w.channels)) [
  | inl e ↦ rw (e, retire_channel) v
  | inr (entry, e) ↦ elim (Option-cases (lookup entry.peer w.peer_to_addr)) [
    | inl p ↦
        rw (e, retire_channel, p)
          (unrouted-IsRouted w v id entry e (λ a h. ground (arith, route_owner w v id entry e a h)))
    | inr (a, p) ↦ elim (Bool-cases (is_channel (lookup a w.routes) id)) [
      | inl r ↦
          rw (e, retire_channel, p, r) (rerouted-IsRouted w v id entry e a entry.fallback_relay p)
      | inr r ↦
          rw (e, retire_channel, p, r)
            (unrouted-IsRouted w v id entry e
              (λ b h. ground (arith, route_owner w v id entry e b h)))
    ]
  ]
]
