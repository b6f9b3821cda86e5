-- ===== src/Endpoint/Wires.antt =====
-- The part of `State` in endpoint/src/endpoint_impl.rs that does not hold QUIC objects, and the
-- methods that touch no more than it. Relay connections and channel wires are shared handles, here
-- their numbers. A peer is its 32 bytes.
pub mod Routing
pub mod Channels
pub mod Delivery
pub mod Steps
pub mod Standins
pub mod Signaling
pub mod Sessions
use component_iroh.Prelude.{
  ℕ, suc, ◌+◌, ◌%◌, ◌^◌, Bool, true, false, not, ◌&&◌, ◌||◌, List, [], ◌∷◌, ◌++◌, Option, none,
  some, Result, ok, err, Key, ite, eq?, bytes_key, nat_key, lookup, insert, remove, Text, codes,
  length, ltb, if◌then◌else◌, is_some, unwrap_or,
}
use component_iroh.Relay.Frames.{Bytes}
use component_iroh.Endpoint.Types.{
  SocketAddr, addr_key, Error, closed, connect_failed, RouteWire, relay, channel, doc_prefix_addr,
  normalize_relay_url,
}

abbrev pub Peer : Type 0
Peer = Bytes

pub record ChannelEntry : Type 0 where
  pub wire : ℕ
  pub peer : Peer
  pub fallback_relay : ℕ

abbrev pub home_relay : ℕ
home_relay = 0

abbrev pub inbox_cap : ℕ
inbox_cap = 64

pub record Wires : Type 0 where
  pub peer_to_addr : List (Peer × SocketAddr)
  pub addr_to_peer : List (SocketAddr × Peer)
  pub next_host : ℕ
  pub accept_queue : List ℕ
  pub relay_outbound : List (ℕ × Peer × Bytes)
  pub udp_outbound : List (SocketAddr × Bytes)
  pub channel_outbound : List (ℕ × Bytes)
  pub routes : List (SocketAddr × RouteWire)
  pub relay_pool : List (ℕ × ℕ)
  pub relay_keys : List (Text × ℕ)
  pub relay_opening : List (Text × Unit {0})
  pub new_relays : List (ℕ × ℕ)
  pub next_relay_key : ℕ
  pub pending_upgrades : List (Peer × ℕ)
  pub webrtc_enabled : Bool
  pub signaling : List (Peer × ℕ)
  pub signal_inboxes : List (Peer × List Bytes)
  pub channels : List (ℕ × ChannelEntry)
  pub new_channels : List (ℕ × ℕ)
  pub next_channel_id : ℕ
  pub is_closed : Bool
  pub closed_at : Option ℕ
  pub dead : Option Text

unfoldable pub new_wires : Bool → Wires
new_wires webrtc_enabled = record {
  peer_to_addr = [];
  addr_to_peer = [];
  next_host = 0;
  accept_queue = [];
  relay_outbound = [];
  udp_outbound = [];
  channel_outbound = [];
  routes = [];
  relay_pool = [];
  relay_keys = [];
  relay_opening = [];
  new_relays = [];
  next_relay_key = 0;
  pending_upgrades = [];
  webrtc_enabled = webrtc_enabled;
  signaling = [];
  signal_inboxes = [];
  channels = [];
  new_channels = [];
  next_channel_id = 0;
  is_closed = false;
  closed_at = none;
  dead = none;
}

-- `+= 1` on a u32 without overflow checks.
abbrev pub next_u32 : ℕ → ℕ
next_u32 n = (n + 1) % 2 ^ 32

unfoldable pub fresh_addr : Wires → Peer → ℕ → Wires × SocketAddr
fresh_addr w peer via =
    let host = next_u32 w.next_host in
    let addr = doc_prefix_addr 0x77 host in
    (
      record w {
        next_host = host;
        peer_to_addr = insert peer addr w.peer_to_addr;
        addr_to_peer = insert addr peer w.addr_to_peer;
        routes = insert addr (relay via) w.routes;
      },
      addr,
    )

unfoldable pub addr_for_peer : Wires → Peer → ℕ → Wires × SocketAddr
addr_for_peer w peer via = elim (lookup peer w.peer_to_addr) [
  | some addr ↦ (w, addr)
  | none ↦ fresh_addr w peer via
]

unfoldable pub register_relay : Wires → Text → ℕ → Wires × ℕ
register_relay w url conn =
    let key = w.next_relay_key in
    (
      record w {
        next_relay_key = next_u32 key;
        relay_pool = insert key conn w.relay_pool;
        relay_keys = insert (normalize_relay_url url) key w.relay_keys;
        new_relays = w.new_relays ++ ((key, conn) ∷ []);
      },
      key,
    )

unfoldable pub is_closed_or_dead : Wires → Bool
is_closed_or_dead w = w.is_closed || is_some w.dead

unfoldable pub begin_signaling : Wires → Peer → ℕ → Result Wires Error
begin_signaling w peer via = elim (lookup peer w.signaling) [
  | some _ ↦
      err (connect_failed (codes "a webrtc signaling session with this peer is already active"))
  | none ↦ ok (record w { signaling = insert peer via w.signaling })
]

unfoldable pub end_signaling : Wires → Peer → Wires
end_signaling w peer = record w {
  signaling = remove peer w.signaling;
  signal_inboxes = remove peer w.signal_inboxes;
}

unfoldable pub signaling_relay : Wires → Peer → Option ℕ
signaling_relay w peer = lookup peer w.signaling

unfoldable pub push_signal_outbound : Wires → ℕ → Peer → Bytes → Wires
push_signal_outbound w via peer payload = record w {
  relay_outbound = w.relay_outbound ++ ((via, peer, payload) ∷ []);
}

unfoldable pub pop_signal_inbox : Wires → Peer → Wires × Option Bytes
pop_signal_inbox w peer = elim (lookup peer w.signal_inboxes) [
  | none ↦ (w, none)
  | some [] ↦ (w, none)
  | some (payload ∷ rest) ↦
      (record w { signal_inboxes = insert peer rest w.signal_inboxes }, some payload)
]

-- The third component is the wires that the call closes.
unfoldable pub register_channel : Wires → Peer → ℕ → Wires × Result (Unit {0}) Error × List ℕ
unfolding is_closed_or_dead signaling_relay
register_channel w peer wire =
    if is_closed_or_dead w
    then (w, err closed, wire ∷ [])
    else (let fallback_relay = unwrap_or (signaling_relay w peer) home_relay in
        let id = next_u32 w.next_channel_id in
        let entry : ChannelEntry = record {
          wire = wire;
          peer = peer;
          fallback_relay = fallback_relay;
        } in
        let (w', synthetic) =
          addr_for_peer
            (record w {
              next_channel_id = id;
              channels = insert id entry w.channels;
              new_channels = w.new_channels ++ ((id, wire) ∷ []);
            })
            peer fallback_relay in
        (record w' { routes = insert synthetic (channel id) w'.routes }, ok tt, []))

abbrev pub is_channel : Option RouteWire → ℕ → Bool
is_channel (some (channel c)) id = ite (eq? c id) true false
is_channel _ id = false

unfoldable pub retire_channel : Wires → ℕ → Wires
retire_channel w id = elim (lookup id w.channels) [
  | none ↦ w
  | some entry ↦
      let w' = record w { channels = remove id w.channels } in
      elim (lookup entry.peer w.peer_to_addr) [
        | none ↦ w'
        | some synthetic ↦
            if is_channel (lookup synthetic w.routes) id
            then record w' { routes = insert synthetic (relay entry.fallback_relay) w.routes }
            else w'
      ]
]

unfoldable pub push_response : Wires → SocketAddr → Option Peer → Bytes → Wires
push_response w addr source payload = elim (lookup addr w.routes) [
  | some (channel id) ↦ record w { channel_outbound = w.channel_outbound ++ ((id, payload) ∷ []) }
  | none ↦ record w { udp_outbound = w.udp_outbound ++ ((addr, payload) ∷ []) }
  | some (relay key) ↦ elim source [
    | some peer ↦ record w { relay_outbound = w.relay_outbound ++ ((key, peer, payload) ∷ []) }
    | none ↦ record w { udp_outbound = w.udp_outbound ++ ((addr, payload) ∷ []) }
  ]
]

-- The routing of one transmit in `drain`; `none` is the panic of `addr_to_peer[&destination]`.
unfoldable pub push_transmit : Wires → SocketAddr → Bytes → Option Wires
push_transmit w destination datagram = elim (lookup destination w.routes) [
  | some (relay key) ↦ elim (lookup destination w.addr_to_peer) [
    | some peer ↦
        some (record w { relay_outbound = w.relay_outbound ++ ((key, peer, datagram) ∷ []) })
    | none ↦ none
  ]
  | some (channel id) ↦
      some (record w { channel_outbound = w.channel_outbound ++ ((id, datagram) ∷ []) })
  | none ↦ some (record w { udp_outbound = w.udp_outbound ++ ((destination, datagram) ∷ []) })
]

-- The second component says that an answerer session is spawned.
unfoldable pub handle_signal : Wires → ℕ → Peer → Bytes → Wires × Bool
unfolding is_closed_or_dead
handle_signal w via source payload =
    if not w.webrtc_enabled || is_closed_or_dead w
    then (w, false)
    else (let spawn_answerer = not (is_some (lookup source w.signaling)) in
        let inbox = unwrap_or (lookup source w.signal_inboxes) [] in
        (
          record w {
            signaling = if spawn_answerer then insert source via w.signaling else w.signaling;
            signal_inboxes =
                insert source
                  (if ltb (length inbox) inbox_cap then inbox ++ (payload ∷ []) else inbox)
                  w.signal_inboxes;
          },
          spawn_answerer,
        ))
