-- ===== src/Endpoint/Wires/Delivery.antt =====
-- Where a transmit and an endpoint response go.
use component_iroh.Prelude.{
  ℕ, ◌≡◌, refl, [], ◌∷◌, ◌++◌, none, some, lookup, arith, Option-cases, inl, inr, bytes_key,
  nat_key,
}
use component_iroh.Relay.Frames.{Bytes}
use component_iroh.Endpoint.Types.{SocketAddr, addr_key, RouteWire, relay, channel}
use component_iroh.Endpoint.Wires.{Peer, ChannelEntry, Wires, push_transmit}
use component_iroh.Endpoint.Wires.Routing.{IsRouted}

-- One datagram for `peer` was queued, on a relay and addressed to the peer, or on an open channel
-- to the peer; nothing else changed.
pub data SentTo (w : Wires) (peer : Peer) (datagram : Bytes) (w' : Wires) : Type 0 where
  by_relay :
      (key : ℕ)
      → w' ≡ record w { relay_outbound = w.relay_outbound ++ ((key, peer, datagram) ∷ []) }
      → SentTo w peer datagram w'
  by_channel :
      (id : ℕ) (entry : ChannelEntry)
      → lookup id w.channels ≡ some entry
      → entry.peer ≡ peer
      → w' ≡ record w { channel_outbound = w.channel_outbound ++ ((id, datagram) ∷ []) }
      → SentTo w peer datagram w'

route_SentTo :
    (w : Wires) (destination : SocketAddr) (peer : Peer) (datagram : Bytes) (r : RouteWire)
    → IsRouted w
    → lookup destination w.addr_to_peer ≡ some peer
    → lookup destination w.routes ≡ some r
    → (w' : Wires) × (push_transmit w destination datagram ≡ some w') × SentTo w peer datagram w'
unfolding push_transmit
route_SentTo w destination peer datagram (relay key) v owner e = (
  record w { relay_outbound = w.relay_outbound ++ ((key, peer, datagram) ∷ []) },
  rw (e, push_transmit, owner) refl,
  by_relay key refl,
)
route_SentTo w destination peer datagram (channel id) v owner e =
    let (entry, k, o) = v.live destination id e in
    (
      record w { channel_outbound = w.channel_outbound ++ ((id, datagram) ∷ []) },
      rw (e, push_transmit) refl,
      by_channel id entry k (ground arith) refl,
    )

-- In consistent tables a transmit to a peer's standin does not panic, and is queued for that peer
-- alone.
pub push_transmit-SentTo :
    (w : Wires) (destination : SocketAddr) (peer : Peer) (datagram : Bytes)
    → IsRouted w
    → lookup destination w.addr_to_peer ≡ some peer
    → (w' : Wires) × (push_transmit w destination datagram ≡ some w') × SentTo w peer datagram w'
push_transmit-SentTo w destination peer datagram v owner =
    let (r, e) = v.routed destination peer owner in
    route_SentTo w destination peer datagram r v owner e

-- A transmit to any other address goes to the UDP socket.
pub push_transmit_real :
    (w : Wires) (destination : SocketAddr) (datagram : Bytes)
    → IsRouted w
    → lookup destination w.addr_to_peer ≡ none
    → push_transmit w destination datagram
      ≡ some (record w { udp_outbound = w.udp_outbound ++ ((destination, datagram) ∷ []) })
unfolding push_transmit
push_transmit_real w destination datagram v real =
    elim (Option-cases (lookup destination w.routes)) [
      | inl e ↦ rw (e, push_transmit) refl
      | inr (r, e) ↦ let (p, k) = v.known destination r e in absurd (ground arith)
    ]

pub push_transmit-total :
    (w : Wires) (destination : SocketAddr) (datagram : Bytes)
    → IsRouted w
    → (w' : Wires) × (push_transmit w destination datagram ≡ some w')
push_transmit-total w destination datagram v =
    elim (Option-cases (lookup destination w.addr_to_peer)) [
      | inl e ↦ (
        record w { udp_outbound = w.udp_outbound ++ ((destination, datagram) ∷ []) },
        push_transmit_real w destination datagram v e,
      )
      | inr (p, e) ↦
          let (w', sent, _) = push_transmit-SentTo w destination p datagram v e in (w', sent)
    ]
