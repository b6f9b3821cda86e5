-- ===== src/Endpoint/Wires/Steps.antt =====
-- The operations on the wires as a step relation, and what every history keeps.
use component_iroh.Prelude.{
  ℕ, ◌≡◌, sym, Bool, Option, some, ok, bytes_key, nat_key, arith, Text, subst,
}
use component_iroh.Relay.Frames.{Bytes}
use component_iroh.Endpoint.Types.{SocketAddr, addr_key}
use component_iroh.Endpoint.Wires.{
  Peer, Wires, new_wires, addr_for_peer, register_relay, begin_signaling, end_signaling,
  push_signal_outbound, pop_signal_inbox, register_channel, retire_channel, push_response,
  push_transmit, handle_signal,
}
use component_iroh.Endpoint.Wires.Routing.{
  IsRouted, IsConsistent, HasRoom, Tables, tables, addr_for_peer-IsRouted, new_wires-IsRouted,
}
use component_iroh.Endpoint.Wires.Channels.{register_channel-IsRouted, retire_channel-IsRouted}

-- One call of an operation; those that may number a standin or a channel do so while the u32
-- counters have room.
pub data Step (w : Wires) : Wires → Type 0 where
  addresses : (peer : Peer) (via : ℕ) → HasRoom w → Step w (addr_for_peer w peer via).0
  registers_relay : (url : Text) (conn : ℕ) → Step w (register_relay w url conn).0
  begins : (peer : Peer) (via : ℕ) {w' : Wires} → begin_signaling w peer via ≡ ok w' → Step w w'
  ends : (peer : Peer) → Step w (end_signaling w peer)
  signals :
      (via : ℕ) (peer : Peer) (payload : Bytes) → Step w (push_signal_outbound w via peer payload)
  reads_signal : (peer : Peer) → Step w (pop_signal_inbox w peer).0
  registers_channel : (peer : Peer) (wire : ℕ) → HasRoom w → Step w (register_channel w peer wire).0
  retires : (id : ℕ) → Step w (retire_channel w id)
  responds :
      (addr : SocketAddr) (source : Option Peer) (payload : Bytes)
      → Step w (push_response w addr source payload)
  transmits :
      (destination : SocketAddr) (datagram : Bytes) {w' : Wires}
      → push_transmit w destination datagram ≡ some w'
      → Step w w'
  hears :
      (via : ℕ) (source : Peer) (payload : Bytes) → Step w (handle_signal w via source payload).0

pub data Reach (w : Wires) : Wires → Type 0 where
  here : Reach w w
  next : {u t : Wires} → Reach w u → Step u t → Reach w t

pub begin_signaling-tables :
    (w : Wires) (peer : Peer) (via : ℕ) (w' : Wires)
    → begin_signaling w peer via ≡ ok w'
    → tables w' ≡ tables w
unfolding begin_signaling
begin_signaling-tables w peer via w' h = ground arith

pub pop_signal_inbox-tables :
    (w : Wires) (peer : Peer) → tables (pop_signal_inbox w peer).0 ≡ tables w
unfolding pop_signal_inbox
pop_signal_inbox-tables w peer = ground arith

pub push_response-tables :
    (w : Wires) (addr : SocketAddr) (source : Option Peer) (payload : Bytes)
    → tables (push_response w addr source payload) ≡ tables w
unfolding push_response
push_response-tables w addr source payload = ground arith

pub push_transmit-tables :
    (w : Wires) (destination : SocketAddr) (datagram : Bytes) (w' : Wires)
    → push_transmit w destination datagram ≡ some w'
    → tables w' ≡ tables w
unfolding push_transmit
push_transmit-tables w destination datagram w' h = ground arith

pub handle_signal-tables :
    (w : Wires) (via : ℕ) (source : Peer) (payload : Bytes)
    → tables (handle_signal w via source payload).0 ≡ tables w
unfolding handle_signal
handle_signal-tables w via source payload = ground arith

pub same_tables : {t t' : Tables} → t' ≡ t → IsConsistent t → IsConsistent t'
same_tables e v = subst IsConsistent (sym e) v

pub Step-IsRouted : {w w' : Wires} → Step w w' → IsRouted w → IsRouted w'
unfolding register_relay end_signaling push_signal_outbound
Step-IsRouted {w} (addresses peer via room) v = addr_for_peer-IsRouted w v peer via room.0
Step-IsRouted (registers_relay url conn) v = v
Step-IsRouted {w} (begins peer via {w' = w'} h) v =
    same_tables (begin_signaling-tables w peer via w' h) v
Step-IsRouted (ends peer) v = v
Step-IsRouted (signals via peer payload) v = v
Step-IsRouted {w} (reads_signal peer) v = same_tables (pop_signal_inbox-tables w peer) v
Step-IsRouted {w} (registers_channel peer wire room) v =
    register_channel-IsRouted w peer wire room v
Step-IsRouted {w} (retires id) v = retire_channel-IsRouted w id v
Step-IsRouted {w} (responds addr source payload) v =
    same_tables (push_response-tables w addr source payload) v
Step-IsRouted {w} (transmits destination datagram {w' = w'} h) v =
    same_tables (push_transmit-tables w destination datagram w' h) v
Step-IsRouted {w} (hears via source payload) v =
    same_tables (handle_signal-tables w via source payload) v

pub Reach-IsRouted : {w w' : Wires} → Reach w w' → IsRouted w → IsRouted w'
Reach-IsRouted here v = v
Reach-IsRouted (next r s) v = Step-IsRouted s (Reach-IsRouted r v)

-- Whatever sequence of operations a new endpoint has run, while the counters have room: standins
-- and peers are one-to-one, each standin has a route, and each route onto a channel leads to a
-- channel that is open and belongs to the standin's peer.
pub new_wires-Reach-IsRouted :
    (webrtc_enabled : Bool) (w : Wires) → Reach (new_wires webrtc_enabled) w → IsRouted w
new_wires-Reach-IsRouted webrtc_enabled w r = Reach-IsRouted r (new_wires-IsRouted webrtc_enabled)
