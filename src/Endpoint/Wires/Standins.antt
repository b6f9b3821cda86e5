-- ===== src/Endpoint/Wires/Standins.antt =====
-- Standins over the operations on the wires.
use component_iroh.Prelude.{
  ℕ, ◌≡◌, refl, ap, ◌∙◌, some, bytes_key, nat_key, lookup, lookup-insert, lookup-insert_self, arith,
  Option-cases, inl, inr, Bool-cases,
}
use component_iroh.Endpoint.Types.{SocketAddr, addr_key, doc_prefix_addr}
use component_iroh.Endpoint.Wires.{
  Peer, Wires, addr_for_peer, fresh_addr, register_relay, end_signaling, push_signal_outbound,
  register_channel, retire_channel, is_closed_or_dead, next_u32,
}
use component_iroh.Endpoint.Wires.Routing.{IsRouted, HasRoom, Tables, addr_for_peer-IsRouted}
use component_iroh.Endpoint.Wires.Channels.{opened}
use component_iroh.Endpoint.Wires.Steps.{
  Step, addresses, registers_relay, begins, ends, signals, reads_signal, registers_channel, retires,
  responds, transmits, hears, Reach, here, next, begin_signaling-tables, pop_signal_inbox-tables,
  push_response-tables, push_transmit-tables, handle_signal-tables, Reach-IsRouted,
}

pub addr_for_peer-keeps :
    (w : Wires) (peer p : Peer) (via : ℕ) (a : SocketAddr)
    → lookup p w.peer_to_addr ≡ some a
    → lookup p (addr_for_peer w peer via).0.peer_to_addr ≡ some a
unfolding addr_for_peer fresh_addr
addr_for_peer-keeps w peer p via a h = elim (Option-cases (lookup peer w.peer_to_addr)) [
  | inr (b, e) ↦ rw (e, addr_for_peer) h
  | inl e ↦
      let here = doc_prefix_addr 0x77 (next_u32 w.next_host) in
      rw (e, addr_for_peer) (ground (arith, lookup-insert peer p here w.peer_to_addr))
]

register_channel-keeps :
    (w : Wires) (peer p : Peer) (wire : ℕ) (a : SocketAddr)
    → lookup p w.peer_to_addr ≡ some a
    → lookup p (register_channel w peer wire).0.peer_to_addr ≡ some a
unfolding register_channel
register_channel-keeps w peer p wire a h = elim (Bool-cases (is_closed_or_dead w)) [
  | inl e ↦ rw (e, register_channel) h
  | inr e ↦ rw (e, register_channel) (addr_for_peer-keeps (opened w peer wire) peer p _ a h)
]

pub retire_channel-keeps :
    (w : Wires) (id : ℕ) → (retire_channel w id).peer_to_addr ≡ w.peer_to_addr
unfolding retire_channel
retire_channel-keeps w id = ground arith

pub table_keeps :
    {t t' : Tables} (p : Peer) (a : SocketAddr)
    → t' ≡ t
    → lookup p t.peer_to_addr ≡ some a
    → lookup p t'.peer_to_addr ≡ some a
table_keeps p a e h = rw (ap (λ (t : Tables). t.peer_to_addr) e) h

pub Step-keeps :
    {w w' : Wires} (p : Peer) (a : SocketAddr)
    → Step w w'
    → lookup p w.peer_to_addr ≡ some a
    → lookup p w'.peer_to_addr ≡ some a
unfolding register_relay end_signaling push_signal_outbound
Step-keeps {w} p a (addresses peer via room) h = addr_for_peer-keeps w peer p via a h
Step-keeps p a (registers_relay url conn) h = h
Step-keeps {w} p a (begins peer via {w' = w'} e) h =
    table_keeps p a (begin_signaling-tables w peer via w' e) h
Step-keeps p a (ends peer) h = h
Step-keeps p a (signals via peer payload) h = h
Step-keeps {w} p a (reads_signal peer) h = table_keeps p a (pop_signal_inbox-tables w peer) h
Step-keeps {w} p a (registers_channel peer wire room) h = register_channel-keeps w peer p wire a h
Step-keeps {w} p a (retires id) h = rw (retire_channel-keeps w id) h
Step-keeps {w} p a (responds addr source payload) h =
    table_keeps p a (push_response-tables w addr source payload) h
Step-keeps {w} p a (transmits destination datagram {w' = w'} e) h =
    table_keeps p a (push_transmit-tables w destination datagram w' e) h
Step-keeps {w} p a (hears via source payload) h =
    table_keeps p a (handle_signal-tables w via source payload) h

Reach-keeps :
    {w w' : Wires} (p : Peer) (a : SocketAddr)
    → Reach w w'
    → lookup p w.peer_to_addr ≡ some a
    → lookup p w'.peer_to_addr ≡ some a
Reach-keeps p a here h = h
Reach-keeps p a (next r s) h = Step-keeps p a s (Reach-keeps p a r h)

pub addr_for_peer-known :
    (w : Wires) (peer : Peer) (via : ℕ) (a : SocketAddr)
    → lookup peer w.peer_to_addr ≡ some a
    → addr_for_peer w peer via ≡ (w, a)
unfolding addr_for_peer
addr_for_peer-known w peer via a h = rw (h, addr_for_peer) refl

pub addr_for_peer-recorded :
    (w : Wires) (peer : Peer) (via : ℕ)
    → lookup peer (addr_for_peer w peer via).0.peer_to_addr ≡ some (addr_for_peer w peer via).1
unfolding addr_for_peer fresh_addr
addr_for_peer-recorded w peer via = elim (Option-cases (lookup peer w.peer_to_addr)) [
  | inr (b, e) ↦ rw (e, addr_for_peer) e
  | inl e ↦ rw (e, addr_for_peer) (lookup-insert_self peer _ w.peer_to_addr)
]

-- Standins are distinct: from consistent tables with room for two more, two peers that are handed
-- one address, the second at any later time, are the same peer.
pub addr_for_peer_distinct :
    (w w' : Wires) (p q : Peer) (via via' : ℕ)
    → IsRouted w
    → HasRoom w
    → Reach (addr_for_peer w p via).0 w'
    → HasRoom w'
    → (addr_for_peer w' q via').1 ≡ (addr_for_peer w p via).1
    → p ≡ q
addr_for_peer_distinct w w' p q via via' v room r room' same =
    let a = (addr_for_peer w p via).1 in
    let v1 : IsRouted w' = Reach-IsRouted r (addr_for_peer-IsRouted w v p via room.0) in
    let v2 = addr_for_peer-IsRouted w' v1 q via' room'.0 in
    let kept =
      addr_for_peer-keeps w' q p via' a (Reach-keeps p a r (addr_for_peer-recorded w p via)) in
    let mine = v2.peer_addr p a kept in
    let yours = v2.peer_addr q a (addr_for_peer-recorded w' q via' ∙ ap some same) in
    cc (mine, yours)
