-- ===== src/Endpoint/Pump/Flying.antt =====
-- What the tasks beside the pump do to the wires leaves each of its receives in flight on an open
-- wire (`State` in endpoint/src/endpoint_impl.rs).
use component_iroh.Prelude.{
  ℕ, suc, ◌+◌, ◌<◌, ◌^◌, ◌≡◌, sym, ap, subst, List, [], ◌∷◌, ◌++◌, Option, some, ok, nat_key,
  lookup, insert, lookup-insert_self, lookup-insert_ne, Text, unwrap_or, Bool-cases, inl, inr,
  arith,
}
use component_iroh.Relay.Frames.{Bytes}
use component_iroh.Endpoint.Types.{SocketAddr}
use component_iroh.Endpoint.Noq.{Noq}
use component_iroh.Endpoint.Wires.{
  Peer, ChannelEntry, Wires, next_u32, addr_for_peer, fresh_addr, register_relay, begin_signaling,
  end_signaling, push_signal_outbound, pop_signal_inbox, register_channel, push_response,
  push_transmit, handle_signal, is_closed_or_dead, signaling_relay, home_relay,
}
use component_iroh.Endpoint.Wires.Steps.{
  Step, addresses, registers_relay, begins, ends, signals, reads_signal, registers_channel, retires,
  responds, transmits, hears,
}
use component_iroh.Endpoint.Pump.{Armed, wire_of}
use component_iroh.Endpoint.Pump.Receives.{InFlight, opened-InFlight}

-- The fields that say which wires are open.
pub record Lines : Type 0 where
  pub relay_pool : List (ℕ × ℕ)
  pub new_relays : List (ℕ × ℕ)
  pub next_relay_key : ℕ
  pub channels : List (ℕ × ChannelEntry)
  pub new_channels : List (ℕ × ℕ)
  pub next_channel_id : ℕ

abbrev pub lines : Wires → Lines
lines w = record {
  relay_pool = w.relay_pool;
  new_relays = w.new_relays;
  next_relay_key = w.next_relay_key;
  channels = w.channels;
  new_channels = w.new_channels;
  next_channel_id = w.next_channel_id;
}

-- A call that another task may make: the pump alone retires channels.
abbrev pub ByOthers : {w w' : Wires} → Step w w' → Type 0
ByOthers {w} (registers_relay url conn) = w.next_relay_key + 1 < 2 ^ 32
ByOthers (retires id) = ⊥
ByOthers _ = Unit

-- A history of the other tasks: calls that touch none of those fields, and calls as above.
pub data Others (w : Wires) : Wires → Type 0 where
  idle : Others w w
  leaves : {u t : Wires} → Others w u → lines t ≡ lines u → Others w t
  acted : {u t : Wires} → Others w u → (st : Step u t) → ByOthers st → Others w t

pub addr_for_peer-lines :
    (w : Wires) (peer : Peer) (via : ℕ) → lines (addr_for_peer w peer via).0 ≡ lines w
unfolding addr_for_peer fresh_addr
addr_for_peer-lines w peer via = ground arith

begin_signaling-lines :
    (w : Wires) (peer : Peer) (via : ℕ) (w' : Wires)
    → begin_signaling w peer via ≡ ok w'
    → lines w' ≡ lines w
unfolding begin_signaling
begin_signaling-lines w peer via w' h = ground arith

pop_signal_inbox-lines : (w : Wires) (peer : Peer) → lines (pop_signal_inbox w peer).0 ≡ lines w
unfolding pop_signal_inbox
pop_signal_inbox-lines w peer = ground arith

pub push_response-lines :
    (w : Wires) (addr : SocketAddr) (source : Option Peer) (payload : Bytes)
    → lines (push_response w addr source payload) ≡ lines w
unfolding push_response
push_response-lines w addr source payload = ground arith

pub push_transmit-lines :
    (w : Wires) (destination : SocketAddr) (datagram : Bytes) (w' : Wires)
    → push_transmit w destination datagram ≡ some w'
    → lines w' ≡ lines w
unfolding push_transmit
push_transmit-lines w destination datagram w' h = ground arith

pub handle_signal-lines :
    (w : Wires) (via : ℕ) (source : Peer) (payload : Bytes)
    → lines (handle_signal w via source payload).0 ≡ lines w
unfolding handle_signal
handle_signal-lines w via source payload = ground arith

module _ (N : Noq) (a : Armed) where
  -- Each receive in flight, of a relay or of a channel, waits on a wire that is open.
  pub record Flying (l : Lines) : Type 0 where
    pub relays :
        InFlight (λ key. lookup key l.relay_pool) l.next_relay_key a.relay_recvs l.new_relays
    pub over_channels :
        InFlight
          (λ id. wire_of N (lookup id l.channels))
          (suc l.next_channel_id)
          a.channel_recvs
          l.new_channels

  pub same_lines : {l l' : Lines} → l' ≡ l → Flying l → Flying l'
  same_lines e v = subst Flying (sym e) v

  register_relay-Flying :
      (w : Wires) (url : Text) (conn : ℕ)
      → w.next_relay_key + 1 < 2 ^ 32
      → Flying (lines w)
      → Flying (lines (register_relay w url conn).0)
  unfolding register_relay
  register_relay-Flying w url conn room v =
      let e : next_u32 w.next_relay_key ≡ suc w.next_relay_key = omega arith in
      record {
        relays =
            subst
              (λ (n : ℕ).
                InFlight (λ key. lookup key (insert w.next_relay_key conn w.relay_pool)) n
                  a.relay_recvs (w.new_relays ++ ((w.next_relay_key, conn) ∷ [])))
              (sym e)
              (opened-InFlight (λ key. lookup key w.relay_pool) _ w.next_relay_key conn
                a.relay_recvs w.new_relays
                (λ j lt. lookup-insert_ne w.next_relay_key j conn w.relay_pool (omega arith))
                (lookup-insert_self w.next_relay_key conn w.relay_pool) v.relays);
        over_channels = v.over_channels;
      }

  -- The channel is in the tables before its standin is looked up.
  opened-Flying :
      (w : Wires) (entry : ChannelEntry)
      → w.next_channel_id + 1 < 2 ^ 32
      → Flying (lines w)
      → Flying (record (lines w) {
        next_channel_id = next_u32 w.next_channel_id;
        channels = insert (next_u32 w.next_channel_id) entry w.channels;
        new_channels = w.new_channels ++ ((next_u32 w.next_channel_id, entry.wire) ∷ []);
      })
  unfolding wire_of
  opened-Flying w entry room v =
      let e : next_u32 w.next_channel_id ≡ suc w.next_channel_id = omega arith in
      rw e (record {
        relays = v.relays;
        over_channels =
            opened-InFlight (λ id. wire_of N (lookup id w.channels)) _ (suc w.next_channel_id)
              entry.wire a.channel_recvs w.new_channels
              (λ j lt.
                ap (wire_of N)
                  (lookup-insert_ne (suc w.next_channel_id) j entry w.channels (omega arith)))
              (ap (wire_of N) (lookup-insert_self (suc w.next_channel_id) entry w.channels))
              v.over_channels;
      })

  register_channel-Flying :
      (w : Wires) (peer : Peer) (wire : ℕ)
      → w.next_channel_id + 1 < 2 ^ 32
      → Flying (lines w)
      → Flying (lines (register_channel w peer wire).0)
  unfolding register_channel
  register_channel-Flying w peer wire room v = elim (Bool-cases (is_closed_or_dead w)) [
    | inl e ↦ rw (e, register_channel) v
    | inr e ↦
        let entry : ChannelEntry = record {
          wire = wire;
          peer = peer;
          fallback_relay = unwrap_or (signaling_relay w peer) home_relay;
        } in
        rw (e, register_channel)
          (same_lines (addr_for_peer-lines _ peer entry.fallback_relay)
            (opened-Flying w entry room v))
  ]

  pub Step-Flying :
      {w w' : Wires} (st : Step w w') → ByOthers st → Flying (lines w) → Flying (lines w')
  unfolding end_signaling push_signal_outbound
  Step-Flying {w} (addresses peer via _) b v = same_lines (addr_for_peer-lines w peer via) v
  Step-Flying {w} (registers_relay url conn) b v = register_relay-Flying w url conn b v
  Step-Flying {w} (begins peer via {w' = w'} h) b v =
      same_lines (begin_signaling-lines w peer via w' h) v
  Step-Flying (ends peer) b v = v
  Step-Flying (signals via peer payload) b v = v
  Step-Flying {w} (reads_signal peer) b v = same_lines (pop_signal_inbox-lines w peer) v
  Step-Flying {w} (registers_channel peer wire room) b v =
      register_channel-Flying w peer wire room.1 v
  Step-Flying (retires id) b v = absurd b
  Step-Flying {w} (responds addr source payload) b v =
      same_lines (push_response-lines w addr source payload) v
  Step-Flying {w} (transmits destination datagram {w' = w'} h) b v =
      same_lines (push_transmit-lines w destination datagram w' h) v
  Step-Flying {w} (hears via source payload) b v =
      same_lines (handle_signal-lines w via source payload) v

  pub Others-Flying : {w w' : Wires} → Others w w' → Flying (lines w) → Flying (lines w')
  Others-Flying idle v = v
  Others-Flying (leaves o e) v = same_lines e (Others-Flying o v)
  Others-Flying (acted o st b) v = Step-Flying st b (Others-Flying o v)
