-- ===== src/Endpoint/Pump.antt =====
-- The turn of the pump (`pump` in endpoint/src/endpoint_impl.rs): the flushes, the checks that end
-- it, and its reaction to one event. The receives in flight are two lists of keys and ids.
pub mod Flushing
pub mod Receives
pub mod Flying
pub mod Handling
pub mod Turns
pub mod Waits
pub mod History
pub mod Ending
mod Examples
pub mod Validity
pub mod Teardown
use component_iroh.Prelude.{
  ℕ, ◌-◌, Bool, true, false, not, ◌&&◌, ◌||◌, List, [], ◌∷◌, ◌++◌, map, Option, none, some, Result,
  ok, err, nat_key, lookup, remove, Text, codes, leb, ◌==◌, if◌then◌else◌, is_some,
}
use component_iroh.Relay.Frames.{Bytes}
use component_iroh.Endpoint.Types.{SocketAddr}
use component_iroh.Endpoint.Noq.{Noq}
use component_iroh.Endpoint.Wires.{
  Peer, ChannelEntry, Wires, home_relay, handle_signal, retire_channel,
}
use component_iroh.Endpoint.State.{
  Run, ended, panicked, out_of_fuel, ◌>>=◌, ConnEntry, State, drain,
}
use component_iroh.Endpoint.Inbound.{
  handle_relay_datagram, handle_udp_datagram, handle_channel_datagram, handle_timeouts, mark_dead,
}

-- The datagrams that left, by wire: the relay's connection, a remote address, the channel's wire.
pub record Sent : Type 0 where
  pub relayed : List (ℕ × Peer × Bytes)
  pub by_udp : List (SocketAddr × Bytes)
  pub by_channel : List (ℕ × Bytes)

-- The sends of one item of `relay_outbound`: nothing when its relay has left the pool.
unfoldable pub relay_sends : List (ℕ × ℕ) → ℕ × Peer × Bytes → List (ℕ × Peer × Bytes)
relay_sends pool (key, peer, datagram) = elim (lookup key pool) [
  | none ↦ []
  | some conn ↦ (conn, peer, datagram) ∷ []
]

-- The loop over `relay_outbound`. `fails conn datagram` says that the send fails. The queue that it
-- leaves, what it sent, and whether the home relay failed.
unfoldable pub flush_relays :
    (fails : ℕ → Bytes → Bool)
    → List (ℕ × ℕ)
    → List (ℕ × Peer × Bytes)
    → List (ℕ × Peer × Bytes) × List (ℕ × Peer × Bytes) × Bool
flush_relays fails pool [] = ([], [], false)
flush_relays fails pool ((key, peer, datagram) ∷ queue) = elim (lookup key pool) [
  | none ↦ flush_relays fails pool queue
  | some conn ↦ elim (fails conn datagram && key == home_relay) [
    | true ↦ (queue, (conn, peer, datagram) ∷ [], true)
    | false ↦
        let (left, sent, died) = flush_relays fails pool queue in
        (left, (conn, peer, datagram) ∷ sent, died)
  ]
]

-- A send on UDP or on a channel may fail; the loop goes on.
unfoldable pub flush_udp : (has_udp : Bool) → List (SocketAddr × Bytes) → List (SocketAddr × Bytes)
flush_udp has_udp [] = []
flush_udp has_udp (item ∷ queue) =
    let rest = flush_udp has_udp queue in if has_udp then item ∷ rest else rest

unfoldable pub flush_channels : List (ℕ × ChannelEntry) → List (ℕ × Bytes) → List (ℕ × Bytes)
flush_channels channels [] = []
flush_channels channels ((id, datagram) ∷ queue) =
    let rest = flush_channels channels queue in
    elim (lookup id channels) [ none ↦ rest | some entry ↦ (entry.wire, datagram) ∷ rest ]

-- What the pump holds beside the state, and what a turn gave to spawn.
pub record Armed : Type 0 where
  pub relay_recvs : List (ℕ × ℕ)
  pub channel_recvs : List (ℕ × ℕ)
  pub spawned : List (Peer × ℕ)

pub data PumpEvent : Type 0 where
  relay_event : ℕ → Result (Peer × Bytes) Text → PumpEvent
  udp_event : Option (Bytes × SocketAddr) → PumpEvent
  channel_event : ℕ → Result (Option Bytes) Text → PumpEvent
  tick : PumpEvent

abbrev pub signal_prefix : ℕ
signal_prefix = 0

-- Takes `new_relays`, `new_channels` and `pending_upgrades`.
unfoldable pub arm : Wires → Armed → Wires × Armed
arm w a = (
  record w { new_relays = []; new_channels = []; pending_upgrades = [] },
  record a {
    relay_recvs = a.relay_recvs ++ w.new_relays;
    channel_recvs = a.channel_recvs ++ w.new_channels;
    spawned = a.spawned ++ w.pending_upgrades;
  },
)

module _ (N : Noq) where
  -- The first break after the flushes: dead, or closed with nothing left to send or no time left.
  -- An entry that has failed counts as drained.
  unfoldable pub all_drained : List (ℕ × ConnEntry N) → Bool
  all_drained [] = true
  all_drained ((handle, entry) ∷ conns) =
      (entry.drained || is_some entry.error) && all_drained conns

  unfoldable pub lingered : (linger now : ℕ) → Option ℕ → Bool
  lingered linger now none = true
  lingered linger now (some at) = leb linger (now - at)

  unfoldable pub is_over : (linger now : ℕ) → State N → Bool
  unfolding all_drained lingered
  is_over linger now s =
      is_some s.wires.dead
      || (s.wires.is_closed && (all_drained s.conns || lingered linger now s.wires.closed_at))

  -- What the pump does before it waits for an event. Sends are taken as made at once.
  pub data Turn : Type 0 where
    stops : State N → Armed → Sent → Turn
    selects : State N → Armed → Sent → Turn

  unfoldable pub after_flush : (linger now : ℕ) → State N → Armed → Sent → Turn
  unfolding arm is_over
  after_flush linger now s a sent =
      let (w, a') = arm s.wires a in
      let s' = record s { wires = w } in
      if is_over linger now s' then stops s' a' sent else selects s' a' sent

  unfoldable pub flush :
      (linger now : ℕ) (has_udp : Bool) (fails : ℕ → Bytes → Bool) → State N → Armed → Turn
  unfolding flush_relays flush_udp flush_channels after_flush
  flush linger now has_udp fails s a =
      let (left, relayed, died) = flush_relays fails s.wires.relay_pool s.wires.relay_outbound in
      let s1 = record s { wires = record (s.wires) { relay_outbound = left } } in
      if died
      then stops (mark_dead N (codes "relay send failed") s1) a
          (record { relayed = relayed; by_udp = []; by_channel = [] })
      else after_flush linger now
          (record s1 { wires = record (s1.wires) { udp_outbound = []; channel_outbound = [] } }) a
          (record {
            relayed = relayed;
            by_udp = flush_udp has_udp s.wires.udp_outbound;
            by_channel = flush_channels s.wires.channels s.wires.channel_outbound;
          })

  unfoldable pub begin_turn :
      (fuel linger now : ℕ) (has_udp : Bool) (fails : ℕ → Bytes → Bool) → State N → Armed → Run Turn
  unfolding flush
  begin_turn fuel linger now has_udp fails s a = do
    s' ← drain N fuel now s
    ended (flush linger now has_udp fails s' a)

  -- A payload of a relay: signaling behind the prefix byte, or a QUIC datagram.
  unfoldable pub on_payload : ℕ → State N → ℕ → Peer → Bytes → State N
  on_payload now s key source [] = handle_relay_datagram N now s key source []
  on_payload now s key source (b ∷ rest) =
      if b == signal_prefix
      then record s { wires = (handle_signal s.wires key source rest).0 }
      else handle_relay_datagram N now s key source (b ∷ rest)

  unfoldable pub rearm : {V : Type 0} → ℕ → Option V → List (ℕ × V) → List (ℕ × V)
  rearm key none recvs = recvs
  rearm key (some v) recvs = recvs ++ ((key, v) ∷ [])

  unfoldable pub wire_of : Option ChannelEntry → Option ℕ
  wire_of none = none
  wire_of (some entry) = some entry.wire

  -- The reaction to one event; the flag says that the pump stops.
  unfoldable pub on_pump_event : ℕ → PumpEvent → State N → Armed → Bool × State N × Armed
  unfolding on_payload rearm wire_of
  on_pump_event now (relay_event key (ok (source, payload))) s a = (
    false,
    on_payload now s key source payload,
    record a { relay_recvs = rearm key (lookup key s.wires.relay_pool) (remove key a.relay_recvs) },
  )
  on_pump_event now (relay_event key (err e)) s a = elim (key == home_relay) [
    | true ↦ (true, mark_dead N e s, record a { relay_recvs = remove key a.relay_recvs })
    | false ↦ (
      false,
      record s { wires = record (s.wires) { relay_pool = remove key s.wires.relay_pool } },
      record a { relay_recvs = remove key a.relay_recvs },
    )
  ]
  on_pump_event now (udp_event none) s a = (false, s, a)
  on_pump_event now (udp_event (some (payload, remote))) s a =
      (false, handle_udp_datagram N now s remote payload, a)
  on_pump_event now (channel_event id (ok payload)) s a = (
    false,
    elim payload [ none ↦ s | some datagram ↦ handle_channel_datagram N now s id datagram ],
    record a {
      channel_recvs = rearm id (wire_of (lookup id s.wires.channels)) (remove id a.channel_recvs);
    },
  )
  on_pump_event now (channel_event id (err _)) s a = (
    false,
    record s { wires = retire_channel s.wires id },
    record a { channel_recvs = remove id a.channel_recvs },
  )
  on_pump_event now tick s a = (false, handle_timeouts N now s, a)
