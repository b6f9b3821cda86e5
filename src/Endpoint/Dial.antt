-- ===== src/Endpoint/Dial.antt =====
-- The `endpoint` resource: its options, the choice of a dial path, the relay pool's opens, and
-- `connect` and `accept` (endpoint/src/endpoint_impl.rs).
pub mod Paths
pub mod Pool
pub mod Standing
pub mod Connecting
pub mod Awaits
pub mod Success
pub mod Binding
mod Examples
use component_iroh.Prelude.{
  ℕ, ◌+◌, ◌*◌, ◌-◌, Bool, true, false, not, ◌&&◌, ◌||◌, List, [], ◌∷◌, ◌++◌, map, Option, none,
  some, Result, ok, err, Key, nat_key, bytes_key, lookup, insert, remove, Text, codes, ltb, length,
  ◌==◌, if◌then◌else◌, is_some, unwrap_or,
}
use component_iroh.Relay.Frames.{Bytes}
use component_iroh.Endpoint.Types.{
  SocketAddr, addr_key, Error, closed, connect_failed, invalid_argument, RouteWire, relay, channel,
  normalize_relay_url,
}
use component_iroh.Endpoint.Noq.{Noq}
use component_iroh.Endpoint.Wires.{
  Peer, Wires, home_relay, addr_for_peer, register_relay, is_closed_or_dead, new_wires,
}
use component_iroh.Endpoint.State.{
  Run, ended, panicked, out_of_fuel, ConnEntry, State, new_entry, new_state,
}
use component_iroh.Endpoint.Waiting.{wait_until, with_entry}

-- The knobs of `endpoint-options`; the identity is the environment's.
pub record OptionsState : Type 0 where
  pub alpns : List Bytes
  pub relay_url : Option Text
  pub udp_bind_addr : Option Text
  pub webrtc : Bool

abbrev pub new_options : OptionsState
new_options = record { alpns = []; relay_url = none; udp_bind_addr = none; webrtc = false }

unfoldable pub add_alpn : Bytes → OptionsState → OptionsState
add_alpn alpn o = record o { alpns = o.alpns ++ (alpn ∷ []) }

unfoldable pub set_relay_url : Text → OptionsState → OptionsState
set_relay_url url o = record o { relay_url = some url }

unfoldable pub set_udp_bind_addr : Text → OptionsState → OptionsState
set_udp_bind_addr addr o = record o { udp_bind_addr = some addr }

unfoldable pub set_webrtc : Bool → OptionsState → OptionsState
set_webrtc enabled o = record o { webrtc = enabled }

pub data TransportAddr : Type 0 where
  relay_addr ip_addr webrtc_addr custom_addr : Text → TransportAddr

-- What the loop over the address's entries collects.
pub record DialPath : Type 0 where
  pub direct : Option SocketAddr
  pub dial_relay : Option Text
  pub webrtc_hint : Option Text

unfoldable pub or_else {ℓ} : {A : Type ℓ} → Option A → Option A → Option A
or_else (some a) b = some a
or_else none b = b

-- One entry; `parse` is the standard library's parser of socket addresses.
unfoldable pub dial_entry :
    (parse : Text → Option SocketAddr) (has_udp webrtc_enabled : Bool)
    → TransportAddr
    → DialPath
    → DialPath
unfolding or_else
dial_entry parse has_udp webrtc_enabled (relay_addr url) p = record p {
  dial_relay = or_else p.dial_relay (some url);
}
dial_entry parse has_udp webrtc_enabled (ip_addr text) p = record p {
  direct = if not (is_some p.direct) && has_udp then parse text else p.direct;
}
dial_entry parse has_udp webrtc_enabled (webrtc_addr url) p = record p {
  webrtc_hint = if webrtc_enabled then or_else p.webrtc_hint (some url) else p.webrtc_hint;
}
dial_entry parse has_udp webrtc_enabled (custom_addr _) p = p

unfoldable pub dial_loop :
    (parse : Text → Option SocketAddr) (has_udp webrtc_enabled : Bool)
    → List TransportAddr
    → DialPath
    → DialPath
unfolding dial_entry
dial_loop parse has_udp webrtc_enabled [] p = p
dial_loop parse has_udp webrtc_enabled (a ∷ addrs) p =
    dial_loop parse has_udp webrtc_enabled addrs (dial_entry parse has_udp webrtc_enabled a p)

unfoldable pub dial_path :
    (parse : Text → Option SocketAddr) (has_udp webrtc_enabled : Bool)
    → List TransportAddr
    → DialPath
unfolding dial_loop
dial_path parse has_udp webrtc_enabled addrs =
    dial_loop parse has_udp webrtc_enabled addrs
      (record { direct = none; dial_relay = none; webrtc_hint = none })

-- The relay whose key the dial takes, and the one an upgrade is signaled through: none by name when
-- the dial is direct.
unfoldable pub relay_to_dial : DialPath → Option Text
relay_to_dial p = if is_some p.direct then none else p.dial_relay

unfoldable pub relay_to_upgrade : DialPath → Option Text
relay_to_upgrade p = if is_some p.direct then none else p.webrtc_hint

-- What the first part of `ensure_relay` decides.
pub data Claim : Type 0 where
  pooled : ℕ → Claim
  refused_claim : Error → Claim
  claimed waits : Claim

unfoldable pub claim_relay : Wires → Text → Wires × Claim
unfolding is_closed_or_dead
claim_relay w url = elim (lookup (normalize_relay_url url) w.relay_keys) [
  | some key ↦ (w, pooled key)
  | none ↦ if is_closed_or_dead w then (w, refused_claim closed) else (
    record w { relay_opening = insert (normalize_relay_url url) tt w.relay_opening },
    if is_some (lookup (normalize_relay_url url) w.relay_opening) then waits else claimed,
  )
]

-- The claimer's part behind the open, whose result it is given.
unfoldable pub finish_open : Wires → Text → Result ℕ Text → Wires × Result ℕ Error
finish_open w url opened =
    let w' = record w { relay_opening = remove (normalize_relay_url url) w.relay_opening } in
    elim opened [
      | ok conn ↦ let (w'', key) = register_relay w' url conn in (w'', ok key)
      | err e ↦ (w', err (connect_failed (codes "relay " ++ (url ++ (codes ": " ++ e)))))
    ]

-- One attempt of a dial that waits for another's open; 30 s in the unit of the instants.
unfoldable pub wait_relay : (second now started : ℕ) → Text → Wires → Option (Result ℕ Error)
unfolding is_closed_or_dead
wait_relay second now started url w = elim (lookup (normalize_relay_url url) w.relay_keys) [
  | some key ↦ some (ok key)
  | none ↦
      if not (is_some (lookup (normalize_relay_url url) w.relay_opening))
      then some (err (connect_failed (codes "a concurrent open of this relay failed")))
      else if is_closed_or_dead w
      then some (err closed)
      else if ltb (30 * second) (now - started)
      then some (err (connect_failed (codes "relay open timed out")))
      else none
]

-- `addr.endpoint_id` as 32 bytes.
unfoldable pub endpoint_id : Bytes → Result Peer Error
endpoint_id bytes =
    if length bytes == 32
    then ok bytes
    else err (invalid_argument (codes "endpoint id is not 32 bytes"))

-- The standin for a relayed dial: one that still routes to a relay follows the dial.
unfoldable pub dial_standin : Wires → Peer → ℕ → Wires × SocketAddr
dial_standin w peer dial_key =
    let (w', standin) = addr_for_peer w peer dial_key in
    (
      elim (lookup standin w'.routes) [
        | some (relay _) ↦ record w' { routes = insert standin (relay dial_key) w'.routes }
        | _ ↦ w'
      ],
      standin,
    )

unfoldable pub dial_remote : Wires → Peer → ℕ → Option SocketAddr → Wires × SocketAddr
unfolding dial_standin
dial_remote w peer dial_key (some real) = (w, real)
dial_remote w peer dial_key none = dial_standin w peer dial_key

-- `bind` up to its first side effect.
unfoldable pub check_options : OptionsState → Result Text Error
check_options o = elim o.relay_url [
  | none ↦
      err
        (invalid_argument (codes "bind requires a relay-url (the relay wire is the only path yet)"))
  | some url ↦ elim o.alpns [
    | [] ↦ err (invalid_argument (codes "bind requires at least one alpn"))
    | _ ∷ _ ↦ ok url
  ]
]

module _ (N : Noq) where
  -- `bind` behind the relay's handshake and the QUIC endpoint's making.
  unfoldable pub bound_state : N.Endpoint → Bool → Text → ℕ → State N
  bound_state noq webrtc relay_url conn =
      let s = new_state N noq webrtc in
      record s { wires = (register_relay s.wires relay_url conn).0 }

  abbrev pub push_upgrade : Wires → Peer → Option ℕ → Wires
  push_upgrade w peer none = w
  push_upgrade w peer (some key) = record w {
    pending_upgrades = w.pending_upgrades ++ ((peer, key) ∷ []);
  }

  -- The part of `connect` from the resolved keys to the entry's handle.
  unfoldable pub start_dial :
      ℕ → State N → Peer → Option SocketAddr → ℕ → Option ℕ → State N × Result ℕ Error
  unfolding dial_remote new_entry
  start_dial now s peer direct dial_key upgrade_key =
      if is_some s.wires.dead || s.wires.is_closed
      then (s, err closed)
      else (let (w, remote) = dial_remote s.wires peer dial_key direct in
          let (noq, dialed) = N.connect now remote s.noq in
          elim dialed [
            | err text ↦ (record s { wires = w; noq = noq }, err (connect_failed text))
            | ok (handle, conn) ↦ (
              record {
                wires = push_upgrade w peer upgrade_key;
                noq = noq;
                conns = insert handle (new_entry N conn (some peer) false) s.conns;
              },
              ok handle,
            )
          ])

  unfoldable pub connected_attempt : ConnEntry N → ConnEntry N × Option (Result (Unit {0}) Error)
  connected_attempt entry = elim entry.error [
    | some e ↦ (entry, some (err e))
    | none ↦ (entry, if entry.is_connected then some (ok tt) else none)
  ]

  -- The part of `connect` that waits for the handshake.
  unfoldable pub await_connected :
      ℕ → List (State N → State N) → State N → Run (State N × Option (Result (Unit {0}) Error))
  unfolding wait_until with_entry connected_attempt
  await_connected handle = wait_until (with_entry N handle connected_attempt)

  unfoldable pub accept_attempt : State N → Run (State N × Option (Result ℕ Error))
  accept_attempt s = elim s.wires.accept_queue [
    | handle ∷ rest ↦
        ended (record s { wires = record (s.wires) { accept_queue = rest } }, some (ok handle))
    | [] ↦ ended (s, if is_some s.wires.dead || s.wires.is_closed then some (err closed) else none)
  ]

  unfoldable pub accept :
      List (State N → State N) → State N → Run (State N × Option (Result ℕ Error))
  unfolding wait_until accept_attempt
  accept = wait_until accept_attempt
