-- ===== src/Endpoint/Connection/Paths.antt =====
-- What `path` and `state` tell about a connection (endpoint/src/endpoint_impl.rs).
use component_iroh.Prelude.{
  ℕ, ◌≡◌, refl, Option, none, some, Option-cases, inl, inr, err, nat_key, bytes_key, lookup, arith,
}
use component_iroh.Relay.Frames.{Bytes}
use component_iroh.Endpoint.Types.{SocketAddr, addr_key, Error, RouteWire, relay, channel}
use component_iroh.Endpoint.Noq.{Noq, Dir}
use component_iroh.Endpoint.Wires.{ChannelEntry}
use component_iroh.Endpoint.Wires.Routing.{IsRouted}
use component_iroh.Endpoint.State.{ConnEntry, State}
use component_iroh.Endpoint.Connection.{
  webrtc_path, path_of, path, state, closed_state, open_attempt, send_datagram, closed_attempt,
  close,
}

module _ (N : Noq) where
  -- A live channel to the peer whose standin the connection's remote address is.
  pub record OnChannel (s : State N) (handle : ℕ) : Type 0 where
    pub entry : ConnEntry N
    pub remote : SocketAddr
    pub id : ℕ
    pub wire : ChannelEntry
    pub is_entry : lookup handle s.conns ≡ some entry
    pub is_remote : N.network_path entry.conn ≡ some remote
    pub is_open : lookup id s.wires.channels ≡ some wire
    pub to_peer : lookup wire.peer s.wires.peer_to_addr ≡ some remote

  path_of-webrtc :
      (r : Option RouteWire) → path_of r ≡ webrtc_path → (id : ℕ) × (r ≡ some (channel id))
  unfolding path_of
  path_of-webrtc (some (channel id)) h = (id, refl)
  path_of-webrtc (some (relay key)) h = absurd (ground (arith, h))
  path_of-webrtc none h = absurd (ground (arith, h))

  -- When `path` says that a connection is on WebRTC, and the routing tables are consistent, an open
  -- channel leads to the very peer whose standin the connection's remote address is.
  pub path-OnChannel :
      (s : State N) (handle : ℕ)
      → IsRouted s.wires
      → path N s handle ≡ webrtc_path
      → OnChannel s handle
  unfolding path
  path-OnChannel s handle v h = elim (Option-cases (lookup handle s.conns)) [
    | inl e ↦ absurd (ground arith)
    | inr (entry, e) ↦ elim (Option-cases (N.network_path entry.conn)) [
      | inl n ↦ absurd (ground arith)
      | inr (remote, n) ↦
          let (id, r) = path_of-webrtc (lookup remote s.wires.routes) (ground arith) in
          let (wire, k, o) = v.live remote id r in
          record {
            entry = entry;
            remote = remote;
            id = id;
            wire = wire;
            is_entry = e;
            is_remote = n;
            is_open = k;
            to_peer = v.addr_peer remote wire.peer o;
          }
    ]
  ]

  -- A connection that has failed, as its methods show it.
  pub record ShowsFailed (entry : ConnEntry N) (e : Error) : Type 0 where
    pub is_closed : state N entry ≡ closed_state
    pub opens : (dir : Dir) → open_attempt N dir entry ≡ (entry, some (err e))
    pub sends : (bytes : Bytes) → send_datagram N bytes entry ≡ (entry, some (err e))
    pub waits : closed_attempt N entry ≡ (entry, some tt)
    pub closes : (now code : ℕ) (reason : Bytes) → close N now code reason entry ≡ entry

  -- Of a connection with an error, `state` is closed, `open-bi`, `open-uni` and `send-datagram`
  -- give that error, `wait-closed` returns, and none of these nor `close` touches the connection.
  pub failed_entry_lem :
      (entry : ConnEntry N) (e : Error) → entry.error ≡ some e → ShowsFailed entry e
  unfolding state open_attempt send_datagram closed_attempt close
  failed_entry_lem entry e h = record {
    is_closed = ground arith;
    opens = λ dir. rw h refl;
    sends = λ bytes. rw h refl;
    waits = ground arith;
    closes = λ now code reason. rw h refl;
  }
