-- ===== src/Demo/Roles.antt =====
-- The roles of the endpoint demo, client and server, and the run that picks one
-- (endpoint-demo/src/lib.rs, `run_client`, `run_server`, `Component::run`).
use component_iroh.Prelude.{
  ℕ, ◌-◌, true, false, [], ◌++◌, Option, none, some, Result, ok, err, map_err, ok_or, bytes_key,
  eq?, Text, codes, length, leb, unwrap_or, if◌then◌else◌,
}
use component_iroh.Relay.Frames.{Bytes}
use component_iroh.Endpoint.Wires.{Peer}
use component_iroh.Guest.Task.{finished, Task, ◌>>=◌, pure, gets, of_result}
use component_iroh.Demo.{
  Host, RunConfig, RunReport, call, client_datagram, datagram_copies, default_alpn, dial_addrs,
  path_name, payload_of, read_all, same_length, send_copies, shown_echo, summary_limit, upgraded,
  wait_upgrade,
}

module _ (H : Host) where
  open H use {State}

  -- The stream's echo, and how long it took.
  unfoldable pub client_stream : (fuel : ℕ) → RunConfig → ℕ → Task State (Bytes × ℕ)
  unfolding ◌>>=◌ read_all same_length
  client_stream fuel config conn = do
    (sender, receiver) ← call H (codes "open-bi") (H.open_bi conn)
    sent_at ← gets H.now_ms
    _ ← call H (codes "write") (H.write sender (payload_of config))
    _ ← call H (codes "finish") (H.finish sender)
    echoed ← read_all H fuel receiver []
    now ← gets H.now_ms
    _ ← of_result (same_length H (payload_of config) echoed)
    pure (echoed, now - sent_at)

  unfoldable pub dial_peer : RunConfig → Task State (ℕ × ℕ)
  unfolding ◌>>=◌ dial_addrs
  dial_peer config = do
    hex ←
        of_result
          (ok_or config.peer (codes "the client role requires the server's endpoint id (peer)"))
    peer ← of_result (map_err (λ e. codes "bad endpoint id: " ++ e) (H.hex_decode hex))
    started ← gets H.now_ms
    conn ←
        call H (codes "connect")
          (H.connect peer (dial_addrs config) (unwrap_or config.alpn default_alpn))
    now ← gets H.now_ms
    pure (conn, now - started)

  unfoldable pub run_client : (fuel : ℕ) → RunConfig → Task State RunReport
  unfolding ◌>>=◌ dial_peer wait_upgrade client_stream client_datagram shown_echo
  run_client fuel config = do
    (conn, handshake) ← dial_peer config
    _ ← upgraded H config conn
    (echoed, roundtrip) ← client_stream fuel config conn
    datagram ← client_datagram H config conn
    path ← gets (H.path conn)
    _ ← (λ s. finished (H.wait_closed conn (H.close conn 0 (codes "done") s)) tt)
    peer ← gets (H.peer_of conn)
    pure (record {
      endpoint_id = [];
      peer_id = H.hex_encode peer;
      path = path_name path;
      handshake_ms = handshake;
      roundtrip_ms = roundtrip;
      received = shown_echo H config echoed;
      datagram = datagram;
    })

  -- The echo and the text of what a server has read: a long payload comes back as it is.
  unfoldable pub echo_of : Bytes → Bytes × Text
  echo_of inbound =
      if leb (length inbound) summary_limit
      then (H.as_bytes (H.to_uppercase (H.from_utf8_lossy inbound)), H.from_utf8_lossy inbound)
      else (inbound, H.decimal (length inbound) ++ codes " bytes")

  unfoldable pub server_datagram : RunConfig → ℕ → Task State (Option Text)
  unfolding ◌>>=◌ send_copies
  server_datagram config conn = elim config.datagram [
    | false ↦ pure none
    | true ↦ do
      payload ← call H (codes "recv-datagram") (H.recv_datagram conn)
      _ ← send_copies H datagram_copies conn payload
      pure (some (H.from_utf8_lossy payload))
  ]

  unfoldable pub run_server : (fuel : ℕ) → RunConfig → Task State RunReport
  unfolding ◌>>=◌ read_all echo_of server_datagram
  run_server fuel config = do
    conn ← call H (codes "accept") H.accept
    (sender, receiver) ← call H (codes "accept-bi") (H.accept_bi conn)
    inbound ← read_all H fuel receiver []
    _ ← call H (codes "write") (H.write sender ((echo_of inbound).0))
    _ ← call H (codes "finish") (H.finish sender)
    datagram ← server_datagram config conn
    path ← gets (H.path conn)
    _ ← (λ s. finished (H.wait_closed conn s) tt)
    peer ← gets (H.peer_of conn)
    pure (record {
      endpoint_id = [];
      peer_id = H.hex_encode peer;
      path = path_name path;
      handshake_ms = 0;
      roundtrip_ms = 0;
      received = (echo_of inbound).1;
      datagram = datagram;
    })

  unfoldable pub demo_identity : RunConfig → Task State Peer
  unfolding ◌>>=◌
  demo_identity config = elim config.inject_identity [
    | false ↦ call H (codes "generate") H.generate
    | true ↦ do
      keys ← (λ s.
          let (s', r) = H.mint s in
          of_result (map_err (λ e. codes "mint identity keys: " ++ e) r) s')
      call H (codes "from-keys") (H.from_keys keys)
  ]

  unfoldable pub adopted : (expected bound : Peer) → Result (Unit {0}) Text
  adopted expected bound = elim (eq? bound expected) [
    | yes _ ↦ ok tt
    | no _ ↦ err (codes "bind did not adopt the supplied identity")
  ]

  unfoldable pub run : (fuel : ℕ) → RunConfig → Task State RunReport
  unfolding ◌>>=◌ demo_identity adopted run_client run_server
  run fuel config = do
    expected ← demo_identity config
    _ ← call H (codes "bind") (H.bind config expected)
    bound ← gets H.endpoint_id
    _ ← of_result (adopted expected bound)
    report ← (if config.is_client then run_client fuel config else run_server fuel config)
    _ ← (λ s. finished (H.close_endpoint s) tt)
    id ← gets H.endpoint_id
    pure (record report { endpoint_id = H.hex_encode id })
