-- ===== src/Guest/Driver.antt =====
-- The spike's driver (guest/src/lib.rs): both halves of the WebRTC dance over the signaling, and
-- `Component::run`.
use component_iroh.Prelude.{
  ℕ, zero, suc, Bool, true, false, not, ◌&&◌, ◌||◌, List, [], ◌∷◌, ◌++◌, Option, none, some, Result,
  ok, err, map_err, ok_or, bytes_key, eq?, Text, codes, length, ◌==◌, is_some, if◌then◌else◌,
}
use component_iroh.Relay.Frames.{Bytes, Datagram}
use component_iroh.Endpoint.Noq.{Noq}
use component_iroh.Endpoint.Wires.{Peer}
use component_iroh.Endpoint.Webrtc.{
  Candidate, Signal, offer, answer, local_candidate, end_of_candidates, done,
}
use component_iroh.Endpoint.Webrtc.Dance.{RtcCall, set_remote_answer, add_ice_candidate}
use component_iroh.Endpoint.Webrtc.Dialing.{PeerConnection, ChannelState, some_open, some_closed}
use component_iroh.Guest.{channel_wire, relay_wire}
use component_iroh.Guest.Task.{
  Outcome, finished, failed, suspended, out_of_fuel, Task, and_then, ◌>>=◌, pure, fail, of_result,
}
use component_iroh.Guest.Side.{Role, client, server, Report, Demo}
use component_iroh.Guest.Line.{Round, Setup}
use component_iroh.Guest.Loop
use component_iroh.Guest.Signaling.{Signaling, Codec, publish, recv}

abbrev pub rtc : Text → Text
rtc e = codes "webrtc: " ++ e

abbrev pub rtc_call : {A : Type 0} → Result A Text → Task Signaling A
rtc_call r = of_result (map_err rtc r)

module _ (C : Codec) where
  unfoldable pub publish_all : List Candidate → Task Signaling (Unit {0})
  unfolding ◌>>=◌ publish
  publish_all [] = publish C end_of_candidates
  publish_all (c ∷ candidates) = do _ ← publish C (local_candidate c); publish_all candidates

  -- The reads of the local candidates, until their stream ends; then they are published.
  unfoldable pub publish_candidates :
      List Candidate → List (Bool × List Candidate) → Task Signaling (Unit {0})
  unfolding publish_all
  publish_candidates candidates [] = suspended
  publish_candidates candidates ((is_end, batch) ∷ reads) = elim is_end [
    | false ↦ publish_candidates (candidates ++ batch) reads
    | true ↦ publish_all (candidates ++ batch)
  ]

  module _ (conn : PeerConnection) where
    -- The calls' answers are indexed by the number of datagrams that are to come.
    abbrev pub apply_call : RtcCall → Task Signaling (Unit {0})
    apply_call call s = rtc_call (conn.answers (length s.arrivals) call) s

    unfoldable pub apply_signal : Signal → Task Signaling (Unit {0})
    apply_signal (answer sdp) = apply_call (set_remote_answer sdp)
    apply_signal (offer _) = fail (codes "unexpected second offer")
    apply_signal (local_candidate c) = apply_call (add_ice_candidate c)
    apply_signal _ = pure tt

    -- To the peer's `done`. A round takes a datagram at least.
    unfoldable pub consume : (fuel : ℕ) → Task Signaling (Unit {0})
    unfolding ◌>>=◌ recv apply_signal
    consume zero s = out_of_fuel
    consume (suc fuel) s =
        and_then (recv C s) (λ signal. elim signal [
          | none ↦ pure tt
          | some x ↦ (apply_signal x >>= λ _. consume fuel)
        ])

    unfoldable pub consume_signaling : Task Signaling (Unit {0})
    unfolding consume
    consume_signaling s = consume (suc (length s.arrivals)) s

    -- Waits for `open`.
    unfoldable pub await_open : List (Bool × List ChannelState) → Task Signaling (Unit {0})
    unfolding some_open some_closed
    await_open [] = suspended
    await_open ((is_end, batch) ∷ reads) = elim (some_open batch) [
      | true ↦ pure tt
      | false ↦ elim (some_closed batch || is_end) [
        | true ↦ fail (codes "data channel closed before opening")
        | false ↦ await_open reads
      ]
    ]

    -- From the local description on, both halves are the same up to the connection.
    unfoldable pub trickle : Signal → Task Signaling (Unit {0})
    unfolding ◌>>=◌ publish_candidates consume_signaling
    trickle description = do
      _ ← publish C description
      _ ← publish_candidates [] conn.local_ice_candidates
      _ ← publish C done
      _ ← consume_signaling
      rtc_call conn.wait_connected

    unfoldable pub connect_offerer : Task Signaling ℕ
    unfolding ◌>>=◌ trickle await_open
    connect_offerer = do
      channel ← rtc_call conn.create_data_channel
      sdp ← rtc_call conn.create_offer
      _ ← rtc_call (conn.set_local_description sdp)
      _ ← trickle (offer sdp)
      _ ← await_open conn.state_changes
      pure channel

    abbrev pub expect_offer : Option Signal → Result Text Text
    expect_offer (some (offer sdp)) = ok sdp
    expect_offer other = err (codes "expected offer, got " ++ C.debug_text other)

    abbrev pub first_channel : List ℕ → Result ℕ Text
    first_channel [] = err (codes "no incoming data channel")
    first_channel (channel ∷ batch) = ok channel

    unfoldable pub connect_answerer : Task Signaling ℕ
    unfolding ◌>>=◌ trickle recv
    connect_answerer = do
      signal ← recv C
      remote ← of_result (expect_offer signal)
      _ ← rtc_call (conn.set_remote_offer remote)
      sdp ← rtc_call conn.create_answer
      _ ← rtc_call (conn.set_local_description sdp)
      _ ← trickle (answer sdp)
      of_result (first_channel conn.incoming_data_channels)

  unfoldable pub parse_endpoint_id : Text → Result Peer Text
  parse_endpoint_id text = elim (C.hex_decode text) [
    | err e ↦ err (codes "bad endpoint id: " ++ e)
    | ok bytes ↦ if length bytes == 32 then ok bytes else err (codes "endpoint id is not 32 bytes")
  ]

  unfoldable pub parse_peer : Option Text → Result (Option Peer) Text
  unfolding parse_endpoint_id
  parse_peer none = ok none
  parse_peer (some text) = elim (parse_endpoint_id text) [ err e ↦ err e | ok id ↦ ok (some id) ]

pub record RunConfig : Type 0 where
  pub is_client : Bool
  pub is_webrtc : Bool
  pub message : Bytes
  pub peer : Option Text

pub record RunReport : Type 0 where
  pub endpoint_id : Text
  pub peer_id : Text
  pub handshake_ms : ℕ
  pub roundtrip_ms : ℕ
  pub received : Text

-- What a run meets: its identity, whether the relay connects, and what comes over each wire.
pub record World (N : Noq) : Type 1 where
  pub identity : Result Peer Text
  pub connected : Result (Unit {0}) Text
  pub signals : List (Result Datagram Text)
  pub rtc_peer : PeerConnection
  pub setup : Setup N
  pub started : ℕ
  pub channel_rounds : List (Round channel_wire)
  pub relay_rounds : List (Round relay_wire)

-- What the driver closed.
pub record Closed : Type 0 where
  pub rtc_closed : Bool
  pub relay_closed : Bool

-- A part of the run that has a state of its own.
abbrev pub apart : {S A : Type 0} → Outcome S A → Task Closed (S × A)
apart (finished s a) c = finished c (s, a)
apart (failed s e) c = failed c e
apart (suspended s) c = suspended c
apart out_of_fuel c = out_of_fuel

abbrev pub either : {A : Type 0} → Option A → Option A → Option A
either (some a) o = some a
either none o = o

-- The peer that the TLS identity must be: the argument, else the signaling's, else the wire's.
unfoldable pub check_peer : (expected : Option Peer) → Peer → Result (Unit {0}) Text
check_peer none id = err (codes "finished without an expected peer identity")
check_peer (some expected) id = elim (eq? id expected) [
  | yes _ ↦ ok tt
  | no _ ↦ err (codes "authenticated peer key differs from the relay-authenticated one")
]

abbrev pub signaled_peer : Option (ℕ × Peer) → Option Peer
signaled_peer none = none
signaled_peer (some (channel, peer)) = some peer

module _ {N : Noq} (D : Demo N) (C : Codec) (fuel : ℕ) (config : RunConfig) (X : World N) where
  abbrev pub role : Role
  role = if config.is_client then client config.message else server

  -- The channel and the signaling peer, on the WebRTC transport.
  unfoldable pub signaled : Option Peer → Task Closed (Option (ℕ × Peer))
  unfolding ◌>>=◌ connect_offerer connect_answerer
  signaled peer_arg = elim config.is_webrtc [
    | false ↦ pure none
    | true ↦ do
      (s, channel) ← apart (
          (if config.is_client then connect_offerer C X.rtc_peer else connect_answerer C X.rtc_peer)
            (record { peer = peer_arg; arrivals = X.signals; sent = [] }))
      peer ← of_result (ok_or s.peer (codes "signaling completed without a peer"))
      pure (some (channel, peer))
  ]

  -- `endpoint::run` on the wire of the transport, with the peer the wire ended up bound to.
  unfoldable pub run_endpoint : Option Peer → Bool → Task Closed (Report × Option Peer)
  unfolding ◌>>=◌ Loop.run
  run_endpoint peer_arg is_channel = elim is_channel [
    | true ↦ do
      o ← of_result (
          Loop.run {W = channel_wire} D C.fault X.setup fuel X.started peer_arg role tt
            X.channel_rounds)
      (p, report) ← apart o
      pure (report, none)
    | false ↦ do
      o ← of_result (
          Loop.run {W = relay_wire} D C.fault X.setup fuel X.started peer_arg role peer_arg
            X.relay_rounds)
      (p, report) ← apart o
      pure (report, p.line.wire)
  ]

  unfoldable pub run : Task Closed RunReport
  unfolding ◌>>=◌ signaled run_endpoint check_peer parse_peer
  run = do
    id ← of_result X.identity
    peer_arg ← of_result (parse_peer C config.peer)
    _ ← of_result (
        if config.is_client && not (is_some peer_arg)
        then err (codes "the client role requires the server's endpoint id (peer)")
        else ok tt)
    _ ← of_result X.connected
    webrtc ← signaled peer_arg
    (outcome, bound) ← run_endpoint peer_arg (is_some webrtc)
    _ ←
        of_result
          (check_peer (either peer_arg (either (signaled_peer webrtc) bound)) outcome.peer_id)
    _ ← (λ c. finished (record { rtc_closed = is_some webrtc; relay_closed = true }) tt)
    pure (record {
      endpoint_id = C.hex_encode id;
      peer_id = C.hex_encode outcome.peer_id;
      handshake_ms = outcome.handshake_ms;
      roundtrip_ms = outcome.roundtrip_ms;
      received = outcome.received;
    })
