-- ===== src/Demo.antt =====
-- The endpoint demo (endpoint-demo/src/lib.rs): the interface that the endpoint component exports, as
-- the demo imports it, the choices of the config, and the pieces of the echo.
pub mod Roles
pub mod Streaming
pub mod Echoed
pub mod Agreement
pub mod Returning
mod Examples
use component_iroh.Prelude.{
  ℕ, zero, suc, ◌-◌, ◌/◌, Bool, true, false, List, [], ◌∷◌, ◌++◌, Option, none, some, Result, ok,
  err, map_err, ok_or, bytes_key, eq?, Text, codes, length, replicate, leb, ltb, ◌==◌, unwrap_or,
  if◌then◌else◌,
}
use component_iroh.Relay.Frames.{Bytes}
use component_iroh.Endpoint.Types.{Error}
use component_iroh.Endpoint.Wires.{Peer}
use component_iroh.Endpoint.Dial.{TransportAddr, relay_addr, ip_addr, webrtc_addr}
use component_iroh.Endpoint.Connection.{PathKind, relay_path, ip_path, webrtc_path}
use component_iroh.Guest.Task.{
  Outcome, finished, failed, out_of_fuel, Task, ◌>>=◌, and_then, pure, fail, gets, of_result,
}

abbrev pub default_alpn : Bytes
default_alpn = codes "iroh-demo/0"

abbrev pub read_max : ℕ
read_max = 16384

abbrev pub datagram_copies : ℕ
datagram_copies = 3

abbrev pub upgrade_deadline_polls : ℕ
upgrade_deadline_polls = 30000 / 5

pub record RunConfig : Type 0 where
  pub is_client : Bool
  pub inject_identity : Bool
  pub relay_url : Text
  pub udp_bind : Option Text
  pub webrtc : Bool
  pub peer : Option Text
  pub alpn : Option Bytes
  pub peer_relay : Option Text
  pub direct : Option Text
  pub payload_bytes : Option ℕ
  pub message : Bytes
  pub datagram : Bool

pub record RunReport : Type 0 where
  pub endpoint_id : Text
  pub peer_id : Text
  pub path : Text
  pub handshake_ms : ℕ
  pub roundtrip_ms : ℕ
  pub received : Text
  pub datagram : Option Text

-- The endpoint's interface as the demo imports it: each call on what its side keeps, with the waits
-- over. A connection and a stream are numbers. Then the hex crate, the strings of the standard
-- library, the debug text of an error, and the clock in milliseconds.
pub record Host : Type 1 where
  pub State : Type 0
  pub mint : State → State × Result (ℕ × ℕ) Text
  pub from_keys : ℕ × ℕ → State → State × Result Peer Error
  pub generate : State → State × Result Peer Error
  pub bind : RunConfig → Peer → State → State × Result (Unit {0}) Error
  pub endpoint_id : State → Peer
  pub connect : Peer → List TransportAddr → Bytes → State → State × Result ℕ Error
  pub accept : State → State × Result ℕ Error
  pub close_endpoint : State → State
  pub path : ℕ → State → PathKind
  pub peer_of : ℕ → State → Peer
  pub open_bi : ℕ → State → State × Result (ℕ × ℕ) Error
  pub accept_bi : ℕ → State → State × Result (ℕ × ℕ) Error
  pub write : ℕ → Bytes → State → State × Result (Unit {0}) Error
  pub finish : ℕ → State → State × Result (Unit {0}) Error
  pub read : ℕ → ℕ → State → State × Result (Option Bytes) Error
  pub max_datagram_size : ℕ → State → Option ℕ
  pub send_datagram : ℕ → Bytes → State → State × Result (Unit {0}) Error
  pub recv_datagram : ℕ → State → State × Result Bytes Error
  pub close : ℕ → ℕ → Text → State → State
  pub wait_closed : ℕ → State → State
  pub wait_poll : State → State
  pub now_ms : State → ℕ
  pub hex_encode : Bytes → Text
  pub hex_decode : Text → Result Bytes Text
  pub from_utf8_lossy : Bytes → Text
  pub to_uppercase : Text → Text
  pub as_bytes : Text → Bytes
  pub decimal : ℕ → Text
  pub debug : Error → Text

abbrev pub path_name : PathKind → Text
path_name relay_path = codes "relay"
path_name ip_path = codes "ip"
path_name webrtc_path = codes "webrtc"

abbrev pub is_webrtc : PathKind → Bool
is_webrtc webrtc_path = true
is_webrtc _ = false

abbrev pub summary_limit : ℕ
summary_limit = 4096

-- The addresses to dial: the direct one, WebRTC through the relay, and the relay.
unfoldable pub dial_addrs : RunConfig → List TransportAddr
dial_addrs config =
    let relay = unwrap_or config.peer_relay config.relay_url in
    (elim config.direct [ none ↦ [] | some direct ↦ ip_addr direct ∷ [] ])
    ++ ((if config.webrtc then webrtc_addr relay ∷ [] else []) ++ (relay_addr relay ∷ []))

abbrev pub payload_of : RunConfig → Bytes
payload_of config = elim config.payload_bytes [ some n ↦ replicate n 0 | none ↦ config.message ]

module _ (H : Host) where
  open H use {State}

  -- A call of the interface, with the label of its error.
  abbrev pub call : {A : Type 0} → Text → (State → State × Result A Error) → Task State A
  call what f s =
      let (s', r) = f s in of_result (map_err (λ e. what ++ (codes ": " ++ H.debug e)) r) s'

  -- Reads to the end of the stream.
  unfoldable pub read_all : (fuel : ℕ) → ℕ → Bytes → Task State Bytes
  unfolding ◌>>=◌
  read_all zero stream read = λ s. out_of_fuel
  read_all (suc fuel) stream read = call (codes "read") (H.read stream read_max) >>= λ chunk.
      elim chunk [ none ↦ pure read | some bytes ↦ read_all fuel stream (read ++ bytes) ]

  -- At most so many polls of the path.
  unfoldable pub wait_upgrade : (polls : ℕ) → ℕ → Task State (Unit {0})
  wait_upgrade zero conn s = elim (is_webrtc (H.path conn s)) [
    | true ↦ finished s tt
    | false ↦ failed s (codes "webrtc upgrade did not complete")
  ]
  wait_upgrade (suc polls) conn s = elim (is_webrtc (H.path conn s)) [
    | true ↦ finished s tt
    | false ↦ wait_upgrade polls conn (H.wait_poll s)
  ]

  unfoldable pub send_copies : ℕ → ℕ → Bytes → Task State (Unit {0})
  unfolding ◌>>=◌
  send_copies zero conn payload = pure tt
  send_copies (suc n) conn payload = do
    _ ← call (codes "send-datagram") (H.send_datagram conn payload)
    send_copies n conn payload

  abbrev pub mismatch_text : (payload echoed : Bytes) → Text
  mismatch_text payload echoed =
      codes "datagram echo mismatch: sent "
      ++ (H.decimal (length payload)
          ++ (codes " bytes, got " ++ (H.decimal (length echoed) ++ codes " bytes")))

  unfoldable pub same_datagram : (payload echoed : Bytes) → Result Text Text
  same_datagram payload echoed = elim (eq? echoed payload) [
    | yes _ ↦ ok (H.from_utf8_lossy echoed)
    | no _ ↦ err (mismatch_text payload echoed)
  ]

  unfoldable pub within_max : Bytes → (max : ℕ) → Result (Unit {0}) Text
  within_max payload max =
      if ltb max (length payload)
      then err (
          codes "demo datagram ("
          ++ (H.decimal (length payload)
              ++ (codes " bytes) exceeds max-datagram-size (" ++ (H.decimal max ++ codes ")"))))
      else ok tt

  unfoldable pub run_client_datagram : ℕ → Bytes → Task State Text
  unfolding ◌>>=◌ send_copies same_datagram within_max
  run_client_datagram conn message = do
    size ← gets (H.max_datagram_size conn)
    max ← of_result (ok_or size (codes "peer does not accept datagrams"))
    _ ← of_result (within_max (codes "datagram " ++ message) max)
    _ ← send_copies datagram_copies conn (codes "datagram " ++ message)
    echoed ← call (codes "recv-datagram") (H.recv_datagram conn)
    of_result (same_datagram (codes "datagram " ++ message) echoed)

  unfoldable pub client_datagram : RunConfig → ℕ → Task State (Option Text)
  unfolding ◌>>=◌ run_client_datagram
  client_datagram config conn = elim config.datagram [
    | false ↦ pure none
    | true ↦ do text ← run_client_datagram conn config.message; pure (some text)
  ]

  unfoldable pub same_length : (payload echoed : Bytes) → Result (Unit {0}) Text
  same_length payload echoed =
      if length echoed == length payload
      then ok tt
      else err (
          codes "echo length mismatch: sent "
          ++ (H.decimal (length payload) ++ (codes ", got " ++ H.decimal (length echoed))))

  unfoldable pub shown_echo : RunConfig → Bytes → Text
  shown_echo config echoed = elim config.payload_bytes [
    | some _ ↦ H.decimal (length echoed) ++ codes " bytes"
    | none ↦ H.from_utf8_lossy echoed
  ]

  abbrev pub upgraded : RunConfig → ℕ → Task State (Unit {0})
  upgraded config conn = if config.webrtc then wait_upgrade upgrade_deadline_polls conn else pure tt
