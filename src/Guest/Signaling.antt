-- ===== src/Guest/Signaling.antt =====
-- The spike's signaling (guest/src/lib.rs): WebRTC signals as relay datagrams behind a zero byte, to
-- and from one peer.
use component_iroh.Prelude.{
  ℕ, List, [], ◌∷◌, ◌++◌, Option, none, some, Result, ok, err, Text, codes, length, ◌==◌,
  if◌then◌else◌,
}
use component_iroh.Relay.Frames.{Bytes, Datagram}
use component_iroh.Endpoint.Wires.{Peer}
use component_iroh.Endpoint.Pump.{signal_prefix}
use component_iroh.Endpoint.Webrtc.{Signal, Json, signal_result}
use component_iroh.Guest.{take_datagram}
use component_iroh.Guest.Task.{finished, failed, suspended, Task}

-- `arrivals` is what the relay's next `recv_datagram` calls give.
pub record Signaling : Type 0 where
  pub peer : Option Peer
  pub arrivals : List (Result Datagram Text)
  pub sent : List (Peer × Bytes)

-- serde_json, the hex crate, and the texts of errors. `fault n` is the error of the n-th send.
pub record Codec : Type 0 where
  pub json : Json
  pub decode_text : Bytes → Text
  pub debug_text : Option Signal → Text
  pub hex_encode : Bytes → Text
  pub hex_decode : Text → Result Bytes Text
  pub fault : ℕ → Option Text

-- What is behind the prefix byte of a payload.
unfoldable pub signal_json : Bytes → Option Bytes
signal_json [] = none
signal_json (b ∷ json) = if b == signal_prefix then some json else none

-- Of a datagram's payload, if it is the peer's.
unfoldable pub payload_json : Option Bytes → Option Bytes
unfolding signal_json
payload_json none = none
payload_json (some bytes) = signal_json bytes

module _ (C : Codec) where
  unfoldable pub publish : Signal → Task Signaling (Unit {0})
  publish signal s = elim s.peer [
    | none ↦ failed s (codes "no signaling peer yet")
    | some peer ↦ elim (C.json.to_writer signal) [
      | err e ↦ failed s (codes "encode signal: " ++ e)
      | ok json ↦ elim (C.fault (length s.sent)) [
        | some e ↦ failed s e
        | none ↦ finished (record s { sent = s.sent ++ ((peer, signal_prefix ∷ json) ∷ []) }) tt
      ]
    ]
  ]

  abbrev pub at_arrivals : Option Peer → List (Result Datagram Text) → Signaling → Signaling
  at_arrivals peer arrivals s = record s { peer = peer; arrivals = arrivals }

  -- The loop of `recv`: other sources and other datagrams are skipped.
  unfoldable pub recv_loop : List (Result Datagram Text) → Task Signaling (Option Signal)
  unfolding take_datagram payload_json signal_result
  recv_loop [] s = suspended (at_arrivals s.peer [] s)
  recv_loop (err e ∷ arrivals) s = failed (at_arrivals s.peer arrivals s) e
  recv_loop (ok d ∷ arrivals) s =
      let (peer, payload) = take_datagram s.peer d in
      let s' : Signaling = at_arrivals peer arrivals s in
      elim (payload_json payload) [
        | none ↦ recv_loop arrivals s'
        | some json ↦ elim (C.json.from_slice json) [
          | none ↦ failed s' (codes "decode signal: " ++ C.decode_text json)
          | some signal ↦ finished s' (signal_result signal)
        ]
      ]

  unfoldable pub recv : Task Signaling (Option Signal)
  unfolding recv_loop
  recv s = recv_loop s.arrivals s
