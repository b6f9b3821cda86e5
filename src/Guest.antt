-- ===== src/Guest.antt =====
-- The spike (guest/src): here its wire, over a data channel or a relay, and the identity of a peer
-- (endpoint.rs).
pub mod Binding
pub mod Task
pub mod Settling
pub mod Ebbing
pub mod Drained
pub mod Returning
pub mod Side
pub mod App
pub mod Line
pub mod Turn
pub mod Loop
pub mod Keeping
pub mod Exchange
pub mod Draining
pub mod Running
pub mod Reporting
pub mod Signals
pub mod Expected
pub mod Reading
pub mod Consuming
mod Scripted
mod Examples
mod DriverExamples
pub mod Signaling
pub mod Driver
use component_iroh.Prelude.{
  List, [], ◌∷◌, ◌++◌, Option, none, some, Result, ok, err, bytes_key, eq?, ite, codes, Text,
}
use component_iroh.Relay.Frames.{Bytes, Datagram}
use component_iroh.Endpoint.Noq.{Noq}
use component_iroh.Endpoint.Wires.{Peer}

-- `Wire::receive` on a relay, of a datagram that came: the wire belongs to the first source.
unfoldable pub take_datagram : Option Peer → Datagram → Option Peer × Option Bytes
take_datagram none d = (some d.source, some d.payload)
take_datagram (some expected) d = (some expected, ite (eq? expected d.source) (some d.payload) none)

-- What a wire is to the loop over it: its state, what comes, what a `receive` makes of that, and the
-- peer that a `send` names.
pub record Wire : Type 1 where
  pub State : Type 0
  pub Raw : Type 0
  pub receive : Raw → State → State × Result (Option Bytes) Text
  pub address : State → Result (Option Peer) Text

-- A message of a data channel, or the error of its `receive`.
pub data ChannelMessage : Type 0 where
  binary : Bytes → ChannelMessage
  string : ChannelMessage
  channel_error : Text → ChannelMessage

unfoldable pub receive_message : ChannelMessage → Result (Option Bytes) Text
receive_message (binary datagram) = ok (some datagram)
receive_message string = ok none
receive_message (channel_error e) = err (codes "data channel: " ++ e)

-- The relay's `receive`; the state is the wire's peer.
unfoldable pub receive_relayed :
    Result Datagram Text → Option Peer → Option Peer × Result (Option Bytes) Text
unfolding take_datagram
receive_relayed (err e) peer = (peer, err e)
receive_relayed (ok d) peer = let (peer', payload) = take_datagram peer d in (peer', ok payload)

unfoldable pub relay_address : Option Peer → Result (Option Peer) Text
relay_address none = err (codes "relay wire has no peer yet")
relay_address (some peer) = ok (some peer)

abbrev pub channel_wire : Wire
channel_wire = record {
  State = Unit;
  Raw = ChannelMessage;
  receive = λ message s. (s, receive_message message);
  address = λ s. ok none;
}

abbrev pub relay_wire : Wire
relay_wire = record {
  State = Option Peer;
  Raw = Result Datagram Text;
  receive = receive_relayed;
  address = relay_address;
}

-- `peer_endpoint_id`, behind the downcast, which always succeeds.
unfoldable pub peer_endpoint_id : (N : Noq) → N.Conn → Result Peer Text
peer_endpoint_id N conn = elim (N.peer_identity conn) [
  | none ↦ err (codes "peer presented no identity")
  | some [] ↦ err (codes "empty peer certificate list")
  | some (spki ∷ _) ↦ elim (N.public_key_from_spki spki) [
    | none ↦ err (codes "peer key is not Ed25519")
    | some id ↦ ok id
  ]
]
