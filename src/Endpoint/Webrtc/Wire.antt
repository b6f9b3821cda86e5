-- ===== src/Endpoint/Webrtc/Wire.antt =====
-- The channel wire of endpoint/src/webrtc.rs, over the calls of the host's data channel.
use component_iroh.Prelude.{
  ℕ, Bool, false, List, [], ◌∷◌, ◌++◌, Option, none, some, Result, ok, err, map_err, codes, Text,
}
use component_iroh.Relay.Frames.{Bytes}

pub data ChannelMessage : Type 0 where
  binary : Bytes → ChannelMessage
  string : Text → ChannelMessage

abbrev pub channel_error : Text → Text
channel_error e = codes "data channel: " ++ e

-- `ChannelWire::receive`, of what the channel's receive gives: a text message is skipped.
unfoldable pub receive_channel : Result ChannelMessage Text → Result (Option Bytes) Text
receive_channel (ok (binary datagram)) = ok (some datagram)
receive_channel (ok (string text)) = ok none
receive_channel (err e) = err (channel_error e)

-- `ChannelWire::send`: one datagram is one binary message.
unfoldable pub send_channel :
    (send : ChannelMessage → Result (Unit {0}) Text) → Bytes → Result (Unit {0}) Text
send_channel send payload = map_err channel_error (send (binary payload))

-- What `ChannelWire::close` asks of the host, in order.
pub data HostClose : Type 0 where
  closes_data_channel closes_peer_connection : HostClose

unfoldable pub close_wire : List HostClose
close_wire = closes_data_channel ∷ closes_peer_connection ∷ []

-- The options of the channel that QUIC runs over: a carrier of datagrams.
pub record ChannelOptions : Type 0 where
  pub label : Text
  pub ordered : Bool
  pub max_retransmits : Option ℕ

unfoldable pub quic_channel_options : ChannelOptions
quic_channel_options = record { label = codes "quic"; ordered = false; max_retransmits = some 0 }
