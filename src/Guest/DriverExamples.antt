-- ===== src/Guest/DriverExamples.antt =====
-- The spike's guest driver on concrete inputs: a client's run over the relay, and signals.
use component_iroh.Prelude.{
  ℕ, ◌+◌, ◌≡◌, refl, true, false, List, [], ◌∷◌, Option, none, some, Result, ok, err, codes, Text,
  replicate, ◌==◌, if◌then◌else◌, bytes_eq,
}
use component_iroh.Relay.Frames.{Bytes, Datagram}
use component_iroh.Endpoint.Webrtc.{Signal, offer, end_of_candidates, done}
use component_iroh.Endpoint.Webrtc.Dialing.{PeerConnection}
use component_iroh.Guest.{relay_wire, peer_endpoint_id, receive_relayed}
use component_iroh.Guest.Task.{finished}
use component_iroh.Guest.Line.{Round, received, tick}
use component_iroh.Guest.Loop
use component_iroh.Guest.Signaling.{Codec, signal_json}
use component_iroh.Guest.Driver
use component_iroh.Guest.Driver.{RunConfig, RunReport, World, Closed}
use component_iroh.Guest.Expected.{HasMet}
use component_iroh.Guest.Settling.{IsFueled}
use component_iroh.Guest.Returning.Meeting.{run-Meets}
use component_iroh.Guest.Signals.{hear, told, all_told, hear-signals}
use component_iroh.Guest.Consuming.{Ends, consume_signaling-Ends}
use component_iroh.Guest.Scripted.{peer_key, talk, demo, setup, no_fault, demo-Ebbs}

abbrev idle_rtc : PeerConnection
idle_rtc = record {
  create_data_channel = err [];
  create_offer = err [];
  create_answer = err [];
  set_local_description = λ sdp. err [];
  set_remote_offer = λ sdp. err [];
  local_ice_candidates = [];
  answers = λ n call. ok tt;
  wait_connected = err [];
  state_changes = [];
  incoming_data_channels = [];
}

-- One byte names a signal.
abbrev decode : Bytes → Option Signal
decode (b ∷ []) =
    if b == 1
    then some (offer (codes "sdp"))
    else if b == 2
    then some end_of_candidates
    else if b == 3
    then some done
    else none
decode _ = none

abbrev codec : Codec
codec = record {
  json = record { to_writer = λ x. ok []; from_slice = decode };
  decode_text = λ bytes. [];
  debug_text = λ x. [];
  hex_encode = λ bytes. bytes;
  hex_decode = λ text. ok text;
  fault = no_fault;
}

abbrev relayed : List (Round relay_wire)
relayed = (1, received (err (codes "closed"))) ∷ (2, tick) ∷ []

abbrev config : RunConfig
config = record { is_client = true; is_webrtc = false; message = codes "hi"; peer = some peer_key }

abbrev world : World talk
world = record {
  identity = ok (replicate 32 1);
  connected = ok tt;
  signals = [];
  rtc_peer = idle_rtc;
  setup = setup;
  started = 0;
  channel_rounds = [];
  relay_rounds = relayed;
}

abbrev open_all : Closed
open_all = record { rtc_closed = false; relay_closed = false }

abbrev closed_relay : Closed
closed_relay = record { rtc_closed = false; relay_closed = true }

abbrev shown_report : RunReport
shown_report = record {
  endpoint_id = replicate 32 1;
  peer_id = peer_key;
  handshake_ms = 0;
  roundtrip_ms = 0;
  received = codes "HI";
}

driver_reports : Driver.run demo codec 9 config world open_all ≡ finished closed_relay shown_report
unfolding Driver.run peer_endpoint_id bytes_eq Loop.run receive_relayed
driver_reports = refl

run-Meets_example :
    (enough : ℕ) × ((more : ℕ)
      → IsFueled true
          (HasMet demo codec (enough + more) config world)
          (Driver.run demo codec (enough + more) config world open_all))
run-Meets_example = run-Meets demo-Ebbs codec config world open_all

abbrev from : ℕ → Bytes → Result Datagram Text
from source payload = ok (record { source = source ∷ []; payload = payload })

-- The signaling of a peer that sends an end of candidates and a `done`.
consume_signaling-Ends_example : Ends (
    Driver.consume_signaling codec idle_rtc (record {
      peer = some (7 ∷ []);
      arrivals = from 7 (0 ∷ 2 ∷ []) ∷ from 7 (0 ∷ 3 ∷ []) ∷ [];
      sent = [];
    }))
consume_signaling-Ends_example = consume_signaling-Ends codec idle_rtc (record {
  peer = some (7 ∷ []);
  arrivals = from 7 (0 ∷ 2 ∷ []) ∷ from 7 (0 ∷ 3 ∷ []) ∷ [];
  sent = [];
})

-- Three datagrams: a signal, one of another source, and the end.
hear-signals_example :
    hear codec 4 (record {
      peer = none;
      arrivals = from 7 (0 ∷ 1 ∷ []) ∷ from 8 (0 ∷ 2 ∷ []) ∷ from 7 (0 ∷ 3 ∷ []) ∷ [];
      sent = [];
    })
    ≡ some (told (offer (codes "sdp")) all_told)
unfolding bytes_eq signal_json
hear-signals_example =
    hear-signals codec none [] (record { source = 7 ∷ []; payload = 0 ∷ 1 ∷ [] })
      (from 8 (0 ∷ 2 ∷ []) ∷ from 7 (0 ∷ 3 ∷ []) ∷ [])
