-- ===== src/Demo/Examples.antt =====
-- A client of the endpoint demo against a host that echoes.
use component_iroh.Prelude.{
  ℕ, ◌<◌, ◌↔◌, ◌⊎◌, ◌≡◌, refl, true, false, List, [], ◌∷◌, ◌++◌, Option, none, some, ok, bytes_eq,
  codes,
}
use component_iroh.Relay.Frames.{Bytes}
use component_iroh.Endpoint.Connection.{webrtc_path}
use component_iroh.Guest.Task.{finished}
use component_iroh.Demo.{RunConfig, RunReport, Host, same_length, summary_limit}
use component_iroh.Demo.Roles.{run, echo_of}
use component_iroh.Demo.Agreement.{same_length-echo_of}

-- What came back of the stream and of the datagrams.
record Echo : Type 0 where
  stream : List Bytes
  datagrams : List Bytes

abbrev pop_chunk : Echo → List Bytes → Echo × Option Bytes
pop_chunk s [] = (s, none)
pop_chunk s (b ∷ rest) = (record s { stream = rest }, some b)

abbrev pop_datagram : Echo → List Bytes → Echo × Bytes
pop_datagram s [] = (s, [])
pop_datagram s (b ∷ rest) = (record s { datagrams = rest }, b)

abbrev mirror : Host
mirror = record {
  State = Echo;
  mint = λ s. (s, ok (0, 0));
  from_keys = λ keys s. (s, ok (codes "id"));
  generate = λ s. (s, ok (codes "id"));
  bind = λ config id s. (s, ok tt);
  endpoint_id = λ s. codes "id";
  connect = λ peer addrs alpn s. (s, ok 1);
  accept = λ s. (s, ok 1);
  close_endpoint = λ s. s;
  path = λ conn s. webrtc_path;
  peer_of = λ conn s. codes "peer";
  open_bi = λ conn s. (s, ok (4, 5));
  accept_bi = λ conn s. (s, ok (4, 5));
  write = λ stream bytes s. (record s { stream = s.stream ++ (bytes ∷ []) }, ok tt);
  finish = λ stream s. (s, ok tt);
  read = λ stream max s. let (s', r) = pop_chunk s s.stream in (s', ok r);
  max_datagram_size = λ conn s. some 1200;
  send_datagram = λ conn bytes s. (record s { datagrams = s.datagrams ++ (bytes ∷ []) }, ok tt);
  recv_datagram = λ conn s. let (s', r) = pop_datagram s s.datagrams in (s', ok r);
  close = λ conn code reason s. s;
  wait_closed = λ conn s. s;
  wait_poll = λ s. s;
  now_ms = λ s. 0;
  hex_encode = λ bytes. bytes;
  hex_decode = λ text. ok text;
  from_utf8_lossy = λ bytes. bytes;
  to_uppercase = λ text. text;
  as_bytes = λ text. text;
  decimal = λ n. n ∷ [];
  debug = λ e. [];
}

abbrev config : RunConfig
config = record {
  is_client = true;
  inject_identity = false;
  relay_url = codes "r";
  udp_bind = none;
  webrtc = true;
  peer = some (codes "peer");
  alpn = none;
  peer_relay = none;
  direct = none;
  payload_bytes = some 2;
  message = codes "hi";
  datagram = true;
}

abbrev nothing : Echo
nothing = record { stream = []; datagrams = [] }

abbrev two_left : Echo
two_left = record { stream = []; datagrams = codes "datagram hi" ∷ codes "datagram hi" ∷ [] }

abbrev two_bytes : RunReport
two_bytes = record {
  endpoint_id = codes "id";
  peer_id = codes "peer";
  path = codes "webrtc";
  handshake_ms = 0;
  roundtrip_ms = 0;
  received = 2 ∷ codes " bytes";
  datagram = some (codes "datagram hi");
}

client_echoes : run mirror 3 config nothing ≡ finished two_left two_bytes
unfolding run bytes_eq
client_echoes = refl

same_length-echo_of_example :
    (same_length mirror (codes "hi") ((echo_of mirror (codes "hi")).0) ≡ ok tt)
    ↔ ((summary_limit < 2) ⊎ (◌≡◌ {A = ℕ} 2 2))
same_length-echo_of_example = same_length-echo_of mirror (codes "hi")
