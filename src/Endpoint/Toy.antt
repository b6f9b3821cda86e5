-- ===== src/Endpoint/Toy.antt =====
-- A small QUIC crate to run the examples with: a connection is a script of what its polls return.
use component_iroh.Prelude.{ℕ, List, [], ◌∷◌, ◌++◌, Option, none, some, ok, false, length, take}
use component_iroh.Relay.Frames.{Bytes}
use component_iroh.Endpoint.Types.{doc_prefix_addr}
use component_iroh.Endpoint.Noq.{Noq, Event, Transmit, new_connection, read_fin}

pub record Script : Type 0 where
  pub events : List Event
  pub transmits : List Transmit
  pub certificate : Bytes
  pub closes : List ℕ
  pub accepted : Bytes

abbrev pub pop_event : Script → List Event → Script × Option Event
pop_event c [] = (c, none)
pop_event c (e ∷ rest) = (record c { events = rest }, some e)

abbrev pub pop_transmit : Script → List Transmit → Script × Option Transmit
pop_transmit c [] = (c, none)
pop_transmit c (t ∷ rest) = (record c { transmits = rest }, some t)

abbrev pub idle : Script
idle = record { events = []; transmits = []; certificate = []; closes = []; accepted = [] }

-- Every datagram opens a connection under the endpoint's next handle.
abbrev pub toy : Noq
toy = record {
  Endpoint = ℕ;
  Conn = Script;
  EndpointEvent = ℕ;
  ConnEvent = ℕ;
  Incoming = Bytes;
  endpoint_event = λ handle e n. (n, none);
  handle = λ now addr payload n. (n, some (new_connection payload));
  accept = λ now payload n. (n, ok (n, record idle { certificate = payload }));
  connect = λ now addr n. (n, ok (n, idle));
  poll_endpoint_events = λ c. (c, none);
  conn_event = λ e c. c;
  poll = λ c. pop_event c c.events;
  poll_transmit = λ now c. pop_transmit c c.transmits;
  is_drained = λ c. false;
  poll_timeout = λ c. none;
  handle_timeout = λ now c. c;
  close = λ now code reason c. record c { closes = c.closes ++ (code ∷ []) };
  handshake_data = λ c. none;
  peer_identity = λ c. some (c.certificate ∷ []);
  network_path = λ c. some (doc_prefix_addr 0x77 1);
  streams_accept = λ dir c. (c, none);
  streams_open = λ dir c. (c, some 0);
  write = λ id bytes c.
      (record c { accepted = c.accepted ++ take 2 bytes }, ok (length (take 2 bytes)));
  finish = λ id c. (c, ok tt);
  reset = λ id code c. c;
  read = λ id size c. (c, read_fin);
  stop = λ id code c. c;
  max_datagram_size = λ c. some 1200;
  send_datagram = λ bytes c. (c, ok tt);
  recv_datagram = λ c. (c, none);
  public_key_from_spki = λ spki. some spki;
}
