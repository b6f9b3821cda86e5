-- ===== src/Guest/Scripted.antt =====
-- A connection of the spike that follows a script, for its runs on concrete inputs.
use component_iroh.Prelude.{
  ℕ, Bool, true, false, List, [], ◌∷◌, ◌++◌, Option, none, some, ok, err, codes, Text, length,
  replicate, ◌+◌, ◌≤◌, ◌<◌, ◌≡◌, arith,
}
use component_iroh.Relay.Frames.{Bytes}
use component_iroh.Endpoint.Noq.{
  Noq, Event, connected, stream_readable, datagram_received, read_fin,
}
use component_iroh.Guest.Side.{Demo, fin, chunk, NextChunk}
use component_iroh.Guest.Line.{Setup}
use component_iroh.Guest.Ebbing.{Ebbs, Falls}

-- A connection that has a script of events, chunks and datagrams, and takes everything.
pub record Talk : Type 0 where
  pub events : List Event
  pub chunks : List Bytes
  pub datagrams : List Bytes
  pub written : List Bytes
  pub copies : List Bytes
  pub closed : Bool

abbrev pop_event : Talk → List Event → Talk × Option Event
pop_event c [] = (c, none)
pop_event c (e ∷ rest) = (record c { events = rest }, some e)

abbrev pop_chunk : Talk → List Bytes → Talk × NextChunk
pop_chunk c [] = (c, fin)
pop_chunk c (b ∷ rest) = (record c { chunks = rest }, chunk b)

abbrev pop_datagram : Talk → List Bytes → Talk × Option Bytes
pop_datagram c [] = (c, none)
pop_datagram c (b ∷ rest) = (record c { datagrams = rest }, some b)

abbrev pub peer_key : Bytes
peer_key = replicate 32 7

abbrev pub echoing : Talk
echoing = record {
  events = connected ∷ stream_readable 0 ∷ datagram_received ∷ [];
  chunks = codes "H" ∷ codes "I" ∷ [];
  datagrams = codes "datagram hi" ∷ [];
  written = [];
  copies = [];
  closed = false;
}

abbrev pub talk : Noq
talk = record {
  Endpoint = Unit;
  Conn = Talk;
  EndpointEvent = Unit;
  ConnEvent = Unit;
  Incoming = Unit;
  endpoint_event = λ handle e n. (n, none);
  handle = λ now addr payload n. (n, none);
  accept = λ now payload n. (n, err none);
  connect = λ now addr n. (n, err []);
  poll_endpoint_events = λ c. (c, none);
  conn_event = λ e c. c;
  poll = λ c. pop_event c c.events;
  poll_transmit = λ now c. (c, none);
  is_drained = λ c. c.closed;
  poll_timeout = λ c. none;
  handle_timeout = λ now c. c;
  close = λ now code reason c. record c { closed = true };
  handshake_data = λ c. none;
  peer_identity = λ c. some (peer_key ∷ []);
  network_path = λ c. none;
  streams_accept = λ dir c. (c, none);
  streams_open = λ dir c. (c, some 0);
  write = λ id bytes c. (record c { written = c.written ++ (bytes ∷ []) }, ok (length bytes));
  finish = λ id c. (c, ok tt);
  reset = λ id code c. c;
  read = λ id size c. (c, read_fin);
  stop = λ id code c. c;
  max_datagram_size = λ c. none;
  send_datagram = λ bytes c. (record c { copies = c.copies ++ (bytes ∷ []) }, ok tt);
  recv_datagram = λ c. pop_datagram c c.datagrams;
  public_key_from_spki = λ spki. some spki;
}

abbrev pub demo : Demo talk
demo = record {
  chunks_open = λ id c. (c, true);
  chunks_next = λ id c. pop_chunk c c.chunks;
  chunks_finalize = λ id c. c;
  from_utf8_lossy = λ bytes. bytes;
  to_uppercase = λ text. text;
  as_bytes = λ text. text;
  decimal = λ n. n ∷ [];
  write_text = λ e. [];
  finish_text = λ e. [];
  datagram_text = λ e. [];
  lost_text = λ e. [];
  accept_text = λ e. [];
}

abbrev pub setup : Setup talk
setup = record {
  Config = Unit;
  client_endpoint = ok tt;
  client_config = λ peer. ok tt;
  connect = λ now config addr n. (n, ok (3, echoing));
  server_config = ok tt;
  server_endpoint = λ config. ok tt;
}

abbrev pub no_fault : ℕ → Option Text
no_fault n = none

-- What a script still has.
abbrev scripted : Talk → ℕ
scripted c = length c.events + (length c.chunks + length c.datagrams)

abbrev with_events : List Event → Talk → Talk
with_events events c = record c { events = events }

abbrev with_datagrams : List Bytes → Talk → Talk
with_datagrams datagrams c = record c { datagrams = datagrams }

events_fall :
    (events : List Event) (c : Talk)
    → Falls scripted (λ c. 0) (with_events events c) (talk.poll (with_events events c))
events_fall [] c = (omega arith, omega arith)
events_fall (e ∷ rest) c = omega arith

datagrams_fall :
    (datagrams : List Bytes) (c : Talk)
    → Falls scripted
        (λ c. 0)
        (with_datagrams datagrams c)
        (talk.recv_datagram (with_datagrams datagrams c))
datagrams_fall [] c = (omega arith, omega arith)
datagrams_fall (b ∷ rest) c = omega arith

abbrev chunks_of : List Bytes → Talk → Talk
chunks_of chunks c = record c { chunks = chunks }

chunks_keep :
    (chunks : List Bytes) (c : Talk)
    → scripted ((demo.chunks_next 0 (chunks_of chunks c)).0) ≤ scripted (chunks_of chunks c)
chunks_keep [] c = omega arith
chunks_keep (b ∷ rest) c = omega arith

chunks_fall :
    (chunks : List Bytes) (c : Talk) (bytes : Bytes)
    → (demo.chunks_next 0 (chunks_of chunks c)).1 ≡ chunk bytes
    → scripted ((demo.chunks_next 0 (chunks_of chunks c)).0) < scripted (chunks_of chunks c)
chunks_fall [] c bytes e = absurd (grind arith)
chunks_fall (b ∷ rest) c bytes e = omega arith

pub demo-Ebbs : Ebbs demo
demo-Ebbs = record {
  inbound = scripted;
  outbound = λ c. 0;
  poll_falls = λ c. events_fall c.events c;
  event_falls = λ handle c e endpoint q. absurd (grind arith);
  no_event_falls = λ c q. (omega arith, omega arith);
  transmit_falls = λ now c. (omega arith, omega arith);
  chunk_falls = λ id c bytes q. chunks_fall c.chunks c bytes q;
  chunk_keeps = λ id c. chunks_keep c.chunks c;
  datagram_falls = λ c. datagrams_fall c.datagrams c;
  open_keeps = λ c. omega arith;
  accept_keeps = λ c. omega arith;
  write_keeps = λ id bytes c. omega arith;
  finish_keeps = λ id c. omega arith;
  send_keeps = λ bytes c. omega arith;
  chunks_keep = λ id c. omega arith;
  finalize_keeps = λ id c. omega arith;
}
