-- ===== src/Guest/Examples.antt =====
-- The spike's endpoint on concrete inputs: a client's run against a peer that echoes, and a
-- stream's chunks.
use component_iroh.Prelude.{
  ◌≡◌, refl, true, false, List, [], ◌∷◌, some, ok, codes, ℕ, ◌+◌, arith, bytes_eq,
}
use component_iroh.Relay.Frames.{Bytes}
use component_iroh.Endpoint.Noq.{stream_readable}
use component_iroh.Guest.{channel_wire, channel_error, peer_endpoint_id, receive_message}
use component_iroh.Guest.Task.{finished}
use component_iroh.Guest.Side.{client, server, App, new_app, Report}
use component_iroh.Guest.App.{handle_event}
use component_iroh.Guest.Line.{Round, received, tick, Pump}
use component_iroh.Guest.Loop
use component_iroh.Guest.Returning.Loop.{Concludes, run-Concludes}
use component_iroh.Guest.Reading.{at_end, one_more, readable-Echoes}
use component_iroh.Guest.Scripted.{Talk, peer_key, echoing, talk, demo, setup, no_fault, demo-Ebbs}

abbrev rounds : List (Round channel_wire)
rounds = (1, received (channel_error (codes "closed"))) ∷ (2, tick) ∷ []

-- The client has the stream echo and the datagram echo, and has closed.
abbrev final_app : App
final_app = record (new_app (client (codes "hi"))) {
  handshake_ms = some 0;
  peer_id = some peer_key;
  stream = some 0;
  inbound = codes "HI";
  sent_at = some 0;
  received = some (codes "HI");
  is_datagram_sent = true;
  datagram_received = some (codes "datagram hi");
  done_at = some 0;
  is_close_sent = true;
}

abbrev final_conn : Talk
final_conn = record {
  events = [];
  chunks = [];
  datagrams = [];
  written = codes "hi" ∷ [];
  copies = codes "datagram hi" ∷ codes "datagram hi" ∷ codes "datagram hi" ∷ [];
  closed = true;
}

abbrev final_pump : Pump talk channel_wire
final_pump = record {
  endpoint = tt;
  connection = some (3, final_conn);
  app = final_app;
  line = record { wire = tt; sent = []; is_closed = true };
  is_armed = false;
  inbox = [];
}

abbrev final_report : Report
final_report = record {
  peer_id = peer_key;
  handshake_ms = 0;
  roundtrip_ms = 0;
  received = codes "HI";
}

client_reports :
    Loop.run {W = channel_wire} demo no_fault setup 9 0
      (some peer_key)
      (client (codes "hi"))
      tt
      rounds
    ≡ ok (finished final_pump final_report)
unfolding Loop.run peer_endpoint_id bytes_eq receive_message
client_reports = refl

run-Concludes_example :
    (enough : ℕ) × ((more : ℕ)
      → Concludes (client (codes "hi")) (
          Loop.run {W = channel_wire} demo no_fault setup
            (enough + more)
            0
            (some peer_key)
            (client (codes "hi"))
            tt
            rounds))
run-Concludes_example =
    run-Concludes demo-Ebbs no_fault setup 0 (some peer_key) (client (codes "hi")) tt rounds

-- Two chunks and the end, of a server that has one byte already.
abbrev waiting : App
waiting = record (new_app server) { inbound = codes "o" }

abbrev two_chunks : Talk
two_chunks = record echoing { chunks = codes "k" ∷ codes "!" ∷ [] }

abbrev with_chunks : List Bytes → Talk
with_chunks chunks = record echoing { chunks = chunks }

abbrev echoed_talk : Talk
echoed_talk = record echoing { chunks = []; written = codes "ok!" ∷ [] }

readable-Echoes_example :
    handle_event demo 9 0 0
      (stream_readable 0)
      (record { app = record waiting { stream = some 0 }; conn = two_chunks })
    ≡ finished
        (record {
          app = record waiting {
            stream = some 0;
            inbound = codes "ok!";
            received = some (codes "ok!");
          };
          conn = echoed_talk;
        })
        tt
readable-Echoes_example =
    readable-Echoes demo 9 0 0 0 waiting two_chunks two_chunks (with_chunks []) echoed_talk
      (codes "k" ∷ codes "!" ∷ []) refl
      (one_more two_chunks (with_chunks (codes "!" ∷ [])) _ _ _ _ refl (
        one_more (with_chunks (codes "!" ∷ [])) (with_chunks []) _ _ _ _ refl
          (at_end (with_chunks []) _ refl)))
      (omega arith) (record { written = echoed_talk; write = refl; finish = refl })
