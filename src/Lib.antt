-- ===== src/Lib.antt =====
-- The relay client and the endpoint of component-iroh.
--
-- The program. A component exports an endpoint that dials and accepts QUIC connections by the
-- peer's key. Its packets travel over iroh relays (a websocket each), a UDP socket, or WebRTC data
-- channels that are negotiated by signals through a relay. The QUIC crate (noq_proto) wants a
-- socket address for each peer, so a peer on a relay or a channel has a synthetic address, its
-- standin, and a route table says which wire carries it. One task, the pump, owns the wires; the
-- exported methods change the shared state and poll it.
--
-- What is modelled, and where.
--   Relay/Frames       core/src/relay_frames.rs: the frame tag, client frames, relayed datagrams.
--   Relay/Url          core/src/relay.rs, relay_url.
--   Relay/Conn         core/src/relay.rs: connect (handshake), recv_datagram, send_datagram.
--   Endpoint/Types     endpoint/src/endpoint_impl.rs: addresses, errors, doc_prefix_addr,
--                      normalize_relay_url.
--   Endpoint/Wires     endpoint_impl.rs, the fields of State that hold no QUIC object, and its
--                      methods on them: addr_for_peer, register_relay, the signaling slots and
--                      inboxes, register_channel, retire_channel, push_response, handle_signal.
--   Endpoint/Noq       the calls of noq_proto that the endpoint makes, as a record of functions.
--   Endpoint/State     endpoint_impl.rs: ConnEntry, State, on_event, drain.
--   Endpoint/Inbound   endpoint_impl.rs: handle_datagram and its callers, handle_timeouts,
--                      close_all, mark_dead, close.
--   Endpoint/Waiting   endpoint_impl.rs: wait_until, and a connection's entry by its handle.
--   Endpoint/Connection, Endpoint/Streams
--                      endpoint_impl.rs: the methods of ConnectionRes, write_all, read_some, and
--                      the methods of SendStreamRes and RecvStreamRes.
--   Endpoint/Dial      endpoint_impl.rs: the endpoint's options, ensure_relay, connect, accept and
--                      bind.
--   Endpoint/Pump      endpoint_impl.rs, pump: a turn with its flushes and the checks that end it,
--                      the reaction to one event, the teardown; Endpoint/Pump/History, the loop
--                      among the other tasks.
--   Endpoint/Lasting   endpoint_impl.rs: the later states of an endpoint's State, under the pump's
--                      turns and events, dials, accepts, closing and calls on the wires.
--   Endpoint/Udp       endpoint/src/udp.rs.
--   Endpoint/Webrtc    endpoint/src/webrtc.rs: publish, next_signal, consume_signaling, and the
--                      dances of upgrade, dial and answer.
--   Identity           core/src/crypto/sign.rs, endpoint/src/identity.rs and core/src/tls.rs: the
--                      node identity, its checks, and the configurations of TLS.
--   Virt               experiments/udp-wake/virt/src/lib.rs: pollables, poll, the synthetic UDP
--                      socket, the TCP stubs, and the calls that go to the host.
--   Guest              the spike. guest/src/endpoint.rs: Guest, its wire over a channel or a relay;
--                      Guest/Side and Guest/App, the demo's application and its events; Guest/Line,
--                      Guest/Turn and Guest/Loop, the loop of run and its teardown.
--                      guest/src/lib.rs: Guest/Signaling, its signals as relay datagrams, and
--                      Guest/Driver, both halves of the WebRTC dance and Component::run.
--                      Guest/Settling, Guest/Ebbing, Guest/Drained and Guest/Returning, how its loops end.
--   Demo               endpoint-demo/src/lib.rs: the calls of the endpoint's interface and the checks;
--                      Demo/Roles, client, server and the run.
--   Prelude            lists, results, maps and tests that the others share.
--
-- Representation. A byte is a number and a byte slice a list. Text is a list of code points. Hash
-- maps are association lists over keys with decidable equality, and a loop over a map runs in the
-- list's order. A u32 counter wraps at 2 ^ 32; theorems that need a fresh number say that there is
-- room. The source's State is split into Wires and the QUIC objects. An instant is an argument.
-- Shared handles (relay connections, channel wires) are numbers.
--
-- Parameters. The websocket is the list of what its receive calls return and a function that says
-- which sends fail; postcard, BLAKE3, signatures and the string decoders are arguments; noq_proto
-- is the record Noq; webcrypto and the TLS libraries are records too. Nothing is assumed of them
-- but what a theorem's hypotheses say.
--
-- Fuel. The loops over noq_proto's polls end when it has nothing more to report, so they take
-- fuel. drain needs more fuel than its connection has to report. recv_datagram and connect recur
-- on the arrivals, and a list that runs out is a call that still waits. chunks runs one round for
-- each byte at most. write_all's inner loop has fuel for each byte that is left, and a round
-- writes one at least. A wait is repeated over a list of what others do between the attempts;
-- connect has one for each of its waits, and a WebRTC dance has such a list for its awaits, and is
-- suspended when it ends. The loop of the spike has a list of what its wire and the clock bring,
-- and its drains take fuel, which a connection whose input and output run out needs finitely much
-- of. consume_signaling of the spike has a round for each datagram that is to come, and takes one
-- in each. The demo's read of a stream takes fuel: a stream that ends needs a round for each of
-- its chunks.
--
-- Not modelled: the host behind its calls, generated bindings, the hosts and the tools that start
-- a component or measure one, and scripts. The spike's instants are those of its turns and
-- arrivals: one turn is taken to be at one instant.
pub mod Prelude
pub mod Relay
pub mod Endpoint
pub mod Virt
pub mod Identity
pub mod Guest
pub mod Demo
