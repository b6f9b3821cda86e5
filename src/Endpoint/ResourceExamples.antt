-- ===== src/Endpoint/ResourceExamples.antt =====
-- The theorems on the resources and the pump at concrete inputs, over the small QUIC crate.
use component_iroh.Prelude.{
  ℕ, ◌≡◌, ◌≤◌, refl, true, false, List, [], ◌∷◌, take, length, Option, none, some, ok, arith,
  lookup, insert, ℕ_discrete, bytes_key, Text, nat_key,
}
use component_iroh.Relay.Frames.{Bytes}
use component_iroh.Endpoint.Types.{
  SocketAddr, SocketAddr-discrete, addr_key, doc_prefix_addr, closed,
}
use component_iroh.Endpoint.Wires.{
  Wires, Peer, new_wires, register_channel, is_closed_or_dead, addr_for_peer, fresh_addr,
}
use component_iroh.Endpoint.Wires.Routing.{HasRoom, new_wires-IsRouted}
use component_iroh.Endpoint.Wires.Channels.{register_channel-IsRouted}
use component_iroh.Endpoint.State.{State, ConnEntry, new_state, new_entry}
use component_iroh.Endpoint.State.Identity.{new_entry-IsAuthentic}
use component_iroh.Endpoint.State.Drains.{IsValid, Keeps}
use component_iroh.Endpoint.Streams.{write_all}
use component_iroh.Endpoint.Streams.Writing.{Writes, WroteAll, HasAccepted, write_all-WroteAll}
use component_iroh.Endpoint.Streams.Piping.{PipeRead, write_via_stream}
use component_iroh.Endpoint.Streams.Piped.{piped, write_via_stream-WroteAll}
use component_iroh.Endpoint.Connection.{path}
use component_iroh.Endpoint.Connection.Paths.{OnChannel, path-OnChannel}
use component_iroh.Endpoint.Dial.{dial_standin, start_dial}
use component_iroh.Endpoint.Dial.Standing.{Reaches, dial_standin-Reaches, start_dial-IsValid}
use component_iroh.Endpoint.Pump.{Armed, udp_event, on_pump_event, begin_turn, flush_relays}
use component_iroh.Endpoint.Pump.Flushing.{Flushed, flush_relays-Flushed}
use component_iroh.Endpoint.Pump.Validity.{TurnIsValid, on_pump_event-IsValid, begin_turn-IsValid}
use component_iroh.Endpoint.Udp.{IpSocketAddress, ipv6}
use component_iroh.Endpoint.Webrtc.{Json, done}
use component_iroh.Endpoint.Toy.{toy, idle, Script}

two_at_most : (bytes : Bytes) → length (take 2 bytes) ≤ length bytes
two_at_most [] = omega arith
two_at_most (b ∷ []) = omega arith
two_at_most (b ∷ c ∷ bytes) = omega arith

take_two : (bytes : Bytes) → take (length (take 2 bytes)) bytes ≡ take 2 bytes
take_two [] = refl
take_two (b ∷ []) = refl
take_two (b ∷ c ∷ bytes) = refl

toy_writes : Writes toy
toy_writes = record {
  accepted = λ id c. c.accepted;
  write_some =
      λ id bytes c n e. (ground (arith, two_at_most bytes), ground (arith, take_two bytes));
  write_none = λ id bytes c x e. absurd (ground arith);
}

abbrev seven : Peer
seven = 7 ∷ []

abbrev dialed : ConnEntry toy
dialed = new_entry toy idle (some seven) false

abbrev one_connection : State toy
one_connection = record (new_state toy 9 true) { conns = (9, dialed) ∷ [] }

write_all-WroteAll_example :
    WroteAll toy toy_writes 9 0 []
      (1 ∷ 2 ∷ 3 ∷ 4 ∷ 5 ∷ [])
      (write_all toy 9 0 (1 ∷ 2 ∷ 3 ∷ 4 ∷ 5 ∷ []) ((λ s. s) ∷ []) one_connection)
unfolding HasAccepted lookup new_entry ℕ_discrete toy_writes
write_all-WroteAll_example =
    write_all-WroteAll toy toy_writes 9 0 [] (1 ∷ 2 ∷ 3 ∷ 4 ∷ 5 ∷ []) ((λ s. s) ∷ []) one_connection
      ((λ x s h. h), tt) (dialed, refl, refl)

-- The pipe gives three bytes, then none, then two and its end.
abbrev piping : List (PipeRead toy)
piping =
    record { during = λ s. s; is_last = false; bytes = 1 ∷ 2 ∷ 3 ∷ []; others = (λ s. s) ∷ [] }
    ∷ record { during = λ s. s; is_last = false; bytes = []; others = [] }
    ∷ record { during = λ s. s; is_last = true; bytes = 4 ∷ 5 ∷ []; others = [] }
    ∷ []

toy_finish_keeps :
    (id : ℕ) (conn : Script)
    → toy_writes.accepted id (toy.finish id conn).0 ≡ toy_writes.accepted id conn
unfolding toy_writes
toy_finish_keeps id conn = refl

write_via_stream-WroteAll_example :
    WroteAll toy toy_writes 9 0 []
      (piped toy piping)
      (write_via_stream toy 9 0 piping one_connection)
unfolding HasAccepted lookup new_entry ℕ_discrete toy_writes
write_via_stream-WroteAll_example =
    write_via_stream-WroteAll toy toy_writes toy_finish_keeps 9 0 [] piping one_connection
      (((λ x s h. h), ((λ x s h. h), tt)), (((λ x s h. h), tt), (((λ x s h. h), tt), tt)))
      (dialed, refl, refl)

abbrev parsed : Text → Option SocketAddr
parsed text = some (doc_prefix_addr 0 1)

room : HasRoom (new_wires true)
unfolding new_wires
room = (omega arith, omega arith)

dial_standin-Reaches_example : Reaches (dial_standin (new_wires true) seven 3) seven 3
dial_standin-Reaches_example =
    dial_standin-Reaches (new_wires true) seven 3 room (new_wires-IsRouted true)

one-IsValid : IsValid toy one_connection
unfolding new_state
one-IsValid = record {
  tables_ok = new_wires-IsRouted true;
  authentic = (new_entry-IsAuthentic toy idle (some seven) false, tt);
}

one-HasRoom : HasRoom one_connection.wires
unfolding new_state new_wires
one-HasRoom = (omega arith, omega arith)

start_dial-IsValid_example :
    IsValid toy (start_dial toy 0 one_connection (8 ∷ []) none 0 (some 0)).0
start_dial-IsValid_example =
    start_dial-IsValid toy 0 one_connection (8 ∷ []) none 0 (some 0) one-HasRoom one-IsValid

abbrev on_channel : State toy
on_channel = record one_connection { wires = (register_channel (new_wires true) seven 3).0 }

path-OnChannel_example : OnChannel toy on_channel 9
unfolding path lookup register_channel new_wires addr_for_peer fresh_addr is_closed_or_dead
    doc_prefix_addr ℕ_discrete insert SocketAddr-discrete
path-OnChannel_example =
    path-OnChannel toy on_channel 9
      (register_channel-IsRouted (new_wires true) seven 3 room (new_wires-IsRouted true)) refl

abbrev broken : ConnEntry toy
broken = record dialed { error = some closed }

abbrev two_relays : List (ℕ × ℕ)
two_relays = (0, 4) ∷ (1, 5) ∷ []

-- The sends on both relays fail.
abbrev queued : List (ℕ × Peer × Bytes)
queued = (1, seven, []) ∷ (2, seven, []) ∷ (0, seven, []) ∷ (1, seven, []) ∷ []

flush_relays-Flushed_example :
    Flushed
      (λ conn datagram. true)
      two_relays
      queued
      (flush_relays (λ conn datagram. true) two_relays queued)
flush_relays-Flushed_example = flush_relays-Flushed (λ conn datagram. true) two_relays queued

abbrev unarmed : Armed
unarmed = record { relay_recvs = []; channel_recvs = []; spawned = [] }

on_pump_event-IsValid_example :
    IsValid toy
      (on_pump_event toy 0
        (udp_event (some (8 ∷ [], doc_prefix_addr 0 1)))
        one_connection
        unarmed).1
on_pump_event-IsValid_example =
    on_pump_event-IsValid toy 0 (udp_event (some (8 ∷ [], doc_prefix_addr 0 1))) one_connection
      unarmed one-HasRoom one-IsValid

begin_turn-IsValid_example :
    Keeps
      (TurnIsValid toy)
      (begin_turn toy 5 500 0 false (λ conn datagram. false) one_connection unarmed)
begin_turn-IsValid_example =
    begin_turn-IsValid toy 5 500 0 false (λ conn datagram. false) one_connection unarmed one-IsValid

abbrev scoped : IpSocketAddress
scoped =
    ipv6 (record { port = 1; flow_info = 2; address = (0xfe80, 0, 0, 0, 0, 0, 0, 1); scope_id = 3 })

abbrev plain : Json
plain = record { to_writer = λ signal. ok (5 ∷ []); from_slice = λ bytes. some done }

abbrev in_session : Wires
in_session = record (new_wires true) { signaling = (seven, 2) ∷ [] }
