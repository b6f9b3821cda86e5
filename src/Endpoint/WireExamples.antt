-- ===== src/Endpoint/WireExamples.antt =====
-- The theorems on the wires at concrete inputs: peer 7 has a standin, then a channel.
use component_iroh.Prelude.{
  ◌≡◌, refl, true, [], ◌∷◌, some, ok, arith, lookup, insert, ℕ_discrete, bytes_key,
}
use component_iroh.Endpoint.Types.{addr_key, SocketAddr-discrete, doc_prefix_addr}
use component_iroh.Endpoint.Wires.{
  Peer, Wires, new_wires, addr_for_peer, register_channel, begin_signaling, handle_signal,
  push_transmit, fresh_addr,
}
use component_iroh.Endpoint.Wires.Routing.{IsRouted, HasRoom}
use component_iroh.Endpoint.Wires.Delivery.{SentTo, push_transmit-SentTo}
use component_iroh.Endpoint.Wires.Steps.{
  addresses, registers_channel, hears, here, next, new_wires-Reach-IsRouted,
}
use component_iroh.Endpoint.Wires.Signaling.{IsCapped, new_wires-Reach-IsCapped}
use component_iroh.Endpoint.Wires.Sessions.{Ongoing, IsBusy, begin_signaling_exclusive}

abbrev start : Wires
start = new_wires true

abbrev seven : Peer
seven = 7 ∷ []

abbrev addressed : Wires
addressed = (addr_for_peer start seven 0).0

room : HasRoom start
unfolding new_wires
room = (omega arith, omega arith)

room' : HasRoom addressed
unfolding new_wires addr_for_peer fresh_addr lookup
room' = (omega arith, omega arith)

upgraded : Wires
upgraded = (register_channel addressed seven 5).0

new_wires-Reach-IsRouted_example : IsRouted upgraded
unfolding upgraded
new_wires-Reach-IsRouted_example =
    new_wires-Reach-IsRouted true upgraded
      (next (next here (addresses seven 0 room)) (registers_channel seven 5 room'))

push_transmit-SentTo_example :
    (w' : Wires) × (push_transmit addressed (doc_prefix_addr 0x77 1) (1 ∷ []) ≡ some w')
    × SentTo addressed seven (1 ∷ []) w'
unfolding new_wires addr_for_peer fresh_addr lookup insert SocketAddr-discrete doc_prefix_addr
    ℕ_discrete
push_transmit-SentTo_example =
    push_transmit-SentTo addressed (doc_prefix_addr 0x77 1) seven (1 ∷ [])
      (new_wires-Reach-IsRouted true addressed (next here (addresses seven 0 room))) refl

new_wires-Reach-IsCapped_example : IsCapped (handle_signal start 2 seven (1 ∷ [])).0.signal_inboxes
new_wires-Reach-IsCapped_example =
    new_wires-Reach-IsCapped true (handle_signal start 2 seven (1 ∷ [])).0
      (next here (hears 2 seven (1 ∷ [])))

claimed : Wires
claimed = record start { signaling = (seven, 4) ∷ [] }

claims : begin_signaling start seven 4 ≡ ok claimed
unfolding new_wires begin_signaling claimed lookup insert
claims = refl

begin_signaling_exclusive_example : IsBusy (handle_signal claimed 2 seven (1 ∷ [])).0 seven 4
begin_signaling_exclusive_example =
    begin_signaling_exclusive start claimed (handle_signal claimed 2 seven (1 ∷ [])).0 seven 4
      claims (Ongoing.next Ongoing.here (hears 2 seven (1 ∷ [])) (λ e. e))

spawns : (handle_signal start 2 seven (1 ∷ [])).1 ≡ true
unfolding new_wires handle_signal lookup
spawns = refl
