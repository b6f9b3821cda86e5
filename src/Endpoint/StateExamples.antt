-- ===== src/Endpoint/StateExamples.antt =====
-- The theorems on the state at concrete inputs, over the small QUIC crate.
use component_iroh.Prelude.{
  ℕ, ◌+◌, ◌<◌, ◌≤◌, ap, List, length, ◌≡◌, refl, true, [], ◌∷◌, none, some, arith, bytes_key, ◌⊎◌,
  nat_key,
}
use component_iroh.Endpoint.Types.{addr_key}
use component_iroh.Endpoint.Wires.{Peer, new_wires}
use component_iroh.Endpoint.Wires.Routing.{HasRoom, new_wires-IsRouted}
use component_iroh.Endpoint.State.{
  State, ConnEntry, new_state, new_entry, drain, ended, on_connected,
}
use component_iroh.Endpoint.State.Identity.{
  Surfaced, Refused, new_entry-IsAuthentic, on_connected_cases,
}
use component_iroh.Endpoint.State.Drains.{IsValid, Keeps, drain-IsValid}
use component_iroh.Endpoint.State.Quiescence.{Quiesces, drain-ended}
use component_iroh.Endpoint.Inbound.{handle_relay_datagram}
use component_iroh.Endpoint.Inbound.Validity.{handle_relay_datagram-IsValid}
use component_iroh.Endpoint.Noq.{Event, Transmit, connected, stream_opened, bi}
use component_iroh.Endpoint.Toy.{toy, idle, Script, pop_event, pop_transmit}

abbrev start : State toy
start = new_state toy 9 true

abbrev seven : Peer
seven = 7 ∷ []

-- A datagram from peer 7 whose handshake will present the key 8.
abbrev knocked : State toy
knocked = handle_relay_datagram toy 0 start 0 seven (8 ∷ [])

start-IsValid : IsValid toy start
unfolding new_state
start-IsValid = record { tables_ok = new_wires-IsRouted true; authentic = tt }

room : HasRoom start.wires
unfolding new_state new_wires
room = (omega arith, omega arith)

drain-IsValid_example : Keeps (IsValid toy) (drain toy 5 0 knocked)
drain-IsValid_example =
    drain-IsValid toy 5 0 knocked
      (handle_relay_datagram-IsValid toy 0 start 0 seven (8 ∷ []) room start-IsValid)

abbrev impostor : ConnEntry toy
impostor = new_entry toy (record idle { certificate = 8 ∷ [] }) (some seven) true

on_connected_cases_example :
    Surfaced toy impostor 9 [] (on_connected toy 0 impostor 9 [])
    ⊎ Refused toy 0 impostor [] (on_connected toy 0 impostor 9 [])
on_connected_cases_example = on_connected_cases toy 0 impostor 9 []

abbrev shutting : State toy
shutting = record start { wires = record (new_wires true) { is_closed = true } }

abbrev script_work : Script → ℕ
script_work c = length c.events + length c.transmits

pop_event_idle :
    (c : Script) (es : List Event)
    → es ≡ c.events
    → (pop_event c es).1 ≡ none
    → script_work (pop_event c es).0 ≤ script_work c
pop_event_idle c [] q h = omega arith
pop_event_idle c (e ∷ es) q h = absurd (ground arith)

pop_event_less :
    (c : Script) (es : List Event) (e : Event)
    → es ≡ c.events
    → (pop_event c es).1 ≡ some e
    → script_work (pop_event c es).0 < script_work c
pop_event_less c [] e q h = absurd (ground arith)
pop_event_less c (x ∷ es) e q h = omega (arith, ap length q)

pop_transmit_idle :
    (c : Script) (ts : List Transmit)
    → ts ≡ c.transmits
    → (pop_transmit c ts).1 ≡ none
    → script_work (pop_transmit c ts).0 ≤ script_work c
pop_transmit_idle c [] q h = omega arith
pop_transmit_idle c (t ∷ ts) q h = absurd (ground arith)

pop_transmit_less :
    (c : Script) (ts : List Transmit) (t : Transmit)
    → ts ≡ c.transmits
    → (pop_transmit c ts).1 ≡ some t
    → script_work (pop_transmit c ts).0 < script_work c
pop_transmit_less c [] t q h = absurd (ground arith)
pop_transmit_less c (x ∷ ts) t q h = omega (arith, ap length q)

-- A script's events and transmits are what it has still to report.
abbrev toy_quiesces : Quiesces toy
toy_quiesces = record {
  work = script_work;
  endpoint_none = λ c h. omega arith;
  endpoint_unanswered = λ c e h. absurd (ground arith);
  endpoint_answered = λ c e handle endpoint back h b. absurd (ground arith);
  poll_none = λ c h. pop_event_idle c c.events refl h;
  poll_some = λ c e h. pop_event_less c c.events e refl h;
  poll_close = λ c now reason h. pop_event_less c c.events connected refl h;
  transmit_none = λ c now h. pop_transmit_idle c c.transmits refl h;
  transmit_some = λ c now t h. pop_transmit_less c c.transmits t refl h;
  accept_none = λ c dir h. omega arith;
  accept_some = λ c dir id h. absurd (ground arith);
}

-- One connection, with two events to report.
abbrev busy : State toy
busy = record start {
  conns =
      (
        4,
        new_entry toy
            (record idle { events = connected ∷ stream_opened bi ∷ []; certificate = seven })
            (some seven) true,
      )
      ∷ [];
}

busy-IsValid : IsValid toy busy
unfolding new_state
busy-IsValid = record {
  tables_ok = new_wires-IsRouted true;
  authentic = (new_entry-IsAuthentic toy _ (some seven) true, tt);
}

drain-ended_example : (s : State toy) × (drain toy 3 0 busy ≡ ended s) × IsValid toy s
unfolding new_entry
drain-ended_example = drain-ended toy toy_quiesces 3 0 busy busy-IsValid (omega arith, tt)
