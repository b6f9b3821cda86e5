-- ===== src/Endpoint/Dial/Examples.antt =====
-- The theorem on `connect` at a concrete dial, over the small QUIC crate.
use mathlib.Core.Option
use component_iroh.Prelude.{
  ℕ, ◌≡◌, refl, ap, true, false, List, [], ◌∷◌, Option, none, some, ok, arith, is_some, lookup,
  nat_key, ℕ_discrete, ite, codes,
}
use component_iroh.Relay.Frames.{Bytes}
use component_iroh.Endpoint.Wires.{Peer}
use component_iroh.Endpoint.State.{ConnEntry, new_state}
use component_iroh.Endpoint.State.Identity.{IsAuthentic}
use component_iroh.Endpoint.Inbound.{modify_all}
use component_iroh.Endpoint.Inbound.Validity.{modify_all-AllAuthentic}
use component_iroh.Endpoint.Dial.{relay_addr}
use component_iroh.Endpoint.Dial.Connecting.{Clocked, Opening, Dialer, connect}
use component_iroh.Endpoint.Dial.Awaits.{IsFair, IsFairOpening, Gives}
use component_iroh.Endpoint.Dial.Success.{Connects, connect-Connects}
use component_iroh.Endpoint.Toy.{toy}

-- The others let time pass, or end every handshake with the expected key.
abbrev idle_turn : Clocked toy → Clocked toy
idle_turn p = p

abbrev confirm : ConnEntry toy → ConnEntry toy
confirm entry = record entry {
  is_connected = is_some entry.expected_peer;
  peer = entry.expected_peer;
}

abbrev confirm_all : Clocked toy → Clocked toy
confirm_all p = (p.0, record (p.1) { conns = modify_all confirm (p.1).conns })

is_some-true : (o : Option Peer) → is_some o ≡ true → (id : Peer) × (o ≡ some id)
is_some-true none h = absurd (ground arith)
is_some-true (some id) h = (id, refl)

confirm-IsAuthentic : (entry : ConnEntry toy) → IsAuthentic toy (confirm entry)
confirm-IsAuthentic entry = record {
  named = λ h. is_some-true entry.expected_peer h;
  expected = λ id claim e f. ground (arith, e, f);
}

lookup-modify_all :
    (handle : ℕ) (entry : ConnEntry toy) (conns : List (ℕ × ConnEntry toy))
    → lookup handle conns ≡ some entry
    → lookup handle (modify_all confirm conns) ≡ some (confirm entry)
unfolding lookup
lookup-modify_all handle entry [] h = absurd (ground arith)
lookup-modify_all handle entry ((j, e) ∷ conns) h =
    (elim (ℕ_discrete j handle)
        as (λ d.
          ite d (some e) (lookup handle conns) ≡ some entry
          → ite d (some (confirm e)) (lookup handle (modify_all confirm conns))
            ≡ some (confirm entry)) [
              | yes _ ↦ λ q. ap (Option.map confirm) q
              | no _ ↦ lookup-modify_all handle entry conns
            ])
      h

idle_turn-IsFair : IsFair toy idle_turn
idle_turn-IsFair = record { authentic = λ p a. a; expected = λ p handle peer x. x }

confirm_all-IsFair : IsFair toy confirm_all
confirm_all-IsFair = record {
  authentic = λ p a.
      modify_all-AllAuthentic toy confirm (p.1).conns (λ entry v. confirm-IsAuthentic entry) a;
  expected = λ p handle peer (entry, found, claim).
      (confirm entry, lookup-modify_all handle entry (p.1).conns found, claim);
}

abbrev opening : Opening toy
opening = record { during = idle_turn; opened = ok 4; waiting = [] }

opening-IsFair : IsFairOpening toy opening
opening-IsFair = record { during = idle_turn-IsFair; waiting = tt }

abbrev dialer : Dialer toy
dialer = record {
  parse = λ text. none;
  has_udp = false;
  second = 1;
  config = λ peer alpn. ok tt;
  to_dial = opening;
  to_upgrade = opening;
  handshake = confirm_all ∷ [];
}

abbrev dialed_id : Bytes
dialed_id =
    7 ∷ 0 ∷ 0 ∷ 0 ∷ 0 ∷ 0 ∷ 0 ∷ 0 ∷ 0 ∷ 0 ∷ 0 ∷ 0 ∷ 0 ∷ 0 ∷ 0 ∷ 0 ∷ 0 ∷ 0 ∷ 0 ∷ 0 ∷ 0 ∷ 0 ∷ 0 ∷ 0
    ∷ 0 ∷ 0 ∷ 0 ∷ 0 ∷ 0 ∷ 0 ∷ 0 ∷ 0 ∷ []

no_conns : (n : ℕ) → (new_state toy n true).conns ≡ []
unfolding new_state
no_conns n = refl

connect-Connects_example : Gives toy (Connects toy dialed_id) (
    connect toy dialer dialed_id
      (relay_addr (codes "https://r") ∷ [])
      (codes "a")
      (0, record { wires = (new_state toy 9 true).wires; noq = 9; conns = [] }))
connect-Connects_example =
    connect-Connects toy dialer dialed_id (relay_addr (codes "https://r") ∷ []) (codes "a")
      (0, record { wires = (new_state toy 9 true).wires; noq = 9; conns = [] }) opening-IsFair
      opening-IsFair (confirm_all-IsFair, tt) tt
