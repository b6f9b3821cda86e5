-- ===== src/Guest/Binding.antt =====
-- A relay wire of the spike belongs to the first peer that it hears (guest/src/endpoint.rs).
use component_iroh.Prelude.{◌≡◌, refl, ap, List, [], ◌∷◌, Option, none, some, bytes_key, eq?, ite}
use component_iroh.Relay.Frames.{Bytes, Datagram}
use component_iroh.Endpoint.Wires.{Peer}
use component_iroh.Guest.{take_datagram}

abbrev with_payload : Option Bytes → List Bytes → List Bytes
with_payload none payloads = payloads
with_payload (some payload) payloads = payload ∷ payloads

-- What a wire passes on, of the datagrams that come.
unfoldable pub taken : Option Peer → List Datagram → List Bytes
taken peer [] = []
taken peer (d ∷ ds) =
    let (peer', payload) = take_datagram peer d in with_payload payload (taken peer' ds)

-- The payloads of one source.
abbrev pub payloads_from : Peer → List Datagram → List Bytes
payloads_from peer [] = []
payloads_from peer (d ∷ ds) =
    with_payload (ite (eq? peer d.source) (some d.payload) none) (payloads_from peer ds)

taken-bound : (peer : Peer) (ds : List Datagram) → taken (some peer) ds ≡ payloads_from peer ds
unfolding taken take_datagram
taken-bound peer [] = refl
taken-bound peer (d ∷ ds) =
    ap (with_payload (ite (eq? peer d.source) (some d.payload) none)) (taken-bound peer ds)

-- A wire without a peer passes on exactly the payloads of the first datagram's source, in order.
pub taken-payloads_from :
    (d : Datagram) (ds : List Datagram) → taken none (d ∷ ds) ≡ payloads_from d.source (d ∷ ds)
unfolding taken take_datagram
taken-payloads_from d ds =
    elim (eq? d.source d.source)
      as (λ e.
        d.payload ∷ taken (some d.source) ds
        ≡ with_payload (ite e (some d.payload) none) (payloads_from d.source ds)) [
          | yes _ ↦ ap (◌∷◌ d.payload) (taken-bound d.source ds)
          | no n ↦ absurd (n refl)
        ]
