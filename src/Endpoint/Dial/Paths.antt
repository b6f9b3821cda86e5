-- ===== src/Endpoint/Dial/Paths.antt =====
-- The dial path against a description by the first entry of each kind
-- (endpoint/src/endpoint_impl.rs).
use component_iroh.Prelude.{
  Bool, true, ◌≡◌, refl, ap, ◌∙◌, List, [], ◌∷◌, Option, none, some, Text, arith,
}
use component_iroh.Endpoint.Types.{SocketAddr}
use component_iroh.Endpoint.Dial.{
  TransportAddr, relay_addr, ip_addr, webrtc_addr, DialPath, or_else, dial_entry, dial_loop,
  dial_path,
}

-- The first value that a function gives on a list.
abbrev pub first {ℓ κ} : {A : Type ℓ} {B : Type κ} → (A → Option B) → List A → Option B
first f [] = none
first f (x ∷ xs) = elim (f x) [ some y ↦ some y | none ↦ first f xs ]

abbrev pub as_relay : TransportAddr → Option Text
as_relay (relay_addr url) = some url
as_relay _ = none

abbrev pub as_hint : Bool → TransportAddr → Option Text
as_hint true (webrtc_addr url) = some url
as_hint _ _ = none

abbrev pub as_direct : (Text → Option SocketAddr) → Bool → TransportAddr → Option SocketAddr
as_direct parse true (ip_addr text) = parse text
as_direct parse _ _ = none

or_else-none {ℓ} : {A : Type ℓ} (o : Option A) → or_else o none ≡ o
unfolding or_else
or_else-none none = refl
or_else-none (some a) = refl

or_else-first {ℓ κ} :
    {A : Type ℓ} {B : Type κ} (f : A → Option B) (o : Option B) (x : A) (xs : List A)
    → or_else (or_else o (f x)) (first f xs) ≡ or_else o (first f (x ∷ xs))
unfolding or_else
or_else-first f (some b) x xs = refl
or_else-first f none x xs = ground arith

module _ (parse : Text → Option SocketAddr) (has_udp webrtc_enabled : Bool) where
  abbrev entry_path : TransportAddr → DialPath → DialPath
  unfolding or_else
  entry_path a p = record {
    direct = or_else p.direct (as_direct parse has_udp a);
    dial_relay = or_else p.dial_relay (as_relay a);
    webrtc_hint = or_else p.webrtc_hint (as_hint webrtc_enabled a);
  }

  dial_entry_lem :
      (a : TransportAddr) (p : DialPath)
      → dial_entry parse has_udp webrtc_enabled a p ≡ entry_path a p
  unfolding dial_entry or_else
  dial_entry_lem a p = ground arith

  abbrev first_path : List TransportAddr → DialPath → DialPath
  unfolding or_else
  first_path addrs p = record {
    direct = or_else p.direct (first (as_direct parse has_udp) addrs);
    dial_relay = or_else p.dial_relay (first as_relay addrs);
    webrtc_hint = or_else p.webrtc_hint (first (as_hint webrtc_enabled) addrs);
  }

  first_path-cons :
      (a : TransportAddr) (addrs : List TransportAddr) (p : DialPath)
      → first_path addrs (entry_path a p) ≡ first_path (a ∷ addrs) p
  unfolding first_path
  first_path-cons a addrs p = rw (or_else-first (as_direct parse has_udp) p.direct a addrs) (
      rw (or_else-first as_relay p.dial_relay a addrs)
        (rw (or_else-first (as_hint webrtc_enabled) p.webrtc_hint a addrs) refl))

  dial_loop_lem :
      (addrs : List TransportAddr) (p : DialPath)
      → dial_loop parse has_udp webrtc_enabled addrs p ≡ first_path addrs p
  unfolding dial_loop or_else
  dial_loop_lem [] p = ground arith
  dial_loop_lem (a ∷ addrs) p =
      ap (dial_loop parse has_udp webrtc_enabled addrs) (dial_entry_lem a p)
      ∙ dial_loop_lem addrs (entry_path a p)
      ∙ first_path-cons a addrs p

  -- The dial path is the first parseable `ip` entry, when a socket is bound; the first `relay`
  -- entry; and the first `webrtc` entry, when that wire is enabled: whatever stands between them.
  pub dial_path_lem :
      (addrs : List TransportAddr)
      → dial_path parse has_udp webrtc_enabled addrs ≡ record {
        direct = first (as_direct parse has_udp) addrs;
        dial_relay = first as_relay addrs;
        webrtc_hint = first (as_hint webrtc_enabled) addrs;
      }
  unfolding dial_path or_else
  dial_path_lem addrs = dial_loop_lem addrs _
