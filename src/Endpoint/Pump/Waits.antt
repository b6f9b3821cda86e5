-- ===== src/Endpoint/Pump/Waits.antt =====
-- Closing a wire ends the wait for its receive (`pump` in endpoint/src/endpoint_impl.rs, from the end
-- of its loop).
use component_iroh.Prelude.{
  ℕ, ◌≡◌, ◌⊎◌, inl, inr, List, [], ◌∷◌, ◌++◌, some, nat_key, lookup, All, arith,
}
use component_iroh.Endpoint.Noq.{Noq}
use component_iroh.Endpoint.Wires.{ChannelEntry}
use component_iroh.Endpoint.Pump.{wire_of}
use component_iroh.Endpoint.Pump.Teardown.{
  Closing, closes_relay, closes_channel, close_relays, close_channels, wakes_udp, Wait, waits_relay,
  waits_channel, waits_udp, waits_tick, relay_waits, channel_waits,
}

abbrev pub Occurs : Closing → List Closing → Type 0
Occurs c [] = ⊥
Occurs c (d ∷ closings) = (c ≡ d) ⊎ Occurs c closings

-- What brings a wait to its end; the tick fires by itself.
abbrev pub Ends : List Closing → Wait → Type 0
Ends closings (waits_relay conn) = Occurs (closes_relay conn) closings
Ends closings (waits_channel wire) = Occurs (closes_channel wire) closings
Ends closings waits_udp = Occurs wakes_udp closings
Ends closings waits_tick = Unit

pub relay_waits-Ends :
    (closings : List Closing) (recvs : List (ℕ × ℕ))
    → All (λ (r : ℕ × ℕ). Occurs (closes_relay r.1) closings) recvs
    → All (Ends closings) (relay_waits recvs)
relay_waits-Ends closings [] h = tt
relay_waits-Ends closings ((key, conn) ∷ recvs) h = (h.0, relay_waits-Ends closings recvs h.1)

pub channel_waits-Ends :
    (closings : List Closing) (recvs : List (ℕ × ℕ))
    → All (λ (r : ℕ × ℕ). Occurs (closes_channel r.1) closings) recvs
    → All (Ends closings) (channel_waits recvs)
channel_waits-Ends closings [] h = tt
channel_waits-Ends closings ((id, wire) ∷ recvs) h = (h.0, channel_waits-Ends closings recvs h.1)

pub Occurs-append_left : (c : Closing) (xs ys : List Closing) → Occurs c xs → Occurs c (xs ++ ys)
Occurs-append_left c [] ys h = absurd h
Occurs-append_left c (x ∷ xs) ys (inl e) = inl e
Occurs-append_left c (x ∷ xs) ys (inr h) = inr (Occurs-append_left c xs ys h)

pub Occurs-append_right : (c : Closing) (xs ys : List Closing) → Occurs c ys → Occurs c (xs ++ ys)
Occurs-append_right c [] ys h = h
Occurs-append_right c (x ∷ xs) ys h = inr (Occurs-append_right c xs ys h)

pub close_relays-Occurs :
    (pool : List (ℕ × ℕ)) (key conn : ℕ)
    → lookup key pool ≡ some conn
    → Occurs (closes_relay conn) (close_relays pool)
unfolding lookup
close_relays-Occurs [] key conn h = absurd (ground arith)
close_relays-Occurs ((j, d) ∷ pool) key conn h = ground (arith, close_relays-Occurs pool key conn)

module _ (N : Noq) where
  pub close_channels-Occurs :
      (channels : List (ℕ × ChannelEntry)) (id wire : ℕ)
      → wire_of N (lookup id channels) ≡ some wire
      → Occurs (closes_channel wire) (close_channels channels)
  unfolding lookup wire_of
  close_channels-Occurs [] id wire h = absurd (ground arith)
  close_channels-Occurs ((j, entry) ∷ channels) id wire h =
      ground (arith, close_channels-Occurs channels id wire)
