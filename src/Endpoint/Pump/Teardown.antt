-- ===== src/Endpoint/Pump/Teardown.antt =====
-- What the pump does when it stops (`pump` in endpoint/src/endpoint_impl.rs), so that the receives in
-- flight come back.
use component_iroh.Prelude.{ℕ, Bool, not, ◌&&◌, List, [], ◌∷◌, ◌++◌, nat_key, if◌then◌else◌}
use component_iroh.Endpoint.Pump.{Armed}
use component_iroh.Endpoint.Wires.{ChannelEntry, Wires}

pub data Closing : Type 0 where
  closes_relay closes_channel : ℕ → Closing
  wakes_udp : Closing

abbrev pub close_relays : List (ℕ × ℕ) → List Closing
close_relays [] = []
close_relays ((key, conn) ∷ pool) = closes_relay conn ∷ close_relays pool

abbrev pub close_channels : List (ℕ × ChannelEntry) → List Closing
close_channels [] = []
close_channels ((id, entry) ∷ channels) = closes_channel entry.wire ∷ close_channels channels

-- `during` is what others do to the wires while the UDP socket wakes itself.
unfoldable pub teardown : (has_udp : Bool) (during : Wires → Wires) → Wires → List Closing
teardown has_udp during w =
    close_relays w.relay_pool
    ++ (if has_udp
        then wakes_udp ∷ close_channels (during w).channels
        else close_channels w.channels)

-- What the pump then waits for before its task ends: every receive in flight, by its wire, the UDP
-- receive unless its socket has died, and the tick.
pub data Wait : Type 0 where
  waits_relay waits_channel : ℕ → Wait
  waits_udp waits_tick : Wait

abbrev pub relay_waits : List (ℕ × ℕ) → List Wait
relay_waits [] = []
relay_waits ((key, conn) ∷ recvs) = waits_relay conn ∷ relay_waits recvs

abbrev pub channel_waits : List (ℕ × ℕ) → List Wait
channel_waits [] = []
channel_waits ((id, wire) ∷ recvs) = waits_channel wire ∷ channel_waits recvs

unfoldable pub last_waits : (has_udp udp_terminated : Bool) → Armed → List Wait
last_waits has_udp udp_terminated a =
    relay_waits a.relay_recvs
    ++ ((if has_udp && not udp_terminated then waits_udp ∷ [] else [])
        ++ (channel_waits a.channel_recvs ++ (waits_tick ∷ [])))
