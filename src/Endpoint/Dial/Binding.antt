-- ===== src/Endpoint/Dial/Binding.antt =====
-- `bind` as a whole (endpoint/src/endpoint_impl.rs). Others have no access to what it makes before it
-- is done.
use component_iroh.Prelude.{ℕ, List, Option, none, some, Result, ok, ◌>>=◌, map_err, Text}
use component_iroh.Relay.Frames.{Bytes}
use component_iroh.Endpoint.Types.{Error, connect_failed, invalid_argument, other}
use component_iroh.Endpoint.Noq.{Noq}
use component_iroh.Endpoint.State.{State}
use component_iroh.Endpoint.Dial.{OptionsState, check_options, bound_state}

-- The relay's handshake, the two fills of random bytes, the TLS and QUIC configuration with the QUIC
-- endpoint, and the socket, whose type is `U`.
pub record BindHost (N : Noq) (U : Type 0) : Type 0 where
  pub relay : Text → Result ℕ Text
  pub reset_key : Result (Unit {0}) Text
  pub token_master : Result (Unit {0}) Text
  pub quic_endpoint : List Bytes → Result N.Endpoint Error
  pub udp_wire : Text → Result U Text

unfoldable pub bind_udp :
    {U : Type 0} → (Text → Result U Text) → Option Text → Result (Option U) Error
bind_udp make none = ok none
bind_udp make (some addr) = do wire ← map_err invalid_argument (make addr); ok (some wire)

unfoldable pub bind_endpoint :
    (N : Noq) (U : Type 0) → BindHost N U → OptionsState → Result (State N × Option U) Error
unfolding check_options bind_udp bound_state
bind_endpoint N U host o = do
  url ← check_options o
  conn ← map_err connect_failed (host.relay url)
  _ ← map_err other host.reset_key
  _ ← map_err other host.token_master
  noq ← host.quic_endpoint o.alpns
  udp ← bind_udp host.udp_wire o.udp_bind_addr
  ok (bound_state N noq o.webrtc url conn, udp)
