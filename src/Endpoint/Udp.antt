-- ===== src/Endpoint/Udp.antt =====
-- The UDP wire (endpoint/src/udp.rs). The host's sockets are a record of functions.
use component_iroh.Prelude.{
  ℕ, ◌≡◌, refl, [], ◌++◌, Option, some, Result, ok, err, ◌>>=◌, map_err, Text, codes,
}
use component_iroh.Relay.Frames.{Bytes}
use component_iroh.Endpoint.Types.{IpAddr, v4, v6, SocketAddr}

pub record Ipv4SocketAddress : Type 0 where
  pub port : ℕ
  pub address : ℕ × ℕ × ℕ × ℕ

pub record Ipv6SocketAddress : Type 0 where
  pub port : ℕ
  pub flow_info : ℕ
  pub address : ℕ × ℕ × ℕ × ℕ × ℕ × ℕ × ℕ × ℕ
  pub scope_id : ℕ

pub data IpSocketAddress : Type 0 where
  ipv4 : Ipv4SocketAddress → IpSocketAddress
  ipv6 : Ipv6SocketAddress → IpSocketAddress

pub data IpAddressFamily : Type 0 where
  family_v4 family_v6 : IpAddressFamily

unfoldable pub to_wasi_ip : IpAddr → ℕ → IpSocketAddress
to_wasi_ip (v4 a b c d) port = ipv4 (record { port = port; address = (a, b, c, d) })
to_wasi_ip (v6 a b c d e f g h) port =
    ipv6 (record { port = port; flow_info = 0; address = (a, b, c, d, e, f, g, h); scope_id = 0 })

unfoldable pub to_wasi : SocketAddr → IpSocketAddress
unfolding to_wasi_ip
to_wasi addr = to_wasi_ip addr.ip addr.port

unfoldable pub from_wasi : IpSocketAddress → SocketAddr
from_wasi (ipv4 s) = let (a, b, c, d) = s.address in record { ip = v4 a b c d; port = s.port }
from_wasi (ipv6 s) =
    let (a, b, c, d, e, f, g, h) = s.address in record { ip = v6 a b c d e f g h; port = s.port }

unfoldable pub family_of : IpAddr → IpAddressFamily
family_of (v4 _ _ _ _) = family_v4
family_of (v6 _ _ _ _ _ _ _ _) = family_v6

-- `wasi:sockets`; an error is its debug text.
pub record Sockets : Type 1 where
  pub Socket : Type 0
  pub create : IpAddressFamily → Result Socket Text
  pub bind_socket : IpSocketAddress → Socket → Result Socket Text
  pub local_address : Socket → Result IpSocketAddress Text
  pub send : Socket → Bytes → Option IpSocketAddress → Result (Unit {0}) Text

pub record UdpWire (W : Sockets) : Type 0 where
  pub socket : W.Socket
  pub local : SocketAddr

-- `parse` is the standard library's parser of socket addresses, with the text that `bind` makes of its
-- error.
unfoldable pub bind :
    (W : Sockets) (parse : Text → Result SocketAddr Text) → Text → Result (UdpWire W) Text
unfolding family_of to_wasi from_wasi
bind W parse bind_addr = do
  addr ← parse bind_addr
  socket ← map_err (λ e. codes "udp create: " ++ e) (W.create (family_of addr.ip))
  bound ← map_err (λ e. codes "udp bind: " ++ e) (W.bind_socket (to_wasi addr) socket)
  local ← map_err (λ e. codes "udp local address: " ++ e) (W.local_address bound)
  ok (record { socket = bound; local = from_wasi local })

unfoldable pub send_udp : (W : Sockets) → UdpWire W → SocketAddr → Bytes → Result (Unit {0}) Text
unfolding to_wasi
send_udp W wire remote payload =
    map_err (λ e. codes "udp send: " ++ e) (W.send wire.socket payload (some (to_wasi remote)))

-- `UdpWire::receive`, of what the socket's receive gives; `E` is the host's error code.
unfoldable pub receive_udp :
    {E : Type 0} → Result (Bytes × IpSocketAddress) E → Result (Bytes × SocketAddr) E
unfolding from_wasi
receive_udp (ok (payload, remote)) = ok (payload, from_wasi remote)
receive_udp (err e) = err e

-- A datagram without bytes to the socket's own address.
unfoldable pub self_wake : (W : Sockets) → UdpWire W → Result (Unit {0}) Text
unfolding send_udp
self_wake W wire = send_udp W wire wire.local []

-- The address without what `to_wasi` does not carry.
abbrev pub without_scope : IpSocketAddress → IpSocketAddress
without_scope (ipv4 s) = ipv4 s
without_scope (ipv6 s) = ipv6 (record s { flow_info = 0; scope_id = 0 })

from_wasi-to_wasi :
    (ip : IpAddr) (port : ℕ) → from_wasi (to_wasi_ip ip port) ≡ record { ip = ip; port = port }
unfolding from_wasi to_wasi_ip
from_wasi-to_wasi (v4 a b c d) port = refl
from_wasi-to_wasi (v6 a b c d e f g h) port = refl

-- An address survives the way through the host's form. The host's form of the source of a datagram
-- survives the way through the endpoint's, but for an IPv6 flow label and scope, which come back as
-- 0.
pub to_wasi_round_trip :
    (addr : SocketAddr) (remote : IpSocketAddress)
    → (from_wasi (to_wasi addr) ≡ addr) × (to_wasi (from_wasi remote) ≡ without_scope remote)
unfolding from_wasi to_wasi to_wasi_ip
to_wasi_round_trip addr (ipv4 s) = (from_wasi-to_wasi addr.ip addr.port, refl)
to_wasi_round_trip addr (ipv6 s) = (from_wasi-to_wasi addr.ip addr.port, refl)
