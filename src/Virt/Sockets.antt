-- ===== src/Virt/Sockets.antt =====
-- The synthetic UDP socket and the TCP stubs of experiments/udp-wake/virt/src/lib.rs.

use component_iroh.Prelude.{
  ℕ, ◌%◌, ◌^◌, min, List, [], ◌∷◌, ◌++◌, map, Option, none, some, Result, ok, err, nat_key, insert,
  length, take, drop,
}
use component_iroh.Relay.Frames.{Bytes}
use component_iroh.Endpoint.Udp.{IpSocketAddress, ipv4, ipv6}
use component_iroh.Virt.{World, Incoming, queue_of, Inner, udp_incoming, always_ready, never}
use component_iroh.Virt

pub data ErrorCode : Type 0 where
  not_in_progress invalid_state not_supported : ErrorCode

pub data BindState : Type 0 where
  unbound : BindState
  in_progress bound : IpSocketAddress → BindState

-- A socket and the number of its `Shared`.
pub record Udp : Type 0 where
  pub state : BindState
  pub shared : ℕ

abbrev pub create_udp_socket : ℕ → Udp
create_udp_socket shared = record { state = unbound; shared = shared }

unfoldable pub start_bind : IpSocketAddress → Udp → Udp × Result (Unit {0}) ErrorCode
start_bind local_address u = (record u { state = in_progress local_address }, ok tt)

unfoldable pub finish_state : BindState → Option BindState
finish_state (in_progress addr) = some (bound addr)
finish_state _ = none

unfoldable pub finish_bind : Udp → Udp × Result (Unit {0}) ErrorCode
unfolding finish_state
finish_bind u = elim (finish_state u.state) [
  | some s ↦ (record u { state = s }, ok tt)
  | none ↦ (u, err not_in_progress)
]

unfoldable pub bound_address : BindState → Result IpSocketAddress ErrorCode
bound_address (bound addr) = ok addr
bound_address _ = err invalid_state

unfoldable pub local_address : Udp → Result IpSocketAddress ErrorCode
unfolding bound_address
local_address u = bound_address u.state

unfoldable pub subscribe : Udp → Inner
subscribe u = udp_incoming u.shared

pub record IncomingDatagram : Type 0 where
  pub contents : Bytes
  pub remote_address : IpSocketAddress

unfoldable pub to_incoming : Incoming → IncomingDatagram
to_incoming d = record {
  contents = d.payload;
  remote_address = ipv4 (record { port = d.port; address = (127, 0, 0, 1) });
}

-- A `usize` of the 32-bit target holds the low half of a u64.
abbrev pub as_usize : ℕ → ℕ
as_usize n = n % 2 ^ 32

unfoldable pub receive : ℕ → ℕ → World → World × List IncomingDatagram
unfolding to_incoming Virt.drain
receive socket max_results w =
    let w' = Virt.drain w socket in
    let q = queue_of w' socket in
    let n = min (as_usize max_results) (length q) in
    (record w' { queues = insert socket (drop n q) w'.queues }, map to_incoming (take n q))

pub record OutgoingDatagram : Type 0 where
  pub contents : Bytes
  pub remote_address : Option IpSocketAddress

unfoldable pub port_of : Option IpSocketAddress → ℕ
port_of (some (ipv4 a)) = a.port
port_of (some (ipv6 a)) = a.port
port_of none = 0

-- `source::send` of each, in order.
unfoldable pub send_each : List OutgoingDatagram → World → World
unfolding port_of
send_each [] w = w
send_each (d ∷ datagrams) w =
    send_each datagrams
      (record w { sent = w.sent ++ ((d.contents, port_of d.remote_address) ∷ []) })

unfoldable pub send : List OutgoingDatagram → World → World × Result ℕ ErrorCode
unfolding send_each
send datagrams w = (send_each datagrams w, ok (length datagrams))

-- The calls on a TCP socket, which is never made, and what they answer.
pub data TcpCall : Type 0 where
  tcp_start_bind tcp_finish_bind tcp_start_connect tcp_finish_connect : TcpCall
  tcp_start_listen tcp_finish_listen tcp_accept tcp_local_address tcp_remote_address : TcpCall
  set_listen_backlog_size keep_alive_enabled set_keep_alive_enabled : TcpCall
  keep_alive_idle_time set_keep_alive_idle_time keep_alive_interval : TcpCall
  set_keep_alive_interval keep_alive_count set_keep_alive_count hop_limit : TcpCall
  set_hop_limit receive_buffer_size set_receive_buffer_size send_buffer_size : TcpCall
  set_send_buffer_size shutdown create_tcp_socket : TcpCall

unfoldable pub tcp_error : TcpCall → ErrorCode
tcp_error tcp_local_address = invalid_state
tcp_error tcp_remote_address = invalid_state
tcp_error _ = not_supported
