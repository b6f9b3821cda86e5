-- ===== src/Virt/Passthrough.antt =====
-- The calls of experiments/udp-wake/virt/src/lib.rs that go to the host's streams and clocks, with the
-- host as a record of functions, and the constant answers of the synthetic socket.
use component_iroh.Prelude.{ℕ, Result, ok, map_err, Text}
use component_iroh.Relay.Frames.{Bytes}
use component_iroh.Virt.{Inner, host, always_ready}
use component_iroh.Virt.Sockets.{Udp, ErrorCode}

pub data StreamError (E : Type 0) : Type 0 where
  last_operation_failed : E → StreamError E
  closed : StreamError E

-- A call on the input or output stream that the first number names; a splice names its source too.
pub data StreamCall : Type 0 → Type 1 where
  read blocking_read : ℕ → ℕ → StreamCall Bytes
  skip blocking_skip : ℕ → ℕ → StreamCall ℕ
  check_write : ℕ → StreamCall ℕ
  write blocking_write_and_flush : ℕ → Bytes → StreamCall (Unit {0})
  write_zeroes blocking_write_zeroes_and_flush : ℕ → ℕ → StreamCall (Unit {0})
  flush blocking_flush : ℕ → StreamCall (Unit {0})
  splice blocking_splice : ℕ → ℕ → ℕ → StreamCall ℕ

-- A host pollable that is asked for.
pub data Subscription : Type 0 where
  to_input to_output : ℕ → Subscription
  to_instant to_duration : ℕ → Subscription

pub data Stdio : Type 0 where
  stdin stdout stderr : Stdio

pub record HostIo : Type 2 where
  pub State : Type 0
  pub Failure : Type 0
  pub perform : {A : Type 0} → StreamCall A → State → State × Result A (StreamError Failure)
  pub subscription : Subscription → State → State × ℕ
  pub now : State → ℕ
  pub resolution : State → ℕ
  pub get : Stdio → State → State × ℕ
  pub to_debug_string : Failure → Text

module _ (H : HostIo) where
  open H use {State, Failure}

  -- The component's own error resource.
  pub record VError : Type 0 where
    pub inner : Failure

  unfoldable pub to_debug_string : VError → Text
  to_debug_string e = H.to_debug_string e.inner

  unfoldable pub conv_err : StreamError Failure → StreamError VError
  conv_err (last_operation_failed e) = last_operation_failed (record { inner = e })
  conv_err closed = closed

  unfoldable pub stream_call :
      {A : Type 0} → StreamCall A → State → State × Result A (StreamError VError)
  unfolding conv_err
  stream_call call s = let (s', r) = H.perform call s in (s', map_err conv_err r)

  unfoldable pub subscribed : Subscription → State → State × Inner
  subscribed to s = let (s', p) = H.subscription to s in (s', host p)

  unfoldable pub clock_now : State → ℕ
  clock_now s = H.now s

  unfoldable pub clock_resolution : State → ℕ
  clock_resolution s = H.resolution s

  -- A standard stream is the host's, wrapped.
  unfoldable pub get_stdio : Stdio → State → State × ℕ
  get_stdio which s = H.get which s

-- The options of the socket, and what it may send.
pub data UdpOption : Type 0 where
  unicast_hop_limit receive_buffer_size send_buffer_size : UdpOption

unfoldable pub udp_option : UdpOption → Udp → Result ℕ ErrorCode
udp_option unicast_hop_limit u = ok 64
udp_option _ u = ok 65536

unfoldable pub set_udp_option : UdpOption → ℕ → Udp → Udp × Result (Unit {0}) ErrorCode
set_udp_option option value u = (u, ok tt)

unfoldable pub check_send : Result ℕ ErrorCode
check_send = ok 64

abbrev pub outgoing_subscribe : Inner
outgoing_subscribe = always_ready
