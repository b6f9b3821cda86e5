-- ===== src/Guest/Line.antt =====
-- The spike's wire in use, and what its loop keeps (guest/src/endpoint.rs).
use component_iroh.Prelude.{
  ℕ, ◌*◌, Bool, List, [], ◌∷◌, ◌++◌, Option, none, some, Result, ok, err, Text, length,
}
use component_iroh.Relay.Frames.{Bytes}
use component_iroh.Endpoint.Types.{SocketAddr, v4}
use component_iroh.Endpoint.Noq.{Noq}
use component_iroh.Endpoint.Wires.{Peer}
use component_iroh.Guest.{Wire}
use component_iroh.Guest.Task.{finished, failed, Task}
use component_iroh.Guest.Side.{App, Side}

abbrev pub client_addr : SocketAddr
client_addr = record { ip = v4 10 0 0 1; port = 1111 }

abbrev pub server_addr : SocketAddr
server_addr = record { ip = v4 10 0 0 2; port = 4433 }

-- In nanoseconds.
abbrev pub linger : ℕ
linger = 500 * 1000000

abbrev pub run_deadline : ℕ
run_deadline = 30 * 1000000000

-- A wire with what was sent on it, and whether it was closed.
pub record Line (W : Wire) : Type 0 where
  pub wire : W.State
  pub sent : List (Option Peer × Bytes)
  pub is_closed : Bool

-- What the wire or the clock brings, and when.
pub data Arrival (W : Wire) : Type 0 where
  received : W.Raw → Arrival W
  tick : Arrival W

abbrev pub Round : Wire → Type 0
Round W = ℕ × Arrival W

-- `is_armed` says that a `receive` is in flight; the inbox is what is still to come.
pub record Pump (N : Noq) (W : Wire) : Type 0 where
  pub endpoint : N.Endpoint
  pub connection : Option (ℕ × N.Conn)
  pub app : App
  pub line : Line W
  pub is_armed : Bool
  pub inbox : List (Round W)

-- The same with the connection at hand.
pub record Busy (N : Noq) (W : Wire) : Type 0 where
  pub endpoint : N.Endpoint
  pub side : Side N
  pub line : Line W

-- What the rest of `run` needs of the crates: the configurations, and the connect with one.
pub record Setup (N : Noq) : Type 1 where
  pub Config : Type 0
  pub client_endpoint : Result N.Endpoint Text
  pub client_config : Peer → Result Config Text
  pub connect : ℕ → Config → SocketAddr → N.Endpoint → N.Endpoint × Result (ℕ × N.Conn) Text
  pub server_config : Result Config Text
  pub server_endpoint : Config → Result N.Endpoint Text

-- `fault n` is the error of the n-th send.
module _ {W : Wire} (fault : ℕ → Option Text) where
  unfoldable pub send : Bytes → Task (Line W) (Unit {0})
  send payload l = elim (W.address l.wire) [
    | err e ↦ failed l e
    | ok to ↦ elim (fault (length l.sent)) [
      | some e ↦ failed l e
      | none ↦ finished (record l { sent = l.sent ++ ((to, payload) ∷ []) }) tt
    ]
  ]
