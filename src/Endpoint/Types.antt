-- ===== src/Endpoint/Types.antt =====
-- The plain data of endpoint/src: socket addresses, errors, routes, and two pure helpers of
-- endpoint_impl.rs.
use mathlib.Core.List.{reverse}
use component_iroh.Prelude.{
  ℕ, ◌/◌, ◌%◌, ◌^◌, ◌≡◌, ◌<◌, [], ◌∷◌, ℕ_discrete, Key, Text, ◌==◌, if◌then◌else◌, arith,
}

pub data IpAddr : Type 0 where
  v4 : ℕ → ℕ → ℕ → ℕ → IpAddr
  v6 : ℕ → ℕ → ℕ → ℕ → ℕ → ℕ → ℕ → ℕ → IpAddr

pub record SocketAddr : Type 0 where
  pub ip : IpAddr
  pub port : ℕ

unfoldable pub SocketAddr-discrete : Discrete SocketAddr
SocketAddr-discrete = hlevel ℕ_discrete

instance abbrev pub addr_key : Key SocketAddr
addr_key = record { dec_eq = SocketAddr-discrete }

-- The wit interface's error.
pub data Error : Type 0 where
  closed : Error
  invalid_argument connect_failed reset other : Text → Error

-- The wire behind a synthetic address: a relay of the pool by key, or a channel by id.
pub data RouteWire : Type 0 where
  relay channel : ℕ → RouteWire

-- `(host >> 16) as u16` and `host as u16` of a u32.
unfoldable pub doc_prefix_addr : ℕ → ℕ → SocketAddr
doc_prefix_addr space host = record {
  ip = v6 0x2001 0xdb8 space 0 0 0 (host / 2 ^ 16 % 2 ^ 16) (host % 2 ^ 16);
  port = 4433;
}

-- `trim_end_matches('/')`: drops every slash at the end.
unfoldable pub trim_slashes : Text → Text
trim_slashes [] = []
trim_slashes (c ∷ cs) = if c == b'/' then trim_slashes cs else c ∷ cs

unfoldable pub normalize_relay_url : Text → Text
unfolding trim_slashes
normalize_relay_url url = reverse (trim_slashes (reverse url))

-- Two hosts with one address are the same 32-bit number.
pub doc_prefix_addr-injective :
    (space a b : ℕ)
    → a < 2 ^ 32
    → b < 2 ^ 32
    → doc_prefix_addr space a ≡ doc_prefix_addr space b
    → a ≡ b
unfolding doc_prefix_addr
doc_prefix_addr-injective space a b ha hb e = ground arith
