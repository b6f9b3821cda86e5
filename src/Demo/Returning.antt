-- ===== src/Demo/Returning.antt =====
-- A run of the endpoint demo ends if its streams do (endpoint-demo/src/lib.rs).
use component_iroh.Prelude.{ℕ, ◌<◌, ◌≡◌, some, ok}
use component_iroh.Relay.Frames.{Bytes}
use component_iroh.Demo.{Host}

-- A stream has a bound on the chunks that are still to be read.
pub record Ends (H : Host) : Type 0 where
  pub left : ℕ → H.State → ℕ
  pub read_falls :
      (stream max : ℕ) (s : H.State) (bytes : Bytes)
      → (H.read stream max s).1 ≡ ok (some bytes)
      → left stream (H.read stream max s).0 < left stream s
