-- ===== src/Demo/Agreement.antt =====
-- Both roles of the endpoint demo together: which echoes of the server the client accepts
-- (endpoint-demo/src/lib.rs, `run_client` and `run_server`).
use component_iroh.Prelude.{◌<◌, ◌≤◌, dec_lt, ap, ◌≡◌, ◌↔◌, ◌⊎◌, inl, inr, ok, length, arith}
use component_iroh.Relay.Frames.{Bytes}
use component_iroh.Demo.{Host, summary_limit, same_length}
use component_iroh.Demo.Roles.{echo_of}

module _ (H : Host) where
  echo_of-long :
      (payload : Bytes) → summary_limit < length payload → (echo_of H payload).0 ≡ payload
  unfolding echo_of
  echo_of-long payload h = ground arith

  echo_of-short :
      (payload : Bytes)
      → length payload ≤ summary_limit
      → (echo_of H payload).0 ≡ H.as_bytes (H.to_uppercase (H.from_utf8_lossy payload))
  unfolding echo_of
  echo_of-short payload h = ground arith

  same_length_iff :
      (payload echoed : Bytes)
      → (same_length H payload echoed ≡ ok tt) ↔ (length echoed ≡ length payload)
  unfolding same_length
  same_length_iff payload echoed = (λ h. ground arith, λ h. ground arith)

  -- The client accepts the length of the echo that the demo's server makes of its payload exactly if
  -- the payload is longer than 4096 bytes or its uppercase text is as long as it.
  pub same_length-echo_of :
      (payload : Bytes)
      → (same_length H payload ((echo_of H payload).0) ≡ ok tt) ↔ (
          (summary_limit < length payload)
          ⊎ (length (H.as_bytes (H.to_uppercase (H.from_utf8_lossy payload))) ≡ length payload))
  same_length-echo_of payload = elim (dec_lt summary_limit (length payload)) [
    | yes long ↦
        (λ h. inl long, λ h. (same_length_iff payload _).1 (ap length (echo_of-long payload long)))
    | no short ↦
        let e = ap length (echo_of-short payload (omega arith)) in
        (
          λ h. inr (omega (arith, (same_length_iff payload _).0 h, e)),
          λ h. (same_length_iff payload _).1 (ground (arith, e)),
        )
  ]
