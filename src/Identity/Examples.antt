-- ===== src/Identity/Examples.antt =====
-- The theorem on adopted key pairs at a concrete pair.
use component_iroh.Prelude.{ℕ, ◌≡◌, ◌↔◌, true, [], ◌∷◌, ok, err, codes, bytes_key, eq?, ite}
use component_iroh.Relay.Frames.{Bytes}
use component_iroh.Identity.{WebCrypto, Identity, ed25519, from_injected}
use component_iroh.Identity.Adoption.{IsPair, from_injected_iff}

-- A key is a number; a signature is the key before the message.
abbrev numbered : WebCrypto
numbered = record {
  SigningKey = ℕ;
  VerifyingKey = ℕ;
  generate_key = λ extractable. ok (7, 7);
  signing_algorithm = λ k. ed25519;
  verifying_algorithm = λ k. ed25519;
  can_sign = λ k. true;
  export_key_raw = λ k. ok (
      k ∷ 0 ∷ 0 ∷ 0 ∷ 0 ∷ 0 ∷ 0 ∷ 0 ∷ 0 ∷ 0 ∷ 0 ∷ 0 ∷ 0 ∷ 0 ∷ 0 ∷ 0 ∷ 0 ∷ 0 ∷ 0 ∷ 0 ∷ 0 ∷ 0 ∷ 0 ∷ 0
      ∷ 0 ∷ 0 ∷ 0 ∷ 0 ∷ 0 ∷ 0 ∷ 0 ∷ 0 ∷ []);
  sign = λ k message. ok (k ∷ message);
  verify = λ k message sig. ite (eq? (k ∷ message) sig) (ok tt) (err (codes "bad signature"));
  public_key_to_spki = λ raw. 48 ∷ raw;
  number = λ n. n ∷ [];
}

abbrev public_half : Bytes
public_half =
    7 ∷ 0 ∷ 0 ∷ 0 ∷ 0 ∷ 0 ∷ 0 ∷ 0 ∷ 0 ∷ 0 ∷ 0 ∷ 0 ∷ 0 ∷ 0 ∷ 0 ∷ 0 ∷ 0 ∷ 0 ∷ 0 ∷ 0 ∷ 0 ∷ 0 ∷ 0 ∷ 0
    ∷ 0 ∷ 0 ∷ 0 ∷ 0 ∷ 0 ∷ 0 ∷ 0 ∷ 0 ∷ []

abbrev adopted_pair : Identity numbered
adopted_pair = record { key = 7; spki = 48 ∷ public_half; endpoint_id = public_half }

from_injected_iff_example : (from_injected numbered 7 7 ≡ ok adopted_pair) ↔ (
    (raw : Bytes) × IsPair numbered 7 7 raw
    × (adopted_pair ≡ record { key = 7; spki = 48 ∷ raw; endpoint_id = raw }))
from_injected_iff_example = from_injected_iff numbered 7 7 adopted_pair
