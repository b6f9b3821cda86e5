-- ===== src/Identity/Adoption.antt =====
-- Exactly which key pairs make an identity (core/src/crypto/sign.rs).
use component_iroh.Prelude.{
  ◌≡◌, refl, ◌↔◌, Bool, true, false, ok, map_err-eq-ok, >>=-eq-ok, ap, sym, ◌∙◌, Text, length,
  bytes_key, arith,
}
use component_iroh.Relay.Frames.{Bytes}
use component_iroh.Identity.{
  WebCrypto, Identity, ed25519, probe, is_text, guard, as_endpoint_id, new_identity, from_injected,
}

is_text_iff : (a b : Text) → (is_text a b ≡ true) ↔ (a ≡ b)
unfolding is_text
is_text_iff a b = ground arith

guard-eq-ok : (b : Bool) (e : Text) (u : Unit {0}) → guard b e ≡ ok u → b ≡ true
guard-eq-ok true e u h = refl
guard-eq-ok false e u h = cc

as_endpoint_id-eq-ok :
    (W : WebCrypto) (raw id : Bytes) → as_endpoint_id W raw ≡ ok id → (length raw ≡ 32) × (id ≡ raw)
unfolding as_endpoint_id
as_endpoint_id-eq-ok W raw id h = ground arith

as_endpoint_id_sized :
    (W : WebCrypto) (raw : Bytes) → length raw ≡ 32 → as_endpoint_id W raw ≡ ok raw
unfolding as_endpoint_id
as_endpoint_id_sized W raw h = ground arith

module _ (W : WebCrypto) where
  -- The pair is of Ed25519, may sign, has a public key of 32 bytes, and its halves belong together:
  -- the verifying key accepts the signing key's signature of the probe.
  pub record IsPair (signing : W.SigningKey) (verifying : W.VerifyingKey) (raw : Bytes)
      : Type 0 where
    pub signs_ed25519 : W.signing_algorithm signing ≡ ed25519
    pub verifies_ed25519 : W.verifying_algorithm verifying ≡ ed25519
    pub permitted : W.can_sign signing ≡ true
    pub exported : W.export_key_raw verifying ≡ ok raw
    pub sized : length raw ≡ 32
    pub sig : Bytes
    pub signed : W.sign signing probe ≡ ok sig
    pub verified : W.verify verifying probe sig ≡ ok tt

  adopted :
      (signing : W.SigningKey) (verifying : W.VerifyingKey) (identity : Identity W)
      → from_injected W signing verifying ≡ ok identity
      → (raw : Bytes) × IsPair signing verifying raw × (identity ≡ new_identity W signing raw raw)
  unfolding from_injected
  adopted signing verifying identity h =
      let (u1, g1, h1) = >>=-eq-ok _ _ identity h in
      let (u2, g2, h2) = >>=-eq-ok _ _ identity h1 in
      let (u3, g3, h3) = >>=-eq-ok _ _ identity h2 in
      let (raw, g4, h4) = >>=-eq-ok _ _ identity h3 in
      let (id, g5, h5) = >>=-eq-ok _ _ identity h4 in
      let (sig, g6, h6) = >>=-eq-ok _ _ identity h5 in
      let (u7, g7, h7) = >>=-eq-ok _ _ identity h6 in
      let (sized, same) = as_endpoint_id-eq-ok W raw id g5 in
      (
        raw,
        record {
          signs_ed25519 = (is_text_iff _ _).0 (guard-eq-ok _ _ u1 g1);
          verifies_ed25519 = (is_text_iff _ _).0 (guard-eq-ok _ _ u2 g2);
          permitted = guard-eq-ok _ _ u3 g3;
          exported = map_err-eq-ok _ _ raw g4;
          sized = sized;
          sig = sig;
          signed = map_err-eq-ok _ _ sig g6;
          verified = map_err-eq-ok _ _ u7 g7;
        },
        cc (h7, same),
      )

  adopts :
      (signing : W.SigningKey) (verifying : W.VerifyingKey) (raw : Bytes)
      → IsPair signing verifying raw
      → from_injected W signing verifying ≡ ok (new_identity W signing raw raw)
  unfolding from_injected
  adopts signing verifying raw p =
      rw
        (
          (is_text_iff _ _).1 p.signs_ed25519,
          (is_text_iff _ _).1 p.verifies_ed25519,
          p.permitted,
          p.exported,
          as_endpoint_id_sized W raw p.sized,
          p.signed,
          p.verified,
        )
        refl

  -- An identity is adopted exactly from a pair of such halves, and then carries the verifying key's
  -- 32 bytes as its endpoint id, their SPKI, and the signing key.
  pub from_injected_iff :
      (signing : W.SigningKey) (verifying : W.VerifyingKey) (identity : Identity W)
      → (from_injected W signing verifying ≡ ok identity) ↔ (
          (raw : Bytes) × IsPair signing verifying raw
          × (identity
              ≡ record { key = signing; spki = W.public_key_to_spki raw; endpoint_id = raw }))
  unfolding new_identity
  from_injected_iff signing verifying identity = (
    adopted signing verifying identity,
    λ (raw, p, e). adopts signing verifying raw p ∙ ap ok (sym e),
  )
