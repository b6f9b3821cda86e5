-- ===== src/Identity.antt =====
-- The node identity: core/src/crypto/sign.rs, its resource (endpoint/src/identity.rs), and what TLS
-- is configured with (core/src/tls.rs). webcrypto and the TLS libraries are records of functions.
pub mod Adoption
mod Examples
use component_iroh.Prelude.{
  ℕ, Bool, true, false, not, List, [], ◌∷◌, ◌++◌, Option, none, some, Result, ok, err, ◌>>=◌,
  map_err, Key, bytes_key, eq?, ite, Text, codes, length, ◌==◌, if◌then◌else◌,
}
use component_iroh.Relay.Frames.{Bytes}
use component_iroh.Endpoint.Types.{Error, other, invalid_argument}

-- An error of webcrypto is its text, and `number` writes a number in decimal.
pub record WebCrypto : Type 1 where
  pub SigningKey : Type 0
  pub VerifyingKey : Type 0
  pub generate_key : (extractable : Bool) → Result (SigningKey × VerifyingKey) Text
  pub signing_algorithm : SigningKey → Text
  pub verifying_algorithm : VerifyingKey → Text
  pub can_sign : SigningKey → Bool
  pub export_key_raw : VerifyingKey → Result Bytes Text
  pub sign : SigningKey → Bytes → Result Bytes Text
  pub verify : VerifyingKey → Bytes → Bytes → Result (Unit {0}) Text
  -- `public_key_to_spki` of rustls, for the algorithm Ed25519.
  pub public_key_to_spki : Bytes → Bytes
  pub number : ℕ → Text

abbrev pub ed25519 : Text
ed25519 = codes "Ed25519"

abbrev pub probe : Bytes
probe = codes "polymorph:iroh endpoint identity possession probe"

unfoldable pub is_text : Text → Text → Bool
is_text a b = ite (eq? a b) true false

abbrev pub guard : Bool → Text → Result (Unit {0}) Text
guard true e = ok tt
guard false e = err e

module _ (W : WebCrypto) where
  open W use {SigningKey, VerifyingKey}

  pub record Identity : Type 0 where
    pub key : SigningKey
    pub spki : Bytes
    pub endpoint_id : Bytes

  -- `raw.as_slice().try_into()` as 32 bytes.
  unfoldable pub as_endpoint_id : Bytes → Result Bytes Text
  as_endpoint_id raw =
      if length raw == 32
      then ok raw
      else err (codes "expected 32-byte Ed25519 public key, got " ++ W.number (length raw))

  unfoldable pub new_identity : SigningKey → Bytes → Bytes → Identity
  new_identity key raw endpoint_id = record {
    key = key;
    spki = W.public_key_to_spki raw;
    endpoint_id = endpoint_id;
  }

  unfoldable pub generate : Result Identity Text
  generate = do
    (signing, verifying) ← map_err (λ e. codes "generate identity: " ++ e) (W.generate_key false)
    raw ← map_err (λ e. codes "export identity public key: " ++ e) (W.export_key_raw verifying)
    endpoint_id ← as_endpoint_id raw
    ok (new_identity signing raw endpoint_id)

  unfoldable pub from_injected : SigningKey → VerifyingKey → Result Identity Text
  from_injected signing verifying = do
    _ ←
        guard (is_text (W.signing_algorithm signing) ed25519) (
          codes "identity signing key is "
          ++ (W.signing_algorithm signing ++ codes ", not Ed25519"))
    _ ← guard (is_text (W.verifying_algorithm verifying) ed25519) (
        codes "identity verifying key is "
        ++ (W.verifying_algorithm verifying ++ codes ", not Ed25519"))
    _ ← guard (W.can_sign signing) (codes "identity signing key does not permit sign")
    raw ← map_err (λ e. codes "export identity public key: " ++ e) (W.export_key_raw verifying)
    endpoint_id ← as_endpoint_id raw
    sig ← map_err (λ e. codes "identity probe signature: " ++ e) (W.sign signing probe)
    _ ←
        map_err
          (λ e. codes "identity mismatch: the verifying key is not the signing key's public half")
          (W.verify verifying probe sig)
    ok (new_identity signing raw endpoint_id)

  unfoldable pub sign : Identity → Bytes → Result Bytes Text
  sign identity message =
      map_err (λ e. codes "webcrypto ed25519 sign: " ++ e) (W.sign identity.key message)

  -- The resource's constructors, with the errors of the interface.
  unfoldable pub generate_resource : Result Identity Error
  unfolding generate
  generate_resource = map_err (λ e. other (codes "generate identity: " ++ e)) generate

  unfoldable pub from_keys : SigningKey → VerifyingKey → Result Identity Error
  unfolding from_injected
  from_keys signing verifying = map_err invalid_argument (from_injected signing verifying)

  -- The TLS libraries' configurations over a raw-public-key identity; a signature scheme is its
  -- number.
  pub record TlsLibrary : Type 1 where
    pub RpkIdentity : Type 0
    pub ClientConfig : Type 0
    pub ServerConfig : Type 0
    pub external : Identity → Result RpkIdentity Text
    pub rpk_client_config : RpkIdentity → Bytes → List Bytes → Result ClientConfig Text
    pub rpk_server_config : RpkIdentity → List Bytes → Result ServerConfig Text
    pub ed25519_scheme : ℕ

  unfoldable pub contains : ℕ → List ℕ → Bool
  contains x [] = false
  contains x (y ∷ ys) = if x == y then true else contains x ys

  -- `choose_scheme`; the signer is the identity's key.
  unfoldable pub choose_scheme : TlsLibrary → Identity → List ℕ → Option SigningKey
  unfolding contains
  choose_scheme T identity offered =
      if contains T.ed25519_scheme offered then some identity.key else none

  unfoldable pub rpk_identity : (T : TlsLibrary) → Identity → Result T.RpkIdentity Text
  rpk_identity T identity =
      map_err (λ e. codes "identity is not rpk-shaped: " ++ e) (T.external identity)

  unfoldable pub client_config :
      (T : TlsLibrary)
      → Identity
      → (expected_server : Bytes) → List Bytes
      → Result T.ClientConfig Text
  unfolding rpk_identity
  client_config T identity expected_server alpns = do
    rpk ← rpk_identity T identity
    T.rpk_client_config rpk expected_server alpns

  unfoldable pub server_config :
      (T : TlsLibrary) → Identity → List Bytes → Result T.ServerConfig Text
  unfolding rpk_identity
  server_config T identity alpns = do rpk ← rpk_identity T identity; T.rpk_server_config rpk alpns
