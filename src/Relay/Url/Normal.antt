-- ===== src/Relay/Url/Normal.antt =====
-- The shape of the websocket URL.
use component_iroh.Prelude.{
  ◌≡◌, ◌≢◌, ◌⊎◌, inl, inr, refl, [], ◌∷◌, ◌++◌, some, none, ok, err, arith, All, bytes_key, Text,
  codes, Option-cases, ok_or, bytes_eq, ℕ_discrete,
}
use component_iroh.Relay.Url.{
  split_once, before_slash, ws_scheme, with_host, relay_url, separator, relay_path, no_scheme,
}

-- No colon in it, so no separator before its end.
abbrev pub IsScheme : Text → Type 0
IsScheme = All λ c. c ≢ b':'

abbrev pub IsHost : Text → Type 0
IsHost = All λ c. c ≢ b'/'

split_once-append :
    (scheme rest : Text)
    → IsScheme scheme
    → split_once (scheme ++ (separator ++ rest)) ≡ some (scheme, rest)
unfolding split_once
split_once-append [] rest h = refl
split_once-append (a ∷ []) rest h = ground arith
split_once-append (a ∷ b ∷ []) rest h = ground arith
split_once-append (a ∷ b ∷ c ∷ more) rest h =
    ground (arith, split_once-append (b ∷ c ∷ more) rest h.1)

before_slash-append : (host tail : Text) → IsHost host → before_slash (host ++ (b'/' ∷ tail)) ≡ host
unfolding before_slash
before_slash-append [] tail h = refl
before_slash-append (c ∷ host) tail h = ground (arith, before_slash-append host tail h.1)

before_slash-IsHost : (text : Text) → IsHost (before_slash text)
unfolding before_slash
before_slash-IsHost [] = tt
before_slash-IsHost (c ∷ text) = ground (arith, before_slash-IsHost text)

ws_scheme_cases :
    (scheme : Text) → (ws_scheme scheme ≡ codes "ws") ⊎ (ws_scheme scheme ≡ codes "wss")
unfolding ws_scheme
ws_scheme_cases scheme = ground arith

-- A URL with a scheme free of colons and a host that is not empty keeps the host, drops the path,
-- and gets the scheme's websocket form and the relay path.
pub relay_url_shape :
    (scheme host tail : Text)
    → IsScheme scheme
    → IsHost host
    → host ≢ []
    → relay_url (scheme ++ (separator ++ (host ++ (b'/' ∷ tail))))
      ≡ ok (ws_scheme scheme ++ (separator ++ (host ++ relay_path)))
relay_url_shape scheme [] tail hs hh ne = absurd (ne refl)
relay_url_shape scheme (c ∷ host) tail hs hh ne =
    unfold relay_url with_host in
    rw (split_once-append scheme _ hs, before_slash-append (c ∷ host) tail hh)

ws_fixed : ws_scheme (codes "ws") ≡ codes "ws"
unfolding ws_scheme bytes_eq ℕ_discrete
ws_fixed = refl

wss_fixed : ws_scheme (codes "wss") ≡ codes "wss"
unfolding ws_scheme bytes_eq ℕ_discrete
wss_fixed = refl

ws_scheme_fixed :
    (scheme : Text)
    → IsScheme (ws_scheme scheme) × (ws_scheme (ws_scheme scheme) ≡ ws_scheme scheme)
ws_scheme_fixed scheme = elim (ws_scheme_cases scheme) [
  | inl e ↦ rw e (omega arith, ws_fixed)
  | inr e ↦ rw e (omega arith, wss_fixed)
]

-- What a URL that comes out is made of.
Resolved : Text → Type 0
Resolved url =
    (scheme : Text) × (host : Text) × IsHost host
    × (host ≢ [])
    × (url ≡ ws_scheme scheme ++ (separator ++ (host ++ relay_path)))

with_host-Resolved :
    (scheme host url : Text)
    → IsHost host
    → with_host (ws_scheme scheme) host ≡ ok url
    → Resolved url
unfolding with_host Resolved
with_host-Resolved scheme [] url h e = cc
with_host-Resolved scheme (c ∷ cs) url h e = (scheme, c ∷ cs, h, (λ n. cc), ground arith)

relay_url_missing : (server : Text) → split_once server ≡ none → relay_url server ≡ err no_scheme
unfolding relay_url
relay_url_missing server miss = rw (miss, ok_or)

relay_url_found :
    (server scheme rest : Text)
    → split_once server ≡ some (scheme, rest)
    → relay_url server ≡ with_host (ws_scheme scheme) (before_slash rest)
unfolding relay_url
relay_url_found server scheme rest found = rw (found, ok_or)

relay_url-Resolved : (server url : Text) → relay_url server ≡ ok url → Resolved url
relay_url-Resolved server url e = elim (Option-cases (split_once server)) [
  | inl miss ↦ cc (relay_url_missing server miss)
  | inr ((scheme, rest), found) ↦
      with_host-Resolved scheme (before_slash rest) url (before_slash-IsHost rest)
        (rw (relay_url_found server scheme rest found) at e)
]

-- The URL that comes out is a fixed point: to resolve it again changes nothing.
pub relay_url_idem : (server url : Text) → relay_url server ≡ ok url → relay_url url ≡ ok url
unfolding Resolved
relay_url_idem server url e =
    let (scheme, host, h, ne, shape) = relay_url-Resolved server url e in
    let (plain, fixed) = ws_scheme_fixed scheme in
    rw (shape, relay_url_shape (ws_scheme scheme) host (codes "relay") plain h ne, fixed)
