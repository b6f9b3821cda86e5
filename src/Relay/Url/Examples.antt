-- ===== src/Relay/Url/Examples.antt =====
-- The URL theorems at concrete inputs.
use component_iroh.Prelude.{◌≡◌, refl, ok, err, codes, bytes_eq, ℕ_discrete}
use component_iroh.Relay.Url.{relay_url, no_host, no_scheme}

resolves : relay_url (codes "http://host:80/x") ≡ ok (codes "ws://host:80/relay")
unfolding relay_url bytes_eq ℕ_discrete
resolves = refl

no_host_given : relay_url (codes "https:///x") ≡ err no_host
unfolding relay_url bytes_eq ℕ_discrete
no_host_given = refl

no_scheme_given : relay_url (codes "host") ≡ err no_scheme
unfolding relay_url
no_scheme_given = refl
