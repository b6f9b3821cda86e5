-- ===== src/Relay/Url.antt =====
-- `relay_url` of core/src/relay.rs: the websocket URL of a relay. Text is a list of code points.
pub mod Normal
mod Examples
use component_iroh.Prelude.{
  ℕ, ◌-◌, Bool, true, false, ◌&&◌, List, [], ◌∷◌, ◌++◌, Option, none, some, Result, ok, err, ok_or,
  ◌>>=◌, ◌==◌, if◌then◌else◌, ite, eq?, bytes_key, Text, codes,
}

-- `str::split_once("://")`: the parts around the first occurrence.
unfoldable pub split_once : Text → Option (Text × Text)
split_once (b ∷ c ∷ d ∷ rest) =
    let later = split_once (c ∷ d ∷ rest) in
    if b == b':' && (c == b'/' && d == b'/')
    then some ([], rest)
    else elim later [ none ↦ none | some (before, after) ↦ some (b ∷ before, after) ]
split_once short = none

-- `rest.split('/').next()`: everything before the first slash.
unfoldable pub before_slash : Text → Text
before_slash [] = []
before_slash (c ∷ cs) = if c == b'/' then [] else c ∷ before_slash cs

pub data UrlError : Type 0 where
  no_scheme no_host : UrlError

unfoldable pub ws_scheme : Text → Text
ws_scheme scheme =
    ite (eq? scheme (codes "http")) (codes "ws")
      (ite (eq? scheme (codes "ws")) (codes "ws") (codes "wss"))

abbrev pub separator : Text
separator = codes "://"

abbrev pub relay_path : Text
relay_path = codes "/relay"

-- A host that is not empty gets the path of the relay protocol.
unfoldable pub with_host : Text → Text → Result Text UrlError
with_host scheme [] = err no_host
with_host scheme (c ∷ cs) = ok (scheme ++ (separator ++ ((c ∷ cs) ++ relay_path)))

unfoldable pub relay_url : Text → Result Text UrlError
unfolding split_once before_slash ws_scheme with_host
relay_url server = do
  (scheme, rest) ← ok_or (split_once server) no_scheme
  with_host (ws_scheme scheme) (before_slash rest)
