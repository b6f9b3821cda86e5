-- ===== src/Endpoint/Dial/Pool.antt =====
-- Dials to one relay share one open (`ensure_relay` in endpoint/src/endpoint_impl.rs).
use component_iroh.Prelude.{
  ℕ, ◌≡◌, false, none, some, ok, err, nat_key, bytes_key, lookup, lookup-insert_self, lookup-remove,
  Text, codes, arith,
}
use component_iroh.Endpoint.Types.{connect_failed, normalize_relay_url}
use component_iroh.Endpoint.Wires.{Wires, register_relay, is_closed_or_dead}
use component_iroh.Endpoint.Dial.{pooled, claimed, waits, claim_relay, finish_open, wait_relay}

-- What a second dial to the relay finds.
pub record Shared (w : Wires) (url : Text) (key conn : ℕ) : Type 0 where
  pub open_in_pool : lookup key w.relay_pool ≡ some conn
  pub claims : claim_relay w url ≡ (w, pooled key)
  pub waiters : (second now started : ℕ) → wait_relay second now started url w ≡ some (ok key)

-- A dial that claims an open makes every dial to the same relay, in any spelling of its URL with
-- more or fewer slashes at the end, wait for it, and changes nothing for the others.
pub claim_relay_exclusive :
    (w w' : Wires) (url url' : Text)
    → normalize_relay_url url' ≡ normalize_relay_url url
    → claim_relay w url ≡ (w', claimed)
    → (claim_relay w' url').1 ≡ waits
unfolding claim_relay
claim_relay_exclusive w w' url url' same e =
    ground (arith, lookup-insert_self (normalize_relay_url url) tt w.relay_opening)

-- A successful open under one spelling of the URL is in the pool for all of them: a new dial takes
-- its key without an open, and a dial that waited gets it.
pub finish_open-Shared :
    (w : Wires) (url url' : Text) (conn : ℕ)
    → normalize_relay_url url' ≡ normalize_relay_url url
    → Shared ((finish_open w url (ok conn)).0) url' w.next_relay_key conn
unfolding finish_open register_relay claim_relay wait_relay
finish_open-Shared w url url' conn same = record {
  open_in_pool = lookup-insert_self w.next_relay_key conn w.relay_pool;
  claims =
      ground (arith, lookup-insert_self (normalize_relay_url url) w.next_relay_key w.relay_keys);
  waiters = λ second now started.
      ground (arith, lookup-insert_self (normalize_relay_url url) w.next_relay_key w.relay_keys);
}

-- A failed open, on an endpoint that is neither closed nor dead, ends the wait of every other dial
-- to the relay with an error, and the next dial may claim an open again.
pub finish_open_failed :
    (w : Wires) (url url' text : Text)
    → normalize_relay_url url' ≡ normalize_relay_url url
    → lookup (normalize_relay_url url) w.relay_keys ≡ none
    → is_closed_or_dead w ≡ false
    → ((second now started : ℕ)
        → wait_relay second now started url' ((finish_open w url (err text)).0)
          ≡ some (err (connect_failed (codes "a concurrent open of this relay failed"))))
      × ((claim_relay ((finish_open w url (err text)).0) url').1 ≡ claimed)
unfolding finish_open claim_relay wait_relay
finish_open_failed w url url' text same fresh unclosed = (
  λ second now started.
      ground
        (arith, lookup-remove (normalize_relay_url url) (normalize_relay_url url) w.relay_opening),
  ground (arith, lookup-remove (normalize_relay_url url) (normalize_relay_url url) w.relay_opening),
)
