-- ===== src/Endpoint/Pump/Flushing.antt =====
-- The flush of the relay queue, item by item (`pump` in
-- endpoint/src/endpoint_impl.rs).
use component_iroh.Prelude.{
  ℕ, ◌≡◌, refl, ap, append_assoc, ◌∙◌, sym, true, Bool, some, false, ◌&&◌, List, [], ◌∷◌, ◌++◌,
  Option-cases, Bool-cases, inl, inr, nat_key, lookup, ◌==◌, arith,
}
use component_iroh.Relay.Frames.{Bytes}
use component_iroh.Endpoint.Wires.{Peer, home_relay}
use component_iroh.Endpoint.Pump.{relay_sends, flush_relays}

-- All the sends that a queue asks for.
abbrev pub all_sends : List (ℕ × ℕ) → List (ℕ × Peer × Bytes) → List (ℕ × Peer × Bytes)
all_sends pool [] = []
all_sends pool (item ∷ queue) = relay_sends pool item ++ all_sends pool queue

-- The send of an item fails on the home relay.
abbrev pub FailsHome : (ℕ → Bytes → Bool) → List (ℕ × ℕ) → ℕ × Peer × Bytes → Type 0
FailsHome fails pool (key, peer, datagram) =
    (conn : ℕ) × (lookup key pool ≡ some conn) × (fails conn datagram ≡ true) × (key ≡ home_relay)

abbrev pub NoneFailsHome : (ℕ → Bytes → Bool) → List (ℕ × ℕ) → List (ℕ × Peer × Bytes) → Type 0
NoneFailsHome fails pool [] = Unit
NoneFailsHome fails pool (item ∷ queue) =
    (¬ FailsHome fails pool item) × NoneFailsHome fails pool queue

-- Where the flush broke off: the first item whose send failed on the home relay was the last that was
-- sent, and what is left is the tail behind it.
pub record BrokeOff (fails : ℕ → Bytes → Bool) (pool : List (ℕ × ℕ))
    (queue left sent : List (ℕ × Peer × Bytes)) : Type 0 where
  pub before : List (ℕ × Peer × Bytes)
  pub item : ℕ × Peer × Bytes
  pub split : queue ≡ before ++ (item ∷ left)
  pub spared : NoneFailsHome fails pool before
  pub failed : FailsHome fails pool item
  pub in_order : sent ≡ all_sends pool before ++ relay_sends pool item

-- What is left, what is sent and whether the home relay failed, against the queue.
abbrev pub Flushed :
    (fails : ℕ → Bytes → Bool) (pool : List (ℕ × ℕ)) (queue : List (ℕ × Peer × Bytes))
    → List (ℕ × Peer × Bytes) × List (ℕ × Peer × Bytes) × Bool
    → Type 0
Flushed fails pool queue (left, sent, false) =
    (left ≡ []) × (sent ≡ all_sends pool queue) × NoneFailsHome fails pool queue
Flushed fails pool queue (left, sent, true) = BrokeOff fails pool queue left sent

-- An item that does not break the flush off, with its sends, before the rest of the queue.
item-Flushed :
    (fails : ℕ → Bytes → Bool) (pool : List (ℕ × ℕ)) (item : ℕ × Peer × Bytes)
    (own queue left sent : List (ℕ × Peer × Bytes)) (died : Bool)
    → relay_sends pool item ≡ own
    → (¬ FailsHome fails pool item)
    → Flushed fails pool queue (left, sent, died)
    → Flushed fails pool (item ∷ queue) (left, own ++ sent, died)
item-Flushed fails pool item own queue left sent false e spared (l, f, g) = (l, cc, (spared, g))
item-Flushed fails pool item own queue left sent true e spared v = record {
  before = item ∷ v.before;
  item = v.item;
  split = ap (λ l. item ∷ l) v.split;
  spared = (spared, v.spared);
  failed = v.failed;
  in_order = rw e (
      ap (λ l. own ++ l) v.in_order
      ∙ sym (append_assoc own (all_sends pool v.before) (relay_sends pool v.item)));
}

both_hold :
    (failed : Bool) (key : ℕ)
    → (failed && key == home_relay) ≡ true
    → (failed ≡ true) × (key ≡ home_relay)
both_hold failed key h = ground arith

spares :
    (fails : ℕ → Bytes → Bool) (pool : List (ℕ × ℕ)) (key : ℕ) (peer : Peer) (datagram : Bytes)
    (conn : ℕ)
    → lookup key pool ≡ some conn
    → (fails conn datagram && key == home_relay) ≡ false
    → ¬ FailsHome fails pool (key, peer, datagram)
spares fails pool key peer datagram conn e f (other, found, failed, home) = ground arith

-- The flush of the relay queue sends what the queue asks for, in its order and each item once; an
-- item whose relay has left the pool asks for nothing. It breaks off exactly if a send on the home
-- relay fails, at the first that does, and leaves the tail of the queue behind that item; a failed
-- send on another relay is passed over.
pub flush_relays-Flushed :
    (fails : ℕ → Bytes → Bool) (pool : List (ℕ × ℕ)) (queue : List (ℕ × Peer × Bytes))
    → Flushed fails pool queue (flush_relays fails pool queue)
unfolding flush_relays relay_sends
flush_relays-Flushed fails pool [] = (refl, refl, tt)
flush_relays-Flushed fails pool ((key, peer, datagram) ∷ queue) =
    let rest = flush_relays fails pool queue in
    let tail = flush_relays-Flushed fails pool queue in
    let item : ℕ × Peer × Bytes = (key, peer, datagram) in
    elim (Option-cases (lookup key pool)) [
      | inl e ↦
          rw (e, flush_relays)
            (item-Flushed fails pool item [] queue rest.0 rest.1 rest.2 (rw (e, relay_sends) refl)
              (λ (conn, found, failed, home). cc) tail)
      | inr (conn, e) ↦ elim (Bool-cases (fails conn datagram && key == home_relay)) [
        | inl f ↦
            let (failed, home) = both_hold (fails conn datagram) key f in
            rw (e, f, flush_relays)
              (record {
                before = [];
                item = item;
                split = refl;
                spared = tt;
                failed = (conn, e, failed, home);
                in_order = rw (e, relay_sends) refl;
              })
        | inr f ↦
            rw (e, f, flush_relays)
              (item-Flushed fails pool item ((conn, peer, datagram) ∷ []) queue rest.0 rest.1 rest.2
                (rw (e, relay_sends) refl) (spares fails pool key peer datagram conn e f) tail)
      ]
    ]
