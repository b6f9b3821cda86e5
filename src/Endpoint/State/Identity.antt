-- ===== src/Endpoint/State/Identity.antt =====
-- A connection is surfaced only under the identity that it must have.
use component_iroh.Prelude.{
  ℕ, ◌≡◌, ◌≢◌, refl, sym, ◌∙◌, Bool, true, List, [], ◌∷◌, ◌++◌, Option, none, some, bytes_key,
  if◌then◌else◌, is_some, arith, Option-cases, inl, inr, ◌⊎◌, codes,
}
use component_iroh.Endpoint.Noq.{Noq}
use component_iroh.Endpoint.Wires.{Peer}
use component_iroh.Endpoint.State.{ConnEntry, new_entry, tls_peer, admits, mismatch, on_connected}

module _ (N : Noq) where
  -- A connected entry has an authenticated peer, and it is the expected one where one is expected.
  pub record IsAuthentic (entry : ConnEntry N) : Type 0 where
    pub named : entry.is_connected ≡ true → (id : Peer) × (entry.peer ≡ some id)
    pub expected :
        (id : Peer) (claim : Peer)
        → entry.peer ≡ some id
        → entry.expected_peer ≡ some claim
        → id ≡ claim

  pub new_entry-IsAuthentic :
      (conn : N.Conn) (claim : Option Peer) (accepted_side : Bool)
      → IsAuthentic (new_entry N conn claim accepted_side)
  unfolding new_entry
  new_entry-IsAuthentic conn claim accepted_side = record {
    named = λ h. absurd (ground arith);
    expected = λ id c h. absurd (ground arith);
  }

  admits-some :
      (tls expected : Option Peer) (id : Peer)
      → admits tls expected ≡ some id
      → (tls ≡ some id) × ((expected ≡ none) ⊎ (expected ≡ some id))
  unfolding admits
  admits-some none expected id h = cc
  admits-some (some key) none id h = (h, inl refl)
  admits-some (some key) (some claim) id h = ground arith

  admits-none :
      (tls expected : Option Peer)
      → admits tls expected ≡ none
      → (id : Peer) → tls ≡ some id
      → (claim : Peer) × (expected ≡ some claim) × (claim ≢ id)
  unfolding admits
  admits-none none expected h id e = cc
  admits-none (some key) none h id e = cc
  admits-none (some key) (some claim) h id e = (claim, refl, ground arith)

  -- The connection is surfaced under the authenticated key.
  pub record Surfaced (entry : ConnEntry N) (handle : ℕ) (queue : List ℕ) (r : ConnEntry N × List ℕ)
      : Type 0 where
    pub id : Peer
    pub authenticated : tls_peer N entry.conn ≡ some id
    pub admitted : (entry.expected_peer ≡ none) ⊎ (entry.expected_peer ≡ some id)
    pub is_up : r.0.is_connected ≡ true
    pub as_peer : r.0.peer ≡ some id
    pub same_claim : r.0.expected_peer ≡ entry.expected_peer
    pub queued : r.1 ≡ (if entry.accepted_side then queue ++ (handle ∷ []) else queue)

  -- It is refused: an error, a close with code 1, and nothing else.
  pub record Refused (now : ℕ) (entry : ConnEntry N) (queue : List ℕ) (r : ConnEntry N × List ℕ)
      : Type 0 where
    pub differs :
        (id : Peer)
        → tls_peer N entry.conn ≡ some id
        → (claim : Peer) × (entry.expected_peer ≡ some claim) × (claim ≢ id)
    pub failed : is_some r.0.error ≡ true
    pub closed_conn : r.0.conn ≡ N.close now 1 (codes "identity mismatch") entry.conn
    pub still_down : r.0.is_connected ≡ entry.is_connected
    pub same_peer : r.0.peer ≡ entry.peer
    pub same_claim : r.0.expected_peer ≡ entry.expected_peer
    pub not_queued : r.1 ≡ queue

  -- When a handshake completes, the connection is surfaced, and queued for `accept` if it came in,
  -- exactly under a key that TLS authenticated and that is the expected peer where one is expected.
  -- Otherwise it is refused.
  pub on_connected_cases :
      (now : ℕ) (entry : ConnEntry N) (handle : ℕ) (queue : List ℕ)
      → let r = on_connected N now entry handle queue in
        Surfaced entry handle queue r ⊎ Refused now entry queue r
  unfolding on_connected mismatch
  on_connected_cases now entry handle queue =
      elim (Option-cases (admits (tls_peer N entry.conn) entry.expected_peer)) [
        | inl e ↦
            rw (e, on_connected)
              (inr (record {
                differs = admits-none _ _ e;
                failed = refl;
                closed_conn = refl;
                still_down = refl;
                same_peer = refl;
                same_claim = refl;
                not_queued = refl;
              }))
        | inr (id, e) ↦
            let (key, claim) = admits-some (tls_peer N entry.conn) entry.expected_peer id e in
            rw (e, on_connected)
              (inl (record {
                id = id;
                authenticated = key;
                admitted = claim;
                is_up = refl;
                as_peer = refl;
                same_claim = refl;
                queued = refl;
              }))
      ]

  -- An entry as the accept queue's users see it: the fields that authentication rests on.
  pub same_identity :
      (entry entry' : ConnEntry N)
      → entry'.is_connected ≡ entry.is_connected
      → entry'.peer ≡ entry.peer
      → entry'.expected_peer ≡ entry.expected_peer
      → IsAuthentic entry
      → IsAuthentic entry'
  same_identity entry entry' up peer claim v = record {
    named = λ h. let (id, e) = v.named (sym up ∙ h) in (id, peer ∙ e);
    expected = λ id c e f. v.expected id c (sym peer ∙ e) (sym claim ∙ f);
  }

  pub on_connected-IsAuthentic :
      (now : ℕ) (entry : ConnEntry N) (handle : ℕ) (queue : List ℕ)
      → IsAuthentic entry
      → IsAuthentic (on_connected N now entry handle queue).0
  on_connected-IsAuthentic now entry handle queue v =
      elim (on_connected_cases now entry handle queue) [
        | inl s ↦ record {
          named = λ h. (s.id, s.as_peer);
          expected = λ id claim e f.
              let of_id : id ≡ s.id = ground (arith, s.as_peer) in
              let same = s.same_claim in
              elim s.admitted [ inl free ↦ cc (free, same) | inr is ↦ cc (is, same, of_id) ];
        }
        | inr r ↦ same_identity entry _ r.still_down r.same_peer r.same_claim v
      ]
