-- ===== src/Endpoint/Inbound/Closing.antt =====
-- Claims of accepted connections, and what closing and death leave behind.
use component_iroh.Prelude.{
  ℕ, ◌≡◌, refl, ap, true, false, List, [], ◌∷◌, map, Option, some, ok, nat_key, ite, eq?, lookup,
  Text, arith, Option-cases, Bool-cases, inl, inr, is_some, lookup-insert_self,
}
use component_iroh.Relay.Frames.{Bytes}
use component_iroh.Endpoint.Types.{SocketAddr}
use component_iroh.Endpoint.Noq.{Noq, connection_event, new_connection, response}
use component_iroh.Endpoint.Wires.{Peer, addr_for_peer}
use component_iroh.Endpoint.State.{ConnEntry, State, new_entry}
use component_iroh.Endpoint.Inbound.{
  modify, modify_all, respond, on_incoming, handle_datagram, handle_relay_datagram, close_all,
  kill_entry, mark_dead, shut,
}

abbrev pub handles {ℓ} : {V : Type ℓ} → List (ℕ × V) → List ℕ
handles = map λ p. p.0

handles-modify {ℓ} :
    {V : Type ℓ} (k : ℕ) (f : V → V) (m : List (ℕ × V)) → handles (modify k f m) ≡ handles m
handles-modify k f [] = refl
handles-modify k f ((j, v) ∷ m) =
    elim (eq? j k)
      as (λ d. handles (ite d ((j, f v) ∷ m) ((j, v) ∷ modify k f m)) ≡ j ∷ handles m) [
        | yes _ ↦ refl
        | no _ ↦ ap (◌∷◌ j) (handles-modify k f m)
      ]

module _ (N : Noq) where
  -- A closed endpoint gets no new connection, whatever arrives.
  pub handle_datagram_closed :
      (now : ℕ) (s : State N) (addr : SocketAddr) (source : Option Peer) (payload : Bytes)
      → s.wires.is_closed ≡ true
      → handles (handle_datagram N now s addr source payload).conns ≡ handles s.conns
  unfolding handle_datagram on_incoming respond
  handle_datagram_closed now s addr source payload h =
      elim (Option-cases (N.handle now addr payload s.noq).1) [
        | inl e ↦ rw (e, handle_datagram) refl
        | inr (connection_event handle x, e) ↦
            rw (e, handle_datagram) (handles-modify handle _ s.conns)
        | inr (new_connection incoming, e) ↦ rw (e, handle_datagram, h) refl
        | inr (response bytes, e) ↦ rw (e, handle_datagram) refl
      ]

  -- A connection that a relayed datagram opens must authenticate as the datagram's source.
  pub handle_relay_datagram_claim :
      (now : ℕ) (s : State N) (via : ℕ) (source : Peer) (payload : Bytes) (incoming : N.Incoming)
      (handle : ℕ) (conn : N.Conn)
      → let addr = (addr_for_peer s.wires source via).1 in
        let handled = N.handle now addr payload s.noq in
        handled.1 ≡ some (new_connection incoming)
        → (N.accept now incoming (N.handle now addr payload s.noq).0).1 ≡ ok (handle, conn)
        → (addr_for_peer s.wires source via).0.is_closed ≡ false
        → lookup handle (handle_relay_datagram N now s via source payload).conns
          ≡ some (new_entry N conn (some source) true)
  unfolding handle_relay_datagram handle_datagram on_incoming
  handle_relay_datagram_claim now s via source payload incoming handle conn arrives accepts
        is_open =
      rw (arrives, handle_datagram, is_open, accepts)
        (lookup-insert_self handle (new_entry N conn (some source) true) s.conns)

  abbrev pub AllFailed : List (ℕ × ConnEntry N) → Type 0
  AllFailed [] = Unit
  AllFailed ((handle, entry) ∷ conns) = (is_some entry.error ≡ true) × AllFailed conns

  kill_all-AllFailed :
      (conns : List (ℕ × ConnEntry N)) → AllFailed (modify_all (kill_entry N) conns)
  unfolding kill_entry
  kill_all-AllFailed [] = tt
  kill_all-AllFailed ((handle, entry) ∷ conns) = (ground arith, kill_all-AllFailed conns)

  kill_all_idem :
      (conns : List (ℕ × ConnEntry N))
      → modify_all (kill_entry N) (modify_all (kill_entry N) conns)
        ≡ modify_all (kill_entry N) conns
  unfolding kill_entry
  kill_all_idem [] = refl
  kill_all_idem ((handle, entry) ∷ conns) = ground (arith, kill_all_idem conns)

  -- Once the endpoint is dead every connection has an error, and a second death changes only the
  -- recorded reason.
  pub mark_dead_lem :
      (reason later : Text) (s : State N)
      → AllFailed (mark_dead N reason s).conns
        × ((mark_dead N later (mark_dead N reason s)).conns ≡ (mark_dead N reason s).conns)
  unfolding mark_dead
  mark_dead_lem reason later s = (kill_all-AllFailed s.conns, kill_all_idem s.conns)

  -- Closing twice, or closing and then dropping, is closing once.
  pub shut_idem :
      (now later : ℕ) (reason other_reason : Bytes) (s : State N)
      → shut N later other_reason (shut N now reason s) ≡ shut N now reason s
  unfolding shut close_all
  shut_idem now later reason other_reason s = elim (Bool-cases s.wires.is_closed) [
    | inl e ↦ simp e refl
    | inr e ↦ simp e refl
  ]
