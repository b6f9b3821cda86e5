-- ===== src/Endpoint/Wires/Signaling.antt =====
-- Signaling sessions and their inboxes.
use component_iroh.Prelude.{
  ℕ, ◌≡◌, ◌≤◌, sym, Bool, List, [], ◌∷◌, ◌++◌, some, not, ◌||◌, bytes_key, nat_key, lookup, insert,
  remove, lookup-insert, lookup-remove, if◌then◌else◌, unwrap_or, arith, Option-cases, inl, inr,
  Bool-cases, length, length-append, subst, ltb,
}
use component_iroh.Relay.Frames.{Bytes}
use component_iroh.Endpoint.Types.{addr_key}
use component_iroh.Endpoint.Wires.{
  Peer, Wires, new_wires, begin_signaling, end_signaling, pop_signal_inbox, handle_signal,
  is_closed_or_dead, addr_for_peer, fresh_addr, register_relay, push_signal_outbound,
  register_channel, retire_channel, push_response, push_transmit, inbox_cap,
}
use component_iroh.Endpoint.Wires.Steps.{
  Step, addresses, registers_relay, begins, ends, signals, reads_signal, registers_channel, retires,
  responds, transmits, hears, Reach, here, next,
}

-- No peer has more unread signals than the cap.
abbrev pub IsCapped : List (Peer × List Bytes) → Type 0
IsCapped inboxes =
    (p : Peer) (inbox : List Bytes) → lookup p inboxes ≡ some inbox → length inbox ≤ inbox_cap

insert-IsCapped :
    (inboxes : List (Peer × List Bytes)) (peer : Peer) (inbox : List Bytes)
    → length inbox ≤ inbox_cap
    → IsCapped inboxes
    → IsCapped (insert peer inbox inboxes)
insert-IsCapped inboxes peer inbox fits v p found h =
    ground (arith, lookup-insert peer p inbox inboxes, v p found)

remove-IsCapped :
    (inboxes : List (Peer × List Bytes)) (peer : Peer)
    → IsCapped inboxes
    → IsCapped (remove peer inboxes)
remove-IsCapped inboxes peer v p found h = ground (arith, lookup-remove peer p inboxes, v p found)

pop_signal_inbox-IsCapped :
    (w : Wires) (peer : Peer)
    → IsCapped w.signal_inboxes
    → IsCapped (pop_signal_inbox w peer).0.signal_inboxes
unfolding pop_signal_inbox
pop_signal_inbox-IsCapped w peer v = elim (Option-cases (lookup peer w.signal_inboxes)) [
  | inl e ↦ rw (e, pop_signal_inbox) v
  | inr ([], e) ↦ rw (e, pop_signal_inbox) v
  | inr (payload ∷ rest, e) ↦
      rw (e, pop_signal_inbox)
        (insert-IsCapped w.signal_inboxes peer rest (omega (arith, v peer (payload ∷ rest) e)) v)
]

grown_fits :
    (inbox : List Bytes) (payload : Bytes)
    → length inbox ≤ inbox_cap
    → length (if ltb (length inbox) inbox_cap then inbox ++ (payload ∷ []) else inbox) ≤ inbox_cap
grown_fits inbox payload h = ground (arith, length-append inbox (payload ∷ []))

unread_fits :
    (w : Wires) (source : Peer)
    → IsCapped w.signal_inboxes
    → length (unwrap_or (lookup source w.signal_inboxes) []) ≤ inbox_cap
unread_fits w source v = elim (Option-cases (lookup source w.signal_inboxes)) [
  | inl e ↦ rw e (omega arith)
  | inr (inbox, e) ↦ rw e (v source inbox e)
]

handle_signal-IsCapped :
    (w : Wires) (via : ℕ) (source : Peer) (payload : Bytes)
    → IsCapped w.signal_inboxes
    → IsCapped (handle_signal w via source payload).0.signal_inboxes
unfolding handle_signal
handle_signal-IsCapped w via source payload v =
    elim (Bool-cases (not w.webrtc_enabled || is_closed_or_dead w)) [
      | inl e ↦ rw (e, handle_signal) v
      | inr e ↦
          rw (e, handle_signal)
            (insert-IsCapped w.signal_inboxes source _
              (grown_fits _ payload (unread_fits w source v)) v)
    ]

same_inboxes : {a b : List (Peer × List Bytes)} → b ≡ a → IsCapped a → IsCapped b
same_inboxes e v = subst IsCapped (sym e) v

Step-IsCapped : {w w' : Wires} → Step w w' → IsCapped w.signal_inboxes → IsCapped w'.signal_inboxes
unfolding register_relay end_signaling push_signal_outbound begin_signaling push_response
    push_transmit retire_channel register_channel addr_for_peer fresh_addr
Step-IsCapped {w} (addresses peer via room) v = same_inboxes (ground arith) v
Step-IsCapped (registers_relay url conn) v = v
Step-IsCapped {w} (begins peer via {w' = w'} h) v =
    same_inboxes {a = w.signal_inboxes} {b = w'.signal_inboxes} (ground arith) v
Step-IsCapped {w} (ends peer) v = remove-IsCapped w.signal_inboxes peer v
Step-IsCapped (signals via peer payload) v = v
Step-IsCapped {w} (reads_signal peer) v = pop_signal_inbox-IsCapped w peer v
Step-IsCapped {w} (registers_channel peer wire room) v = same_inboxes (ground arith) v
Step-IsCapped {w} (retires id) v = same_inboxes (ground arith) v
Step-IsCapped {w} (responds addr source payload) v = same_inboxes (ground arith) v
Step-IsCapped {w} (transmits destination datagram {w' = w'} h) v =
    same_inboxes {a = w.signal_inboxes} {b = w'.signal_inboxes} (ground arith) v
Step-IsCapped {w} (hears via source payload) v = handle_signal-IsCapped w via source payload v

Reach-IsCapped :
    {w w' : Wires} → Reach w w' → IsCapped w.signal_inboxes → IsCapped w'.signal_inboxes
Reach-IsCapped here v = v
Reach-IsCapped (next r s) v = Step-IsCapped s (Reach-IsCapped r v)

-- However many signals its peers send, no inbox of an endpoint ever holds more than 64.
pub new_wires-Reach-IsCapped :
    (webrtc_enabled : Bool) (w : Wires)
    → Reach (new_wires webrtc_enabled) w
    → IsCapped w.signal_inboxes
new_wires-Reach-IsCapped webrtc_enabled w r =
    Reach-IsCapped r (unfold new_wires lookup in λ p inbox h. absurd (ground arith))
