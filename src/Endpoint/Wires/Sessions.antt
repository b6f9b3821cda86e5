-- ===== src/Endpoint/Wires/Sessions.antt =====
-- One signaling session for each peer at a time.
use component_iroh.Prelude.{
  ℕ, ◌≡◌, refl, true, false, List, none, some, ok, err, bytes_key, nat_key, lookup, insert,
  lookup-insert, lookup-remove, lookup-insert_self, arith, codes,
}
use component_iroh.Relay.Frames.{Bytes}
use component_iroh.Endpoint.Types.{addr_key, connect_failed}
use component_iroh.Endpoint.Wires.{
  Peer, Wires, begin_signaling, end_signaling, pop_signal_inbox, handle_signal, addr_for_peer,
  fresh_addr, register_relay, push_signal_outbound, register_channel, retire_channel, push_response,
  push_transmit, signaling_relay,
}
use component_iroh.Endpoint.Wires.Steps.{
  Step, addresses, registers_relay, begins, ends, signals, reads_signal, registers_channel, retires,
  responds, transmits, hears,
}

abbrev pub EndsSession : Peer → {w w' : Wires} → Step w w' → Type 0
EndsSession peer (ends p) = p ≡ peer
EndsSession peer _ = ⊥

-- A history in which the session of `peer` is not ended.
pub data Ongoing (peer : Peer) (w : Wires) : Wires → Type 0 where
  here : Ongoing peer w w
  next : {u t : Wires} → Ongoing peer w u → (s : Step u t) → ¬ EndsSession peer s → Ongoing peer w t

-- An active session refuses another offerer, spawns no answerer, and keeps its relay.
pub record IsBusy (w : Wires) (peer : Peer) (via : ℕ) : Type 0 where
  pub relay_kept : signaling_relay w peer ≡ some via
  pub no_offerer :
      (other : ℕ)
      → begin_signaling w peer other
        ≡ err (connect_failed (codes "a webrtc signaling session with this peer is already active"))
  pub no_answerer : (other : ℕ) (payload : Bytes) → (handle_signal w other peer payload).1 ≡ false

active-IsBusy :
    (w : Wires) (peer : Peer) (via : ℕ) → lookup peer w.signaling ≡ some via → IsBusy w peer via
unfolding signaling_relay begin_signaling handle_signal
active-IsBusy w peer via h = record {
  relay_kept = h;
  no_offerer = λ other. rw (h, begin_signaling) refl;
  no_answerer = λ other payload. ground arith;
}

same_session :
    (peer : Peer) {via : ℕ} (a b : List (Peer × ℕ))
    → b ≡ a
    → lookup peer a ≡ some via
    → lookup peer b ≡ some via
same_session peer a b e h = rw e h

begin_signaling-signaling :
    (w w' : Wires) (p : Peer) (other : ℕ)
    → begin_signaling w p other ≡ ok w'
    → (lookup p w.signaling ≡ none) × (w'.signaling ≡ insert p other w.signaling)
unfolding begin_signaling
begin_signaling-signaling w w' p other h = ground arith

begins_elsewhere :
    (w w' : Wires) (p peer : Peer) (other via : ℕ)
    → begin_signaling w p other ≡ ok w'
    → lookup peer w.signaling ≡ some via
    → lookup peer w'.signaling ≡ some via
begins_elsewhere w w' p peer other via h active =
    let (free, grown) = begin_signaling-signaling w w' p other h in
    rw grown (ground (arith, lookup-insert p peer other w.signaling))

pub hears_elsewhere :
    (w : Wires) (source peer : Peer) (other via : ℕ) (payload : Bytes)
    → lookup peer w.signaling ≡ some via
    → lookup peer (handle_signal w other source payload).0.signaling ≡ some via
unfolding handle_signal
hears_elsewhere w source peer other via payload active =
    ground (arith, lookup-insert source peer other w.signaling)

Step-active :
    {w w' : Wires} (peer : Peer) (via : ℕ) (s : Step w w')
    → ¬ EndsSession peer s
    → lookup peer w.signaling ≡ some via
    → lookup peer w'.signaling ≡ some via
unfolding register_relay end_signaling push_signal_outbound push_response push_transmit
    retire_channel register_channel addr_for_peer fresh_addr pop_signal_inbox
Step-active {w} peer via (addresses p other room) keep h =
    same_session peer w.signaling _ (ground arith) h
Step-active peer via (registers_relay url conn) keep h = h
Step-active {w} peer via (begins p other {w' = w'} e) keep h =
    begins_elsewhere w w' p peer other via e h
Step-active {w} peer via (ends p) keep h = ground (arith, lookup-remove p peer w.signaling)
Step-active peer via (signals other p payload) keep h = h
Step-active {w} peer via (reads_signal p) keep h = same_session peer w.signaling _ (ground arith) h
Step-active {w} peer via (registers_channel p wire room) keep h =
    same_session peer w.signaling _ (ground arith) h
Step-active {w} peer via (retires id) keep h = same_session peer w.signaling _ (ground arith) h
Step-active {w} peer via (responds addr source payload) keep h =
    same_session peer w.signaling _ (ground arith) h
Step-active {w} peer via (transmits destination datagram {w' = w'} e) keep h =
    same_session peer w.signaling w'.signaling (ground arith) h
Step-active {w} peer via (hears other source payload) keep h =
    hears_elsewhere w source peer other via payload h

Ongoing-active :
    (peer : Peer) (via : ℕ) {w w' : Wires}
    → Ongoing peer w w'
    → lookup peer w.signaling ≡ some via
    → lookup peer w'.signaling ≡ some via
Ongoing-active peer via here h = h
Ongoing-active peer via (next r s keep) h =
    Step-active peer via s keep (Ongoing-active peer via r h)

-- From the moment an offerer has claimed a peer's slot, and until the session ends, no second
-- session with that peer can begin, by dialing or by an inbound signal, and the session's relay
-- stays.
pub begin_signaling_exclusive :
    (w claimed w' : Wires) (peer : Peer) (via : ℕ)
    → begin_signaling w peer via ≡ ok claimed
    → Ongoing peer claimed w'
    → IsBusy w' peer via
begin_signaling_exclusive w claimed w' peer via e r =
    let (free, grown) = begin_signaling-signaling w claimed peer via e in
    active-IsBusy w' peer via
      (Ongoing-active peer via r (rw grown (lookup-insert_self peer via w.signaling)))

answerer_claims :
    (w : Wires) (source : Peer) (via : ℕ) (payload : Bytes)
    → (handle_signal w via source payload).1 ≡ true
    → lookup source (handle_signal w via source payload).0.signaling ≡ some via
unfolding handle_signal
answerer_claims w source via payload h = ground (arith, lookup-insert source source via w.signaling)

-- So too from the inbound signal that spawned an answerer, whose session speaks through the relay
-- that the signal arrived on.
pub handle_signal_exclusive :
    (w w' : Wires) (source : Peer) (via : ℕ) (payload : Bytes)
    → (handle_signal w via source payload).1 ≡ true
    → Ongoing source (handle_signal w via source payload).0 w'
    → IsBusy w' source via
handle_signal_exclusive w w' source via payload h r =
    active-IsBusy w' source via
      (Ongoing-active source via r (answerer_claims w source via payload h))
