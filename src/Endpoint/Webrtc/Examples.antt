-- ===== src/Endpoint/Webrtc/Examples.antt =====
-- The theorems on the dances at concrete inputs.
use component_iroh.Prelude.{
  ℕ, ◌+◌, ◌≡◌, refl, subst, [], ◌∷◌, Option, none, some, Result, ok, true, false, arith, bytes_key,
  lookup, insert, remove, codes, bytes_eq,
}
use component_iroh.Relay.Frames.{Bytes}
use component_iroh.Endpoint.Types.{Error}
use component_iroh.Endpoint.Wires.{
  Peer, Wires, new_wires, begin_signaling, handle_signal, is_closed_or_dead, home_relay,
  end_signaling,
}
use component_iroh.Endpoint.Wires.Routing.{IsRouted, HasRoom, new_wires-IsRouted}
use component_iroh.Endpoint.Wires.Sessions.{hears_elsewhere}
use component_iroh.Endpoint.Wires.Steps.{handle_signal-tables, same_tables}
use component_iroh.Endpoint.Webrtc.{Signal, offer, done, Json}
use component_iroh.Endpoint.Webrtc.Dance.{
  Session, Outcome, finished, suspended, next_signal, resume,
}
use component_iroh.Endpoint.Webrtc.Dialing.{
  PeerConnection, channel_open, dial, upgrade, answer_session, dial_session, exchange, guarded,
  gather, after_read, some_open, await_open,
}
use component_iroh.Endpoint.Webrtc.Dialing
use component_iroh.Endpoint.Webrtc.Holding.{Respects}
use component_iroh.Endpoint.Webrtc.Sessions.{Settled, upgrade-Settled, answer-Settled}
use component_iroh.Endpoint.Webrtc.Deadline.{next_signal-Returns}
use component_iroh.Endpoint.Webrtc.Fallback.{
  FallsBack, IsOwned, upgrade-FallsBack, answer-FallsBack,
}

abbrev seven : Peer
seven = 7 ∷ []

-- A payload of one byte is an offer, a longer one is the end of the signals.
abbrev decode : Bytes → Option Signal
decode [] = none
decode (_ ∷ []) = some (offer (codes "v=0"))
decode (_ ∷ _ ∷ _) = some done

abbrev codec : Json
codec = record { to_writer = λ signal. ok (0 ∷ []); from_slice = decode }

abbrev willing : PeerConnection
willing = record {
  create_data_channel = ok 5;
  create_offer = ok (codes "v=0");
  create_answer = ok (codes "v=0");
  set_local_description = λ sdp. ok tt;
  set_remote_offer = λ sdp. ok tt;
  local_ice_candidates = (true, []) ∷ [];
  answers = λ now call. ok tt;
  wait_connected = ok tt;
  state_changes = (false, channel_open ∷ []) ∷ [];
  incoming_data_channels = 5 ∷ [];
}

-- A second passes; or a payload of the peer arrives through relay 3.
abbrev tick : ℕ × Wires → ℕ × Wires
tick p = (p.0 + 1000000000, p.1)

abbrev hear : Bytes → ℕ × Wires → ℕ × Wires
hear payload p = (p.0 + 1000000000, (handle_signal (p.1) 3 seven payload).0)

abbrev dialing : Session
dialing = record {
  now = 0;
  wires = new_wires true;
  others = tick ∷ tick ∷ tick ∷ hear (2 ∷ 2 ∷ []) ∷ tick ∷ tick ∷ [];
}

abbrev HasRoomAt : Outcome ℕ → Type 0
HasRoomAt (finished t (ok _)) = HasRoom t.wires
HasRoomAt _ = Unit

dialed_room : HasRoomAt (dial codec willing seven 3 dialing)
unfolding dial begin_signaling lookup new_wires resume insert bytes_eq handle_signal end_signaling
    remove
dialed_room = (omega arith, omega arith)

ticks_on : (I : Wires → Type 0) → Respects I tick
ticks_on I p v = v

hear-IsRouted : (payload : Bytes) → Respects IsRouted (hear payload)
hear-IsRouted payload p v = same_tables (handle_signal-tables (p.1) 3 seven payload) v

abbrev claimed : Wires
claimed = record (new_wires true) { signaling = insert seven 3 [] }

is_claimed : begin_signaling (new_wires true) seven 3 ≡ ok claimed
unfolding begin_signaling new_wires lookup
is_claimed = refl

upgrade-Settled_example : Settled seven (upgrade codec willing seven 3 dialing)
upgrade-Settled_example =
    upgrade-Settled codec willing seven 3 dialing claimed is_claimed (new_wires-IsRouted true)
      (
        ticks_on IsRouted,
        (
          ticks_on IsRouted,
          (
            ticks_on IsRouted,
            (hear-IsRouted (2 ∷ 2 ∷ []), (ticks_on IsRouted, (ticks_on IsRouted, tt))),
          ),
        ),
      )
      (λ t wire e. subst HasRoomAt e dialed_room)

abbrev session_of : Outcome ℕ → Session
session_of (finished t r) = t
session_of (suspended w) = dialing

abbrev dialed : Session
dialed = session_of (dial codec willing seven 3 dialing)

is_dialed : dial codec willing seven 3 dialing ≡ finished dialed (ok 5)
unfolding dial begin_signaling lookup new_wires resume insert bytes_eq handle_signal end_signaling
    remove
is_dialed = refl

dialed-IsRouted : IsRouted dialed.wires
unfolding dial begin_signaling lookup new_wires resume insert bytes_eq handle_signal end_signaling
    remove
dialed-IsRouted = new_wires-IsRouted true

dialed_open : is_closed_or_dead dialed.wires ≡ false
unfolding dial begin_signaling lookup new_wires resume insert bytes_eq handle_signal end_signaling
    remove
dialed_open = refl

upgrade-FallsBack_example :
    (t : Session) × (upgrade codec willing seven 3 dialing ≡ finished t (ok tt))
    × FallsBack t.wires seven home_relay
upgrade-FallsBack_example =
    upgrade-FallsBack codec willing seven 3 dialing dialed 5 is_dialed dialed-IsRouted
      (subst HasRoomAt is_dialed dialed_room) dialed_open

-- The offer has come in, and its signal claimed the session.
abbrev answering : Session
answering = record {
  now = 0;
  wires = (handle_signal (new_wires true) 3 seven (1 ∷ [])).0;
  others = tick ∷ tick ∷ tick ∷ tick ∷ hear (2 ∷ 2 ∷ []) ∷ tick ∷ tick ∷ [];
}

answering-IsRouted : IsRouted answering.wires
answering-IsRouted =
    same_tables (handle_signal-tables (new_wires true) 3 seven (1 ∷ [])) (new_wires-IsRouted true)

answered_room : HasRoomAt (answer_session codec willing seven 0 answering)
unfolding answer_session next_signal begin_signaling lookup new_wires resume insert bytes_eq
    handle_signal end_signaling remove
answered_room = (omega arith, omega arith)

answer-Settled_example : Settled seven (Dialing.answer codec willing seven answering)
answer-Settled_example =
    answer-Settled codec willing seven answering answering-IsRouted
      (
        ticks_on IsRouted,
        (
          ticks_on IsRouted,
          (
            ticks_on IsRouted,
            (
              ticks_on IsRouted,
              (hear-IsRouted (2 ∷ 2 ∷ []), (ticks_on IsRouted, (ticks_on IsRouted, tt))),
            ),
          ),
        ),
      )
      (λ t wire e. subst HasRoomAt e answered_room)

abbrev answered : Session
answered = session_of (answer_session codec willing seven 0 answering)

is_answered : answer_session codec willing seven 0 answering ≡ finished answered (ok 5)
unfolding answer_session next_signal begin_signaling lookup new_wires resume insert bytes_eq
    handle_signal end_signaling remove
is_answered = refl

answered_open : is_closed_or_dead answered.wires ≡ false
unfolding answer_session next_signal begin_signaling lookup new_wires resume insert bytes_eq
    handle_signal end_signaling remove
answered_open = refl

abbrev IsOurs : Wires → Type 0
IsOurs = IsOwned codec willing seven 3

hear-IsOurs : (payload : Bytes) → Respects IsOurs (hear payload)
hear-IsOurs payload p (v, slot) =
    (hear-IsRouted payload p v, hears_elsewhere (p.1) seven seven 3 3 payload slot)

answering-IsOurs : IsOurs answering.wires
unfolding handle_signal new_wires lookup insert bytes_eq
answering-IsOurs = (answering-IsRouted, refl)

answer-FallsBack_example :
    (t : Session) × (Dialing.answer codec willing seven answering ≡ finished t (ok tt))
    × FallsBack t.wires seven 3
answer-FallsBack_example =
    answer-FallsBack codec willing seven 3 answering answered 5 answering-IsOurs
      (
        ticks_on IsOurs,
        (
          ticks_on IsOurs,
          (
            ticks_on IsOurs,
            (ticks_on IsOurs, (hear-IsOurs (2 ∷ 2 ∷ []), (ticks_on IsOurs, (ticks_on IsOurs, tt)))),
          ),
        ),
      )
      is_answered (subst HasRoomAt is_answered answered_room) answered_open

abbrev slow : ℕ × Wires → ℕ × Wires
slow p = (p.0 + 20000000000, p.1)

abbrev waiting : Session
waiting = record { now = 0; wires = claimed; others = slow ∷ slow ∷ [] }

next_signal-Returns_example :
    (t : Session) × (r : Result (Option Signal) Error) × (next_signal codec seven 0 waiting
      ≡ finished t r)
next_signal-Returns_example =
    next_signal-Returns codec seven 0 20000000000 waiting
      ((λ p. omega arith), ((λ p. omega arith), tt)) (omega arith)
