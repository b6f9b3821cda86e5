-- ===== src/Endpoint/Webrtc/Dialing.antt =====
-- The offerer's and the answerer's dance (endpoint/src/webrtc.rs): dial, upgrade, answer.
use component_iroh.Prelude.{
  ℕ, Bool, true, false, ◌||◌, List, [], ◌∷◌, ◌++◌, Option, none, some, Result, ok, err, codes, Text,
  if◌then◌else◌,
}
use component_iroh.Endpoint.Types.{Error, connect_failed, other}
use component_iroh.Endpoint.Wires.{Peer, begin_signaling, end_signaling, register_channel}
use component_iroh.Endpoint.Webrtc.{
  Candidate, Signal, offer, done, Json, publish, publish_candidates,
}
use component_iroh.Endpoint.Webrtc
use component_iroh.Endpoint.Webrtc.Dance.{
  Outcome, finished, suspended, Dance, ◌>>=◌, pure, awaited, host_call, async_call, on_wires,
  is_expired, next_signal, consume_signaling, RtcCall,
}

pub data ChannelState : Type 0 where
  channel_connecting channel_open channel_closing channel_closed : ChannelState

-- What the calls of one peer connection give. A read of a stream gives whether it has ended, and a
-- batch. A data channel is its number.
pub record PeerConnection : Type 0 where
  pub create_data_channel : Result ℕ Text
  pub create_offer : Result Text Text
  pub create_answer : Result Text Text
  pub set_local_description : Text → Result (Unit {0}) Text
  pub set_remote_offer : Text → Result (Unit {0}) Text
  pub local_ice_candidates : List (Bool × List Candidate)
  pub answers : ℕ → RtcCall → Result (Unit {0}) Text
  pub wait_connected : Result (Unit {0}) Text
  pub state_changes : List (Bool × List ChannelState)
  pub incoming_data_channels : List ℕ

-- The reads of the candidates, until the stream ends.
unfoldable pub gather : List Candidate → List (Bool × List Candidate) → Dance (List Candidate)
unfolding ◌>>=◌
gather candidates [] s = suspended s.wires
gather candidates ((is_end, batch) ∷ reads) s =
    (awaited >>= (λ _. elim is_end [
      | true ↦ pure (candidates ++ batch)
      | false ↦ gather (candidates ++ batch) reads
    ]))
      s

unfoldable pub some_open : List ChannelState → Bool
some_open [] = false
some_open (channel_open ∷ states) = true
some_open (_ ∷ states) = some_open states

unfoldable pub some_closed : List ChannelState → Bool
some_closed [] = false
some_closed (channel_closed ∷ states) = true
some_closed (_ ∷ states) = some_closed states

-- What one read of the states decides; `none` reads on.
unfoldable pub after_read :
    (expired is_end : Bool) → List ChannelState → Option (Result (Unit {0}) Error)
unfolding some_open some_closed
after_read expired is_end batch =
    if some_open batch
    then some (ok tt)
    else if some_closed batch || is_end
    then some (err (connect_failed (codes "webrtc channel closed before opening")))
    else if expired
    then some (err (connect_failed (codes "webrtc channel open timed out")))
    else none

unfoldable pub await_open : (started : ℕ) → List (Bool × List ChannelState) → Dance (Unit {0})
unfolding ◌>>=◌ after_read
await_open started [] s = suspended s.wires
await_open started ((is_end, batch) ∷ reads) s =
    (awaited >>= (λ _ t. elim (after_read (is_expired started t.now) is_end batch) [
      | some r ↦ finished t r
      | none ↦ await_open started reads t
    ]))
      s

-- The drop of the `SessionGuard`, however the dance ends.
unfoldable pub guarded {ℓ} : {A : Type ℓ} → Peer → Outcome A → Outcome A
guarded peer (finished s r) = finished (record s { wires = end_signaling s.wires peer }) r
guarded peer (suspended w) = suspended w

abbrev pub expect_offer : Option Signal → Result Text Error
expect_offer (some (offer sdp)) = ok sdp
expect_offer _ = err (other (codes "expected an offer"))

abbrev pub first_channel : List ℕ → Result ℕ Error
first_channel [] = err (other (codes "no incoming data channel"))
first_channel (wire ∷ batch) = ok wire

module _ (codec : Json) (conn : PeerConnection) where
  -- From the description on, both dances are the same up to the connection.
  unfoldable pub exchange : Peer → (started : ℕ) → Signal → Dance (Unit {0})
  unfolding ◌>>=◌ publish publish_candidates gather consume_signaling
  exchange peer started description = do
    _ ← on_wires (publish codec peer description)
    candidates ← gather [] conn.local_ice_candidates
    _ ← on_wires (publish_candidates codec peer candidates)
    _ ← on_wires (publish codec peer done)
    _ ← consume_signaling codec conn.answers peer started
    async_call conn.wait_connected

  unfoldable pub dial_session : Peer → (started : ℕ) → Dance ℕ
  unfolding ◌>>=◌ exchange await_open
  dial_session peer started = do
    wire ← host_call conn.create_data_channel
    sdp ← async_call conn.create_offer
    _ ← async_call (conn.set_local_description sdp)
    _ ← exchange peer started (offer sdp)
    _ ← await_open started conn.state_changes
    pure wire

  unfoldable pub dial : Peer → ℕ → Dance ℕ
  unfolding dial_session guarded
  dial peer via s = elim (begin_signaling s.wires peer via) [
    | err e ↦ finished s (err e)
    | ok w ↦ guarded peer (dial_session peer s.now (record s { wires = w }))
  ]

  unfoldable pub upgrade : Peer → ℕ → Dance (Unit {0})
  unfolding dial
  upgrade peer via s = elim (dial peer via s) [
    | suspended w ↦ suspended w
    | finished t (err e) ↦ finished t (ok tt)
    | finished t (ok wire) ↦
        finished (record t { wires = (register_channel t.wires peer wire).0 }) (ok tt)
  ]

  unfoldable pub answer_session : Peer → (started : ℕ) → Dance ℕ
  unfolding ◌>>=◌ exchange next_signal
  answer_session peer started = do
    signal ← next_signal codec peer started
    remote ← on_wires (λ w. (w, expect_offer signal))
    _ ← async_call (conn.set_remote_offer remote)
    sdp ← async_call conn.create_answer
    _ ← async_call (conn.set_local_description sdp)
    _ ← exchange peer started (Webrtc.answer sdp)
    _ ← awaited
    on_wires (λ w. (w, first_channel conn.incoming_data_channels))

  unfoldable pub answer_inner : Peer → (started : ℕ) → Dance (Unit {0})
  unfolding ◌>>=◌ answer_session
  answer_inner peer started = do
    wire ← answer_session peer started
    on_wires (λ w. let r = register_channel w peer wire in (r.0, r.1))

  -- The error of the dance goes nowhere.
  unfoldable pub answer : Peer → Dance (Unit {0})
  unfolding answer_inner guarded
  answer peer s = elim (guarded peer (answer_inner peer s.now s)) [
    | suspended w ↦ suspended w
    | finished t _ ↦ finished t (ok tt)
  ]
