-- ===== src/Endpoint/Webrtc/Danced.antt =====
-- What the dances of endpoint/src/webrtc.rs keep, when the others' turns keep it.
use component_iroh.Prelude.{
  ℕ, Bool, true, false, List, [], ◌∷◌, ◌++◌, Option-cases, inl, inr, bytes_key,
}
use component_iroh.Endpoint.Wires.{Peer, Wires}
use component_iroh.Endpoint.Webrtc.{
  Candidate, Signal, offer, answer, done, Json, publish, publish_candidates,
}
use component_iroh.Endpoint.Webrtc.Dance.{is_expired}
use component_iroh.Endpoint.Webrtc.Dialing.{
  PeerConnection, ChannelState, gather, await_open, exchange, dial_session, answer_session,
  after_read, expect_offer, first_channel,
}
use component_iroh.Endpoint.Webrtc.Holding.{
  IsSignalProof, Holds, >>=-Holds, awaited-Holds, host_call-Holds, async_call-Holds, on_wires-Holds,
  pure-Holds,
}
use component_iroh.Endpoint.Webrtc.Keeping.{
  publish-keeps, publish_candidates-keeps, next_signal-Holds, consume_signaling-Holds,
}

module _ (I : Wires → Type 0) (C : IsSignalProof I) (codec : Json) where
  gather-Holds :
      (candidates : List Candidate) (reads : List (Bool × List Candidate))
      → Holds I (gather candidates reads)
  unfolding gather
  gather-Holds candidates [] = record { holds = λ s k. k.0 }
  gather-Holds candidates ((true, batch) ∷ reads) =
      >>=-Holds I _ _ (awaited-Holds I) (λ _. pure-Holds I (candidates ++ batch))
  gather-Holds candidates ((false, batch) ∷ reads) =
      >>=-Holds I _ _ (awaited-Holds I) (λ _. gather-Holds (candidates ++ batch) reads)

  await_open-Holds :
      (started : ℕ) (reads : List (Bool × List ChannelState)) → Holds I (await_open started reads)
  unfolding await_open
  await_open-Holds started [] = record { holds = λ s k. k.0 }
  await_open-Holds started ((is_end, batch) ∷ reads) = >>=-Holds I _ _ (awaited-Holds I) (λ _.
      record {
        holds = λ t k. elim (Option-cases (after_read (is_expired started t.now) is_end batch)) [
          | inl e ↦ rw e ((await_open-Holds started reads).holds t k)
          | inr (r, e) ↦ rw e k
        ];
      })

  module _ (conn : PeerConnection) where
    exchange-Holds :
        (peer : Peer) (started : ℕ) (description : Signal)
        → Holds I (exchange codec conn peer started description)
    unfolding exchange
    exchange-Holds peer started description =
        >>=-Holds I _ _
          (on_wires-Holds I (publish codec peer description)
            (publish-keeps I C codec peer description))
          (λ _. >>=-Holds I _ _ (gather-Holds [] conn.local_ice_candidates) (λ candidates.
            >>=-Holds I _ _
              (on_wires-Holds I (publish_candidates codec peer candidates)
                (publish_candidates-keeps I C codec peer candidates))
              (λ _.
                >>=-Holds I _ _
                  (on_wires-Holds I (publish codec peer done) (publish-keeps I C codec peer done))
                  (λ _.
                    >>=-Holds I _ _ (consume_signaling-Holds I C codec conn.answers peer started)
                      (λ _. async_call-Holds I conn.wait_connected)))))

    pub dial_session-Holds :
        (peer : Peer) (started : ℕ) → Holds I (dial_session codec conn peer started)
    unfolding dial_session
    dial_session-Holds peer started =
        >>=-Holds I _ _ (host_call-Holds I conn.create_data_channel) (λ wire.
          >>=-Holds I _ _ (async_call-Holds I conn.create_offer) (λ sdp.
            >>=-Holds I _ _ (async_call-Holds I (conn.set_local_description sdp)) (λ _.
              >>=-Holds I _ _ (exchange-Holds peer started (offer sdp)) (λ _.
                >>=-Holds I _ _ (await_open-Holds started conn.state_changes)
                  (λ _. pure-Holds I wire)))))

    pub answer_session-Holds :
        (peer : Peer) (started : ℕ) → Holds I (answer_session codec conn peer started)
    unfolding answer_session
    answer_session-Holds peer started =
        >>=-Holds I _ _ (next_signal-Holds I C codec peer started) (λ signal.
          >>=-Holds I _ _ (on_wires-Holds I (λ w. (w, expect_offer signal)) (λ w v. v)) (λ remote.
            >>=-Holds I _ _ (async_call-Holds I (conn.set_remote_offer remote)) (λ _.
              >>=-Holds I _ _ (async_call-Holds I conn.create_answer) (λ sdp.
                >>=-Holds I _ _ (async_call-Holds I (conn.set_local_description sdp)) (λ _.
                  >>=-Holds I _ _ (exchange-Holds peer started (answer sdp)) (λ _.
                    >>=-Holds I _ _ (awaited-Holds I) (λ _.
                      on_wires-Holds I (λ w. (w, first_channel conn.incoming_data_channels))
                        (λ w v. v))))))))
