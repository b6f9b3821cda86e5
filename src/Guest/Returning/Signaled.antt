-- ===== src/Guest/Returning/Signaled.antt =====
-- The signaling of the spike ends, or waits for more of it (guest/src/lib.rs, `connect_offerer` and
-- `connect_answerer`).
use component_iroh.Prelude.{
  Bool, Bool-cases, true, false, ◌||◌, ◌++◌, List, [], ◌∷◌, Option-cases, inl, inr, Result,
  Result-cases, ok, err, map_err, Text, length, if◌then◌else◌,
}
use component_iroh.Relay.Frames.{Datagram}
use component_iroh.Endpoint.Webrtc.{
  Signal, Candidate, offer, answer, local_candidate, end_of_candidates, done,
}
use component_iroh.Endpoint.Webrtc.Dialing.{PeerConnection, ChannelState, some_open, some_closed}
use component_iroh.Guest.{take_datagram}
use component_iroh.Guest.Task.{
  Outcome, finished, failed, suspended, out_of_fuel, Task, and_then, of_result,
}
use component_iroh.Guest.Settling.{Settles, at_once, and_then-Settles, result-Settles}
use component_iroh.Guest.Signaling.{Signaling, Codec, payload_json, recv_loop, publish}
use component_iroh.Guest.Driver.{
  rtc, publish_all, publish_candidates, consume_signaling, await_open, trickle, connect_offerer,
  expect_offer, connect_answerer,
}
use component_iroh.Guest.Consuming.{Ends, consume_signaling-Ends}

-- Ends, or waits.
abbrev Waits : {A : Type 0} → Outcome Signaling A → Type 0
Waits {A} o = Settles true (λ (_ : Signaling) (_ : A). Unit {0}) (λ k. o)

module _ (C : Codec) where
  on :
      {A B : Type 0} (m : Outcome Signaling A) (f : A → Task Signaling B)
      → Waits m
      → ((s : Signaling) (a : A) → Waits (f a s))
      → Waits (and_then m f)
  on m f k g = and_then-Settles _ _ (λ _. m) (λ _. f) k (λ s a _. g s a)

  checked : {A : Type 0} (r : Result A Text) (s : Signaling) → Waits (of_result r s)
  checked r s = result-Settles _ r s (λ _. tt)

  ended : {A : Type 0} (o : Outcome Signaling A) → Ends o → Waits o
  ended (finished s a) h = at_once _ _ tt
  ended (failed s e) h = at_once _ _ tt
  ended (suspended s) h = at_once _ _ tt
  ended out_of_fuel h = absurd h

  recv_loop-Waits :
      (arrivals : List (Result Datagram Text)) (s : Signaling) → Waits (recv_loop C arrivals s)
  unfolding recv_loop
  recv_loop-Waits [] s = at_once _ _ tt
  recv_loop-Waits (err e ∷ arrivals) s = at_once _ _ tt
  recv_loop-Waits (ok d ∷ arrivals) s =
      elim (Option-cases (payload_json (take_datagram s.peer d).1)) [
        | inl q ↦ rw (q, recv_loop) (recv_loop-Waits arrivals _)
        | inr (json, q) ↦ elim (Option-cases (C.json.from_slice json)) [
          | inl k ↦ rw (q, k, recv_loop) (at_once _ _ tt)
          | inr (x, k) ↦ rw (q, k, recv_loop) (at_once _ _ tt)
        ]
      ]

  publish-Waits : (x : Signal) (s : Signaling) → Waits (publish C x s)
  unfolding publish
  publish-Waits x s = elim (Option-cases s.peer) [
    | inl q ↦ rw (q, publish) (at_once _ _ tt)
    | inr (peer, q) ↦ elim (Result-cases (C.json.to_writer x)) [
      | inr (e, r) ↦ rw (q, r, publish) (at_once _ _ tt)
      | inl (json, r) ↦ elim (Option-cases (C.fault (length s.sent))) [
        | inr (e, f) ↦ rw (q, r, f, publish) (at_once _ _ tt)
        | inl f ↦ rw (q, r, f, publish) (at_once _ _ tt)
      ]
    ]
  ]

  publish_all-Waits :
      (candidates : List Candidate) (s : Signaling) → Waits (publish_all C candidates s)
  unfolding publish_all
  publish_all-Waits [] s = publish-Waits end_of_candidates s
  publish_all-Waits (c ∷ candidates) s =
      on (publish C (local_candidate c) s) _ (publish-Waits (local_candidate c) s)
        (λ s1 _. publish_all-Waits candidates s1)

  publish_candidates-Waits :
      (candidates : List Candidate) (reads : List (Bool × List Candidate)) (s : Signaling)
      → Waits (publish_candidates C candidates reads s)
  unfolding publish_candidates
  publish_candidates-Waits candidates [] s = at_once _ _ tt
  publish_candidates-Waits candidates ((true, batch) ∷ reads) s = publish_all-Waits _ s
  publish_candidates-Waits candidates ((false, batch) ∷ reads) s =
      publish_candidates-Waits (candidates ++ batch) reads s

  module _ (conn : PeerConnection) where
    await_open-Waits :
        (reads : List (Bool × List ChannelState)) (s : Signaling)
        → Waits (await_open C conn reads s)
    unfolding await_open
    await_open-Waits [] s = at_once _ _ tt
    await_open-Waits ((is_end, batch) ∷ reads) s = elim (Bool-cases (some_open batch)) [
      | inl q ↦ rw (q, await_open) (at_once _ _ tt)
      | inr q ↦ elim (Bool-cases (some_closed batch || is_end)) [
        | inl r ↦ rw (q, r, await_open) (at_once _ _ tt)
        | inr r ↦ rw (q, r, await_open) (await_open-Waits reads s)
      ]
    ]

    trickle-Waits : (description : Signal) (s : Signaling) → Waits (trickle C conn description s)
    unfolding trickle
    trickle-Waits description s = on _ _ (publish-Waits description s) (λ s1 _.
        on _ _ (publish_candidates-Waits [] conn.local_ice_candidates s1) (λ s2 _.
          on _ _ (publish-Waits done s2) (λ s3 _.
            on _ _ (ended (consume_signaling C conn s3) (consume_signaling-Ends C conn s3))
              (λ s4 _. checked _ s4))))

    connect_offerer-Waits : (s : Signaling) → Waits (connect_offerer C conn s)
    unfolding connect_offerer
    connect_offerer-Waits s =
        on _ _ (checked (map_err rtc conn.create_data_channel) s) (λ s1 channel.
          on _ _ (checked (map_err rtc conn.create_offer) s1) (λ s2 sdp.
            on _ _ (checked (map_err rtc (conn.set_local_description sdp)) s2) (λ s3 _.
              on _ _ (trickle-Waits (offer sdp) s3) (λ s4 _.
                on _ _ (await_open-Waits conn.state_changes s4) (λ s5 _. at_once _ _ tt)))))

    connect_answerer-Waits : (s : Signaling) → Waits (connect_answerer C conn s)
    unfolding connect_answerer
    connect_answerer-Waits s = on _ _ (recv_loop-Waits s.arrivals s) (λ s1 signal.
        on _ _ (checked (expect_offer C conn signal) s1) (λ s2 remote.
          on _ _ (checked (map_err rtc (conn.set_remote_offer remote)) s2) (λ s3 _.
            on _ _ (checked (map_err rtc conn.create_answer) s3) (λ s4 sdp.
              on _ _ (checked (map_err rtc (conn.set_local_description sdp)) s4)
                (λ s5 _. on _ _ (trickle-Waits (answer sdp) s5) (λ s6 _. checked _ s6))))))

    pub dance-Waits :
        (is_client : Bool) (s : Signaling)
        → Waits ((if is_client then connect_offerer C conn else connect_answerer C conn) s)
    dance-Waits true s = connect_offerer-Waits s
    dance-Waits false s = connect_answerer-Waits s
