-- ===== src/Guest/Returning/Meeting.antt =====
-- A run of the spike's driver ends, or waits (guest/src/lib.rs, `Component::run`), if its connection
-- runs out.
use component_iroh.Prelude.{
  ℕ, ◌≡◌, ◌+◌, Bool, Bool-cases, true, false, inl, inr, ◌&&◌, not, is_some, Option, [], Result,
  Result-cases, ok, err, ok_or, Text, codes, arith, if◌then◌else◌,
}
use component_iroh.Endpoint.Noq.{Noq}
use component_iroh.Endpoint.Wires.{Peer}
use component_iroh.Guest.{channel_wire, relay_wire}
use component_iroh.Guest.Task.{
  Outcome, finished, failed, suspended, out_of_fuel, Task, and_then, of_result,
}
use component_iroh.Guest.Settling.{
  IsFueled, IsFueled-finished, Settles, at_once, through, and_then-Settles, result-Settles,
}
use component_iroh.Guest.Side.{Demo}
use component_iroh.Guest.Loop
use component_iroh.Guest.Loop.{set_up, new_pump}
use component_iroh.Guest.Signaling.{Codec}
use component_iroh.Guest.Driver.{
  World, Closed, RunConfig, apart, either, check_peer, signaled_peer, role, signaled, run_endpoint,
  run, parse_peer,
}
use component_iroh.Guest.Ebbing.{Ebbs}
use component_iroh.Guest.Expected.{HasMet, run-HasMet}
use component_iroh.Guest.Returning.Signaled.{dance-Waits}
use component_iroh.Guest.Returning.Loop.{torn_loop-Settles}

-- Ends or waits, with fuel enough.
abbrev Waits : {A : Type 0} → (ℕ → Outcome Closed A) → Type 0
Waits {A} run = Settles true (λ (_ : Closed) (_ : A). Unit {0}) run

on :
    {A B : Type 0} (m : ℕ → Outcome Closed A) (f : ℕ → A → Task Closed B)
    → Waits m
    → ((c : Closed) (a : A) → Waits (λ k. f k a c))
    → Waits (λ k. and_then (m k) (f k))
on m f k g = and_then-Settles _ _ m f k (λ c a _. g c a)

checked : {A : Type 0} (r : Result A Text) (c : Closed) → Waits (λ k. of_result r c)
checked r c = result-Settles _ r c (λ _. tt)

apart-Waits :
    {S A : Type 0} (m : ℕ → Outcome S A) (c : Closed)
    → Settles true (λ (_ : S) (_ : A). Unit {0}) m
    → Waits (λ k. apart (m k) c)
apart-Waits {S} {A} m c k = through _ _ (λ o. apart o c) m k (λ o h. kept o h)
  where
    kept :
        (o : Outcome S A)
        → IsFueled true (λ _ _. Unit {0}) o
        → IsFueled true (λ _ _. Unit {0}) (apart o c)
    kept (finished s a) h = tt
    kept (failed s e) h = tt
    kept (suspended s) h = tt
    kept out_of_fuel h = h

module _ {N : Noq} {D : Demo N} (E : Ebbs D) (C : Codec) (config : RunConfig) (X : World N) where
  signaled-Waits :
      (peer_arg : Option Peer) (c : Closed) → Waits (λ k. signaled D C k config X peer_arg c)
  unfolding signaled
  signaled-Waits peer_arg c = elim (Bool-cases config.is_webrtc) [
    | inr q ↦ rw (q, signaled) (at_once _ _ tt)
    | inl q ↦
        rw (q, signaled)
          (on _ _
            (apart-Waits _ c (
              dance-Waits C X.rtc_peer config.is_client
                (record { peer = peer_arg; arrivals = X.signals; sent = [] })))
            (λ c1 r.
              on _ _ (checked (ok_or r.0.peer (codes "signaling completed without a peer")) c1)
                (λ c2 peer. at_once _ _ tt)))
  ]

  run_endpoint-Waits :
      (peer_arg : Option Peer) (is_channel : Bool) (c : Closed)
      → Waits (λ k. run_endpoint D C k config X peer_arg is_channel c)
  unfolding run_endpoint
  run_endpoint-Waits peer_arg is_channel c =
      elim (Result-cases (set_up N X.setup X.started peer_arg (role D C 0 config X))) [
        | inr (e, q) ↦ refused is_channel e q
        | inl (made, q) ↦ started is_channel made q
      ]
    where
      refused :
          (b : Bool) (e : Text)
          → set_up N X.setup X.started peer_arg (role D C 0 config X) ≡ err e
          → Waits (λ k. run_endpoint D C k config X peer_arg b c)
      refused true e q = rw (q, run_endpoint, Loop.run) (at_once _ _ tt)
      refused false e q = rw (q, run_endpoint, Loop.run) (at_once _ _ tt)

      started :
          (b : Bool) (made : N.Endpoint × Option (ℕ × N.Conn))
          → set_up N X.setup X.started peer_arg (role D C 0 config X) ≡ ok made
          → Waits (λ k. run_endpoint D C k config X peer_arg b c)
      started true made q =
          rw (q, run_endpoint, Loop.run)
            (on _ _
              (apart-Waits _ c (
                torn_loop-Settles {W = channel_wire} E C.fault X.started X.started X.channel_rounds
                  (new_pump D C.fault (made.0) (made.1) (role D C 0 config X) tt X.channel_rounds)))
              (λ c1 r. at_once _ _ tt))
      started false made q =
          rw (q, run_endpoint, Loop.run)
            (on _ _
              (apart-Waits _ c (
                torn_loop-Settles {W = relay_wire} E C.fault X.started X.started X.relay_rounds (
                  new_pump D C.fault (made.0) (made.1) (role D C 0 config X) peer_arg
                    X.relay_rounds)))
              (λ c1 r. at_once _ _ tt))

  run-Waits : (c : Closed) → Waits (λ k. run D C k config X c)
  unfolding run
  run-Waits c = on _ _ (checked X.identity c) (λ c1 id.
      on _ _ (checked (parse_peer C config.peer) c1) (λ c2 peer_arg.
        on _ _
          (checked
            (if config.is_client && not (is_some peer_arg)
              then err (codes "the client role requires the server's endpoint id (peer)")
              else ok tt)
            c2)
          (λ c3 _. on _ _ (checked X.connected c3) (λ c4 _.
            on _ _ (signaled-Waits peer_arg c4) (λ c5 webrtc.
              on _ _ (run_endpoint-Waits peer_arg (is_some webrtc) c5) (λ c6 o.
                on _ _
                  (checked
                    (check_peer (either peer_arg (either (signaled_peer webrtc) o.1)) o.0.peer_id)
                    c6)
                  (λ c7 _. at_once _ _ tt)))))))

  -- If the polls, reads and transmits of a connection use up what is to come in and to go out of
  -- it, and its other calls bring nothing in, a run of the driver ends, with any fuel from some on,
  -- or it waits for more than its world brings. If it reports, it has met the peer that it reports:
  -- that peer is the TLS identity of a connection, and the one that the config names, as it must
  -- for a client. Without a name it is the peer of the signaling, if there was signaling. The relay
  -- is closed.
  pub run-Meets :
      (c : Closed)
      → (enough : ℕ) × ((more : ℕ)
          → IsFueled true
              (HasMet D C (enough + more) config X)
              (run D C (enough + more) config X c))
  run-Meets c =
      let k = run-Waits c in
      (
        k.fuel,
        λ more.
            IsFueled-finished true (λ _ _. Unit {0}) (HasMet D C (k.fuel + more) config X)
              (run D C (k.fuel + more) config X c)
              (rw (k.settled (k.fuel + more) (omega arith)) k.fueled)
              (λ c' r e. run-HasMet D C (k.fuel + more) config X c c' r e),
      )
