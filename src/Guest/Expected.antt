-- ===== src/Guest/Expected.antt =====
-- Whom a run of the spike's driver has talked to when it reports (guest/src/lib.rs,
-- `Component::run`).
use component_iroh.Prelude.{
  ℕ, ◌≡◌, refl, sym, ◌∙◌, ap, inl, inr, Bool, true, false, not, ◌&&◌, List, [], if◌then◌else◌,
  Option, none, some, Result, ok, err, Option-cases, bytes_key, eq?, codes, Text, is_some, ok_or,
}
use component_iroh.Endpoint.Noq.{Noq}
use component_iroh.Endpoint.Wires.{Peer}
use component_iroh.Guest.{Wire, channel_wire, relay_wire, peer_endpoint_id}
use component_iroh.Guest.Task.{
  Outcome, finished, failed, suspended, out_of_fuel, Task, ◌>>=◌, and_then, of_result,
  of_result-Post, Post, and_then-Post, finished-Post, pure,
}
use component_iroh.Guest.Side.{App, Report, report, Demo}
use component_iroh.Guest.Line.{Pump, Round}
use component_iroh.Guest.Loop
use component_iroh.Guest.Exchange.{Has}
use component_iroh.Guest.Reporting.{run-Reported}
use component_iroh.Guest.Signaling.{Signaling, Codec}
use component_iroh.Guest.Driver.{
  RunConfig, RunReport, World, Closed, apart, either, signaled, run_endpoint, check_peer,
  signaled_peer, parse_peer, run, connect_offerer, connect_answerer, role,
}

-- An identity that the TLS session of a connection has shown.
abbrev IsShown : (N : Noq) → Peer → Type 0
IsShown N peer = (conn : N.Conn) × (peer_endpoint_id N conn ≡ ok peer)

abbrev peer_of : Result Report Text → Option Peer
peer_of (ok r) = some r.peer_id
peer_of (err e) = none

report-peer : (app : App) (r : Report) → report app ≡ ok r → app.peer_id ≡ some r.peer_id
unfolding report
report-peer app r e = elim (Option-cases app.peer_id) [
  | inl q ↦ let h = rw (q, report) at e in cc
  | inr (p, q) ↦ elim (Option-cases app.handshake_ms) [
    | inl k ↦ let h = rw (q, k, report) at e in cc
    | inr (ms, k) ↦ elim (Option-cases app.received) [
      | inl t ↦ let h = rw (q, k, t, report) at e in cc
      | inr (text, t) ↦ let h = rw (q, k, t, report) at e in q ∙ ap peer_of h
    ]
  ]
]

check_peer-eq-ok :
    (expected : Option Peer) (id : Peer) → check_peer expected id ≡ ok tt → expected ≡ some id
unfolding check_peer
check_peer-eq-ok none id = λ e. cc
check_peer-eq-ok (some x) id =
    elim (eq? id x)
      as (λ d.
        (elim d as (λ _. Result (Unit {0}) Text) [
          | yes _ ↦ ok tt
          | no _ ↦ err (codes "authenticated peer key differs from the relay-authenticated one")
        ])
          ≡ ok tt
        → some x ≡ some id) [ yes k ↦ λ _. ap some (sym k) | no n ↦ λ h. cc ]

either-first : (o o' : Option Peer) (p id : Peer) → either o o' ≡ some id → o ≡ some p → p ≡ id
either-first none o' p id e h = cc
either-first (some x) o' p id e h = cc

either-second :
    (o : Option Peer) (w : Option (ℕ × Peer)) (o' : Option Peer) (channel : ℕ) (p id : Peer)
    → either o (either (signaled_peer w) o') ≡ some id
    → o ≡ none
    → w ≡ some (channel, p)
    → p ≡ id
either-second (some x) w o' channel p id e n h = cc
either-second none none o' channel p id e n h = cc
either-second none (some (c, x)) o' channel p id e n h = cc

client_peer :
    (is_client : Bool) (peer_arg : Option Peer) {u : Unit {0}}
    → (if is_client && not (is_some peer_arg)
        then err (codes "the client role requires the server's endpoint id (peer)")
        else ok tt)
      ≡ ok u
    → is_client ≡ true
    → Has peer_arg
client_peer true (some p) e h = refl
client_peer true none e h = cc
client_peer false o e h = cc

module _ {N : Noq} (D : Demo N) (C : Codec) (fuel : ℕ) (config : RunConfig) (X : World N) where
  shown :
      {W : Wire} (peer_arg : Option Peer) (wire : W.State) (rounds : List (Round W))
      (o : Outcome (Pump N W) Report) (c : Closed)
      → Loop.run D C.fault X.setup fuel X.started peer_arg (role D C fuel config X) wire rounds
        ≡ ok o
      → Post (λ (_ : Closed) (r : Pump N W × Report). IsShown N (r.1.peer_id)) (apart o c)
  shown peer_arg wire rounds (finished p r) c e =
      let h =
        run-Reported D C.fault X.setup fuel X.started peer_arg (role D C fuel config X) wire rounds
          p r e in
      h.sound.authentic r.peer_id (report-peer p.app r h.reported)
  shown peer_arg wire rounds (failed p x) c e = tt
  shown peer_arg wire rounds (suspended p) c e = tt
  shown peer_arg wire rounds out_of_fuel c e = tt

  run_endpoint-Shown :
      (peer_arg : Option Peer) (is_channel : Bool) (c : Closed)
      → Post
          (λ (_ : Closed) (r : Report × Option Peer). IsShown N (r.0.peer_id))
          (run_endpoint D C fuel config X peer_arg is_channel c)
  unfolding run_endpoint
  run_endpoint-Shown peer_arg true c =
      of_result-Post (λ (_ : Closed) (r : Report × Option Peer). IsShown N (r.0.peer_id))
        (Loop.run {W = channel_wire} D C.fault X.setup fuel X.started peer_arg
          (role D C fuel config X) tt X.channel_rounds)
        _ c
        (λ o q.
          and_then-Post (λ (_ : Closed) (r : Pump N channel_wire × Report). IsShown N (r.1.peer_id))
            (λ (_ : Closed) (r : Report × Option Peer). IsShown N (r.0.peer_id)) _ _
            (shown peer_arg tt X.channel_rounds o c q) (λ _ _ w. w))
  run_endpoint-Shown peer_arg false c =
      of_result-Post (λ (_ : Closed) (r : Report × Option Peer). IsShown N (r.0.peer_id))
        (Loop.run {W = relay_wire} D C.fault X.setup fuel X.started peer_arg
          (role D C fuel config X) peer_arg X.relay_rounds)
        _ c
        (λ o q.
          and_then-Post (λ (_ : Closed) (r : Pump N relay_wire × Report). IsShown N (r.1.peer_id))
            (λ (_ : Closed) (r : Report × Option Peer). IsShown N (r.0.peer_id)) _ _
            (shown peer_arg peer_arg X.relay_rounds o c q) (λ _ _ w. w))

  -- The signaling of the role.
  abbrev signaling : Option Peer → Outcome Signaling ℕ
  signaling peer_arg =
      (if config.is_client then connect_offerer C X.rtc_peer else connect_answerer C X.rtc_peer)
        (record { peer = peer_arg; arrivals = X.signals; sent = [] })

  -- A channel comes from a signaling that has its peer.
  abbrev HasSignaled : Option Peer → Option (ℕ × Peer) → Type 0
  HasSignaled peer_arg none = config.is_webrtc ≡ false
  HasSignaled peer_arg (some (channel, peer)) =
      (s : Signaling) × (signaling peer_arg ≡ finished s channel) × (s.peer ≡ some peer)

  signaled_as-Post :
      (peer_arg : Option Peer) (c : Closed) (o : Outcome Signaling ℕ)
      → signaling peer_arg ≡ o
      → Post
          (λ (_ : Closed) (w : Option (ℕ × Peer)). HasSignaled peer_arg w)
          (and_then (apart o c) (λ r.
            of_result (ok_or r.0.peer (codes "signaling completed without a peer"))
            >>= (λ peer. pure (some (r.1, peer)))))
  unfolding ◌>>=◌
  signaled_as-Post peer_arg c (finished s channel) e = elim (Option-cases s.peer) [
    | inl q ↦ rw q tt
    | inr (peer, q) ↦ rw q (s, e, q)
  ]
  signaled_as-Post peer_arg c (failed s x) e = tt
  signaled_as-Post peer_arg c (suspended s) e = tt
  signaled_as-Post peer_arg c out_of_fuel e = tt

  signaled_if-Post :
      (peer_arg : Option Peer) (is_webrtc : Bool) (c : Closed)
      → config.is_webrtc ≡ is_webrtc
      → Post
          (λ (_ : Closed) (w : Option (ℕ × Peer)). HasSignaled peer_arg w)
          (elim is_webrtc as (λ _. Task Closed (Option (ℕ × Peer))) [
            | false ↦ pure none
            | true ↦ apart (signaling peer_arg) >>= (λ r.
                of_result (ok_or r.0.peer (codes "signaling completed without a peer"))
                >>= (λ peer. pure (some (r.1, peer))))
          ]
            c)
  unfolding ◌>>=◌
  signaled_if-Post peer_arg false c q = q
  signaled_if-Post peer_arg true c q = signaled_as-Post peer_arg c (signaling peer_arg) refl

  signaled-Post :
      (peer_arg : Option Peer) (c : Closed)
      → Post
          (λ (_ : Closed) (w : Option (ℕ × Peer)). HasSignaled peer_arg w)
          (signaled D C fuel config X peer_arg c)
  unfolding signaled
  signaled-Post peer_arg c = signaled_if-Post peer_arg config.is_webrtc c refl

  -- Whom a run has met.
  pub record HasMet (c : Closed) (r : RunReport) : Type 0 where
    pub peer : Peer
    pub shown : IsShown N peer
    pub reported : r.peer_id ≡ C.hex_encode peer
    pub peer_arg : Option Peer
    pub parsed : parse_peer C config.peer ≡ ok peer_arg
    pub named : (p : Peer) → peer_arg ≡ some p → p ≡ peer
    pub client_named : config.is_client ≡ true → Has peer_arg
    pub webrtc : Option (ℕ × Peer)
    pub signaled : HasSignaled peer_arg webrtc
    pub signaling_peer :
        peer_arg ≡ none → (channel : ℕ) (p : Peer) → webrtc ≡ some (channel, p) → p ≡ peer
    pub is_relay_closed : c.relay_closed ≡ true

  -- A run of the driver that reports has met the peer that it reports: that peer is the TLS identity
  -- of a connection, and the one that the config names, as it must for a client. Without a name it is
  -- the peer of the signaling, if there was signaling. The relay is closed.
  pub run-HasMet :
      (c c' : Closed) (r : RunReport) → run D C fuel config X c ≡ finished c' r → HasMet c' r
  unfolding run
  run-HasMet c c' r e = finished-Post HasMet (run D C fuel config X c) c' r e (
      of_result-Post HasMet X.identity _ c (λ id i.
        of_result-Post HasMet (parse_peer C config.peer) _ c (λ peer_arg parsed.
          of_result-Post HasMet
            (if config.is_client && not (is_some peer_arg)
              then err (codes "the client role requires the server's endpoint id (peer)")
              else ok tt)
            _ c
            (λ _ named. of_result-Post HasMet X.connected _ c (λ _ _.
              and_then-Post (λ (_ : Closed) (w : Option (ℕ × Peer)). HasSignaled peer_arg w) HasMet
                _ _ (signaled-Post peer_arg c)
                (λ d webrtc s.
                  and_then-Post (λ (_ : Closed) (q : Report × Option Peer). IsShown N (q.0.peer_id))
                    HasMet _ _ (run_endpoint-Shown peer_arg (is_some webrtc) d)
                    (λ d' q shown.
                      of_result-Post HasMet
                        (check_peer (either peer_arg (either (signaled_peer webrtc) q.1))
                          q.0.peer_id)
                        _ d'
                        (λ _ agreed.
                          let expected = check_peer-eq-ok _ q.0.peer_id agreed in
                          record {
                            peer = q.0.peer_id;
                            shown = shown;
                            reported = refl;
                            peer_arg = peer_arg;
                            parsed = parsed;
                            named = λ p h.
                                either-first peer_arg (either (signaled_peer webrtc) q.1) p
                                  q.0.peer_id expected h;
                            client_named = λ h. client_peer config.is_client peer_arg named h;
                            webrtc = webrtc;
                            signaled = s;
                            signaling_peer = λ n channel p h.
                                either-second peer_arg webrtc q.1 channel p q.0.peer_id expected n
                                  h;
                            is_relay_closed = refl;
                          }))))))))
