-- ===== src/Demo/Echoed.antt =====
-- What a client of the endpoint demo has seen when it reports (endpoint-demo/src/lib.rs).
use component_iroh.Prelude.{
  ℕ, ◌≡◌, refl, ap, Bool, true, false, ◌++◌, Option, none, some, Result, ok, err, replicate,
  bytes_key, eq?, Text, codes, length, if◌then◌else◌, ok_or, zero, suc,
}
use component_iroh.Relay.Frames.{Bytes}
use component_iroh.Guest.Task.{
  finished, Task, ◌>>=◌, pure, of_result, Post, and_then-Post, any-Post, last-Post, finished-Post,
}
use component_iroh.Demo.{
  RunConfig, RunReport, Host, payload_of, call, mismatch_text, send_copies, datagram_copies,
  same_datagram, within_max, run_client_datagram, client_datagram, shown_echo,
}
use component_iroh.Demo.Roles.{run_client, run, demo_identity, adopted, run_server}
use component_iroh.Demo.Streaming.{
  Dials, Upgraded, Streams, Echoes, call-Post, dial_peer-Dials, upgraded-Upgraded,
  client_stream-Echoes,
}

length-replicate {ℓ} : {A : Type ℓ} (n : ℕ) (a : A) → length (replicate n a) ≡ n
length-replicate zero a = refl
length-replicate (suc n) a = ap suc (length-replicate n a)

module _ (H : Host) where
  -- The datagram that came back over the connection, and what is shown of it.
  abbrev pub DatagramEchoed : RunConfig → ℕ → Option Text → Type 0
  DatagramEchoed config conn shown =
      (config.datagram ≡ true
        → (before : H.State) × (after : H.State) × (H.recv_datagram conn before
            ≡ (after, ok (codes "datagram " ++ config.message)))
          × (shown ≡ some (H.from_utf8_lossy (codes "datagram " ++ config.message))))
      × (config.datagram ≡ false → shown ≡ none)

  -- The report of a client: the peer of its config was dialed, and what it shows as the echo is what
  -- it read, to the end, from a stream of that connection which it had opened, written with its
  -- payload and finished; it is as long as the payload.
  pub record HasEchoed (config : RunConfig) (r : RunReport) : Type 0 where
    pub conn : ℕ
    pub dials : Dials H config conn
    pub before : H.State
    pub after : H.State
    pub upgraded : Upgraded H config conn before
    pub stream : Bytes
    pub streams : Streams H config conn before after stream
    pub sized : length stream ≡ length (payload_of config)
    pub shown : r.received ≡ shown_echo H config stream
    pub counted :
        (n : ℕ) → config.payload_bytes ≡ some n → r.received ≡ H.decimal n ++ codes " bytes"
    pub datagram : DatagramEchoed config conn r.datagram

  same_datagram-eq-ok :
      (payload echoed : Bytes) (text : Text)
      → same_datagram H payload echoed ≡ ok text
      → (echoed ≡ payload) × (text ≡ H.from_utf8_lossy payload)
  unfolding same_datagram
  same_datagram-eq-ok payload echoed text =
      elim (eq? echoed payload)
        as (λ d.
          (elim d as (λ _. Result Text Text) [
            | yes _ ↦ ok (H.from_utf8_lossy echoed)
            | no _ ↦ err (mismatch_text H payload echoed)
          ])
            ≡ ok text
          → (echoed ≡ payload) × (text ≡ H.from_utf8_lossy payload)) [
            | yes k ↦ λ h. (k, cc)
            | no n ↦ λ h. absurd (cc)
          ]

  -- The datagram that was received, and its text.
  abbrev Answered : RunConfig → ℕ → Text → Type 0
  Answered config conn text =
      (before : H.State) × (after : H.State) × (H.recv_datagram conn before
        ≡ (after, ok (codes "datagram " ++ config.message)))
      × (some text ≡ some (H.from_utf8_lossy (codes "datagram " ++ config.message)))

  run_client_datagram-Post :
      (config : RunConfig) (conn : ℕ) (s : H.State)
      → Post
          (λ (_ : H.State) (text : Text). Answered config conn text)
          (run_client_datagram H conn config.message s)
  unfolding run_client_datagram
  run_client_datagram-Post config conn s =
      any-Post Echo
        (of_result (ok_or (H.max_datagram_size conn s) (codes "peer does not accept datagrams")) s)
        _
        (λ s1 max.
          any-Post Echo (of_result (within_max H (codes "datagram " ++ config.message) max) s1) _
            (λ s2 _.
              any-Post Echo
                (send_copies H datagram_copies conn (codes "datagram " ++ config.message) s2) _
                (λ s3 _.
                  call-Post H Echo (codes "recv-datagram") (H.recv_datagram conn) s3 _
                    (λ echoed received.
                      last-Post Echo (same_datagram H (codes "datagram " ++ config.message) echoed)
                        _
                        (λ text e.
                          let (same, shown) =
                            same_datagram-eq-ok (codes "datagram " ++ config.message) echoed text
                              e in
                          (s3, _, rw same at received, ap some shown))))))
    where
      Echo : H.State → Text → Type 0
      Echo _ text = Answered config conn text

  datagram_if-Post :
      (config : RunConfig) (on : Bool) (conn : ℕ) (s : H.State)
      → config.datagram ≡ on
      → Post
          (λ (_ : H.State) (shown : Option Text). DatagramEchoed config conn shown)
          (elim on as (λ _. Task H.State (Option Text)) [
            | false ↦ pure none
            | true ↦ run_client_datagram H conn config.message >>= λ text. pure (some text)
          ]
            s)
  unfolding ◌>>=◌
  datagram_if-Post config false conn s e = (λ h. absurd (cc), λ _. refl)
  datagram_if-Post config true conn s e =
      and_then-Post (λ (_ : H.State) (text : Text). Answered config conn text)
        (λ (_ : H.State) (shown : Option Text). DatagramEchoed config conn shown) _ _
        (run_client_datagram-Post config conn s) (λ _ text q. (λ _. q, λ h. cc))

  client_datagram-Post :
      (config : RunConfig) (conn : ℕ) (s : H.State)
      → Post
          (λ (_ : H.State) (shown : Option Text). DatagramEchoed config conn shown)
          (client_datagram H config conn s)
  unfolding client_datagram
  client_datagram-Post config conn s = datagram_if-Post config config.datagram conn s refl

  shown_echo-counted :
      (config : RunConfig) (echoed : Bytes) (n : ℕ)
      → length echoed ≡ length (payload_of config)
      → config.payload_bytes ≡ some n
      → shown_echo H config echoed ≡ H.decimal n ++ codes " bytes"
  unfolding shown_echo
  shown_echo-counted config echoed n e q =
      let h = rw (q, payload_of) at e in rw (q, shown_echo, h, length-replicate {A = ℕ} n 0) refl

  run_client-Post :
      (fuel : ℕ) (config : RunConfig) (s : H.State)
      → Post (λ (_ : H.State) (r : RunReport). HasEchoed config r) (run_client H fuel config s)
  unfolding run_client
  run_client-Post fuel config s =
      and_then-Post (λ (_ : H.State) (dialed : ℕ × ℕ). Dials H config (dialed.0)) Seen _ _
        (dial_peer-Dials H config s)
        (λ s1 dialed dials.
          and_then-Post (λ t (_ : Unit {0}). Upgraded H config (dialed.0) t) Seen _ _
            (upgraded-Upgraded H config (dialed.0) s1)
            (λ s2 _ on_path.
              and_then-Post (Echoes H config (dialed.0) s2) Seen _ _
                (client_stream-Echoes H fuel config (dialed.0) s2)
                (λ s3 echo (streams, sized).
                  and_then-Post
                    (λ (_ : H.State) (shown : Option Text). DatagramEchoed config (dialed.0) shown)
                    Seen _ _ (client_datagram-Post config (dialed.0) s3)
                    (λ s4 shown d. record {
                      conn = dialed.0;
                      dials = dials;
                      before = s2;
                      after = s3;
                      upgraded = on_path;
                      stream = echo.0;
                      streams = streams;
                      sized = sized;
                      shown = refl;
                      counted = λ n q. shown_echo-counted config (echo.0) n sized q;
                      datagram = d;
                    }))))
    where
      Seen : H.State → RunReport → Type 0
      Seen _ r = HasEchoed config r

  by_role-Post :
      (fuel : ℕ) (config : RunConfig) (is_client : Bool) (s : H.State)
      → is_client ≡ true
      → Post
          (λ (_ : H.State) (r : RunReport). HasEchoed config r)
          ((if is_client then run_client H fuel config else run_server H fuel config) s)
  by_role-Post fuel config true s h = run_client-Post fuel config s
  by_role-Post fuel config false s h = cc

  pub run-Post :
      (fuel : ℕ) (config : RunConfig) (s : H.State)
      → config.is_client ≡ true
      → Post (λ (_ : H.State) (r : RunReport). HasEchoed config r) (run H fuel config s)
  unfolding run
  run-Post fuel config s h = any-Post Seen (demo_identity H config s) _ (λ s1 expected.
      any-Post Seen (call H (codes "bind") (H.bind config expected) s1) _ (λ s2 _.
        any-Post Seen (of_result (adopted H expected (H.endpoint_id s2)) s2) _ (λ s3 _.
          and_then-Post Seen Seen _ _ (by_role-Post fuel config config.is_client s3 h) (λ s4 r v.
            record {
              conn = v.conn;
              dials = v.dials;
              before = v.before;
              after = v.after;
              upgraded = v.upgraded;
              stream = v.stream;
              streams = v.streams;
              sized = v.sized;
              shown = v.shown;
              counted = v.counted;
              datagram = v.datagram;
            }))))
    where
      Seen : H.State → RunReport → Type 0
      Seen _ r = HasEchoed config r

  -- The same of a run that is known to have reported.
  run-HasEchoed :
      (fuel : ℕ) (config : RunConfig) (s t : H.State) (r : RunReport)
      → config.is_client ≡ true
      → run H fuel config s ≡ finished t r
      → HasEchoed config r
  run-HasEchoed fuel config s t r h e =
      finished-Post (λ (_ : H.State) (r : RunReport). HasEchoed config r) (run H fuel config s) t r
        e (run-Post fuel config s h)
