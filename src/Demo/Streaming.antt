-- ===== src/Demo/Streaming.antt =====
-- What a client of the endpoint demo has done with its connection when its calls finish
-- (endpoint-demo/src/lib.rs, `run_client`).
use component_iroh.Prelude.{
  ℕ, ◌≡◌, ap, sym, ◌∙◌, Bool, true, false, [], ◌++◌, append-nil, append_assoc, Option, none, some,
  Result, ok, map_err, map_err-eq-ok, if◌then◌else◌, ok_or, Result-cases, Bool-cases, inl, inr,
  Text, codes, length, bytes_key, ◌==◌, ==_iff, unwrap_or, zero, suc,
}
use component_iroh.Relay.Frames.{Bytes}
use component_iroh.Endpoint.Types.{Error}
use component_iroh.Endpoint.Wires.{Peer}
use component_iroh.Guest.Task.{
  Task, and_then, ◌>>=◌, pure, Post, and_then-Post, of_result-Post, Post-mono,
}
use component_iroh.Demo.{
  RunConfig, Host, payload_of, call, read_all, read_max, same_length, is_webrtc, wait_upgrade,
  dial_addrs, default_alpn, upgraded, upgrade_deadline_polls,
}
use component_iroh.Demo.Roles.{client_stream, dial_peer}

module _ (H : Host) where
  -- The chunks of a stream, read one after the other up to its end.
  pub data Reads (stream : ℕ) (t : H.State) : H.State → Bytes → Type 0 where
    at_end : {s : H.State} → H.read stream read_max s ≡ (t, ok none) → Reads stream t s []
    chunk :
        {s u : H.State} {rest : Bytes} (bytes : Bytes)
        → H.read stream read_max s ≡ (u, ok (some bytes))
        → Reads stream t u rest
        → Reads stream t s (bytes ++ rest)

  -- A stream that was opened, written with the payload and finished, and whose other direction was
  -- then read to its end.
  pub record Streams (config : RunConfig) (conn : ℕ) (s t : H.State) (echo : Bytes) : Type 0 where
    pub sender : ℕ
    pub receiver : ℕ
    pub opened : H.State
    pub written : H.State
    pub sent : H.State
    pub opens : H.open_bi conn s ≡ (opened, ok (sender, receiver))
    pub writes : H.write sender (payload_of config) opened ≡ (written, ok tt)
    pub finishes : H.finish sender written ≡ (sent, ok tt)
    pub reads : Reads receiver t sent echo

  -- The peer that the config names was dialed, which gave the connection.
  pub record Dials (config : RunConfig) (conn : ℕ) : Type 0 where
    pub hex : Text
    pub named : config.peer ≡ some hex
    pub peer : Peer
    pub decoded : H.hex_decode hex ≡ ok peer
    pub before : H.State
    pub after : H.State
    pub connects :
        H.connect peer (dial_addrs config) (unwrap_or config.alpn default_alpn) before
        ≡ (after, ok conn)

  -- A call that finished, with what it gave.
  pub call-Post :
      {A B : Type 0} (R : H.State → B → Type 0) (what : Text)
      (f : H.State → H.State × Result A Error) (s : H.State) (g : A → Task H.State B)
      → ((a : A) → f s ≡ ((f s).0, ok a) → Post R (g a (f s).0))
      → Post R (and_then (call H what f s) g)
  call-Post R what f s g h = elim (Result-cases (f s).1) [
    | inl (a, q) ↦ rw q (h a (ap (λ r. ((f s).0, r)) q))
    | inr (e, q) ↦ rw q tt
  ]

  -- What was read is behind what had been read.
  abbrev ReadOn : ℕ → Bytes → H.State → H.State → Bytes → Type 0
  ReadOn stream read s t all = (rest : Bytes) × (all ≡ read ++ rest) × Reads stream t s rest

  next_chunk-Reads :
      (fuel stream : ℕ) (read : Bytes) (s u : H.State) (next : Option Bytes)
      → H.read stream read_max s ≡ (u, ok next)
      → ((bytes : Bytes)
          → Post (ReadOn stream (read ++ bytes) u) (read_all H fuel stream (read ++ bytes) u))
      → Post (ReadOn stream read s) (
          (elim next as (λ _. Task H.State Bytes) [
            | none ↦ pure read
            | some bytes ↦ read_all H fuel stream (read ++ bytes)
          ])
            u)
  next_chunk-Reads fuel stream read s u none e more = ([], sym (append-nil read), at_end e)
  next_chunk-Reads fuel stream read s u (some bytes) e more =
      Post-mono (ReadOn stream (read ++ bytes) u) (ReadOn stream read s) _
        (λ t all (rest, behind, r).
          (bytes ++ rest, behind ∙ append_assoc read bytes rest, chunk bytes e r))
        (more bytes)

  read_all-Reads :
      (fuel stream : ℕ) (read : Bytes) (s : H.State)
      → Post (ReadOn stream read s) (read_all H fuel stream read s)
  unfolding read_all ◌>>=◌
  read_all-Reads zero stream read s = tt
  read_all-Reads (suc fuel) stream read s =
      call-Post (ReadOn stream read s) (codes "read") (H.read stream read_max) s _ (λ next e.
        next_chunk-Reads fuel stream read s _ next e
          (λ bytes. read_all-Reads fuel stream (read ++ bytes) _))

  same_length-eq-ok :
      (payload echoed : Bytes) {u : Unit {0}}
      → same_length H payload echoed ≡ ok u
      → length echoed ≡ length payload
  unfolding same_length
  same_length-eq-ok payload echoed e = elim (Bool-cases (length echoed == length payload)) [
    | inl q ↦ (==_iff (length echoed) (length payload)).0 q
    | inr q ↦ let h = rw (q, same_length) at e in cc
  ]

  -- An echo that was read, as long as the payload.
  abbrev pub Echoes : RunConfig → ℕ → H.State → H.State → Bytes × ℕ → Type 0
  Echoes config conn s t p =
      Streams config conn s t (p.0) × (length (p.0) ≡ length (payload_of config))

  pub client_stream-Echoes :
      (fuel : ℕ) (config : RunConfig) (conn : ℕ) (s : H.State)
      → Post (Echoes config conn s) (client_stream H fuel config conn s)
  unfolding client_stream
  client_stream-Echoes fuel config conn s =
      call-Post R (codes "open-bi") (H.open_bi conn) s _ (λ streams opens.
        call-Post R (codes "write") (H.write (streams.0) (payload_of config)) _ _ (λ _ writes.
          call-Post R (codes "finish") (H.finish (streams.0)) _ _ (λ _ finishes.
            and_then-Post (ReadOn (streams.1) [] _) R (read_all H fuel (streams.1) [] _) _
              (read_all-Reads fuel (streams.1) [] _)
              (λ t echoed (rest, same, reads).
                of_result-Post R (same_length H (payload_of config) echoed) _ t (λ _ e. (
                  record {
                    sender = streams.0;
                    receiver = streams.1;
                    opened = _;
                    written = _;
                    sent = _;
                    opens = opens;
                    writes = writes;
                    finishes = finishes;
                    reads = rw same reads;
                  },
                  same_length-eq-ok (payload_of config) echoed e,
                ))))))
    where
      R : H.State → Bytes × ℕ → Type 0
      R = Echoes config conn s

  ok_or-eq-ok : {A : Type 0} (o : Option A) (text : Text) (a : A) → ok_or o text ≡ ok a → o ≡ some a
  ok_or-eq-ok none text a e = cc
  ok_or-eq-ok (some b) text a e = cc

  pub dial_peer-Dials :
      (config : RunConfig) (s : H.State)
      → Post (λ (_ : H.State) (dialed : ℕ × ℕ). Dials config (dialed.0)) (dial_peer H config s)
  unfolding dial_peer
  dial_peer-Dials config s =
      of_result-Post R
        (ok_or config.peer (codes "the client role requires the server's endpoint id (peer)")) _ s
        (λ hex named.
          of_result-Post R (map_err (λ e. codes "bad endpoint id: " ++ e) (H.hex_decode hex)) _ s
            (λ peer decoded.
              call-Post R (codes "connect")
                (H.connect peer (dial_addrs config) (unwrap_or config.alpn default_alpn)) s _
                (λ conn connects. record {
                  hex = hex;
                  named = ok_or-eq-ok config.peer _ hex named;
                  peer = peer;
                  decoded = map_err-eq-ok _ (H.hex_decode hex) peer decoded;
                  before = s;
                  after = _;
                  connects = connects;
                })))
    where
      R : H.State → ℕ × ℕ → Type 0
      R _ dialed = Dials config (dialed.0)

  wait_upgrade-Post :
      (polls conn : ℕ) (s : H.State)
      → Post (λ t (_ : Unit {0}). is_webrtc (H.path conn t) ≡ true) (wait_upgrade H polls conn s)
  unfolding wait_upgrade
  wait_upgrade-Post zero conn s = elim (Bool-cases (is_webrtc (H.path conn s))) [
    | inl e ↦ rw (e, wait_upgrade) e
    | inr e ↦ rw (e, wait_upgrade) tt
  ]
  wait_upgrade-Post (suc polls) conn s = elim (Bool-cases (is_webrtc (H.path conn s))) [
    | inl e ↦ rw (e, wait_upgrade) e
    | inr e ↦ rw (e, wait_upgrade) (wait_upgrade-Post polls conn (H.wait_poll s))
  ]

  -- With WebRTC asked for, the stream is opened once the path is on it.
  abbrev pub Upgraded : RunConfig → ℕ → H.State → Type 0
  Upgraded config conn s = config.webrtc ≡ true → is_webrtc (H.path conn s) ≡ true

  upgraded_if-Post :
      (polls : ℕ) (webrtc : Bool) (conn : ℕ) (s : H.State)
      → Post
          (λ t (_ : Unit {0}). webrtc ≡ true → is_webrtc (H.path conn t) ≡ true)
          ((if webrtc then wait_upgrade H polls conn else pure tt) s)
  upgraded_if-Post polls true conn s =
      Post-mono (λ t (_ : Unit {0}). is_webrtc (H.path conn t) ≡ true)
        (λ t (_ : Unit {0}). true ≡ true → is_webrtc (H.path conn t) ≡ true) _ (λ t u h _. h)
        (wait_upgrade-Post polls conn s)
  upgraded_if-Post polls false conn s = λ h. cc

  pub upgraded-Upgraded :
      (config : RunConfig) (conn : ℕ) (s : H.State)
      → Post (λ t (_ : Unit {0}). Upgraded config conn t) (upgraded H config conn s)
  upgraded-Upgraded config conn s = upgraded_if-Post upgrade_deadline_polls config.webrtc conn s
