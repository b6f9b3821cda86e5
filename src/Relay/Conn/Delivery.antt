-- ===== src/Relay/Conn/Delivery.antt =====
-- What `recv_datagram` hands out, against the sequence that the relay sent.
use component_iroh.Prelude.{
  ◌≡◌, refl, List, [], ◌∷◌, ◌++◌, ok, arith, append-nil, append_assoc, ap, ◌∙◌, sym, ◌⊎◌, inl, inr,
  Result-cases,
}
use component_iroh.Relay.Frames.{Bytes, Datagram}
use component_iroh.Relay.Conn.{
  Arrival, binary, text, failure, Websocket, RelayConn, Outcome, ready, failed, waiting, Reaction,
  queue, reply, skip, on_frame, send, recv_loop, recv_datagram,
}

abbrev pub carried : Reaction → List Datagram
carried (queue ds) = ds
carried _ = []

-- The datagrams of a sequence of arrivals, in order.
unfoldable pub datagrams : List Arrival → List Datagram
datagrams [] = []
datagrams (binary frame ∷ inbox) = carried (on_frame frame) ++ datagrams inbox
datagrams (_ ∷ inbox) = datagrams inbox

-- The abstract view of a connection: all that it is still to hand out.
abbrev pub undelivered : RelayConn → List Datagram
undelivered c = c.pending ++ datagrams c.ws.inbox

-- A result takes the first; a failure and a wait lose none, and there is a wait only when none is left.
abbrev pub Delivers : List Datagram → Outcome Datagram × RelayConn → Type 0
Delivers ds (ready d, c) = ds ≡ d ∷ undelivered c
Delivers ds (failed e, c) = ds ≡ undelivered c
Delivers ds (waiting, c) = (ds ≡ []) × (undelivered c ≡ [])

pub Reaction-cases :
    (r : Reaction)
    → (r ≡ skip)
      ⊎ (((ds : List Datagram) × (r ≡ queue ds)) ⊎ ((message : Bytes) × (r ≡ reply message)))
Reaction-cases (queue ds) = inr (inl (ds, refl))
Reaction-cases (reply message) = inr (inr (message, refl))
Reaction-cases skip = inl refl

recv_loop-Delivers :
    (pending : List Datagram) (inbox : List Arrival) (ws : Websocket)
    → Delivers (pending ++ datagrams inbox) (recv_loop pending inbox ws)
unfolding recv_loop datagrams
recv_loop-Delivers (d ∷ pending) inbox ws = refl
recv_loop-Delivers [] [] ws = (refl, refl)
recv_loop-Delivers [] (text ∷ inbox) ws = recv_loop-Delivers [] inbox ws
recv_loop-Delivers [] (failure e ∷ inbox) ws = refl
recv_loop-Delivers [] (binary frame ∷ inbox) ws = elim (Reaction-cases (on_frame frame)) [
  | inl e ↦ rw (e, recv_loop) (recv_loop-Delivers [] inbox ws)
  | inr (inl (ds, e)) ↦ rw (e, recv_loop) (recv_loop-Delivers ds inbox ws)
  | inr (inr (message, e)) ↦ elim (Result-cases (send message ws)) [
    | inl (ws', sent) ↦ rw (e, recv_loop, sent) (recv_loop-Delivers [] inbox ws')
    | inr (fault, lost) ↦ rw (e, recv_loop, lost) refl
  ]
]

-- Every call of `recv_datagram`, over any websocket: a datagram handed out is the first of those
-- not yet delivered, and the others stay in order; a failed call loses none; and a call waits only
-- when no datagram is left.
pub recv_datagram-Delivers : (c : RelayConn) → Delivers (undelivered c) (recv_datagram c)
unfolding recv_datagram
recv_datagram-Delivers c = recv_loop-Delivers c.pending c.ws.inbox c.ws

abbrev pub pong_of : Reaction → List Bytes
pong_of (reply message) = message ∷ []
pong_of _ = []

abbrev pub pongs_of : Arrival → List Bytes
pongs_of (binary frame) = pong_of (on_frame frame)
pongs_of _ = []

-- The pongs that a sequence of arrivals asks for, in order.
abbrev pub pongs : List Arrival → List Bytes
pongs [] = []
pongs (a ∷ inbox) = pongs_of a ++ pongs inbox

-- The arrivals that a call consumed, and what it sent for them.
abbrev pub Consumed : List Arrival → List Bytes → RelayConn → Type 0
Consumed inbox sent c =
    (consumed : List Arrival) × (inbox ≡ consumed ++ c.ws.inbox)
    × (c.ws.sent ≡ sent ++ pongs consumed)

abbrev pub Answers : List Arrival → List Bytes → Outcome Datagram × RelayConn → Type 0
Answers inbox sent (ready d, c) = Consumed inbox sent c
Answers inbox sent (waiting, c) = Consumed inbox sent c
Answers inbox sent (failed e, c) = Unit

Consumed-cons :
    (a : Arrival) (inbox : List Arrival) (sent sent' : List Bytes) (c : RelayConn)
    → sent' ≡ sent ++ pongs_of a
    → Consumed inbox sent' c
    → Consumed (a ∷ inbox) sent c
Consumed-cons a inbox sent sent' c e (consumed, rest, s) = (
  a ∷ consumed,
  ap (◌∷◌ a) rest,
  s
      ∙ ap (λ (t : List Bytes). t ++ pongs consumed) e
      ∙ append_assoc sent (pongs_of a) (pongs consumed),
)

Answers-cons :
    (a : Arrival) (inbox : List Arrival) (sent sent' : List Bytes)
    (r : Outcome Datagram × RelayConn)
    → sent' ≡ sent ++ pongs_of a
    → Answers inbox sent' r
    → Answers (a ∷ inbox) sent r
Answers-cons a inbox sent sent' (ready d, c) e h = Consumed-cons a inbox sent sent' c e h
Answers-cons a inbox sent sent' (waiting, c) e h = Consumed-cons a inbox sent sent' c e h
Answers-cons a inbox sent sent' (failed x, c) e h = tt

pub send-sent :
    (message : Bytes) (ws ws' : Websocket)
    → send message ws ≡ ok ws'
    → ws'.sent ≡ ws.sent ++ (message ∷ [])
unfolding send
send-sent message ws ws' e = ground arith

recv_loop-Answers :
    (pending : List Datagram) (inbox : List Arrival) (ws : Websocket)
    → Answers inbox ws.sent (recv_loop pending inbox ws)
unfolding recv_loop
recv_loop-Answers (d ∷ pending) inbox ws = ([], refl, sym (append-nil ws.sent))
recv_loop-Answers [] [] ws = ([], refl, sym (append-nil ws.sent))
recv_loop-Answers [] (text ∷ inbox) ws =
    Answers-cons text inbox ws.sent ws.sent _ (sym (append-nil ws.sent))
      (recv_loop-Answers [] inbox ws)
recv_loop-Answers [] (failure e ∷ inbox) ws = tt
recv_loop-Answers [] (binary frame ∷ inbox) ws = elim (Reaction-cases (on_frame frame)) [
  | inl e ↦
      rw (e, recv_loop)
        (Answers-cons (binary frame) inbox ws.sent ws.sent _ (rw e (sym (append-nil ws.sent)))
          (recv_loop-Answers [] inbox ws))
  | inr (inl (ds, e)) ↦
      rw (e, recv_loop)
        (Answers-cons (binary frame) inbox ws.sent ws.sent _ (rw e (sym (append-nil ws.sent)))
          (recv_loop-Answers ds inbox ws))
  | inr (inr (message, e)) ↦ elim (Result-cases (send message ws)) [
    | inl (ws', sent) ↦
        rw (e, recv_loop, sent)
          (Answers-cons (binary frame) inbox ws.sent ws'.sent _
            (rw e (send-sent message ws ws' sent)) (recv_loop-Answers [] inbox ws'))
    | inr (fault, lost) ↦ rw (e, recv_loop, lost) tt
  ]
]

-- A call of `recv_datagram` that does not fail has consumed the first arrivals of the websocket,
-- leaves the others there, and has sent exactly the pongs for the consumed pings, in order.
pub recv_datagram-Answers : (c : RelayConn) → Answers c.ws.inbox c.ws.sent (recv_datagram c)
unfolding recv_datagram
recv_datagram-Answers c = recv_loop-Answers c.pending c.ws.inbox c.ws
