-- ===== src/Guest/Side.antt =====
-- What the demo's application keeps, and its calls of its connection (guest/src/endpoint.rs).
use component_iroh.Prelude.{
  ◌≡◌, refl, ◌⊎◌, inl, inr, ℕ, ◌-◌, ◌/◌, Bool, false, [], ◌++◌, Option, none, some, Result, ok, err,
  bytes_key, codes, Text, nat_key,
}
use component_iroh.Relay.Frames.{Bytes}
use component_iroh.Endpoint.Noq.{Noq, LostReason, WriteError, FinishError, SendDatagramError}
use component_iroh.Endpoint.Wires.{Peer}
use component_iroh.Guest.Task.{finished, Task}

-- A client has its message.
pub data Role : Type 0 where
  client : Bytes → Role
  server : Role

pub record App : Type 0 where
  pub role : Role
  pub handshake_ms : Option ℕ
  pub peer_id : Option Peer
  pub stream : Option ℕ
  pub inbound : Bytes
  pub sent_at : Option ℕ
  pub roundtrip_ms : ℕ
  pub received : Option Text
  pub is_datagram_sent : Bool
  pub datagram_received : Option Bytes
  pub done_at : Option ℕ
  pub is_close_sent : Bool

abbrev pub new_app : Role → App
new_app role = record {
  role = role;
  handshake_ms = none;
  peer_id = none;
  stream = none;
  inbound = [];
  sent_at = none;
  roundtrip_ms = 0;
  received = none;
  is_datagram_sent = false;
  datagram_received = none;
  done_at = none;
  is_close_sent = false;
}

abbrev pub datagram_copies : ℕ
datagram_copies = 3

-- What one side observed.
pub record Report : Type 0 where
  pub peer_id : Peer
  pub handshake_ms : ℕ
  pub roundtrip_ms : ℕ
  pub received : Text

-- What `chunks.next` gives; `broken` has the text of the error.
pub data NextChunk : Type 0 where
  chunk : Bytes → NextChunk
  fin blocked : NextChunk
  broken : Text → NextChunk

pub NextChunk-cases :
    (n : NextChunk)
    → (n ≡ fin)
      ⊎ ((n ≡ blocked) ⊎ (((e : Text) × (n ≡ broken e)) ⊎ ((bytes : Bytes) × (n ≡ chunk bytes))))
NextChunk-cases fin = inl refl
NextChunk-cases blocked = inr (inl refl)
NextChunk-cases (broken e) = inr (inr (inl (e, refl)))
NextChunk-cases (chunk bytes) = inr (inr (inr (bytes, refl)))

-- The chunks of a receive stream, the strings of the standard library, and the texts of errors.
pub record Demo (N : Noq) : Type 0 where
  pub chunks_open : ℕ → N.Conn → N.Conn × Bool
  pub chunks_next : ℕ → N.Conn → N.Conn × NextChunk
  pub chunks_finalize : ℕ → N.Conn → N.Conn
  pub from_utf8_lossy : Bytes → Text
  pub to_uppercase : Text → Text
  pub as_bytes : Text → Bytes
  pub decimal : ℕ → Text
  pub write_text : WriteError → Text
  pub finish_text : FinishError → Text
  pub datagram_text : SendDatagramError → Text
  pub lost_text : LostReason → Text
  pub accept_text : Option Bytes → Text

-- In milliseconds, of instants in nanoseconds.
abbrev pub elapsed_ms : (since now : ℕ) → ℕ
elapsed_ms since now = (now - since) / 1000000

-- The application and its connection.
pub record Side (N : Noq) : Type 0 where
  pub app : App
  pub conn : N.Conn

abbrev pub labelled : {E : Type 0} → Text → (E → Text) → E → Text
labelled label text e = label ++ text e

module _ {N : Noq} where
  abbrev pub on_conn : {A : Type 0} → (N.Conn → N.Conn × A) → Task (Side N) A
  on_conn f s = let (conn, a) = f s.conn in finished (record s { conn = conn }) a

  abbrev pub on_app : (App → App) → Task (Side N) (Unit {0})
  on_app f s = finished (record s { app = f s.app }) tt

-- `App::finish`.
unfoldable pub report : App → Result Report Text
report app = elim app.peer_id [
  | none ↦ err (codes "finished without a peer identity")
  | some peer ↦ elim app.handshake_ms [
    | none ↦ err (codes "finished without a handshake")
    | some handshake ↦ elim app.received [
      | none ↦ err (codes "finished without a payload")
      | some text ↦ ok (record {
        peer_id = peer;
        handshake_ms = handshake;
        roundtrip_ms = app.roundtrip_ms;
        received = text;
      })
    ]
  ]
]
