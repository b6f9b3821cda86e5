-- ===== src/Guest/Reading.antt =====
-- The stream of the demo, read to its end (guest/src/endpoint.rs, `read_stream`).
use component_iroh.Prelude.{
  ℕ, zero, suc, ◌≡◌, ◌<◌, refl, ◌∙◌, ap, Bool, true, false, List, [], ◌∷◌, ◌++◌, append-nil,
  append_assoc, some, ok, codes, Text, length, arith, ==_iff,
}
use component_iroh.Relay.Frames.{Bytes}
use component_iroh.Endpoint.Noq.{Noq, stream_readable}
use component_iroh.Guest.Task.{finished, ◌>>=◌}
use component_iroh.Guest.Side.{server, App, Demo, fin, blocked, chunk}
use component_iroh.Guest.App.{
  read_chunks, complete, read_stream, on_readable, handle_event, send_whole,
}

abbrev pub concat : List Bytes → Bytes
concat [] = []
concat (b ∷ bs) = b ++ concat bs

module _ {N : Noq} (D : Demo N) where
  -- The chunks that a stream has, one after another: up to its end, or to where it blocks.
  pub data Yields (id : ℕ) : N.Conn → List Bytes → Bool → N.Conn → Type 0 where
    at_end :
        (conn conn' : N.Conn) → D.chunks_next id conn ≡ (conn', fin) → Yields id conn [] true conn'
    at_gap :
        (conn conn' : N.Conn)
        → D.chunks_next id conn ≡ (conn', blocked)
        → Yields id conn [] false conn'
    one_more :
        (conn next : N.Conn) (b : Bytes) (bs : List Bytes) (is_end : Bool) (conn' : N.Conn)
        → D.chunks_next id conn ≡ (next, chunk b)
        → Yields id next bs is_end conn'
        → Yields id conn (b ∷ bs) is_end conn'

  read_chunks-Yields :
      (fuel : ℕ) (id : ℕ) (app : App) (conn : N.Conn) (bs : List Bytes) (is_end : Bool)
      (conn' : N.Conn)
      → Yields id conn bs is_end conn'
      → length bs < fuel
      → read_chunks D fuel id (record { app = app; conn = conn })
        ≡ finished
            (record { app = record app { inbound = app.inbound ++ concat bs }; conn = conn' })
            is_end
  unfolding read_chunks
  read_chunks-Yields zero id app conn bs is_end conn' y h = absurd (omega (arith, h))
  read_chunks-Yields (suc fuel) id app conn [] true conn' (at_end _ _ e) h =
      rw (append-nil app.inbound, read_chunks, ap (λ p. p.1) e, ap (λ p. p.0) e) refl
  read_chunks-Yields (suc fuel) id app conn [] false conn' (at_gap _ _ e) h =
      rw (append-nil app.inbound, read_chunks, ap (λ p. p.1) e, ap (λ p. p.0) e) refl
  read_chunks-Yields (suc fuel) id app conn (b ∷ bs) is_end conn' (one_more _ next _ _ _ _ e y) h =
      rw (read_chunks, ap (λ p. p.1) e, ap (λ p. p.0) e)
        (read_chunks-Yields fuel id (record app { inbound = app.inbound ++ b }) next bs is_end conn'
            y (omega (arith, h))
          ∙ ap (λ i. finished (record { app = record app { inbound = i }; conn = conn' }) is_end)
              (append_assoc app.inbound b (concat bs)))

  -- A send of everything, and of its end, that the connection takes.
  pub record Takes (id : ℕ) (bytes : Bytes) (conn conn' : N.Conn) : Type 0 where
    pub written : N.Conn
    pub write : N.write id bytes conn ≡ (written, ok (length bytes))
    pub finish : N.finish id written ≡ (conn', ok tt)

  send_whole-Takes :
      (l short k : Text) (id : ℕ) (bytes : Bytes) (app : App) (conn conn' : N.Conn)
      → Takes id bytes conn conn'
      → send_whole D l short k id bytes (record { app = app; conn = conn })
        ≡ finished (record { app = app; conn = conn' }) tt
  unfolding send_whole
  send_whole-Takes l short k id bytes app conn conn' t =
      rw
        (
          send_whole,
          ap (λ p. p.1) t.write,
          ap (λ p. p.0) t.write,
          (==_iff (length bytes) (length bytes)).1 refl,
          ap (λ p. p.1) t.finish,
          ap (λ p. p.0) t.finish,
        )
        refl

  -- The server's text and its echo, of the bytes of a stream.
  abbrev pub echo_of : Bytes → Bytes
  echo_of bytes = D.as_bytes (D.to_uppercase (D.from_utf8_lossy bytes))

  -- A server whose stream has become readable up to its end, and that had read the inbound bytes: the
  -- whole stream, however it was cut into chunks, is the received text, and its uppercase is written
  -- to the stream and finished, if the connection takes it. The fuel covers the chunks.
  pub readable-Echoes :
      (fuel started now : ℕ) (id : ℕ) (app : App) (conn opened read conn' : N.Conn)
      (bs : List Bytes)
      → D.chunks_open id conn ≡ (opened, true)
      → Yields id opened bs true read
      → length bs < fuel
      → Takes id (echo_of (app.inbound ++ concat bs)) (D.chunks_finalize id read) conn'
      → handle_event D fuel started now
          (stream_readable id)
          (record { app = record app { role = server; stream = some id }; conn = conn })
        ≡ finished
            (record {
              app = record app {
                role = server;
                stream = some id;
                inbound = app.inbound ++ concat bs;
                received = some (D.from_utf8_lossy (app.inbound ++ concat bs));
              };
              conn = conn';
            })
            tt
  unfolding handle_event on_readable read_stream complete ◌>>=◌
  readable-Echoes fuel started now id app conn opened read conn' bs o y h t =
      rw
        (
          (==_iff id id).1 refl,
          ap (λ p. p.1) o,
          ap (λ p. p.0) o,
          read_chunks-Yields fuel id (record app { role = server; stream = some id }) opened bs true
              read y h,
          send_whole-Takes (codes "echo write: ") (codes "echo did not fit the stream window")
              (codes "echo finish: ") id (echo_of (app.inbound ++ concat bs)) _
              (D.chunks_finalize id read) conn' t,
        )
        refl
