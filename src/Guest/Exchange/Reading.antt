-- ===== src/Guest/Exchange/Reading.antt =====
-- The same when it reads its stream (guest/src/endpoint.rs, `App::read_stream`).
use component_iroh.Prelude.{
  ℕ, zero, suc, refl, inl, inr, Bool, true, false, none, some, Bool-cases, bytes_key, codes, Text,
}
use component_iroh.Endpoint.Noq.{Noq}
use component_iroh.Guest.Task.{Task, ◌>>=◌, Post, and_then-Post, pure}
use component_iroh.Guest.Keeping.{Keeps, Leaves, on_app-Keeps}
use component_iroh.Guest.Side.{
  Role, client, server, on_conn, on_app, elapsed_ms, NextChunk-cases, App, Demo, Side,
}
use component_iroh.Guest.App.{send_whole, read_chunks, complete, read_stream}
use component_iroh.Guest.Exchange.{Has, IsSound, send_whole-Keeps}

module _ {N : Noq} (D : Demo N) where
  module _ (role : Role) where
    abbrev Sound : App → Type 0
    Sound = IsSound N role

    -- Where the stream is known.
    abbrev Streaming : App → Type 0
    Streaming app = Sound app × Has app.stream

    read_chunks-Keeps : (fuel : ℕ) (id : ℕ) → Keeps Streaming (read_chunks D fuel id)
    unfolding read_chunks
    read_chunks-Keeps zero id = record { keeps = λ s v. tt }
    read_chunks-Keeps (suc fuel) id = record {
      keeps = λ s v. elim (NextChunk-cases (D.chunks_next id s.conn).1) [
        | inl e ↦ rw (e, read_chunks) v
        | inr (inl e) ↦ rw (e, read_chunks) v
        | inr (inr (inl (x, e))) ↦ rw (e, read_chunks) tt
        | inr (inr (inr (bytes, e))) ↦ rw (e, read_chunks) ((read_chunks-Keeps fuel id).keeps _ v)
      ];
    }

    received-Sound :
        (app : App) (text : Text) → Streaming app → Sound (record app { received = some text })
    received-Sound app text (v, h) = record {
      has_role = v.has_role;
      timed = v.timed;
      authentic = v.authentic;
      streamed = λ _. h;
      client_stream = v.client_stream;
      echoed = v.echoed;
      sent = λ _. refl;
      closed = v.closed;
      done = λ _. inl refl;
    }

    after_end-Keeps :
        (now : ℕ) (id : ℕ) (text : Text) (ours : Role)
        → Keeps Sound (elim ours as (λ _. Task (Side N) (Unit {0})) [
          | client _ ↦ on_app (λ a. record a {
            roundtrip_ms = elim a.sent_at [ none ↦ 0 | some at ↦ elapsed_ms at now ];
          })
          | server ↦
              send_whole D
                (codes "echo write: ")
                (codes "echo did not fit the stream window")
                (codes "echo finish: ")
                id
                (D.as_bytes (D.to_uppercase text))
        ])
    after_end-Keeps now id text (client _) =
        on_app-Keeps D Sound
          (λ a. record a {
            roundtrip_ms = elim a.sent_at [ none ↦ 0 | some at ↦ elapsed_ms at now ];
          })
          (λ a v. v)
    after_end-Keeps now id text server =
        send_whole-Keeps D Sound (codes "echo write: ") (codes "echo did not fit the stream window")
          (codes "echo finish: ") id (D.as_bytes (D.to_uppercase text))

    complete-Post :
        (now : ℕ) (id : ℕ) (s : Side N)
        → Streaming s.app
        → Post (Leaves Sound) (complete D now id s)
    unfolding complete
    complete-Post now id s v =
        (after_end-Keeps now id (D.from_utf8_lossy s.app.inbound) s.app.role).keeps _
          (received-Sound s.app _ v)

    after_chunks-Post :
        (now : ℕ) (id : ℕ) (is_end : Bool) (t : Side N)
        → Streaming t.app
        → Post (Leaves Sound) (
            (on_conn (λ conn. (D.chunks_finalize id conn, tt)) >>= λ _.
            elim is_end as (λ _. Task (Side N) (Unit {0})) [
              | false ↦ pure tt
              | true ↦ complete D now id
            ])
              t)
    unfolding ◌>>=◌
    after_chunks-Post now id false t w = w.0
    after_chunks-Post now id true t w = complete-Post now id _ w

    pub read_stream-Post :
        (fuel now : ℕ) (id : ℕ) (s : Side N)
        → Streaming s.app
        → Post (Leaves Sound) (read_stream D fuel now id s)
    unfolding read_stream
    read_stream-Post fuel now id s v = elim (Bool-cases (D.chunks_open id s.conn).1) [
      | inr e ↦ rw (e, read_stream) v.0
      | inl e ↦
          rw (e, read_stream)
            (and_then-Post (Leaves Streaming) (Leaves Sound) _ _
              ((read_chunks-Keeps fuel id).keeps _ v)
              (λ t is_end w. after_chunks-Post now id is_end t w))
    ]
