-- ===== src/Guest/Exchange/Opening.antt =====
-- The same when its stream opens or has become readable (guest/src/endpoint.rs,
-- `App::handle_event`).
use component_iroh.Prelude.{
  ℕ, ◌≡◌, refl, inl, inr, Option, none, some, Bool-cases, bytes_key, ◌==◌, if◌then◌else◌,
}
use component_iroh.Relay.Frames.{Bytes}
use component_iroh.Endpoint.Noq.{Noq, bi}
use component_iroh.Guest.Task.{Task, ◌>>=◌, Post, pure}
use component_iroh.Guest.Keeping.{Keeps, Leaves}
use component_iroh.Guest.Side.{Role, client, server, on_conn, on_app, App, Demo, Side}
use component_iroh.Guest.App.{read_stream, on_opened, on_readable}
use component_iroh.Guest.Exchange.{Has, IsSound}
use component_iroh.Guest.Exchange.Reading.{read_stream-Post}

module _ {N : Noq} (D : Demo N) where
  module _ (role : Role) where
    abbrev Sound : App → Type 0
    Sound = IsSound N role

    abbrev Streaming : App → Type 0
    Streaming app = Sound app × Has app.stream

    taken-Streaming :
        (app : App) (id : ℕ)
        → ((message : Bytes) → role ≡ client message → Has app.peer_id)
        → Sound app
        → Streaming (record app { stream = some id })
    taken-Streaming app id h v = (
      record {
        has_role = v.has_role;
        timed = v.timed;
        authentic = v.authentic;
        streamed = λ _. refl;
        client_stream = λ message e _. h message e;
        echoed = v.echoed;
        sent = v.sent;
        closed = v.closed;
        done = v.done;
      },
      refl,
    )

    after_stream-Post :
        (fuel now : ℕ) (id : ℕ) (stream : Option ℕ) (s : Side N)
        → (Has stream → Has s.app.stream)
        → Sound s.app
        → Post (Leaves Sound) (
            elim stream as (λ _. Task (Side N) (Unit {0})) [
              | none ↦ pure tt
              | some ours ↦ if ours == id then read_stream D fuel now id else pure tt
            ]
              s)
    after_stream-Post fuel now id none s h v = v
    after_stream-Post fuel now id (some ours) s h v = elim (Bool-cases (ours == id)) [
      | inl q ↦ rw q (read_stream-Post D role fuel now id s (v, h refl))
      | inr q ↦ rw q v
    ]

    pub on_readable-Keeps : (fuel now : ℕ) (id : ℕ) → Keeps Sound (on_readable D fuel now id)
    unfolding on_readable
    on_readable-Keeps fuel now id = record {
      keeps = λ s. after_stream-Post fuel now id s.app.stream s (λ h. h);
    }

    none-Sound : (app : App) → ¬ Has app.stream → Sound app → Sound (record app { stream = none })
    none-Sound app h v = record {
      has_role = v.has_role;
      timed = v.timed;
      authentic = v.authentic;
      streamed = λ t. absurd (h (v.streamed t));
      client_stream = λ _ _ e. cc;
      echoed = v.echoed;
      sent = v.sent;
      closed = v.closed;
      done = v.done;
    }

    after_accept-Post :
        (fuel now : ℕ) (accepted : Option ℕ) (s : Side N)
        → ¬ Has s.app.stream
        → ((message : Bytes) → role ≡ client message → Has s.app.peer_id)
        → Sound s.app
        → Post (Leaves Sound) (
            (on_app (λ a. record a { stream = accepted }) >>= λ _.
            elim accepted as (λ _. Task (Side N) (Unit {0})) [
              | none ↦ pure tt
              | some id ↦ read_stream D fuel now id
            ])
              s)
    unfolding ◌>>=◌
    after_accept-Post fuel now none s n h v = none-Sound s.app n v
    after_accept-Post fuel now (some id) s n h v =
        read_stream-Post D role fuel now id _ (taken-Streaming s.app id h v)

    on_opened_as-Post :
        (fuel now : ℕ) (ours : Role) (stream : Option ℕ) (s : Side N)
        → (Has s.app.stream → Has stream)
        → ours ≡ role
        → Sound s.app
        → Post (Leaves Sound) (
            elim ours as (λ _. Task (Side N) (Unit {0})) [
              | client _ ↦ pure tt
              | server ↦ elim stream as (λ _. Task (Side N) (Unit {0})) [
                | some _ ↦ pure tt
                | none ↦ on_conn (N.streams_accept bi) >>= λ accepted.
                    on_app (λ a. record a { stream = accepted }) >>= λ _.
                    elim accepted as (λ _. Task (Side N) (Unit {0})) [
                      | none ↦ pure tt
                      | some id ↦ read_stream D fuel now id
                    ]
              ]
            ]
              s)
    unfolding ◌>>=◌
    on_opened_as-Post fuel now (client _) stream s h e v = v
    on_opened_as-Post fuel now server (some _) s h e v = v
    on_opened_as-Post fuel now server none s h e v =
        after_accept-Post fuel now (N.streams_accept bi s.conn).1 _ (λ x. cc (h x))
          (λ message q. cc) v

    pub on_opened-Keeps : (fuel now : ℕ) → Keeps Sound (on_opened D fuel now)
    unfolding on_opened
    on_opened-Keeps fuel now = record {
      keeps = λ s v. on_opened_as-Post fuel now s.app.role s.app.stream s (λ h. h) v.has_role v;
    }
