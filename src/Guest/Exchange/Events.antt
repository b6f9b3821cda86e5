-- ===== src/Guest/Exchange/Events.antt =====
-- The same with any event of its connection (guest/src/endpoint.rs, `App::handle_event`).
use component_iroh.Prelude.{
  ℕ, zero, suc, ◌≡◌, sym, ◌⊎◌, refl, inl, inr, Bool, true, false, ◌++◌, Option, none, some,
  Option-cases, bytes_key, eq?, codes, Text, unwrap_or,
}
use component_iroh.Relay.Frames.{Bytes}
use component_iroh.Endpoint.Noq.{
  Noq, Event, connected, stream_opened, stream_readable, datagram_received, connection_lost,
  LostReason, uni, application_closed, locally_closed, other_reason, bi,
}
use component_iroh.Guest.Task.{Task, Post, and_then-Post, fail}
use component_iroh.Guest.Keeping.{Keeps, Leaves, pure-Keeps}
use component_iroh.Guest.Side.{Role, client, server, datagram_copies, on_app, App, Demo, Side}
use component_iroh.Guest.App.{
  mismatch_text, send_copies, on_datagram, recv_datagrams, on_lost, is_happy_end, handle_event,
}
use component_iroh.Guest.Exchange.{Has, IsSound, send_copies-Keeps}
use component_iroh.Guest.Exchange.Connecting.{on_connected-Keeps}
use component_iroh.Guest.Exchange.Opening.{on_opened-Keeps, on_readable-Keeps}

module _ {N : Noq} (D : Demo N) where
  module _ (role : Role) where
    abbrev Sound : App → Type 0
    Sound = IsSound N role

    echo-Sound :
        (app : App) (message b : Bytes)
        → role ≡ client message
        → b ≡ codes "datagram " ++ message
        → Sound app
        → Sound (record app { datagram_received = some b })
    echo-Sound app message b e q v = record {
      has_role = v.has_role;
      timed = v.timed;
      authentic = v.authentic;
      streamed = v.streamed;
      client_stream = v.client_stream;
      echoed = λ x h. (message, e, cc);
      sent = v.sent;
      closed = λ _. refl;
      done = λ _. inr refl;
    }

    is_happy_end-Has :
        (reason : LostReason) (text : Option Text) → is_happy_end D reason text ≡ true → Has text
    unfolding is_happy_end
    is_happy_end-Has application_closed (some text) e = refl
    is_happy_end-Has application_closed none e = cc
    is_happy_end-Has locally_closed text e = cc
    is_happy_end-Has (other_reason _) text e = cc

    done-Sound :
        (app : App) (at : ℕ)
        → Has app.received ⊎ Has app.datagram_received
        → Sound app
        → Sound (record app { done_at = some at })
    done-Sound app at h v = record {
      has_role = v.has_role;
      timed = v.timed;
      authentic = v.authentic;
      streamed = v.streamed;
      client_stream = v.client_stream;
      echoed = v.echoed;
      sent = v.sent;
      closed = v.closed;
      done = λ _. h;
    }

    after_loss-Post :
        (now : ℕ) (reason : LostReason) (b : Bool) (s : Side N)
        → (b ≡ true → Has s.app.received)
        → Sound s.app
        → Post (Leaves Sound) (
            elim b as (λ _. Task (Side N) (Unit {0})) [
              | true ↦ on_app (λ a. record a { done_at = some (unwrap_or a.done_at now) })
              | false ↦ fail (codes "connection lost: " ++ D.lost_text reason)
            ]
              s)
    after_loss-Post now reason true s h v = done-Sound s.app _ (inl (h refl)) v
    after_loss-Post now reason false s h v = tt

    on_lost-Keeps : (now : ℕ) (reason : LostReason) → Keeps Sound (on_lost D now reason)
    unfolding on_lost
    on_lost-Keeps now reason = record {
      keeps = λ s.
          after_loss-Post now reason (is_happy_end D reason s.app.received) s
            (is_happy_end-Has reason s.app.received);
    }

    on_datagram_as-Post :
        (bytes : Bytes) (ours : Role) (s : Side N)
        → ours ≡ role
        → Sound s.app
        → Post (Leaves Sound) (
            elim ours as (λ _. Task (Side N) (Unit {0})) [
              | server ↦ send_copies D (codes "datagram echo: ") datagram_copies bytes
              | client message ↦
                  elim (eq? bytes (codes "datagram " ++ message))
                    as (λ _. Task (Side N) (Unit {0})) [
                      | yes _ ↦ on_app (λ a. record a { datagram_received = some bytes })
                      | no _ ↦ fail (mismatch_text D (codes "datagram " ++ message) bytes)
                    ]
            ]
              s)
    on_datagram_as-Post bytes server s e v =
        (send_copies-Keeps D Sound (codes "datagram echo: ") datagram_copies bytes).keeps s v
    on_datagram_as-Post bytes (client message) s e v =
        elim (eq? bytes (codes "datagram " ++ message))
          as (λ d. Post (Leaves Sound) (
            elim d as (λ _. Task (Side N) (Unit {0})) [
              | yes _ ↦ on_app (λ a. record a { datagram_received = some bytes })
              | no _ ↦ fail (mismatch_text D (codes "datagram " ++ message) bytes)
            ]
              s)) [ yes q ↦ echo-Sound s.app message bytes (sym e) q v | no n ↦ tt ]

    recv_datagrams-Keeps : (fuel : ℕ) → Keeps Sound (recv_datagrams D fuel)
    unfolding recv_datagrams on_datagram
    recv_datagrams-Keeps zero = record { keeps = λ s v. tt }
    recv_datagrams-Keeps (suc fuel) = record {
      keeps = λ s v. elim (Option-cases (N.recv_datagram s.conn).1) [
        | inl e ↦ rw (e, recv_datagrams) v
        | inr (bytes, e) ↦
            rw (e, recv_datagrams)
              (and_then-Post (Leaves Sound) (Leaves Sound) _ _
                (on_datagram_as-Post bytes s.app.role _ v.has_role v)
                (λ t _ w. (recv_datagrams-Keeps fuel).keeps t w))
      ];
    }

    -- An event of the connection.
    pub handle_event-Keeps :
        (fuel started now : ℕ) (event : Event) → Keeps Sound (handle_event D fuel started now event)
    unfolding handle_event
    handle_event-Keeps fuel started now connected = on_connected-Keeps D role started now
    handle_event-Keeps fuel started now (stream_opened bi) = on_opened-Keeps D role fuel now
    handle_event-Keeps fuel started now (stream_opened uni) = pure-Keeps Sound tt
    handle_event-Keeps fuel started now (stream_readable id) = on_readable-Keeps D role fuel now id
    handle_event-Keeps fuel started now datagram_received = recv_datagrams-Keeps fuel
    handle_event-Keeps fuel started now (connection_lost reason) = on_lost-Keeps now reason
    handle_event-Keeps fuel started now _ = pure-Keeps Sound tt
