-- ===== src/Guest/Exchange/Driving.antt =====
-- The same between events (guest/src/endpoint.rs, `App::drive`).
use component_iroh.Prelude.{
  ℕ, ◌≡◌, refl, inr, Bool, true, false, not, ◌&&◌, ◌++◌, some, bytes_key, codes, is_some, arith,
}
use component_iroh.Relay.Frames.{Bytes}
use component_iroh.Endpoint.Noq.{Noq}
use component_iroh.Guest.Task.{Task, ◌>>=◌, Post, and_then-Post, pure}
use component_iroh.Guest.Keeping.{Keeps, Leaves, >>=-Keeps, pure-Keeps}
use component_iroh.Guest.Side.{
  Role, client, server, datagram_copies, on_conn, on_app, App, Demo, Side,
}
use component_iroh.Guest.App.{send_copies, send_demo, close_demo, drive}
use component_iroh.Guest.Exchange.{Has, IsSound, send_copies-Keeps}

module _ {N : Noq} (D : Demo N) where
  module _ (role : Role) where
    abbrev Exchanging : App → Type 0
    Exchanging = IsSound N role

    datagrams-Exchanging :
        (app : App)
        → Has app.received
        → Exchanging app
        → Exchanging (record app { is_datagram_sent = true })
    datagrams-Exchanging app h v = record {
      has_role = v.has_role;
      timed = v.timed;
      authentic = v.authentic;
      streamed = v.streamed;
      client_stream = v.client_stream;
      echoed = v.echoed;
      sent = λ _. h;
      closed = v.closed;
      done = v.done;
    }

    close-Exchanging :
        (app : App) (now : ℕ)
        → Has app.datagram_received
        → Exchanging app
        → Exchanging (record app { is_close_sent = true; done_at = some now })
    close-Exchanging app now h v = record {
      has_role = v.has_role;
      timed = v.timed;
      authentic = v.authentic;
      streamed = v.streamed;
      client_stream = v.client_stream;
      echoed = v.echoed;
      sent = v.sent;
      closed = λ _. h;
      done = λ _. inr h;
    }

    send_demo_as-Post :
        (message : Bytes) (b : Bool) (s : Side N)
        → (b ≡ true → Has s.app.received)
        → Exchanging s.app
        → Post (Leaves Exchanging) (
            elim b as (λ _. Task (Side N) (Unit {0})) [
              | false ↦ pure tt
              | true ↦
                  send_copies D
                    (codes "datagram send: ")
                    datagram_copies
                    (codes "datagram " ++ message)
                  >>= λ _. on_app (λ a. record a { is_datagram_sent = true })
            ]
              s)
    unfolding ◌>>=◌
    send_demo_as-Post message false s h v = v
    send_demo_as-Post message true s h v =
        and_then-Post (Leaves (λ a. Exchanging a × Has a.received)) (Leaves Exchanging) _ _
          ((send_copies-Keeps D (λ a. Exchanging a × Has a.received) (codes "datagram send: ")
              datagram_copies (codes "datagram " ++ message)).keeps
            s (v, h refl))
          (λ t _ w. datagrams-Exchanging t.app w.1 w.0)

    send_demo-Keeps : (message : Bytes) → Keeps Exchanging (send_demo D message)
    unfolding send_demo
    send_demo-Keeps message = record {
      keeps = λ s.
          send_demo_as-Post message (is_some s.app.received && not s.app.is_datagram_sent) s
            (λ e. ground (arith, e));
    }

    close_demo_as-Post :
        (now : ℕ) (b : Bool) (s : Side N)
        → (b ≡ true → Has s.app.datagram_received)
        → Exchanging s.app
        → Post (Leaves Exchanging) (
            elim b as (λ _. Task (Side N) (Unit {0})) [
              | false ↦ pure tt
              | true ↦ on_conn (λ conn. (N.close now 0 (codes "done") conn, tt)) >>= λ _.
                  on_app (λ a. record a { is_close_sent = true; done_at = some now })
            ]
              s)
    unfolding ◌>>=◌
    close_demo_as-Post now false s h v = v
    close_demo_as-Post now true s h v = close-Exchanging s.app now (h refl) v

    close_demo-Keeps : (now : ℕ) → Keeps Exchanging (close_demo D now)
    unfolding close_demo
    close_demo-Keeps now = record {
      keeps = λ s.
          close_demo_as-Post now (is_some s.app.datagram_received && not s.app.is_close_sent) s
            (λ e. ground (arith, e));
    }

    drive_as-Keeps :
        (now : ℕ) (ours : Role)
        → Keeps Exchanging (elim ours as (λ _. Task (Side N) (Unit {0})) [
          | server ↦ pure tt
          | client message ↦ send_demo D message >>= λ _. close_demo D now
        ])
    drive_as-Keeps now server = pure-Keeps Exchanging tt
    drive_as-Keeps now (client message) =
        >>=-Keeps Exchanging _ _ (send_demo-Keeps message) (λ _. close_demo-Keeps now)

    pub drive-Keeps : (now : ℕ) → Keeps Exchanging (drive D now)
    unfolding drive
    drive-Keeps now = record { keeps = λ s. (drive_as-Keeps now s.app.role).keeps s }
