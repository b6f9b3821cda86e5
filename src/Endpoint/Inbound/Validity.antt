-- ===== src/Endpoint/Inbound/Validity.antt =====
-- Inbound datagrams, timers and closing keep a state valid.
use component_iroh.Prelude.{
  ℕ, refl, true, List, [], ◌∷◌, Option, none, some, nat_key, ite, eq?, lookup, insert, Option-cases,
  Result-cases, Bool-cases, inl, inr,
}
use component_iroh.Relay.Frames.{Bytes}
use component_iroh.Endpoint.Types.{SocketAddr}
use component_iroh.Endpoint.Noq.{Noq, connection_event, new_connection, response}
use component_iroh.Endpoint.Wires.{Peer}
use component_iroh.Endpoint.Wires.Routing.{HasRoom, addr_for_peer-IsRouted}
use component_iroh.Endpoint.Wires.Steps.{same_tables, push_response-tables}
use component_iroh.Endpoint.State.{ConnEntry, State}
use component_iroh.Endpoint.State.Identity.{IsAuthentic, same_identity, new_entry-IsAuthentic}
use component_iroh.Endpoint.State.Drains.{IsValid, AllAuthentic}
use component_iroh.Endpoint.Inbound.{
  modify, modify_all, respond, on_incoming, handle_datagram, handle_relay_datagram,
  handle_channel_datagram,
}

module _ (N : Noq) where
  pub insert-AllAuthentic :
      (handle : ℕ) (entry : ConnEntry N) (conns : List (ℕ × ConnEntry N))
      → IsAuthentic N entry
      → AllAuthentic N conns
      → AllAuthentic N (insert handle entry conns)
  unfolding insert
  insert-AllAuthentic handle entry [] v a = (v, tt)
  insert-AllAuthentic handle entry ((j, e) ∷ conns) v a =
      elim (eq? j handle)
        as (λ d.
          AllAuthentic N (ite d ((handle, entry) ∷ conns) ((j, e) ∷ insert handle entry conns))) [
            | yes _ ↦ (v, a.1)
            | no _ ↦ (a.0, insert-AllAuthentic handle entry conns v a.1)
          ]

  modify-AllAuthentic :
      (handle : ℕ) (f : ConnEntry N → ConnEntry N) (conns : List (ℕ × ConnEntry N))
      → ((entry : ConnEntry N) → IsAuthentic N entry → IsAuthentic N (f entry))
      → AllAuthentic N conns
      → AllAuthentic N (modify handle f conns)
  modify-AllAuthentic handle f [] keep a = tt
  modify-AllAuthentic handle f ((j, e) ∷ conns) keep a =
      elim (eq? j handle)
        as (λ d. AllAuthentic N (ite d ((j, f e) ∷ conns) ((j, e) ∷ modify handle f conns))) [
          | yes _ ↦ (keep e a.0, a.1)
          | no _ ↦ (a.0, modify-AllAuthentic handle f conns keep a.1)
        ]

  pub modify_all-AllAuthentic :
      (f : ConnEntry N → ConnEntry N) (conns : List (ℕ × ConnEntry N))
      → ((entry : ConnEntry N) → IsAuthentic N entry → IsAuthentic N (f entry))
      → AllAuthentic N conns
      → AllAuthentic N (modify_all f conns)
  modify_all-AllAuthentic f [] keep a = tt
  modify_all-AllAuthentic f ((j, e) ∷ conns) keep a =
      (keep e a.0, modify_all-AllAuthentic f conns keep a.1)

  respond-IsValid :
      (s : State N) (addr : SocketAddr) (source : Option Peer) (payload : Bytes)
      → IsValid N s
      → IsValid N (respond N s addr source payload)
  unfolding respond
  respond-IsValid s addr source payload v = record {
    tables_ok = same_tables (push_response-tables s.wires addr source payload) v.tables_ok;
    authentic = v.authentic;
  }

  on_incoming-IsValid :
      (now : ℕ) (s : State N) (addr : SocketAddr) (source : Option Peer) (incoming : N.Incoming)
      → IsValid N s
      → IsValid N (on_incoming N now s addr source incoming)
  unfolding on_incoming
  on_incoming-IsValid now s addr source incoming v = elim (Bool-cases s.wires.is_closed) [
    | inl e ↦ simp e v
    | inr e ↦ simp e (elim (Result-cases (N.accept now incoming s.noq).1) [
      | inl ((handle, conn), a) ↦ rw a (record {
        tables_ok = v.tables_ok;
        authentic =
            insert-AllAuthentic handle _ s.conns (new_entry-IsAuthentic N conn source true)
              v.authentic;
      })
      | inr (some payload, a) ↦ rw a (
          respond-IsValid _ addr source payload
            (record { tables_ok = v.tables_ok; authentic = v.authentic }))
      | inr (none, a) ↦ rw a (record { tables_ok = v.tables_ok; authentic = v.authentic })
    ])
  ]

  pub handle_datagram-IsValid :
      (now : ℕ) (s : State N) (addr : SocketAddr) (source : Option Peer) (payload : Bytes)
      → IsValid N s
      → IsValid N (handle_datagram N now s addr source payload)
  unfolding handle_datagram
  handle_datagram-IsValid now s addr source payload v =
      let v' : IsValid N (record s { noq = (N.handle now addr payload s.noq).0 }) = record {
        tables_ok = v.tables_ok;
        authentic = v.authentic;
      } in
      elim (Option-cases (N.handle now addr payload s.noq).1) [
        | inl e ↦ rw (e, handle_datagram) v'
        | inr (connection_event handle x, e) ↦
            rw (e, handle_datagram)
              (record {
                tables_ok = v.tables_ok;
                authentic =
                    modify-AllAuthentic handle _ s.conns
                      (λ entry a. same_identity N entry _ refl refl refl a) v.authentic;
              })
        | inr (new_connection incoming, e) ↦
            rw (e, handle_datagram) (on_incoming-IsValid now _ addr source incoming v')
        | inr (response bytes, e) ↦ rw (e, handle_datagram) (respond-IsValid _ addr source bytes v')
      ]

  -- A relayed datagram keeps the state valid, while there is room for one more standin.
  pub handle_relay_datagram-IsValid :
      (now : ℕ) (s : State N) (via : ℕ) (source : Peer) (payload : Bytes)
      → HasRoom s.wires
      → IsValid N s
      → IsValid N (handle_relay_datagram N now s via source payload)
  unfolding handle_relay_datagram
  handle_relay_datagram-IsValid now s via source payload room v =
      handle_datagram-IsValid now _ _ (some source) payload (record {
        tables_ok = addr_for_peer-IsRouted s.wires v.tables_ok source via room.0;
        authentic = v.authentic;
      })

  pub handle_channel_datagram-IsValid :
      (now : ℕ) (s : State N) (id : ℕ) (payload : Bytes)
      → HasRoom s.wires
      → IsValid N s
      → IsValid N (handle_channel_datagram N now s id payload)
  unfolding handle_channel_datagram
  handle_channel_datagram-IsValid now s id payload room v =
      elim (Option-cases (lookup id s.wires.channels)) [
        | inl e ↦ rw (e, handle_channel_datagram) v
        | inr (entry, e) ↦
            rw (e, handle_channel_datagram)
              (handle_datagram-IsValid now _ _ (some entry.peer) payload (record {
                tables_ok =
                    addr_for_peer-IsRouted s.wires v.tables_ok entry.peer entry.fallback_relay
                      room.0;
                authentic = v.authentic;
              }))
      ]
