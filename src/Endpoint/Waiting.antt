-- ===== src/Endpoint/Waiting.antt =====
-- `wait_until` and the access to an entry by its handle (endpoint/src/endpoint_impl.rs).
pub mod Keeping
use component_iroh.Prelude.{
  ℕ, List, [], ◌∷◌, Option, none, some, Result, ok, err, nat_key, lookup, insert,
}
use component_iroh.Endpoint.Types.{Error}
use component_iroh.Endpoint.Noq.{Noq}
use component_iroh.Endpoint.State.{Run, ended, panicked, out_of_fuel, ◌>>=◌, ConnEntry, State}

-- Each element of the list is what others do to the state between two attempts. The result is
-- `none` when the list ends before an attempt gives a value.
unfoldable pub wait_until {ℓ κ} :
    {S : Type ℓ} {R : Type κ}
    → (check : S → Run (S × Option R)) → List (S → S)
    → S
    → Run (S × Option R)
wait_until check [] s = check s
wait_until check (others ∷ more) s = elim (check s) [
  | panicked ↦ panicked
  | out_of_fuel ↦ out_of_fuel
  | ended (s', some r) ↦ ended (s', some r)
  | ended (s', none) ↦ wait_until check more (others s')
]

module _ (N : Noq) where
  -- `conns.get_mut(&handle).expect("connection entry")` and a change of that entry.
  unfoldable pub with_entry {ℓ} :
      {R : Type ℓ} → ℕ → (ConnEntry N → ConnEntry N × R) → State N → Run (State N × R)
  with_entry handle f s = elim (lookup handle s.conns) [
    | none ↦ panicked
    | some entry ↦ ended (record s { conns = insert handle ((f entry).0) s.conns }, (f entry).1)
  ]

  -- The same, where the change may panic.
  unfoldable pub with_entry_run {ℓ} :
      {R : Type ℓ} → ℕ → (ConnEntry N → Run (ConnEntry N × R)) → State N → Run (State N × R)
  with_entry_run handle f s = elim (lookup handle s.conns) [
    | none ↦ panicked
    | some entry ↦
        (f entry >>= (λ r. ended (record s { conns = insert handle (r.0) s.conns }, r.1)))
  ]

  -- The guard `if let Some(err) = &entry.error` in front of a call.
  unfoldable pub unless_failed {ℓ} :
      {R : Type ℓ}
      → ConnEntry N
      → (ConnEntry N → ConnEntry N × Option (Result R Error))
      → ConnEntry N × Option (Result R Error)
  unless_failed entry f = elim entry.error [ some e ↦ (entry, some (err e)) | none ↦ f entry ]
