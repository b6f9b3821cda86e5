-- ===== src/Virt/Rounds.antt =====
-- The two passes of one round of `poll` (experiments/udp-wake/virt/src/lib.rs).
use mathlib.Core.List.{Memᴰ}
use mathlib.Core.Option
use component_iroh.Prelude.{
  ℕ, zero, suc, ◌+◌, ◌≡◌, ◌<◌, refl, ap, subst, List, [], ◌∷◌, ◌++◌, Option, some, inl, inr,
  Bool-cases, nat_key, get_elem?, length, All, All-append, arith, if◌then◌else◌,
}
use component_iroh.Virt.{
  World, has_data, Inner, host, udp_incoming, always_ready, never, ready_local, local_ready,
  host_backed, fired_one, fired_ready,
}
use component_iroh.Virt.Readiness.{
  HasData, has_data-HasData, has_data_lem, local_ready-HasData, Fires, IsReady, constant, filled,
  fires, backed_count, IsBacked,
}

module _ (ps : List Inner) (answers : List (List ℕ)) where
  pub IsReady-mono :
      (w w' : World) (i : ℕ)
      → ((t : ℕ) → HasData w t → HasData w' t)
      → IsReady ps answers w i
      → IsReady ps answers w' i
  IsReady-mono w w' i keep (constant e) = constant e
  IsReady-mono w w' i keep (filled socket e h) = filled socket e (keep socket h)
  IsReady-mono w w' i keep (fires p e f) = fires p e f

  pub All-IsReady-mono :
      (w w' : World) (is : List ℕ)
      → ((t : ℕ) → HasData w t → HasData w' t)
      → All (IsReady ps answers w) is
      → All (IsReady ps answers w') is
  All-IsReady-mono w w' [] keep a = tt
  All-IsReady-mono w w' (i ∷ is) keep a =
      (IsReady-mono w w' i keep a.0, All-IsReady-mono w w' is keep a.1)

  -- The list stands in `ps` from index `i` on.
  abbrev pub StandsAt : ℕ → List Inner → Type 0
  StandsAt i qs = (k : ℕ) (q : Inner) → get_elem? qs k ≡ some q → get_elem? ps (i + k) ≡ some q

  pub StandsAt-head :
      (i : ℕ) (q : Inner) (qs : List Inner) → StandsAt i (q ∷ qs) → get_elem? ps i ≡ some q
  StandsAt-head i q qs s = subst (λ j. get_elem? ps j ≡ some q) (omega arith) (s 0 q refl)

  pub StandsAt-tail :
      (i : ℕ) (q : Inner) (qs : List Inner) → StandsAt i (q ∷ qs) → StandsAt (i + 1) qs
  StandsAt-tail i q qs s k p h = subst (λ j. get_elem? ps j ≡ some p) (omega arith) (s (suc k) p h)

  pub local_ready-IsReady :
      (w : World) (i : ℕ) (qs : List Inner)
      → StandsAt i qs
      → All (IsReady ps answers (local_ready w i qs).0) (local_ready w i qs).1
  unfolding local_ready ready_local
  local_ready-IsReady w i [] s = tt
  local_ready-IsReady w i (always_ready ∷ qs) s = (
    constant (StandsAt-head i always_ready qs s),
    local_ready-IsReady w (i + 1) qs (StandsAt-tail i always_ready qs s),
  )
  local_ready-IsReady w i (host p ∷ qs) s =
      local_ready-IsReady w (i + 1) qs (StandsAt-tail i (host p) qs s)
  local_ready-IsReady w i (never ∷ qs) s =
      local_ready-IsReady w (i + 1) qs (StandsAt-tail i never qs s)
  local_ready-IsReady w i (udp_incoming socket ∷ qs) s =
      let rest =
        local_ready-IsReady (has_data w socket).0 (i + 1) qs
          (StandsAt-tail i (udp_incoming socket) qs s) in
      elim (Bool-cases (has_data w socket).1) [
        | inl e ↦ rw e (
          filled socket (StandsAt-head i (udp_incoming socket) qs s) (
              local_ready-HasData (has_data w socket).0 (i + 1) qs socket
                (has_data_lem w socket e)),
          rest,
        )
        | inr e ↦ rw e rest
      ]

  -- Each entry of the map leads to a pollable with a host counterpart.
  abbrev pub Leads : ℕ → Type 0
  Leads j = (q : Inner) × (get_elem? ps j ≡ some q) × IsBacked q

  pub record Mapped (i : ℕ) (qs : List Inner) : Type 0 where
    pub back : List ℕ
    pub is_back : host_backed i qs ≡ some back
    pub sized : length back ≡ backed_count qs
    pub leads : All Leads back

  pub host_backed-Mapped :
      (w : World) (i : ℕ) (qs : List Inner)
      → StandsAt i qs
      → (local_ready w i qs).1 ≡ []
      → Mapped i qs
  unfolding local_ready ready_local host_backed
  host_backed-Mapped w i [] s e = record { back = []; is_back = refl; sized = refl; leads = tt }
  host_backed-Mapped w i (always_ready ∷ qs) s e = absurd (ground arith)
  host_backed-Mapped w i (never ∷ qs) s e =
      let m = host_backed-Mapped w (i + 1) qs (StandsAt-tail i never qs s) e in
      record { back = m.back; is_back = m.is_back; sized = m.sized; leads = m.leads }
  host_backed-Mapped w i (host p ∷ qs) s e =
      let m = host_backed-Mapped w (i + 1) qs (StandsAt-tail i (host p) qs s) e in
      record {
        back = i ∷ m.back;
        is_back = ap (Option.map (◌∷◌ i)) m.is_back;
        sized = ap suc m.sized;
        leads = ((host p, StandsAt-head i (host p) qs s, tt), m.leads);
      }
  host_backed-Mapped w i (udp_incoming socket ∷ qs) s e =
      let m =
        host_backed-Mapped (has_data w socket).0 (i + 1) qs
          (StandsAt-tail i (udp_incoming socket) qs s) (ground arith) in
      record {
        back = i ∷ m.back;
        is_back = ap (Option.map (◌∷◌ i)) m.is_back;
        sized = ap suc m.sized;
        leads = ((udp_incoming socket, StandsAt-head i (udp_incoming socket) qs s, tt), m.leads);
      }

  -- The round does not panic, gives ready indices, and takes nothing out of a queue.
  pub record Progressed (w : World) (o : Option (World × List ℕ)) : Type 0 where
    pub after : World
    pub indices : List ℕ
    pub is_some : o ≡ some (after, indices)
    pub all_ready : All (IsReady ps answers after) indices
    pub keeps : (t : ℕ) → HasData w t → HasData after t

  pub fired_one-Progressed :
      (w : World) (i : ℕ) (q : Inner)
      → get_elem? ps i ≡ some q
      → IsBacked q
      → Fires ps answers i
      → Progressed w (fired_one w i (some q))
  unfolding fired_one
  fired_one-Progressed w i (host p) e b f = record {
    after = w;
    indices = i ∷ [];
    is_some = refl;
    all_ready = (fires p e f, tt);
    keeps = λ t h. h;
  }
  fired_one-Progressed w i (udp_incoming socket) e b f = record {
    after = (has_data w socket).0;
    indices = if (has_data w socket).1 then i ∷ [] else [];
    is_some = refl;
    all_ready = elim (Bool-cases (has_data w socket).1) [
      | inl d ↦ rw d (filled socket e (has_data_lem w socket d), tt)
      | inr d ↦ rw d tt
    ];
    keeps = has_data-HasData w socket;
  }
  fired_one-Progressed w i always_ready e b f = absurd b
  fired_one-Progressed w i never e b f = absurd b

  module _ (back : List ℕ) (mapped : host_backed 0 ps ≡ some back) (leads : All Leads back) where
    pub entry_of :
        (js : List ℕ) (h : ℕ)
        → All Leads js
        → h < length js
        → (j : ℕ) × (get_elem? js h ≡ some j) × Leads j
    entry_of [] h a l = absurd (omega arith)
    entry_of (j ∷ js) zero a l = (j, refl, a.0)
    entry_of (j ∷ js) (suc h) a l = entry_of js h a.1 (omega arith)

    pub fired_ready-Progressed :
        (w : World) (fired : List ℕ)
        → ((h : ℕ) → Memᴰ h fired → (f : List ℕ) × Memᴰ f answers × Memᴰ h f)
        → All (λ h. h < length back) fired
        → Progressed w (fired_ready w ps back fired)
    unfolding fired_ready
    fired_ready-Progressed w [] given a = record {
      after = w;
      indices = [];
      is_some = refl;
      all_ready = tt;
      keeps = λ t h. h;
    }
    fired_ready-Progressed w (h ∷ fired) given a =
        let (j, e, (q, at, b)) = entry_of back h leads a.0 in
        let (f, m, n) = given h (Memᴰ.head refl) in
        let one = fired_one-Progressed w j q at b (record {
          back = back;
          mapped = mapped;
          fired = f;
          given = m;
          h = h;
          among = n;
          is_entry = e;
        }) in
        let rest = fired_ready-Progressed one.after fired (λ k o. given k (Memᴰ.tail o)) a.1 in
        record {
          after = rest.after;
          indices = one.indices ++ rest.indices;
          is_some = ground (arith, e, at, one.is_some, rest.is_some);
          all_ready =
              All-append (IsReady ps answers rest.after) one.indices rest.indices
                (All-IsReady-mono one.after rest.after one.indices rest.keeps one.all_ready)
                rest.all_ready;
          keeps = λ t d. rest.keeps t (one.keeps t d);
        }
