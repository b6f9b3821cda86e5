-- ===== src/Guest/Settling/Cases.antt =====
-- Calls that go on by a test or by a value, and settle once each of their cases does.
use component_iroh.Prelude.{ℕ, Bool, true, false, Option, none, some, if◌then◌else◌}
use component_iroh.Guest.Task.{Task}
use component_iroh.Guest.Settling.{Settles}

module _ {ℓ} {S : Type ℓ} {w : Bool} {A : Type 0} {Q : S → A → Type 0} where
  pub by_test :
      (b : Bool) (f g : ℕ → Task S A) (s : S)
      → Settles w Q (λ k. f k s)
      → Settles w Q (λ k. g k s)
      → Settles w Q (λ k. (elim b as (λ _. Task S A) [ true ↦ f k | false ↦ g k ]) s)
  by_test true f g s a b = a
  by_test false f g s a b = b

  pub by_if :
      (b : Bool) (f g : ℕ → Task S A) (s : S)
      → Settles w Q (λ k. f k s)
      → Settles w Q (λ k. g k s)
      → Settles w Q (λ k. (if b then f k else g k) s)
  by_if true f g s a b = a
  by_if false f g s a b = b

  pub by_decision :
      {P : Type 0} (d : Dec P) (f g : Task S A) (s : S)
      → Settles w Q (λ k. f s)
      → Settles w Q (λ k. g s)
      → Settles w Q (λ k. (elim d as (λ _. Task S A) [ yes _ ↦ f | no _ ↦ g ]) s)
  by_decision (yes _) f g s a b = a
  by_decision (no _) f g s a b = b

  pub by_option :
      {B : Type 0} (o : Option B) (f : ℕ → B → Task S A) (g : ℕ → Task S A) (s : S)
      → ((b : B) → Settles w Q (λ k. f k b s))
      → Settles w Q (λ k. g k s)
      → Settles w Q (λ k. (elim o as (λ _. Task S A) [ none ↦ g k | some b ↦ f k b ]) s)
  by_option none f g s a b = b
  by_option (some x) f g s a b = a x
