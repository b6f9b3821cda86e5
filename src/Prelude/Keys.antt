-- ===== src/Prelude/Keys.antt =====
-- Decidable equality of byte lists, in a form that computes.
use Prim.Native.Nat.{ℕ}
use mathlib.Core.Path.{◌≡◌, refl, ap₂}
use mathlib.Core.List.{List, [], ◌∷◌}
use native.Mathlib.Decide.{ℕ_discrete}
use component_iroh.Prelude.Maps.{Key}

unfoldable pub bytes_eq : (a b : List ℕ) → Dec (a ≡ b)
unfolding ℕ_discrete
bytes_eq [] [] = yes refl
bytes_eq [] (y ∷ ys) = no (λ e. cc)
bytes_eq (x ∷ xs) [] = no (λ e. cc)
bytes_eq (x ∷ xs) (y ∷ ys) = elim (ℕ_discrete x y) [
  | no p ↦ no (λ e. p (cc))
  | yes p ↦ elim (bytes_eq xs ys) [ yes q ↦ yes (ap₂ ◌∷◌ p q) | no q ↦ no (λ e. q (cc)) ]
]

instance abbrev pub bytes_key : Key (List ℕ)
bytes_key = record { dec_eq = bytes_eq }
