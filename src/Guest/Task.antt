-- ===== src/Guest/Task.antt =====
-- How a call of the spike (guest/src) ends, with the state it leaves. A call that needs more of the
-- environment than there is stays suspended; a loop on fuel may run out of it.
use component_iroh.Prelude.{◌≡◌, refl, Result, ok, err, Text}

pub data Outcome {ℓ} (S : Type ℓ) (A : Type 0) : Type ℓ where
  finished : S → A → Outcome S A
  failed : S → Text → Outcome S A
  suspended : S → Outcome S A
  out_of_fuel : Outcome S A

abbrev pub Task {ℓ} : Type ℓ → Type 0 → Type ℓ
Task S A = S → Outcome S A

-- What follows a call that ended.
abbrev pub and_then {ℓ} : {S : Type ℓ} {A B : Type 0} → Outcome S A → (A → Task S B) → Outcome S B
and_then (finished s a) f = f a s
and_then (failed s e) f = failed s e
and_then (suspended s) f = suspended s
and_then out_of_fuel f = out_of_fuel

infixl 5 ◌>>=◌
unfoldable pub ◌>>=◌ {ℓ} : {S : Type ℓ} {A B : Type 0} → Task S A → (A → Task S B) → Task S B
(m >>= f) s = and_then (m s) f

module _ {ℓ} {S : Type ℓ} where
  abbrev pub pure : {A : Type 0} → A → Task S A
  pure a s = finished s a

  abbrev pub fail : {A : Type 0} → Text → Task S A
  fail e s = failed s e

  abbrev pub gets : {A : Type 0} → (S → A) → Task S A
  gets f s = finished s (f s)

  abbrev pub modify : (S → S) → Task S (Unit {0})
  modify f s = finished (f s) tt

  abbrev pub of_result : {A : Type 0} → Result A Text → Task S A
  of_result (ok a) s = finished s a
  of_result (err e) s = failed s e

  -- What a call that finished has: its state and its value satisfy `Q`.
  abbrev pub Post {κ} : {A : Type 0} → (S → A → Type κ) → Outcome S A → Type κ
  Post Q (finished s a) = Q s a
  Post Q (failed s e) = Unit
  Post Q (suspended s) = Unit
  Post Q out_of_fuel = Unit

  pub and_then-Post {κ μ} :
      {A B : Type 0} (Q : S → A → Type κ) (R : S → B → Type μ) (o : Outcome S A) (f : A → Task S B)
      → Post Q o
      → ((s : S) (a : A) → Q s a → Post R (f a s))
      → Post R (and_then o f)
  and_then-Post Q R (finished s a) f q h = h s a q
  and_then-Post Q R (failed s e) f q h = tt
  and_then-Post Q R (suspended s) f q h = tt
  and_then-Post Q R out_of_fuel f q h = tt

  pub finished-Post {κ} :
      {A : Type 0} (Q : S → A → Type κ) (o : Outcome S A) (s : S) (a : A)
      → o ≡ finished s a
      → Post Q o
      → Q s a
  finished-Post Q o s a e q = rw e at q

  pub Post-mono {κ μ} :
      {A : Type 0} (Q : S → A → Type κ) (R : S → A → Type μ) (o : Outcome S A)
      → ((s : S) (a : A) → Q s a → R s a)
      → Post Q o
      → Post R o
  Post-mono Q R (finished s a) h q = h s a q
  Post-mono Q R (failed s e) h q = tt
  Post-mono Q R (suspended s) h q = tt
  Post-mono Q R out_of_fuel h q = tt

  -- A check whose result is known if it passes.
  pub of_result-Post {κ} :
      {A B : Type 0} (R : S → B → Type κ) (r : Result A Text) (f : A → Task S B) (s : S)
      → ((a : A) → r ≡ ok a → Post R (f a s))
      → Post R (and_then (of_result r s) f)
  of_result-Post R (ok a) f s h = h a refl
  of_result-Post R (err e) f s h = tt

  -- A call of which nothing is known.
  pub any-Post {κ} :
      {A B : Type 0} (R : S → B → Type κ) (o : Outcome S A) (f : A → Task S B)
      → ((s : S) (a : A) → Post R (f a s))
      → Post R (and_then o f)
  any-Post R (finished s a) f h = h s a
  any-Post R (failed s e) f h = tt
  any-Post R (suspended s) f h = tt
  any-Post R out_of_fuel f h = tt

  pub last-Post {κ} :
      {A : Type 0} (R : S → A → Type κ) (r : Result A Text) (s : S)
      → ((a : A) → r ≡ ok a → R s a)
      → Post R (of_result r s)
  last-Post R (ok a) s h = h a refl
  last-Post R (err e) s h = tt
