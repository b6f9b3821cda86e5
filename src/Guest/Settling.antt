-- ===== src/Guest/Settling.antt =====
-- Calls whose loops take fuel: with enough of it a call ends as it does with any more, and not for
-- want of fuel.
pub mod Cases
use component_iroh.Prelude.{
  ℕ, Bool, true, false, zero, suc, ◌+◌, ◌≤◌, ◌≡◌, refl, ◌∙◌, ap, Option, Result, ok, err, Text,
  arith, none, some, if◌then◌else◌,
}
use component_iroh.Guest.Task.{
  Outcome, finished, failed, suspended, out_of_fuel, Task, and_then, of_result, Post,
}

-- A call that did not run out of fuel; what it has, if it finished, satisfies `Q`. `may_wait` says
-- whether it may stay suspended.
abbrev pub IsFueled {ℓ} :
    {S : Type ℓ} {A : Type 0} → (may_wait : Bool) → (S → A → Type 0) → Outcome S A → Type 0
IsFueled may_wait Q (finished s a) = Q s a
IsFueled may_wait Q (failed s e) = Unit
IsFueled true Q (suspended s) = Unit
IsFueled false Q (suspended s) = ⊥
IsFueled may_wait Q out_of_fuel = ⊥

pub record Settles {ℓ} (may_wait : Bool) {S : Type ℓ} {A : Type 0} (Q : S → A → Type 0)
    (run : ℕ → Outcome S A) : Type ℓ where
  pub fuel : ℕ
  pub outcome : Outcome S A
  pub fueled : IsFueled may_wait Q outcome
  pub settled : (n : ℕ) → fuel ≤ n → run n ≡ outcome

-- A call that ends.
abbrev pub Returns {ℓ} : {S : Type ℓ} {A : Type 0} → (ℕ → Outcome S A) → Type ℓ
Returns run = Settles false (λ _ _. Unit) run

still_waits {ℓ} :
    {S : Type ℓ} {A B : Type 0} (w : Bool) (Q : S → A → Type 0) (R : S → B → Type 0) (s : S)
    → IsFueled w Q (suspended s)
    → IsFueled w R (suspended s)
still_waits true Q R s h = tt
still_waits false Q R s h = h

pub IsFueled-Post {ℓ} :
    {S : Type ℓ} {A : Type 0} (w : Bool) (R Q : S → A → Type 0) (o : Outcome S A)
    → IsFueled w R o
    → Post Q o
    → IsFueled w Q o
IsFueled-Post w R Q (finished s a) f p = p
IsFueled-Post w R Q (failed s e) f p = tt
IsFueled-Post w R Q (suspended s) f p = still_waits w R Q s f
IsFueled-Post w R Q out_of_fuel f p = absurd f

pub IsFueled-finished {ℓ} :
    {S : Type ℓ} {A : Type 0} (w : Bool) (R Q : S → A → Type 0) (o : Outcome S A)
    → IsFueled w R o
    → ((s : S) (a : A) → o ≡ finished s a → Q s a)
    → IsFueled w Q o
IsFueled-finished w R Q (finished s a) f h = h s a refl
IsFueled-finished w R Q (failed s e) f h = tt
IsFueled-finished w R Q (suspended s) f h = still_waits w R Q s f
IsFueled-finished w R Q out_of_fuel f h = absurd f

module _ {ℓ} {S : Type ℓ} {w : Bool} where
  pub at_once :
      {A : Type 0} (Q : S → A → Type 0) (o : Outcome S A) → IsFueled w Q o → Settles w Q (λ n. o)
  at_once Q o h = record { fuel = 0; outcome = o; fueled = h; settled = λ n le. refl }

  pub result-Settles :
      {A : Type 0} (Q : S → A → Type 0) (r : Result A Text) (s : S)
      → ((a : A) → Q s a)
      → Settles w Q (λ n. of_result r s)
  result-Settles Q (ok a) s h = at_once Q (finished s a) (h a)
  result-Settles Q (err e) s h = at_once Q (failed s e) tt

  -- A loop that has taken a round.
  pub later :
      {A : Type 0} (Q : S → A → Type 0) (run rest : ℕ → Outcome S A)
      → ((n : ℕ) → run (suc n) ≡ rest n)
      → Settles w Q rest
      → Settles w Q run
  later Q run rest step k = record {
    fuel = suc k.fuel;
    outcome = k.outcome;
    fueled = k.fueled;
    settled = λ n. later_at run rest step k.fuel k.outcome k.settled n;
  }
    where
      later_at :
          {B : Type 0} (run' rest' : ℕ → Outcome S B)
          → ((n : ℕ) → run' (suc n) ≡ rest' n)
          → (fuel : ℕ) (o : Outcome S B) → ((n : ℕ) → fuel ≤ n → rest' n ≡ o)
          → (n : ℕ) → suc fuel ≤ n
          → run' n ≡ o
      later_at run' rest' step' fuel o same zero le = absurd (omega arith)
      later_at run' rest' step' fuel o same (suc n) le = step' n ∙ same n (omega arith)

  -- A call on more fuel.
  pub reindexed :
      {A : Type 0} (Q : S → A → Type 0) (g : ℕ → ℕ) (run : ℕ → Outcome S A)
      → ((n : ℕ) → n ≤ g n)
      → Settles w Q run
      → Settles w Q (λ n. run (g n))
  reindexed Q g run more k = record {
    fuel = k.fuel;
    outcome = k.outcome;
    fueled = k.fueled;
    settled = λ n le. k.settled (g n) (omega (arith, more n, le));
  }

  -- A call that takes no fuel.
  pub Settles-IsFueled :
      {A : Type 0} (Q : S → A → Type 0) (o : Outcome S A) → Settles w Q (λ n. o) → IsFueled w Q o
  Settles-IsFueled Q o k = rw (k.settled k.fuel (omega arith)) k.fueled

  -- What is made of the outcome.
  pub through {κ} :
      {A B : Type 0} {T : Type κ} {v : Bool} (Q : S → A → Type 0) (R : T → B → Type 0)
      (F : Outcome S A → Outcome T B) (run : ℕ → Outcome S A)
      → Settles w Q run
      → ((o : Outcome S A) → IsFueled w Q o → IsFueled v R (F o))
      → Settles v R (λ n. F (run n))
  through Q R F run k h = record {
    fuel = k.fuel;
    outcome = F k.outcome;
    fueled = h k.outcome k.fueled;
    settled = λ n le. ap F (k.settled n le);
  }

  after :
      {A B : Type 0} (Q : S → A → Type 0) (R : S → B → Type 0) (m : ℕ → Outcome S A)
      (f : ℕ → A → Task S B) (fuel : ℕ) (o : Outcome S A)
      → IsFueled w Q o
      → ((n : ℕ) → fuel ≤ n → m n ≡ o)
      → ((s : S) (a : A) → Q s a → Settles w R (λ n. f n a s))
      → Settles w R (λ n. and_then (m n) (f n))
  after Q R m f fuel (finished s a) h same g =
      let k = g s a h in
      record {
        fuel = fuel + k.fuel;
        outcome = k.outcome;
        fueled = k.fueled;
        settled =
            λ n le. ap (λ o. and_then o (f n)) (same n (omega arith)) ∙ k.settled n (omega arith);
      }
  after Q R m f fuel (failed s e) h same g = record {
    fuel = fuel;
    outcome = failed s e;
    fueled = tt;
    settled = λ n le. ap (λ o. and_then o (f n)) (same n le);
  }
  after Q R m f fuel (suspended s) h same g = record {
    fuel = fuel;
    outcome = suspended s;
    fueled = still_waits w Q R s h;
    settled = λ n le. ap (λ o. and_then o (f n)) (same n le);
  }
  after Q R m f fuel out_of_fuel h same g = absurd h

  pub and_then-Settles :
      {A B : Type 0} (Q : S → A → Type 0) (R : S → B → Type 0) (m : ℕ → Outcome S A)
      (f : ℕ → A → Task S B)
      → Settles w Q m
      → ((s : S) (a : A) → Q s a → Settles w R (λ n. f n a s))
      → Settles w R (λ n. and_then (m n) (f n))
  and_then-Settles Q R m f k g = after Q R m f k.fuel k.outcome k.fueled k.settled g

module _ {ℓ} {S : Type ℓ} where
  pub result-Returns : {A : Type 0} (r : Result A Text) (s : S) → Returns (λ n. of_result r s)
  result-Returns r s = result-Settles _ r s (λ a. tt)

  pub and_then-Returns :
      {A B : Type 0} (m : ℕ → Outcome S A) (f : ℕ → A → Task S B)
      → Returns m
      → ((s : S) (a : A) → Unit {0} → Returns (λ n. f n a s))
      → Returns (λ n. and_then (m n) (f n))
  and_then-Returns m f k g = and_then-Settles _ _ m f k g

-- A call that ends is one that ends or waits.
pub patient {ℓ} :
    {S : Type ℓ} {A : Type 0} (run : ℕ → Outcome S A) → Returns run → Settles true (λ _ _. Unit) run
patient run k = through _ _ (λ o. o) run k (λ o h. waits o h)
  where
    waits :
        {T : Type ℓ} {B : Type 0} (o : Outcome T B)
        → IsFueled false (λ _ _. Unit {0}) o
        → IsFueled true (λ _ _. Unit {0}) o
    waits (finished s a) h = tt
    waits (failed s e) h = tt
    waits (suspended s) h = tt
    waits out_of_fuel h = h
