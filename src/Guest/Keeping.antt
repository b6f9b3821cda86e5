-- ===== src/Guest/Keeping.antt =====
-- Calls of the demo's application that keep a predicate of what it notes (guest/src/endpoint.rs).
use component_iroh.Prelude.{Result, ok, err, Text}
use component_iroh.Endpoint.Noq.{Noq}
use component_iroh.Guest.Task.{Task, ◌>>=◌, pure, fail, gets, of_result, Post, and_then-Post}
use component_iroh.Guest.Side.{App, Demo, Side, on_conn, on_app}

module _ {N : Noq} (P : App → Type 0) where
  abbrev pub Leaves : {A : Type 0} → Side N → A → Type 0
  Leaves s a = P s.app

  -- If the call finishes, `P` still holds.
  pub record Keeps {A : Type 0} (m : Task (Side N) A) : Type 0 where
    pub keeps : (s : Side N) → P s.app → Post Leaves (m s)

  pub >>=-Keeps :
      {A B : Type 0} (m : Task (Side N) A) (f : A → Task (Side N) B)
      → Keeps m
      → ((a : A) → Keeps (f a))
      → Keeps (m >>= f)
  unfolding ◌>>=◌
  >>=-Keeps m f h g = record {
    keeps = λ s v. and_then-Post Leaves Leaves (m s) f (h.keeps s v) (λ t a q. (g a).keeps t q);
  }

  -- What follows a look at the state may use what was seen.
  pub gets-Keeps :
      {A B : Type 0} (look : Side N → A) (f : A → Task (Side N) B)
      → ((s : Side N) → P s.app → Post Leaves (f (look s) s))
      → Keeps (gets look >>= f)
  unfolding ◌>>=◌
  gets-Keeps look f h = record { keeps = h }

  pub of_result-Keeps : {A : Type 0} (r : Result A Text) → Keeps (of_result r)
  of_result-Keeps (ok a) = record { keeps = λ s v. v }
  of_result-Keeps (err e) = record { keeps = λ s v. tt }

  pub pure-Keeps : {A : Type 0} (a : A) → Keeps (pure a)
  pure-Keeps a = record { keeps = λ s v. v }

  pub fail-Keeps : {A : Type 0} (e : Text) → Keeps (fail {A = A} e)
  fail-Keeps e = record { keeps = λ s v. tt }

module _ {N : Noq} (D : Demo N) (P : App → Type 0) where
  pub on_conn-Keeps : {A : Type 0} (f : N.Conn → N.Conn × A) → Keeps P (on_conn {N = N} f)
  on_conn-Keeps f = record { keeps = λ s v. v }

  pub on_app-Keeps : (f : App → App) → ((a : App) → P a → P (f a)) → Keeps P (on_app {N = N} f)
  on_app-Keeps f h = record { keeps = λ s v. h s.app v }
