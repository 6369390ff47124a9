-- ===== src/Prelude/Effects.antt =====
-- Statements that act on the outside world and may raise. What was done before an exception
-- stays done, so the world is returned on the raising paths too.

use mathlib.Core.Path.{◌≡◌, refl}
use mathlib.Core.Logic.{◌⊎◌, inl, inr}
use native.Mathlib.Omega.{arith}

pub data Result (E A : Type 0) : Type 0 where
  return : A → Result E A
  raise : E → Result E A

pub Result-cases :
    {E A : Type 0} (r : Result E A) → ((a : A) × (r ≡ return a)) ⊎ ((e : E) × (r ≡ raise e))
Result-cases (return a) = inl (a, refl)
Result-cases (raise e) = inr (e, refl)

pub raise_return : {E A : Type 0} {e : E} {a : A} → ◌≡◌ {A = Result E A} (raise e) (return a) → ⊥
raise_return h = ground arith

abbrev pub Action : Type 0 → Type 0 → Type 0 → Type 0
Action W E A = W → Result E A × W

module _ {W E A : Type 0} where
  abbrev pub pure : A → Action W E A
  pure a w = (return a, w)

  abbrev pub throw : E → Action W E A
  throw e w = (raise e, w)

  -- `try: body` / `finally: cleanup`: an exception of the cleanup replaces that of the body.
  abbrev pub finally : Action W E A → Action W E (Unit {0}) → Action W E A
  finally body cleanup w =
      let (r, after) = body w in
      let (c, end) = cleanup after in elim c [ return _ ↦ (r, end) | raise e ↦ (raise e, end) ]

module _ {W E A B : Type 0} where
  abbrev pub and_then : Result E A → (A → Action W E B) → Action W E B
  and_then (return a) f = f a
  and_then (raise e) f = throw e

  infixl 5 ◌>>=◌ ◌>>◌
  abbrev pub ◌>>=◌ : Action W E A → (A → Action W E B) → Action W E B
  m >>= f = λ w. let (r, after) = m w in and_then r f after

  abbrev pub ◌>>◌ : Action W E A → Action W E B → Action W E B
  m >> n = m >>= λ _. n
