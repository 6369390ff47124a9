-- ===== src/Prelude/Equality.antt =====
-- Python's `==` on the keys that the code puts in sets, as an interface, and membership by it.
use Prim.Native.String.{String}
use mathlib.Core.Bool.{Bool, true, false, ◌&&◌, ◌||◌}
use mathlib.Core.List.{List, [], ◌∷◌, Mem, mem-cons, mem-cons_self, mem-cons_of_mem, not-mem-nil}
use mathlib.Core.Logic.Or
use mathlib.Core.Logic.{◌↔◌, ◌⊎◌, inl, inr}
use mathlib.Core.Option.{Option, none, some}
use mathlib.Core.Path.{◌≡◌, refl}
use native.Mathlib.Omega.{arith}
use amundsen_fork.Prelude.Text.{str_eq, str_eq_iff}

pub record Eq (A : Type 0) : Type 0 where
  pub beq : A → A → Bool
  pub beq_iff : (a b : A) → (beq a b ≡ true) ↔ (a ≡ b)

instance abbrev pub string_eq : Eq String
string_eq = record { beq = str_eq; beq_iff = str_eq_iff }

abbrev option_beq : Option String → Option String → Bool
option_beq none none = true
option_beq (some a) (some b) = str_eq a b
option_beq _ _ = false

pub option_beq_iff : (a b : Option String) → (option_beq a b ≡ true) ↔ (a ≡ b)
option_beq_iff none none = ((λ _. refl), (λ _. refl))
option_beq_iff (some a) (some b) = ground (arith, str_eq_iff a b)
option_beq_iff none (some b) = ((λ h. cc), (λ h. cc))
option_beq_iff (some a) none = ((λ h. cc), (λ h. cc))

instance abbrev pub option_eq : Eq (Option String)
option_eq = record { beq = option_beq; beq_iff = option_beq_iff }

abbrev triple_beq : String × String × String → String × String × String → Bool
triple_beq (a, b, c) (x, y, z) = str_eq a x && (str_eq b y && str_eq c z)

pub triple_beq_iff : (s t : String × String × String) → (triple_beq s t ≡ true) ↔ (s ≡ t)
triple_beq_iff (a, b, c) (x, y, z) = ground (arith, str_eq_iff a x, str_eq_iff b y, str_eq_iff c z)

instance abbrev pub triple_eq : Eq (String × String × String)
triple_eq = record { beq = triple_beq; beq_iff = triple_beq_iff }

module _ {A : Type 0} ⦃e : Eq A⦄ where
  pub beq_refl : (a : A) → e.beq a a ≡ true
  beq_refl a = (e.beq_iff a a).1 refl

  -- To split on a test and keep what it says.
  pub beq-cases : (a b : A) → ((e.beq a b ≡ true) × (a ≡ b)) ⊎ (e.beq a b ≡ false)
  beq-cases a b = go (e.beq a b) refl
    where
      go : (t : Bool) → e.beq a b ≡ t → ((e.beq a b ≡ true) × (a ≡ b)) ⊎ (e.beq a b ≡ false)
      go true h = inl (h, (e.beq_iff a b).0 h)
      go false h = inr h

  -- `k in s`
  unfoldable pub contains : A → List A → Bool
  contains k [] = false
  contains k (x ∷ xs) = e.beq k x || contains k xs

  pub mem_of_contains : (k : A) (xs : List A) → contains k xs ≡ true → Mem k xs
  unfolding contains
  mem_of_contains k [] h = cc
  mem_of_contains k (x ∷ xs) h = elim (beq-cases k x) [
    | inl (_, p) ↦ rw p mem-cons_self
    | inr p ↦ mem-cons_of_mem x (mem_of_contains k xs (ground arith))
  ]

  pub contains_of_mem : (k : A) (xs : List A) → Mem k xs → contains k xs ≡ true
  unfolding contains
  contains_of_mem k [] m = absurd (not-mem-nil m)
  contains_of_mem k (x ∷ xs) m =
      Or.elim (hlevel) (mem-cons.0 m) (λ p. ground (arith, beq_refl x, (e.beq_iff k x).1 p))
        (λ n. ground (arith, contains_of_mem k xs n))
