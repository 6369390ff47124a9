-- ===== src/Models/Rds/Order.antt =====
-- Lists of rows in which each row follows the rows that it refers to.
use mathlib.Core.Logic.Or
use mathlib.Core.List.{mem-cons, mem-cons_self, mem-cons_of_mem, Mem-prop}
use amundsen_fork.Prelude.{
  String, ◌≡◌, refl, Bool-cases, inl, inr, List, [], ◌∷◌, ◌++◌, map, Mem, All, All-mono, contains,
  mem_of_contains, string_eq,
}
use amundsen_fork.Models.Serialized.{emit_new, emit_new_seen, emit_new_fresh}
use amundsen_fork.Models.Rds.{RdsModel, Referred, Key, own, parents}

-- All of the keys are among those seen.
abbrev pub Seen : List Key → List Key → Type 0
Seen seen ks = All (λ k. Mem k seen) ks

-- Each row refers to keys that were seen before, or that an earlier row of the list has added.
abbrev pub ParentsFirst : List Key → List RdsModel → Type 0
ParentsFirst seen [] = Unit
ParentsFirst seen (r ∷ rs) = Seen seen (parents r) × ParentsFirst (own r ++ seen) rs

-- What has been seen after the rows.
abbrev pub after : List Key → List RdsModel → List Key
after seen [] = seen
after seen (r ∷ rs) = after (own r ++ seen) rs

abbrev pub Within : List Key → List Key → Type 0
Within seen more = (k : Key) → Mem k seen → Mem k more

pub Seen-Within : (ks seen more : List Key) → Within seen more → Seen seen ks → Seen more ks
Seen-Within ks seen more w h = All-mono _ _ ks (λ k m. w k m) h

pub Within-append : (ks seen more : List Key) → Within seen more → Within (ks ++ seen) (ks ++ more)
Within-append [] seen more w k m = w k m
Within-append (x ∷ ks) seen more w k m =
    Or.elim Mem-prop (mem-cons.0 m) (λ p. rw p mem-cons_self)
      (λ n. mem-cons_of_mem x (Within-append ks seen more w k n))

pub Within-later : (ks seen : List Key) → Within seen (ks ++ seen)
Within-later [] seen k m = m
Within-later (x ∷ ks) seen k m = mem-cons_of_mem x (Within-later ks seen k m)

pub ParentsFirst-Within :
    (rs : List RdsModel) (seen more : List Key)
    → Within seen more
    → ParentsFirst seen rs
    → ParentsFirst more rs
ParentsFirst-Within [] seen more w h = tt
ParentsFirst-Within (r ∷ rs) seen more w h = (
  Seen-Within (parents r) seen more w h.0,
  ParentsFirst-Within rs (own r ++ seen) (own r ++ more) (Within-append (own r) seen more w) h.1,
)

pub ParentsFirst-append :
    (rs ss : List RdsModel) (seen : List Key)
    → ParentsFirst seen rs
    → ParentsFirst (after seen rs) ss
    → ParentsFirst seen (rs ++ ss)
ParentsFirst-append [] ss seen h k = k
ParentsFirst-append (r ∷ rs) ss seen h k = (h.0, ParentsFirst-append rs ss (own r ++ seen) h.1 k)

pub after-Within : (rs : List RdsModel) (seen : List Key) → Within seen (after seen rs)
after-Within [] seen k m = m
after-Within (r ∷ rs) seen k m = after-Within rs (own r ++ seen) k (Within-later (own r) seen k m)

pub after-append :
    (rs ss : List RdsModel) (seen : List Key) → after seen (rs ++ ss) ≡ after (after seen rs) ss
after-append [] ss seen = refl
after-append (r ∷ rs) ss seen = after-append rs ss (own r ++ seen)

pub after_mono :
    (rs : List RdsModel) (seen more : List Key)
    → Within seen more
    → Within (after seen rs) (after more rs)
after_mono [] seen more w = w
after_mono (r ∷ rs) seen more w =
    after_mono rs (own r ++ seen) (own r ++ more) (Within-append (own r) seen more w)

add_known : (k : Key) (seen : List Key) → Mem k seen → Within (k ∷ seen) seen
add_known k seen m j n = Or.elim Mem-prop (mem-cons.0 n) (λ p. rw p m) (λ q. q)

-- `Ok` are the keys that the tables may give to shared rows; no two of them are spelled alike.
module _ (Ok : Key → Type 0) (apart : (a b : Key) → Ok a → Ok b → a.1 ≡ b.1 → a ≡ b) where
  abbrev pub rows : List (String × RdsModel) → List RdsModel
  rows xs = map (λ r. r.1) xs

  abbrev pub IsProper : String × RdsModel → Type 0
  IsProper (rk, r) = (k : Referred) × (own r ≡ (k, rk) ∷ []) × Ok (k, rk)

  -- A key in the set has been seen.
  abbrev pub Known : List String → List Key → Type 0
  Known keys seen = (a : Key) → Ok a → Mem a.1 keys → Mem a seen

  Known-cons :
      (a : Key) (keys : List String) (seen : List Key)
      → Ok a
      → Known keys seen
      → Known (a.1 ∷ keys) (a ∷ seen)
  Known-cons a keys seen o h b q m =
      Or.elim Mem-prop (mem-cons.0 m) (λ p. rw (apart b a q o p) mem-cons_self)
        (λ n. mem-cons_of_mem a (h b q n))

  pub record Emitted (xs : List (String × RdsModel)) (seen : List Key)
      (out : List (String × RdsModel) × List String) : Type 0 where
    pub first : ParentsFirst seen (rows out.0)
    pub known : Known out.1 (after seen (rows out.0))
    pub all : Within (after seen (rows xs)) (after seen (rows out.0))

  pub emit-Emitted :
      (xs : List (String × RdsModel)) (keys : List String) (seen : List Key)
      → All IsProper xs
      → Known keys seen
      → ParentsFirst seen (rows xs)
      → Emitted xs seen (emit_new (λ r. r.0) xs keys)
  emit-Emitted [] keys seen o h p =
      unfold emit_new in record { first = tt; known = h; all = λ k m. m }
  emit-Emitted ((rk, r) ∷ xs) keys seen ((k, e, o), os) h p = elim (Bool-cases (contains rk keys)) [
    | inl s ↦
        let w : Within (own r ++ seen) seen =
          rw e (add_known (k, rk) seen (h (k, rk) o (mem_of_contains rk keys s))) in
        let rest =
          emit-Emitted xs keys seen os h
            (ParentsFirst-Within (rows xs) (own r ++ seen) seen w p.1) in
        rw (emit_new_seen (λ x. x.0) (rk, r) xs keys s) (record {
          first = rest.first;
          known = rest.known;
          all = λ a m. rest.all a (after_mono (rows xs) (own r ++ seen) seen w a m);
        })
    | inr s ↦
        let old : Known (rk ∷ keys) (own r ++ seen) = rw e (Known-cons (k, rk) keys seen o h) in
        let rest = emit-Emitted xs (rk ∷ keys) (own r ++ seen) os old p.1 in
        rw (emit_new_fresh (λ x. x.0) (rk, r) xs keys s)
          (record { first = (p.0, rest.first); known = rest.known; all = rest.all })
  ]
