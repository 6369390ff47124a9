-- ===== src/Common/Matching.antt =====
-- Where the groups of a pattern end.
use Prim.Native.Char.{Char, code}
use Prim.Native.String.{[], ◌∷◌}
use Prim.Native.String.append
use amundsen_fork.Prelude.{
  String, ◌<>◌, ◌==◌, ◌≡◌, refl, Bool, true, false, Bool-cases, inl, inr, ◌&&◌, not, none, some,
  List, arith,
}
use amundsen_fork.Common.Patterns.{Groups, literal, lazily, greedily, at_end}

-- The character does not occur in the text.
unfoldable pub avoids : Char → String → Bool
avoids c [] = true
avoids c (x ∷ s) = not (code x == code c) && avoids c s

code_refl : (c : Char) → (code c == code c) ≡ true
code_refl c = ground arith

both : (a b : Bool) → (a && b) ≡ true → (a ≡ true) × (b ≡ true)
both a b h = (ground arith, ground arith)

negated : (b : Bool) → not b ≡ true → b ≡ false
negated b h = ground arith

pub avoids-append :
    (c : Char) (s t : String) → avoids c s ≡ true → avoids c t ≡ true → avoids c (s <> t) ≡ true
unfolding avoids
avoids-append c [] t h k = rw (append.nil t) k
avoids-append c (x ∷ s) t h k =
    let (a, b) = both (not (code x == code c)) (avoids c s) h in
    rw (append.cons x s t, a) (avoids-append c s t b k)

pub lazily-literal :
    (c : Char) (rest : String → Groups) (s t : String) (gs : List String)
    → avoids c s ≡ true
    → rest t ≡ some gs
    → lazily (literal c rest) (s <> (c ∷ t)) ≡ some (List.◌∷◌ s gs)
unfolding avoids literal lazily
lazily-literal c rest [] t gs h r = rw (append.nil (c ∷ t), code_refl c, r) refl
lazily-literal c rest (x ∷ s) t gs h r =
    let (a, b) = both (not (code x == code c)) (avoids c s) h in
    rw (append.cons x s (c ∷ t), negated (code x == code c) a, lazily-literal c rest s t gs b r)
      refl

greedily-none :
    (c : Char) (rest : String → Groups) (s : String)
    → avoids c s ≡ true
    → greedily (literal c rest) s ≡ none
unfolding avoids literal greedily
greedily-none c rest [] h = refl
greedily-none c rest (x ∷ s) h =
    let (a, b) = both (not (code x == code c)) (avoids c s) h in
    rw (negated (code x == code c) a, greedily-none c rest s b) refl

pub greedily-literal :
    (c : Char) (rest : String → Groups) (s t : String) (gs : List String)
    → avoids c t ≡ true
    → rest t ≡ some gs
    → greedily (literal c rest) (s <> (c ∷ t)) ≡ some (List.◌∷◌ s gs)
unfolding literal greedily
greedily-literal c rest [] t gs h r =
    rw (append.nil (c ∷ t), greedily-none c rest t h, code_refl c, r) refl
greedily-literal c rest (x ∷ s) t gs h r =
    rw (append.cons x s (c ∷ t), greedily-literal c rest s t gs h r) refl

pub lazily-end : (s : String) → lazily at_end s ≡ some (List.◌∷◌ s List.[])
unfolding lazily
lazily-end [] = refl
lazily-end (x ∷ s) = rw (lazily-end s) refl

-- A text without the second of two literals does not match.
pub lazily-none :
    (a c : Char) (rest : String → Groups) (s : String)
    → avoids c s ≡ true
    → lazily (literal a (greedily (literal c rest))) s ≡ none
unfolding avoids literal lazily
lazily-none a c rest [] h = refl
lazily-none a c rest (x ∷ s) h =
    let (p, q) = both (not (code x == code c)) (avoids c s) h in
    elim (Bool-cases (code x == code a)) [
      | inl e ↦ rw (e, greedily-none c rest s q, lazily-none a c rest s q) refl
      | inr e ↦ rw (e, lazily-none a c rest s q) refl
    ]
