-- ===== src/Prelude/Ascii.antt =====
-- The methods of Python's `str` that the code calls, on ASCII text.
use Prim.Native.Char.{Char, code}
use Prim.Native.String.{String, [], ◌∷◌}
use mathlib.Core.Bool.{Bool, true, false, ◌&&◌, ◌||◌, not}
use mathlib.Core.List.{List}
use mathlib.Core.Path.{◌≡◌, refl}
use amundsen_fork.Prelude.Tests.{leb, ◌==◌, if◌then◌else◌}

abbrev is_upper_char : Char → Bool
is_upper_char c = leb 65 (code c) && leb (code c) 90

abbrev is_lower_char : Char → Bool
is_lower_char c = leb 97 (code c) && leb (code c) 122

-- `str.isspace` of one character.
abbrev is_space_char : Char → Bool
is_space_char c =
    code c == 32 || leb 9 (code c) && leb (code c) 13 || leb 28 (code c) && leb (code c) 31

abbrev pub is_empty : String → Bool
is_empty [] = true
is_empty (_ ∷ _) = false

-- The character of the second alphabet at the place where `c` stands in the first.
translate : String → String → Char → Char
translate (a ∷ s) (b ∷ t) c = if code c == code a then b else translate s t c
translate _ _ c = c

-- `str.lower()`
unfoldable pub lower : String → String
unfolding translate
lower [] = []
lower (c ∷ s) = translate "ABCDEFGHIJKLMNOPQRSTUVWXYZ" "abcdefghijklmnopqrstuvwxyz" c ∷ lower s

-- `str.upper()`
unfoldable pub upper : String → String
unfolding translate
upper [] = []
upper (c ∷ s) = translate "abcdefghijklmnopqrstuvwxyz" "ABCDEFGHIJKLMNOPQRSTUVWXYZ" c ∷ upper s

upper_from : Bool → String → Bool
upper_from cased [] = cased
upper_from cased (c ∷ s) = not (is_lower_char c) && upper_from (cased || is_upper_char c) s

-- `str.isupper()`
unfoldable pub is_upper : String → Bool
unfolding upper_from
is_upper s = upper_from false s

title_from : Bool → Bool → String → Bool
title_from cased previous [] = cased
title_from cased previous (c ∷ s) =
    (if is_upper_char c then not previous else if is_lower_char c then previous else true)
    && title_from (cased || is_upper_char c || is_lower_char c) (is_upper_char c || is_lower_char c)
        s

-- `str.istitle()`
unfoldable pub is_title : String → Bool
unfolding title_from
is_title s = title_from false false s

left_strip : String → String
left_strip [] = []
left_strip (c ∷ s) = let rest = left_strip s in if is_space_char c then rest else c ∷ s

right_strip : String → String
right_strip [] = []
right_strip (c ∷ s) =
    let rest = right_strip s in if is_empty rest && is_space_char c then [] else c ∷ rest

-- `str.strip()`
unfoldable pub strip : String → String
unfolding left_strip right_strip
strip s = right_strip (left_strip s)

push_char : Char → List String → List String
push_char c List.[] = List.◌∷◌ (c ∷ []) List.[]
push_char c (List.◌∷◌ w ws) = List.◌∷◌ (c ∷ w) ws

-- `str.split(sep)` for a separator of one character.
unfoldable pub split : Char → String → List String
unfolding push_char
split sep [] = List.◌∷◌ [] List.[]
split sep (c ∷ s) =
    if code c == code sep then List.◌∷◌ [] (split sep s) else push_char c (split sep s)

lower_runs : lower "Beta Tag-1" ≡ "beta tag-1"
unfolding lower
lower_runs = refl

upper_runs : upper "table_1" ≡ "TABLE_1"
unfolding upper
upper_runs = refl

is_title_runs : is_title "Programmatic_Description" ≡ true
unfolding is_title
is_title_runs = refl

is_title_fails : is_title "TableName" ≡ false
unfolding is_title
is_title_fails = refl

is_upper_runs : is_upper "BADGE_FOR" ≡ true
unfolding is_upper
is_upper_runs = refl

strip_runs : strip "  a b " ≡ "a b"
unfolding strip
strip_runs = refl

split_runs : split "," "a,b" ≡ List.◌∷◌ "a" (List.◌∷◌ "b" List.[])
unfolding split
split_runs = refl
