-- ===== src/Common/Patterns.antt =====
-- The regular expressions of the Atlas keys: groups of any characters between literal ones, matched
-- from the left with backtracking, on text without line ends.
use Prim.Native.Char.{Char, code}
use Prim.Native.String.{[], ◌∷◌}
use amundsen_fork.Prelude.{String, ◌==◌, Option, none, some, List, if◌then◌else◌}

-- `lazy` is `(?P<name>.*?)`, and `greedy` is `(?P<name>.*)`.
pub data Token : Type 0 where
  lit : Char → Token
  lazy : Token
  greedy : Token

-- The texts of the groups, in order.
abbrev pub Groups : Type 0
Groups = Option (List String)

abbrev pub begin : Groups → Groups
begin none = none
begin (some gs) = some (List.◌∷◌ [] gs)

abbrev pub extend : Char → Groups → Groups
extend c none = none
extend c (some List.[]) = none
extend c (some (List.◌∷◌ g gs)) = some (List.◌∷◌ (c ∷ g) gs)

abbrev pub or_else : Groups → Groups → Groups
or_else (some gs) other = some gs
or_else none other = other

-- The next character, and then the rest of the pattern.
unfoldable pub literal : Char → (String → Groups) → String → Groups
literal c rest [] = none
literal c rest (x ∷ s) = if code x == code c then rest s else none

-- As few characters as the rest of the pattern lets.
unfoldable pub lazily : (String → Groups) → String → Groups
lazily rest [] = begin (rest [])
lazily rest (x ∷ s) = or_else (begin (rest (x ∷ s))) (extend x (lazily rest s))

-- As many characters as the rest of the pattern lets.
unfoldable pub greedily : (String → Groups) → String → Groups
greedily rest [] = begin (rest [])
greedily rest (x ∷ s) = or_else (extend x (greedily rest s)) (begin (rest (x ∷ s)))

-- `$`
abbrev pub at_end : String → Groups
at_end [] = some List.[]
at_end (_ ∷ _) = none

unfoldable pub match_tokens : List Token → String → Groups
match_tokens List.[] s = at_end s
match_tokens (List.◌∷◌ (lit c) ts) s = literal c (match_tokens ts) s
match_tokens (List.◌∷◌ lazy ts) s = lazily (match_tokens ts) s
match_tokens (List.◌∷◌ greedy ts) s = greedily (match_tokens ts) s
