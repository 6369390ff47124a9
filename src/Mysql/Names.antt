-- ===== src/Mysql/Names.antt =====
-- The names of record files, without directory and extension: `FSMySQLCSVLoader.load` makes them,
-- and `MySQLCSVPublisher._get_table_name_from_file` takes the name of the table from them.
use Prim.Native.Char.{Char, code}
use Prim.Native.String.{[], ◌∷◌}
use amundsen_fork.Prelude.{
  ℕ, zero, suc, ◌/◌, ◌%◌, String, ◌<>◌, ◌==◌, Option, none, some, ltb, if◌then◌else◌, ◌≡◌, refl,
}
use amundsen_fork.Prelude.Effects.{Result, return, raise}

-- The character at a place of a text.
unfoldable pub char_at : ℕ → String → String
char_at i [] = []
char_at zero (c ∷ s) = c ∷ []
char_at (suc i) (c ∷ s) = char_at i s

-- `str` of a number, with at most `fuel` digits.
unfoldable pub decimal : ℕ → ℕ → String
decimal zero n = []
decimal (suc fuel) n =
    let more = decimal fuel (n / 10) in
    if ltb n 10 then char_at n "0123456789" else more <> char_at (n % 10) "0123456789"

-- `'{}_{}'.format(*key)`
unfoldable pub file_suffix : String × ℕ → String
file_suffix (table_name, number) = table_name <> ("_" ∷ decimal (suc number) number)

-- Whether the first character is the last separator, once the rest is split.
unfoldable pub rsplit_from :
    Char → Char → String → Option (String × String) → Option (String × String)
rsplit_from sep c s (some (before, after)) = some (c ∷ before, after)
rsplit_from sep c s none = if code c == code sep then some ([], s) else none

-- `rsplit(sep, 1)`: the parts before and after the last separator, if there is one.
unfoldable pub rsplit : Char → String → Option (String × String)
rsplit sep [] = none
rsplit sep (c ∷ s) = rsplit_from sep c s (rsplit sep s)

unfoldable pub first_part : Option (String × String) → Result String String
first_part none = raise "not enough values to unpack"
first_part (some (table_name, _)) = return table_name

unfoldable pub get_table_name_from_file : String → Result String String
get_table_name_from_file filename = first_part (rsplit "_" filename)

rsplit_runs : get_table_name_from_file "table_metadata_12" ≡ return "table_metadata"
unfolding get_table_name_from_file rsplit rsplit_from first_part
rsplit_runs = refl

decimal_runs : file_suffix ("table_metadata", 120) ≡ "table_metadata_120"
unfolding file_suffix decimal char_at
decimal_runs = refl
