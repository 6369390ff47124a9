-- ===== src/Mysql/Filed.antt =====
-- The files of the loader hold the rows that were loaded, each under its table.
use Prim.Native.Char.{Char, code}
use Prim.Native.String.{[], ◌∷◌}
use Prim.Native.String.append
use amundsen_fork.Prelude.{
  ℕ, zero, suc, ◌/◌, ◌%◌, String, ◌<>◌, ltb, ◌==◌, Bool-cases, true, false, none, some, inl, inr,
  ◌≡◌, refl, arith,
}
use amundsen_fork.Prelude.Effects.{return}
use amundsen_fork.Common.Matching.{avoids, avoids-append}
use amundsen_fork.Mysql.Names.{
  char_at, decimal, file_suffix, rsplit_from, rsplit, first_part, get_table_name_from_file,
}

avoids-char_at : (c : Char) (i : ℕ) (s : String) → avoids c s ≡ true → avoids c (char_at i s) ≡ true
unfolding avoids char_at
avoids-char_at c zero [] h = refl
avoids-char_at c (suc i) [] h = refl
avoids-char_at c zero (x ∷ s) h = ground (arith, h)
avoids-char_at c (suc i) (x ∷ s) h = avoids-char_at c i s (ground (arith, h))

avoids-decimal : (fuel n : ℕ) → avoids "_" (decimal fuel n) ≡ true
unfolding decimal avoids
avoids-decimal zero n = refl
avoids-decimal (suc fuel) n = elim (Bool-cases (ltb n 10)) [
  | inl e ↦ rw e (avoids-char_at "_" n "0123456789" refl)
  | inr e ↦ rw e (
      avoids-append "_" (decimal fuel (n / 10)) (char_at (n % 10) "0123456789")
        (avoids-decimal fuel (n / 10)) (avoids-char_at "_" (n % 10) "0123456789" refl))
]

rsplit-none : (c : Char) (s : String) → avoids c s ≡ true → rsplit c s ≡ none
unfolding avoids rsplit rsplit_from
rsplit-none c [] h = refl
rsplit-none c (x ∷ s) h =
    let n : (code x == code c) ≡ false = ground (arith, h) in
    rw (rsplit-none c s (ground (arith, h)), n) refl

rsplit-append :
    (c : Char) (s t : String) → avoids c t ≡ true → rsplit c (s <> (c ∷ t)) ≡ some (s, t)
unfolding rsplit rsplit_from
rsplit-append c [] t h =
    let same : (code c == code c) ≡ true = ground arith in
    rw (append.nil (c ∷ t), rsplit-none c t h, same) refl
rsplit-append c (x ∷ s) t h = rw (append.cons x s (c ∷ t), rsplit-append c s t h) refl

pub get_table_name_from_file-file_suffix :
    (table_name : String) (number : ℕ)
    → get_table_name_from_file (file_suffix (table_name, number)) ≡ return table_name
unfolding get_table_name_from_file file_suffix first_part
get_table_name_from_file-file_suffix table_name number =
    rw
      (rsplit-append "_" table_name (decimal (suc number) number)
        (avoids-decimal (suc number) number))
      refl
