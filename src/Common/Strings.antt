-- ===== src/Common/Strings.antt =====
-- What the program uses of Python's `str`, over the native texts.
use Prim.Native.Nat.{ℕ, zero, suc, ◌+◌, ◌/◌, ◌%◌}
use Prim.Native.Char.{code}
use Prim.Native.String.{String}
use Prim.Native.String
use mathlib.Core.Path.{◌≡◌, refl}
use mathlib.Core.Bool.{Bool, true, false, ◌&&◌}
use mathlib.Core.List.{List, [], ◌∷◌}
use doc_chat_template_scc.Common.Bools.{ltb, leb, ◌==◌, if◌then◌else◌}

-- the code points of a text
abbrev pub codes : String → List ℕ
codes String.[] = []
codes (String.◌∷◌ c s) = code c ∷ codes s

abbrev pub is_empty : String → Bool
is_empty String.[] = true
is_empty (String.◌∷◌ c s) = false

-- `s.startswith("/")`
abbrev pub starts_with_slash : String → Bool
starts_with_slash String.[] = false
starts_with_slash (String.◌∷◌ c s) = code c == b'/'

-- `s.rstrip("/")`
unfoldable pub rstrip_slash : String → String
rstrip_slash String.[] = String.[]
rstrip_slash (String.◌∷◌ c s) =
    let rest = rstrip_slash s in
    if is_empty rest && code c == b'/' then String.[] else String.◌∷◌ c rest

-- SQLite's `COLLATE NOCASE` folds the 26 letters of ASCII and nothing else.
abbrev pub fold_code : ℕ → ℕ
fold_code c = if leb b'A' c && leb c b'Z' then c + 32 else c

abbrev pub nocase_codes : String → List ℕ
nocase_codes String.[] = []
nocase_codes (String.◌∷◌ c s) = fold_code (code c) ∷ nocase_codes s

abbrev pub codes_eq : List ℕ → List ℕ → Bool
codes_eq [] [] = true
codes_eq [] (y ∷ ys) = false
codes_eq (x ∷ xs) [] = false
codes_eq (x ∷ xs) (y ∷ ys) = x == y && codes_eq xs ys

-- `a = b` on a column declared `COLLATE NOCASE`
unfoldable pub nocase_eq : String → String → Bool
nocase_eq a b = codes_eq (nocase_codes a) (nocase_codes b)

abbrev digit_text : ℕ → String
digit_text d =
    if d == 0
    then "0"
    else if d == 1
    then "1"
    else if d == 2
    then "2"
    else if d == 3
    then "3"
    else if d == 4
    then "4"
    else if d == 5
    then "5"
    else if d == 6
    then "6"
    else if d == 7
    then "7"
    else if d == 8
    then "8"
    else "9"

decimal : ℕ → ℕ → String
decimal zero n = ""
decimal (suc fuel) n =
    let front = decimal fuel (n / 10) in
    if ltb n 10 then digit_text n else String.◌++◌ front (digit_text (n % 10))

-- `str(n)`: a number has at most as many digits as its value, plus one
unfoldable pub show_nat : ℕ → String
unfolding decimal
show_nat n = decimal (suc n) n

show_nat_test : show_nat 1204 ≡ "1204"
unfolding show_nat
show_nat_test = refl
