-- ===== src/Base/Text.antt =====
-- Python's `str`: the native text, walked as a list of characters. The texts of the program are
-- taken to be ASCII, so that case and digits are those of the ASCII letters.
use Prim.Native.Nat.{ℕ, zero, suc, ◌+◌, ◌-◌, ◌*◌, ◌/◌, ◌%◌}
use Prim.Native.Char.{Char, code}
use Prim.Native.String.{String}
use mathlib.Core.Path.{◌≡◌, refl, ap}
use mathlib.Core.Bool.{Bool, true, false, ◌&&◌, ◌||◌}
use mathlib.Core.List.{List, [], ◌∷◌, ◌++◌, reverse}
use dqmgui_prod.Base.Tests.{leb, nat_eq, if◌then◌else◌}

abbrev pub chars : String → List Char
chars String.[] = []
chars (String.◌∷◌ c s) = c ∷ chars s

abbrev pub pack : List Char → String
pack [] = String.[]
pack (c ∷ cs) = String.◌∷◌ c (pack cs)

pub pack-chars : (s : String) → pack (chars s) ≡ s
pack-chars String.[] = refl
pack-chars (String.◌∷◌ c s) = ap (String.◌∷◌ c) (pack-chars s)

pub chars-pack : (cs : List Char) → chars (pack cs) ≡ cs
chars-pack [] = refl
chars-pack (c ∷ cs) = ap (◌∷◌ c) (chars-pack cs)

-- A class of characters, by its code points.
abbrev pub between : ℕ → ℕ → ℕ → Bool
between lo hi c = leb lo c && leb c hi

unfoldable pub is_digit : ℕ → Bool
is_digit c = between b'0' b'9' c

unfoldable pub is_upper : ℕ → Bool
is_upper c = between b'A' b'Z' c

unfoldable pub is_lower : ℕ → Bool
is_lower c = between b'a' b'z' c

unfoldable pub is_alnum : ℕ → Bool
unfolding is_digit is_upper is_lower
is_alnum c = is_upper c || is_lower c || is_digit c

-- the loop of `int(s)` over a text of digits, which a newline may end
unfoldable pub int_from : ℕ → List Char → ℕ
int_from n [] = n
int_from n (c ∷ cs) = int_from (if is_digit (code c) then n * 10 + (code c - 48) else n) cs

unfoldable pub int : String → ℕ
unfolding int_from is_digit
int s = int_from 0 (chars s)

-- `a + b`
abbrev pub concat : String → String → String
concat a b = pack (chars a ++ chars b)

-- a code point in `s.lower()`
unfoldable pub to_lower : ℕ → ℕ
unfolding is_upper
to_lower c = if is_upper c then c + 32 else c

unfoldable pub same_lower_chars : List Char → List Char → Bool
unfolding to_lower
same_lower_chars [] [] = true
same_lower_chars [] (d ∷ ds) = false
same_lower_chars (c ∷ cs) [] = false
same_lower_chars (c ∷ cs) (d ∷ ds) =
    nat_eq (to_lower (code c)) (to_lower (code d)) && same_lower_chars cs ds

-- `a.lower() == b.lower()`
unfoldable pub same_lower : String → String → Bool
unfolding same_lower_chars
same_lower a b = same_lower_chars (chars a) (chars b)

-- `s.startswith(t)`
unfoldable pub starts_with_chars : List Char → List Char → Bool
starts_with_chars s [] = true
starts_with_chars [] (d ∷ t) = false
starts_with_chars (c ∷ s) (d ∷ t) = nat_eq (code c) (code d) && starts_with_chars s t

unfoldable pub starts_with : String → String → Bool
unfolding starts_with_chars
starts_with s t = starts_with_chars (chars s) (chars t)

-- `t in s`, or `s.find(t) >= 0`
unfoldable pub contains : List Char → List Char → Bool
unfolding starts_with_chars
contains t [] = starts_with_chars [] t
contains t (c ∷ s) = starts_with_chars (c ∷ s) t || contains t s

-- `s.replace("__", "/")`
unfoldable pub replace_underscores : List Char → List Char
replace_underscores [] = []
replace_underscores (c ∷ []) = c ∷ []
replace_underscores (c ∷ d ∷ s) =
    let shorter = replace_underscores s in
    let rest = replace_underscores (d ∷ s) in
    if nat_eq (code c) b'_' && nat_eq (code d) b'_' then "/" ∷ shorter else c ∷ rest

-- `s.split(sep)`, of a separator of one character: `word` has the characters so far, last first
unfoldable pub split_from : ℕ → List Char → List Char → List String
split_from sep word [] = pack (reverse word) ∷ []
split_from sep word (c ∷ s) =
    let next = split_from sep [] s in
    let more = split_from sep (c ∷ word) s in
    if nat_eq (code c) sep then pack (reverse word) ∷ next else more

unfoldable pub split : ℕ → String → List String
unfolding split_from
split sep s = split_from sep [] (chars s)

-- `sep.join(l)`
unfoldable pub join : String → List String → String
join sep [] = ""
join sep (s ∷ []) = s
join sep (s ∷ t ∷ l) = concat s (concat sep (join sep (t ∷ l)))

abbrev digit_char : ℕ → Char
digit_char n =
    if nat_eq n 0
    then "0"
    else if nat_eq n 1
    then "1"
    else if nat_eq n 2
    then "2"
    else if nat_eq n 3
    then "3"
    else if nat_eq n 4
    then "4"
    else if nat_eq n 5
    then "5"
    else if nat_eq n 6
    then "6"
    else if nat_eq n 7
    then "7"
    else if nat_eq n 8
    then "8"
    else "9"

-- the decimal digits of a number, on fuel above it
unfoldable pub digits_of : ℕ → ℕ → List Char → List Char
digits_of zero n acc = acc
digits_of (suc fuel) n acc = elim (leb n 9) [
  | true ↦ digit_char n ∷ acc
  | false ↦ digits_of fuel (n / 10) (digit_char (n % 10) ∷ acc)
]

-- `"%d" % n`
unfoldable pub show_nat : ℕ → String
unfolding digits_of
show_nat n = pack (digits_of (n + 1) n [])

-- `"%04d" % n`
unfoldable pub show_nat4 : ℕ → String
unfolding show_nat
show_nat4 n =
    concat (if leb n 9 then "000" else if leb n 99 then "00" else if leb n 999 then "0" else "")
      (show_nat n)
