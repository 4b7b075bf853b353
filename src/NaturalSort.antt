-- ===== src/NaturalSort.antt =====
-- The natural order of names, `natsort` and `natsorted` (src/python/Core/Utils/Common.py): a name is cut
-- into texts and numbers in turn, as `re.split` of `([-+]?\d+)` does, and the lists are compared.
pub mod Cut
pub mod Sorted
use dqmgui_prod.Base.{
  ℕ, zero, suc, ◌+◌, ◌-◌, ◌*◌, String, Bool, true, false, ◌||◌, ◌&&◌, List, [], ◌∷◌, ◌++◌, ℤ, pos,
  sub_ℕ, ltb_ℤ, Char, code, chars, nat_eq, ltb, is_digit, not, if◌then◌else◌,
}

-- texts and numbers in turn, with a text at both ends
pub data Key : Type 0 where
  last : List Char → Key
  next : List Char → ℤ → Key → Key

-- what is being read, after a text that is complete where it is no text
pub data Mode : Type 0 where
  text : List Char → Mode
  -- after a minus, or a plus
  sign : List Char → Bool → Mode
  number : List Char → Bool → ℕ → Mode

unfoldable pub digit_first : List Char → Bool
digit_first [] = false
digit_first (c ∷ s) = is_digit (code c)

abbrev pub is_sign : ℕ → Bool
is_sign c = nat_eq c b'-' || nat_eq c b'+'

abbrev pub signed : Bool → ℕ → ℤ
signed minus n = if minus then sub_ℕ 0 n else pos n

-- how a character is read after a text
unfoldable pub from_text : List Char → Char → List Char → Mode
unfolding digit_first is_digit
from_text w c s =
    if is_digit (code c)
    then number w false (code c - 48)
    else if is_sign (code c) && digit_first s
    then sign w (nat_eq (code c) b'-')
    else text (w ++ (c ∷ []))

unfoldable pub read : Mode → Char → List Char → Mode
unfolding from_text is_digit
read (text w) c s = from_text w c s
read (sign w minus) c s = number w minus (code c - 48)
read (number w minus n) c s =
    if is_digit (code c) then number w minus (n * 10 + (code c - 48)) else from_text [] c s

-- a number ends before a character that is no digit
unfoldable pub emit : Mode → Char → Key → Key
unfolding is_digit
emit (text w) c k = k
emit (sign w minus) c k = k
emit (number w minus n) c k = if is_digit (code c) then k else next w (signed minus n) k

unfoldable pub finish : Mode → Key
finish (text w) = last w
finish (sign w minus) = last w
finish (number w minus n) = next w (signed minus n) (last [])

unfoldable pub scan : Mode → List Char → Key
unfolding read emit finish
scan m [] = finish m
scan m (c ∷ s) = emit m c (scan (read m c s) s)

-- `natconvert(re.split(RE_DIGIT_SEQ, s))`
unfoldable pub key_of : String → Key
unfolding scan
key_of s = scan (text []) (chars s)

unfoldable pub before : List Char → List Char → Bool
before [] [] = false
before [] (d ∷ b) = true
before (c ∷ a) [] = false
before (c ∷ a) (d ∷ b) =
    let rest = before a b in ltb (code c) (code d) || nat_eq (code c) (code d) && rest

unfoldable pub same : List Char → List Char → Bool
same [] [] = true
same [] (d ∷ b) = false
same (c ∷ a) [] = false
same (c ∷ a) (d ∷ b) = let rest = same a b in nat_eq (code c) (code d) && rest

abbrev pub same_ℤ : ℤ → ℤ → Bool
same_ℤ a b = not (ltb_ℤ a b) && not (ltb_ℤ b a)

-- `a < b`, of the lists
unfoldable pub key_before : Key → Key → Bool
unfolding before same
key_before (last a) (last b) = before a b
key_before (last a) (next b n l) = before a b || same a b
key_before (next a m k) (last b) = before a b
key_before (next a m k) (next b n l) =
    let rest = key_before k l in before a b || same a b && (ltb_ℤ m n || same_ℤ m n && rest)

unfoldable pub same_key : Key → Key → Bool
unfolding same
same_key (last a) (last b) = same a b
same_key (last a) (next b n l) = false
same_key (next a m k) (last b) = false
same_key (next a m k) (next b n l) = let rest = same_key k l in same a b && same_ℤ m n && rest

-- `(key, name) < (key, name)`
unfoldable pub name_before : String → String → Bool
unfolding key_of key_before same_key before
name_before s t =
    key_before (key_of s) (key_of t) || same_key (key_of s) (key_of t) && before (chars s) (chars t)

unfoldable pub insert : String → List String → List String
unfolding name_before
insert x [] = x ∷ []
insert x (y ∷ l) = let rest = insert x l in if name_before y x then y ∷ rest else x ∷ y ∷ l

-- `natsorted`
unfoldable pub natsorted : List String → List String
unfolding insert
natsorted [] = []
natsorted (x ∷ l) = insert x (natsorted l)
