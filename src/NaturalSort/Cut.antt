-- ===== src/NaturalSort/Cut.antt =====
-- How a name is cut into texts and numbers: the description that `key_of` (`natsort` of
-- src/python/Core/Utils/Common.py) meets.
use dqmgui_prod.Base.{
  ℕ, ◌+◌, ◌-◌, ◌*◌, String, Bool, true, false, ◌||◌, ◌&&◌, List, [], ◌∷◌, ◌++◌, append_assoc,
  append-nil, Char, code, chars, nat_eq, is_digit, ◌≡◌, refl, sym, ap, ◌∙◌, arith, if◌then◌else◌,
  Bool-cases, inl, inr,
}
use mathlib.Core.Path.{subst}
use dqmgui_prod.NaturalSort.{
  Key, last, next, Mode, text, sign, number, digit_first, is_sign, signed, from_text, read, emit,
  finish, scan, key_of,
}

abbrev pub has_digit : List Char → Bool
has_digit [] = false
has_digit (c ∷ s) = is_digit (code c) || has_digit s

abbrev pub all_digits : List Char → Bool
all_digits [] = true
all_digits (c ∷ s) = is_digit (code c) && all_digits s

-- digits, at least one
abbrev pub is_number : List Char → Bool
is_number [] = false
is_number (c ∷ s) = is_digit (code c) && all_digits s

abbrev pub ends_in_sign : List Char → Bool
ends_in_sign [] = false
ends_in_sign (c ∷ []) = is_sign (code c)
ends_in_sign (c ∷ d ∷ s) = ends_in_sign (d ∷ s)

-- `int(…)` of digits that follow a number
abbrev pub value : ℕ → List Char → ℕ
value n [] = n
value n (c ∷ s) = value (n * 10 + (code c - 48)) s

-- The sign before a number, and whether it is a minus; a text that ends in a sign leaves it to the
-- number.
pub data Sign (w : List Char) : List Char → Bool → Type 0 where
  unsigned : (ends_in_sign w ≡ false) → Sign w [] false
  signed_by : (c : Char) → (is_sign (code c) ≡ true) → Sign w (c ∷ []) (nat_eq (code c) b'-')

-- The characters of a name, and its texts and numbers: a text has no digits, and a number has all
-- the digits there are.
pub data Cut : List Char → Key → Type 0 where
  whole : (w : List Char) → (has_digit w ≡ false) → Cut w (last w)
  cut :
      (w sg ds rest : List Char) (minus : Bool) (k : Key)
      → (has_digit w ≡ false)
      → Sign w sg minus
      → (is_number ds ≡ true)
      → (digit_first rest ≡ false)
      → Cut rest k
      → Cut (w ++ (sg ++ (ds ++ rest))) (next w (signed minus (value 0 ds)) k)

has_digit-snoc :
    (w : List Char) (c : Char) → has_digit (w ++ (c ∷ [])) ≡ has_digit w || is_digit (code c)
has_digit-snoc [] c = ground arith
has_digit-snoc (d ∷ w) c = ground (arith, has_digit-snoc w c)

ends_in_sign-snoc : (w : List Char) (c : Char) → ends_in_sign (w ++ (c ∷ [])) ≡ is_sign (code c)
ends_in_sign-snoc [] c = refl
ends_in_sign-snoc (d ∷ []) c = refl
ends_in_sign-snoc (d ∷ e ∷ w) c = ends_in_sign-snoc (e ∷ w) c

all_digits-snoc :
    (s : List Char) (c : Char)
    → is_digit (code c) ≡ true
    → all_digits s ≡ true
    → all_digits (s ++ (c ∷ [])) ≡ true
all_digits-snoc [] c digit h = ground (arith, digit)
all_digits-snoc (d ∷ s) c digit h = ground (arith, h, all_digits-snoc s c digit)

is_number-snoc :
    (s : List Char) (c : Char)
    → is_digit (code c) ≡ true
    → is_number s ≡ true
    → is_number (s ++ (c ∷ [])) ≡ true
is_number-snoc [] c digit h = cc
is_number-snoc (d ∷ s) c digit h = ground (arith, h, all_digits-snoc s c digit)

value-snoc :
    (n : ℕ) (s : List Char) (c : Char) → value n (s ++ (c ∷ [])) ≡ value n s * 10 + (code c - 48)
value-snoc n [] c = refl
value-snoc n (d ∷ s) c = value-snoc (n * 10 + (code d - 48)) s c

-- what was read before the characters `s`, and how it is cut
abbrev Reading : Mode → List Char → List Char → Type 0
Reading (text w) p s = (p ≡ w) × (has_digit w ≡ false) × (ends_in_sign w && digit_first s ≡ false)
Reading (sign w minus) p s =
    (c : Char) × (p ≡ w ++ (c ∷ []))
    × (has_digit w ≡ false)
    × (is_sign (code c) ≡ true)
    × (minus ≡ nat_eq (code c) b'-')
    × (digit_first s ≡ true)
Reading (number w minus n) p s =
    (sg : List Char) × (ds : List Char) × (p ≡ w ++ (sg ++ ds))
    × (has_digit w ≡ false)
    × Sign w sg minus
    × (is_number ds ≡ true)
    × (n ≡ value 0 ds)

from_text-Reading :
    (w : List Char) (c : Char) (s : List Char)
    → has_digit w ≡ false
    → ends_in_sign w && is_digit (code c) ≡ false
    → Reading (from_text w c s) (w ++ (c ∷ [])) s
unfolding from_text
from_text-Reading w c s none_yet free = elim (Bool-cases (is_digit (code c))) [
  | inl digit ↦ rw digit (
    [],
    c ∷ [],
    refl,
    none_yet,
    unsigned (ground (arith, free, digit)),
    ground (arith, digit),
    ground arith,
  )
  | inr other ↦ rw other (elim (Bool-cases (is_sign (code c) && digit_first s)) [
    | inl before ↦
        rw before (c, refl, none_yet, ground (arith, before), refl, ground (arith, before))
    | inr no_sign ↦ rw no_sign (
      refl,
      ground (arith, has_digit-snoc w c, none_yet, other),
      ground (arith, ends_in_sign-snoc w c, no_sign),
    )
  ])
]

-- no number ends before the character
still : Mode → Char → Bool
still (text w) c = true
still (sign w minus) c = true
still (number w minus n) c = is_digit (code c)

emit-still : (m : Mode) (c : Char) (k : Key) → still m c ≡ true → emit m c k ≡ k
unfolding emit still
emit-still (text w) c k on = refl
emit-still (sign w minus) c k on = refl
emit-still (number w minus n) c k on = rw on refl

-- one more character, unless a number ends before it
read-Reading :
    (m : Mode) (p : List Char) (c : Char) (s : List Char)
    → Reading m p (c ∷ s)
    → still m c ≡ true
    → Reading (read m c s) (p ++ (c ∷ [])) s
unfolding read still digit_first
read-Reading (text w) p c s (same, none_yet, free) on =
    subst (λ q. Reading (from_text w c s) (q ++ (c ∷ [])) s) (sym same)
      (from_text-Reading w c s none_yet free)
read-Reading (sign w minus) p c s (d, same, none_yet, is_one, which, digit) on = (
  d ∷ [],
  c ∷ [],
  ap (λ q. q ++ (c ∷ [])) same ∙ append_assoc w (d ∷ []) (c ∷ []),
  none_yet,
  subst (Sign w (d ∷ [])) (sym which) (signed_by d is_one),
  ground (arith, digit),
  ground arith,
)
read-Reading (number w minus n) p c s (sg, ds, same, none_yet, before, digits, read_so) on = rw on (
  sg,
  ds ++ (c ∷ []),
  ap (λ q. q ++ (c ∷ [])) same
      ∙ append_assoc w (sg ++ ds) (c ∷ [])
      ∙ ap (λ q. w ++ q) (append_assoc sg ds (c ∷ [])),
  none_yet,
  before,
  is_number-snoc ds c on digits,
  ap (λ n. n * 10 + (code c - 48)) read_so ∙ sym (value-snoc 0 ds c),
)

-- the first character after a number
off-Reading :
    (m : Mode) (c : Char) (s : List Char) → still m c ≡ false → Reading (read m c s) (c ∷ []) s
unfolding read still
off-Reading (text w) c s off = cc
off-Reading (sign w minus) c s off = cc
off-Reading (number w minus n) c s off =
    subst
      (λ b.
        Reading (if b then number w minus (n * 10 + (code c - 48)) else from_text [] c s) (c ∷ [])
          s)
      (sym off) (from_text-Reading [] c s refl refl)

-- a number that has been read, and what is cut after it
number-Cut :
    (w : List Char) (minus : Bool) (n : ℕ) (p rest s : List Char) (k : Key)
    → Reading (number w minus n) p s
    → digit_first rest ≡ false
    → Cut rest k
    → Cut (p ++ rest) (next w (signed minus n) k)
number-Cut w minus n p rest s k (sg, ds, same, none_yet, before, digits, read_so) ends after =
    subst (λ q. Cut q (next w (signed minus n) k))
      (sym (
        ap (λ q. q ++ rest) same
        ∙ append_assoc w (sg ++ ds) rest
        ∙ ap (λ q. w ++ q) (append_assoc sg ds rest)))
      (subst (λ n. Cut (w ++ (sg ++ (ds ++ rest))) (next w (signed minus n) k)) (sym read_so)
        (cut w sg ds rest minus k none_yet before digits ends after))

emit-Cut :
    (m : Mode) (p : List Char) (c : Char) (s : List Char) (k : Key)
    → still m c ≡ false
    → Reading m p (c ∷ s)
    → Cut (c ∷ s) k
    → Cut (p ++ (c ∷ s)) (emit m c k)
unfolding emit still digit_first
emit-Cut (text w) p c s k off h after = cc
emit-Cut (sign w minus) p c s k off h after = cc
emit-Cut (number w minus n) p c s k off h after =
    rw off (number-Cut w minus n p (c ∷ s) (c ∷ s) k h off after)

-- the end of a name
finish-Cut : (m : Mode) (p : List Char) → Reading m p [] → Cut (p ++ []) (finish m)
unfolding finish digit_first
finish-Cut (text w) p (same, none_yet, free) =
    subst (λ q. Cut q (last w)) (sym (append-nil p ∙ same)) (whole w none_yet)
finish-Cut (sign w minus) p (c, same, none_yet, is_one, which, digit) = cc
finish-Cut (number w minus n) p h = number-Cut w minus n p [] [] (last []) h refl (whole [] refl)

scan-Cut : (m : Mode) (p s : List Char) → Reading m p s → Cut (p ++ s) (scan m s)
unfolding scan
scan-Cut m p [] h = finish-Cut m p h
scan-Cut m p (c ∷ s) h = elim (Bool-cases (still m c)) [
  | inl on ↦ rw (emit-still m c (scan (read m c s) s) on) (
      subst (λ q. Cut q (scan (read m c s) s)) (append_assoc p (c ∷ []) s)
        (scan-Cut (read m c s) (p ++ (c ∷ [])) s (read-Reading m p c s h on)))
  | inr off ↦
      emit-Cut m p c s (scan (read m c s) s) off h
        (scan-Cut (read m c s) (c ∷ []) s (off-Reading m c s off))
]

pub key_of-Cut : (s : String) → Cut (chars s) (key_of s)
unfolding key_of
key_of-Cut s = scan-Cut (text []) [] (chars s) (refl, refl, refl)
