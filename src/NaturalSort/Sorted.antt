-- ===== src/NaturalSort/Sorted.antt =====
-- What `natsorted` of src/python/Core/Utils/Common.py returns.
use dqmgui_prod.Base.{
  String, Bool, true, false, ◌||◌, ◌&&◌, ◌≡◌, refl, List, [], ◌∷◌, Char, chars, arith,
  if◌then◌else◌,
}
use mathlib.Core.List.{Perm}
use mathlib.Core.List.Perm
use dqmgui_prod.NaturalSort.Cut.{Cut, key_of-Cut}
use dqmgui_prod.NaturalSort.{
  Key, last, next, key_of, before, same, key_before, same_key, name_before, insert, natsorted,
}

before-not : (a b : List Char) → before a b ≡ true → before b a || same b a ≡ false
unfolding before same
before-not [] [] h = absurd cc
before-not [] (d ∷ b) h = refl
before-not (c ∷ a) [] h = absurd cc
before-not (c ∷ a) (d ∷ b) h = ground (arith, h, before-not a b)

same-sym : (a b : List Char) → same a b ≡ same b a
unfolding same
same-sym [] [] = refl
same-sym [] (d ∷ b) = refl
same-sym (c ∷ a) [] = refl
same-sym (c ∷ a) (d ∷ b) = ground (arith, same-sym a b)

same-not : (a b : List Char) → same a b ≡ true → before b a ≡ false
unfolding before same
same-not [] [] h = refl
same-not [] (d ∷ b) h = absurd cc
same-not (c ∷ a) [] h = absurd cc
same-not (c ∷ a) (d ∷ b) h = ground (arith, h, same-not a b)

key_before-not : (k l : Key) → key_before k l ≡ true → key_before l k || same_key l k ≡ false
unfolding key_before same_key
key_before-not (last a) (last b) h = before-not a b h
key_before-not (last a) (next b n l) h = ground (arith, h, before-not a b, same-not a b)
key_before-not (next a m k) (last b) h = ground (arith, h, before-not a b)
key_before-not (next a m k) (next b n l) h =
    ground (arith, h, before-not a b, same-not a b, same-sym a b, key_before-not k l)

same_key-sym : (k l : Key) → same_key k l ≡ same_key l k
unfolding same_key
same_key-sym (last a) (last b) = same-sym a b
same_key-sym (last a) (next b n l) = refl
same_key-sym (next a m k) (last b) = refl
same_key-sym (next a m k) (next b n l) = ground (arith, same-sym a b, same_key-sym k l)

same_key-not : (k l : Key) → same_key k l ≡ true → key_before l k ≡ false
unfolding key_before same_key
same_key-not (last a) (last b) h = same-not a b h
same_key-not (last a) (next b n l) h = absurd cc
same_key-not (next a m k) (last b) h = absurd cc
same_key-not (next a m k) (next b n l) h =
    ground (arith, h, same-not a b, same-sym a b, same_key-not k l)

pair_before-not :
    (k l : Key) (a b : List Char)
    → key_before k l || same_key k l && before a b ≡ true
    → key_before l k || same_key l k && before b a ≡ false
pair_before-not k l a b h =
    ground (arith, h, key_before-not k l, same_key-not k l, same_key-sym k l, before-not a b)

-- of two names at most one is before the other
name_before-not : (s t : String) → name_before s t ≡ true → name_before t s ≡ false
unfolding name_before
name_before-not s t h = pair_before-not (key_of s) (key_of t) (chars s) (chars t) h

-- by the texts and numbers of two names, and then by their characters
abbrev pub pair_before : String → String → Bool
pair_before s t =
    key_before (key_of s) (key_of t) || same_key (key_of s) (key_of t) && before (chars s) (chars t)

-- no name is before the one in front of it
unfoldable pub InOrder : List String → Type 0
InOrder [] = Unit
InOrder (x ∷ []) = Unit
InOrder (x ∷ y ∷ l) = (pair_before y x ≡ false) × InOrder (y ∷ l)

if-cases :
    (P : List String → Type 0) (b : Bool) (l m : List String)
    → (b ≡ true → P l)
    → (b ≡ false → P m)
    → P (if b then l else m)
if-cases P true l m h k = h refl
if-cases P false l m h k = k refl

tail-InOrder : (x : String) (l : List String) → InOrder (x ∷ l) → InOrder l
unfolding InOrder
tail-InOrder x [] h = tt
tail-InOrder x (y ∷ l) h = h.1

cons-InOrder :
    (y x : String) (l : List String)
    → name_before x y ≡ false
    → InOrder (y ∷ l)
    → InOrder (insert x l)
    → InOrder (y ∷ insert x l)
unfolding InOrder insert name_before
cons-InOrder y x [] e h ih = (e, tt)
cons-InOrder y x (z ∷ l) e h ih =
    if-cases (λ m. InOrder m → InOrder (y ∷ m)) (name_before z x) (z ∷ insert x l) (x ∷ z ∷ l)
      (λ _ order. (h.0, order)) (λ _ order. (e, order)) ih

insert-InOrder : (x : String) (l : List String) → InOrder l → InOrder (insert x l)
unfolding InOrder insert name_before
insert-InOrder x [] h = tt
insert-InOrder x (y ∷ l) h =
    if-cases InOrder (name_before y x) (y ∷ insert x l) (x ∷ y ∷ l)
      (λ e. cons-InOrder y x l (name_before-not y x e) h (insert-InOrder x l (tail-InOrder y l h)))
      (λ e. (e, h))

natsorted-InOrder : (l : List String) → InOrder (natsorted l)
unfolding natsorted InOrder
natsorted-InOrder [] = tt
natsorted-InOrder (x ∷ l) = insert-InOrder x (natsorted l) (natsorted-InOrder l)

insert-Perm : (x : String) (l : List String) → Perm (insert x l) (x ∷ l)
unfolding insert
insert-Perm x [] = Perm.refl (x ∷ [])
insert-Perm x (y ∷ l) =
    if-cases (λ m. Perm m (x ∷ y ∷ l)) (name_before y x) (y ∷ insert x l) (x ∷ y ∷ l)
      (λ _. Perm.trans (Perm.cons y (insert-Perm x l)) (Perm.swap x y l))
      (λ _. Perm.refl (x ∷ y ∷ l))

natsorted-Perm : (l : List String) → Perm (natsorted l) l
unfolding natsorted
natsorted-Perm [] = Perm.refl []
natsorted-Perm (x ∷ l) = Perm.trans (insert-Perm x (natsorted l)) (Perm.cons x (natsorted-Perm l))

-- Names in the natural order are a permutation of the names given, and none of them comes right
-- after one that it is before, by its texts and numbers and then by its characters. The texts and
-- numbers of any name make it up in turn, a text at both ends: a text has no digits, and a number
-- has all digits up to the next text, and the sign before them if there is one.
pub natsorted_lem :
    (l : List String) (s : String)
    → InOrder (natsorted l) × Perm (natsorted l) l × Cut (chars s) (key_of s)
natsorted_lem l s = (natsorted-InOrder l, natsorted-Perm l, key_of-Cut s)
