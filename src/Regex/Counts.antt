-- ===== src/Regex/Counts.antt =====
-- How often a character can occur in a text that a pattern is met by, read off the pattern.
use dqmgui_prod.Base.{
  ℕ, zero, suc, ◌≤◌, ◌+◌, Char, code, String, Bool, true, false, ◌&&◌, ◌≡◌, refl, ap, Option, none,
  some, List, [], ◌∷◌, ◌++◌, chars, nat_eq, if◌then◌else◌, contains, starts_with_chars, arith,
}
use mathlib.Core.Path.{subst}
use dqmgui_prod.Regex.{Regex, chr, eps, eos, seq, alt, star, group, not_ahead, at_end, matches}
use dqmgui_prod.Regex.Sound.{
  In, one, nothing, last, both, left, right, stop, more, within, ahead, matches-In,
}

-- how many characters have the code point
unfoldable pub count : ℕ → List Char → ℕ
count q [] = zero
count q (c ∷ s) = let n = count q s in if nat_eq (code c) q then suc n else n

count-++ : (q : ℕ) (s t : List Char) → count q (s ++ t) ≡ count q s + count q t
unfolding count
count-++ q [] t = omega arith
count-++ q (c ∷ s) t = ground (arith, count-++ q s t)

unfoldable plus_bound : Option ℕ → Option ℕ → Option ℕ
plus_bound none y = none
plus_bound (some m) none = none
plus_bound (some m) (some n) = some (m + n)

unfoldable none_again : Option ℕ → Option ℕ
none_again none = none
none_again (some zero) = some 0
none_again (some (suc n)) = none

-- a bound on how many of them a pattern takes; `none` for no bound
unfoldable pub most : ℕ → Regex → Option ℕ
unfolding plus_bound none_again
most q (chr p) = some (if p q then 1 else 0)
most q eps = some 0
most q eos = some 0
most q (seq a b) = plus_bound (most q a) (most q b)
most q (alt a b) = plus_bound (most q a) (most q b)
most q (star r) = none_again (most q r)
most q (group n r) = most q r
most q (not_ahead r) = some 0

-- a pattern that ends in `$`
unfoldable pub closes : Regex → Bool
closes (chr p) = false
closes eps = false
closes eos = true
closes (seq a b) = closes b
closes (alt a b) = closes a && closes b
closes (star r) = false
closes (group n r) = closes r
closes (not_ahead r) = false

some-injective : {m n : ℕ} → some m ≡ some n → m ≡ n
some-injective h = cc

plus_bound-cases :
    (x y : Option ℕ) (n : ℕ)
    → plus_bound x y ≡ some n
    → (i j : ℕ) × (x ≡ some i) × (y ≡ some j) × (i + j ≡ n)
unfolding plus_bound
plus_bound-cases none y n e = absurd cc
plus_bound-cases (some i) none n e = absurd cc
plus_bound-cases (some i) (some j) n e = (i, j, refl, refl, some-injective e)

none_again-cases : (x : Option ℕ) (n : ℕ) → none_again x ≡ some n → x ≡ some 0
unfolding none_again
none_again-cases none n e = absurd cc
none_again-cases (some zero) n e = refl
none_again-cases (some (suc m)) n e = absurd cc

count-one :
    (q : ℕ) (p : ℕ → Bool) (c : Char)
    → p (code c) ≡ true
    → count q (c ∷ []) ≤ (if p q then 1 else 0)
unfolding count
count-one q p c h = grind (arith, h)

count-most :
    (q : ℕ) {r : Regex} {u v : List Char} (n : ℕ) → In r u v → most q r ≡ some n → count q u ≤ n
unfolding most count
count-most q n (one p c v h) e =
    subst (λ x. count q (c ∷ []) ≤ x) (some-injective e) (count-one q p c h)
count-most q n (nothing v) e = omega arith
count-most q n (last v h) e = omega arith
count-most q n (both {a} {b} u w v h k) e =
    let (i, j, ea, eb, total) = plus_bound-cases (most q a) (most q b) n e in
    omega (arith, count-++ q u w, count-most q i h ea, count-most q j k eb)
count-most q n (left {a} b {u} {v} h) e =
    let (i, j, ea, eb, total) = plus_bound-cases (most q a) (most q b) n e in
    omega (arith, count-most q i h ea)
count-most q n (right a {b} {u} {v} h) e =
    let (i, j, ea, eb, total) = plus_bound-cases (most q a) (most q b) n e in
    omega (arith, count-most q j h eb)
count-most q n (stop r v) e = omega arith
count-most q n (more {r} u w v h k) e =
    let zero_each = none_again-cases (most q r) n e in
    omega (arith, count-++ q u w, count-most q 0 h zero_each, count-most q n k e)
count-most q n (within m h) e = count-most q n h e
count-most q n (ahead r v) e = omega arith

closes-at_end : {r : Regex} {u v : List Char} → In r u v → closes r ≡ true → at_end v ≡ true
unfolding closes
closes-at_end (one p c v h) e = absurd cc
closes-at_end (nothing v) e = absurd cc
closes-at_end (last v h) e = h
closes-at_end (both u w v h k) e = closes-at_end k e
closes-at_end (left b h) e = closes-at_end h (grind (arith, e))
closes-at_end (right a h) e = closes-at_end h (grind (arith, e))
closes-at_end (stop r v) e = absurd cc
closes-at_end (more u w v h k) e = absurd cc
closes-at_end (within m h) e = closes-at_end h e
closes-at_end (ahead r v) e = absurd cc

at_end-count : (q : ℕ) (v : List Char) → at_end v ≡ true → nat_eq 10 q ≡ false → count q v ≡ zero
unfolding at_end count
at_end-count q [] h e = refl
at_end-count q (c ∷ []) h e = ground (arith, h, e)
at_end-count q (c ∷ d ∷ v) h e = absurd cc

-- a text that a closed pattern matches has no more of a character than the pattern takes
pub matches-count :
    (q : ℕ) (r : Regex) (n : ℕ) (t : String)
    → closes r ≡ true
    → most q r ≡ some n
    → nat_eq 10 q ≡ false
    → matches r t ≡ true
    → count q (chars t) ≤ n
matches-count q r n t closed bound visible h =
    let (u, v, split, met) = matches-In r t h in
    let few = count-most q n met bound in
    let none_after = at_end-count q v (closes-at_end met closed) visible in
    omega (arith, ap (count q) split, count-++ q u v, few, none_after)

count-tail : (q : ℕ) (c : Char) (s : List Char) → count q s ≤ count q (c ∷ s)
unfolding count
count-tail q c s = ground (arith)

starts_with-dots : (s : List Char) → count b'.' s ≤ 1 → starts_with_chars s (chars "..") ≡ false
unfolding starts_with_chars count
starts_with-dots [] h = refl
starts_with-dots (c ∷ []) h = ground (arith)
starts_with-dots (c ∷ d ∷ s) h = ground (arith, h)

starts_with-slash : (s : List Char) → count b'/' s ≤ 0 → starts_with_chars s (chars "/") ≡ false
unfolding starts_with_chars count
starts_with-slash [] h = refl
starts_with-slash (c ∷ s) h = ground (arith, h)

-- a text with at most one full stop has no `..` in it, and one with no slash has no `/`
pub contains-dots : (s : List Char) → count b'.' s ≤ 1 → contains (chars "..") s ≡ false
unfolding contains
contains-dots [] h = starts_with-dots [] h
contains-dots (c ∷ s) h =
    grind
      (arith, starts_with-dots (c ∷ s) h, contains-dots s (omega (arith, count-tail b'.' c s, h)))

pub contains-slash : (s : List Char) → count b'/' s ≤ 0 → contains (chars "/") s ≡ false
unfolding contains
contains-slash [] h = starts_with-slash [] h
contains-slash (c ∷ s) h =
    grind
      (arith, starts_with-slash (c ∷ s) h, contains-slash s (omega (arith, count-tail b'/' c s, h)))
