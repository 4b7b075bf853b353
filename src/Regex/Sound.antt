-- ===== src/Regex/Sound.antt =====
-- What a pattern means, with no backtracking: the texts that it is met by, in front of what follows; and
-- that `run` finds such a text.
use dqmgui_prod.Base.{
  ℕ, zero, suc, Char, code, String, Bool, true, ◌≡◌, refl, sym, ap, ◌∙◌, none, some, List, [], ◌∷◌,
  ◌++◌, append_assoc, length, chars, Option-cases, Bool-cases, inl, inr, arith, ◌-◌,
}
use mathlib.Core.Path.{subst}
use dqmgui_prod.Regex.{
  Regex, chr, eps, eos, seq, alt, star, group, not_ahead, Groups, Next, at_end, taken, repeat, run,
  match, matches,
}

-- `u` is met in front of `v`
pub data In : Regex → List Char → List Char → Type 0 where
  one : (p : ℕ → Bool) (c : Char) (v : List Char) → p (code c) ≡ true → In (chr p) (c ∷ []) v
  nothing : (v : List Char) → In eps [] v
  last : (v : List Char) → at_end v ≡ true → In eos [] v
  both : {a b : Regex} (u w v : List Char) → In a u (w ++ v) → In b w v → In (seq a b) (u ++ w) v
  left : {a : Regex} (b : Regex) {u v : List Char} → In a u v → In (alt a b) u v
  right : (a : Regex) {b : Regex} {u v : List Char} → In b u v → In (alt a b) u v
  stop : (r : Regex) (v : List Char) → In (star r) [] v
  more :
      {r : Regex} (u w v : List Char) → In r u (w ++ v) → In (star r) w v → In (star r) (u ++ w) v
  within : (n : ℕ) {r : Regex} {u v : List Char} → In r u v → In (group n r) u v
  ahead : (r : Regex) (v : List Char) → In (not_ahead r) [] v

none-≢-some {ℓ} : {A : Type ℓ} {a : A} → none ≡ some a → ⊥
none-≢-some h = cc

-- a text begins with what a pattern is met by, and what follows was tried on the rest
abbrev Split : Regex → Next → List Char → Type 0
Split r next s =
    (u v : List Char) × (s ≡ u ++ v) × In r u v × ((g h : Groups) × (next v g ≡ some h))

repeat-Split :
    (r : Regex)
    → ((next : Next) (s : List Char) (g h : Groups) → run r next s g ≡ some h → Split r next s)
    → (n : ℕ) (next : Next) (s : List Char) (g h : Groups) → repeat (run r) next n s g ≡ some h
    → Split (star r) next s
unfolding repeat
repeat-Split r ih zero next s g h found = ([], s, refl, stop r s, (g, h, found))
repeat-Split r ih (suc n) next s g h found =
    elim (Option-cases (run r (repeat (run r) next n) s g)) [
      | inl miss ↦ ([], s, refl, stop r s, (g, h, ground (arith, found, miss)))
      | inr (k, hit) ↦
          let (u, v, split, met, (g', h', rest)) = ih (repeat (run r) next n) s g k hit in
          let (w, v', split', met', tail) = repeat-Split r ih n next v g' h' rest in
          (
            u ++ w,
            v',
            split ∙ ap (◌++◌ u) split' ∙ sym (append_assoc u w v'),
            more u w v' (subst (λ x. In r u x) split' met) met',
            tail,
          )
    ]

run-Split :
    (r : Regex) (next : Next) (s : List Char) (g h : Groups)
    → run r next s g ≡ some h
    → Split r next s
unfolding run
run-Split (chr p) next [] g h found = absurd (none-≢-some found)
run-Split (chr p) next (c ∷ s) g h found = elim (Bool-cases (p (code c))) [
  | inl hit ↦ (c ∷ [], s, refl, one p c s hit, (g, h, ground (arith, found, hit)))
  | inr miss ↦ absurd (none-≢-some {A = Groups} {a = h} (ground (arith, found, miss)))
]
run-Split eps next s g h found = ([], s, refl, nothing s, (g, h, found))
run-Split eos next s g h found = elim (Bool-cases (at_end s)) [
  | inl hit ↦ ([], s, refl, last s hit, (g, h, ground (arith, found, hit)))
  | inr miss ↦ absurd (none-≢-some {A = Groups} {a = h} (ground (arith, found, miss)))
]
run-Split (seq a b) next s g h found =
    let (u, v, split, met, (g', h', rest)) = run-Split a (run b next) s g h found in
    let (w, v', split', met', tail) = run-Split b next v g' h' rest in
    (
      u ++ w,
      v',
      split ∙ ap (◌++◌ u) split' ∙ sym (append_assoc u w v'),
      both u w v' (subst (λ x. In a u x) split' met) met',
      tail,
    )
run-Split (alt a b) next s g h found = elim (Option-cases (run a next s g)) [
  | inr (k, hit) ↦
      let (u, v, split, met, rest) = run-Split a next s g k hit in (u, v, split, left b met, rest)
  | inl miss ↦
      let (u, v, split, met, rest) = run-Split b next s g h (ground (arith, found, miss)) in
      (u, v, split, right a met, rest)
]
run-Split (star r) next s g h found =
    repeat-Split r (λ next s g h e. run-Split r next s g h e) (length s) next s g h found
run-Split (group n r) next s g h found =
    let (u, v, split, met, (g', h', rest)) =
      run-Split r (λ t h. next t ((n, taken (length s - length t) s) ∷ h)) s g h found in
    (u, v, split, within n met, ((n, taken (length s - length v) s) ∷ g', h', rest))
run-Split (not_ahead r) next s g h found = elim (Option-cases (run r (λ t h. some h) s g)) [
  | inr (k, hit) ↦ absurd (none-≢-some {A = Groups} {a = h} (ground (arith, found, hit)))
  | inl miss ↦ ([], s, refl, ahead r s, (g, h, ground (arith, found, miss)))
]

-- a text that is matched begins with one that the pattern is met by
pub matches-In :
    (r : Regex) (t : String)
    → matches r t ≡ true
    → (u v : List Char) × (chars t ≡ u ++ v) × In r u v
unfolding matches match
matches-In r t ok = elim (Option-cases (match r t)) [
  | inr (g, found) ↦
      let (u, v, split, met, rest) = run-Split r (λ t g. some g) (chars t) [] g found in
      (u, v, split, met)
  | inl miss ↦ ground (arith, ok, miss)
]
