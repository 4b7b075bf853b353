-- ===== src/Regex/Classes.antt =====
-- Patterns of the form `^[class]*$` and `^[class]+$`: what they match, with no backtracking.
use dqmgui_prod.Base.{
  ℕ, zero, suc, ◌≤◌, Char, code, String, Bool, true, false, ◌||◌, ◌&&◌, ◌≡◌, refl, some, List, [],
  ◌∷◌, length, chars, is_some, arith,
}
use dqmgui_prod.Regex.{Groups, Next, chr, eos, seq, star, plus, at_end, repeat, run, matches}

-- all characters are of the class, but for a newline that may end the text
unfoldable pub ends_in : (ℕ → Bool) → List Char → Bool
ends_in p [] = true
ends_in p (c ∷ s) = (p (code c) && ends_in p s) || at_end (c ∷ s)

abbrev finish : Next
finish t g = some g

repeat_class :
    (p : ℕ → Bool) (n : ℕ) (s : List Char) (g : Groups)
    → length s ≤ n
    → is_some (repeat (run (chr p)) (run eos finish) n s g) ≡ ends_in p s
unfolding repeat run ends_in at_end
repeat_class p zero [] g h = refl
repeat_class p zero (c ∷ s) g h = absurd (omega arith)
repeat_class p (suc n) [] g h = refl
repeat_class p (suc n) (c ∷ s) g h = ground (arith, repeat_class p n s g)

-- `^[class]*$`
pub matches-star :
    (p : ℕ → Bool) (s : String) → matches (seq (star (chr p)) eos) s ≡ ends_in p (chars s)
unfolding matches
matches-star p s = repeat_class p (length (chars s)) (chars s) [] (omega arith)

-- `^[class]+$`
abbrev pub some_end_in : (ℕ → Bool) → List Char → Bool
some_end_in p [] = false
some_end_in p (c ∷ s) = p (code c) && ends_in p s

pub matches-plus :
    (p : ℕ → Bool) (s : String) → matches (seq (plus (chr p)) eos) s ≡ some_end_in p (chars s)
unfolding matches
matches-plus p s = by_chars (chars s)
  where
    by_chars :
        (t : List Char) → is_some (run (seq (plus (chr p)) eos) finish t []) ≡ some_end_in p t
    by_chars [] = refl
    by_chars (c ∷ t) = ground (arith, repeat_class p (length t) t [])
