-- ===== src/Regex.antt =====
-- The part of Python's `re` that the program uses: `re.match` of a pattern at the start of a text,
-- by backtracking, with greedy repetition and numbered groups. Patterns are values; `^` at the start
-- of a pattern is always met, and is left out.
pub mod Classes
pub mod Sound
pub mod Counts
use dqmgui_prod.Base.{
  ℕ, zero, suc, ◌-◌, Char, code, String, Bool, true, false, ◌||◌, ◌&&◌, not, Option, none, some,
  List, [], ◌∷◌, length, chars, pack, nat_eq, is_some, is_digit, if◌then◌else◌,
}

pub data Regex : Type 0 where
  -- a character of a class, by its code point
  chr : (ℕ → Bool) → Regex
  eps eos : Regex
  seq alt : Regex → Regex → Regex
  star : Regex → Regex
  group : ℕ → Regex → Regex
  not_ahead : Regex → Regex

-- the groups that took part, the last match of a group first
abbrev pub Groups : Type 0
Groups = List (ℕ × List Char)

abbrev pub Next : Type 0
Next = List Char → Groups → Option Groups

-- `$`: at the end, or before a newline at the end
unfoldable pub at_end : List Char → Bool
at_end [] = true
at_end (c ∷ []) = nat_eq (code c) 10
at_end (c ∷ d ∷ s) = false

unfoldable pub taken : ℕ → List Char → List Char
taken zero s = []
taken (suc n) [] = []
taken (suc n) (c ∷ s) = c ∷ taken n s

-- greedy repetition: one more round before what follows; a round that matters takes a character, so
-- the length of the text is enough rounds
unfoldable pub repeat : (Next → Next) → Next → ℕ → Next
repeat step next zero s g = next s g
repeat step next (suc n) s g = elim (step (repeat step next n) s g) [
  | some h ↦ some h
  | none ↦ next s g
]

unfoldable pub run : Regex → Next → Next
run (chr p) next [] g = none
run (chr p) next (c ∷ s) g = if p (code c) then next s g else none
run eps next s g = next s g
run eos next s g = if at_end s then next s g else none
run (seq a b) next s g = run a (run b next) s g
run (alt a b) next s g = elim (run a next s g) [ some h ↦ some h | none ↦ run b next s g ]
run (star r) next s g = repeat (run r) next (length s) s g
run (group n r) next s g = run r (λ t h. next t ((n, taken (length s - length t) s) ∷ h)) s g
run (not_ahead r) next s g = elim (run r (λ t h. some h) s g) [ some h ↦ none | none ↦ next s g ]

unfoldable pub match : Regex → String → Option Groups
unfolding run repeat at_end taken
match r s = run r (λ t g. some g) (chars s) []

unfoldable pub matches : Regex → String → Bool
unfolding match
matches r s = is_some (match r s)

-- `m.group(n)`, of which `none` is `None`
unfoldable pub group_of : ℕ → Groups → Option String
group_of n [] = none
group_of n ((m, s) ∷ g) = if nat_eq m n then some (pack s) else group_of n g

-- Ways to write patterns.
abbrev pub optional : Regex → Regex
optional r = alt r eps

abbrev pub plus : Regex → Regex
plus r = seq r (star r)

abbrev literal_chars : List Char → Regex
literal_chars [] = eps
literal_chars (c ∷ []) = chr (λ d. nat_eq d (code c))
literal_chars (c ∷ cs) = seq (chr (λ d. nat_eq d (code c))) (literal_chars cs)

abbrev pub literal : String → Regex
literal s = literal_chars (chars s)

abbrev pub digit : Regex
digit = chr is_digit

-- `.`: any character but a newline
abbrev pub any : Regex
any = chr (λ c. not (nat_eq c 10))

-- `^\d+$`, `^\d*$`
abbrev pub rx_digits : Regex
rx_digits = seq (plus digit) eos

abbrev pub rx_maybe_digits : Regex
rx_maybe_digits = seq (star digit) eos
