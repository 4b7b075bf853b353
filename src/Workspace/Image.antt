-- ===== src/Workspace/Image.antt =====
-- The options of an image, as `sessionAlterImage` of src/python/DQM/GUI.py checks and stores them, and
-- Python's `int` of a value.
use dqmgui_prod.Base.{
  ℕ, zero, suc, ◌*◌, ◌+◌, ◌-◌, Char, code, String, Bool, false, ◌||◌, ◌&&◌, none, some, List, [],
  ◌∷◌, ℤ, pos, negsuc, ◌==◌, member, chars, nat_eq, is_digit, is_upper, is_lower, if◌then◌else◌,
}
use dqmgui_prod.Exec.{http, type_error, value_error, Result, ok, raised, raise, lift, ◌>>=◌, ◌>>◌}
use dqmgui_prod.Regex.{Regex, chr, seq, star, plus, eos, optional, digit, matches}
use dqmgui_prod.Value.{
  Value, Fields, null, bool, num, str, list, dict, end, get, put, del, as_dict, is_empty,
}
use dqmgui_prod.Workspace.Params.{Step, require}

-- `^[A-Za-z,]*$`
abbrev pub rx_drawopts : Regex
rx_drawopts = seq (star (chr (λ c. is_upper c || is_lower c || nat_eq c b','))) eos

abbrev sign : Regex
sign = chr (λ c. nat_eq c b'-' || nat_eq c b'+')

-- `^([-+]?[0-9]*\.?[0-9]+([eE][-+]?[0-9]+)?)?$`
abbrev pub rx_limit : Regex
rx_limit =
    seq
      (optional (
        seq (optional sign) (
          seq (star digit) (
            seq (optional (chr (λ c. nat_eq c b'.'))) (
              seq (plus digit) (
                optional (
                  seq (chr (λ c. nat_eq c b'e' || nat_eq c b'E'))
                    (seq (optional sign) (plus digit)))))))))
      eos

-- `v in (…)`, of any value
unfoldable pub is_one_of : List String → Value → Bool
is_one_of l (str s) = member s l
is_one_of l null = false
is_one_of l (bool b) = false
is_one_of l (num n) = false
is_one_of l (list m) = false
is_one_of l (dict f) = false

-- `re.match(rx, v)`, of any value
unfoldable pub matches_value : Regex → Value → Result Bool
matches_value rx (str s) = ok (matches rx s)
matches_value rx null = raised type_error
matches_value rx (bool b) = raised type_error
matches_value rx (num n) = raised type_error
matches_value rx (list l) = raised type_error
matches_value rx (dict f) = raised type_error

-- The checks of an option of an image and its value. The statement `val == "def"` for an empty
-- reference setting assigns nothing, so it is left out.
unfoldable pub check_option : String → Value → Step
check_option opt val =
    if opt == "withref"
    then require (is_one_of ("def" ∷ "yes" ∷ "no" ∷ []) val) "Unrecognised reference setting"
    else if opt == "drawopts"
    then (do fine ← lift (matches_value rx_drawopts val); require fine "Unknown draw options")
    else if member opt ("xtype" ∷ "ytype" ∷ "ztype" ∷ [])
    then require (is_one_of ("def" ∷ "lin" ∷ "log" ∷ []) val) "Unrecognised axis type"
    else if member opt ("xmin" ∷ "xmax" ∷ "ymin" ∷ "ymax" ∷ "zmin" ∷ "zmax" ∷ [])
    then (do fine ← lift (matches_value rx_limit val); require fine "Unrecognised axis limit")
    else raise (http 500 "Attempt to set unknown image option")

-- `d.setdefault(k, {})`
unfoldable pub sub_dict : String → Fields → Result Fields
unfolding as_dict
sub_dict k d = elim (get k d) [ none ↦ ok end | some v ↦ as_dict v ]

abbrev remove_if : Bool → String → Fields → Fields → Fields
remove_if gone k inner d = if gone then del k (put k (dict inner) d) else put k (dict inner) d

-- an option written to the options of its image, or taken out of them: what is empty then goes
unfoldable pub alter_options : String → String → String → Value → Fields → Result Fields
alter_options name obj opt val drawopts =
    let clear = is_one_of ("" ∷ []) val in
    elim (sub_dict name drawopts) [
      | raised e ↦ raised e
      | ok mine ↦ elim (sub_dict obj mine) [
        | raised e ↦ raised e
        | ok opts ↦
            let opts' = if clear then del opt opts else put opt val opts in
            let mine' = remove_if (clear && is_empty opts') obj opts' mine in
            ok (remove_if (clear && is_empty mine') name mine' drawopts)
      ]
    ]

-- `isinstance(obj, str)`; the option has to be a text, as no other value is a known one
unfoldable pub check_image : Value → Value → Value → (String → String → Step) → Step
check_image (str obj) (str opt) val body = check_option opt val >> body obj opt
check_image (str obj) opt val body = raise (http 500 "Attempt to set unknown image option")
check_image obj opt val body = raise (http 500 "Image operation without an image")

-- `int(v)`, of a text of digits with a sign, white space round it and single `_` in it
unfoldable pub is_space : ℕ → Bool
is_space c = nat_eq c 32 || nat_eq c 9 || nat_eq c 10 || nat_eq c 11 || nat_eq c 12 || nat_eq c 13

abbrev rx_int : Regex
rx_int = seq (star (chr is_space)) (
    seq (optional sign) (
      seq (plus digit)
        (seq (star (seq (chr (λ c. nat_eq c b'_')) (plus digit))) (seq (star (chr is_space)) eos))))

unfoldable pub read_digits : ℕ → List Char → ℕ
read_digits n [] = n
read_digits n (c ∷ s) = read_digits (if is_digit (code c) then n * 10 + (code c - 48) else n) s

unfoldable pub has_minus : List Char → Bool
has_minus [] = false
has_minus (c ∷ s) = nat_eq (code c) b'-' || has_minus s

unfoldable pub negate : ℕ → ℤ
negate zero = pos 0
negate (suc n) = negsuc n

unfoldable pub int_of_value : Value → Result Value
unfolding read_digits has_minus negate is_space
int_of_value (str s) =
    if matches rx_int s
    then ok (
        num (
          if has_minus (chars s)
          then negate (read_digits 0 (chars s))
          else pos (read_digits 0 (chars s))))
    else raised value_error
int_of_value (num n) = ok (num n)
int_of_value (bool b) = ok (num (pos (if b then 1 else 0)))
int_of_value null = raised type_error
int_of_value (list l) = raised type_error
int_of_value (dict f) = raised type_error
