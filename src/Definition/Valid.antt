-- ===== src/Definition/Valid.antt =====
-- What `validate` of src/python/Core/Defs.py makes of the definition of a server.
use dqmgui_prod.Base.{
  ℕ, String, Char, true, Option, none, some, or_else, if◌then◌else◌, List, [], ◌∷◌, ◌++◌, chars,
  chars-pack, concat, contains, starts_with_chars, show_nat, ◌≡◌, refl, sym, ap, ◌∙◌, arith,
  Bool-cases, Option-cases, inl, inr,
}
use dqmgui_prod.Definition.{
  ServerDef, fill_port, fill_base, fill_title, fill_log, filled, complaint, validate,
}

-- a host with its port has a colon
contains-colon : (s t : List Char) → contains (chars ":") (s ++ (":" ∷ t)) ≡ true
unfolding contains starts_with_chars
contains-colon [] t = refl
contains-colon (c ∷ s) t = ground (arith, contains-colon s t)

with_port-colon :
    (host : String) (n : ℕ)
    → contains (chars ":") (chars (concat host (concat ":" (show_nat n)))) ≡ true
with_port-colon host n =
    ap (contains (chars ":")) (
      chars-pack (chars host ++ chars (concat ":" (show_nat n)))
      ∙ ap (λ s. chars host ++ s) (chars-pack (":" ∷ chars (show_nat n))))
    ∙ contains-colon (chars host) (chars (show_nat n))

-- the address of a server: the one given, or else its machine, with the port after what has no colon
abbrev pub address : String → ℕ → Option String → String
address host port none = concat host (concat ":" (show_nat port))
address host port (some base) =
    if contains (chars ":") (chars base) then base else concat base (concat ":" (show_nat port))

module _ {Arg : Type 0} (host : String) where
  -- what is filled in is nothing that is complained of
  filled-complaint : (d : ServerDef Arg) → complaint (filled host d) ≡ complaint d
  unfolding complaint filled fill_port fill_base fill_title fill_log
  filled-complaint d = ground arith

  filled_again : (d : ServerDef Arg) → filled host (filled host d) ≡ filled host d
  unfolding filled fill_port fill_title fill_log fill_base
  filled_again d = elim (Option-cases d.local_base) [
    | inl none_set ↦ elim (Option-cases d.port) [
      | inl no_port ↦ ground (arith, no_port, none_set, with_port-colon host 8030)
      | inr (n, port) ↦ ground (arith, port, none_set, with_port-colon host n)
    ]
    | inr (base, set) ↦ elim (Option-cases d.port) [
      | inl no_port ↦ ground (arith, no_port, set, with_port-colon base 8030)
      | inr (n, port) ↦ ground (arith, port, set, with_port-colon base n)
    ]
  ]

  filled-address :
      (d : ServerDef Arg)
      → (filled host d).local_base ≡ some (address host (or_else d.port 8030) d.local_base)
  unfolding filled fill_port fill_title fill_log fill_base
  filled-address d = elim (Option-cases d.local_base) [
    | inl none_set ↦ elim (Option-cases d.port) [
      | inl no_port ↦
          named (concat host (concat ":" (show_nat 8030))) (ground (arith, no_port, none_set))
            (rw (no_port, none_set) refl)
      | inr (n, port) ↦
          named (concat host (concat ":" (show_nat n))) (ground (arith, port, none_set))
            (rw (port, none_set) refl)
    ]
    | inr (base, set) ↦ elim (Bool-cases (contains (chars ":") (chars base))) [
      | inl whole ↦ named base (ground (arith, set, whole)) (rw set (rw whole refl))
      | inr bare ↦ elim (Option-cases d.port) [
        | inl no_port ↦
            named (concat base (concat ":" (show_nat 8030))) (ground (arith, no_port, set, bare))
              (rw (no_port, set) (rw bare refl))
        | inr (n, port) ↦
            named (concat base (concat ":" (show_nat n))) (ground (arith, port, set, bare))
              (rw (port, set) (rw bare refl))
      ]
    ]
  ]
    where
      named :
          (a : String)
          → (filled host d).local_base ≡ some a
          → address host (or_else d.port 8030) d.local_base ≡ a
          → (filled host d).local_base ≡ some (address host (or_else d.port 8030) d.local_base)
      named a filled_so same = filled_so ∙ ap some (sym same)

  -- To validate a definition a second time changes nothing and says the same. After the first time
  -- the address is the one given, where that has a colon; one without is followed by a colon and
  -- the port, and so is the name of the machine where no address was given; the port is 8030 where
  -- none was given. What is complained of is what the definition lacked before.
  pub validate_again :
      (d : ServerDef Arg)
      → (validate host (validate host d).0 ≡ validate host d)
        × ((validate host d).0.local_base ≡ some (address host (or_else d.port 8030) d.local_base))
        × ((validate host d).1 ≡ complaint d)
  unfolding validate
  validate_again d =
      (ap (λ x. (x, complaint x)) (filled_again d), filled-address d, filled-complaint d)
