-- ===== src/Parameters/Split.antt =====
-- What `ParameterManager.load` of src/python/Core/Utils/Common.py makes of the names of parameters.
use dqmgui_prod.Base.{
  String, Char, code, Bool, true, false, Option, none, some, List, [], ◌∷◌, chars, pack, chars-pack,
  nat_eq, if◌then◌else◌, ◌≡◌, refl, ◌∙◌, ap, ◌==◌, eq_iff, arith, Bool-cases, Option-cases, inl,
  inr, is_some, All,
}
use mathlib.Core.Path.{subst}
use dqmgui_prod.Base.Dict
use dqmgui_prod.Parameters.{split_once, load_one, load_all, load}

before : Option (List Char × List Char) → List Char
before none = []
before (some (a, b)) = a

skip_lem :
    (c : Char) (x : List Char)
    → nat_eq (code c) b'=' ≡ false
    → split_once x ≡ none
    → split_once (c ∷ x) ≡ none
unfolding split_once
skip_lem c x other none_left = rw (split_once, other) (rw none_left refl)

-- what stands before the first sign has none
split_once_lem : (cs a b : List Char) → split_once cs ≡ some (a, b) → split_once a ≡ none
unfolding split_once before
split_once_lem [] a b h = cc
split_once_lem (c ∷ cs) a b h =
    go (nat_eq (code c) b'=') refl (split_once cs) refl (λ x y. split_once_lem cs x y) h
  where
    go :
        (sign : Bool)
        → nat_eq (code c) b'=' ≡ sign
        → (r : Option (List Char × List Char)) → split_once cs ≡ r
        → ((x y : List Char) → split_once cs ≡ some (x, y) → split_once x ≡ none)
        → (if sign then some ([], cs) else elim r as (λ _. Option (List Char × List Char)) [
          | none ↦ none
          | some (a, b) ↦ some (c ∷ a, b)
        ])
          ≡ some (a, b)
        → split_once a ≡ none
    go true same r found ih h = subst (λ x. split_once x ≡ none) (ap before h) refl
    go false same none found ih h = cc
    go false same (some (x, y)) found ih h =
        subst (λ x. split_once x ≡ none) (ap before h) (skip_lem c x same (ih x y found))

-- no name has the sign
abbrev pub IsClean : {V : Type 0} → List (String × V) → Type 0
IsClean params = (k : String) → is_some (Dict.lookup k params) ≡ true → split_once (chars k) ≡ none

module _ {V : Type 0} (text : String → V) where
  insert-IsClean :
      (k : String) (v : V) (params : List (String × V))
      → split_once (chars k) ≡ none
      → IsClean params
      → IsClean (Dict.insert k v params)
  insert-IsClean k v params clean h j found = elim (Bool-cases (k == j)) [
    | inl same ↦ subst (λ i. split_once (chars i) ≡ none) ((eq_iff k j).0 same) clean
    | inr other ↦ h j (ground (arith, found, other, Dict.lookup-insert k j v params))
  ]

  load_one-IsClean :
      (k : String) (v : V) (params : List (String × V))
      → IsClean params
      → IsClean (load_one text k v params)
  unfolding load_one
  load_one-IsClean k v params h = elim (Option-cases (split_once (chars k))) [
    | inl plain ↦ rw (load_one, plain) (insert-IsClean k v params plain h)
    | inr (parts, found) ↦
        rw (load_one, found)
          (insert-IsClean (pack parts.0) (text (pack parts.1)) params
            (ap split_once (chars-pack parts.0) ∙ split_once_lem (chars k) parts.0 parts.1 found) h)
  ]

  load_all-IsClean :
      (d params : List (String × V)) → IsClean params → IsClean (load_all text d params)
  unfolding load_all
  load_all-IsClean [] params h = h
  load_all-IsClean ((k, v) ∷ d) params h =
      load_all-IsClean d (load_one text k v params) (load_one-IsClean k v params h)

  -- No name of the parameters of a request that were loaded has an equals sign, whatever the
  -- parameters were.
  pub load-IsClean : (d : List (String × V)) → IsClean (load text d)
  unfolding load Dict.lookup
  load-IsClean d = load_all-IsClean d [] (λ k h. ground (arith, h))

  abbrev first_of : Option V → Option V → Option V
  first_of none o = o
  first_of (some v) o = some v

  first_of_none : (o : Option V) → first_of o none ≡ o
  first_of_none none = refl
  first_of_none (some v) = refl

  lookup-load_all :
      (d params : List (String × V)) (k : String)
      → All (λ p. split_once (chars p.0) ≡ none) d
      → Dict.Distinct d
      → Dict.lookup k (load_all text d params) ≡ first_of (Dict.lookup k d) (Dict.lookup k params)
  unfolding load_all Dict.lookup
  lookup-load_all [] params k clean distinct = refl
  lookup-load_all ((j, v) ∷ d) params k (plain, clean) (absent, distinct) =
      let one : load_one text j v params ≡ Dict.insert j v params = rw (load_one, plain) refl in
      rw one (
        lookup-load_all d (Dict.insert j v params) k clean distinct
        ∙ rw (Dict.lookup-insert j k v params) (elim (Bool-cases (j == k)) [
          | inl same ↦
              let gone : Dict.lookup k d ≡ none =
                subst (λ i. Dict.lookup i d ≡ none) ((eq_iff j k).0 same) absent in
              rw (same, gone) refl
          | inr other ↦ rw other refl
        ]))

  -- Parameters whose names have no equals sign, each listed once, are loaded as they are: every
  -- name has the value that it had, or none.
  pub lookup-load :
      (d : List (String × V)) (k : String)
      → All (λ p. split_once (chars p.0) ≡ none) d
      → Dict.Distinct d
      → Dict.lookup k (load text d) ≡ Dict.lookup k d
  unfolding load Dict.lookup
  lookup-load d k clean distinct =
      lookup-load_all d [] k clean distinct ∙ first_of_none (Dict.lookup k d)
