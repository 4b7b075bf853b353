-- ===== src/Base/Dict.antt =====
-- Python's `dict` with text keys: entries in the order of insertion, a key at most once. An
-- assignment to a key that is there keeps its place.
use Prim.Native.Nat.{◌+◌}
use Prim.Native.String.{String}
use mathlib.Core.Path.{◌≡◌, refl}
use mathlib.Core.Bool.{false}
use mathlib.Core.Option.{Option, none, some}
use mathlib.Core.List.{List, [], ◌∷◌, ◌++◌}
use native.Mathlib.Omega.{arith}
use text.Mathlib.Text.{◌==◌}
use text.Mathlib.TextEquality.{eq_iff}
use text.Mathlib.TextPositions.{eq_refl}
use dqmgui_prod.Base.Tests.{if◌then◌else◌}
use dqmgui_prod.Base.Lists.{length}

module _ {ℓ} {V : Type ℓ} where
  -- `d.get(k)`
  unfoldable pub lookup : String → List (String × V) → Option V
  lookup k [] = none
  lookup k ((j, v) ∷ d) = if j == k then some v else lookup k d

  -- `d[k] = v`
  unfoldable pub insert : String → V → List (String × V) → List (String × V)
  insert k v [] = (k, v) ∷ []
  insert k v ((j, w) ∷ d) = if j == k then (j, v) ∷ d else (j, w) ∷ insert k v d

  -- `del d[k]` of a key that is there
  unfoldable pub remove : String → List (String × V) → List (String × V)
  remove k [] = []
  remove k ((j, w) ∷ d) = if j == k then d else (j, w) ∷ remove k d

  -- no key twice
  abbrev pub Absent : String → List (String × V) → Type ℓ
  Absent k d = lookup k d ≡ none

  abbrev pub Distinct : List (String × V) → Type ℓ
  Distinct [] = Unit
  Distinct ((k, v) ∷ d) = Absent k d × Distinct d

  pub lookup-insert :
      (k j : String) (v : V) (d : List (String × V))
      → lookup j (insert k v d) ≡ (if k == j then some v else lookup j d)
  unfolding lookup insert
  lookup-insert k j v [] = refl
  lookup-insert k j v ((i, w) ∷ d) =
      ground (arith, eq_iff k j, eq_iff i k, eq_iff i j, lookup-insert k j v d)

  pub lookup-remove_ne :
      (k j : String) (d : List (String × V)) → (k == j) ≡ false → lookup j (remove k d) ≡ lookup j d
  unfolding lookup remove
  lookup-remove_ne k j [] h = refl
  lookup-remove_ne k j ((i, w) ∷ d) h =
      ground (arith, eq_iff i k, eq_iff i j, eq_iff k j, lookup-remove_ne k j d h)

  pub lookup-remove_self :
      (k : String) (d : List (String × V)) → Distinct d → lookup k (remove k d) ≡ none
  unfolding lookup remove
  lookup-remove_self k [] h = refl
  lookup-remove_self k ((i, w) ∷ d) h = ground (arith, eq_iff i k, lookup-remove_self k d h.1)

  pub lookup-remove :
      (k j : String) (d : List (String × V))
      → Distinct d
      → lookup j (remove k d) ≡ (if k == j then none else lookup j d)
  lookup-remove k j d h =
      ground (arith, eq_iff k j, lookup-remove_ne k j d, lookup-remove_self k d h)

  pub remove-Absent : (k j : String) (d : List (String × V)) → Absent j d → Absent j (remove k d)
  unfolding lookup remove
  remove-Absent k j [] h = refl
  remove-Absent k j ((i, w) ∷ d) h = ground (arith, eq_iff i k, eq_iff i j, remove-Absent k j d)

  pub remove-Distinct : (k : String) (d : List (String × V)) → Distinct d → Distinct (remove k d)
  unfolding remove
  remove-Distinct k [] h = tt
  remove-Distinct k ((i, w) ∷ d) h =
      ground (arith, remove-Absent k i d h.0, remove-Distinct k d h.1)

  pub insert-Distinct :
      (k : String) (v : V) (d : List (String × V)) → Distinct d → Distinct (insert k v d)
  unfolding insert lookup
  insert-Distinct k v [] h = (refl, tt)
  insert-Distinct k v ((i, w) ∷ d) h =
      ground (arith, eq_iff i k, eq_iff k i, lookup-insert k i v d, insert-Distinct k v d h.1)

  pub remove_missing : (k : String) (d : List (String × V)) → Absent k d → remove k d ≡ d
  unfolding lookup remove
  remove_missing k [] h = refl
  remove_missing k ((i, w) ∷ d) h = ground (arith, remove_missing k d)

  pub insert_missing :
      (k : String) (v : V) (d : List (String × V)) → Absent k d → insert k v d ≡ d ++ (k, v) ∷ []
  unfolding lookup insert
  insert_missing k v [] h = refl
  insert_missing k v ((i, w) ∷ d) h = ground (arith, insert_missing k v d)

  pub length-remove :
      (k : String) (d : List (String × V)) (v : V)
      → lookup k d ≡ some v
      → length (remove k d) + 1 ≡ length d
  unfolding lookup remove
  length-remove k [] v h = absurd (ground arith)
  length-remove k ((i, w) ∷ d) v h = ground (arith, length-remove k d v)

  -- the later write wins
  pub insert-insert :
      (k : String) (v w : V) (d : List (String × V)) → insert k w (insert k v d) ≡ insert k w d
  unfolding insert
  insert-insert k v w [] = ground (arith, eq_refl k)
  insert-insert k v w ((i, u) ∷ d) = ground (arith, insert-insert k v w d)

  -- the value that is there, written again
  pub insert_same :
      (k : String) (v : V) (d : List (String × V)) → lookup k d ≡ some v → insert k v d ≡ d
  unfolding insert lookup
  insert_same k v [] h = cc
  insert_same k v ((i, u) ∷ d) h = ground (arith, insert_same k v d)
