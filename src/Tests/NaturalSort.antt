-- ===== src/Tests/NaturalSort.antt =====
-- The natural order of names (src/python/Core/Utils/Common.py).
use dqmgui_prod.Base.{String, List, [], ◌∷◌, ◌≡◌, refl, is_digit, negsuc, chars}
use mathlib.Core.List.{Perm}
use dqmgui_prod.NaturalSort.{key_of, last, next, natsorted}
use dqmgui_prod.NaturalSort.Cut.{Cut}
use dqmgui_prod.NaturalSort.Sorted.{InOrder, natsorted_lem}

abbrev names : List String
names = "run10" ∷ "run9" ∷ "run-1" ∷ "run" ∷ []

run_key : key_of "a-2b" ≡ next (chars "a") (negsuc 1) (last (chars "b"))
unfolding key_of is_digit
run_key = refl

-- numbers are compared as numbers
run_natsorted : natsorted names ≡ "run" ∷ "run-1" ∷ "run9" ∷ "run10" ∷ []
unfolding natsorted is_digit
run_natsorted = refl

natsorted_lem_example :
    InOrder (natsorted names)
    × Perm (natsorted names) names
    × Cut (chars "run-9b") (key_of "run-9b")
natsorted_lem_example = natsorted_lem names "run-9b"
