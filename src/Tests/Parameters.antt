-- ===== src/Tests/Parameters.antt =====
-- Parameters of requests (src/python/Core/Utils/Common.py).
use dqmgui_prod.Base.{String, List, [], ◌∷◌, ◌≡◌, refl}
use dqmgui_prod.Base.Dict
use dqmgui_prod.Parameters.{load, split_once}
use dqmgui_prod.Parameters.Split.{IsClean, load-IsClean}

same : String → String
same s = s

abbrev encoded : List (String × String)
encoded = ("run=1=2", "") ∷ ("size", "M") ∷ []

-- the first sign separates the name from the value
run_load : load same encoded ≡ ("run", "1=2") ∷ ("size", "M") ∷ []
unfolding load split_once same Dict.insert
run_load = refl

load-IsClean_example : IsClean (load same encoded)
load-IsClean_example = load-IsClean same encoded
