-- ===== src/Tests/Sources.antt =====
-- The sources of plots (src/python/DQM/GUI.py).
use dqmgui_prod.Base.{
  String, Option, none, some, List, [], ◌∷◌, ◌≡◌, refl, ℤ, pos, int, is_digit, join,
}
use dqmgui_prod.Base.Dict
use dqmgui_prod.Exec.{ok, raised, index_error, http, type_error}
use dqmgui_prod.Regex.{match}
use dqmgui_prod.Sources.{
  many, Options, Plot, params_of, Wanted, Object, cut, known, table, read_object, extend_labels,
  label_at, add_object, collect, overlay, is_space, live_opts, certification, strip_chart, current,
  last_of, archive, live,
}
use dqmgui_prod.Sources.Labels.{read_none, read_one, overlay_lem}

abbrev hook : String → Option String
hook s = some s

abbrev int_of : String → Option ℤ
int_of s = some (pos (int s))

abbrev sources : List String
sources = "archive" ∷ "live" ∷ []

abbrev wanted : String → Wanted String
wanted run = record {
  source = "archive";
  run = run;
  runnr = pos (int run);
  dataset = "/A/B/C";
  path = "E/h";
}

abbrev options : Options
options = ("obj", many ("archive/1/A/B/C/E/h" ∷ "archive/2/A/B/C/E/h" ∷ [])) ∷ []

run_cut : cut 2 "a/b/c/d" ≡ "a" ∷ "b" ∷ "c/d" ∷ []
unfolding cut
run_cut = refl

run_read : read_object hook int_of sources "archive/1/A/B/C/E/h" ≡ ok (some (wanted "1"))
unfolding read_object known table join is_digit Dict.lookup
run_read = refl

-- a first object of an unknown source leaves no label for the second one
run_unknown_first :
    collect hook int_of sources 0 ("old/1/A/B/C/E/h" ∷ "archive/2/A/B/C/E/h" ∷ []) []
    ≡ raised index_error
unfolding collect read_object known table join is_digit Dict.lookup extend_labels label_at
    add_object
run_unknown_first = refl

-- a port alone leaves no host
run_port : live_opts "9190" ≡ record { dqmhost = none; dqmport = pos 9190 }
unfolding live_opts match is_space is_digit int
run_port = refl

run_host : live_opts "dqm:9190" ≡ record { dqmhost = some "dqm"; dqmport = pos 9190 }
unfolding live_opts match is_space is_digit int
run_host = refl

abbrev draw : List (Object String) → Options → Plot
draw objects opts = ok (some "image/png", "png")

overlay_lem_example : overlay hook int_of draw sources options ≡ ok (some "image/png", "png")
unfolding params_of read_object known table join is_digit Dict.lookup int
overlay_lem_example =
    overlay_lem hook int_of sources draw options "archive/1/A/B/C/E/h" (wanted "1")
      ("archive/2/A/B/C/E/h" ∷ []) (wanted "2" ∷ []) refl
      (read_one "archive/1/A/B/C/E/h" ("archive/2/A/B/C/E/h" ∷ []) (wanted "1") (wanted "2" ∷ [])
        refl (read_one "archive/2/A/B/C/E/h" [] (wanted "2") [] refl read_none))

run_strip :
    strip_chart hook int_of (λ all info path options. ok (none, path)) sources ("E" ∷ "h" ∷ []) []
    ≡ raised (http 500 "Missing trend argument")
unfolding strip_chart Dict.lookup
run_strip = refl

run_certification :
    certification hook int_of (λ info dotted dir name options. ok (none, name)) sources [] []
    ≡ raised index_error
unfolding certification current Dict.lookup last_of
run_certification = refl

run_archive :
    archive int_of
      (λ run dataset path options. ok dataset)
      ("1" ∷ "A" ∷ "B" ∷ "C" ∷ "E" ∷ "h" ∷ [])
      []
    ≡ ok "/A/B/C"
unfolding archive join
run_archive = refl

run_live : live (λ path options. ok (none, path)) ("1" ∷ "A" ∷ []) [] ≡ raised type_error
unfolding live
run_live = refl
