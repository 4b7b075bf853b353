-- ===== src/Tests/Browse.antt =====
-- The pages of uploaded files (src/python/DQM/GUI.py).
use dqmgui_prod.Base.{
  String, true, false, some, List, [], ◌∷◌, ◌≡◌, refl, All, all, join, ◌==◌, is_alnum, show_nat,
}
use dqmgui_prod.Base.Dict
use dqmgui_prod.Exec.{ok, raised}
use dqmgui_prod.Regex.{matches}
use dqmgui_prod.Browse.{
  is_empty, Os, Stat, Request, download, not_found, browse, browse_under, browse_path, entries,
  sorted, all_but_last,
}
use dqmgui_prod.Browse.Inside.{IsPart, browse-download}

abbrev info : Stat
info = record { is_dir = false; size = 7; mtime = 5 }

abbrev os : Os
os = record {
  exists = λ path. true;
  is_dir = λ path. path == "/data";
  is_link = λ path. path == "/data/R2.root";
  stat = λ path. some info;
  listdir = λ path. some ("R1.root" ∷ ".hidden" ∷ "R2.root" ∷ []);
}

abbrev request : Request
request = record {
  path_info = "/data/browse/";
  base_url = "/dqm";
  stamp = 1;
  escape = λ s. s;
  url = λ s. s;
  http_date = show_nat;
  row_date = show_nat;
  validate_since = λ time. ok tt;
}

abbrev roots : List (String × String)
roots = ("ROOT", "/data") ∷ []

run_browse :
    browse os roots request ("ROOT" ∷ "R1.root" ∷ []) [] ≡ (ok (download "/data/R1.root"), [])
unfolding browse all matches is_alnum browse_under browse_path is_empty Dict.lookup join
run_browse = refl

run_browse_up : (browse os roots request ("ROOT" ∷ ".." ∷ []) []).0 ≡ raised not_found
unfolding browse all matches is_alnum browse_under browse_path is_empty Dict.lookup join
run_browse_up = refl

-- neither a hidden file nor a link is listed
run_entries :
    entries os roots request "/data" ("R1.root" ∷ ".hidden" ∷ "R2.root" ∷ [])
    ≡ ok (record { name = "R1.root"; folder = false; info = info } ∷ [])
unfolding entries matches is_alnum
run_entries = refl

run_sorted : sorted (λ s. s) ("b" ∷ "a" ∷ "ab" ∷ []) ≡ "a" ∷ "ab" ∷ "b" ∷ []
unfolding sorted
run_sorted = refl

run_all_but_last : all_but_last ("a" ∷ "b" ∷ []) ≡ "a" ∷ []
unfolding all_but_last
run_all_but_last = refl

browse-download_example :
    (root : String) × (dir : String) × (rest : List String) × (("ROOT" ∷ "R1.root" ∷ [])
      ≡ root ∷ rest)
    × (Dict.lookup root roots ≡ some dir)
    × ("/data/R1.root" ≡ join "/" (dir ∷ rest))
    × All IsPart rest
    × (os.exists "/data/R1.root" ≡ true)
    × (os.is_dir "/data/R1.root" ≡ false)
browse-download_example =
    browse-download os roots request ("ROOT" ∷ "R1.root" ∷ []) "/data/R1.root" [] [] run_browse
