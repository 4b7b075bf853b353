-- ===== src/Tests/Upload.antt =====
-- Uploads of files and of layouts to a server (src/python/DQM/GUI.py).
use dqmgui_prod.Base.{
  ℕ, zero, suc, ◌+◌, ◌≤◌, ◌<◌, String, Char, Bool, true, false, ◌≡◌, refl, sym, ap, ◌∙◌, Option,
  none, some, List, [], ◌∷◌, arith, concat, chars, pack, chars-pack, ◌==◌, eq_iff, if◌then◌else◌,
  inl, inr, Bool-cases,
}
use dqmgui_prod.Base.Dict
use dqmgui_prod.Exec.{
  Result, ok, raised, Error, http, value_error, attribute_error, blocked, diverged,
}
use dqmgui_prod.Upload.{Site, Headers, FrontEnd, header, authenticate}
use dqmgui_prod.Upload.Save
use dqmgui_prod.Upload.Save.{Call, save, find_version, texts}
use dqmgui_prod.Upload.Undo.{IsUndone, save-IsUndone}
use dqmgui_prod.Upload.Saved.{save_lem, find_version_ends, is_free}
use dqmgui_prod.Upload.Success.{content_of}
use dqmgui_prod.Upload.Archive.Spec.{Request}
use dqmgui_prod.Upload.Archive.Refines.{run_saves, run_saves_keep}
use dqmgui_prod.Upload.Senders.{authenticate_lem}
use dqmgui_prod.Upload.Layouts.{LayoutSetting, save_layouts}
use dqmgui_prod.Upload.Layouts.Fails.{save_layouts_fails}

count : List Char → ℕ
count [] = 0
count (c ∷ cs) = suc (count cs)

total : List (String × List ℕ) → ℕ
total [] = 0
total ((k, v) ∷ d) = count (chars k) + total d

fill : ℕ → List Char
fill zero = []
fill (suc n) = "x" ∷ fill n

count-fill : (n : ℕ) → count (fill n) ≡ n
unfolding count fill
count-fill zero = refl
count-fill (suc n) = ap suc (count-fill n)

-- a name that is longer than the names of all files together
temp_name : String → Site → String
temp_name dir s = pack (fill (suc (total s.files)))

longer :
    (n : String) (d : List (String × List ℕ)) → total d < count (chars n) → Dict.lookup n d ≡ none
unfolding Dict.lookup total
longer n [] h = refl
longer n ((k, v) ∷ d) h = elim (Bool-cases (k == n)) [
  | inl same ↦
      let shorter : count (chars k) ≡ count (chars n) =
        ap (λ m. count (chars m)) ((eq_iff k n).0 same) in
      absurd (omega arith)
  | inr other ↦ rw other (longer n d (omega arith))
]

-- it is long enough
temp_name-long : (dir : String) (s : Site) → total s.files < count (chars (temp_name dir s))
unfolding temp_name
temp_name-long dir s =
    rw (chars-pack (fill (suc (total s.files))), count-fill (suc (total s.files))) (omega arith)

fresh : (dir : String) (s : Site) → Dict.lookup (temp_name dir s) s.files ≡ none
fresh dir s = longer (temp_name dir s) s.files (temp_name-long dir s)

abbrev quiet : Site
quiet = record {
  locked = false;
  files = ("/u/0000/DQM_V0001_R000000001.root", 1 ∷ []) ∷ [];
  dirs = "/u/0000" ∷ [];
  status = none;
  fname = "";
  tmp = none;
  nsaved = 0;
}

abbrev chunks : List (List ℕ)
chunks = (114 ∷ 111 ∷ 111 ∷ 116 ∷ 0 ∷ []) ∷ (7 ∷ []) ∷ [] ∷ []

-- the second part of the data cannot be written
disk_full : Call → Bool
disk_full (Call.write_data (suc n)) = true
disk_full c = false

-- nor can what was written be removed
disk_broken : Call → Bool
disk_broken (Call.write_data (suc n)) = true
disk_broken Call.remove_data = true
disk_broken Call.remove_origin = true
disk_broken Call.remove_temp = true
disk_broken c = false

working : Call → Bool
working c = false

abbrev name : String
name = "DQM_V0001_R000000002.root"

save-IsUndone_example :
    IsUndone quiet.files "/u/0000/DQM_V0001_R000000001.root"
      (save disk_full temp_name 5 "/u" name 6 "md5:0" chunks quiet).1
unfolding save dqmgui_prod.Exec.◌>>=◌ find_version Dict.lookup dqmgui_prod.Base.show_nat4
    dqmgui_prod.Base.member dqmgui_prod.Exec.when dqmgui_prod.Base.contains disk_full
    dqmgui_prod.Base.same_bytes temp_name fill total count dqmgui_prod.Upload.error Save.handle
    Dict.insert
save-IsUndone_example =
    save-IsUndone disk_full temp_name fresh 5 "/u" name 6 "md5:0" chunks quiet
      (http 500 "Failed to save file data") "/u/0000/DQM_V0001_R000000001.root" (refl, refl, refl)
      refl (refl, tt) refl refl

run_save : (save working temp_name 5 "/u" name 6 "md5:0" chunks quiet).0 ≡ ok tt
unfolding save dqmgui_prod.Exec.◌>>=◌ find_version Dict.lookup dqmgui_prod.Base.show_nat4
    dqmgui_prod.Base.member dqmgui_prod.Exec.when dqmgui_prod.Base.contains working
    dqmgui_prod.Base.same_bytes
run_save = refl

save_lem_example :
    let fname : String = "/u/0001/DQM_V0001_R000000002.root" in
    (s' : Site) × (save working temp_name 5 "/u" name 6 "md5:0" chunks quiet ≡ (ok tt, s'))
    × (s'.locked ≡ false)
    × ((q : String)
        → Dict.lookup q s'.files ≡ (
            if concat fname ".origin" == q
            then some (texts (concat "md5:0 6 " (concat fname "\n")))
            else if fname == q
            then some (content_of chunks)
            else Dict.lookup q quiet.files))
unfolding working find_version Dict.lookup dqmgui_prod.Base.show_nat4 dqmgui_prod.Base.member
    dqmgui_prod.Base.same_bytes dqmgui_prod.Base.contains content_of Save.path_exists
save_lem_example =
    save_lem working temp_name fresh (λ c. refl) 5 "/u" name "md5:0" chunks 1 quiet refl (refl, tt)
      refl refl refl

find_version_ends_example :
    (found : ℕ) × (find_version "/u" name 5 1 quiet ≡ (ok found, quiet))
    × (is_free "/u" name found quiet ≡ true)
unfolding find_version Dict.lookup dqmgui_prod.Base.show_nat4 dqmgui_prod.Base.member
    Save.path_exists
find_version_ends_example = find_version_ends "/u" name 0 5 1 quiet refl (omega arith)

-- a request of the front-end for a data operator
abbrev signed : Headers
signed =
    ("cms-auth-status", "OK")
    ∷ ("Cms-Authn-Method", "X509LimitedProxy")
    ∷ ("Cms-Authn-Hmac", "abc")
    ∷ ("Cms-Authz-t0-operator", "group:other group:dataops")
    ∷ []

front : Bool → FrontEnd
front b = record { sortable = b; digest = λ h. "abc" }

authenticate_lem_example : authenticate (front true) signed quiet ≡ (ok tt, quiet)
unfolding front header dqmgui_prod.Base.same_lower dqmgui_prod.Base.member dqmgui_prod.Base.split
authenticate_lem_example = authenticate_lem (front true) signed quiet

-- a decoder that takes any text but the empty one
decode_text : List ℕ → Result (Unit {0})
decode_text [] = raised value_error
decode_text (c ∷ cs) = ok tt

abbrev layouts : LayoutSetting
layouts = record {
  uploads = some "/u";
  allowed = [];
  fails = working;
  temp_name = temp_name;
  mixes = true;
  decode = decode_text;
  push_layouts = ok tt;
}

save_layouts_fails_example :
    ((save_layouts layouts "/u" chunks quiet).0 ≡ raised (http 500 "Failed to save file data"))
    × (Dict.lookup "/u/layouts.json" (save_layouts layouts "/u" chunks quiet).1.files ≡ none)
    × ((save_layouts layouts "/u" chunks quiet).1.locked ≡ false)
unfolding working decode_text Dict.lookup
save_layouts_fails_example =
    save_layouts_fails layouts (λ c. refl) "/u" chunks quiet refl (refl, tt) refl

-- one file saved, and the same one again while the disk is full
abbrev requests : List Request
requests =
    record { filename = name; size = 6; checksum = "md5:0"; chunks = chunks; fails = working }
    ∷ record { filename = name; size = 6; checksum = "md5:0"; chunks = chunks; fails = disk_full }
    ∷ []

abbrev broken : List Request
broken =
    record { filename = name; size = 6; checksum = "md5:0"; chunks = chunks; fails = disk_broken }
    ∷ requests

run_saves_keep_example :
    Dict.lookup "/u/0000/DQM_V0001_R000000001.root"
      (run_saves temp_name fresh 5 "/u" broken quiet).1.files
    ≡ some (1 ∷ [])
unfolding Dict.lookup
run_saves_keep_example =
    run_saves_keep temp_name fresh 5 "/u" broken quiet "/u/0000/DQM_V0001_R000000001.root" (1 ∷ [])
      (refl, tt) refl
