-- ===== src/Workspace/Settings.antt =====
-- `DQMWorkspace._set` of src/python/DQM/GUI.py: the parameters of a request, checked one after the
-- other and written to the session as they pass. `null` is a parameter that was not given.
use dqmgui_prod.Base.{
  ℕ, String, Bool, ◌||◌, none, some, List, [], ◌∷◌, pos, ltb, nat_eq, is_alnum, int, if◌then◌else◌,
}
use dqmgui_prod.Exec.{http, pure, raise, ◌>>◌}
use dqmgui_prod.Regex.{Regex, chr, seq, star, eos, matches, rx_digits, rx_maybe_digits}
use dqmgui_prod.Value.{Value, Fields, null, bool, num, str, list, dict}
use dqmgui_prod.Workspace.Desk.{put_item, put_in}
use dqmgui_prod.Workspace.Params.{
  Step, Gui, workspace_names, arg, require, text_step, set_choice, set_text, set_number, set_flag,
  set_reference_choice,
}

-- `session["dqm.sample.type"] = int(getattr(Accelerator.sampletype, sampletype))`
unfoldable pub set_sampletype : Gui → String → Step
set_sampletype gui s = elim (gui.sampletype s) [
  | none ↦ raise (http 500 "Incorrect sample type parameter")
  | some n ↦ put_item "dqm.sample.type" (num n)
]

-- `isinstance(v, int)`, which a Boolean meets too
unfoldable pub set_importversion : Value → Step
set_importversion null = pure tt
set_importversion (num n) = put_item "dqm.sample.importversion" (num n)
set_importversion (bool b) = put_item "dqm.sample.importversion" (bool b)
set_importversion (str s) = raise (http 500 "Incorrect sample importversion parameter")
set_importversion (list l) = raise (http 500 "Incorrect sample importversion parameter")
set_importversion (dict f) = raise (http 500 "Incorrect sample importversion parameter")

-- the parameters of the sample, from `samplevary` to `runnr`
unfoldable pub set_sample : Gui → Fields → Step
set_sample gui kwargs = do
  set_choice "dqm.sample.vary" ("any" ∷ "run" ∷ "dataset" ∷ []) "Incorrect sample vary parameter"
      (arg "samplevary" kwargs)
  set_choice "dqm.sample.order" ("run" ∷ "dataset" ∷ []) "Incorrect sample order parameter"
      (arg "sampleorder" kwargs)
  set_choice "dqm.sample.prevws" (workspace_names gui)
      "Incorrect sample previous workspace parameter" (arg "sampleprevws" kwargs)
  set_text "dqm.sample.pattern" "Incorrect sample pattern parameter" (arg "samplepat" kwargs)
  set_choice "dqm.sample.dynsearch" ("yes" ∷ "no" ∷ []) "Incorrect sample dynamic search parameter"
      (arg "sampledynsearch" kwargs)
  text_step "Incorrect sample type parameter" (arg "sampletype" kwargs) (set_sampletype gui)
  set_importversion (arg "sampleimportversion" kwargs)
  set_text "dqm.sample.dataset" "Incorrect dataset parameter" (arg "dataset" kwargs)
  set_number "dqm.sample.runnr" "Incorrect run parameter" (arg "runnr" kwargs)

-- `^[A-Za-z.\d]*$`
unfoldable pub is_qplot_char : ℕ → Bool
unfolding is_alnum
is_qplot_char c = is_alnum c || nat_eq c b'.'

abbrev pub rx_qplot : Regex
rx_qplot = seq (star (chr is_qplot_char)) eos

unfoldable pub set_qplot : Value → Step
set_qplot v = text_step "Incorrect quality plot parameter" v λ s.
    require (matches rx_qplot s) "Invalid quality plot parameter" >> put_item "dqm.qplot" (str s)

-- what is shown, from `qplot` to `referencenorm`
unfoldable pub set_display : Fields → Step
set_display kwargs = do
  set_qplot (arg "qplot" kwargs)
  set_choice "dqm.filter" ("all" ∷ "alarms" ∷ "nonalarms" ∷ []) "Incorrect filter parameter"
      (arg "filter" kwargs)
  set_text "dqm.showstats" "Incorrect showstats parameter" (arg "showstats" kwargs)
  set_text "dqm.showerrbars" "Incorrect showerrbars parameter" (arg "showerrbars" kwargs)
  set_reference_choice "show" ("all" ∷ "none" ∷ "customise" ∷ [])
      "Incorrect referenceshow parameter" (arg "referenceshow" kwargs)
  set_reference_choice "position" ("overlay" ∷ "ratiooverlay" ∷ "on-side" ∷ "stacked" ∷ [])
      "Incorrect referencepos parameter" (arg "referencepos" kwargs)
  text_step "Incorrect referencenorm parameter" (arg "referencenorm" kwargs)
      (λ s. put_in "dqm.reference" "norm" (str s))

abbrev pub strip_types : List String
strip_types =
    "object" ∷ "num-entries" ∷ "num-bins" ∷ "num-bytes" ∷ "x-mean" ∷ "x-min" ∷ "x-max"
    ∷ "x-mean-rms" ∷ "x-mean-min-max" ∷ "x-bins" ∷ "y-mean" ∷ "y-min" ∷ "y-max" ∷ "y-mean-rms"
    ∷ "y-mean-min-max" ∷ "y-bins" ∷ "z-mean" ∷ "z-min" ∷ "z-max" ∷ "z-mean-rms" ∷ "z-mean-min-max"
    ∷ "z-bins" ∷ []

unfoldable pub set_stripruns : Value → Step
set_stripruns v = text_step "Incorrect strip runs parameter" v λ s.
    require (matches rx_maybe_digits s) "Incorrect strip runs parameter"
    >> put_item "dqm.strip.n" (str s)

-- the strip chart, from `striptype` to `stripaxis`
unfoldable pub set_strip : Fields → Step
set_strip kwargs = do
  set_choice "dqm.strip.type" strip_types "Incorrect strip type parameter" (arg "striptype" kwargs)
  set_stripruns (arg "stripruns" kwargs)
  set_choice "dqm.strip.omit" ("empty" ∷ "none" ∷ []) "Incorrect strip omit parameter"
      (arg "stripomit" kwargs)
  set_choice "dqm.strip.axis" ("run" ∷ "time" ∷ []) "Incorrect strip axis parameter"
      (arg "stripaxis" kwargs)

-- the page, from `search` to `size`
unfoldable pub set_page : Fields → Step
set_page kwargs = do
  set_text "dqm.search" "Incorrect search parameter" (arg "search" kwargs)
  set_choice "dqm.submenu" ("data" ∷ "service" ∷ "workspace" ∷ []) "Incorrect submenu parameter"
      (arg "submenu" kwargs)
  set_choice "dqm.size" ("XS" ∷ "S" ∷ "M" ∷ "L" ∷ "XL" ∷ []) "Incorrect size parameter"
      (arg "size" kwargs)

-- the bounds of the play interval; 0 stands for the default, 5
unfoldable pub play_interval : ℕ → ℕ
play_interval n = if nat_eq n 0 then 5 else if ltb n 2 then 2 else if ltb 99 n then 99 else n

unfoldable pub set_playinterval : Value → Step
set_playinterval v = text_step "Incorrect play interval parameter" v λ s.
    require (matches rx_digits s) "Incorrect play interval parameter"
    >> put_item "dqm.play.interval" (num (pos (play_interval (int s))))

-- the play mode, from `playprevws` to `playpos`
unfoldable pub set_play : Gui → Fields → Step
set_play gui kwargs = do
  set_choice "dqm.play.prevws" (workspace_names gui) "Incorrect play previous workspace parameter"
      (arg "playprevws" kwargs)
  set_playinterval (arg "playinterval" kwargs)
  set_number "dqm.play.pos" "Incorrect play position parameter" (arg "playpos" kwargs)

-- the windows, `zoom` and `certzoom`
unfoldable pub set_zooms : Fields → Step
set_zooms kwargs = do
  set_flag "dqm.zoom.show" "Invalid Zoom show parameter" (arg "zoom" kwargs)
  set_flag "dqm.certzoom.show" "Invalid Certifcation Zoom show parameter" (arg "certzoom" kwargs)
