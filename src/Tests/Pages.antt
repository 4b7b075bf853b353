-- ===== src/Tests/Pages.antt =====
-- Static content, templates and plots (src/python/Core/GUI.py).
use dqmgui_prod.Base.{
  ℕ, String, Bool, true, false, Option, none, some, List, [], ◌∷◌, ◌≡◌, refl, inl, inr, ◌==◌,
  if◌then◌else◌, is_lower, is_digit, join, sym,
}
use mathlib.Core.Path.{subst}
use dqmgui_prod.Base.Dict
use dqmgui_prod.Exec.{Result, ok, raised, key_error, type_error, blocked, unbound_local_error}
use dqmgui_prod.Regex.{matches}
use dqmgui_prod.Value.{end}
use dqmgui_prod.Pages.{invalid_url, file, Roots, serve_if, static, yui, extjs, jsroot, d3}
use dqmgui_prod.Pages.Inside.{IsDirectory, Below, served-Below}
use dqmgui_prod.Pages.Files.{Template, Files, acquire, find, refresh}
use dqmgui_prod.Pages.Fresh.{AllCurrent, IsCurrent, refresh_current, refresh_blocked}
use dqmgui_prod.Pages.Fairies.{
  Source, Response, bytes_of, has_name, no_response_caching, plotfairy, jsonfairy, is_exception,
}
use dqmgui_prod.Pages.Found.{Ends, shown, plotfairy-first, jsonfairy_failed}

abbrev roots : Roots
roots = record {
  content = "/dqm/data";
  yui = "/yui/build";
  extjs = some "/extjs";
  jsroot = some "/jsroot";
  d3 = some "/d3";
}

abbrev script : List String
script = "yahoo" ∷ "yahoo.js" ∷ []

run_yui : yui roots script ≡ file "/yui/build/yahoo/yahoo.js" none
unfolding yui matches is_lower join
run_yui = refl

-- neither a directory above nor another kind of file
run_static : static roots (".." ∷ []) ≡ invalid_url
unfolding static matches is_lower
run_static = refl

run_extjs : extjs roots (".." ∷ "x.js" ∷ []) ≡ invalid_url
unfolding extjs serve_if matches is_lower join
run_extjs = refl

-- the pattern of `d3` accepts a path with `..`, and `jsroot` has none
run_d3 : d3 roots (".." ∷ "x.js" ∷ []) ≡ file "/d3/../x.js" none
unfolding d3 serve_if matches is_lower is_digit join
run_d3 = refl

run_jsroot : jsroot roots (".." ∷ "passwd" ∷ []) ≡ file "/jsroot/../passwd" none
unfolding jsroot serve_if join
run_jsroot = refl

served-Below_example :
    (root : String) × IsDirectory roots root × Below root "/yui/build/yahoo/yahoo.js"
served-Below_example =
    served-Below roots script "/yui/build/yahoo/yahoo.js" none (inr (inl run_yui))

abbrev stat : String → Option ℕ
stat path = if path == "json.tmpl" then some 20 else none

abbrev read : String → Option String
read path = if path == "json.tmpl" then some "new" else none

abbrev old : Template
old = record { filename = "json.tmpl"; mtime = 10; text = "old" }

abbrev kept : Files
kept = record { templates = ("json", old) ∷ []; locked = false }

kept-AllCurrent : AllCurrent stat read kept
unfolding AllCurrent IsCurrent Dict.lookup
kept-AllCurrent name t found seen = never ("json" == name) t found seen
  where
    not_seen : stat "json.tmpl" ≡ some old.mtime → ⊥
    not_seen h = absurd cc

    never :
        (b : Bool) (t : Template)
        → (if b then some old else none) ≡ some t
        → stat t.filename ≡ some t.mtime
        → read t.filename ≡ some t.text
    never false t found seen = absurd cc
    never true t found seen =
        absurd (not_seen (subst (λ x. stat x.filename ≡ some x.mtime) (sym (same found)) seen))
      where
        same : {a b : Template} → some a ≡ some b → a ≡ b
        same h = cc

refresh_current_example :
    (s' : Files) × (refresh stat read "json" kept ≡ (ok "new", s'))
    × (s'.locked ≡ false)
    × AllCurrent stat read s'
unfolding Dict.lookup
refresh_current_example =
    refresh_current stat read "json" old 20 "new" kept refl kept-AllCurrent refl refl refl

refresh_blocked_example :
    (refresh stat read "json" (refresh stat read "index" kept).1).0 ≡ raised blocked
unfolding refresh find acquire Dict.lookup
refresh_blocked_example = refresh_blocked stat read "index" "json" key_error kept refl

abbrev source : String → Source
source name = record {
  plothook = some name;
  jsonhook = some name;
  plot = λ path kwargs. ok (some "image/png", "png");
  get_json = λ path kwargs. raised type_error;
}

abbrev page : String → String → Result String
page template json = ok json

abbrev response : Response
response = record { headers = []; warnings = []; files = kept }

plotfairy-first_example :
    (plotfairy "/dqm/data"
      (source "live" ∷ source "archive" ∷ [])
      stat
      read
      page
      ("archive" ∷ "1" ∷ [])
      end
      response).0
    ≡ ok (bytes_of "png")
unfolding has_name Ends shown
plotfairy-first_example =
    plotfairy-first "/dqm/data" stat read page (source "live" ∷ []) [] (source "archive") "archive"
      ("1" ∷ []) end response (refl, tt) refl tt

jsonfairy_failed_example :
    jsonfairy "/dqm/data"
      (source "live" ∷ source "archive" ∷ [])
      stat
      read
      page
      ("archive" ∷ "1" ∷ [])
      end
      response
    ≡ (
      raised unbound_local_error,
      no_response_caching (record response { warnings = type_error ∷ [] }),
    )
unfolding has_name is_exception
jsonfairy_failed_example =
    jsonfairy_failed "/dqm/data" stat read page (source "live" ∷ []) [] (source "archive") "archive"
      ("1" ∷ []) end response type_error (refl, tt) refl refl refl
