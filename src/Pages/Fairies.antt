-- ===== src/Pages/Fairies.antt =====
-- The pages that a source draws up: `plotfairy`, `jsonfairy` and `jsrootfairy` of
-- src/python/Core/GUI.py, with `_noResponseCaching`. The sources, the streams of the log and the
-- templates of Cheetah are parameters.
use dqmgui_prod.Base.{
  ℕ, String, Bool, true, false, Option, none, some, List, [], ◌∷◌, chars, length, concat, ◌==◌,
  if◌then◌else◌, show_nat,
}
use dqmgui_prod.Base.Dict
use dqmgui_prod.Exec.{
  Error, http, http_redirect, key_error, attribute_error, type_error, value_error, index_error,
  unbound_local_error, assertion_error, runtime_error, os_error, blocked, diverged, Result, ok,
  raised, Exec, pure, raise, lift, modify, ◌>>=◌, ◌>>◌,
}
use dqmgui_prod.Value.{Fields, str, null, bool, num, list, dict, get, put}
use dqmgui_prod.Pages.{Served, file, under}
use dqmgui_prod.Pages.Files.{Files, refresh}

-- A source: the names that it has, and what it answers; a plot without a type is `none`.
pub record Source : Type 0 where
  pub plothook : Option String
  pub jsonhook : Option String
  pub plot : List String → Fields → Result (Option String × String)
  pub get_json : List String → Fields → Result String

-- the response under way, the log and the templates
pub record Response : Type 0 where
  pub headers : List (String × String)
  pub warnings : List Error
  pub files : Files

pub data Picture : Type 0 where
  bytes_of : String → Picture
  image : Served → Picture

unfoldable pub has_name : Option String → String → Bool
has_name none name = false
has_name (some hook) name = hook == name

-- the first source of a list that has the name
unfoldable pub find_source : (Source → Option String) → String → List Source → Option Source
unfolding has_name
find_source hook name [] = none
find_source hook name (s ∷ sources) =
    let rest = find_source hook name sources in if has_name (hook s) name then some s else rest

unfoldable pub set_header : String → String → Response → Response
set_header k v s = record s { headers = Dict.insert k v s.headers }

-- `_noResponseCaching`
unfoldable pub no_response_caching : Response → Response
unfolding set_header
no_response_caching s =
    set_header "Cache-Control" "no-store, no-cache, must-revalidate, post-check=0, pre-check=0"
      (set_header "Expires" "Sun, 19 Nov 1978 05:00:00 GMT" (set_header "Pragma" "no-cache" s))

-- a thread that waits or goes on for ever raises nothing
unfoldable pub is_exception : Error → Bool
is_exception blocked = false
is_exception diverged = false
is_exception (http n s) = true
is_exception (http_redirect s) = true
is_exception key_error = true
is_exception attribute_error = true
is_exception type_error = true
is_exception value_error = true
is_exception index_error = true
is_exception unbound_local_error = true
is_exception assertion_error = true
is_exception runtime_error = true
is_exception os_error = true

-- `try: … except Exception as e: log(…)`, with what the body returned, or `none` to go on after it
unfoldable pub attempt : Exec Response (Option String) → Exec Response (Option String)
unfolding is_exception
attempt m s =
    let (r, t) = m s in
    elim r [
      | ok a ↦ (ok a, t)
      | raised e ↦
          if is_exception e
          then (ok none, record t { warnings = e ∷ t.warnings })
          else (raised e, t)
    ]

unfoldable pub on_files : Exec Files String → Exec Response String
on_files m s = let (r, f) = m s.files in (r, record s { files = f })

-- a plot that a source has made, of which the type may be `None`
unfoldable pub show_plot : Option String → String → Exec Response (Option String)
unfolding ◌>>=◌ pure modify no_response_caching set_header
show_plot none bytes = pure none
show_plot (some kind) bytes = do
  modify no_response_caching
  modify (set_header "Content-Length" (show_nat (length (chars bytes))))
  modify (set_header "Content-Type" kind)
  pure (some bytes)

unfoldable pub missing : String → Picture
missing content = image (file (under content "images/missing.png") (some "image/png"))

-- `contentpath` and `sources` of the server, what `open` and `os.stat` answer, and a page from a
-- template and its data
module _ (content : String) (sources : List Source) (stat : String → Option ℕ)
    (read : String → Option String) (page : String → String → Result String) where
  unfoldable pub draw : List String → Fields → Exec Response (Option String)
  unfolding ◌>>=◌ pure lift find_source show_plot
  draw [] kwargs = pure none
  draw (name ∷ path) kwargs = elim (find_source (λ s. s.plothook) name sources) [
    | none ↦ pure none
    | some s ↦ do (kind, bytes) ← lift (s.plot path kwargs); show_plot kind bytes
  ]

  unfoldable pub plotfairy : List String → Fields → Exec Response Picture
  unfolding ◌>>=◌ pure modify attempt draw no_response_caching missing
  plotfairy args kwargs = do
    drawn ← attempt (draw args kwargs)
    elim drawn [
      | some bytes ↦ pure (bytes_of bytes)
      | none ↦ modify no_response_caching >> pure (missing content)
    ]

  -- `kwargs.get("formatted") == "true"`
  unfoldable pub wants_page : Fields → Bool
  wants_page kwargs = elim (get "formatted" kwargs) [
    | none ↦ false
    | some v ↦ elim v [
      | str s ↦ s == "true"
      | null ↦ false
      | bool b ↦ false
      | num n ↦ false
      | list l ↦ false
      | dict d ↦ false
    ]
  ]

  unfoldable pub in_page : String → Exec Response (Option String)
  unfolding ◌>>=◌ pure lift on_files refresh
  in_page json = do
    template ← on_files (refresh stat read "json")
    text ← lift (page template json)
    pure (some text)

  unfoldable pub json_of : List String → Fields → Exec Response (Option String)
  unfolding ◌>>=◌ pure lift find_source in_page wants_page
  json_of [] kwargs = pure none
  json_of (name ∷ path) kwargs = elim (find_source (λ s. s.jsonhook) name sources) [
    | none ↦
        pure (some (concat "JSON format of " (concat name " source plot is not supported yet.")))
    | some s ↦ do
      json ← lift (s.get_json path kwargs)
      if wants_page kwargs then in_page json else pure (some json)
  ]

  -- `str(e)` after the `except` clause, where Python has deleted `e`, or never bound it
  unfoldable pub str_e : Option String → Exec Response String
  unfolding ◌>>=◌ pure modify raise no_response_caching
  str_e (some text) = pure text
  str_e none = modify no_response_caching >> raise unbound_local_error

  unfoldable pub jsonfairy : List String → Fields → Exec Response String
  unfolding ◌>>=◌ attempt json_of str_e
  jsonfairy args kwargs = attempt (json_of args kwargs) >>= str_e

  unfoldable pub jsroot_of : List String → Fields → Exec Response (Option String)
  unfolding ◌>>=◌ pure lift find_source
  jsroot_of [] kwargs = pure none
  jsroot_of (name ∷ path) kwargs = elim (find_source (λ s. s.jsonhook) name sources) [
    | none ↦ pure none
    | some s ↦
        lift (s.get_json path (put "jsroot" (str "true") kwargs)) >>= λ json. pure (some json)
  ]

  unfoldable pub jsrootfairy : List String → Fields → Exec Response String
  unfolding ◌>>=◌ attempt jsroot_of str_e
  jsrootfairy args kwargs = attempt (jsroot_of args kwargs) >>= str_e
