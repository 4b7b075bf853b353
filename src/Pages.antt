-- ===== src/Pages.antt =====
-- Static content and pictures (`Server` of src/python/Core/GUI.py): `static`, `yui`, `extjs`, `jsroot`
-- and `d3`. What the server answers with a file is the call of `serve_file` of CherryPy, with its path
-- and its type.
pub mod Inside
pub mod Files
pub mod Fresh
pub mod Fairies
pub mod Found
use dqmgui_prod.Base.{
  ℕ, String, Bool, true, false, ◌||◌, ◌&&◌, Option, none, some, List, [], ◌∷◌, chars, length,
  concat, join, is_lower, is_digit, nat_eq, ◌==◌, not, if◌then◌else◌, show_nat,
}
use dqmgui_prod.Base.Dict
use dqmgui_prod.Exec.{Error, Result, ok, raised, Exec, pure, modify, ◌>>=◌, ◌>>◌}
use dqmgui_prod.Regex.{Regex, chr, eos, seq, alt, plus, literal, matches}
use dqmgui_prod.Value.{Fields}

pub data Served : Type 0 where
  -- `_invalidURL`
  invalid_url : Served
  -- `serve_file(path, content_type)`
  file : String → Option String → Served

-- what `__init__` takes from the environment
pub record Roots : Type 0 where
  pub content : String
  pub yui : String
  pub extjs : Option String
  pub jsroot : Option String
  pub d3 : Option String

-- `^[-a-z_]+\.(png|gif|svg)$`
abbrev pub rx_static : Regex
rx_static =
    seq (plus (chr (λ c. is_lower c || nat_eq c b'-' || nat_eq c b'_')))
      (seq (literal ".") (seq (alt (literal "png") (alt (literal "gif") (literal "svg"))) eos))

abbrev kinds : Regex
kinds = alt (literal "png") (alt (literal "gif") (alt (literal "js") (literal "css")))

-- `^[-a-z_/]+\.(png|gif|js|css)$`
abbrev pub rx_content : Regex
rx_content =
    seq (plus (chr (λ c. is_lower c || nat_eq c b'-' || nat_eq c b'_' || nat_eq c b'/')))
      (seq (literal ".") (seq kinds eos))

-- `^[-a-z_/0-9\.]+\.(png|gif|js|css)$`
abbrev pub rx_d3 : Regex
rx_d3 =
    seq
      (plus (
        chr (λ c.
          is_lower c
          || is_digit c
          || nat_eq c b'-'
          || nat_eq c b'_'
          || nat_eq c b'/'
          || nat_eq c b'.')))
      (seq (literal ".") (seq kinds eos))

-- `root + "/" + path`
abbrev pub under : String → String → String
under root path = concat root (concat "/" path)

-- `if not (root and …)`, of a root that may be `None` and a test of the path
unfoldable pub serve_if : (String → Bool) → Option String → List String → Served
serve_if test none args = invalid_url
serve_if test (some root) args =
    if not (root == "") && test (join "/" args)
    then file (under root (join "/" args)) none
    else invalid_url

module _ (roots : Roots) where
  unfoldable pub static : List String → Served
  static [] = invalid_url
  static (name ∷ []) =
      if matches rx_static name
      then file (under (concat roots.content "/images") name) none
      else invalid_url
  static (name ∷ more ∷ path) = invalid_url

  unfoldable pub yui : List String → Served
  yui args =
      if matches rx_content (join "/" args)
      then file (under roots.yui (join "/" args)) none
      else invalid_url

  unfoldable pub extjs : List String → Served
  unfolding serve_if
  extjs args = serve_if (matches rx_content) roots.extjs args

  unfoldable pub jsroot : List String → Served
  unfolding serve_if
  jsroot args = serve_if (λ path. true) roots.jsroot args

  unfoldable pub d3 : List String → Served
  unfolding serve_if
  d3 args = serve_if (matches rx_d3) roots.d3 args
