-- ===== src/Pages/Inside.antt =====
-- The files that `static`, `yui` and `extjs` of src/python/Core/GUI.py serve: none is outside the
-- directory that it is looked for in.
use dqmgui_prod.Base.{
  String, Bool, true, false, ◌≡◌, refl, sym, ap, Option, none, some, List, [], ◌∷◌, chars, concat,
  join, is_lower, not, ◌==◌, ◌&&◌, contains, inl, inr, ◌⊎◌, if◌then◌else◌,
}
use dqmgui_prod.Regex.{matches}
use dqmgui_prod.Regex.Counts.{most, closes, matches-count, contains-dots}
use dqmgui_prod.Pages.{
  Served, invalid_url, file, Roots, rx_static, rx_content, under, serve_if, static, yui, extjs,
}

-- the path of a file below a directory, with no `..` on the way
unfoldable pub Below : String → String → Type 0
Below root path =
    (rest : String) × (path ≡ under root rest) × (contains (chars "..") (chars rest) ≡ false)

path_of : String → Served → String
path_of p invalid_url = p
path_of p (file q t) = q

served-checked :
    (b : Bool) (p q : String) (k kind : Option String)
    → (if b then file p k else invalid_url) ≡ file q kind
    → (b ≡ true) × (p ≡ q)
unfolding path_of
served-checked true p q k kind h = (refl, ap (path_of p) h)
served-checked false p q k kind h = absurd cc

static-dots :
    (name : String) → matches rx_static name ≡ true → contains (chars "..") (chars name) ≡ false
unfolding most closes is_lower
static-dots name h =
    contains-dots (chars name) (matches-count b'.' rx_static 1 name refl refl refl h)

content-dots :
    (path : String) → matches rx_content path ≡ true → contains (chars "..") (chars path) ≡ false
unfolding most closes is_lower
content-dots path h =
    contains-dots (chars path) (matches-count b'.' rx_content 1 path refl refl refl h)

content-Below :
    (b : Bool) (root rest path : String) (kind : Option String)
    → (if b && matches rx_content rest then file (under root rest) none else invalid_url)
      ≡ file path kind
    → Below root path
unfolding Below
content-Below false root rest path kind h = absurd cc
content-Below true root rest path kind h =
    let (checked, same) =
      served-checked (matches rx_content rest) (under root rest) path none kind h in
    (rest, sym same, content-dots rest checked)

extjs-root :
    (root : Option String) (args : List String) (path : String) (kind : Option String)
    → serve_if (matches rx_content) root args ≡ file path kind
    → (dir : String) × (root ≡ some dir) × Below dir path
unfolding serve_if
extjs-root none args path kind h = absurd cc
extjs-root (some dir) args path kind h =
    (dir, refl, content-Below (not (dir == "")) dir (join "/" args) path kind h)

-- a directory that the server serves files from
unfoldable pub IsDirectory : Roots → String → Type 0
IsDirectory roots root =
    (root ≡ concat roots.content "/images") ⊎ ((root ≡ roots.yui) ⊎ (roots.extjs ≡ some root))

module _ (roots : Roots) where
  static-Below :
      (args : List String) (path : String) (kind : Option String)
      → static roots args ≡ file path kind
      → Below (concat roots.content "/images") path
  unfolding static Below
  static-Below [] path kind h = absurd cc
  static-Below (name ∷ []) path kind h =
      let (checked, same) =
        served-checked (matches rx_static name) (under (concat roots.content "/images") name) path
          none kind h in
      (name, sym same, static-dots name checked)
  static-Below (name ∷ more ∷ args) path kind h = absurd cc

  -- A file that `static`, `yui` or `extjs` serves, whatever the address, lies below the directory
  -- of the images, of YUI or of ExtJS, with no `..` in the rest of its path.
  pub served-Below :
      (args : List String) (path : String) (kind : Option String)
      → (static roots args ≡ file path kind)
        ⊎ ((yui roots args ≡ file path kind) ⊎ (extjs roots args ≡ file path kind))
      → (root : String) × IsDirectory roots root × Below root path
  unfolding yui extjs IsDirectory
  served-Below args path kind (inl h) =
      (concat roots.content "/images", inl refl, static-Below args path kind h)
  served-Below args path kind (inr (inl h)) =
      (roots.yui, inr (inl refl), content-Below true roots.yui (join "/" args) path kind h)
  served-Below args path kind (inr (inr h)) =
      let (root, found, below) = extjs-root roots.extjs args path kind h in
      (root, inr (inr found), below)
