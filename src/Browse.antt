-- ===== src/Browse.antt =====
-- The pages of the uploaded files (`DQMFileAccess` of src/python/DQM/GUI.py): `browse`, with `_prepdir`,
-- which answers with an index of a directory or with a file. The calls of the operating system are
-- parameters, and so are `html.escape`, `cherrypy.url`, `validate_since` and the prints of a time.
pub mod Inside
use dqmgui_prod.Base.{
  ℕ, String, Bool, true, false, ◌||◌, ◌&&◌, not, Option, none, some, List, [], ◌∷◌, ◌++◌, map, Char,
  code, chars, concat, join, is_alnum, nat_eq, ltb, show_nat, if◌then◌else◌, all,
}
use dqmgui_prod.Base.Dict
use dqmgui_prod.Exec.{
  Error, http, http_redirect, os_error, Result, ok, raised, Exec, pure, raise, lift, modify, ◌>>=◌,
  ◌>>◌, when,
}
use dqmgui_prod.Regex.{Regex, chr, eps, eos, seq, alt, star, optional, literal, matches}

-- what the program reads of `os.stat`
pub record Stat : Type 0 where
  pub is_dir : Bool
  pub size : ℕ
  pub mtime : ℕ

pub record Os : Type 0 where
  pub exists : String → Bool
  pub is_dir : String → Bool
  pub is_link : String → Bool
  -- `none` for `OSError`
  pub stat : String → Option Stat
  pub listdir : String → Option (List String)

-- the request and the server, as far as the pages depend on them
pub record Request : Type 0 where
  pub path_info : String
  pub base_url : String
  pub stamp : ℕ
  pub escape : String → String
  -- `url(path, request.query_string)`
  pub url : String → String
  -- `httputil.HTTPDate(time)`, and `time.strftime("%Y-%m-%d %H:%M:%S", time.gmtime(time))`
  pub http_date : ℕ → String
  pub row_date : ℕ → String
  pub validate_since : ℕ → Result (Unit {0})

pub data Page : Type 0 where
  html : String → Page
  -- `serve_file(pathname, content_type="application/octet-stream")`
  download : String → Page

abbrev Headers : Type 0
Headers = List (String × String)

-- `RX_SAFE_PATH`, `^[A-Za-z0-9][-A-Za-z0-9_]*(?:\.(?:root|zip|ig))?$`
abbrev pub rx_safe_path : Regex
rx_safe_path = seq (chr is_alnum) (
    seq (star (chr (λ c. is_alnum c || nat_eq c b'-' || nat_eq c b'_'))) (
      seq (optional (seq (literal ".") (alt (literal "root") (alt (literal "zip") (literal "ig")))))
        eos))

-- `a < b`, of texts
unfoldable pub before : List Char → List Char → Bool
before [] [] = false
before [] (d ∷ b) = true
before (c ∷ a) [] = false
before (c ∷ a) (d ∷ b) =
    let rest = before a b in
    if ltb (code c) (code d) then true else nat_eq (code c) (code d) && rest

-- `sorted(…)`, by a text
module _ {A : Type 0} (key : A → String) where
  unfoldable pub insert : A → List A → List A
  unfolding before
  insert x [] = x ∷ []
  insert x (y ∷ l) =
      let rest = insert x l in
      if before (chars (key y)) (chars (key x)) then y ∷ rest else x ∷ y ∷ l

  unfoldable pub sorted : List A → List A
  unfolding insert
  sorted [] = []
  sorted (x ∷ l) = insert x (sorted l)

-- `path[:-1]`
unfoldable pub all_but_last : List String → List String
all_but_last [] = []
all_but_last (x ∷ []) = []
all_but_last (x ∷ y ∷ l) = x ∷ all_but_last (y ∷ l)

-- an entry of an index: its name, whether it is a directory, and its `os.stat`
pub record Entry : Type 0 where
  pub name : String
  pub folder : Bool
  pub info : Stat

unfoldable pub reversed : {A : Type 0} → List A → List A
reversed [] = []
reversed (x ∷ l) = reversed l ++ (x ∷ [])

-- `"".join(parts)`
unfoldable pub text : List String → String
text [] = ""
text (s ∷ parts) = concat s (text parts)

unfoldable pub is_empty : {A : Type 0} → List A → Bool
is_empty [] = true
is_empty (x ∷ l) = false

unfoldable pub ends_in_slash : List Char → Bool
ends_in_slash [] = false
ends_in_slash (c ∷ []) = nat_eq (code c) b'/'
ends_in_slash (c ∷ d ∷ s) = ends_in_slash (d ∷ s)

abbrev pub not_found : Error
not_found = http 404 "Not found"

module _ (os : Os) (roots : List (String × String)) (req : Request) where
  -- `_prepdir`
  unfoldable pub prepdir : ℕ → Exec Headers (Unit {0})
  unfolding ◌>>=◌ modify raise lift when Dict.insert ends_in_slash
  prepdir time = do
    when (not (ends_in_slash (chars req.path_info)))
        (raise (http_redirect (req.url (concat req.path_info "/"))))
    modify (Dict.insert "Content-Type" "text/html")
    modify (Dict.insert "Last-Modified" (req.http_date time))
    lift (req.validate_since time)

  -- the page of all roots
  unfoldable pub root_row : String → String
  unfolding text
  root_row name = text (
      "<tr><td><a href='"
      ∷ req.base_url
      ∷ "/data/browse/"
      ∷ req.escape name
      ∷ "/'>"
      ∷ req.escape name
      ∷ "</a></td><td>&nbsp;</td><td>&nbsp;</td>"
      ∷ [])

  unfoldable pub root_index : String
  unfolding text root_row sorted join
  root_index = text (
      "<html><head><title>Index of "
      ∷ req.escape "DQM files"
      ∷ "</title></head><body><h1>"
      ∷ req.escape "DQM files"
      ∷ "</h1><table border='0' valign='top' cellpadding='3'>"
      ∷ join "\n" (map root_row (sorted (λ s. s) (map (λ e. e.0) roots)))
      ∷ "</table></body></html>"
      ∷ [])

  -- the page of a directory
  unfoldable pub row : List String → Entry → String
  unfolding text join show_nat
  row path x =
      let slash = if x.folder then "/" else "" in
      text (
        "<tr><td><a href='"
        ∷ req.base_url
        ∷ "/data/browse/"
        ∷ req.escape (join "/" path)
        ∷ "/"
        ∷ req.escape x.name
        ∷ slash
        ∷ "'>"
        ∷ req.escape x.name
        ∷ slash
        ∷ "</a></td><td>"
        ∷ (if x.folder then "-" else show_nat x.info.size)
        ∷ "</td><td>"
        ∷ req.row_date x.info.mtime
        ∷ " UTC</td></tr>"
        ∷ [])

  unfoldable pub index : List String → List Entry → String
  unfolding text join row sorted reversed all_but_last
  index path files = text (
      "<html><head><title>Index of "
      ∷ req.escape (join "/" path)
      ∷ "</title></head><body><h1>"
      ∷ req.escape (join "/" path)
      ∷ "</h1><p style='padding-left:5px'><a href='"
      ∷ req.base_url
      ∷ "/data/browse/"
      ∷ req.escape (join "/" (all_but_last path))
      ∷ "'>Up</a></p><table border='0' valign='top' cellpadding='3'>"
      ∷ join "\n" (map (row path) (reversed (sorted (λ x. x.name) files)))
      ∷ "</table></body></html>"
      ∷ [])

  -- the entries that are listed, each with its `os.stat`
  unfoldable pub entries : String → List String → Result (List Entry)
  entries dir [] = ok []
  entries dir (x ∷ names) =
      let path = concat dir (concat "/" x) in
      let rest = entries dir names in
      if matches rx_safe_path x && not (os.is_link path)
      then elim (os.stat path) [
        | none ↦ raised os_error
        | some st ↦ elim rest [
          | raised e ↦ raised e
          | ok files ↦ ok (record { name = x; folder = os.is_dir path; info = st } ∷ files)
        ]
      ]
      else rest

  unfoldable pub stat_of : String → Exec Headers Stat
  unfolding raise pure
  stat_of path = elim (os.stat path) [ none ↦ raise not_found | some st ↦ pure st ]

  unfoldable pub names_of : String → Result (List String)
  names_of dir = elim (os.listdir dir) [ none ↦ raised os_error | some names ↦ ok names ]

  unfoldable pub browse_dir : List String → String → Exec Headers Page
  unfolding ◌>>=◌ raise pure lift when prepdir stat_of names_of entries index
  browse_dir path dir = do
    st ← stat_of dir
    when (not st.is_dir) (raise not_found)
    prepdir st.mtime
    names ← lift (names_of dir)
    files ← lift (entries dir names)
    pure (html (index path files))

  unfoldable pub browse_path : List String → String → Exec Headers Page
  unfolding raise pure browse_dir
  browse_path path pathname =
      if os.exists pathname
      then (if os.is_dir pathname then browse_dir path pathname else pure (download pathname))
      else raise not_found

  unfoldable pub browse_under : List String → Exec Headers Page
  unfolding ◌>>=◌ raise pure prepdir root_index browse_path join Dict.lookup
  browse_under [] = prepdir req.stamp >> pure (html root_index)
  browse_under (root ∷ rest) = elim (Dict.lookup root roots) [
    | none ↦ raise not_found
    | some dir ↦ browse_path (root ∷ rest) (join "/" (dir ∷ rest))
  ]

  unfoldable pub browse : List String → Exec Headers Page
  unfolding ◌>>=◌ raise when browse_under all
  browse path = do
    when (is_empty roots) (raise not_found)
    when (not (all (matches rx_safe_path) path)) (raise not_found)
    browse_under path
