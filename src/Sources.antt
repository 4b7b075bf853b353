-- ===== src/Sources.antt =====
-- The sources of plots (src/python/DQM/GUI.py): `DQMOverlaySource`, `DQMStripChartSource`,
-- `DQMCertificationSource`, `DQMLiveSource` and `DQMArchiveSource`, up to the call of the C++ extension,
-- which is a parameter.
pub mod Labels
use dqmgui_prod.Base.{
  ℕ, zero, suc, ◌+◌, String, Bool, true, false, ◌||◌, ◌&&◌, not, Option, none, some, List, [], ◌∷◌,
  ◌++◌, ℤ, pos, Char, code, chars, pack, concat, join, length, nat_eq, ltb, leb, between, is_some,
  ◌==◌, if◌then◌else◌, map, int, or_else,
}
use dqmgui_prod.Base.Dict
use dqmgui_prod.Exec.{
  Error, http, value_error, type_error, index_error, assertion_error, Result, ok, raised,
}
use dqmgui_prod.Regex.{Regex, chr, seq, group, optional, plus, literal, digit, match, group_of}

-- a parameter of a request, once or several times in the address
pub data Param : Type 0 where
  one : String → Param
  many : List String → Param

abbrev pub Options : Type 0
Options = List (String × Param)

-- the MIME type, which may be missing, and the bytes
abbrev pub Plot : Type 0
Plot = Result (Option String × String)

unfoldable pub cut_from : ℕ → List Char → List Char → List String
cut_from n word [] = pack word ∷ []
cut_from zero word (c ∷ s) = cut_from zero (word ++ (c ∷ [])) s
cut_from (suc n) word (c ∷ s) =
    let next = cut_from n [] s in
    let more = cut_from (suc n) (word ++ (c ∷ [])) s in
    if nat_eq (code c) b'/' then pack word ∷ next else more

-- `s.split("/", n)`
unfoldable pub cut : ℕ → String → List String
unfolding cut_from
cut n s = cut_from n [] (chars s)

-- `options.get(name, [])`, where a text is a list of one
unfoldable pub params_of : String → Options → List String
params_of name options = elim (Dict.lookup name options) [
  | none ↦ []
  | some p ↦ elim p [ one s ↦ s ∷ [] | many l ↦ l ]
]

-- an object of a source
pub record Wanted (Source : Type 0) : Type 0 where
  pub source : Source
  pub run : String
  pub runnr : ℤ
  pub dataset : String
  pub path : String

-- what the extension gets for each object
pub record Object (Source : Type 0) : Type 0 where
  pub wanted : Wanted Source
  pub label : String

-- the labels once the object at an index was seen
unfoldable pub extend_labels : ℕ → String → List String → List String
extend_labels i run labels =
    if nat_eq i 0
    then "Ignore" ∷ labels
    else if leb (length labels) i
    then labels ++ (run ∷ [])
    else labels

-- `labels[i]`
unfoldable pub label_at : List String → ℕ → Option String
label_at [] i = none
label_at (l ∷ labels) zero = some l
label_at (l ∷ labels) (suc i) = label_at labels i

-- one round of the loop, for an object that was read
unfoldable pub add_object :
    {Source : Type 0}
    → ℕ
    → Option (Wanted Source)
    → List String
    → Result (List (Object Source) × List String)
unfolding extend_labels label_at
add_object i none labels = ok ([], labels)
add_object i (some x) labels =
    let more = extend_labels i x.run labels in
    elim (label_at more i) [
      | none ↦ raised index_error
      | some l ↦ ok (record { wanted = x; label = l } ∷ [], more)
    ]

-- The list of labels that the request has, if it has one, is the one that the loop adds to.
unfoldable pub with_labels : List String → Options → Options
unfolding Dict.insert Dict.lookup
with_labels labels options = elim (Dict.lookup "reflabel" options) [
  | none ↦ options
  | some p ↦ elim p [ one s ↦ options | many l ↦ Dict.insert "reflabel" (many labels) options ]
]

-- `path[:-1]` and `path[-1]`
unfoldable pub last_of : List String → Option (List String × String)
last_of [] = none
last_of (x ∷ path) = elim (last_of path) [ none ↦ some ([], x) | some w ↦ some (x ∷ w.0, w.1) ]

-- `hook` is `getattr(s, "plothook", None)`, and `int_of` is `int(s)`, of which `none` is `ValueError`
module _ {Source : Type 0} (hook : Source → Option String) (int_of : String → Option ℤ) where
  -- `sources`, by their names; of two of one name the later one
  unfoldable pub table_from : List (String × Source) → List Source → List (String × Source)
  unfolding Dict.insert
  table_from d [] = d
  table_from d (s ∷ sources) = elim (hook s) [
    | none ↦ table_from d sources
    | some name ↦
        (if name == "" then table_from d sources else table_from (Dict.insert name s d) sources)
  ]

  unfoldable pub table : List Source → List (String × Source)
  unfolding table_from
  table sources = table_from [] sources

  -- `srcname in sources and srcname != "unknown"`
  unfoldable pub known : String → List Source → Option Source
  unfolding table Dict.lookup
  known name sources = if name == "unknown" then none else Dict.lookup name (table sources)

  unfoldable pub run_number : String → Result ℤ
  run_number run = elim (int_of run) [ none ↦ raised value_error | some n ↦ ok n ]

  unfoldable pub wanted_of : Source → String → String → String → Result (Wanted Source)
  unfolding run_number
  wanted_of source run dataset path = elim (run_number run) [
    | raised e ↦ raised e
    | ok n ↦ ok (record { source = source; run = run; runnr = n; dataset = dataset; path = path })
  ]

  -- the six parts of an object's name, of which `none` is a source that is not known
  unfoldable pub read_parts : List Source → List String → Result (Option (Wanted Source))
  unfolding known wanted_of join
  read_parts sources (name ∷ run ∷ p ∷ w ∷ t ∷ path ∷ []) = elim (known name sources) [
    | none ↦ ok none
    | some s ↦ elim (wanted_of s run (concat "/" (join "/" (p ∷ w ∷ t ∷ []))) path) [
      | raised e ↦ raised e
      | ok x ↦ ok (some x)
    ]
  ]
  read_parts sources other = raised value_error

  unfoldable pub read_object : List Source → String → Result (Option (Wanted Source))
  unfolding cut read_parts
  read_object sources o = read_parts sources (cut 5 o)

  -- the loop, from an index on
  unfoldable pub collect :
      List Source → ℕ → List String → List String → Result (List (Object Source) × List String)
  unfolding read_object add_object
  collect sources i [] labels = ok ([], labels)
  collect sources i (o ∷ objs) labels = elim (read_object sources o) [
    | raised e ↦ raised e
    | ok x ↦ elim (add_object i x labels) [
      | raised e ↦ raised e
      | ok w ↦ elim (collect sources (i + 1) objs w.1) [
        | raised e ↦ raised e
        | ok r ↦ ok (w.0 ++ r.0, r.1)
      ]
    ]
  ]

  -- `DQMOverlaySource.plot`
  unfoldable pub overlay : (List (Object Source) → Options → Plot) → List Source → Options → Plot
  unfolding params_of collect with_labels
  overlay draw sources options =
      elim (collect sources 0 (params_of "obj" options) (params_of "reflabel" options)) [
        | raised e ↦ raised e
        | ok w ↦
            if nat_eq (length w.1) (length (params_of "obj" options))
            then draw w.0 (with_labels w.1 options)
            else raised assertion_error
      ]

  -- the object that is shown now, by its source, run and dataset
  unfoldable pub current_parts : List Source → List String → Result (Option (Wanted Source))
  unfolding known wanted_of
  current_parts sources (name ∷ run ∷ dataset ∷ []) = elim (known name sources) [
    | none ↦ ok none
    | some s ↦ elim (wanted_of s run (concat "/" dataset) "") [
      | raised e ↦ raised e
      | ok x ↦ ok (some x)
    ]
  ]
  current_parts sources other = raised value_error

  unfoldable pub current : List Source → Options → Result (Option (Wanted Source))
  unfolding cut current_parts Dict.lookup
  current sources options = elim (Dict.lookup "current" options) [
    | none ↦ ok none
    | some p ↦ elim p [
      | many l ↦ raised (http 500 "Incorrect current option")
      | one s ↦ current_parts sources (cut 2 s)
    ]
  ]

  -- `DQMStripChartSource.plot`; the sources are the values of the table
  unfoldable pub strip_chart :
      (List Source → Option (Wanted Source) → String → Options → Plot)
      → List Source
      → List String
      → Options
      → Plot
  unfolding current table join Dict.lookup
  strip_chart draw sources path options =
      if is_some (Dict.lookup "trend" options)
      then elim (current sources options) [
        | raised e ↦ raised e
        | ok info ↦ draw (map (λ e. e.1) (table sources)) info (join "/" path) options
      ]
      else raised (http 500 "Missing trend argument")

  -- `DQMCertificationSource.plot`
  unfoldable pub certification :
      (Option (Wanted Source) → String → String → String → Options → Plot)
      → List Source
      → List String
      → Options
      → Plot
  unfolding current join last_of
  certification draw sources path options = elim (current sources options) [
    | raised e ↦ raised e
    | ok info ↦ elim (last_of path) [
      | none ↦ raised index_error
      | some w ↦ draw info (join "." path) (join "/" w.0) w.1 options
    ]
  ]

-- `DQMArchiveSource.plot` and `getJson`, of the parts of the address, which differ in what they call
unfoldable pub archive :
    {A : Type 0}
    → (String → Option ℤ)
    → (ℤ → String → String → Options → Result A)
    → List String
    → Options
    → Result A
unfolding join
archive int_of draw (run ∷ p ∷ w ∷ t ∷ path) options = elim (int_of run) [
  | none ↦ raised value_error
  | some n ↦ draw n (join "/" ("" ∷ p ∷ w ∷ t ∷ [])) (join "/" path) options
]
archive int_of draw other options = raised type_error

-- `DQMLiveSource.plot`
unfoldable pub live : (String → Options → Plot) → List String → Options → Plot
unfolding join
live draw (run ∷ p ∷ w ∷ t ∷ path) options = draw (join "/" path) options
live draw other options = raised type_error

-- what `\s` matches
unfoldable pub is_space : ℕ → Bool
is_space c =
    between 9 13 c
    || between 28 32 c
    || nat_eq c 133
    || nat_eq c 160
    || nat_eq c 5760
    || between 8192 8202 c
    || nat_eq c 8232
    || nat_eq c 8233
    || nat_eq c 8239
    || nat_eq c 8287
    || nat_eq c 12288

-- `((\S+):)?(\d+)`
abbrev pub rx_collector : Regex
rx_collector =
    seq (optional (group 1 (seq (group 2 (plus (chr (λ c. not (is_space c))))) (literal ":"))))
      (group 3 (plus digit))

-- the host, which may be `None`, and the port of `DQMLiveSource.opts`
pub record LiveOpts : Type 0 where
  pub dqmhost : Option String
  pub dqmport : ℤ

-- the options of `DQMLiveSource`, of the collector's address: `None != ""` holds
unfoldable pub live_opts : String → LiveOpts
unfolding group_of
live_opts collector = elim (match rx_collector collector) [
  | none ↦ record { dqmhost = some "localhost"; dqmport = pos 9090 }
  | some g ↦ record { dqmhost = group_of 2 g; dqmport = pos (int (or_else (group_of 3 g) "")) }
]
