-- ===== src/Classify.antt =====
-- `classifyDQMFile` of src/python/DQM/visDQMUtils.py: the class of an uploaded file by its name.
pub mod Consistent
use dqmgui_prod.Base.{
  ℕ, Char, code, String, Bool, true, false, ◌||◌, ◌&&◌, not, Option, none, some, List, [], ◌∷◌,
  chars, pack, int, leb, ltb, nat_eq, is_alnum, is_some, contains, replace_underscores,
  if◌then◌else◌,
}
use dqmgui_prod.Regex.{
  Regex, Groups, chr, eos, seq, star, group, not_ahead, match, matches, group_of, optional, plus,
  literal, digit, any,
}

pub data FileKind : Type 0 where
  online_data simulated_rundep relval_rundepmc relval_mc relval_data offline_data simulated :
      FileKind

-- the dictionary of an accepted file; `none` is a key that is missing or `None`
pub record DqmFile : Type 0 where
  pub kind : FileKind
  pub version : ℕ
  pub runnr : ℕ
  pub dataset : String
  pub subsystem : Option String
  pub release : Option String

pub data Classified : Type 0 where
  refused : String → Classified
  accepted : DqmFile → Classified

abbrev is_name_char : ℕ → Bool
is_name_char c = is_alnum c || nat_eq c b'-' || nat_eq c b'_'

abbrev three : Regex → Regex
three r = seq r (seq r r)

-- `(?:.*/)?`
abbrev folder : Regex
folder = optional (seq (star any) (literal "/"))

-- `^(/[-A-Za-z0-9_]+){3}$`
abbrev pub rx_dataset : Regex
rx_dataset = seq (three (seq (literal "/") (plus (chr is_name_char)))) eos

-- `^(?:.*/)?DQM_V(\d+)(_[A-Za-z0-9]+)?_R(\d+)\.root$`
abbrev pub rx_online : Regex
rx_online = seq folder (
    seq (literal "DQM_V") (
      seq (group 1 (plus digit)) (
        seq (optional (group 2 (seq (literal "_") (plus (chr is_alnum)))))
          (seq (literal "_R") (seq (group 3 (plus digit)) (seq (literal ".root") eos))))))

-- `^(?:.*/)?DQM_V(\d+)_R(\d+)((?:__[-A-Za-z0-9_]+){3})\.root$`
abbrev pub rx_offline : Regex
rx_offline = seq folder (
    seq (literal "DQM_V") (
      seq (group 1 (plus digit)) (
        seq (literal "_R") (
          seq (group 2 (plus digit)) (
            seq (group 3 (three (seq (literal "__") (plus (chr is_name_char)))))
              (seq (literal ".root") eos))))))

-- `(CMSSW(?:_[0-9]+)+(?:_pre[0-9]+)?)[-_].*`
abbrev release_and : Regex → Regex
release_and last =
    seq
      (group 1 (
        seq (literal "CMSSW") (
          seq (plus (seq (literal "_") (plus digit)))
            (optional (seq (literal "_pre") (plus digit))))))
      (seq (chr (λ c. nat_eq c b'-' || nat_eq c b'_')) (seq (star any) last))

-- `[^/]+/`
abbrev to_slash : Regex → Regex
to_slash last = seq (plus (chr (λ c. not (nat_eq c b'/')))) (seq (literal "/") last)

-- `rundepMC.*$`
abbrev rundepmc_end : Regex
rundepmc_end = seq (literal "rundepMC") (seq (star any) eos)

abbrev pub rx_relvalmc : Regex
rx_relvalmc = seq (literal "/RelVal") (to_slash (release_and eos))

abbrev pub rx_relvalrundepmc : Regex
rx_relvalrundepmc = seq (literal "/RelVal") (to_slash (release_and rundepmc_end))

abbrev pub rx_relvaldata : Regex
rx_relvaldata = seq (literal "/") (to_slash (release_and eos))

-- `^/(?!RelVal)[^/]+/.*rundepMC.*$`
abbrev pub rx_rundepmc : Regex
rx_rundepmc =
    seq (literal "/") (seq (not_ahead (literal "RelVal")) (to_slash (seq (star any) rundepmc_end)))

-- `m.group(1)` of the match of a dataset
unfoldable pub release_of : Regex → String → Option String
release_of rx dataset = elim (match rx dataset) [ none ↦ none | some g ↦ group_of 1 g ]

-- `int(m.group(n))`, of which `none` is an exception
unfoldable pub int_group : ℕ → Groups → Option ℕ
int_group n g = elim (group_of n g) [ none ↦ none | some s ↦ some (int s) ]

abbrev pub failed : Classified
failed = refused "error while classifying file name"

-- `s and s[1:]`
unfoldable pub without_first : List Char → List Char
without_first [] = []
without_first (c ∷ s) = s

unfoldable pub subsystem_of : Groups → Option String
unfolding without_first
subsystem_of g = elim (group_of 2 g) [
  | none ↦ none
  | some s ↦ some (pack (without_first (chars s)))
]

-- a file whose name matches `RXONLINE`
unfoldable pub classify_online : ℕ → ℕ → Option String → Classified
classify_online version runnr subsys =
    if not (nat_eq version 1)
    then refused "file version is not 1"
    else if leb runnr 10000
    then refused "online file has run number <= 10000"
    else accepted (record {
      kind = online_data;
      version = version;
      runnr = runnr;
      dataset = "/Global/Online/ALL";
      subsystem = subsys;
      release = none;
    })

abbrev offline_file : FileKind → ℕ → ℕ → String → Option String → Classified
offline_file kind version runnr dataset release = accepted (record {
  kind = kind;
  version = version;
  runnr = runnr;
  dataset = dataset;
  subsystem = none;
  release = release;
})

-- a file whose name matches `RXOFFLINE`
unfoldable pub classify_offline : ℕ → ℕ → String → Classified
unfolding release_of
classify_offline version runnr dataset =
    if not (matches rx_dataset dataset)
    then refused "Invalid dataset name"
    else if not (nat_eq version 1)
    then refused "file version is not 1"
    else if ltb runnr 1
    then refused "file matches offline naming, but run number is < 1"
    else if matches rx_rundepmc dataset
    then (if nat_eq runnr 1
        then refused "file matches Run Dependent MonteCarlo naming, but run number is 1"
        else offline_file simulated_rundep version runnr dataset none)
    else if matches rx_relvalrundepmc dataset
    then (if nat_eq runnr 1
        then refused "file matches Run Dependent MonteCarlo naming, but run number is 1"
        else offline_file relval_rundepmc version runnr dataset
            (release_of rx_relvalrundepmc dataset))
    else if matches rx_relvalmc dataset
    then (if not (nat_eq runnr 1)
        then refused "file matches relval mc naming, but run number != 1"
        else offline_file relval_mc version runnr dataset (release_of rx_relvalmc dataset))
    else if matches rx_relvaldata dataset
    then (if nat_eq runnr 1
        then refused "file matches relval data naming, but run number = 1"
        else offline_file relval_data version runnr dataset (release_of rx_relvaldata dataset))
    else if contains (chars "CMSSW") (chars dataset)
    then refused "non-relval dataset name contains 'CMSSW'"
    else if ltb 1 runnr
    then offline_file offline_data version runnr dataset none
    else offline_file simulated version runnr dataset none

-- what the groups of a match of `RXONLINE` say
unfoldable pub online_match : Groups → Classified
unfolding int_group subsystem_of
online_match g = elim (int_group 1 g) [
  | none ↦ failed
  | some version ↦ elim (int_group 3 g) [
    | none ↦ failed
    | some runnr ↦ classify_online version runnr (subsystem_of g)
  ]
]

-- what the groups of a match of `RXOFFLINE` say
unfoldable pub offline_match : Groups → Classified
unfolding int_group replace_underscores contains
offline_match g = elim (int_group 1 g) [
  | none ↦ failed
  | some version ↦ elim (int_group 2 g) [
    | none ↦ failed
    | some runnr ↦ elim (group_of 3 g) [
      | none ↦ failed
      | some s ↦ classify_offline version runnr (pack (replace_underscores (chars s)))
    ]
  ]
]

-- `classifyDQMFile`
unfoldable pub classify : String → Classified
unfolding online_match offline_match classify_online classify_offline
classify path = elim (match rx_online path) [
  | some g ↦ online_match g
  | none ↦ elim (match rx_offline path) [
    | some g ↦ offline_match g
    | none ↦ refused "file matches no known naming convention"
  ]
]
