-- ===== src/Upload/Put.antt =====
-- `DQMFileAccess.put` of src/python/DQM/GUI.py: a file is checked and saved.
use dqmgui_prod.Base.{
  ℕ, zero, pos, String, Bool, true, false, ◌||◌, not, Option, none, some, List, chars, pack, int,
  is_alnum, nat_eq, is_some, replace_underscores, ◌==◌, if◌then◌else◌,
}
use dqmgui_prod.Classify.{rx_dataset}
use dqmgui_prod.Exec.{Exec, http, pure, raise, modify, ◌>>=◌, ◌>>◌}
use dqmgui_prod.Regex.{
  Regex, Groups, chr, eos, seq, alt, star, group, match, group_of, optional, plus, literal, digit,
  any, rx_digits,
}
use dqmgui_prod.Upload.{
  Site, Headers, FrontEnd, error, set_status, check, authenticate, status_ok, status_bad_request,
  status_error_parameter,
}
use dqmgui_prod.Upload.Save.{Call, save}
use dqmgui_prod.Value.{Value, null, bool, num, str, list, dict, nil, end}

-- A parameter of a request that may be a file: whether it has an attribute `file`, its attribute
-- `filename`, and the chunks that its `read` returns.
pub record Part : Type 0 where
  pub has_file : Bool
  pub filename : Value
  pub chunks : List (List ℕ)

-- What the server and the libraries give: the directory of uploads, the signature of the front-end,
-- Python's `str`, the calls of the operating system that fail, the names that `mkstemp` picks, and
-- the fuel for the search of a version.
pub record Setting : Type 0 where
  pub uploads : Option String
  pub front_end : FrontEnd
  pub text_of : Value → String
  pub fails : Call → Bool
  pub temp_name : String → Site → String
  pub fuel : ℕ

-- `^(md5:[A-Za-z0-9]+|crc32:\d+)$`
abbrev pub rx_checksum : Regex
rx_checksum =
    seq (alt (seq (literal "md5:") (plus (chr is_alnum))) (seq (literal "crc32:") (plus digit))) eos

-- `^[-A-Za-z0-9_]+\.root$`
abbrev pub rx_filename : Regex
rx_filename =
    seq (plus (chr (λ c. is_alnum c || nat_eq c b'-' || nat_eq c b'_'))) (seq (literal ".root") eos)

-- `^(DQM)_V\d+(_[A-Za-z0-9]+)?_R(\d+)(__.*)?\.root`
abbrev pub rx_convention : Regex
rx_convention = seq (group 1 (literal "DQM")) (
    seq (literal "_V") (
      seq (plus digit) (
        seq (optional (group 2 (seq (literal "_") (plus (chr is_alnum))))) (
          seq (literal "_R") (
            seq (group 3 (plus digit))
              (seq (optional (group 4 (seq (literal "__") (star any)))) (literal ".root")))))))

-- `not v`, of what an attribute of the part has
unfoldable pub is_blank : Value → Bool
is_blank null = true
is_blank (str s) = s == ""
is_blank (bool b) = not b
is_blank (num (pos zero)) = true
is_blank (num n) = false
is_blank (list nil) = true
is_blank (list l) = false
is_blank (dict end) = true
is_blank (dict f) = false

abbrev pub no_file : Exec Site Part
no_file = error status_bad_request "Incorrect or missing file argument"

-- the file argument
unfoldable pub require_file : Option Part → Exec Site Part
unfolding is_blank error pure
require_file none = no_file
require_file (some part) =
    if not part.has_file || is_blank part.filename then no_file else pure part

-- a name of an online system excludes one of a dataset, and a dataset has three parts
unfoldable pub check_workflow : Setting → Groups → Exec Site (Unit {0})
unfolding error pure check
check_workflow t g = elim (group_of 4 g) [
  | none ↦ pure tt
  | some workflow ↦
      if is_some (group_of 2 g)
      then error status_error_parameter "File cannot have both online system and dataset names"
      else check t.text_of "workflow" (str (pack (replace_underscores (chars workflow)))) rx_dataset
        >> pure tt
]

unfoldable pub check_convention : Setting → String → Exec Site (Unit {0})
unfolding check_workflow error
check_convention t filename = elim (match rx_convention filename) [
  | none ↦ error status_error_parameter "File name does not match the expected convention"
  | some g ↦ check_workflow t g
]

abbrev thanks : String
thanks =
    "Thanks.\nThe server received your file. However this does not mean that the file was indexed successfully.\nA different server process will now check the filename to determine in which folder to archive it.\nAfter that, another process will attempt to index it. This might take some minutes.\nIn case of doubt, please check the server logs of the receive-daemon and import-daemon."

-- the checks of the arguments: what is saved under which name
unfoldable pub check_arguments :
    Setting → Value → Value → Option Part → Exec Site (ℕ × String × String × Part)
unfolding require_file check check_convention pure
check_arguments t size checksum file = do
  part ← require_file file
  size ← check t.text_of "size" size rx_digits
  checksum ← check t.text_of "checksum" checksum rx_checksum
  filename ← check t.text_of "filename" part.filename rx_filename
  check_convention t filename
  pure (int size, checksum, filename, part)

unfoldable pub put_in : Setting → String → Headers → Value → Value → Option Part → Exec Site String
unfolding authenticate check_arguments save set_status
put_in t uploads headers size checksum file = do
  authenticate t.front_end headers
  (size, checksum, filename, part) ← check_arguments t size checksum file
  save t.fails t.temp_name t.fuel uploads filename size checksum part.chunks
  modify (set_status status_ok "File saved")
  pure thanks

unfoldable pub put : Setting → Headers → Value → Value → Option Part → Exec Site String
unfolding put_in raise
put t headers size checksum file = elim t.uploads [
  | none ↦ raise (http 404 "Not found")
  | some uploads ↦
      if uploads == ""
      then raise (http 404 "Not found")
      else put_in t uploads headers size checksum file
]
