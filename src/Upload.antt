-- ===== src/Upload.antt =====
-- The uploads (`DQMUpload` of src/python/DQM/GUI.py): the files of the server, the status that a
-- response carries, the checks of the parameters and of who sent them.
pub mod Save
pub mod Put
pub mod Frame
pub mod Removal
pub mod Residue
pub mod Undo
pub mod Senders
pub mod Success
pub mod Saved
pub mod Healthy
pub mod Accepted
pub mod Archive
pub mod Layouts
use dqmgui_prod.Base.{
  ℕ, String, Bool, true, false, ◌||◌, ◌&&◌, not, Option, none, some, List, [], ◌∷◌, concat, member,
  split, same_lower, is_some, ◌==◌, if◌then◌else◌,
}
use dqmgui_prod.Base.Dict
use dqmgui_prod.Exec.{
  Exec, Result, ok, raised, Error, http, attribute_error, key_error, pure, raise, lift, gets,
  modify, ◌>>=◌, ◌>>◌, when,
}
use dqmgui_prod.Regex.{Regex, matches}
use dqmgui_prod.Value.{Value, Items, Fields, null, bool, num, str, list, dict}

-- The object that takes uploads, with the part of the file system that it writes to, and the local
-- variables of the call that holds its lock.
pub record Site : Type 0 where
  pub locked : Bool
  pub files : List (String × List ℕ)
  pub dirs : List String
  -- the headers `dqm-status-code` and `dqm-status-message` of the response
  pub status : Option (ℕ × String)
  -- `fname`, `tmp` and `nsaved`
  pub fname : String
  pub tmp : Option String
  pub nsaved : ℕ

-- `STATUS_OK`, `STATUS_BAD_REQUEST`, …
abbrev pub status_ok : ℕ
status_ok = 100

abbrev pub status_bad_request : ℕ
status_bad_request = 200

abbrev pub status_error_parameter : ℕ
status_error_parameter = 300

abbrev pub status_error_exists : ℕ
status_error_exists = 301

abbrev pub status_fail_execute : ℕ
status_fail_execute = 400

abbrev pub status_not_authorized : ℕ
status_not_authorized = 401

-- `_status`
unfoldable pub set_status : ℕ → String → Site → Site
set_status code message s = record s { status = some (code, message) }

-- `_error`
unfoldable pub error : {A : Type 0} → ℕ → String → Exec Site A
unfolding set_status modify raise ◌>>=◌
error code message = modify (set_status code message) >> raise (http 500 message)

-- `_check`, which goes on with the text; `text_of` is Python's `str`. A missing parameter is refused
-- by the first of two calls of `_error`, so the second is never reached.
unfoldable pub check_text : (Value → String) → String → Value → Regex → Exec Site String
unfolding error pure
check_text text_of name (str s) rx =
    if s == ""
    then error status_error_exists (concat "Parameter " (concat name " of value "))
    else if matches rx s
    then pure s
    else error status_bad_request (concat "Malformed " (concat name " argument"))
check_text text_of name v rx =
    error status_error_exists (concat "Parameter " (concat name (concat " of value " (text_of v))))

unfoldable pub check : (Value → String) → String → Value → Regex → Exec Site String
unfolding check_text
check text_of name arg rx =
    check_text text_of name (if name == "filename" then str (text_of arg) else arg) rx

-- The headers of a request; the names are looked up in any case of letters.
abbrev pub Headers : Type 0
Headers = List (String × String)

unfoldable pub header : String → Headers → Option String
header k [] = none
header k ((j, v) ∷ h) = if same_lower j k then some v else header k h

-- `headers[k]`
unfoldable pub required_header : String → Headers → Result String
required_header k h = elim (header k h) [ none ↦ raised key_error | some v ↦ ok v ]

-- What the front-end signs. `headers.keys()` has a method `sort` in Python 2 alone; `digest` is
-- the `hmac` digest of the other headers, in hexadecimal.
pub record FrontEnd : Type 0 where
  pub sortable : Bool
  pub digest : Headers → String

-- `_check_authentication`, which has no digest to compare with where the header is missing
unfoldable pub check_authentication : FrontEnd → Headers → Exec Site Bool
unfolding ◌>>=◌ pure raise lift required_header
check_authentication f h =
    if f.sortable
    then (lift (required_header "cms-authn-hmac" h) >>= λ signed. pure (f.digest h == signed))
    else raise attribute_error

-- `_log_authentication_failure_and_exit`, which sorts the names of the headers too
unfoldable pub fail_authentication : FrontEnd → Exec Site (Unit {0})
unfolding raise
fail_authentication f =
    if f.sortable
    then raise (http status_not_authorized "Unauthorized upload.")
    else raise attribute_error

-- a header of groups, where there is one, has the group of the data operators
unfoldable pub check_group : FrontEnd → Option String → Exec Site (Unit {0})
unfolding fail_authentication pure
check_group f none = pure tt
check_group f (some groups) =
    if member "group:dataops" (split b' ' groups) then pure tt else fail_authentication f

-- a limited proxy has to name an operator
unfoldable pub check_proxy : FrontEnd → Headers → Exec Site (Unit {0})
unfolding check_group fail_authentication when
check_proxy f h = do
  let t0 = header "Cms-Authz-t0-operator" h
  let production = header "Cms-Authz-production-operator" h
  when (not (is_some t0) && not (is_some production)) (fail_authentication f)
  check_group f t0
  check_group f production

-- the part of `put` on the sender of the request
unfoldable pub authenticate : FrontEnd → Headers → Exec Site (Unit {0})
unfolding check_authentication fail_authentication check_proxy when required_header
authenticate f h = when (is_some (header "cms-auth-status" h)) (do
  verified ← check_authentication f h
  when (not verified) (fail_authentication f)
  authn ← lift (required_header "Cms-Authn-Method" h)
  when (authn == "X509LimitedProxy") (check_proxy f h))
