-- ===== src/Workspace/Names.antt =====
-- What `_checkObjectName` of `DQMWorkspace` (src/python/DQM/GUI.py) lets through.
use dqmgui_prod.Base.{
  String, true, false, ◌≡◌, refl, ◌||◌, List, ◌∷◌, eq_refl, chars, arith, if◌then◌else◌,
}
use dqmgui_prod.Exec.{ok, raised, http, ◌>>=◌, when, gets, modify, raise, pure}
use dqmgui_prod.Regex.Classes.{ends_in, matches-star}
use dqmgui_prod.Workspace.Desk.{Desk, is_object_char, is_warned, check_object_name}

-- the session after a workspace has warned about a name
abbrev pub warned_about : String → String → Desk → Desk
warned_about name o d = record d { warnings = (name, o) ∷ d.warnings }

-- An object's name whose characters are all letters, digits, blanks or among `-+=_()/#` is
-- returned and nothing is written, and so is any name that the workspace has warned about before.
-- Any other name raises HTTP error 500, and the session then differs only in the warning about
-- that name. A newline that ends the name is let through with the safe characters.
pub check_object_name_lem :
    (name o : String) (d : Desk)
    → check_object_name name o d ≡ (
        if ends_in is_object_char (chars o) || is_warned name o d.warnings
        then (ok o, d)
        else (raised (http 500 "Attempt to access unsafe object"), warned_about name o d))
unfolding check_object_name ◌>>=◌ when gets modify raise pure
check_object_name_lem name o d = rw (matches-star is_object_char o) (ground arith)

is_warned_self :
    (name o : String) (l : List (String × String)) → is_warned name o ((name, o) ∷ l) ≡ true
unfolding is_warned
is_warned_self name o l = rw (eq_refl name, eq_refl o) refl

-- A name with an unsafe character, which the workspace has not warned about, is refused only the
-- first time: after the refusal the same workspace returns it as it is, and writes nothing.
pub check_object_name_twice :
    (name o : String) (d : Desk)
    → ends_in is_object_char (chars o) ≡ false
    → is_warned name o d.warnings ≡ false
    → ((check_object_name name o d).0 ≡ raised (http 500 "Attempt to access unsafe object"))
      × (check_object_name name o (check_object_name name o d).1 ≡ (ok o, warned_about name o d))
check_object_name_twice name o d unsafe fresh =
    let first = check_object_name_lem name o d in
    let second = check_object_name_lem name o (warned_about name o d) in
    rw (first, unsafe, fresh) (refl, rw (second, is_warned_self name o d.warnings, unsafe) refl)
