-- ===== src/Workspace/Desk.antt =====
-- What a session method of a workspace works on (src/python/DQM/GUI.py): the session's dictionary,
-- the object names warned about, the clock, and the copies handed to the thread that saves sessions
-- (`_saveSession` of src/python/Core/GUI.py). The lock of the server is not part of it.
use dqmgui_prod.Base.{
  ℕ, String, Bool, false, ◌||◌, ◌&&◌, not, List, [], ◌∷◌, ◌++◌, pos, is_alnum, nat_eq, is_some,
  ◌==◌,
}
use dqmgui_prod.Exec.{http, type_error, Exec, pure, raise, lift, gets, modify, ◌>>=◌, ◌>>◌, when}
use dqmgui_prod.Regex.{Regex, chr, seq, star, eos, matches}
use dqmgui_prod.Value.{
  Value, Fields, null, bool, num, str, list, dict, get, put, del, item, as_dict,
}

pub record Desk : Type 0 where
  pub session : Fields
  -- the pairs of a workspace and a name
  pub warnings : List (String × String)
  pub now : ℕ
  pub saved : List Fields

-- `session[k]`
unfoldable pub get_item : String → Exec Desk Value
unfolding item
get_item k d = (item k d.session, d)

-- `k in session`
unfoldable pub has_item : String → Exec Desk Bool
has_item k = gets (λ (d : Desk). is_some (get k d.session))

-- `session[k] = v`
unfoldable pub put_item : String → Value → Exec Desk (Unit {0})
put_item k v = modify (λ (d : Desk). record d { session = put k v d.session })

-- the dictionary `session[k]`
unfoldable pub get_dict : String → Exec Desk Fields
unfolding as_dict
get_dict k = do v ← get_item k; lift (as_dict v)

-- `session[k][j] = v`
unfoldable pub put_in : String → String → Value → Exec Desk (Unit {0})
put_in k j v = do d ← get_dict k; put_item k (dict (put j v d))

-- `if j in session[k]: del session[k][j]`
unfoldable pub del_in : String → String → Exec Desk (Unit {0})
del_in k j = do d ← get_dict k; when (is_some (get j d)) (put_item k (dict (del j d)))

-- `_saveSession`, which reads the session's name for the server's table
unfoldable pub save_session : Exec Desk (Unit {0})
save_session = do
  now ← gets (λ (d : Desk). d.now)
  put_item "core.stamp" (num (pos now))
  get_item "core.name"
  modify (λ (d : Desk). record d { saved = d.saved ++ del "core.lock" d.session ∷ [] })

-- the characters of an object's name that is safe to access
unfoldable pub is_object_char : ℕ → Bool
unfolding is_alnum
is_object_char c =
    is_alnum c
    || nat_eq c b'-'
    || nat_eq c b'+'
    || nat_eq c b'='
    || nat_eq c b'_'
    || nat_eq c b'('
    || nat_eq c b')'
    || nat_eq c b'/'
    || nat_eq c b'#'
    || nat_eq c b' '

-- `^[-+=_()/# A-Za-z0-9]*$`
abbrev pub rx_object : Regex
rx_object = seq (star (chr is_object_char)) eos

-- `o in self.warnings`, of the workspace `name`
unfoldable pub is_warned : String → String → List (String × String) → Bool
is_warned name o [] = false
is_warned name o ((n, p) ∷ l) = (n == name && p == o) || is_warned name o l

-- `_checkObjectName` of the workspace `name`: only the first attempt with an object's name raises
unfoldable pub check_object_name : String → String → Exec Desk String
check_object_name name o = do
  warned ← gets (λ (d : Desk). is_warned name o d.warnings)
  when (not (matches rx_object o) && not warned) (
      modify (λ (d : Desk). record d { warnings = (name, o) ∷ d.warnings })
      >> raise (http 500 "Attempt to access unsafe object"))
  pure o

-- `_checkObjectName(x)` of a value that need not be a text: `re.match` raises
unfoldable pub check_object : String → Value → Exec Desk Value
check_object name (str o) = do checked ← check_object_name name o; pure (str checked)
check_object name null = raise type_error
check_object name (bool b) = raise type_error
check_object name (num n) = raise type_error
check_object name (list l) = raise type_error
check_object name (dict f) = raise type_error
