-- ===== src/Workspace/Legal.antt =====
-- Which values the settings of a session may have, and that every action of the parts of `_set`
-- (src/python/DQM/GUI.py) keeps them so, also where it raises.
pub mod Sets
pub mod Whole
pub mod Methods
pub mod Steps
pub mod Every
use dqmgui_prod.Base.{
  ℕ, ◌≤◌, String, Bool, true, false, ◌||◌, ◌&&◌, not, ◌≡◌, refl, Option, none, some, List, [], ◌∷◌,
  ℤ, pos, negsuc, leb, member, ◌==◌, eq_iff, arith, if◌then◌else◌, is_some, Bool-cases, inl, inr,
}
use mathlib.Core.Path.{subst}
use dqmgui_prod.Exec.{
  Exec, Result, ok, raised, http, pure, raise, lift, gets, modify, ◌>>=◌, ◌>>◌, when,
}
use dqmgui_prod.Exec.Preserves.{
  Preserves, Preserves-pure, Preserves-raise, Preserves-lift, Preserves-gets, Preserves-modify,
  Preserves-bind, Preserves-when, Preserves-if,
}
use dqmgui_prod.Regex.{matches, rx_maybe_digits}
use dqmgui_prod.Value.{
  Value, Items, Fields, null, bool, num, str, list, dict, end, field, get, put, as_dict,
}
use dqmgui_prod.Value.Laws.{get-put}
use dqmgui_prod.Workspace.Desk.{
  Desk, get_item, put_item, get_dict, put_in, del_in, save_session, check_object_name, check_object,
}
use dqmgui_prod.Workspace.Image.{is_one_of}
use dqmgui_prod.Workspace.Params.{
  Step, require, text_step, set_choice, set_text, set_number, set_flag, set_reference_choice,
}
use dqmgui_prod.Workspace.Settings.{rx_qplot, strip_types}

abbrev is_text_of : (String → Bool) → Value → Bool
is_text_of p (str s) = p s
is_text_of p null = false
is_text_of p (bool b) = false
is_text_of p (num n) = false
is_text_of p (list l) = false
is_text_of p (dict f) = false

-- a whole number of seconds from 2 to 99
abbrev is_interval : Value → Bool
is_interval (num (pos n)) = leb 2 n && leb n 99
is_interval (num (negsuc n)) = false
is_interval null = false
is_interval (bool b) = false
is_interval (str s) = false
is_interval (list l) = false
is_interval (dict f) = false

abbrev absent_or : (Value → Bool) → Option Value → Bool
absent_or p none = true
absent_or p (some v) = p v

abbrev pub shows : List String
shows = "all" ∷ "none" ∷ "customise" ∷ []

abbrev pub positions : List String
positions = "overlay" ∷ "ratiooverlay" ∷ "on-side" ∷ "stacked" ∷ []

-- the settings of the reference, in a dictionary of their own
abbrev is_reference : Value → Bool
is_reference (dict f) =
    absent_or (is_one_of shows) (get "show" f) && absent_or (is_one_of positions) (get "position" f)
is_reference null = false
is_reference (bool b) = false
is_reference (num n) = false
is_reference (str s) = false
is_reference (list l) = false

-- what the key of a setting may hold; other keys may hold anything
unfoldable pub legal_value : String → Value → Bool
unfolding is_one_of
legal_value k v =
    if k == "dqm.sample.vary"
    then is_one_of ("any" ∷ "run" ∷ "dataset" ∷ []) v
    else if k == "dqm.sample.order"
    then is_one_of ("run" ∷ "dataset" ∷ []) v
    else if k == "dqm.sample.dynsearch"
    then is_one_of ("yes" ∷ "no" ∷ []) v
    else if k == "dqm.filter"
    then is_one_of ("all" ∷ "alarms" ∷ "nonalarms" ∷ []) v
    else if k == "dqm.strip.type"
    then is_one_of strip_types v
    else if k == "dqm.strip.omit"
    then is_one_of ("empty" ∷ "none" ∷ []) v
    else if k == "dqm.strip.axis"
    then is_one_of ("run" ∷ "time" ∷ []) v
    else if k == "dqm.submenu"
    then is_one_of ("data" ∷ "service" ∷ "workspace" ∷ []) v
    else if k == "dqm.size"
    then is_one_of ("XS" ∷ "S" ∷ "M" ∷ "L" ∷ "XL" ∷ []) v
    else if k == "dqm.qplot"
    then is_text_of (matches rx_qplot) v
    else if k == "dqm.strip.n"
    then is_text_of (matches rx_maybe_digits) v
    else if k == "dqm.play.interval"
    then is_interval v
    else if k == "dqm.reference"
    then is_reference v
    else true

abbrev pub legal_at : String → Option Value → Bool
legal_at k = absent_or (legal_value k)

pub record IsLegal (d : Desk) : Type 0 where
  pub at : (k : String) → legal_at k (get k d.session) ≡ true

pub legal_put :
    (k : String) (v : Value) (s : Fields)
    → legal_value k v ≡ true
    → ((j : String) → legal_at j (get j s) ≡ true)
    → (j : String) → legal_at j (get j (put k v s)) ≡ true
legal_put k v s fits h j = elim (Bool-cases (k == j)) [
  | inl same ↦
      rw (get-put k j v s, same) (subst (λ i. legal_value i v ≡ true) ((eq_iff k j).0 same) fits)
  | inr other ↦ rw (get-put k j v s, other) (h j)
]

pub put_item-IsLegal :
    (k : String) (v : Value) → legal_value k v ≡ true → Preserves IsLegal (put_item k v)
unfolding put_item
put_item-IsLegal k v fits =
    Preserves-modify _ λ d h. record { at = legal_put k v d.session fits h.at }

pub get_item-IsLegal : (k : String) → Preserves IsLegal (get_item k)
unfolding get_item
get_item-IsLegal k = record { apply = λ d h. h }

pub get_dict-IsLegal : (k : String) → Preserves IsLegal (get_dict k)
unfolding get_dict
get_dict-IsLegal k = Preserves-bind _ _ (get_item-IsLegal k) (λ v. Preserves-lift (as_dict v))

-- one action after another
pub both-IsLegal :
    {m n : Step} → Preserves IsLegal m → Preserves IsLegal n → Preserves IsLegal (m >> n)
both-IsLegal pm pn = Preserves-bind _ _ pm (λ _. pn)

-- a key of which any dictionary is legal
pub put_in-IsLegal :
    (k j : String) (v : Value)
    → ((f : Fields) → legal_value k (dict f) ≡ true)
    → Preserves IsLegal (put_in k j v)
unfolding put_in
put_in-IsLegal k j v fits =
    Preserves-bind _ _ (get_dict-IsLegal k) (λ f. put_item-IsLegal k _ (fits _))

pub del_in-IsLegal :
    (k j : String) → ((f : Fields) → legal_value k (dict f) ≡ true) → Preserves IsLegal (del_in k j)
unfolding del_in
del_in-IsLegal k j fits =
    Preserves-bind _ _ (get_dict-IsLegal k)
      (λ f. Preserves-when _ _ (λ _. put_item-IsLegal k _ (fits _)))

pub save_session-IsLegal : Preserves IsLegal save_session
unfolding save_session legal_value
save_session-IsLegal = Preserves-bind _ _ (Preserves-gets _) λ now.
    both-IsLegal (put_item-IsLegal "core.stamp" _ refl) (
      Preserves-bind _ _ (get_item-IsLegal "core.name")
        (λ _. Preserves-modify _ (λ d h. record { at = h.at })))

pub check_object_name-IsLegal : (name o : String) → Preserves IsLegal (check_object_name name o)
unfolding check_object_name
check_object_name-IsLegal name o = Preserves-bind _ _ (Preserves-gets _) λ warned.
    Preserves-bind _ _
      (Preserves-when _ _
        (λ _. both-IsLegal (Preserves-modify _ (λ d h. record { at = h.at })) (Preserves-raise _)))
      (λ _. Preserves-pure o)

pub require-IsLegal : (b : Bool) (msg : String) → Preserves IsLegal (require b msg)
unfolding require
require-IsLegal true msg = Preserves-pure tt
require-IsLegal false msg = Preserves-raise _

-- what follows a test may use that the test was passed
pub require_then-IsLegal :
    (b : Bool) (msg : String) (m : Step)
    → (b ≡ true → Preserves IsLegal m)
    → Preserves IsLegal (require b msg >> m)
unfolding require
require_then-IsLegal true msg m pm = both-IsLegal (Preserves-pure tt) (pm refl)
require_then-IsLegal false msg m pm = record { apply = λ d h. unfold ◌>>=◌ in h }

pub text_step-IsLegal :
    (msg : String) (v : Value) (body : String → Step)
    → ((s : String) → Preserves IsLegal (body s))
    → Preserves IsLegal (text_step msg v body)
unfolding text_step
text_step-IsLegal msg null body pb = Preserves-pure tt
text_step-IsLegal msg (str s) body pb = pb s
text_step-IsLegal msg v body pb = Preserves-raise _

pub set_choice-IsLegal :
    (key : String) (allowed : List String) (msg : String) (v : Value)
    → ((s : String) → member s allowed ≡ true → legal_value key (str s) ≡ true)
    → Preserves IsLegal (set_choice key allowed msg v)
unfolding set_choice
set_choice-IsLegal key allowed msg v fits =
    text_step-IsLegal msg v _
      λ s. require_then-IsLegal _ msg _ (λ listed. put_item-IsLegal key _ (fits s listed))

pub set_text-IsLegal :
    (key msg : String) (v : Value)
    → ((s : String) → legal_value key (str s) ≡ true)
    → Preserves IsLegal (set_text key msg v)
unfolding set_text
set_text-IsLegal key msg v fits = text_step-IsLegal msg v _ (λ s. put_item-IsLegal key _ (fits s))

pub set_number-IsLegal :
    (key msg : String) (v : Value)
    → ((n : ℕ) → legal_value key (num (pos n)) ≡ true)
    → Preserves IsLegal (set_number key msg v)
unfolding set_number
set_number-IsLegal key msg v fits =
    text_step-IsLegal msg v _
      λ s. require_then-IsLegal _ msg _ (λ _. put_item-IsLegal key _ (fits _))

pub set_flag-IsLegal :
    (key msg : String) (v : Value)
    → ((b : Bool) → legal_value key (bool b) ≡ true)
    → Preserves IsLegal (set_flag key msg v)
unfolding set_flag
set_flag-IsLegal key msg v fits =
    text_step-IsLegal msg v _
      λ s. require_then-IsLegal _ msg _ (λ _. put_item-IsLegal key _ (fits _))
