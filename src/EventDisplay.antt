-- ===== src/EventDisplay.antt =====
-- The pages of event displays (`EVDSnapshotWorkspace` of src/python/DQM/EventDisplay.py): the settings of
-- a session, and which image `_state` shows; and the images themselves (`EVDSnapshotSource`). The listing of the image directory, in its natural order,
-- is a parameter, and so is `int`. Left out is the text that `_state` writes of it.
pub mod Pages
use dqmgui_prod.Base.{
  ℕ, zero, suc, ◌-◌, String, Bool, true, false, ◌||◌, Option, none, some, List, [], ◌∷◌, ℤ, pos,
  negsuc, ltb_ℤ, length, ltb, leb, nat_eq, is_digit, split, join, concat, ◌&&◌, or_else, ◌==◌,
  if◌then◌else◌,
}
use mathlib.Core.List.{reverse}
use dqmgui_prod.Base.Dict
use dqmgui_prod.Exec.{
  http, key_error, value_error, type_error, index_error, Result, ok, raised, Exec, pure, raise,
  lift, gets, modify, ◌>>=◌, ◌>>◌,
}
use dqmgui_prod.Regex.{Regex, chr, seq, star, plus, eos, rx_maybe_digits, matches}
use dqmgui_prod.Value.{Value, Fields, null, bool, num, str, list, dict, end, field, get}
use dqmgui_prod.Workspace.Desk.{Desk, put_item, save_session}
use dqmgui_prod.Workspace.Initial.{set_missing}

abbrev pub sessiondef : Fields
sessiondef = field "evd.date" (str "") (field "evd.page" (str "") end)

-- `initialiseSession`
unfoldable pub initialise_session : Exec Desk (Unit {0})
unfolding set_missing modify
initialise_session = modify (λ (d : Desk). record d { session = set_missing sessiondef d.session })

-- `^[\d.]*$`
abbrev pub rx_date : Regex
rx_date = seq (star (chr (λ c. is_digit c || nat_eq c b'.'))) eos

unfoldable pub text_of : Value → Option String
text_of (str s) = some s
text_of null = none
text_of (bool b) = none
text_of (num n) = none
text_of (list l) = none
text_of (dict d) = none

unfoldable pub set_date : Option Value → Exec Desk (Unit {0})
unfolding pure raise put_item text_of
set_date none = pure tt
set_date (some v) = elim (text_of v) [
  | none ↦ raise (http 500 "Incorrect date parameter")
  | some s ↦
      if matches rx_date s
      then put_item "evd.date" (str s)
      else raise (http 500 "Incorrect date parameter")
]

unfoldable pub set_page : Option Value → Exec Desk (Unit {0})
unfolding pure raise put_item text_of
set_page none = pure tt
set_page (some v) = elim (text_of v) [
  | none ↦ raise (http 500 "Incorrect page parameter")
  | some s ↦
      if matches rx_maybe_digits s
      then put_item "evd.page" (str (if s == "0" then "1" else s))
      else raise (http 500 "Incorrect page parameter")
]

-- `start`
unfoldable pub start : Option Value → Option Value → Exec Desk (Unit {0})
unfolding ◌>>=◌ set_date set_page
start date page = set_date date >> set_page page

-- `l[i]`, of an index that is not negative
unfoldable pub nth : List String → ℕ → Option String
nth [] i = none
nth (x ∷ l) zero = some x
nth (x ∷ l) (suc i) = nth l i

-- `l[page - 1]`, where an index below 0 counts from the end
unfoldable pub page_of : List String → ℤ → Option String
unfolding nth
page_of images (pos zero) = nth images (length images - 1)
page_of images (pos (suc i)) = nth images i
page_of images (negsuc n) =
    if leb (suc (suc n)) (length images) then nth images (length images - suc (suc n)) else none

-- `name.split("-")[1]`
unfoldable pub second_part : List String → Result String
second_part [] = raised index_error
second_part (a ∷ []) = raised index_error
second_part (a ∷ b ∷ parts) = ok b

unfoldable pub image_of : List String → ℤ → Result String
unfolding page_of second_part split
image_of images page = elim (page_of images page) [
  | none ↦ raised index_error
  | some name ↦ second_part (split b'-' name)
]

unfoldable pub min_ℤ : ℤ → ℤ → ℤ
min_ℤ a b = if ltb_ℤ b a then b else a

-- what `_state` shows: the date, the number of the page, how many there are, and the time of the image
pub record Shown : Type 0 where
  pub date : Value
  pub page : ℤ
  pub pages : ℕ
  pub image : String

-- `images` of each date, and the dates, the latest one first; `int_of` is `int`, of which `none` is
-- `ValueError`
module _ (available : List (String × List String)) (dates : List String)
    (int_of : String → Option ℤ) where
  unfoldable pub latest : Value → List String → Result (Value × List String)
  unfolding Dict.lookup
  latest date [] = ok (date, [])
  latest date (d ∷ more) = elim (Dict.lookup d available) [
    | none ↦ raised key_error
    | some images ↦ ok (str d, images)
  ]

  -- a list or a dictionary cannot be looked up
  unfoldable pub images_of : Value → Result (Value × List String)
  unfolding Dict.lookup latest
  images_of (str s) = elim (Dict.lookup s available) [
    | none ↦ latest (str s) dates
    | some images ↦ ok (str s, images)
  ]
  images_of null = latest null dates
  images_of (bool b) = latest (bool b) dates
  images_of (num n) = latest (num n) dates
  images_of (list l) = raised type_error
  images_of (dict d) = raised type_error

  unfoldable pub page_number : Value → List String → Result ℤ
  unfolding min_ℤ
  page_number (str s) images = if s == "" then ok (pos (length images)) else elim (int_of s) [
    | none ↦ raised value_error
    | some n ↦ ok (min_ℤ n (pos (length images)))
  ]
  page_number (num n) images = ok (min_ℤ n (pos (length images)))
  page_number (bool b) images = ok (min_ℤ (pos (if b then 1 else 0)) (pos (length images)))
  page_number null images = raised type_error
  page_number (list l) images = raised type_error
  page_number (dict d) images = raised type_error

  unfoldable pub show_page : Value → List String → Result (ℤ × String)
  unfolding page_number image_of
  show_page page [] = ok (pos 0, "")
  show_page page (x ∷ images) = elim (page_number page (x ∷ images)) [
    | raised e ↦ raised e
    | ok n ↦ elim (image_of (x ∷ images) n) [ raised e ↦ raised e | ok image ↦ ok (n, image) ]
  ]

  -- `_state`
  unfoldable pub state : Fields → Result Shown
  unfolding images_of show_page
  state session = elim (images_of (or_else (get "evd.date" session) (str ""))) [
    | raised e ↦ raised e
    | ok w ↦ elim (show_page (or_else (get "evd.page" session) (str "")) w.1) [
      | raised e ↦ raised e
      | ok p ↦ ok (record { date = w.0; page = p.0; pages = length w.1; image = p.1 })
    ]
  ]

  -- `sessionState`
  unfoldable pub session_state : Exec Desk Shown
  unfolding state
  session_state d = (state d.session, d)

  -- `sessionSet`
  unfoldable pub session_set : Fields → Exec Desk Shown
  unfolding ◌>>=◌ start save_session session_state
  session_set kwargs = do
    start (some (or_else (get "date" kwargs) (str "")))
        (some (or_else (get "page" kwargs) (str "")))
    save_session
    session_state

  -- `sessionSetPage`
  unfoldable pub session_set_page : Fields → Exec Desk Shown
  unfolding ◌>>=◌ start save_session session_state
  session_set_page kwargs = do
    start none (some (or_else (get "page" kwargs) (str "")))
    save_session
    session_state

-- `^[\d:.]+$`
abbrev pub rx_when : Regex
rx_when = seq (plus (chr (λ c. is_digit c || nat_eq c b':' || nat_eq c b'.'))) eos

-- `".".join(date.split(".")[::-1])`
unfoldable pub turned : String → String
unfolding split join
turned date = join "." (reverse (split b'.' date))

-- `EVDSnapshotSource.plot`, of the parts of the address; `read` is `open(path).read()`, which decodes the
-- file as a text
module _ (datadir : String) (exists : String → Bool) (read : String → Result String) where
  abbrev image_path : String → String → String
  image_path day time = concat datadir (
      concat "/"
        (concat day (concat "/screenShot-" (concat time (concat "-" (concat day ".png"))))))

  unfoldable pub snapshot : List String → Result (Option (String × String))
  unfolding turned
  snapshot (date ∷ time ∷ path) =
      if matches rx_when (concat date time) && exists (image_path (turned date) time)
      then elim (read (image_path (turned date) time)) [
        | raised e ↦ raised e
        | ok bytes ↦ ok (some ("image/png", bytes))
      ]
      else ok none
  snapshot other = raised type_error
