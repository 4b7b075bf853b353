-- ===== src/Tests/EventDisplay.antt =====
-- The pages of event displays (src/python/DQM/EventDisplay.py).
use dqmgui_prod.Base.{
  ℕ, suc, ◌≤◌, String, true, Option, some, List, [], ◌∷◌, ◌≡◌, refl, ℤ, pos, int, inr, is_digit,
  split, join, All, arith,
}
use dqmgui_prod.Base.Dict
use dqmgui_prod.Exec.{ok, raised, http, value_error}
use dqmgui_prod.Regex.{matches}
use dqmgui_prod.Value.{str, num, end, field, put, get, item, del}
use dqmgui_prod.Workspace.Desk.{Desk, put_item, get_item, save_session}
use dqmgui_prod.Workspace.Initial.{set_missing}
use dqmgui_prod.EventDisplay
use dqmgui_prod.EventDisplay.{
  Shown, initialise_session, state, images_of, image_of, page_number, show_page, session_set,
  session_set_page, set_page, snapshot, turned,
}
use dqmgui_prod.EventDisplay.Pages.{IsImage, show_page-bounds}

abbrev names : List String
names = "screenShot-1:00-01.02.2010.png" ∷ "screenShot-2:00-01.02.2010.png" ∷ []

abbrev available : List (String × List String)
available = ("2010.02.01", names) ∷ []

abbrev dates : List String
dates = "2010.02.01" ∷ []

abbrev int_of : String → Option ℤ
int_of s = some (pos (int s))

abbrev desk : Desk
desk = record {
  session = field "core.name" (str "s1") (field "core.stamp" (num (pos 0)) end);
  warnings = [];
  now = 0;
  saved = [];
}

abbrev shown : ℤ → String → Shown
shown page image = record { date = str "2010.02.01"; page = page; pages = 2; image = image }

-- the latest image at first
run_state : (EventDisplay.session_state available dates int_of desk).0 ≡ ok (shown (pos 2) "2:00")
unfolding EventDisplay.session_state state images_of image_of page_number show_page Dict.lookup get
    split
run_state = refl

run_set_page :
    (session_set_page available dates int_of (field "page" (str "0") end) desk).0
    ≡ ok (shown (pos 1) "1:00")
unfolding session_set_page set_page put_item save_session matches is_digit state images_of image_of
    page_number show_page Dict.lookup get split int put get_item item del
run_set_page = refl

-- `00` is not `0`: it is page 0, with the last image
run_set_page_zeros :
    (session_set_page available dates int_of (field "page" (str "00") end) desk).0
    ≡ ok (shown (pos 0) "2:00")
unfolding session_set_page set_page put_item save_session matches is_digit state images_of image_of
    page_number show_page Dict.lookup get split int put get_item item del
run_set_page_zeros = refl

run_set_letters :
    (session_set available dates int_of (field "page" (str "x") end) desk).0
    ≡ raised (http 500 "Incorrect page parameter")
unfolding session_set EventDisplay.start EventDisplay.set_date set_page put_item matches is_digit
    get
run_set_letters = refl

run_initialise :
    (initialise_session (record desk { session = end })).1.session
    ≡ field "evd.date" (str "") (field "evd.page" (str "") end)
unfolding initialise_session set_missing get put
run_initialise = refl

-- a picture is no text
run_snapshot :
    snapshot "/evd" (λ path. true) (λ path. raised value_error) ("2010.02.01" ∷ "1:00" ∷ [])
    ≡ raised value_error
unfolding snapshot matches is_digit
run_snapshot = refl

run_turned : turned "2010.02.01" ≡ "01.02.2010"
unfolding turned split join
run_turned = refl

names-IsImage : All IsImage names
unfolding IsImage split
names-IsImage = (
  ("screenShot", "1:00", "01.02.2010.png" ∷ [], refl),
  (("screenShot", "2:00", "01.02.2010.png" ∷ [], refl), tt),
)

show_page-bounds_example :
    (i : ℕ) × (time : String) × (show_page available dates int_of (str "7") names
      ≡ ok (pos (suc i), time))
    × (suc i ≤ 2)
unfolding int is_digit
show_page-bounds_example =
    show_page-bounds available dates int_of "7" names names-IsImage (omega arith) (inr (6, refl))
