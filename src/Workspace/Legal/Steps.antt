-- ===== src/Workspace/Legal/Steps.antt =====
-- The steps that the session methods share (src/python/DQM/GUI.py) keep the settings of a session
-- legal.
use dqmgui_prod.Base.{ℕ, pos, String, Bool, true, ◌≡◌, refl, member, eq_iff, arith, ◌⊎◌, inl, inr}
use dqmgui_prod.Exec.{lift, ◌>>=◌, Result}
use dqmgui_prod.Exec.Preserves.{
  Preserves, Preserves-pure, Preserves-raise, Preserves-lift, Preserves-bind, Preserves-when,
  Preserves-if,
}
use dqmgui_prod.Value.{Value, Fields, null, bool, num, str}
use dqmgui_prod.Workspace.Handlers.{
  panel_names, panel_key, set_mode, set_panel, check_panel, set_window, focus_step,
}
use dqmgui_prod.Workspace.Image.{check_image, check_option}
use dqmgui_prod.Workspace.Legal.{
  IsLegal, legal_value, put_item-IsLegal, both-IsLegal, del_in-IsLegal, require-IsLegal,
  require_then-IsLegal, set_number-IsLegal, set_flag-IsLegal,
}
use dqmgui_prod.Workspace.Legal.Whole.{set-IsLegal}
use dqmgui_prod.Workspace.Params.{require, Step, Workspace, Gui}

pub set_mode-IsLegal :
    (key : String) (v : Value)
    → ((b : Bool) → legal_value key (bool b) ≡ true)
    → Preserves IsLegal (set_mode key v)
unfolding set_mode
set_mode-IsLegal key (str s) fits = Preserves-when _ _ (λ _. put_item-IsLegal key _ (fits _))
set_mode-IsLegal key v fits = Preserves-pure tt

pub set_window-IsLegal :
    (kx ky kw kh : String) (kwargs : Fields)
    → ((n : ℕ) → legal_value kx (num (pos n)) ≡ true)
    → ((n : ℕ) → legal_value ky (num (pos n)) ≡ true)
    → ((n : ℕ) → legal_value kw (num (pos n)) ≡ true)
    → ((n : ℕ) → legal_value kh (num (pos n)) ≡ true)
    → Preserves IsLegal (set_window kx ky kw kh kwargs)
unfolding set_window
set_window-IsLegal kx ky kw kh kwargs fx fy fw fh = both-IsLegal (set_number-IsLegal _ _ _ fx) (
    both-IsLegal (set_number-IsLegal _ _ _ fy)
      (both-IsLegal (set_number-IsLegal _ _ _ fw) (set_number-IsLegal _ _ _ fh)))

-- the three settings of a panel, under keys that may hold anything
panel_steps-IsLegal :
    (kwargs : Fields) (name : String)
    → ((b : Bool) → legal_value (panel_key name ".show") (bool b) ≡ true)
    → ((n : ℕ) → legal_value (panel_key name ".x") (num (pos n)) ≡ true)
    → ((n : ℕ) → legal_value (panel_key name ".y") (num (pos n)) ≡ true)
    → Preserves IsLegal (set_panel kwargs name)
unfolding set_panel
panel_steps-IsLegal kwargs name fs fx fy =
    both-IsLegal (set_flag-IsLegal _ _ _ fs)
      (both-IsLegal (set_number-IsLegal _ _ _ fx) (set_number-IsLegal _ _ _ fy))

panel_cases :
    (n : String) → member n panel_names ≡ true → (n ≡ "help") ⊎ ((n ≡ "custom") ⊎ (n ≡ "tools"))
unfolding member
panel_cases n h = ground (arith, eq_iff "help" n, eq_iff "custom" n, eq_iff "tools" n)

pub set_panel-IsLegal :
    (kwargs : Fields) (name : String)
    → member name panel_names ≡ true
    → Preserves IsLegal (set_panel kwargs name)
unfolding legal_value
set_panel-IsLegal kwargs name known = elim (panel_cases name known) [
  | inl help ↦ rw help (panel_steps-IsLegal kwargs "help" (λ b. refl) (λ n. refl) (λ n. refl))
  | inr (inl custom) ↦
      rw custom (panel_steps-IsLegal kwargs "custom" (λ b. refl) (λ n. refl) (λ n. refl))
  | inr (inr tools) ↦
      rw tools (panel_steps-IsLegal kwargs "tools" (λ b. refl) (λ n. refl) (λ n. refl))
]

pub check_panel-IsLegal :
    (kwargs : Fields) (v : Value) → Preserves IsLegal (check_panel v (set_panel kwargs))
unfolding check_panel
check_panel-IsLegal kwargs (str s) = require_then-IsLegal _ _ _ (set_panel-IsLegal kwargs s)
check_panel-IsLegal kwargs v = Preserves-raise _

-- a test of a value that may raise
fine_then-IsLegal :
    (r : Result Bool) (msg : String) → Preserves IsLegal (lift r >>= λ fine. require fine msg)
fine_then-IsLegal r msg = Preserves-bind _ _ (Preserves-lift r) (λ fine. require-IsLegal fine msg)

check_option-IsLegal : (opt : String) (val : Value) → Preserves IsLegal (check_option opt val)
unfolding check_option
check_option-IsLegal opt val =
    search (Preserves-if, fine_then-IsLegal, require-IsLegal, Preserves-raise) depth 9

pub check_image-IsLegal :
    (obj opt val : Value) (body : String → String → Step)
    → ((o p : String) → Preserves IsLegal (body o p))
    → Preserves IsLegal (check_image obj opt val body)
unfolding check_image
check_image-IsLegal (str obj) (str opt) val body pb =
    both-IsLegal (check_option-IsLegal opt val) (pb obj opt)
check_image-IsLegal (str obj) opt val body pb = Preserves-raise _
check_image-IsLegal obj opt val body pb = Preserves-raise _

pub focus_step-IsLegal :
    (gui : Gui) (w : Workspace) (v : Value) → Preserves IsLegal (focus_step gui w v)
unfolding focus_step legal_value
focus_step-IsLegal gui w null = del_in-IsLegal "dqm.focus" w.name (λ f. refl)
focus_step-IsLegal gui w v = set-IsLegal gui w.name _
