-- ===== src/Workspace/Legal/Sets.antt =====
-- The parts of `_set` for the sample, the display, the strip chart, the page and the play mode
-- (src/python/DQM/GUI.py) keep the settings of a session legal.
use dqmgui_prod.Base.{
  ℕ, ◌≤◌, String, true, false, ◌≡◌, refl, Option, none, some, ◌==◌, arith, int, Option-cases, inl,
  inr,
}
use dqmgui_prod.Exec.{◌>>=◌}
use dqmgui_prod.Exec.Preserves.{Preserves, Preserves-pure, Preserves-raise}
use dqmgui_prod.Value.{Value, Fields, null, bool, num, dict, get, put, item}
use dqmgui_prod.Value.Laws.{get-put}
use dqmgui_prod.Workspace.Desk.{Desk, get_item, put_item, get_dict, put_in}
use dqmgui_prod.Workspace.Legal.{
  IsLegal, legal_value, legal_put, shows, positions, put_item-IsLegal, both-IsLegal,
  require_then-IsLegal, text_step-IsLegal, set_choice-IsLegal, set_text-IsLegal, set_number-IsLegal,
  set_flag-IsLegal,
}
use dqmgui_prod.Workspace.Params.{Gui, arg, set_reference_choice}
use dqmgui_prod.Workspace.Settings.{
  set_sampletype, set_importversion, set_sample, set_qplot, set_display, set_stripruns, set_strip,
  set_page, play_interval, set_playinterval, set_play, set_zooms,
}

set_importversion-IsLegal : (v : Value) → Preserves IsLegal (set_importversion v)
unfolding set_importversion legal_value
set_importversion-IsLegal null = Preserves-pure tt
set_importversion-IsLegal (num n) = put_item-IsLegal _ _ refl
set_importversion-IsLegal (bool b) = put_item-IsLegal _ _ refl
set_importversion-IsLegal v = Preserves-raise _

module _ (gui : Gui) where
  set_sampletype-IsLegal : (s : String) → Preserves IsLegal (set_sampletype gui s)
  unfolding set_sampletype legal_value
  set_sampletype-IsLegal s = elim (Option-cases (gui.sampletype s)) [
    | inl missing ↦ rw (missing, set_sampletype) (Preserves-raise _)
    | inr (n, there) ↦ rw (there, set_sampletype) (put_item-IsLegal "dqm.sample.type" _ refl)
  ]

  pub set_sample-IsLegal : (kwargs : Fields) → Preserves IsLegal (set_sample gui kwargs)
  unfolding set_sample legal_value
  set_sample-IsLegal kwargs = both-IsLegal (set_choice-IsLegal _ _ _ _ (λ s h. h)) (
      both-IsLegal (set_choice-IsLegal _ _ _ _ (λ s h. h)) (
        both-IsLegal (set_choice-IsLegal _ _ _ _ (λ s h. refl)) (
          both-IsLegal (set_text-IsLegal _ _ _ (λ s. refl)) (
            both-IsLegal (set_choice-IsLegal _ _ _ _ (λ s h. h)) (
              both-IsLegal (text_step-IsLegal _ _ _ set_sampletype-IsLegal) (
                both-IsLegal (set_importversion-IsLegal (arg "sampleimportversion" kwargs)) (
                  both-IsLegal (set_text-IsLegal _ _ _ (λ s. refl))
                    (set_number-IsLegal _ _ _ (λ n. refl)))))))))

set_qplot-IsLegal : (v : Value) → Preserves IsLegal (set_qplot v)
unfolding set_qplot legal_value
set_qplot-IsLegal v =
    text_step-IsLegal _ v _ λ s. require_then-IsLegal _ _ _ (λ fits. put_item-IsLegal _ _ fits)

-- a write to the dictionary of the reference
put_reference-IsLegal :
    (j : String) (v : Value)
    → ((f : Fields)
        → legal_value "dqm.reference" (dict f) ≡ true
        → legal_value "dqm.reference" (dict (put j v f)) ≡ true)
    → Preserves IsLegal (put_in "dqm.reference" j v)
unfolding put_in get_dict get_item put_item item ◌>>=◌
put_reference-IsLegal j v keeps = record {
  apply = λ d h. go d h (get "dqm.reference" d.session) refl;
}
  where
    go :
        (d : Desk)
        → IsLegal d
        → (o : Option Value) → get "dqm.reference" d.session ≡ o
        → IsLegal (put_in "dqm.reference" j v d).1
    go d h none e = rw (e, item) h
    go d h (some (dict f)) e =
        rw (e, item)
          (record {
            at =
                legal_put "dqm.reference" (dict (put j v f)) d.session
                  (keeps f (rw e at (h.at "dqm.reference"))) h.at;
          })
    go d h (some w) e = rw (e, item) h

set_show-IsLegal :
    (v : Value)
    → Preserves IsLegal (set_reference_choice "show" shows "Incorrect referenceshow parameter" v)
unfolding set_reference_choice legal_value
set_show-IsLegal v = text_step-IsLegal _ v _ λ s.
    require_then-IsLegal _ _ _
      λ listed. put_reference-IsLegal "show" _ (λ f h. simp get-put (ground (arith, h, listed)))

set_position-IsLegal :
    (v : Value)
    → Preserves IsLegal
        (set_reference_choice "position" positions "Incorrect referencepos parameter" v)
unfolding set_reference_choice legal_value
set_position-IsLegal v = text_step-IsLegal _ v _ λ s.
    require_then-IsLegal _ _ _
      λ listed. put_reference-IsLegal "position" _ (λ f h. simp get-put (ground (arith, h, listed)))

-- a write to a key of the reference that may hold anything
pub put_free-IsLegal :
    (j : String) (v : Value)
    → (j == "show") ≡ false
    → (j == "position") ≡ false
    → Preserves IsLegal (put_in "dqm.reference" j v)
unfolding legal_value
put_free-IsLegal j v p q =
    put_reference-IsLegal j v (λ f h. rw (get-put j "show" v f, p, get-put j "position" v f, q) h)

pub set_display-IsLegal : (kwargs : Fields) → Preserves IsLegal (set_display kwargs)
unfolding set_display legal_value
set_display-IsLegal kwargs = both-IsLegal (set_qplot-IsLegal _) (
    both-IsLegal (set_choice-IsLegal _ _ _ _ (λ s h. h)) (
      both-IsLegal (set_text-IsLegal _ _ _ (λ s. refl)) (
        both-IsLegal (set_text-IsLegal _ _ _ (λ s. refl)) (
          both-IsLegal (set_show-IsLegal _) (
            both-IsLegal (set_position-IsLegal _)
              (text_step-IsLegal _ _ _ (λ s. put_free-IsLegal "norm" _ refl refl)))))))

set_stripruns-IsLegal : (v : Value) → Preserves IsLegal (set_stripruns v)
unfolding set_stripruns legal_value
set_stripruns-IsLegal v =
    text_step-IsLegal _ v _ λ s. require_then-IsLegal _ _ _ (λ fits. put_item-IsLegal _ _ fits)

pub set_strip-IsLegal : (kwargs : Fields) → Preserves IsLegal (set_strip kwargs)
unfolding set_strip legal_value
set_strip-IsLegal kwargs = both-IsLegal (set_choice-IsLegal _ _ _ _ (λ s h. h)) (
    both-IsLegal (set_stripruns-IsLegal _) (
      both-IsLegal (set_choice-IsLegal _ _ _ _ (λ s h. h)) (set_choice-IsLegal _ _ _ _ (λ s h. h))))

pub set_page-IsLegal : (kwargs : Fields) → Preserves IsLegal (set_page kwargs)
unfolding set_page legal_value
set_page-IsLegal kwargs =
    both-IsLegal (set_text-IsLegal _ _ _ (λ s. refl))
      (both-IsLegal (set_choice-IsLegal _ _ _ _ (λ s h. h)) (set_choice-IsLegal _ _ _ _ (λ s h. h)))

-- Whatever number is asked for, the interval is from 2 to 99, and it is the number itself in those
-- bounds.
pub play_interval_bounds :
    (n : ℕ)
    → (2 ≤ play_interval n) × (play_interval n ≤ 99) × (2 ≤ n → n ≤ 99 → play_interval n ≡ n)
unfolding play_interval
play_interval_bounds n = (ground arith, ground arith, λ lo hi. ground arith)

set_playinterval-IsLegal : (v : Value) → Preserves IsLegal (set_playinterval v)
unfolding set_playinterval legal_value
set_playinterval-IsLegal v = text_step-IsLegal _ v _ λ s. require_then-IsLegal _ _ _ λ fits.
    let (lo, hi, same) = play_interval_bounds (int s) in
    put_item-IsLegal _ _ (ground (arith, lo, hi))

pub set_play-IsLegal : (gui : Gui) (kwargs : Fields) → Preserves IsLegal (set_play gui kwargs)
unfolding set_play legal_value
set_play-IsLegal gui kwargs =
    both-IsLegal (set_choice-IsLegal _ _ _ _ (λ s h. refl))
      (both-IsLegal (set_playinterval-IsLegal _) (set_number-IsLegal _ _ _ (λ n. refl)))

pub set_zooms-IsLegal : (kwargs : Fields) → Preserves IsLegal (set_zooms kwargs)
unfolding set_zooms legal_value
set_zooms-IsLegal kwargs =
    both-IsLegal (set_flag-IsLegal _ _ _ (λ b. refl)) (set_flag-IsLegal _ _ _ (λ b. refl))
