-- ===== src/Pages/Found.antt =====
-- Which source answers `plotfairy`, `jsonfairy` and `jsrootfairy` of src/python/Core/GUI.py, and what
-- they do with what it answers.
use dqmgui_prod.Base.{
  ℕ, String, true, false, ◌≡◌, refl, Option, none, some, List, [], ◌∷◌, ◌++◌, All, eq_refl, arith,
}
use dqmgui_prod.Exec.{
  Error, Result, ok, raised, unbound_local_error, pure, raise, lift, modify, ◌>>=◌,
}
use dqmgui_prod.Value.{Fields}
use dqmgui_prod.Pages.Fairies.{
  Source, Response, Picture, bytes_of, has_name, find_source, no_response_caching, is_exception,
  attempt, show_plot, missing, draw, plotfairy, json_of, str_e, jsonfairy,
}

find_source-first :
    (hook : Source → Option String) (name : String) (before after : List Source) (s : Source)
    → All (λ x. has_name (hook x) name ≡ false) before
    → hook s ≡ some name
    → find_source hook name (before ++ (s ∷ after)) ≡ some s
unfolding find_source has_name
find_source-first hook name [] after s others mine = rw mine (rw (eq_refl name) refl)
find_source-first hook name (x ∷ before) after s others mine =
    rw (others.0) (find_source-first hook name before after s others.1 mine)

-- what a plot is shown as
unfoldable pub shown : String → Result (Option String × String) → Picture
unfolding missing
shown content (ok (some kind, bytes)) = bytes_of bytes
shown content (ok (none, bytes)) = missing content
shown content (raised e) = missing content

unfoldable pub Ends {ℓ} : {A : Type ℓ} → Result A → Type 0
Ends (ok a) = Unit
Ends (raised e) = is_exception e ≡ true

module _ (content : String) (stat : String → Option ℕ) (read : String → Option String)
    (page : String → String → Result String) where
  -- `plotfairy` answers with what the first source of the name in the address has drawn, where
  -- that has a type; where it has none, or where the source raises an exception, it answers with
  -- the image of a missing plot. It never raises, provided that the source ends.
  pub plotfairy-first :
      (before after : List Source) (s : Source) (name : String) (path : List String)
      (kwargs : Fields) (r : Response)
      → All (λ x. has_name x.plothook name ≡ false) before
      → s.plothook ≡ some name
      → Ends (s.plot path kwargs)
      → (plotfairy content (before ++ (s ∷ after)) stat read page (name ∷ path) kwargs r).0
        ≡ ok (shown content (s.plot path kwargs))
  unfolding plotfairy draw attempt ◌>>=◌ lift pure modify show_plot shown Ends
  plotfairy-first before after s name path kwargs r others mine ends =
      ground (arith, find_source-first (λ x. x.plothook) name before after s others mine, ends)

  -- Where the first source of the name in the address raises an exception, whichever it is,
  -- `jsonfairy` logs it, forbids to cache the response, and raises `UnboundLocalError`.
  pub jsonfairy_failed :
      (before after : List Source) (s : Source) (name : String) (path : List String)
      (kwargs : Fields) (r : Response) (e : Error)
      → All (λ x. has_name x.jsonhook name ≡ false) before
      → s.jsonhook ≡ some name
      → s.get_json path kwargs ≡ raised e
      → is_exception e ≡ true
      → jsonfairy content (before ++ (s ∷ after)) stat read page (name ∷ path) kwargs r
        ≡ (raised unbound_local_error, no_response_caching (record r { warnings = e ∷ r.warnings }))
  unfolding jsonfairy json_of attempt ◌>>=◌ lift pure modify raise str_e
  jsonfairy_failed before after s name path kwargs r e others mine fails caught =
      ground (arith, find_source-first (λ x. x.jsonhook) name before after s others mine)
