-- ===== src/EventDisplay/Pages.antt =====
-- Which page the event display of src/python/DQM/EventDisplay.py shows.
use dqmgui_prod.Base.{
  ℕ, zero, suc, ◌≤◌, String, ◌≡◌, refl, ◌⊎◌, inl, inr, Option, some, List, [], ◌∷◌, ℤ, pos, length,
  leb, split, ◌==◌, arith, All, Bool-cases,
}
use dqmgui_prod.Exec.{ok}
use dqmgui_prod.Value.{Value, str}
use dqmgui_prod.EventDisplay.{nth, page_of, second_part, image_of, min_ℤ, page_number, show_page}

-- the name of an image, of which the second part is the time
unfoldable pub IsImage : String → Type 0
IsImage name =
    (a : String) × (time : String) × (parts : List String) × (split b'-' name ≡ a ∷ time ∷ parts)

nth-below :
    (images : List String) (i : ℕ)
    → All IsImage images
    → suc i ≤ length images
    → (name : String) × (nth images i ≡ some name) × IsImage name
unfolding nth
nth-below [] i all h = absurd (omega arith)
nth-below (x ∷ images) zero all h = (x, refl, all.0)
nth-below (x ∷ images) (suc i) all h = nth-below images i all.1 (omega arith)

image_of-below :
    (images : List String) (i : ℕ)
    → All IsImage images
    → suc i ≤ length images
    → (time : String) × (image_of images (pos (suc i)) ≡ ok time)
unfolding image_of page_of second_part IsImage
image_of-below images i all h =
    let (name, at, (a, time, parts, cut)) = nth-below images i all h in
    (time, ground (arith, at, cut))

module _ (available : List (String × List String)) (dates : List String)
    (int_of : String → Option ℤ) where
  page_number-bounds :
      (page x : String) (rest : List String)
      → (page ≡ "") ⊎ ((k : ℕ) × (int_of page ≡ some (pos (suc k))))
      → (i : ℕ) × (page_number available dates int_of (str page) (x ∷ rest) ≡ ok (pos (suc i)))
        × (i ≤ length rest)
  unfolding page_number min_ℤ
  page_number-bounds page x rest (inl blank) = (length rest, rw blank refl, omega arith)
  page_number-bounds page x rest (inr (k, read)) = elim (Bool-cases (page == "")) [
    | inl blank ↦ (length rest, ground (arith, blank), omega arith)
    | inr given ↦ elim (Bool-cases (leb k (length rest))) [
      | inl within ↦ (k, ground (arith, given, read, within), ground (arith, within))
      | inr beyond ↦ (length rest, ground (arith, given, read, beyond), omega arith)
    ]
  ]

  show_page-number :
      (page : Value) (x time : String) (rest : List String) (i : ℕ)
      → page_number available dates int_of page (x ∷ rest) ≡ ok (pos (suc i))
      → image_of (x ∷ rest) (pos (suc i)) ≡ ok time
      → show_page available dates int_of page (x ∷ rest) ≡ ok (pos (suc i), time)
  unfolding show_page
  show_page-number page x time rest i h k = ground (arith, h, k)

  -- With at least one image, each with a name of two parts or more, a page that is empty or a
  -- number above 0 is shown: its number is between 1 and the number of images, and no index is out
  -- of range.
  pub show_page-bounds :
      (page : String) (images : List String)
      → All IsImage images
      → 1 ≤ length images
      → (page ≡ "") ⊎ ((k : ℕ) × (int_of page ≡ some (pos (suc k))))
      → (i : ℕ) × (time : String) × (show_page available dates int_of (str page) images
          ≡ ok (pos (suc i), time))
        × (suc i ≤ length images)
  show_page-bounds page [] all some_images asked = absurd (omega arith)
  show_page-bounds page (x ∷ rest) all some_images asked =
      let (i, number, below) = page_number-bounds page x rest asked in
      let (time, image) = image_of-below (x ∷ rest) i all (omega (arith, below)) in
      (i, time, show_page-number (str page) x time rest i number image, omega (arith, below))
