-- ===== src/Sources/Labels.antt =====
-- Which objects and labels the overlay of src/python/DQM/GUI.py draws.
use dqmgui_prod.Base.{
  ℕ, suc, ◌+◌, ◌≤◌, String, ◌≡◌, refl, ap, Option, some, List, [], ◌∷◌, ◌++◌, append_assoc,
  append-nil, ℤ, length, length-append, nat_eq, leb, Bool-cases, inl, inr, arith, if◌then◌else◌,
}
use dqmgui_prod.Exec.{assertion_error, ok, raised}
use dqmgui_prod.Sources.{
  Options, Plot, params_of, Wanted, Object, read_object, extend_labels, label_at, add_object,
  collect, with_labels, overlay,
}

-- the labels of the objects after the first one, which has none: its own where there is one, and its
-- run otherwise
unfoldable pub labels_of : {Source : Type 0} → List (Wanted Source) → List String → List String
labels_of [] labels = labels
labels_of (x ∷ xs) [] = x.run ∷ labels_of xs []
labels_of (x ∷ xs) (l ∷ labels) = l ∷ labels_of xs labels

unfoldable pub labelled :
    {Source : Type 0} → List (Wanted Source) → List String → List (Object Source)
labelled [] labels = []
labelled (x ∷ xs) [] = []
labelled (x ∷ xs) (l ∷ labels) = record { wanted = x; label = l } ∷ labelled xs labels

length-labels_of :
    {Source : Type 0} (xs : List (Wanted Source)) (labels : List String)
    → length labels ≤ length xs
    → length (labels_of xs labels) ≡ length xs
unfolding labels_of
length-labels_of [] [] h = refl
length-labels_of [] (l ∷ labels) h = absurd (omega arith)
length-labels_of (x ∷ xs) [] h = omega (arith, length-labels_of xs [])
length-labels_of (x ∷ xs) (l ∷ labels) h = omega (arith, length-labels_of xs labels)

longer-labels_of :
    {Source : Type 0} (xs : List (Wanted Source)) (labels : List String)
    → length xs ≤ length labels
    → length (labels_of xs labels) ≡ length labels
unfolding labels_of
longer-labels_of [] labels h = refl
longer-labels_of (x ∷ xs) [] h = absurd (omega arith)
longer-labels_of (x ∷ xs) (l ∷ labels) h = omega (arith, longer-labels_of xs labels)

label_at-append :
    (before : List String) (l : String) (after : List String)
    → label_at (before ++ (l ∷ after)) (length before) ≡ some l
unfolding label_at
label_at-append [] l after = refl
label_at-append (x ∷ before) l after = label_at-append before l after

add_object-label :
    {Source : Type 0} (before : List String) (x : Wanted Source) (l : String) (labels : List String)
    → 1 ≤ length before
    → add_object (length before) (some x) (before ++ (l ∷ labels))
      ≡ ok (record { wanted = x; label = l } ∷ [], before ++ (l ∷ labels))
unfolding add_object extend_labels
add_object-label before x l labels h =
    ground (arith, h, length-append before (l ∷ labels), label_at-append before l labels)

add_object-run :
    {Source : Type 0} (before : List String) (x : Wanted Source)
    → 1 ≤ length before
    → add_object (length before) (some x) before
      ≡ ok (record { wanted = x; label = x.run } ∷ [], before ++ (x.run ∷ []))
unfolding add_object extend_labels
add_object-run before x h = ground (arith, h, label_at-append before x.run [])

same_length :
    {Source : Type 0} (xs : List (Wanted Source)) (objs labels : List String)
    → suc (length xs) ≡ suc (length objs)
    → nat_eq (suc (length (labels_of xs labels))) (suc (length objs))
      ≡ leb (length labels) (length objs)
same_length xs objs labels h = elim (Bool-cases (leb (length labels) (length xs))) [
  | inl few ↦ grind (arith, length-labels_of xs labels (ground (arith, few)), few)
  | inr enough ↦ grind (arith, longer-labels_of xs labels (ground (arith, enough)), enough)
]

longer : (before : List String) (l : String) → 1 ≤ length (before ++ (l ∷ []))
longer before l = omega (arith, length-append before (l ∷ []))

module _ {Source : Type 0} (hook : Source → Option String) (int_of : String → Option ℤ)
    (sources : List Source) where
  -- the texts are the names of objects
  pub data Reads : List String → List (Wanted Source) → Type 0 where
    read_none : Reads [] []
    read_one :
        (o : String) (objs : List String) (x : Wanted Source) (xs : List (Wanted Source))
        → read_object hook int_of sources o ≡ ok (some x)
        → Reads objs xs
        → Reads (o ∷ objs) (x ∷ xs)

  collect-step :
      (i : ℕ) (o : String) (objs labels more last : List String) (x : Wanted Source)
      (first rest : List (Object Source))
      → read_object hook int_of sources o ≡ ok (some x)
      → add_object i (some x) labels ≡ ok (first, more)
      → collect hook int_of sources (i + 1) objs more ≡ ok (rest, last)
      → collect hook int_of sources i (o ∷ objs) labels ≡ ok (first ++ rest, last)
  unfolding collect
  collect-step i o objs labels more last x first rest read added next =
      ground (arith, read, added, next)

  collect-shift :
      (before : List String) (l : String) (labels last objs : List String)
      (r : List (Object Source))
      → collect hook int_of sources
          (length (before ++ (l ∷ [])))
          objs
          ((before ++ (l ∷ [])) ++ labels)
        ≡ ok (r, (before ++ (l ∷ [])) ++ last)
      → collect hook int_of sources (length before + 1) objs (before ++ (l ∷ labels))
        ≡ ok (r, before ++ (l ∷ last))
  collect-shift before l labels last objs r h = cc (
    length-append before (l ∷ []),
    append_assoc before (l ∷ []) labels,
    append_assoc before (l ∷ []) last,
    h,
  )

  collect_after :
      (before labels objs : List String) (xs : List (Wanted Source))
      → 1 ≤ length before
      → Reads objs xs
      → collect hook int_of sources (length before) objs (before ++ labels)
        ≡ ok (labelled xs (labels_of xs labels), before ++ labels_of xs labels)
  unfolding collect labelled labels_of
  collect_after before labels objs xs some_before read_none = refl
  collect_after before [] objs xs some_before (read_one o rest x ys read reads) =
      let one_more = longer before x.run in
      let shifted =
        collect-shift before x.run [] (labels_of ys []) rest (labelled ys (labels_of ys []))
          (collect_after (before ++ (x.run ∷ [])) [] rest ys one_more reads) in
      rw (append-nil before) (
        collect-step (length before) o rest before (before ++ (x.run ∷ []))
          (before ++ (x.run ∷ labels_of ys [])) x (record { wanted = x; label = x.run } ∷ [])
          (labelled ys (labels_of ys [])) read (add_object-run before x some_before) shifted)
  collect_after before (l ∷ labels) objs xs some_before (read_one o rest x ys read reads) =
      let shifted =
        collect-shift before l labels (labels_of ys labels) rest (labelled ys (labels_of ys labels))
          (collect_after (before ++ (l ∷ [])) labels rest ys (longer before l) reads) in
      collect-step (length before) o rest (before ++ (l ∷ labels)) (before ++ (l ∷ labels))
        (before ++ (l ∷ labels_of ys labels)) x (record { wanted = x; label = l } ∷ [])
        (labelled ys (labels_of ys labels)) read (add_object-label before x l labels some_before)
        shifted

  Reads-length :
      (objs : List String) (xs : List (Wanted Source)) → Reads objs xs → length xs ≡ length objs
  Reads-length objs xs read_none = refl
  Reads-length objs xs (read_one o rest x ys read reads) = ap suc (Reads-length rest ys reads)

  collect_all :
      (o : String) (x : Wanted Source) (objs labels : List String) (xs : List (Wanted Source))
      → Reads (o ∷ objs) (x ∷ xs)
      → collect hook int_of sources 0 (o ∷ objs) labels
        ≡ ok (labelled (x ∷ xs) ("Ignore" ∷ labels_of xs labels), "Ignore" ∷ labels_of xs labels)
  unfolding add_object extend_labels label_at labelled
  collect_all o x objs labels xs (read_one q rest y ys read reads) =
      collect-step 0 q rest labels ("Ignore" ∷ labels) ("Ignore" ∷ labels_of ys labels) y
        (record { wanted = y; label = "Ignore" } ∷ []) (labelled ys (labels_of ys labels)) read refl
        (collect_after ("Ignore" ∷ []) labels rest ys (omega arith) reads)

  -- Where all objects are known, of which there is at least one, the overlay is drawn if the
  -- labels are fewer than the objects: of all objects in their order, the first one labelled
  -- `Ignore`, each other one with its own label while there are any, and with its run after that;
  -- the labels of the request become those. Otherwise an assertion fails.
  pub overlay_lem :
      (draw : List (Object Source) → Options → Plot) (options : Options) (o : String)
      (x : Wanted Source) (objs : List String) (xs : List (Wanted Source))
      → params_of "obj" options ≡ o ∷ objs
      → Reads (o ∷ objs) (x ∷ xs)
      → overlay hook int_of draw sources options ≡ (
          if leb (length (params_of "reflabel" options)) (length objs)
          then (let labels = "Ignore" ∷ labels_of xs (params_of "reflabel" options) in
              draw (labelled (x ∷ xs) labels) (with_labels labels options))
          else raised assertion_error)
  unfolding overlay
  overlay_lem draw options o x objs xs asked reads = ground (
    arith,
    asked,
    collect_all o x objs (params_of "reflabel" options) xs reads,
    same_length xs objs (params_of "reflabel" options) (Reads-length (o ∷ objs) (x ∷ xs) reads),
  )
