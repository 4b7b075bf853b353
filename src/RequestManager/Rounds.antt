-- ===== src/RequestManager/Rounds.antt =====
-- One round of `RequestManager.process` (src/python/Core/HTTP.py).
use dqmgui_prod.Base.{
  ℕ, suc, ◌+◌, ◌≡◌, ◌≤◌, ◌<◌, refl, true, false, List, [], ◌∷◌, ◌++◌, map, length, arith, ap, sym,
  length-append, inl, inr, ◌⊎◌, List-cases, ltb, ltb→lt, lt→ltb,
}
use mathlib.Core.Path.{subst}
use dqmgui_prod.Exec.{Exec, ok, lift, gets, modify, ◌>>=◌, for_each}
use dqmgui_prod.RequestManager.{
  Report, Client, Manager, start, fill, finish, fail, read_reports, round, is_busy,
}
use dqmgui_prod.RequestManager.Sound.{
  sum, sum_multi, has, handles, IsPart, IsSound, IsCalm, IsShrinking, weight, Step, finish-Step,
  fail-Step,
}

-- the connections that reports are about
abbrev pub events : List Report → List ℕ
events [] = []
events (r ∷ rs) = r.succeeded ++ (map (λ e. e.0) r.failed ++ events rs)

-- curl reports connections that it has, each once at most
abbrev pub IsGenuine : (ℕ → List ℕ → List Report) → Type 0
IsGenuine info = (i : ℕ) (hs : List ℕ) → IsPart (events (info i hs)) hs

-- a round is counted once curl has some news, where it has connections
abbrev pub HasNews : (ℕ → List ℕ → List Report) → Type 0
HasNews info = (i : ℕ) (hs : List ℕ) → 0 < length hs → 0 < length (events (info i hs))

map_same : (xs : List ℕ) → map (λ c. c) xs ≡ xs
map_same [] = refl
map_same (x ∷ xs) = ap (◌∷◌ x) (map_same xs)

length-map : {A B : Type 0} (f : A → B) (xs : List A) → length (map f xs) ≡ length xs
length-map f [] = refl
length-map f (x ∷ xs) = ap suc (length-map f xs)

module _ {T : Type 0} (n : ℕ) (k : Client T) (calm : IsCalm k) where
  -- `e` goes well from `m`, deals with `count` connections, and leaves these
  abbrev Reaches : List ℕ → ℕ → Exec (Manager T) (Unit {0}) → Manager T → Type 0
  Reaches rest count e m =
      (m' : Manager T) × (e m ≡ (ok tt, m'))
      × IsSound n m'
      × IsPart rest (handles m'.multi)
      × ((w : T → ℕ) → IsShrinking w k → weight w m' + count ≤ weight w m)

  for_each-Reaches :
      {A : Type 0} (key : A → ℕ) (body : A → Exec (Manager T) (Unit {0}))
      → ((a : A) (m : Manager T)
          → IsSound n m
          → has (key a) (handles m.multi) ≡ true
          → (m' : Manager T) × (body a m ≡ (ok tt, m')) × Step n (key a) k m m')
      → (xs : List A) (rest : List ℕ) (m : Manager T) → IsSound n m
      → IsPart (map key xs ++ rest) (handles m.multi)
      → Reaches rest (length xs) (for_each body xs) m
  unfolding for_each ◌>>=◌
  for_each-Reaches key body step [] rest m h part = (m, refl, h, part, λ w s. omega arith)
  for_each-Reaches key body step (x ∷ xs) rest m h (here, part) =
      let (m1, run, s) = step x m h here in
      let (m2, run', h2, part', less) =
        for_each-Reaches key body step xs rest m1 s.sound
          (subst (λ hs. IsPart (map key xs ++ rest) hs) (sym s.left) part) in
      (m2, rw run run', h2, part', λ w l. omega (arith, s.lighter w l, less w l))

  read_reports-Reaches :
      (rs : List Report) (m : Manager T)
      → IsSound n m
      → IsPart (events rs) (handles m.multi)
      → Reaches [] (length (events rs)) (read_reports k rs) m
  unfolding read_reports ◌>>=◌
  read_reports-Reaches [] m h part = (m, refl, h, part, λ w s. omega arith)
  read_reports-Reaches (r ∷ rs) m h part =
      let (m1, run1, h1, part1, less1) =
        for_each-Reaches (λ c. c) (finish k) (λ c s. finish-Step n c k s calm) r.succeeded
          (map (λ e. e.0) r.failed ++ events rs) m h
          (subst (λ xs. IsPart (xs ++ (map (λ e. e.0) r.failed ++ events rs)) (handles m.multi))
            (sym (map_same r.succeeded)) part) in
      let (m2, run2, h2, part2, less2) =
        for_each-Reaches (λ e. e.0) (fail k) (λ e s. fail-Step n k e s calm) r.failed (events rs) m1
          h1 part1 in
      let (m3, run3, h3, part3, less3) = read_reports-Reaches rs m2 h2 part2 in
      (
        m3,
        rw (run1, run2) run3,
        h3,
        part3,
        λ w l. omega (
          arith,
          less1 w l,
          less2 w l,
          less3 w l,
          length-append r.succeeded (map (λ e. e.0) r.failed ++ events rs),
          length-append (map (λ e. e.0) r.failed) (events rs),
          length-map (λ e. e.0) r.failed,
        ),
      )

  -- requests are started until there are no tasks or no free connections
  fill_lem :
      (q : List T) (m : Manager T)
      → m.queue ≡ q
      → IsSound n m
      → (m' : Manager T) × (fill k q m ≡ (ok tt, m'))
        × IsSound n m'
        × ((m'.queue ≡ []) ⊎ (m'.free ≡ []))
        × ((w : T → ℕ) → weight w m' ≡ weight w m)
  unfolding fill start ◌>>=◌ modify lift
  fill_lem [] m same h = (m, refl, h, inl same, λ w. refl)
  fill_lem (t ∷ q) m same h = elim (List-cases m.free) [
    | inl empty ↦ (m, rw empty refl, h, inr empty, λ w. refl)
    | inr (c, free, here) ↦
        let m1 : Manager T = record m {
          free = free;
          queue = q;
          multi = (c, t) ∷ m.multi;
          npending = m.npending + 1;
        } in
        let h1 : IsSound n m1 = record {
          count = omega (arith, h.count);
          total = omega (arith, h.total, ap length here);
          apart = λ f. omega (arith, h.apart f, ap (sum f) here);
          account = λ f. omega (arith, h.account f, ap (sum f) same);
        } in
        let (m2, run, h2, filled, even) = fill_lem q m1 refl h1 in
        (m2, rw (here, calm.init t) run, h2, filled, λ w. omega (arith, even w, ap (sum w) same))
  ]

  sum_multi_ones : (m : List (ℕ × T)) → sum_multi (λ t. 1) m ≡ length (handles m)
  sum_multi_ones [] = refl
  sum_multi_ones ((c, t) ∷ m) = omega (arith, sum_multi_ones m)

  length-handles : (m : List (ℕ × T)) → length (handles m) ≡ length m
  length-handles [] = refl
  length-handles (x ∷ m) = ap suc (length-handles m)

  -- a loop that goes on has tasks, or requests in progress
  is_busy-weight : (m : Manager T) → IsSound n m → is_busy m ≡ true → 0 < weight (λ t. 1) m
  unfolding is_busy
  is_busy-weight m h busy = elim (List-cases m.queue) [
    | inl empty ↦
        let some_pending : ltb 0 m.npending ≡ true =
          subst (λ q. (elim q [ [] ↦ ltb 0 m.npending | t ∷ q ↦ true ]) ≡ true) empty busy in
        omega (
          arith,
          ltb→lt 0 m.npending some_pending,
          h.count,
          sum_multi_ones m.multi,
          length-handles m.multi,
        )
    | inr (t, q, here) ↦ omega (arith, ap (sum (λ t. 1)) here)
  ]

  pub is_idle : (m : Manager T) → IsSound n m → is_busy m ≡ false → (m.queue ≡ []) × (m.multi ≡ [])
  unfolding is_busy
  is_idle m h idle = elim (List-cases m.queue) [
    | inl empty ↦ elim (List-cases m.multi) [
      | inl none_left ↦ (empty, none_left)
      | inr (x, xs, some_left) ↦
          let waits : ltb 0 m.npending ≡ true =
            lt→ltb 0 m.npending (omega (arith, h.count, ap length some_left)) in
          ground (arith, empty, waits, idle)
    ]
    | inr (t, q, here) ↦ ground (arith, here, idle)
  ]

  -- once no more requests can be started, some are in progress
  some_handles :
      (m : Manager T)
      → IsSound n m
      → (m.queue ≡ []) ⊎ (m.free ≡ [])
      → 0 < n
      → 0 < weight (λ t. 1) m
      → 0 < length (handles m.multi)
  some_handles m h (inl empty) some_n much =
      omega (arith, much, ap (sum (λ t. 1)) empty, sum_multi_ones m.multi)
  some_handles m h (inr none_free) some_n much =
      omega (arith, some_n, h.total, ap length none_free, length-handles m.multi)

  module _ (info : ℕ → List ℕ → List Report) (genuine : IsGenuine info) where
    pub round_lem :
        (i : ℕ) (m : Manager T)
        → IsSound n m
        → (m' : Manager T) × (round k (info i) m ≡ (ok tt, m'))
          × IsSound n m'
          × (HasNews info
              → 0 < n
              → is_busy m ≡ true
              → (w : T → ℕ) → IsShrinking w k
              → weight w m' < weight w m)
    unfolding round ◌>>=◌ gets
    round_lem i m h =
        let (m1, run1, h1, filled, even) = fill_lem m.queue m refl h in
        let (m2, run2, h2, part, less) =
          read_reports-Reaches (info i (handles m1.multi)) m1 h1 (genuine i (handles m1.multi)) in
        (
          m2,
          rw run1 run2,
          h2,
          λ news some_n busy w l.
              let many =
                some_handles m1 h1 filled some_n (rw (even (λ t. 1)) (is_busy-weight m h busy)) in
              omega (arith, even w, less w l, news i (handles m1.multi) many),
        )
