-- ===== src/RequestManager/Sound.antt =====
-- The accounting of `RequestManager` (src/python/Core/HTTP.py): every connection is free or in use,
-- `npending` counts those in use, and every task put is queued, in progress or answered.
use dqmgui_prod.Base.{
  ℕ, suc, ◌+◌, ◌-◌, ◌≡◌, ◌<◌, refl, Bool, true, false, String, some, List, [], ◌∷◌, ◌++◌, map,
  nat_eq, length, arith, lt→ltb, ap, if◌then◌else◌, Bool-cases, inl, inr,
}
use dqmgui_prod.Exec.{ok, gets, modify, ◌>>=◌}
use dqmgui_prod.RequestManager.{
  Client, Manager, connections, task_of, drop_handle, put, put_all, take_out, set_free, called,
  finish, fail,
}

-- a number of each task, added up
abbrev pub sum : {T : Type 0} → (T → ℕ) → List T → ℕ
sum f [] = 0
sum f (t ∷ ts) = f t + sum f ts

abbrev pub sum_multi : {T : Type 0} → (T → ℕ) → List (ℕ × T) → ℕ
sum_multi f [] = 0
sum_multi f ((c, t) ∷ m) = f t + sum_multi f m

pub sum-append : {T : Type 0} (f : T → ℕ) (xs ys : List T) → sum f (xs ++ ys) ≡ sum f xs + sum f ys
sum-append f [] ys = omega arith
sum-append f (x ∷ xs) ys = rw (sum-append f xs ys) (omega arith)

-- `c` is one of the connections, and what is left of them without it
abbrev pub has : ℕ → List ℕ → Bool
has c [] = false
has c (i ∷ hs) = if nat_eq i c then true else has c hs

abbrev pub delete : ℕ → List ℕ → List ℕ
delete c [] = []
delete c (i ∷ hs) = if nat_eq i c then hs else i ∷ delete c hs

abbrev pub handles : {T : Type 0} → List (ℕ × T) → List ℕ
handles m = map (λ h. h.0) m

-- The first ones are among the others, each as often at most.
abbrev pub IsPart : List ℕ → List ℕ → Type 0
IsPart [] hs = Unit
IsPart (c ∷ cs) hs = (has c hs ≡ true) × IsPart cs (delete c hs)

pub sum-delete :
    (f : ℕ → ℕ) (c : ℕ) (hs : List ℕ) → has c hs ≡ true → f c + sum f (delete c hs) ≡ sum f hs
sum-delete f c [] h = ground (arith, h)
sum-delete f c (i ∷ hs) h = elim (Bool-cases (nat_eq i c)) [
  | inl same ↦ rw same (omega (arith, ap f (eq_of same)))
  | inr other ↦ rw other (omega (arith, sum-delete f c hs (ground (arith, h, other))))
]
  where
    eq_of : nat_eq i c ≡ true → i ≡ c
    eq_of same = ground (arith, same)

module _ {T : Type 0} where
  pub task_of-handles :
      (c : ℕ) (m : List (ℕ × T))
      → has c (handles m) ≡ true
      → (t : T) × (task_of c m ≡ some t)
        × (handles (drop_handle c m) ≡ delete c (handles m))
        × (suc (length (drop_handle c m)) ≡ length m)
        × ((f : T → ℕ) → f t + sum_multi f (drop_handle c m) ≡ sum_multi f m)
  unfolding task_of drop_handle
  task_of-handles c [] h = ground (arith, h)
  task_of-handles c ((i, t) ∷ m) h = elim (Bool-cases (nat_eq i c)) [
    | inl same ↦ rw same (t, refl, refl, refl, λ f. refl)
    | inr other ↦
        let (u, found, left, less, kept) = task_of-handles c m (ground (arith, h, other)) in
        rw other (u, found, ap (◌∷◌ i) left, ap suc less, λ f. omega (arith, kept f))
  ]

  pub record IsSound (n : ℕ) (m : Manager T) : Type 0 where
    pub count : m.npending ≡ length m.multi
    pub total : length m.free + length m.multi ≡ n
    -- each of the connections is free or in use, once
    pub apart : (f : ℕ → ℕ) → sum f m.free + sum f (handles m.multi) ≡ sum f (connections n)
    pub account :
        (f : T → ℕ) → sum f m.given ≡ sum f m.answered + sum f m.queue + sum_multi f m.multi

  -- the callbacks do not raise
  pub record IsCalm (k : Client T) : Type 0 where
    pub init : (t : T) → k.request_init t ≡ ok tt
    pub respond : (before : List T) (t : T) → (k.request_respond before t).1 ≡ ok tt
    pub error :
        (before : List T) (t : T) (errno : ℕ) (errmsg : String)
        → (k.request_error before t errno errmsg).1 ≡ ok tt

  -- the tasks that a callback queues weigh less, taken together, than the task it is called for
  pub record IsShrinking (w : T → ℕ) (k : Client T) : Type 0 where
    pub respond : (before : List T) (t : T) → sum w (k.request_respond before t).0 < w t
    pub error :
        (before : List T) (t : T) (errno : ℕ) (errmsg : String)
        → sum w (k.request_error before t errno errmsg).0 < w t

  abbrev pub weight : (T → ℕ) → Manager T → ℕ
  weight w m = sum w m.queue + sum_multi w m.multi

  -- tasks are queued, and nothing else changes
  pub record Queued (ts : List T) (m m' : Manager T) : Type 0 where
    pub free : m'.free ≡ m.free
    pub multi : m'.multi ≡ m.multi
    pub npending : m'.npending ≡ m.npending
    pub answered : m'.answered ≡ m.answered
    pub queue : (f : T → ℕ) → sum f m'.queue ≡ sum f m.queue + sum f ts
    pub given : (f : T → ℕ) → sum f m'.given ≡ sum f m.given + sum f ts

  pub put_all-Queued : (ts : List T) (m : Manager T) → Queued ts m (put_all ts m)
  unfolding put_all put
  put_all-Queued [] m = record {
    free = refl;
    multi = refl;
    npending = refl;
    answered = refl;
    queue = λ f. omega arith;
    given = λ f. omega arith;
  }
  put_all-Queued (t ∷ ts) m =
      let h = put_all-Queued ts (put t m) in
      record {
        free = h.free;
        multi = h.multi;
        npending = h.npending;
        answered = h.answered;
        queue = λ f. omega (arith, h.queue f, sum-append f m.queue (t ∷ []));
        given = λ f. omega (arith, h.given f);
      }

  -- one connection is done with: what is left, and that the weight is less if the callback's tasks are
  pub record Step (n c : ℕ) (k : Client T) (m m' : Manager T) : Type 0 where
    pub sound : IsSound n m'
    pub left : handles m'.multi ≡ delete c (handles m.multi)
    pub lighter : (w : T → ℕ) → IsShrinking w k → weight w m' < weight w m

  pub finish-Step :
      (n c : ℕ) (k : Client T) (m : Manager T)
      → IsCalm k
      → IsSound n m
      → has c (handles m.multi) ≡ true
      → (m' : Manager T) × (finish k c m ≡ (ok tt, m')) × Step n c k m m'
  unfolding finish take_out called set_free ◌>>=◌ gets modify
  finish-Step n c k m calm h here =
      let (t, found, left, less, kept) = task_of-handles c m.multi here in
      let new = (k.request_respond m.answered t).0 in
      let taken : Manager T = record m {
        multi = drop_handle c m.multi;
        answered = t ∷ m.answered;
      } in
      let q = put_all-Queued new taken in
      (
        set_free c (put_all new taken),
        rw (lt→ltb 0 m.npending (omega (arith, h.count, less)), found, calm.respond m.answered t)
            refl,
        record {
          sound = record {
            count = rw (q.npending, q.multi) (omega (arith, less, h.count));
            total = rw (q.free, q.multi) (omega (arith, less, h.total));
            apart = λ f.
                rw (q.free, q.multi, left)
                  (omega (arith, sum-delete f c (handles m.multi) here, h.apart f));
            account = λ f.
                rw (q.multi, q.answered) (omega (arith, q.given f, q.queue f, kept f, h.account f));
          };
          left = rw q.multi left;
          lighter = λ w s. rw q.multi (omega (arith, q.queue w, kept w, s.respond m.answered t));
        },
      )

  pub fail-Step :
      (n : ℕ) (k : Client T) (e : ℕ × ℕ × String) (m : Manager T)
      → IsCalm k
      → IsSound n m
      → has e.0 (handles m.multi) ≡ true
      → (m' : Manager T) × (fail k e m ≡ (ok tt, m')) × Step n e.0 k m m'
  unfolding fail take_out called set_free ◌>>=◌ gets modify
  fail-Step n k (c, errno, errmsg) m calm h here =
      let (t, found, left, less, kept) = task_of-handles c m.multi here in
      let new = (k.request_error m.answered t errno errmsg).0 in
      let taken : Manager T = record m {
        multi = drop_handle c m.multi;
        answered = t ∷ m.answered;
        free = c ∷ m.free;
        npending = m.npending - 1;
      } in
      let q = put_all-Queued new taken in
      (
        put_all new taken,
        rw
            (
              lt→ltb 0 m.npending (omega (arith, h.count, less)),
              found,
              calm.error m.answered t errno errmsg,
            )
            refl,
        record {
          sound = record {
            count = rw (q.npending, q.multi) (omega (arith, less, h.count));
            total = rw (q.free, q.multi) (omega (arith, less, h.total));
            apart = λ f.
                rw (q.free, q.multi, left)
                  (omega (arith, sum-delete f c (handles m.multi) here, h.apart f));
            account = λ f.
                rw (q.multi, q.answered) (omega (arith, q.given f, q.queue f, kept f, h.account f));
          };
          left = rw q.multi left;
          lighter = λ w s.
              rw q.multi (omega (arith, q.queue w, kept w, s.error m.answered t errno errmsg));
        },
      )
