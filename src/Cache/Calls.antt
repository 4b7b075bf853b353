-- ===== src/Cache/Calls.antt =====
-- The calls of the public methods of `OverviewCache` (src/python/Core/Cache.py), in any order: each
-- keeps the accounting of Cache/Sound and leaves the lock free.
use dqmgui_prod.Base.{
  ℕ, ◌+◌, String, Bool, true, false, ◌≡◌, refl, Option, some, List, [], ◌∷◌, Option-cases, inl, inr,
  length,
}
use dqmgui_prod.Cache
use dqmgui_prod.Cache.Methods
use dqmgui_prod.Cache.{Cache, Entry, store, init}
use dqmgui_prod.Cache.Methods.{
  Pickle, acquire, release, synchronized, keys_to_delete, delete_expired, read,
}
use dqmgui_prod.Cache.Sound.{IsSound, insert-IsSound, remove-IsSound}
use dqmgui_prod.Exec.{Exec, raise, modify}
use dqmgui_prod.Exec.Preserves.{
  Preserves, Preserves-pure, Preserves-gets, Preserves-bind, Preserves-modify, Preserves-for_each,
  preserves_rules,
}

-- a call of a public method of the class, by a thread that does not hold the lock
pub data Call (A : Type 0) : Type 0 where
  stop sweep itemcount keylist cachesize : Call A
  insert : String → ℕ → A → Call A
  remove exists key_wait_get : String → Call A
  retrieve : String → Option A → Call A
  key_wait_set : String → Bool → Call A
  -- time passes
  tick : ℕ → Call A

-- the state that a call leaves, whether it returned or raised
module _ (maxint : Option ℕ) {A : Type 0} (pickle : Pickle A) where
  unfoldable pub after : Call A → Cache → Cache
  after stop c = (Methods.stop c).1
  after sweep c = (Methods.sweep c).1
  after itemcount c = (Methods.itemcount c).1
  after keylist c = (Methods.keylist c).1
  after cachesize c = (Methods.cachesize c).1
  after (insert key lifetime value) c = (Methods.insert maxint pickle key lifetime value c).1
  after (remove key) c = (Methods.remove key c).1
  after (exists key) c = (Methods.exists key c).1
  after (key_wait_get key) c = (Methods.key_wait_get key c).1
  after (retrieve key default) c = (Methods.retrieve pickle key default c).1
  after (key_wait_set key value) c = (Methods.key_wait_set key value c).1
  after (tick n) c = record c { now = c.now + n }

  unfoldable pub run_calls : List (Call A) → Cache → Cache
  unfolding after
  run_calls [] c = c
  run_calls (call ∷ calls) c = run_calls calls (after call c)

-- the accounting, and a lock that nobody holds
pub record IsReady (c : Cache) : Type 0 where
  pub sound : IsSound c
  pub free : c.locked ≡ false

-- a thread that has the lock
abbrev pub held : Cache → Cache
held c = record c { locked = true }

pub synchronized_lem :
    {B : Type 0} (m : Exec Cache B) (c : Cache)
    → c.locked ≡ false
    → synchronized m c ≡ ((m (held c)).0, release (m (held c)).1)
unfolding synchronized
synchronized_lem m c h = rw h

pub held-IsSound : (c : Cache) → IsSound c → IsSound (held c)
held-IsSound c h = record { distinct = h.distinct; counted = h.counted }

release-IsSound : (c : Cache) → IsSound c → IsSound (release c)
unfolding release
release-IsSound c h = record { distinct = h.distinct; counted = h.counted }

pub synchronized-IsReady :
    {B : Type 0} (m : Exec Cache B) → Preserves IsSound m → Preserves IsReady (synchronized m)
synchronized-IsReady m pm = record {
  apply = λ c h. rw (synchronized_lem m c h.free) (record {
    sound = release-IsSound _ (pm.apply (held c) (held-IsSound c h.sound));
    free = unfold release in refl;
  });
}

-- a step that touches neither the table nor its size
same_table-IsSound :
    (f : Cache → Cache)
    → ((c : Cache) → ((f c).entries ≡ c.entries) × ((f c).cachesize ≡ c.cachesize))
    → Preserves IsSound (modify f)
same_table-IsSound f same = Preserves-modify f λ c h. record {
  distinct = rw ((same c).0) h.distinct;
  counted = rw ((same c).0, (same c).1) h.counted;
}

pub delete_expired-IsSound : (key : String) → Preserves IsSound (delete_expired key)
unfolding delete_expired
delete_expired-IsSound key =
    Preserves-bind _ _ (remove-IsSound (some key)) λ _. same_table-IsSound _ (λ c. (refl, refl))

sweep-IsReady : Preserves IsReady Methods.sweep
unfolding Methods.sweep
sweep-IsReady =
    synchronized-IsReady _
      (search (preserves_rules, Preserves-for_each, delete_expired-IsSound) depth 9)

pub insert-IsReady :
    (maxint : Option ℕ) {A : Type 0} (pickle : Pickle A) (key : String) (lifetime : ℕ) (value : A)
    → Preserves IsReady (Methods.insert maxint pickle key lifetime value)
unfolding Methods.insert
insert-IsReady maxint pickle key lifetime value = elim (Option-cases (pickle.dumps value)) [
  | inl failed ↦ synchronized-IsReady _ (rw failed (Preserves-pure tt))
  | inr (content, dumped) ↦
      synchronized-IsReady _
        (rw dumped (insert-IsSound maxint key lifetime (length content) content))
]

module _ (maxint : Option ℕ) {A : Type 0} (pickle : Pickle A) where
  after-IsReady : (call : Call A) (c : Cache) → IsReady c → IsReady (after maxint pickle call c)
  unfolding after Methods.stop Methods.itemcount Methods.keylist Methods.cachesize Methods.remove
      Methods.exists Cache.exists Methods.key_wait_get Methods.retrieve Methods.key_wait_set raise
  after-IsReady stop c h =
      (synchronized-IsReady _ (same_table-IsSound _ (λ c. (refl, refl)))).apply c h
  after-IsReady sweep c h = sweep-IsReady.apply c h
  after-IsReady itemcount c h = (synchronized-IsReady _ (Preserves-gets _)).apply c h
  after-IsReady keylist c h = (synchronized-IsReady _ (Preserves-gets _)).apply c h
  after-IsReady cachesize c h = h
  after-IsReady (insert key lifetime value) c h =
      (insert-IsReady maxint pickle key lifetime value).apply c h
  after-IsReady (remove key) c h = (synchronized-IsReady _ (remove-IsSound (some key))).apply c h
  after-IsReady (exists key) c h = (synchronized-IsReady _ (Preserves-gets _)).apply c h
  after-IsReady (key_wait_get key) c h = (synchronized-IsReady _ (Preserves-gets _)).apply c h
  after-IsReady (retrieve key default) c h = (synchronized-IsReady _ (Preserves-gets _)).apply c h
  after-IsReady (key_wait_set key value) c h =
      (synchronized-IsReady _ (same_table-IsSound _ (λ c. (refl, refl)))).apply c h
  after-IsReady (tick n) c h = record {
    sound = record { distinct = h.sound.distinct; counted = h.sound.counted };
    free = h.free;
  }

  -- After any sequence of calls of the public methods, whether they return or raise: no key is
  -- there twice, `cachesize` is the sum of the sizes of the entries, and the lock is free.
  pub run_calls-IsReady :
      (calls : List (Call A)) (c : Cache) → IsReady c → IsReady (run_calls maxint pickle calls c)
  unfolding run_calls
  run_calls-IsReady [] c h = h
  run_calls-IsReady (call ∷ calls) c h =
      run_calls-IsReady calls (after maxint pickle call c) (after-IsReady call c h)
