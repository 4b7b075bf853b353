-- ===== src/Cache/Limits.antt =====
-- `insert` of `OverviewCache` (src/python/Core/Cache.py) in an interpreter without `sys.maxint`, as
-- Python 3 is: nothing is ever evicted, and past a limit the call raises with the entry stored.
use dqmgui_prod.Base.{
  ℕ, String, ◌≡◌, refl, Option, none, some, List, arith, eq_refl, ◌==◌, if◌then◌else◌, length,
}
use dqmgui_prod.Base.Dict
use dqmgui_prod.Cache
use dqmgui_prod.Cache.{Cache, Entry, store, check_limits}
use dqmgui_prod.Cache.Calls.{IsReady, held, synchronized_lem, insert-IsReady}
use dqmgui_prod.Cache.Contents.{entries-store, entry_of, over_limit, retrieve_lem}
use dqmgui_prod.Cache.Methods.{Pickle, release, insert, retrieve, read}
use dqmgui_prod.Cache.Sound.{entries-remove, insert-check_limits}
use dqmgui_prod.Exec.{ok, raised, attribute_error, ◌>>=◌, when}

-- Where `sys.maxint` is missing the two tests change nothing, and raise past either limit.
pub check_limits_python3 :
    (c : Cache)
    → check_limits none c ≡ ((if over_limit c then raised attribute_error else ok tt), c)
unfolding check_limits ◌>>=◌ when Cache.cull_size Cache.get_oldest
check_limits_python3 c = ground arith

now-remove : (key : Option String) (c : Cache) → (Cache.remove key c).1.now ≡ c.now
unfolding Cache.remove
now-remove none c = refl
now-remove (some key) c = ground arith

module _ {A : Type 0} (pickle : Pickle A) (key : String) (lifetime : ℕ) (value : A)
    (content : List ℕ) (c : Cache) (ready : IsReady c)
    (dumped : pickle.dumps value ≡ some content) where
  -- the state before the limits are tested
  abbrev stored : Cache
  stored = store key lifetime (length content) content (Cache.remove (some key) (held c)).1

  insert_run :
      insert none pickle key lifetime value c
      ≡ ((if over_limit stored then raised attribute_error else ok tt), release stored)
  unfolding insert
  insert_run =
      rw (synchronized_lem _ c ready.free, dumped, insert-check_limits, check_limits_python3)

  -- Without `sys.maxint`, the insertion of an object that can be pickled into a cache that is
  -- ready stores it under its key and leaves every other key as it was, so nothing is evicted; it
  -- raises `AttributeError` exactly where the table is then past one of its two limits.
  pub insert_python3 :
      let c' : Cache = (insert none pickle key lifetime value c).1 in
      ((insert none pickle key lifetime value c).0
        ≡ (if over_limit c' then raised attribute_error else ok tt))
      × ((j : String)
          → Dict.lookup j c'.entries
            ≡ (if key == j then some (entry_of lifetime content c) else Dict.lookup j c.entries))
  unfolding release
  insert_python3 = rw insert_run (
    refl,
    λ j.
        rw
          (
            entries-store key lifetime (length content) content,
            Dict.lookup-insert key j,
            entries-remove key (held c),
            now-remove (some key) (held c),
            Dict.lookup-remove key j c.entries ready.sound.distinct,
          )
          (ground arith),
  )

  -- Without `sys.maxint`, an object that can be pickled is read back under its key after its
  -- insertion into a cache that is ready, whether the insertion returns or raises, and whatever
  -- the default.
  pub retrieve-insert :
      (default : Option A)
      → (retrieve pickle key default (insert none pickle key lifetime value c).1).0
        ≡ ok (some value)
  unfolding read
  retrieve-insert default =
      let after = (insert-IsReady none pickle key lifetime value).apply c ready in
      let c' : Cache = (insert none pickle key lifetime value c).1 in
      let found = insert_python3.1 key in
      rw (retrieve_lem pickle key default c' after.free)
        (rw (found, read) (rw (eq_refl key) (rw (pickle.loads-dumps value content dumped))))
