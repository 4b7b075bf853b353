-- ===== src/Cache/Methods.antt =====
-- The public methods of `OverviewCache` (src/python/Core/Cache.py), each under the lock:
-- `stop`, one round of `run`, `insert`, `remove`, `retrieve`, `exists`, `itemcount`, `keylist`,
-- `key_wait_get` and `key_wait_set`. Python's `pickle` is a parameter.
use dqmgui_prod.Base.{
  ℕ, String, Bool, true, false, ◌≡◌, Option, none, some, List, [], ◌∷◌, map, ℤ, ltb, length,
  or_else, if◌then◌else◌,
}
use dqmgui_prod.Base.Dict
use dqmgui_prod.Cache
use dqmgui_prod.Cache.{Cache, Entry}
use dqmgui_prod.Exec.{
  Exec, type_error, blocked, pure, raise, gets, modify, ◌>>=◌, ◌>>◌, try_finally, for_each,
}

-- `pickle.dumps` and `pickle.loads`, of which `none` is a `PickleError`. What was written is read
-- back.
pub record Pickle (A : Type 0) : Type 0 where
  pub dumps : A → Option (List ℕ)
  pub loads : List ℕ → Option A
  pub loads-dumps : (a : A) (b : List ℕ) → dumps a ≡ some b → loads b ≡ some a

-- `lock.acquire()`. The lock is not reentrant: a thread that holds it waits for ever.
unfoldable pub acquire : Exec Cache (Unit {0})
unfolding pure raise
acquire c = if c.locked then raise blocked c else pure tt (record c { locked = true })

unfoldable pub release : Cache → Cache
release c = record c { locked = false }

-- `self.lock.acquire(); try: m finally: self.lock.release()`
unfoldable pub synchronized : {A : Type 0} → Exec Cache A → Exec Cache A
unfolding acquire release try_finally ◌>>=◌
synchronized m = acquire >> try_finally m release

unfoldable pub stop : Exec Cache (Unit {0})
stop = synchronized (modify (λ (c : Cache). record c { stopme = true }))

-- the first loop of a round: the keys whose expiry has passed, in the order of the table
unfoldable pub keys_to_delete : ℕ → List (String × Entry) → List String
keys_to_delete now [] = []
keys_to_delete now ((key, e) ∷ d) =
    let rest = keys_to_delete now d in if ltb e.expiry now then key ∷ rest else rest

-- the body of the second loop: the entry goes, and with it the flag of its key
unfoldable pub delete_expired : String → Exec Cache (Unit {0})
delete_expired key = do
  Cache.remove (some key)
  modify (λ (c : Cache). record c { events = Dict.remove key c.events })

-- one round of `run`; `true` is its `return`
unfoldable pub sweep : Exec Cache Bool
sweep = synchronized (do
  stopme ← gets (λ (c : Cache). c.stopme)
  if stopme then pure true else do
    keys ← gets (λ (c : Cache). keys_to_delete c.now c.entries)
    for_each delete_expired keys
    pure false)

unfoldable pub remove : String → Exec Cache ℤ
remove key = synchronized (Cache.remove (some key))

unfoldable pub exists : String → Exec Cache Bool
exists key = synchronized (Cache.exists key)

unfoldable pub itemcount : Exec Cache ℕ
itemcount = synchronized (gets (λ (c : Cache). length c.entries))

unfoldable pub keylist : Exec Cache (List String)
keylist = synchronized (gets (λ (c : Cache). map (λ e. e.0) c.entries))

-- The method `cachesize()`: the constructor assigned a number to that name in the object, and a
-- number cannot be called.
unfoldable pub cachesize : Exec Cache ℤ
cachesize = raise type_error

unfoldable pub key_wait_get : String → Exec Cache Bool
key_wait_get key = synchronized (gets (λ (c : Cache). or_else (Dict.lookup key c.events) false))

unfoldable pub key_wait_set : String → Bool → Exec Cache (Unit {0})
key_wait_set key value =
    synchronized (modify (λ (c : Cache). record c { events = Dict.insert key value c.events }))

module _ (maxint : Option ℕ) {A : Type 0} (pickle : Pickle A) where
  -- a `PickleError` is logged, and nothing is stored
  unfoldable pub insert : String → ℕ → A → Exec Cache (Unit {0})
  insert key lifetime value = synchronized (elim (pickle.dumps value) [
    | none ↦ pure tt
    | some content ↦ Cache.insert maxint key lifetime (length content) content
  ])

module _ {A : Type 0} (pickle : Pickle A) where
  -- what `retrieve` reads in the table: the default also where the content cannot be loaded
  unfoldable pub read : String → Option A → Cache → Option A
  read key default c = elim (Dict.lookup key c.entries) [
    | none ↦ default
    | some e ↦ elim (pickle.loads e.content) [ none ↦ default | some a ↦ some a ]
  ]

  -- `none` is Python's `None`
  unfoldable pub retrieve : String → Option A → Exec Cache (Option A)
  unfolding read
  retrieve key default = synchronized (gets (read key default))
