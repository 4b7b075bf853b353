-- ===== src/Cache/Contents.antt =====
-- What a round of `run` and an insertion do to the table of `OverviewCache`
-- (src/python/Core/Cache.py), key by key.
use dqmgui_prod.Base.{
  ℕ, ◌+◌, String, Bool, true, false, ◌||◌, ◌≡◌, refl, ◌∙◌, Option, none, some, List, [], ◌∷◌, pos,
  ltb, ltb_ℤ, arith, Option-cases, inl, inr, eq_iff, if◌then◌else◌, length, member,
}
use dqmgui_prod.Base.Dict
use dqmgui_prod.Cache
use dqmgui_prod.Cache.{Cache, Entry, store, check_limits}
use dqmgui_prod.Cache.Calls.{IsReady, delete_expired-IsSound, synchronized_lem}
use dqmgui_prod.Cache.Methods
use dqmgui_prod.Cache.Methods.{Pickle, release, keys_to_delete, delete_expired, sweep, read}
use dqmgui_prod.Cache.Sound.{IsSound}
use dqmgui_prod.Exec.{ok, gets, ◌>>=◌, for_each}

-- an entry whose expiry has not passed
abbrev pub live : ℕ → Option Entry → Option Entry
live now none = none
live now (some e) = if ltb e.expiry now then none else some e

abbrev expired : ℕ → Option Entry → Bool
expired now none = false
expired now (some e) = ltb e.expiry now

keys_to_delete_absent :
    (now : ℕ) (k : String) (d : List (String × Entry))
    → Dict.lookup k d ≡ none
    → member k (keys_to_delete now d) ≡ false
unfolding keys_to_delete member Dict.lookup
keys_to_delete_absent now k [] h = refl
keys_to_delete_absent now k ((j, e) ∷ d) h =
    ground (arith, eq_iff j k, keys_to_delete_absent now k d)

member-keys_to_delete :
    (now : ℕ) (k : String) (d : List (String × Entry))
    → Dict.Distinct d
    → member k (keys_to_delete now d) ≡ expired now (Dict.lookup k d)
unfolding keys_to_delete member Dict.lookup
member-keys_to_delete now k [] h = refl
member-keys_to_delete now k ((j, e) ∷ d) h =
    ground (arith, eq_iff j k, member-keys_to_delete now k d h.1, keys_to_delete_absent now k d)

module _ (j : String) (c : Cache) where
  -- what the body of the loop leaves
  entries-delete_expired : (delete_expired j c).1.entries ≡ Dict.remove j c.entries
  unfolding delete_expired ◌>>=◌ Cache.remove
  entries-delete_expired = elim (Option-cases (Dict.lookup j c.entries)) [
    | inl gone ↦ rw (gone, Cache.remove) (rw (Dict.remove_missing j c.entries gone))
    | inr (e, here) ↦ rw (here, Cache.remove)
  ]

  -- the body does not raise
  delete_expired_ok : (delete_expired j c).0 ≡ ok tt
  unfolding delete_expired ◌>>=◌ Cache.remove
  delete_expired_ok = ground arith

-- the loop deletes the keys of its list, and these alone
lookup-for_each :
    (keys : List String) (k : String) (c : Cache)
    → IsSound c
    → Dict.lookup k (for_each delete_expired keys c).1.entries
      ≡ (if member k keys then none else Dict.lookup k c.entries)
unfolding for_each member ◌>>=◌
lookup-for_each [] k c h = refl
lookup-for_each (j ∷ keys) k c h =
    let ih = lookup-for_each keys k (delete_expired j c).1 ((delete_expired-IsSound j).apply c h) in
    rw
      (
        delete_expired_ok j c,
        ih,
        entries-delete_expired j c,
        Dict.lookup-remove j k c.entries h.distinct,
      )
      (ground arith)

for_each_ok : (keys : List String) (c : Cache) → (for_each delete_expired keys c).0 ≡ ok tt
unfolding for_each ◌>>=◌
for_each_ok [] c = refl
for_each_ok (j ∷ keys) c = rw (delete_expired_ok j c) (for_each_ok keys (delete_expired j c).1)

-- A round of `run` on a cache that is ready and not told to stop keeps exactly the entries whose
-- expiry has not passed, and reports that the thread goes on.
pub lookup-sweep :
    (c : Cache) (k : String)
    → IsReady c
    → c.stopme ≡ false
    → (Dict.lookup k (sweep c).1.entries ≡ live c.now (Dict.lookup k c.entries))
      × ((sweep c).0 ≡ ok false)
unfolding sweep ◌>>=◌ release
lookup-sweep c k h going =
    let keys = keys_to_delete c.now c.entries in
    let d : Cache = record c { locked = true; stopme = false } in
    let swept =
      lookup-for_each keys k d
        (record { distinct = h.sound.distinct; counted = h.sound.counted }) in
    let decided = member-keys_to_delete c.now k c.entries h.sound.distinct in
    rw (synchronized_lem _ c h.free, going, for_each_ok keys d)
      (swept ∙ rw decided (ground arith), refl)

-- the table after `self.cache[key] = …`
pub entries-store :
    (key : String) (lifetime size : ℕ) (content : List ℕ) (c : Cache)
    → (store key lifetime size content c).entries
      ≡ Dict.insert key
          (record { expiry = lifetime + c.now; size = size; content = content })
          c.entries
unfolding store
entries-store key lifetime size content c = refl

-- what an object pickled to `content` is stored as
abbrev pub entry_of : ℕ → List ℕ → Cache → Entry
entry_of lifetime content c = record {
  expiry = lifetime + c.now;
  size = length content;
  content = content;
}

-- the table is past a limit
abbrev pub over_limit : Cache → Bool
over_limit c = ltb c.itemlimit (length c.entries) || ltb_ℤ (pos c.sizelimit) c.cachesize

-- what `retrieve` returns, with the lock gone
pub retrieve_lem :
    {A : Type 0} (pickle : Pickle A) (key : String) (default : Option A) (c : Cache)
    → c.locked ≡ false
    → (Methods.retrieve pickle key default c).0 ≡ ok (read pickle key default c)
unfolding Methods.retrieve read gets
retrieve_lem pickle key default c free = rw (synchronized_lem _ c free) (ground arith)
