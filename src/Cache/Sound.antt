-- ===== src/Cache/Sound.antt =====
-- The accounting invariant of `OverviewCache`: no key twice, and `cachesize` is the sum of the
-- sizes of the entries. Every method keeps it, also where it raises.
use dqmgui_prod.Base.{
  ℕ, zero, suc, ◌+◌, String, Bool, true, false, ◌≡◌, ap, Option, none, some, List, [], ◌∷◌, ◌++◌,
  pos, ltb_ℤ, ltb, pos-+ℤ, pos-sub, Option-cases, inl, inr, arith, length,
}
use dqmgui_prod.Base.Dict
use dqmgui_prod.Cache.{
  Entry, Cache, exists, remove, get_oldest, cull_size, cull_number, store, check_limits, insert,
}
use dqmgui_prod.Exec.{Exec, Result, pure, ◌>>=◌, when}
use dqmgui_prod.Exec.Preserves.{Preserves, Preserves-pure, Preserves-bind, preserves_rules}

-- the sum of the sizes in a table
unfoldable pub total : List (String × Entry) → ℕ
total [] = 0
total ((key, e) ∷ d) = e.size + total d

pub record IsSound (c : Cache) : Type 0 where
  pub distinct : Dict.Distinct c.entries
  pub counted : c.cachesize ≡ pos (total c.entries)

pub total-append : (d d' : List (String × Entry)) → total (d ++ d') ≡ total d + total d'
unfolding total
total-append [] d' = omega arith
total-append ((key, e) ∷ d) d' = omega (arith, total-append d d')

pub total-remove :
    (key : String) (e : Entry) (d : List (String × Entry))
    → Dict.lookup key d ≡ some e
    → total (Dict.remove key d) + e.size ≡ total d
unfolding total Dict.lookup Dict.remove
total-remove key e [] h = absurd (ground arith)
total-remove key e ((j, f) ∷ d) h = ground (arith, total-remove key e d)

pub remove-IsSound : (key : Option String) → Preserves IsSound (remove key)
unfolding remove
remove-IsSound none = record { apply = λ c h. h }
remove-IsSound (some key) = record {
  apply = λ c h. elim (Option-cases (Dict.lookup key c.entries)) [
    | inl gone ↦ rw (gone, remove) h
    | inr (e, here) ↦
        let t = total-remove key e c.entries here in
        rw (here, remove)
          (record {
            distinct = Dict.remove-Distinct key c.entries h.distinct;
            counted =
                rw (h.counted, pos-sub (total c.entries) e.size (omega (arith, t)))
                  (ap pos (omega (arith, t)));
          })
  ];
}

get_oldest-IsSound : (maxint : Option ℕ) → Preserves IsSound (get_oldest maxint)
unfolding get_oldest
get_oldest-IsSound none = record { apply = λ c h. h }
get_oldest-IsSound (some t) = record { apply = λ c h. h }

evict-IsSound :
    {m : Exec Cache (Unit {0})} (maxint : Option ℕ)
    → Preserves IsSound m
    → Preserves IsSound (get_oldest maxint >>= λ key. remove key >>= λ _. m)
evict-IsSound maxint pm =
    Preserves-bind _ _ (get_oldest-IsSound maxint)
      λ key. Preserves-bind _ _ (remove-IsSound key) (λ _. pm)

branch-IsSound :
    (b : Bool) (m n : Exec Cache (Unit {0})) (c : Cache)
    → Preserves IsSound m
    → Preserves IsSound n
    → IsSound c
    → IsSound (elim b as (λ _. Result (Unit {0}) × Cache) [ true ↦ m c | false ↦ n c ]).1
branch-IsSound true m n c pm pn h = pm.apply c h
branch-IsSound false m n c pm pn h = pn.apply c h

pub cull_size-IsSound : (maxint : Option ℕ) (fuel : ℕ) → Preserves IsSound (cull_size maxint fuel)
unfolding cull_size
cull_size-IsSound maxint zero = record { apply = λ c h. h }
cull_size-IsSound maxint (suc fuel) = record {
  apply = λ c.
      branch-IsSound (ltb_ℤ (pos c.sizelimit) c.cachesize) _ (pure tt) c
        (evict-IsSound maxint (cull_size-IsSound maxint fuel)) (Preserves-pure tt);
}

pub cull_number-IsSound :
    (maxint : Option ℕ) (fuel : ℕ) → Preserves IsSound (cull_number maxint fuel)
unfolding cull_number
cull_number-IsSound maxint zero = record { apply = λ c h. h }
cull_number-IsSound maxint (suc fuel) = record {
  apply = λ c.
      branch-IsSound (ltb c.itemlimit (length c.entries)) _ (pure tt) c
        (evict-IsSound maxint (cull_number-IsSound maxint fuel)) (Preserves-pure tt);
}

-- what `_insert` does, with the test on the key gone: `_remove` of a key that is not there does
-- nothing
pub insert-check_limits :
    (maxint : Option ℕ) (key : String) (lifetime size : ℕ) (content : List ℕ) (c : Cache)
    → insert maxint key lifetime size content c
      ≡ check_limits maxint (store key lifetime size content (remove (some key) c).1)
unfolding insert exists remove when ◌>>=◌
insert-check_limits maxint key lifetime size content c =
    elim (Option-cases (Dict.lookup key c.entries)) [
      | inl gone ↦ rw (gone, remove)
      | inr (e, here) ↦ rw (here, here, remove)
    ]

pub entries-remove :
    (key : String) (c : Cache) → (remove (some key) c).1.entries ≡ Dict.remove key c.entries
unfolding remove
entries-remove key c = elim (Option-cases (Dict.lookup key c.entries)) [
  | inl gone ↦ rw (gone, remove) (rw (Dict.remove_missing key c.entries gone))
  | inr (e, here) ↦ rw (here, remove)
]

store-IsSound :
    (key : String) (lifetime size : ℕ) (content : List ℕ) (c : Cache)
    → Dict.lookup key c.entries ≡ none
    → IsSound c
    → IsSound (store key lifetime size content c)
unfolding store total
store-IsSound key lifetime size content c gone h =
    let e : Entry = record { expiry = lifetime + c.now; size = size; content = content } in
    record {
      distinct = Dict.insert-Distinct key e c.entries h.distinct;
      counted =
          rw (h.counted, pos-+ℤ, Dict.insert_missing key e c.entries gone, total-append)
            (ap pos (omega arith));
    }

check_limits-IsSound : (maxint : Option ℕ) → Preserves IsSound (check_limits maxint)
unfolding check_limits
check_limits-IsSound maxint = search (preserves_rules, cull_size-IsSound) depth 14

pub insert-IsSound :
    (maxint : Option ℕ) (key : String) (lifetime size : ℕ) (content : List ℕ)
    → Preserves IsSound (insert maxint key lifetime size content)
insert-IsSound maxint key lifetime size content = record {
  apply = λ c h.
      let h' = (remove-IsSound (some key)).apply c h in
      rw insert-check_limits (
        (check_limits-IsSound maxint).apply _ (
          store-IsSound key lifetime size content _
            (rw entries-remove (Dict.lookup-remove_self key c.entries h.distinct)) h'));
}
