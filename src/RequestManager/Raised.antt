-- ===== src/RequestManager/Raised.antt =====
-- A callback of `RequestManager` (src/python/Core/HTTP.py) that raises.
use dqmgui_prod.Base.{ℕ, suc, ◌+◌, ◌-◌, ◌≡◌, refl, true, String, List, ◌∷◌, length, arith, lt→ltb}
use dqmgui_prod.Exec.{raised, Error, gets, modify, ◌>>=◌}
use dqmgui_prod.RequestManager.{
  Client, Manager, drop_handle, take_out, set_free, called, finish, fail,
}
use dqmgui_prod.RequestManager.Sound.{
  has, handles, IsSound, task_of-handles, put_all-Queued, sum-delete,
}

module _ {T : Type 0} (k : Client T) (e : Error) where
  finish_raises :
      (n c : ℕ) (m : Manager T)
      → IsSound n m
      → has c (handles m.multi) ≡ true
      → ((before : List T) (t : T) → (k.request_respond before t).1 ≡ raised e)
      → ((finish k c m).0 ≡ raised e)
        × (suc (length (finish k c m).1.free + length (finish k c m).1.multi) ≡ n)
        × ((finish k c m).1.npending ≡ suc (length (finish k c m).1.multi))
  unfolding finish take_out called ◌>>=◌ gets modify
  finish_raises n c m h here raises =
      let (t, found, left, less, kept) = task_of-handles c m.multi here in
      let new = (k.request_respond m.answered t).0 in
      let taken : Manager T = record m {
        multi = drop_handle c m.multi;
        answered = t ∷ m.answered;
      } in
      let q = put_all-Queued new taken in
      rw (lt→ltb 0 m.npending (omega (arith, h.count, less)), found, raises m.answered t)
        (
          refl,
          rw (q.free, q.multi) (omega (arith, less, h.total)),
          rw (q.npending, q.multi) (omega (arith, less, h.count)),
        )

  fail_raises :
      (n c errno : ℕ) (errmsg : String) (m : Manager T)
      → IsSound n m
      → has c (handles m.multi) ≡ true
      → ((before : List T) (t : T) (errno : ℕ) (errmsg : String)
          → (k.request_error before t errno errmsg).1 ≡ raised e)
      → ((fail k (c, errno, errmsg) m).0 ≡ raised e) × IsSound n (fail k (c, errno, errmsg) m).1
  unfolding fail take_out called set_free ◌>>=◌ gets modify
  fail_raises n c errno errmsg m h here raises =
      let (t, found, left, less, kept) = task_of-handles c m.multi here in
      let new = (k.request_error m.answered t errno errmsg).0 in
      let taken : Manager T = record m {
        multi = drop_handle c m.multi;
        answered = t ∷ m.answered;
        free = c ∷ m.free;
        npending = m.npending - 1;
      } in
      let q = put_all-Queued new taken in
      rw
        (
          lt→ltb 0 m.npending (omega (arith, h.count, less)),
          found,
          raises m.answered t errno errmsg,
        )
        (
          refl,
          record {
            count = rw (q.npending, q.multi) (omega (arith, less, h.count));
            total = rw (q.free, q.multi) (omega (arith, less, h.total));
            apart = λ f.
                rw (q.free, q.multi, left)
                  (omega (arith, sum-delete f c (handles m.multi) here, h.apart f));
            account = λ f.
                rw (q.multi, q.answered) (omega (arith, q.given f, q.queue f, kept f, h.account f));
          },
        )

  -- Where `request_respond` raises for a connection in use, the exception goes on, and the
  -- connection is lost: there is one less that is free or in use, and `npending` counts one too
  -- many. Where `request_error` raises, the exception goes on and the accounting is right.
  pub raising_callbacks :
      (n c errno : ℕ) (errmsg : String) (m : Manager T)
      → IsSound n m
      → has c (handles m.multi) ≡ true
      → ((before : List T) (t : T) → (k.request_respond before t).1 ≡ raised e)
      → ((before : List T) (t : T) (errno : ℕ) (errmsg : String)
          → (k.request_error before t errno errmsg).1 ≡ raised e)
      → (((finish k c m).0 ≡ raised e)
          × (suc (length (finish k c m).1.free + length (finish k c m).1.multi) ≡ n)
          × ((finish k c m).1.npending ≡ suc (length (finish k c m).1.multi)))
        × ((fail k (c, errno, errmsg) m).0 ≡ raised e)
        × IsSound n (fail k (c, errno, errmsg) m).1
  raising_callbacks n c errno errmsg m h here respond_raises error_raises =
      let (raised_error, sound) = fail_raises n c errno errmsg m h here error_raises in
      (finish_raises n c m h here respond_raises, raised_error, sound)
