-- ===== src/Exec/Preserves.antt =====
-- A predicate that an action preserves whether it returns or raises: a rule for each way to build
-- an action, and the set of the rules for `search`.
use dqmgui_prod.Base.{◌≡◌, refl, Bool, true, false, List, [], ◌∷◌, if◌then◌else◌}
use dqmgui_prod.Exec.{
  Error, Result, ok, raised, Exec, pure, raise, lift, gets, try_finally, finally_do, except_any,
  modify, continue, ◌>>=◌, for_each, when,
}

pub record Preserves {ℓ κ} {S A : Type ℓ} (P : S → Type κ) (m : Exec S A) : Type (ℓ ⊔ κ) where
  pub apply : (s : S) → P s → P (m s).1

module _ {ℓ κ} {S A : Type ℓ} {P : S → Type κ} where
  pub Preserves-pure : (a : A) → Preserves P (pure a)
  unfolding pure
  Preserves-pure a = record { apply = λ s p. p }

  pub Preserves-raise : (e : Error) → Preserves P (raise {A = A} e)
  unfolding raise
  Preserves-raise e = record { apply = λ s p. p }

  pub Preserves-lift : (r : Result A) → Preserves P (lift r)
  unfolding lift
  Preserves-lift r = record { apply = λ s p. p }

  pub Preserves-gets : (f : S → A) → Preserves P (gets f)
  unfolding gets
  Preserves-gets f = record { apply = λ s p. p }

  pub Preserves-try_finally :
      (m : Exec S A) (last : S → S)
      → Preserves P m
      → ((s : S) → P s → P (last s))
      → Preserves P (try_finally m last)
  unfolding try_finally
  Preserves-try_finally m last pm pl = record { apply = λ s p. pl (m s).1 (pm.apply s p) }

  pub Preserves-finally_do :
      (m : Exec S A) (last : Exec S (Unit {ℓ}))
      → Preserves P m
      → Preserves P last
      → Preserves P (finally_do m last)
  unfolding finally_do
  Preserves-finally_do m last pm pl = record {
    apply = λ s p. last_state (m s).0 (last (m s).1) (pl.apply (m s).1 (pm.apply s p));
  }
    where
      last_state :
          (r : Result A) (w : Result (Unit {ℓ}) × S)
          → P w.1
          → P (elim w.0 as (λ _. Result A × S) [ ok _ ↦ (r, w.1) | raised e ↦ (raised e, w.1) ]).1
      last_state r (ok u, s) p = p
      last_state r (raised e, s) p = p

  pub Preserves-except_any : (m : Exec S A) (a : A) → Preserves P m → Preserves P (except_any m a)
  unfolding except_any
  Preserves-except_any m a pm = record { apply = λ s p. last_state (m s) (pm.apply s p) }
    where
      last_state :
          (w : Result A × S)
          → P w.1
          → P (elim w.0 as (λ _. Result A × S) [ ok b ↦ (ok b, w.1) | raised e ↦ (ok a, w.1) ]).1
      last_state (ok b, s) p = p
      last_state (raised e, s) p = p

  pub Preserves-if :
      (b : Bool) (m n : Exec S A)
      → (b ≡ true → Preserves P m)
      → (b ≡ false → Preserves P n)
      → Preserves P (if b then m else n)
  Preserves-if true m n pm pn = pm refl
  Preserves-if false m n pm pn = pn refl

module _ {ℓ κ} {S A B : Type ℓ} {P : S → Type κ} where
  continue_end :
      (r : Result A) (f : A → Exec S B) (s : S)
      → P s
      → ((a : A) → r ≡ ok a → Preserves P (f a))
      → P (continue r f s).1
  continue_end (ok a) f s p pf = (pf a refl).apply s p
  continue_end (raised e) f s p pf = p

  pub Preserves-bind :
      (m : Exec S A) (f : A → Exec S B)
      → Preserves P m
      → ((a : A) → Preserves P (f a))
      → Preserves P (m >>= f)
  unfolding ◌>>=◌
  Preserves-bind m f pm pf = record {
    apply = λ s p. continue_end (m s).0 f (m s).1 (pm.apply s p) (λ a _. pf a);
  }

  -- what follows may use that the test did not raise
  pub Preserves-bind_lift :
      (r : Result A) (f : A → Exec S B)
      → ((a : A) → r ≡ ok a → Preserves P (f a))
      → Preserves P (lift r >>= f)
  unfolding ◌>>=◌
  Preserves-bind_lift r f pf = record { apply = λ s p. continue_end r f s p pf }

module _ {κ} {S : Type 0} {P : S → Type κ} where
  pub Preserves-modify : (f : S → S) → ((s : S) → P s → P (f s)) → Preserves P (modify f)
  unfolding modify
  Preserves-modify f pf = record { apply = pf }

  pub Preserves-when :
      (b : Bool) (m : Exec S (Unit {0})) → (b ≡ true → Preserves P m) → Preserves P (when b m)
  unfolding when
  Preserves-when true m pm = record { apply = (pm refl).apply }
  Preserves-when false m pm = record { apply = λ s p. p }

module _ {κ} {A S : Type 0} {P : S → Type κ} where
  pub Preserves-for_each :
      (body : A → Exec S (Unit {0})) (xs : List A)
      → ((x : A) → Preserves P (body x))
      → Preserves P (for_each body xs)
  unfolding for_each
  Preserves-for_each body [] pb = record { apply = λ s p. p }
  Preserves-for_each body (x ∷ xs) pb = record {
    apply =
        (Preserves-bind (body x) (λ _. for_each body xs) (pb x)
          (λ _. Preserves-for_each body xs pb)).apply;
  }

pub ruleset preserves_rules = (
  Preserves-pure, Preserves-raise, Preserves-lift, Preserves-gets, Preserves-if, Preserves-when,
  Preserves-bind, Preserves-finally_do, Preserves-except_any,
)

-- An action that takes one predicate to another, also where it raises.
pub record Leads {ℓ κ} {S A : Type ℓ} (P Q : S → Type κ) (m : Exec S A) : Type (ℓ ⊔ κ) where
  pub apply : (s : S) → P s → Q (m s).1

module _ {ℓ κ} {S A B : Type ℓ} {P Q : S → Type κ} where
  -- the first part keeps `P`
  pub Leads-bind :
      (m : Exec S A) (f : A → Exec S B)
      → ((s : S) → P s → Q s)
      → Preserves P m
      → ((a : A) → Leads P Q (f a))
      → Leads P Q (m >>= f)
  unfolding ◌>>=◌
  Leads-bind m f weaken pm pf = record { apply = λ s p. by_result (m s).0 (m s).1 (pm.apply s p) }
    where
      by_result : (r : Result A) (t : S) → P t → Q (continue r f t).1
      by_result (ok a) t p = (pf a).apply t p
      by_result (raised e) t p = weaken t p

  -- the first part leads to `Q`, which what follows keeps
  pub Leads-then :
      (m : Exec S A) (f : A → Exec S B)
      → Leads P Q m
      → ((a : A) → Preserves Q (f a))
      → Leads P Q (m >>= f)
  unfolding ◌>>=◌
  Leads-then m f pm pf = record {
    apply = λ s p. continue_end (m s).0 f (m s).1 (pm.apply s p) (λ a _. pf a);
  }
