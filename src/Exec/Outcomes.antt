-- ===== src/Exec/Outcomes.antt =====
-- What the outcome of an action says: an action that agrees with another one where it returns, and the
-- exceptions that an action can raise. Each has a rule for each way to build an action.
use dqmgui_prod.Base.{◌≡◌, refl, sym, ap, ◌∙◌, Bool, true, false, if◌then◌else◌}
use mathlib.Core.Path.{subst}
use dqmgui_prod.Exec.{
  Error, Result, ok, raised, Exec, pure, raise, gets, modify, continue, ◌>>=◌, when,
}

-- where the first action returns, the second one returns the same and leaves the same state
pub record Agrees {ℓ} {S A : Type ℓ} (m m' : Exec S A) : Type ℓ where
  pub apply : (s t : S) (a : A) → m s ≡ (ok a, t) → m' s ≡ (ok a, t)

-- the exceptions that an action raises
pub record Raises {ℓ κ} {S A : Type ℓ} (P : Error → Type κ) (m : Exec S A) : Type (ℓ ⊔ κ) where
  pub apply : (s : S) (e : Error) → (m s).0 ≡ raised e → P e

pub ok-≢-raised {ℓ} : {A : Type ℓ} {a : A} {e : Error} → ok a ≡ raised e → ⊥
ok-≢-raised h = cc

error_or {ℓ} : {A : Type ℓ} → Error → Result A → Error
error_or e (ok a) = e
error_or e (raised x) = x

reraise {ℓ} : {A B : Type ℓ} → Error → Result B → Result A
reraise e (ok b) = raised e
reraise e (raised x) = raised x

module _ {ℓ} {S A : Type ℓ} where
  pub Agrees-same : (m : Exec S A) → Agrees m m
  Agrees-same m = record { apply = λ s t a h. h }

  pub Agrees-if :
      (b : Bool) (m m' n n' : Exec S A)
      → Agrees m m'
      → Agrees n n'
      → Agrees (if b then m else n) (if b then m' else n')
  Agrees-if true m m' n n' hm hn = hm
  Agrees-if false m m' n n' hm hn = hn

module _ {ℓ} {S A B : Type ℓ} where
  pub Agrees-bind :
      (m m' : Exec S A) (f f' : A → Exec S B)
      → Agrees m m'
      → ((a : A) → Agrees (f a) (f' a))
      → Agrees (m >>= f) (m' >>= f')
  unfolding ◌>>=◌
  Agrees-bind m m' f f' hm hf = record { apply = λ s t b h. go s t b (m s) refl h }
    where
      go :
          (s t : S) (b : B) (w : Result A × S)
          → m s ≡ w
          → continue w.0 f w.1 ≡ (ok b, t)
          → continue (m' s).0 f' (m' s).1 ≡ (ok b, t)
      go s t b (ok a, u) e h =
          ap (λ w. continue w.0 f' w.1) (hm.apply s u a e) ∙ (hf a).apply u t b h
      go s t b (raised x, u) e h = absurd (ok-≢-raised (sym (ap (λ w. w.0) h)))

module _ {ℓ κ} {S A : Type ℓ} {P : Error → Type κ} where
  pub Raises-pure : (a : A) → Raises P (pure {S = S} a)
  unfolding pure
  Raises-pure a = record { apply = λ s e h. absurd (ok-≢-raised h) }

  pub Raises-gets : (f : S → A) → Raises P (gets f)
  unfolding gets
  Raises-gets f = record { apply = λ s e h. absurd (ok-≢-raised h) }

  pub Raises-raise : (e : Error) → P e → Raises P (raise {S = S} {A = A} e)
  unfolding raise error_or
  Raises-raise e p = record { apply = λ s e' h. subst P (ap (error_or e) h) p }

  pub Raises-if :
      (b : Bool) (m n : Exec S A) → Raises P m → Raises P n → Raises P (if b then m else n)
  Raises-if true m n hm hn = hm
  Raises-if false m n hm hn = hn

pub Agrees-when :
    {S : Type 0} (b : Bool) (m m' : Exec S (Unit {0})) → Agrees m m' → Agrees (when b m) (when b m')
unfolding when
Agrees-when true m m' h = record { apply = h.apply }
Agrees-when false m m' h = record { apply = λ s t a h. h }

module _ {κ} {S : Type 0} {P : Error → Type κ} where
  pub Raises-modify : (f : S → S) → Raises P (modify f)
  unfolding modify
  Raises-modify f = record { apply = λ s e h. absurd (ok-≢-raised h) }

  pub Raises-when : (b : Bool) (m : Exec S (Unit {0})) → Raises P m → Raises P (when b m)
  unfolding when
  Raises-when true m h = record { apply = h.apply }
  Raises-when false m h = record { apply = λ s e k. absurd (ok-≢-raised k) }

module _ {ℓ κ} {S A B : Type ℓ} {P : Error → Type κ} where
  pub Raises-bind :
      (m : Exec S A) (f : A → Exec S B)
      → Raises P m
      → ((a : A) → Raises P (f a))
      → Raises P (m >>= f)
  unfolding ◌>>=◌ reraise
  Raises-bind m f hm hf = record { apply = λ s e h. go s e (m s) refl h }
    where
      go :
          (s : S) (e : Error) (w : Result A × S) → m s ≡ w → (continue w.0 f w.1).0 ≡ raised e → P e
      go s e (ok a, u) same h = (hf a).apply u e h
      go s e (raised x, u) same h = hm.apply s e (ap (λ w. w.0) same ∙ ap (λ r. reraise x r) h)
