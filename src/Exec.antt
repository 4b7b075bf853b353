-- ===== src/Exec.antt =====
-- Python's methods that mutate an object and may raise. What was written before a raise stays
-- written, so the object comes back beside the exception too.
pub mod Preserves
pub mod Outcomes
use dqmgui_prod.Base.{ℕ, String, Bool, true, false, Option, none, some, List, [], ◌∷◌}

pub data Error : Type 0 where
  -- `cherrypy.HTTPError(status, message)`
  http : ℕ → String → Error
  -- `cherrypy.HTTPRedirect(url)`
  http_redirect : String → Error
  key_error attribute_error type_error value_error index_error unbound_local_error : Error
  assertion_error runtime_error os_error : Error
  -- no exception: the thread waits for a lock that it holds itself
  blocked : Error
  -- no exception: a loop used up its fuel
  diverged : Error

pub data Result {ℓ} (A : Type ℓ) : Type ℓ where
  ok : A → Result A
  raised : Error → Result A

abbrev pub Exec {ℓ} : Type ℓ → Type ℓ → Type ℓ
Exec S A = S → Result A × S

module _ {ℓ} {S A : Type ℓ} where
  unfoldable pub pure : A → Exec S A
  pure a s = (ok a, s)

  unfoldable pub raise : Error → Exec S A
  raise e s = (raised e, s)

  unfoldable pub lift : Result A → Exec S A
  lift r s = (r, s)

  unfoldable pub gets : (S → A) → Exec S A
  gets f s = (ok (f s), s)

  -- the two ends of a `try … finally`: the last action runs whatever the body did
  unfoldable pub try_finally : Exec S A → (S → S) → Exec S A
  try_finally m last s = let (r, s') = m s in (r, last s')

  -- the same with a last action that may raise in its turn
  unfoldable pub finally_do : Exec S A → Exec S (Unit {ℓ}) → Exec S A
  finally_do m last s =
      let (r, s') = m s in
      let (q, s'') = last s' in elim q [ ok _ ↦ (r, s'') | raised e ↦ (raised e, s'') ]

  -- `try: … except:`, which goes on from the state that the body left
  unfoldable pub except_any : Exec S A → A → Exec S A
  except_any m a s = let (r, s') = m s in elim r [ ok b ↦ (ok b, s') | raised e ↦ (ok a, s') ]

unfoldable pub modify : {S : Type 0} → (S → S) → Exec S (Unit {0})
modify f s = (ok tt, f s)

module _ {ℓ} {S A B : Type ℓ} where
  abbrev pub continue : Result A → (A → Exec S B) → Exec S B
  continue (ok a) f s = f a s
  continue (raised e) f s = (raised e, s)

  infixl 10 ◌>>=◌ ◌>>◌
  unfoldable pub ◌>>=◌ : Exec S A → (A → Exec S B) → Exec S B
  unfolding pure raise lift gets modify
  ◌>>=◌ m f s = let (r, s') = m s in continue r f s'

  abbrev pub ◌>>◌ : Exec S A → Exec S B → Exec S B
  m >> n = m >>= λ _. n

-- `for x in xs: body(x)`
module _ {A : Type 0} {S : Type 0} where
  unfoldable pub for_each : (A → Exec S (Unit {0})) → List A → Exec S (Unit {0})
  for_each body [] s = (ok tt, s)
  for_each body (x ∷ xs) s = (body x >> for_each body xs) s

-- a statement under `if` with no `else`
unfoldable pub when : {S : Type 0} → Bool → Exec S (Unit {0}) → Exec S (Unit {0})
when true m s = m s
when false m s = (ok tt, s)
