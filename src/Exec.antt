-- ===== src/Exec.antt =====
-- Methods that mutate objects and may raise: what was written before a raise stays written.
pub mod Triple
pub mod Keeps
use dagster_cloud.Prelude.{String, List, [], ◌∷◌}

-- The exceptions: `raised` for one raised with a message, or by code outside the repository.
pub data Error : Type 0 where
  raised : String → Error
  key_error assertion_error check_error user_code_unreachable : Error

pub data Result {ℓ} (A : Type ℓ) : Type ℓ where
  ok : A → Result A
  err : Error → Result A

abbrev pub Exec {ℓ κ} : Type ℓ → Type κ → Type (ℓ ⊔ κ)
Exec S A = S → Result A × S

module _ {ℓ} {S A : Type ℓ} where
  unfoldable pub pure : A → Exec S A
  pure a s = (ok a, s)

  unfoldable pub raise : Error → Exec S A
  raise e s = (err e, s)

  unfoldable pub gets : (S → A) → Exec S A
  gets f s = (ok (f s), s)

  abbrev pub recover : Result A × S → (Error → Exec S A) → Result A × S
  recover (ok a, s) handler = (ok a, s)
  recover (err e, s) handler = handler e s

  -- try: m; except: handler
  unfoldable pub catch : Exec S A → (Error → Exec S A) → Exec S A
  catch m handler s = recover (m s) handler

module _ {ℓ} {S A B : Type ℓ} where
  abbrev pub continue : Result A × S → (A → Exec S B) → Result B × S
  continue (ok a, s) f = f a s
  continue (err e, s) f = (err e, s)

  infixl 10 ◌>>=◌ ◌>>◌
  -- opening this opens the other actions too
  unfoldable pub ◌>>=◌ : Exec S A → (A → Exec S B) → Exec S B
  unfolding pure raise gets catch
  ◌>>=◌ m f s = continue (m s) f

  abbrev pub ◌>>◌ : Exec S A → Exec S B → Exec S B
  m >> n = m >>= λ _. n

module _ {S : Type 0} where
  unfoldable pub modify : (S → S) → Exec S (Unit {0})
  modify f s = (ok tt, f s)

  -- for x in xs: body(x)
  unfoldable pub for_each : {A : Type 0} → List A → (A → Exec S (Unit {0})) → Exec S (Unit {0})
  unfolding pure
  for_each [] body = pure tt
  for_each (x ∷ xs) body = do body x; for_each xs body

module _ {S T A : Type 0} where
  abbrev pub put_back : Result A × T → (T → S) → Result A × S
  put_back (r, t) set = (r, set t)

  -- An action of a part of the state.
  unfoldable pub zoom : (S → T) → (T → S → S) → Exec T A → Exec S A
  zoom part set m s = put_back (m (part s)) (λ t. set t s)
