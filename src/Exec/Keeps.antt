-- ===== src/Exec/Keeps.antt =====
-- Invariants of actions, whether they return or raise: a rule for each way to build an action.
use dagster_cloud.Prelude.{Bool, true, false, List, [], ◌∷◌, if◌then◌else◌}
use dagster_cloud.Exec.{
  Error, Result, ok, err, Exec, pure, raise, gets, catch, recover, continue, ◌>>=◌, for_each,
}

pub record Keeps {ℓ κ} {S A : Type ℓ} (P : S → Type κ) (m : Exec S A) : Type (ℓ ⊔ κ) where
  pub at : (s : S) → P s → P (m s).1

module _ {ℓ κ} {S A : Type ℓ} {P : S → Type κ} where
  pub Keeps-if :
      (test : Bool) (first second : Exec S A)
      → Keeps P first
      → Keeps P second
      → Keeps P (if test then first else second)
  Keeps-if true first second keeps other = keeps
  Keeps-if false first second keeps other = other

  pub Keeps-pure : (a : A) → Keeps P (pure a)
  unfolding pure
  Keeps-pure a = record { at = λ s h. h }

  pub Keeps-raise : (e : Error) → Keeps P (raise {A = A} e)
  unfolding raise
  Keeps-raise e = record { at = λ s h. h }

  pub Keeps-gets : (view : S → A) → Keeps P (gets view)
  unfolding gets
  Keeps-gets view = record { at = λ _ still. still }

  recover_lem :
      (r : Result A × S) (h : Error → Exec S A)
      → ((e : Error) → Keeps P (h e))
      → P r.1
      → P (recover r h).1
  recover_lem (ok a, s) h kh p = p
  recover_lem (err e, s) h kh p = (kh e).at s p

  pub Keeps-catch :
      (m : Exec S A) (h : Error → Exec S A)
      → Keeps P m
      → ((e : Error) → Keeps P (h e))
      → Keeps P (catch m h)
  unfolding catch
  Keeps-catch m h km kh = record { at = λ s p. recover_lem (m s) h kh (km.at s p) }

module _ {ℓ κ} {S A B : Type ℓ} {P : S → Type κ} where
  continue_lem :
      (r : Result A × S) (f : A → Exec S B) → ((a : A) → Keeps P (f a)) → P r.1 → P (continue r f).1
  continue_lem (ok a, s) f kf p = (kf a).at s p
  continue_lem (err e, s) f kf p = p

  pub Keeps-bind :
      (first : Exec S A) (next : A → Exec S B)
      → Keeps P first
      → ((x : A) → Keeps P (next x))
      → Keeps P (first >>= next)
  unfolding ◌>>=◌
  Keeps-bind first next k l = record { at = λ s p. continue_lem (first s) next l (k.at s p) }

module _ {κ} {S : Type 0} {P : S → Type κ} where
  pub Keeps-for_each :
      {A : Type 0} (xs : List A) (body : A → Exec S (Unit {0}))
      → ((x : A) → Keeps P (body x))
      → Keeps P (for_each xs body)
  unfolding for_each
  Keeps-for_each [] body k = Keeps-pure tt
  Keeps-for_each (x ∷ xs) body k =
      Keeps-bind (body x) (λ _. for_each xs body) (k x) (λ _. Keeps-for_each xs body k)

pub ruleset keeps_rules =
    (Keeps-pure, Keeps-raise, Keeps-gets, Keeps-if, Keeps-catch, Keeps-bind, Keeps-for_each)
