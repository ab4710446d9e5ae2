-- ===== src/Exec/Triple.antt =====
-- Triples: from a state with `P`, an action returns with `Q` or raises with `E`.
use dagster_cloud.Prelude.{subst, ◌≡◌, refl, Bool, true, false, List, [], ◌∷◌, if◌then◌else◌}
use dagster_cloud.Exec.Keeps.{Keeps}
use dagster_cloud.Exec.{
  Error, Result, ok, err, Exec, pure, raise, gets, modify, catch, recover, continue, ◌>>=◌,
  for_each,
}

abbrev pub Post {ℓ κ} :
    {S A : Type ℓ} → (A → S → Type κ) → (Error → S → Type κ) → Result A × S → Type κ
Post Q E (ok a, s) = Q a s
Post Q E (err e, s) = E e s

pub record Triple {ℓ κ} {S A : Type ℓ} (P : S → Type κ) (m : Exec S A) (Q : A → S → Type κ)
    (E : Error → S → Type κ) : Type (ℓ ⊔ κ) where
  pub at : (s : S) → P s → Post Q E (m s)

-- What a triple says of an action that returned, and of one that raised.
pub Post-ok {ℓ κ} :
    {S A : Type ℓ} (Q : A → S → Type κ) (E : Error → S → Type κ) {r : Result A × S} {a : A} {s : S}
    → r ≡ (ok a, s)
    → Post Q E r
    → Q a s
Post-ok Q E e p = subst (Post Q E) e p

conseq_lem {ℓ κ} :
    {S A : Type ℓ} (Q Q' : A → S → Type κ) (E E' : Error → S → Type κ) (r : Result A × S)
    → ((a : A) (s : S) → Q' a s → Q a s)
    → ((e : Error) (s : S) → E' e s → E e s)
    → Post Q' E' r
    → Post Q E r
conseq_lem Q Q' E E' (ok a, s) h k p = h a s p
conseq_lem Q Q' E E' (err e, s) h k p = k e s p

module _ {ℓ κ} {S A : Type ℓ} {Q : A → S → Type κ} {E : Error → S → Type κ} where
  -- What holds of the values alone is at hand for the action.
  pub Triple-assume :
      {P : S → Type κ} {F : Type κ} {m : Exec S A}
      → (F → Triple P m Q E)
      → Triple (λ s. P s × F) m Q E
  Triple-assume h = record { at = λ s pf. (h pf.1).at s pf.0 }

  pub Triple-from :
      {P P' : S → Type κ} {m : Exec S A} → ((s : S) → P s → P' s) → Triple P' m Q E → Triple P m Q E
  Triple-from h t = record { at = λ s p. t.at s (h s p) }

  pub Triple-conseq :
      {P : S → Type κ} {Q' : A → S → Type κ} {E' : Error → S → Type κ} {m : Exec S A}
      → Triple P m Q' E'
      → ((a : A) (s : S) → Q' a s → Q a s)
      → ((e : Error) (s : S) → E' e s → E e s)
      → Triple P m Q E
  Triple-conseq {m} t h k = record { at = λ s p. conseq_lem _ _ _ _ (m s) h k (t.at s p) }

  recover_lem :
      {R : Error → S → Type κ} (r : Result A × S) (h : Error → Exec S A)
      → ((e : Error) → Triple (R e) (h e) Q E)
      → Post Q R r
      → Post Q E (recover r h)
  recover_lem (ok a, s) h th p = p
  recover_lem (err e, s) h th p = (th e).at s p

module _ {ℓ κ} {S A : Type ℓ} {P : S → Type κ} {Q : A → S → Type κ} {E : Error → S → Type κ} where
  pub Triple-pure : (a : A) → ((s : S) → P s → Q a s) → Triple P (pure a) Q E
  unfolding pure
  Triple-pure a h = record { at = h }

  pub Triple-raise : (e : Error) → ((s : S) → P s → E e s) → Triple P (raise e) Q E
  unfolding raise
  Triple-raise e h = record { at = h }

  pub Triple-if :
      (b : Bool) (m n : Exec S A)
      → (b ≡ true → Triple P m Q E)
      → (b ≡ false → Triple P n Q E)
      → Triple P (if b then m else n) Q E
  Triple-if true m n tm tn = tm refl
  Triple-if false m n tm tn = tn refl

  pub Triple-gets : (f : S → A) → ((s : S) → P s → Q (f s) s) → Triple P (gets f) Q E
  unfolding gets
  Triple-gets f h = record { at = h }

  pub Triple-catch :
      {R : Error → S → Type κ} (m : Exec S A) (h : Error → Exec S A)
      → Triple P m Q R
      → ((e : Error) → Triple (R e) (h e) Q E)
      → Triple P (catch m h) Q E
  unfolding catch
  Triple-catch m h tm th = record { at = λ s p. recover_lem (m s) h th (tm.at s p) }

module _ {ℓ κ} {S A B : Type ℓ} {Q : B → S → Type κ} {E : Error → S → Type κ} where
  continue_lem :
      {R : A → S → Type κ} (r : Result A × S) (f : A → Exec S B)
      → ((a : A) → Triple (R a) (f a) Q E)
      → Post R E r
      → Post Q E (continue r f)
  continue_lem (ok a, s) f tf p = (tf a).at s p
  continue_lem (err e, s) f tf p = p

module _ {ℓ κ} {S A B : Type ℓ} {P : S → Type κ} {Q : B → S → Type κ} {E : Error → S → Type κ} where
  pub Triple-bind :
      {R : A → S → Type κ} (m : Exec S A) (f : A → Exec S B)
      → Triple P m R E
      → ((a : A) → Triple (R a) (f a) Q E)
      → Triple P (m >>= f) Q E
  unfolding ◌>>=◌
  Triple-bind m f tm tf = record { at = λ s p. continue_lem (m s) f tf (tm.at s p) }

keeps_lem {ℓ κ} :
    {S A : Type ℓ} (P : S → Type κ) (r : Result A × S) → P r.1 → Post (λ _. P) (λ _. P) r
keeps_lem P (ok a, s) h = h
keeps_lem P (err e, s) h = h

module _ {ℓ κ} {S A : Type ℓ} {P : S → Type κ} where
  pub Triple-Keeps : {m : Exec S A} → Keeps P m → Triple P m (λ _. P) (λ _. P)
  Triple-Keeps {m} k = record { at = λ s h. keeps_lem _ (m s) (k.at s h) }

module _ {κ} {S : Type 0} {E : Error → S → Type κ} where
  pub Triple-modify :
      {P : S → Type κ} {Q : Unit {0} → S → Type κ} (f : S → S)
      → ((s : S) → P s → Q tt (f s))
      → Triple P (modify f) Q E
  unfolding modify
  Triple-modify f h = record { at = h }

  -- The loop invariant speaks of the members that are still to come.
  pub Triple-for_each :
      {A : Type 0} (I : List A → S → Type κ) (body : A → Exec S (Unit {0}))
      → ((x : A) (rest : List A) → Triple (I (x ∷ rest)) (body x) (λ _. I rest) E)
      → (xs : List A) → Triple (I xs) (for_each xs body) (λ _. I []) E
  unfolding for_each
  Triple-for_each I body step [] = Triple-pure tt (λ s h. h)
  Triple-for_each I body step (x ∷ xs) =
      Triple-bind (body x) (λ _. for_each xs body) (step x xs) (λ _. Triple-for_each I body step xs)
