-- ===== src/Prelude/Lists.antt =====
-- Lists measured by native numbers, and lists as Python's sets: membership is a Boolean test.
use Prim.Native.Nat.{ℕ, suc, ◌+◌, ◌≤◌}
use mathlib.Core.Path.{◌≡◌, refl}
use mathlib.Core.Bool.{Bool, false, not, ◌&&◌, ◌||◌}
use mathlib.Core.List.{List, [], ◌∷◌, ◌++◌}
use native.Mathlib.Omega.{arith}
use dagster_cloud.Prelude.Tests.{Eq, ◌==◌, if◌then◌else◌}

module _ {ℓ} {A : Type ℓ} where
  abbrev pub length : List A → ℕ
  length [] = 0
  length (x ∷ xs) = suc (length xs)

  pub length-append : (xs ys : List A) → length (xs ++ ys) ≡ length xs + length ys
  length-append [] ys = omega arith
  length-append (x ∷ xs) ys = omega (arith, length-append xs ys)

  -- [x for x in xs if p(x)]
  unfoldable pub keep : (A → Bool) → List A → List A
  keep p [] = []
  keep p (x ∷ xs) = let rest = keep p xs in if p x then x ∷ rest else rest

  pub length-keep-le : (p : A → Bool) (xs : List A) → length (keep p xs) ≤ length xs
  unfolding keep
  length-keep-le p [] = omega arith
  length-keep-le p (x ∷ xs) = ground (arith, length-keep-le p xs)

module _ {ℓ} {A : Type ℓ} ⦃e : Eq A⦄ where
  unfoldable pub contains : A → List A → Bool
  contains a [] = false
  contains a (x ∷ xs) = x == a || contains a xs

  -- A set has each of its members once.
  abbrev pub IsDistinct : List A → Type 0
  IsDistinct [] = Unit
  IsDistinct (x ∷ xs) = (contains x xs ≡ false) × IsDistinct xs

  pub contains-keep :
      (a : A) (p : A → Bool) (xs : List A) → contains a (keep p xs) ≡ (p a && contains a xs)
  unfolding contains keep
  contains-keep a p [] = ground arith
  contains-keep a p (x ∷ xs) = ground (arith, contains-keep a p xs, e.beq_iff x a)

  pub contains-append :
      (a : A) (xs ys : List A) → contains a (xs ++ ys) ≡ (contains a xs || contains a ys)
  unfolding contains
  contains-append a [] ys = refl
  contains-append a (x ∷ xs) ys = ground (arith, contains-append a xs ys)

  pub keep-IsDistinct : (p : A → Bool) (xs : List A) → IsDistinct xs → IsDistinct (keep p xs)
  unfolding keep
  keep-IsDistinct p [] h = tt
  keep-IsDistinct p (x ∷ xs) h = ground (arith, contains-keep x p xs, keep-IsDistinct p xs h.1)

  -- a.union(b), a.difference(b), a.intersection(b), a.add(x), a.remove(x)
  unfoldable pub union : List A → List A → List A
  union a b = a ++ keep (λ x. not (contains x a)) b

  unfoldable pub difference : List A → List A → List A
  difference a b = keep (λ x. not (contains x b)) a

  unfoldable pub intersection : List A → List A → List A
  intersection a b = keep (λ x. contains x b) a

  unfoldable pub add : A → List A → List A
  add x a = if contains x a then a else a ++ x ∷ []

  unfoldable pub discard : A → List A → List A
  discard x a = keep (λ y. not (x == y)) a

  pub contains-union :
      (x : A) (a b : List A) → contains x (union a b) ≡ (contains x a || contains x b)
  unfolding union
  contains-union x a b = ground (
    arith,
    contains-append x a (keep (λ y. not (contains y a)) b),
    contains-keep x (λ y. not (contains y a)) b,
  )

  pub contains-difference :
      (x : A) (a b : List A) → contains x (difference a b) ≡ (not (contains x b) && contains x a)
  unfolding difference
  contains-difference x a b = contains-keep x (λ y. not (contains y b)) a

  pub contains-intersection :
      (x : A) (a b : List A) → contains x (intersection a b) ≡ (contains x b && contains x a)
  unfolding intersection
  contains-intersection x a b = contains-keep x (λ y. contains y b) a

  pub contains-add : (x y : A) (a : List A) → contains x (add y a) ≡ (y == x || contains x a)
  unfolding add contains
  contains-add x y a = ground (arith, contains-append x a (y ∷ []), e.beq_iff y x)

  pub contains-discard :
      (x y : A) (a : List A) → contains x (discard y a) ≡ (not (y == x) && contains x a)
  unfolding discard
  contains-discard x y a = contains-keep x (λ z. not (y == z)) a

pub ruleset set_laws =
    (contains-union, contains-difference, contains-intersection, contains-add, contains-discard)
