-- ===== src/Prelude/Slices.antt =====
-- Python's `len`, slices from the start, `strip` and `re.sub` by "" of texts. A character class is
-- a test of characters.
use Prim.Native.Nat.{ℕ, zero, suc, ◌+◌, ◌-◌, ◌≤◌}
use Prim.Native.Char.{Char}
use Prim.Native.String.{String, ◌++◌}
use mathlib.Core.Path.{◌≡◌, refl, ap, ◌∙◌}
use mathlib.Core.Bool.{Bool, true, false, not, ◌&&◌, ◌||◌}
use native.Mathlib.Omega.{arith}
use text.Mathlib.TextLemmas.{nil-append, cons-append}
use dagster_cloud.Prelude.Tests.{leb, if◌then◌else◌, Bool-cases}
use dagster_cloud.Prelude.Text.{is_blank}
use mathlib.Core.Logic.{inl, inr}

-- len(s)
unfoldable pub len : String → ℕ
len String.[] = 0
len (String.◌∷◌ c s) = suc (len s)

-- s[:n]
unfoldable pub take : ℕ → String → String
take zero s = String.[]
take (suc n) String.[] = String.[]
take (suc n) (String.◌∷◌ c s) = String.◌∷◌ c (take n s)

-- s[: m - n], which counts from the end where n is more than m
unfoldable pub take_difference : ℕ → ℕ → String → String
take_difference m n s = if leb n m then take (m - n) s else take (len s - (n - m)) s

unfoldable pub all_chars : (Char → Bool) → String → Bool
all_chars p String.[] = true
all_chars p (String.◌∷◌ c s) = p c && all_chars p s

-- re.sub("[^...]", "", s), where the class has the characters of `p`
unfoldable pub only : (Char → Bool) → String → String
only p String.[] = String.[]
only p (String.◌∷◌ c s) = let rest = only p s in if p c then String.◌∷◌ c rest else rest

-- s.lstrip(chars)
unfoldable pub lstrip : (Char → Bool) → String → String
lstrip p String.[] = String.[]
lstrip p (String.◌∷◌ c s) = let rest = lstrip p s in if p c then rest else String.◌∷◌ c s

unfoldable pub rstrip : (Char → Bool) → String → String
rstrip p String.[] = String.[]
rstrip p (String.◌∷◌ c s) =
    let rest = rstrip p s in if is_blank rest && p c then String.[] else String.◌∷◌ c rest

unfoldable pub strip : (Char → Bool) → String → String
strip p s = rstrip p (lstrip p s)

-- the first character is in the class
abbrev pub begins : (Char → Bool) → String → Bool
begins p String.[] = false
begins p (String.◌∷◌ c s) = p c

unfoldable pub ends : (Char → Bool) → String → Bool
ends p String.[] = false
ends p (String.◌∷◌ c s) = let rest = ends p s in if is_blank s then p c else rest

pub len-append : (s t : String) → len (s ++ t) ≡ len s + len t
unfolding len
len-append String.[] t = omega (arith, ap len (nil-append t))
len-append (String.◌∷◌ c s) t = omega (arith, ap len (cons-append c s t), len-append s t)

pub len-take-le : (n : ℕ) (s : String) → len (take n s) ≤ n
unfolding len take
len-take-le zero s = omega arith
len-take-le (suc n) String.[] = omega arith
len-take-le (suc n) (String.◌∷◌ c s) = omega (arith, len-take-le n s)

pub len-take : (n : ℕ) (s : String) → n ≤ len s → len (take n s) ≡ n
unfolding len take
len-take zero s h = refl
len-take (suc n) String.[] h = omega (arith, h)
len-take (suc n) (String.◌∷◌ c s) h = omega (arith, len-take n s (omega (arith, h)))

pub all_chars-append :
    (p : Char → Bool) (s t : String) → all_chars p (s ++ t) ≡ (all_chars p s && all_chars p t)
unfolding all_chars
all_chars-append p String.[] t = ap (all_chars p) (nil-append t)
all_chars-append p (String.◌∷◌ c s) t =
    ap (all_chars p) (cons-append c s t) ∙ ground (arith, all_chars-append p s t)

pub all_chars-take :
    (p : Char → Bool) (n : ℕ) (s : String) → all_chars p s ≡ true → all_chars p (take n s) ≡ true
unfolding all_chars take
all_chars-take p zero s h = refl
all_chars-take p (suc n) String.[] h = refl
all_chars-take p (suc n) (String.◌∷◌ c s) h = ground (arith, h, all_chars-take p n s)

pub all_chars-only : (p : Char → Bool) (s : String) → all_chars p (only p s) ≡ true
unfolding all_chars only
all_chars-only p String.[] = refl
all_chars-only p (String.◌∷◌ c s) = elim (Bool-cases (p c)) [
  | inl kept ↦ rw (kept, all_chars, kept) (all_chars-only p s)
  | inr dropped ↦ rw dropped (all_chars-only p s)
]

pub all_chars-lstrip :
    (p q : Char → Bool) (s : String) → all_chars p s ≡ true → all_chars p (lstrip q s) ≡ true
unfolding all_chars lstrip
all_chars-lstrip p q String.[] h = refl
all_chars-lstrip p q (String.◌∷◌ c s) h = elim (Bool-cases (q c)) [
  | inl stripped ↦ rw stripped (all_chars-lstrip p q s (ground (arith, h)))
  | inr kept ↦ rw kept h
]

pub all_chars-rstrip :
    (p q : Char → Bool) (s : String) → all_chars p s ≡ true → all_chars p (rstrip q s) ≡ true
unfolding all_chars rstrip
all_chars-rstrip p q String.[] h = refl
all_chars-rstrip p q (String.◌∷◌ c s) h = elim (Bool-cases (is_blank (rstrip q s) && q c)) [
  | inl stripped ↦ rw stripped refl
  | inr kept ↦ rw (kept, all_chars) (ground (arith, h, all_chars-rstrip p q s))
]

pub begins-lstrip :
    (p : Char → Bool) (s : String)
    → (is_blank (lstrip (λ c. not (p c)) s) || begins p (lstrip (λ c. not (p c)) s)) ≡ true
unfolding lstrip
begins-lstrip p String.[] = refl
begins-lstrip p (String.◌∷◌ c s) = elim (Bool-cases (p c)) [
  | inl kept ↦ rw (kept, kept) (ground (arith, kept))
  | inr stripped ↦ rw stripped (begins-lstrip p s)
]

pub begins-rstrip :
    (p q : Char → Bool) (s : String)
    → begins p (rstrip q s) ≡ (not (is_blank (rstrip q s)) && begins p s)
unfolding rstrip
begins-rstrip p q String.[] = refl
begins-rstrip p q (String.◌∷◌ c s) = elim (Bool-cases (is_blank (rstrip q s) && q c)) [
  | inl stripped ↦ rw stripped refl
  | inr kept ↦ rw kept refl
]

pub is_blank-append : (s t : String) → is_blank t ≡ false → is_blank (s ++ t) ≡ false
is_blank-append String.[] t h = ap is_blank (nil-append t) ∙ h
is_blank-append (String.◌∷◌ c s) t h = ap is_blank (cons-append c s t)

pub ends-append : (p : Char → Bool) (s t : String) → is_blank t ≡ false → ends p (s ++ t) ≡ ends p t
unfolding ends
ends-append p String.[] t h = ap (ends p) (nil-append t)
ends-append p (String.◌∷◌ c s) t h =
    ap (ends p) (cons-append c s t) ∙ ground (arith, is_blank-append s t h, ends-append p s t h)

pub begins-append :
    (p : Char → Bool) (s t : String) → is_blank s ≡ false → begins p (s ++ t) ≡ begins p s
begins-append p String.[] t h = ground (arith, h)
begins-append p (String.◌∷◌ c s) t h = ap (begins p) (cons-append c s t)
