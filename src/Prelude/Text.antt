-- ===== src/Prelude/Text.antt =====
-- Python's `str` of a number, `int` of a text of digits, and `"".join`.
use Prim.Native.Nat.{ℕ, zero, suc, ◌+◌, ◌-◌, ◌*◌, ◌/◌, ◌%◌, ◌<◌}
use Prim.Native.Char.{Char, code}
use Prim.Native.String.{String, ◌++◌}
use mathlib.Core.Path.{◌≡◌, refl, ap, ◌∙◌}
use mathlib.Core.Bool.{Bool, true, false, ◌&&◌}
use mathlib.Core.Option.{Option, none, some}
use mathlib.Core.List.{List, [], ◌∷◌}
use native.Mathlib.Omega.{arith}
use dagster_cloud.Prelude.Tests.{ltb, leb, if◌then◌else◌, Bool-cases}
use mathlib.Core.Logic.{inl, inr}

digit : ℕ → Char
digit zero = "0"
digit (suc zero) = "1"
digit (suc (suc zero)) = "2"
digit (suc (suc (suc zero))) = "3"
digit (suc (suc (suc (suc zero)))) = "4"
digit (suc (suc (suc (suc (suc zero))))) = "5"
digit (suc (suc (suc (suc (suc (suc zero)))))) = "6"
digit (suc (suc (suc (suc (suc (suc (suc zero))))))) = "7"
digit (suc (suc (suc (suc (suc (suc (suc (suc zero)))))))) = "8"
digit _ = "9"

str_digits : ℕ → ℕ → String → String
unfolding digit
str_digits zero n rest = rest
str_digits (suc fuel) n rest =
    let more = str_digits fuel (n / 10) (String.◌∷◌ (digit (n % 10)) rest) in
    if ltb n 10 then String.◌∷◌ (digit n) rest else more

-- str(n): a number has at most as many digits as one more than its value.
unfoldable pub str : ℕ → String
unfolding str_digits
str n = str_digits (suc n) n ""

unfoldable pub concat : List String → String
concat [] = ""
concat (s ∷ rest) = s ++ concat rest

abbrev pub is_blank : String → Bool
is_blank String.[] = true
is_blank (String.◌∷◌ c s) = false

abbrev is_digit : Char → Bool
is_digit c = leb b'0' (code c) && leb (code c) b'9'

int_digits : ℕ → String → Option ℕ
int_digits n String.[] = some n
int_digits n (String.◌∷◌ c s) =
    let rest = int_digits (n * 10 + (code c - b'0')) s in if is_digit c then rest else none

-- int(s), where `s` has no sign, no spaces and no underscores; a ValueError is `none`
unfoldable pub int : String → Option ℕ
unfolding int_digits
int s = if is_blank s then none else int_digits 0 s

int_digits-digit :
    (n d : ℕ) (rest : String)
    → d < 10
    → int_digits n (String.◌∷◌ (digit d) rest) ≡ int_digits (n * 10 + d) rest
unfolding int_digits digit
int_digits-digit n zero rest h = refl
int_digits-digit n (suc zero) rest h = refl
int_digits-digit n (suc (suc zero)) rest h = refl
int_digits-digit n (suc (suc (suc zero))) rest h = refl
int_digits-digit n (suc (suc (suc (suc zero)))) rest h = refl
int_digits-digit n (suc (suc (suc (suc (suc zero))))) rest h = refl
int_digits-digit n (suc (suc (suc (suc (suc (suc zero)))))) rest h = refl
int_digits-digit n (suc (suc (suc (suc (suc (suc (suc zero))))))) rest h = refl
int_digits-digit n (suc (suc (suc (suc (suc (suc (suc (suc zero)))))))) rest h = refl
int_digits-digit n (suc (suc (suc (suc (suc (suc (suc (suc (suc zero))))))))) rest h = refl
int_digits-digit n (suc (suc (suc (suc (suc (suc (suc (suc (suc (suc d)))))))))) rest h =
    absurd (omega arith)

int_digits-str_digits :
    (fuel n : ℕ) (rest : String)
    → n < fuel
    → int_digits 0 (str_digits fuel n rest) ≡ int_digits n rest
unfolding str_digits
int_digits-str_digits zero n rest h = elim h [ ]
int_digits-str_digits (suc fuel) n rest h = elim (Bool-cases (ltb n 10)) [
  | inl small ↦
      rw small
        (int_digits-digit 0 n rest (ground arith) ∙ ap (λ k. int_digits k rest) (omega arith))
  | inr large ↦ rw large (
      int_digits-str_digits fuel (n / 10) (String.◌∷◌ (digit (n % 10)) rest) (ground arith)
      ∙ int_digits-digit (n / 10) (n % 10) rest (omega arith)
      ∙ ap (λ k. int_digits k rest) (omega arith))
]

str_digits-is_blank :
    (fuel n : ℕ) (c : Char) (s : String) → is_blank (str_digits fuel n (String.◌∷◌ c s)) ≡ false
unfolding str_digits
str_digits-is_blank zero n c s = refl
str_digits-is_blank (suc fuel) n c s = elim (Bool-cases (ltb n 10)) [
  | inl small ↦ rw small refl
  | inr large ↦ rw large (str_digits-is_blank fuel (n / 10) (digit (n % 10)) (String.◌∷◌ c s))
]

str-is_blank : (n : ℕ) → is_blank (str n) ≡ false
unfolding str str_digits
str-is_blank n = elim (Bool-cases (ltb n 10)) [
  | inl small ↦ rw small refl
  | inr large ↦ rw large (str_digits-is_blank n (n / 10) (digit (n % 10)) String.[])
]

pub int-str : (n : ℕ) → int (str n) ≡ some n
unfolding int
int-str n =
    rw (str-is_blank n) (unfold str in int_digits-str_digits (suc n) n String.[] (omega arith))
