-- ===== src/Prelude/Split.antt =====
-- Python's `split` and `join` at one character, which is given by its code point.
use Prim.Native.Nat.{ℕ}
use Prim.Native.Char.{Char, code}
use Prim.Native.String.{String, ◌++◌}
use mathlib.Core.Path.{◌≡◌, refl, ap, ◌∙◌}
use mathlib.Core.Bool.{Bool, true, false, not, ◌&&◌}
use mathlib.Core.Option.{Option, none, some}
use mathlib.Core.List.{List, [], ◌∷◌}
use native.Mathlib.Omega.{arith}
use text.Mathlib.TextLemmas.{nil-append, cons-append}
use dagster_cloud.Prelude.Tests.{nat_beq, if◌then◌else◌}

abbrev pub is_sep : ℕ → Char → Bool
is_sep sep c = nat_beq (code c) sep

-- the character does not occur in the text
unfoldable pub lacks : ℕ → String → Bool
lacks sep String.[] = true
lacks sep (String.◌∷◌ c s) = not (is_sep sep c) && lacks sep s

abbrev push : Char → List String → List String
push c [] = String.◌∷◌ c String.[] ∷ []
push c (p ∷ ps) = String.◌∷◌ c p ∷ ps

-- s.split(sep)
unfoldable pub split : ℕ → String → List String
split sep String.[] = String.[] ∷ []
split sep (String.◌∷◌ c s) =
    let rest = split sep s in if is_sep sep c then String.[] ∷ rest else push c rest

abbrev push_first : Char → Option (String × String) → Option (String × String)
push_first c none = none
push_first c (some (p, q)) = some (String.◌∷◌ c p, q)

-- s.split(sep, 1), if the character occurs
unfoldable pub split_once : ℕ → String → Option (String × String)
split_once sep String.[] = none
split_once sep (String.◌∷◌ c s) =
    let rest = split_once sep s in if is_sep sep c then some (String.[], s) else push_first c rest

-- sep.join(parts)
unfoldable pub join : Char → List String → String
join sep [] = String.[]
join sep (p ∷ []) = p
join sep (p ∷ q ∷ ps) = p ++ String.◌∷◌ sep (join sep (q ∷ ps))

abbrev pub AllLack : ℕ → List String → Type 0
AllLack sep [] = Unit
AllLack sep (p ∷ ps) = (lacks sep p ≡ true) × AllLack sep ps

split-lacks : (sep : ℕ) (p : String) → lacks sep p ≡ true → split sep p ≡ p ∷ []
unfolding split lacks
split-lacks sep String.[] h = refl
split-lacks sep (String.◌∷◌ c s) h =
    let tail : split sep s ≡ s ∷ [] = split-lacks sep s (ground (arith, h)) in
    let other : is_sep sep c ≡ false = ground (arith, h) in rw (other, tail) refl

split-append :
    (sep : ℕ) (c : Char) (p s : String)
    → is_sep sep c ≡ true
    → lacks sep p ≡ true
    → split sep (p ++ String.◌∷◌ c s) ≡ p ∷ split sep s
unfolding split lacks
split-append sep c String.[] s e h = ap (split sep) (nil-append (String.◌∷◌ c s)) ∙ rw e refl
split-append sep c (String.◌∷◌ d p) s e h =
    let tail : split sep (p ++ String.◌∷◌ c s) ≡ p ∷ split sep s =
      split-append sep c p s e (ground (arith, h)) in
    let other : is_sep sep d ≡ false = ground (arith, h) in
    ap (split sep) (cons-append d p (String.◌∷◌ c s)) ∙ rw (other, tail) refl

pub split_once-append :
    (sep : ℕ) (c : Char) (p s : String)
    → is_sep sep c ≡ true
    → lacks sep p ≡ true
    → split_once sep (p ++ String.◌∷◌ c s) ≡ some (p, s)
unfolding split_once lacks
split_once-append sep c String.[] s e h =
    ap (split_once sep) (nil-append (String.◌∷◌ c s)) ∙ rw e refl
split_once-append sep c (String.◌∷◌ d p) s e h =
    let tail : split_once sep (p ++ String.◌∷◌ c s) ≡ some (p, s) =
      split_once-append sep c p s e (ground (arith, h)) in
    let other : is_sep sep d ≡ false = ground (arith, h) in
    ap (split_once sep) (cons-append d p (String.◌∷◌ c s)) ∙ rw (other, tail) refl

-- Texts without the separator are read back from their join.
pub split-join :
    (sep : ℕ) (c : Char) (p : String) (ps : List String)
    → is_sep sep c ≡ true
    → AllLack sep (p ∷ ps)
    → split sep (join c (p ∷ ps)) ≡ p ∷ ps
unfolding join
split-join sep c p [] e h = split-lacks sep p h.0
split-join sep c p (q ∷ ps) e h =
    split-append sep c p (join c (q ∷ ps)) e h.0 ∙ ap (◌∷◌ p) (split-join sep c q ps e h.1)
