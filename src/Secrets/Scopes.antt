-- ===== src/Secrets/Scopes.antt =====
-- Which of several secrets with the same name is used.

use dagster_cloud.Prelude.{
  String, ◌≡◌, refl, sym, ap, ◌∙◌, Bool, true, false, not, Option, none, some, List, [], ◌∷◌, ◌==◌,
  string_eq, arith, if◌then◌else◌, Bool-cases, inl, inr, keep, subst, ◌&&◌,
}
use dagster_cloud.Exec.{ok, Exec, pure, ◌>>=◌}
use dagster_cloud.Dict.{Dict, lookup, lookup-put}
use dagster_cloud.Secrets.{Secret, is_scoped, insert, sort, to_dict, get_secrets_for_environment}

-- the value of the last secret with the name, or else `before`
unfoldable pub last_value : String → List Secret → Option String → Option String
last_value name [] before = before
last_value name (secret ∷ secrets) before =
    last_value name secrets
      (if secret.secret_name == name then some secret.secret_value else before)

lookup-to_dict :
    (name : String) (secrets : List Secret) (d : _)
    → lookup name (to_dict secrets d) ≡ last_value name secrets (lookup name d)
unfolding to_dict last_value
lookup-to_dict name [] d = refl
lookup-to_dict name (secret ∷ secrets) d =
    lookup-to_dict name secrets _
    ∙ ap (last_value name secrets) (lookup-put name secret.secret_name secret.secret_value d)

abbrev pub is_global : Secret → Bool
is_global secret = not (is_scoped secret)

abbrev all_scoped : List Secret → Bool
all_scoped [] = true
all_scoped (x ∷ xs) = is_scoped x && all_scoped xs

-- no scoped secret before one that is not
abbrev Sorted : List Secret → Type 0
Sorted [] = Unit
Sorted (x ∷ xs) = (is_scoped x ≡ true → all_scoped xs ≡ true) × Sorted xs

-- an insertion goes before the members whose key is not less
insert_lem :
    (x y : Secret) (ys : List Secret)
    → insert x (y ∷ ys) ≡ (if is_scoped x && not (is_scoped y) then y ∷ insert x ys else x ∷ y ∷ ys)
unfolding insert
insert_lem x y ys = elim (Bool-cases (is_scoped x)) [
  | inl s ↦ elim (Bool-cases (is_scoped y)) [ inl t ↦ rw (s, t) refl | inr u ↦ rw (s, u) refl ]
  | inr g ↦ elim (Bool-cases (is_scoped y)) [ inl t ↦ rw (g, t) refl | inr u ↦ rw (g, u) refl ]
]

insert-Sorted : (x : Secret) (xs : List Secret) → Sorted xs → Sorted (insert x xs)
unfolding insert
insert-Sorted x [] h = (λ s. refl, tt)
insert-Sorted x (y ∷ ys) h =
    subst Sorted (sym (insert_lem x y ys)) (elim (Bool-cases (is_scoped x)) [
      | inl s ↦ elim (Bool-cases (is_scoped y)) [
        | inl t ↦ rw (s, t) (λ _. rw t (h.0 t), h)
        | inr u ↦ rw (s, u) (λ t. absurd (ground (arith, t, u)), insert-Sorted x ys h.1)
      ]
      | inr g ↦ rw g (λ s. absurd (ground (arith, s, g)), h)
    ])

sort-Sorted : (xs : List Secret) → Sorted (sort xs)
unfolding sort
sort-Sorted [] = tt
sort-Sorted (x ∷ xs) = insert-Sorted x (sort xs) (sort-Sorted xs)

swap_lem :
    (px py : Bool) (x y : Secret) (k : List Secret)
    → (px && py) ≡ false
    → (if py then y ∷ (if px then x ∷ k else k) else (if px then x ∷ k else k))
      ≡ (if px then x ∷ (if py then y ∷ k else k) else (if py then y ∷ k else k))
swap_lem true true x y k h = cc
swap_lem true false x y k h = refl
swap_lem false py x y k h = refl

-- the sort keeps the order of the scoped secrets, and of the others
module _ (p : Secret → Bool)
    (apart : (x y : Secret) → is_scoped x ≡ true → is_scoped y ≡ false → (p x && p y) ≡ false) where
  keep-insert : (x : Secret) (xs : List Secret) → keep p (insert x xs) ≡ keep p (x ∷ xs)
  unfolding insert keep
  keep-insert x [] = refl
  keep-insert x (y ∷ ys) = elim (Bool-cases (is_scoped x && not (is_scoped y))) [
    | inl behind ↦
        let moved : insert x (y ∷ ys) ≡ y ∷ insert x ys = insert_lem x y ys ∙ rw behind refl in
        ap (keep p) moved
        ∙ ap (λ k. if p y then y ∷ k else k) (keep-insert x ys)
        ∙ swap_lem (p x) (p y) x y (keep p ys)
            (apart x y (ground (arith, behind)) (ground (arith, behind)))
    | inr front ↦
        let placed : insert x (y ∷ ys) ≡ x ∷ y ∷ ys = insert_lem x y ys ∙ rw front refl in
        ap (keep p) placed
  ]

  keep-sort : (xs : List Secret) → keep p (sort xs) ≡ keep p xs
  unfolding sort keep
  keep-sort [] = refl
  keep-sort (x ∷ xs) = keep-insert x (sort xs) ∙ ap (λ k. if p x then x ∷ k else k) (keep-sort xs)

keep-scoped :
    (xs : List Secret) → all_scoped xs ≡ true → (keep is_global xs ≡ []) × (keep is_scoped xs ≡ xs)
unfolding keep
keep-scoped [] h = (refl, refl)
keep-scoped (x ∷ xs) h =
    let (none_left, all) = keep-scoped xs (ground (arith, h)) in
    let here : is_scoped x ≡ true = ground (arith, h) in
    (rw here none_left, rw here (ap (x ∷◌) all))

last_value_lem :
    (name : String) (xs : List Secret) (before : Option String)
    → Sorted xs
    → last_value name xs before
      ≡ last_value name (keep is_scoped xs) (last_value name (keep is_global xs) before)
unfolding last_value keep
last_value_lem name [] before h = refl
last_value_lem name (x ∷ xs) before h = elim (Bool-cases (is_scoped x)) [
  | inl scoped ↦
      let (none_left, all) = keep-scoped xs (h.0 scoped) in rw (scoped, none_left, all) refl
  | inr global ↦ rw global (last_value_lem name xs _ h.1)
]

-- The environment of a location has, under each name, the value of the last secret that is scoped
-- to locations, and only without one the value of the last secret that is not.
pub get_secrets_for_environment_lem :
    {W : Type 0} (query : Option String → Exec W (List Secret)) (location_name : Option String)
    (name : String) (secrets : List Secret) (w w' : W)
    → query location_name w ≡ (ok secrets, w')
    → (environment : Dict String String) × (get_secrets_for_environment query location_name w
        ≡ (ok environment, w'))
      × (lookup name environment
          ≡ last_value name
              (keep is_scoped secrets)
              (last_value name (keep is_global secrets) none))
unfolding get_secrets_for_environment ◌>>=◌ pure lookup
get_secrets_for_environment_lem query location_name name secrets w w' answered = (
  to_dict (sort secrets) [],
  rw answered refl,
  lookup-to_dict name (sort secrets) []
      ∙ last_value_lem name (sort secrets) none (sort-Sorted secrets)
      ∙ rw
          (
            keep-sort is_scoped (λ x y s g. ground (arith, s, g)) secrets,
            keep-sort is_global (λ x y s g. ground (arith, s, g)) secrets,
          )
          refl,
)
