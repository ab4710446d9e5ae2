-- ===== src/Agent/Locations/Sorting.antt =====
-- The candidates in the order of their scores: those with pending requests come first.
use dagster_cloud.Prelude.{
  ℕ, zero, suc, ◌≤◌, ◌≡◌, refl, ◌∙◌, Bool, true, false, List, [], ◌∷◌, leb, string_eq, bool_eq,
  nat_eq, pair_eq, length, arith, Bool-cases, inl, inr, keep,
}
use dagster_cloud.Agent.Locations.{
  Score, since, before, Candidate, has_candidate, insert_candidate, sort_candidates, take,
}

-- the score is below 0
abbrev pub is_before : Score → Bool
is_before (since n) = false
is_before (before n) = true

abbrev pub is_pending : Candidate → Bool
is_pending x = is_before x.1

-- how many candidates have a score below 0
abbrev pub count : List Candidate → ℕ
count xs = length (keep is_pending xs)

-- those with a score below 0 come first
abbrev pub Sorted : List Candidate → Type 0
Sorted [] = Unit
Sorted ((key, since n) ∷ xs) = count xs ≡ 0
Sorted ((key, before n) ∷ xs) = Sorted xs

count-insert :
    (x : Candidate) (xs : List Candidate) → count (insert_candidate x xs) ≡ count (x ∷ xs)
unfolding insert_candidate keep
count-insert x [] = refl
count-insert x (y ∷ ys) = ground (arith, count-insert x ys)

pub count-sort : (xs : List Candidate) → count (sort_candidates xs) ≡ count xs
unfolding sort_candidates keep
count-sort [] = refl
count-sort (x ∷ xs) = count-insert x (sort_candidates xs) ∙ ground (arith, count-sort xs)

Sorted-none : (xs : List Candidate) → count xs ≡ 0 → Sorted xs
unfolding keep
Sorted-none [] h = tt
Sorted-none ((key, since n) ∷ xs) h = h
Sorted-none ((key, before n) ∷ xs) h = absurd (omega (arith, h))

insert-Sorted : (x : Candidate) (xs : List Candidate) → Sorted xs → Sorted (insert_candidate x xs)
unfolding insert_candidate keep
insert-Sorted (k, since m) [] h = refl
insert-Sorted (k, before m) [] h = tt
insert-Sorted (k, since m) ((j, since n) ∷ ys) h = elim (Bool-cases (leb m n)) [
  | inl le ↦ rw (le, keep) h
  | inr gt ↦ rw (gt, keep) (count-insert (k, since m) ys ∙ (unfold keep in h))
]
insert-Sorted (k, since m) ((j, before n) ∷ ys) h = insert-Sorted (k, since m) ys h
insert-Sorted (k, before m) ((j, since n) ∷ ys) h = h
insert-Sorted (k, before m) ((j, before n) ∷ ys) h = elim (Bool-cases (leb n m)) [
  | inl le ↦ rw le h
  | inr gt ↦ rw gt (insert-Sorted (k, before m) ys h)
]

pub sort-Sorted : (xs : List Candidate) → Sorted (sort_candidates xs)
unfolding sort_candidates
sort-Sorted [] = tt
sort-Sorted (x ∷ xs) = insert-Sorted x (sort_candidates xs) (sort-Sorted xs)

has-insert :
    (x y : Candidate) (ys : List Candidate)
    → has_candidate x (insert_candidate y ys) ≡ has_candidate x (y ∷ ys)
unfolding has_candidate insert_candidate
has-insert x y [] = refl
has-insert x y (z ∷ zs) = ground (arith, has-insert x y zs)

pub has-sort :
    (x : Candidate) (xs : List Candidate)
    → has_candidate x (sort_candidates xs) ≡ has_candidate x xs
unfolding has_candidate sort_candidates
has-sort x [] = refl
has-sort x (y ∷ ys) = has-insert x y (sort_candidates ys) ∙ ground (arith, has-sort x ys)

has-count :
    (x : Candidate) (xs : List Candidate)
    → is_pending x ≡ true
    → has_candidate x xs ≡ true
    → 1 ≤ count xs
unfolding has_candidate keep
has-count x [] p h = ground (arith, h)
has-count (k, since m) (y ∷ ys) p h = ground (arith, p)
has-count (k, before m) ((j, since n) ∷ ys) p h = has-count (k, before m) ys p (ground (arith, h))
has-count (k, before m) ((j, before n) ∷ ys) p h = omega arith

pub has-take :
    (n : ℕ) (x : Candidate) (xs : List Candidate)
    → is_pending x ≡ true
    → Sorted xs
    → count xs ≤ n
    → has_candidate x xs ≡ true
    → has_candidate x (take n xs) ≡ true
unfolding has_candidate take keep
has-take n x [] p s le h = ground (arith, h)
has-take zero x (y ∷ ys) p s le h = absurd (omega (arith, le, has-count x (y ∷ ys) p h))
has-take (suc n) (k, since m) (y ∷ ys) p s le h = ground (arith, p)
has-take (suc n) (k, before m) ((j, since i) ∷ ys) p s le h =
    absurd (omega (arith, s, has-count (k, before m) ys p (ground (arith, h))))
has-take (suc n) (k, before m) ((j, before i) ∷ ys) p s le h =
    elim (Bool-cases (has_candidate (k, before m) ys)) [
      | inl later ↦ ground (arith, has-take n (k, before m) ys p s (omega (arith, le)) later)
      | inr here ↦ ground (arith, h, here)
    ]
