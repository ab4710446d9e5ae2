-- ===== src/Agent/Locations/Pending.antt =====
-- The locations with pending requests, and the limit on the servers.
use dagster_cloud.Prelude.{
  ℕ, zero, suc, ◌-◌, ◌≤◌, ◌<◌, ◌≡◌, refl, ◌∙◌, ◌⊎◌, Bool, true, List, [], ◌∷◌, map, ltb, leb, ◌==◌,
  string_eq, bool_eq, nat_eq, pair_eq, pair_beq_iff, contains, length, arith, Bool-cases, inl, inr,
  beq_refl, keep,
}
use dagster_cloud.Dict.{Dict}
use dagster_cloud.Launcher.Types.{DeploymentAndLocation}
use dagster_cloud.Agent.State.{LocationKey, Settings}
use dagster_cloud.Agent.Locations.{
  Score, since, before, pending_score, time_between, score_beq, Candidate, has_candidate,
  add_candidate, has_ttl, location_of, pending_candidates, is_recent, recent_candidates,
  sort_candidates, take, get_locations_with_ttl_to_query,
}
use dagster_cloud.Agent.Locations.Sorting.{
  is_pending, count, count-sort, sort-Sorted, has-sort, has-take,
}

-- An iteration of a set visits each of its members once.
pub record IsIteration (iterate : List Candidate → List Candidate) : Type 0 where
  pub same :
      (x : Candidate) (xs : List Candidate) → has_candidate x (iterate xs) ≡ has_candidate x xs
  pub number :
      (p : Candidate → Bool) (xs : List Candidate)
      → length (keep p (iterate xs)) ≡ length (keep p xs)

-- No location was asked for in the future.
abbrev pub IsPast : ℕ → Dict LocationKey ℕ → Type 0
IsPast now [] = Unit
IsPast now ((key, time) ∷ times) = (time ≤ now) × IsPast now times

contains-has :
    (x : Candidate) (xs : List Candidate)
    → has_candidate x xs ≡ true
    → contains x.0 (map (λ x. x.0) xs) ≡ true
unfolding has_candidate contains
contains-has x [] h = ground (arith, h)
contains-has x (y ∷ ys) h = ground (arith, h, contains-has x ys)

score_beq_refl : (s : Score) → score_beq s s ≡ true
score_beq_refl (since n) = beq_refl n
score_beq_refl (before n) = beq_refl n

has_self : (x : Candidate) (xs : List Candidate) → has_candidate x (add_candidate x xs) ≡ true
unfolding has_candidate add_candidate
has_self x xs = ground (arith, beq_refl x.0, score_beq_refl x.1)

has-add :
    (x y : Candidate) (xs : List Candidate)
    → has_candidate x xs ≡ true
    → has_candidate x (add_candidate y xs) ≡ true
unfolding has_candidate add_candidate
has-add x y xs h = ground (arith, h)

count-add :
    (k : DeploymentAndLocation) (n : ℕ) (xs : List Candidate)
    → count (add_candidate (k, since n) xs) ≡ count xs
unfolding add_candidate keep
count-add k n xs = ground arith

has-pending_candidates :
    (settings : Settings) (key : LocationKey) (pending : List LocationKey)
    → contains key pending ≡ true
    → has_ttl settings key.1.1 ≡ true
    → has_candidate (location_of key, pending_score) (pending_candidates settings pending) ≡ true
unfolding pending_candidates contains
has-pending_candidates settings key [] c t = ground (arith, c)
has-pending_candidates settings key (k ∷ keys) c t = elim (Bool-cases (k == key)) [
  | inl same ↦
      rw ((pair_beq_iff k key).0 same, t)
        (has_self (location_of key, pending_score) (pending_candidates settings keys))
  | inr other ↦
      let later : has_candidate (location_of key, pending_score) (pending_candidates settings keys)
          ≡ true =
        has-pending_candidates settings key keys (ground (arith, c, other)) t in
      elim (Bool-cases (has_ttl settings k.1.1)) [
        | inl ttl ↦ rw ttl (has-add _ (location_of k, pending_score) _ later)
        | inr never ↦ rw never later
      ]
]

module _ (settings : Settings) (pending : List LocationKey) (now : ℕ) where
  has-recent_candidates :
      (x : Candidate) (times : Dict LocationKey ℕ) (xs : List Candidate)
      → has_candidate x xs ≡ true
      → has_candidate x (recent_candidates settings pending now times xs) ≡ true
  unfolding recent_candidates
  has-recent_candidates x [] xs h = h
  has-recent_candidates x ((key, time) ∷ times) xs h =
      has-recent_candidates x times _ (elim (Bool-cases (is_recent settings pending now key time)) [
        | inl recent ↦ rw recent (has-add x (location_of key, time_between now time) xs h)
        | inr expired ↦ rw expired h
      ])

  count-recent_candidates :
      (times : Dict LocationKey ℕ) (xs : List Candidate)
      → IsPast now times
      → count (recent_candidates settings pending now times xs) ≡ count xs
  unfolding recent_candidates
  count-recent_candidates [] xs past = refl
  count-recent_candidates ((key, time) ∷ times) xs (le, past) =
      count-recent_candidates times _ past
      ∙ elim (Bool-cases (is_recent settings pending now key time)) [
        | inl recent ↦
            let earlier : leb time now ≡ true = ground (arith, le) in
            rw (recent, earlier) (count-add (location_of key) (now - time) xs)
        | inr expired ↦ rw expired refl
      ]

count-le : (xs : List Candidate) → count xs ≤ length xs
unfolding keep
count-le [] = omega arith
count-le (x ∷ xs) = ground (arith, count-le xs)

length-take-le : (n : ℕ) (xs : List Candidate) → length (map (λ x. x.0) (take n xs)) ≤ n
unfolding take
length-take-le zero xs = omega arith
length-take-le (suc n) [] = omega arith
length-take-le (suc n) (x ∷ xs) = omega (arith, length-take-le n xs)

module _ (iterate : List Candidate → List Candidate) (settings : Settings)
    (pending : List LocationKey) (times : Dict LocationKey ℕ) (now : ℕ) where
  -- A location with a time to live that has a pending request keeps its server, whatever the limit
  -- on the servers, if no location was asked for in the future.
  pub get_locations_with_ttl_to_query-pending :
      (key : LocationKey)
      → IsIteration iterate
      → IsPast now times
      → contains key pending ≡ true
      → has_ttl settings key.1.1 ≡ true
      → contains
          (location_of key)
          (get_locations_with_ttl_to_query iterate settings pending times now)
        ≡ true
  unfolding get_locations_with_ttl_to_query
  get_locations_with_ttl_to_query-pending key once past c t =
      let x : Candidate = (location_of key, pending_score) in
      let candidates = pending_candidates settings pending in
      let all = recent_candidates settings pending now times candidates in
      let here : has_candidate x candidates ≡ true =
        has-pending_candidates settings key pending c t in
      elim (Bool-cases (ltb settings.server_ttl_max_servers (length candidates))) [
        | inl many ↦ rw many (contains-has x (iterate candidates) (once.same x candidates ∙ here))
        | inr few ↦ rw few (
            contains-has x _ (
              has-take settings.server_ttl_max_servers x (sort_candidates (iterate all)) refl
                (sort-Sorted _)
                (ground (
                  arith,
                  few,
                  count-le candidates,
                  count-sort (iterate all),
                  once.number is_pending all,
                  count-recent_candidates settings pending now times candidates past,
                ))
                (has-sort x (iterate all)
                  ∙ once.same x all
                  ∙ has-recent_candidates settings pending now x times candidates here)))
      ]

  -- At most as many locations as the limit allows keep their servers, except where those with
  -- pending requests alone are more: then exactly these do.
  pub get_locations_with_ttl_to_query-bounded :
      (length (get_locations_with_ttl_to_query iterate settings pending times now)
        ≤ settings.server_ttl_max_servers)
      ⊎ ((settings.server_ttl_max_servers < length (pending_candidates settings pending))
          × (get_locations_with_ttl_to_query iterate settings pending times now
              ≡ map (λ x. x.0) (iterate (pending_candidates settings pending))))
  unfolding get_locations_with_ttl_to_query
  get_locations_with_ttl_to_query-bounded =
      let candidates = pending_candidates settings pending in
      elim (Bool-cases (ltb settings.server_ttl_max_servers (length candidates))) [
        | inl many ↦ inr (ground (arith, many), rw many refl)
        | inr few ↦ inl (rw few (length-take-le settings.server_ttl_max_servers _))
      ]
