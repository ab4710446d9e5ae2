-- ===== src/Agent/Locations.antt =====
-- Which locations with a time to live keep their servers: `_get_locations_with_ttl_to_query`.
pub mod Sorting
pub mod Pending
use dagster_cloud.Prelude.{
  ℕ, zero, suc, ◌-◌, ◌*◌, Bool, true, false, not, ◌&&◌, ◌||◌, List, [], ◌∷◌, map, ltb, leb, ◌==◌,
  if◌then◌else◌, string_eq, bool_eq, nat_eq, pair_eq, contains, length,
}
use dagster_cloud.Dict.{Dict}
use dagster_cloud.Launcher.Types.{DeploymentAndLocation}
use dagster_cloud.Agent.State.{LocationKey, Settings}

-- The score of a candidate: that of a location with pending requests, -1.0, is below 0; else the
-- time since its last query. The clock may run backwards, so that time has a sign: `before t` is
-- the time -t - 1 in microseconds.
pub data Score : Type 0 where
  since before : ℕ → Score

abbrev pub pending_score : Score
pending_score = before 999999

-- a - b
abbrev pub time_between : ℕ → ℕ → Score
time_between a b = if leb b a then since (a - b) else before (b - a - 1)

abbrev pub score_leb : Score → Score → Bool
score_leb (since a) (since b) = leb a b
score_leb (since a) (before b) = false
score_leb (before a) (since b) = true
score_leb (before a) (before b) = leb b a

-- score >= bound
abbrev pub reaches : Score → ℕ → Bool
reaches (since a) bound = leb bound a
reaches (before a) bound = false

abbrev pub score_beq : Score → Score → Bool
score_beq (since a) (since b) = a == b
score_beq (before a) (before b) = a == b
score_beq _ _ = false

-- (deployment, location, score)
abbrev pub Candidate : Type 0
Candidate = DeploymentAndLocation × Score

unfoldable pub has_candidate : Candidate → List Candidate → Bool
has_candidate x [] = false
has_candidate x (y ∷ ys) = (y.0 == x.0 && score_beq y.1 x.1) || has_candidate x ys

unfoldable pub add_candidate : Candidate → List Candidate → List Candidate
add_candidate x xs = if has_candidate x xs then xs else x ∷ xs

-- _has_ttl, _get_ttl_seconds
abbrev pub has_ttl : Settings → Bool → Bool
has_ttl settings is_branch_deployment =
    is_branch_deployment || settings.server_ttl_enabled_for_full_deployments

abbrev pub ttl_seconds : Settings → Bool → ℕ
ttl_seconds settings is_branch_deployment =
    if is_branch_deployment
    then settings.branch_deployment_ttl_seconds
    else settings.full_deployment_ttl_seconds

abbrev pub location_of : LocationKey → DeploymentAndLocation
location_of key = (key.0, key.1.0)

-- the candidates with pending requests
unfoldable pub pending_candidates : Settings → List LocationKey → List Candidate
pending_candidates settings [] = []
pending_candidates settings (key ∷ keys) =
    let rest = pending_candidates settings keys in
    if has_ttl settings key.1.1 then add_candidate (location_of key, pending_score) rest else rest

abbrev pub is_recent : Settings → List LocationKey → ℕ → LocationKey → ℕ → Bool
is_recent settings pending now key query_time =
    not (contains key pending)
    && has_ttl settings key.1.1
    && not (reaches (time_between now query_time) (ttl_seconds settings key.1.1 * 1000000))

-- adds the candidates that were asked for within their time to live
unfoldable pub recent_candidates :
    Settings → List LocationKey → ℕ → Dict LocationKey ℕ → List Candidate → List Candidate
recent_candidates settings pending now [] candidates = candidates
recent_candidates settings pending now ((key, query_time) ∷ times) candidates =
    recent_candidates settings pending now times (
      if is_recent settings pending now key query_time
      then add_candidate (location_of key, time_between now query_time) candidates
      else candidates)

-- sorted(candidates, key=lambda x: x[2])
unfoldable pub insert_candidate : Candidate → List Candidate → List Candidate
insert_candidate x [] = x ∷ []
insert_candidate x (y ∷ ys) =
    let rest = insert_candidate x ys in if score_leb x.1 y.1 then x ∷ y ∷ ys else y ∷ rest

unfoldable pub sort_candidates : List Candidate → List Candidate
sort_candidates [] = []
sort_candidates (x ∷ xs) = insert_candidate x (sort_candidates xs)

-- results[:n]
unfoldable pub take : ℕ → List Candidate → List Candidate
take zero xs = []
take (suc n) [] = []
take (suc n) (x ∷ xs) = x ∷ take n xs

-- `iterate` is the order in which a set of candidates is iterated.
module _ (iterate : List Candidate → List Candidate) where
  unfoldable pub get_locations_with_ttl_to_query :
      Settings → List LocationKey → Dict LocationKey ℕ → ℕ → List DeploymentAndLocation
  get_locations_with_ttl_to_query settings pending location_query_times now =
      let location_candidates = pending_candidates settings pending in
      let num_locations_to_query = settings.server_ttl_max_servers in
      if ltb num_locations_to_query (length location_candidates)
      then map (λ x. x.0) (iterate location_candidates)
      else map (λ x. x.0)
          (take num_locations_to_query (
            sort_candidates (
              iterate
                (recent_candidates settings pending now location_query_times location_candidates))))
