-- ===== src/Execution/RunLauncher/Joins.antt =====
-- How the wait for the runs ends.
use dagster_cloud.Prelude.{
  ℕ, zero, suc, ◌+◌, ◌*◌, ◌≤◌, String, ◌≡◌, refl, false, Option, some, List, [], ◌∷◌, leb, arith,
}
use dagster_cloud.Exec.{Error, Result, ok, err, Exec, gets, ◌>>=◌, zoom, put_back}
use dagster_cloud.Exec.Triple.{Post, Triple, Triple-pure, Triple-raise, Triple-if, Triple-bind}
use dagster_cloud.Execution.RunLauncher.{
  System, RunLauncher, active_runs, join_round, join_loop, join, on_world,
}

-- With the doubling intervals, so many more sleeps reach the timeout.
abbrev pub Reaches : ℕ → ℕ → ℕ → ℕ → Type 0
Reaches timeout zero total_time interval = timeout ≤ total_time
Reaches timeout (suc sleeps) total_time interval =
    Reaches timeout sleeps (total_time + interval) (interval * 2)

module _ {W : Type 0} (system : System W) (timeout : ℕ) where
  abbrev Top : W → Type 0
  Top w = Unit

  abbrev Any : Error → W → Type 0
  Any e w = Unit

  abbrev Ended : Option (Unit {0}) → W → Type 0
  Ended r w = r ≡ some tt

  any_lem : {A : Type 0} (r : Result A × W) → Post (λ _ _. Unit {0}) Any r
  any_lem (ok a, w) = tt
  any_lem (err e, w) = tt

  called-Triple : {A : Type 0} (m : Exec W A) → Triple Top m (λ _. Top) Any
  called-Triple m = record { at = λ w _. any_lem (m w) }

  join_round-Triple :
      (total_time interval : ℕ) (again : Exec W (Option (Unit {0}))) (active : List String)
      → (leb timeout total_time ≡ false → Triple Top again Ended Any)
      → Triple Top (join_round system timeout total_time interval again active) Ended Any
  unfolding join_round
  join_round-Triple total_time interval again [] h = Triple-pure _ (λ w _. refl)
  join_round-Triple total_time interval again (run_id ∷ run_ids) h =
      Triple-if (leb timeout total_time) _ _ (λ late. Triple-raise _ (λ w _. tt))
        (λ early. Triple-bind _ _ (called-Triple (system.sleep interval)) (λ _. h early))

  join_loop-Triple :
      (sleeps : ℕ) (run_ids : List String) (total_time interval : ℕ)
      → Reaches timeout sleeps total_time interval
      → Triple Top (join_loop system timeout (suc sleeps) run_ids total_time interval) Ended Any
  unfolding join_loop
  join_loop-Triple zero run_ids total_time interval h =
      Triple-bind _ _ (called-Triple (active_runs system run_ids)) (λ active.
        join_round-Triple total_time interval _ active (λ early. absurd (ground (arith, early, h))))
  join_loop-Triple (suc sleeps) run_ids total_time interval h =
      Triple-bind _ _ (called-Triple (active_runs system run_ids)) (λ active.
        join_round-Triple total_time interval _ active
          (λ early. join_loop-Triple sleeps run_ids (total_time + interval) (interval * 2) h))

  back_lem :
      (s : RunLauncher W) (r : Result (Option (Unit {0})) × W)
      → Post Ended Any r
      → Post
          (λ r s'. (r ≡ some tt) × (s'.run_ids ≡ s.run_ids))
          (λ _ s'. s'.run_ids ≡ s.run_ids)
          (put_back r (λ w. record s { world = w }))
  back_lem s (ok r, w) h = (h, refl)
  back_lem s (err e, w) h = refl

  -- If so many of the doubling sleeps reach the timeout, the wait for the runs ends after at most
  -- as many, whatever becomes of the runs, and keeps the set of run ids.
  pub join-Ended :
      (sleeps : ℕ) (s : RunLauncher W)
      → Reaches timeout sleeps 0 10000
      → Post
          (λ r s'. (r ≡ some tt) × (s'.run_ids ≡ s.run_ids))
          (λ _ s'. s'.run_ids ≡ s.run_ids)
          (join system timeout (suc sleeps) s)
  unfolding join on_world zoom gets ◌>>=◌
  join-Ended sleeps s h =
      back_lem s (join_loop system timeout (suc sleeps) s.run_ids 0 10000 s.world)
        ((join_loop-Triple sleeps s.run_ids 0 10000 h).at s.world tt)
