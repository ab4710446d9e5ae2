-- ===== src/Launcher/RunMonitoring/Reports.antt =====
-- What the monitoring thread finds out about the runs of a deployment.
use dagster_cloud.Prelude.{
  String, ◌≡◌, refl, sym, Bool, true, false, Option, some, List, [], ◌∷◌, ◌==◌, string_eq,
  if◌then◌else◌, Bool-cases, inl, inr,
}
use dagster_cloud.Exec.{Error, Result, ok, err, Exec, pure, raise, continue, ◌>>=◌}
use dagster_cloud.Exec.Triple.{Post, Triple, Triple-pure, Triple-conseq, Post-ok}
use dagster_cloud.Dict.{lookup, put}
use dagster_cloud.Launcher.RunMonitoring.{
  WorkerStatus, CloudRunWorkerStatus, Statuses, Instances, invariant, check_runs, check_deployment,
  put_all,
}

module _ {W : Type 0} where
  -- What is done after a call knows what the call returned.
  pub Triple-call :
      {A B : Type 0} {Q : B → W → Type 0} {E : Error → W → Type 0} (m : Exec W A) (f : A → Exec W B)
      (u : W)
      → ((a : A) (w : W) → m u ≡ (ok a, w) → Triple (λ x. x ≡ w) (f a) Q E)
      → ((e : Error) (w : W) → m u ≡ (err e, w) → E e w)
      → Triple (λ x. x ≡ u) (m >>= f) Q E
  unfolding ◌>>=◌
  Triple-call {Q} {E} m f u next failed = record { at = λ x h. rw h (step (m u) refl) }
    where
      step : (r : Result _ × W) → m u ≡ r → Post Q E (continue r f)
      step (ok a, w) e = (next a w e).at w refl
      step (err x, w) e = failed x w e

module _ {W : Type 0} (i : Instances W) where
  -- One status for each run, in their order: the answers of the run launcher, from the world `u` on.
  pub data Reported (name : String) : List String → List CloudRunWorkerStatus → W → W → Type 0 where
    nil : {u : W} → Reported name [] [] u u
    cons :
        {run_id : String} {runs : List String} {status : WorkerStatus} {message : Option String}
        {statuses : List CloudRunWorkerStatus} {u v w : W}
        → i.check_run_worker_health name run_id u ≡ (ok (status, message), v)
        → Reported name runs statuses v w
        → Reported name
            (run_id ∷ runs)
            (record { run_id = run_id; status_type = status; message = message } ∷ statuses)
            u
            w

  -- The deployment supports the check of its runs, and these are the statuses of the runs that are
  -- in progress.
  pub record Found (name : String) (statuses : List CloudRunWorkerStatus) (u w : W) : Type 0 where
    pub runs : List String
    pub asked_at : W
    pub listed_at : W
    pub supported : i.supports_check_run_worker_health name u ≡ (ok true, asked_at)
    pub listed : i.get_runs name asked_at ≡ (ok runs, listed_at)
    pub reported : Reported name runs statuses listed_at w

  abbrev Any : Error → W → Type 0
  Any e w = Unit

  check_runs-Triple :
      (name : String) (runs : List String) (u : W)
      → Triple (λ x. x ≡ u) (check_runs i name runs) (λ statuses. Reported name runs statuses u) Any
  unfolding check_runs
  check_runs-Triple name [] u = Triple-pure _ (λ x h. rw h nil)
  check_runs-Triple name (run_id ∷ runs) u =
      Triple-call _ _ u
        (λ (status, message) v answered.
          Triple-call _ _ v
            (λ rest w checked. Triple-pure _ (λ x h.
              rw h
                (cons answered (Post-ok _ _ checked ((check_runs-Triple name runs v).at v refl)))))
            (λ e w h. tt))
        (λ e w h. tt)

  after_invariant :
      {A : Type 0} {Q : A → W → Type 0} (supported : Bool) (m : Exec W A) (u : W)
      → (supported ≡ true → Triple (λ x. x ≡ u) m Q Any)
      → Triple (λ x. x ≡ u) (invariant i supported >>= λ _. m) Q Any
  unfolding pure raise ◌>>=◌
  after_invariant true m u next = record { at = λ x h. (next refl).at x h }
  after_invariant false m u next = record { at = λ x h. tt }

  check_deployment-Triple :
      (name : String) (u : W)
      → Triple (λ x. x ≡ u) (check_deployment i name) (λ statuses. Found name statuses u) Any
  unfolding check_deployment
  check_deployment-Triple name u =
      Triple-call _ _ u
        (λ answer v asked. after_invariant answer _ v (λ supported.
          Triple-call _ _ v
            (λ runs w listed. record {
              at = λ x h.
                  (Triple-conseq (check_runs-Triple name runs w)
                      (λ statuses y reported. record {
                        runs = runs;
                        asked_at = v;
                        listed_at = w;
                        supported = rw (sym supported) asked;
                        listed = listed;
                        reported = reported;
                      })
                      (λ e y h. tt)).at
                    x h;
            })
            (λ e w h. tt)))
        (λ e w h. tt)

  pub check_deployment-Found :
      (name : String) (statuses : List CloudRunWorkerStatus) (u w : W)
      → check_deployment i name u ≡ (ok statuses, w)
      → Found name statuses u w
  check_deployment-Found name statuses u w e =
      Post-ok _ _ e ((check_deployment-Triple name u).at u refl)

  -- Each entry was found out at some time.
  abbrev pub AllFound : Statuses → Type 0
  AllFound [] = Unit
  AllFound ((name, statuses) ∷ d) = ((u : W) × (w : W) × Found name statuses u w) × AllFound d

  pub put-AllFound :
      (name : String) (statuses : List CloudRunWorkerStatus) (d : Statuses)
      → (u : W) × (w : W) × Found name statuses u w
      → AllFound d
      → AllFound (put name statuses d)
  unfolding put
  put-AllFound name statuses [] found all = (found, tt)
  put-AllFound name statuses ((n, x) ∷ d) found (here, all) = elim (Bool-cases (n == name)) [
    | inl same ↦ rw same (found, all)
    | inr other ↦ rw other (here, put-AllFound name statuses d found all)
  ]

  pub put_all-AllFound :
      (items before : Statuses) → AllFound items → AllFound before → AllFound (put_all items before)
  unfolding put_all
  put_all-AllFound [] before all all' = all'
  put_all-AllFound ((name, statuses) ∷ items) before (here, all) all' =
      put_all-AllFound items (put name statuses before) all
        (put-AllFound name statuses before here all')

  pub lookup-AllFound :
      (name : String) (statuses : List CloudRunWorkerStatus) (d : Statuses)
      → AllFound d
      → lookup name d ≡ some statuses
      → (u : W) × (w : W) × Found name statuses u w
  unfolding lookup
  lookup-AllFound name statuses [] all h = cc
  lookup-AllFound name statuses ((n, x) ∷ d) (here, all) h =
      here_lem (n == name) refl (lookup-AllFound name statuses d all) h
    where
      here_lem :
          (b : Bool)
          → (n == name) ≡ b
          → (lookup name d ≡ some statuses → (u : W) × (w : W) × Found name statuses u w)
          → (if b then some x else lookup name d) ≡ some statuses
          → (u : W) × (w : W) × Found name statuses u w
      here_lem true same rest h' =
          let same_name : n ≡ name = (string_eq.beq_iff n name).0 same in
          let same_value : x ≡ statuses = cc in rw (sym same_name, sym same_value) here
      here_lem false other rest h' = rest h'
