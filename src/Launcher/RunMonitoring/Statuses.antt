-- ===== src/Launcher/RunMonitoring/Statuses.antt =====
-- What the monitoring thread writes, and what the heartbeat reads.
use dagster_cloud.Prelude.{
  String, ◌≡◌, refl, ap, sym, ◌∙◌, Bool, true, false, ◌||◌, Option, none, some, List, [], ◌∷◌, ◌==◌,
  arith, string_eq, if◌then◌else◌, Bool-cases, inl, inr, contains, ◌⊎◌, beq_refl,
}
use dagster_cloud.Exec.{Error, Result, ok, err, zoom, put_back}
use dagster_cloud.Exec.Triple.{
  Post, Triple, Triple-pure, Triple-bind, Triple-gets, Triple-modify, Triple-catch, Triple-conseq,
  Triple-assume,
}
use dagster_cloud.Dict.{Dict, lookup, put, has, lookup-put}
use dagster_cloud.Launcher.RunMonitoring.{
  CloudRunWorkerStatus, CloudRunWorkerStatuses, Statuses, Monitoring, Instances, check_deployment,
  check_deployments, collect_statuses, put_all, monitoring_step,
  run_worker_monitoring_thread_iteration, statuses_of, get_cloud_run_worker_statuses,
}
use dagster_cloud.Launcher.RunMonitoring.Reports.{
  Found, AllFound, Triple-call, check_deployment-Found, put-AllFound, put_all-AllFound,
  lookup-AllFound,
}

lookup_lem :
    (supports_check is_alive : Bool) (statuses_dict : Statuses) (names : List String)
    (result : Dict String CloudRunWorkerStatuses) (name : String)
    → lookup name (get_cloud_run_worker_statuses supports_check is_alive statuses_dict names result)
      ≡ (if contains name names
          then some (statuses_of supports_check is_alive statuses_dict name)
          else lookup name result)
unfolding get_cloud_run_worker_statuses contains
lookup_lem supports_check is_alive statuses_dict [] result name = refl
lookup_lem supports_check is_alive statuses_dict (d ∷ names) result name =
    let value = statuses_of supports_check is_alive statuses_dict in
    lookup_lem supports_check is_alive statuses_dict names (put d (value d) result) name
    ∙ elim (Bool-cases (contains name names)) [
      | inl later ↦ rw later (ground (arith))
      | inr last ↦
          rw last (lookup-put name d (value d) result ∙ same_lem value d name (lookup name result))
    ]
  where
    same_lem :
        (value : String → CloudRunWorkerStatuses) (d name : String)
        (other : Option CloudRunWorkerStatuses)
        → (if d == name then some (value d) else other)
          ≡ (if d == name || false then some (value name) else other)
    same_lem value d name other = elim (Bool-cases (d == name)) [
      | inl same ↦ rw (same, (string_eq.beq_iff d name).0 same) refl
      | inr differ ↦ rw differ refl
    ]

pub get_cloud_run_worker_statuses_lem :
    (supports_check is_alive : Bool) (statuses_dict : Statuses) (names : List String)
    (name : String)
    → lookup name (get_cloud_run_worker_statuses supports_check is_alive statuses_dict names []) ≡ (
        if contains name names
        then some (statuses_of supports_check is_alive statuses_dict name)
        else none)
unfolding lookup
get_cloud_run_worker_statuses_lem supports_check is_alive statuses_dict names name =
    lookup_lem supports_check is_alive statuses_dict names [] name

has-put_all :
    (items before : Statuses) (name : String)
    → has name (put_all items before) ≡ (has name items || has name before)
unfolding put_all lookup
has-put_all [] before name = refl
has-put_all ((d, statuses) ∷ items) before name =
    ground
      (arith, has-put_all items (put d statuses before) name, lookup-put name d statuses before)

module _ {W : Type 0} (i : Instances W) where
  abbrev pub Kept : Monitoring W → Monitoring W → Type 0
  Kept s s' =
      (s'.deployments_to_check ≡ s.deployments_to_check) × (s'.statuses_dict ≡ s.statuses_dict)

  -- The check of one of the deployments raised.
  abbrev pub Failed : List String → Type 0
  Failed names =
      (name : String) × (e : Error) × (u : W) × (w : W) × (contains name names ≡ true)
      × (check_deployment i name u ≡ (err e, w))

  abbrev pub Replaced : Monitoring W → Monitoring W → Type 0
  Replaced s s' =
      (s'.deployments_to_check ≡ s.deployments_to_check)
      × ((name : String) → has name s'.statuses_dict ≡ contains name s.deployments_to_check)
      × ((name : String) (statuses : List CloudRunWorkerStatus)
          → lookup name s'.statuses_dict ≡ some statuses
          → (u : W) × (w : W) × Found i name statuses u w)

  -- a status list for the deployments that are checked, and for those that had one
  abbrev Checked : List String → Statuses → Statuses → W → Type 0
  Checked names before after w =
      ((name : String) → has name after ≡ (contains name names || has name before))
      × AllFound i after

  check_deployments-Triple :
      (names : List String) (before : Statuses) (u : W)
      → AllFound i before
      → Triple
          (λ w. w ≡ u)
          (check_deployments i names before)
          (Checked names before)
          (λ _ _. Failed names)
  unfolding check_deployments contains
  check_deployments-Triple [] before u all = Triple-pure before (λ w _. (λ name. refl, all))
  check_deployments-Triple (d ∷ names) before u all =
      Triple-call _ _ u
        (λ checked v found.
          Triple-conseq
            (check_deployments-Triple names (put d checked before) v (
              put-AllFound i d checked before (u, v, check_deployment-Found i d checked u v found)
                all))
            (λ after w (h, all').
              (λ name. ground (arith, h name, lookup-put name d checked before), all'))
            (λ e w (name, e', x, y, h, failed). (name, e', x, y, ground (arith, h), failed)))
        (λ e v failed. (d, e, u, v, ground (arith, beq_refl d), failed))

  Known : List String → Statuses → Type 0
  Known names statuses =
      ((name : String) → has name statuses ≡ contains name names) × AllFound i statuses

  outside_lem :
      (s t : Monitoring W) (names : List String) (r : Result Statuses × W)
      → names ≡ s.deployments_to_check
      → Kept s t
      → Post (Checked names []) (λ _ _. Failed names) r
      → Post
          (λ statuses s'. Kept s s' × Known names statuses)
          (λ _ s'. Kept s s' × Failed s.deployments_to_check)
          (put_back r (λ w. record t { world = w }))
  unfolding lookup Known
  outside_lem s t names (ok statuses, w) same kept (h, all) =
      (kept, (λ name. ground (arith, h name), all))
  outside_lem s t names (err e, w) same kept h = (kept, rw (sym same) h)

  replaced_lem :
      (names : List String) (statuses : Statuses) (s t : Monitoring W)
      → names ≡ s.deployments_to_check
      → Known names statuses
      → Kept s t
      → Replaced s (record t { statuses_dict = put_all statuses [] })
  unfolding lookup Known
  replaced_lem names statuses s t same (h, all) kept = (
    kept.0,
    λ name. has-put_all statuses [] name ∙ ground (arith, h name) ∙ ap (contains name) same,
    λ name found. lookup-AllFound i name found _ (put_all-AllFound i statuses [] all tt),
  )

  monitoring_step-Triple :
      (s : Monitoring W)
      → Triple
          (Kept s)
          (monitoring_step i)
          (λ _. Replaced s)
          (λ _ s'. Kept s s' × Failed s.deployments_to_check)
  unfolding monitoring_step zoom collect_statuses
  monitoring_step-Triple s =
      Triple-bind {R = λ names t. Kept s t × (names ≡ s.deployments_to_check)} _ _
        (Triple-gets _ (λ t kept. (kept, kept.0)))
        (λ names. Triple-assume (λ same.
          Triple-bind {R = λ statuses t. Kept s t × Known names statuses} _ _
            (record {
              at = λ t kept.
                  outside_lem s t names _ same kept
                    ((check_deployments-Triple names [] t.world tt).at t.world refl);
            })
            (λ statuses. Triple-assume (λ known.
              Triple-modify _ (λ t kept. replaced_lem names statuses s t same known kept)))))

  -- A round of the monitoring thread does not raise. Either it replaces the statuses: exactly the
  -- deployments to check have an entry, and it consists of one status for each of the runs that the
  -- instance of the deployment then listed as in progress, in their order, as the run launcher
  -- answered for that run. Or the check of one of the deployments raised, and the statuses are left
  -- as they were.
  pub run_worker_monitoring_thread_iteration_lem :
      (s : Monitoring W)
      → Post
          (λ _ s'. Replaced s s' ⊎ (Kept s s' × Failed s.deployments_to_check))
          (λ _ _. ⊥)
          (run_worker_monitoring_thread_iteration i s)
  unfolding run_worker_monitoring_thread_iteration
  run_worker_monitoring_thread_iteration_lem s =
      (Triple-catch {P = Kept s} {R = λ _ s'. Kept s s' × Failed s.deployments_to_check} _ _
          (Triple-conseq (monitoring_step-Triple s) (λ _ t h. inl h) (λ e t h. h))
          (λ e. Triple-pure tt (λ t h. inr h))).at
        s (refl, refl)
