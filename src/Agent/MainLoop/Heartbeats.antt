-- ===== src/Agent/MainLoop/Heartbeats.antt =====
-- The heartbeats that the agent sends, with the statuses that the launcher gives it.
use dagster_cloud.Prelude.{
  ℕ, String, ◌≡◌, refl, ◌∙◌, Bool, true, some, List, [], ◌∷◌, map, arith, string_eq, contains,
  beq_refl,
}
use dagster_cloud.Exec.{Error, ok, pure, ◌>>=◌}
use dagster_cloud.Dict.{Dict, lookup}
use dagster_cloud.Launcher.Endpoints.{CloudCodeServerHeartbeat, or_empty}
use dagster_cloud.Launcher.Multipex.{get_item}
use dagster_cloud.Launcher.RunMonitoring.{
  CloudRunWorkerStatuses, Statuses, statuses_of, get_cloud_run_worker_statuses,
}
use dagster_cloud.Launcher.RunMonitoring.Statuses.{get_cloud_run_worker_statuses_lem}
use dagster_cloud.Agent.MainLoop.{AgentLoop, Identity, AgentHeartbeat, heartbeats_for, metadata_of}

module _ (identity : Identity) (now : ℕ) (errors : List (Error × ℕ))
    (servers : Dict String (List CloudCodeServerHeartbeat)) where
  -- the heartbeat of a deployment with the given statuses
  abbrev pub heartbeat_of : (String → CloudRunWorkerStatuses) → String → String × AgentHeartbeat
  heartbeat_of statuses name = (
    name,
    record {
      timestamp = now;
      identity = identity;
      errors = map (λ e. record { timestamp = e.1; error = e.0 }) errors;
      metadata = metadata_of identity.version identity.agent_image_tag;
      run_worker_statuses = statuses name;
      code_server_heartbeats = or_empty (lookup name servers);
    },
  )

  heartbeats_lem :
      {W : Type 0} (statuses : Dict String CloudRunWorkerStatuses)
      (value : String → CloudRunWorkerStatuses) (names : List String) (s : AgentLoop W)
      → ((name : String) → contains name names ≡ true → lookup name statuses ≡ some (value name))
      → heartbeats_for identity now errors statuses servers names s
        ≡ (ok (map (heartbeat_of value) names), s)
  unfolding heartbeats_for get_item ◌>>=◌ pure contains
  heartbeats_lem statuses value [] s h = refl
  heartbeats_lem statuses value (name ∷ names) s h =
      let here : lookup name statuses ≡ some (value name) =
        h name (ground (arith, beq_refl name)) in
      let rest = heartbeats_lem statuses value names s (λ n c. h n (ground (arith, c))) in
      rw (here, rest) refl

  -- With the statuses that the launcher gives for the active deployments, the heartbeats are made
  -- without an error: one for each active deployment in their order, with what the run monitoring
  -- knows of it, the heartbeats of its code servers, and all the errors.
  pub heartbeats_for-get_cloud_run_worker_statuses :
      {W : Type 0} (supports_check is_alive : Bool) (statuses_dict : Statuses) (names : List String)
      (s : AgentLoop W)
      → heartbeats_for identity now errors
          (get_cloud_run_worker_statuses supports_check is_alive statuses_dict names [])
          servers
          names
          s
        ≡ (ok (map (heartbeat_of (statuses_of supports_check is_alive statuses_dict)) names), s)
  heartbeats_for-get_cloud_run_worker_statuses supports_check is_alive statuses_dict names s =
      heartbeats_lem _ (statuses_of supports_check is_alive statuses_dict) names s (λ name c.
        get_cloud_run_worker_statuses_lem supports_check is_alive statuses_dict names name
        ∙ rw c refl)
