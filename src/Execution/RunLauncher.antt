-- ===== src/Execution/RunLauncher.antt =====
-- dagster-cloud/dagster_cloud/execution/cloud_run_launcher/process.py and execution/utils/process.py:
-- runs as subprocesses, by the pid in their tags. The instance and the operating system are a
-- parameter. Times are counted in microseconds; `join` runs on fuel, and is `none` without.
pub mod Joins
pub mod Pids
use dagster_cloud.Prelude.{
  ℕ, zero, suc, ◌+◌, ◌*◌, String, Bool, true, false, not, Option, none, some, List, [], ◌∷◌, leb,
  ◌==◌, string_eq, nat_eq, nat_beq, if◌then◌else◌, add, str, int,
}
use dagster_cloud.Exec.{
  Error, raised, Result, ok, err, Exec, pure, raise, gets, modify, catch, ◌>>=◌, ◌>>◌, zoom,
}
use dagster_cloud.Dict.{Dict, lookup}
use dagster_cloud.Launcher.Upload.{result}

-- PipelineRun
pub record Run : Type 0 where
  pub run_id : String
  pub is_finished : Bool
  pub tags : Dict String String

pub data TaskStatus : Type 0 where
  not_implemented not_found running : TaskStatus

pub record System (W : Type 0) : Type 0 where
  pub is_windows : Bool
  -- open_ipc_subprocess of the command of a run, which needs its code origin, and the pid
  pub launch_process : String → Exec W ℕ
  -- os.kill(pid, 0), which raises an OSError only
  pub signal : ℕ → Exec W (Unit {0})
  -- interrupt_ipc_subprocess_pid
  pub interrupt : ℕ → Exec W (Unit {0})
  pub sleep : ℕ → Exec W (Unit {0})
  pub get_run_by_id : String → Exec W (Option Run)
  pub add_run_tags : String → String → String → Exec W (Unit {0})
  pub report_run_canceling : Run → Exec W (Unit {0})

pub record RunLauncher (W : Type 0) : Type 0 where
  pub run_ids : List String
  pub world : W

abbrev pub pid_tag : String
pid_tag = "process/pid"

abbrev pub parsed : Option ℕ → Result (Option ℕ)
parsed none = err (raised "ValueError")
parsed (some pid) = ok (some pid)

-- int(tags[PID_TAG])
abbrev pub pid_of_tag : Option String → Result (Option ℕ)
pid_of_tag none = ok none
pid_of_tag (some text) = parsed (int text)

-- _get_pid
unfoldable pub get_pid : Option Run → Result (Option ℕ)
get_pid none = ok none
get_pid (some run) = if run.is_finished then ok none else pid_of_tag (lookup pid_tag run.tags)

-- the truth value of a pid
abbrev pub is_pid : Option ℕ → Bool
is_pid none = false
is_pid (some pid) = not (nat_beq pid 0)

abbrev pub pid_or_zero : Option ℕ → ℕ
pid_or_zero none = 0
pid_or_zero (some pid) = pid

abbrev pub is_running : TaskStatus → Bool
is_running running = true
is_running not_found = false
is_running not_implemented = false

abbrev pub is_active : Option Run → Result Bool
is_active none = err (raised "AttributeError")
is_active (some run) = ok (not run.is_finished)

module _ {W : Type 0} (system : System W) where
  unfoldable pub on_world : {A : Type 0} → Exec W A → Exec (RunLauncher W) A
  on_world m = zoom (λ s. s.world) (λ w s. record s { world = w }) m

  -- check_on_process
  unfoldable pub check_on_process : ℕ → Exec W TaskStatus
  check_on_process pid =
      if system.is_windows
      then pure not_implemented
      else catch (do system.signal pid; pure running) (λ e. pure not_found)

  unfoldable pub launch_run : String → Exec (RunLauncher W) (Unit {0})
  launch_run run_id = do
    pid ← on_world (system.launch_process run_id)
    modify (λ s. record s { run_ids = add run_id s.run_ids })
    on_world (system.add_run_tags run_id pid_tag (str pid))

  unfoldable pub can_terminate_run : Option Run → Exec W Bool
  can_terminate_run none = pure false
  can_terminate_run (some run) = do
    pid ← result (get_pid (some run))
    if is_pid pid
        then (do status ← check_on_process (pid_or_zero pid); pure (is_running status))
        else pure false

  unfoldable pub can_terminate : String → Exec W Bool
  can_terminate run_id = do run ← system.get_run_by_id run_id; can_terminate_run run

  unfoldable pub terminate_run : Option Run → Exec W Bool
  terminate_run none = pure false
  terminate_run (some run) = do
    pid ← result (get_pid (some run))
    if is_pid pid
        then (do system.report_run_canceling run; system.interrupt (pid_or_zero pid); pure true)
        else pure false

  unfoldable pub terminate : String → Exec W Bool
  terminate run_id = do run ← system.get_run_by_id run_id; terminate_run run

  -- the run is read twice
  unfoldable pub check_run : String → Option Run → Exec W Bool
  check_run run_id none = pure false
  check_run run_id (some run) = do again ← system.get_run_by_id run_id; result (is_active again)

  unfoldable pub active_runs : List String → Exec W (List String)
  active_runs [] = pure []
  active_runs (run_id ∷ run_ids) = do
    run ← system.get_run_by_id run_id
    active ← check_run run_id run
    rest ← active_runs run_ids
    pure (if active then run_id ∷ rest else rest)

  module _ (timeout : ℕ) where
    -- a round of `while True` that found active runs; `again` is the next round
    unfoldable pub join_round :
        ℕ → ℕ → Exec W (Option (Unit {0})) → List String → Exec W (Option (Unit {0}))
    join_round total_time interval again [] = pure (some tt)
    join_round total_time interval again (run_id ∷ run_ids) =
        if leb timeout total_time
        then raise (raised "Timed out waiting for these runs to finish")
        else (do system.sleep interval; again)

    unfoldable pub join_loop : ℕ → List String → ℕ → ℕ → Exec W (Option (Unit {0}))
    join_loop zero run_ids total_time interval = pure none
    join_loop (suc fuel) run_ids total_time interval = do
      active_run_ids ← active_runs run_ids
      join_round total_time interval (join_loop fuel run_ids (total_time + interval) (interval * 2))
          active_run_ids

    unfoldable pub join : ℕ → Exec (RunLauncher W) (Option (Unit {0}))
    join fuel = do run_ids ← gets (λ s. s.run_ids); on_world (join_loop fuel run_ids 0 10000)
