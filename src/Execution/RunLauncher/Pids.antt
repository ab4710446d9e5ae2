-- ===== src/Execution/RunLauncher/Pids.antt =====
-- From the launch of a run to its termination, by the pid in its tag.
use dagster_cloud.Prelude.{
  ℕ, String, ◌≡◌, refl, ap, ◌∙◌, sym, true, false, some, List, add, string_eq, nat_eq, nat_beq, str,
  int-str,
}
use dagster_cloud.Exec.{Result, ok, err, pure, ◌>>=◌, ◌>>◌, zoom, put_back, modify}
use dagster_cloud.Dict.{lookup}
use dagster_cloud.Launcher.Upload.{result}
use dagster_cloud.Execution.RunLauncher.{
  Run, System, RunLauncher, pid_tag, parsed, get_pid, on_world, launch_run, terminate_run,
  terminate,
}

-- A run that is read after a tag was added to it has the tag.
pub record IsTagging {W : Type 0} (system : System W) : Type 0 where
  pub tagged :
      (run_id key value : String) (v w u : W) (run : Run)
      → system.add_run_tags run_id key value v ≡ (ok tt, w)
      → system.get_run_by_id run_id w ≡ (ok (some run), u)
      → lookup key run.tags ≡ some value

get_pid-str :
    (run : Run) (pid : ℕ)
    → run.is_finished ≡ false
    → lookup pid_tag run.tags ≡ some (str pid)
    → get_pid (some run) ≡ ok (some pid)
unfolding get_pid
get_pid-str run pid unfinished tagged = rw (unfinished, tagged) (ap parsed (int-str pid))

module _ {W : Type 0} (system : System W) where
  returned_lem :
      (ids : List String) (x : Result (Unit {0}) × W) (s' : RunLauncher W)
      → put_back x (λ w. record { run_ids = ids; world = w }) ≡ (ok tt, s')
      → x ≡ (ok tt, s'.world)
  returned_lem ids (ok tt, w) s' h = cc
  returned_lem ids (err e, w) s' h = cc

  launch_run-started :
      (run_id : String) (pid : ℕ) (s : RunLauncher W) (w : W)
      → system.launch_process run_id s.world ≡ (ok pid, w)
      → launch_run system run_id s
        ≡ put_back
            (system.add_run_tags run_id pid_tag (str pid) w)
            (λ w. record { run_ids = add run_id s.run_ids; world = w })
  unfolding launch_run on_world zoom modify ◌>>=◌
  launch_run-started run_id pid s w started = rw started refl

  -- The second call of a launch, and what it leaves.
  launch_run-tags :
      (run_id : String) (pid : ℕ) (s s' : RunLauncher W) (w : W)
      → system.launch_process run_id s.world ≡ (ok pid, w)
      → launch_run system run_id s ≡ (ok tt, s')
      → system.add_run_tags run_id pid_tag (str pid) w ≡ (ok tt, s'.world)
  launch_run-tags run_id pid s s' w started done =
      returned_lem (add run_id s.run_ids) _ s'
        (sym (launch_run-started run_id pid s w started) ∙ done)

  interrupted :
      (run : Run) (pid : ℕ) (u : W)
      → get_pid (some run) ≡ ok (some pid)
      → nat_beq pid 0 ≡ false
      → terminate_run system (some run) u
        ≡ (do system.report_run_canceling run; system.interrupt pid; pure true) u
  unfolding terminate_run result ◌>>=◌ pure
  interrupted run pid u known positive = rw (known, positive) refl

  -- If a run that is read after a tag was added to it has the tag, then the termination of a run
  -- that was launched, and that is not finished when it is read again, reports that it is being
  -- canceled, interrupts the process that the launch started, and returns true, or raises what
  -- these two calls raise. The pid of the process is not zero.
  pub terminate-launch_run :
      (run_id : String) (pid : ℕ) (s s' : RunLauncher W) (w u : W) (run : Run)
      → IsTagging system
      → system.launch_process run_id s.world ≡ (ok pid, w)
      → nat_beq pid 0 ≡ false
      → launch_run system run_id s ≡ (ok tt, s')
      → system.get_run_by_id run_id s'.world ≡ (ok (some run), u)
      → run.is_finished ≡ false
      → terminate system run_id s'.world
        ≡ (do system.report_run_canceling run; system.interrupt pid; pure true) u
  unfolding terminate ◌>>=◌
  terminate-launch_run run_id pid s s' w u run tagging started positive launched read unfinished =
      let tagged =
        tagging.tagged run_id pid_tag (str pid) w s'.world u run
          (launch_run-tags run_id pid s s' w started launched) read in
      rw read (interrupted run pid u (get_pid-str run pid unfinished tagged) positive)
