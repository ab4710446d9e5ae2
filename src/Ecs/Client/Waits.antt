-- ===== src/Ecs/Client/Waits.antt =====
-- How the waits of the ECS client end.
use Prim.Native.String.{◌++◌}
use dagster_cloud.Prelude.{
  ℕ, zero, suc, ◌+◌, ◌*◌, ◌≤◌, String, ◌≡◌, refl, true, false, Option, none, some, List, [], ◌∷◌,
  ltb, arith,
}
use dagster_cloud.Exec.{Error, raised, Result, ok, err, Exec, raise, gets, ◌>>=◌}
use dagster_cloud.Exec.Keeps.{Keeps, Keeps-bind, Keeps-pure, Keeps-raise, Keeps-catch, keeps_rules}
use dagster_cloud.Exec.Triple.{
  Post, Triple, Triple-pure, Triple-raise, Triple-if, Triple-bind, Triple-gets, Triple-Keeps,
  Triple-conseq, Triple-from, Triple-assume,
}
use dagster_cloud.Ecs.Client.{
  Described, services, failures, nothing, EcsApi, ContainerDefinition, container_or_raise,
  get_task_logs, raise_stopped, is_up, report_stopped, check_task, wait_for_task, check_service,
  service_loop, wait_for_service,
}

-- Time does not go back, and a sleep takes at least ten seconds.
pub record IsTimed {W : Type 0} (ecs : EcsApi W) : Type 0 where
  pub sleep : (w : W) → ecs.now w + 10000000 ≤ ecs.now (ecs.sleep w).1
  pub describe_services :
      (name : String) (w : W) → ecs.now w ≤ ecs.now (ecs.describe_services name w).1
  pub list_running_tasks :
      (name : String) (w : W) → ecs.now w ≤ ecs.now (ecs.list_running_tasks name w).1
  pub list_stopped_tasks :
      (name : String) (w : W) → ecs.now w ≤ ecs.now (ecs.list_stopped_tasks name w).1
  pub describe_task :
      (tasks : List String) (w : W) → ecs.now w ≤ ecs.now (ecs.describe_task tasks w).1
  pub describe_task_definition :
      (arn : String) (w : W) → ecs.now w ≤ ecs.now (ecs.describe_task_definition arn w).1
  pub get_log_events : (name : String) (w : W) → ecs.now w ≤ ecs.now (ecs.get_log_events name w).1

module _ {W : Type 0} (ecs : EcsApi W) (timed : IsTimed ecs) where
  -- it is `t` or later
  abbrev Later : ℕ → W → Type 0
  Later t w = t ≤ ecs.now w

  later :
      {A : Type 0} (t : ℕ) (m : Exec W A)
      → ((w : W) → ecs.now w ≤ ecs.now (m w).1)
      → Keeps (Later t) m
  later t m h = record { at = λ w le. omega (arith, le, h w) }

  container-Later :
      (t : ℕ) (o : Option ContainerDefinition) → Keeps (Later t) (container_or_raise ecs o)
  container-Later t none = search keeps_rules
  container-Later t (some d) = search keeps_rules

  get_task_logs-Later : (t : ℕ) (arn name : String) → Keeps (Later t) (get_task_logs ecs arn name)
  unfolding get_task_logs
  get_task_logs-Later t arn name = Keeps-bind _ _ (later t _ (timed.describe_task _)) (λ task.
      Keeps-bind _ _ (later t _ (timed.describe_task_definition _)) (λ definitions.
        Keeps-bind _ _ (container-Later t _) (λ definition. later t _ (timed.get_log_events _))))

  report_stopped-Later :
      (t : ℕ) (arn : String) (logs : List String) → Keeps (Later t) (report_stopped ecs arn logs)
  unfolding report_stopped
  report_stopped-Later t arn [] =
      Keeps-bind _ _ (later t _ (timed.describe_task _)) (λ task. Keeps-raise _)
  report_stopped-Later t arn (line ∷ lines) = Keeps-raise _

  is_up-Later : (t : ℕ) (tasks : List String) → Keeps (Later t) (is_up ecs tasks)
  unfolding is_up
  is_up-Later t [] = search keeps_rules
  is_up-Later t (task_arn ∷ tasks) = Keeps-bind _ _ (later t _ (timed.describe_task _)) (λ task.
      Keeps-bind _ _ (later t _ (timed.describe_task_definition _)) (λ definitions. Keeps-pure _))

  check_task-Later :
      (t : ℕ) (service_name container_name : String) (running stopped : List String)
      → Keeps (Later t) (check_task ecs service_name container_name running stopped)
  unfolding check_task raise_stopped
  check_task-Later t service_name container_name running [] = is_up-Later t running
  check_task-Later t service_name container_name running (arn ∷ tasks) =
      Keeps-bind _ _
        (Keeps-bind _ _
          (Keeps-catch _ _ (get_task_logs-Later t arn container_name) (λ e. Keeps-pure []))
          (λ logs. report_stopped-Later t arn logs))
        (λ _. Keeps-pure false)

  abbrev Any : Error → W → Type 0
  Any e w = Unit

  called-Triple :
      {A : Type 0} (t : ℕ) {m : Exec W A}
      → Keeps (Later t) m
      → Triple (Later t) m (λ _. Later t) Any
  called-Triple t keeps = Triple-conseq (Triple-Keeps keeps) (λ _ w h. h) (λ e w h. tt)

  slept_lem : (t : ℕ) (r : Result (Unit {0}) × W) → t ≤ ecs.now r.1 → Post (λ _. Later t) Any r
  slept_lem t (ok a, w) h = h
  slept_lem t (err e, w) h = tt

  sleep-Triple : (t : ℕ) → Triple (Later t) ecs.sleep (λ _. Later (t + 10000000)) Any
  sleep-Triple t = record {
    at = λ w h. slept_lem (t + 10000000) (ecs.sleep w) (omega (arith, h, timed.sleep w));
  }

  -- The clock, with what is known of the time when it is read.
  now-Triple :
      (F : ℕ → Type 0) {A : Type 0} {Q : A → W → Type 0} {f : ℕ → Exec W A}
      → ((t : ℕ) → F t → Triple (Later t) (f t) Q Any)
      → Triple (λ w. F (ecs.now w)) (gets ecs.now >>= f) Q Any
  now-Triple F {f} h =
      Triple-bind {R = λ t w. Later t w × F t} _ _ (Triple-gets _ (λ w known. (omega arith, known)))
        (λ t. Triple-assume (h t))

  module _ (service_name container_name : String) where
    abbrev Ended : Option (Unit {0}) → W → Type 0
    Ended r w = r ≡ some tt

    -- `fuel` sleeps are enough to pass the limit
    abbrev Enough : ℕ → ℕ → ℕ → Type 0
    Enough limit fuel t = limit ≤ t + fuel * 10000000

    -- what comes after the sleep of a round that began at `t`
    abbrev Again : ℕ → ℕ → Exec W (Option (Unit {0})) → Type 0
    Again limit fuel next =
        (t : ℕ)
        → Enough limit fuel t
        → ltb t limit ≡ true
        → Triple (Later (t + 10000000)) next Ended Any

    -- the loop ends that is known to end a round later
    again_lem :
        (limit : ℕ) (loop : ℕ → Exec W (Option (Unit {0})))
        → ((fuel : ℕ)
            → Again limit fuel (loop fuel)
            → Triple (λ w. Enough limit fuel (ecs.now w)) (loop (suc fuel)) Ended Any)
        → (fuel : ℕ) → Triple (λ w. Enough limit fuel (ecs.now w)) (loop (suc fuel)) Ended Any
    again_lem limit loop step zero =
        step zero (λ t enough early. absurd (ground (arith, enough, early)))
    again_lem limit loop step (suc fuel) = step (suc fuel) (λ t enough early.
        Triple-from (λ w h. omega (arith, h, enough)) (again_lem limit loop step fuel))

    task_round :
        (fuel start_time : ℕ)
        → Again
            (start_time + 300000000)
            fuel
            (wait_for_task ecs service_name container_name fuel start_time)
        → Triple
            (λ w. Enough (start_time + 300000000) fuel (ecs.now w))
            (wait_for_task ecs service_name container_name (suc fuel) start_time)
            Ended
            Any
    unfolding wait_for_task
    task_round fuel start_time again =
        now-Triple (Enough (start_time + 300000000) fuel) (λ t enough.
          Triple-if _ _ _
            (λ early.
              Triple-bind _ _ (called-Triple t (later t _ (timed.list_running_tasks service_name)))
                (λ running.
                  Triple-bind _ _
                    (called-Triple t (later t _ (timed.list_stopped_tasks service_name)))
                    (λ stopped.
                      Triple-bind _ _
                        (called-Triple t
                          (check_task-Later t service_name container_name running stopped))
                        (λ up.
                          Triple-if up _ _ (λ is_up. Triple-pure _ (λ w h. refl))
                            (λ not_up.
                              Triple-bind _ _ (sleep-Triple t) (λ _. again t enough early))))))
            (λ late. Triple-raise _ (λ w h. tt)))

    wait_for_task-Triple :
        (start_time : ℕ)
        → Triple
            (λ w. Enough (start_time + 300000000) 30 (ecs.now w))
            (wait_for_task ecs service_name container_name 31 start_time)
            Ended
            Any
    wait_for_task-Triple start_time =
        again_lem (start_time + 300000000)
          (λ fuel. wait_for_task ecs service_name container_name fuel start_time)
          (λ fuel. task_round fuel start_time) 30

    check_service-Triple :
        (start_time t : ℕ) (next : Exec W (Option (Unit {0}))) (described : Described)
        → Triple (Later t) next Ended Any
        → Triple
            (Later t)
            (check_service ecs service_name container_name 31 start_time next described)
            Ended
            Any
    unfolding check_service
    check_service-Triple start_time t next (services messages) again =
        Triple-if _ _ _
          (λ started.
            Triple-from (λ w h. tt)
              (now-Triple (λ t'. Unit {0})
                (λ t' _. Triple-from (λ w h. omega (arith, h)) (wait_for_task-Triple t'))))
          (λ not_yet. again)
    check_service-Triple start_time t next (failures reasons) again =
        Triple-bind {R = λ _. Later t} _ _ (Triple-gets _ (λ w h. h)) (λ now.
          Triple-if (ltb now (start_time + ecs.grace_period))
            (raise (raised ("ECS DescribeServices API returned failures: " ++ reasons))) next
            (λ early. Triple-raise _ (λ w h. tt)) (λ late. again))
    check_service-Triple start_time t next nothing again = Triple-raise _ (λ w h. tt)

    service_round :
        (fuel start_time : ℕ)
        → Again
            (start_time + ecs.timeout)
            fuel
            (service_loop ecs service_name container_name 31 fuel start_time)
        → Triple
            (λ w. Enough (start_time + ecs.timeout) fuel (ecs.now w))
            (service_loop ecs service_name container_name 31 (suc fuel) start_time)
            Ended
            Any
    unfolding service_loop
    service_round fuel start_time again =
        now-Triple (Enough (start_time + ecs.timeout) fuel) (λ t enough.
          Triple-if _ _ _
            (λ early.
              Triple-bind _ _ (called-Triple t (later t _ (timed.describe_services service_name)))
                (λ described.
                  check_service-Triple start_time t _ described
                    (Triple-bind _ _ (sleep-Triple t) (λ _. again t enough early))))
            (λ late. Triple-raise _ (λ w h. tt)))

    -- If time does not go back and a sleep takes at least ten seconds, the wait for a service ends,
    -- with an error or with the service running, within a round for every ten seconds of the
    -- timeout and one more, and the wait for its task within 31 rounds.
    pub wait_for_service-Ended :
        (fuel : ℕ) (w : W)
        → ecs.timeout ≤ fuel * 10000000
        → Post
            (λ r _. r ≡ some tt)
            (λ _ _. Unit {0})
            (wait_for_service ecs service_name container_name 31 (suc fuel) w)
    unfolding wait_for_service
    wait_for_service-Ended fuel w long =
        let ends : Triple (λ w'. Unit {0})
            (wait_for_service ecs service_name container_name 31 (suc fuel)) Ended Any =
          Triple-bind {R = λ t w'. Enough (t + ecs.timeout) fuel (ecs.now w')} _ _
            (Triple-gets _ (λ w' _. omega (arith, long)))
            (λ t.
              again_lem (t + ecs.timeout)
                (λ fuel. service_loop ecs service_name container_name 31 fuel t)
                (λ fuel. service_round fuel t) fuel) in
        ends.at w tt
