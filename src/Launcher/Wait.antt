-- ===== src/Launcher/Wait.antt =====
-- `_wait_for_server_process` and `_wait_for_dagster_server_process`. The loop runs on fuel.
use dagster_cloud.Prelude.{
  ℕ, zero, suc, ◌+◌, ◌*◌, ◌<◌, ◌≤◌, ◌≡◌, refl, true, Option, none, some, arith, ltb, if◌then◌else◌,
  Bool-cases, inl, inr,
}
use dagster_cloud.Exec.{Error, raised, Result, ok, err, Exec}

-- What the loop calls: the client, the clock, `time.sleep(1)`, and the additional check.
pub record Process (W : Type 0) : Type 0 where
  pub ping : Exec W (Unit {0})
  pub now : W → ℕ
  pub sleep : W → W
  pub additional_check : Option (Exec W (Unit {0}))
  pub list_repositories : Exec W (Unit {0})

-- Time does not go back, and a sleep takes at least a second.
pub record IsTimed {W : Type 0} (p : Process W) : Type 0 where
  pub ping_later : (w : W) → p.now w ≤ p.now (p.ping w).1
  pub sleep_later : (w : W) → p.now w + 1000000 ≤ p.now (p.sleep w)
  pub check_later :
      (check : Exec W (Unit {0})) (w : W)
      → p.additional_check ≡ some check
      → p.now w ≤ p.now (check w).1

module _ {W : Type 0} (p : Process W) (timeout : ℕ) where
  abbrev pub Outcome : Type 0
  Outcome = Result (Unit {0}) × W

  abbrev pub timed_out : Error
  timed_out = raised "Timed out after waiting for server"

  abbrev after_check : (W → Option Outcome) → Outcome → Option Outcome
  after_check again (ok done, w) = again w
  after_check again (err e, w) = some (err e, w)

  abbrev run_check : Option (Exec W (Unit {0})) → W → Outcome
  run_check none w = (ok tt, w)
  run_check (some check) w = check w

  abbrev after_ping : ℕ → (W → Option Outcome) → Outcome → Option Outcome
  after_ping start again (ok done, w) = some (ok tt, w)
  after_ping start again (err e, w) =
      if ltb (start + timeout) (p.now w)
      then some (err timed_out, w)
      else after_check again (run_check p.additional_check (p.sleep w))

  -- while True
  unfoldable pub wait : ℕ → ℕ → W → Option Outcome
  wait zero start w = none
  wait (suc fuel) start w = after_ping start (wait fuel start) (p.ping w)

  unfoldable pub wait_for_server_process : ℕ → W → Option Outcome
  unfolding wait
  wait_for_server_process fuel w = wait fuel (p.now w) w

  abbrev then_list : Option Outcome → Option Outcome
  then_list none = none
  then_list (some (ok done, w)) = some (p.list_repositories w)
  then_list (some (err e, w)) = some (err e, w)

  unfoldable pub wait_for_dagster_server_process : ℕ → W → Option Outcome
  unfolding wait_for_server_process
  wait_for_dagster_server_process fuel w = then_list (wait_for_server_process fuel w)

  -- How a wait that began at `start` ends: a ping was answered, the time is over, or the additional
  -- check raised.
  pub data Ends (start : ℕ) : Outcome → Type 0 where
    answered : {u w : W} → p.ping u ≡ (ok tt, w) → Ends start (ok tt, w)
    late : {w : W} → start + timeout < p.now w → Ends start (err timed_out, w)
    refused :
        {e : Error} {u w : W} (check : Exec W (Unit {0}))
        → p.additional_check ≡ some check
        → check u ≡ (err e, w)
        → Ends start (err e, w)

  abbrev pub Finished : ℕ → Option Outcome → Type 0
  Finished start result = (outcome : Outcome) × (result ≡ some outcome) × Ends start outcome

  module _ (start limit : ℕ) (again : W → Option Outcome)
      (later : (w : W) → limit ≤ p.now w → Finished start (again w)) where
    after_check_lem :
        (check : Option (Exec W (Unit {0}))) (u : W) (x : Outcome)
        → p.additional_check ≡ check
        → run_check check u ≡ x
        → limit ≤ p.now x.1
        → Finished start (after_check again x)
    after_check_lem check u (ok done, w) c e l = later w l
    after_check_lem none u (err e, w) c h l = cc
    after_check_lem (some check) u (err e, w) c h l = ((err e, w), refl, refused check c h)

  module _ (timed : IsTimed p) where
    check_later_lem :
        (check : Option (Exec W (Unit {0}))) (u : W)
        → p.additional_check ≡ check
        → p.now u ≤ p.now (run_check check u).1
    check_later_lem none u h = ground arith
    check_later_lem (some check) u h = timed.check_later check u h

    after_ping_lem :
        (start limit : ℕ) (again : W → Option Outcome) (u : W) (x : Outcome)
        → ((w : W) → limit ≤ p.now w → Finished start (again w))
        → p.ping u ≡ x
        → (p.now x.1 ≤ start + timeout → limit ≤ p.now x.1 + 1000000)
        → Finished start (after_ping start again x)
    after_ping_lem start limit again u (ok tt, w) later h l = ((ok tt, w), refl, answered h)
    after_ping_lem start limit again u (err e, w) later h l =
        elim (Bool-cases (ltb (start + timeout) (p.now w))) [
          | inl over ↦ rw over ((err timed_out, w), refl, late (ground arith))
          | inr early ↦ rw early (
              after_check_lem start limit again later p.additional_check (p.sleep w) _ refl refl (
                ground (
                  arith,
                  l,
                  timed.sleep_later w,
                  check_later_lem p.additional_check (p.sleep w) refl,
                )))
        ]

    last_ping :
        (start : ℕ) (again : W → Option Outcome) (u : W) (x : Outcome)
        → p.ping u ≡ x
        → start + timeout < p.now x.1
        → Finished start (after_ping start again x)
    last_ping start again u (ok tt, w) h over = ((ok tt, w), refl, answered h)
    last_ping start again u (err e, w) h over =
        let is_over : ltb (start + timeout) (p.now w) ≡ true = ground (arith, over) in
        rw is_over ((err timed_out, w), refl, late over)

    wait_lem :
        (fuel start : ℕ) (w : W)
        → start + timeout < p.now w + fuel * 1000000
        → Finished start (wait (suc fuel) start w)
    unfolding wait
    wait_lem zero start w h =
        last_ping start (λ _. none) w (p.ping w) refl (ground (arith, h, timed.ping_later w))
    wait_lem (suc fuel) start w h =
        after_ping_lem start (p.now w + 1000000) (wait (suc fuel) start) w (p.ping w)
          (λ w' l. wait_lem fuel start w' (ground (arith, h, l))) refl
          (λ _. ground (arith, timed.ping_later w))

    -- If time does not go back in a ping or a check, a sleep takes at least a second, and the
    -- timeout is less than `fuel` seconds, then the wait for a server ends within `fuel` rounds and
    -- one more: with an answered ping, with an exception when the time is over, or with the
    -- exception of the additional check.
    pub wait_for_server_process-Finished :
        (fuel : ℕ) (w : W)
        → timeout < fuel * 1000000
        → Finished (p.now w) (wait_for_server_process (suc fuel) w)
    unfolding wait_for_server_process
    wait_for_server_process-Finished fuel w h = wait_lem fuel (p.now w) w (ground (arith, h))
