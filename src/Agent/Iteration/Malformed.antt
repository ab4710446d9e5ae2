-- ===== src/Agent/Iteration/Malformed.antt =====
-- `run_iteration` with a pending request whose code location cannot be read.
use mathlib.Core.List.{append-nil, append_assoc}
use dagster_cloud.Prelude.{
  ◌≡◌, refl, sym, ap, subst, ◌∙◌, String, Bool, true, false, List, [], ◌∷◌, ◌++◌, arith,
}
use dagster_cloud.Exec.{Exec, gets, modify, ◌>>=◌, ◌>>◌, zoom}
use dagster_cloud.Exec.Keeps.{Keeps, keeps_rules}
use dagster_cloud.Exec.Triple.{
  Post, Triple, Triple-Keeps, Triple-bind, Triple-gets, Triple-modify, Triple-conseq,
}
use dagster_cloud.Dict.{Dict}
use dagster_cloud.Agent.Api.{JsonRequest}
use dagster_cloud.Agent.State.{Agent, FutureContext, Cloud, Settings}
use dagster_cloud.Agent.Iteration.{
  on_world, extend_pending, pop_deployment, pop_branches, pop_all, sort_requests, run_iteration,
}
use dagster_cloud.Agent.Iteration.Queues.{any_malformed, sort_requests-Triple}

module _ {W : Type 0} (c : Cloud W) where
  any_malformed-append :
      (xs ys : List JsonRequest) → any_malformed c xs ≡ true → any_malformed c (xs ++ ys) ≡ true
  any_malformed-append [] ys h = cc
  any_malformed-append (x ∷ xs) ys h = ground (arith, any_malformed-append xs ys)

  module _ (p r : List JsonRequest) (f : Dict String FutureContext) where
    -- The pending queue has grown at its end.
    abbrev Popped : Agent W → Type 0
    Popped s =
        (popped : List JsonRequest) × (s.pending_requests ≡ p ++ popped)
        × (s.ready_requests ≡ r)
        × (s.request_ids_to_future_context ≡ f)

    on_world-Popped : {A : Type 0} (m : Exec W A) → Keeps Popped (on_world m)
    unfolding on_world zoom
    on_world-Popped m = record { at = λ s h. h }

    extend_pending-Popped : (qs : List JsonRequest) → Keeps Popped (extend_pending {W = W} qs)
    unfolding extend_pending modify
    extend_pending-Popped qs = record {
      at = λ s (popped, e, er, ef).
          (popped ++ qs, ap (λ l. l ++ qs) e ∙ append_assoc p popped qs, er, ef);
    }

    pop_deployment-Popped : (name : String) → Keeps Popped (pop_deployment c name)
    unfolding pop_deployment
    pop_deployment-Popped name = search (keeps_rules, on_world-Popped, extend_pending-Popped)

    pop_branches-Popped : (b : Bool) → Keeps Popped (pop_branches c b)
    unfolding pop_branches
    pop_branches-Popped true = search (keeps_rules, on_world-Popped, extend_pending-Popped)
    pop_branches-Popped false = search keeps_rules

    pop_all-Popped : (settings : Settings) → Keeps Popped (pop_all c settings)
    unfolding pop_all
    pop_all-Popped settings =
        search (keeps_rules, pop_deployment-Popped, pop_branches-Popped) depth 9

    -- The requests that are pending stay, those that come before the malformed one are ready
    -- again, and nothing is submitted.
    abbrev pub Stuck : Agent W → Type 0
    Stuck s =
        (popped moved : List JsonRequest) × (s.pending_requests ≡ p ++ popped)
        × (s.ready_requests ≡ r ++ moved)
        × (s.request_ids_to_future_context ≡ f)

    sorting_fails :
        {A : Type 0} (k : List JsonRequest → Exec (Agent W) A)
        → any_malformed c p ≡ true
        → (s : Agent W) → Popped s
        → Post (λ _ _. ⊥) (λ _. Stuck) ((sort_requests c s.pending_requests [] >>= k) s)
    sorting_fails k h s (popped, e, er, ef) =
        (Triple-bind {R = λ _ _. ⊥} (sort_requests c s.pending_requests []) k
            (Triple-conseq (sort_requests-Triple c (p ++ popped) f s.pending_requests [] r)
              (λ _ _ (_, _, _, _, _, _, _, _, fine).
                ground (arith, fine, ap (any_malformed c) e, any_malformed-append p popped h))
              (λ _ _ (moved, (er', ep', ef')). (popped, moved, ep', er', ef')))
            (λ _. record { at = λ t x. absurd x })).at
          s (er, e, ef)

    pop_and_sort_fails :
        (settings : Settings) {A : Type 0} (k : List JsonRequest → Exec (Agent W) A)
        → any_malformed c p ≡ true
        → Triple Popped
            (do
              pop_all c settings
              modify (λ s. record s { locations_with_pending_requests = [] })
              pending ← gets (λ s. s.pending_requests)
              invalid_requests ← sort_requests c pending []
              k invalid_requests)
            (λ _ _. ⊥)
            (λ _. Stuck)
    pop_and_sort_fails settings k h =
        Triple-bind {R = λ _. Popped} _ _
          (Triple-conseq (Triple-Keeps (pop_all-Popped settings)) (λ _ s g. g)
            (λ _ s (popped, e, er, ef). (popped, [], e, er ∙ sym (append-nil r), ef)))
          (λ _. Triple-bind {R = λ _. Popped} _ _ (Triple-modify _ (λ s g. g)) (λ _.
            Triple-bind {R = λ a s. Popped s × (a ≡ s.pending_requests)} _ _
              (Triple-gets _ (λ s g. (g, refl)))
              (λ a. record {
                at = λ s (g, e).
                    subst (λ b. Post (λ _ _. ⊥) (λ _. Stuck) ((sort_requests c b [] >>= k) s))
                      (sym e) (sorting_fails k h s g);
              })))

  -- While the code location of a pending request cannot be read, an iteration of the agent raises;
  -- it submits no request, every pending request stays where it is (with what was popped behind
  -- it), and requests are only added to the ready queue.
  pub run_iteration_malformed :
      (settings : Settings) (s : Agent W)
      → any_malformed c s.pending_requests ≡ true
      → Post
          (λ _ _. ⊥)
          (λ _. Stuck s.pending_requests s.ready_requests s.request_ids_to_future_context)
          (run_iteration c settings s)
  unfolding run_iteration
  run_iteration_malformed settings s h =
      (pop_and_sort_fails s.pending_requests s.ready_requests s.request_ids_to_future_context
          settings _ h).at
        s ([], sym (append-nil s.pending_requests), refl, refl)
