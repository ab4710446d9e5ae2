-- ===== src/Agent/Workspace/Requeue.antt =====
-- What a workspace update does to the pending requests.
use mathlib.Core.List.{append-nil, append_assoc}
use dagster_cloud.Prelude.{
  ◌≡◌, refl, sym, ap, ◌∙◌, ◌⊎◌, inl, inr, String, Bool, true, false, Option, List, [], ◌∷◌, ◌++◌,
}
use dagster_cloud.Exec.{Result, ok, err}
use dagster_cloud.Exec.Triple.{
  Post, Triple, Triple-pure, Triple-raise, Triple-if, Triple-bind, Triple-modify, Triple-assume,
  Triple-conseq,
}
use dagster_cloud.Launcher.Types.{DeploymentAndLocation}
use dagster_cloud.Launcher.Upload.{result}
use dagster_cloud.Agent.Api.{JsonRequest, get_location_from_request}
use dagster_cloud.Agent.State.{Agent, Cloud}
use dagster_cloud.Agent.Iteration.{append_ready, extend_pending}
use dagster_cloud.Agent.Iteration.Queues.{Splits, nil, left, right, is_malformed}
use dagster_cloud.Agent.Workspace.{is_listed, requeue, requeue_all}

module _ {W : Type 0} (c : Cloud W) (all_locations : List DeploymentAndLocation) where
  abbrev located : String → Result (Option String) → Bool
  located deployment_name (ok location) = is_listed deployment_name location all_locations
  located deployment_name (err e) = false

  -- The location of the request is in the workspace.
  abbrev in_workspace : JsonRequest → Bool
  in_workspace q = located q.deployment_name (get_location_from_request c.deserialize q)

  -- All the locations are in the workspace, or none is.
  abbrev pub AllPlaced : Bool → List JsonRequest → Type 0
  AllPlaced known [] = Unit
  AllPlaced known (q ∷ qs) = (in_workspace q ≡ known) × AllPlaced known qs

  abbrev malformed : JsonRequest → Bool
  malformed q = is_malformed (get_location_from_request c.deserialize q)

  abbrev pub HasQueues : List JsonRequest → List JsonRequest → Agent W → Type 0
  HasQueues p r s = (s.pending_requests ≡ p) × (s.ready_requests ≡ r)

  abbrev Placed : JsonRequest → List JsonRequest → List JsonRequest → Agent W → Type 0
  Placed q p r s =
      ((in_workspace q ≡ true) × HasQueues (p ++ q ∷ []) r s)
      ⊎ ((in_workspace q ≡ false) × HasQueues p (r ++ q ∷ []) s)

  result-Triple :
      (p r : List JsonRequest) (x : Result (Option String))
      → Triple
          (HasQueues p r)
          (result {S = Agent W} x)
          (λ location s. HasQueues p r s × (x ≡ ok location))
          (λ _ s. (is_malformed x ≡ true) × HasQueues p r s)
  unfolding result
  result-Triple p r (ok location) = Triple-pure _ (λ s h. (h, refl))
  result-Triple p r (err e) = Triple-raise _ (λ s h. (refl, h))

  requeue-Triple :
      (q : JsonRequest) (p r : List JsonRequest)
      → Triple
          (HasQueues p r)
          (requeue c all_locations q)
          (λ _. Placed q p r)
          (λ _ s. (malformed q ≡ true) × HasQueues p r s)
  unfolding requeue extend_pending append_ready
  requeue-Triple q p r = Triple-bind _ _ (result-Triple p r _) (λ location. Triple-assume (λ known.
      Triple-if _ _ _
        (λ listed. Triple-modify _ (λ s h.
          inl (ap (located q.deployment_name) known ∙ listed, (ap (λ l. l ++ q ∷ []) h.0, h.1))))
        (λ unlisted. Triple-modify _ (λ s h.
          inr
            (ap (located q.deployment_name) known ∙ unlisted, (h.0, ap (λ l. l ++ q ∷ []) h.1))))))

  -- The requests `qs` were put back behind `p`, or made ready behind `r`.
  abbrev pub Requeued : List JsonRequest → List JsonRequest → List JsonRequest → Agent W → Type 0
  Requeued qs p r s =
      (kept moved : List JsonRequest) × HasQueues (p ++ kept) (r ++ moved) s
      × Splits qs kept moved
      × AllPlaced true kept
      × AllPlaced false moved

  -- The requests before a malformed one were put back or made ready; those from it on were not.
  abbrev pub Interrupted : List JsonRequest → List JsonRequest → List JsonRequest → Agent W → Type 0
  Interrupted qs p r s =
      (before : List JsonRequest) × (q : JsonRequest) × (after : List JsonRequest) × (qs
        ≡ before ++ q ∷ after)
      × (malformed q ≡ true)
      × Requeued before p r s

  Requeued-kept :
      (q : JsonRequest) (qs p r : List JsonRequest) (s : Agent W)
      → in_workspace q ≡ true
      → Requeued qs (p ++ q ∷ []) r s
      → Requeued (q ∷ qs) p r s
  Requeued-kept q qs p r s h (kept, moved, (ep, er), split, inside, outside) =
      (q ∷ kept, moved, (ep ∙ append_assoc p (q ∷ []) kept, er), left split, (h, inside), outside)

  Requeued-moved :
      (q : JsonRequest) (qs p r : List JsonRequest) (s : Agent W)
      → in_workspace q ≡ false
      → Requeued qs p (r ++ q ∷ []) s
      → Requeued (q ∷ qs) p r s
  Requeued-moved q qs p r s h (kept, moved, (ep, er), split, inside, outside) =
      (kept, q ∷ moved, (ep, er ∙ append_assoc r (q ∷ []) moved), right split, inside, (h, outside))

  Requeued-nil : (p r : List JsonRequest) (s : Agent W) → HasQueues p r s → Requeued [] p r s
  Requeued-nil p r s (ep, er) =
      ([], [], (ep ∙ sym (append-nil p), er ∙ sym (append-nil r)), nil, tt, tt)

  requeue_all-Triple :
      (qs p r : List JsonRequest)
      → Triple
          (HasQueues p r)
          (requeue_all c all_locations qs)
          (λ _. Requeued qs p r)
          (λ _. Interrupted qs p r)
  unfolding requeue_all
  requeue_all-Triple [] p r = Triple-pure _ (Requeued-nil p r)
  requeue_all-Triple (q ∷ qs) p r =
      Triple-bind {R = λ _. Placed q p r} _ _
        (Triple-conseq (requeue-Triple q p r) (λ _ s h. h)
          (λ _ s (bad, h). ([], q, qs, refl, bad, Requeued-nil p r s h)))
        (λ _. record {
          at = λ s h. elim h [
            | inl (listed, h') ↦
                (Triple-conseq (requeue_all-Triple qs (p ++ q ∷ []) r)
                    (λ _ t. Requeued-kept q qs p r t listed)
                    (λ _ t (before, q', after, e, bad, done). (
                      q ∷ before,
                      q',
                      after,
                      ap (◌∷◌ q) e,
                      bad,
                      Requeued-kept q before p r t listed done,
                    ))).at
                  s h'
            | inr (unlisted, h') ↦
                (Triple-conseq (requeue_all-Triple qs p (r ++ q ∷ []))
                    (λ _ t. Requeued-moved q qs p r t unlisted)
                    (λ _ t (before, q', after, e, bad, done). (
                      q ∷ before,
                      q',
                      after,
                      ap (◌∷◌ q) e,
                      bad,
                      Requeued-moved q before p r t unlisted done,
                    ))).at
                  s h'
          ];
        })

  -- After a workspace update the requests whose location is in the workspace are pending, those
  -- whose location is not, or that name none, are ready, all in their order; but when the update raises, the first request whose
  -- location cannot be read and all the requests behind it are in neither queue any more.
  pub requeue_all_lem :
      (qs r : List JsonRequest) (s : Agent W)
      → s.pending_requests ≡ []
      → s.ready_requests ≡ r
      → Post (λ _. Requeued qs [] r) (λ _. Interrupted qs [] r) (requeue_all c all_locations qs s)
  requeue_all_lem qs r s ep er = (requeue_all-Triple qs [] r).at s (ep, er)
