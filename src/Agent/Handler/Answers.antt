-- ===== src/Agent/Handler/Answers.antt =====
-- The response of a thread of the agent to its request.
use dagster_cloud.Prelude.{ℕ, ◌≡◌, refl, subst, Option, List, [], ◌∷◌, ◌++◌, string_eq}
use dagster_cloud.Exec.{Error, Result, ok, err, zoom, put_back}
use dagster_cloud.Exec.Triple.{
  Post, Triple, Triple-pure, Triple-if, Triple-bind, Triple-catch, Triple-conseq, Triple-Keeps,
  Triple-assume,
}
use dagster_cloud.Agent.Api.{JsonRequest, is_member}
use dagster_cloud.Agent.State.{Agent, Cloud}
use dagster_cloud.Agent.Iteration.{on_world}
use dagster_cloud.Agent.Handler.{
  UploadApiResponse, Services, Answer, try_to_handle, answer, process_api_request,
}
use dagster_cloud.Agent.Handler.Silence.{
  IsLogged, Seen, observed-Triple, result-silent, Agrees, plain-Agrees, handle_api_request-Handles,
}

module _ {W : Type 0} (c : Cloud W) (services : Services W) (responses : W → List UploadApiResponse)
    (failed : Error → Type 0) (logged : IsLogged c services responses failed)
    (l : List UploadApiResponse) where
  abbrev Answered : Answer c services → Agent W → Type 0
  Answered a s = Seen responses l s × Agrees a.0 a.1

  try_to_handle-Triple :
      (q : JsonRequest)
      → Triple (Seen responses l) (try_to_handle c services q) Answered (λ _. Seen responses l)
  unfolding try_to_handle
  try_to_handle-Triple q = Triple-bind _ _ (Triple-Keeps (result-silent responses l _)) (λ request.
      Triple-bind _ _ (handle_api_request-Handles c services responses failed logged l request _ _)
        (λ response. Triple-pure _ (λ s (seen, plain). (seen, plain-Agrees response plain))))

  answer-Triple :
      (q : JsonRequest) → Triple (Seen responses l) (answer c services q) Answered (λ _ _. ⊥)
  unfolding answer
  answer-Triple q =
      Triple-if (is_member q.request_api) _ _
        (λ known.
          Triple-catch {R = λ _. Seen responses l} _ _ (try_to_handle-Triple q)
            (λ e. Triple-pure _ (λ s seen. (seen, (e, refl, refl)))))
        (λ unknown. Triple-pure _ (λ s seen. (seen, refl)))

  -- the response was uploaded last
  abbrev pub Uploaded : JsonRequest → Option Error → Agent W → Type 0
  Uploaded q error s =
      (r : UploadApiResponse) × (responses s.world ≡ l ++ r ∷ [])
      × (r.request_id ≡ q.request_id)
      × (r.request_api ≡ q.request_api)
      × Agrees r.response error

  uploaded_lem :
      (q : JsonRequest) (r : UploadApiResponse) (error : Option Error) (s : Agent W)
      (m : Result (Unit {0}) × W)
      → r.request_id ≡ q.request_id
      → r.request_api ≡ q.request_api
      → Agrees r.response error
      → Post (λ _ w'. responses w' ≡ l ++ r ∷ []) (λ e _. failed e) m
      → Post (λ _. Uploaded q error) (λ e _. failed e) (put_back m (λ w. record s { world = w }))
  uploaded_lem q r error s (ok done, w) id api agrees h = (r, h, id, api, agrees)
  uploaded_lem q r error s (err e, w) id api agrees h = h

  upload-Triple :
      (q : JsonRequest) (r : UploadApiResponse) (error : Option Error)
      → r.request_id ≡ q.request_id
      → r.request_api ≡ q.request_api
      → Agrees r.response error
      → Triple
          (Seen responses l)
          (on_world (services.upload_api_response q.deployment_name r))
          (λ _. Uploaded q error)
          (λ e _. failed e)
  unfolding on_world zoom
  upload-Triple q r error id api agrees = record {
    at = λ s seen. uploaded_lem q r error s _ id api agrees (
        subst
          (λ l'.
            Post (λ _ w'. responses w' ≡ l' ++ r ∷ []) (λ e _. failed e)
              (services.upload_api_response q.deployment_name r s.world))
          seen (logged.upload q.deployment_name r s.world));
  }

  -- When the thread of a request returns, Dagster Cloud has got exactly one response more, with the
  -- request's identifier and api. The thread returns an error exactly if the response carries it:
  -- whatever the handling raises is answered, and the thread raises only what the upload raises.
  pub process_api_request-Uploaded :
      (q : JsonRequest) (submitted : ℕ) (s : Agent W)
      → responses s.world ≡ l
      → Post (Uploaded q) (λ e _. failed e) (process_api_request c services q submitted s)
  unfolding process_api_request
  process_api_request-Uploaded q submitted s seen =
      (Triple-bind {R = λ _. Seen responses l} _ _ (observed-Triple responses l c.now logged.now)
          (λ started.
            Triple-bind _ _ (Triple-conseq (answer-Triple q) (λ a s h. h) (λ e s x. absurd x))
              (λ (response, error). Triple-assume (λ agrees.
                Triple-bind {R = λ _. Seen responses l} _ _
                  (observed-Triple responses l c.now logged.now)
                  (λ finished.
                    Triple-bind _ _ (upload-Triple q _ error refl refl agrees)
                      (λ _. Triple-pure error (λ s h. h))))))).at
        s seen
