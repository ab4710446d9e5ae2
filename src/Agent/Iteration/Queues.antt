-- ===== src/Agent/Iteration/Queues.antt =====
-- The sorting of the waiting requests in `run_iteration`, into two queues.
use dagster_cloud.Prelude.{
  ◌≡◌, refl, String, Bool, true, false, Option, List, [], ◌∷◌, ◌++◌, arith, sym, ap, subst, ◌∙◌,
  ◌⊎◌, inl, inr,
}
use mathlib.Core.Bool.{◌||◌}
use mathlib.Core.List.{append-nil, append_assoc}
use dagster_cloud.Dict.{Dict}
use dagster_cloud.Exec.{Error, Result, ok, err}
use dagster_cloud.Exec.Triple.{
  Triple, Triple-pure, Triple-if, Triple-bind, Triple-modify, Triple-raise, Triple-assume,
  Triple-conseq, Post-ok,
}
use dagster_cloud.Launcher.Upload.{result}
use dagster_cloud.Agent.Api.{JsonRequest, get_location_from_request}
use dagster_cloud.Agent.State.{Agent, FutureContext, Cloud, LocationKey}
use dagster_cloud.Agent.Iteration.{
  truthy, observe, append_ready, note_query, wait_for_location, must_wait, sort_request,
  sort_requests,
}

-- Each member of the first list is in one of the other two, in its order.
pub data Splits {A : Type 0} : List A → List A → List A → Type 0 where
  nil : Splits [] [] []
  left : {x : A} {xs ys zs : List A} → Splits xs ys zs → Splits (x ∷ xs) (x ∷ ys) zs
  right : {x : A} {xs ys zs : List A} → Splits xs ys zs → Splits (x ∷ xs) ys (x ∷ zs)

abbrev pub is_malformed : Result (Option String) → Bool
is_malformed (ok location) = false
is_malformed (err e) = true

module _ {W : Type 0} (c : Cloud W) where
  abbrev Raises : Type 1
  Raises = Error → Agent W → Type 0

  abbrev pub names_location : Result (Option String) → Bool
  names_location (ok location) = truthy location
  names_location (err e) = false

  -- The code location of one of the requests cannot be read.
  abbrev pub any_malformed : List JsonRequest → Bool
  any_malformed [] = false
  any_malformed (q ∷ qs) =
      is_malformed (get_location_from_request c.deserialize q) || any_malformed qs

  -- The requests name a location each.
  abbrev pub AllNamed : List JsonRequest → Type 0
  AllNamed [] = Unit
  AllNamed (q ∷ qs) =
      (names_location (get_location_from_request c.deserialize q) ≡ true) × AllNamed qs

  -- In a section over what stays as it is.
  module _ (pending : List JsonRequest) (futures : Dict String FutureContext) where
    module _ (ready : List JsonRequest) where
      abbrev pub HasReady : Agent W → Type 0
      HasReady s =
          (s.ready_requests ≡ ready)
          × (s.pending_requests ≡ pending)
          × (s.request_ids_to_future_context ≡ futures)

      observe-Triple :
          {A : Type 0} {E : Raises} (f : W → A × W)
          → Triple HasReady (observe {W = W} f) (λ _. HasReady) E
      unfolding observe
      observe-Triple f = record { at = λ s h. h }

      note_query-Triple :
          {E : Raises} (key : LocationKey) → Triple HasReady (note_query c key) (λ _. HasReady) E
      unfolding note_query
      note_query-Triple key =
          Triple-bind _ _ (observe-Triple c.now) (λ time. Triple-modify _ (λ s h. h))

      wait_for_location-Triple :
          {E : Raises} (key : LocationKey)
          → Triple HasReady (wait_for_location c key) (λ _. HasReady) E
      unfolding wait_for_location
      wait_for_location-Triple key = Triple-modify _ (λ s h. h)

      -- Only a request that names a location waits.
      must_wait-Triple :
          {E : Raises} (q : JsonRequest) (location : Option String)
          → Triple HasReady
              (must_wait c q location)
              (λ waits s. HasReady s × (waits ≡ true → truthy location ≡ true))
              E
      unfolding must_wait
      must_wait-Triple q location =
          Triple-if _ _ _
            (λ named. Triple-bind _ _ (note_query-Triple _) (λ _.
              Triple-bind _ _ (observe-Triple _) (λ found.
                Triple-if found _ _ (λ _. Triple-pure _ (λ s h. (h, λ e. named)))
                  (λ _.
                    Triple-bind _ _ (wait_for_location-Triple _)
                      (λ _. Triple-pure _ (λ s h. (h, λ e. named)))))))
            (λ _. Triple-pure _ (λ s h. (h, λ e. cc)))

    -- The requests `qs` are sorted after those that wait already, `invalid`, and those that are ready.
    abbrev pub Sorted :
        List JsonRequest → List JsonRequest → List JsonRequest → List JsonRequest → Agent W → Type 0
    Sorted qs invalid ready invalid' s =
        (waiting moved ready' : List JsonRequest) × (invalid' ≡ invalid ++ waiting)
        × (ready' ≡ ready ++ moved)
        × HasReady ready' s
        × Splits qs waiting moved
        × AllNamed waiting
        × (any_malformed qs ≡ false)

    -- The ready queue grew, and nothing else changed.
    abbrev pub Moved : List JsonRequest → Agent W → Type 0
    Moved ready s = (moved : List JsonRequest) × HasReady (ready ++ moved) s

    -- One request waits, or is ready.
    abbrev Placed :
        JsonRequest → List JsonRequest → List JsonRequest → List JsonRequest → Agent W → Type 0
    Placed q invalid ready invalid' s =
        (is_malformed (get_location_from_request c.deserialize q) ≡ false)
        × (((invalid' ≡ invalid ++ q ∷ [])
              × HasReady ready s
              × (names_location (get_location_from_request c.deserialize q) ≡ true))
            ⊎ ((invalid' ≡ invalid) × HasReady (ready ++ q ∷ []) s))

    result-Triple :
        (ready : List JsonRequest) (x : Result (Option String))
        → Triple
            (HasReady ready)
            (result {S = Agent W} x)
            (λ location s. HasReady ready s × (x ≡ ok location))
            (λ _. Moved ready)
    unfolding result
    result-Triple ready (ok location) = Triple-pure _ (λ s h. (h, refl))
    result-Triple ready (err e) =
        Triple-raise _ (λ s h. ([], subst (λ l. HasReady l s) (sym (append-nil ready)) h))

    append_ready-Triple :
        {E : Raises} (q : JsonRequest) (ready : List JsonRequest)
        → Triple (HasReady ready) (append_ready {W = W} q) (λ _. HasReady (ready ++ q ∷ [])) E
    unfolding append_ready
    append_ready-Triple q ready = Triple-modify _ (λ s h. (ap (λ l. l ++ q ∷ []) h.0, h.1, h.2))

    sort_request-Triple :
        (q : JsonRequest) (invalid ready : List JsonRequest)
        → Triple
            (HasReady ready)
            (sort_request c q invalid)
            (λ invalid' s. Placed q invalid ready invalid' s)
            (λ _. Moved ready)
    unfolding sort_request
    sort_request-Triple q invalid ready = Triple-bind _ _ (result-Triple ready _) (λ location.
        Triple-assume (λ known. Triple-bind _ _ (must_wait-Triple ready q location) (λ waits.
          Triple-assume (λ named.
            Triple-if waits _ _
              (λ e.
                Triple-pure _ (λ s h.
                  (ap is_malformed known, inl (refl, h, ap names_location known ∙ named e))))
              (λ _.
                Triple-bind _ _ (append_ready-Triple q ready)
                  (λ _. Triple-pure _ (λ s h. (ap is_malformed known, inr (refl, h)))))))))

    pub sort_requests-Triple :
        (qs invalid ready : List JsonRequest)
        → Triple
            (HasReady ready)
            (sort_requests c qs invalid)
            (λ invalid' s. Sorted qs invalid ready invalid' s)
            (λ _. Moved ready)
    unfolding sort_requests
    sort_requests-Triple [] invalid ready =
        Triple-pure _ (λ s h.
          ([], [], ready, sym (append-nil invalid), sym (append-nil ready), h, nil, tt, refl))
    sort_requests-Triple (q ∷ qs) invalid ready =
        Triple-bind _ _ (sort_request-Triple q invalid ready) (λ invalid'. record {
          at = λ s (fine, h). elim h [
            | inl (e, r, named) ↦
                (Triple-conseq (sort_requests-Triple qs invalid' ready)
                    (λ _ _ (waiting, moved, ready', e', r', same, split, all, rest). (
                      q ∷ waiting,
                      moved,
                      ready',
                      e' ∙ ap (λ l. l ++ waiting) e ∙ append_assoc invalid (q ∷ []) waiting,
                      r',
                      same,
                      left split,
                      (named, all),
                      ground (arith, fine, rest),
                    ))
                    (λ _ _ m. m)).at
                  s r
            | inr (e, r) ↦
                (Triple-conseq (sort_requests-Triple qs invalid' (ready ++ q ∷ []))
                    (λ _ _ (waiting, moved, ready', e', r', same, split, all, rest). (
                      waiting,
                      q ∷ moved,
                      ready',
                      e' ∙ ap (λ l. l ++ waiting) e,
                      r' ∙ append_assoc ready (q ∷ []) moved,
                      same,
                      right split,
                      all,
                      ground (arith, fine, rest),
                    ))
                    (λ _ t (moved, m). (
                      q ∷ moved,
                      subst (λ l. HasReady l t) (append_assoc ready (q ∷ []) moved) m,
                    ))).at
                  s r
          ];
        })

  -- When the sorting of the pending requests succeeds, every request goes either to the requests
  -- that wait, each of which names a location, or to the end of the ready queue: none is lost, none
  -- is duplicated, and both queues keep the order of arrival.
  pub sort_requests-Splits :
      (qs invalid' : List JsonRequest) (s s' : Agent W)
      → sort_requests c qs [] s ≡ (ok invalid', s')
      → (moved : List JsonRequest) × (s'.ready_requests ≡ s.ready_requests ++ moved)
        × Splits qs invalid' moved
        × AllNamed invalid'
  sort_requests-Splits qs invalid' s s' h =
      let (waiting, moved, ready', e, r, same, split, all, _) = Post-ok _ _ h (
        (sort_requests-Triple s.pending_requests s.request_ids_to_future_context qs []
            s.ready_requests).at
          s (refl, refl, refl)) in
      (moved, same.0 ∙ r, subst (λ l. Splits qs l moved) (sym e) split, subst AllNamed (sym e) all)
