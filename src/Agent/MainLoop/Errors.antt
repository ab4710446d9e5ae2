-- ===== src/Agent/MainLoop/Errors.antt =====
-- The errors that the agent keeps for its heartbeats.
use dagster_cloud.Prelude.{
  ℕ, zero, suc, ◌≤◌, String, ◌≡◌, refl, sym, ap, ◌∙◌, Option, none, some, List, [], ◌∷◌, map, arith,
  length,
}
use dagster_cloud.Exec.{Error, Exec, pure, modify, catch, ◌>>=◌, for_each, zoom}
use dagster_cloud.Exec.Keeps.{Keeps, Keeps-bind, Keeps-pure, keeps_rules}
use dagster_cloud.Exec.Triple.{
  Post, Triple, Triple-pure, Triple-bind, Triple-modify, Triple-catch, Triple-conseq,
  Triple-for_each, Triple-Keeps,
}
use dagster_cloud.Agent.State.{Agent, Cloud, Settings}
use dagster_cloud.Agent.Locations.{Candidate}
use dagster_cloud.Agent.MainLoop.{
  AgentLoop, Identity, Reports, first, on_agent, on_world, observe, heartbeats_for, note_error,
  add_heartbeat, check_add_heartbeat, iterate_and_note, run_loop_round,
}
use dagster_cloud.Launcher.Multipex.{get_item}

module _ {ℓ} {A : Type ℓ} where
  first-first : (m n : ℕ) (xs : List A) → n ≤ m → first n (first m xs) ≡ first n xs
  unfolding first
  first-first m zero xs le = refl
  first-first zero (suc n) xs le = absurd (omega (arith, le))
  first-first (suc m) (suc n) [] le = refl
  first-first (suc m) (suc n) (x ∷ xs) le = ap (x ∷◌) (first-first m n xs (omega (arith, le)))

  length-first-le : (n : ℕ) (xs : List A) → length (first n xs) ≤ n
  unfolding first
  length-first-le zero xs = omega arith
  length-first-le (suc n) [] = omega arith
  length-first-le (suc n) (x ∷ xs) = omega (arith, length-first-le n xs)

  first-short : (n : ℕ) (xs : List A) → length xs ≤ n → first n xs ≡ xs
  unfolding first
  first-short zero [] le = refl
  first-short zero (x ∷ xs) le = absurd (omega (arith, le))
  first-short (suc n) [] le = refl
  first-short (suc n) (x ∷ xs) le = ap (x ∷◌) (first-short n xs (omega (arith, le)))

  -- the members of the first list in reverse, before those of the second
  abbrev pub newest_first : List A → List A → List A
  newest_first [] old = old
  newest_first (x ∷ xs) old = newest_first xs (x ∷ old)

map-first {ℓ κ} :
    {A : Type ℓ} {B : Type κ} (f : A → B) (n : ℕ) (xs : List A)
    → map f (first n xs) ≡ first n (map f xs)
unfolding first
map-first f zero xs = refl
map-first f (suc n) [] = refl
map-first f (suc n) (x ∷ xs) = ap (f x ∷◌) (map-first f n xs)

module _ {W : Type 0} where
  -- the errors without their times
  abbrev pub errors_of : AgentLoop W → List Error
  errors_of s = map (λ e. e.0) s.errors

  abbrev Never : Error → AgentLoop W → Type 0
  Never e s = ⊥

  abbrev HasErrors : List Error → AgentLoop W → Type 0
  HasErrors l s = errors_of s ≡ first 25 l

  on_agent-HasErrors :
      {A : Type 0} (l : List Error) (m : Exec (Agent W) A) → Keeps (HasErrors l) (on_agent m)
  unfolding on_agent zoom
  on_agent-HasErrors l m = record { at = λ s h. h }

  on_world-HasErrors :
      {A : Type 0} (l : List Error) (m : Exec W A) → Keeps (HasErrors l) (on_world m)
  unfolding on_world zoom
  on_world-HasErrors l m = record { at = λ s h. h }

  observe-Triple :
      {A : Type 0} (l : List Error) (f : W → A × W)
      → Triple (HasErrors l) (observe f) (λ _. HasErrors l) Never
  unfolding observe on_world zoom pure
  observe-Triple l f = record { at = λ s h. h }

  get_item-HasErrors :
      {A : Type 0} (l : List Error) (o : Option A)
      → Keeps (HasErrors l) (get_item {S = AgentLoop W} o)
  unfolding get_item
  get_item-HasErrors l none = search keeps_rules
  get_item-HasErrors l (some a) = search keeps_rules

module _ {W : Type 0} (c : Cloud W) (reports : Reports W) where
  note_error-Triple :
      (l : List Error) (e : Error)
      → Triple (HasErrors l) (note_error c reports e) (λ _. HasErrors (e ∷ l)) Never
  unfolding note_error
  note_error-Triple l e = Triple-bind _ _ (observe-Triple l c.now) (λ time. Triple-modify _ (λ s h.
      map-first (λ e. e.0) 25 ((e, time) ∷ s.errors)
      ∙ (unfold first in ap (e ∷◌) (ap (first 24) h ∙ first-first 25 24 l (omega arith)))))

  note_all-Triple :
      (errors l : List Error)
      → Triple
          (HasErrors l)
          (for_each errors (note_error c reports))
          (λ _. HasErrors (newest_first errors l))
          Never
  unfolding for_each
  note_all-Triple [] l = Triple-pure tt (λ s h. h)
  note_all-Triple (e ∷ errors) l =
      Triple-bind _ _ (note_error-Triple l e) (λ _. note_all-Triple errors (e ∷ l))

  -- The errors that an iteration yields are kept with the newest first, before the older ones, and
  -- the oldest are dropped beyond 25.
  pub for_each-note_error :
      (errors : List Error) (s : AgentLoop W)
      → length s.errors ≤ 25
      → Post
          (λ _ s'. errors_of s' ≡ first 25 (newest_first errors (errors_of s)))
          (λ _ _. ⊥)
          (for_each errors (note_error c reports) s)
  for_each-note_error errors s short =
      (note_all-Triple errors (errors_of s)).at s
        (sym (first-short 25 (errors_of s) (omega (arith, short, length-map s.errors))))
    where
      length-map : (xs : List (Error × ℕ)) → length (map (λ e. e.0) xs) ≡ length xs
      length-map [] = refl
      length-map (x ∷ xs) = ap suc (length-map xs)

module _ {W : Type 0} where
  abbrev pub IsBounded : AgentLoop W → Type 0
  IsBounded s = length s.errors ≤ 25

  on_agent-IsBounded : {A : Type 0} (m : Exec (Agent W) A) → Keeps IsBounded (on_agent m)
  unfolding on_agent zoom
  on_agent-IsBounded m = record { at = λ s h. h }

  on_world-IsBounded : {A : Type 0} (m : Exec W A) → Keeps IsBounded (on_world m)
  unfolding on_world zoom
  on_world-IsBounded m = record { at = λ s h. h }

  observe-IsBounded : {A : Type 0} (f : W → A × W) → Keeps IsBounded (observe f)
  unfolding observe on_world zoom pure
  observe-IsBounded f = record { at = λ s h. h }

  sent-IsBounded :
      (now : ℕ) → Keeps IsBounded (modify (λ s. record s { last_heartbeat_time = some now }))
  unfolding modify
  sent-IsBounded now = record { at = λ s h. h }

  get_item-IsBounded : {A : Type 0} (o : Option A) → Keeps IsBounded (get_item o)
  unfolding get_item
  get_item-IsBounded none = search keeps_rules
  get_item-IsBounded (some a) = search keeps_rules

  heartbeats_for-IsBounded :
      (identity : Identity) (now : ℕ) (errors : List (Error × ℕ)) (statuses : _) (servers : _)
      (names : List String)
      → Keeps IsBounded (heartbeats_for identity now errors statuses servers names)
  unfolding heartbeats_for
  heartbeats_for-IsBounded identity now errors statuses servers [] = search keeps_rules
  heartbeats_for-IsBounded identity now errors statuses servers (name ∷ names) =
      Keeps-bind _ _ (get_item-IsBounded _) (λ found.
        Keeps-bind _ _ (heartbeats_for-IsBounded identity now errors statuses servers names)
          (λ rest. Keeps-pure _))

module _ {W : Type 0} (c : Cloud W) (reports : Reports W) where
  check_add_heartbeat-IsBounded :
      (identity : Identity) → Keeps (IsBounded {W = W}) (check_add_heartbeat c reports identity)
  unfolding check_add_heartbeat add_heartbeat
  check_add_heartbeat-IsBounded identity =
      search
        (
          keeps_rules, on_world-IsBounded, observe-IsBounded, sent-IsBounded,
          heartbeats_for-IsBounded,
        )
        depth 15

  note_error-IsBounded :
      {P : AgentLoop W → Type 0} (e : Error)
      → Triple P (note_error c reports e) (λ _. IsBounded) (λ _ _. ⊥)
  unfolding note_error observe on_world zoom pure ◌>>=◌ modify
  note_error-IsBounded e = record { at = λ s _. length-first-le 25 ((e, _) ∷ s.errors) }

  note_all-IsBounded :
      (errors : List Error)
      → Triple IsBounded (for_each errors (note_error c reports)) (λ _. IsBounded) (λ _ _. ⊥)
  note_all-IsBounded errors =
      Triple-for_each (λ _. IsBounded) (note_error c reports) (λ e rest. note_error-IsBounded e)
        errors

  module _ (iterate : List Candidate → List Candidate) (settings : Settings)
      (identity : Identity) where
    iterate_and_note-IsBounded :
        Triple IsBounded
          (iterate_and_note c reports iterate settings identity)
          (λ _. IsBounded)
          (λ _ _. ⊥)
    unfolding iterate_and_note
    iterate_and_note-IsBounded =
        Triple-catch {R = λ _. IsBounded} _ _
          (Triple-bind _ _ (Triple-Keeps (on_agent-IsBounded _))
            (λ errors. Triple-conseq (note_all-IsBounded errors) (λ _ s h. h) (λ e s x. absurd x)))
          (λ e. note_error-IsBounded e)

    passed-IsBounded :
        (m : Exec (AgentLoop W) (Unit {0}))
        → Keeps IsBounded m
        → Triple IsBounded (catch m (λ e. pure tt)) (λ _. IsBounded) (λ _ _. ⊥)
    passed-IsBounded m keeps =
        Triple-catch _ _ (Triple-Keeps keeps) (λ e. Triple-pure tt (λ s h. h))

    -- A round of the main loop does not raise, whatever Dagster Cloud, the thread pool and the user
    -- code launcher do, and keeps the number of errors at 25 at most.
    pub run_loop_round-IsBounded :
        (s : AgentLoop W)
        → length s.errors ≤ 25
        → Post
            (λ _ s'. length s'.errors ≤ 25)
            (λ _ _. ⊥)
            (run_loop_round c reports iterate settings identity s)
    unfolding run_loop_round
    run_loop_round-IsBounded s short =
        (Triple-bind _ _ iterate_and_note-IsBounded (λ _.
            Triple-bind _ _ (passed-IsBounded _ (check_add_heartbeat-IsBounded identity))
              (λ _. passed-IsBounded _ (on_agent-IsBounded _)))).at
          s short
