-- ===== src/Pex/Registry/Tags.antt =====
-- The tags that name files which are on the disk already.
use Prim.Native.String.{◌++◌}
use mathlib.Core.List.{append-nil, append_assoc, ◌++◌ as append}
use dagster_cloud.Prelude.{
  String, ◌≡◌, refl, ap, ◌∙◌, true, Option, none, some, List, [], ◌∷◌, if◌then◌else◌, arith,
  string_eq, contains, beq_refl, Bool-cases, inl, inr,
}
use dagster_cloud.Prelude.Split.{join, AllLack, split-join, split_once-append, lacks}
use dagster_cloud.Exec.{Result, ok, err, pure, gets, ◌>>=◌}
use dagster_cloud.Exec.Triple.{Post}
use dagster_cloud.Launcher.Upload.{result}
use dagster_cloud.Pex.Registry.{
  Files, local_path, is_source, fetch, find_file, find_files, to_executable, check_prefix,
  get_pex_executable,
}

module _ {W : Type 0} (files : Files W) (dir : String) where
  -- The last file whose name begins with "source-".
  abbrev pub source_of : Option String → List String → Option String
  source_of source [] = source
  source_of source (f ∷ fs) =
      source_of (if is_source f then some (local_path files dir f) else source) fs

  -- The other files.
  abbrev pub deps_of : List String → List String
  deps_of [] = []
  deps_of (f ∷ fs) = if is_source f then deps_of fs else local_path files dir f ∷ deps_of fs

  abbrev pub Present : List String → Type 0
  Present names =
      (f : String) (w : W)
      → contains f names ≡ true
      → files.exists (local_path files dir f) w ≡ true

  abbrev pub CanMark : Type 0
  CanMark =
      (path : String) (w : W) → Post (λ _ _. Unit {0}) (λ _ _. ⊥) (files.make_executable path w)

  returned :
      (r : Result (Unit {0}) × W) → Post (λ _ _. Unit {0}) (λ _ _. ⊥) r → (w : W) × (r ≡ (ok tt, w))
  returned (ok tt, w) h = (w, refl)
  returned (err e, w) h = absurd h

  find_file_lem :
      (f : String) (source : Option String) (deps : List String) (w : W)
      → files.exists (local_path files dir f) w ≡ true
      → CanMark
      → (w' : W) × (find_file files dir f (source, deps) w ≡ (
        ok (
          (if is_source f then some (local_path files dir f) else source),
          append deps (if is_source f then [] else local_path files dir f ∷ []),
        ),
        w',
      ))
  unfolding find_file fetch gets pure ◌>>=◌
  find_file_lem f source deps w there mark = elim (Bool-cases (is_source f)) [
    | inl marked ↦
        let (w', e) = returned (files.make_executable (local_path files dir f) w) (mark _ w) in
        (w', rw (there, marked, e, append-nil deps) refl)
    | inr other ↦ (w, rw (there, other) refl)
  ]

  deps_step :
      (f : String) (fs deps : List String)
      → append (append deps (if is_source f then [] else local_path files dir f ∷ [])) (deps_of fs)
        ≡ append deps (deps_of (f ∷ fs))
  deps_step f fs deps = elim (Bool-cases (is_source f)) [
    | inl marked ↦ rw (marked, append-nil deps) refl
    | inr other ↦ rw other (append_assoc deps (local_path files dir f ∷ []) (deps_of fs))
  ]

  find_files_lem :
      (names : List String) (source : Option String) (deps : List String) (w : W)
      → Present names
      → CanMark
      → (w' : W) × (find_files files dir names (source, deps) w
          ≡ (ok (source_of source names, append deps (deps_of names)), w'))
  unfolding find_files pure ◌>>=◌ contains
  find_files_lem [] source deps w here mark = (w, rw (append-nil deps) refl)
  find_files_lem (f ∷ fs) source deps w here mark =
      let (w₁, e₁) = find_file_lem f source deps w (here f w (ground (arith, beq_refl f))) mark in
      let (w₂, e₂) =
        find_files_lem fs (if is_source f then some (local_path files dir f) else source)
          (append deps (if is_source f then [] else local_path files dir f ∷ [])) w₁
          (λ g u c. here g u (ground (arith, c))) mark in
      (w₂, rw e₁ (e₂ ∙ ap (λ d. (ok (source_of source (f ∷ fs), d), w₂)) (deps_step f fs deps)))

  -- The tag of a list of files is read back as these files. Where all of them are on the disk, and
  -- can be made executable, nothing is downloaded: the executable is the last source file, and its
  -- PEX_PATH the others in their order; without a source file there is an error.
  pub get_pex_executable-join :
      (f : String) (fs : List String) (w : W)
      → AllLack b':' (f ∷ fs)
      → Present (f ∷ fs)
      → CanMark
      → (w' : W) × (get_pex_executable files dir ("files" ++ String.◌∷◌ "=" (join ":" (f ∷ fs))) w
          ≡ result (to_executable files dir (source_of none (f ∷ fs), deps_of (f ∷ fs))) w')
  unfolding get_pex_executable check_prefix ◌>>=◌ pure lacks
  get_pex_executable-join f fs w lack here mark =
      let (w', e) = find_files_lem (f ∷ fs) none [] w here mark in
      (
        w',
        rw
            (
              split_once-append b'=' "=" "files" (join ":" (f ∷ fs)) refl refl,
              split-join b':' ":" f fs refl lack,
              e,
            )
            refl,
      )
