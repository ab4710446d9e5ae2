-- ===== src/Pex/Registry.antt =====
-- dagster-cloud/dagster_cloud/pex/grpc/server/registry.py: the files that a pex tag names. The file
-- system and S3 are a parameter.
pub mod Tags
use Prim.Native.String.{◌++◌}
use text.Mathlib.Text.{starts_with}
use dagster_cloud.Prelude.{
  String, ◌≡◌, refl, Bool, true, false, not, Option, none, some, List, [], ◌∷◌, ◌++◌ as append,
  ◌==◌, string_eq, if◌then◌else◌,
}
use dagster_cloud.Prelude.Split.{split, split_once, join}
use dagster_cloud.Exec.{raised, Result, ok, err, Exec, pure, raise, gets, ◌>>=◌, ◌>>◌}
use dagster_cloud.Launcher.Upload.{result}

pub record Files (W : Type 0) : Type 0 where
  pub exists : String → W → Bool
  pub s3_pex_disabled : W → Bool
  -- _download_from_s3
  pub download : String → String → Exec W (Unit {0})
  -- os.chmod(path, 0o775)
  pub make_executable : String → Exec W (Unit {0})

pub record PexExecutable : Type 0 where
  pub source_path : String
  pub all_paths : List String
  -- the value of PEX_PATH in the environment
  pub pex_path : String

-- ends with a slash
ends_dir : String → Bool
ends_dir String.[] = false
ends_dir (String.◌∷◌ c String.[]) = starts_with (String.◌∷◌ c String.[]) "/"
ends_dir (String.◌∷◌ c (String.◌∷◌ d s)) = ends_dir (String.◌∷◌ d s)

-- os.path.join(directory, name)
unfoldable pub path_join : String → String → String
unfolding ends_dir
path_join directory name =
    if starts_with name "/"
    then name
    else if ends_dir directory
    then directory ++ name
    else directory ++ ("/" ++ name)

abbrev pub is_source : String → Bool
is_source filename = starts_with filename "source-"

module _ {W : Type 0} (files : Files W) (local_pex_files_dir : String) where
  abbrev pub local_path : String → String
  local_path filename = path_join local_pex_files_dir filename

  -- download the file, unless it is there
  unfoldable pub fetch : String → Exec W (Unit {0})
  fetch filename = do
    there ← gets (files.exists (local_path filename))
    disabled ← gets files.s3_pex_disabled
    if there
        then pure tt
        else if disabled
        then raise (raised "ValueError: file not found, S3_PEX_DISABLED")
        else files.download filename (local_path filename)

  -- the source file so far and the dependencies so far
  abbrev pub Found : Type 0
  Found = Option String × List String

  unfoldable pub find_file : String → Found → Exec W Found
  find_file filename (source, deps) = do
    fetch filename
    if is_source filename
        then (do
          files.make_executable (local_path filename)
          pure (some (local_path filename), deps))
        else pure (source, append deps (local_path filename ∷ []))

  -- for filename in pex_filenames
  unfoldable pub find_files : List String → Found → Exec W Found
  find_files [] found = pure found
  find_files (filename ∷ filenames) found = do
    next ← find_file filename found
    find_files filenames next

  abbrev pub to_executable : Found → Result PexExecutable
  to_executable (none, deps) = err (raised "ValueError: invalid pex_tag has no source pex")
  to_executable (some source, deps) =
      ok (record { source_path = source; all_paths = source ∷ deps; pex_path = join ":" deps })

  unfoldable pub check_prefix : Option (String × String) → Exec W String
  check_prefix none = raise (raised "ValueError: invalid pex tag, no prefix")
  check_prefix (some (prefix, filenames)) =
      if prefix == "files"
      then pure filenames
      else raise (raised "ValueError: expected pex_tag prefix not found in tag")

  -- get_pex_executable
  unfoldable pub get_pex_executable : String → Exec W PexExecutable
  get_pex_executable pex_tag = do
    filenames ← check_prefix (split_once b'=' pex_tag)
    found ← find_files (split b':' filenames) (none, [])
    result (to_executable found)
