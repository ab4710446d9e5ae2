-- ===== src/Secrets.antt =====
-- dagster-cloud/dagster_cloud/secrets/loader.py. The query is a parameter.
pub mod Scopes
use dagster_cloud.Prelude.{
  ℕ, String, Bool, true, false, not, Option, none, some, List, [], ◌∷◌, leb, string_eq,
  if◌then◌else◌,
}
use dagster_cloud.Exec.{Exec, pure, ◌>>=◌}
use dagster_cloud.Dict.{Dict, put}

pub record Secret : Type 0 where
  pub secret_name : String
  pub secret_value : String
  pub location_names : List String

abbrev is_nonempty : List String → Bool
is_nonempty [] = false
is_nonempty (x ∷ xs) = true

abbrev pub is_scoped : Secret → Bool
is_scoped secret = is_nonempty secret.location_names

-- the sort key: 1 stands for the text "1"
abbrev pub sort_key : Secret → ℕ
sort_key secret = if is_scoped secret then 1 else 0

unfoldable pub insert : Secret → List Secret → List Secret
insert secret [] = secret ∷ []
insert secret (other ∷ secrets) =
    let rest = insert secret secrets in
    if leb (sort_key secret) (sort_key other) then secret ∷ other ∷ secrets else other ∷ rest

-- sorted(secrets, key=...)
unfoldable pub sort : List Secret → List Secret
sort [] = []
sort (secret ∷ secrets) = insert secret (sort secrets)

-- {secret["secretName"]: secret["secretValue"] for secret in secrets}
unfoldable pub to_dict : List Secret → Dict String String → Dict String String
to_dict [] d = d
to_dict (secret ∷ secrets) d = to_dict secrets (put secret.secret_name secret.secret_value d)

unfoldable pub get_secrets_for_environment :
    {W : Type 0}
    → (Option String → Exec W (List Secret))
    → Option String
    → Exec W (Dict String String)
get_secrets_for_environment query location_name = do
  secrets ← query location_name
  pure (to_dict (sort secrets) [])
