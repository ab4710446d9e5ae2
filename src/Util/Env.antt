-- ===== src/Util/Env.antt =====
-- get_env_names_from_config of dagster-cloud/dagster_cloud/util/__init__.py.
use dagster_cloud.Prelude.{
  String, Bool, Option, none, some, List, [], ◌∷◌, ◌==◌, string_eq, if◌then◌else◌,
}
use dagster_cloud.Dict.{Dict, lookup}

-- A value of the configuration: a dictionary, with its value for "env", or anything else.
pub data ConfigValue : Type 0 where
  dictionary : Option String → ConfigValue
  plain : ConfigValue

-- the name of the environment variable, unless it is missing or blank
abbrev pub env_name : Option ConfigValue → Option String
env_name none = none
env_name (some plain) = none
env_name (some (dictionary none)) = none
env_name (some (dictionary (some name))) = if name == "" then none else some name

abbrev pub append_name : Option String → List String → List String
append_name none names = names
append_name (some name) names = name ∷ names

-- `config_schema` tells of each field whether its type is a string, an integer or a Boolean that
-- may come from the environment.
unfoldable pub get_env_names_from_config : Dict String Bool → Dict String ConfigValue → List String
get_env_names_from_config [] config_dict = []
get_env_names_from_config ((field_name, is_source) ∷ fields) config_dict =
    let rest = get_env_names_from_config fields config_dict in
    if is_source then append_name (env_name (lookup field_name config_dict)) rest else rest
