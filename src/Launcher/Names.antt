-- ===== src/Launcher/Names.antt =====
-- dagster-cloud/dagster_cloud/workspace/user_code_launcher/utils.py, and the names of resources in
-- kubernetes/utils.py, ecs/utils.py and docker/utils.py of dagster-cloud/dagster_cloud/workspace:
-- random and hashed digits, `str.lower` and sanitize_family of dagster_aws are parameters.
pub mod Labels
pub mod Families
use Prim.Native.Char.{Char, code}
use Prim.Native.String.{◌++◌}
use dagster_cloud.Prelude.{
  ℕ, ◌+◌, String, Bool, true, false, not, ◌&&◌, ◌||◌, Option, none, some, leb, nat_beq, is_blank,
  if◌then◌else◌,
}
use dagster_cloud.Prelude.Slices.{len, take, take_difference, only, lstrip, strip}
use dagster_cloud.Exec.{Error, assertion_error, Result, ok, err}

abbrev pub sanitize : Option (String → String) → String → String
sanitize none name = name
sanitize (some sanitize_fn) name = sanitize_fn name

-- `hex` is uuid.uuid4().hex
unfoldable pub unique_resource_name :
    (hex deployment_name location_name : String) (length_limit : ℕ)
    → Option (String → String)
    → Result String
unique_resource_name hex deployment_name location_name length_limit sanitize_fn =
    let hash_value = take 6 hex in
    let name = location_name ++ ("-" ++ deployment_name) in
    let truncated_location_name = take_difference length_limit 7 (sanitize sanitize_fn name) in
    let sanitized_unique_name =
      if is_blank truncated_location_name
      then hash_value
      else truncated_location_name ++ ("-" ++ hash_value) in
    if leb (len sanitized_unique_name) length_limit
    then ok sanitized_unique_name
    else err assertion_error

unfoldable pub get_human_readable_label : String → ℕ → Option (String → String) → String
get_human_readable_label name length_limit sanitize_fn =
    sanitize sanitize_fn (take length_limit name)

-- `sha1` gives the hexadecimal digest of a text
unfoldable pub deterministic_label_for_location : (String → String) → String → String → String
deterministic_label_for_location sha1 deployment_name location_name =
    sha1 (deployment_name ++ ("-" ++ location_name))

abbrev pub is_lower : Char → Bool
is_lower c = leb b'a' (code c) && leb (code c) b'z'

abbrev pub is_upper : Char → Bool
is_upper c = leb b'A' (code c) && leb (code c) b'Z'

abbrev pub is_digit : Char → Bool
is_digit c = leb b'0' (code c) && leb (code c) b'9'

abbrev pub is_dash : Char → Bool
is_dash c = nat_beq (code c) b'-'

abbrev pub is_underscore : Char → Bool
is_underscore c = nat_beq (code c) b'_'

abbrev pub is_dot : Char → Bool
is_dot c = nat_beq (code c) b'.'

-- [a-z0-9-]
abbrev pub is_name : Char → Bool
is_name c = is_lower c || is_digit c || is_dash c

-- [a-zA-Z0-9-_.]
abbrev pub is_label : Char → Bool
is_label c = is_name c || is_upper c || is_underscore c || is_dot c

module _ (lower : String → String) where
  -- kubernetes/utils.py
  unfoldable pub sanitize_k8s_resource_name : String → String
  sanitize_k8s_resource_name name =
      let filtered_name =
        strip is_dash (lstrip (λ c. not (is_lower c)) (only is_name (lower name))) in
      if is_blank filtered_name then "k8s" else filtered_name

  unfoldable pub unique_k8s_resource_name :
      (hex deployment_name location_name : String) → Result String
  unique_k8s_resource_name hex deployment_name location_name =
      unique_resource_name hex deployment_name location_name 63 (some sanitize_k8s_resource_name)

unfoldable pub get_k8s_human_readable_label : String → String
unfolding get_human_readable_label
get_k8s_human_readable_label name =
    get_human_readable_label name 63
      (some (λ s. strip is_dot (strip is_underscore (strip is_dash (only is_label s)))))

abbrev sanitize_name : String → String
sanitize_name name = strip is_dash (only is_name name)

-- ecs/utils.py
unfoldable pub unique_ecs_resource_name :
    (hex deployment_name location_name : String) → Result String
unique_ecs_resource_name hex deployment_name location_name =
    unique_resource_name hex deployment_name location_name 60 (some sanitize_name)

unfoldable pub get_ecs_human_readable_label : String → String
get_ecs_human_readable_label name = get_human_readable_label name 60 (some sanitize_name)

-- docker/utils.py
unfoldable pub unique_docker_resource_name :
    (hex deployment_name location_name : String) → Result String
unique_docker_resource_name hex deployment_name location_name =
    unique_resource_name hex deployment_name location_name 128 (some sanitize_name)

abbrev pub text_of : Option String → String
text_of none = "None"
text_of (some organization_name) = organization_name

-- assert
abbrev pub asserting : Bool → Result String → Result String
asserting true result = result
asserting false result = err assertion_error

-- ecs/utils.py
unfoldable pub get_task_definition_family :
    (sha1 sanitize_family : String → String) (prefix : String) (organization_name : Option String)
    (deployment_name location_name : String)
    → Result String
get_task_definition_family sha1 sanitize_family prefix organization_name deployment_name
      location_name =
    let location_name_hash = take 8 (sha1 location_name) in
    let truncated_location_name = take 55 location_name ++ ("_" ++ location_name_hash) in
    let final_family =
      prefix
      ++ ("_"
          ++ (text_of organization_name
              ++ ("_" ++ (deployment_name ++ ("_" ++ truncated_location_name))))) in
    asserting (leb (len (text_of organization_name)) 64) (
      asserting (leb (len deployment_name) 64) (
        asserting (leb (len prefix) 32) (
          asserting (leb (len truncated_location_name) 64)
            (asserting (leb (len final_family) 255) (ok (sanitize_family final_family))))))
