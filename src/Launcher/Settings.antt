-- ===== src/Launcher/Settings.antt =====
-- The settings for the time to live of servers in user_code_launcher.py.
use dagster_cloud.Prelude.{ℕ, ◌*◌, Bool, true, false, Option, none, some}

-- the settings of one kind of deployments
pub record DeploymentTtl : Type 0 where
  pub enabled : Option Bool
  pub ttl_seconds : Option ℕ

-- `_server_ttl_config`: a key that is not there is `none`
pub record ServerTtlConfig : Type 0 where
  pub enabled : Option Bool
  pub ttl_seconds : Option ℕ
  pub full_deployments : Option DeploymentTtl
  pub branch_deployments : Option DeploymentTtl
  pub max_servers : Option ℕ

-- d.get(key, default)
abbrev pub or_default {ℓ} : {A : Type ℓ} → Option A → A → A
or_default none default = default
or_default (some value) default = value

abbrev pub default_server_ttl_seconds : ℕ
default_server_ttl_seconds = 60 * 60 * 24

abbrev pub default_max_ttl_servers : ℕ
default_max_ttl_servers = 25

abbrev pub ttl_of : Option DeploymentTtl → ℕ
ttl_of none = default_server_ttl_seconds
ttl_of (some deployments) = or_default deployments.ttl_seconds default_server_ttl_seconds

abbrev pub enabled_in : Option DeploymentTtl → Bool
enabled_in none = false
enabled_in (some deployments) = or_default deployments.enabled true

unfoldable pub server_ttl_enabled_for_full_deployments : ServerTtlConfig → Bool
server_ttl_enabled_for_full_deployments config =
    or_default config.enabled (enabled_in config.full_deployments)

unfoldable pub full_deployment_ttl_seconds : ServerTtlConfig → ℕ
full_deployment_ttl_seconds config = or_default config.ttl_seconds (ttl_of config.full_deployments)

unfoldable pub branch_deployment_ttl_seconds : ServerTtlConfig → ℕ
branch_deployment_ttl_seconds config = ttl_of config.branch_deployments

unfoldable pub server_ttl_max_servers : ServerTtlConfig → ℕ
server_ttl_max_servers config = or_default config.max_servers default_max_ttl_servers
