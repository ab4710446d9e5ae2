-- ===== src/Launcher/Multipex/Frame.antt =====
-- To start a server, or to ask for those that run, changes nothing of the launcher's dictionaries.
use dagster_cloud.Prelude.{Option, none, some, string_eq, pair_eq}
use dagster_cloud.Exec.Keeps.{Keeps, keeps_rules}
use dagster_cloud.Launcher.Types.{
  DeploymentAndLocation, CodeDeploymentMetadata, UserCodeLauncherEntry, DagsterCloudGrpcServer,
  Servers,
}
use dagster_cloud.Launcher.Backend.{Backend}
use dagster_cloud.Launcher.Multipex.{
  assert_some, check_for_image, create_pex_server, start_new_dagster_server, remove_server,
}
use dagster_cloud.Launcher.Upload.Frame.{SameServers, on_world-Keeps}

module _ {W : Type 0} (b : Backend W) (s : Servers W) where
  assert_some-Keeps :
      {A : Type 0} (o : Option A) → Keeps (SameServers s) (assert_some {S = Servers W} o)
  unfolding assert_some
  assert_some-Keeps none = search keeps_rules
  assert_some-Keeps (some a) = search keeps_rules

  pub check_for_image-Keeps :
      (m : CodeDeploymentMetadata) → Keeps (SameServers s) (check_for_image b m)
  unfolding check_for_image
  check_for_image-Keeps m = search keeps_rules

  create_pex_server-Keeps :
      (k : DeploymentAndLocation) (e : UserCodeLauncherEntry) (x : DagsterCloudGrpcServer)
      → Keeps (SameServers s) (create_pex_server b k e x)
  unfolding create_pex_server
  create_pex_server-Keeps k e x = on_world-Keeps s _

  pub start_new_dagster_server-Keeps :
      (k : DeploymentAndLocation) (e : UserCodeLauncherEntry)
      → Keeps (SameServers s) (start_new_dagster_server b k e)
  unfolding start_new_dagster_server
  start_new_dagster_server-Keeps k e =
      search (keeps_rules, on_world-Keeps, assert_some-Keeps, create_pex_server-Keeps) depth 9

  pub remove_server-Keeps : (k : DeploymentAndLocation) → Keeps (SameServers s) (remove_server b k)
  unfolding remove_server
  remove_server-Keeps k = search (keeps_rules, on_world-Keeps) depth 9
