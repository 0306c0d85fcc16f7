-- ===== src/Tests/Singbox.antt =====
-- Tests of Singbox.
use local_singbox_manager.Common.{
  ◌≡◌, refl, true, false, some, [], ◌++◌, strip, lstrip, rstrip, is_space,
}
use local_singbox_manager.Common.Results.{ok}
use local_singbox_manager.Singbox.Host.{validate_config, result_of, run, run_helper, is_active}
use local_singbox_manager.Singbox.Deployer.{
  DeployResult, deploy_with_rollback, run_deploy, wait_service_active, config_hash, deploy_path,
}
use local_singbox_manager.Singbox.Deployer.Laws.{
  privileged, expected_calls, deploy_with_rollback-privileged,
}
use local_singbox_manager.Tests.Samples.{sample_python, sample_host}

abbrev deployed : DeployResult
deployed = record {
  success = true;
  stage = "ok";
  error = "";
  rolled_back = false;
  backup_name = some "config_20250101_000000.json";
  node_tag = some "web";
  config_hash = some "canonical";
}

deploy_succeeds : (deploy_with_rollback sample_host false [] "web" true []).0 ≡ ok deployed
unfolding deploy_with_rollback run_deploy wait_service_active config_hash validate_config run_helper
    run is_active result_of strip lstrip rstrip is_space
deploy_succeeds = refl

deploy_with_rollback-privileged_example :
    privileged (deploy_with_rollback sample_host false [] "web" true []).1
    ≡ expected_calls sample_host
        (deploy_path sample_host (validate_config sample_host []).1)
        deployed
      ++ privileged []
deploy_with_rollback-privileged_example =
    deploy_with_rollback-privileged sample_host false [] "web" true [] deployed refl deploy_succeeds
