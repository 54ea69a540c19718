-- ===== src/Cmd/TeardownManager.antt =====
-- cmd/talos-machine-teardown/main.go.
pub mod Rounds
use cluster_api_runtime_exte.Base.{
  seconds, ℕ, zero, suc, ◌*◌, String, Bool, true, Option, none, some, ◌==◌, string_eq,
  if◌then◌else◌,
}
use cluster_api_runtime_exte.Teardown.Api.{ClusterApi}
use cluster_api_runtime_exte.Teardown.Effect.{Env, World}
use cluster_api_runtime_exte.Teardown.Controller.{Reconciler}
use cluster_api_runtime_exte.Teardown.Credentials.{gc}

-- options
pub record Options : Type 0 where
  pub watch_namespace : String
  pub cache_namespace : String
  pub etcd_timeout : ℕ
  pub reset_timeout : ℕ
  pub etcd_call_timeout : ℕ
  pub reset_call_timeout : ℕ
  pub concurrency : ℕ
  pub leader_elect : Bool
  pub metrics_addr : String
  pub probe_addr : String
  pub log_level : String
  pub log_format : String

-- registerFlags: the options where no flag is given.
abbrev pub default_options : Options
default_options = record {
  watch_namespace = "";
  cache_namespace = "";
  etcd_timeout = seconds 120;
  reset_timeout = seconds 300;
  etcd_call_timeout = seconds 10;
  reset_call_timeout = seconds 30;
  concurrency = 4;
  leader_elect = true;
  metrics_addr = ":8080";
  probe_addr = ":8081";
  log_level = "info";
  log_format = "json";
}

-- The default that main takes from POD_NAMESPACE.
unfoldable pub with_pod_namespace : String → Options → Options
with_pod_namespace pod_namespace opts =
    if opts.cache_namespace == "" then record opts { cache_namespace = pod_namespace } else opts

-- The Reconciler that run makes: `none` where it refuses to start without a namespace for the cache.
unfoldable pub run_reconciler : ClusterApi → Env → Options → Option Reconciler
run_reconciler api env opts =
    if opts.cache_namespace == ""
    then none
    else some (record {
      api = api;
      env = env;
      etcd_timeout = opts.etcd_timeout;
      reset_timeout = opts.reset_timeout;
      cache_namespace = opts.cache_namespace;
    })

-- credentialGC: a collection at the start and one more for each tick before the context is done,
-- whatever errors they end in.
unfoldable pub credential_gc : Reconciler → ℕ → World → World
credential_gc r zero w = (gc r w).1
credential_gc r (suc ticks) w = credential_gc r ticks (gc r w).1
