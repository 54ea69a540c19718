-- ===== src/Cmd/Startup/Mains.antt =====
-- The mains of cmd/main.go, cmd/tinkerbell-hardware-janitor/main.go and
-- cmd/talos-machine-teardown/main.go.
use cluster_api_runtime_exte.Base.{
  String, ◌<>◌, Option, none, some, [], ◌∷◌, ◌==◌, string_eq, if◌then◌else◌,
}
use cluster_api_runtime_exte.Janitor.{owner_name_label}
use cluster_api_runtime_exte.Logging.{new}
use cluster_api_runtime_exte.Cmd.Discovery.{Flags, WorkerSettings, worker_settings}
use cluster_api_runtime_exte.Cmd.TeardownManager.{Options, with_pod_namespace}
use cluster_api_runtime_exte.Cmd.JanitorManager.{JanitorFlags, janitor_options}
use cluster_api_runtime_exte.Cmd.Startup.{
  client_go, bmc, tinkerbell, cluster_api, secrets, hardware, ManagerOptions, TeardownSettings,
  parse_selector, get_config, new_manager, add_worker, set_up_teardown, set_up_janitor,
  add_credential_gc, add_healthz_check, add_readyz_check, start, returned, exited, Main, leave,
  attempt, add_schemes, with_logger,
}

abbrev pub discovery_manager : Flags → ManagerOptions
discovery_manager f = record {
  metrics = f.metrics_addr;
  probe = f.probe_addr;
  leader_election = f.leader_elect;
  leader_election_id = "tinkerbell-bmc-discovery-controller.discovery.tinkerbell.org";
  leader_election_namespace = f.namespace;
  namespaces = f.namespace ∷ [];
  sync_period = none;
  hardware_selector = none;
  uncached = [];
}

abbrev pub with_worker : Option WorkerSettings → (WorkerSettings → Main) → Main
with_worker none next = leave (exited "invalid --default-credentials")
with_worker (some settings) next = next settings

abbrev pub health_checks : Main → Main
health_checks next =
    attempt add_healthz_check "unable to set up health check"
      (attempt add_readyz_check "unable to set up ready check" next)

abbrev pub start_manager : Main
start_manager = attempt start "manager exited with error" (leave returned)

-- main of the discovery controller
unfoldable pub discovery_main : Flags → Main
unfolding add_schemes
discovery_main f = with_logger (new f.log_level f.log_format) (
    with_worker (worker_settings f) (λ settings.
      add_schemes (client_go ∷ bmc ∷ tinkerbell ∷ []) "unable to build scheme" (
        attempt get_config "unable to get kubeconfig" (
          attempt (new_manager (discovery_manager f)) "unable to create manager" (
            attempt (add_worker settings) "unable to add discovery worker"
              (health_checks start_manager))))))

abbrev pub janitor_manager : JanitorFlags → String → ManagerOptions
janitor_manager f selector = record {
  metrics = f.metrics_addr;
  probe = f.probe_addr;
  leader_election = f.leader_elect;
  leader_election_id = "tinkerbell-hardware-janitor.janitor.tinkerbell.org";
  leader_election_namespace = f.namespace;
  namespaces = f.namespace ∷ [];
  sync_period = some f.resync_period;
  hardware_selector = some selector;
  uncached = [];
}

abbrev pub selector_text : String
selector_text = "!" <> owner_name_label

-- What main of the janitor sets up, once it has a logger.
unfoldable pub set_up_janitor_manager : JanitorFlags → Main
unfolding add_schemes
set_up_janitor_manager f = add_schemes (client_go ∷ tinkerbell ∷ []) "unable to build scheme" (
    attempt (parse_selector selector_text) "unable to parse hardware label selector" (
      attempt get_config "unable to get kubeconfig" (
        attempt (new_manager (janitor_manager f selector_text)) "unable to create manager" (
          attempt (set_up_janitor (janitor_options f)) "unable to set up controller"
            (health_checks start_manager)))))

-- main of the janitor
unfoldable pub janitor_main : JanitorFlags → Main
unfolding set_up_janitor_manager
janitor_main f = with_logger (new f.log_level f.log_format) (set_up_janitor_manager f)

abbrev pub teardown_manager : Options → ManagerOptions
teardown_manager opts = record {
  metrics = opts.metrics_addr;
  probe = opts.probe_addr;
  leader_election = opts.leader_elect;
  leader_election_id = "talos-machine-teardown.teardown.tinkerbell.org";
  leader_election_namespace = opts.cache_namespace;
  namespaces = if opts.watch_namespace == "" then [] else opts.watch_namespace ∷ [];
  sync_period = none;
  hardware_selector = none;
  uncached = secrets ∷ hardware ∷ [];
}

abbrev pub teardown_settings : Options → TeardownSettings
teardown_settings opts = record {
  cache_namespace = opts.cache_namespace;
  etcd_timeout = opts.etcd_timeout;
  reset_timeout = opts.reset_timeout;
  etcd_call_timeout = opts.etcd_call_timeout;
  reset_call_timeout = opts.reset_call_timeout;
  concurrency = opts.concurrency;
}

-- buildManager
unfoldable pub build_manager : Options → Main → Main
unfolding add_schemes
build_manager opts next =
    add_schemes (client_go ∷ cluster_api ∷ tinkerbell ∷ []) "creating manager: building scheme" (
      attempt get_config "unable to get kubeconfig"
        (attempt (new_manager (teardown_manager opts)) "creating manager" next))

-- run, once it has a namespace for the cache: the messages are those that it wraps its errors in.
unfoldable pub set_up_teardown_manager : Options → Main
unfolding build_manager
set_up_teardown_manager opts = build_manager opts (
    attempt (set_up_teardown (teardown_settings opts)) "setting up controller" (
      attempt (add_credential_gc opts.cache_namespace) "adding credential GC" (
        attempt add_healthz_check "setting up health check"
          (attempt add_readyz_check "setting up ready check" (attempt start "" (leave returned))))))

-- run
unfoldable pub run : Options → Main
unfolding set_up_teardown_manager
run opts =
    if opts.cache_namespace == ""
    then leave (exited "--cache-namespace is required when POD_NAMESPACE is unset")
    else set_up_teardown_manager opts

-- main of the teardown manager, in an environment with a POD_NAMESPACE.
unfoldable pub teardown_main : String → Options → Main
unfolding run
teardown_main pod_namespace o =
    let opts = with_pod_namespace pod_namespace o in
    with_logger (new opts.log_level opts.log_format) (run opts)
