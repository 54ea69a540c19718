-- ===== src/Teardown/Scenario.antt =====
-- A cluster of two control-plane Machines in an outage, on which the teardown of internal/teardown is
-- run.
use cluster_api_runtime_exte.Base.{refl, string_eq, ℕ, String, none, some, [], ◌∷◌}
use cluster_api_runtime_exte.Teardown.Api.{
  hook_annotation, ClusterApi, ObjectKey, Condition, Machine, observed_at_annotation,
}
use cluster_api_runtime_exte.Teardown.Effect.{other, not_found, ok, err, Env}
use cluster_api_runtime_exte.Teardown.Controller.{Reconciler}
use cluster_api_runtime_exte.Teardown.Order.{IsApart}

abbrev pub v1beta2 : ClusterApi
v1beta2 = record {
  pre_terminate_prefix = "pre-terminate.delete.hook.machine.cluster.x-k8s.io";
  control_plane_label = "cluster.x-k8s.io/control-plane";
  cluster_name_label = "cluster.x-k8s.io/cluster-name";
  deleting_condition = "Deleting";
  condition_true = "True";
  deleting = "Deleting";
  waiting_for_pre_drain_hook = "WaitingForPreDrainHook";
  draining_node = "DrainingNode";
  waiting_for_volume_detach = "WaitingForVolumeDetach";
  waiting_for_pre_terminate_hook = "WaitingForPreTerminateHook";
  internal_ip = "InternalIP";
  external_ip = "ExternalIP";
  host_name = "Hostname";
}

pub v1beta2-IsApart : IsApart v1beta2
unfolding hook_annotation string_eq
v1beta2-IsApart = record { observed_at = refl; etcd = refl; reset = refl }

abbrev pub hook : String
hook = "pre-terminate.delete.hook.machine.cluster.x-k8s.io/talos-teardown"

abbrev pub noon : String
noon = "2026-01-01T12:00:00Z"

abbrev pub parked : Condition
parked = record { kind = "Deleting"; status = "True"; reason = "WaitingForPreTerminateHook" }

-- A deleting, hooked control-plane Machine at the pre-terminate wait since noon.
abbrev pub leaver : String → ℕ → Machine
leaver name deleted_at = record {
  name = name;
  namespace = "default";
  labels = ("cluster.x-k8s.io/control-plane", "") ∷ [];
  annotations = (hook, "talos-machine-teardown") ∷ (observed_at_annotation, noon) ∷ [];
  creation_timestamp = 5;
  deletion_timestamp = some deleted_at;
  cluster_name = "prod";
  bootstrap = record {
    kind = "TalosConfig";
    api_group = "bootstrap.cluster.x-k8s.io";
    name = name;
  };
  infrastructure = record {
    kind = "TinkerbellMachine";
    api_group = "infrastructure.cluster.x-k8s.io";
    name = name;
  };
  node_ref = name;
  addresses = [];
  conditions = parked ∷ [];
}

abbrev pub cp_0 : Machine
cp_0 = leaver "cp-0" 100

abbrev pub cp_1 : Machine
cp_1 = leaver "cp-1" 200

-- The API server takes all writes, no Talos node answers, and no other object is found.
abbrev pub outage : Env
outage = record {
  now = λ t. 5000000000000;
  format_time = λ n. noon;
  parse_time = λ s. some 1000;
  get_machine = λ t key. ok cp_0;
  get_cluster = λ t key. ok (record { deletion_timestamp = none });
  get_infra_machine = λ t key. err not_found;
  get_hardware = λ t key. err not_found;
  get_secret = λ t key. err not_found;
  machines_of = λ t namespace name control_plane. ok (cp_1 ∷ cp_0 ∷ []);
  secrets_of = λ t namespace. ok [];
  new_patch_helper = λ t m. none;
  patch_machine = λ t m a. none;
  write_secret = λ t s. none;
  remove_secret = λ t key. none;
  parse_config = λ s. err (other "not a talosconfig");
  dial_node = λ t c address. some (other "no route");
  answer_services = λ t address. err (other "no route");
  answer_members = λ t address. err (other "no route");
  answer_rpc = λ t address c. some (other "no route");
}

-- The deadlines are the defaults of cmd/talos-machine-teardown: two and five minutes.
abbrev pub controller : Reconciler
controller = record {
  api = v1beta2;
  env = outage;
  etcd_timeout = 120000000000;
  reset_timeout = 300000000000;
  cache_namespace = "caren-system";
}

abbrev pub key_0 : ObjectKey
key_0 = record { namespace = "default"; name = "cp-0" }
