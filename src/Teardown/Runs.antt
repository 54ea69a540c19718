-- ===== src/Teardown/Runs.antt =====
-- Runs of the teardown on a node that answers, and retries in an outage.
use cluster_api_runtime_exte.Base.{◌≡◌, refl, ◌↔◌, false, none, [], ◌∷◌, arith, string_eq, nat_eq}
use cluster_api_runtime_exte.Base.Dict.{lookup, has}
use cluster_api_runtime_exte.Teardown.Api.{
  ObjectKey, Machine, Secret, reset_annotation, hook_annotation, hook_value,
}
use cluster_api_runtime_exte.Teardown.Effect.{
  Error, handle, this, ask, record_call, raise, pure, ◌>>=◌, wrap, not_found, ok, err, Env, World,
  machine, get,
}
use cluster_api_runtime_exte.Teardown.Controller.{Reconciler, cluster_key_for}
use cluster_api_runtime_exte.Teardown.Scenario.{cp_0, outage, controller, key_0}
use cluster_api_runtime_exte.Teardown.Reconcile.{reconcile}
use cluster_api_runtime_exte.Teardown.Credentials.{config, source_secret_name, cached_secret_name}
use cluster_api_runtime_exte.Teardown.Address.{resolve_address, machine_address, is_node_ip}
use cluster_api_runtime_exte.Teardown.Qualify.{qualifies, has_hook}
use cluster_api_runtime_exte.Teardown.EtcdPhase.{ensure_etcd_removed, try_etcd_removal, load_config}
use cluster_api_runtime_exte.Teardown.ResetPhase.{reset_phase, try_reset}
use cluster_api_runtime_exte.Teardown.Deadline.{
  IsRetry, ensure_etcd_removed-IsRetry, reset_phase-IsRetry,
}
use cluster_api_runtime_exte.Teardown.Clients.{opened, closed}
use cluster_api_runtime_exte.Teardown.Clients.Whole.{reconcile-IsClosed}
use cluster_api_runtime_exte.Teardown.Setup.{machine_predicate, cluster_to_machines}
use cluster_api_runtime_exte.Teardown.Setup.Wakes.{
  IsRequested, IsAdmitted, key_of, reconcile_unadmitted, cluster_to_machines-IsAdmitted,
}

-- A worker that is parked, with an address of its own.
abbrev node : Machine
node = record cp_0 {
  labels = [];
  addresses = record { kind = "InternalIP"; address = "10.0.0.7" } ∷ [];
}

abbrev talosconfig : Secret
talosconfig = record {
  name = "prod-talosconfig";
  namespace = "default";
  resource_version = "1";
  labels = [];
  annotations = [];
  contents = ("talosconfig", "context: prod") ∷ [];
}

-- Every server answers.
abbrev fair : Env
fair = record outage {
  get_machine = λ t key. ok node;
  get_secret = λ t key. ok talosconfig;
  parse_config = λ s. ok (record { text = s });
  dial_node = λ t c address. none;
  answer_rpc = λ t address c. none;
}

abbrev fair_controller : Reconciler
fair_controller = record controller { env = fair }

reconcile-IsClosed_example :
    opened "10.0.0.7" (reconcile fair_controller [] key_0).1
    ≡ closed "10.0.0.7" (reconcile fair_controller [] key_0).1
unfolding opened closed
reconcile-IsClosed_example = reconcile-IsClosed "10.0.0.7" fair_controller [] key_0 refl

-- The outage one second after it was observed.
abbrev soon : Reconciler
soon = record controller { env = record outage { now = λ t. 1000000000 } }

abbrev waiting : World
waiting = record { trace = []; machine = cp_0 }

abbrev stopped : World
stopped = record { trace = []; machine = node }

abbrev missing : Error
missing = wrap "loading talosconfig" not_found

try_etcd_removal-waiting : (try_etcd_removal soon waiting).0 ≡ err missing
unfolding try_etcd_removal load_config config source_secret_name cached_secret_name cluster_key_for
    lookup string_eq ◌>>=◌ handle this ask record_call raise pure
try_etcd_removal-waiting = refl

ensure_etcd_removed-IsRetry_example :
    IsRetry missing waiting (ensure_etcd_removed soon 1000 waiting)
ensure_etcd_removed-IsRetry_example =
    ensure_etcd_removed-IsRetry soon 1000 waiting missing try_etcd_removal-waiting (omega arith)

try_reset-stopped : (try_reset soon stopped).0 ≡ err missing
unfolding try_reset resolve_address machine_address is_node_ip load_config config source_secret_name
    cached_secret_name cluster_key_for lookup string_eq ◌>>=◌ handle this ask record_call raise pure
try_reset-stopped = refl

stopped-open : has reset_annotation node.annotations ≡ false
unfolding lookup string_eq
stopped-open = refl

reset_phase-IsRetry_example : IsRetry missing stopped (reset_phase soon 1000 stopped)
reset_phase-IsRetry_example =
    reset_phase-IsRetry soon 1000 stopped missing stopped-open try_reset-stopped (omega arith)

-- A Machine of another provider.
abbrev foreign : Machine
foreign = record node {
  annotations = [];
  bootstrap = record {
    kind = "KubeadmConfig";
    api_group = "bootstrap.cluster.x-k8s.io";
    name = "other";
  };
}

abbrev shared : Reconciler
shared = record controller {
  env = record outage {
    get_machine = λ t key. ok foreign;
    machines_of = λ t namespace name control_plane. ok (foreign ∷ cp_0 ∷ []);
  };
}

foreign-unadmitted : machine_predicate shared foreign ≡ false
unfolding machine_predicate qualifies has_hook hook_annotation hook_value lookup string_eq
foreign-unadmitted = refl

reconcile-foreign : reconcile shared [] key_0 ≡ (ok 0, get machine key_0 ∷ [])
reconcile-foreign = reconcile_unadmitted shared [] key_0 foreign refl foreign-unadmitted

abbrev prod : ObjectKey
prod = record { namespace = "default"; name = "prod" }

cluster_to_machines-IsAdmitted_example :
    IsRequested (key_of cp_0) (cluster_to_machines shared [] prod).0
    ↔ IsAdmitted shared (key_of cp_0) (foreign ∷ cp_0 ∷ [])
cluster_to_machines-IsAdmitted_example =
    cluster_to_machines-IsAdmitted shared [] prod (key_of cp_0) (foreign ∷ cp_0 ∷ []) refl
