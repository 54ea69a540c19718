-- ===== src/Teardown/Credentials/Tests.antt =====
-- The copies of a talosconfig secret: one that is behind, and one of a cluster that is gone.
use cluster_api_runtime_exte.Base.{
  String, ◌≡◌, refl, subst, true, false, [], ◌∷◌, arith, string_eq, if◌then◌else◌, ◌==◌,
}
use cluster_api_runtime_exte.Base.Dict.{lookup}
use cluster_api_runtime_exte.Teardown.Api.{ObjectKey, Secret}
use cluster_api_runtime_exte.Teardown.Effect.{
  tell, secret, delete_secret, list_machines, list_secrets, cluster, handle, ask, raise, pure,
  ◌>>=◌, not_found, ok, err, World, get,
}
use cluster_api_runtime_exte.Teardown.Controller.{Reconciler}
use cluster_api_runtime_exte.Teardown.Scenario.{cp_0, outage, controller}
use cluster_api_runtime_exte.Teardown.Credentials.{
  source_secret_name, cached_secret_name, material, is_current, cached_copy, ensure, refresh,
  cluster_gone, collect, gc,
}
use cluster_api_runtime_exte.Teardown.Credentials.Copies.{IsCopy, IsCached, copy_key}
use cluster_api_runtime_exte.Teardown.Credentials.Cached.{ensure-IsCached}
use cluster_api_runtime_exte.Teardown.Credentials.Collected.{IsJustified, WasListed}
use cluster_api_runtime_exte.Cmd.TeardownManager.{credential_gc}
use cluster_api_runtime_exte.Cmd.TeardownManager.Rounds.{credential_gc-IsJustified}

abbrev prod : ObjectKey
prod = record { namespace = "default"; name = "prod" }

abbrev stopped : World
stopped = record { trace = []; machine = cp_0 }

abbrev talosconfig : Secret
talosconfig = record {
  name = "prod-talosconfig";
  namespace = "default";
  resource_version = "1";
  labels = [];
  annotations = [];
  contents = ("talosconfig", "context: prod") ∷ [];
}

-- The source secret is there, and no copy of it.
abbrev fresh : Reconciler
fresh = record controller {
  env = record outage {
    get_secret = λ t key. if key.name == "prod-talosconfig" then ok talosconfig else err not_found;
  };
}

ensure-fresh : (ensure fresh prod stopped).0 ≡ ok true
unfolding ensure refresh cached_copy source_secret_name cached_secret_name string_eq ◌>>=◌ handle
    ask tell raise pure
ensure-fresh = refl

-- The copy is that of the version before.
abbrev content : String → String
content version = if version == "1" then "context: prod" else "context: old"

abbrev old_copy : Secret
old_copy = record {
  name = "talosconfig-default-prod";
  namespace = controller.cache_namespace;
  resource_version = "7";
  labels =
      ("teardown.tinkerbell.org/cluster-name", "prod")
      ∷ ("teardown.tinkerbell.org/cluster-namespace", "default")
      ∷ [];
  annotations = ("teardown.tinkerbell.org/source-resource-version", "0") ∷ [];
  contents = ("talosconfig", "context: old") ∷ [];
}

abbrev behind : Reconciler
behind = record controller {
  env = record outage {
    get_secret = λ t key.
        if key.name == "prod-talosconfig"
        then ok talosconfig
        else if key.name == "talosconfig-default-prod"
        then ok old_copy
        else err not_found;
  };
}

old_copy-IsCopy : IsCopy behind prod content old_copy
unfolding material lookup cached_secret_name string_eq
old_copy-IsCopy = record {
  named = refl;
  placed = refl;
  listed = refl;
  owned = refl;
  faithful = refl;
}

ensure-behind : (ensure behind prod stopped).0 ≡ ok false
unfolding ensure refresh is_current material lookup cached_copy source_secret_name
    cached_secret_name string_eq ◌>>=◌ handle ask tell raise pure
ensure-behind = refl

talosconfig-found : behind.env.get_secret [] (source_secret_name prod) ≡ ok talosconfig
unfolding source_secret_name string_eq
talosconfig-found = refl

talosconfig-content : content talosconfig.resource_version ≡ material talosconfig
unfolding material lookup string_eq
talosconfig-content = refl

old-IsCopy-read :
    (s : Secret)
    → behind.env.get_secret
        (get secret (source_secret_name prod) ∷ [])
        (copy_key behind prod content)
      ≡ ok s
    → IsCopy behind prod content s
unfolding cached_secret_name string_eq
old-IsCopy-read s h =
    let same : old_copy ≡ s = ground (arith, h) in
    subst (IsCopy behind prod content) same old_copy-IsCopy

ensure-IsCached_example :
    IsCached behind prod content talosconfig false (ensure behind prod stopped).1.trace
ensure-IsCached_example =
    ensure-IsCached behind prod content talosconfig stopped false talosconfig-content
      talosconfig-found old-IsCopy-read ensure-behind

-- A copy of a cluster that is gone.
abbrev orphan : Secret
orphan = record talosconfig {
  name = "talosconfig-default-prod";
  namespace = "caren-system";
  labels =
      ("teardown.tinkerbell.org/cluster-name", "prod")
      ∷ ("teardown.tinkerbell.org/cluster-namespace", "default")
      ∷ [];
}

abbrev sweeper : Reconciler
sweeper = record controller {
  env = record outage {
    secrets_of = λ t namespace. ok (orphan ∷ []);
    get_cluster = λ t key. err not_found;
    machines_of = λ t namespace name control_plane. ok [];
  };
}

credential_gc-IsJustified_example :
    IsJustified sweeper (WasListed sweeper) (credential_gc sweeper 3 stopped).trace
credential_gc-IsJustified_example = credential_gc-IsJustified sweeper 3 stopped tt

orphan-deleted :
    (gc sweeper stopped).1.trace
    ≡ delete_secret (record { namespace = "caren-system"; name = "talosconfig-default-prod" }) true
      ∷ list_machines "default" "prod"
      ∷ get cluster prod
      ∷ list_secrets "caren-system"
      ∷ []
unfolding gc collect cluster_gone lookup string_eq ◌>>=◌ handle ask tell raise pure
orphan-deleted = refl
