-- ===== src/Teardown/Credentials.antt =====
-- internal/teardown/credentials.go: the cached copies of the clusters' talosconfig secrets.
pub mod Collected
pub mod Copies
pub mod Cached
mod Tests
use cluster_api_runtime_exte.Base.{
  String, ◌<>◌, Bool, true, false, not, List, [], ◌∷◌, ◌==◌, string_eq, if◌then◌else◌,
}
use cluster_api_runtime_exte.Base.Dict.{lookup}
use cluster_api_runtime_exte.Base.Lists.{any}
use cluster_api_runtime_exte.Teardown.Api.{
  ObjectKey, Secret, cluster_name_label, cluster_namespace_label,
}
use cluster_api_runtime_exte.Teardown.Qualify.{qualifies}
use cluster_api_runtime_exte.Teardown.Effect.{
  Config, Result, ok, err, wrap, Exec, pure, raise, handle, is_not_found, ask, tell, get, cluster,
  secret, create_secret, update_secret, delete_secret, list_machines, list_secrets, ◌>>=◌, ◌>>◌,
}
use cluster_api_runtime_exte.Teardown.Controller.{Reconciler, text_or_empty}

abbrev pub talosconfig_key : String
talosconfig_key = "talosconfig"

abbrev pub source_version_annotation : String
source_version_annotation = "teardown.tinkerbell.org/source-resource-version"

-- sourceSecretName
unfoldable pub source_secret_name : ObjectKey → ObjectKey
source_secret_name c = record { namespace = c.namespace; name = c.name <> "-talosconfig" }

-- cachedSecretName
unfoldable pub cached_secret_name : ObjectKey → String
cached_secret_name c = "talosconfig-" <> (c.namespace <> ("-" <> c.name))

-- `secret.Data[talosconfigKey]`: nil bytes and no bytes are alike to every reader.
unfoldable pub material : Secret → String
material s = text_or_empty (lookup talosconfig_key s.contents)

-- The copy that Ensure builds, in the controller's own namespace.
unfoldable pub cached_copy : String → ObjectKey → Secret → Secret
cached_copy namespace c source = record {
  name = cached_secret_name c;
  namespace = namespace;
  resource_version = "";
  labels = (cluster_name_label, c.name) ∷ (cluster_namespace_label, c.namespace) ∷ [];
  annotations = (source_version_annotation, source.resource_version) ∷ [];
  contents = (talosconfig_key, material source) ∷ [];
}

-- The cases of Ensure's switch in which the copy is left as it is.
unfoldable pub is_current : Secret → Secret → Bool
is_current existing source =
    if text_or_empty (lookup source_version_annotation existing.annotations)
      == source.resource_version
    then true
    else material existing == material source

module _ (r : Reconciler) where
  abbrev pub get_secret : ObjectKey → Exec Secret
  get_secret key = ask (λ t. r.env.get_secret t key) (get secret key)

  -- The part of Ensure below the read of the source.
  unfoldable pub refresh : ObjectKey → Secret → Exec Bool
  refresh c source =
      let copy = cached_copy r.cache_namespace c source in
      handle (get_secret (record { namespace = copy.namespace; name = copy.name }))
        (λ existing.
          if is_current existing source
          then pure false
          else let next : Secret = record copy { resource_version = existing.resource_version } in
            tell (λ t. r.env.write_secret t next) (update_secret next) >> pure false)
        (λ e.
          if is_not_found e
          then tell (λ t. r.env.write_secret t copy) (create_secret copy) >> pure true
          else raise e)

  -- Ensure: true if the copy was created.
  unfoldable pub ensure : ObjectKey → Exec Bool
  ensure c =
      handle (get_secret (source_secret_name c)) (refresh c)
        (λ e. if is_not_found e then pure false else raise e)

  unfoldable pub parsed : Result Config → Exec Config
  parsed (ok cfg) = pure cfg
  parsed (err e) = raise (wrap "parsing talosconfig" e)

  -- Config
  unfoldable pub config : ObjectKey → Exec Config
  config c =
      handle (get_secret (source_secret_name c)) (λ s. parsed (r.env.parse_config (material s)))
        (λ e.
          if is_not_found e
          then (get_secret (record { namespace = r.cache_namespace; name = cached_secret_name c })
              >>= λ s. parsed (r.env.parse_config (material s)))
          else raise e)

  -- clusterGone: the Cluster is not found and none of its Machines qualifies.
  unfoldable pub cluster_gone : ObjectKey → Exec Bool
  cluster_gone c =
      handle (ask (λ t. r.env.get_cluster t c) (get cluster c)) (λ _. pure false)
        (λ e.
          if is_not_found e
          then (ask (λ t. r.env.machines_of t c.namespace c.name false)
                (list_machines c.namespace c.name)
              >>= λ machines. pure (not (any qualifies machines)))
          else raise e)

  abbrev delete_copy : ObjectKey → Exec (Unit {0})
  delete_copy key =
      handle (tell (λ t. r.env.remove_secret t key) (delete_secret key)) (λ _. pure tt)
        (λ e. if is_not_found e then pure tt else raise e)

  -- The cluster that a copy's labels name.
  abbrev pub labelled_cluster : Secret → ObjectKey
  labelled_cluster s = record {
    namespace = text_or_empty (lookup cluster_namespace_label s.labels);
    name = text_or_empty (lookup cluster_name_label s.labels);
  }

  -- The loop of GC.
  unfoldable pub collect : List Secret → Exec (Unit {0})
  collect [] = pure tt
  collect (s ∷ rest) =
      let go = collect rest in
      cluster_gone (labelled_cluster s) >>= λ stale.
      if stale then delete_copy (record { namespace = s.namespace; name = s.name }) >> go else go

  -- GC: the server answers the list with the secrets that carry the cluster's name label.
  unfoldable pub gc : Exec (Unit {0})
  gc =
      ask (λ t. r.env.secrets_of t r.cache_namespace) (list_secrets r.cache_namespace) >>= λ copies.
      collect copies
