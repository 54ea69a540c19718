-- ===== src/Teardown/Credentials/Copies.antt =====
-- A copy of internal/teardown/credentials.go, and how an Ensure may end.
use cluster_api_runtime_exte.Base.{String, ◌≡◌, ◌≢◌, Bool, true, false, ◌∷◌}
use cluster_api_runtime_exte.Base.Dict.{lookup, has}
use cluster_api_runtime_exte.Teardown.Api.{ObjectKey, Secret, cluster_name_label}
use cluster_api_runtime_exte.Teardown.Effect.{
  Error, ok, err, is_not_found, get, secret, create_secret, update_secret, Trace,
}
use cluster_api_runtime_exte.Teardown.Controller.{Reconciler, text_or_empty}
use cluster_api_runtime_exte.Teardown.Credentials.{
  cached_secret_name, source_version_annotation, material, labelled_cluster,
}

-- The resourceVersion of the source that a copy records.
abbrev pub recorded_version : Secret → String
recorded_version s = text_or_empty (lookup source_version_annotation s.annotations)

-- `content` is what the source holds at each of its resourceVersions, of which the API server gives
-- every state its own.
module _ (r : Reconciler) (c : ObjectKey) (content : String → String) where
  -- A copy: it stands where Config falls back to, the garbage collection lists it and finds the cluster
  -- by its labels, and it holds the talosconfig of the source at the version that it records.
  pub record IsCopy (s : Secret) : Type 0 where
    pub named : s.name ≡ cached_secret_name c
    pub placed : s.namespace ≡ r.cache_namespace
    pub listed : has cluster_name_label s.labels ≡ true
    pub owned : labelled_cluster r s ≡ c
    pub faithful : material s ≡ content (recorded_version s)

  abbrev pub copy_key : ObjectKey
  copy_key = record { namespace = r.cache_namespace; name = cached_secret_name c }

  -- How an Ensure of a source ends, by whether it reports a creation: with a copy of the source's
  -- talosconfig that the server took where there was none, or in place of one with another
  -- talosconfig, or with no write, as the copy that was read has it.
  pub data IsCached (source : Secret) : Bool → Trace → Type 0 where
    created :
        {t : Trace} {e : Error} {stored : Secret}
        → r.env.get_secret t copy_key ≡ err e
        → is_not_found e ≡ true
        → IsCopy stored
        → material stored ≡ material source
        → IsCached source true (create_secret stored true ∷ get secret copy_key ∷ t)
    updated :
        {t : Trace} {existing stored : Secret}
        → r.env.get_secret t copy_key ≡ ok existing
        → material existing ≢ material source
        → stored.resource_version ≡ existing.resource_version
        → IsCopy stored
        → material stored ≡ material source
        → IsCached source false (update_secret stored true ∷ get secret copy_key ∷ t)
    current :
        {t : Trace} {existing : Secret}
        → r.env.get_secret t copy_key ≡ ok existing
        → IsCopy existing
        → material existing ≡ material source
        → IsCached source false (get secret copy_key ∷ t)
