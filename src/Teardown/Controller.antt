-- ===== src/Teardown/Controller.antt =====
-- The fields of the Reconciler (internal/teardown/reconciler.go) and what its parts share: the event
-- recorder, the metrics, the owning cluster's key, and the patches of annotations.
pub mod Patching
use cluster_api_runtime_exte.Base.{
  ℕ, String, Bool, Option, none, some, ◌==◌, string_eq, if◌then◌else◌,
}
use cluster_api_runtime_exte.Base.Dict.{Dict, lookup, insert}
use cluster_api_runtime_exte.Teardown.Api.{ClusterApi, ObjectKey, Machine}
use cluster_api_runtime_exte.Teardown.Effect.{
  Env, World, Exec, Severity, event, metric, patch, record_call, tell, cases, ok, err,
}

-- Durations count nanoseconds, as does the clock.
pub record Reconciler : Type 0 where
  pub api : ClusterApi
  pub env : Env
  pub etcd_timeout : ℕ
  pub reset_timeout : ℕ
  pub cache_namespace : String

-- hookWaitRequeue, 15 seconds
abbrev pub hook_wait_requeue : ℕ
hook_wait_requeue = 15000000000

-- event: the reason; the note is not modelled.
abbrev pub emit : Severity → String → Exec (Unit {0})
emit severity reason = record_call (event severity reason)

-- A counter of metrics.go.
abbrev pub count : String → String → Exec (Unit {0})
count name label = record_call (metric name label)

abbrev pub text_or_empty : Option String → String
text_or_empty none = ""
text_or_empty (some s) = s

-- The mutation of stampPhase.
abbrev pub stamp : String → String → Dict String → Option (Dict String)
stamp key value annotations =
    if text_or_empty (lookup key annotations) == value
    then none
    else some (insert key value annotations)

module _ (r : Reconciler) where
  -- clusterKeyFor
  unfoldable pub cluster_key_for : Machine → ObjectKey
  cluster_key_for m = record {
    namespace = m.namespace;
    name =
        if m.cluster_name == ""
        then text_or_empty (lookup r.api.cluster_name_label m.labels)
        else m.cluster_name;
  }

  -- SetAnnotations and helper.Patch.
  unfoldable pub send : Dict String → Exec (Unit {0})
  unfolding tell
  send annotations w =
      tell (λ t. r.env.patch_machine t w.machine annotations) (patch annotations)
        (record w { machine = record w.machine { annotations = annotations } })

  -- patchAnnotations. `mutate` returns `none` where Go's returns false; the map in memory is
  -- changed before the patch is sent.
  unfoldable pub patch_annotations : (Dict String → Option (Dict String)) → Exec (Unit {0})
  patch_annotations mutate w =
      cases (r.env.new_patch_helper w.trace w.machine) (λ e. (err e, w))
        (cases (mutate w.machine.annotations) (λ annotations. send annotations w) (ok tt, w))

  -- stampPhase
  unfoldable pub stamp_phase : String → String → Exec (Unit {0})
  stamp_phase key value = patch_annotations (stamp key value)
