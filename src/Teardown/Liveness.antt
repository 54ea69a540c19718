-- ===== src/Teardown/Liveness.antt =====
-- The teardown fails open: once both deadlines have passed, a Machine at the pre-terminate wait is
-- released, whatever the nodes, the secrets and the infrastructure objects answer.
mod Parts
mod Phases
pub mod Release
pub mod Awake
mod Tests
use cluster_api_runtime_exte.Base.{
  ℕ, ◌+◌, ◌<◌, String, ◌≡◌, Bool, true, false, Option, none, some, List, is_some,
}
use cluster_api_runtime_exte.Base.Dict.{Dict, lookup, has}
use cluster_api_runtime_exte.Teardown.Api.{
  ObjectKey, Machine, Cluster, hook_annotation, observed_at_annotation,
}
use cluster_api_runtime_exte.Teardown.Qualify.{
  has_hook, at_pre_terminate, has_other_pre_terminate_hooks,
}
use cluster_api_runtime_exte.Teardown.Effect.{Result, ok, err, is_not_found, Trace}
use cluster_api_runtime_exte.Teardown.Controller.{Reconciler}
use cluster_api_runtime_exte.Teardown.Peers.{must_wait}
use cluster_api_runtime_exte.Teardown.HookPhase.{parsed_time}

-- Found, or not found; no other error.
abbrev pub IsAnswered : {A : Type 0} → Result A → Type 0
IsAnswered (ok _) = Unit
IsAnswered (err e) = is_not_found e ≡ true

-- A list of Machines in which no other Machine goes before this one.
abbrev pub LetsPass : Reconciler → Machine → Result (List Machine) → Type 0
LetsPass r m (ok peers) = must_wait r.api peers m ≡ false
LetsPass r m (err _) = ⊥

-- The API server takes the patches of the Machine and answers for Clusters and Machines, and no
-- other control-plane Machine is to go first.
pub record IsServing (r : Reconciler) (m : Machine) : Type 0 where
  pub helper : (t : Trace) (x : Machine) → r.env.new_patch_helper t x ≡ none
  pub patches : (t : Trace) (x : Machine) (a : Dict String) → r.env.patch_machine t x a ≡ none
  pub clusters : (t : Trace) (key : ObjectKey) → IsAnswered (r.env.get_cluster t key)
  pub peers :
      (t : Trace) (namespace name : String) → LetsPass r m (r.env.machines_of t namespace name true)

-- The Machine is hooked and parked at the pre-terminate wait with no other hook, since a time that
-- is on record and from which both deadlines have passed.
pub record IsOverdue (r : Reconciler) (m : Machine) : Type 0 where
  pub hooked : has_hook r.api m ≡ true
  pub parked : at_pre_terminate r.api m ≡ true
  pub alone : has_other_pre_terminate_hooks r.api m ≡ false
  pub deleting : is_some m.deletion_timestamp ≡ true
  pub since : ℕ
  pub on_record : parsed_time r (lookup observed_at_annotation m.annotations) ≡ some since
  pub etcd_late : (t : Trace) → since + r.etcd_timeout < r.env.now t
  pub reset_late : (t : Trace) → since + r.reset_timeout < r.env.now t
