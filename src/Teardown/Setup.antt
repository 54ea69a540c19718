-- ===== src/Teardown/Setup.antt =====
-- internal/teardown/setup.go: which events of Machines, Clusters and TinkerbellMachines lead to a
-- reconcile of which Machine. An object that is no Machine is not handed to machinePredicate here, as
-- the watch it stands on is of Machines.
pub mod Wakes
use cluster_api_runtime_exte.Base.{
  String, Bool, true, false, ◌||◌, Option, none, some, List, [], ◌∷◌, ◌==◌, string_eq,
  if◌then◌else◌, is_some,
}
use cluster_api_runtime_exte.Teardown.Api.{ObjectKey, Machine, Cluster}
use cluster_api_runtime_exte.Teardown.Qualify.{qualifies, has_hook}
use cluster_api_runtime_exte.Teardown.Effect.{Result, ok, err, Trace, list_machines, ◌>>=◌, ◌>>◌}
use cluster_api_runtime_exte.Teardown.Controller.{Reconciler}

-- An event of controller-runtime: a nil object is `none`.
pub data Event : Type 0 where
  created : Option Cluster → Event
  updated : Option Cluster → Option Cluster → Event
  deleted : Option Cluster → Event
  generic : Option Cluster → Event

-- The function `deleting` of clusterDeletionPredicate.
abbrev pub is_deleting : Option Cluster → Bool
is_deleting none = false
is_deleting (some c) = is_some c.deletion_timestamp

-- clusterDeletionPredicate
unfoldable pub cluster_deletion_predicate : Event → Bool
cluster_deletion_predicate (created c) = is_deleting c
cluster_deletion_predicate (updated old new) = is_deleting new
cluster_deletion_predicate (deleted c) = true
cluster_deletion_predicate (generic c) = is_deleting c

-- metav1.OwnerReference
pub record OwnerRef : Type 0 where
  pub kind : String
  pub name : String

-- infraMachineToMachine: the requests for a TinkerbellMachine of a namespace with these owners.
unfoldable pub infra_machine_to_machine : String → List OwnerRef → List ObjectKey
infra_machine_to_machine namespace [] = []
infra_machine_to_machine namespace (ref ∷ rest) =
    let more = infra_machine_to_machine namespace rest in
    if ref.kind == "Machine" then record { namespace = namespace; name = ref.name } ∷ [] else more

module _ (r : Reconciler) where
  -- machinePredicate
  unfoldable pub machine_predicate : Machine → Bool
  machine_predicate m = qualifies m || has_hook r.api m

  -- The loop of clusterToMachines.
  unfoldable pub requests_for : List Machine → List ObjectKey
  requests_for [] = []
  requests_for (m ∷ rest) =
      let more = requests_for rest in
      if qualifies m || has_hook r.api m
      then record { namespace = m.namespace; name = m.name } ∷ more
      else more

  abbrev requests_of : Result (List Machine) → List ObjectKey
  requests_of (ok machines) = requests_for machines
  requests_of (err _) = []

  -- clusterToMachines: for a Cluster of this key, the requests and the trace.
  unfoldable pub cluster_to_machines : Trace → ObjectKey → List ObjectKey × Trace
  unfolding requests_for
  cluster_to_machines t c = (
    requests_of (r.env.machines_of t c.namespace c.name false),
    list_machines c.namespace c.name ∷ t,
  )
