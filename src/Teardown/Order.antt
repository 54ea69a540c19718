-- ===== src/Teardown/Order.antt =====
-- The order that the teardown keeps on the trace of a reconcile: conclusions are recorded on the
-- Machine, by a patch that the server has accepted, before what rests on them is done.
mod Parts
mod Held
pub mod EtcdPart
pub mod ResetPart
pub mod Whole
pub mod Lives
mod Tests
use cluster_api_runtime_exte.Base.{
  String, ◌≡◌, refl, Bool, true, false, ◌⊎◌, inl, inr, List, [], ◌∷◌, ◌++◌, arith, starts_with,
  is_some,
}
use cluster_api_runtime_exte.Base.Dict.{Dict, has}
use cluster_api_runtime_exte.Base.Lists.{All}
use cluster_api_runtime_exte.Teardown.Api.{
  ClusterApi, Machine, hook_annotation, observed_at_annotation, etcd_annotation, reset_annotation,
}
use cluster_api_runtime_exte.Teardown.Qualify.{is_control_plane}
use cluster_api_runtime_exte.Teardown.Effect.{Call, patch, rpc, reset_generic, Trace, World}
use cluster_api_runtime_exte.Teardown.Effect.Pushes.{IsLocal, IsNoWipe, IsNoPatch, extend}

-- The server has accepted a patch of the Machine that carries the annotation.
abbrev pub Stamped : String → Trace → Type 0
Stamped key [] = ⊥
Stamped key (patch annotations true ∷ t) = (has key annotations ≡ true) ⊎ Stamped key t
Stamped key (_ ∷ t) = Stamped key t

-- What cluster-api's documents say of the prefix of its hooks: it is not that of the annotations
-- under teardown.tinkerbell.org.
pub record IsApart (api : ClusterApi) : Type 0 where
  pub observed_at : starts_with observed_at_annotation api.pre_terminate_prefix ≡ false
  pub etcd : starts_with etcd_annotation api.pre_terminate_prefix ≡ false
  pub reset : starts_with reset_annotation api.pre_terminate_prefix ≡ false

-- The Machine as it was read.
module _ (api : ClusterApi) (read : Machine) where
  -- The annotation was there when the Machine was read, or has been recorded since.
  abbrev pub Known : String → Trace → Type 0
  Known key t = (has key read.annotations ≡ true) ⊎ Stamped key t

  -- A control-plane node is wiped only after the etcd conclusion is known, and the hook is taken off
  -- only after the reset conclusion is known.
  abbrev pub IsOrdered : Trace → Type 0
  IsOrdered [] = Unit
  IsOrdered (rpc _ (reset_generic _) _ ∷ t) =
      ((is_control_plane api read ≡ false) ⊎ Known etcd_annotation t) × IsOrdered t
  IsOrdered (patch annotations _ ∷ t) =
      ((has (hook_annotation api) annotations ≡ true) ⊎ Known reset_annotation t) × IsOrdered t
  IsOrdered (_ ∷ t) = IsOrdered t

  -- What holds of the Machine in hand between two calls, from the gate on.
  pub record IsHeld (w : World) : Type 0 where
    pub ordered : IsOrdered w.trace
    pub labels : w.machine.labels ≡ read.labels
    pub hooked : has (hook_annotation api) w.machine.annotations ≡ true
    pub etcd_known :
        has etcd_annotation w.machine.annotations ≡ true → Known etcd_annotation w.trace
    pub reset_known :
        has reset_annotation w.machine.annotations ≡ true → Known reset_annotation w.trace

  pub EtcdKnown : World → Type 0
  EtcdKnown w = is_control_plane api read ≡ true → Known etcd_annotation w.trace
