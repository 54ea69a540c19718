-- ===== src/Teardown/Liveness/Tests.antt =====
-- A Machine at the pre-terminate wait in an outage, one second after it was observed.
use cluster_api_runtime_exte.Base.{◌≡◌, refl, true, [], string_eq}
use cluster_api_runtime_exte.Base.Dict.{lookup}
use cluster_api_runtime_exte.Teardown.Qualify.{has_hook, at_pre_terminate, deleting_reason}
use cluster_api_runtime_exte.Teardown.Api.{hook_annotation}
use cluster_api_runtime_exte.Teardown.Effect.{World}
use cluster_api_runtime_exte.Teardown.Controller.{Reconciler}
use cluster_api_runtime_exte.Teardown.Scenario.{v1beta2, cp_0, outage, controller}
use cluster_api_runtime_exte.Teardown.Reconcile.{reconcile_machine}
use cluster_api_runtime_exte.Teardown.Liveness.Awake.{IsAwake, reconcile_machine-IsAwake}

abbrev hasty : Reconciler
hasty = record controller { env = record outage { now = λ t. 1000000000 } }

abbrev asked : World
asked = record { trace = []; machine = cp_0 }

cp_0-hooked : has_hook v1beta2 cp_0 ≡ true
unfolding has_hook hook_annotation string_eq lookup
cp_0-hooked = refl

cp_0-parked : at_pre_terminate v1beta2 cp_0 ≡ true
unfolding at_pre_terminate deleting_reason string_eq
cp_0-parked = refl

reconcile_machine-IsAwake_example :
    IsAwake hasty (reconcile_machine hasty asked).0 (reconcile_machine hasty asked).1.machine
reconcile_machine-IsAwake_example =
    reconcile_machine-IsAwake hasty cp_0 100 refl cp_0-hooked cp_0-parked []
