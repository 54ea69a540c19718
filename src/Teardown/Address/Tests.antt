-- ===== src/Teardown/Address/Tests.antt =====
-- A node whose address is known to the Hardware alone.
use cluster_api_runtime_exte.Base.{◌≡◌, refl, some, none, [], ◌∷◌, string_eq}
use cluster_api_runtime_exte.Teardown.Api.{Machine, InfraMachine, Hardware}
use cluster_api_runtime_exte.Teardown.Effect.{ok, World, pure, raise, handle, ask}
use cluster_api_runtime_exte.Teardown.Controller.{Reconciler}
use cluster_api_runtime_exte.Teardown.Scenario.{cp_0, outage, controller}
use cluster_api_runtime_exte.Teardown.Address.{
  is_node_ip, machine_address, infra_address, hardware_address, resolve_address,
}
use cluster_api_runtime_exte.Teardown.Address.Sourced.{FromMachine, resolve_address-FromMachine}

-- Only a host name.
abbrev nameless : Machine
nameless = record cp_0 { addresses = record { kind = "Hostname"; address = "cp-0" } ∷ [] }

-- An entry without a value, and a Hardware of the namespace of the TinkerbellMachine.
abbrev unposted : InfraMachine
unposted = record {
  namespace = "default";
  addresses = some (record { kind = "InternalIP"; address = "" }) ∷ none ∷ [];
  hardware_name = "rack-1";
  target_namespace = "";
}

abbrev leased : Hardware
leased = record { interfaces = some (some "10.0.0.9") ∷ none ∷ [] }

abbrev inventoried : Reconciler
inventoried = record controller {
  env = record outage {
    get_infra_machine = λ t key. ok unposted;
    get_hardware = λ t key. ok leased;
  };
}

abbrev before : World
before = record { trace = []; machine = nameless }

resolve_address-leased : (resolve_address inventoried nameless before).0 ≡ ok "10.0.0.9"
unfolding resolve_address machine_address infra_address hardware_address is_node_ip string_eq handle
    ask raise pure
resolve_address-leased = refl

resolve_address-FromMachine_example :
    FromMachine inventoried [] nameless (resolve_address inventoried nameless before).0
resolve_address-FromMachine_example = resolve_address-FromMachine inventoried nameless before
