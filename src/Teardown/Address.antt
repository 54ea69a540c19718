-- ===== src/Teardown/Address.antt =====
-- internal/teardown/address.go: the address of a Machine's node.
pub mod Sourced
mod Tests
use cluster_api_runtime_exte.Base.{
  String, Bool, ◌||◌, Option, none, some, List, [], ◌∷◌, ◌==◌, string_eq, if◌then◌else◌, not, ◌&&◌,
}
use cluster_api_runtime_exte.Teardown.Api.{ClusterApi, ObjectKey, Address, Machine, InfraMachine}
use cluster_api_runtime_exte.Teardown.Effect.{
  wrap, Exec, pure, raise, handle, is_not_found, ask, cases, get, infra_machine, hardware,
}
use cluster_api_runtime_exte.Teardown.Controller.{Reconciler}

-- The first interface's DHCP address, "" where there is none.
abbrev pub first_dhcp : List (Option (Option String)) → String
first_dhcp (some (some address) ∷ _) = address
first_dhcp _ = ""

module _ (api : ClusterApi) where
  unfoldable pub is_node_ip : String → Bool
  is_node_ip kind = kind == api.internal_ip || kind == api.external_ip

  -- The loop over Machine.status.addresses: the first node address, even if it is "".
  unfoldable pub machine_address : List Address → Option String
  machine_address [] = none
  machine_address (a ∷ rest) = if is_node_ip a.kind then some a.address else machine_address rest

  -- The loop over TinkerbellMachine.status.addresses: the first node address that is not "".
  unfoldable pub infra_address : List (Option Address) → Option String
  infra_address [] = none
  infra_address (none ∷ rest) = infra_address rest
  infra_address (some a ∷ rest) =
      if is_node_ip a.kind && not (a.address == "") then some a.address else infra_address rest

module _ (r : Reconciler) where
  -- hardwareAddress
  unfoldable pub hardware_address : InfraMachine → Exec String
  hardware_address tm =
      if tm.hardware_name == ""
      then pure ""
      else let namespace =
          (if tm.target_namespace == "" then tm.namespace else tm.target_namespace) in
        let key : ObjectKey = record { namespace = namespace; name = tm.hardware_name } in
        handle (ask (λ t. r.env.get_hardware t key) (get hardware key))
          (λ hw. pure (first_dhcp hw.interfaces))
          (λ e. if is_not_found e then pure "" else raise (wrap "getting Hardware" e))

  abbrev pub infra_machine_address : InfraMachine → Exec String
  infra_machine_address tm =
      cases (infra_address r.api tm.addresses) (λ value. pure value) (hardware_address tm)

  -- resolveAddress
  unfoldable pub resolve_address : Machine → Exec String
  resolve_address m =
      cases (machine_address r.api m.addresses) (λ address. pure address)
        (if m.infrastructure.name == ""
          then pure ""
          else let key : ObjectKey = record {
            namespace = m.namespace;
            name = m.infrastructure.name;
          } in
            handle (ask (λ t. r.env.get_infra_machine t key) (get infra_machine key))
              (λ tm. infra_machine_address tm)
              (λ e. if is_not_found e then pure "" else raise (wrap "getting TinkerbellMachine" e)))
