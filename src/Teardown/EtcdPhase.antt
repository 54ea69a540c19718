-- ===== src/Teardown/EtcdPhase.antt =====
-- The etcd phase of internal/teardown/reconciler.go.
use cluster_api_runtime_exte.Base.{
  ℕ, ◌+◌, String, Bool, true, false, not, Option, none, some, List, [], ◌∷◌, ltb, ◌==◌, string_eq,
  nat_eq, if◌then◌else◌,
}
use cluster_api_runtime_exte.Base.Dict.{has}
use cluster_api_runtime_exte.Teardown.Api.{
  Machine, EtcdOutcome, not_member, left, removed, orphaned, skipped_cluster_delete, etcd_text,
  etcd_annotation, etcd_leaving_annotation,
}
use cluster_api_runtime_exte.Teardown.Qualify.{is_control_plane}
use cluster_api_runtime_exte.Teardown.Effect.{
  Error, other, wrap, transient, MemberList, ServiceInfo, Config, Exec, Rpc, service_info,
  etcd_member_list, etcd_forfeit_leadership, etcd_leave_cluster, etcd_remove_member_by_id, pure,
  raise, handle, cases, this, clock, ask, tell, consult, closing, dial, rpc, close, record_call,
  list_machines, normal, warning, ◌>>=◌, ◌>>◌,
}
use cluster_api_runtime_exte.Teardown.Controller.{
  Reconciler, emit, count, cluster_key_for, stamp_phase, hook_wait_requeue,
}
use cluster_api_runtime_exte.Teardown.Address.{resolve_address}
use cluster_api_runtime_exte.Teardown.Credentials.{config}
use cluster_api_runtime_exte.Teardown.Etcd.{
  hostname_candidates, find_member, etcd_healthy, etcd_not_finished,
}
use cluster_api_runtime_exte.Teardown.Peers.{order_peers, must_wait}

module _ (r : Reconciler) where
  -- listControlPlaneMachines
  unfoldable pub list_control_plane_machines : Machine → Exec (List Machine)
  list_control_plane_machines m =
      let name = (cluster_key_for r m).name in
      ask (λ t. r.env.machines_of t m.namespace name true) (list_machines m.namespace name)

  -- serializeControlPlane: the time after which to come back, 0 to go on.
  unfoldable pub serialize_control_plane : Exec ℕ
  serialize_control_plane = this >>= λ m. list_control_plane_machines m >>= λ peers.
      pure (if must_wait r.api peers m then hook_wait_requeue else 0)

  -- callServiceInfo
  abbrev call_service_info : String → Exec (List (Option ServiceInfo))
  call_service_info address =
      consult (λ t. r.env.answer_services t address) (rpc address (service_info "etcd"))

  -- TalosFactory
  abbrev pub dial_node : Config → String → Exec (Unit {0})
  dial_node cfg address = tell (λ t. r.env.dial_node t cfg address) (dial address)

  -- A call of the Client seam whose answer is only an error.
  abbrev pub call : String → Rpc → Exec (Unit {0})
  call address procedure = tell (λ t. r.env.answer_rpc t address procedure) (rpc address procedure)

  abbrev give_up : {A : Type 0} → String → Exec (Option A)
  give_up address = record_call (close address) >> pure none

  unfoldable pub ask_members : String → Exec (Option (String × MemberList))
  ask_members address =
      handle (consult (λ t. r.env.answer_members t address) (rpc address etcd_member_list))
        (λ members. pure (some (address, members))) (λ _. give_up address)

  -- The part of probePeer below the dial.
  unfoldable pub probe_node : String → Exec (Option (String × MemberList))
  probe_node address =
      handle (call_service_info address)
        (λ services. if etcd_healthy services then ask_members address else give_up address)
        (λ _. give_up address)

  -- probePeer: the dialed address and the member list, or none.
  unfoldable pub probe_peer : Machine → Config → Exec (Option (String × MemberList))
  probe_peer peer cfg =
      handle (resolve_address r peer)
        (λ address.
          if address == ""
          then pure none
          else handle (dial_node cfg address) (λ _. probe_node address) (λ _. pure none))
        (λ _. pure none)

  unfoldable pub first_healthy : Config → List Machine → Exec (String × MemberList)
  first_healthy cfg [] = raise (other "no healthy etcd peer reachable")
  first_healthy cfg (peer ∷ rest) =
      let next = first_healthy cfg rest in
      probe_peer peer cfg >>= λ found. cases found (λ p. pure p) next

  -- findHealthyPeer
  unfoldable pub find_healthy_peer : Machine → Config → Exec (String × MemberList)
  find_healthy_peer m cfg =
      list_control_plane_machines m >>= λ peers. first_healthy cfg (order_peers peers m)

  abbrev forfeit : Machine → String → Exec (Unit {0})
  forfeit m address =
      if has etcd_leaving_annotation m.annotations
      then pure tt
      else handle (call address etcd_forfeit_leadership) (λ _. pure tt) (λ _. pure tt)

  unfoldable pub leave_node : Machine → String → Exec Bool
  leave_node m address =
      handle (call_service_info address)
        (λ services.
          if etcd_not_finished services
          then (forfeit m address
              >> handle (call address etcd_leave_cluster) (λ _. pure true) (λ _. pure false))
          else pure false)
        (λ _. pure false)

  -- leaveViaVictim
  unfoldable pub leave_via_victim : Machine → Config → Exec Bool
  leave_via_victim m cfg =
      handle (resolve_address r m)
        (λ address.
          if address == ""
          then pure false
          else handle (dial_node cfg address) (λ _. closing address (leave_node m address))
              (λ _. pure false))
        (λ _. pure false)

  -- The part of tryEtcdRemoval that holds the peer's client.
  unfoldable pub remove_member : Machine → Config → String → MemberList → Exec EtcdOutcome
  remove_member m cfg peer members =
      cases (find_member members (hostname_candidates r.api m))
        (λ member. leave_via_victim m cfg >>= λ gone.
          if gone
          then pure left
          else handle (call peer (etcd_remove_member_by_id member.id)) (λ _. pure removed)
              (λ e. raise (wrap "removing etcd member via peer" e)))
        (pure not_member)

  -- The load of the talosconfig in tryEtcdRemoval and tryReset, with the event of its failure.
  unfoldable pub load_config : Machine → Exec Config
  load_config m =
      handle (config r (cluster_key_for r m)) (λ cfg. pure cfg)
        (λ e. emit warning "TeardownCredentialsMissing" >> raise (wrap "loading talosconfig" e))

  -- tryEtcdRemoval
  unfoldable pub try_etcd_removal : Exec EtcdOutcome
  try_etcd_removal = this >>= λ m. load_config m >>= λ cfg.
      find_healthy_peer m cfg >>= λ (peer, members). closing peer (remove_member m cfg peer members)

  abbrev outcome_event : EtcdOutcome → Exec (Unit {0})
  outcome_event left = emit normal "EtcdMemberLeft"
  outcome_event removed = emit normal "EtcdMemberRemoved"
  outcome_event _ = pure tt

  -- recordEtcdOutcome
  unfoldable pub record_etcd_outcome : EtcdOutcome → Exec (Unit {0})
  record_etcd_outcome o = count "teardown_etcd_total" (etcd_text o) >> outcome_event o

  -- The deadline's decision in ensureEtcdRemoved.
  unfoldable pub orphan_or_retry : ℕ → Error → Exec EtcdOutcome
  orphan_or_retry observed_at e = clock r.env >>= λ now.
      if ltb (observed_at + r.etcd_timeout) now
      then (emit warning "EtcdMemberOrphaned" >> pure orphaned)
      else raise (transient e)

  -- ensureEtcdRemoved
  unfoldable pub ensure_etcd_removed : ℕ → Exec (Unit {0})
  ensure_etcd_removed observed_at =
      handle try_etcd_removal (λ o. pure o) (orphan_or_retry observed_at) >>= λ o.
      stamp_phase r etcd_annotation (etcd_text o) >> record_etcd_outcome o

  -- The branch of etcdPhase for a cluster that is being deleted.
  unfoldable pub skip_etcd : Exec (Unit {0})
  skip_etcd =
      stamp_phase r etcd_annotation (etcd_text skipped_cluster_delete)
      >> emit normal "EtcdSkippedClusterDelete"
      >> count "teardown_etcd_total" (etcd_text skipped_cluster_delete)

  -- etcdPhase: the time after which to come back, 0 if the phase is over.
  unfoldable pub etcd_phase : ℕ → Bool → Exec ℕ
  etcd_phase observed_at cluster_is_deleting = this >>= λ m.
      if has etcd_annotation m.annotations
      then pure 0
      else if cluster_is_deleting
      then (skip_etcd >> pure 0)
      else if not (is_control_plane r.api m)
      then pure 0
      else serialize_control_plane >>= λ wait.
          if wait == 0 then (ensure_etcd_removed observed_at >> pure 0) else pure wait
