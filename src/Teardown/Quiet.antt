-- ===== src/Teardown/Quiet.antt =====
-- What the parts of the controller put on the trace: which of them only talk to the API server, and
-- which never patch the Machine.
use cluster_api_runtime_exte.Base.{ℕ, String, List, [], ◌∷◌}
use cluster_api_runtime_exte.Teardown.Api.{
  ObjectKey, Machine, InfraMachine, Secret, EtcdOutcome, left, removed, ResetOutcome, done,
}
use cluster_api_runtime_exte.Teardown.Effect.{Error, Result, ok, err, Config, MemberList}
use cluster_api_runtime_exte.Teardown.Effect.Pushes.{
  Pushes, IsLocal, IsNoPatch, IsNoWipe, Pushes-IsNoWipe, Pushes-IsNoPatch, Pushes-bind,
  Pushes-option, Pushes-pure, push_rules,
}
use cluster_api_runtime_exte.Teardown.Controller.{Reconciler}
use cluster_api_runtime_exte.Teardown.Address.{hardware_address, resolve_address}
use cluster_api_runtime_exte.Teardown.Credentials.{refresh, ensure, parsed, config}
use cluster_api_runtime_exte.Teardown.HookPhase.{ensure_credentials, cluster_deleting}
use cluster_api_runtime_exte.Teardown.EtcdPhase.{
  list_control_plane_machines, serialize_control_plane, ask_members, probe_node, probe_peer,
  first_healthy, find_healthy_peer, leave_node, leave_via_victim, remove_member, load_config,
  try_etcd_removal, record_etcd_outcome, orphan_or_retry,
}
use cluster_api_runtime_exte.Teardown.ResetPhase.{
  reset_node, try_reset, skip_or_retry, record_reset_outcome,
}

module _ (r : Reconciler) where
  hardware_address-IsLocal : (tm : InfraMachine) → Pushes IsLocal (hardware_address r tm)
  unfolding hardware_address
  hardware_address-IsLocal tm = search push_rules

  pub resolve_address-IsLocal : (m : Machine) → Pushes IsLocal (resolve_address r m)
  unfolding resolve_address
  resolve_address-IsLocal m = search (push_rules, hardware_address-IsLocal) depth 8

  refresh-IsLocal : (c : ObjectKey) (s : Secret) → Pushes IsLocal (refresh r c s)
  unfolding refresh
  refresh-IsLocal c s = search push_rules depth 7

  ensure-IsLocal : (c : ObjectKey) → Pushes IsLocal (ensure r c)
  unfolding ensure
  ensure-IsLocal c = search (push_rules, refresh-IsLocal)

  pub ensure_credentials-IsLocal : Pushes IsLocal (ensure_credentials r)
  unfolding ensure_credentials
  ensure_credentials-IsLocal = search (push_rules, ensure-IsLocal)

  pub cluster_deleting-IsLocal : Pushes IsLocal (cluster_deleting r)
  unfolding cluster_deleting
  cluster_deleting-IsLocal = search push_rules

  parsed-IsLocal : (x : Result Config) → Pushes IsLocal (parsed r x)
  unfolding parsed
  parsed-IsLocal (ok cfg) = search push_rules
  parsed-IsLocal (err e) = search push_rules

  config-IsLocal : (c : ObjectKey) → Pushes IsLocal (config r c)
  unfolding config
  config-IsLocal c = search (push_rules, parsed-IsLocal) depth 7

  pub load_config-IsLocal : (m : Machine) → Pushes IsLocal (load_config r m)
  unfolding load_config
  load_config-IsLocal m = search (push_rules, config-IsLocal)

  pub list-IsLocal : (m : Machine) → Pushes IsLocal (list_control_plane_machines r m)
  unfolding list_control_plane_machines
  list-IsLocal m = search push_rules

  pub serialize-IsLocal : Pushes IsLocal (serialize_control_plane r)
  unfolding serialize_control_plane
  serialize-IsLocal = search (push_rules, list-IsLocal)

  pub record_etcd_outcome-IsLocal : (o : EtcdOutcome) → Pushes IsLocal (record_etcd_outcome r o)
  unfolding record_etcd_outcome
  record_etcd_outcome-IsLocal left = search push_rules
  record_etcd_outcome-IsLocal removed = search push_rules
  record_etcd_outcome-IsLocal _ = search push_rules

  pub orphan_or_retry-IsLocal : (t : ℕ) (e : Error) → Pushes IsLocal (orphan_or_retry r t e)
  unfolding orphan_or_retry
  orphan_or_retry-IsLocal t e = search push_rules

  pub skip_or_retry-IsLocal : (t : ℕ) (e : Error) → Pushes IsLocal (skip_or_retry r t e)
  unfolding skip_or_retry
  skip_or_retry-IsLocal t e = search push_rules

  pub record_reset_outcome-IsLocal : (o : ResetOutcome) → Pushes IsLocal (record_reset_outcome r o)
  unfolding record_reset_outcome
  record_reset_outcome-IsLocal done = search push_rules
  record_reset_outcome-IsLocal _ = search push_rules

  -- The etcd phase's dialogs with nodes: no patch, no reset.
  ask_members-quiet : (address : String) → Pushes IsNoWipe (ask_members r address)
  unfolding ask_members
  ask_members-quiet address = search push_rules

  probe_node-quiet : (address : String) → Pushes IsNoWipe (probe_node r address)
  unfolding probe_node
  probe_node-quiet address = search (push_rules, ask_members-quiet)

  probe_peer-quiet : (m : Machine) (cfg : Config) → Pushes IsNoWipe (probe_peer r m cfg)
  unfolding probe_peer
  probe_peer-quiet m cfg =
      search (push_rules, resolve_address-IsLocal, Pushes-IsNoWipe, probe_node-quiet)

  first_healthy-quiet :
      (cfg : Config) (ms : List Machine) → Pushes IsNoWipe (first_healthy r cfg ms)
  unfolding first_healthy
  first_healthy-quiet cfg [] = search push_rules
  first_healthy-quiet cfg (m ∷ ms) =
      Pushes-bind _ _ (probe_peer-quiet m cfg)
        (λ found. Pushes-option found _ _ (λ p. Pushes-pure p) (first_healthy-quiet cfg ms))

  find_healthy_peer-quiet :
      (m : Machine) (cfg : Config) → Pushes IsNoWipe (find_healthy_peer r m cfg)
  unfolding find_healthy_peer
  find_healthy_peer-quiet m cfg =
      search (push_rules, list-IsLocal, Pushes-IsNoWipe, first_healthy-quiet)

  leave_node-quiet : (m : Machine) (address : String) → Pushes IsNoWipe (leave_node r m address)
  unfolding leave_node
  leave_node-quiet m address = search push_rules depth 8

  leave_via_victim-quiet : (m : Machine) (cfg : Config) → Pushes IsNoWipe (leave_via_victim r m cfg)
  unfolding leave_via_victim
  leave_via_victim-quiet m cfg =
      search (push_rules, resolve_address-IsLocal, Pushes-IsNoWipe, leave_node-quiet) depth 7

  remove_member-quiet :
      (m : Machine) (cfg : Config) (peer : String) (ms : MemberList)
      → Pushes IsNoWipe (remove_member r m cfg peer ms)
  unfolding remove_member
  remove_member-quiet m cfg peer ms = search (push_rules, leave_via_victim-quiet) depth 7

  pub try_etcd_removal-quiet : Pushes IsNoWipe (try_etcd_removal r)
  unfolding try_etcd_removal
  try_etcd_removal-quiet =
      search
        (
          push_rules, load_config-IsLocal, Pushes-IsNoWipe, find_healthy_peer-quiet,
          remove_member-quiet,
        )
        depth 7

  -- The reset's dialog: no patch.
  reset_node-quiet : (address : String) → Pushes IsNoPatch (reset_node r address)
  unfolding reset_node
  reset_node-quiet address = search push_rules depth 7

  pub try_reset-quiet : Pushes IsNoPatch (try_reset r)
  unfolding try_reset
  try_reset-quiet =
      search
        (
          push_rules, resolve_address-IsLocal, load_config-IsLocal, Pushes-IsNoPatch,
          reset_node-quiet,
        )
        depth 8
