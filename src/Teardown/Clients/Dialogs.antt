-- ===== src/Teardown/Clients/Dialogs.antt =====
-- The dialogs with nodes: the client that a probe hands on is the one that is left open.
use cluster_api_runtime_exte.Base.{
  ℕ, ◌+◌, String, false, Option, none, some, List, [], ◌∷◌, arith, string_eq, nat_eq,
}
use cluster_api_runtime_exte.Teardown.Api.{Machine}
use cluster_api_runtime_exte.Teardown.Effect.{
  close, Config, MemberList, Rpc, record_call, pure, cases, ◌>>=◌, ◌>>◌,
}
use cluster_api_runtime_exte.Teardown.Effect.Pushes.{
  Pushes, push_rules, Pushes-consult, Pushes-tell,
}
use cluster_api_runtime_exte.Teardown.Address.{resolve_address}
use cluster_api_runtime_exte.Teardown.Controller.{Reconciler}
use cluster_api_runtime_exte.Teardown.EtcdPhase.{
  call, ask_members, probe_node, probe_peer, first_healthy, find_healthy_peer, leave_node,
  leave_via_victim, remove_member, try_etcd_removal,
}
use cluster_api_runtime_exte.Teardown.ResetPhase.{reset_node, try_reset}
use cluster_api_runtime_exte.Teardown.Quiet.{
  resolve_address-IsLocal, load_config-IsLocal, list-IsLocal,
}
use cluster_api_runtime_exte.Teardown.Clients.{
  one, opened, closed, Flow, Flow-pure, Flow-raise, Flow-if, Flow-cases, Flow-this, Flow-bind,
  Flow-handle,
}
use cluster_api_runtime_exte.Teardown.Clients.Steady.{
  IsCallOnly, Flow-Pushes, Flow-dial, Flow-closing, Steady, Steady-IsLocal, Steady-Pushes,
  steady_rules,
}

module _ (a : String) (r : Reconciler) where
  -- The client that a probe returns is open.
  abbrev held : ℕ → Option (String × MemberList) → ℕ
  held j o = cases o (λ p. one p.0 a + j) j

  Flow-give_up :
      (j e : ℕ) (address : String)
      → Flow a
          (one address a + j)
          (record_call (close address) >> pure {A = Option (String × MemberList)} none)
          (held j)
          e
  unfolding record_call pure ◌>>=◌ opened closed
  Flow-give_up j e address = record { flows = λ w. ground arith }

  Flow-ask_members :
      (j e : ℕ) (address : String) → Flow a (one address a + j) (ask_members r address) (held j) e
  unfolding ask_members
  Flow-ask_members j e address =
      Flow-handle a _ _ _ (Flow-Pushes a (one address a + j) (Pushes-consult _ _ (λ b. tt)))
        (λ members. Flow-pure a (some (address, members))) (λ _. Flow-give_up j e address)

  Flow-probe_node :
      (j e : ℕ) (address : String) → Flow a (one address a + j) (probe_node r address) (held j) e
  unfolding probe_node
  Flow-probe_node j e address =
      Flow-handle a _ _ _ (Flow-Pushes a (one address a + j) (Pushes-consult _ _ (λ b. tt)))
        (λ services. Flow-if a _ _ _ (Flow-ask_members j e address) (Flow-give_up j e address))
        (λ _. Flow-give_up j e address)

  Steady-address : (m : Machine) → Steady a (resolve_address r m)
  Steady-address m = Steady-IsLocal a (resolve_address-IsLocal r m)

  Flow-probe_peer : (j : ℕ) (m : Machine) (cfg : Config) → Flow a j (probe_peer r m cfg) (held j) j
  unfolding probe_peer
  Flow-probe_peer j m cfg =
      Flow-handle a _ _ _ ((Steady-address m).flow j)
        (λ address. Flow-if a _ _ _ (Flow-pure a none) (
          Flow-handle a _ _ _ (Flow-dial a r j cfg address) (λ _. Flow-probe_node j j address)
            (λ _. Flow-pure a none)))
        (λ _. Flow-pure a none)

  Flow-first_healthy :
      (j : ℕ) (cfg : Config) (ms : List Machine)
      → Flow a j (first_healthy r cfg ms) (λ p. one p.0 a + j) j
  unfolding first_healthy
  Flow-first_healthy j cfg [] = Flow-raise a _
  Flow-first_healthy j cfg (m ∷ ms) =
      Flow-bind a _ _ (Flow-probe_peer j m cfg)
        (λ found. Flow-cases a found _ _ (λ p. Flow-pure a p) (Flow-first_healthy j cfg ms))

  Flow-find_healthy_peer :
      (j : ℕ) (m : Machine) (cfg : Config)
      → Flow a j (find_healthy_peer r m cfg) (λ p. one p.0 a + j) j
  unfolding find_healthy_peer
  Flow-find_healthy_peer j m cfg =
      Flow-bind a _ _ ((Steady-IsLocal a (list-IsLocal r m)).flow j)
        (λ peers. Flow-first_healthy j cfg _)

  leave_node-IsCallOnly :
      (m : Machine) (address : String) → Pushes IsCallOnly (leave_node r m address)
  unfolding leave_node
  leave_node-IsCallOnly m address = search push_rules depth 8

  leave_via_victim-Steady : (m : Machine) (cfg : Config) → Steady a (leave_via_victim r m cfg)
  unfolding leave_via_victim
  leave_via_victim-Steady m cfg = record {
    flow = λ j.
        Flow-handle a _ _ _ ((Steady-address m).flow j)
          (λ address. Flow-if a _ _ _ (Flow-pure a false) (
            Flow-handle a _ _ _ (Flow-dial a r j cfg address)
              (λ _.
                Flow-closing a j address _
                  (Flow-Pushes a (one address a + j) (leave_node-IsCallOnly m address)))
              (λ _. Flow-pure a false)))
          (λ _. Flow-pure a false);
  }

  call-Steady : (address : String) (procedure : Rpc) → Steady a (call r address procedure)
  call-Steady address procedure = Steady-Pushes a (Pushes-tell _ _ (λ b. tt))

  remove_member-Steady :
      (m : Machine) (cfg : Config) (peer : String) (members : MemberList)
      → Steady a (remove_member r m cfg peer members)
  unfolding remove_member
  remove_member-Steady m cfg peer members =
      search (steady_rules, leave_via_victim-Steady, call-Steady) depth 8

  pub try_etcd_removal-Steady : Steady a (try_etcd_removal r)
  unfolding try_etcd_removal
  try_etcd_removal-Steady = record {
    flow = λ j. Flow-this a _ (λ m.
        Flow-bind a _ _ ((Steady-IsLocal a (load_config-IsLocal r m)).flow j) (λ cfg.
          Flow-bind a _ _ (Flow-find_healthy_peer j m cfg) (λ (peer, members).
            Flow-closing a j peer _
              ((remove_member-Steady m cfg peer members).flow (one peer a + j)))));
  }

  reset_node-IsCallOnly : (address : String) → Pushes IsCallOnly (reset_node r address)
  unfolding reset_node
  reset_node-IsCallOnly address = search push_rules depth 7

  pub try_reset-Steady : Steady a (try_reset r)
  unfolding try_reset
  try_reset-Steady = record {
    flow = λ j. Flow-this a _ (λ m. Flow-bind a _ _ ((Steady-address m).flow j) (λ address.
        Flow-if a _ _ _ (Flow-pure a _) (
          Flow-bind a _ _ ((Steady-IsLocal a (load_config-IsLocal r m)).flow j) (λ cfg.
            Flow-bind a _ _ (Flow-dial a r j cfg address) (λ _.
              Flow-closing a j address _
                (Flow-Pushes a (one address a + j) (reset_node-IsCallOnly address)))))));
  }
