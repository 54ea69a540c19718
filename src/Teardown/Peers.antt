-- ===== src/Teardown/Peers.antt =====
-- The order of control-plane Machines: orderPeers and the hold of serializeControlPlane
-- (internal/teardown/reconciler.go), sortByAge (internal/teardown/setup.go).
pub mod Serial
pub mod Candidates
pub mod Ranked
use cluster_api_runtime_exte.Base.{
  ℕ, String, Bool, true, false, not, ◌&&◌, ◌||◌, Option, none, some, List, [], ◌∷◌, ◌++◌, ltb, ◌==◌,
  string_eq, nat_eq, if◌then◌else◌, is_some,
}
use cluster_api_runtime_exte.Base.Dict.{lookup, has}
use cluster_api_runtime_exte.Base.Lists.{any, keep, sort}
use cluster_api_runtime_exte.Base.Texts.{str_lt}
use cluster_api_runtime_exte.Teardown.Api.{ClusterApi, Machine, etcd_leaving_annotation}
use cluster_api_runtime_exte.Teardown.Qualify.{has_hook}

-- The comparison of sortByAge: older first, then by name.
unfoldable pub older : Machine → Machine → Bool
older a b =
    if a.creation_timestamp == b.creation_timestamp
    then str_lt a.name b.name
    else ltb a.creation_timestamp b.creation_timestamp

-- sortByAge
unfoldable pub sort_by_age : List Machine → List Machine
unfolding older
sort_by_age = sort older

-- The filter of orderPeers: not the victim, not deleting, not leaving etcd.
unfoldable pub is_candidate : Machine → Machine → Bool
is_candidate victim m =
    not (m.name == victim.name)
    && not (is_some m.deletion_timestamp)
    && not (has etcd_leaving_annotation m.annotations)

abbrev pub has_node_ref : Machine → Bool
has_node_ref m = not (m.node_ref == "")

-- orderPeers
unfoldable pub order_peers : List Machine → Machine → List Machine
unfolding sort_by_age
order_peers machines victim =
    let candidates = keep (is_candidate victim) machines in
    sort_by_age (keep has_node_ref candidates)
    ++ sort_by_age (keep (λ m. not (has_node_ref m)) candidates)

-- Of two deleting Machines: by deletion timestamp, then by name.
unfoldable pub deleted_before : ℕ → String → ℕ → String → Bool
deleted_before t name t' name' = ltb t t' || (t == t' && str_lt name name')

module _ (api : ClusterApi) where
  abbrev precedes : Option ℕ → Machine → Option ℕ → Machine → Bool
  precedes none peer _ m = false
  precedes (some t) peer none m = false
  precedes (some t) peer (some t') m = deleted_before t peer.name t' m.name

  -- One turn of the loop in serializeControlPlane: whether this peer holds the machine back.
  unfoldable pub holds_back : Machine → Machine → Bool
  unfolding deleted_before
  holds_back m peer =
      if peer.name == m.name || not (has_hook api peer)
      then false
      else precedes peer.deletion_timestamp peer m.deletion_timestamp m

  -- The loop: whether the machine has to wait.
  unfoldable pub must_wait : List Machine → Machine → Bool
  must_wait peers m = any (holds_back m) peers
