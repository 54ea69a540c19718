-- ===== src/Teardown/Tests.antt =====
-- A cluster of two control-plane Machines on which the teardown of internal/teardown is run.
use mathlib.Core.List.{Perm}
use cluster_api_runtime_exte.Base.{
  ℕ, differ, String, ◌≡◌, refl, ◌≢◌, true, false, ◌||◌, inl, inr, none, some, List, [], ◌∷◌, ◌++◌,
  arith, ◌==◌, string_eq, nat_eq, if◌then◌else◌,
}
use cluster_api_runtime_exte.Base.Dict.{Dict, NodupKeys, lookup}
use cluster_api_runtime_exte.Base.Lists.{All}
use cluster_api_runtime_exte.Base.Texts.{str_lt}
use cluster_api_runtime_exte.Teardown.Api.{Machine, hook_annotation, hook_value}
use cluster_api_runtime_exte.Teardown.Qualify.{
  has_hook, at_pre_terminate, has_other_pre_terminate_hooks, is_foreign_hook, deleting_reason,
}
use cluster_api_runtime_exte.Teardown.Effect.{ok}
use cluster_api_runtime_exte.Teardown.Controller.{Reconciler}
use cluster_api_runtime_exte.Teardown.Effect.{Member}
use cluster_api_runtime_exte.Teardown.Etcd.{
  before_dot, equal_fold, fold_rune, matches_member, find_member,
}
use cluster_api_runtime_exte.Teardown.Etcd.Matching.{IsSearch, find_member-IsSearch}
use cluster_api_runtime_exte.Teardown.Peers.Ranked.{IsCandidate, IsRanked, order_peers-IsRanked}
use cluster_api_runtime_exte.Teardown.Peers.{order_peers}
use cluster_api_runtime_exte.Teardown.Peers.{must_wait, holds_back}
use cluster_api_runtime_exte.Teardown.Peers.Serial.{
  IsLeaving, here, there, FirstLeaver, must_wait_exclusive, must_wait_progress,
}
use cluster_api_runtime_exte.Teardown.HookPhase.{parsed_time, without_hooks}
use cluster_api_runtime_exte.Teardown.HookPhase.Sweep.{lookup-without_hooks, is_own}
use cluster_api_runtime_exte.Teardown.Reconcile.{reconcile, reconcile_machine}
use cluster_api_runtime_exte.Teardown.Order.{IsOrdered}
use cluster_api_runtime_exte.Teardown.Order.Whole.{reconcile-IsOrdered}
use cluster_api_runtime_exte.Teardown.Gate.{IsOffNode, IsEarly, reconcile_early-IsOffNode}
use cluster_api_runtime_exte.Teardown.Scenario.{
  v1beta2, v1beta2-IsApart, hook, leaver, cp_0, cp_1, outage, controller, key_0,
}
use cluster_api_runtime_exte.Teardown.Liveness.{IsServing, IsOverdue}
use cluster_api_runtime_exte.Teardown.Liveness.Release.{IsReleased, reconcile_machine-IsReleased}

reconcile-IsOrdered_example : IsOrdered v1beta2 cp_0 (reconcile controller [] key_0).1
reconcile-IsOrdered_example = reconcile-IsOrdered controller cp_0 v1beta2-IsApart [] key_0 refl tt

abbrev drained : Machine
drained = record cp_0 { conditions = [] }

abbrev early_controller : Reconciler
early_controller = record controller { env = record outage { get_machine = λ t key. ok drained } }

drained-IsEarly : IsEarly early_controller drained
unfolding at_pre_terminate deleting_reason string_eq
drained-IsEarly = inr (inl refl)

reconcile_early-IsOffNode_example : All IsOffNode (reconcile early_controller [] key_0).1
reconcile_early-IsOffNode_example =
    reconcile_early-IsOffNode early_controller drained [] key_0 refl drained-IsEarly tt

outage-IsServing : IsServing controller cp_0
unfolding must_wait holds_back str_lt string_eq nat_eq has_hook hook_annotation lookup
outage-IsServing = record {
  helper = λ t m. refl;
  patches = λ t m a. refl;
  clusters = λ t key. tt;
  peers = λ t namespace name. refl;
}

cp_0-IsOverdue : IsOverdue controller cp_0
unfolding has_hook hook_annotation at_pre_terminate deleting_reason has_other_pre_terminate_hooks
    is_foreign_hook hook_value parsed_time lookup string_eq
cp_0-IsOverdue = record {
  hooked = refl;
  parked = refl;
  alone = refl;
  deleting = refl;
  since = 1000;
  on_record = refl;
  etcd_late = λ t. (ground arith);
  reset_late = λ t. (ground arith);
}

reconcile_machine-IsReleased_example :
    let (x, w) = reconcile_machine controller (record { trace = []; machine = cp_0 }) in
    (x ≡ ok 0) × IsReleased controller w.machine
reconcile_machine-IsReleased_example =
    reconcile_machine-IsReleased controller cp_0 v1beta2-IsApart outage-IsServing cp_0-IsOverdue []

leaver-IsLeaving : (name : String) (t : ℕ) → IsLeaving v1beta2 (leaver name t)
unfolding has_hook hook_annotation lookup string_eq
leaver-IsLeaving name t = (refl, refl)

cp_0-ne-cp_1 : cp_0.name ≢ cp_1.name
unfolding string_eq
cp_0-ne-cp_1 = differ "cp-0" "cp-1" refl

cp_0-goes : must_wait v1beta2 (cp_1 ∷ cp_0 ∷ []) cp_0 ≡ false
unfolding must_wait holds_back str_lt string_eq nat_eq has_hook hook_annotation lookup
cp_0-goes = refl

must_wait_exclusive_example : must_wait v1beta2 (cp_1 ∷ cp_0 ∷ []) cp_1 ≡ true
must_wait_exclusive_example =
    must_wait_exclusive v1beta2 cp_0 cp_1 (cp_1 ∷ cp_0 ∷ []) (there here) here
      (leaver-IsLeaving "cp-0" 100) (leaver-IsLeaving "cp-1" 200) cp_0-ne-cp_1 cp_0-goes

cp_1-ne-cp_0 : cp_1.name ≢ cp_0.name
unfolding string_eq
cp_1-ne-cp_0 = differ "cp-1" "cp-0" refl

must_wait_progress_example : FirstLeaver v1beta2 (cp_1 ∷ cp_0 ∷ [])
must_wait_progress_example =
    must_wait_progress v1beta2 cp_1 (cp_1 ∷ cp_0 ∷ []) here (leaver-IsLeaving "cp-1" 200)
      ((cp_1-ne-cp_0, tt), (tt, tt))

-- The hook of this controller, an old one of it, and that of another controller.
abbrev hooks : Dict String
hooks =
    (hook, "talos-machine-teardown")
    ∷ ("pre-terminate.delete.hook.machine.cluster.x-k8s.io/old", "talos-machine-teardown")
    ∷ ("pre-terminate.delete.hook.machine.cluster.x-k8s.io/rancher", "rancher")
    ∷ []

hooks-NodupKeys : NodupKeys hooks
unfolding lookup string_eq
hooks-NodupKeys = (refl, (refl, (refl, tt)))

abbrev old_hook : String
old_hook = "pre-terminate.delete.hook.machine.cluster.x-k8s.io/old"

lookup-without_hooks_example : lookup old_hook (without_hooks controller hooks) ≡ (
    if old_hook == hook_annotation v1beta2 || is_own v1beta2 old_hook (lookup old_hook hooks)
    then none
    else lookup old_hook hooks)
lookup-without_hooks_example = lookup-without_hooks controller hooks hooks-NodupKeys old_hook

-- A control-plane Machine that stays.
abbrev spare : Machine
spare = record cp_1 { name = "cp-2"; deletion_timestamp = none }

order_peers-IsRanked_example :
    (others : List Machine) × Perm
      (order_peers (cp_1 ∷ spare ∷ []) cp_0 ++ others)
      (cp_1 ∷ spare ∷ [])
    × All (IsCandidate cp_0) (order_peers (cp_1 ∷ spare ∷ []) cp_0)
    × All (λ m. ¬ IsCandidate cp_0 m) others
    × IsRanked (order_peers (cp_1 ∷ spare ∷ []) cp_0)
order_peers-IsRanked_example = order_peers-IsRanked (cp_1 ∷ spare ∷ []) cp_0

abbrev member_0 : Member
member_0 = record { id = 10; hostname = "CP-0.example.org" }

abbrev member_1 : Member
member_1 = record { id = 11; hostname = "cp-1" }

cp_0-member :
    find_member (some ((member_1 ∷ []) ∷ (member_0 ∷ []) ∷ [])) ("cp-0" ∷ []) ≡ some member_0
unfolding find_member matches_member before_dot equal_fold fold_rune nat_eq
cp_0-member = refl

find_member-IsSearch_example :
    IsSearch
      ("cp-0" ∷ [])
      (member_1 ∷ member_0 ∷ [])
      (find_member (some ((member_1 ∷ []) ∷ (member_0 ∷ []) ∷ [])) ("cp-0" ∷ []))
find_member-IsSearch_example =
    find_member-IsSearch ((member_1 ∷ []) ∷ (member_0 ∷ []) ∷ []) ("cp-0" ∷ [])

alike : equal_fold (before_dot "CP-0.example.org") (before_dot "cp-0") ≡ true
unfolding before_dot equal_fold fold_rune nat_eq
alike = refl
