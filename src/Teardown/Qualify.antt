-- ===== src/Teardown/Qualify.antt =====
-- internal/teardown/qualify.go
pub mod Hooks
use cluster_api_runtime_exte.Base.{
  String, ◌≡◌, Bool, true, false, not, ◌&&◌, ◌||◌, Option, none, some, List, [], ◌∷◌, arith,
  starts_with, ◌==◌, string_eq, if◌then◌else◌, is_some,
}
use cluster_api_runtime_exte.Base.Dict.{Dict, lookup, has}
use cluster_api_runtime_exte.Base.Lists.{any}
use cluster_api_runtime_exte.Teardown.Api.{
  ClusterApi, Machine, Condition, hook_annotation, hook_value,
}

-- Qualifies
unfoldable pub qualifies : Machine → Bool
qualifies m =
    m.bootstrap.kind == "TalosConfig"
    && m.bootstrap.api_group == "bootstrap.cluster.x-k8s.io"
    && m.infrastructure.kind == "TinkerbellMachine"
    && m.infrastructure.api_group == "infrastructure.cluster.x-k8s.io"

module _ (api : ClusterApi) where
  -- HasHook
  unfoldable pub has_hook : Machine → Bool
  has_hook m = has (hook_annotation api) m.annotations

  find_reason : List Condition → String
  find_reason [] = ""
  find_reason (c ∷ cs) =
      if c.kind == api.deleting_condition && c.status == api.condition_true
      then c.reason
      else find_reason cs

  -- deletingReason
  unfoldable pub deleting_reason : Machine → String
  unfolding find_reason
  deleting_reason m = find_reason m.conditions

  -- preTerminateOrEarlier
  unfoldable pub pre_terminate_or_earlier : String → Bool
  pre_terminate_or_earlier reason =
      reason == api.deleting
      || reason == api.waiting_for_pre_drain_hook
      || reason == api.draining_node
      || reason == api.waiting_for_volume_detach
      || reason == api.waiting_for_pre_terminate_hook

  -- StampAllowed
  unfoldable pub stamp_allowed : Machine → Bool
  stamp_allowed m = elim m.deletion_timestamp [
    | none ↦ true
    | some _ ↦ let reason = deleting_reason m in reason == "" || pre_terminate_or_earlier reason
  ]

  -- AtPreTerminate
  unfoldable pub at_pre_terminate : Machine → Bool
  at_pre_terminate m = deleting_reason m == api.waiting_for_pre_terminate_hook

  -- The test on one annotation in HasOtherPreTerminateHooks.
  unfoldable pub is_foreign_hook : String → String → Bool
  is_foreign_hook key value =
      if key == hook_annotation api || value == hook_value
      then false
      else starts_with key api.pre_terminate_prefix

  unfoldable pub any_foreign : Dict String → Bool
  any_foreign [] = false
  any_foreign ((key, value) ∷ rest) = is_foreign_hook key value || any_foreign rest

  -- HasOtherPreTerminateHooks
  unfoldable pub has_other_pre_terminate_hooks : Machine → Bool
  unfolding any_foreign
  has_other_pre_terminate_hooks m = any_foreign m.annotations

  -- The test on one annotation in legacyHookKeys.
  unfoldable pub is_legacy_hook : String → String → Bool
  is_legacy_hook key value =
      if key == hook_annotation api || not (value == hook_value)
      then false
      else starts_with key api.pre_terminate_prefix

  unfoldable pub legacy_keys : Dict String → List String
  legacy_keys [] = []
  legacy_keys ((key, value) ∷ rest) =
      let more = legacy_keys rest in if is_legacy_hook key value then key ∷ more else more

  -- legacyHookKeys
  unfoldable pub legacy_hook_keys : Machine → List String
  unfolding legacy_keys
  legacy_hook_keys m = legacy_keys m.annotations

  -- IsControlPlane
  unfoldable pub is_control_plane : Machine → Bool
  is_control_plane m = has api.control_plane_label m.labels
