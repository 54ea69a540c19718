-- ===== src/Teardown/HookPhase.antt =====
-- The hook's life in internal/teardown/reconciler.go: ensureHook, ensureCredentials,
-- reconcileNormal, ensureObservedAt, clusterDeleting, release.
pub mod Sweep
use cluster_api_runtime_exte.Base.{
  ℕ, ◌-◌, ◌%◌, String, Bool, true, not, ◌||◌, Option, none, some, string_eq, if◌then◌else◌, is_some,
}
use cluster_api_runtime_exte.Base.Dict.{Dict, lookup, insert, erase, erase_all}
use cluster_api_runtime_exte.Teardown.Api.{hook_annotation, hook_value, observed_at_annotation}
use cluster_api_runtime_exte.Teardown.Qualify.{has_hook, stamp_allowed, legacy_keys}
use cluster_api_runtime_exte.Teardown.Effect.{
  Exec, pure, raise, handle, is_not_found, cases, this, clock, ask, get, cluster, normal, ◌>>=◌,
  ◌>>◌,
}
use cluster_api_runtime_exte.Teardown.Controller.{
  Reconciler, emit, count, cluster_key_for, patch_annotations,
}
use cluster_api_runtime_exte.Teardown.Credentials.{ensure}

-- One second, in nanoseconds.
abbrev pub second : ℕ
second = 1000000000

-- Time.Truncate(time.Second)
unfoldable pub truncate_second : ℕ → ℕ
truncate_second t = t - t % second

module _ (r : Reconciler) where
  -- The mutation of ensureHook.
  unfoldable pub with_hook : Dict String → Dict String
  with_hook annotations =
      let stamped = insert (hook_annotation r.api) hook_value annotations in
      erase_all (legacy_keys r.api stamped) stamped

  -- ensureHook
  unfoldable pub ensure_hook : Exec (Unit {0})
  ensure_hook = this >>= λ m.
      if has_hook r.api m || not (stamp_allowed r.api m)
      then pure tt
      else patch_annotations r (λ ann. some (with_hook ann)) >> emit normal "TeardownHookStamped"

  -- ensureCredentials
  unfoldable pub ensure_credentials : Exec (Unit {0})
  ensure_credentials = this >>= λ m. ensure r (cluster_key_for r m) >>= λ wrote.
      if wrote then emit normal "TeardownCredentialsCached" else pure tt

  -- reconcileNormal
  unfoldable pub reconcile_normal : Exec (Unit {0})
  reconcile_normal = ensure_hook >> ensure_credentials

  unfoldable pub restamp : Exec ℕ
  restamp = clock r.env >>= λ now.
      let observed_at = truncate_second now in
      patch_annotations r
        (λ ann. some (insert observed_at_annotation (r.env.format_time observed_at) ann))
      >> pure observed_at

  unfoldable pub parsed_time : Option String → Option ℕ
  parsed_time none = none
  parsed_time (some value) = r.env.parse_time value

  -- ensureObservedAt
  unfoldable pub ensure_observed_at : Exec ℕ
  ensure_observed_at = this >>= λ m.
      cases (parsed_time (lookup observed_at_annotation m.annotations))
        (λ observed_at. pure observed_at) restamp

  -- clusterDeleting
  unfoldable pub cluster_deleting : Exec Bool
  cluster_deleting = this >>= λ m.
      let key = cluster_key_for r m in
      handle (ask (λ t. r.env.get_cluster t key) (get cluster key))
        (λ c. pure (is_some c.deletion_timestamp))
        (λ e. if is_not_found e then pure true else raise e)

  -- The mutation of release.
  unfoldable pub without_hooks : Dict String → Dict String
  without_hooks annotations =
      let rest = erase (hook_annotation r.api) annotations in
      erase_all (legacy_keys r.api rest) rest

  -- release
  unfoldable pub release : Exec (Unit {0})
  release = this >>= λ m.
      if has_hook r.api m
      then (patch_annotations r (λ ann. some (without_hooks ann))
          >> emit normal "TeardownComplete"
          >> count "teardown_machines_total" "")
      else pure tt
