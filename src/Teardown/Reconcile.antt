-- ===== src/Teardown/Reconcile.antt =====
-- Reconcile and reconcileDeleting of internal/teardown/reconciler.go.
use cluster_api_runtime_exte.Base.{ℕ, not, ◌&&◌, ◌∷◌, ◌==◌, nat_eq, if◌then◌else◌}
use cluster_api_runtime_exte.Base.Dict.{has}
use cluster_api_runtime_exte.Teardown.Api.{ObjectKey, Machine, reset_annotation}
use cluster_api_runtime_exte.Teardown.Qualify.{
  qualifies, has_hook, stamp_allowed, at_pre_terminate, has_other_pre_terminate_hooks,
}
use cluster_api_runtime_exte.Teardown.Effect.{
  Trace, Result, ok, err, is_not_found, Exec, pure, cases, this, get, machine, ◌>>=◌, ◌>>◌,
}
use cluster_api_runtime_exte.Teardown.Controller.{Reconciler, hook_wait_requeue}
use cluster_api_runtime_exte.Teardown.HookPhase.{
  ensure_hook, ensure_credentials, reconcile_normal, ensure_observed_at, cluster_deleting, release,
}
use cluster_api_runtime_exte.Teardown.EtcdPhase.{etcd_phase}
use cluster_api_runtime_exte.Teardown.ResetPhase.{reset_phase}

module _ (r : Reconciler) where
  -- The end of reconcileDeleting, once the etcd phase has said how long to wait.
  unfoldable pub conclude : ℕ → ℕ → Exec ℕ
  conclude observed_at wait =
      if wait == 0 then (reset_phase r observed_at >> release r >> pure 0) else pure wait

  -- The three phases of reconcileDeleting.
  unfoldable pub drive : Exec ℕ
  drive = ensure_observed_at r >>= λ observed_at.
      cluster_deleting r >>= λ deleting. etcd_phase r observed_at deleting >>= conclude observed_at

  -- The gate of reconcileDeleting: only at the pre-terminate wait, and last of the hooks.
  unfoldable pub gate : Exec ℕ
  gate = this >>= λ m.
      if not (at_pre_terminate r.api m)
      then pure 0
      else if has_other_pre_terminate_hooks r.api m
      then pure hook_wait_requeue
      else drive

  -- reconcileDeleting: the time after which to come back, 0 for never.
  unfoldable pub reconcile_deleting : Exec ℕ
  reconcile_deleting = this >>= λ m.
      if has_hook r.api m
      then gate
      else if has reset_annotation m.annotations
      then pure 0
      else if not (stamp_allowed r.api m)
      then pure 0
      else (ensure_hook r >> ensure_credentials r >> gate)

  -- Reconcile, once the Machine has been read.
  unfoldable pub reconcile_machine : Exec ℕ
  reconcile_machine = this >>= λ m.
      if not (qualifies m) && not (has_hook r.api m)
      then pure 0
      else cases m.deletion_timestamp (λ _. reconcile_deleting) (reconcile_normal r >> pure 0)

  -- Reconcile below the read: the result and the trace that it leaves.
  unfoldable pub reconcile_read : Trace → Result Machine → Result ℕ × Trace
  reconcile_read t (ok m) =
      let (result, w) = reconcile_machine (record { trace = t; machine = m }) in (result, w.trace)
  reconcile_read t (err e) = (if is_not_found e then ok 0 else err e, t)

  -- Reconcile
  unfoldable pub reconcile : Trace → ObjectKey → Result ℕ × Trace
  unfolding reconcile_read
  reconcile t key = reconcile_read (get machine key ∷ t) (r.env.get_machine t key)
