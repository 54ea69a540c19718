-- ===== src/Teardown/Clients/Whole.antt =====
-- Every client that a reconcile dials is closed by the time it returns.
use cluster_api_runtime_exte.Base.{ℕ, String, ◌≡◌, Bool, ◌∷◌, arith, string_eq, nat_eq}
use cluster_api_runtime_exte.Teardown.Api.{ObjectKey, Machine}
use cluster_api_runtime_exte.Teardown.Effect.{Result, ok, err, Trace, World, get, machine}
use cluster_api_runtime_exte.Teardown.Effect.Pushes.{push_rules}
use cluster_api_runtime_exte.Teardown.Controller.{Reconciler, stamp_phase}
use cluster_api_runtime_exte.Teardown.EtcdPhase.{ensure_etcd_removed, skip_etcd, etcd_phase}
use cluster_api_runtime_exte.Teardown.ResetPhase.{reset_phase}
use cluster_api_runtime_exte.Teardown.HookPhase.{
  ensure_hook, ensure_credentials, reconcile_normal, restamp, ensure_observed_at, release,
}
use cluster_api_runtime_exte.Teardown.Reconcile.{
  conclude, drive, gate, reconcile_deleting, reconcile_machine, reconcile_read, reconcile,
}
use cluster_api_runtime_exte.Teardown.Quiet.{
  serialize-IsLocal, ensure_credentials-IsLocal, cluster_deleting-IsLocal,
  record_etcd_outcome-IsLocal, orphan_or_retry-IsLocal, record_reset_outcome-IsLocal,
  skip_or_retry-IsLocal,
}
use cluster_api_runtime_exte.Teardown.Clients.{opened, closed}
use cluster_api_runtime_exte.Teardown.Clients.Steady.{
  Steady, Steady-IsLocal, same_left, steady_rules,
}
use cluster_api_runtime_exte.Teardown.Clients.Dialogs.{try_etcd_removal-Steady, try_reset-Steady}

module _ (a : String) (r : Reconciler) where
  stamp_phase-Steady : (key value : String) → Steady a (stamp_phase r key value)
  unfolding stamp_phase
  stamp_phase-Steady key value = search steady_rules

  ensure_etcd_removed-Steady : (t : ℕ) → Steady a (ensure_etcd_removed r t)
  unfolding ensure_etcd_removed
  ensure_etcd_removed-Steady t =
      search
        (
          steady_rules, try_etcd_removal-Steady, orphan_or_retry-IsLocal,
          record_etcd_outcome-IsLocal, stamp_phase-Steady,
        )
        depth 8

  skip_etcd-Steady : Steady a (skip_etcd r)
  unfolding skip_etcd
  skip_etcd-Steady = search (steady_rules, push_rules, stamp_phase-Steady) depth 8

  etcd_phase-Steady : (t : ℕ) (b : Bool) → Steady a (etcd_phase r t b)
  unfolding etcd_phase
  etcd_phase-Steady t b =
      search (steady_rules, skip_etcd-Steady, serialize-IsLocal, ensure_etcd_removed-Steady) depth
        10

  reset_phase-Steady : (t : ℕ) → Steady a (reset_phase r t)
  unfolding reset_phase
  reset_phase-Steady t =
      search
        (
          steady_rules, try_reset-Steady, skip_or_retry-IsLocal, record_reset_outcome-IsLocal,
          stamp_phase-Steady,
        )
        depth 10

  ensure_hook-Steady : Steady a (ensure_hook r)
  unfolding ensure_hook
  ensure_hook-Steady = search (steady_rules, push_rules) depth 8

  ensure_credentials-Steady : Steady a (ensure_credentials r)
  ensure_credentials-Steady = Steady-IsLocal a (ensure_credentials-IsLocal r)

  reconcile_normal-Steady : Steady a (reconcile_normal r)
  unfolding reconcile_normal
  reconcile_normal-Steady = search (steady_rules, ensure_hook-Steady, ensure_credentials-Steady)

  restamp-Steady : Steady a (restamp r)
  unfolding restamp
  restamp-Steady = search (steady_rules, push_rules) depth 8

  ensure_observed_at-Steady : Steady a (ensure_observed_at r)
  unfolding ensure_observed_at
  ensure_observed_at-Steady = search (steady_rules, restamp-Steady)

  release-Steady : Steady a (release r)
  unfolding release
  release-Steady = search (steady_rules, push_rules) depth 8

  conclude-Steady : (t wait : ℕ) → Steady a (conclude r t wait)
  unfolding conclude
  conclude-Steady t wait = search (steady_rules, reset_phase-Steady, release-Steady) depth 8

  drive-Steady : Steady a (drive r)
  unfolding drive
  drive-Steady =
      search
        (
          steady_rules, ensure_observed_at-Steady, cluster_deleting-IsLocal, etcd_phase-Steady,
          conclude-Steady,
        )
        depth 8

  gate-Steady : Steady a (gate r)
  unfolding gate
  gate-Steady = search (steady_rules, drive-Steady) depth 8

  reconcile_deleting-Steady : Steady a (reconcile_deleting r)
  unfolding reconcile_deleting
  reconcile_deleting-Steady =
      search (steady_rules, gate-Steady, ensure_hook-Steady, ensure_credentials-Steady) depth 10

  reconcile_machine-Steady : Steady a (reconcile_machine r)
  unfolding reconcile_machine
  reconcile_machine-Steady =
      search (steady_rules, reconcile_deleting-Steady, reconcile_normal-Steady) depth 8

  -- The end of reconcile, once the Machine is read.
  read-IsClosed :
      (t : Trace) (key : ObjectKey) (x : Result Machine)
      → opened a t ≡ closed a t
      → let s = (reconcile_read r (get machine key ∷ t) x).1 in opened a s ≡ closed a s
  unfolding reconcile_read opened closed
  read-IsClosed t key (err e) h = h
  read-IsClosed t key (ok m) h =
      let w : World = record { trace = get machine key ∷ t; machine = m } in
      let e = ((reconcile_machine-Steady).flow 0).flows w in
      let same = same_left a 0 (reconcile_machine r w).0 in grind arith

  -- Of every address, a reconcile closes as many clients as it dialed: if all are closed when it
  -- starts, all are closed when it returns, whatever the answers and on every error.
  pub reconcile-IsClosed :
      (t : Trace) (key : ObjectKey)
      → opened a t ≡ closed a t
      → opened a (reconcile r t key).1 ≡ closed a (reconcile r t key).1
  unfolding reconcile
  reconcile-IsClosed t key h = read-IsClosed t key (r.env.get_machine t key) h
