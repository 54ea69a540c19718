-- ===== src/Teardown/Deadline.antt =====
-- The retries of internal/teardown/reconciler.go: until a phase's deadline has passed, a failed attempt
-- is an error, which the queue answers with a backoff, and concludes nothing.
use cluster_api_runtime_exte.Base.{ℕ, ◌+◌, ◌≤◌, ◌≡◌, refl, ap, false, [], ◌∷◌, ◌++◌, arith, ltb}
use cluster_api_runtime_exte.Base.Dict.{has}
use cluster_api_runtime_exte.Base.Lists.{All}
use cluster_api_runtime_exte.Teardown.Api.{reset_annotation}
use cluster_api_runtime_exte.Teardown.Effect.{
  Error, transient, Result, err, Call, Trace, World, Exec, patch, read_clock, ◌>>=◌,
}
use cluster_api_runtime_exte.Teardown.Effect.Pushes.{IsNoPatch, IsNoWipe, extend}
use cluster_api_runtime_exte.Teardown.Controller.{Reconciler}
use cluster_api_runtime_exte.Teardown.EtcdPhase.{
  try_etcd_removal, orphan_or_retry, ensure_etcd_removed,
}
use cluster_api_runtime_exte.Teardown.ResetPhase.{try_reset, skip_or_retry, reset_phase}
use cluster_api_runtime_exte.Teardown.Quiet.{try_etcd_removal-quiet, try_reset-quiet}

-- The action ends in a retriable error, has not changed the Machine, and has sent no patch.
abbrev pub IsRetry : {A : Type 0} → Error → World → Result A × World → Type 0
IsRetry {A} e w (x, w') =
    (x ≡ err (transient e))
    × (w'.machine ≡ w.machine)
    × ((new : Trace) × All IsNoPatch new × (w'.trace ≡ new ++ w.trace))

IsNoWipe-IsNoPatch : (c : Call) → IsNoWipe c → IsNoPatch c
IsNoWipe-IsNoPatch (patch _ _) h = h
IsNoWipe-IsNoPatch _ h = tt

All-IsNoPatch : (t : Trace) → All IsNoWipe t → All IsNoPatch t
All-IsNoPatch [] h = tt
All-IsNoPatch (c ∷ t) (h, k) = (IsNoWipe-IsNoPatch c h, All-IsNoPatch t k)

-- What is left of an action that never patches, once the clock has been read.
left_over :
    {A : Type 0} (m : Exec A) (w : World)
    → (t : Trace) × All IsNoPatch t × ((m w).1 ≡ extend t w)
    → ((m w).1.machine ≡ w.machine)
      × ((new : Trace) × All IsNoPatch new × (read_clock ∷ (m w).1.trace ≡ new ++ w.trace))
left_over m w (t, all, e) = (
  ap (λ (x : World). x.machine) e,
  (read_clock ∷ t, (tt, all), ap (λ (x : World). read_clock ∷ x.trace) e),
)

on_time : (t d now : ℕ) → now ≤ t + d → ltb (t + d) now ≡ false
on_time t d now h = ground arith

module _ (r : Reconciler) (t : ℕ) (w : World) (e : Error) where
  -- Until the etcd deadline has passed, a failed attempt at the removal of the etcd member, whatever it
  -- failed on, ends in a retriable error with no patch of the Machine.
  pub ensure_etcd_removed-IsRetry :
      (try_etcd_removal r w).0 ≡ err e
      → r.env.now (try_etcd_removal r w).1.trace ≤ t + r.etcd_timeout
      → IsRetry e w (ensure_etcd_removed r t w)
  unfolding ensure_etcd_removed orphan_or_retry ◌>>=◌
  ensure_etcd_removed-IsRetry failed early =
      rw (failed, on_time _ _ _ early)
        (let (t', all, same) = (try_etcd_removal-quiet r).new w in
          let (m, new) = left_over (try_etcd_removal r) w (t', All-IsNoPatch t' all, same) in
          (refl, m, new))

  -- Until the reset deadline has passed, a failed attempt at the reset of a Machine without a reset
  -- conclusion, whatever it failed on, ends in a retriable error with no patch of the Machine.
  pub reset_phase-IsRetry :
      has reset_annotation w.machine.annotations ≡ false
      → (try_reset r w).0 ≡ err e
      → r.env.now (try_reset r w).1.trace ≤ t + r.reset_timeout
      → IsRetry e w (reset_phase r t w)
  unfolding reset_phase skip_or_retry ◌>>=◌
  reset_phase-IsRetry open_ failed early =
      rw (open_, failed, on_time _ _ _ early)
        (let (m, new) = left_over (try_reset r) w ((try_reset-quiet r).new w) in (refl, m, new))
