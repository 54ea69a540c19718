-- ===== src/Teardown/Liveness/Awake.antt =====
-- Reconcile of internal/teardown/reconciler.go: no Machine at the pre-terminate wait is forgotten.
use cluster_api_runtime_exte.Base.{
  ℕ, zero, suc, String, ◌≡◌, refl, true, false, not, ◌&&◌, some, arith, ◌==◌, nat_eq, string_eq,
}
use mathlib.Core.Option.{some-injective}
use cluster_api_runtime_exte.Base.Dict.{Dict, erase, has, lookup-erase}
use cluster_api_runtime_exte.Teardown.Api.{Machine, hook_annotation}
use cluster_api_runtime_exte.Teardown.Qualify.{
  qualifies, has_hook, at_pre_terminate, has_other_pre_terminate_hooks, legacy_keys,
}
use cluster_api_runtime_exte.Teardown.Qualify.Hooks.{lookup-erase_all}
use cluster_api_runtime_exte.Teardown.Effect.{
  Result, ok, err, Trace, World, Exec, Call, record_call,
}
use cluster_api_runtime_exte.Teardown.Effect.Triples.{
  Triple, Post, Triple-pure, Triple-if, Triple-cases, Triple-this, Triple-this_at, Triple-bind,
}
use cluster_api_runtime_exte.Teardown.Controller.{Reconciler, patch_annotations, hook_wait_requeue}
use cluster_api_runtime_exte.Teardown.Controller.Patching.{patch_annotations-Post}
use cluster_api_runtime_exte.Teardown.HookPhase.{
  without_hooks, ensure_observed_at, cluster_deleting, release,
}
use cluster_api_runtime_exte.Teardown.EtcdPhase.{etcd_phase}
use cluster_api_runtime_exte.Teardown.ResetPhase.{reset_phase}
use cluster_api_runtime_exte.Teardown.Reconcile.{
  conclude, drive, gate, reconcile_deleting, reconcile_machine,
}

-- An error, which is retried; a wait that is not 0, after which the Machine is looked at again; or
-- the hook is off.
abbrev pub IsAwake : Reconciler → Result ℕ → Machine → Type 0
IsAwake r (err e) m = Unit
IsAwake r (ok (suc wait)) m = Unit
IsAwake r (ok zero) m = has_hook r.api m ≡ false

abbrev Any : World → Type 0
Any w = Unit

any_Post : {A : Type 0} (x : Result A) (w : World) → Post (λ _. Any) Any x w
any_Post (ok a) w = tt
any_Post (err e) w = tt

any : {A : Type 0} {P : World → Type 0} (m : Exec A) → Triple P m (λ _. Any) Any
any m = record { run = λ w p. any_Post (m w).0 (m w).1 }

module _ (r : Reconciler) where
  abbrev Off : World → Type 0
  Off w = has_hook r.api w.machine ≡ false

  abbrev Awake : ℕ → World → Type 0
  Awake wait w = IsAwake r (ok wait) w.machine

  without_hooks-off : (a : Dict String) → has (hook_annotation r.api) (without_hooks r a) ≡ false
  unfolding without_hooks
  without_hooks-off a =
      let h = hook_annotation r.api in
      let b = erase h a in
      ground (arith, lookup-erase_all (legacy_keys r.api b) h b, lookup-erase h h a)

  push_keeps : (c : Call) → Triple Off (record_call c) (λ _. Off) Any
  unfolding record_call
  push_keeps c = record { run = λ w h. h }

  sweep-Off :
      {P : World → Type 0}
      → Triple P (patch_annotations r (λ ann. some (without_hooks r ann))) (λ _. Off) Any
  unfolding has_hook
  sweep-Off = record {
    run = λ w h.
        patch_annotations-Post r (λ _. Off) Any w (λ ann. some (without_hooks r ann)) tt (λ e. cc e)
          (λ a e. (rw (← some-injective _ _ e) (without_hooks-off w.machine.annotations), tt));
  }

  release-Off : Triple Any (release r) (λ _. Off) Any
  unfolding release has_hook
  release-Off = Triple-this _ λ m.
      Triple-if (has (hook_annotation r.api) m.annotations) _ _
        (λ _. Triple-bind _ _ (Triple-bind _ _ sweep-Off (λ _. push_keeps _)) (λ _. push_keeps _))
        (λ off. Triple-pure tt (λ w h. rw h.0 off))

  waiting-Awake : (wait : ℕ) (w : World) → (wait == 0) ≡ false → Awake wait w
  waiting-Awake zero w h = absurd (ground arith)
  waiting-Awake (suc wait) w h = tt

  conclude-Awake : (t wait : ℕ) → Triple Any (conclude r t wait) Awake Any
  unfolding conclude
  conclude-Awake t wait =
      Triple-if (wait == 0) _ _
        (λ _.
          Triple-bind _ _ (Triple-bind _ _ (any (reset_phase r t)) (λ _. release-Off))
            (λ _. Triple-pure 0 (λ w h. h)))
        (λ busy. Triple-pure wait (λ w h. waiting-Awake wait w busy))

  drive-Awake : {P : World → Type 0} → Triple P (drive r) Awake Any
  unfolding drive
  drive-Awake = Triple-bind _ _ (any (ensure_observed_at r)) λ t.
      Triple-bind _ _ (any (cluster_deleting r))
        λ d. Triple-bind _ _ (any (etcd_phase r t d)) λ wait. conclude-Awake t wait

  Awake-eq : (x : Result ℕ) (w : World) → Post Awake Any x w → IsAwake r x w.machine
  Awake-eq (ok a) w h = h
  Awake-eq (err e) w h = tt

  module _ (read : Machine) (gone : ℕ) (deleting : read.deletion_timestamp ≡ some gone)
      (hooked : has_hook r.api read ≡ true) (parked : at_pre_terminate r.api read ≡ true) where
    abbrev Read : World → Type 0
    Read w = w.machine ≡ read

    reconcile_machine-Awake : Triple Read (reconcile_machine r) Awake Any
    unfolding reconcile_machine reconcile_deleting gate
    reconcile_machine-Awake =
        Triple-this_at read _ (λ w h. h)
          (Triple-if (not (qualifies read) && not (has_hook r.api read)) _ _
            (λ e. absurd (ground (arith, hooked)))
            (λ _.
              Triple-cases read.deletion_timestamp (λ _. reconcile_deleting r) _
                (λ _ _.
                  Triple-this_at read _ (λ w h. h)
                    (Triple-if (has_hook r.api read) _ _
                      (λ _.
                        Triple-this_at read _ (λ w h. h)
                          (Triple-if (not (at_pre_terminate r.api read)) _ _
                            (λ e. absurd (ground (arith, parked)))
                            (λ _.
                              Triple-if (has_other_pre_terminate_hooks r.api read) _ _
                                (λ _. Triple-pure hook_wait_requeue (λ w h. tt))
                                (λ _. drive-Awake))))
                      (λ e. absurd (ground (arith, hooked)))))
                (λ e. absurd (ground (arith, deleting)))))

    -- No lost wake-up: a reconcile of a deleting, hooked Machine at the pre-terminate wait ends in an
    -- error, in a wait that is not 0, or with the hook off, whatever the servers answer.
    pub reconcile_machine-IsAwake :
        (t : Trace)
        → let (x, w) = reconcile_machine r (record { trace = t; machine = read }) in
          IsAwake r x w.machine
    reconcile_machine-IsAwake t =
        let (x, w) = reconcile_machine r (record { trace = t; machine = read }) in
        Awake-eq x w (reconcile_machine-Awake.run (record { trace = t; machine = read }) refl)
