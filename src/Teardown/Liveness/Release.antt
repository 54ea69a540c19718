-- ===== src/Teardown/Liveness/Release.antt =====
-- An overdue Machine is released.
use cluster_api_runtime_exte.Base.{
  ℕ, String, ◌≡◌, refl, ap, true, false, not, ◌&&◌, arith, ◌==◌, nat_eq, string_eq,
}
use cluster_api_runtime_exte.Base.Dict.{Dict, erase, has, lookup-erase}
use cluster_api_runtime_exte.Teardown.Api.{Machine, hook_annotation, reset_annotation}
use cluster_api_runtime_exte.Teardown.Qualify.{
  qualifies, has_hook, at_pre_terminate, has_other_pre_terminate_hooks, legacy_keys,
}
use cluster_api_runtime_exte.Teardown.Qualify.Hooks.{
  lookup-erase_all, contains-legacy_keys_plain, hook_annotation-prefix,
}
use cluster_api_runtime_exte.Teardown.Effect.{Result, ok, err, Trace, World, ◌>>=◌}
use cluster_api_runtime_exte.Teardown.Effect.Triples.{
  Triple, Post, Triple-pure, Triple-if, Triple-cases, Triple-pre, Triple-this, Triple-this_at,
  Triple-bind,
}
use cluster_api_runtime_exte.Teardown.Controller.{Reconciler}
use cluster_api_runtime_exte.Teardown.HookPhase.{without_hooks, cluster_deleting, release}
use cluster_api_runtime_exte.Teardown.EtcdPhase.{etcd_phase}
use cluster_api_runtime_exte.Teardown.Reconcile.{
  conclude, drive, gate, reconcile_deleting, reconcile_machine,
}
use cluster_api_runtime_exte.Teardown.Order.{IsApart}
use cluster_api_runtime_exte.Teardown.Liveness.{IsServing, IsOverdue}
use cluster_api_runtime_exte.Teardown.Liveness.Parts.{
  At, Never, Returns, Stamped, record_call-Returns, patch-Returns, reset-Returns,
}
use cluster_api_runtime_exte.Teardown.Liveness.Phases.{
  Read, Settled, observed-Returns, deleting-Returns, etcd-Settled,
}

-- The hook is off and the reset conclusion is on.
abbrev pub IsReleased : Reconciler → Machine → Type 0
IsReleased r m = (has_hook r.api m ≡ false) × (has reset_annotation m.annotations ≡ true)

module _ (r : Reconciler) (read : Machine) (apart : IsApart r.api) (serves : IsServing r read)
    (overdue : IsOverdue r read) where
  -- A release takes the hook off and leaves the reset conclusion.
  released :
      (a : Dict String)
      → has reset_annotation a ≡ true
      → (has (hook_annotation r.api) (without_hooks r a) ≡ false)
        × (has reset_annotation (without_hooks r a) ≡ true)
  unfolding without_hooks
  released a on =
      let h = hook_annotation r.api in
      let b = erase h a in
      let ks = legacy_keys r.api b in
      ground (
        arith,
        lookup-erase_all ks h b,
        lookup-erase_all ks reset_annotation b,
        lookup-erase h h a,
        lookup-erase reset_annotation h a,
        contains-legacy_keys_plain r.api reset_annotation b apart.reset,
        hook_annotation-prefix r.api,
        apart.reset,
      )

  release-Returns : Returns (Stamped r read serves reset_annotation) (release r) (IsReleased r)
  unfolding release has_hook
  release-Returns = Triple-this _ λ x.
      Triple-if (has (hook_annotation r.api) x.annotations) _ _
        (λ _.
          Triple-pre _ (λ w h. h.1)
            (Triple-bind _ _
              (Triple-bind _ _
                (patch-Returns r read serves _ (Stamped r read serves reset_annotation)
                  (IsReleased r) (λ m s e. cc e)
                  (λ m a s e. ground (arith, released m.annotations s.1, e)))
                (λ _. record_call-Returns (IsReleased r) _))
              (λ _. record_call-Returns (IsReleased r) _)))
        (λ off. Triple-pure tt (λ w h. (rw h.0 off, h.1.1)))

  abbrev Done : ℕ → World → Type 0
  Done wait w = (wait ≡ 0) × IsReleased r w.machine

  conclude-Done :
      (t wait : ℕ)
      → t ≡ overdue.since
      → Triple (Settled r read serves overdue wait) (conclude r t wait) Done Never
  unfolding conclude
  conclude-Done t wait e =
      Triple-if (wait == 0) _ _
        (λ _.
          Triple-pre _ (λ w h. h.1)
            (Triple-bind _ _
              (Triple-bind _ _ (reset-Returns r read serves t (λ u. rw e (overdue.reset_late u)))
                (λ _. release-Returns))
              (λ _. Triple-pure 0 (λ w h. (refl, h)))))
        (λ busy. record { run = λ w h. absurd (ground arith) })

  drive-Done : Triple (At (Read r read serves overdue)) (drive r) Done Never
  unfolding drive
  drive-Done = Triple-bind _ _ (observed-Returns r read serves overdue) λ t. record {
    run = λ w h.
        (Triple-bind (cluster_deleting r) (λ d. etcd_phase r t d >>= conclude r t)
            (deleting-Returns r read serves overdue)
            (λ d.
              Triple-bind (etcd_phase r t d) (conclude r t)
                (etcd-Settled r read serves overdue t d h.0)
                (λ wait. conclude-Done t wait h.0))).run
          w h.1;
  }

  reconcile_machine-Done : Triple (At (Read r read serves overdue)) (reconcile_machine r) Done Never
  unfolding reconcile_machine reconcile_deleting gate
  reconcile_machine-Done =
      Triple-this_at read _ (λ w h. h)
        (Triple-if (not (qualifies read) && not (has_hook r.api read)) _ _
          (λ e. absurd (ground (arith, overdue.hooked)))
          (λ _.
            Triple-cases read.deletion_timestamp (λ _. reconcile_deleting r) _
              (λ _ _.
                Triple-this_at read _ (λ w h. h)
                  (Triple-if (has_hook r.api read) _ _
                    (λ _.
                      Triple-this_at read _ (λ w h. h)
                        (Triple-if (not (at_pre_terminate r.api read)) _ _
                          (λ e. absurd (ground (arith, overdue.parked)))
                          (λ _.
                            Triple-if (has_other_pre_terminate_hooks r.api read) _ _
                              (λ e. absurd (ground (arith, overdue.alone))) (λ _. drive-Done))))
                    (λ e. absurd (ground (arith, overdue.hooked)))))
              (λ e. absurd (ground (arith, overdue.deleting)))))

  Done-eq : (x : Result ℕ) (w : World) → Post Done Never x w → (x ≡ ok 0) × IsReleased r w.machine
  Done-eq (ok a) w (e, h) = (ap ok e, h)
  Done-eq (err e) w h = absurd h

  -- Fail-open: while the API server takes patches and answers for Clusters and Machines, a hooked
  -- Machine that is parked at the pre-terminate wait with no other hook, and from whose recorded
  -- observation both deadlines have passed at every reading of the clock, is released in one
  -- reconcile, whatever the Talos nodes, the secrets, the infrastructure objects and the talosconfig
  -- parser answer: the reconcile returns no error and no wait, the hook is off, and a reset
  -- conclusion is on. No other control-plane Machine may be due to go first.
  pub reconcile_machine-IsReleased :
      (t : Trace)
      → let (x, w) = reconcile_machine r (record { trace = t; machine = read }) in
        (x ≡ ok 0) × IsReleased r w.machine
  reconcile_machine-IsReleased t =
      let (x, w) = reconcile_machine r (record { trace = t; machine = read }) in
      Done-eq x w (reconcile_machine-Done.run (record { trace = t; machine = read }) refl)
