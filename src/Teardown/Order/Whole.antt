-- ===== src/Teardown/Order/Whole.antt =====
-- A whole reconcile keeps the order.
use cluster_api_runtime_exte.Base.{
  ℕ, String, ◌≡◌, refl, ap, true, false, not, ◌&&◌, ◌||◌, inl, inr, some, ◌∷◌, arith, ◌==◌, nat_eq,
  string_eq,
}
use cluster_api_runtime_exte.Base.Dict.{Dict, insert, has, lookup-insert}
use cluster_api_runtime_exte.Teardown.Api.{
  ObjectKey, Machine, hook_annotation, hook_value, reset_annotation,
}
use cluster_api_runtime_exte.Teardown.Qualify.{
  qualifies, has_hook, stamp_allowed, at_pre_terminate, has_other_pre_terminate_hooks, legacy_keys,
}
use cluster_api_runtime_exte.Teardown.Qualify.Hooks.{lookup-erase_all, contains-legacy_keys_hook}
use cluster_api_runtime_exte.Teardown.Effect.{Result, ok, err, Trace, World, Exec, get, machine}
use cluster_api_runtime_exte.Teardown.Effect.Pushes.{Pushes, IsLocal, Pushes-IsNoWipe, push_rules}
use cluster_api_runtime_exte.Teardown.Effect.Triples.{
  Triple, Post, Triple-pure, Triple-if, Triple-cases, Triple-pre, Triple-post, Triple-this,
  Triple-this_at, Triple-bind, Triple-Pushes,
}
use cluster_api_runtime_exte.Teardown.Controller.{Reconciler, patch_annotations}
use cluster_api_runtime_exte.Teardown.Controller.Patching.{patch_annotations-Post}
use cluster_api_runtime_exte.Teardown.HookPhase.{
  with_hook, ensure_hook, reconcile_normal, ensure_observed_at, cluster_deleting, release,
}
use cluster_api_runtime_exte.Teardown.EtcdPhase.{etcd_phase}
use cluster_api_runtime_exte.Teardown.ResetPhase.{reset_phase}
use cluster_api_runtime_exte.Teardown.Reconcile.{
  conclude, drive, gate, reconcile_deleting, reconcile_machine, reconcile,
}
use cluster_api_runtime_exte.Teardown.Quiet.{ensure_credentials-IsLocal, cluster_deleting-IsLocal}
use cluster_api_runtime_exte.Teardown.Order.{IsOrdered, IsApart}
use cluster_api_runtime_exte.Teardown.Order.Parts.{IsOrdered-append_NoWipe}
use cluster_api_runtime_exte.Teardown.Order.Held.{
  Held, Ordered, local-Held, ensure_observed_at-Held,
}
use cluster_api_runtime_exte.Teardown.Order.EtcdPart.{After, etcd_phase-Held}
use cluster_api_runtime_exte.Teardown.Order.ResetPart.{Concluded, reset_phase-Ready}

-- A stamp leaves the hook on.
pub has-with_hook :
    (r : Reconciler) (a : Dict String) → has (hook_annotation r.api) (with_hook r a) ≡ true
unfolding with_hook
has-with_hook r a =
    let h = hook_annotation r.api in
    let b = insert h hook_value a in
    ground (
      arith,
      lookup-erase_all (legacy_keys r.api b) h b,
      contains-legacy_keys_hook r.api b,
      lookup-insert h h hook_value a,
    )

module _ (r : Reconciler) (read : Machine) (apart : IsApart r.api) where
  abbrev Holds : World → Type 0
  Holds = Held r read apart

  abbrev InOrder : World → Type 0
  InOrder = Ordered r read apart

  local-InOrder :
      {A : Type 0} {m : Exec A} → Pushes IsLocal m → Triple InOrder m (λ _. InOrder) InOrder
  local-InOrder {m} p =
      Triple-Pushes m (Pushes-IsNoWipe p)
        (λ w new n h. IsOrdered-append_NoWipe r.api read new w.trace n h)

  release-InOrder : Triple (Concluded r read apart) (release r) (λ _. InOrder) InOrder
  unfolding release
  release-InOrder = Triple-this _ λ x.
      Triple-pre _ (λ w h. h.1)
        (Triple-if (has_hook r.api x) _ _
          (λ _.
            Triple-bind _ _
              (Triple-bind _ _
                (record {
                  run = λ w h.
                      patch_annotations-Post r (λ _. InOrder) InOrder w _ h.0.ordered
                        (λ _. h.0.ordered)
                        (λ a _. ((inr h.1, h.0.ordered), (inr h.1, h.0.ordered)));
                })
                (λ _. local-InOrder (search push_rules)))
              (λ _. local-InOrder (search push_rules)))
          (λ _. Triple-pure tt (λ w h. h.0.ordered)))

  conclude-InOrder :
      (t wait : ℕ) → Triple (After r read apart wait) (conclude r t wait) (λ _. InOrder) InOrder
  unfolding conclude
  conclude-InOrder t wait =
      Triple-if (wait == 0) _ _
        (λ e.
          Triple-pre _ (λ w h. (h.0, h.1 (ground arith)))
            (Triple-bind _ _
              (Triple-bind (reset_phase r t) _ (reset_phase-Ready r read apart t)
                (λ _. release-InOrder))
              (λ _. Triple-pure 0 (λ w h. h))))
        (λ _. Triple-pure wait (λ w h. h.0.ordered))

  drive-InOrder : Triple Holds (drive r) (λ _. InOrder) InOrder
  unfolding drive
  drive-InOrder = Triple-bind (ensure_observed_at r) _ (ensure_observed_at-Held r read apart) λ t.
      Triple-bind (cluster_deleting r) _ (local-Held r read apart (cluster_deleting-IsLocal r)) λ d.
        Triple-bind (etcd_phase r t d) _ (etcd_phase-Held r read apart t d) (conclude-InOrder t)

  gate-InOrder : Triple Holds (gate r) (λ _. InOrder) InOrder
  unfolding gate
  gate-InOrder = Triple-this _ λ x.
      Triple-pre _ (λ w h. h.1)
        (Triple-if (not (at_pre_terminate r.api x)) _ _ (λ _. Triple-pure 0 (λ w h. h.ordered))
          (λ _.
            Triple-if (has_other_pre_terminate_hooks r.api x) _ _
              (λ _. Triple-pure _ (λ w h. h.ordered)) (λ _. drive-InOrder)))

  -- The Machine as it was read.
  abbrev Fresh : World → Type 0
  Fresh w = (w.machine ≡ read) × InOrder w

  stamp-Holds :
      Triple Fresh (patch_annotations r (λ ann. some (with_hook r ann))) (λ _. Holds) InOrder
  stamp-Holds = record {
    run = λ w h.
        patch_annotations-Post r (λ _. Holds) InOrder w _ h.1 (λ e. cc e)
          λ a e.
            let on : has (hook_annotation r.api) a ≡ true =
              ground (arith, has-with_hook r w.machine.annotations, e) in
            (
              record {
                ordered = (inl on, h.1);
                labels = ap (λ (m : Machine). m.labels) h.0;
                hooked = on;
                etcd_known = λ k. inr (inl k);
                reset_known = λ k. inr (inl k);
              },
              (inl on, h.1),
            );
  }

  -- A stamp puts the Machine in hand into the state from which the phases start.
  ensure_hook-Holds :
      has_hook r.api read ≡ false
      → stamp_allowed r.api read ≡ true
      → Triple Fresh (ensure_hook r) (λ _. Holds) InOrder
  unfolding ensure_hook
  ensure_hook-Holds unhooked allowed =
      Triple-this_at read _ (λ w h. h.0)
        (Triple-if (has_hook r.api read || not (stamp_allowed r.api read)) _ _
          (λ e. absurd (ground arith))
          (λ _. Triple-bind _ _ stamp-Holds (λ _. local-Held r read apart (search push_rules))))

  ensure_hook-InOrder : Triple Fresh (ensure_hook r) (λ _. InOrder) InOrder
  unfolding ensure_hook
  ensure_hook-InOrder =
      Triple-this_at read _ (λ w h. h.0)
        (Triple-if (has_hook r.api read || not (stamp_allowed r.api read)) _ _
          (λ _. Triple-pure tt (λ w h. h.1))
          (λ _. Triple-bind _ _ stamp-Holds (λ _.
            Triple-post _ (λ _ w h. h.ordered) (λ w h. h)
              (local-Held r read apart (search push_rules)))))

  Fresh-Holds : has_hook r.api read ≡ true → (w : World) → Fresh w → Holds w
  unfolding has_hook
  Fresh-Holds on w h =
      let e = ap (λ (m : Machine). m.annotations) h.0 in
      record {
        ordered = h.1;
        labels = ap (λ (m : Machine). m.labels) h.0;
        hooked = rw e on;
        etcd_known = λ k. inl (rw e at k);
        reset_known = λ k. inl (rw e at k);
      }

  reconcile_deleting-InOrder : Triple Fresh (reconcile_deleting r) (λ _. InOrder) InOrder
  unfolding reconcile_deleting
  reconcile_deleting-InOrder =
      Triple-this_at read _ (λ w h. h.0)
        (Triple-if (has_hook r.api read) _ _ (λ on. Triple-pre _ (Fresh-Holds on) gate-InOrder)
          (λ off.
            Triple-if (has reset_annotation read.annotations) _ _ (λ _. Triple-pure 0 (λ w h. h.1))
              (λ _.
                Triple-if (not (stamp_allowed r.api read)) _ _ (λ _. Triple-pure 0 (λ w h. h.1))
                  (λ allowed.
                    Triple-bind _ _
                      (Triple-bind _ _ (ensure_hook-Holds off (ground arith))
                        (λ _. local-Held r read apart (ensure_credentials-IsLocal r)))
                      (λ _. gate-InOrder)))))

  reconcile_normal-InOrder : Triple Fresh (reconcile_normal r) (λ _. InOrder) InOrder
  unfolding reconcile_normal
  reconcile_normal-InOrder =
      Triple-bind _ _ ensure_hook-InOrder (λ _. local-InOrder (ensure_credentials-IsLocal r))

  reconcile_machine-InOrder : Triple Fresh (reconcile_machine r) (λ _. InOrder) InOrder
  unfolding reconcile_machine
  reconcile_machine-InOrder =
      Triple-this_at read _ (λ w h. h.0)
        (Triple-if (not (qualifies read) && not (has_hook r.api read)) _ _
          (λ _. Triple-pure 0 (λ w h. h.1))
          (λ _.
            Triple-cases read.deletion_timestamp (λ _. reconcile_deleting r) _
              (λ _ _. reconcile_deleting-InOrder)
              (λ _. Triple-bind _ _ reconcile_normal-InOrder (λ _. Triple-pure 0 (λ w h. h)))))

  settled : (x : Result ℕ) (w : World) → Post (λ _. InOrder) InOrder x w → InOrder w
  settled (ok a) w h = h
  settled (err e) w h = h

  -- Crash safety, for any answers of the API server, the nodes and the clock: on the trace of a
  -- reconcile of the Machine that was read, a control-plane node is reset only after the server has
  -- accepted the patch with its etcd conclusion, and the hook is taken off only after the server has
  -- accepted the patch with the reset conclusion, unless the conclusion was there when the Machine
  -- was read. The calls of before, `t`, have to be in that order themselves.
  pub reconcile-IsOrdered :
      (t : Trace) (key : ObjectKey)
      → r.env.get_machine t key ≡ ok read
      → IsOrdered r.api read t
      → IsOrdered r.api read (reconcile r t key).1
  unfolding reconcile
  reconcile-IsOrdered t key found h =
      let w : World = record { trace = get machine key ∷ t; machine = read } in
      let (x, w') = reconcile_machine r w in
      rw found (settled x w' (reconcile_machine-InOrder.run w (refl, h)))
