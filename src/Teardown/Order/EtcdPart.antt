-- ===== src/Teardown/Order/EtcdPart.antt =====
-- The etcd phase keeps the order and ends with a known etcd conclusion.
use cluster_api_runtime_exte.Teardown.Controller.Patching.{etcd_text-ne-empty}
use cluster_api_runtime_exte.Base.{
  ℕ, ◌≡◌, ap, Bool, true, not, arith, ◌==◌, string_eq, nat_eq, if◌then◌else◌,
}
use cluster_api_runtime_exte.Base.Dict.{has}
use cluster_api_runtime_exte.Teardown.Api.{
  Machine, etcd_annotation, etcd_text, skipped_cluster_delete,
}
use cluster_api_runtime_exte.Teardown.Qualify.{is_control_plane}
use cluster_api_runtime_exte.Teardown.Effect.{World, pure, ◌>>◌}
use cluster_api_runtime_exte.Teardown.Effect.Pushes.{push_rules}
use cluster_api_runtime_exte.Teardown.Effect.Triples.{
  Triple, Triple-pure, Triple-if, Triple-pre, Triple-this, Triple-bind, Triple-handle,
  Triple-Pushes,
}
use cluster_api_runtime_exte.Teardown.Controller.{Reconciler}
use cluster_api_runtime_exte.Teardown.EtcdPhase.{
  etcd_phase, skip_etcd, serialize_control_plane, ensure_etcd_removed, try_etcd_removal,
}
use cluster_api_runtime_exte.Teardown.Quiet.{
  serialize-IsLocal, record_etcd_outcome-IsLocal, orphan_or_retry-IsLocal, try_etcd_removal-quiet,
}
use cluster_api_runtime_exte.Teardown.Order.{Known, EtcdKnown, IsApart}
use cluster_api_runtime_exte.Teardown.Order.Parts.{IsHeld-NoWipe}
use cluster_api_runtime_exte.Teardown.Order.Held.{
  Held, Ordered, local-Held, stamp-Held, local-and, Known-lasts,
}

module _ (r : Reconciler) (read : Machine) (apart : IsApart r.api) where
  abbrev Holds : World → Type 0
  Holds = Held r read apart

  abbrev InOrder : World → Type 0
  InOrder = Ordered r read apart

  pub skip_etcd-Held :
      Triple Holds (skip_etcd r) (λ _ w. Holds w × Known r.api read etcd_annotation w.trace) InOrder
  unfolding skip_etcd
  skip_etcd-Held =
      Triple-bind _ _
        (Triple-bind _ _
          (stamp-Held r read apart etcd_annotation (etcd_text skipped_cluster_delete)
            (etcd_text-ne-empty skipped_cluster_delete) apart.etcd (λ w h. h.etcd_known))
          (λ _.
            local-and r read apart _ (Known-lasts r read apart etcd_annotation)
              (search push_rules)))
        (λ _.
          local-and r read apart _ (Known-lasts r read apart etcd_annotation) (search push_rules))

  pub try_etcd_removal-Held : Triple Holds (try_etcd_removal r) (λ _. Holds) Holds
  try_etcd_removal-Held =
      Triple-Pushes (try_etcd_removal r) (try_etcd_removal-quiet r) (IsHeld-NoWipe r.api read)

  pub ensure_etcd_removed-Held :
      (t : ℕ)
      → Triple Holds
          (ensure_etcd_removed r t)
          (λ _ w. Holds w × Known r.api read etcd_annotation w.trace)
          InOrder
  unfolding ensure_etcd_removed
  ensure_etcd_removed-Held t =
      Triple-bind _ _
        (Triple-handle (try_etcd_removal r) _ _ try_etcd_removal-Held
          (λ o. Triple-pure o (λ w h. h))
          (λ e. local-Held r read apart (orphan_or_retry-IsLocal r t e)))
        (λ o.
          Triple-bind _ _
            (stamp-Held r read apart etcd_annotation (etcd_text o) (etcd_text-ne-empty o) apart.etcd
              (λ w h. h.etcd_known))
            (λ _.
              local-and r read apart _ (Known-lasts r read apart etcd_annotation)
                (record_etcd_outcome-IsLocal r o)))

  -- The wait that the etcd phase asks for, or the etcd conclusion of a control-plane Machine.
  abbrev pub After : ℕ → World → Type 0
  After wait w = Holds w × (wait ≡ 0 → EtcdKnown r.api read w)

  pub Known-After : (w : World) → Holds w × Known r.api read etcd_annotation w.trace → After 0 w
  unfolding EtcdKnown
  Known-After w (h, k) = (h, λ _ _. k)

  -- A worker has no etcd member to conclude about.
  pub worker-After :
      (x : Machine) (w : World)
      → not (is_control_plane r.api x) ≡ true
      → (w.machine ≡ x) × Holds w
      → After 0 w
  unfolding EtcdKnown is_control_plane
  worker-After x w worker (e, h) =
      (h, λ _ cp. ground (arith, h.labels, ap (λ (m : Machine). m.labels) e))

  pub removal-Held :
      (t wait : ℕ)
      → Triple Holds
          (if wait == 0 then (ensure_etcd_removed r t >> pure 0) else pure wait)
          After
          InOrder
  removal-Held t wait =
      Triple-if (wait == 0) _ _
        (λ _.
          Triple-bind (ensure_etcd_removed r t) _ (ensure_etcd_removed-Held t)
            (λ _. Triple-pure 0 Known-After))
        (λ busy. Triple-pure wait λ w h. (h, λ e. absurd (ground arith)))

  pub etcd_phase-Held :
      (t : ℕ) (deleting : Bool) → Triple Holds (etcd_phase r t deleting) After InOrder
  unfolding etcd_phase
  etcd_phase-Held t deleting = Triple-this _ λ x.
      Triple-if (has etcd_annotation x.annotations) _ _
        (λ e. Triple-pure 0 λ w h. Known-After w (h.1, h.1.etcd_known (rw h.0 e)))
        (λ _.
          Triple-if deleting _ _
            (λ _.
              Triple-pre _ (λ w h. h.1)
                (Triple-bind (skip_etcd r) _ skip_etcd-Held (λ _. Triple-pure 0 Known-After)))
            (λ _.
              Triple-if (not (is_control_plane r.api x)) _ _
                (λ worker. Triple-pure 0 λ w h. worker-After x w worker h)
                (λ _.
                  Triple-pre _ (λ w h. h.1)
                    (Triple-bind (serialize_control_plane r) _
                      (local-Held r read apart (serialize-IsLocal r)) (removal-Held t)))))
