-- ===== src/Teardown/Order/ResetPart.antt =====
-- The reset phase keeps the order and ends with a known reset conclusion.
use cluster_api_runtime_exte.Teardown.Controller.Patching.{reset_text-ne-empty}
use cluster_api_runtime_exte.Base.{ℕ, string_eq, nat_eq}
use cluster_api_runtime_exte.Base.Dict.{has}
use cluster_api_runtime_exte.Teardown.Api.{Machine, reset_annotation, reset_text}
use cluster_api_runtime_exte.Teardown.Effect.{World}
use cluster_api_runtime_exte.Teardown.Effect.Triples.{
  Triple, Triple-pure, Triple-if, Triple-pre, Triple-this, Triple-bind, Triple-handle,
  Triple-Pushes, Triple-post,
}
use cluster_api_runtime_exte.Teardown.Controller.{Reconciler}
use cluster_api_runtime_exte.Teardown.ResetPhase.{reset_phase, try_reset}
use cluster_api_runtime_exte.Teardown.Quiet.{
  skip_or_retry-IsLocal, record_reset_outcome-IsLocal, try_reset-quiet,
}
use cluster_api_runtime_exte.Teardown.Order.{Known, EtcdKnown, IsApart}
use cluster_api_runtime_exte.Teardown.Order.Parts.{IsHeld-NoPatch}
use cluster_api_runtime_exte.Teardown.Order.Held.{
  Held, Ordered, local-Held, stamp-Held, local-and, Known-lasts,
}

module _ (r : Reconciler) (read : Machine) (apart : IsApart r.api) where
  abbrev Holds : World → Type 0
  Holds = Held r read apart

  abbrev InOrder : World → Type 0
  InOrder = Ordered r read apart

  -- Before the reset phase.
  abbrev pub Ready : World → Type 0
  Ready w = Holds w × EtcdKnown r.api read w

  abbrev pub Concluded : World → Type 0
  Concluded w = Holds w × Known r.api read reset_annotation w.trace

  pub try_reset-Ready : Triple Ready (try_reset r) (λ _. Holds) Holds
  try_reset-Ready =
      Triple-post (try_reset r) (λ _ w h. h.0) (λ w h. h.0)
        (Triple-Pushes (try_reset r) (try_reset-quiet r) (IsHeld-NoPatch r.api read))

  pub reset_phase-Ready : (t : ℕ) → Triple Ready (reset_phase r t) (λ _. Concluded) InOrder
  unfolding reset_phase
  reset_phase-Ready t = Triple-this _ λ x.
      Triple-if (has reset_annotation x.annotations) _ _
        (λ e. Triple-pure tt λ w h. (h.1.0, h.1.0.reset_known (rw h.0 e)))
        (λ _.
          Triple-pre _ (λ w h. h.1)
            (Triple-bind _ _
              (Triple-handle (try_reset r) _ _ try_reset-Ready (λ o. Triple-pure o (λ w h. h))
                (λ e. local-Held r read apart (skip_or_retry-IsLocal r t e)))
              (λ o.
                Triple-bind _ _
                  (stamp-Held r read apart reset_annotation (reset_text o) (reset_text-ne-empty o)
                    apart.reset (λ w h. h.reset_known))
                  (λ _.
                    local-and r read apart _ (Known-lasts r read apart reset_annotation)
                      (record_reset_outcome-IsLocal r o)))))
