-- ===== src/Teardown/Order/Held.antt =====
-- What the single steps keep: patches that leave the hook on, local calls, stamps, the clock's stamp.
use cluster_api_runtime_exte.Base.{
  starts_with, String, ◌≡◌, true, false, ◌≢◌, inl, inr, Option, none, some, arith, string_eq,
  nat_eq,
}
use cluster_api_runtime_exte.Base.Dict.{Dict, lookup, insert, has, lookup-insert}
use cluster_api_runtime_exte.Teardown.Api.{
  ClusterApi, Machine, hook_annotation, observed_at_annotation,
}
use cluster_api_runtime_exte.Teardown.Qualify.Hooks.{hook_annotation-prefix}
use cluster_api_runtime_exte.Teardown.Effect.{Trace, World, Exec, clock}
use cluster_api_runtime_exte.Teardown.Effect.Pushes.{
  Pushes, extend, IsLocal, Pushes-IsNoWipe, Pushes-clock,
}
use cluster_api_runtime_exte.Teardown.Effect.Triples.{
  Triple, Triple-pure, Triple-cases, Triple-pre, Triple-this, Triple-bind, Triple-Pushes,
  Triple-post,
}
use cluster_api_runtime_exte.Teardown.Controller.{Reconciler, patch_annotations, stamp, stamp_phase}
use cluster_api_runtime_exte.Teardown.Controller.Patching
use cluster_api_runtime_exte.Teardown.Controller.Patching.{
  patch_annotations-Post, has-stamp, has-stamp-some,
}
use cluster_api_runtime_exte.Teardown.HookPhase.{
  truncate_second, parsed_time, ensure_observed_at, restamp,
}
use cluster_api_runtime_exte.Teardown.Order.{Known, IsOrdered, IsHeld, IsApart}
use cluster_api_runtime_exte.Teardown.Order.Parts.{Known-append, IsHeld-NoWipe}

hook-ne :
    (api : ClusterApi) (k : String)
    → starts_with k api.pre_terminate_prefix ≡ false
    → hook_annotation api ≢ k
hook-ne api k p e = ground (arith, hook_annotation-prefix api)

module _ (r : Reconciler) (read : Machine) (apart : IsApart r.api) where
  abbrev pub Held : World → Type 0
  Held = IsHeld r.api read

  abbrev pub Ordered : World → Type 0
  Ordered w = IsOrdered r.api read w.trace

  -- A patch that leaves the hook on keeps the order.
  pub patch_annotations-Held :
      (f : Dict String → Option (Dict String)) (R : World → Type 0)
      → ((a a' : Dict String)
          → f a ≡ some a'
          → has (hook_annotation r.api) a ≡ true
          → has (hook_annotation r.api) a' ≡ true)
      → ((w : World) → Held w → f w.machine.annotations ≡ none → R w)
      → ((w : World) (a : Dict String)
          → f w.machine.annotations ≡ some a
          → R (Patching.sent a true w))
      → Triple Held (patch_annotations r f) (λ _ w. Held w × R w) Ordered
  patch_annotations-Held f R keeps idle accepted = record {
    run = λ w h.
        patch_annotations-Post r _ _ w f h.ordered (λ e. (h, idle w h e))
          (λ a e.
            let on = keeps w.machine.annotations a e h.hooked in
            (
              (
                record {
                  ordered = (inl on, h.ordered);
                  labels = h.labels;
                  hooked = on;
                  etcd_known = λ k. inr (inl k);
                  reset_known = λ k. inr (inl k);
                },
                accepted w a e,
              ),
              (inl on, h.ordered),
            ));
  }

  pub local-Held : {A : Type 0} {m : Exec A} → Pushes IsLocal m → Triple Held m (λ _. Held) Ordered
  local-Held {m} p =
      Triple-post m (λ _ _ h. h) (λ w h. h.ordered)
        (Triple-Pushes m (Pushes-IsNoWipe p) (IsHeld-NoWipe r.api read))

  pub stamp-Held :
      (key value : String)
      → value ≢ ""
      → starts_with key r.api.pre_terminate_prefix ≡ false
      → ((w : World) → Held w → has key w.machine.annotations ≡ true → Known r.api read key w.trace)
      → Triple Held (stamp_phase r key value) (λ _ w. Held w × Known r.api read key w.trace) Ordered
  unfolding stamp_phase
  stamp-Held key value n p known =
      patch_annotations-Held (stamp key value) (λ w. Known r.api read key w.trace)
        (λ a a' e on. ground (arith, has-stamp-some key value (hook_annotation r.api) a a' e))
        (λ w h e. known w h (has-stamp key value w.machine.annotations n e))
        (λ w a e.
          inr (inl (ground (arith, has-stamp-some key value key w.machine.annotations a e))))

  -- A local action keeps what outlasts any calls.
  pub local-and :
      {A : Type 0} {m : Exec A} (R : World → Type 0)
      → ((w : World) (new : Trace) → R w → R (extend new w))
      → Pushes IsLocal m
      → Triple (λ w. Held w × R w) m (λ _ w. Held w × R w) Ordered
  local-and {m} R lasts p =
      Triple-post m (λ _ _ h. h) (λ w h. h.0.ordered)
        (Triple-Pushes m (Pushes-IsNoWipe p)
          (λ w new n (h, k). (IsHeld-NoWipe r.api read w new n h, lasts w new k)))

  pub Known-lasts :
      (key : String) (w : World) (new : Trace)
      → Known r.api read key w.trace
      → Known r.api read key (extend new w).trace
  Known-lasts key w new k = Known-append r.api read key new w.trace k

  pub restamp-Held : Triple Held (restamp r) (λ _. Held) Ordered
  unfolding restamp
  restamp-Held = Triple-bind (clock r.env) _ (local-Held (Pushes-clock r.env tt)) λ now.
      let t = truncate_second now in
      let f : Dict String → Option (Dict String) =
        λ ann. some (insert observed_at_annotation (r.env.format_time t) ann) in
      Triple-bind (patch_annotations r f) _
        (patch_annotations-Held f (λ _. Unit)
          (λ a a' e on. ground (
            arith,
            lookup-insert (hook_annotation r.api) observed_at_annotation (r.env.format_time t) a,
          ))
          (λ _ _ _. tt) (λ _ _ _. tt))
        (λ _. Triple-pure t (λ w h. h.0))

  pub ensure_observed_at-Held : Triple Held (ensure_observed_at r) (λ _. Held) Ordered
  unfolding ensure_observed_at
  ensure_observed_at-Held = Triple-this _ λ x.
      Triple-pre _ (λ w h. h.1)
        (Triple-cases (parsed_time r (lookup observed_at_annotation x.annotations)) _ (restamp r)
          (λ t _. Triple-pure t (λ w h. h)) (λ _. restamp-Held))
