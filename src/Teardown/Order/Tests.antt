-- ===== src/Teardown/Order/Tests.antt =====
-- Two reconciles of a Machine in an outage.
use cluster_api_runtime_exte.Base.{◌≡◌, refl, true, false, [], ◌++◌, string_eq}
use cluster_api_runtime_exte.Base.Dict.{has, lookup}
use cluster_api_runtime_exte.Teardown.Api.{etcd_annotation, reset_annotation}
use cluster_api_runtime_exte.Teardown.Effect.{Trace}
use cluster_api_runtime_exte.Teardown.Qualify.{is_control_plane}
use cluster_api_runtime_exte.Teardown.Reconcile.{reconcile}
use cluster_api_runtime_exte.Teardown.Order.Lives.{
  IsShown, Life, unborn, reconciled, IsSettled, Life-IsSettled,
}
use cluster_api_runtime_exte.Teardown.Scenario.{
  v1beta2, v1beta2-IsApart, cp_0, outage, controller, key_0,
}

calls : Trace
calls = (reconcile controller [] key_0).1

no_etcd : has etcd_annotation cp_0.annotations ≡ false
unfolding lookup string_eq
no_etcd = refl

no_reset : has reset_annotation cp_0.annotations ≡ false
unfolding lookup string_eq
no_reset = refl

cp_0-kind : is_control_plane v1beta2 cp_0 ≡ true
unfolding is_control_plane lookup string_eq
cp_0-kind = refl

shown : (h : Trace) → IsShown cp_0 h
shown h = (λ e. cc (e, no_etcd), λ e. cc (e, no_reset))

-- The second reconcile reads the Machine from a cache that has not seen the patches of the first.
twice : Life controller true (calls ++ (calls ++ []))
unfolding calls
twice =
    reconciled outage key_0 cp_0 [] calls refl (shown (calls ++ [])) cp_0-kind refl
      (reconciled outage key_0 cp_0 [] calls refl (shown []) cp_0-kind refl unborn)

Life-IsSettled_example : IsSettled controller true (calls ++ (calls ++ []))
Life-IsSettled_example = Life-IsSettled controller true v1beta2-IsApart twice
