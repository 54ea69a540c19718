-- ===== src/Teardown/Order/Parts.antt =====
-- Calls that keep the order.
use cluster_api_runtime_exte.Base.{
  String, ◌≡◌, Bool-cases, true, false, ◌⊎◌, inl, inr, [], ◌∷◌, ◌++◌,
}
use cluster_api_runtime_exte.Base.Lists.{All}
use cluster_api_runtime_exte.Teardown.Api.{ClusterApi, Machine, etcd_annotation, reset_annotation}
use cluster_api_runtime_exte.Teardown.Qualify.{is_control_plane}
use cluster_api_runtime_exte.Teardown.Effect.{Call, patch, rpc, reset_generic, Trace, World}
use cluster_api_runtime_exte.Teardown.Effect.Pushes.{IsNoWipe, IsNoPatch, extend}
use cluster_api_runtime_exte.Teardown.Order.{Stamped, Known, IsOrdered, IsHeld, EtcdKnown}

Stamped-cons : (key : String) (c : Call) (t : Trace) → Stamped key t → Stamped key (c ∷ t)
Stamped-cons key (patch a true) t h = inr h
Stamped-cons key (patch a false) t h = h
Stamped-cons key _ t h = h

pub Stamped-append : (key : String) (new t : Trace) → Stamped key t → Stamped key (new ++ t)
Stamped-append key [] t h = h
Stamped-append key (c ∷ new) t h = Stamped-cons key c (new ++ t) (Stamped-append key new t h)

module _ (api : ClusterApi) (read : Machine) where
  pub Known-append :
      (key : String) (new t : Trace) → Known api read key t → Known api read key (new ++ t)
  Known-append key new t (inl h) = inl h
  Known-append key new t (inr h) = inr (Stamped-append key new t h)

  IsOrdered-cons_NoWipe :
      (c : Call) (t : Trace) → IsNoWipe c → IsOrdered api read t → IsOrdered api read (c ∷ t)
  IsOrdered-cons_NoWipe (patch _ _) t n h = absurd n
  IsOrdered-cons_NoWipe (rpc _ (reset_generic _) _) t n h = absurd n
  IsOrdered-cons_NoWipe _ t n h = h

  pub IsOrdered-append_NoWipe :
      (new t : Trace) → All IsNoWipe new → IsOrdered api read t → IsOrdered api read (new ++ t)
  IsOrdered-append_NoWipe [] t n h = h
  IsOrdered-append_NoWipe (c ∷ new) t (n, ns) h =
      IsOrdered-cons_NoWipe c (new ++ t) n (IsOrdered-append_NoWipe new t ns h)

  may_wipe :
      (t : Trace)
      → (is_control_plane api read ≡ true → Known api read etcd_annotation t)
      → (is_control_plane api read ≡ false) ⊎ Known api read etcd_annotation t
  may_wipe t k = elim (Bool-cases (is_control_plane api read)) [
    | inl cp ↦ inr (k cp)
    | inr worker ↦ inl worker
  ]

  IsOrdered-cons_NoPatch :
      (c : Call) (t : Trace)
      → IsNoPatch c
      → (is_control_plane api read ≡ true → Known api read etcd_annotation t)
      → IsOrdered api read t
      → IsOrdered api read (c ∷ t)
  IsOrdered-cons_NoPatch (patch _ _) t n k h = absurd n
  IsOrdered-cons_NoPatch (rpc _ (reset_generic _) _) t n k h = (may_wipe t k, h)
  IsOrdered-cons_NoPatch _ t n k h = h

  pub IsOrdered-append_NoPatch :
      (new t : Trace)
      → All IsNoPatch new
      → (is_control_plane api read ≡ true → Known api read etcd_annotation t)
      → IsOrdered api read t
      → IsOrdered api read (new ++ t)
  IsOrdered-append_NoPatch [] t n k h = h
  IsOrdered-append_NoPatch (c ∷ new) t (n, ns) k h =
      IsOrdered-cons_NoPatch c (new ++ t) n (λ cp. Known-append etcd_annotation new t (k cp))
        (IsOrdered-append_NoPatch new t ns k h)

  -- The facts about the Machine outlast any calls that keep the order.
  IsHeld-extend :
      (w : World) (new : Trace)
      → IsOrdered api read (new ++ w.trace)
      → IsHeld api read w
      → IsHeld api read (extend new w)
  IsHeld-extend w new o h = record {
    ordered = o;
    labels = h.labels;
    hooked = h.hooked;
    etcd_known = λ e. Known-append etcd_annotation new w.trace (h.etcd_known e);
    reset_known = λ e. Known-append reset_annotation new w.trace (h.reset_known e);
  }

  pub IsHeld-NoWipe :
      (w : World) (new : Trace)
      → All IsNoWipe new
      → IsHeld api read w
      → IsHeld api read (extend new w)
  IsHeld-NoWipe w new n h = IsHeld-extend w new (IsOrdered-append_NoWipe new w.trace n h.ordered) h

  pub EtcdKnown-extend :
      (w : World) (new : Trace) → EtcdKnown api read w → EtcdKnown api read (extend new w)
  unfolding EtcdKnown
  EtcdKnown-extend w new k cp = Known-append etcd_annotation new w.trace (k cp)

  pub IsHeld-NoPatch :
      (w : World) (new : Trace)
      → All IsNoPatch new
      → IsHeld api read w × EtcdKnown api read w
      → IsHeld api read (extend new w) × EtcdKnown api read (extend new w)
  unfolding EtcdKnown
  IsHeld-NoPatch w new n (h, k) = (
    IsHeld-extend w new (IsOrdered-append_NoPatch new w.trace n k h.ordered) h,
    EtcdKnown-extend w new k,
  )
