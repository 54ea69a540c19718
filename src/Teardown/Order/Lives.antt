-- ===== src/Teardown/Order/Lives.antt =====
-- All reconciles of one Machine by internal/teardown/reconciler.go, with restarts of the controller at any
-- call. The work queue never runs two of them at a time.
use cluster_api_runtime_exte.Base.{
  String, ◌≡◌, sym, subst, Bool, true, false, ◌⊎◌, inl, inr, ◌∙◌, [], ◌∷◌, ◌++◌,
}
use cluster_api_runtime_exte.Base.Dict.{has}
use cluster_api_runtime_exte.Teardown.Api.{
  ObjectKey, Machine, hook_annotation, etcd_annotation, reset_annotation,
}
use cluster_api_runtime_exte.Teardown.Qualify.{is_control_plane}
use cluster_api_runtime_exte.Teardown.Effect.{ok, patch, rpc, reset_generic, Trace, Env}
use cluster_api_runtime_exte.Teardown.Controller.{Reconciler}
use cluster_api_runtime_exte.Teardown.Reconcile.{reconcile}
use cluster_api_runtime_exte.Teardown.Order.{Stamped, Known, IsOrdered, IsApart}
use cluster_api_runtime_exte.Teardown.Order.Parts.{Stamped-append}
use cluster_api_runtime_exte.Teardown.Order.Whole.{reconcile-IsOrdered}

-- A Machine that the server may show after these calls: the controller's conclusions are on it only if
-- the server has accepted a patch with them, as nothing else writes them.
abbrev pub IsShown : Machine → Trace → Type 0
IsShown read h =
    (has etcd_annotation read.annotations ≡ true → Stamped etcd_annotation h)
    × (has reset_annotation read.annotations ≡ true → Stamped reset_annotation h)

Stamped-prepend : (key : String) (t h : Trace) → Stamped key t → Stamped key (t ++ h)
Stamped-prepend key [] h k = absurd k
Stamped-prepend key (patch annotations true ∷ t) h (inl e) = inl e
Stamped-prepend key (patch annotations true ∷ t) h (inr k) = inr (Stamped-prepend key t h k)
Stamped-prepend key (patch annotations false ∷ t) h k = Stamped-prepend key t h k
Stamped-prepend key (_ ∷ t) h k = Stamped-prepend key t h k

module _ (r : Reconciler) (control_plane : Bool) where
  -- The calls of a controller in all its reconciles of a Machine, newest first. Each reconcile has its own
  -- environment, and may end at any of its calls: `ran` is what of it was done, and `cut` what was not.
  pub data Life : Trace → Type 0 where
    unborn : Life []
    reconciled :
        {h : Trace} (env : Env) (key : ObjectKey) (read : Machine) (cut ran : Trace)
        → env.get_machine [] key ≡ ok read
        → IsShown read h
        → is_control_plane r.api read ≡ control_plane
        → (reconcile (record r { env = env }) [] key).1 ≡ cut ++ ran
        → Life h
        → Life (ran ++ h)

  -- A control-plane node is wiped only after the server has accepted the etcd conclusion, and the hook is
  -- taken off only after it has accepted the reset conclusion.
  abbrev pub IsSettled : Trace → Type 0
  IsSettled [] = Unit
  IsSettled (rpc _ (reset_generic _) _ ∷ t) =
      ((control_plane ≡ false) ⊎ Stamped etcd_annotation t) × IsSettled t
  IsSettled (patch annotations _ ∷ t) =
      ((has (hook_annotation r.api) annotations ≡ true) ⊎ Stamped reset_annotation t) × IsSettled t
  IsSettled (_ ∷ t) = IsSettled t

  module _ (read : Machine) where
    rest-IsOrdered :
        (cut ran : Trace) → IsOrdered r.api read (cut ++ ran) → IsOrdered r.api read ran
    rest-IsOrdered [] ran o = o
    rest-IsOrdered (rpc _ (reset_generic _) _ ∷ cut) ran (w, o) = rest-IsOrdered cut ran o
    rest-IsOrdered (patch _ _ ∷ cut) ran (w, o) = rest-IsOrdered cut ran o
    rest-IsOrdered (_ ∷ cut) ran o = rest-IsOrdered cut ran o

    module _ (h : Trace) (shown : IsShown read h)
        (kind : is_control_plane r.api read ≡ control_plane) where
      since :
          (key : String) (ran : Trace)
          → (has key read.annotations ≡ true → Stamped key h)
          → Known r.api read key ran
          → Stamped key (ran ++ h)
      since key ran s (inl k) = Stamped-append key ran h (s k)
      since key ran s (inr k) = Stamped-prepend key ran h k

      append-IsSettled :
          (ran : Trace) → IsOrdered r.api read ran → IsSettled h → IsSettled (ran ++ h)
      append-IsSettled [] o s = s
      append-IsSettled (rpc _ (reset_generic _) _ ∷ ran) (w, o) s =
          (wiped w, append-IsSettled ran o s)
        where
          wiped :
              (is_control_plane r.api read ≡ false) ⊎ Known r.api read etcd_annotation ran
              → (control_plane ≡ false) ⊎ Stamped etcd_annotation (ran ++ h)
          wiped (inl e) = inl (sym kind ∙ e)
          wiped (inr k) = inr (since etcd_annotation ran shown.0 k)
      append-IsSettled (patch annotations _ ∷ ran) (w, o) s = (freed w, append-IsSettled ran o s)
        where
          freed :
              (has (hook_annotation r.api) annotations ≡ true)
                ⊎ Known r.api read reset_annotation ran
              → (has (hook_annotation r.api) annotations ≡ true)
                ⊎ Stamped reset_annotation (ran ++ h)
          freed (inl e) = inl e
          freed (inr k) = inr (since reset_annotation ran shown.1 k)
      append-IsSettled (_ ∷ ran) o s = append-IsSettled ran o s

  -- Crash safety over the life of a Machine: whatever the API server, the nodes and the clock answer in
  -- each of its reconciles, however old the Machine is that a reconcile reads, and wherever the
  -- controller is stopped between two calls and started again, a control-plane node is wiped only
  -- after the server has accepted its etcd conclusion, and the hook is taken off only after the server
  -- has accepted the reset conclusion. The server shows a conclusion only after it has accepted it, and the
  -- Machine is a control-plane one in all reconciles or in none.
  pub Life-IsSettled : IsApart r.api → {h : Trace} → Life h → IsSettled h
  Life-IsSettled apart unborn = tt
  Life-IsSettled apart (reconciled {h} env key read cut ran found shown kind all life) =
      append-IsSettled read h shown kind ran
        (rest-IsOrdered read cut ran (
          subst (IsOrdered r.api read) all
            (reconcile-IsOrdered (record r { env = env }) read apart [] key found tt)))
        (Life-IsSettled apart life)
