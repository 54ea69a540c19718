-- ===== src/Teardown/Gate.antt =====
-- The gate of the teardown: nodes are not touched before the pre-terminate wait, nor while another
-- controller's hook is on the Machine.
use cluster_api_runtime_exte.Base.{
  ℕ, ◌≡◌, refl, sym, ap, ◌∙◌, true, false, not, ◌&&◌, ◌||◌, ◌⊎◌, inl, inr, Option, none, some, ◌∷◌,
  [], arith, string_eq,
}
use cluster_api_runtime_exte.Base.Dict.{has}
use cluster_api_runtime_exte.Base.Lists.{All, All-append}
use cluster_api_runtime_exte.Teardown.Api.{ObjectKey, Machine, reset_annotation}
use cluster_api_runtime_exte.Teardown.Qualify.{
  qualifies, has_hook, stamp_allowed, at_pre_terminate, has_other_pre_terminate_hooks,
  deleting_reason,
}
use cluster_api_runtime_exte.Teardown.Effect.{
  Result, ok, err, Call, dial, rpc, close, Trace, World, Exec, pure, cases, get, machine, ◌>>◌,
}
use cluster_api_runtime_exte.Teardown.Effect.Pushes.{Pushes, IsLocal, push_rules}
use cluster_api_runtime_exte.Teardown.Effect.Triples.{
  Triple, Post, Triple-pure, Triple-if, Triple-pre, Triple-post, Triple-this, Triple-this_at,
  Triple-bind, Triple-Pushes,
}
use cluster_api_runtime_exte.Teardown.Controller.{Reconciler}
use cluster_api_runtime_exte.Teardown.Controller.Patching.{patch_annotations-Post}
use cluster_api_runtime_exte.Teardown.HookPhase.{ensure_hook, reconcile_normal}
use cluster_api_runtime_exte.Teardown.Reconcile.{
  gate, reconcile_deleting, reconcile_machine, reconcile,
}
use cluster_api_runtime_exte.Teardown.Quiet.{ensure_credentials-IsLocal}

-- A call that is not made to a Talos node.
abbrev pub IsOffNode : Call → Type 0
IsOffNode (dial _ _) = ⊥
IsOffNode (rpc _ _ _) = ⊥
IsOffNode (close _) = ⊥
IsOffNode _ = Unit

IsLocal-IsOffNode : (c : Call) → IsLocal c → IsOffNode c
IsLocal-IsOffNode (dial _ _) h = h
IsLocal-IsOffNode (rpc _ _ _) h = h
IsLocal-IsOffNode (close _) h = h
IsLocal-IsOffNode _ h = tt

All-IsOffNode : (t : Trace) → All IsLocal t → All IsOffNode t
All-IsOffNode [] h = tt
All-IsOffNode (c ∷ t) (h, k) = (IsLocal-IsOffNode c h, All-IsOffNode t k)

-- The Machine is not being deleted, or has not come to the pre-terminate wait, or carries this
-- controller's hook together with one of another controller.
abbrev pub IsEarly : Reconciler → Machine → Type 0
IsEarly r m =
    (m.deletion_timestamp ≡ none)
    ⊎ (at_pre_terminate r.api m ≡ false)
    ⊎ ((has_hook r.api m ≡ true) × (has_other_pre_terminate_hooks r.api m ≡ true))

module _ (r : Reconciler) (read : Machine) where
  abbrev OffNode : World → Type 0
  OffNode w = All IsOffNode w.trace

  -- Not at the wait: the conditions are those that were read.
  abbrev Waiting : World → Type 0
  Waiting w = OffNode w × (w.machine.conditions ≡ read.conditions)

  local-Waiting :
      {A : Type 0} {m : Exec A} → Pushes IsLocal m → Triple Waiting m (λ _. Waiting) OffNode
  local-Waiting {m} p =
      Triple-post m (λ _ w h. h) (λ w h. h.0)
        (Triple-Pushes m p
          (λ w new n h. (All-append IsOffNode new w.trace (All-IsOffNode new n) h.0, h.1)))

  ensure_hook-Waiting : Triple Waiting (ensure_hook r) (λ _. Waiting) OffNode
  unfolding ensure_hook
  ensure_hook-Waiting = Triple-this _ λ x.
      Triple-pre _ (λ w h. h.1)
        (Triple-if (has_hook r.api x || not (stamp_allowed r.api x)) _ _
          (λ _. Triple-pure tt (λ w h. h))
          (λ _.
            Triple-bind _ _
              (record {
                run = λ w h.
                    patch_annotations-Post r (λ _. Waiting) OffNode w _ h.0 (λ _. h)
                      (λ a _. (((tt, h.0), h.1), (tt, h.0)));
              })
              (λ _. local-Waiting (search push_rules))))

  reconcile_normal-OffNode : Triple Waiting (reconcile_normal r) (λ _. OffNode) OffNode
  unfolding reconcile_normal
  reconcile_normal-OffNode =
      Triple-bind (ensure_hook r) _ ensure_hook-Waiting (λ _.
        Triple-post _ (λ _ w h. h.0) (λ w h. h) (local-Waiting (ensure_credentials-IsLocal r)))

  shut :
      (w : World) (x : Machine)
      → at_pre_terminate r.api read ≡ false
      → w.machine ≡ x
      → w.machine.conditions ≡ read.conditions
      → at_pre_terminate r.api x ≡ false
  unfolding at_pre_terminate deleting_reason
  shut w x early e h = rw (sym (ap (λ (m : Machine). m.conditions) e) ∙ h) early

  gate-OffNode :
      at_pre_terminate r.api read ≡ false → Triple Waiting (gate r) (λ _. OffNode) OffNode
  unfolding gate
  gate-OffNode early = Triple-this _ λ x.
      Triple-if (not (at_pre_terminate r.api x)) _ _ (λ _. Triple-pure 0 (λ w h. h.1.0))
        (λ e. record { run = λ w h. absurd (ground (arith, shut w x early h.0 h.1.1)) })

  abbrev Fresh : World → Type 0
  Fresh w = (w.machine ≡ read) × OffNode w

  Fresh-Waiting : (w : World) → Fresh w → Waiting w
  Fresh-Waiting w h = (h.1, ap (λ (m : Machine). m.conditions) h.0)

  held_back-OffNode :
      has_other_pre_terminate_hooks r.api read ≡ true → Triple Fresh (gate r) (λ _. OffNode) OffNode
  unfolding gate
  held_back-OffNode others =
      Triple-this_at read _ (λ w h. h.0)
        (Triple-if (not (at_pre_terminate r.api read)) _ _ (λ _. Triple-pure 0 (λ w h. h.1))
          (λ _.
            Triple-if (has_other_pre_terminate_hooks r.api read) _ _
              (λ _. Triple-pure _ (λ w h. h.1)) (λ e. absurd (ground arith))))

  gate_of_early :
      (at_pre_terminate r.api read ≡ false) ⊎ (has_other_pre_terminate_hooks r.api read ≡ true)
      → Triple Fresh (gate r) (λ _. OffNode) OffNode
  gate_of_early (inl early) = Triple-pre _ Fresh-Waiting (gate-OffNode early)
  gate_of_early (inr others) = held_back-OffNode others

  reconcile_deleting-OffNode :
      (at_pre_terminate r.api read ≡ false)
        ⊎ ((has_hook r.api read ≡ true) × (has_other_pre_terminate_hooks r.api read ≡ true))
      → Triple Fresh (reconcile_deleting r) (λ _. OffNode) OffNode
  unfolding reconcile_deleting
  reconcile_deleting-OffNode early =
      Triple-this_at read _ (λ w h. h.0)
        (Triple-if (has_hook r.api read) _ _ (λ _. gate_of_early (ground arith))
          (λ off.
            Triple-if (has reset_annotation read.annotations) _ _ (λ _. Triple-pure 0 (λ w h. h.1))
              (λ _.
                Triple-if (not (stamp_allowed r.api read)) _ _ (λ _. Triple-pure 0 (λ w h. h.1))
                  (λ _. Triple-pre _ Fresh-Waiting (
                    Triple-bind _ _
                      (Triple-bind (ensure_hook r) _ ensure_hook-Waiting
                        (λ _. local-Waiting (ensure_credentials-IsLocal r)))
                      (λ _. gate-OffNode (ground arith)))))))

  abbrev Body : Option ℕ → Exec ℕ
  Body o = cases o (λ _. reconcile_deleting r) (reconcile_normal r >> pure 0)

  body-OffNode :
      IsEarly r read
      → (o : Option ℕ) → read.deletion_timestamp ≡ o
      → Triple Fresh (Body o) (λ _. OffNode) OffNode
  body-OffNode early none e =
      Triple-pre _ Fresh-Waiting
        (Triple-bind _ _ reconcile_normal-OffNode (λ _. Triple-pure 0 (λ w h. h)))
  body-OffNode early (some t) e = reconcile_deleting-OffNode (ground arith)

  reconcile_machine-OffNode :
      IsEarly r read → Triple Fresh (reconcile_machine r) (λ _. OffNode) OffNode
  unfolding reconcile_machine
  reconcile_machine-OffNode early =
      Triple-this_at read _ (λ w h. h.0)
        (Triple-if (not (qualifies read) && not (has_hook r.api read)) _ _
          (λ _. Triple-pure 0 (λ w h. h.1)) (λ _. body-OffNode early read.deletion_timestamp refl))

  settled : (x : Result ℕ) (w : World) → Post (λ _. OffNode) OffNode x w → OffNode w
  settled (ok a) w h = h
  settled (err e) w h = h

  -- For any answers of the API server, the nodes and the clock: while the Machine that was read is
  -- not being deleted, is not at the pre-terminate wait, or carries the hook of another controller
  -- beside this one's, a reconcile makes no call to any Talos node: if the trace of before has no
  -- dial, no remote procedure and no close, the trace of after has none.
  pub reconcile_early-IsOffNode :
      (t : Trace) (key : ObjectKey)
      → r.env.get_machine t key ≡ ok read
      → IsEarly r read
      → All IsOffNode t
      → All IsOffNode (reconcile r t key).1
  unfolding reconcile
  reconcile_early-IsOffNode t key found early h =
      let w : World = record { trace = get machine key ∷ t; machine = read } in
      let (x, w') = reconcile_machine r w in
      rw found (settled x w' ((reconcile_machine-OffNode early).run w (refl, (tt, h))))
