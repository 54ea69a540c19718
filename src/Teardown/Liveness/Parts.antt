-- ===== src/Teardown/Liveness/Parts.antt =====
-- Steps that cannot fail while the API server serves. What is claimed of a world is claimed of the
-- Machine in hand, so calls that change nothing but the trace keep it.
use cluster_api_runtime_exte.Base.{
  ℕ, ◌+◌, ◌<◌, String, ◌≡◌, ap, true, ◌≢◌, Option, none, some, arith, lt→ltb, nat_eq, string_eq,
  inl, inr, Option-cases,
}
use cluster_api_runtime_exte.Base.Dict.{Dict, has}
use cluster_api_runtime_exte.Teardown.Api.{
  Machine, EtcdOutcome, left, removed, ResetOutcome, etcd_annotation, reset_annotation, etcd_text,
  reset_text, skipped_cluster_delete, skipped_timeout,
}
use cluster_api_runtime_exte.Teardown.Effect.{Error, Call, Trace, World, Exec, record_call, ◌>>=◌}
use cluster_api_runtime_exte.Teardown.Effect.Pushes.{Pushes}
use cluster_api_runtime_exte.Teardown.Effect.Triples.{
  Triple, Triple-pure, Triple-if, Triple-pre, Triple-post, Triple-this, Triple-bind, Triple-handle,
  Triple-Pushes,
}
use cluster_api_runtime_exte.Teardown.Controller.{
  Reconciler, send, patch_annotations, stamp, stamp_phase,
}
use cluster_api_runtime_exte.Teardown.Controller.Patching.{
  has-stamp, has-stamp-some, etcd_text-ne-empty, reset_text-ne-empty,
}
use cluster_api_runtime_exte.Teardown.EtcdPhase.{
  record_etcd_outcome, orphan_or_retry, try_etcd_removal, ensure_etcd_removed, skip_etcd,
}
use cluster_api_runtime_exte.Teardown.ResetPhase.{
  record_reset_outcome, skip_or_retry, try_reset, reset_phase,
}
use cluster_api_runtime_exte.Teardown.Quiet.{try_etcd_removal-quiet, try_reset-quiet}
use cluster_api_runtime_exte.Teardown.Liveness.{IsServing}

abbrev pub At : (Machine → Type 0) → World → Type 0
At P w = P w.machine

abbrev pub Never : World → Type 0
Never _ = ⊥

-- From `P` the action returns, with `Q`.
abbrev pub Returns : {A : Type 0} → (Machine → Type 0) → Exec A → (Machine → Type 0) → Type 0
Returns P m Q = Triple (At P) m (λ _. At Q) Never

module _ (P : Machine → Type 0) where
  pub quiet-At :
      {A : Type 0} {C : Call → Type 0} {m : Exec A}
      → Pushes C m
      → Triple (At P) m (λ _. At P) (At P)
  quiet-At {m} p = Triple-Pushes m p (λ w new n h. h)

  pub record_call-Returns : (c : Call) → Returns P (record_call c) P
  unfolding record_call
  record_call-Returns c = record { run = λ w h. h }

  pub etcd_outcome-Returns :
      (r : Reconciler) (o : EtcdOutcome) → Returns P (record_etcd_outcome r o) P
  unfolding record_etcd_outcome
  etcd_outcome-Returns r left = Triple-bind _ _ (record_call-Returns _) (λ _. record_call-Returns _)
  etcd_outcome-Returns r removed =
      Triple-bind _ _ (record_call-Returns _) (λ _. record_call-Returns _)
  etcd_outcome-Returns r _ =
      Triple-bind _ _ (record_call-Returns _) (λ _. Triple-pure tt (λ w h. h))

  pub reset_outcome-Returns :
      (r : Reconciler) (o : ResetOutcome) → Returns P (record_reset_outcome r o) P
  unfolding record_reset_outcome
  reset_outcome-Returns r skipped_timeout =
      Triple-bind _ _ (record_call-Returns _) (λ _. Triple-pure tt (λ w h. h))
  reset_outcome-Returns r _ = Triple-bind _ _ (record_call-Returns _) (λ _. record_call-Returns _)

  -- After the deadline a phase gives up.
  pub orphan-Returns :
      (r : Reconciler) (t : ℕ) (e : Error)
      → ((u : Trace) → t + r.etcd_timeout < r.env.now u)
      → Returns P (orphan_or_retry r t e) P
  unfolding orphan_or_retry ◌>>=◌
  orphan-Returns r t e late = record { run = λ w h. rw (lt→ltb _ _ (late w.trace)) h }

  pub skip-Returns :
      (r : Reconciler) (t : ℕ) (e : Error)
      → ((u : Trace) → t + r.reset_timeout < r.env.now u)
      → Returns P (skip_or_retry r t e) P
  unfolding skip_or_retry ◌>>=◌
  skip-Returns r t e late = record { run = λ w h. rw (lt→ltb _ _ (late w.trace)) h }

module _ (r : Reconciler) (read : Machine) (serves : IsServing r read) where
  pub patch-Returns :
      (f : Dict String → Option (Dict String)) (P Q : Machine → Type 0)
      → ((m : Machine) → P m → f m.annotations ≡ none → Q m)
      → ((m : Machine) (a : Dict String)
          → P m
          → f m.annotations ≡ some a
          → Q (record m { annotations = a }))
      → Returns P (patch_annotations r f) Q
  unfolding patch_annotations send
  patch-Returns f P Q idle sent = record {
    run = λ w h.
        rw (serves.helper w.trace w.machine) (elim (Option-cases (f w.machine.annotations)) [
          | inl e ↦ rw e (idle w.machine h e)
          | inr (a, e) ↦ rw e (rw (serves.patches w.trace w.machine a) (sent w.machine a h e))
        ]);
  }

  -- Only the annotations differ from those that were read.
  abbrev pub Same : Machine → Type 0
  Same m = m ≡ record read { annotations = m.annotations }

  abbrev pub Stamped : String → Machine → Type 0
  Stamped key m = Same m × (has key m.annotations ≡ true)

  pub stamp-Returns :
      (key value : String) → value ≢ "" → Returns Same (stamp_phase r key value) (Stamped key)
  unfolding stamp_phase
  stamp-Returns key value n =
      patch-Returns (stamp key value) Same (Stamped key)
        (λ m s e. (s, has-stamp key value m.annotations n e))
        (λ m a s e. (
          ap (λ (x : Machine). record x { annotations = a }) s,
          ground (arith, has-stamp-some key value key m.annotations a e),
        ))

  pub removed-Returns :
      (t : ℕ)
      → ((u : Trace) → t + r.etcd_timeout < r.env.now u)
      → Returns Same (ensure_etcd_removed r t) Same
  unfolding ensure_etcd_removed
  removed-Returns t late =
      Triple-bind _ _
        (Triple-handle (try_etcd_removal r) _ _ (quiet-At Same (try_etcd_removal-quiet r))
          (λ o. Triple-pure o (λ w h. h)) (λ e. orphan-Returns Same r t e late))
        (λ o.
          Triple-post _ (λ _ w h. h.0) (λ w h. h)
            (Triple-bind _ _ (stamp-Returns etcd_annotation (etcd_text o) (etcd_text-ne-empty o))
              (λ _. etcd_outcome-Returns (Stamped etcd_annotation) r o)))

  pub skip_etcd-Returns : Returns Same (skip_etcd r) Same
  unfolding skip_etcd
  skip_etcd-Returns =
      Triple-bind _ _
        (Triple-bind _ _
          (Triple-post _ (λ _ w h. h.0) (λ w h. h)
            (stamp-Returns etcd_annotation (etcd_text skipped_cluster_delete)
              (etcd_text-ne-empty skipped_cluster_delete)))
          (λ _. record_call-Returns Same _))
        (λ _. record_call-Returns Same _)

  pub reset-Returns :
      (t : ℕ)
      → ((u : Trace) → t + r.reset_timeout < r.env.now u)
      → Returns Same (reset_phase r t) (Stamped reset_annotation)
  unfolding reset_phase
  reset-Returns t late = Triple-this _ λ x.
      Triple-if (has reset_annotation x.annotations) _ _
        (λ e. Triple-pure tt (λ w h. (h.1, rw h.0 e)))
        (λ _.
          Triple-pre _ (λ w h. h.1)
            (Triple-bind _ _
              (Triple-handle (try_reset r) _ _ (quiet-At Same (try_reset-quiet r))
                (λ o. Triple-pure o (λ w h. h)) (λ e. skip-Returns Same r t e late))
              (λ o.
                Triple-bind _ _
                  (stamp-Returns reset_annotation (reset_text o) (reset_text-ne-empty o))
                  (λ _. reset_outcome-Returns (Stamped reset_annotation) r o))))
