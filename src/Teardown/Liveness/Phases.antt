-- ===== src/Teardown/Liveness/Phases.antt =====
-- The steps of an overdue Machine before its reset: the observation, the Cluster and the etcd phase.
use cluster_api_runtime_exte.Base.{
  ℕ, ◌≡◌, refl, Bool, true, not, List, arith, is_some, ◌==◌, nat_eq, string_eq, if◌then◌else◌,
}
use cluster_api_runtime_exte.Base.Dict.{lookup, has}
use cluster_api_runtime_exte.Teardown.Api.{
  Machine, Cluster, etcd_annotation, observed_at_annotation,
}
use cluster_api_runtime_exte.Teardown.Qualify.{is_control_plane}
use cluster_api_runtime_exte.Teardown.Effect.{
  Result, ok, err, is_not_found, World, pure, raise, resume, continue, ◌>>=◌, ◌>>◌,
}
use cluster_api_runtime_exte.Teardown.Effect.Triples.{
  Triple, Post, Triple-pure, Triple-if, Triple-cases, Triple-pre, Triple-this_at, Triple-bind,
}
use cluster_api_runtime_exte.Teardown.Controller.{Reconciler, cluster_key_for, hook_wait_requeue}
use cluster_api_runtime_exte.Teardown.Peers.{must_wait}
use cluster_api_runtime_exte.Teardown.HookPhase.{
  ensure_observed_at, parsed_time, restamp, cluster_deleting,
}
use cluster_api_runtime_exte.Teardown.EtcdPhase.{
  etcd_phase, ensure_etcd_removed, serialize_control_plane, list_control_plane_machines,
}
use cluster_api_runtime_exte.Teardown.Liveness.{IsAnswered, LetsPass, IsServing, IsOverdue}
use cluster_api_runtime_exte.Teardown.Liveness.Parts.{
  At, Never, Same, removed-Returns, skip_etcd-Returns,
}

module _ (r : Reconciler) (read : Machine) (serves : IsServing r read)
    (overdue : IsOverdue r read) where
  abbrev pub Read : Machine → Type 0
  Read m = m ≡ read

  abbrev pub Alike : Machine → Type 0
  Alike = Same r read serves

  Read-Alike : (m : Machine) → Read m → Alike m
  Read-Alike m e = rw e refl

  pub observed-Returns :
      Triple (At Read) (ensure_observed_at r) (λ t w. (t ≡ overdue.since) × At Read w) Never
  unfolding ensure_observed_at
  observed-Returns =
      Triple-this_at read _ (λ w h. h)
        (Triple-cases (parsed_time r (lookup observed_at_annotation read.annotations)) _ (restamp r)
          (λ t e. Triple-pure t (λ w h. (cc (e, overdue.on_record), h)))
          (λ e. absurd (cc (e, overdue.on_record))))

  answered-Post :
      (x : Result Cluster)
      → IsAnswered x
      → (w : World) → At Read w
      → let (y, w') =
          resume x
            (λ c. pure (is_some c.deletion_timestamp))
            (λ e. if is_not_found e then pure true else raise e)
            w in
        Post (λ _. At Read) Never y w'
  unfolding pure raise
  answered-Post (ok c) a w h = h
  answered-Post (err e) a w h = rw a h

  pub deleting-Returns : Triple (At Read) (cluster_deleting r) (λ _. At Read) Never
  unfolding cluster_deleting ◌>>=◌
  deleting-Returns = record {
    run = λ w h.
        answered-Post (r.env.get_cluster w.trace (cluster_key_for r w.machine))
          (serves.clusters w.trace (cluster_key_for r w.machine)) _ h;
  }

  passes :
      (x : Result (List Machine)) (w : World)
      → LetsPass r read x
      → At Read w
      → let (y, w') =
          continue x
            (λ peers. pure (if must_wait r.api peers read then hook_wait_requeue else 0))
            w in
        Post (λ t w. (t ≡ 0) × At Read w) Never y w'
  unfolding pure
  passes (ok peers) w p h = rw p (refl, h)
  passes (err e) w p h = p

  serialize-Returns :
      Triple (At Read) (serialize_control_plane r) (λ t w. (t ≡ 0) × At Read w) Never
  unfolding serialize_control_plane list_control_plane_machines
  serialize-Returns =
      Triple-this_at read _ (λ w h. h)
        (unfold ◌>>=◌ in record { run = λ w h. passes _ _ (serves.peers w.trace _ _) h })

  -- No more waiting, and the annotations alone have changed.
  abbrev pub Settled : ℕ → World → Type 0
  Settled wait w = (wait ≡ 0) × Alike w.machine

  removal-Settled :
      (t : ℕ)
      → t ≡ overdue.since
      → Triple (At Read) (ensure_etcd_removed r t >> pure 0) Settled Never
  removal-Settled t e =
      Triple-pre _ (λ w h. Read-Alike w.machine h)
        (Triple-bind _ _ (removed-Returns r read serves t (λ u. rw e (overdue.etcd_late u)))
          (λ _. Triple-pure 0 (λ w h. (refl, h))))

  pub etcd-Settled :
      (t : ℕ) (deleting : Bool)
      → t ≡ overdue.since
      → Triple (At Read) (etcd_phase r t deleting) Settled Never
  unfolding etcd_phase
  etcd-Settled t deleting e =
      Triple-this_at read _ (λ w h. h)
        (Triple-if (has etcd_annotation read.annotations) _ _
          (λ _. Triple-pure 0 (λ w h. (refl, Read-Alike w.machine h)))
          (λ _.
            Triple-if deleting _ _
              (λ _.
                Triple-pre _ (λ w h. Read-Alike w.machine h)
                  (Triple-bind _ _ (skip_etcd-Returns r read serves)
                    (λ _. Triple-pure 0 (λ w h. (refl, h)))))
              (λ _.
                Triple-if (not (is_control_plane r.api read)) _ _
                  (λ _. Triple-pure 0 (λ w h. (refl, Read-Alike w.machine h)))
                  (λ _. Triple-bind _ _ serialize-Returns λ wait.
                    Triple-if (wait == 0) _ _ (λ _. Triple-pre _ (λ w h. h.1) (removal-Settled t e))
                      (λ busy. record { run = λ w h. absurd (ground arith) })))))
