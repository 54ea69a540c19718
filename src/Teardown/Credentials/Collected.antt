-- ===== src/Teardown/Credentials/Collected.antt =====
-- What the garbage collection of cached copies deletes.
use cluster_api_runtime_exte.Base.{
  ◌≡◌, refl, ap, ◌∙◌, Bool, true, false, not, inl, inr, Option, none, some, List, [], ◌∷◌, arith,
  if◌then◌else◌, Bool-cases,
}
use cluster_api_runtime_exte.Base.Lists.{any, All, All-weaken}
use cluster_api_runtime_exte.Teardown.Api.{ObjectKey, Machine, Cluster, Secret}
use cluster_api_runtime_exte.Teardown.Qualify.{qualifies}
use cluster_api_runtime_exte.Teardown.Effect.{
  Error, Result, ok, err, is_not_found, delete_secret, get, cluster, list_machines, list_secrets,
  Trace, World, Exec, push, succeeded, outcome, resume, continue, ask, pure, raise, ◌>>=◌, ◌>>◌,
}
use cluster_api_runtime_exte.Teardown.Controller.{Reconciler}
use cluster_api_runtime_exte.Teardown.Credentials.{
  cluster_gone, delete_copy, labelled_cluster, collect, gc,
}

module _ (r : Reconciler) where
  -- The two last calls of the trace found no Cluster, and then no Machine of it that qualifies.
  abbrev pub IsGone : ObjectKey → Trace → Type 0
  IsGone c t =
      (rest : Trace) × (e : Error) × (machines : List Machine) × (t
        ≡ list_machines c.namespace c.name ∷ get cluster c ∷ rest)
      × (r.env.get_cluster rest c ≡ err e)
      × (is_not_found e ≡ true)
      × (r.env.machines_of (get cluster c ∷ rest) c.namespace c.name false ≡ ok machines)
      × (any qualifies machines ≡ false)

  module _ (P : Secret → Type 0) where
    -- Every deletion is that of a secret with `P`, right after its cluster was found gone.
    abbrev pub IsJustified : Trace → Type 0
    IsJustified [] = Unit
    IsJustified (delete_secret key _ ∷ t) =
        ((s : Secret) × P s
          × (key ≡ record { namespace = s.namespace; name = s.name })
          × IsGone (labelled_cluster r s) t)
        × IsJustified t
    IsJustified (_ ∷ t) = IsJustified t

    abbrev Checked : ObjectKey → Result Bool × World → Type 0
    Checked c (x, v) = IsJustified v.trace × (x ≡ ok true → IsGone c v.trace)

    -- The part of clusterGone once the Cluster's read has failed.
    abbrev ask_machines : ObjectKey → Error → Exec Bool
    ask_machines c e =
        if is_not_found e
        then (ask (λ t. r.env.machines_of t c.namespace c.name false)
              (list_machines c.namespace c.name)
            >>= λ machines. pure (not (any qualifies machines)))
        else raise e

    machines_asked :
        (c : ObjectKey) (w : World) (rest : Trace) (e : Error) (x : Result (List Machine))
        → IsJustified rest
        → r.env.get_cluster rest c ≡ err e
        → is_not_found e ≡ true
        → r.env.machines_of (get cluster c ∷ rest) c.namespace c.name false ≡ x
        → let v =
            push (list_machines c.namespace c.name) (record w { trace = get cluster c ∷ rest }) in
          Checked c (continue x (λ machines. pure (not (any qualifies machines))) v)
    unfolding pure
    machines_asked c w rest e (err d) h g n m = (h, λ k. absurd (ground arith))
    machines_asked c w rest e (ok machines) h g n m =
        (h, λ k. (rest, e, machines, refl, g, n, m, ground arith))

    error_asked :
        (c : ObjectKey) (w : World) (e : Error)
        → IsJustified w.trace
        → r.env.get_cluster w.trace c ≡ err e
        → Checked c (ask_machines c e (push (get cluster c) w))
    unfolding ◌>>=◌
    error_asked c w e h g = elim (Bool-cases (is_not_found e)) [
      | inl n ↦ rw n (machines_asked c w w.trace e _ h g n refl)
      | inr n ↦ rw n (h, λ k. absurd (ground arith))
    ]

    cluster_gone-Checked :
        (c : ObjectKey) (w : World) → IsJustified w.trace → Checked c (cluster_gone r c w)
    unfolding cluster_gone ◌>>=◌
    cluster_gone-Checked c w h = found (r.env.get_cluster w.trace c) refl
      where
        found :
            (x : Result Cluster)
            → r.env.get_cluster w.trace c ≡ x
            → Checked c (resume x (λ _. pure false) (ask_machines c) (push (get cluster c) w))
        found (ok _) e = (h, λ k. absurd (ground arith))
        found (err d) e = error_asked c w d h e

    abbrev key_of : Secret → ObjectKey
    key_of s = record { namespace = s.namespace; name = s.name }

    abbrev on_refusal : Error → Exec (Unit {0})
    on_refusal e = if is_not_found e then pure tt else raise e

    delete_copy-IsJustified :
        (s : Secret) (w : World)
        → P s
        → IsJustified w.trace
        → IsGone (labelled_cluster r s) w.trace
        → IsJustified (delete_copy r (key_of s) w).1.trace
    unfolding ◌>>=◌
    delete_copy-IsJustified s w p h g = deleted (r.env.remove_secret w.trace (key_of s))
      where
        refusal :
            (e : Error) (v : World) → IsJustified v.trace → IsJustified (on_refusal e v).1.trace
        refusal e v k = elim (Bool-cases (is_not_found e)) [ inl n ↦ rw n k | inr n ↦ rw n k ]

        deleted :
            (e : Option Error)
            → let v = push (delete_secret (key_of s) (succeeded e)) w in
              IsJustified (resume (outcome e) (λ _. pure tt) on_refusal v).1.trace
        deleted none = ((s, p, refl, g), h)
        deleted (some e) = refusal e _ ((s, p, refl, g), h)

    -- Whatever comes after an action that returned is only run if it did not fail.
    goes_on :
        {A B : Type 0} (x : Result A) (f : A → Exec B) (v : World)
        → IsJustified v.trace
        → ((a : A) → x ≡ ok a → IsJustified (f a v).1.trace)
        → IsJustified (continue x f v).1.trace
    goes_on (ok a) f v h k = k a refl
    goes_on (err e) f v h k = h

    one_copy :
        (s : Secret) (go : Exec (Unit {0})) (v : World) (stale : Bool)
        → P s
        → IsJustified v.trace
        → (stale ≡ true → IsGone (labelled_cluster r s) v.trace)
        → ((u : World) → IsJustified u.trace → IsJustified (go u).1.trace)
        → IsJustified ((if stale then delete_copy r (key_of s) >> go else go) v).1.trace
    unfolding ◌>>=◌
    one_copy s go v true p k g rest =
        let deleted = delete_copy-IsJustified s v p k (g refl) in
        let (x, u) = delete_copy r (key_of s) v in
        goes_on x (λ _. go) u deleted (λ _ _. rest u deleted)
    one_copy s go v false p k g rest = rest v k

    collect-IsJustified :
        (copies : List Secret) (w : World)
        → All P copies
        → IsJustified w.trace
        → IsJustified (collect r copies w).1.trace
    unfolding collect ◌>>=◌
    collect-IsJustified [] w p h = h
    collect-IsJustified (s ∷ copies) w (p, ps) h =
        let (x, v) = cluster_gone r (labelled_cluster r s) w in
        let (k, g) = cluster_gone-Checked (labelled_cluster r s) w h in
        goes_on x _ v k (λ stale e.
          one_copy s (collect r copies) v stale p k (λ t. g (e ∙ ap ok t))
            (λ u. collect-IsJustified copies u ps))

  -- The list of the cached copies answered with this secret.
  pub data IsListed (s : Secret) : List Secret → Type 0 where
    here : {rest : List Secret} → IsListed s (s ∷ rest)
    there : {other : Secret} {rest : List Secret} → IsListed s rest → IsListed s (other ∷ rest)

  All-IsListed :
      (all copies : List Secret)
      → ((s : Secret) → IsListed s copies → IsListed s all)
      → All (λ s. IsListed s all) copies
  All-IsListed all [] f = tt
  All-IsListed all (s ∷ copies) f = (f s here, All-IsListed all copies (λ t h. f t (there h)))

  -- Some list of the secrets in the controller's namespace was answered with the secret.
  abbrev pub WasListed : Secret → Type 0
  WasListed s =
      (t : Trace) × (copies : List Secret) × (r.env.secrets_of t r.cache_namespace ≡ ok copies)
      × IsListed s copies

  -- The garbage collection deletes a secret only if it was listed as a cached copy and, right before, the
  -- Cluster that its labels name was not found and none of the Machines of that Cluster qualified,
  -- whatever the server answers: if the deletions of the trace of before are like that, so are those of
  -- the trace of after.
  pub gc-IsJustified :
      (w : World) → IsJustified WasListed w.trace → IsJustified WasListed (gc r w).1.trace
  unfolding gc ◌>>=◌
  gc-IsJustified w h =
      let listed = push (list_secrets r.cache_namespace) w in
      goes_on WasListed (r.env.secrets_of w.trace r.cache_namespace) (collect r) listed h
        (λ copies e.
          collect-IsJustified WasListed copies listed
            (All-weaken (λ s k. (w.trace, copies, e, k)) copies
              (All-IsListed copies copies (λ s k. k)))
            h)
