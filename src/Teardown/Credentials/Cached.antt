-- ===== src/Teardown/Credentials/Cached.antt =====
-- What Ensure leaves behind.
use cluster_api_runtime_exte.Base.{
  String, ◌≡◌, ◌≢◌, refl, sym, ap, subst, ◌∙◌, Bool, true, false, inl, inr, Option, none, some, ◌∷◌,
  arith, ◌==◌, string_eq, if◌then◌else◌, Bool-cases,
}
use cluster_api_runtime_exte.Base.Dict.{lookup}
use cluster_api_runtime_exte.Teardown.Api.{ObjectKey, Secret}
use cluster_api_runtime_exte.Teardown.Effect.{
  Error, Result, ok, err, is_not_found, get, secret, create_secret, update_secret, World, Exec,
  push, succeeded, outcome, resume, continue, tell, pure, raise, ◌>>=◌, ◌>>◌,
}
use cluster_api_runtime_exte.Teardown.Controller.{Reconciler}
use cluster_api_runtime_exte.Teardown.Credentials.Copies.{
  recorded_version, IsCopy, IsCached, created, updated, current, copy_key,
}
use cluster_api_runtime_exte.Teardown.Credentials.{
  source_secret_name, material, cached_copy, is_current, refresh, ensure,
}

-- `content` is what the source holds at each of its resourceVersions.
module _ (r : Reconciler) (c : ObjectKey) (content : String → String) where
  module _ (source : Secret) (named : content source.resource_version ≡ material source) where
    -- What Ensure writes, with any resourceVersion of its own.
    abbrev written : String → Secret
    written version = record (cached_copy r.cache_namespace c source) { resource_version = version }

    written-material : (version : String) → material (written version) ≡ material source
    unfolding cached_copy material lookup string_eq
    written-material version = refl

    written-IsCopy : (version : String) → IsCopy r c content (written version)
    unfolding cached_copy material lookup string_eq
    written-IsCopy version = record {
      named = refl;
      placed = refl;
      listed = refl;
      owned = refl;
      faithful = sym named;
    }

    is_current-material :
        (existing : Secret)
        → IsCopy r c content existing
        → is_current existing source ≡ true
        → material existing ≡ material source
    unfolding is_current
    is_current-material existing copy h =
        elim (Bool-cases (recorded_version existing == source.resource_version)) [
          | inl e ↦
              let same : recorded_version existing ≡ source.resource_version = ground (arith, e) in
              copy.faithful ∙ ap content same ∙ named
          | inr n ↦ ground (arith, n)
        ]

    outdated-material :
        (existing : Secret)
        → is_current existing source ≡ false
        → material existing ≢ material source
    unfolding is_current
    outdated-material existing h e = ground (arith, h, e)

    abbrev Ended : Result Bool × World → Type 0
    Ended (x, v) = (a : Bool) → x ≡ ok a → IsCached r c content source a v.trace

    -- The two writes of Ensure.
    abbrev write_update : Secret → Exec Bool
    write_update next = tell (λ t. r.env.write_secret t next) (update_secret next) >> pure false

    abbrev write_create : Secret → Exec Bool
    write_create copy = tell (λ t. r.env.write_secret t copy) (create_secret copy) >> pure true

    -- What was read under the name of the copy is the last call.
    abbrev after_read : World → World
    after_read w = push (get secret (copy_key r c content)) w

    update-IsCached :
        (existing : Secret) (w : World)
        → r.env.get_secret w.trace (copy_key r c content) ≡ ok existing
        → material existing ≢ material source
        → Ended (write_update (written existing.resource_version) (after_read w))
    unfolding ◌>>=◌
    update-IsCached existing w g differ =
        wrote (r.env.write_secret (get secret (copy_key r c content) ∷ w.trace) next)
      where
        next : Secret
        next = written existing.resource_version

        wrote :
            (o : Option Error)
            → let v = push (update_secret next (succeeded o)) (after_read w) in
              Ended (continue (outcome o) (λ _. pure false) v)
        wrote none a e =
            let same : false ≡ a = ground (arith, e) in
            subst
              (λ b.
                IsCached r c content source b
                  (update_secret next true ∷ get secret (copy_key r c content) ∷ w.trace))
              same
              (updated g differ refl (written-IsCopy existing.resource_version)
                (written-material existing.resource_version))
        wrote (some x) a e = absurd (ground arith)

    create-IsCached :
        (x : Error) (w : World)
        → r.env.get_secret w.trace (copy_key r c content) ≡ err x
        → is_not_found x ≡ true
        → Ended (write_create (cached_copy r.cache_namespace c source) (after_read w))
    unfolding ◌>>=◌ cached_copy
    create-IsCached x w g missing =
        wrote (r.env.write_secret (get secret (copy_key r c content) ∷ w.trace) (written ""))
      where
        wrote :
            (o : Option Error)
            → let v = push (create_secret (written "") (succeeded o)) (after_read w) in
              Ended (continue (outcome o) (λ _. pure true) v)
        wrote none a e =
            let same : true ≡ a = ground (arith, e) in
            subst
              (λ b.
                IsCached r c content source b
                  (create_secret (written "") true ∷ get secret (copy_key r c content) ∷ w.trace))
              same (created g missing (written-IsCopy "") (written-material ""))
        wrote (some x) a e = absurd (ground arith)

    -- The rest of Ensure, by what was read under the name of the copy.
    abbrev on_existing : Secret → Exec Bool
    on_existing existing =
        if is_current existing source
        then pure false
        else write_update (written existing.resource_version)

    abbrev on_missing : Error → Exec Bool
    on_missing e =
        if is_not_found e then write_create (cached_copy r.cache_namespace c source) else raise e

    read-IsCached :
        (w : World) (x : Result Secret)
        → ((s : Secret)
            → r.env.get_secret w.trace (copy_key r c content) ≡ ok s
            → IsCopy r c content s)
        → r.env.get_secret w.trace (copy_key r c content) ≡ x
        → Ended (resume x on_existing on_missing (after_read w))
    unfolding ◌>>=◌
    read-IsCached w (ok existing) copies g = elim (Bool-cases (is_current existing source)) [
      | inl n ↦
          let copy = copies existing g in
          rw n (λ a e.
            let same : false ≡ a = ground (arith, e) in
            subst (λ b. IsCached r c content source b (get secret (copy_key r c content) ∷ w.trace))
              same (current g copy (is_current-material existing copy n)))
      | inr n ↦ rw n (update-IsCached existing w g (outdated-material existing n))
    ]
    read-IsCached w (err x) copies g = elim (Bool-cases (is_not_found x)) [
      | inl n ↦ rw n (create-IsCached x w g n)
      | inr n ↦ rw n (λ a e. absurd (ground arith))
    ]

    refresh-IsCached :
        (w : World)
        → ((s : Secret)
            → r.env.get_secret w.trace (copy_key r c content) ≡ ok s
            → IsCopy r c content s)
        → Ended (refresh r c source w)
    unfolding refresh cached_copy ◌>>=◌
    refresh-IsCached w copies =
        read-IsCached w (r.env.get_secret w.trace (copy_key r c content)) copies refl

    ensure-Ended :
        (w : World)
        → r.env.get_secret w.trace (source_secret_name c) ≡ ok source
        → ((s : Secret)
            → r.env.get_secret (get secret (source_secret_name c) ∷ w.trace) (copy_key r c content)
              ≡ ok s
            → IsCopy r c content s)
        → Ended (ensure r c w)
    unfolding ensure ◌>>=◌
    ensure-Ended w found copies =
        rw found (refresh-IsCached (push (get secret (source_secret_name c)) w) copies)

  -- An Ensure that finds the source secret and returns no error leaves a copy of the talosconfig that
  -- the source has then: one that it created as there was none, which it reports; or one that it wrote
  -- in place of a copy with another talosconfig, at the resourceVersion of that; or the one that it read
  -- and did not write again, as that has this talosconfig. Each is where Config falls back to and the
  -- garbage collection finds it, and holds what the source held at the version that it records. What is
  -- read under the name of the copy has to be such a copy, if anything, and the resourceVersion of the
  -- source has to tell what it holds.
  pub ensure-IsCached :
      (source : Secret) (w : World) (wrote : Bool)
      → content source.resource_version ≡ material source
      → r.env.get_secret w.trace (source_secret_name c) ≡ ok source
      → ((s : Secret)
          → r.env.get_secret (get secret (source_secret_name c) ∷ w.trace) (copy_key r c content)
            ≡ ok s
          → IsCopy r c content s)
      → (ensure r c w).0 ≡ ok wrote
      → IsCached r c content source wrote (ensure r c w).1.trace
  ensure-IsCached source w wrote named found copies e =
      ensure-Ended source named w found copies wrote e
