-- ===== src/Teardown/HookPhase/Sweep.antt =====
-- What a stamp and a release do to the annotations, key by key.
use cluster_api_runtime_exte.Base.{
  String, ◌≡◌, refl, Bool, false, ◌&&◌, ◌||◌, Option, none, some, [], ◌∷◌, arith, starts_with, ◌==◌,
  string_eq, if◌then◌else◌,
}
use cluster_api_runtime_exte.Base.Dict.{
  Dict, NodupKeys, lookup, insert, erase, lookup-insert, lookup-erase, insert-NodupKeys,
  erase-NodupKeys,
}
use cluster_api_runtime_exte.Teardown.Api.{ClusterApi, hook_annotation, hook_value}
use cluster_api_runtime_exte.Teardown.Qualify.{is_legacy_hook, legacy_keys}
use cluster_api_runtime_exte.Teardown.Qualify.Hooks.{contains, lookup-erase_all}
use cluster_api_runtime_exte.Teardown.Controller.{Reconciler}
use cluster_api_runtime_exte.Teardown.HookPhase.{with_hook, without_hooks}

-- An annotation that holds this controller's name under the prefix of the hooks.
abbrev pub is_own : ClusterApi → String → Option String → Bool
is_own api k none = false
is_own api k (some v) = v == hook_value && starts_with k api.pre_terminate_prefix

module _ (api : ClusterApi) where
  legacy_value : String → Option String → Bool
  legacy_value k none = false
  legacy_value k (some v) = is_legacy_hook api k v

  contains-legacy_keys_fresh :
      (k : String) (m : Dict String) → lookup k m ≡ none → contains (legacy_keys api m) k ≡ false
  unfolding legacy_keys is_legacy_hook lookup
  contains-legacy_keys_fresh k [] h = refl
  contains-legacy_keys_fresh k ((j, v) ∷ m) h = ground (arith, contains-legacy_keys_fresh k m)

  contains-legacy_keys :
      (k : String) (m : Dict String)
      → NodupKeys m
      → contains (legacy_keys api m) k ≡ legacy_value k (lookup k m)
  unfolding legacy_keys is_legacy_hook legacy_value lookup
  contains-legacy_keys k [] h = refl
  contains-legacy_keys k ((j, v) ∷ m) (fresh, h) =
      ground (arith, contains-legacy_keys k m h, contains-legacy_keys_fresh k m)

module _ (r : Reconciler) (a : Dict String) (distinct : NodupKeys a) (k : String) where
  -- After a release, key by key: the hook is gone, with every annotation under the prefix of the
  -- hooks that holds this controller's name, and all other annotations are as they were.
  pub lookup-without_hooks :
      lookup k (without_hooks r a)
      ≡ (if k == hook_annotation r.api || is_own r.api k (lookup k a) then none else lookup k a)
  unfolding without_hooks legacy_value is_legacy_hook
  lookup-without_hooks =
      let h = hook_annotation r.api in
      let b = erase h a in
      ground (
        arith,
        lookup-erase_all (legacy_keys r.api b) k b,
        contains-legacy_keys r.api k b (erase-NodupKeys h a distinct),
        lookup-erase k h a,
      )

  -- After a stamp, key by key: the hook holds this controller's name, every other annotation under
  -- the prefix of the hooks that holds it is gone, and all other annotations are as they were.
  pub lookup-with_hook : lookup k (with_hook r a) ≡ (
      if k == hook_annotation r.api
      then some hook_value
      else if is_own r.api k (lookup k a)
      then none
      else lookup k a)
  unfolding with_hook legacy_value is_legacy_hook
  lookup-with_hook =
      let h = hook_annotation r.api in
      let b = insert h hook_value a in
      ground (
        arith,
        lookup-erase_all (legacy_keys r.api b) k b,
        contains-legacy_keys r.api k b (insert-NodupKeys h hook_value a distinct),
        lookup-insert k h hook_value a,
      )
