-- ===== src/Teardown/Qualify/Hooks.antt =====
-- Which annotations are this controller's own hooks, and what a stamp and a release do to them.
use text.Mathlib.TextPositions.{starts_with-append}
use cluster_api_runtime_exte.Base.{
  String, ◌≡◌, refl, ◌≢◌, Bool, true, false, ◌||◌, none, some, List, [], ◌∷◌, arith, starts_with,
  ◌==◌, string_eq, if◌then◌else◌,
}
use cluster_api_runtime_exte.Base.Dict.{Dict, lookup, erase, erase_all, lookup-erase}
use cluster_api_runtime_exte.Teardown.Api.{ClusterApi, hook_annotation, hook_value}
use cluster_api_runtime_exte.Teardown.Qualify.{is_legacy_hook, legacy_keys}

abbrev pub contains : List String → String → Bool
contains [] k = false
contains (x ∷ xs) k = k == x || contains xs k

pub lookup-erase_all :
    (ks : List String) (k : String) (m : Dict String)
    → lookup k (erase_all ks m) ≡ (if contains ks k then none else lookup k m)
unfolding erase_all
lookup-erase_all [] k m = refl
lookup-erase_all (x ∷ ks) k m =
    ground (arith, lookup-erase_all ks k (erase x m), lookup-erase k x m)

module _ (api : ClusterApi) where
  -- The current hook is never a leftover.
  pub contains-legacy_keys_hook :
      (m : Dict String) → contains (legacy_keys api m) (hook_annotation api) ≡ false
  unfolding legacy_keys is_legacy_hook
  contains-legacy_keys_hook [] = refl
  contains-legacy_keys_hook ((k, v) ∷ m) = ground (arith, contains-legacy_keys_hook m)

  -- A key without the prefix of the hooks is never a leftover.
  pub contains-legacy_keys_plain :
      (k : String) (m : Dict String)
      → starts_with k api.pre_terminate_prefix ≡ false
      → contains (legacy_keys api m) k ≡ false
  unfolding legacy_keys is_legacy_hook
  contains-legacy_keys_plain k [] p = refl
  contains-legacy_keys_plain k ((j, v) ∷ m) p = ground (arith, contains-legacy_keys_plain k m p)

  -- A leftover is found by its value.
  pub contains-legacy_keys_own :
      (k : String) (m : Dict String)
      → k ≢ hook_annotation api
      → starts_with k api.pre_terminate_prefix ≡ true
      → lookup k m ≡ some hook_value
      → contains (legacy_keys api m) k ≡ true
  unfolding legacy_keys is_legacy_hook lookup
  contains-legacy_keys_own k [] n p h = cc
  contains-legacy_keys_own k ((j, v) ∷ m) n p h = ground (arith, contains-legacy_keys_own k m n p)

  pub hook_annotation-prefix : starts_with (hook_annotation api) api.pre_terminate_prefix ≡ true
  unfolding hook_annotation
  hook_annotation-prefix = starts_with-append api.pre_terminate_prefix "/talos-teardown"
