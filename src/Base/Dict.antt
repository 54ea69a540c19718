-- ===== src/Base/Dict.antt =====
-- Go's `map[string]string` and its like: an association list. A write to a key that is there
-- replaces it; no entry is doubled (`NodupKeys`, which every operation keeps). Go's order of
-- iteration is random: no theorem depends on the order of the entries.
use cluster_api_runtime_exte.Base.Equality.{◌==◌, string_eq, if◌then◌else◌, is_some}
use Prim.Native.String.{String}
use mathlib.Core.Path.{◌≡◌, refl}
use mathlib.Core.Bool.{Bool}
use mathlib.Core.Option.{Option, none, some}
use mathlib.Core.List.{List, [], ◌∷◌}
use native.Mathlib.Omega.{arith}

abbrev pub Dict {ℓ} : Type ℓ → Type ℓ
Dict V = List (String × V)

module _ {ℓ} {V : Type ℓ} where
  -- `v, ok := m[k]`
  unfoldable pub lookup : String → Dict V → Option V
  lookup k [] = none
  lookup k ((j, v) ∷ m) = if k == j then some v else lookup k m

  -- `m[k] = v`
  unfoldable pub insert : String → V → Dict V → Dict V
  insert k v [] = (k, v) ∷ []
  insert k v ((j, w) ∷ m) = if k == j then (k, v) ∷ m else (j, w) ∷ insert k v m

  -- `delete(m, k)`
  unfoldable pub erase : String → Dict V → Dict V
  erase k [] = []
  erase k ((j, w) ∷ m) = let rest = erase k m in if k == j then rest else (j, w) ∷ rest

  -- `_, ok := m[k]`
  abbrev pub has : String → Dict V → Bool
  has k m = is_some (lookup k m)

  abbrev pub NodupKeys : Dict V → Type ℓ
  NodupKeys [] = Unit
  NodupKeys ((k, _) ∷ m) = (lookup k m ≡ none) × NodupKeys m

  pub lookup-cons :
      (k j : String) (v : V) (m : Dict V)
      → lookup k ((j, v) ∷ m) ≡ (if k == j then some v else lookup k m)
  unfolding lookup
  lookup-cons k j v m = refl

  pub lookup-insert :
      (k j : String) (v : V) (m : Dict V)
      → lookup k (insert j v m) ≡ (if k == j then some v else lookup k m)
  unfolding lookup insert
  lookup-insert k j v [] = refl
  lookup-insert k j v (_ ∷ m) = ground (arith, lookup-insert k j v m)

  pub lookup-erase :
      (k j : String) (m : Dict V) → lookup k (erase j m) ≡ (if k == j then none else lookup k m)
  unfolding lookup erase
  lookup-erase k j [] = ground arith
  lookup-erase k j (_ ∷ m) = ground (arith, lookup-erase k j m)

  pub insert-NodupKeys : (k : String) (v : V) (m : Dict V) → NodupKeys m → NodupKeys (insert k v m)
  unfolding insert lookup
  insert-NodupKeys k v [] h = (refl, tt)
  insert-NodupKeys k v ((j, _) ∷ m) (fresh, rest) =
      ground (arith, insert-NodupKeys k v m rest, lookup-insert j k v m)

  pub erase-NodupKeys : (k : String) (m : Dict V) → NodupKeys m → NodupKeys (erase k m)
  unfolding erase
  erase-NodupKeys k [] h = tt
  erase-NodupKeys k ((j, _) ∷ m) (fresh, rest) =
      ground (arith, erase-NodupKeys k m rest, lookup-erase j k m)

-- `delete` for each key of a list, in turn.
unfoldable pub erase_all {ℓ} : {V : Type ℓ} → List String → Dict V → Dict V
erase_all [] m = m
erase_all (k ∷ ks) m = erase_all ks (erase k m)

pub ruleset dict_laws = (lookup-insert, lookup-erase)
