-- ===== src/Sync/Apply/Guard.antt =====
-- What applyManaged may write.
use cluster_api_runtime_exte.Base.{◌≡◌, refl, true, Option, none, some, arith, inl, inr, Bool-cases}
use cluster_api_runtime_exte.Base.Dict.{lookup, lookup-insert}
use cluster_api_runtime_exte.Base.Lists.{All}
use cluster_api_runtime_exte.Sync.Apply.{
  Object, ApiError, not_found, other, Read, found, failed, Write, create, apply, Sighting, Server,
  is_managed, managed_by_label, managed_by_value, stamp_ownership, converted, apply_managed,
}

module _ {S : Type 0} where
  -- An object is created only where none was found, and applied only over one that was found with the
  -- label of this controller: then with the version that was read and the spec that carries the live
  -- one's state forward. What is written bears the label, and the name and namespace asked for.
  abbrev pub IsGuarded : (S → S → S) → Object S → Read S → Write S → Type 0
  IsGuarded carry desired read (create obj) =
      (read ≡ failed not_found)
      × (obj.spec ≡ desired.spec)
      × (lookup managed_by_label obj.labels ≡ some managed_by_value)
      × (obj.name ≡ desired.name)
      × (obj.namespace ≡ desired.namespace)
  IsGuarded carry desired read (apply obj) =
      (live : Object S) × (read ≡ found live)
      × (is_managed live.labels ≡ true)
      × (obj.resource_version ≡ live.resource_version)
      × (obj.spec ≡ carry live.spec desired.spec)
      × (lookup managed_by_label obj.labels ≡ some managed_by_value)
      × (obj.name ≡ desired.name)
      × (obj.namespace ≡ desired.namespace)

  labelled :
      (seen : Sighting) (desired : Object S)
      → lookup managed_by_label (stamp_ownership seen desired).labels ≡ some managed_by_value
  unfolding stamp_ownership
  labelled seen desired =
      ground
        (arith, lookup-insert managed_by_label managed_by_label managed_by_value desired.labels)

  pub converted-All :
      (P : Write S → Type 0) (server : Server S) (obj : Object S) (e : Option ApiError)
      → P (apply obj)
      → All P (converted server obj e).1
  converted-All P server obj (some e) h = tt
  converted-All P server obj none h = (h, tt)

  -- Whatever the server answers, every write of applyManaged is a create where no object was found, or an
  -- apply over an object that bears this controller's label, with the version that was read.
  pub apply_managed-IsGuarded :
      (server : Server S) (seen : Sighting) (carry : S → S → S) (desired : Object S) (read : Read S)
      → All (IsGuarded carry desired read) (apply_managed server seen carry desired read).1
  unfolding apply_managed
  apply_managed-IsGuarded server seen carry desired (failed not_found) =
      ((refl, refl, labelled seen desired, refl, refl), tt)
  apply_managed-IsGuarded server seen carry desired (failed (other e)) = tt
  apply_managed-IsGuarded server seen carry desired (found live) =
      elim (Bool-cases (is_managed live.labels)) [
        | inl e ↦ rw e (
            converted-All (IsGuarded carry desired (found live)) server _ _
              (live, refl, e, refl, refl, labelled seen desired, refl, refl))
        | inr e ↦ rw e tt
      ]
