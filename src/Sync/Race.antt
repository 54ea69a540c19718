-- ===== src/Sync/Race.antt =====
-- applyManaged of internal/sync/syncer.go and all other writers of one object on the API server. The server
-- creates an object only where there is none, takes an apply only with the version that it stores, and
-- gives each write a version that the object has not had. What an apply makes of the stored object is
-- `merge`. The Syncer reads from a cache, which may show any state that the object has had, or none.
pub mod Owned
mod Tests
use cluster_api_runtime_exte.Base.{
  String, ◌≡◌, Option, none, some, List, [], ◌∷◌, ◌++◌, ◌==◌, string_eq, if◌then◌else◌,
}
use cluster_api_runtime_exte.Base.Lists.{IsIn}
use cluster_api_runtime_exte.Base.Versions.{IsFresh}
use cluster_api_runtime_exte.Sync.Apply.{
  Object, ApiError, not_found, other, Read, found, failed, Write, create, apply, Sighting, Server,
  apply_managed,
}

-- What is stored, all states that were stored, and what the Sync that runs has read.
pub record Shared (S : Type 0) : Type 0 where
  pub stored : Option (Object S)
  pub past : List (Object S)
  pub read : Option (Read S)

module _ {S : Type 0} where
  abbrev pub version_of : Object S → String
  version_of obj = obj.resource_version

  abbrev pub answer_create : Option (Object S) → Option ApiError
  answer_create none = none
  answer_create (some _) = some (other "AlreadyExists")

  abbrev pub answer_apply : Option (Object S) → Object S → Option ApiError
  answer_apply none obj = some not_found
  answer_apply (some live) obj =
      if obj.resource_version == live.resource_version then none else some (other "Conflict")

  -- The server that stores this object, with what the conversion answers.
  abbrev pub server_of : (Object S → Option ApiError) → Option (Object S) → Server S
  server_of convert stored = record {
    answer_create = λ obj. answer_create stored;
    convert = convert;
    answer_apply = answer_apply stored;
  }

  abbrev pub listed : Option (Object S) → List (Object S)
  listed none = []
  listed (some obj) = obj ∷ []

  abbrev pub store : Option (Object S) → Shared S → Shared S
  store obj s = record s { stored = obj; past = listed obj ++ s.past }

  module _ (merge : Object S → Object S → Object S) where
    abbrev pub after_create : String → Object S → Option (Object S) → Option (Object S)
    after_create version obj none = some (record obj { resource_version = version })
    after_create version obj (some live) = some live

    abbrev pub after_apply : String → Object S → Option (Object S) → Option (Object S)
    after_apply version obj none = none
    after_apply version obj (some live) =
        if obj.resource_version == live.resource_version
        then some (record (merge live obj) { resource_version = version })
        else some live

    -- What is stored after these writes, the first first.
    unfoldable pub stored_after : String → List (Write S) → Option (Object S) → Option (Object S)
    stored_after version [] stored = stored
    stored_after version (create obj ∷ rest) stored =
        stored_after version rest (after_create version obj stored)
    stored_after version (apply obj ∷ rest) stored =
        stored_after version rest (after_apply version obj stored)

    -- The rest of an applyManaged that has read this.
    unfoldable pub written :
        (Object S → Option ApiError)
        → Sighting
        → (S → S → S)
        → Object S
        → String
        → Option (Object S)
        → Read S
        → Option (Object S)
    written convert seen carry desired version stored read =
        stored_after version (apply_managed (server_of convert stored) seen carry desired read).1
          stored

    pub data Reach : Shared S → Type 0 where
      at_start :
          (stored : Option (Object S))
          → Reach (record { stored = stored; past = listed stored; read = none })
      changed :
          {s : Shared S} (obj : Object S)
          → IsFresh version_of obj.resource_version s.past
          → Reach s
          → Reach (store (some obj) s)
      deleted : {s : Shared S} → Reach s → Reach (store none s)
      fetched :
          {s : Shared S} (obj : Object S)
          → IsIn obj s.past
          → Reach s
          → Reach (record s { read = some (found obj) })
      missed : {s : Shared S} (e : ApiError) → Reach s → Reach (record s { read = some (failed e) })
      synced :
          {s : Shared S} (convert : Object S → Option ApiError) (seen : Sighting)
          (carry : S → S → S) (desired : Object S) (version : String) (read : Read S)
          → s.read ≡ some read
          → IsFresh version_of version s.past
          → Reach s
          → Reach (record (store (written convert seen carry desired version s.stored read) s) {
            read = none;
          })
