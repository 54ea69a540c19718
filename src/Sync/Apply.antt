-- ===== src/Sync/Apply.antt =====
-- applyManaged and stampOwnership of internal/sync/syncer.go, for an object of any kind: of it the
-- metadata that the code reads or writes, and its spec. The API server's answers are arguments: of the
-- read, of a create, of the conversion to an apply configuration, and of an apply.
pub mod Guard
use cluster_api_runtime_exte.Base.{
  String, Bool, true, false, Option, none, some, List, [], ◌∷◌, ◌==◌, string_eq, if◌then◌else◌,
}
use cluster_api_runtime_exte.Base.Dict.{Dict, lookup, insert}
use cluster_api_runtime_exte.Sync.{Text}

abbrev pub managed_by_label : String
managed_by_label = "discovery.tinkerbell.org/managed-by"

abbrev pub managed_by_value : String
managed_by_value = "tinkerbell-bmc-discovery-controller"

abbrev pub last_seen_annotation : String
last_seen_annotation = "discovery.tinkerbell.org/last-seen"

abbrev pub instance_annotation : String
instance_annotation = "discovery.tinkerbell.org/mdns-instance"

abbrev pub service_annotation : String
service_annotation = "discovery.tinkerbell.org/mdns-service"

pub record Object (S : Type 0) : Type 0 where
  pub name : Text
  pub namespace : String
  pub resource_version : String
  pub labels : Dict String
  pub annotations : Dict String
  pub spec : S

-- The errors that the code tells apart.
pub data ApiError : Type 0 where
  not_found : ApiError
  other : String → ApiError

pub data Read (S : Type 0) : Type 0 where
  found : Object S → Read S
  failed : ApiError → Read S

pub data Write (S : Type 0) : Type 0 where
  create apply : Object S → Write S

-- The time of the sync as text, and what the endpoint advertises.
pub record Sighting : Type 0 where
  pub last_seen : String
  pub instance_name : String
  pub service : String

abbrev pub owner_of : Option String → String
owner_of none = ""
owner_of (some owner) = owner

-- `live.GetLabels()[ManagedByLabel] == ManagedByValue`
unfoldable pub is_managed : Dict String → Bool
is_managed labels = owner_of (lookup managed_by_label labels) == managed_by_value

-- What is asked of the server after the read. `carry` takes the live spec and the desired one.
pub record Server (S : Type 0) : Type 0 where
  pub answer_create : Object S → Option ApiError
  pub convert : Object S → Option ApiError
  pub answer_apply : Object S → Option ApiError

module _ {S : Type 0} where
  -- stampOwnership
  unfoldable pub stamp_ownership : Sighting → Object S → Object S
  stamp_ownership seen obj = record obj {
    labels = insert managed_by_label managed_by_value obj.labels;
    annotations = insert service_annotation seen.service (
        insert instance_annotation seen.instance_name
          (insert last_seen_annotation seen.last_seen obj.annotations));
  }

  abbrev pub converted : Server S → Object S → Option ApiError → Option ApiError × List (Write S)
  converted server obj (some e) = (some e, [])
  converted server obj none = (server.answer_apply obj, apply obj ∷ [])

  -- applyConfigurationFor and Apply
  unfoldable pub submit : Server S → Object S → Option ApiError × List (Write S)
  submit server obj = converted server obj (server.convert obj)

  -- applyManaged: the error that it returns, and the writes.
  unfoldable pub apply_managed :
      Server S → Sighting → (S → S → S) → Object S → Read S → Option ApiError × List (Write S)
  unfolding stamp_ownership submit
  apply_managed server seen carry desired (failed not_found) =
      let obj = stamp_ownership seen desired in (server.answer_create obj, create obj ∷ [])
  apply_managed server seen carry desired (failed (other e)) = (some (other e), [])
  apply_managed server seen carry desired (found live) =
      let obj = stamp_ownership seen desired in
      if is_managed live.labels
      then submit server
          (record obj { spec = carry live.spec obj.spec; resource_version = live.resource_version })
      else (none, [])
