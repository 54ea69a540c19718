-- ===== src/Janitor/Race.antt =====
-- The janitor of internal/janitor/reconciler.go and all other writers of one Hardware on the API server,
-- which takes an update only with the version that it stores, and gives each write a version that no
-- write has had. The janitor reads from its cache, which may show any state that the Hardware has had.
pub mod Claims
mod Tests
use cluster_api_runtime_exte.Base.{
  String, ◌≡◌, ◌≢◌, Option, none, some, List, [], ◌∷◌, ◌==◌, string_eq, if◌then◌else◌,
}
use cluster_api_runtime_exte.Base.Versions.{IsFresh}
use cluster_api_runtime_exte.Base.Lists.{All, IsIn}
use cluster_api_runtime_exte.Janitor.{Hardware, Options}
use cluster_api_runtime_exte.Janitor.Reconcile.{
  ApiError, conflict, found, Action, update, reconcile,
}

-- The answer to an update.
abbrev pub answer : Hardware → Hardware → Option ApiError
answer stored sent =
    if sent.resource_version == stored.resource_version then none else some conflict

-- What is stored after these calls, if a write gets this version.
unfoldable pub stored_after : String → Hardware → List Action → Hardware
stored_after version stored [] = stored
stored_after version stored (update sent ∷ rest) =
    let kept = stored_after version stored rest in
    if sent.resource_version == stored.resource_version
    then record sent { resource_version = version }
    else kept
stored_after version stored (_ ∷ rest) = stored_after version stored rest

-- What is stored, all states that it has had, the stored one included, and what the Reconcile that
-- runs has read.
pub record Shared : Type 0 where
  pub stored : Hardware
  pub past : List Hardware
  pub read : Option Hardware

abbrev pub version_of : Hardware → String
version_of hw = hw.resource_version

-- The rest of a Reconcile that has read this Hardware.
unfoldable pub written : Options → String → String → Hardware → Hardware → Hardware
written opts now version stored hw =
    stored_after version stored
      (reconcile opts now (answer stored) hw.namespace hw.name (found hw)).1

abbrev pub store : Hardware → Shared → Shared
store hw s = record s { stored = hw; past = hw ∷ s.past }

pub data Reach : Shared → Type 0 where
  created : (hw : Hardware) → Reach (record { stored = hw; past = hw ∷ []; read = none })
  -- A claim, a release, or any other write of another.
  changed :
      {s : Shared} (hw : Hardware)
      → IsFresh version_of hw.resource_version s.past
      → Reach s
      → Reach (store hw s)
  -- Get
  fetched :
      {s : Shared} (hw : Hardware) → IsIn hw s.past → Reach s → Reach (record s { read = some hw })
  reconciled :
      {s : Shared} (opts : Options) (now version : String) (hw : Hardware)
      → s.read ≡ some hw
      → IsFresh version_of version s.past
      → Reach s
      → Reach (record (store (written opts now version s.stored hw) s) { read = none })
