-- ===== src/Sync/Race/Tests.antt =====
-- The label is taken off an object between the read and the apply of a Sync.
use cluster_api_runtime_exte.Base.{differ, ℕ, ◌≢◌, refl, some, none, [], ◌∷◌, string_eq}
use cluster_api_runtime_exte.Base.Lists.{at_head}
use cluster_api_runtime_exte.Sync.Apply.{
  Object, found, Sighting, managed_by_label, managed_by_value,
}
use cluster_api_runtime_exte.Sync.Race.{Shared, Reach, at_start, changed, fetched, written}
use cluster_api_runtime_exte.Sync.Race.Owned.{IsOwned, Reach-IsOwned}

abbrev ours : Object ℕ
ours = record {
  name = [];
  namespace = "tinkerbell";
  resource_version = "5";
  labels = (managed_by_label, managed_by_value) ∷ [];
  annotations = [];
  spec = 1;
}

abbrev stripped : Object ℕ
stripped = record ours { resource_version = "6"; labels = [] }

abbrev sighting : Sighting
sighting = record {
  last_seen = "2026-01-01T12:00:00Z";
  instance_name = "n1";
  service = "_redfish._tcp";
}

abbrev raced : Shared ℕ
raced = record { stored = some stripped; past = stripped ∷ ours ∷ []; read = some (found ours) }

versions_differ : ours.resource_version ≢ stripped.resource_version
unfolding string_eq
versions_differ = differ "5" "6" refl

raced-Reach : Reach (λ live obj. obj) raced
raced-Reach = changed stripped (versions_differ, tt) (fetched ours at_head (at_start (some ours)))

Reach-IsOwned_example : IsOwned "7" (some stripped) (
    written
      (λ live obj. obj)
      (λ obj. none)
      sighting
      (λ live spec. spec)
      ours
      "7"
      (some stripped)
      (found ours))
Reach-IsOwned_example =
    Reach-IsOwned (λ live obj. obj) (λ obj. none) sighting (λ live spec. spec) ours "7" (found ours)
      raced-Reach refl
