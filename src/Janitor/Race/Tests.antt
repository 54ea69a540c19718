-- ===== src/Janitor/Race/Tests.antt =====
-- A claim that arrives between the read and the update of a reconcile.
use cluster_api_runtime_exte.Base.{differ, true, false, ◌≢◌, refl, some, none, [], ◌∷◌, string_eq}
use cluster_api_runtime_exte.Base.Lists.{at_head}
use cluster_api_runtime_exte.Janitor.{Hardware, Options}
use cluster_api_runtime_exte.Janitor.Race.{Shared, Reach, created, changed, fetched, written}
use cluster_api_runtime_exte.Janitor.Race.Claims.{IsSpared, Reach-IsSpared}

abbrev lax : Options
lax = record { clear_os_metadata = false; baseline_allow_pxe = true }

abbrev free : Hardware
free = record {
  name = "rack-1";
  namespace = "tinkerbell";
  resource_version = "41";
  labels = [];
  annotations = [];
  agent_id = "rack-1";
  user_data = some "machine: worker";
  instance = none;
  interfaces = [];
}

abbrev taken : Hardware
taken = record free {
  resource_version = "42";
  labels = ("v1alpha1.tinkerbell.org/ownerName", "machine-2") ∷ [];
  user_data = some "machine: controlplane";
}

abbrev raced : Shared
raced = record { stored = taken; past = taken ∷ free ∷ []; read = some free }

versions_differ : free.resource_version ≢ taken.resource_version
unfolding string_eq
versions_differ = differ "41" "42" refl

raced-Reach : Reach raced
raced-Reach = changed taken (versions_differ, tt) (fetched free at_head (created free))

Reach-IsSpared_example : IsSpared lax "now" "43" taken (written lax "now" "43" taken free)
Reach-IsSpared_example = Reach-IsSpared lax "now" "43" free raced-Reach refl
