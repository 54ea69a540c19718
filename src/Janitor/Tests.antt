-- ===== src/Janitor/Tests.antt =====
-- A released Hardware, and the same with the marks of a claim, through the janitor.
use cluster_api_runtime_exte.Base.{
  differ, String, ◌≡◌, ◌≢◌, refl, true, false, Option, none, some, [], ◌∷◌, arith, ◌==◌, string_eq,
  nat_eq, if◌then◌else◌,
}
use cluster_api_runtime_exte.Base.Dict.{lookup}
use cluster_api_runtime_exte.Base.Lists.{All}
use cluster_api_runtime_exte.Janitor.{
  Interface, Hardware, Options, never_claimed, bootstrap_reserved, released, provisioned_annotation,
}
use cluster_api_runtime_exte.Janitor.Classify.{is_space, is_blank, has_user_data, classify}
use cluster_api_runtime_exte.Janitor.Scrub.{scrub}
use cluster_api_runtime_exte.Janitor.Scrub.Again.{scrub-classify}
use cluster_api_runtime_exte.Janitor.Reconcile.{ApiError, conflict, found, reconcile}
use cluster_api_runtime_exte.Janitor.Reconcile.Guard.{IsScrubbed, RefusesOld, reconcile_stale}

abbrev opts : Options
opts = record { clear_os_metadata = true; baseline_allow_pxe = false }

abbrev nic : Interface
nic = record {
  mac = "88:a2:9e:87:76:6c";
  netboot = some (record { allow_pxe = some true; allow_workflow = some true });
}

abbrev freed : Hardware
freed = record {
  name = "hw-1";
  namespace = "tinkerbell";
  resource_version = "7";
  labels = [];
  annotations = [];
  agent_id = "88:a2:9e:87:76:6c";
  user_data = some "#cloud-config";
  instance = some (record { id = "1"; operating_system = some "talos"; state = "provisioned" });
  interfaces = nic ∷ [];
}

-- The state that the bootstrap node has: no user data, and the annotation.
abbrev bootstrap : Hardware
bootstrap = record freed { user_data = none; annotations = (provisioned_annotation, "true") ∷ [] }

bootstrap-class : classify bootstrap ≡ bootstrap_reserved
unfolding classify has_user_data lookup string_eq
bootstrap-class = refl

blank-class : classify (record freed { user_data = some "  \n\t " }) ≡ never_claimed
unfolding classify has_user_data is_blank is_space lookup string_eq nat_eq
blank-class = refl

freed-class : classify freed ≡ released
unfolding classify has_user_data is_blank is_space lookup string_eq nat_eq
freed-class = refl

abbrev noon : String
noon = "2026-01-01T12:00:00Z"

abbrev later : String
later = "2026-01-01T12:05:00Z"

abbrev clean : Hardware
clean = record freed { user_data = none; instance = none; interfaces = [] }

clean-fields : (scrub opts noon clean).1 ≡ []
unfolding scrub
clean-fields = refl

scrub-classify_example :
    (classify (scrub opts noon freed).0 ≡ never_claimed) × ((scrub opts noon freed).1 ≢ [])
scrub-classify_example = scrub-classify opts noon freed freed-class

-- The Hardware as a claim in between has left it.
abbrev reclaimed : Hardware
reclaimed = record freed {
  resource_version = "8";
  labels = ("v1alpha1.tinkerbell.org/ownerName", "machine-1") ∷ [];
}

abbrev answer : Hardware → Option ApiError
answer sent = if sent.resource_version == "8" then none else some conflict

answer-RefusesOld : RefusesOld opts noon answer reclaimed
answer-RefusesOld sent n = ground arith

seven-ne-eight : freed.resource_version ≢ reclaimed.resource_version
unfolding string_eq
seven-ne-eight = differ "7" "8" refl

reconcile_stale_example :
    let (e, actions) = reconcile opts noon answer "tinkerbell" "hw-1" (found freed) in
    (e ≡ some conflict) × All (λ a. ¬ IsScrubbed opts noon answer a) actions
reconcile_stale_example =
    reconcile_stale opts noon answer "tinkerbell" "hw-1" freed reclaimed answer-RefusesOld
      seven-ne-eight freed-class
