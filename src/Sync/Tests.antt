-- ===== src/Sync/Tests.antt =====
-- Names of discovered machines, and syncs over a live Hardware.
use cluster_api_runtime_exte.Base.{
  String, Option, none, some, string_eq, ◌≡◌, refl, true, false, [], ◌∷◌, arith, nat_eq,
}
use cluster_api_runtime_exte.Base.Dict.{Dict}
use cluster_api_runtime_exte.Base.Lists.{All}
use cluster_api_runtime_exte.Sync.Apply.{
  Object, found, Sighting, Server, managed_by_label, apply_managed,
}
use cluster_api_runtime_exte.Sync.Apply.Guard.{IsGuarded, apply_managed-IsGuarded}
use cluster_api_runtime_exte.Sync.Netboot.{Netboot, Interface, Hardware, carry_netboot}
use cluster_api_runtime_exte.Sync.Netboot.Kept.{Keeps, apply_managed-Keeps}
use cluster_api_runtime_exte.Sync.{Text}
use cluster_api_runtime_exte.Sync.Names.{sanitize_name}

-- "-My BMC_1-"
abbrev rough : Text
rough = b'-' ∷ b'M' ∷ b'y' ∷ b' ' ∷ b'B' ∷ b'M' ∷ b'C' ∷ b'_' ∷ b'1' ∷ b'-' ∷ []

-- "my-bmc-1"
abbrev smooth : Text
smooth = b'm' ∷ b'y' ∷ b'-' ∷ b'b' ∷ b'm' ∷ b'c' ∷ b'-' ∷ b'1' ∷ []

rough-smooth : sanitize_name rough ≡ smooth
unfolding sanitize_name nat_eq
rough-smooth = refl

-- "__"
abbrev bare : Text
bare = b'_' ∷ b'_' ∷ []

bare-nil : sanitize_name bare ≡ []
unfolding sanitize_name nat_eq
bare-nil = refl

-- "88:a2:9e:87:76:6c"
abbrev pub mac : Text
mac =
    b'8' ∷ b'8' ∷ b':' ∷ b'a' ∷ b'2' ∷ b':' ∷ b'9' ∷ b'e' ∷ b':' ∷ b'8' ∷ b'7' ∷ b':' ∷ b'7' ∷ b'6'
    ∷ b':' ∷ b'6' ∷ b'c' ∷ []

abbrev disarmed : Netboot
disarmed = record { allow_pxe = some false; allow_workflow = some true }

abbrev nic : Option Netboot → Interface
nic b = record { mac = mac; hostname = smooth; netboot = b }

abbrev hardware : Option Netboot → Dict String → Object Hardware
hardware b labels = record {
  name = smooth;
  namespace = "tinkerbell";
  resource_version = "7";
  labels = labels;
  annotations = [];
  spec = record {
    agent_id = mac;
    enrollment_enabled = false;
    bmc_ref = smooth;
    manufacturer = b'a' ∷ [];
    instance_id = mac;
    hostname = smooth;
    facility_code = none;
    interfaces = nic b ∷ [];
    disks = [];
  };
}

abbrev ours : Object Hardware
ours = hardware (some disarmed) ((managed_by_label, "tinkerbell-bmc-discovery-controller") ∷ [])

abbrev wanted : Object Hardware
wanted = hardware none []

abbrev seen : Sighting
seen = record {
  last_seen = "2026-01-01T12:00:00Z";
  instance_name = "my-bmc-1";
  service = "_redfish._tcp";
}

abbrev willing : Server Hardware
willing = record { answer_create = λ o. none; convert = λ o. none; answer_apply = λ o. none }

apply_managed-IsGuarded_example :
    All
      (IsGuarded carry_netboot wanted (found ours))
      (apply_managed willing seen carry_netboot wanted (found ours)).1
apply_managed-IsGuarded_example =
    apply_managed-IsGuarded willing seen carry_netboot wanted (found ours)

apply_managed-Keeps_example :
    All (Keeps disarmed) (apply_managed willing seen carry_netboot wanted (found ours)).1
apply_managed-Keeps_example =
    apply_managed-Keeps willing seen wanted ours disarmed refl (λ e. absurd (ground arith))
