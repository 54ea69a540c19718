-- ===== src/Sync/Mapping.antt =====
-- internal/sync/mapping.go: the desired objects of a discovered machine.
pub mod Macs
use cluster_api_runtime_exte.Base.{
  ℕ, zero, suc, String, Bool, true, false, not, ◌&&◌, ◌||◌, Option, none, some, List, [], ◌∷◌, ◌++◌,
  leb, ◌==◌, string_eq, nat_eq, list_eq, if◌then◌else◌,
}
use cluster_api_runtime_exte.Base.Dict.{Dict}
use cluster_api_runtime_exte.Base.Lists.{any}
use cluster_api_runtime_exte.Worker.{Credentials}
use cluster_api_runtime_exte.Sync.{Text, Endpoint}
use cluster_api_runtime_exte.Sync.Names.{to_lower, is_empty, sanitize_name}
use cluster_api_runtime_exte.Sync.Netboot.{
  Netboot, Interface, Hardware, created_netboot, netboot_for,
}

-- common.NICPort, common.NIC and common.Drive; `none` is a nil pointer.
pub record Port : Type 0 where
  pub mac_address : Text

pub record Nic : Type 0 where
  pub ports : List (Option Port)

pub record Drive : Type 0 where
  pub logical_name : String

-- common.Device
pub record Device : Type 0 where
  pub vendor : Text
  pub serial : Text
  pub nics : List (Option Nic)
  pub drives : List (Option Drive)

abbrev pub is_hex : ℕ → Bool
is_hex c = (leb b'0' c && leb c b'9') || (leb b'a' c && leb c b'f')

-- `^([0-9a-f]{2}:){n}[0-9a-f]{2}$`
unfoldable pub is_pairs : ℕ → Text → Bool
is_pairs zero (a ∷ b ∷ []) = is_hex a && is_hex b
is_pairs (suc n) (a ∷ b ∷ c ∷ s) = is_hex a && is_hex b && c == b':' && is_pairs n s
is_pairs _ _ = false

-- macPattern.MatchString
unfoldable pub is_mac : Text → Bool
is_mac s = is_pairs 5 s

-- strings.ToLower
unfoldable pub lower : Text → Text
lower [] = []
lower (c ∷ s) = to_lower c ∷ lower s

abbrev pub contains : Text → List Text → Bool
contains mac = any (λ seen. seen == mac)

-- The variables of inbandMACs.
pub record Found : Type 0 where
  pub macs : List Text
  pub seen : List Text

-- The turn of the inner loop, for the lowered MAC of a port.
unfoldable pub take_mac : Text → Found → Found
take_mac mac found =
    if not (is_mac mac) || contains mac found.seen
    then found
    else record { macs = found.macs ++ (mac ∷ []); seen = mac ∷ found.seen }

-- The inner loop of inbandMACs.
unfoldable pub over_ports : List (Option Port) → Found → Found
over_ports [] found = found
over_ports (none ∷ rest) found = over_ports rest found
over_ports (some port ∷ rest) found = over_ports rest (take_mac (lower port.mac_address) found)

-- The outer loop of inbandMACs.
unfoldable pub over_nics : List (Option Nic) → Found → Found
over_nics [] found = found
over_nics (none ∷ rest) found = over_nics rest found
over_nics (some nic ∷ rest) found = over_nics rest (over_ports nic.ports found)

-- inbandMACs
unfoldable pub inband_macs : Device → List Text
inband_macs dev = (over_nics dev.nics (record { macs = []; seen = [] })).macs

abbrev pub first_or_nothing : List Text → Text
first_or_nothing [] = []
first_or_nothing (mac ∷ _) = mac

-- PrimaryMAC
unfoldable pub primary_mac : Device → Text
primary_mac dev = first_or_nothing (inband_macs dev)

-- The spec of the auth Secret: its data.
abbrev pub SecretData : Type 0
SecretData = Dict String

-- DesiredAuthSecret
abbrev pub desired_auth_secret : Credentials → SecretData
desired_auth_secret creds = ("username", creds.username) ∷ ("password", creds.password) ∷ []

-- corev1.SecretReference
pub record SecretReference : Type 0 where
  pub name : Text
  pub namespace : String

-- bmcv1.MachineSpec, as far as discovery writes it.
pub record MachineSpec : Type 0 where
  pub host : Text
  pub port : ℕ
  pub auth_secret_ref : SecretReference
  pub insecure_tls : Bool
  pub preferred_order : List String
  pub redfish_port : ℕ
  pub use_basic_auth : Bool

-- DesiredMachine
unfoldable pub desired_machine : Endpoint → Bool → SecretReference → MachineSpec
desired_machine ep insecure_tls auth_ref = record {
  host = ep.ip;
  port = ep.port;
  auth_secret_ref = auth_ref;
  insecure_tls = insecure_tls;
  preferred_order = "gofish" ∷ [];
  redfish_port = ep.port;
  use_basic_auth = true;
}

-- HardwareOptions, less the namespace, which only the metadata takes.
pub record HardwareOptions : Type 0 where
  pub name : Text
  pub facility_code : String
  pub auto_enrollment : Bool

abbrev pub live_netboot : Option Hardware → Netboot
live_netboot none = created_netboot
live_netboot (some live) = netboot_for live

-- The loop over the drives.
unfoldable pub disks_of : List (Option Drive) → List String
disks_of [] = []
disks_of (none ∷ rest) = disks_of rest
disks_of (some drive ∷ rest) =
    let more = disks_of rest in if drive.logical_name == "" then more else drive.logical_name ∷ more

-- DesiredHardware
unfoldable pub desired_hardware : Device → HardwareOptions → Option Hardware → Hardware
desired_hardware dev opts live =
    let mac = primary_mac dev in
    record {
      agent_id = mac;
      enrollment_enabled = opts.auto_enrollment;
      bmc_ref = opts.name;
      manufacturer = sanitize_name dev.vendor;
      instance_id = if is_empty mac then dev.serial else mac;
      hostname = opts.name;
      facility_code = if opts.facility_code == "" then none else some opts.facility_code;
      interfaces =
          if is_empty mac
          then []
          else record { mac = mac; hostname = opts.name; netboot = some (live_netboot live) } ∷ [];
      disks = disks_of dev.drives;
    }
