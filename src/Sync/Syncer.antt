-- ===== src/Sync/Syncer.antt =====
-- Sync of internal/sync/syncer.go: the auth Secret, the Machine and the Hardware of a discovered
-- machine, one after the other. The answers of the API server to each kind are arguments.
pub mod Links
pub mod Sequence
use cluster_api_runtime_exte.Base.{
  ℕ, String, Bool, Option, none, some, List, [], ◌∷◌, ◌++◌, if◌then◌else◌,
}
use cluster_api_runtime_exte.Worker.{Credentials}
use cluster_api_runtime_exte.Sync.{Text, Endpoint}
use cluster_api_runtime_exte.Sync.Names.{is_empty, resource_name}
use cluster_api_runtime_exte.Sync.Template.{template_name}
use cluster_api_runtime_exte.Sync.Apply.{
  Object, ApiError, Read, Write, Sighting, Server, apply_managed,
}
use cluster_api_runtime_exte.Sync.Netboot.{Hardware, carry_netboot}
use cluster_api_runtime_exte.Sync.Mapping.{
  Device, SecretData, SecretReference, MachineSpec, HardwareOptions, desired_auth_secret,
  desired_machine, desired_hardware,
}

-- Syncer, less its client and clock.
pub record Syncer : Type 0 where
  pub namespace : String
  pub insecure_tls : Bool
  pub name_template : Text
  pub facility_code : String
  pub auto_enrollment : Bool

-- What the API server answers for the objects of one kind: to a read, by name, and to writes.
pub record Store (S : Type 0) : Type 0 where
  pub read : Text → Read S
  pub server : Server S

-- The API server.
pub record Cluster : Type 0 where
  pub secrets : Store SecretData
  pub machines : Store MachineSpec
  pub hardware : Store Hardware

pub data SyncError : Type 0 where
  unverified : SyncError
  syncing_secret : ApiError → SyncError
  syncing_machine : ApiError → SyncError
  syncing_hardware : ApiError → SyncError

-- A write, of one of the three kinds.
pub data SyncWrite : Type 0 where
  of_secret : Write SecretData → SyncWrite
  of_machine : Write MachineSpec → SyncWrite
  of_hardware : Write Hardware → SyncWrite

abbrev pub each : {A B : Type 0} → (A → B) → List A → List B
each f [] = []
each f (x ∷ xs) = f x ∷ each f xs

-- The name of the Machine and the Hardware: that of the template, or that of the endpoint.
unfoldable pub object_name : Syncer → Endpoint → Device → Text
object_name s ep dev =
    let name = template_name s.name_template ep dev in
    if is_empty name then resource_name ep else name

-- `name + "-bmc-auth"`
unfoldable pub auth_name : Text → Text
auth_name name = name ++ (b'-' ∷ b'b' ∷ b'm' ∷ b'c' ∷ b'-' ∷ b'a' ∷ b'u' ∷ b't' ∷ b'h' ∷ [])

-- The metadata of a desired object.
abbrev pub sparse : {S : Type 0} → Text → String → S → Object S
sparse name namespace spec = record {
  name = name;
  namespace = namespace;
  resource_version = "";
  labels = [];
  annotations = [];
  spec = spec;
}

-- What a sync returns, and its writes in order.
abbrev pub Synced : Type 0
Synced = Option SyncError × List SyncWrite

-- One of the three steps of Sync, and the others after it.
abbrev pub step :
    {S : Type 0}
    → (ApiError → SyncError)
    → (Write S → SyncWrite)
    → Option ApiError × List (Write S)
    → Synced
    → Synced
step failing of (some e, writes) rest = (some (failing e), each of writes)
step failing of (none, writes) (e, more) = (e, each of writes ++ more)

module _ (s : Syncer) (cluster : Cluster) (seen : Sighting) (ep : Endpoint) where
  abbrev pub apply_secret : Text → Credentials → Option ApiError × List (Write SecretData)
  apply_secret name creds =
      apply_managed cluster.secrets.server seen (λ live desired. desired)
        (sparse name s.namespace (desired_auth_secret creds)) (cluster.secrets.read name)

  abbrev pub apply_machine : Text → Text → Option ApiError × List (Write MachineSpec)
  apply_machine name auth =
      let ref : SecretReference = record { name = auth; namespace = s.namespace } in
      apply_managed cluster.machines.server seen (λ live desired. desired)
        (sparse name s.namespace (desired_machine ep s.insecure_tls ref))
        (cluster.machines.read name)

  abbrev pub apply_hardware : Text → Device → Option ApiError × List (Write Hardware)
  apply_hardware name dev =
      let opts : HardwareOptions = record {
        name = name;
        facility_code = s.facility_code;
        auto_enrollment = s.auto_enrollment;
      } in
      apply_managed cluster.hardware.server seen carry_netboot
        (sparse name s.namespace (desired_hardware dev opts none)) (cluster.hardware.read name)

  -- Sync: a nil device is `none`.
  unfoldable pub sync : Option Device → Credentials → Synced
  sync none creds = (some unverified, [])
  sync (some dev) creds =
      let name = object_name s ep dev in
      step syncing_secret of_secret (apply_secret (auth_name name) creds) (
        step syncing_machine of_machine (apply_machine name (auth_name name))
          (step syncing_hardware of_hardware (apply_hardware name dev) (none, [])))
