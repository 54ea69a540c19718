-- ===== src/Sync/Netboot.antt =====
-- netbootFor (internal/sync/mapping.go) and the function `carry` of Sync (syncer.go): the netboot state
-- that the tink workflow controller keeps in Hardware.
pub mod Kept
use cluster_api_runtime_exte.Base.{String, ◌≡◌, refl, Bool, true, Option, none, some, List, [], ◌∷◌}
use cluster_api_runtime_exte.Sync.{Text}

pub record Netboot : Type 0 where
  pub allow_pxe : Option Bool
  pub allow_workflow : Option Bool

-- tinkv1.Interface, with the DHCP fields that discovery writes.
pub record Interface : Type 0 where
  pub mac : Text
  pub hostname : Text
  pub netboot : Option Netboot

-- tinkv1.HardwareSpec: the fields that discovery writes. `bmc_ref` is the name of the Machine, of the
-- group bmc.tinkerbell.org/v1alpha1; `none` is a facility that is left out.
pub record Hardware : Type 0 where
  pub agent_id : Text
  pub enrollment_enabled : Bool
  pub bmc_ref : Text
  pub manufacturer : Text
  pub instance_id : Text
  pub hostname : Text
  pub facility_code : Option String
  pub interfaces : List Interface
  pub disks : List String

-- The defaults that are written on creation.
abbrev pub created_netboot : Netboot
created_netboot = record { allow_pxe = some true; allow_workflow = some true }

abbrev pub first_netboot : List Interface → Option Netboot
first_netboot [] = none
first_netboot (i ∷ _) = i.netboot

abbrev or_default : Option Netboot → Netboot
or_default none = created_netboot
or_default (some b) = b

-- netbootFor, of a live Hardware.
unfoldable pub netboot_for : Hardware → Netboot
netboot_for live = or_default (first_netboot live.interfaces)

abbrev pub with_netboot : Netboot → List Interface → List Interface
with_netboot b [] = []
with_netboot b (i ∷ rest) = record i { netboot = some b } ∷ rest

-- carry: the desired Hardware with the live netboot.
unfoldable pub carry_netboot : Hardware → Hardware → Hardware
carry_netboot live desired = record desired {
  interfaces = with_netboot (netboot_for live) desired.interfaces;
}
