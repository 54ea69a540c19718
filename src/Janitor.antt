-- ===== src/Janitor.antt =====
-- internal/janitor: the controller tinkerbell-hardware-janitor. The objects that it reads: of a
-- Hardware the fields that the code looks at or writes, and beside them one (`agent_id`, `id`, `mac`,
-- `allow_workflow`) for those of each struct that it leaves alone.
pub mod Classify
pub mod Scrub
pub mod Reconcile
pub mod Race
mod Tests
use cluster_api_runtime_exte.Base.{ℕ, String, Bool, Option, List}
use cluster_api_runtime_exte.Base.Dict.{Dict}

abbrev pub owner_name_label : String
owner_name_label = "v1alpha1.tinkerbell.org/ownerName"

abbrev pub owner_namespace_label : String
owner_namespace_label = "v1alpha1.tinkerbell.org/ownerNamespace"

abbrev pub provisioned_annotation : String
provisioned_annotation = "v1alpha1.tinkerbell.org/provisioned"

abbrev pub scrubbed_at_annotation : String
scrubbed_at_annotation = "janitor.tinkerbell.org/scrubbed-at"

pub record Netboot : Type 0 where
  pub allow_pxe : Option Bool
  pub allow_workflow : Option Bool

pub record Interface : Type 0 where
  pub mac : String
  pub netboot : Option Netboot

pub record Instance : Type 0 where
  pub id : String
  pub operating_system : Option String
  pub state : String

-- tinkv1.Hardware. `instance` is `none` where Metadata or its Instance is nil.
pub record Hardware : Type 0 where
  pub name : String
  pub namespace : String
  pub resource_version : String
  pub labels : Dict String
  pub annotations : Dict String
  pub agent_id : String
  pub user_data : Option String
  pub instance : Option Instance
  pub interfaces : List Interface

-- Class
pub data Class : Type 0 where
  claimed never_claimed bootstrap_reserved half_released released : Class

-- Options, less the clock.
pub record Options : Type 0 where
  pub clear_os_metadata : Bool
  pub baseline_allow_pxe : Bool

-- The names that Scrub returns, interfaces by their number.
pub data Field : Type 0 where
  user_data_field operating_system_field state_field : Field
  allow_pxe_field : ℕ → Field
