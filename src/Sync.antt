-- ===== src/Sync.antt =====
-- internal/sync: the discovery controller's mapping of discovered machines to Tinkerbell's objects.
-- A text that a name is made of is the list of its code points.
pub mod Names
pub mod Apply
pub mod Race
pub mod Netboot
pub mod Mapping
pub mod Template
pub mod Syncer
pub mod Scenario
mod Tests
mod Runs
use cluster_api_runtime_exte.Base.{ℕ, String, List}

abbrev pub Text : Type 0
Text = List ℕ

-- mdns.Endpoint, with the address as its text.
pub record Endpoint : Type 0 where
  pub instance_name : Text
  pub hostname : Text
  pub service : String
  pub ip : Text
  pub port : ℕ
