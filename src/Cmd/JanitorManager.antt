-- ===== src/Cmd/JanitorManager.antt =====
-- cmd/tinkerbell-hardware-janitor/main.go.
use cluster_api_runtime_exte.Base.{ℕ, String, Bool, true, false, not, seconds}
use cluster_api_runtime_exte.Base.Dict.{Dict, has}
use cluster_api_runtime_exte.Janitor.{Options, owner_name_label}

-- The flags.
pub record JanitorFlags : Type 0 where
  pub namespace : String
  pub clear_os_metadata : Bool
  pub baseline_allow : Bool
  pub resync_period : ℕ
  pub leader_elect : Bool
  pub metrics_addr : String
  pub probe_addr : String
  pub log_level : String
  pub log_format : String

-- The flags where none is given.
abbrev pub default_janitor_flags : JanitorFlags
default_janitor_flags = record {
  namespace = "tinkerbell";
  clear_os_metadata = true;
  baseline_allow = false;
  resync_period = seconds 3600;
  leader_elect = true;
  metrics_addr = ":8080";
  probe_addr = ":8081";
  log_level = "info";
  log_format = "json";
}

-- The options that main gives the Reconciler.
unfoldable pub janitor_options : JanitorFlags → Options
janitor_options f = record {
  clear_os_metadata = f.clear_os_metadata;
  baseline_allow_pxe = f.baseline_allow;
}

-- The label selector "!" + OwnerNameLabel: which Hardware the informer holds.
unfoldable pub is_watched : Dict String → Bool
is_watched labels = not (has owner_name_label labels)
