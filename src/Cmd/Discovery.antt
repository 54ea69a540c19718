-- ===== src/Cmd/Discovery.antt =====
-- cmd/main.go: the discovery controller.
pub mod Interfaces
use Prim.Native.Char.{Char, code}
use cluster_api_runtime_exte.Base.{
  seconds, ℕ, ◌*◌, String, Bool, true, false, Option, none, some, List, [], ◌∷◌, ◌==◌, string_eq,
  if◌then◌else◌,
}
use cluster_api_runtime_exte.Base.Dict.{Dict}
use cluster_api_runtime_exte.Janitor.Classify.{is_space}
use cluster_api_runtime_exte.Worker.{Credentials}
use cluster_api_runtime_exte.Worker.Handle.{code_points}
use cluster_api_runtime_exte.Inventory.{split, parse_defaults}
use cluster_api_runtime_exte.Sync.Syncer.{Syncer}

-- strings.TrimSpace, of the spaces in front.
unfoldable pub trim_front : String → String
trim_front String.[] = ""
trim_front (String.◌∷◌ c s) =
    let rest = trim_front s in if is_space (code c) then rest else String.◌∷◌ c s

abbrev pub put_front : Char → String → String
put_front c s =
    if s == "" then (if is_space (code c) then "" else String.◌∷◌ c "") else String.◌∷◌ c s

-- strings.TrimSpace, of the spaces at the end.
unfoldable pub trim_end : String → String
trim_end String.[] = ""
trim_end (String.◌∷◌ c s) = put_front c (trim_end s)

abbrev pub trim_space : String → String
trim_space s = trim_front (trim_end s)

-- The loop of splitNonEmpty.
unfoldable pub non_empty : List String → List String
non_empty [] = []
non_empty (part ∷ rest) =
    let more = non_empty rest in if trim_space part == "" then more else trim_space part ∷ more

-- splitNonEmpty
unfoldable pub split_non_empty : String → List String
split_non_empty s = non_empty (split s)

-- The flags.
pub record Flags : Type 0 where
  pub namespace : String
  pub service_types : String
  pub mdns_domain : String
  pub mdns_interfaces : String
  pub browse_interval : ℕ
  pub browse_window : ℕ
  pub resync_interval : ℕ
  pub collect_timeout : ℕ
  pub credentials_secret : String
  pub default_credentials : String
  pub name_template : String
  pub facility_code : String
  pub auto_enrollment : Bool
  pub redfish_port : ℕ
  pub insecure_tls : Bool
  pub leader_elect : Bool
  pub metrics_addr : String
  pub probe_addr : String
  pub log_level : String
  pub log_format : String

-- The flags where none is given.
abbrev pub default_flags : Flags
default_flags = record {
  namespace = "tink";
  service_types = "_redfish._tcp,_obmc_redfish._tcp";
  mdns_domain = "local.";
  mdns_interfaces = "";
  browse_interval = seconds 300;
  browse_window = seconds 30;
  resync_interval = seconds 3600;
  collect_timeout = seconds 120;
  credentials_secret = "bmc-discovery-credentials";
  default_credentials =
      "*=admin:admin,_obmc_console._tcp=root:0penBmc,_obmc_redfish._tcp=root:0penBmc";
  name_template = "";
  facility_code = "onprem";
  auto_enrollment = false;
  redfish_port = 0;
  insecure_tls = true;
  leader_elect = false;
  metrics_addr = ":8080";
  probe_addr = ":8081";
  log_level = "info";
  log_format = "json";
}

-- The fields that main gives the Worker, its browser, its collector and its Syncer.
pub record WorkerSettings : Type 0 where
  pub service_types : List String
  pub domain : String
  pub interval : ℕ
  pub window : ℕ
  pub interfaces : List String
  pub timeout : ℕ
  pub syncer : Syncer
  pub secret_namespace : String
  pub secret_name : String
  pub default_credentials : Dict Credentials
  pub resync_interval : ℕ
  pub redfish_port : ℕ

abbrev pub settings_with : Flags → Option (Dict Credentials) → Option WorkerSettings
settings_with f none = none
settings_with f (some defaults) = some (record {
  service_types = split f.service_types;
  domain = f.mdns_domain;
  interval = f.browse_interval;
  window = f.browse_window;
  interfaces = split_non_empty f.mdns_interfaces;
  timeout = f.collect_timeout;
  syncer = record {
    namespace = f.namespace;
    insecure_tls = f.insecure_tls;
    name_template = code_points f.name_template;
    facility_code = f.facility_code;
    auto_enrollment = f.auto_enrollment;
  };
  secret_namespace = f.namespace;
  secret_name = f.credentials_secret;
  default_credentials = defaults;
  resync_interval = f.resync_interval;
  redfish_port = f.redfish_port;
})

-- The Worker that main makes: `none` where it exits as the default credentials are refused.
unfoldable pub worker_settings : Flags → Option WorkerSettings
worker_settings f = settings_with f (parse_defaults f.default_credentials)
