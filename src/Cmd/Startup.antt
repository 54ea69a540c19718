-- ===== src/Cmd/Startup.antt =====
-- What the mains of the three commands ask of the libraries until the manager runs, in their order. The
-- libraries answer with an error or nil, which may depend on all that was asked before. An error ends
-- the process with status 1 and a message; `flag.Parse` and the log's own output are left out.
pub mod Mains
pub mod FailFast
use cluster_api_runtime_exte.Base.{ℕ, String, Bool, Option, none, some, List, [], ◌∷◌}
use cluster_api_runtime_exte.Janitor
use cluster_api_runtime_exte.Logging.{Made, made, unknown_level, unknown_format}
use cluster_api_runtime_exte.Cmd.Discovery.{WorkerSettings}

-- The AddToScheme of an API group.
pub data Group : Type 0 where
  client_go bmc tinkerbell cluster_api : Group

pub data Uncached : Type 0 where
  secrets hardware : Uncached

-- ctrl.Options, as far as the mains set them. No namespaces are all namespaces.
pub record ManagerOptions : Type 0 where
  pub metrics : String
  pub probe : String
  pub leader_election : Bool
  pub leader_election_id : String
  pub leader_election_namespace : String
  pub namespaces : List String
  pub sync_period : Option ℕ
  pub hardware_selector : Option String
  pub uncached : List Uncached

-- The options of the teardown.Reconciler that run sets, and its concurrency.
pub record TeardownSettings : Type 0 where
  pub cache_namespace : String
  pub etcd_timeout : ℕ
  pub reset_timeout : ℕ
  pub etcd_call_timeout : ℕ
  pub reset_call_timeout : ℕ
  pub concurrency : ℕ

-- One request to the libraries.
pub data Deed : Type 0 where
  add_to_scheme : Group → Deed
  parse_selector : String → Deed
  get_config : Deed
  new_manager : ManagerOptions → Deed
  add_worker : WorkerSettings → Deed
  set_up_teardown : TeardownSettings → Deed
  set_up_janitor : Janitor.Options → Deed
  add_credential_gc : String → Deed
  add_healthz_check add_readyz_check start : Deed

-- How a process ends: main returns, or os.Exit(1) after the message.
pub data Ending : Type 0 where
  returned : Ending
  exited : String → Ending

-- The error, if any, with which the libraries answer a request, after those that are listed.
abbrev pub Host : Type 0
Host = List Deed → Deed → Option String

-- A main, run after some requests: how it ends, and all requests, newest first.
abbrev pub Main : Type 0
Main = Host → List Deed → Ending × List Deed

unfoldable pub leave : Ending → Main
leave ending host deeds = (ending, deeds)

abbrev pub unless_failed : Option String → String → Main → Main
unless_failed none message next = next
unless_failed (some e) message next = leave (exited message)

-- `if err := …; err != nil { log.Error(message); os.Exit(1) }`, and what follows.
unfoldable pub attempt : Deed → String → Main → Main
unfolding leave
attempt d message next host deeds = unless_failed (host deeds d) message next host (d ∷ deeds)

-- The loop over the AddToScheme functions.
unfoldable pub add_schemes : List Group → String → Main → Main
add_schemes [] message next = next
add_schemes (g ∷ gs) message next = attempt (add_to_scheme g) message (add_schemes gs message next)

-- logging.New in each main: its error is printed before the exit.
abbrev pub with_logger : Made → Main → Main
with_logger (made _) next = next
with_logger (unknown_level level) next = leave (exited "unknown log level")
with_logger (unknown_format format) next = leave (exited "unknown log format")
