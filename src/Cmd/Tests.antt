-- ===== src/Cmd/Tests.antt =====
-- The commands with no flags given.
use cluster_api_runtime_exte.Base.{
  ℕ, String, ◌≡◌, refl, Option, none, some, [], ◌∷◌, ◌==◌, string_eq, nat_eq, list_eq,
  if◌then◌else◌,
}
use cluster_api_runtime_exte.Base.Dict.{insert}
use cluster_api_runtime_exte.Janitor.Classify.{is_space}
use cluster_api_runtime_exte.Inventory.{split, cut, parse_defaults}
use cluster_api_runtime_exte.Worker.{Credentials}
use cluster_api_runtime_exte.Cmd.Discovery.{
  trim_front, trim_end, non_empty, split_non_empty, default_flags,
}
use cluster_api_runtime_exte.Logging.{new}
use cluster_api_runtime_exte.Cmd.JanitorManager.{default_janitor_flags}
use cluster_api_runtime_exte.Cmd.TeardownManager.{default_options, with_pod_namespace}
use cluster_api_runtime_exte.Cmd.Startup.{new_manager, returned, exited, Host, attempt}
use cluster_api_runtime_exte.Cmd.Startup.Mains.{janitor_main, teardown_main}

-- The host has one interface, of the number 2.
abbrev net1 : String → Option ℕ
net1 name = if name == "net1" then some 2 else none

trimmed : split_non_empty " net1,, net2 " ≡ "net1" ∷ "net2" ∷ []
unfolding split_non_empty non_empty split trim_front trim_end is_space string_eq nat_eq
trimmed = refl

-- Without a flag, the factory password is tried on OpenBMC's service, and any address may be browsed.
abbrev openbmc : Credentials
openbmc = record { username = "root"; password = "0penBmc" }

abbrev any_service : Credentials
any_service = record { username = "admin"; password = "admin" }

default-credentials :
    parse_defaults default_flags.default_credentials
    ≡ some (
        ("*", any_service) ∷ ("_obmc_console._tcp", openbmc) ∷ ("_obmc_redfish._tcp", openbmc) ∷ [])
unfolding parse_defaults cut insert string_eq nat_eq
default-credentials = refl

-- Every request is granted.
abbrev willing : Host
willing asked d = none

-- The manager is not created.
abbrev without_manager : Host
without_manager asked (new_manager opts) = some "no API server"
without_manager asked d = none

janitor_starts : (janitor_main default_janitor_flags willing []).0 ≡ returned
unfolding janitor_main attempt new string_eq nat_eq list_eq
janitor_starts = refl

teardown_stops :
    (teardown_main "talos" default_options without_manager []).0 ≡ exited "creating manager"
unfolding teardown_main with_pod_namespace attempt new string_eq nat_eq list_eq
teardown_stops = refl

teardown_refuses :
    teardown_main "" default_options willing []
    ≡ (exited "--cache-namespace is required when POD_NAMESPACE is unset", [])
unfolding teardown_main with_pod_namespace attempt new string_eq nat_eq list_eq
teardown_refuses = refl
