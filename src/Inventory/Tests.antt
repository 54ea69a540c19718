-- ===== src/Inventory/Tests.antt =====
-- The default credentials of the chart's example.
use cluster_api_runtime_exte.Base.{
  ◌≡◌, ◌↔◌, refl, true, false, none, some, [], ◌∷◌, string_eq, nat_eq,
}
use cluster_api_runtime_exte.Base.Dict.{insert}
use cluster_api_runtime_exte.Worker.{collected}
use cluster_api_runtime_exte.Inventory.Collector.{Controller, collect_inventory}
use cluster_api_runtime_exte.Inventory.Collector.Sessions.{
  settles, IsCollected, collect_inventory-IsCollected,
}
use cluster_api_runtime_exte.Inventory.{cut, parse_defaults}
use cluster_api_runtime_exte.Inventory.Printed.{Entry}
use cluster_api_runtime_exte.Inventory.Accepted.{IsDefaults, parse_defaults-IsDefaults}

abbrev any_service : Entry
any_service = ("*", record { username = "admin"; password = "admin" })

abbrev console : Entry
console = ("_obmc_console._tcp", record { username = "root"; password = "0pen:Bmc=" })

two_entries :
    parse_defaults "*=admin:admin,_obmc_console._tcp=root:0pen:Bmc="
    ≡ some (any_service ∷ console ∷ [])
unfolding parse_defaults cut insert string_eq nat_eq
two_entries = refl

refused : parse_defaults "*=admin" ≡ none
unfolding parse_defaults cut string_eq nat_eq
refused = refl

parse_defaults-IsDefaults_example :
    (parse_defaults "*=admin:admin,_obmc_console._tcp=root:0pen:Bmc="
      ≡ some (any_service ∷ console ∷ []))
    ↔ IsDefaults "*=admin:admin,_obmc_console._tcp=root:0pen:Bmc=" (any_service ∷ console ∷ [])
parse_defaults-IsDefaults_example =
    parse_defaults-IsDefaults "*=admin:admin,_obmc_console._tcp=root:0pen:Bmc="
      (any_service ∷ console ∷ [])

-- The inventory has no MAC, and the machine's first system has an interface with one.
abbrev silent : Controller
silent = record {
  open_error = none;
  inventory = collected (record { vendor = []; serial = []; nics = none ∷ []; drives = [] });
  connect_error = none;
  systems = some (
      none
      ∷ some (
          record { permanent_mac_address = []; mac_address = b'a' ∷ [] }
          ∷ record { permanent_mac_address = []; mac_address = [] }
          ∷ [])
      ∷ []);
}

collect_inventory-IsCollected_example :
    (settles false false (collect_inventory silent).1 ≡ true)
    × IsCollected none silent.inventory (collect_inventory silent).0
collect_inventory-IsCollected_example = collect_inventory-IsCollected silent
