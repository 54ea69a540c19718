-- ===== src/Inventory/Collector.antt =====
-- internal/inventory/collector.go: the inventory of one machine's controller. The answers of bmclib and
-- gofish are arguments; the sessions that are opened and closed are a list of calls, in order.
pub mod Sessions
pub mod Drivers
use cluster_api_runtime_exte.Base.{
  String, Bool, true, false, not, ◌||◌, Option, none, some, List, [], ◌∷◌, ◌++◌, ◌==◌, string_eq,
  if◌then◌else◌,
}
use cluster_api_runtime_exte.Base.Lists.{any, keep}
use cluster_api_runtime_exte.Worker.{Answer, collected, refused}
use cluster_api_runtime_exte.Sync.{Text}
use cluster_api_runtime_exte.Sync.Names.{is_empty}
use cluster_api_runtime_exte.Sync.Mapping.{Port, Nic, Device}

-- registrar.Driver, by its name.
pub record Driver : Type 0 where
  pub name : String

-- newBMCClient: the drivers of the client, of those registered. `prefer` is PreferDriver("gofish").
unfoldable pub client_drivers : (List Driver → List Driver) → List Driver → List Driver
client_drivers prefer registered = prefer (keep (λ d. not (d.name == "ipmitool")) registered)

abbrev pub port_has_mac : Option Port → Bool
port_has_mac none = false
port_has_mac (some port) = not (is_empty port.mac_address)

abbrev pub nic_has_mac : Option Nic → Bool
nic_has_mac none = false
nic_has_mac (some nic) = any port_has_mac nic.ports

-- hasNICMAC
unfoldable pub has_nic_mac : Device → Bool
has_nic_mac dev = any nic_has_mac dev.nics

-- An EthernetInterface of Redfish.
pub record EthernetInterface : Type 0 where
  pub permanent_mac_address : Text
  pub mac_address : Text

-- The MAC of an interface in enrichNICs: the permanent one, or the other.
abbrev pub chosen_mac : EthernetInterface → Text
chosen_mac i = if is_empty i.permanent_mac_address then i.mac_address else i.permanent_mac_address

abbrev pub nic_of : Text → Option Nic
nic_of mac = some (record { ports = some (record { mac_address = mac }) ∷ [] })

-- The inner loop of enrichNICs: the NICs of one system.
unfoldable pub nics_of : List EthernetInterface → List (Option Nic)
nics_of [] = []
nics_of (i ∷ rest) =
    let more = nics_of rest in
    if is_empty (chosen_mac i) then more else nic_of (chosen_mac i) ∷ more

-- The outer loop: a system whose interfaces cannot be listed is `none`.
unfoldable pub nics_of_systems : List (Option (List EthernetInterface)) → List (Option Nic)
nics_of_systems [] = []
nics_of_systems (none ∷ rest) = nics_of_systems rest
nics_of_systems (some is ∷ rest) = nics_of is ++ nics_of_systems rest

-- What the machine's controller answers to one Collect: an error, or nothing, to Open; the inventory; an
-- error to the connection of enrichNICs; the systems, or `none` if they cannot be listed.
pub record Controller : Type 0 where
  pub open_error : Option String
  pub inventory : Answer Device
  pub connect_error : Option String
  pub systems : Option (List (Option (List EthernetInterface)))

-- Open and Close of bmclib, the connection of gofish and its Logout. A call that failed has `false`.
pub data SessionCall : Type 0 where
  open_bmc : Bool → SessionCall
  close_bmc : SessionCall
  connect_redfish : Bool → SessionCall
  logout_redfish : SessionCall

abbrev pub extended : Device → Option (List (Option (List EthernetInterface))) → Device
extended dev none = dev
extended dev (some systems) = record dev { nics = dev.nics ++ nics_of_systems systems }

abbrev pub connected : Controller → Device → Option String → Device × List SessionCall
connected c dev (some e) = (dev, connect_redfish false ∷ [])
connected c dev none = (extended dev c.systems, connect_redfish true ∷ logout_redfish ∷ [])

-- enrichNICs
unfoldable pub enrich_nics : Controller → Device → Device × List SessionCall
enrich_nics c dev = if has_nic_mac dev then (dev, []) else connected c dev c.connect_error

abbrev pub enriched : Controller → Answer Device → Answer Device × List SessionCall
enriched c (refused e) = (refused e, [])
enriched c (collected dev) = let (full, calls) = enrich_nics c dev in (collected full, calls)

abbrev pub opened_session : Controller → Option String → Answer Device × List SessionCall
opened_session c (some e) = (refused e, open_bmc false ∷ [])
opened_session c none =
    let (answer, calls) = enriched c c.inventory in
    (answer, open_bmc true ∷ (calls ++ (close_bmc ∷ [])))

-- Collect, less the wrapping of its errors.
unfoldable pub collect_inventory : Controller → Answer Device × List SessionCall
collect_inventory c = opened_session c c.open_error
