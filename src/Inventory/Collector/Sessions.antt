-- ===== src/Inventory/Collector/Sessions.antt =====
-- The sessions of one Collect, and what it adds to the inventory.
use cluster_api_runtime_exte.Base.{
  String, ◌≡◌, refl, ap, inl, inr, Bool, true, false, not, ◌||◌, Option, none, some, List, [], ◌∷◌,
  ◌++◌, arith, if◌then◌else◌, Bool-cases,
}
use cluster_api_runtime_exte.Base.Lists.{All, All-append}
use cluster_api_runtime_exte.Worker.{Answer, collected, refused}
use cluster_api_runtime_exte.Sync.{Text}
use cluster_api_runtime_exte.Sync.Names.{is_empty}
use cluster_api_runtime_exte.Sync.Mapping.{Nic, Device}
use cluster_api_runtime_exte.Inventory.Collector.{
  nic_has_mac, has_nic_mac, EthernetInterface, chosen_mac, nic_of, nics_of, nics_of_systems,
  Controller, SessionCall, open_bmc, close_bmc, connect_redfish, logout_redfish, extended,
  connected, enrich_nics, enriched, opened_session, collect_inventory,
}

-- A NIC that carries a MAC.
abbrev pub Carries : Option Nic → Type 0
Carries nic = nic_has_mac nic ≡ true

nic_of-Carries : (mac : Text) → is_empty mac ≡ false → Carries (nic_of mac)
nic_of-Carries mac h = ground arith

nics_of-Carries : (is : List EthernetInterface) → All Carries (nics_of is)
unfolding nics_of
nics_of-Carries [] = tt
nics_of-Carries (i ∷ is) = elim (Bool-cases (is_empty (chosen_mac i))) [
  | inl e ↦ rw e (nics_of-Carries is)
  | inr e ↦ rw e (nic_of-Carries (chosen_mac i) e, nics_of-Carries is)
]

nics_of_systems-Carries :
    (systems : List (Option (List EthernetInterface))) → All Carries (nics_of_systems systems)
unfolding nics_of_systems
nics_of_systems-Carries [] = tt
nics_of_systems-Carries (none ∷ rest) = nics_of_systems-Carries rest
nics_of_systems-Carries (some is ∷ rest) =
    All-append Carries (nics_of is) (nics_of_systems rest) (nics_of-Carries is)
      (nics_of_systems-Carries rest)

-- The device with further NICs, each with a MAC, and with none if it had a MAC.
abbrev pub IsEnriched : Device → Device → Type 0
IsEnriched dev full =
    (new : List (Option Nic)) × (full ≡ record dev { nics = dev.nics ++ new })
    × All Carries new
    × (has_nic_mac dev ≡ true → new ≡ [])

-- The error of Open, or that of the inventory, or the device that was taken, enriched.
abbrev pub IsCollected : Option String → Answer Device → Answer Device → Type 0
IsCollected (some e) inventory answer = answer ≡ refused e
IsCollected none (refused e) answer = answer ≡ refused e
IsCollected none (collected dev) answer =
    (full : Device) × (answer ≡ collected full) × IsEnriched dev full

append-nil : (nics : List (Option Nic)) → nics ≡ nics ++ []
append-nil [] = refl
append-nil (n ∷ nics) = ap (λ ns. n ∷ ns) (append-nil nics)

as_it_was : (dev : Device) → IsEnriched dev dev
as_it_was dev = (
  [],
  ap (λ (ns : List (Option Nic)). record dev { nics = ns }) (append-nil dev.nics),
  tt,
  λ h. refl,
)

extended-IsEnriched :
    (dev : Device) (systems : Option (List (Option (List EthernetInterface))))
    → has_nic_mac dev ≡ false
    → IsEnriched dev (extended dev systems)
extended-IsEnriched dev none h = as_it_was dev
extended-IsEnriched dev (some systems) h =
    (nics_of_systems systems, refl, nics_of_systems-Carries systems, λ k. absurd (ground arith))

connected-IsEnriched :
    (c : Controller) (dev : Device) (e : Option String)
    → has_nic_mac dev ≡ false
    → IsEnriched dev (connected c dev e).0
connected-IsEnriched c dev (some e) h = as_it_was dev
connected-IsEnriched c dev none h = extended-IsEnriched dev c.systems h

enrich_nics-IsEnriched : (c : Controller) (dev : Device) → IsEnriched dev (enrich_nics c dev).0
unfolding enrich_nics
enrich_nics-IsEnriched c dev = choose (has_nic_mac dev) refl
  where
    choose :
        (b : Bool)
        → has_nic_mac dev ≡ b
        → IsEnriched dev (if b then (dev, []) else connected c dev c.connect_error).0
    choose true e = as_it_was dev
    choose false e = connected-IsEnriched c dev c.connect_error e

-- Whether all sessions are closed at the end, no session having been closed that was not open: the
-- two flags say which of bmclib's and gofish's is open.
unfoldable pub settles : Bool → Bool → List SessionCall → Bool
settles bmc redfish [] = not (bmc || redfish)
settles bmc redfish (open_bmc ok ∷ calls) = settles ok redfish calls
settles true redfish (close_bmc ∷ calls) = settles false redfish calls
settles false redfish (close_bmc ∷ calls) = false
settles bmc redfish (connect_redfish ok ∷ calls) = settles bmc ok calls
settles bmc true (logout_redfish ∷ calls) = settles bmc false calls
settles bmc false (logout_redfish ∷ calls) = false

enrich_nics-settles :
    (c : Controller) (dev : Device)
    → settles true false ((enrich_nics c dev).1 ++ (close_bmc ∷ [])) ≡ true
unfolding enrich_nics settles
enrich_nics-settles c dev = elim (Bool-cases (has_nic_mac dev)) [
  | inl e ↦ rw e refl
  | inr e ↦ rw e (on_connection c.connect_error)
]
  where
    on_connection :
        (e : Option String) → settles true false ((connected c dev e).1 ++ (close_bmc ∷ [])) ≡ true
    on_connection (some e) = refl
    on_connection none = refl

-- On every path of Collect, each session that was opened is closed, and the call fails only with the
-- error of Open or of the inventory. Otherwise it returns the device of the inventory with at most
-- further NICs, each of which carries a MAC, and with none if one of its own did.
pub collect_inventory-IsCollected :
    (c : Controller)
    → (settles false false (collect_inventory c).1 ≡ true)
      × IsCollected c.open_error c.inventory (collect_inventory c).0
unfolding collect_inventory settles
collect_inventory-IsCollected c = opens c.open_error
  where
    takes :
        (inventory : Answer Device)
        → let (answer, calls) = enriched c inventory in
          (settles true false (calls ++ (close_bmc ∷ [])) ≡ true)
          × IsCollected none inventory answer
    takes (refused e) = (refl, refl)
    takes (collected dev) =
        (enrich_nics-settles c dev, ((enrich_nics c dev).0, refl, enrich_nics-IsEnriched c dev))

    opens :
        (e : Option String)
        → (settles false false (opened_session c e).1 ≡ true)
          × IsCollected e c.inventory (opened_session c e).0
    opens (some e) = (refl, refl)
    opens none = takes c.inventory
