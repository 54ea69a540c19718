-- ===== src/Sync/Mapping/Macs.antt =====
-- The MACs that identify a machine.
use cluster_api_runtime_exte.Base.{
  ◌≡◌, refl, sym, ap, ◌∙◌, Bool, true, false, not, ◌&&◌, ◌||◌, ◌⊎◌, inl, inr, Option, none, some,
  List, [], ◌∷◌, ◌++◌, arith, ◌==◌, nat_eq, list_eq, Bool-cases,
}
use cluster_api_runtime_exte.Base.Lists.{any}
use cluster_api_runtime_exte.Sync.{Text}
use cluster_api_runtime_exte.Sync.Mapping.{
  Port, Nic, Device, is_mac, lower, contains, Found, take_mac, over_ports, over_nics, inband_macs,
  primary_mac, HardwareOptions, desired_hardware, is_pairs,
}
use cluster_api_runtime_exte.Sync.Names.{is_empty}
use cluster_api_runtime_exte.Sync.Netboot.{Interface, Hardware}

abbrev pub IsDistinct : List Text → Type 0
IsDistinct [] = Unit
IsDistinct (mac ∷ macs) = (contains mac macs ≡ false) × IsDistinct macs

-- A port has this MAC, in small letters or capitals.
abbrev pub on_port : Text → Option Port → Bool
on_port mac none = false
on_port mac (some port) = lower port.mac_address == mac

abbrev pub on_nic : Text → Option Nic → Bool
on_nic mac none = false
on_nic mac (some nic) = any (on_port mac) nic.ports

-- The variables agree, and no MAC is listed twice.
record IsKept (found : Found) : Type 0 where
  same : (mac : Text) → contains mac found.seen ≡ contains mac found.macs
  distinct : IsDistinct found.macs

contains-append :
    (mac x : Text) (macs : List Text)
    → contains mac (macs ++ (x ∷ [])) ≡ (contains mac macs || x == mac)
contains-append mac x [] = ground arith
contains-append mac x (y ∷ macs) = ground (arith, contains-append mac x macs)

append-IsDistinct :
    (x : Text) (macs : List Text)
    → IsDistinct macs
    → contains x macs ≡ false
    → IsDistinct (macs ++ (x ∷ []))
append-IsDistinct x [] h n = (refl, tt)
append-IsDistinct x (y ∷ macs) (e, h) n =
    (ground (arith, contains-append y x macs), append-IsDistinct x macs h (ground arith))

take_mac-IsKept : (mac : Text) (found : Found) → IsKept found → IsKept (take_mac mac found)
unfolding take_mac
take_mac-IsKept mac found k = elim (Bool-cases (not (is_mac mac) || contains mac found.seen)) [
  | inl e ↦ rw e k
  | inr e ↦ rw e (record {
    same = λ x. ground (arith, contains-append x mac found.macs, k.same x);
    distinct = append-IsDistinct mac found.macs k.distinct (ground (arith, k.same mac));
  })
]

contains-take_mac :
    (x mac : Text) (found : Found)
    → IsKept found
    → contains x (take_mac mac found).macs ≡ (contains x found.macs || (is_mac x && mac == x))
unfolding take_mac
contains-take_mac x mac found k = elim (Bool-cases (not (is_mac mac) || contains mac found.seen)) [
  | inl e ↦ rw e (ground (arith, k.same mac))
  | inr e ↦ rw e (ground (arith, contains-append x mac found.macs))
]

-- What a loop makes of the variables: they still agree, and the MACs that are added are exactly those
-- that `offered` tells of and that are of the pattern.
record IsStep (offered : Text → Bool) (before after : Found) : Type 0 where
  kept : IsKept after
  listed :
      (mac : Text)
      → contains mac after.macs ≡ (contains mac before.macs || (is_mac mac && offered mac))

over_ports-IsStep :
    (ports : List (Option Port)) (found : Found)
    → IsKept found
    → IsStep (λ mac. any (on_port mac) ports) found (over_ports ports found)
unfolding over_ports
over_ports-IsStep [] found k = record { kept = k; listed = λ x. ground arith }
over_ports-IsStep (none ∷ ports) found k =
    let s = over_ports-IsStep ports found k in
    record { kept = s.kept; listed = λ x. ground (arith, s.listed x) }
over_ports-IsStep (some port ∷ ports) found k =
    let mac = lower port.mac_address in
    let s = over_ports-IsStep ports (take_mac mac found) (take_mac-IsKept mac found k) in
    record {
      kept = s.kept;
      listed = λ x. ground (arith, s.listed x, contains-take_mac x mac found k);
    }

over_nics-IsStep :
    (nics : List (Option Nic)) (found : Found)
    → IsKept found
    → IsStep (λ mac. any (on_nic mac) nics) found (over_nics nics found)
unfolding over_nics
over_nics-IsStep [] found k = record { kept = k; listed = λ x. ground arith }
over_nics-IsStep (none ∷ nics) found k =
    let s = over_nics-IsStep nics found k in
    record { kept = s.kept; listed = λ x. ground (arith, s.listed x) }
over_nics-IsStep (some nic ∷ nics) found k =
    let p = over_ports-IsStep nic.ports found k in
    let s = over_nics-IsStep nics (over_ports nic.ports found) p.kept in
    record { kept = s.kept; listed = λ x. ground (arith, s.listed x, p.listed x) }

-- No MAC is listed twice, and exactly the small-letter forms of the pattern that some port has, in
-- small letters or capitals, are listed.
pub inband_macs-IsDistinct :
    (dev : Device) (mac : Text)
    → IsDistinct (inband_macs dev)
      × (contains mac (inband_macs dev) ≡ (is_mac mac && any (on_nic mac) dev.nics))
unfolding inband_macs
inband_macs-IsDistinct dev mac =
    let start : IsKept (record { macs = []; seen = [] }) = record {
      same = λ x. refl;
      distinct = tt;
    } in
    let s = over_nics-IsStep dev.nics (record { macs = []; seen = [] }) start in
    (s.kept.distinct, s.listed mac)

-- A port of the device has this MAC, and it is of the pattern.
abbrev pub is_offered : Device → Text → Bool
is_offered dev mac = is_mac mac && any (on_nic mac) dev.nics

-- One interface, whose MAC is the agent's id and the instance's, and is one of the device; or none, as
-- the device has no MAC of the pattern: then the serial number is the instance's id.
abbrev pub IsIdentified : Device → HardwareOptions → Hardware → Type 0
IsIdentified dev opts hw =
    ((i : Interface) × (hw.interfaces ≡ i ∷ [])
      × (i.mac ≡ hw.agent_id)
      × (hw.instance_id ≡ hw.agent_id)
      × (i.hostname ≡ opts.name)
      × (is_offered dev hw.agent_id ≡ true))
    ⊎ ((hw.interfaces ≡ [])
        × (hw.instance_id ≡ dev.serial)
        × ((mac : Text) → is_offered dev mac ≡ false))

List-cases :
    (macs : List Text) → (macs ≡ []) ⊎ ((mac : Text) × (rest : List Text) × (macs ≡ mac ∷ rest))
List-cases [] = inl refl
List-cases (mac ∷ rest) = inr (mac, rest, refl)

offered-head :
    (dev : Device) (mac : Text) (rest : List Text)
    → inband_macs dev ≡ mac ∷ rest
    → is_offered dev mac ≡ true
offered-head dev mac rest e =
    let h = (inband_macs-IsDistinct dev mac).1 in
    let k : contains mac (mac ∷ rest) ≡ true = ground arith in sym h ∙ ap (contains mac) e ∙ k

mac-not-empty : (mac : Text) → is_mac mac ≡ true → is_empty mac ≡ false
unfolding is_mac is_pairs
mac-not-empty [] h = absurd (ground arith)
mac-not-empty (_ ∷ _) h = refl

-- The Hardware of a device has one interface, whose MAC is the agent's id and the instance's id, and is
-- of the pattern and that of a port of the device, unless no port has a MAC of the pattern: then it has
-- no interface and the serial number is the instance's id.
pub desired_hardware-IsIdentified :
    (dev : Device) (opts : HardwareOptions) (live : Option Hardware)
    → IsIdentified dev opts (desired_hardware dev opts live)
unfolding desired_hardware primary_mac
desired_hardware-IsIdentified dev opts live = elim (List-cases (inband_macs dev)) [
  | inl e ↦
      rw e (inr (refl, refl, λ mac. sym (inband_macs-IsDistinct dev mac).1 ∙ ap (contains mac) e))
  | inr (mac, rest, e) ↦
      let o = offered-head dev mac rest e in
      let n : is_empty mac ≡ false = mac-not-empty mac (ground arith) in
      rw (e, n) (inl (_, refl, refl, refl, refl, o))
]
