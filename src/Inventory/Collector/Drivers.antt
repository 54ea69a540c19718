-- ===== src/Inventory/Collector/Drivers.antt =====
-- The drivers that a client may use.
use mathlib.Core.Bool.{Bool-discrete}
use mathlib.Core.HLevel.{hedberg}
use mathlib.Core.List.{Perm, foldr}
use mathlib.Core.List.Perm
use cluster_api_runtime_exte.Base.{
  String, ◌≡◌, ◌∙◌, Bool, false, not, ◌&&◌, ◌||◌, List, [], ◌∷◌, arith, ◌==◌, string_eq,
}
use cluster_api_runtime_exte.Base.Lists.{keep}
use cluster_api_runtime_exte.Inventory.Collector.{Driver, client_drivers}

-- Whether one of the drivers has the name.
abbrev pub has_name : String → List Driver → Bool
has_name name ds = foldr (λ d b. d.name == name || b) false ds

either_way :
    (name : String) (c d : Driver) (b : Bool)
    → (c.name == name || (d.name == name || b)) ≡ (d.name == name || (c.name == name || b))
either_way name c d b = ground arith

has_name-Perm :
    (name : String) {cs ds : List Driver} → Perm cs ds → has_name name cs ≡ has_name name ds
has_name-Perm name p =
    Perm.foldr-eq (hedberg Bool-discrete) (λ (d : Driver) b. d.name == name || b)
      (λ c d b. either_way name c d b) p false

has_name-keep :
    (name : String) (ds : List Driver)
    → has_name name (keep (λ (d : Driver). not (d.name == "ipmitool")) ds)
      ≡ (not (name == "ipmitool") && has_name name ds)
has_name-keep name [] = ground arith
has_name-keep name (d ∷ ds) = ground (arith, has_name-keep name ds)

-- Where PreferDriver only reorders, a client has the drivers that are registered, but for the one that
-- runs the ipmitool binary.
pub client_drivers-has_name :
    (prefer : List Driver → List Driver) (registered : List Driver) (name : String)
    → ((ds : List Driver) → Perm (prefer ds) ds)
    → has_name name (client_drivers prefer registered)
      ≡ (not (name == "ipmitool") && has_name name registered)
unfolding client_drivers
client_drivers-has_name prefer registered name reorders =
    has_name-Perm name (reorders _) ∙ has_name-keep name registered
