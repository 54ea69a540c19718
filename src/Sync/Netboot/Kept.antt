-- ===== src/Sync/Netboot/Kept.antt =====
-- A sync of Hardware leaves the netboot state of the live object as it is.
use cluster_api_runtime_exte.Base.{◌≡◌, ◌≢◌, refl, some, List, [], ◌∷◌, inl, inr, Bool-cases}
use cluster_api_runtime_exte.Base.Lists.{All}
use cluster_api_runtime_exte.Sync.Apply.{
  Object, found, Write, create, apply, Sighting, Server, is_managed, apply_managed,
}
use cluster_api_runtime_exte.Sync.Apply.Guard.{converted-All}
use cluster_api_runtime_exte.Sync.Netboot.{
  Netboot, Interface, Hardware, first_netboot, netboot_for, with_netboot, carry_netboot,
}

-- The write is an apply whose first interface has this netboot.
abbrev pub Keeps : Netboot → Write Hardware → Type 0
Keeps b (create obj) = ⊥
Keeps b (apply obj) = first_netboot obj.spec.interfaces ≡ some b

first-with_netboot :
    (b : Netboot) (is : List Interface) → is ≢ [] → first_netboot (with_netboot b is) ≡ some b
first-with_netboot b [] n = absurd (n refl)
first-with_netboot b (i ∷ is) n = refl

carried :
    (b : Netboot) (live desired : Hardware)
    → first_netboot live.interfaces ≡ some b
    → desired.interfaces ≢ []
    → first_netboot (carry_netboot live desired).interfaces ≡ some b
unfolding carry_netboot netboot_for
carried b live desired h n = rw h (first-with_netboot b desired.interfaces n)

-- Where the live Hardware's first interface has a netboot block and the desired Hardware has an
-- interface, a sync creates nothing, and what it applies carries that block on its first interface.
pub apply_managed-Keeps :
    (server : Server Hardware) (seen : Sighting) (desired live : Object Hardware) (b : Netboot)
    → first_netboot live.spec.interfaces ≡ some b
    → desired.spec.interfaces ≢ []
    → All (Keeps b) (apply_managed server seen carry_netboot desired (found live)).1
unfolding apply_managed
apply_managed-Keeps server seen desired live b h n = elim (Bool-cases (is_managed live.labels)) [
  | inl e ↦ rw e (converted-All (Keeps b) server _ _ (carried b live.spec desired.spec h n))
  | inr e ↦ rw e tt
]
