-- ===== src/Mdns/Key.antt =====
-- The key of an endpoint tells endpoints apart.
use cluster_api_runtime_exte.Base.{String, ◌≡◌, refl, sym, ap, ◌∙◌, Option, none, some, nat_eq}
use cluster_api_runtime_exte.Inventory.{cut}
use cluster_api_runtime_exte.Inventory.Printed.{IsFree, cut-append}
use cluster_api_runtime_exte.Mdns.{Endpoint, key}

cut-key :
    (e : Endpoint) → IsFree b'/' e.service → cut b'/' (key e) ≡ some (e.service, e.instance_name)
unfolding key nat_eq
cut-key e h = cut-append b'/' "/" e.service e.instance_name refl h

abbrev parts : Option (String × String) → String × String
parts none = ("", "")
parts (some p) = p

-- Two endpoints whose service types have no "/" have one key only if they are of one service type
-- and one instance name.
pub key_injective :
    (a b : Endpoint)
    → IsFree b'/' a.service
    → IsFree b'/' b.service
    → key a ≡ key b
    → (a.service ≡ b.service) × (a.instance_name ≡ b.instance_name)
key_injective a b h k e =
    let same = ap parts (sym (cut-key a h) ∙ ap (cut b'/') e ∙ cut-key b k) in
    (ap (λ (p : String × String). p.0) same, ap (λ (p : String × String). p.1) same)
