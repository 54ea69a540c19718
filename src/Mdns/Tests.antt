-- ===== src/Mdns/Tests.antt =====
-- A controller that announces itself with an IPv6 address and two IPv4 ones.
use cluster_api_runtime_exte.Base.{◌≡◌, refl, some, [], ◌∷◌, string_eq, nat_eq}
use cluster_api_runtime_exte.Mdns.{
  v4, Endpoint, Entry, addr_from_slice, strip_prefix, unmap, is4, first_ipv4, entry_to_endpoint,
}
use cluster_api_runtime_exte.Mdns.Heard.{IsConverted, entry_to_endpoint-IsConverted}

-- fe80::1, cut short, then an IPv4 address that is mapped and another.
abbrev entry : Entry
entry = record {
  instance_name = "bmc/1";
  service = "_redfish._tcp";
  hostname = "bmc.local.";
  port = 443;
  addr_ipv4 =
      (254 ∷ 128 ∷ 1 ∷ [])
      ∷ (0 ∷ 0 ∷ 0 ∷ 0 ∷ 0 ∷ 0 ∷ 0 ∷ 0 ∷ 0 ∷ 0 ∷ 255 ∷ 255 ∷ 10 ∷ 0 ∷ 0 ∷ 7 ∷ [])
      ∷ (10 ∷ 0 ∷ 0 ∷ 8 ∷ [])
      ∷ [];
}

abbrev endpoint : Endpoint
endpoint = record {
  instance_name = "bmc/1";
  service = "_redfish._tcp";
  hostname = "bmc.local.";
  ip = v4 10 0 0 7;
  port = 443;
}

entry-endpoint : entry_to_endpoint entry ≡ some endpoint
unfolding entry_to_endpoint first_ipv4 addr_from_slice unmap strip_prefix is4 nat_eq
entry-endpoint = refl

entry_to_endpoint-IsConverted_example : IsConverted entry (entry_to_endpoint entry)
entry_to_endpoint-IsConverted_example = entry_to_endpoint-IsConverted entry
