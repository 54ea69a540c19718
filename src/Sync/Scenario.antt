-- ===== src/Sync/Scenario.antt =====
-- A machine with two network ports, on a cluster that holds none of its objects.
use cluster_api_runtime_exte.Base.{true, false, Option, none, some, [], ◌∷◌}
use cluster_api_runtime_exte.Worker.{Credentials}
use cluster_api_runtime_exte.Sync.{Text, Endpoint}
use cluster_api_runtime_exte.Sync.Apply.{ApiError, not_found, failed, Sighting}
use cluster_api_runtime_exte.Sync.Mapping.{Device, HardwareOptions}
use cluster_api_runtime_exte.Sync.Syncer.{Syncer, Store, Cluster}

-- "AA:bb:cc:dd:ee:01"
abbrev pub printed_mac : Text
printed_mac =
    b'A' ∷ b'A' ∷ b':' ∷ b'b' ∷ b'b' ∷ b':' ∷ b'c' ∷ b'c' ∷ b':' ∷ b'd' ∷ b'd' ∷ b':' ∷ b'e' ∷ b'e'
    ∷ b':' ∷ b'0' ∷ b'1' ∷ []

-- "aa:bb:cc:dd:ee:01"
abbrev pub small_mac : Text
small_mac =
    b'a' ∷ b'a' ∷ b':' ∷ b'b' ∷ b'b' ∷ b':' ∷ b'c' ∷ b'c' ∷ b':' ∷ b'd' ∷ b'd' ∷ b':' ∷ b'e' ∷ b'e'
    ∷ b':' ∷ b'0' ∷ b'1' ∷ []

-- The MAC twice, and a text that is none.
abbrev pub machine : Device
machine = record {
  vendor = b'H' ∷ b'P' ∷ [];
  serial = b's' ∷ b'1' ∷ [];
  nics =
      none
      ∷ some (record {
        ports =
            none
            ∷ some (record { mac_address = printed_mac })
            ∷ some (record { mac_address = b'n' ∷ b'o' ∷ [] })
            ∷ some (record { mac_address = small_mac })
            ∷ [];
      })
      ∷ [];
  drives =
      some (record { logical_name = "/dev/sda" }) ∷ some (record { logical_name = "" }) ∷ none ∷ [];
}

-- "n1", "n1.local.", "10.0.0.7"
abbrev pub discovered : Endpoint
discovered = record {
  instance_name = b'n' ∷ b'1' ∷ [];
  hostname = b'n' ∷ b'1' ∷ b'.' ∷ b'l' ∷ b'o' ∷ b'c' ∷ b'a' ∷ b'l' ∷ b'.' ∷ [];
  service = "_redfish._tcp";
  ip = b'1' ∷ b'0' ∷ b'.' ∷ b'0' ∷ b'.' ∷ b'0' ∷ b'.' ∷ b'7' ∷ [];
  port = 443;
}

-- "t-${mac}"
abbrev pub by_mac : Text
by_mac = b't' ∷ b'-' ∷ b'$' ∷ b'{' ∷ b'm' ∷ b'a' ∷ b'c' ∷ b'}' ∷ []

abbrev pub syncer : Syncer
syncer = record {
  namespace = "tinkerbell";
  insecure_tls = true;
  name_template = by_mac;
  facility_code = "onprem";
  auto_enrollment = false;
}

abbrev pub options : HardwareOptions
options = record { name = b'n' ∷ b'1' ∷ []; facility_code = "onprem"; auto_enrollment = false }

-- Nothing is found, and a write is answered with this.
abbrev pub empty_store : {S : Type 0} → Option ApiError → Store S
empty_store e = record {
  read = λ name. failed not_found;
  server = record { answer_create = λ o. e; convert = λ o. none; answer_apply = λ o. none };
}

-- The server takes Secrets, and answers this to the others.
abbrev pub cluster : Option ApiError → Cluster
cluster e = record {
  secrets = empty_store none;
  machines = empty_store e;
  hardware = empty_store e;
}

abbrev pub sighting : Sighting
sighting = record {
  last_seen = "2026-01-01T12:00:00Z";
  instance_name = "n1";
  service = "_redfish._tcp";
}

abbrev pub factory : Credentials
factory = record { username = "root"; password = "0penBmc" }
