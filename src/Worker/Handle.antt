-- ===== src/Worker/Handle.antt =====
-- handle of internal/controller/worker.go, down to the writes of the Syncer.
pub mod Outcome
pub mod Named
use Prim.Native.Char.{Char, code}
use cluster_api_runtime_exte.Base.{
  ℕ, ◌+◌, ◌/◌, ◌%◌, String, Bool, Option, none, some, List, [], ◌∷◌, ◌++◌, ltb, ◌==◌, nat_eq,
  if◌then◌else◌,
}
use cluster_api_runtime_exte.Base.Dict.{Dict, lookup}
use cluster_api_runtime_exte.Worker.{
  Credentials, Candidate, credential_candidates, Answer, Verification, verified, unverified, verify,
}
use cluster_api_runtime_exte.Mdns.{Addr, unset, v4, v6, Endpoint}
use cluster_api_runtime_exte.Sync.{Text}
use cluster_api_runtime_exte.Sync
use cluster_api_runtime_exte.Sync.Apply.{Sighting}
use cluster_api_runtime_exte.Sync.Mapping.{Device}
use cluster_api_runtime_exte.Sync.Syncer.{Syncer, Cluster, SyncError, SyncWrite, Synced, sync}

-- The code points of a string.
unfoldable pub code_points : String → Text
code_points String.[] = []
code_points (String.◌∷◌ c s) = code c ∷ code_points s

-- A byte in decimal.
unfoldable pub decimal : ℕ → Text
decimal n =
    if ltb n 10
    then (b'0' + n) ∷ []
    else if ltb n 100
    then (b'0' + n / 10) ∷ (b'0' + n % 10) ∷ []
    else (b'0' + n / 100) ∷ (b'0' + n / 10 % 10) ∷ (b'0' + n % 10) ∷ []

-- Addr.String; that of an IPv6 address, which no endpoint has, is a parameter.
unfoldable pub addr_text : (List ℕ → Text) → Addr → Text
addr_text ipv6_text unset = code_points "invalid IP"
addr_text ipv6_text (v4 a b c d) =
    decimal a ++ (b'.' ∷ (decimal b ++ (b'.' ∷ (decimal c ++ (b'.' ∷ decimal d)))))
addr_text ipv6_text (v6 bytes) = ipv6_text bytes

-- The Worker's fields and what the others answer during one handle: the read of the credentials Secret,
-- the collector, and the API server to the Syncer; and the time.
pub record Worker : Type 0 where
  pub secret : Option Credentials
  pub collect : Endpoint → Credentials → Answer Device
  pub syncer : Syncer
  pub cluster : Cluster
  pub default_credentials : Dict Credentials
  pub redfish_port : ℕ
  pub now : String
  pub ipv6_text : List ℕ → Text

-- The errors of handle.
pub data HandleError : Type 0 where
  no_credentials : HandleError
  unreachable : String → HandleError
  sync_failed : SyncError → HandleError

-- What handle returns, and the writes.
abbrev pub Handled : Type 0
Handled = Option HandleError × List SyncWrite

-- The port that the configuration puts in place of the advertised one.
unfoldable pub with_port : ℕ → Endpoint → Endpoint
with_port port ep = if port == 0 then ep else record ep { port = port }

module _ (w : Worker) where
  -- The endpoint with its texts.
  abbrev pub spelled : Endpoint → Sync.Endpoint
  spelled ep = record {
    instance_name = code_points ep.instance_name;
    hostname = code_points ep.hostname;
    service = ep.service;
    ip = addr_text w.ipv6_text ep.ip;
    port = ep.port;
  }

  abbrev pub sighting : Endpoint → Sighting
  sighting ep = record { last_seen = w.now; instance_name = ep.instance_name; service = ep.service }

  abbrev pub wrapped : Option SyncError → Option HandleError
  wrapped none = none
  wrapped (some e) = some (sync_failed e)

  abbrev pub answered : Option String → Option HandleError
  answered none = none
  answered (some e) = some (unreachable e)

  -- The end of handle: the sync, or lastErr.
  unfoldable pub conclude_handle : Endpoint → Verification Device → Handled
  conclude_handle ep (unverified last) = (answered last, [])
  conclude_handle ep (verified dev creds) =
      let (e, writes) = sync w.syncer w.cluster (sighting ep) (spelled ep) (some dev) creds in
      (wrapped e, writes)

  abbrev pub candidates_for : Endpoint → List Candidate
  candidates_for ep = credential_candidates w.secret w.default_credentials ep.service

  abbrev pub try_candidates : Endpoint → List Candidate → Handled
  try_candidates ep [] = (some no_credentials, [])
  try_candidates ep (c ∷ cs) = conclude_handle ep (verify (w.collect ep) none (c ∷ cs))

  -- handle below the lookup, with the port set.
  unfoldable pub handle_endpoint : Endpoint → Handled
  handle_endpoint ep = try_candidates ep (candidates_for ep)

  abbrev pub handle_known : Option Endpoint → Handled
  handle_known none = (none, [])
  handle_known (some ep) = handle_endpoint (with_port w.redfish_port ep)

  -- handle
  unfoldable pub handle : Dict Endpoint → String → Handled
  handle known key = handle_known (lookup key known)
