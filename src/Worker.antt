-- ===== src/Worker.antt =====
-- internal/controller/worker.go: the credentials to try on a machine's controller, and the attempt.
-- The secret is read by the API server, the inventory is collected by the Collector and the objects
-- are written by the Syncer: their answers are parameters.
pub mod Candidates
pub mod Verified
pub mod Handle
pub mod Queue
pub mod Discovered
mod Tests
mod Runs
use cluster_api_runtime_exte.Base.{
  ℕ, String, Bool, true, false, not, ◌&&◌, Option, none, some, List, [], ◌∷◌, ◌++◌, ◌==◌, string_eq,
  nat_eq, if◌then◌else◌,
}
use cluster_api_runtime_exte.Base.Dict.{Dict, lookup}
use cluster_api_runtime_exte.Base.Lists.{any}

-- inventory.Credentials
pub record Credentials : Type 0 where
  pub username : String
  pub password : String

-- credentialCandidate
pub record Candidate : Type 0 where
  pub creds : Credentials
  pub source : String

-- inventory.WildcardService
abbrev pub wildcard_service : String
wildcard_service = "*"

-- `existing.creds == creds`
unfoldable pub same_creds : Credentials → Credentials → Bool
same_creds a b = a.username == b.username && a.password == b.password

-- The function `add` of credentialCandidates.
unfoldable pub add : List Candidate → Credentials → String → List Candidate
add candidates creds source =
    if any (λ existing. same_creds existing.creds creds) candidates
    then candidates
    else candidates ++ (record { creds = creds; source = source } ∷ [])

-- An entry of a map of default credentials, added if it is there.
abbrev pub add_default : List Candidate → Option Credentials → String → List Candidate
add_default candidates none source = candidates
add_default candidates (some creds) source = add candidates creds source

-- The candidates after the read of the Secret: the two entries of its data, "" where one is absent;
-- `none` where the Secret is not found or cannot be read.
abbrev pub from_secret : Option Credentials → List Candidate
from_secret none = []
from_secret (some creds) =
    if not (creds.username == "") && not (creds.password == "") then add [] creds "secret" else []

-- credentialCandidates
unfoldable pub credential_candidates :
    Option Credentials → Dict Credentials → String → List Candidate
credential_candidates secret defaults service =
    add_default (add_default (from_secret secret) (lookup service defaults) "service default")
      (lookup wildcard_service defaults) "global default"

-- What the collector answers: the device, or the text of an error. A nil device comes with an error.
pub data Answer (Device : Type 0) : Type 0 where
  collected : Device → Answer Device
  refused : String → Answer Device

-- The variables dev, creds and lastErr after the loop of handle.
pub data Verification (Device : Type 0) : Type 0 where
  verified : Device → Credentials → Verification Device
  unverified : Option String → Verification Device

-- One turn of the loop of handle, by the answer of the collector.
abbrev pub settle :
    {Device : Type 0}
    → Answer Device
    → Credentials
    → (Option String → Verification Device)
    → Verification Device
settle (collected device) creds rest = verified device creds
settle (refused e) creds rest = rest (some e)

module _ {Device : Type 0} (collect : Credentials → Answer Device) where
  -- The loop of handle, from the value of lastErr on: the first candidate that the collector accepts,
  -- with the device, or the error of the last.
  unfoldable pub verify : Option String → List Candidate → Verification Device
  verify last [] = unverified last
  verify last (candidate ∷ rest) =
      settle (collect candidate.creds) candidate.creds (λ e. verify e rest)
