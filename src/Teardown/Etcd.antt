-- ===== src/Teardown/Etcd.antt =====
-- internal/teardown/etcd.go: which etcd member is a Machine's, and what a service report means.
pub mod Matching
use Prim.Native.String.{[] as nil, ◌∷◌ as cons}
use Prim.Native.Char.{Char, code}
use cluster_api_runtime_exte.Base.{
  ℕ, ◌+◌, String, Bool, true, false, not, ◌&&◌, ◌||◌, Option, none, some, List, [], ◌∷◌, leb, ◌==◌,
  string_eq, nat_eq, if◌then◌else◌,
}
use cluster_api_runtime_exte.Base.Lists.{any, keep}
use cluster_api_runtime_exte.Teardown.Api.{ClusterApi, Address, Machine}
use cluster_api_runtime_exte.Teardown.Effect.{Member, MemberList, ServiceInfo}

module _ (api : ClusterApi) where
  -- The first MachineHostName address, or the name given.
  unfoldable pub host_name_or : String → List Address → String
  host_name_or name [] = name
  host_name_or name (a ∷ rest) =
      if a.kind == api.host_name then a.address else host_name_or name rest

  -- hostnameCandidates
  unfoldable pub hostname_candidates : Machine → List String
  unfolding host_name_or
  hostname_candidates m =
      keep (λ c. not (c == ""))
        (host_name_or m.node_ref m.addresses ∷ m.infrastructure.name ∷ m.name ∷ [])

-- The text before the first ".", of strings.Cut.
unfoldable pub before_dot : String → String
before_dot String.[] = ""
before_dot (String.◌∷◌ c s) = if code c == b'.' then "" else String.◌∷◌ c (before_dot s)

-- A letter's representative under Unicode's simple folding, as strings.EqualFold compares them. The
-- letters A to Z, the Kelvin sign and the long s fold to ASCII; the other letters outside ASCII are
-- folded by the tables of Go's unicode package, which are not modelled: such a letter stands for
-- itself.
unfoldable pub fold_rune : ℕ → ℕ
fold_rune c =
    if leb b'A' c && leb c b'Z'
    then c + 32
    else if c == 0x212A
    then b'k'
    else if c == 0x17F
    then b's'
    else c

-- strings.EqualFold
unfoldable pub equal_fold : String → String → Bool
unfolding fold_rune
equal_fold String.[] String.[] = true
equal_fold String.[] (String.◌∷◌ d t) = false
equal_fold (String.◌∷◌ c s) String.[] = false
equal_fold (String.◌∷◌ c s) (String.◌∷◌ d t) =
    fold_rune (code c) == fold_rune (code d) && equal_fold s t

-- matchesMember
unfoldable pub matches_member : List String → String → Bool
matches_member candidates hostname =
    let member = before_dot hostname in
    any (λ candidate. equal_fold (before_dot candidate) member) candidates

first_match : List String → List Member → Option Member
first_match candidates [] = none
first_match candidates (m ∷ rest) =
    if matches_member candidates m.hostname then some m else first_match candidates rest

first_in_messages : List String → List (List Member) → Option Member
first_in_messages candidates [] = none
first_in_messages candidates (message ∷ rest) = elim (first_match candidates message) [
  | some m ↦ some m
  | none ↦ first_in_messages candidates rest
]

-- findMember
unfoldable pub find_member : MemberList → List String → Option Member
unfolding first_match first_in_messages
find_member none candidates = none
find_member (some messages) candidates = first_in_messages candidates messages

abbrev service_running : Option ServiceInfo → Bool
service_running none = false
service_running (some info) = info.state == "Running" && info.healthy

-- etcdHealthy
unfoldable pub etcd_healthy : List (Option ServiceInfo) → Bool
etcd_healthy services = any service_running services

abbrev service_unfinished : Option ServiceInfo → Bool
service_unfinished none = false
service_unfinished (some info) = not (info.state == "Finished")

-- etcdNotFinished
unfoldable pub etcd_not_finished : List (Option ServiceInfo) → Bool
etcd_not_finished services = any service_unfinished services
