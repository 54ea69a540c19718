-- ===== src/Teardown/Peers/Ranked.antt =====
-- orderPeers of internal/teardown/reconciler.go against the documented candidates and their rank, which
-- are written out here without the code's filter and comparison.
use mathlib.Core.List.{Perm}
use mathlib.Core.List.Perm
use cluster_api_runtime_exte.Base.{
  ◌<◌, ◌≡◌, ◌≢◌, ◌↔◌, Bool, true, false, not, inl, inr, none, List, [], ◌∷◌, ◌++◌, arith, ◌==◌,
  string_eq, nat_eq, bool_eq, Bool-cases,
}
use cluster_api_runtime_exte.Base.Dict.{lookup}
use cluster_api_runtime_exte.Base.Lists.{keep, All, IsSorted, All-append, All-weaken, sort-All}
use cluster_api_runtime_exte.Base.Texts.{str_lt}
use cluster_api_runtime_exte.Teardown.Api.{Machine, etcd_leaving_annotation}
use cluster_api_runtime_exte.Teardown.Peers.{
  older, sort_by_age, is_candidate, has_node_ref, order_peers,
}
use cluster_api_runtime_exte.Teardown.Peers.Candidates.{
  keep-perm, keep-All, ranks_before, order_peers-IsSorted,
}

-- Another Machine than the victim, that is neither being deleted nor about to leave etcd.
pub record IsCandidate (victim m : Machine) : Type 0 where
  pub other : m.name ≢ victim.name
  pub kept : m.deletion_timestamp ≡ none
  pub staying : lookup etcd_leaving_annotation m.annotations ≡ none

-- Both have a NodeRef, or neither has.
abbrev pub IsAlike : Machine → Machine → Type 0
IsAlike a b = (a.node_ref ≡ "") ↔ (b.node_ref ≡ "")

-- The first Machine is to be tried before the second: it alone has a NodeRef, or it is older, or as old
-- with a name that is not the later one.
pub data IsAhead (a b : Machine) : Type 0 where
  by_node : a.node_ref ≢ "" → b.node_ref ≡ "" → IsAhead a b
  by_age : IsAlike a b → a.creation_timestamp < b.creation_timestamp → IsAhead a b
  by_name :
      IsAlike a b
      → a.creation_timestamp ≡ b.creation_timestamp
      → str_lt b.name a.name ≡ false
      → IsAhead a b

abbrev pub IsRanked : List Machine → Type 0
IsRanked [] = Unit
IsRanked (m ∷ ms) = All (IsAhead m) ms × IsRanked ms

is_candidate-IsCandidate :
    (victim m : Machine) → is_candidate victim m ≡ true → IsCandidate victim m
unfolding is_candidate
is_candidate-IsCandidate victim m h = record {
  other = ground arith;
  kept = ground arith;
  staying = ground arith;
}

IsCandidate-is_candidate :
    (victim m : Machine) → is_candidate victim m ≡ false → ¬ IsCandidate victim m
unfolding is_candidate
IsCandidate-is_candidate victim m h c = ground (arith, c.other, c.kept, c.staying)

older-IsAhead : (m x : Machine) → IsAlike m x → older x m ≡ false → IsAhead m x
unfolding older
older-IsAhead m x alike h = elim (Bool-cases (x.creation_timestamp == m.creation_timestamp)) [
  | inl e ↦ by_name alike (ground (arith, e)) (ground (arith, e))
  | inr n ↦ by_age alike (ground (arith, n))
]

ranks_before-IsAhead : (m x : Machine) → ranks_before x m ≡ false → IsAhead m x
ranks_before-IsAhead m x h = elim (Bool-cases (m.node_ref == "")) [
  | inl e ↦ elim (Bool-cases (x.node_ref == "")) [
    | inl f ↦
        older-IsAhead m x (λ p. ground (arith, f), λ p. ground (arith, e)) (ground (arith, e, f))
    | inr f ↦ absurd (ground (arith, e, f))
  ]
  | inr e ↦ elim (Bool-cases (x.node_ref == "")) [
    | inl f ↦ by_node (ground (arith, e)) (ground (arith, f))
    | inr f ↦
        older-IsAhead m x (λ p. absurd (ground (arith, e, p)), λ p. absurd (ground (arith, f, p)))
          (ground (arith, e, f))
  ]
]

IsSorted-IsRanked : (ms : List Machine) → IsSorted ranks_before ms → IsRanked ms
IsSorted-IsRanked [] h = tt
IsSorted-IsRanked (m ∷ ms) (below, h) =
    (All-weaken (ranks_before-IsAhead m) ms below, IsSorted-IsRanked ms h)

keep-IsCandidate :
    (victim : Machine) (p : Machine → Bool) (ms : List Machine)
    → All (IsCandidate victim) ms
    → All (IsCandidate victim) (keep p ms)
keep-IsCandidate victim p [] h = tt
keep-IsCandidate victim p (m ∷ ms) (c, h) = elim (Bool-cases (p m)) [
  | inl e ↦ rw e (c, keep-IsCandidate victim p ms h)
  | inr e ↦ rw e (keep-IsCandidate victim p ms h)
]

sort_by_age-IsCandidate :
    (victim : Machine) (ms : List Machine)
    → All (IsCandidate victim) ms
    → All (IsCandidate victim) (sort_by_age ms)
unfolding sort_by_age
sort_by_age-IsCandidate victim ms h = sort-All older (IsCandidate victim) ms h

order_peers-IsCandidate :
    (machines : List Machine) (victim : Machine)
    → All (IsCandidate victim) (order_peers machines victim)
unfolding order_peers
order_peers-IsCandidate machines victim =
    let candidates = keep (is_candidate victim) machines in
    let all =
      All-weaken (is_candidate-IsCandidate victim) candidates
        (keep-All (is_candidate victim) machines) in
    All-append (IsCandidate victim) (sort_by_age (keep has_node_ref candidates)) _
      (sort_by_age-IsCandidate victim _ (keep-IsCandidate victim has_node_ref candidates all))
      (sort_by_age-IsCandidate victim _
        (keep-IsCandidate victim (λ m. not (has_node_ref m)) candidates all))

-- The peers to probe are the candidates, none left out and none doubled: they and the Machines that are
-- no candidates, that is the victim and those that are being deleted or are leaving etcd, make up the
-- list of all. Of any two of them the one that is tried first alone has a NodeRef; or both have one, or
-- neither has, and it is the older, or as old as the other with a name that is not the later one.
pub order_peers-IsRanked :
    (machines : List Machine) (victim : Machine)
    → (others : List Machine) × Perm (order_peers machines victim ++ others) machines
      × All (IsCandidate victim) (order_peers machines victim)
      × All (λ m. ¬ IsCandidate victim m) others
      × IsRanked (order_peers machines victim)
order_peers-IsRanked machines victim =
    let others = keep (λ m. not (is_candidate victim m)) machines in
    let (p, sorted) = order_peers-IsSorted machines victim in
    (
      others,
      Perm.trans (Perm.append p (Perm.refl others)) (keep-perm (is_candidate victim) machines),
      order_peers-IsCandidate machines victim,
      All-weaken (λ m h. IsCandidate-is_candidate victim m (ground (arith, h))) others
          (keep-All (λ m. not (is_candidate victim m)) machines),
      IsSorted-IsRanked (order_peers machines victim) sorted,
    )
