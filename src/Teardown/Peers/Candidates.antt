-- ===== src/Teardown/Peers/Candidates.antt =====
-- The filter and the two sorts of orderPeers (internal/teardown/reconciler.go), by the order that the code
-- compares with.
use mathlib.Core.List.{Perm, perm_middle}
use mathlib.Core.List.Perm
use cluster_api_runtime_exte.Base.{
  ◌≡◌, Bool, true, false, not, ◌&&◌, ◌||◌, inl, inr, List, [], ◌∷◌, ◌++◌, arith, ◌==◌, string_eq,
  nat_eq, bool_eq, Bool-cases,
}
use cluster_api_runtime_exte.Base.Lists.{
  keep, All, sort, IsSorted, All-append, sort-perm, sort-IsSorted, sort-All,
}
use cluster_api_runtime_exte.Base.Texts.{str_lt_asym, str_lt_total, str_lt_trans}
use cluster_api_runtime_exte.Teardown.Api.{Machine}
use cluster_api_runtime_exte.Teardown.Peers.{
  older, sort_by_age, is_candidate, has_node_ref, order_peers,
}

older_asym : (a b : Machine) → older a b ≡ true → older b a ≡ false
unfolding older
older_asym a b h = ground (arith, str_lt_asym a.name b.name)

older_trans : (a b c : Machine) → older b a ≡ false → older c b ≡ false → older c a ≡ false
unfolding older
older_trans a b c h k = ground (
  arith,
  str_lt_trans c.name b.name a.name,
  str_lt_total a.name b.name,
  str_lt_total b.name c.name,
  str_lt_trans c.name a.name b.name,
  str_lt_trans b.name c.name a.name,
  str_lt_asym a.name b.name,
  str_lt_asym b.name c.name,
)

module _ {A : Type 0} (p : A → Bool) where
  pub keep-perm : (xs : List A) → Perm (keep p xs ++ keep (λ x. not (p x)) xs) xs
  keep-perm [] = Perm.refl []
  keep-perm (x ∷ xs) = elim (Bool-cases (p x)) [
    | inl e ↦ rw e (Perm.cons x (keep-perm xs))
    | inr e ↦ rw e (
        Perm.trans (perm_middle (keep p xs) (keep (λ y. not (p y)) xs))
          (Perm.cons x (keep-perm xs)))
  ]

  pub keep-All : (xs : List A) → All (λ x. p x ≡ true) (keep p xs)
  keep-All [] = tt
  keep-All (x ∷ xs) = ground (arith, keep-All xs)

-- The order of the list: a Machine with a NodeRef, then the older one.
abbrev pub ranks_before : Machine → Machine → Bool
ranks_before a b =
    (has_node_ref a && not (has_node_ref b)) || (has_node_ref a == has_node_ref b && older a b)

IsSorted-ranks :
    (b : Bool) (ms : List Machine)
    → All (λ m. has_node_ref m ≡ b) ms
    → IsSorted older ms
    → IsSorted ranks_before ms
IsSorted-ranks b [] h s = tt
IsSorted-ranks b (m ∷ ms) (e, h) (o, s) = (below ms h o, IsSorted-ranks b ms h s)
  where
    below :
        (xs : List Machine)
        → All (λ x. has_node_ref x ≡ b) xs
        → All (λ x. older x m ≡ false) xs
        → All (λ x. ranks_before x m ≡ false) xs
    below [] h o = tt
    below (x ∷ xs) (k, h) (n, o) = (ground arith, below xs h o)

append-ranks :
    (xs ys : List Machine)
    → All (λ m. has_node_ref m ≡ true) xs
    → All (λ m. has_node_ref m ≡ false) ys
    → IsSorted ranks_before xs
    → IsSorted ranks_before ys
    → IsSorted ranks_before (xs ++ ys)
append-ranks [] ys h k s t = t
append-ranks (x ∷ xs) ys (e, h) k (o, s) t =
    (All-append _ xs ys o (last ys k), append-ranks xs ys h k s t)
  where
    last :
        (zs : List Machine)
        → All (λ m. has_node_ref m ≡ false) zs
        → All (λ z. ranks_before z x ≡ false) zs
    last [] k = tt
    last (z ∷ zs) (n, k) = (ground arith, last zs k)

sort_by_age-perm : (ms : List Machine) → Perm (sort_by_age ms) ms
unfolding sort_by_age
sort_by_age-perm ms = sort-perm older ms

sort_by_age-ranks :
    (b : Bool) (ms : List Machine)
    → All (λ m. has_node_ref m ≡ b) ms
    → IsSorted ranks_before (sort_by_age ms) × All (λ m. has_node_ref m ≡ b) (sort_by_age ms)
unfolding sort_by_age
sort_by_age-ranks b ms h =
    let k = sort-All older (λ m. has_node_ref m ≡ b) ms h in
    (IsSorted-ranks b (sort older ms) k (sort-IsSorted older older_asym older_trans ms), k)

not-true :
    (ms : List Machine)
    → All (λ m. not (has_node_ref m) ≡ true) ms
    → All (λ m. has_node_ref m ≡ false) ms
not-true [] h = tt
not-true (m ∷ ms) (e, h) = (ground arith, not-true ms h)

pub order_peers-IsSorted :
    (machines : List Machine) (victim : Machine)
    → Perm (order_peers machines victim) (keep (is_candidate victim) machines)
      × IsSorted ranks_before (order_peers machines victim)
unfolding order_peers
order_peers-IsSorted machines victim =
    let cs = keep (is_candidate victim) machines in
    let with = keep has_node_ref cs in
    let without = keep (λ m. not (has_node_ref m)) cs in
    let (s, a) = sort_by_age-ranks true with (keep-All has_node_ref cs) in
    let (t, b) =
      sort_by_age-ranks false without
        (not-true without (keep-All (λ m. not (has_node_ref m)) cs)) in
    (
      Perm.trans (Perm.append (sort_by_age-perm with) (sort_by_age-perm without))
          (keep-perm has_node_ref cs),
      append-ranks (sort_by_age with) (sort_by_age without) a b s t,
    )
