-- ===== src/Worker/Queue/Resync.antt =====
-- A tick asks for every known machine once.
use native.Mathlib.Nat.{ℕ_set}
use mathlib.Core.List.{Perm, foldr}
use mathlib.Core.List.Perm
use cluster_api_runtime_exte.Base.{
  ℕ, ◌+◌, String, ◌≡◌, refl, ap, ◌∙◌, List, [], ◌∷◌, arith, ◌==◌, string_eq, if◌then◌else◌,
}
use cluster_api_runtime_exte.Base.Dict.{Dict, lookup, has, NodupKeys, insert-NodupKeys}
use cluster_api_runtime_exte.Mdns.{Endpoint, key}
use cluster_api_runtime_exte.Worker.Queue.{
  QueueCall, add, Running, observe, keys, add_all, resync, begin_handle, finish_handle, Reach,
  at_start, observed, ticked, begun, finished,
}

abbrev one : String → String → ℕ
one k j = if k == j then 1 else 0

-- How often the key is in the list.
abbrev times : String → List String → ℕ
times k ks = foldr (λ j n. one k j + n) 0 ks

-- How often the key was added to the queue.
unfoldable pub times_added : String → List QueueCall → ℕ
times_added k [] = 0
times_added k (add j ∷ calls) = (if k == j then 1 else 0) + times_added k calls
times_added k (_ ∷ calls) = times_added k calls

times-Perm : (k : String) {ks js : List String} → Perm ks js → times k ks ≡ times k js
times-Perm k p = Perm.foldr-eq ℕ_set (λ (j : String) n. one k j + n) (λ i j n. omega arith) p 0

times-keys :
    {V : Type 0} (k : String) (m : Dict V)
    → NodupKeys m
    → times k (keys m) ≡ (if has k m then 1 else 0)
unfolding keys lookup
times-keys k [] h = refl
times-keys k ((j, v) ∷ m) (fresh, h) = ground (arith, times-keys k m h, fresh)

times_added-add_all :
    (k : String) (ks : List String) (calls : List QueueCall)
    → times_added k (add_all ks calls) ≡ times k ks + times_added k calls
unfolding add_all times_added
times_added-add_all k [] calls = omega arith
times_added-add_all k (j ∷ ks) calls = ground (arith, times_added-add_all k ks (add j ∷ calls))

Reach-NodupKeys : {h : List Endpoint} {s : Running} → Reach h s → NodupKeys s.known
unfolding observe resync begin_handle finish_handle
Reach-NodupKeys at_start = tt
Reach-NodupKeys (observed {h} {s} ep r) = insert-NodupKeys (key ep) ep s.known (Reach-NodupKeys r)
Reach-NodupKeys (ticked order p r) = Reach-NodupKeys r
Reach-NodupKeys (begun w k f a r) = Reach-NodupKeys r
Reach-NodupKeys (finished k e f r) = Reach-NodupKeys r

-- A tick of a worker that has got there adds every key of the map once, whatever the order in which Go
-- ranges over the map, and no other key.
pub resync-times_added :
    {h : List Endpoint} {s : Running} (order : List String) (k : String)
    → Reach h s
    → Perm order (keys s.known)
    → times_added k (resync order s).calls
      ≡ (if has k s.known then 1 else 0) + times_added k s.calls
unfolding resync
resync-times_added {h} {s} order k r p =
    times_added-add_all k order s.calls
    ∙ ap (λ n. n + times_added k s.calls)
        (times-Perm k p ∙ times-keys k s.known (Reach-NodupKeys r))
