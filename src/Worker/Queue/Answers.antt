-- ===== src/Worker/Queue/Answers.antt =====
-- Every key of the queue is known: handle finds its endpoint.
use cluster_api_runtime_exte.Base.{
  String, ◌≡◌, refl, sym, ap, ◌∙◌, Bool, true, false, ◌||◌, ◌⊎◌, inl, inr, Option, none, some, List,
  [], ◌∷◌, arith, ◌==◌, string_eq, Option-cases,
}
use cluster_api_runtime_exte.Base.Dict.{Dict, lookup, insert, has, lookup-insert}
use mathlib.Core.List.{Perm, foldr}
use mathlib.Core.List.Perm
use mathlib.Core.Bool.{Bool-discrete}
use mathlib.Core.HLevel.{hedberg}
use cluster_api_runtime_exte.Mdns.{Endpoint, key}
use cluster_api_runtime_exte.Worker.Handle.{Worker, HandleError, handle, with_port}
use cluster_api_runtime_exte.Worker.Handle.Outcome.{IsOutcome, handle-IsOutcome}
use cluster_api_runtime_exte.Worker.Queue.{
  QueueCall, add, Running, observe, keys, add_all, resync, begin_handle, verdict, finish_handle,
  was_added, Reach, at_start, observed, ticked, begun, finished,
}
use cluster_api_runtime_exte.Worker.Queue.Latest.{latest, Reach-latest, latest-key}

abbrev among : String → List String → Bool
among k ks = foldr (λ j b. k == j || b) false ks

either_way : (k i j : String) (b : Bool) → (k == i || (k == j || b)) ≡ (k == j || (k == i || b))
either_way k i j b = ground arith

among-Perm : (k : String) {ks js : List String} → Perm ks js → among k ks ≡ among k js
among-Perm k p =
    Perm.foldr-eq (hedberg Bool-discrete) (λ (j : String) b. k == j || b)
      (λ i j b. either_way k i j b) p false

among-keys : {V : Type 0} (k : String) (m : Dict V) → among k (keys m) ≡ has k m
unfolding keys lookup
among-keys k [] = refl
among-keys k ((j, v) ∷ m) = ground (arith, among-keys k m)

was_added-add_all :
    (k : String) (ks : List String) (calls : List QueueCall)
    → was_added k (add_all ks calls) ≡ (among k ks || was_added k calls)
unfolding add_all was_added
was_added-add_all k [] calls = refl
was_added-add_all k (j ∷ ks) calls = ground (arith, was_added-add_all k ks (add j ∷ calls))

was_added-verdict :
    (k j : String) (e : Option HandleError) (calls : List QueueCall)
    → was_added k (verdict j e ∷ calls) ≡ true
    → (k ≡ j) ⊎ (was_added k calls ≡ true)
unfolding was_added
was_added-verdict k j none calls h = inr h
was_added-verdict k j (some x) calls h = ground arith

has-insert :
    (k j : String) (ep : Endpoint) (m : Dict Endpoint) → has k (insert j ep m) ≡ (k == j || has k m)
has-insert k j ep m = ground (arith, lookup-insert k j ep m)

-- Every key that was added is in the map, and so is the key in flight.
record IsServed (s : Running) : Type 0 where
  queued : (k : String) → was_added k s.calls ≡ true → has k s.known ≡ true
  flying : (k : String) (e : Option HandleError) → s.in_flight ≡ some (k, e) → has k s.known ≡ true

abbrev key_in : String → Option (String × Option HandleError) → String
key_in j none = j
key_in j (some (k, e)) = k

Reach-IsServed : {h : List Endpoint} {s : Running} → Reach h s → IsServed s
unfolding observe resync begin_handle finish_handle was_added
Reach-IsServed at_start = record {
  queued = λ k a. absurd (ground arith);
  flying = λ k e f. absurd (ground arith);
}
Reach-IsServed (observed {h} {s} ep r) =
    let i = Reach-IsServed r in
    record {
      queued = λ k a. ground (arith, has-insert k (key ep) ep s.known, i.queued k);
      flying = λ k e f. ground (arith, has-insert k (key ep) ep s.known, i.flying k e f);
    }
Reach-IsServed (ticked {h} {s} order p r) =
    let i = Reach-IsServed r in
    record {
      queued = λ k a. ground (
        arith,
        was_added-add_all k order s.calls,
        among-Perm k p,
        among-keys k s.known,
        i.queued k,
      );
      flying = i.flying;
    }
Reach-IsServed (begun {h} {s} w j f a r) =
    let i = Reach-IsServed r in
    record {
      queued = i.queued;
      flying = λ k e g. ap (λ k'. has k' s.known) (sym (ap (key_in j) g)) ∙ i.queued j a;
    }
Reach-IsServed (finished {h} {s} j e f r) =
    let i = Reach-IsServed r in
    record {
      queued = λ k a. elim (was_added-verdict k j e s.calls a) [
        | inl same ↦ ap (λ k'. has k' s.known) same ∙ i.flying j e f
        | inr before ↦ i.queued k before
      ];
      flying = λ k x g. absurd (ground arith);
    }

-- However the worker gets there, every key that the queue can hand out is that of an endpoint that was
-- advertised, the latest under it: handle finds that endpoint, so that it returns no error only if a
-- device was collected of it and its sync had none.
pub Reach-IsOutcome :
    {h : List Endpoint} {s : Running} (w : Worker) (k : String)
    → Reach h s
    → was_added k s.calls ≡ true
    → (ep : Endpoint) × (latest k h ≡ some ep)
      × (key ep ≡ k)
      × IsOutcome w (with_port w.redfish_port ep) (handle w s.known k)
Reach-IsOutcome {h} {s} w k r a = elim (Option-cases (lookup k s.known)) [
  | inl n ↦ absurd (let q = (Reach-IsServed r).queued k a in ground arith)
  | inr (ep, e) ↦
      let l = sym (Reach-latest r k) ∙ e in
      (ep, l, latest-key k h ep l, handle-IsOutcome w s.known k ep e)
]
