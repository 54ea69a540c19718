-- ===== src/Teardown/Setup/Wakes.antt =====
-- The watches lose no Machine that a reconcile would do something for.
use cluster_api_runtime_exte.Base.{
  ◌≡◌, refl, sym, subst, ◌↔◌, Bool, true, false, ◌||◌, ◌⊎◌, inl, inr, List, [], ◌∷◌, arith,
  string_eq, if◌then◌else◌, Bool-cases,
}
use cluster_api_runtime_exte.Teardown.Api.{ObjectKey, Machine}
use cluster_api_runtime_exte.Teardown.Qualify.{qualifies, has_hook}
use cluster_api_runtime_exte.Teardown.Effect.{ok, Trace, get, machine, ◌>>=◌}
use cluster_api_runtime_exte.Teardown.Controller.{Reconciler}
use cluster_api_runtime_exte.Teardown.Peers.Serial.{In, here, there}
use cluster_api_runtime_exte.Teardown.Reconcile.{reconcile, reconcile_machine}
use cluster_api_runtime_exte.Teardown.Setup.{machine_predicate, requests_for, cluster_to_machines}

abbrev pub key_of : Machine → ObjectKey
key_of m = record { namespace = m.namespace; name = m.name }

-- A key and its place in a list.
pub data IsRequested (k : ObjectKey) : List ObjectKey → Type 0 where
  now : {ks : List ObjectKey} → IsRequested k (k ∷ ks)
  later : {x : ObjectKey} {ks : List ObjectKey} → IsRequested k ks → IsRequested k (x ∷ ks)

neither : (a b : Bool) → (a || b) ≡ false → (a ≡ false) × (b ≡ false)
neither a b h = ground arith

module _ (r : Reconciler) where
  -- A reconcile of a Machine that the predicate turns away does nothing: it returns no wait and no
  -- error, and the read is its only call.
  pub reconcile_unadmitted :
      (t : Trace) (key : ObjectKey) (read : Machine)
      → r.env.get_machine t key ≡ ok read
      → machine_predicate r read ≡ false
      → reconcile r t key ≡ (ok 0, get machine key ∷ t)
  unfolding reconcile reconcile_machine machine_predicate ◌>>=◌
  reconcile_unadmitted t key read found out =
      let (q, h) = neither (qualifies read) (has_hook r.api read) out in rw (found, q, h) refl

  -- A Machine of the list that the predicate admits.
  abbrev pub IsAdmitted : ObjectKey → List Machine → Type 0
  IsAdmitted k ms = (m : Machine) × In r.api m ms × (machine_predicate r m ≡ true) × (key_of m ≡ k)

  requested :
      (k : ObjectKey) (ms : List Machine) → IsAdmitted k ms → IsRequested k (requests_for r ms)
  unfolding requests_for machine_predicate
  requested k [] (m, p, a, e) = elim p [ ]
  requested k (x ∷ ms) (m, here, a, e) =
      rw a (subst (λ j. IsRequested k (j ∷ requests_for r ms)) (sym e) now)
  requested k (x ∷ ms) (m, there p, a, e) = elim (Bool-cases (qualifies x || has_hook r.api x)) [
    | inl b ↦ rw b (later (requested k ms (m, p, a, e)))
    | inr b ↦ rw b (requested k ms (m, p, a, e))
  ]

  one_more :
      (k : ObjectKey) (x : Machine) (ms : List Machine) → IsAdmitted k ms → IsAdmitted k (x ∷ ms)
  one_more k x ms (m, p, a, e) = (m, there p, a, e)

  first_request :
      (k j : ObjectKey) (ks : List ObjectKey) → IsRequested k (j ∷ ks) → (j ≡ k) ⊎ IsRequested k ks
  first_request k j ks now = inl refl
  first_request k j ks (later h) = inr h

  IsAdmitted-first :
      (k : ObjectKey) (x : Machine) (ms : List Machine) (b : Bool)
      → machine_predicate r x ≡ b
      → (IsRequested k (requests_for r ms) → IsAdmitted k ms)
      → IsRequested k (if b then key_of x ∷ requests_for r ms else requests_for r ms)
      → IsAdmitted k (x ∷ ms)
  IsAdmitted-first k x ms true e rest h = elim (first_request k (key_of x) (requests_for r ms) h) [
    | inl same ↦ (x, here, e, same)
    | inr more ↦ one_more k x ms (rest more)
  ]
  IsAdmitted-first k x ms false e rest h = one_more k x ms (rest h)

  admitted :
      (k : ObjectKey) (ms : List Machine) → IsRequested k (requests_for r ms) → IsAdmitted k ms
  unfolding requests_for machine_predicate
  admitted k [] h = elim h [ ]
  admitted k (x ∷ ms) h =
      IsAdmitted-first k x ms (qualifies x || has_hook r.api x) refl (admitted k ms) h

  -- A Cluster event asks for exactly the Machines of the Cluster that the Machine watch admits.
  pub cluster_to_machines-IsAdmitted :
      (t : Trace) (c k : ObjectKey) (machines : List Machine)
      → r.env.machines_of t c.namespace c.name false ≡ ok machines
      → IsRequested k (cluster_to_machines r t c).0 ↔ IsAdmitted k machines
  unfolding cluster_to_machines
  cluster_to_machines-IsAdmitted t c k machines found =
      rw found (admitted k machines, requested k machines)
