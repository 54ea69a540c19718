-- ===== src/Worker/Discovered.antt =====
-- The browser of internal/mdns/browser.go and the worker of internal/controller/worker.go on the two ends
-- of the events channel of Start: what of an advertisement reaches handle.
use cluster_api_runtime_exte.Base.{
  String, ◌≡◌, sym, subst, true, some, List, [], ◌∷◌, ◌++◌, arith, ◌==◌, string_eq, Bool-cases, inl,
  inr,
}
use cluster_api_runtime_exte.Base.Lists.{All, IsIn, at_head, in_tail, All-IsIn, All-append_right}
use cluster_api_runtime_exte.Mdns.{Entry, Endpoint, entry_to_endpoint, key}
use cluster_api_runtime_exte.Mdns.Heard.{IsConverted, entry_to_endpoint-IsConverted}
use cluster_api_runtime_exte.Mdns.Cycle as Cycle
use cluster_api_runtime_exte.Mdns.Cycle.{Browser}
use cluster_api_runtime_exte.Mdns.Cycle.Origin.{IsHeard, Reach-IsHeard}
use cluster_api_runtime_exte.Worker.Handle.{Worker, handle, with_port}
use cluster_api_runtime_exte.Worker.Handle.Outcome.{IsOutcome}
use cluster_api_runtime_exte.Worker.Queue.{Running, was_added, Reach}
use cluster_api_runtime_exte.Worker.Queue.Latest.{latest}
use cluster_api_runtime_exte.Worker.Queue.Answers.{Reach-IsOutcome}

latest-IsIn : (k : String) (h : List Endpoint) (ep : Endpoint) → latest k h ≡ some ep → IsIn ep h
unfolding latest
latest-IsIn k [] ep e = absurd (ground arith)
latest-IsIn k (x ∷ h) ep e = elim (Bool-cases (k == key x)) [
  | inl same ↦
      let x-ep : x ≡ ep = ground (arith, same) in subst (λ y. IsIn ep (y ∷ h)) (sym x-ep) at_head
  | inr other ↦ in_tail (latest-IsIn k h ep (ground (arith, other)))
]

IsConverted-at :
    (e : Entry) (ep : Endpoint) → entry_to_endpoint e ≡ some ep → IsConverted e (some ep)
IsConverted-at e ep k = subst (IsConverted e) k (entry_to_endpoint-IsConverted e)

module _ (Interface : Type 0) (b : Browser) where
  -- From the network to the worker: in any state of the browser, and of a worker that has taken the
  -- oldest of the endpoints sent, the others still being buffered, every key that the queue can hand
  -- out is that of an endpoint with the fields of an entry that the library has delivered, at an IPv4
  -- address of it; handle finds this endpoint, and returns no error only if a device was collected of
  -- it and its sync had none.
  pub Reach-IsDiscovered :
      {h : List Entry} {s : Cycle.Running} {taken : List Endpoint} {q : Running} (w : Worker)
      (k : String) (buffered : List Endpoint)
      → Cycle.Reach Interface b h s
      → Reach taken q
      → s.events ≡ buffered ++ taken
      → was_added k q.calls ≡ true
      → (e : Entry) × (ep : Endpoint) × IsIn e h
        × IsConverted e (some ep)
        × (key ep ≡ k)
        × IsOutcome w (with_port w.redfish_port ep) (handle w q.known k)
  Reach-IsDiscovered {h} {taken} {q} w k buffered browser worker sent added =
      let (ep, last, named, outcome) = Reach-IsOutcome w k worker added in
      let all =
        All-append_right (IsHeard h) buffered taken
          (subst (All (IsHeard h)) sent (Reach-IsHeard Interface b browser)) in
      let (e, i, c) = All-IsIn (IsHeard h) (latest-IsIn k taken ep last) all in
      (e, ep, i, IsConverted-at e ep c, named, outcome)
