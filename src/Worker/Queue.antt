-- ===== src/Worker/Queue.antt =====
-- Start and processQueue of internal/controller/worker.go: the map of known endpoints and what is asked
-- of the work queue. The queue is client-go's: of it, a key that Get hands out has been added before. The
-- keys that processQueue takes and the events that Start selects come in any interleaving; the map is
-- read by handle once, under its lock.
pub mod Latest
pub mod Resync
pub mod Answers
use cluster_api_runtime_exte.Base.{
  String, ◌≡◌, Bool, true, false, ◌||◌, Option, none, some, List, [], ◌∷◌, ◌==◌, string_eq,
  if◌then◌else◌,
}
use cluster_api_runtime_exte.Base.Dict.{Dict, lookup, insert}
use mathlib.Core.List.{Perm}
use cluster_api_runtime_exte.Mdns.{Endpoint, key}
use cluster_api_runtime_exte.Worker.Handle.{Worker, HandleError, handle}

-- The calls of the queue.
pub data QueueCall : Type 0 where
  add add_rate_limited forget done : String → QueueCall

-- The map `known`, the key that is being handled with what handle will return, and the calls of the
-- queue, newest first.
pub record Running : Type 0 where
  pub known : Dict Endpoint
  pub in_flight : Option (String × Option HandleError)
  pub calls : List QueueCall

-- Start, up to its loop.
abbrev pub started : Running
started = record { known = []; in_flight = none; calls = [] }

-- An endpoint arrives in Start.
unfoldable pub observe : Endpoint → Running → Running
observe ep s = record s { known = insert (key ep) ep s.known; calls = add (key ep) ∷ s.calls }

unfoldable pub keys {ℓ} : {V : Type ℓ} → Dict V → List String
keys [] = []
keys ((k, _) ∷ m) = k ∷ keys m

unfoldable pub add_all : List String → List QueueCall → List QueueCall
add_all [] calls = calls
add_all (k ∷ ks) calls = add_all ks (add k ∷ calls)

-- A tick in Start, which ranges over the map in this order.
unfoldable pub resync : List String → Running → Running
resync order s = record s { calls = add_all order s.calls }

-- processQueue takes a key and calls handle, of what the others answer then.
unfoldable pub begin_handle : Worker → String → Running → Running
begin_handle w k s = record s { in_flight = some (k, (handle w s.known k).0) }

abbrev pub verdict : String → Option HandleError → QueueCall
verdict k none = forget k
verdict k (some _) = add_rate_limited k

-- handle returns in processQueue.
unfoldable pub finish_handle : String → Option HandleError → Running → Running
finish_handle k e s = record s { in_flight = none; calls = done k ∷ verdict k e ∷ s.calls }

-- The key has been added to the queue.
unfoldable pub was_added : String → List QueueCall → Bool
was_added k [] = false
was_added k (add j ∷ calls) = k == j || was_added k calls
was_added k (add_rate_limited j ∷ calls) = k == j || was_added k calls
was_added k (_ ∷ calls) = was_added k calls

-- The states of a worker that has seen these endpoints, newest first.
pub data Reach : List Endpoint → Running → Type 0 where
  at_start : Reach [] started
  observed :
      {h : List Endpoint} {s : Running} (ep : Endpoint) → Reach h s → Reach (ep ∷ h) (observe ep s)
  ticked :
      {h : List Endpoint} {s : Running} (order : List String)
      → Perm order (keys s.known)
      → Reach h s
      → Reach h (resync order s)
  begun :
      {h : List Endpoint} {s : Running} (w : Worker) (k : String)
      → s.in_flight ≡ none
      → was_added k s.calls ≡ true
      → Reach h s
      → Reach h (begin_handle w k s)
  finished :
      {h : List Endpoint} {s : Running} (k : String) (e : Option HandleError)
      → s.in_flight ≡ some (k, e)
      → Reach h s
      → Reach h (finish_handle k e s)
