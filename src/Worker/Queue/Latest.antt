-- ===== src/Worker/Queue/Latest.antt =====
-- The map of known endpoints is the latest of what was advertised, and the queue holds no other keys.
use cluster_api_runtime_exte.Base.{
  String, ◌≡◌, refl, ap, ◌∙◌, Option, none, some, List, [], ◌∷◌, arith, ◌==◌, string_eq,
  if◌then◌else◌,
}
use cluster_api_runtime_exte.Base.Dict.{lookup, lookup-insert}
use cluster_api_runtime_exte.Mdns.{Endpoint, key}
use cluster_api_runtime_exte.Worker.Queue.{
  Running, observe, resync, begin_handle, finish_handle, Reach, at_start, observed, ticked, begun,
  finished,
}

-- The abstract view: of the endpoints seen, newest first, the latest under the key.
unfoldable pub latest : String → List Endpoint → Option Endpoint
latest k [] = none
latest k (ep ∷ h) = if k == key ep then some ep else latest k h

-- However the worker gets there, the map holds under every key the endpoint that was last advertised
-- under it, and nothing under a key that was never advertised.
pub Reach-latest :
    {h : List Endpoint} {s : Running} → Reach h s → (k : String) → lookup k s.known ≡ latest k h
unfolding latest observe resync begin_handle finish_handle lookup
Reach-latest at_start k = refl
Reach-latest (observed {h} {s} ep r) k =
    lookup-insert k (key ep) ep s.known
    ∙ ap (λ o. if k == key ep then some ep else o) (Reach-latest r k)
Reach-latest (ticked order p r) k = Reach-latest r k
Reach-latest (begun w j f a r) k = Reach-latest r k
Reach-latest (finished j e f r) k = Reach-latest r k

pub latest-key :
    (k : String) (h : List Endpoint) (ep : Endpoint) → latest k h ≡ some ep → key ep ≡ k
unfolding latest
latest-key k [] ep e = absurd (ground arith)
latest-key k (x ∷ h) ep e = ground (arith, latest-key k h ep)
