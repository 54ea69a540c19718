-- ===== src/Worker/Handle/Outcome.antt =====
-- A machine is written about only once one of the candidates has been accepted.
use cluster_api_runtime_exte.Base.{
  String, ◌≡◌, refl, ap, ◌∙◌, ◌⊎◌, inl, inr, true, none, some, List, [], ◌∷◌, nat_eq,
}
use cluster_api_runtime_exte.Base.Dict.{Dict, lookup}
use cluster_api_runtime_exte.Base.Lists.{All}
use cluster_api_runtime_exte.Worker.{
  Credentials, Candidate, collected, Verification, verified, unverified,
}
use cluster_api_runtime_exte.Worker.Candidates.{has_creds}
use cluster_api_runtime_exte.Worker.Verified.{
  IsVerified, verify-IsVerified, IsFirst-has_creds, IsRefused-some,
}
use cluster_api_runtime_exte.Mdns.{Endpoint}
use cluster_api_runtime_exte.Sync.Mapping.{Device}
use cluster_api_runtime_exte.Sync.Syncer.{object_name, sync}
use cluster_api_runtime_exte.Sync.Syncer.Links.{IsLinked, sync-IsLinked}
use cluster_api_runtime_exte.Worker.Handle.{
  Worker, HandleError, Handled, with_port, spelled, sighting, wrapped, answered, conclude_handle,
  candidates_for, try_candidates, handle_endpoint, handle,
}

module _ (w : Worker) where
  -- An error and no write; or a device that was collected with one of the candidates, the result of its
  -- sync, and writes that hold those credentials and refer to each other.
  abbrev pub IsOutcome : Endpoint → Handled → Type 0
  IsOutcome ep (e, writes) =
      ((x : HandleError) × (e ≡ some x) × (writes ≡ []))
      ⊎ ((dev : Device) × (creds : Credentials) × (has_creds creds (candidates_for w ep) ≡ true)
          × (w.collect ep creds ≡ collected dev)
          × (e
              ≡ wrapped w
                  (sync w.syncer w.cluster (sighting w ep) (spelled w ep) (some dev) creds).0)
          × All (IsLinked creds (object_name w.syncer (spelled w ep) dev) w.syncer.namespace)
              writes)

  conclude-IsOutcome :
      (ep : Endpoint) (c : Candidate) (cs : List Candidate) (v : Verification Device)
      → candidates_for w ep ≡ c ∷ cs
      → IsVerified (w.collect ep) none (c ∷ cs) v
      → IsOutcome ep (conclude_handle w ep v)
  unfolding conclude_handle
  conclude-IsOutcome ep c cs (unverified last) same h =
      let (x, e) = IsRefused-some (w.collect ep) none c cs last h in
      inl (_, ap (answered w) e, refl)
  conclude-IsOutcome ep c cs (verified dev creds) same h =
      let (has, got) = IsFirst-has_creds (w.collect ep) h in
      inr (
        dev,
        creds,
        ap (has_creds creds) same ∙ has,
        got,
        refl,
        sync-IsLinked w.syncer w.cluster (sighting w ep) (spelled w ep) dev creds,
      )

  try-IsOutcome :
      (ep : Endpoint) (cs : List Candidate)
      → candidates_for w ep ≡ cs
      → IsOutcome ep (try_candidates w ep cs)
  try-IsOutcome ep [] same = inl (_, refl, refl)
  try-IsOutcome ep (c ∷ cs) same =
      conclude-IsOutcome ep c cs _ same (verify-IsVerified (w.collect ep) none (c ∷ cs))

  -- A handle of a known endpoint fails with no write, or the collector has taken the inventory of the
  -- endpoint, at the configured port if one is configured, with one of the candidates: then the error is
  -- that of the sync, and all that is written refers to the other objects of the machine and holds those
  -- credentials. So it returns no error only if a device was collected and its sync had none.
  pub handle-IsOutcome :
      (known : Dict Endpoint) (key : String) (ep : Endpoint)
      → lookup key known ≡ some ep
      → IsOutcome (with_port w.redfish_port ep) (handle w known key)
  unfolding handle handle_endpoint
  handle-IsOutcome known key ep h = rw h (try-IsOutcome (with_port w.redfish_port ep) _ refl)
