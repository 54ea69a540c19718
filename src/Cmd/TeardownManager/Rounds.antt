-- ===== src/Cmd/TeardownManager/Rounds.antt =====
-- The rounds of the garbage collection.
use cluster_api_runtime_exte.Base.{ℕ, zero, suc}
use cluster_api_runtime_exte.Teardown.Effect.{World}
use cluster_api_runtime_exte.Teardown.Controller.{Reconciler}
use cluster_api_runtime_exte.Teardown.Credentials.Collected.{IsJustified, WasListed, gc-IsJustified}
use cluster_api_runtime_exte.Cmd.TeardownManager.{credential_gc}

module _ (r : Reconciler) where
  -- However often the garbage collection comes round and whatever errors its rounds end in, it deletes a
  -- secret only if it was listed as a cached copy and, right before, the Cluster that its labels name was
  -- not found and none of the Machines of that Cluster qualified: if the deletions of the trace of before
  -- are like that, so are those of the trace of after.
  pub credential_gc-IsJustified :
      (ticks : ℕ) (w : World)
      → IsJustified r (WasListed r) w.trace
      → IsJustified r (WasListed r) (credential_gc r ticks w).trace
  unfolding credential_gc
  credential_gc-IsJustified zero w h = gc-IsJustified r w h
  credential_gc-IsJustified (suc ticks) w h =
      credential_gc-IsJustified ticks _ (gc-IsJustified r w h)
