-- ===== src/Teardown/ResetPhase.antt =====
-- The reset phase of internal/teardown/reconciler.go.
use cluster_api_runtime_exte.Base.{
  ℕ, ◌+◌, String, false, [], ◌∷◌, ltb, ◌==◌, string_eq, if◌then◌else◌,
}
use cluster_api_runtime_exte.Base.Dict.{has}
use cluster_api_runtime_exte.Teardown.Api.{
  ResetOutcome, done, skipped_timeout, skipped_no_address, reset_text, reset_annotation,
}
use cluster_api_runtime_exte.Teardown.Effect.{
  Error, wrap, transient, ResetRequest, reset_generic, Exec, pure, raise, handle, this, clock,
  closing, normal, warning, ◌>>=◌, ◌>>◌,
}
use cluster_api_runtime_exte.Teardown.Controller.{Reconciler, emit, count, stamp_phase}
use cluster_api_runtime_exte.Teardown.Address.{resolve_address}
use cluster_api_runtime_exte.Teardown.EtcdPhase.{dial_node, call, load_config}

-- The wipe that tryReset asks for: halt, without leaving etcd.
abbrev pub wipe_request : ResetRequest
wipe_request = record { graceful = false; reboot = false; wipe = "STATE" ∷ "EPHEMERAL" ∷ [] }

module _ (r : Reconciler) where
  -- The part of tryReset that holds the node's client.
  unfoldable pub reset_node : String → Exec ResetOutcome
  reset_node address = clock r.env >>= λ started.
      handle (call r address (reset_generic wipe_request))
        (λ _. clock r.env >>= λ finished. count "teardown_reset_duration_seconds" "" >> pure done)
        (λ e. raise (wrap "resetting node" e))

  -- tryReset
  unfoldable pub try_reset : Exec ResetOutcome
  try_reset = this >>= λ m. resolve_address r m >>= λ address.
      if address == ""
      then pure skipped_no_address
      else load_config r m >>= λ cfg.
          dial_node r cfg address >> closing address (reset_node address)

  -- The deadline's decision in resetPhase.
  unfoldable pub skip_or_retry : ℕ → Error → Exec ResetOutcome
  skip_or_retry observed_at e = clock r.env >>= λ now.
      if ltb (observed_at + r.reset_timeout) now
      then (emit warning "TalosResetSkipped" >> pure skipped_timeout)
      else raise (transient e)

  abbrev reset_event : ResetOutcome → Exec (Unit {0})
  reset_event done = emit normal "TalosResetSucceeded"
  reset_event skipped_no_address = emit normal "TalosResetSkipped"
  reset_event skipped_timeout = pure tt

  unfoldable pub record_reset_outcome : ResetOutcome → Exec (Unit {0})
  record_reset_outcome o = count "teardown_reset_total" (reset_text o) >> reset_event o

  -- resetPhase
  unfoldable pub reset_phase : ℕ → Exec (Unit {0})
  reset_phase observed_at = this >>= λ m.
      if has reset_annotation m.annotations
      then pure tt
      else handle (try_reset) (λ o. pure o) (skip_or_retry observed_at) >>= λ o.
          stamp_phase r reset_annotation (reset_text o) >> record_reset_outcome o
