-- ===== src/Janitor/Reconcile/Guard.antt =====
-- What a reconcile of the janitor may write.
use cluster_api_runtime_exte.Base.{
  String, ◌≡◌, ◌≢◌, refl, sym, ◌∙◌, Option, none, some, List, [], ◌∷◌, arith,
}
use cluster_api_runtime_exte.Base.Lists.{All}
use cluster_api_runtime_exte.Janitor.{
  Hardware, Class, claimed, never_claimed, bootstrap_reserved, half_released, released, Options,
  Field,
}
use cluster_api_runtime_exte.Janitor.Classify.{classify}
use cluster_api_runtime_exte.Janitor.Scrub.{scrub}
use cluster_api_runtime_exte.Janitor.Scrub.Again.{scrub-classify}
use cluster_api_runtime_exte.Janitor.Reconcile.{
  ApiError, conflict, found, Action, update, scrubbed_event, act, send, after_update, reconcile,
}

-- The Hardware that is sent is the one that was read, less its user data, and with its version.
abbrev pub IsScrubOf : Hardware → Hardware → Type 0
IsScrubOf read sent =
    (sent.name ≡ read.name)
    × (sent.namespace ≡ read.namespace)
    × (sent.resource_version ≡ read.resource_version)
    × (sent.labels ≡ read.labels)
    × (sent.agent_id ≡ read.agent_id)
    × (sent.user_data ≡ none)

-- An update is sent only for a released Hardware, and of that Hardware.
abbrev pub IsGuarded : Hardware → Action → Type 0
IsGuarded read (update sent) = (classify read ≡ released) × IsScrubOf read sent
IsGuarded read _ = Unit

scrub-IsScrubOf :
    (opts : Options) (now : String) (hw : Hardware) → IsScrubOf hw (scrub opts now hw).0
unfolding scrub
scrub-IsScrubOf opts now hw = (refl, refl, refl, refl, refl, refl)

module _ (opts : Options) (now : String) (answer : Hardware → Option ApiError) where
  quiet_end : (read : Hardware) (o : Option ApiError) → All (IsGuarded read) (after_update o).1
  quiet_end read o = ground arith

  send-IsGuarded :
      (read sent : Hardware) (fields : List Field)
      → classify read ≡ released
      → IsScrubOf read sent
      → All (IsGuarded read) (send opts now answer sent fields).1
  send-IsGuarded read sent [] c h = tt
  send-IsGuarded read sent (_ ∷ _) c h = ((c, h), quiet_end read (answer sent))

  act-IsGuarded :
      (hw : Hardware) (c : Class)
      → classify hw ≡ c
      → All (IsGuarded hw) (act opts now answer hw c).1
  unfolding act
  act-IsGuarded hw claimed e = (tt, tt)
  act-IsGuarded hw never_claimed e = (tt, tt)
  act-IsGuarded hw bootstrap_reserved e = (tt, tt)
  act-IsGuarded hw half_released e = (tt, (tt, tt))
  act-IsGuarded hw released e =
      let (scrubbed, cleared) = scrub opts now hw in
      (tt, send-IsGuarded hw scrubbed cleared e (scrub-IsScrubOf opts now hw))

  -- Whatever the server answers, a reconcile that read a Hardware sends an update only if that Hardware
  -- is of the released class, and what it sends has the name, the version, the labels and the agent's
  -- id that were read, and no user data.
  pub reconcile-IsGuarded :
      (namespace name : String) (hw : Hardware)
      → All (IsGuarded hw) (reconcile opts now answer namespace name (found hw)).1
  unfolding reconcile
  reconcile-IsGuarded namespace name hw = act-IsGuarded hw (classify hw) refl

  -- What the API server's documents say of an update with an old resourceVersion: it is a conflict.
  abbrev pub RefusesOld : Hardware → Type 0
  RefusesOld stored =
      (sent : Hardware)
      → sent.resource_version ≢ stored.resource_version
      → answer sent ≡ some conflict

  abbrev pub IsScrubbed : Action → Type 0
  IsScrubbed scrubbed_event = Unit
  IsScrubbed _ = ⊥

  send-stale :
      (sent : Hardware) (fields : List Field)
      → fields ≢ []
      → answer sent ≡ some conflict
      → let (e, actions) = send opts now answer sent fields in
        (e ≡ some conflict) × All (λ a. ¬ IsScrubbed a) actions
  send-stale sent [] n h = absurd (n refl)
  send-stale sent (_ ∷ _) n h = rw h (refl, (λ x. x, (λ x. x, tt)))

  -- If the stored Hardware has another version than the released one that was read, as after a claim
  -- in between, and the server refuses updates with an old version, the reconcile ends in the
  -- conflict, and reports no scrub.
  pub reconcile_stale :
      (namespace name : String) (hw stored : Hardware)
      → RefusesOld stored
      → hw.resource_version ≢ stored.resource_version
      → classify hw ≡ released
      → let (e, actions) = reconcile opts now answer namespace name (found hw) in
        (e ≡ some conflict) × All (λ a. ¬ IsScrubbed a) actions
  unfolding reconcile act
  reconcile_stale namespace name hw stored refuses old c =
      let (scrubbed, cleared) = scrub opts now hw in
      let (e, quiet) =
        send-stale scrubbed cleared (scrub-classify opts now hw c).1
          (refuses scrubbed (λ e. old (sym (scrub-IsScrubOf opts now hw).2 ∙ e))) in
      rw c (e, (λ x. x, quiet))
