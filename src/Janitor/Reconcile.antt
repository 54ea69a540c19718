-- ===== src/Janitor/Reconcile.antt =====
-- Reconcile of internal/janitor/reconciler.go. The calls are in the order in which they are made; the
-- API server's answers are arguments: of the read, and of the update of the object that is sent.
pub mod Guard
use cluster_api_runtime_exte.Base.{String, Option, none, some, List, [], ◌∷◌}
use cluster_api_runtime_exte.Janitor.{Hardware, Class, half_released, released, Options, Field}
use cluster_api_runtime_exte.Janitor.Classify.{classify}
use cluster_api_runtime_exte.Janitor.Scrub.{scrub}

-- The errors that the code tells apart.
pub data ApiError : Type 0 where
  not_found conflict : ApiError
  other : String → ApiError

pub data Read : Type 0 where
  found : Hardware → Read
  failed : ApiError → Read

-- The gauge of half-released Hardware, the events and the counters of metrics.go, and the update.
pub data Action : Type 0 where
  drop_gauge raise_gauge : String → String → Action
  half_released_event scrubbed_event : Action
  update : Hardware → Action
  count_conflict count_scrubbed : Action

abbrev ignore_not_found : ApiError → Option ApiError
ignore_not_found not_found = none
ignore_not_found e = some e

abbrev on_failed_read : String → String → ApiError → List Action
on_failed_read namespace name not_found = drop_gauge namespace name ∷ []
on_failed_read namespace name _ = []

abbrev on_failed_update : ApiError → List Action
on_failed_update conflict = count_conflict ∷ []
on_failed_update _ = []

abbrev pub after_update : Option ApiError → Option ApiError × List Action
after_update none = (none, scrubbed_event ∷ count_scrubbed ∷ [])
after_update (some e) = (some e, on_failed_update e)

module _ (opts : Options) (now : String) (answer : Hardware → Option ApiError) where
  abbrev pub send : Hardware → List Field → Option ApiError × List Action
  send scrubbed [] = (none, [])
  send scrubbed (_ ∷ _) =
      let (e, actions) = after_update (answer scrubbed) in (e, update scrubbed ∷ actions)

  -- The part from the classification on, for the class that was found.
  unfoldable pub act : Hardware → Class → Option ApiError × List Action
  act hw half_released = (none, raise_gauge hw.namespace hw.name ∷ half_released_event ∷ [])
  act hw released =
      let (scrubbed, cleared) = scrub opts now hw in
      let (e, actions) = send scrubbed cleared in (e, drop_gauge hw.namespace hw.name ∷ actions)
  act hw _ = (none, drop_gauge hw.namespace hw.name ∷ [])

  -- Reconcile: the error that it returns, and the calls.
  unfoldable pub reconcile : String → String → Read → Option ApiError × List Action
  unfolding act
  reconcile namespace name (failed e) = (ignore_not_found e, on_failed_read namespace name e)
  reconcile namespace name (found hw) = act hw (classify hw)
