-- ===== src/Janitor/Scrub.antt =====
-- internal/janitor/scrub.go: what is cleared of a released Hardware.
pub mod Again
use cluster_api_runtime_exte.Base.{
  ℕ, suc, String, Bool, false, Option, none, some, List, [], ◌∷◌, ◌++◌, ◌==◌, bool_eq, string_eq,
  if◌then◌else◌,
}
use cluster_api_runtime_exte.Base.Dict.{Dict, insert}
use cluster_api_runtime_exte.Janitor.{
  Interface, Instance, Hardware, Options, Field, user_data_field, operating_system_field,
  state_field, allow_pxe_field, scrubbed_at_annotation,
}

abbrev clear_user_data : Option String → List Field
clear_user_data none = []
clear_user_data (some _) = user_data_field ∷ []

abbrev clear_os : Instance → List Field
clear_os i = elim i.operating_system [ none ↦ [] | some _ ↦ operating_system_field ∷ [] ]

abbrev clear_state : Instance → List Field
clear_state i = if i.state == "" then [] else state_field ∷ []

-- The part on metadata.instance.
unfoldable pub scrub_instance : Bool → Option Instance → Option Instance × List Field
scrub_instance clear none = (none, [])
scrub_instance clear (some i) =
    if clear
    then (some (record i { operating_system = none; state = "" }), clear_os i ++ clear_state i)
    else (some i, [])

abbrev is_parked : Bool → Option Bool → Bool
is_parked baseline none = false
is_parked baseline (some allow) = allow == baseline

-- One turn of the loop over the interfaces.
unfoldable pub park : Bool → ℕ → Interface → Interface × List Field
park baseline n i = elim i.netboot [
  | none ↦ (i, [])
  | some b ↦ if is_parked baseline b.allow_pxe then (i, []) else (
    record i { netboot = some (record b { allow_pxe = some baseline }) },
    allow_pxe_field n ∷ [],
  )
]

unfoldable pub park_all : Bool → ℕ → List Interface → List Interface × List Field
park_all baseline n [] = ([], [])
park_all baseline n (i ∷ rest) =
    let (i', changed) = park baseline n i in
    let (rest', more) = park_all baseline (suc n) rest in (i' ∷ rest', changed ++ more)

abbrev stamped : String → List Field → Dict String → Dict String
stamped now [] annotations = annotations
stamped now (_ ∷ _) annotations = insert scrubbed_at_annotation now annotations

-- Scrub, at the time `now` (its text): the Hardware as it is left, and the fields that changed.
unfoldable pub scrub : Options → String → Hardware → Hardware × List Field
unfolding scrub_instance park park_all
scrub opts now hw =
    let (instance, os) = scrub_instance opts.clear_os_metadata hw.instance in
    let (interfaces, parked) = park_all opts.baseline_allow_pxe 0 hw.interfaces in
    let changed = clear_user_data hw.user_data ++ os ++ parked in
    (
      record hw {
        user_data = none;
        instance = instance;
        interfaces = interfaces;
        annotations = stamped now changed hw.annotations;
      },
      changed,
    )
