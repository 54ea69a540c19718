-- ===== src/Cmd/Startup/FailFast.antt =====
-- The requests of the three mains against the list of what each has to set up.
use cluster_api_runtime_exte.Base.{
  String, ◌≡◌, refl, Option, none, some, List, [], ◌∷◌, ◌==◌, string_eq, if◌then◌else◌, Bool-cases,
  Option-cases, inl, inr,
}
use cluster_api_runtime_exte.Logging.{Made, made, unknown_level, unknown_format, new}
use cluster_api_runtime_exte.Cmd.Discovery.{Flags, WorkerSettings, worker_settings}
use cluster_api_runtime_exte.Cmd.TeardownManager.{Options, with_pod_namespace}
use cluster_api_runtime_exte.Cmd.JanitorManager.{JanitorFlags, janitor_options}
use cluster_api_runtime_exte.Cmd.Startup.{
  client_go, bmc, tinkerbell, cluster_api, Deed, add_to_scheme, parse_selector, get_config,
  new_manager, add_worker, set_up_teardown, set_up_janitor, add_credential_gc, add_healthz_check,
  add_readyz_check, start, Ending, returned, exited, Host, Main, leave, attempt, with_logger,
}
use cluster_api_runtime_exte.Cmd.Startup.Mains.{
  discovery_manager, janitor_manager, selector_text, teardown_manager, teardown_settings,
  with_worker, discovery_main, set_up_janitor_manager, janitor_main, set_up_teardown_manager, run,
  teardown_main,
}

-- A process with its flags.
pub data Command : Type 0 where
  discovery : Flags → Command
  janitor : JanitorFlags → Command
  teardown : String → Options → Command

unfoldable pub main_of : Command → Main
main_of (discovery f) = discovery_main f
main_of (janitor f) = janitor_main f
main_of (teardown pod_namespace opts) = teardown_main pod_namespace opts

abbrev discovery_plan : Flags → WorkerSettings → List Deed
discovery_plan f settings =
    add_to_scheme client_go
    ∷ add_to_scheme bmc
    ∷ add_to_scheme tinkerbell
    ∷ get_config
    ∷ new_manager (discovery_manager f)
    ∷ add_worker settings
    ∷ add_healthz_check
    ∷ add_readyz_check
    ∷ start
    ∷ []

abbrev planned : Flags → Option WorkerSettings → Option (List Deed)
planned f none = none
planned f (some settings) = some (discovery_plan f settings)

abbrev janitor_plan : JanitorFlags → List Deed
janitor_plan f =
    add_to_scheme client_go
    ∷ add_to_scheme tinkerbell
    ∷ parse_selector selector_text
    ∷ get_config
    ∷ new_manager (janitor_manager f selector_text)
    ∷ set_up_janitor (janitor_options f)
    ∷ add_healthz_check
    ∷ add_readyz_check
    ∷ start
    ∷ []

abbrev teardown_plan : Options → List Deed
teardown_plan opts =
    add_to_scheme client_go
    ∷ add_to_scheme cluster_api
    ∷ add_to_scheme tinkerbell
    ∷ get_config
    ∷ new_manager (teardown_manager opts)
    ∷ set_up_teardown (teardown_settings opts)
    ∷ add_credential_gc opts.cache_namespace
    ∷ add_healthz_check
    ∷ add_readyz_check
    ∷ start
    ∷ []

abbrev if_made : Made → Option (List Deed) → Option (List Deed)
if_made (made _) plan = plan
if_made _ plan = none

-- What a process is to ask for, in order: `none` where its flags are refused.
unfoldable pub plan_of : Command → Option (List Deed)
plan_of (discovery f) = if_made (new f.log_level f.log_format) (planned f (worker_settings f))
plan_of (janitor f) = if_made (new f.log_level f.log_format) (some (janitor_plan f))
plan_of (teardown pod_namespace o) =
    let opts = with_pod_namespace pod_namespace o in
    if_made (new opts.log_level opts.log_format)
      (if opts.cache_namespace == "" then none else some (teardown_plan opts))

-- A plan is followed from what has been asked already up to the first error, or to its end.
pub data Course (host : Host) : List Deed → List Deed → Ending × List Deed → Type 0 where
  fulfilled : {asked : List Deed} → Course host [] asked (returned, asked)
  refused :
      {d : Deed} {plan asked : List Deed} {e message : String}
      → host asked d ≡ some e
      → Course host (d ∷ plan) asked (exited message, d ∷ asked)
  granted :
      {d : Deed} {plan asked : List Deed} {end : Ending × List Deed}
      → host asked d ≡ none
      → Course host plan (d ∷ asked) end
      → Course host (d ∷ plan) asked end

abbrev pub IsFailFast : Host → Option (List Deed) → Ending × List Deed → Type 0
IsFailFast host none (returned, asked) = ⊥
IsFailFast host none (exited message, asked) = asked ≡ []
IsFailFast host (some plan) end = Course host plan [] end

module _ (host : Host) where
  abbrev Follows : List Deed → Main → Type 0
  Follows plan next = (asked : List Deed) → Course host plan asked (next host asked)

  attempt-Follows :
      (d : Deed) (message : String) {plan : List Deed} (next : Main)
      → Follows plan next
      → Follows (d ∷ plan) (attempt d message next)
  unfolding attempt
  attempt-Follows d message next h asked = elim (Option-cases (host asked d)) [
    | inl c ↦ rw c (granted c (h (d ∷ asked)))
    | inr (e, c) ↦ rw c (refused c)
  ]

  start-Follows : (message : String) → Follows (start ∷ []) (attempt start message (leave returned))
  unfolding leave
  start-Follows message = attempt-Follows start message (leave returned) (λ asked. fulfilled)

  checks-Follows :
      (m n p : String)
      → Follows (add_healthz_check ∷ add_readyz_check ∷ start ∷ []) (
          attempt add_healthz_check m
            (attempt add_readyz_check n (attempt start p (leave returned))))
  checks-Follows m n p = attempt-Follows _ m _ (attempt-Follows _ n _ (start-Follows p))

  logger-IsFailFast :
      (m : Made) (plan : Option (List Deed)) (next : Main)
      → IsFailFast host plan (next host [])
      → IsFailFast host (if_made m plan) (with_logger m next host [])
  unfolding leave
  logger-IsFailFast (made _) plan next h = h
  logger-IsFailFast (unknown_level _) plan next h = refl
  logger-IsFailFast (unknown_format _) plan next h = refl

  worker-IsFailFast :
      (f : Flags) (o : Option WorkerSettings) (next : WorkerSettings → Main)
      → ((s : WorkerSettings) → Follows (discovery_plan f s) (next s))
      → IsFailFast host (planned f o) (with_worker o next host [])
  unfolding leave
  worker-IsFailFast f none next h = refl
  worker-IsFailFast f (some s) next h = h s []

  discovery-IsFailFast :
      (f : Flags) → IsFailFast host (plan_of (discovery f)) (discovery_main f host [])
  unfolding plan_of discovery_main
  discovery-IsFailFast f = logger-IsFailFast (new f.log_level f.log_format) _ _ (
      worker-IsFailFast f (worker_settings f) _
        (λ s. (search (attempt-Follows, checks-Follows) depth 9)))

  janitor-Follows : (f : JanitorFlags) → Follows (janitor_plan f) (set_up_janitor_manager f)
  unfolding set_up_janitor_manager
  janitor-Follows f = search (attempt-Follows, checks-Follows) depth 9

  janitor-IsFailFast :
      (f : JanitorFlags) → IsFailFast host (plan_of (janitor f)) (janitor_main f host [])
  unfolding plan_of janitor_main
  janitor-IsFailFast f =
      logger-IsFailFast (new f.log_level f.log_format) (some (janitor_plan f))
        (set_up_janitor_manager f) (janitor-Follows f [])

  teardown-Follows : (opts : Options) → Follows (teardown_plan opts) (set_up_teardown_manager opts)
  unfolding set_up_teardown_manager
  teardown-Follows opts = search (attempt-Follows, checks-Follows) depth 10

  run-IsFailFast :
      (opts : Options)
      → IsFailFast host
          (if opts.cache_namespace == "" then none else some (teardown_plan opts))
          (run opts host [])
  unfolding run leave
  run-IsFailFast opts = elim (Bool-cases (opts.cache_namespace == "")) [
    | inl t ↦ rw t refl
    | inr f ↦ rw f (teardown-Follows opts [])
  ]

  teardown-IsFailFast :
      (pod_namespace : String) (o : Options)
      → IsFailFast host (plan_of (teardown pod_namespace o)) (teardown_main pod_namespace o host [])
  unfolding plan_of teardown_main
  teardown-IsFailFast pod_namespace o =
      let opts = with_pod_namespace pod_namespace o in
      logger-IsFailFast (new opts.log_level opts.log_format) _ (run opts) (run-IsFailFast opts)

  -- Each of the three processes, once its flags are accepted, asks for what it is to set up in the
  -- order of its plan, of which the start of the manager is the last, and ends with status 1 at the
  -- first error; it returns only once all was granted. One whose flags are refused asks for nothing.
  pub main_of-IsFailFast : (c : Command) → IsFailFast host (plan_of c) (main_of c host [])
  unfolding main_of
  main_of-IsFailFast (discovery f) = discovery-IsFailFast f
  main_of-IsFailFast (janitor f) = janitor-IsFailFast f
  main_of-IsFailFast (teardown pod_namespace o) = teardown-IsFailFast pod_namespace o
