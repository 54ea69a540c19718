-- ===== src/Worker/Runs.antt =====
-- A worker that sees one controller announce itself twice.
use mathlib.Core.List.Perm
use cluster_api_runtime_exte.Base.{
  ℕ, ◌+◌, ◌≡◌, ◌≢◌, refl, true, none, some, [], ◌∷◌, arith, string_eq, nat_eq, if◌then◌else◌,
}
use cluster_api_runtime_exte.Base.Lists.{IsIn}
use cluster_api_runtime_exte.Base.Dict.{lookup, has}
use cluster_api_runtime_exte.Mdns.{v4, Endpoint, Entry, key}
use cluster_api_runtime_exte.Sync.Names.Label.{IsLabel}
use cluster_api_runtime_exte.Sync.Syncer.{object_name}
use cluster_api_runtime_exte.Sync.Scenario.{machine, syncer, cluster, factory}
use cluster_api_runtime_exte.Worker.{collected}
use cluster_api_runtime_exte.Worker.Handle.{Worker, spelled, with_port, handle}
use cluster_api_runtime_exte.Worker.Handle.Named.{object_name_ipv4-IsLabel}
use cluster_api_runtime_exte.Worker.Handle.Outcome.{IsOutcome}
use cluster_api_runtime_exte.Worker.Queue.{
  Running, started, observe, resync, keys, was_added, Reach, at_start, observed,
}
use cluster_api_runtime_exte.Mdns.Heard.{IsConverted}
use cluster_api_runtime_exte.Mdns.Cycle.Scenario.{browser, advertised, found, at_send}
use cluster_api_runtime_exte.Worker.Discovered.{Reach-IsDiscovered}
use cluster_api_runtime_exte.Worker.Queue.Latest.{latest, Reach-latest}
use cluster_api_runtime_exte.Worker.Queue.Answers.{Reach-IsOutcome}
use cluster_api_runtime_exte.Worker.Queue.Resync.{times_added, resync-times_added}

abbrev endpoint : Endpoint
endpoint = record {
  instance_name = "n1";
  service = "_obmc_console._tcp";
  hostname = "n1.local.";
  ip = v4 10 0 0 7;
  port = 2200;
}

abbrev moved : Endpoint
moved = record endpoint { ip = v4 10 0 0 8 }

abbrev worker : Worker
worker = record {
  secret = none;
  collect = λ ep creds. collected machine;
  syncer = syncer;
  cluster = cluster none;
  default_credentials = ("*", factory) ∷ [];
  redfish_port = 443;
  now = "2026-01-01T12:00:00Z";
  ipv6_text = λ bytes. [];
}

object_name_ipv4-IsLabel_example :
    let name = object_name syncer (spelled worker endpoint) machine in IsLabel name × (name ≢ [])
object_name_ipv4-IsLabel_example =
    object_name_ipv4-IsLabel worker endpoint machine 10 0 0 7 (omega arith) refl

abbrev twice : Running
twice = observe moved (observe endpoint started)

twice-Reach : Reach (moved ∷ endpoint ∷ []) twice
twice-Reach = observed moved (observed endpoint at_start)

Reach-latest_example :
    lookup "_obmc_console._tcp/n1" twice.known
    ≡ latest "_obmc_console._tcp/n1" (moved ∷ endpoint ∷ [])
Reach-latest_example = Reach-latest twice-Reach "_obmc_console._tcp/n1"

moved-added : was_added "_obmc_console._tcp/n1" twice.calls ≡ true
unfolding was_added observe key string_eq
moved-added = refl

Reach-IsOutcome_example :
    (ep : Endpoint) × (latest "_obmc_console._tcp/n1" (moved ∷ endpoint ∷ []) ≡ some ep)
    × (key ep ≡ "_obmc_console._tcp/n1")
    × IsOutcome worker (with_port 443 ep) (handle worker twice.known "_obmc_console._tcp/n1")
Reach-IsOutcome_example = Reach-IsOutcome worker "_obmc_console._tcp/n1" twice-Reach moved-added

abbrev once : Running
once = observe found started

once-added : was_added "_obmc_console._tcp/n1" once.calls ≡ true
unfolding was_added observe key string_eq
once-added = refl

Reach-IsDiscovered_example :
    (e : Entry) × (ep : Endpoint) × IsIn e (advertised ∷ [])
    × IsConverted e (some ep)
    × (key ep ≡ "_obmc_console._tcp/n1")
    × IsOutcome worker (with_port 443 ep) (handle worker once.known "_obmc_console._tcp/n1")
Reach-IsDiscovered_example =
    Reach-IsDiscovered ℕ browser worker "_obmc_console._tcp/n1" [] at_send (observed found at_start)
      refl once-added

resync-times_added_example :
    times_added "_obmc_console._tcp/n1" (resync (keys twice.known) twice).calls
    ≡ (if has "_obmc_console._tcp/n1" twice.known then 1 else 0)
      + times_added "_obmc_console._tcp/n1" twice.calls
resync-times_added_example =
    resync-times_added (keys twice.known) "_obmc_console._tcp/n1" twice-Reach
      (Perm.refl (keys twice.known))
