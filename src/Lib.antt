-- ===== src/Lib.antt =====
-- Three controllers of this repository.
--
-- The teardown (internal/teardown, cmd/talos-machine-teardown) stands in the way of the deletion of a
-- Cluster API Machine with a pre-terminate hook: it takes a control-plane node out of etcd, wipes the
-- node by a Talos reset, records both conclusions as annotations, and only then takes its hook off.
-- The janitor (internal/janitor, cmd/tinkerbell-hardware-janitor) clears what a released Tinkerbell
-- Hardware still holds of its last owner. The discovery (internal/mdns, internal/inventory,
-- internal/sync, internal/controller, cmd/main.go) hears machines announce their controllers over mDNS,
-- takes the inventory of each with the first credentials that are accepted, and makes and refreshes a
-- Secret, a Machine and a Hardware for it. The three share no memory: all work on objects of the API
-- server.
--
-- The files.
--   Base and its children: Go's `==`, maps as association lists, sorting, the order of strings, and the
--     resourceVersions of the API server.
--   Teardown/Api: the fields of the objects that the teardown reads, the constants of
--     internal/teardown/teardown.go.
--   Teardown/Qualify: internal/teardown/qualify.go.
--   Teardown/Effect: the calls, the answers, errors, and the sequencing of both. Effect/Pushes and
--     Effect/Triples are the rules by which programs are reasoned about.
--   Teardown/Controller: the Reconciler's fields, patchAnnotations, stampPhase, clusterKeyFor.
--   Teardown/Address, Teardown/Credentials, Teardown/Etcd: internal/teardown/address.go,
--     credentials.go, etcd.go.
--   Teardown/Peers: orderPeers, the loop of serializeControlPlane, sortByAge.
--   Teardown/HookPhase, Teardown/EtcdPhase, Teardown/ResetPhase, Teardown/Reconcile: the functions of
--     internal/teardown/reconciler.go, each under its own name in snake_case.
--   Teardown/Setup: the predicates and mappings of internal/teardown/setup.go, with the proofs in
--     Setup/Wakes.
--   Teardown/Order, Teardown/Gate, Teardown/Liveness, Teardown/Deadline, Teardown/Clients, and the
--     children of Peers, Etcd, Credentials, Address and HookPhase: the proofs. Order/Whole is about one
--     reconcile, Order/Lives about all of a Machine with the restarts of the controller. Clients counts
--     the dials and the closes of a trace. Teardown/Scenario: a cluster in an outage. Teardown/Tests,
--     Teardown/Runs: runs on it.
--   Janitor, Janitor/Classify, Janitor/Scrub, Janitor/Reconcile: internal/janitor/janitor.go,
--     classify.go, scrub.go, reconciler.go. Janitor/Race: the janitor among other writers of a Hardware,
--     with the proof in Race/Claims. Janitor/Tests: a released Hardware.
--   Mdns: the functions of internal/mdns/browser.go, with the proofs in Mdns/Heard (entries and a
--     forwarder alone), Mdns/Key and Mdns/Restricted (interfaces). Mdns/Cycle: Run, browseOnce and forward
--     as goroutines, with the proofs in Cycle/Ends, Cycle/Passed and Cycle/Origin.
--   Inventory: ParseDefaults of internal/inventory/defaults.go, with the proofs in Inventory/Printed,
--     Inventory/Cuts and Inventory/Accepted.
--     Inventory/Collector: internal/inventory/collector.go, with the proofs in Collector/Sessions and
--     Collector/Drivers.
--   Sync/Names, Sync/Template: internal/sync/names.go. Sync/Mapping, Sync/Netboot:
--     internal/sync/mapping.go. Sync/Apply: applyManaged of internal/sync/syncer.go. Sync/Race: the
--     Syncer among other writers of an object. Sync/Syncer: Sync. Their children hold the proofs.
--     Sync/Scenario: a machine with two ports.
--   Worker: credentialCandidates and the loop of handle of internal/controller/worker.go, with the
--     proofs in Worker/Candidates and Worker/Verified. Worker/Handle: handle, which calls the loop and
--     Sync. Worker/Queue: Start and processQueue, with the proofs in Queue/Latest, Queue/Answers and
--     Queue/Resync. Worker/Discovered: the browser and the worker together.
--   Logging: internal/logging/logging.go.
--   Cmd: the flags of the three commands under cmd and what main makes of them, with the proofs in
--     Discovery/Interfaces and TeardownManager/Rounds. Cmd/Startup: what their mains ask of the libraries
--     until the manager runs, with the proof in Startup/FailFast.
--   Every Tests and Runs holds concrete runs.
--
-- State and environment. The teardown's state is the trace of the calls made, newest first, and the
-- Machine in hand, whose annotations Go changes in place before it sends the patch. An answer of the
-- API server, a Talos node or the clock is a function of the trace so far (`Env`), so that any server,
-- any failure and any interleaving of other writers is an environment. The janitor makes one read and at
-- most one update: its answers are arguments, and so are those to applyManaged and Collect. Races are
-- relations: of the janitor or the Syncer with all other writers of an object (`Reach` of the two Race
-- files), of a Machine's reconciles with the restarts of the controller (`Life`), and of the browser's
-- goroutines with the library, the clock, the caller and the reader of the events channel, which may stop
-- at any time (`Reach` of Mdns/Cycle). The worker's
-- state is its map, the key in flight and the calls of the queue: Start and processQueue are the steps
-- of a relation (`Reach`), in any interleaving. A text that a name is made of is a list of code points.
--
-- Parameters. The texts of the constants of cluster-api (`ClusterApi`); the patch helper, the
-- talosconfig parser, time formatting and parsing, and every server (`Env`). The server applies the
-- label selectors of a list. What a theorem needs of these is a hypothesis: `IsApart` (the prefix of
-- cluster-api's hooks is not that of the teardown's annotations), `IsServing` (writes are taken and
-- Clusters and Machines answered for), `RefusesOld` (an update with an old resourceVersion is refused). In
-- the races the server refuses such a write, too, and gives every write a version that the object has not
-- had; what a server-side apply makes of the stored object is an argument.
-- The resourceVersion of a talosconfig secret tells what it holds (`content` of Credentials/Copies), and
-- what is stored under the name of a copy was written by Ensure for that cluster (`IsCopy`).
-- The collector's libraries, the zeroconf entries, the interfaces of the host and the registrar's
-- PreferDriver answer as arguments; of the last, that it reorders is a hypothesis, and of an address,
-- that its first byte is one.
--
-- Bounds. Timestamps, durations and member ids are natural numbers; nothing is added to them but a
-- timeout to a timestamp. No function needs fuel: every loop of the code is over a list; the loop of
-- credentialGC is over the ticks before its context is done, and those of the browser are steps of a
-- relation. A channel of a browse holds 16 entries, each of which takes a forwarder two steps, and the
-- forwarder has two more of its own: 34 steps for each service type. The events channel holds 16
-- endpoints; a send waits while it is full.
--
-- Not modelled: the texts of events and log lines; the bounds that contexts put on one call (a call
-- that times out is one that answers with an error); the unicode tables of strings.EqualFold beyond
-- ASCII, the Kelvin sign and the long s; the wiring of watches; metrics but for their
-- increments. Of the discovery, not modelled are the flag package, the
-- back-off of the work queue, the shutdown of the worker, and the text of an IPv6 address, which no endpoint
-- has.
pub mod Base
pub mod Teardown
pub mod Janitor
pub mod Sync
pub mod Mdns
pub mod Worker
pub mod Inventory
pub mod Logging
pub mod Cmd
