-- ===== src/Mdns/Cycle.antt =====
-- Run and browseOnce of internal/mdns/browser.go: for each service type a goroutine that browses and one
-- that forwards what it hears, until the browse context is done; then the wait for the next cycle. A step
-- is what one goroutine, the zeroconf library, the clock or the caller does. The browsing goroutine is
-- zeroconf.Browse: it puts entries on the channel, may close it, and returns.
pub mod Ends
pub mod Passed
pub mod Origin
pub mod Scenario
mod Tests
use cluster_api_runtime_exte.Base.{
  ℕ, suc, ltb, ◌<◌, ◌≡◌, String, Bool, true, false, ◌||◌, Option, none, some, List, [], ◌∷◌, ◌++◌,
}
use cluster_api_runtime_exte.Base.Lists.{length, All}
use cluster_api_runtime_exte.Mdns.{
  Endpoint, Entry, entry_to_endpoint, BrowseOptions, client_options,
}

-- ZeroconfBrowser: its service types and interfaces. Domain, Interval and Window are handed on to the
-- library and the clock.
pub record Browser : Type 0 where
  pub service_types : List String
  pub interfaces : List String

-- What the forwarder does: it waits in the outer select, it waits in the inner one with an endpoint
-- to send, or it has returned.
pub data Forwarder : Type 0 where
  selecting : Forwarder
  sending : Endpoint → Forwarder
  returned : Forwarder

-- The two goroutines of one service type, and the channel between them.
pub record Browsing : Type 0 where
  pub service : String
  pub asking : Bool
  pub waiting : List Entry
  pub closed : Bool
  pub forwarder : Forwarder

-- The capacity of the channel of entries.
abbrev pub capacity : ℕ
capacity = 16

-- The capacity of the events channel, which Start of internal/controller/worker.go makes.
abbrev pub events_capacity : ℕ
events_capacity = 16

-- The goroutines as browseOnce starts them.
abbrev pub launched : String → Browsing
launched service = record {
  service = service;
  asking = true;
  waiting = [];
  closed = false;
  forwarder = selecting;
}

-- The forwarder has received an entry.
unfoldable pub receive : Option Endpoint → Forwarder
receive none = selecting
receive (some ep) = sending ep

-- Whether the forwarder has returned.
abbrev pub is_back : Forwarder → Bool
is_back returned = true
is_back _ = false

-- What others see of a step: an entry of the library, an endpoint on the events channel, or nothing.
pub data Signal : Type 0 where
  quiet : Signal
  heard : Entry → Signal
  sent : Endpoint → Signal

-- A step of the goroutines of one service type: `over` is whether the browse context is done, `room`
-- whether the events channel has room for an endpoint.
pub data Move (over room : Bool) : Signal → Browsing → Browsing → Type 0 where
  -- zeroconf.Browse
  deliver :
      (b : Browsing) (e : Entry)
      → b.asking ≡ true
      → b.closed ≡ false
      → length b.waiting < capacity
      → Move over room (heard e) b (record b { waiting = b.waiting ++ e ∷ [] })
  close :
      (b : Browsing)
      → b.asking ≡ true
      → b.closed ≡ false
      → Move over room quiet b (record b { closed = true })
  leave : (b : Browsing) → b.asking ≡ true → Move over room quiet b (record b { asking = false })
  -- forward
  take :
      (b : Browsing) (e : Entry) (rest : List Entry)
      → b.forwarder ≡ selecting
      → b.waiting ≡ e ∷ rest
      → Move over room quiet b
          (record b { waiting = rest; forwarder = receive (entry_to_endpoint e) })
  drained :
      (b : Browsing)
      → b.forwarder ≡ selecting
      → b.waiting ≡ []
      → b.closed ≡ true
      → Move over room quiet b (record b { forwarder = returned })
  send :
      (b : Browsing) (ep : Endpoint)
      → b.forwarder ≡ sending ep
      → room ≡ true
      → Move over room (sent ep) b (record b { forwarder = selecting })
  quit :
      (b : Browsing)
      → over ≡ true
      → is_back b.forwarder ≡ false
      → Move over room quiet b (record b { forwarder = returned })

-- A step of one of the service types.
pub data Among (over room : Bool) (signal : Signal) : List Browsing → List Browsing → Type 0 where
  here :
      {b b' : Browsing} {bs : List Browsing}
      → Move over room signal b b'
      → Among over room signal (b ∷ bs) (b' ∷ bs)
  there :
      {b : Browsing} {bs bs' : List Browsing}
      → Among over room signal bs bs'
      → Among over room signal (b ∷ bs) (b ∷ bs')

-- Where Run stands: in a cycle, with whether its window has passed; between two cycles; at its end.
pub data Phase : Type 0 where
  browsing : Bool → List Browsing → Phase
  pausing : Phase
  ended : Phase

-- `done` is that of the caller's context; `events` are the endpoints sent, newest first; of these,
-- `unread` are on the events channel: the worker has not received them.
pub record Running : Type 0 where
  pub phase : Phase
  pub done : Bool
  pub events : List Endpoint
  pub unread : ℕ

-- The events after a step.
abbrev pub with_signal : Signal → List Endpoint → List Endpoint
with_signal (sent ep) events = ep ∷ events
with_signal _ events = events

-- The number of endpoints on the events channel after a step.
abbrev pub with_unread : Signal → ℕ → ℕ
with_unread (sent ep) n = suc n
with_unread _ n = n

-- The entries after a step, newest first.
abbrev pub with_entry : Signal → List Entry → List Entry
with_entry (heard e) entries = e ∷ entries
with_entry _ entries = entries

-- WaitGroup.Wait returns: both goroutines of each service type have.
abbrev pub AllBack : List Browsing → Type 0
AllBack = All (λ b. (b.asking ≡ false) × (is_back b.forwarder ≡ true))

unfoldable pub launch : List String → List Browsing
launch [] = []
launch (service ∷ rest) = launched service ∷ launch rest

module _ (Interface : Type 0) (b : Browser) where
  abbrev pub cycle_with : Option (BrowseOptions Interface) → Phase
  cycle_with none = pausing
  cycle_with (some _) = browsing false (launch b.service_types)

  -- The start of browseOnce, with the interfaces that the host has then.
  unfoldable pub begin_cycle : (String → Option Interface) → Phase
  begin_cycle interface_by_name = cycle_with (client_options interface_by_name b.interfaces)

  -- The states that Run comes through, and the entries that the library has put on its channels,
  -- newest first. When the interval has passed, the select of Run may begin a cycle even if the
  -- context is done.
  pub data Reach : List Entry → Running → Type 0 where
    called :
        (find : String → Option Interface) (done : Bool)
        → Reach [] (record { phase = begin_cycle find; done = done; events = []; unread = 0 })
    cancelled : {h : List Entry} {s : Running} → Reach h s → Reach h (record s { done = true })
    expired :
        {h : List Entry} {s : Running} (bs : List Browsing)
        → s.phase ≡ browsing false bs
        → Reach h s
        → Reach h (record s { phase = browsing true bs })
    moved :
        {h : List Entry} {s : Running} (over : Bool) (bs bs' : List Browsing) (signal : Signal)
        → s.phase ≡ browsing over bs
        → Among (over || s.done) (ltb s.unread events_capacity) signal bs bs'
        → Reach h s
        → Reach (with_entry signal h) (record s {
          phase = browsing over bs';
          events = with_signal signal s.events;
          unread = with_unread signal s.unread;
        })
    -- The worker receives from the events channel.
    received :
        {h : List Entry} {s : Running} (n : ℕ)
        → s.unread ≡ suc n
        → Reach h s
        → Reach h (record s { unread = n })
    waited :
        {h : List Entry} {s : Running} (over : Bool) (bs : List Browsing)
        → s.phase ≡ browsing over bs
        → AllBack bs
        → Reach h s
        → Reach h (record s { phase = pausing })
    again :
        {h : List Entry} {s : Running} (find : String → Option Interface)
        → s.phase ≡ pausing
        → Reach h s
        → Reach h (record s { phase = begin_cycle find })
    stopped :
        {h : List Entry} {s : Running}
        → s.phase ≡ pausing
        → s.done ≡ true
        → Reach h s
        → Reach h (record s { phase = ended })
