-- ===== src/Mdns/Cycle/Scenario.antt =====
-- A cycle in which one controller announces itself: the runs of Run of internal/mdns/browser.go in tests.
use cluster_api_runtime_exte.Base.{
  ℕ, refl, String, Option, none, false, List, [], ◌∷◌, arith, nat_eq,
}
use cluster_api_runtime_exte.Base.Lists.{length}
use cluster_api_runtime_exte.Mdns.{
  Entry, Endpoint, v4, entry_to_endpoint, addr_from_slice, first_ipv4, is4, unmap, client_options,
}
use cluster_api_runtime_exte.Mdns.Cycle.{
  Browser, Browsing, Running, browsing, sending, launched, receive, launch, begin_cycle, here,
  quiet, heard, sent, deliver, take, send, Reach, called, moved,
}

abbrev pub browser : Browser
browser = record { service_types = "_obmc_console._tcp" ∷ []; interfaces = [] }

abbrev pub advertised : Entry
advertised = record {
  instance_name = "n1";
  service = "_obmc_console._tcp";
  hostname = "n1.local.";
  port = 2200;
  addr_ipv4 = (10 ∷ 0 ∷ 0 ∷ 7 ∷ []) ∷ [];
}

abbrev pub found : Endpoint
found = record {
  instance_name = "n1";
  service = "_obmc_console._tcp";
  hostname = "n1.local.";
  ip = v4 10 0 0 7;
  port = 2200;
}

abbrev pub no_interface : String → Option ℕ
no_interface name = none

abbrev pub alone : Browsing
alone = launched "_obmc_console._tcp"

abbrev pub queued : Browsing
queued = record alone { waiting = advertised ∷ [] }

abbrev pub offered : Browsing
offered = record alone { forwarder = sending found }

-- The states of Run after each step.
abbrev pub stage : Browsing → List Endpoint → Running
stage b events = record {
  phase = browsing false (b ∷ []);
  done = false;
  events = events;
  unread = length events;
}

at_launch : Reach ℕ browser [] (stage alone [])
unfolding begin_cycle launch client_options
at_launch = called no_interface false

at_delivery : Reach ℕ browser (advertised ∷ []) (stage queued [])
at_delivery =
    moved false (alone ∷ []) (queued ∷ []) (heard advertised) refl
      (here (deliver alone advertised refl refl (omega arith))) at_launch

pub at_offer : Reach ℕ browser (advertised ∷ []) (stage offered [])
unfolding entry_to_endpoint first_ipv4 addr_from_slice is4 unmap receive
at_offer =
    moved false (queued ∷ []) (offered ∷ []) quiet refl (here (take queued advertised [] refl refl))
      at_delivery

pub at_send : Reach ℕ browser (advertised ∷ []) (stage alone (found ∷ []))
at_send =
    moved false (offered ∷ []) (alone ∷ []) (sent found) refl (here (send offered found refl refl))
      at_offer
