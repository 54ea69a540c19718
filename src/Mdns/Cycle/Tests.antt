-- ===== src/Mdns/Cycle/Tests.antt =====
-- The end of a cycle of browseOnce, and what its forwarder has sent.
use cluster_api_runtime_exte.Base.{ℕ, ◌*◌, ◌≤◌, refl, true, false, [], ◌∷◌, arith, nat_eq}
use cluster_api_runtime_exte.Base.Lists.{length}
use cluster_api_runtime_exte.Mdns.{entry_to_endpoint, addr_from_slice, first_ipv4, is4, unmap}
use cluster_api_runtime_exte.Mdns.Cycle.{
  Browsing, browsing, selecting, returned, receive, here, quiet, heard, sent, deliver, take, send,
  leave, quit, Reach, cancelled, moved,
}
use cluster_api_runtime_exte.Mdns.Cycle.Ends.{none_left, one_more, CanMove, Reach-ends}
use cluster_api_runtime_exte.Mdns.Cycle.Passed.{Course, fresh, stepped, Passed, Course-Passed}
use cluster_api_runtime_exte.Mdns.Cycle.Scenario.{
  browser, advertised, found, alone, queued, offered, at_offer,
}

-- The library returns and the caller ends its context, while the endpoint is offered.
abbrev idle : Browsing
idle = record offered { asking = false }

at_end :
    Reach ℕ browser
      (advertised ∷ [])
      (record { phase = browsing false (idle ∷ []); done = true; events = []; unread = 0 })
at_end =
    cancelled
      (moved false (offered ∷ []) (idle ∷ []) quiet refl (here (leave offered refl)) at_offer)

abbrev gone : Browsing
gone = record idle { forwarder = returned }

Reach-ends_example : (1 ≤ 34 * length (idle ∷ [])) × CanMove true (gone ∷ [])
Reach-ends_example =
    Reach-ends ℕ browser at_end false (idle ∷ []) (gone ∷ []) 1 refl refl (refl, tt)
      (one_more false quiet (here (quit idle refl refl)) none_left)

course : Course "_obmc_console._tcp" false (advertised ∷ []) (found ∷ []) alone
unfolding entry_to_endpoint first_ipv4 addr_from_slice is4 unmap receive
course = stepped true (sent found) (send offered found refl refl) (
    stepped false quiet (take queued advertised [] refl refl)
      (stepped false (heard advertised) (deliver alone advertised refl refl (omega arith)) fresh))

Course-Passed_example : Passed false selecting [] false (advertised ∷ []) (found ∷ [])
Course-Passed_example = Course-Passed course
