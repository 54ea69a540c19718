-- ===== src/Mdns/Cycle/Origin.antt =====
-- Where the endpoints that Run of internal/mdns/browser.go sends come from.
use cluster_api_runtime_exte.Base.{
  ◌≡◌, refl, subst, Option, none, some, Bool, String, List, [], ◌∷◌,
}
use cluster_api_runtime_exte.Base.Lists.{All, All-append, All-weaken, IsIn, at_head, in_tail}
use cluster_api_runtime_exte.Mdns.{Entry, Endpoint, entry_to_endpoint, client_options}
use cluster_api_runtime_exte.Mdns.Cycle.{
  Forwarder, selecting, sending, returned, Browsing, receive, Signal, quiet, heard, sent, Move,
  deliver, close, leave, take, drained, send, quit, Among, here, there, Phase, browsing, Running,
  with_signal, with_entry, launch, Browser, cycle_with, begin_cycle, Reach, called, cancelled,
  expired, moved, received, received, waited, again, stopped,
}

-- The endpoint of an entry that the library has delivered.
abbrev pub IsHeard : List Entry → Endpoint → Type 0
IsHeard h ep = (e : Entry) × IsIn e h × (entry_to_endpoint e ≡ some ep)

abbrev Held : List Entry → Forwarder → Type 0
Held h (sending ep) = IsHeard h ep
Held h _ = Unit

abbrev Sound : List Entry → Browsing → Type 0
Sound h b = All (λ e. IsIn e h) b.waiting × Held h b.forwarder

abbrev SoundPhase : List Entry → Phase → Type 0
SoundPhase h (browsing over bs) = All (Sound h) bs
SoundPhase h _ = Unit

abbrev SoundRunning : List Entry → Running → Type 0
SoundRunning h s = All (IsHeard h) s.events × SoundPhase h s.phase

module _ (signal : Signal) (h : List Entry) where
  IsIn-later : (e : Entry) → IsIn e h → IsIn e (with_entry signal h)
  IsIn-later e i = from signal
    where
      from : (signal : Signal) → IsIn e (with_entry signal h)
      from quiet = i
      from (heard x) = in_tail i
      from (sent ep) = i

  IsHeard-later : (ep : Endpoint) → IsHeard h ep → IsHeard (with_entry signal h) ep
  IsHeard-later ep (e, i, k) = (e, IsIn-later e i, k)

  Held-later : (f : Forwarder) → Held h f → Held (with_entry signal h) f
  Held-later selecting k = tt
  Held-later (sending ep) k = IsHeard-later ep k
  Held-later returned k = tt

  Sound-later : (b : Browsing) → Sound h b → Sound (with_entry signal h) b
  Sound-later b (w, k) = (All-weaken IsIn-later b.waiting w, Held-later b.forwarder k)

receive-Held :
    (h : List Entry) (e : Entry) (o : Option Endpoint)
    → IsIn e h
    → entry_to_endpoint e ≡ o
    → Held h (receive o)
unfolding receive
receive-Held h e none i k = tt
receive-Held h e (some ep) i k = (e, i, k)

-- The endpoint that a step sends has been heard, and what is held after it too.
Move-Sound :
    {over room : Bool} {signal : Signal} {b b' : Browsing} {h : List Entry}
    → Move over room signal b b'
    → Sound h b
    → Sound (with_entry signal h) b'
      × ((events : List Endpoint)
          → All (IsHeard h) events
          → All (IsHeard h) (with_signal signal events))
Move-Sound {h} (deliver b e a c l) (w, k) = (
  (
    All-append (λ x. IsIn x (e ∷ h)) b.waiting (e ∷ [])
        (All-weaken (IsIn-later (heard e) h) b.waiting w) (at_head, tt),
    Held-later (heard e) h b.forwarder k,
  ),
  λ events all. all,
)
Move-Sound (close b a c) s = (s, λ events all. all)
Move-Sound (leave b a) s = (s, λ events all. all)
Move-Sound {h} (take b e rest f w) (i, k) =
    let (first, more) = subst (All (λ x. IsIn x h)) w i in
    ((more, receive-Held h e (entry_to_endpoint e) first refl), λ events all. all)
Move-Sound (drained b f w c) (i, k) = ((i, tt), λ events all. all)
Move-Sound {h} (send b ep f o) (i, k) = ((i, tt), λ events all. (subst (Held h) f k, all))
Move-Sound (quit b o f) (i, k) = ((i, tt), λ events all. all)

Among-Sound :
    {over room : Bool} {signal : Signal} {bs bs' : List Browsing} {h : List Entry}
    → Among over room signal bs bs'
    → All (Sound h) bs
    → All (Sound (with_entry signal h)) bs'
      × ((events : List Endpoint)
          → All (IsHeard h) events
          → All (IsHeard h) (with_signal signal events))
Among-Sound {signal} {h} (here {bs} m) (k, all) =
    let (s, e) = Move-Sound m k in ((s, All-weaken (Sound-later signal h) bs all), e)
Among-Sound {signal} {h} (there {b} m) (k, all) =
    let (s, e) = Among-Sound m all in ((Sound-later signal h b k, s), e)

launch-Sound : (h : List Entry) (services : List String) → All (Sound h) (launch services)
unfolding launch
launch-Sound h [] = tt
launch-Sound h (service ∷ rest) = ((tt, tt), launch-Sound h rest)

module _ (Interface : Type 0) (b : Browser) where
  begin_cycle-Sound :
      (h : List Entry) (find : String → Option Interface)
      → SoundPhase h (begin_cycle Interface b find)
  unfolding begin_cycle
  begin_cycle-Sound h find = with_options (client_options find b.interfaces)
    where
      with_options : (o : _) → SoundPhase h (cycle_with Interface b o)
      with_options none = tt
      with_options (some _) = launch-Sound h b.service_types

  Reach-Sound : {h : List Entry} {s : Running} → Reach Interface b h s → SoundRunning h s
  Reach-Sound (called find done) = (tt, begin_cycle-Sound [] find)
  Reach-Sound (cancelled r) = Reach-Sound r
  Reach-Sound {h} (expired bs e r) = let (all, p) = Reach-Sound r in (all, subst (SoundPhase h) e p)
  Reach-Sound (moved {h} {s} over bs bs' signal e m r) =
      let (all, p) = Reach-Sound r in
      let (p', sends) = Among-Sound m (subst (SoundPhase h) e p) in
      (All-weaken (IsHeard-later signal h) _ (sends s.events all), p')
  Reach-Sound (received n e r) = Reach-Sound r
  Reach-Sound (waited over bs e a r) = ((Reach-Sound r).0, tt)
  Reach-Sound {h} (again find e r) = ((Reach-Sound r).0, begin_cycle-Sound h find)
  Reach-Sound (stopped e d r) = ((Reach-Sound r).0, tt)

  -- Whatever Run has sent, it is the endpoint of an entry that the library has delivered.
  pub Reach-IsHeard :
      {h : List Entry} {s : Running} → Reach Interface b h s → All (IsHeard h) s.events
  Reach-IsHeard r = (Reach-Sound r).0
