-- ===== src/Mdns/Cycle/Ends.antt =====
-- browseOnce of internal/mdns/browser.go after the end of its browse context: the steps that its
-- forwarders have left once the library has returned.
use cluster_api_runtime_exte.Base.{
  ℕ, suc, ◌+◌, ◌*◌, ◌≤◌, ◌<◌, ◌≡◌, refl, Option, none, some, Bool, true, false, ◌||◌, ◌⊎◌, inl, inr,
  String, ap, subst, Bool-cases, List, [], ◌∷◌, ◌++◌, arith,
}
use cluster_api_runtime_exte.Base.Lists.{length, All}
use cluster_api_runtime_exte.Mdns.{Entry, entry_to_endpoint, client_options}
use cluster_api_runtime_exte.Mdns.Cycle.{
  Forwarder, selecting, sending, returned, Browsing, capacity, receive, is_back, Signal, Move,
  deliver, close, leave, take, drained, send, quit, Among, here, there, Running, browsing, Browser,
  AllBack, Reach, called, cancelled, expired, moved, received, waited, again, stopped, Phase,
  launch, begin_cycle, cycle_with,
}

-- The steps that a forwarder has left of its own.
abbrev stage : Forwarder → ℕ
stage selecting = 1
stage (sending _) = 2
stage returned = 0

abbrev left : Browsing → ℕ
left b = stage b.forwarder + 2 * length b.waiting

abbrev left_of : List Browsing → ℕ
left_of [] = 0
left_of (b ∷ bs) = left b + left_of bs

-- The library has returned.
abbrev pub IsLeft : List Browsing → Type 0
IsLeft = All (λ b. b.asking ≡ false)

abbrev IsBounded : List Browsing → Type 0
IsBounded = All (λ b. length b.waiting ≤ capacity)

-- A number of steps, one after the other. Whether the events channel has room before each of them is
-- up to its reader.
pub data Steps (over : Bool) : ℕ → List Browsing → List Browsing → Type 0 where
  none_left : {bs : List Browsing} → Steps over 0 bs bs
  one_more :
      {n : ℕ} {bs bs' bs'' : List Browsing} (room : Bool) (signal : Signal)
      → Among over room signal bs bs'
      → Steps over n bs' bs''
      → Steps over (suc n) bs bs''

stage-le : (f : Forwarder) → stage f ≤ 2
stage-le selecting = omega arith
stage-le (sending _) = omega arith
stage-le returned = omega arith

stage_pos : (f : Forwarder) → is_back f ≡ false → 0 < stage f
stage_pos selecting h = omega arith
stage_pos (sending _) h = omega arith
stage_pos returned h = absurd (ground arith)

Move-left :
    {over room : Bool} {signal : Signal} {b b' : Browsing}
    → Move over room signal b b'
    → b.asking ≡ false
    → (left b' < left b) × (b'.asking ≡ false)
Move-left (deliver b e a c l) n = absurd (ground (arith, a, n))
Move-left (close b a c) n = absurd (ground (arith, a, n))
Move-left (leave b a) n = absurd (ground (arith, a, n))
Move-left (take b e rest f w) n =
    (rw (f, w) (omega (arith, stage-le (receive (entry_to_endpoint e)))), n)
Move-left (drained b f w c) n = (rw f (omega arith), n)
Move-left (send b ep f o) n = (rw f (omega arith), n)
Move-left (quit b o f) n = (omega (arith, stage_pos b.forwarder f), n)

-- A step uses one up, and the library does not come back.
Among-IsLeft :
    {over room : Bool} {signal : Signal} {bs bs' : List Browsing}
    → Among over room signal bs bs'
    → IsLeft bs
    → (left_of bs' < left_of bs) × IsLeft bs'
Among-IsLeft (here m) (n, h) = let (l, k) = Move-left m n in (omega arith, (k, h))
Among-IsLeft (there m) (n, h) = let (l, k) = Among-IsLeft m h in (omega arith, (n, k))

Steps-IsLeft :
    {over : Bool} {n : ℕ} {bs bs' : List Browsing}
    → Steps over n bs bs'
    → IsLeft bs
    → (n + left_of bs' ≤ left_of bs) × IsLeft bs'
Steps-IsLeft none_left h = (omega arith, h)
Steps-IsLeft (one_more room signal m rest) h =
    let (l, k) = Among-IsLeft m h in let (l', k') = Steps-IsLeft rest k in (omega arith, k')

left_of-le : (bs : List Browsing) → IsBounded bs → left_of bs ≤ 34 * length bs
left_of-le [] h = omega arith
left_of-le (b ∷ bs) (l, h) = omega (arith, stage-le b.forwarder, left_of-le bs h)

-- All have returned, or one has a step to take, also while the events channel is full.
abbrev pub CanMove : Bool → List Browsing → Type 0
CanMove over bs =
    AllBack bs ⊎ ((signal : Signal) × (bs' : List Browsing) × Among over false signal bs bs')

can_move : (bs : List Browsing) → IsLeft bs → CanMove true bs
can_move [] h = inl tt
can_move (b ∷ bs) (n, h) = elim (Bool-cases (is_back b.forwarder)) [
  | inr f ↦ inr (_, _, here (quit b refl f))
  | inl f ↦ elim (can_move bs h) [
    | inl all ↦ inl ((n, f), all)
    | inr (signal, bs', m) ↦ inr (signal, b ∷ bs', there m)
  ]
]

-- No channel holds more entries than its capacity.
abbrev Bounded : Phase → Type 0
Bounded (browsing over bs) = IsBounded bs
Bounded _ = Unit

length-snoc : {A : Type 0} (xs : List A) (x : A) → length (xs ++ x ∷ []) ≡ suc (length xs)
length-snoc [] x = refl
length-snoc (y ∷ xs) x = ap suc (length-snoc xs x)

Move-bounded :
    {over room : Bool} {signal : Signal} {b b' : Browsing}
    → Move over room signal b b'
    → length b.waiting ≤ capacity
    → length b'.waiting ≤ capacity
Move-bounded (deliver b e a c l) n = omega (arith, length-snoc b.waiting e)
Move-bounded (close b a c) n = n
Move-bounded (leave b a) n = n
Move-bounded (take b e rest f w) n = omega (arith, ap length w)
Move-bounded (drained b f w c) n = n
Move-bounded (send b ep f o) n = n
Move-bounded (quit b o f) n = n

Among-IsBounded :
    {over room : Bool} {signal : Signal} {bs bs' : List Browsing}
    → Among over room signal bs bs'
    → IsBounded bs
    → IsBounded bs'
Among-IsBounded (here m) (n, h) = (Move-bounded m n, h)
Among-IsBounded (there m) (n, h) = (n, Among-IsBounded m h)

launch-IsBounded : (services : List String) → IsBounded (launch services)
unfolding launch
launch-IsBounded [] = tt
launch-IsBounded (service ∷ rest) = (omega arith, launch-IsBounded rest)

module _ (Interface : Type 0) (b : Browser) where
  begin_cycle-Bounded : (find : String → Option Interface) → Bounded (begin_cycle Interface b find)
  unfolding begin_cycle
  begin_cycle-Bounded find = with_options (client_options find b.interfaces)
    where
      with_options : (o : _) → Bounded (cycle_with Interface b o)
      with_options none = tt
      with_options (some _) = launch-IsBounded b.service_types

  Reach-Bounded : {h : List Entry} {s : Running} → Reach Interface b h s → Bounded s.phase
  Reach-Bounded (called find done) = begin_cycle-Bounded find
  Reach-Bounded (cancelled r) = Reach-Bounded r
  Reach-Bounded (expired bs e r) = subst Bounded e (Reach-Bounded r)
  Reach-Bounded (moved over bs bs' signal e m r) =
      Among-IsBounded m (subst Bounded e (Reach-Bounded r))
  Reach-Bounded (received n e r) = Reach-Bounded r
  Reach-Bounded (waited over bs e a r) = tt
  Reach-Bounded (again find e r) = begin_cycle-Bounded find
  Reach-Bounded (stopped e d r) = tt

  -- browseOnce returns: in a state that Run comes through, once the window has passed or the context is
  -- done, and zeroconf.Browse has returned for every service type, the forwarders of the cycle take at
  -- most 34 steps for each service type, in any order and whatever the reader of the events channel does,
  -- and as long as one of them has not returned there is a step to take, which needs no room on the
  -- events channel.
  pub Reach-ends :
      {h : List Entry} {s : Running}
      → Reach Interface b h s
      → (over : Bool) (bs bs' : List Browsing) (n : ℕ) → s.phase ≡ browsing over bs
      → (over || s.done) ≡ true
      → IsLeft bs
      → Steps (over || s.done) n bs bs'
      → (n ≤ 34 * length bs) × CanMove (over || s.done) bs'
  Reach-ends r over bs bs' n e d l steps =
      let (fewer, k) = Steps-IsLeft steps l in
      (omega (arith, left_of-le bs (subst Bounded e (Reach-Bounded r))), rw d (can_move bs' k))
