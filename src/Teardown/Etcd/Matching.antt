-- ===== src/Teardown/Etcd/Matching.antt =====
-- Which etcd member findMember (internal/teardown/etcd.go) finds.
use cluster_api_runtime_exte.Base.{
  String, ◌≡◌, refl, true, false, Option, none, some, List, [], ◌∷◌, ◌++◌, arith, nat_eq, inl, inr,
  Bool-cases,
}
use cluster_api_runtime_exte.Base.Lists.{All}
use cluster_api_runtime_exte.Teardown.Effect.{Member}
use cluster_api_runtime_exte.Teardown.Etcd.{
  before_dot, equal_fold, matches_member, first_match, first_in_messages, find_member,
}

equal_fold_sym : (s t : String) → equal_fold s t ≡ equal_fold t s
unfolding equal_fold
equal_fold_sym String.[] String.[] = refl
equal_fold_sym String.[] (String.◌∷◌ d t) = refl
equal_fold_sym (String.◌∷◌ c s) String.[] = refl
equal_fold_sym (String.◌∷◌ c s) (String.◌∷◌ d t) = ground (arith, equal_fold_sym s t)

equal_fold_trans : (s t u : String) → equal_fold s t ≡ true → equal_fold t u ≡ equal_fold s u
unfolding equal_fold
equal_fold_trans String.[] String.[] u h = refl
equal_fold_trans String.[] (String.◌∷◌ d t) u h = absurd (ground arith)
equal_fold_trans (String.◌∷◌ c s) String.[] u h = absurd (ground arith)
equal_fold_trans (String.◌∷◌ c s) (String.◌∷◌ d t) String.[] h = refl
equal_fold_trans (String.◌∷◌ c s) (String.◌∷◌ d t) (String.◌∷◌ e u) h =
    ground (arith, equal_fold_trans s t u)

-- Two host names that differ in case only, or after the first dot, match the same candidates.
pub matches_member_alike :
    (candidates : List String) (h h' : String)
    → equal_fold (before_dot h) (before_dot h') ≡ true
    → matches_member candidates h ≡ matches_member candidates h'
unfolding matches_member
matches_member_alike [] h h' e = refl
matches_member_alike (c ∷ cs) h h' e =
    let a = before_dot c in
    ground (
      arith,
      matches_member_alike cs h h' e,
      equal_fold_trans (before_dot h) (before_dot h') a e,
      equal_fold_sym a (before_dot h),
      equal_fold_sym a (before_dot h'),
    )

-- The members of all messages, in order.
abbrev pub all_members : List (List Member) → List Member
all_members [] = []
all_members (message ∷ rest) = message ++ all_members rest

-- The members before the first that matches, it, and those after it.
pub data IsFirst (candidates : List String) (found : Member) : List Member → Type 0 where
  now :
      {rest : List Member}
      → matches_member candidates found.hostname ≡ true
      → IsFirst candidates found (found ∷ rest)
  later :
      {m : Member} {rest : List Member}
      → matches_member candidates m.hostname ≡ false
      → IsFirst candidates found rest
      → IsFirst candidates found (m ∷ rest)

-- Whether a search has the first match, or there is none.
abbrev pub IsSearch : List String → List Member → Option Member → Type 0
IsSearch cs ms none = All (λ (m : Member). matches_member cs m.hostname ≡ false) ms
IsSearch cs ms (some m) = IsFirst cs m ms

skip :
    (cs : List String) (m : Member) (ms : List Member) (o : Option Member)
    → matches_member cs m.hostname ≡ false
    → IsSearch cs ms o
    → IsSearch cs (m ∷ ms) o
skip cs m ms none e h = (e, h)
skip cs m ms (some x) e h = later e h

first_match-IsSearch : (cs : List String) (ms : List Member) → IsSearch cs ms (first_match cs ms)
unfolding first_match
first_match-IsSearch cs [] = tt
first_match-IsSearch cs (m ∷ ms) = elim (Bool-cases (matches_member cs m.hostname)) [
  | inl e ↦ rw e (now e)
  | inr e ↦ rw e (skip cs m ms (first_match cs ms) e (first_match-IsSearch cs ms))
]

first-append :
    (cs : List String) (x : Member) (ms ns : List Member)
    → IsFirst cs x ms
    → IsFirst cs x (ms ++ ns)
first-append cs x [] ns h = elim h [ ]
first-append cs x (m ∷ ms) ns (now e) = now e
first-append cs x (m ∷ ms) ns (later e h) = later e (first-append cs x ms ns h)

skip-All :
    (cs : List String) (ms ns : List Member) (o : Option Member)
    → All (λ (m : Member). matches_member cs m.hostname ≡ false) ms
    → IsSearch cs ns o
    → IsSearch cs (ms ++ ns) o
skip-All cs [] ns o h k = k
skip-All cs (m ∷ ms) ns o (e, h) k = skip cs m (ms ++ ns) o e (skip-All cs ms ns o h k)

chosen :
    (cs : List String) (ms ns : List Member) (o p : Option Member)
    → IsSearch cs ms o
    → IsSearch cs ns p
    → IsSearch cs (ms ++ ns) (elim o [ some m ↦ some m | none ↦ p ])
chosen cs ms ns (some m) p h k = first-append cs m ms ns h
chosen cs ms ns none p h k = skip-All cs ms ns p h k

-- Of the members of all messages, in their order, the first whose host name matches a candidate is
-- found, and none is found only if none matches.
pub find_member-IsSearch :
    (messages : List (List Member)) (candidates : List String)
    → IsSearch candidates (all_members messages) (find_member (some messages) candidates)
unfolding find_member first_in_messages
find_member-IsSearch [] cs = tt
find_member-IsSearch (message ∷ rest) cs =
    chosen cs message (all_members rest) (first_match cs message) (find_member (some rest) cs)
      (first_match-IsSearch cs message) (find_member-IsSearch rest cs)
