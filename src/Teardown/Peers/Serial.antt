-- ===== src/Teardown/Peers/Serial.antt =====
-- One etcd operation at a time: of the deleting, hooked control-plane Machines of a cluster, one and
-- only one is not held back.
use cluster_api_runtime_exte.Base.{
  ◌≡◌, refl, ◌≢◌, sym, true, false, ◌⊎◌, inl, inr, List, [], ◌∷◌, arith, string_eq, nat_eq, is_some,
  Bool-cases,
}
use cluster_api_runtime_exte.Base.Lists.{All}
use cluster_api_runtime_exte.Base.Texts.{str_lt_asym, str_lt_total, str_lt_trans}
use cluster_api_runtime_exte.Teardown.Api.{ClusterApi, Machine}
use cluster_api_runtime_exte.Teardown.Qualify.{has_hook}
use cluster_api_runtime_exte.Teardown.Peers.{holds_back, must_wait}

module _ (api : ClusterApi) where
  -- A Machine that is being deleted and carries the hook.
  abbrev pub IsLeaving : Machine → Type 0
  IsLeaving m = (is_some m.deletion_timestamp ≡ true) × (has_hook api m ≡ true)

  -- Of two leaving Machines with different names, one holds the other back.
  pub holds_back_total :
      (a b : Machine)
      → IsLeaving a
      → IsLeaving b
      → a.name ≢ b.name
      → (holds_back api a b ≡ true) ⊎ (holds_back api b a ≡ true)
  unfolding holds_back
  holds_back_total a b ha hb n = ground (arith, str_lt_total a.name b.name)

  pub holds_back_asym :
      (a b : Machine)
      → IsLeaving a
      → IsLeaving b
      → holds_back api a b ≡ true
      → holds_back api b a ≡ false
  unfolding holds_back
  holds_back_asym a b ha hb h = ground (arith, str_lt_asym b.name a.name)

  pub holds_back_trans :
      (a b c : Machine)
      → IsLeaving a
      → IsLeaving b
      → IsLeaving c
      → c.name ≢ a.name
      → holds_back api a b ≡ true
      → holds_back api b c ≡ true
      → holds_back api a c ≡ true
  unfolding holds_back
  holds_back_trans a b c ha hb hc n h k = ground (arith, str_lt_trans c.name b.name a.name)

  -- Only a leaving Machine holds another back, and none itself.
  holds_back-IsLeaving :
      (a b : Machine) → holds_back api a b ≡ true → IsLeaving b × (b.name ≢ a.name)
  unfolding holds_back
  holds_back-IsLeaving a b h = ground arith

  IsLeaving-cases : (m : Machine) → IsLeaving m ⊎ ¬ IsLeaving m
  IsLeaving-cases m = ground arith

  -- A Machine and its place in a list.
  pub data In (m : Machine) : List Machine → Type 0 where
    here : {ms : List Machine} → In m (m ∷ ms)
    there : {x : Machine} {ms : List Machine} → In m ms → In m (x ∷ ms)

  must_wait-holds :
      {peer : Machine} (m : Machine) (ms : List Machine)
      → In peer ms
      → holds_back api m peer ≡ true
      → must_wait api ms m ≡ true
  unfolding must_wait
  must_wait-holds m [] p h = elim p [ ]
  must_wait-holds m (x ∷ ms) here h = rw h
  must_wait-holds m (x ∷ ms) (there p) h = ground (arith, must_wait-holds m ms p h)

  -- Mutual exclusion: of two Machines of the list with different names that are being deleted and
  -- carry the hook, if one is not held back, the other is.
  pub must_wait_exclusive :
      (a b : Machine) (ms : List Machine)
      → In a ms
      → In b ms
      → IsLeaving a
      → IsLeaving b
      → a.name ≢ b.name
      → must_wait api ms a ≡ false
      → must_wait api ms b ≡ true
  must_wait_exclusive a b ms pa pb ha hb n free = elim (holds_back_total a b ha hb n) [
    | inl h ↦ absurd (cc (must_wait-holds a ms pb h))
    | inr h ↦ must_wait-holds b ms pa h
  ]

  abbrev pub HasDistinctNames : List Machine → Type 0
  HasDistinctNames [] = Unit
  HasDistinctNames (x ∷ ms) = All (λ y. x.name ≢ y.name) ms × HasDistinctNames ms

  none_holds :
      (m : Machine) (ms : List Machine) → All (λ y. ¬ IsLeaving y) ms → must_wait api ms m ≡ false
  unfolding must_wait
  none_holds m [] h = refl
  none_holds m (y ∷ ms) (n, h) = elim (Bool-cases (holds_back api m y)) [
    | inl e ↦ absurd (n (holds_back-IsLeaving m y e).0)
    | inr e ↦ rw (e, none_holds m ms h)
  ]

  abbrev Others : Machine → List Machine → Type 0
  Others m = All (λ y. (y ≡ m) ⊎ (y.name ≢ m.name))

  not_named :
      (m x : Machine) (ms : List Machine)
      → In m ms
      → All (λ y. x.name ≢ y.name) ms
      → x.name ≢ m.name
  not_named m x [] p h = elim p [ ]
  not_named m x (y ∷ ms) here (n, h) = n
  not_named m x (y ∷ ms) (there p) (n, h) = not_named m x ms p h

  weaken : (m : Machine) (ms : List Machine) → All (λ y. m.name ≢ y.name) ms → Others m ms
  weaken m [] h = tt
  weaken m (y ∷ ms) (n, h) = (inr (λ e. n (sym e)), weaken m ms h)

  others : (m : Machine) (ms : List Machine) → In m ms → HasDistinctNames ms → Others m ms
  others m [] p d = elim p [ ]
  others m (y ∷ ms) here (n, d) = (inl refl, weaken m ms n)
  others m (y ∷ ms) (there p) (n, d) = (inr (not_named m y ms p n), others m ms p d)

  -- What `x` would wait for, `m` would wait for too.
  blames :
      (m x y : Machine)
      → IsLeaving m
      → holds_back api m x ≡ true
      → holds_back api x y ≡ true
      → (y ≡ m) ⊎ (y.name ≢ m.name)
      → holds_back api m y ≡ true
  blames m x y hm h k (inl e) =
      absurd (cc (holds_back_asym m x hm (holds_back-IsLeaving m x h).0 h, k, e))
  blames m x y hm h k (inr n) =
      holds_back_trans m x y hm (holds_back-IsLeaving m x h).0 (holds_back-IsLeaving x y k).0 n h k

  -- If `m` is free in the list and `x` holds `m` back, then `x` is free in the list.
  takes_over :
      (m x : Machine) (ms : List Machine)
      → IsLeaving m
      → Others m ms
      → holds_back api m x ≡ true
      → must_wait api ms m ≡ false
      → must_wait api ms x ≡ false
  unfolding must_wait
  takes_over m x [] hm o h free = refl
  takes_over m x (y ∷ ms) hm (o, os) h free = elim (Bool-cases (holds_back api x y)) [
    | inl e ↦ absurd (ground (arith, blames m x y hm h e o))
    | inr e ↦ rw (e, takes_over m x ms hm os h (ground arith))
  ]

  free_head :
      (x : Machine) (ms : List Machine)
      → must_wait api ms x ≡ false
      → must_wait api (x ∷ ms) x ≡ false
  unfolding must_wait holds_back
  free_head x ms h = ground arith

  -- Progress's witness: a leaving Machine of the list that is not held back.
  abbrev pub FirstLeaver : List Machine → Type 0
  FirstLeaver ms = (m : Machine) × In m ms × IsLeaving m × (must_wait api ms m ≡ false)

  find_first :
      (ms : List Machine) → HasDistinctNames ms → All (λ y. ¬ IsLeaving y) ms ⊎ FirstLeaver ms
  find_first [] d = inl tt
  find_first (x ∷ ms) (n, d) = elim (find_first ms d) [
    | inl nobody ↦ elim (IsLeaving-cases x) [
      | inl hx ↦ inr (x, here, hx, free_head x ms (none_holds x ms nobody))
      | inr hx ↦ inl (hx, nobody)
    ]
    | inr (m, p, hm, free) ↦ elim (Bool-cases (holds_back api m x)) [
      | inl h ↦ inr (
        x,
        here,
        (holds_back-IsLeaving m x h).0,
        free_head x ms (takes_over m x ms hm (others m ms p d) h free),
      )
      | inr h ↦ inr (m, there p, hm, unfold must_wait in ground arith)
    ]
  ]

  not-All :
      (m : Machine) (ms : List Machine) → In m ms → IsLeaving m → All (λ y. ¬ IsLeaving y) ms → ⊥
  not-All m [] p h n = elim p [ ]
  not-All m (y ∷ ms) here h (n, ns) = n h
  not-All m (y ∷ ms) (there p) h (n, ns) = not-All m ms p h ns

  -- Progress: in a list of Machines with distinct names in which some Machine is being deleted and
  -- carries the hook, one such Machine is not held back.
  pub must_wait_progress :
      (m : Machine) (ms : List Machine)
      → In m ms
      → IsLeaving m
      → HasDistinctNames ms
      → FirstLeaver ms
  must_wait_progress m ms p h d = elim (find_first ms d) [
    | inl nobody ↦ absurd (not-All m ms p h nobody)
    | inr found ↦ found
  ]
