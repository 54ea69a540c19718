-- ===== src/Teardown/Controller/Patching.antt =====
-- What a patch of the Machine's annotations can leave: the helper fails and nothing is done; the
-- mutation finds nothing to do; or one patch is sent, which the server accepts or refuses.
use text.Mathlib.TextLemmas.{cons≢nil}
use cluster_api_runtime_exte.Teardown.Api.{
  EtcdOutcome, not_member, ResetOutcome, done, etcd_text, reset_text,
}
use cluster_api_runtime_exte.Base.{
  String, ◌≡◌, ◌≢◌, Bool, true, false, Option, none, some, ◌∷◌, arith, ◌==◌, string_eq,
  if◌then◌else◌, Option-cases, inl, inr,
}
use cluster_api_runtime_exte.Base.Dict.{Dict, has, lookup-insert}
use cluster_api_runtime_exte.Teardown.Effect.{patch, World}
use cluster_api_runtime_exte.Teardown.Effect.Triples.{Post}
use cluster_api_runtime_exte.Teardown.Controller.{Reconciler, send, patch_annotations, stamp}

-- The world after a patch was sent.
abbrev pub sent : Dict String → Bool → World → World
sent annotations accepted w = record {
  trace = patch annotations accepted ∷ w.trace;
  machine = record w.machine { annotations = annotations };
}

module _ (r : Reconciler) (Q : Unit {0} → World → Type 0) (E : World → Type 0) (w : World) where
  send-Post :
      (a : Dict String)
      → Q tt (sent a true w)
      → E (sent a false w)
      → Post Q E (send r a w).0 (send r a w).1
  unfolding send
  send-Post a q e = elim (Option-cases (r.env.patch_machine w.trace w.machine a)) [
    | inl h ↦ rw h q
    | inr (x, h) ↦ rw h e
  ]

  pub patch_annotations-Post :
      (f : Dict String → Option (Dict String))
      → E w
      → (f w.machine.annotations ≡ none → Q tt w)
      → ((a : Dict String)
          → f w.machine.annotations ≡ some a
          → Q tt (sent a true w) × E (sent a false w))
      → Post Q E (patch_annotations r f w).0 (patch_annotations r f w).1
  unfolding patch_annotations
  patch_annotations-Post f e q s = elim (Option-cases (r.env.new_patch_helper w.trace w.machine)) [
    | inr (x, h) ↦ rw h e
    | inl h ↦ rw h (elim (Option-cases (f w.machine.annotations)) [
      | inl none_left ↦ rw none_left (q none_left)
      | inr (a, given) ↦ rw given (send-Post a (s a given).0 (s a given).1)
    ])
  ]

-- A phase is stamped with a value that is not "": afterwards its annotation is there.
pub has-stamp :
    (key value : String) (a : Dict String)
    → value ≢ ""
    → stamp key value a ≡ none
    → has key a ≡ true
has-stamp key value a n h = ground arith

pub has-stamp-some :
    (key value k : String) (a a' : Dict String)
    → stamp key value a ≡ some a'
    → has k a' ≡ (if k == key then true else has k a)
has-stamp-some key value k a a' h = ground (arith, lookup-insert k key value a)

-- No conclusion is "".
pub etcd_text-ne-empty : (o : EtcdOutcome) → etcd_text o ≢ ""
unfolding etcd_text
etcd_text-ne-empty not_member e = cons≢nil e
etcd_text-ne-empty _ e = cons≢nil e

pub reset_text-ne-empty : (o : ResetOutcome) → reset_text o ≢ ""
unfolding reset_text
reset_text-ne-empty done e = cons≢nil e
reset_text-ne-empty _ e = cons≢nil e
