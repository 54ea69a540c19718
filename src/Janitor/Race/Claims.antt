-- ===== src/Janitor/Race/Claims.antt =====
-- No interleaving lets the janitor write over a claim.
use cluster_api_runtime_exte.Base.{
  String, ◌≡◌, refl, sym, ap, subst, ◌∙◌, ◌⊎◌, inl, inr, some, List, [], ◌∷◌, arith, ◌==◌,
  string_eq, Bool-cases,
}
use mathlib.Core.Option.{some-injective}
use cluster_api_runtime_exte.Base.Versions.{IsFresh, IsVersioned, IsVersioned-old, IsVersioned-new}
use cluster_api_runtime_exte.Base.Lists.{IsIn, at_head, in_tail}
use cluster_api_runtime_exte.Janitor.{
  Hardware, Options, Class, Field, claimed, never_claimed, bootstrap_reserved, half_released,
  released,
}
use cluster_api_runtime_exte.Janitor.Classify.{classify}
use cluster_api_runtime_exte.Janitor.Scrub.{scrub}
use cluster_api_runtime_exte.Janitor.Reconcile.{act, send, reconcile}
use cluster_api_runtime_exte.Janitor.Race.{
  answer, stored_after, Shared, version_of, written, Reach, created, changed, fetched, reconciled,
}

-- As it was; or it was of the released class, and is what a scrub makes of it, with a new version.
abbrev pub IsSpared : Options → String → String → Hardware → Hardware → Type 0
IsSpared opts now version before after =
    (after ≡ before)
    ⊎ ((classify before ≡ released)
        × (after ≡ record (scrub opts now before).0 { resource_version = version }))

record Valid (s : Shared) : Type 0 where
  current : IsIn s.stored s.past
  versioned : IsVersioned version_of s.past
  known : (hw : Hardware) → s.read ≡ some hw → IsIn hw s.past

module _ (opts : Options) (now version : String) (stored : Hardware) where
  module _ (hw : Hardware)
      (same : hw.resource_version ≡ stored.resource_version → hw ≡ stored) where
    scrubbed_after :
        (fields : List Field)
        → classify hw ≡ released
        → IsSpared opts now version stored (
            stored_after version stored
              (send opts now (answer stored) (scrub opts now hw).0 fields).1)
    unfolding stored_after scrub
    scrubbed_after [] c = inl refl
    scrubbed_after (_ ∷ _) c = elim (Bool-cases (hw.resource_version == stored.resource_version)) [
      | inl e ↦
          let q : hw.resource_version ≡ stored.resource_version = ground arith in
          let p = same q in
          rw e (
            inr (
              sym (ap classify p) ∙ c,
              ap (λ x. record (scrub opts now x).0 { resource_version = version }) p,
            ))
      | inr n ↦ rw n (inl refl)
    ]

    act_after :
        (c : Class)
        → classify hw ≡ c
        → IsSpared opts now version stored
            (stored_after version stored (act opts now (answer stored) hw c).1)
    unfolding act stored_after
    act_after claimed e = inl refl
    act_after never_claimed e = inl refl
    act_after bootstrap_reserved e = inl refl
    act_after half_released e = inl refl
    act_after released e = scrubbed_after (scrub opts now hw).1 e

  written-IsSpared :
      (hw : Hardware)
      → (hw.resource_version ≡ stored.resource_version → hw ≡ stored)
      → IsSpared opts now version stored (written opts now version stored hw)
  unfolding written reconcile
  written-IsSpared hw same = act_after hw same (classify hw) refl

Spared-version :
    (opts : Options) (now version : String) (before after : Hardware) (past : List Hardware)
    → IsSpared opts now version before after
    → IsIn before past
    → IsFresh version_of version past
    → IsVersioned version_of past
    → IsVersioned version_of (after ∷ past)
Spared-version opts now version before after past (inl e) i f v =
    subst (λ x. IsVersioned version_of (x ∷ past)) (sym e)
      (IsVersioned-old version_of before past i v)
Spared-version opts now version before after past (inr (c, e)) i f v =
    subst (λ x. IsVersioned version_of (x ∷ past)) (sym e)
      (IsVersioned-new version_of (record (scrub opts now before).0 { resource_version = version })
        past f v)

Valid-spares :
    {s : Shared} (opts : Options) (now version : String) (hw : Hardware)
    → Valid s
    → s.read ≡ some hw
    → IsSpared opts now version s.stored (written opts now version s.stored hw)
Valid-spares {s} opts now version hw v r =
    written-IsSpared opts now version s.stored hw (v.versioned hw s.stored (v.known hw r) v.current)

Reach-Valid : {s : Shared} → Reach s → Valid s
Reach-Valid (created hw) = record {
  current = at_head;
  versioned = IsVersioned-new version_of hw [] tt (λ a b i. elim i [ ]);
  known = λ x e. absurd (cc e);
}
Reach-Valid (changed {s} hw f r) =
    let v = Reach-Valid r in
    record {
      current = at_head;
      versioned = IsVersioned-new version_of hw s.past f v.versioned;
      known = λ x e. in_tail (v.known x e);
    }
Reach-Valid (fetched {s} hw i r) =
    let v = Reach-Valid r in
    record {
      current = v.current;
      versioned = v.versioned;
      known = λ x e. subst (λ y. IsIn y s.past) (some-injective hw x e) i;
    }
Reach-Valid (reconciled {s} opts now version hw e f r) =
    let v = Reach-Valid r in
    record {
      current = at_head;
      versioned =
          Spared-version opts now version s.stored _ s.past (Valid-spares opts now version hw v e)
            v.current f v.versioned;
      known = λ x e. absurd (cc e);
    }

-- Optimistic concurrency does its work: in any interleaving of the janitor with other writers, and
-- however old the state is that its cache has shown it, a reconcile either leaves the stored Hardware as
-- it is, or finds it of the released class at that moment and stores what a scrub makes of it.
pub Reach-IsSpared :
    {s : Shared} (opts : Options) (now version : String) (hw : Hardware)
    → Reach s
    → s.read ≡ some hw
    → IsSpared opts now version s.stored (written opts now version s.stored hw)
Reach-IsSpared opts now version hw r e = Valid-spares opts now version hw (Reach-Valid r) e
