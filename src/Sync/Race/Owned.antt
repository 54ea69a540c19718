-- ===== src/Sync/Race/Owned.antt =====
-- No interleaving lets the Syncer write over an object that is not its own.
use mathlib.Core.Option.{some-injective}
use cluster_api_runtime_exte.Base.{
  String, ◌≡◌, refl, sym, ap, subst, ◌∙◌, ◌⊎◌, inl, inr, Option, none, some, true, List, [], ◌∷◌,
  ◌++◌, arith, ◌==◌, string_eq, Bool-cases,
}
use cluster_api_runtime_exte.Base.Dict.{lookup}
use cluster_api_runtime_exte.Base.Lists.{All, IsIn, at_head, in_tail}
use cluster_api_runtime_exte.Base.Versions.{IsFresh, IsVersioned, IsVersioned-old, IsVersioned-new}
use cluster_api_runtime_exte.Sync.Apply.{
  Object, ApiError, not_found, other, Read, found, failed, Write, create, apply, Sighting, Server,
  apply_managed, converted, is_managed, managed_by_label, managed_by_value,
}
use cluster_api_runtime_exte.Sync.Apply.Guard.{IsGuarded, apply_managed-IsGuarded}
use cluster_api_runtime_exte.Sync.Race.{
  version_of, Shared, server_of, listed, stored_after, written, Reach, at_start, changed, deleted,
  fetched, missed, synced,
}

module _ {S : Type 0} where
  -- There was none, and there is one with this controller's label; or the one that was there bears it.
  abbrev pub IsMine : Option (Object S) → Object S → Type 0
  IsMine none obj = lookup managed_by_label obj.labels ≡ some managed_by_value
  IsMine (some live) obj = is_managed live.labels ≡ true

  -- As it was, or of this version and this controller's own.
  abbrev pub IsOwned : String → Option (Object S) → Option (Object S) → Type 0
  IsOwned version before after =
      (after ≡ before)
      ⊎ ((obj : Object S) × (after ≡ some obj) × (version_of obj ≡ version) × IsMine before obj)

  abbrev AtMostOne : List (Write S) → Type 0
  AtMostOne [] = Unit
  AtMostOne (_ ∷ []) = Unit
  AtMostOne _ = ⊥

  converted-AtMostOne :
      (server : Server S) (obj : Object S) (e : Option ApiError)
      → AtMostOne (converted server obj e).1
  converted-AtMostOne server obj none = tt
  converted-AtMostOne server obj (some e) = tt

  apply_managed-AtMostOne :
      (server : Server S) (seen : Sighting) (carry : S → S → S) (desired : Object S) (read : Read S)
      → AtMostOne (apply_managed server seen carry desired read).1
  unfolding apply_managed
  apply_managed-AtMostOne server seen carry desired (failed not_found) = tt
  apply_managed-AtMostOne server seen carry desired (failed (other e)) = tt
  apply_managed-AtMostOne server seen carry desired (found live) =
      elim (Bool-cases (is_managed live.labels)) [
        | inl e ↦ rw e (converted-AtMostOne server _ _)
        | inr e ↦ rw e tt
      ]

  -- An object that was read and is still stored under its version is the one that is stored.
  abbrev IsSame : Option (Object S) → Read S → Type 0
  IsSame stored read =
      (live now : Object S)
      → read ≡ found live
      → stored ≡ some now
      → version_of live ≡ version_of now
      → live ≡ now

  module _ (merge : Object S → Object S → Object S) (version : String) where
    one_write :
        (stored : Option (Object S)) (read : Read S) (carry : S → S → S) (desired : Object S)
        (w : Write S)
        → IsSame stored read
        → IsGuarded carry desired read w
        → IsOwned version stored (stored_after merge version (w ∷ []) stored)
    unfolding stored_after
    one_write none read carry desired (create obj) same h =
        inr (record obj { resource_version = version }, refl, refl, h.2)
    one_write (some now) read carry desired (create obj) same h = inl refl
    one_write none read carry desired (apply obj) same h = inl refl
    one_write (some now) read carry desired (apply obj) same (live, r, m, v, _, _, _, _) =
        elim (Bool-cases (obj.resource_version == now.resource_version)) [
          | inl e ↦
              let q : obj.resource_version ≡ now.resource_version = ground arith in
              let p = same live now r refl (sym v ∙ q) in
              rw e (inr (_, refl, refl, sym (ap (λ x. is_managed x.labels) p) ∙ m))
          | inr n ↦ rw n (inl refl)
        ]

    writes :
        (stored : Option (Object S)) (read : Read S) (carry : S → S → S) (desired : Object S)
        (ws : List (Write S))
        → AtMostOne ws
        → IsSame stored read
        → All (IsGuarded carry desired read) ws
        → IsOwned version stored (stored_after merge version ws stored)
    unfolding stored_after
    writes stored read carry desired [] one same h = inl refl
    writes stored read carry desired (w ∷ []) one same (h, _) =
        one_write stored read carry desired w same h
    writes stored read carry desired (_ ∷ _ ∷ _) one same h = absurd one

  record Valid (s : Shared S) : Type 0 where
    current : (now : Object S) → s.stored ≡ some now → IsIn now s.past
    versioned : IsVersioned version_of s.past
    known : (live : Object S) → s.read ≡ some (found live) → IsIn live s.past

  found-injective : (a b : Object S) → found a ≡ found b → a ≡ b
  found-injective a b e = cc e

  Valid-IsSame :
      {s : Shared S} {read : Read S} → Valid s → s.read ≡ some read → IsSame s.stored read
  Valid-IsSame v r live now l c e =
      v.versioned live now (v.known live (r ∙ ap some l)) (v.current now c) e

  listed-IsVersioned :
      (version : String) (before after : Option (Object S)) (past : List (Object S))
      → IsOwned version before after
      → ((now : Object S) → before ≡ some now → IsIn now past)
      → IsFresh version_of version past
      → IsVersioned version_of past
      → IsVersioned version_of (listed after ++ past)
  listed-IsVersioned version before none past o i f v = v
  listed-IsVersioned version before (some x) past (inl e) i f v =
      IsVersioned-old version_of x past (i x (sym e)) v
  listed-IsVersioned version before (some x) past (inr (obj, e, n, m)) i f v =
      let p = some-injective x obj e in
      IsVersioned-new version_of x past
        (subst (λ w. IsFresh version_of w past) (sym (ap version_of p ∙ n)) f) v

  listed-current :
      (stored : Option (Object S)) (past : List (Object S)) (now : Object S)
      → stored ≡ some now
      → IsIn now (listed stored ++ past)
  listed-current none past now e = absurd (cc e)
  listed-current (some x) past now e =
      subst (λ y. IsIn now (y ∷ past)) (sym (some-injective x now e)) at_head

  listed-known :
      (stored : Option (Object S)) (past : List (Object S)) (x : Object S)
      → IsIn x past
      → IsIn x (listed stored ++ past)
  listed-known none past x i = i
  listed-known (some y) past x i = in_tail i

  module _ (merge : Object S → Object S → Object S) where
    Valid-owns :
        {s : Shared S} (convert : Object S → Option ApiError) (seen : Sighting) (carry : S → S → S)
        (desired : Object S) (version : String) (read : Read S)
        → Valid s
        → s.read ≡ some read
        → IsOwned version s.stored (written merge convert seen carry desired version s.stored read)
    unfolding written
    Valid-owns {s} convert seen carry desired version read v r =
        let server = server_of convert s.stored in
        writes merge version s.stored read carry desired _
          (apply_managed-AtMostOne server seen carry desired read) (Valid-IsSame v r)
          (apply_managed-IsGuarded server seen carry desired read)

    Reach-Valid : {s : Shared S} → Reach merge s → Valid s
    Reach-Valid (at_start none) = record {
      current = λ now e. absurd (cc e);
      versioned = λ a b i. elim i [ ];
      known = λ x e. absurd (cc e);
    }
    Reach-Valid (at_start (some obj)) = record {
      current = λ now e. listed-current (some obj) [] now e;
      versioned = IsVersioned-new version_of obj [] tt (λ a b i. elim i [ ]);
      known = λ x e. absurd (cc e);
    }
    Reach-Valid (changed {s} obj f r) =
        let v = Reach-Valid r in
        record {
          current = λ now e. listed-current (some obj) s.past now e;
          versioned = IsVersioned-new version_of obj s.past f v.versioned;
          known = λ x e. in_tail (v.known x e);
        }
    Reach-Valid (deleted {s} r) =
        let v = Reach-Valid r in
        record { current = λ now e. absurd (cc e); versioned = v.versioned; known = v.known }
    Reach-Valid (fetched {s} obj i r) =
        let v = Reach-Valid r in
        record {
          current = v.current;
          versioned = v.versioned;
          known =
              λ x e. subst (λ y. IsIn y s.past) (found-injective obj x (some-injective _ _ e)) i;
        }
    Reach-Valid (missed {s} e r) =
        let v = Reach-Valid r in
        record { current = v.current; versioned = v.versioned; known = λ x k. absurd (cc k) }
    Reach-Valid (synced {s} convert seen carry desired version read e f r) =
        let v = Reach-Valid r in
        let after = written merge convert seen carry desired version s.stored read in
        record {
          current = λ now k. listed-current after s.past now k;
          versioned =
              listed-IsVersioned version s.stored after s.past
                (Valid-owns convert seen carry desired version read v e) v.current f v.versioned;
          known = λ x k. absurd (cc k);
        }

    -- Adoption never happens by accident: in any interleaving of the Syncer with other writers, a deletion
    -- and a creation of the object included, and however old the state is that its cache has shown
    -- it, applyManaged leaves what is stored as it is, or creates an object with this controller's label
    -- where there is none, or writes over one that bears the label at that moment.
    pub Reach-IsOwned :
        {s : Shared S} (convert : Object S → Option ApiError) (seen : Sighting) (carry : S → S → S)
        (desired : Object S) (version : String) (read : Read S)
        → Reach merge s
        → s.read ≡ some read
        → IsOwned version s.stored (written merge convert seen carry desired version s.stored read)
    Reach-IsOwned convert seen carry desired version read r e =
        Valid-owns convert seen carry desired version read (Reach-Valid r) e
