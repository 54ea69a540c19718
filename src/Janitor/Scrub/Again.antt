-- ===== src/Janitor/Scrub/Again.antt =====
-- A scrub is idempotent, reports exactly whether it changed something, and ends the released state.
use cluster_api_runtime_exte.Base.{
  ℕ, suc, String, ◌≡◌, refl, ap, ◌≢◌, Bool, true, false, Option, none, some, List, [], ◌∷◌, ◌++◌,
  arith, ◌==◌, string_eq, bool_eq,
}
use cluster_api_runtime_exte.Base.Dict.{Dict, has, lookup-insert}
use cluster_api_runtime_exte.Janitor.{
  Interface, Instance, Hardware, Options, released, never_claimed, scrubbed_at_annotation,
  provisioned_annotation, Field,
}
use cluster_api_runtime_exte.Janitor.Classify.{
  classify, has_user_data, is_released, is_released-classify,
}
use cluster_api_runtime_exte.Janitor.Scrub.{
  scrub, scrub_instance, park, park_all, clear_user_data, stamped,
}

scrub_instance_again :
    (clear : Bool) (i : Option Instance)
    → scrub_instance clear (scrub_instance clear i).0 ≡ ((scrub_instance clear i).0, [])
unfolding scrub_instance
scrub_instance_again clear none = refl
scrub_instance_again clear (some i) = ground arith

park_again : (b : Bool) (n : ℕ) (i : Interface) → park b n (park b n i).0 ≡ ((park b n i).0, [])
unfolding park
park_again b n i = ground arith

park_all_again :
    (b : Bool) (n : ℕ) (is : List Interface)
    → park_all b n (park_all b n is).0 ≡ ((park_all b n is).0, [])
unfolding park_all
park_all_again b n [] = refl
park_all_again b n (i ∷ is) = rw (park_again b n i, park_all_again b (suc n) is) refl

-- A second scrub, at any time, changes nothing and reports no field.
pub scrub_again :
    (opts : Options) (now later : String) (hw : Hardware)
    → scrub opts later (scrub opts now hw).0 ≡ ((scrub opts now hw).0, [])
unfolding scrub
scrub_again opts now later hw =
    rw
      (
        scrub_instance_again opts.clear_os_metadata hw.instance,
        park_all_again opts.baseline_allow_pxe 0 hw.interfaces,
      )
      refl

scrub_instance_unchanged :
    (clear : Bool) (i : Option Instance)
    → (scrub_instance clear i).1 ≡ []
    → (scrub_instance clear i).0 ≡ i
unfolding scrub_instance
scrub_instance_unchanged clear none h = refl
scrub_instance_unchanged clear (some i) h = ground arith

park_unchanged : (b : Bool) (n : ℕ) (i : Interface) → (park b n i).1 ≡ [] → (park b n i).0 ≡ i
unfolding park
park_unchanged b n i h = ground arith

append-nil : {A : Type 0} (xs ys : List A) → xs ++ ys ≡ [] → (xs ≡ []) × (ys ≡ [])
append-nil [] ys h = (refl, h)
append-nil (x ∷ xs) ys h = absurd (ground arith)

park_all_unchanged :
    (b : Bool) (n : ℕ) (is : List Interface) → (park_all b n is).1 ≡ [] → (park_all b n is).0 ≡ is
unfolding park_all
park_all_unchanged b n [] h = refl
park_all_unchanged b n (i ∷ is) h =
    let (e, k) = append-nil (park b n i).1 (park_all b (suc n) is).1 h in
    rw (park_unchanged b n i e, park_all_unchanged b (suc n) is k) refl

no_user_data : (o : Option String) → clear_user_data o ≡ [] → none ≡ o
no_user_data none h = refl
no_user_data (some x) h = absurd (ground arith)

-- If a scrub reports no field, it has left the Hardware as it was.
pub scrub_unchanged :
    (opts : Options) (now : String) (hw : Hardware)
    → (scrub opts now hw).1 ≡ []
    → (scrub opts now hw).0 ≡ hw
unfolding scrub
scrub_unchanged opts now hw h =
    let fields = clear_user_data hw.user_data in
    let os = scrub_instance opts.clear_os_metadata hw.instance in
    let parked = park_all opts.baseline_allow_pxe 0 hw.interfaces in
    let (e, p) = append-nil (fields ++ os.1) parked.1 h in
    let (u, o) = append-nil fields os.1 e in
    rw
      (
        h,
        scrub_instance_unchanged opts.clear_os_metadata hw.instance o,
        park_all_unchanged opts.baseline_allow_pxe 0 hw.interfaces p,
        no_user_data hw.user_data u,
      )
      refl

apart : (provisioned_annotation == scrubbed_at_annotation) ≡ false
unfolding string_eq
apart = refl

has-stamped :
    (now : String) (fields : List Field) (a : Dict String)
    → has provisioned_annotation (stamped now fields a) ≡ has provisioned_annotation a
has-stamped now [] a = refl
has-stamped now (_ ∷ _) a =
    ground (arith, lookup-insert provisioned_annotation scrubbed_at_annotation now a, apart)

some_cleared :
    (hw : Hardware) (more : List Field)
    → has_user_data hw ≡ true
    → clear_user_data hw.user_data ++ more ≢ []
unfolding has_user_data
some_cleared hw more h = ground arith

-- A released Hardware is of the class of the never claimed after a scrub, and some field is reported.
pub scrub-classify :
    (opts : Options) (now : String) (hw : Hardware)
    → classify hw ≡ released
    → (classify (scrub opts now hw).0 ≡ never_claimed) × ((scrub opts now hw).1 ≢ [])
unfolding scrub classify has_user_data
scrub-classify opts now hw h =
    let (name, namespace, user_data, provisioned) =
      (is_released-classify hw).0 (ap is_released h) in
    let os = scrub_instance opts.clear_os_metadata hw.instance in
    let parked = park_all opts.baseline_allow_pxe 0 hw.interfaces in
    let fields = clear_user_data hw.user_data ++ os.1 ++ parked.1 in
    (
      rw (name, namespace, has-stamped now fields hw.annotations, provisioned) refl,
      λ e. some_cleared hw os.1 user_data (append-nil _ parked.1 e).0,
    )
