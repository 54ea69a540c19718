-- ===== src/Janitor/Classify.antt =====
-- internal/janitor/classify.go: the truth table of the released-hardware predicate.
use Prim.Native.Char.{code}
use cluster_api_runtime_exte.Base.{
  ℕ, String, ◌≡◌, ◌↔◌, Bool, true, false, not, ◌&&◌, ◌||◌, none, some, arith, ◌==◌, nat_eq, leb,
  if◌then◌else◌,
}
use cluster_api_runtime_exte.Base.Dict.{has}
use cluster_api_runtime_exte.Janitor.{
  Hardware, Class, claimed, never_claimed, bootstrap_reserved, half_released, released,
  owner_name_label, owner_namespace_label, provisioned_annotation,
}

-- unicode.IsSpace
unfoldable pub is_space : ℕ → Bool
is_space c =
    (leb 9 c && leb c 13)
    || c == 32
    || c == 0x85
    || c == 0xA0
    || c == 0x1680
    || (leb 0x2000 c && leb c 0x200A)
    || c == 0x2028
    || c == 0x2029
    || c == 0x202F
    || c == 0x205F
    || c == 0x3000

-- `strings.TrimSpace(s) == ""`
unfoldable pub is_blank : String → Bool
is_blank String.[] = true
is_blank (String.◌∷◌ c s) = is_space (code c) && is_blank s

unfoldable pub has_user_data : Hardware → Bool
has_user_data hw = elim hw.user_data [ none ↦ false | some text ↦ not (is_blank text) ]

-- Classify
unfoldable pub classify : Hardware → Class
classify hw =
    if has owner_name_label hw.labels || has owner_namespace_label hw.labels
    then claimed
    else let user_data = has_user_data hw in
      let provisioned = has provisioned_annotation hw.annotations in
      if not user_data && not provisioned
      then never_claimed
      else if not user_data && provisioned
      then bootstrap_reserved
      else if provisioned
      then half_released
      else released

abbrev pub is_released : Class → Bool
is_released released = true
is_released _ = false

-- The documented predicate: no owner label, some user data, no provisioned annotation.
abbrev pub IsReleasable : Hardware → Type 0
IsReleasable hw =
    (has owner_name_label hw.labels ≡ false)
    × (has owner_namespace_label hw.labels ≡ false)
    × (has_user_data hw ≡ true)
    × (has provisioned_annotation hw.annotations ≡ false)

-- The class is the released one exactly if the three documented conjuncts hold: no owner label, user
-- data that is not blank, and no provisioned annotation.
pub is_released-classify : (hw : Hardware) → (is_released (classify hw) ≡ true) ↔ IsReleasable hw
unfolding classify
is_released-classify hw = (λ h. ground arith, λ h. ground arith)
