-- ===== src/Cmd/Discovery/Interfaces.antt =====
-- The interfaces of a browse, from the flag on.
use Prim.Native.Char.{Char, code}
use text.Mathlib.TextLemmas.{cons≢nil}
use cluster_api_runtime_exte.Base.{
  String, ◌≡◌, refl, sym, subst, ◌∙◌, ◌↔◌, inl, inr, true, false, ◌&&◌, Option, none, some, List,
  [], ◌∷◌, arith, ◌==◌, string_eq, Bool-cases,
}
use cluster_api_runtime_exte.Base.Lists.{All}
use cluster_api_runtime_exte.Janitor.Classify.{is_space, is_blank}
use cluster_api_runtime_exte.Inventory.{split}
use cluster_api_runtime_exte.Mdns.{client_options}
use cluster_api_runtime_exte.Mdns.Restricted.{IsRestricted, client_options-IsRestricted}
use cluster_api_runtime_exte.Cmd.Discovery.{
  trim_front, put_front, trim_end, trim_space, non_empty, split_non_empty,
}

not-nil : (c : Char) (s : String) → (String.◌∷◌ c s == "") ≡ false
not-nil c s = elim (Bool-cases (String.◌∷◌ c s == "")) [
  | inl e ↦ let k : String.◌∷◌ c s ≡ "" = ground arith in absurd (cons≢nil k)
  | inr e ↦ e
]

trim_front-IsBlank : (s : String) → (trim_front s == "") ≡ is_blank s
unfolding trim_front is_blank
trim_front-IsBlank String.[] = ground arith
trim_front-IsBlank (String.◌∷◌ c s) = ground (arith, trim_front-IsBlank s, not-nil c s)

at_end : (c : Char) → is_blank (put_front c "") ≡ (is_space (code c) && is_blank "")
unfolding is_blank string_eq
at_end c = elim (Bool-cases (is_space (code c))) [ inl e ↦ rw e refl | inr e ↦ rw e (rw e refl) ]

blank-put_front :
    (c : Char) (s : String) → is_blank (put_front c s) ≡ (is_space (code c) && is_blank s)
unfolding is_blank
blank-put_front c s = elim (Bool-cases (s == "")) [
  | inl e ↦
      let k : "" ≡ s = ground arith in
      subst (λ t. is_blank (put_front c t) ≡ (is_space (code c) && is_blank t)) k (at_end c)
  | inr e ↦ rw e refl
]

blank-trim_end : (s : String) → is_blank (trim_end s) ≡ is_blank s
unfolding trim_end is_blank
blank-trim_end String.[] = refl
blank-trim_end (String.◌∷◌ c s) = ground (arith, blank-put_front c (trim_end s), blank-trim_end s)

trim_space-is_blank : (s : String) → (trim_space s == "") ≡ is_blank s
trim_space-is_blank s = trim_front-IsBlank (trim_end s) ∙ blank-trim_end s

abbrev pub IsBlank : String → Type 0
IsBlank part = is_blank part ≡ true

IsBlank-parts : (parts : List String) → non_empty parts ≡ [] → All IsBlank parts
unfolding non_empty
IsBlank-parts [] h = tt
IsBlank-parts (part ∷ rest) h = elim (Bool-cases (trim_space part == "")) [
  | inl e ↦ (sym (trim_space-is_blank part) ∙ e, IsBlank-parts rest (ground arith))
  | inr e ↦ absurd (ground arith)
]

no_parts : (parts : List String) → All IsBlank parts → non_empty parts ≡ []
unfolding non_empty
no_parts [] h = refl
no_parts (part ∷ rest) (h, k) = rw (trim_space-is_blank part, h, no_parts rest k) refl

module _ {Interface : Type 0} (interface_by_name : String → Option Interface) where
  unrestricted :
      (names : List String)
      → client_options interface_by_name names ≡ some (record { interfaces = none })
      → names ≡ []
  unrestricted [] h = refl
  unrestricted (name ∷ rest) h =
      let k =
        subst (IsRestricted interface_by_name (name ∷ rest)) h
          (client_options-IsRestricted interface_by_name (name ∷ rest)) in
      absurd (ground (arith, k.1))

  -- The browser uses all interfaces of the host exactly if every comma-separated part of the flag is
  -- blank, so that a flag that names an interface never widens the browse, even if none of the
  -- interfaces that it names exists.
  pub client_options-split_non_empty :
      (flag : String)
      → (client_options interface_by_name (split_non_empty flag)
          ≡ some (record { interfaces = none }))
        ↔ All IsBlank (split flag)
  unfolding split_non_empty client_options
  client_options-split_non_empty flag = (
    λ h. IsBlank-parts (split flag) (unrestricted (non_empty (split flag)) h),
    λ h. rw (no_parts (split flag) h) refl,
  )
