-- ===== src/Base/Versions.antt =====
-- The resourceVersion of the API server: each write gives the object a version that it has not had.
use mathlib.Core.Path.{◌≡◌, refl, sym, ap, ◌∙◌, subst}
use mathlib.Core.Logic.{◌≢◌, ◌⊎◌, inl, inr}
use mathlib.Core.List.{List, ◌∷◌}
use Prim.Native.String.{String}
use cluster_api_runtime_exte.Base.Lists.{All, All-IsIn, IsIn, at_head, in_tail}

module _ {A : Type 0} (version : A → String) where
  -- No object of the list has the version.
  abbrev pub IsFresh : String → List A → Type 0
  IsFresh v = All (λ x. version x ≢ v)

  -- A version is that of one object.
  abbrev pub IsVersioned : List A → Type 0
  IsVersioned past = (a b : A) → IsIn a past → IsIn b past → version a ≡ version b → a ≡ b

  one_of : (a x : A) (past : List A) → IsIn a (x ∷ past) → (a ≡ x) ⊎ IsIn a past
  one_of a x past at_head = inl refl
  one_of a x past (in_tail i) = inr i

  pub IsVersioned-old :
      (x : A) (past : List A) → IsIn x past → IsVersioned past → IsVersioned (x ∷ past)
  IsVersioned-old x past old v a b i j = v a b (again a i) (again b j)
    where
      again : (a : A) → IsIn a (x ∷ past) → IsIn a past
      again a i = elim (one_of a x past i) [
        | inl e ↦ subst (λ y. IsIn y past) (sym e) old
        | inr k ↦ k
      ]

  pub IsVersioned-new :
      (x : A) (past : List A) → IsFresh (version x) past → IsVersioned past → IsVersioned (x ∷ past)
  IsVersioned-new x past new v a b i j e = elim (one_of a x past i) [
    | inl p ↦ elim (one_of b x past j) [
      | inl q ↦ p ∙ sym q
      | inr k ↦ absurd (other b k (sym e ∙ ap version p))
    ]
    | inr l ↦ elim (one_of b x past j) [
      | inl q ↦ absurd (other a l (e ∙ ap version q))
      | inr k ↦ v a b l k e
    ]
  ]
    where
      other : (y : A) → IsIn y past → version y ≢ version x
      other y k = All-IsIn (λ h. version h ≢ version x) k new
