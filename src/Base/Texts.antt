-- ===== src/Base/Texts.antt =====
-- The order of Go's strings, which is that of their UTF-8 bytes.
use Prim.Native.Nat.{ℕ, Ordering, compare as compare_ℕ}
use Prim.Native.Char.{code}
use Prim.Native.String.{String, [], ◌∷◌, compare}
use Prim.Native.String.compare
use mathlib.Core.Path.{◌≡◌}
use mathlib.Core.Bool.{Bool, true, false}
use native.Mathlib.Omega.{arith}
use text.Mathlib.TextEquality.{path_by_compare}
use text.Mathlib.TextPositions.{compare_refl}

-- `s < t`
unfoldable pub str_lt : String → String → Bool
str_lt s t = elim (compare s t) [ Ordering.lt ↦ true | _ ↦ false ]

abbrev flip : Ordering → Ordering
flip Ordering.lt = Ordering.gt
flip Ordering.eq = Ordering.eq
flip Ordering.gt = Ordering.lt

compare_ℕ-flip : (m n : ℕ) → compare_ℕ n m ≡ flip (compare_ℕ m n)
compare_ℕ-flip m n = ground arith

compare-flip : (s t : String) → compare t s ≡ flip (compare s t)
compare-flip [] [] = rw compare_refl
compare-flip [] (d ∷ t) = rw (compare.nil-cons d t, compare.cons-nil d t)
compare-flip (c ∷ s) [] = rw (compare.nil-cons c s, compare.cons-nil c s)
compare-flip (c ∷ s) (d ∷ t) =
    rw (compare.cons-cons c d s t, compare.cons-cons d c t s)
      (ground (arith, compare_ℕ-flip (code c) (code d), compare-flip s t))

compare_trans :
    (s t u : String)
    → compare s t ≡ Ordering.lt
    → compare t u ≡ Ordering.lt
    → compare s u ≡ Ordering.lt
compare_trans [] [] u h k = cc
compare_trans [] (d ∷ t) [] h k = cc (k, compare.cons-nil d t)
compare_trans [] (d ∷ t) (e ∷ u) h k = compare.nil-cons e u
compare_trans (c ∷ s) [] u h k = cc (h, compare.cons-nil c s)
compare_trans (c ∷ s) (d ∷ t) [] h k = cc (k, compare.cons-nil d t)
compare_trans (c ∷ s) (d ∷ t) (e ∷ u) h k = ground (
  arith,
  compare.cons-cons c d s t,
  compare.cons-cons d e t u,
  compare.cons-cons c e s u,
  compare_trans s t u,
)

pub str_lt_irrefl : (s : String) → str_lt s s ≡ false
unfolding str_lt
str_lt_irrefl s = ground (arith, compare_refl s)

pub str_lt_asym : (s t : String) → str_lt s t ≡ true → str_lt t s ≡ false
unfolding str_lt
str_lt_asym s t h = ground (arith, compare-flip s t)

pub str_lt_total : (s t : String) → str_lt s t ≡ false → str_lt t s ≡ false → s ≡ t
unfolding str_lt
str_lt_total s t h k = path_by_compare s t (ground (arith, compare-flip s t))

pub str_lt_trans : (s t u : String) → str_lt s t ≡ true → str_lt t u ≡ true → str_lt s u ≡ true
unfolding str_lt
str_lt_trans s t u h k = ground (arith, compare_trans s t u)
