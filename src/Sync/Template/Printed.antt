-- ===== src/Sync/Template/Printed.antt =====
-- A template that is put together from characters and references is rendered piece by piece.
use cluster_api_runtime_exte.Base.{
  ℕ, suc, ◌+◌, ◌≡◌, refl, Bool, true, false, ◌||◌, none, some, List, [], ◌∷◌, ◌++◌, arith, ◌==◌,
  nat_eq, list_eq, if◌then◌else◌,
}
use cluster_api_runtime_exte.Base.Lists.{length, All}
use cluster_api_runtime_exte.Sync.{Text, Endpoint}
use cluster_api_runtime_exte.Sync.Names.{is_empty, sanitize_name}
use cluster_api_runtime_exte.Sync.Mapping.{Device}
use cluster_api_runtime_exte.Sync.Template.{
  is_name_char, read_name, reference, value_of, replace_all, template_vars, checked, template_name,
}

-- A character, or a reference to a variable.
pub data Piece : Type 0 where
  literal : ℕ → Piece
  variable : Text → Piece

-- The name in `${name}`.
abbrev pub braced : Text → Text → Text
braced name s = b'$' ∷ b'{' ∷ (name ++ (b'}' ∷ s))

unfoldable pub print : List Piece → Text
print [] = []
print (literal c ∷ rest) = c ∷ print rest
print (variable name ∷ rest) = braced name (print rest)

-- A character other than "$", or a name that is not empty, of small letters and "_".
abbrev pub IsPiece : Piece → Type 0
IsPiece (literal c) = (c == b'$') ≡ false
IsPiece (variable name) = (is_empty name ≡ false) × All (λ c. is_name_char c ≡ true) name

module _ (vars : List (Text × Text)) where
  -- Every reference replaced by its value.
  unfoldable pub fill : List Piece → Text
  fill [] = []
  fill (literal c ∷ rest) = c ∷ fill rest
  fill (variable name ∷ rest) = value_of vars name ++ fill rest

  -- Some reference has no value.
  unfoldable pub has_unresolved : List Piece → Bool
  has_unresolved [] = false
  has_unresolved (literal c ∷ rest) = has_unresolved rest
  has_unresolved (variable name ∷ rest) = is_empty (value_of vars name) || has_unresolved rest

  name_char-brace : (c : ℕ) → is_name_char c ≡ true → (c == b'}') ≡ false
  name_char-brace c h = ground arith

  read_name-append :
      (name s : Text)
      → All (λ c. is_name_char c ≡ true) name
      → read_name (name ++ (b'}' ∷ s)) ≡ some name
  unfolding read_name nat_eq
  read_name-append [] s h = refl
  read_name-append (c ∷ name) s (h, k) =
      let q = name_char-brace c h in rw (q, h, read_name-append name s k) refl

  reference-braced :
      (name s : Text)
      → is_empty name ≡ false
      → All (λ c. is_name_char c ≡ true) name
      → reference (braced name s) ≡ some name
  unfolding reference nat_eq
  reference-braced [] s e h = absurd (ground arith)
  reference-braced (c ∷ name) s e h = rw (read_name-append (c ∷ name) s h) refl

  skip-rest :
      (name s : Text)
      → replace_all vars (suc (length name)) (name ++ (b'}' ∷ s)) ≡ replace_all vars 0 s
  unfolding replace_all
  skip-rest [] s = refl
  skip-rest (c ∷ name) s = skip-rest name s

  two_more : (n : ℕ) → n + 2 ≡ suc (suc n)
  two_more n = omega arith

  skip-name :
      (name s : Text)
      → replace_all vars (length name + 2) (b'{' ∷ (name ++ (b'}' ∷ s))) ≡ replace_all vars 0 s
  unfolding replace_all
  skip-name name s = rw (two_more (length name)) (skip-rest name s)

  reference-literal : (c : ℕ) (s : Text) → (c == b'$') ≡ false → reference (c ∷ s) ≡ none
  unfolding reference
  reference-literal c [] h = refl
  reference-literal c (b ∷ s) h = rw h refl

  replace_all-print :
      (pieces : List Piece)
      → All IsPiece pieces
      → replace_all vars 0 (print pieces) ≡ (fill pieces, has_unresolved pieces)
  unfolding print fill has_unresolved replace_all
  replace_all-print [] h = refl
  replace_all-print (literal c ∷ rest) (h, k) =
      rw (reference-literal c (print rest) h, replace_all-print rest k) refl
  replace_all-print (variable name ∷ rest) ((h, n), k) =
      rw
        (
          reference-braced name (print rest) h n,
          skip-name name (print rest),
          replace_all-print rest k,
        )
        refl

print-cons : (p : Piece) (rest : List Piece) → is_empty (print (p ∷ rest)) ≡ false
unfolding print
print-cons (literal c) rest = refl
print-cons (variable name) rest = refl

-- A template that is written as characters other than "$" and references in braces, with at least one
-- of them, is rendered to the sanitized text in which each reference is replaced by its value, unless
-- some reference has none, be it unknown or empty: then to "".
pub template_name-print :
    (p : Piece) (rest : List Piece) (ep : Endpoint) (dev : Device)
    → All IsPiece (p ∷ rest)
    → let vars = template_vars ep dev in
      template_name (print (p ∷ rest)) ep dev
      ≡ (if has_unresolved vars (p ∷ rest) then [] else sanitize_name (fill vars (p ∷ rest)))
unfolding template_name
template_name-print p rest ep dev h =
    let vars = template_vars ep dev in
    rw (print-cons p rest, replace_all-print vars (p ∷ rest) h)
      (check (fill vars (p ∷ rest)) (has_unresolved vars (p ∷ rest)))
  where
    check : (out : Text) (b : Bool) → checked (out, b) ≡ (if b then [] else sanitize_name out)
    check out true = refl
    check out false = refl
