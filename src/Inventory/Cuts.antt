-- ===== src/Inventory/Cuts.antt =====
-- strings.Split and strings.Cut of ParseDefaults: the parts, and how they make up the text.
use Prim.Native.Char.{Char, code}
use Prim.Native.String.append
use text.Mathlib.TextEquality.{Char-path}
use mathlib.Core.Option.{some-injective}
use cluster_api_runtime_exte.Base.{
  String, ◌<>◌, ◌≡◌, refl, sym, subst, ap, ◌∙◌, inl, inr, true, false, Option, none, some, List, [],
  ◌∷◌, arith, ◌==◌, string_eq, nat_eq, Bool-cases,
}
use cluster_api_runtime_exte.Base.Lists.{All}
use cluster_api_runtime_exte.Inventory.{split, cut, extend, lead}
use cluster_api_runtime_exte.Inventory.Printed.{IsFree, lone}

same_code : (sep c : Char) → (code c == code sep) ≡ true → c ≡ sep
same_code sep c h = Char-path c sep (ground arith)

prepend : (c : Char) (s t : String) → String.◌∷◌ c (s <> t) ≡ String.◌∷◌ c s <> t
prepend c s t = sym (append.cons c s t)

found_first :
    (sep c : Char) (s : String)
    → (code c == code sep) ≡ true
    → String.◌∷◌ c s ≡ "" <> (String.◌∷◌ sep "" <> s)
found_first sep c s t =
    ap (λ d. String.◌∷◌ d s) (same_code sep c t) ∙ sym (append.nil _ ∙ lone sep s)

-- The halves of a cut, and what they say of the text.
abbrev pub IsCutAt : Char → String → String × String → Type 0
IsCutAt sep s (before, after) =
    IsFree (code sep) before × (s ≡ before <> (String.◌∷◌ sep "" <> after))

one_more :
    (sep c : Char) (s : String) (halves : String × String) (o : Option (String × String))
    → (code c == code sep) ≡ false
    → ((h : String × String) → o ≡ some h → IsCutAt sep s h)
    → extend c o ≡ some halves
    → IsCutAt sep (String.◌∷◌ c s) halves
one_more sep c s halves none f k e = ground arith
one_more sep c s halves (some (b, a)) f k e =
    let (free, text) = k (b, a) refl in
    subst (IsCutAt sep (String.◌∷◌ c s)) (some-injective _ _ e)
      ((f, free), ap (λ t. String.◌∷◌ c t) text ∙ prepend c b (String.◌∷◌ sep "" <> a))

pub cut-IsCutAt :
    (sep : Char) (s : String) (halves : String × String)
    → cut (code sep) s ≡ some halves
    → IsCutAt sep s halves
unfolding cut
cut-IsCutAt sep String.[] halves e = ground arith
cut-IsCutAt sep (String.◌∷◌ c s) halves e = elim (Bool-cases (code c == code sep)) [
  | inl t ↦
      subst (IsCutAt sep (String.◌∷◌ c s)) (some-injective ("", s) halves (rw t at e))
        (tt, found_first sep c s t)
  | inr f ↦ one_more sep c s halves (cut (code sep) s) f (cut-IsCutAt sep s) (rw f at e)
]

-- The parts of a text between its commas, put together again.
abbrev pub joined : String → List String → String
joined s [] = s
joined s (t ∷ ts) = s <> ("," <> joined t ts)

joined-lead :
    (c : Char) (s : String) (ts : List String)
    → joined (String.◌∷◌ c s) ts ≡ String.◌∷◌ c (joined s ts)
joined-lead c s [] = refl
joined-lead c s (t ∷ ts) = append.cons c s _

-- The parts of a text: no commas, and the text itself between them.
abbrev pub IsSplitOf : String → List String → Type 0
IsSplitOf s [] = ⊥
IsSplitOf s (p ∷ ps) = All (IsFree b',') (p ∷ ps) × (s ≡ joined p ps)

IsSplitOf-comma :
    (c : Char) (s : String) (parts : List String)
    → (code c == b',') ≡ true
    → IsSplitOf s parts
    → IsSplitOf (String.◌∷◌ c s) ("" ∷ parts)
IsSplitOf-comma c s (p ∷ ps) t (free, text) =
    ((tt, free), found_first _ c s t ∙ ap (λ u. "" <> ("," <> u)) text)
IsSplitOf-comma c s [] t h = absurd h

IsSplitOf-lead :
    (c : Char) (s : String) (parts : List String)
    → (code c == b',') ≡ false
    → IsSplitOf s parts
    → IsSplitOf (String.◌∷◌ c s) (lead c parts)
IsSplitOf-lead c s (p ∷ ps) f ((free, rest), text) =
    (((f, free), rest), ap (λ u. String.◌∷◌ c u) text ∙ sym (joined-lead c p ps))
IsSplitOf-lead c s [] f h = absurd h

pub split-IsSplitOf : (s : String) → IsSplitOf s (split s)
unfolding split
split-IsSplitOf String.[] = ((tt, tt), refl)
split-IsSplitOf (String.◌∷◌ c s) = elim (Bool-cases (code c == b',')) [
  | inl t ↦ rw t (IsSplitOf-comma c s (split s) t (split-IsSplitOf s))
  | inr f ↦ rw f (IsSplitOf-lead c s (split s) f (split-IsSplitOf s))
]
