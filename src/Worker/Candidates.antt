-- ===== src/Worker/Candidates.antt =====
-- The chain of candidates has no pair of credentials twice and drops none of its sources.
use cluster_api_runtime_exte.Base.{
  String, ◌≡◌, refl, Bool, true, false, not, ◌&&◌, ◌||◌, ◌⊎◌, inl, inr, Option, none, some, List,
  [], ◌∷◌, ◌++◌, arith, ◌==◌, string_eq, Bool-cases,
}
use cluster_api_runtime_exte.Base.Dict.{Dict, lookup}
use cluster_api_runtime_exte.Base.Lists.{any}
use cluster_api_runtime_exte.Worker.{
  Credentials, Candidate, wildcard_service, same_creds, add, add_default, from_secret,
  credential_candidates,
}

-- Whether these credentials are among the candidates.
abbrev pub has_creds : Credentials → List Candidate → Bool
has_creds creds = any (λ c. same_creds c.creds creds)

-- No two candidates have the same credentials.
abbrev pub IsDistinct : List Candidate → Type 0
IsDistinct [] = Unit
IsDistinct (c ∷ cs) = (has_creds c.creds cs ≡ false) × IsDistinct cs

same_creds_sym : (a b : Credentials) → same_creds a b ≡ same_creds b a
unfolding same_creds
same_creds_sym a b = ground arith

pub same_creds_refl : (a : Credentials) → same_creds a a ≡ true
unfolding same_creds
same_creds_refl a = ground arith

has_creds-append :
    (x : Credentials) (cs : List Candidate) (c : Candidate)
    → has_creds x (cs ++ (c ∷ [])) ≡ (has_creds x cs || same_creds c.creds x)
has_creds-append x [] c = ground arith
has_creds-append x (d ∷ cs) c = ground (arith, has_creds-append x cs c)

append-IsDistinct :
    (cs : List Candidate) (c : Candidate)
    → IsDistinct cs
    → has_creds c.creds cs ≡ false
    → IsDistinct (cs ++ (c ∷ []))
append-IsDistinct [] c h n = (refl, tt)
append-IsDistinct (d ∷ cs) c (e, h) n = (
  ground (arith, has_creds-append d.creds cs c, same_creds_sym c.creds d.creds),
  append-IsDistinct cs c h (ground arith),
)

add-IsDistinct :
    (cs : List Candidate) (x : Credentials) (source : String)
    → IsDistinct cs
    → IsDistinct (add cs x source)
unfolding add
add-IsDistinct cs x source h = elim (Bool-cases (has_creds x cs)) [
  | inl e ↦ rw e h
  | inr e ↦ rw e (append-IsDistinct cs (record { creds = x; source = source }) h e)
]

same_creds_trans : (c x y : Credentials) → same_creds x y ≡ true → same_creds c x ≡ same_creds c y
unfolding same_creds
same_creds_trans c x y h = ground arith

has_creds_same :
    (x y : Credentials) (cs : List Candidate)
    → same_creds x y ≡ true
    → has_creds x cs ≡ has_creds y cs
has_creds_same x y [] h = refl
has_creds_same x y (c ∷ cs) h =
    ground (arith, same_creds_trans c.creds x y h, has_creds_same x y cs h)

-- What adding does to the set of credentials.
has_creds-add :
    (y : Credentials) (cs : List Candidate) (x : Credentials) (source : String)
    → has_creds y (add cs x source) ≡ (has_creds y cs || same_creds x y)
unfolding add
has_creds-add y cs x source = elim (Bool-cases (has_creds x cs)) [
  | inl e ↦ rw e (there e (Bool-cases (same_creds x y)))
  | inr e ↦ rw e (has_creds-append y cs (record { creds = x; source = source }))
]
  where
    there :
        has_creds x cs ≡ true
        → (same_creds x y ≡ true) ⊎ (same_creds x y ≡ false)
        → has_creds y cs ≡ (has_creds y cs || same_creds x y)
    there e (inl k) = let q = has_creds_same x y cs k in ground arith
    there e (inr k) = ground arith

add_default-IsDistinct :
    (cs : List Candidate) (o : Option Credentials) (source : String)
    → IsDistinct cs
    → IsDistinct (add_default cs o source)
add_default-IsDistinct cs none source h = h
add_default-IsDistinct cs (some x) source h = add-IsDistinct cs x source h

from_secret-IsDistinct : (secret : Option Credentials) → IsDistinct (from_secret secret)
unfolding add
from_secret-IsDistinct none = tt
from_secret-IsDistinct (some x) = ground arith

-- Whether a source has these credentials.
abbrev pub gives : Option Credentials → Credentials → Bool
gives none y = false
gives (some x) y = same_creds x y

-- Whether the Secret has them, with neither part empty.
abbrev pub secret_gives : Option Credentials → Credentials → Bool
secret_gives none y = false
secret_gives (some x) y = not (x.username == "") && not (x.password == "") && same_creds x y

has_creds-add_default :
    (y : Credentials) (cs : List Candidate) (o : Option Credentials) (source : String)
    → has_creds y (add_default cs o source) ≡ (has_creds y cs || gives o y)
has_creds-add_default y cs none source = ground arith
has_creds-add_default y cs (some x) source = has_creds-add y cs x source

has_creds-from_secret :
    (y : Credentials) (secret : Option Credentials)
    → has_creds y (from_secret secret) ≡ secret_gives secret y
has_creds-from_secret y none = refl
has_creds-from_secret y (some x) = ground (arith, has_creds-add y [] x "secret")

-- No pair of credentials is tried twice, and exactly those of the Secret (if neither part is empty), of
-- the default of the service and of the wildcard's default are tried.
pub credential_candidates-IsDistinct :
    (secret : Option Credentials) (defaults : Dict Credentials) (service : String) (y : Credentials)
    → IsDistinct (credential_candidates secret defaults service)
      × (has_creds y (credential_candidates secret defaults service) ≡ (
          secret_gives secret y
          || gives (lookup service defaults) y
          || gives (lookup wildcard_service defaults) y))
unfolding credential_candidates
credential_candidates-IsDistinct secret defaults service y =
    let a = from_secret secret in
    let b = add_default a (lookup service defaults) "service default" in
    (
      add_default-IsDistinct b (lookup wildcard_service defaults) "global default" (
          add_default-IsDistinct a (lookup service defaults) "service default"
            (from_secret-IsDistinct secret)),
      rw
          (
            has_creds-add_default y b (lookup wildcard_service defaults) "global default",
            has_creds-add_default y a (lookup service defaults) "service default",
            has_creds-from_secret y secret,
          )
          refl,
    )
