-- ===== src/Worker/Verified.antt =====
-- Which candidate the loop of handle stops at, and what it leaves if the collector refuses all.
use cluster_api_runtime_exte.Base.{
  String, ◌≡◌, refl, true, Option, some, List, [], ◌∷◌, arith, string_eq,
}
use cluster_api_runtime_exte.Worker.{
  Credentials, Candidate, Answer, collected, refused, Verification, verified, unverified, settle,
  verify,
}
use cluster_api_runtime_exte.Worker.Candidates.{has_creds, same_creds_refl}

module _ {Device : Type 0} (collect : Credentials → Answer Device) where
  -- The candidates before the first that the collector accepts, it, and those after it.
  pub data IsFirst (device : Device) (creds : Credentials) : List Candidate → Type 0 where
    now :
        {c : Candidate} {rest : List Candidate}
        → c.creds ≡ creds
        → collect creds ≡ collected device
        → IsFirst device creds (c ∷ rest)
    later :
        {c : Candidate} {rest : List Candidate} {x : String}
        → collect c.creds ≡ refused x
        → IsFirst device creds rest
        → IsFirst device creds (c ∷ rest)

  -- All are refused, and this is the error of the last, or `last` if there is none.
  abbrev pub IsRefused : Option String → List Candidate → Option String → Type 0
  IsRefused last [] e = e ≡ last
  IsRefused last (c ∷ cs) e = (x : String) × (collect c.creds ≡ refused x) × IsRefused (some x) cs e

  -- The first that is accepted, or all are refused.
  abbrev pub IsVerified : Option String → List Candidate → Verification Device → Type 0
  IsVerified last cs (unverified e) = IsRefused last cs e
  IsVerified last cs (verified device creds) = IsFirst device creds cs

  after_refusal :
      (last : Option String) (c : Candidate) (cs : List Candidate) (x : String)
      (v : Verification Device)
      → collect c.creds ≡ refused x
      → IsVerified (some x) cs v
      → IsVerified last (c ∷ cs) v
  after_refusal last c cs x (unverified e) r h = (x, r, h)
  after_refusal last c cs x (verified device creds) r h = later r h

  settle-IsVerified :
      (last : Option String) (c : Candidate) (cs : List Candidate) (answer : Answer Device)
      → collect c.creds ≡ answer
      → ((e : Option String) → IsVerified e cs (verify collect e cs))
      → IsVerified last (c ∷ cs) (settle answer c.creds (λ e. verify collect e cs))
  settle-IsVerified last c cs (collected device) e h = now refl e
  settle-IsVerified last c cs (refused x) e h =
      after_refusal last c cs x (verify collect (some x) cs) e (h (some x))

  -- The chain stops at the first candidate that the collector accepts, with the device that it answers,
  -- and fails only if it refuses all: then with the error of the last.
  pub verify-IsVerified :
      (last : Option String) (cs : List Candidate) → IsVerified last cs (verify collect last cs)
  unfolding verify
  verify-IsVerified last [] = refl
  verify-IsVerified last (c ∷ cs) =
      settle-IsVerified last c cs (collect c.creds) refl (λ e. verify-IsVerified e cs)

  has_creds_refl :
      (c : Candidate) (cs : List Candidate) (creds : Credentials)
      → c.creds ≡ creds
      → has_creds creds (c ∷ cs) ≡ true
  has_creds_refl c cs creds e = ground (arith, e, same_creds_refl creds)

  -- The accepted credentials are among the candidates, and were accepted.
  pub IsFirst-has_creds :
      {device : Device} {creds : Credentials} {cs : List Candidate}
      → IsFirst device creds cs
      → (has_creds creds cs ≡ true) × (collect creds ≡ collected device)
  IsFirst-has_creds (now {c} {rest} e h) = (has_creds_refl c rest _ e, h)
  IsFirst-has_creds (later h k) = let p = IsFirst-has_creds k in (ground (arith, p.0), p.1)

  -- Candidates that are all refused leave an error, if there is one of them.
  pub IsRefused-some :
      (last : Option String) (c : Candidate) (cs : List Candidate) (e : Option String)
      → IsRefused last (c ∷ cs) e
      → (x : String) × (e ≡ some x)
  IsRefused-some last c [] e (x, r, h) = (x, h)
  IsRefused-some last c (d ∷ cs) e (x, r, h) = IsRefused-some (some x) d cs e h
