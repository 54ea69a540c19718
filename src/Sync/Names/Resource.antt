-- ===== src/Sync/Names/Resource.antt =====
-- ResourceName always has a name: a DNS label that is not empty.
use cluster_api_runtime_exte.Base.{
  ℕ, zero, suc, ◌≤◌, ◌≡◌, ◌≢◌, refl, sym, ◌∙◌, ap, inl, inr, Bool, true, false, not, ◌||◌, [], ◌∷◌,
  ◌++◌, arith, ltb, ◌==◌, nat_eq, if◌then◌else◌, Bool-cases,
}
use cluster_api_runtime_exte.Base.Lists.{length, All}
use cluster_api_runtime_exte.Sync.{Text, Endpoint}
use cluster_api_runtime_exte.Sync.Names.{
  to_lower, is_alnum, turn, write, put, trim_right, take, sanitize_name, before_dot, dashed,
  is_empty, bmc_prefix, resource_name,
}
use cluster_api_runtime_exte.Sync.Names.Label.{
  IsWritten, IsLabel, EndsAlnum, letter, write-IsWritten, trim_right-IsWritten, take-IsWritten,
  length-trim_right, sanitize_name-IsLabel,
}

-- No character of the text is a letter or a digit.
abbrev pub IsBare : Text → Type 0
IsBare = All (λ c. is_alnum (to_lower c) ≡ false)

write-nil : (s : Text) → write true s ≡ [] → IsBare s
unfolding write
write-nil [] h = tt
write-nil (c ∷ s) h = elim (Bool-cases (is_alnum (to_lower c))) [
  | inl e ↦ absurd (ground arith)
  | inr e ↦ (e, write-nil s (ground arith))
]

put-ne-nil : (c : ℕ) (s : Text) → is_alnum c ≡ true → put c s ≢ []
put-ne-nil c [] a h = absurd (ground (arith, letter c a))
put-ne-nil c (d ∷ s) a h = absurd (ground arith)

trim_right-nil : (s : Text) → IsWritten true s → trim_right s ≡ [] → s ≡ []
unfolding trim_right
trim_right-nil [] h e = refl
trim_right-nil (c ∷ s) (inl (a, h)) e = absurd (put-ne-nil c (trim_right s) a e)
trim_right-nil (c ∷ s) (inr (d, l, h)) e = absurd (ground arith)

take-nil : (n : ℕ) (s : Text) → take (suc n) s ≡ [] → s ≡ []
unfolding take
take-nil n [] h = refl
take-nil n (c ∷ s) h = absurd (ground arith)

cut-nil :
    (long : Bool) (w : Text)
    → IsWritten true w
    → (if long then trim_right (take 63 w) else w) ≡ []
    → w ≡ []
cut-nil true w h e = take-nil 62 w (trim_right-nil (take 63 w) (take-IsWritten 63 true w h) e)
cut-nil false w h e = e

-- A text is sanitized to nothing only if it has no letter and no digit.
pub sanitize_name-nil : (s : Text) → sanitize_name s ≡ [] → IsBare s
unfolding sanitize_name
sanitize_name-nil s e =
    let w = write true s in
    let h = write-IsWritten true s in
    let out = trim_right w in
    write-nil s
      (trim_right-nil w h (cut-nil (ltb 63 (length out)) out (trim_right-IsWritten true w h) e))

length-turn :
    (a last_dash : Bool) (r n : ℕ) (rest : Bool → Text)
    → ((b : Bool) → length (rest b) ≤ n)
    → length (turn a last_dash r rest) ≤ suc n
length-turn true last_dash r n rest h = ground (arith, h false)
length-turn false true r n rest h = ground (arith, h true)
length-turn false false r n rest h = ground (arith, h true)

length-write : (last_dash : Bool) (s : Text) → length (write last_dash s) ≤ length s
unfolding write
length-write last_dash [] = ground arith
length-write last_dash (c ∷ s) =
    length-turn (is_alnum (to_lower c)) last_dash (to_lower c) (length s) (λ b. write b s)
      (λ b. length-write b s)

length-cut :
    (long : Bool) (w : Text) → length (if long then trim_right (take 63 w) else w) ≤ length w
unfolding take
length-cut true w = ground (arith, length-trim_right (take 63 w), shorter 63 w)
  where
    shorter : (n : ℕ) (x : Text) → length (take n x) ≤ length x
    shorter zero x = ground arith
    shorter (suc n) [] = ground arith
    shorter (suc n) (c ∷ x) = ground (arith, shorter n x)
length-cut false w = ground arith

length-sanitize_name : (s : Text) → length (sanitize_name s) ≤ length s
unfolding sanitize_name
length-sanitize_name s =
    let out = trim_right (write true s) in
    ground (
      arith,
      length-cut (ltb 63 (length out)) out,
      length-trim_right (write true s),
      length-write true s,
    )

-- What the text of an IP address is like: a letter or a digit, and room for the prefix.
pub record IsAddressText (ip : Text) : Type 0 where
  pub told : ¬ IsBare ip
  pub brief : length ip ≤ 59

length-dashed : (s : Text) → length (dashed s) ≡ length s
unfolding dashed
length-dashed [] = refl
length-dashed (c ∷ s) = ap suc (length-dashed s)

dot_free :
    (c : ℕ)
    → is_alnum (to_lower (if c == b'.' || c == b':' then b'-' else c)) ≡ is_alnum (to_lower c)
unfolding to_lower is_alnum
dot_free c = ground arith

dashed-IsBare : (s : Text) → IsBare (dashed s) → IsBare s
unfolding dashed
dashed-IsBare [] h = tt
dashed-IsBare (c ∷ s) (e, h) = (sym (dot_free c) ∙ e, dashed-IsBare s h)

prefix-EndsAlnum : (s : Text) → s ≢ [] → EndsAlnum s → EndsAlnum (bmc_prefix ++ s)
prefix-EndsAlnum [] n h = absurd (n refl)
prefix-EndsAlnum (c ∷ s) n h = h

prefix-IsLabel : (s : Text) → s ≢ [] → IsLabel s → length s ≤ 59 → IsLabel (bmc_prefix ++ s)
unfolding is_alnum nat_eq
prefix-IsLabel s n h l = record {
  chars = (refl, (refl, (refl, (refl, h.chars))));
  starts = refl;
  ends = prefix-EndsAlnum s n h.ends;
  short = ground arith;
}

-- Where the text of the address has a letter or a digit and at most 59 characters, the resource name of
-- an endpoint is a DNS label and not empty, whatever its host and instance names are.
pub resource_name-IsLabel :
    (ep : Endpoint) → IsAddressText ep.ip → IsLabel (resource_name ep) × (resource_name ep ≢ [])
unfolding resource_name
resource_name-IsLabel ep h =
    choose (sanitize_name (before_dot ep.hostname)) (sanitize_name ep.instance_name)
      (sanitize_name-IsLabel (before_dot ep.hostname)) (sanitize_name-IsLabel ep.instance_name)
  where
    last : Text
    last = sanitize_name (dashed ep.ip)

    choose :
        (host name : Text)
        → IsLabel host
        → IsLabel name
        → let x =
            (if not (is_empty host)
              then host
              else if not (is_empty name)
              then name
              else bmc_prefix ++ last) in
          IsLabel x × (x ≢ [])
    choose (c ∷ s) name k l = (k, λ e. absurd (ground arith))
    choose [] (c ∷ s) k l = (l, λ e. absurd (ground arith))
    choose [] [] k l = (
      prefix-IsLabel last (λ e. h.told (dashed-IsBare ep.ip (sanitize_name-nil (dashed ep.ip) e)))
          (sanitize_name-IsLabel (dashed ep.ip))
          (let b = h.brief in
            ground (arith, length-sanitize_name (dashed ep.ip), length-dashed ep.ip)),
      λ e. absurd (ground arith),
    )
