-- ===== src/Sync/Names/Label.antt =====
-- A sanitized name is a DNS label, and sanitizing it again does not change it.
use cluster_api_runtime_exte.Base.{
  ℕ, zero, suc, ◌≤◌, ◌≡◌, refl, ap, ◌⊎◌, inl, inr, Bool, true, false, ◌||◌, [], ◌∷◌, arith, ltb,
  ◌==◌, nat_eq, Bool-cases,
}
use cluster_api_runtime_exte.Base.Lists.{length, All}
use cluster_api_runtime_exte.Sync.{Text}
use cluster_api_runtime_exte.Sync.Names.{
  to_lower, is_alnum, turn, write, put, trim_right, take, sanitize_name,
}

-- What the loop writes: letters and digits, and dashes of which none follows another.
abbrev pub IsWritten : Bool → Text → Type 0
IsWritten last_dash [] = Unit
IsWritten last_dash (c ∷ s) =
    ((is_alnum c ≡ true) × IsWritten false s)
    ⊎ ((c ≡ b'-') × (last_dash ≡ false) × IsWritten true s)

turn-IsWritten :
    (a last_dash : Bool) (r : ℕ) (rest : Bool → Text)
    → is_alnum r ≡ a
    → ((b : Bool) → IsWritten b (rest b))
    → IsWritten last_dash (turn a last_dash r rest)
turn-IsWritten true last_dash r rest e h = inl (e, h false)
turn-IsWritten false true r rest e h = h true
turn-IsWritten false false r rest e h = inr (refl, refl, h true)

pub write-IsWritten : (last_dash : Bool) (s : Text) → IsWritten last_dash (write last_dash s)
unfolding write
write-IsWritten last_dash [] = tt
write-IsWritten last_dash (c ∷ s) =
    turn-IsWritten (is_alnum (to_lower c)) last_dash (to_lower c) (λ b. write b s) refl
      (λ b. write-IsWritten b s)

to_lower_alnum : (c : ℕ) → is_alnum c ≡ true → to_lower c ≡ c
unfolding to_lower is_alnum
to_lower_alnum c h = ground arith

dash : is_alnum (to_lower b'-') ≡ false
unfolding to_lower is_alnum nat_eq
dash = refl

write_again : (last_dash : Bool) (s : Text) → IsWritten last_dash s → write last_dash s ≡ s
unfolding write
write_again last_dash [] h = refl
write_again last_dash (c ∷ s) (inl (a, h)) =
    rw (to_lower_alnum c a, a) (ap (λ t. c ∷ t) (write_again false s h))
write_again last_dash (c ∷ s) (inr (e, l, h)) =
    rw (e, dash, l) (ap (λ t. b'-' ∷ t) (write_again true s h))

pub letter : (c : ℕ) → is_alnum c ≡ true → (c == b'-') ≡ false
unfolding is_alnum
letter c h = ground arith

put-IsWritten :
    (last_dash : Bool) (c : ℕ) (s t : Text)
    → IsWritten last_dash (c ∷ s)
    → ((b : Bool) → IsWritten b s → IsWritten b t)
    → IsWritten last_dash (put c t)
unfolding nat_eq
put-IsWritten last_dash c s [] (inl (a, h)) k = rw (letter c a) (inl (a, tt))
put-IsWritten last_dash c s [] (inr (e, l, h)) k = rw e tt
put-IsWritten last_dash c s (d ∷ t) (inl (a, h)) k = inl (a, k false h)
put-IsWritten last_dash c s (d ∷ t) (inr (e, l, h)) k = inr (e, l, k true h)

pub trim_right-IsWritten :
    (last_dash : Bool) (s : Text) → IsWritten last_dash s → IsWritten last_dash (trim_right s)
unfolding trim_right
trim_right-IsWritten last_dash [] h = tt
trim_right-IsWritten last_dash (c ∷ s) h =
    put-IsWritten last_dash c s (trim_right s) h (λ b k. trim_right-IsWritten b s k)

pub take-IsWritten :
    (n : ℕ) (last_dash : Bool) (s : Text) → IsWritten last_dash s → IsWritten last_dash (take n s)
unfolding take
take-IsWritten zero last_dash s h = tt
take-IsWritten (suc n) last_dash [] h = tt
take-IsWritten (suc n) last_dash (c ∷ s) (inl (a, h)) = inl (a, take-IsWritten n false s h)
take-IsWritten (suc n) last_dash (c ∷ s) (inr (e, l, h)) = inr (e, l, take-IsWritten n true s h)

pub length-take : (n : ℕ) (s : Text) → length (take n s) ≤ n
unfolding take
length-take zero s = ground arith
length-take (suc n) [] = ground arith
length-take (suc n) (c ∷ s) = ground (arith, length-take n s)

length-put : (c : ℕ) (s : Text) → length (put c s) ≤ suc (length s)
length-put c [] = ground arith
length-put c (d ∷ s) = ground arith

pub length-trim_right : (s : Text) → length (trim_right s) ≤ length s
unfolding trim_right
length-trim_right [] = ground arith
length-trim_right (c ∷ s) = ground (arith, length-trim_right s, length-put c (trim_right s))

put_again : (c : ℕ) (t : Text) → trim_right t ≡ t → trim_right (put c t) ≡ put c t
unfolding trim_right
put_again c [] h = ground arith
put_again c (d ∷ t) h = rw h refl

trim_right_again : (s : Text) → trim_right (trim_right s) ≡ trim_right s
unfolding trim_right
trim_right_again [] = refl
trim_right_again (c ∷ s) = put_again c (trim_right s) (trim_right_again s)

-- The last character, if there is one, is a letter or a digit.
abbrev pub EndsAlnum : Text → Type 0
EndsAlnum [] = Unit
EndsAlnum (c ∷ []) = is_alnum c ≡ true
EndsAlnum (c ∷ d ∷ s) = EndsAlnum (d ∷ s)

-- The first character, if there is one, is a letter or a digit.
abbrev pub StartsAlnum : Text → Type 0
StartsAlnum [] = Unit
StartsAlnum (c ∷ s) = is_alnum c ≡ true

-- The texts of RFC 1123's labels, and the empty text.
pub record IsLabel (s : Text) : Type 0 where
  pub chars : All (λ c. (is_alnum c || c == b'-') ≡ true) s
  pub starts : StartsAlnum s
  pub ends : EndsAlnum s
  pub short : length s ≤ 63

put-EndsAlnum :
    (last_dash : Bool) (c : ℕ) (s t : Text)
    → IsWritten last_dash (c ∷ s)
    → EndsAlnum t
    → EndsAlnum (put c t)
unfolding nat_eq
put-EndsAlnum last_dash c s [] (inl (a, h)) k = rw (letter c a) a
put-EndsAlnum last_dash c s [] (inr (e, l, h)) k = rw e tt
put-EndsAlnum last_dash c s (d ∷ t) h k = k

trim_right-EndsAlnum :
    (last_dash : Bool) (s : Text) → IsWritten last_dash s → EndsAlnum (trim_right s)
unfolding trim_right
trim_right-EndsAlnum last_dash [] h = tt
trim_right-EndsAlnum last_dash (c ∷ s) (inl (a, h)) =
    put-EndsAlnum last_dash c s (trim_right s) (inl (a, h)) (trim_right-EndsAlnum false s h)
trim_right-EndsAlnum last_dash (c ∷ s) (inr (e, l, h)) =
    put-EndsAlnum last_dash c s (trim_right s) (inr (e, l, h)) (trim_right-EndsAlnum true s h)

written-chars :
    (last_dash : Bool) (s : Text)
    → IsWritten last_dash s
    → All (λ c. (is_alnum c || c == b'-') ≡ true) s
written-chars last_dash [] h = tt
written-chars last_dash (c ∷ s) (inl (a, h)) = (rw a refl, written-chars false s h)
written-chars last_dash (c ∷ s) (inr (e, l, h)) = (ground arith, written-chars true s h)

written-StartsAlnum : (s : Text) → IsWritten true s → StartsAlnum s
written-StartsAlnum [] h = tt
written-StartsAlnum (c ∷ s) (inl (a, h)) = a
written-StartsAlnum (c ∷ s) (inr (e, l, h)) = absurd (ground arith)

-- What SanitizeName returns: a written text that is trimmed and short.
pub record IsSanitized (s : Text) : Type 0 where
  pub written : IsWritten true s
  pub trimmed : trim_right s ≡ s
  pub ended : EndsAlnum s
  pub short : length s ≤ 63

trim_right-IsSanitized :
    (s : Text) → IsWritten true s → length (trim_right s) ≤ 63 → IsSanitized (trim_right s)
trim_right-IsSanitized s h l = record {
  written = trim_right-IsWritten true s h;
  trimmed = trim_right_again s;
  ended = trim_right-EndsAlnum true s h;
  short = l;
}

sanitize_name-IsSanitized : (s : Text) → IsSanitized (sanitize_name s)
unfolding sanitize_name
sanitize_name-IsSanitized s =
    let w = write true s in
    let out = trim_right w in
    let h = write-IsWritten true s in
    elim (Bool-cases (ltb 63 (length out))) [
      | inl e ↦ rw e (
          trim_right-IsSanitized (take 63 out)
            (take-IsWritten 63 true out (trim_right-IsWritten true w h))
            (ground (arith, length-trim_right (take 63 out), length-take 63 out)))
      | inr e ↦ rw e (trim_right-IsSanitized w h (ground arith))
    ]

-- A sanitized name is empty or a DNS label: small letters, digits and dashes, at most 63 of them,
-- that starts and ends with a letter or a digit.
pub sanitize_name-IsLabel : (s : Text) → IsLabel (sanitize_name s)
sanitize_name-IsLabel s =
    let h = sanitize_name-IsSanitized s in
    record {
      chars = written-chars true (sanitize_name s) h.written;
      starts = written-StartsAlnum (sanitize_name s) h.written;
      ends = h.ended;
      short = h.short;
    }

stays : (s : Text) → IsSanitized s → sanitize_name s ≡ s
unfolding sanitize_name
stays s h = rw (write_again true s h.written, h.trimmed, fits) refl
  where
    fits : ltb 63 (length s) ≡ false
    fits = let k = h.short in ground arith

-- A sanitized name is its own sanitized name.
pub sanitize_name_again : (s : Text) → sanitize_name (sanitize_name s) ≡ sanitize_name s
sanitize_name_again s = stays (sanitize_name s) (sanitize_name-IsSanitized s)
