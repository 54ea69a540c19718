-- ===== src/Sync/Names.antt =====
-- internal/sync/names.go: SanitizeName and ResourceName.
pub mod Label
pub mod Resource
use cluster_api_runtime_exte.Base.{
  ℕ, zero, suc, ◌+◌, Bool, true, false, not, ◌&&◌, ◌||◌, List, [], ◌∷◌, ◌++◌, ltb, leb, ◌==◌,
  nat_eq, if◌then◌else◌,
}
use cluster_api_runtime_exte.Base.Lists.{length}
use cluster_api_runtime_exte.Sync.{Text, Endpoint}

-- unicode.ToLower, of the letters whose small letter is one of a to z: A to Z, the Kelvin sign and the
-- capital I with a dot. No other code point outside a to z has its small letter there. A letter that
-- stays outside is left as it is: only its being outside is looked at.
unfoldable pub to_lower : ℕ → ℕ
to_lower c =
    if leb b'A' c && leb c b'Z'
    then c + 32
    else if c == 0x212A
    then b'k'
    else if c == 0x130
    then b'i'
    else c

-- The characters that SanitizeName keeps.
unfoldable pub is_alnum : ℕ → Bool
is_alnum c = (leb b'a' c && leb c b'z') || (leb b'0' c && leb c b'9')

-- One turn of the loop of SanitizeName: what is written for the rune, before what follows.
abbrev pub turn : Bool → Bool → ℕ → (Bool → Text) → Text
turn true last_dash r rest = r ∷ rest false
turn false true r rest = rest true
turn false false r rest = b'-' ∷ rest true

-- The loop of SanitizeName, from the value of lastDash on.
unfoldable pub write : Bool → Text → Text
unfolding to_lower is_alnum
write last_dash [] = []
write last_dash (c ∷ s) =
    let r = to_lower c in turn (is_alnum r) last_dash r (λ dashed_now. write dashed_now s)

abbrev pub put : ℕ → Text → Text
put c [] = if c == b'-' then [] else c ∷ []
put c (d ∷ s) = c ∷ d ∷ s

-- strings.TrimRight(s, "-")
unfoldable pub trim_right : Text → Text
trim_right [] = []
trim_right (c ∷ s) = put c (trim_right s)

-- `s[:n]` of a text of more than n characters, all of one byte.
unfoldable pub take : ℕ → Text → Text
take zero s = []
take (suc n) [] = []
take (suc n) (c ∷ s) = c ∷ take n s

-- SanitizeName
unfoldable pub sanitize_name : Text → Text
unfolding write trim_right take
sanitize_name s =
    let out = trim_right (write true s) in
    if ltb 63 (length out) then trim_right (take 63 out) else out

-- The text before the first ".", of strings.Cut.
unfoldable pub before_dot : Text → Text
before_dot [] = []
before_dot (c ∷ s) = if c == b'.' then [] else c ∷ before_dot s

-- strings.NewReplacer(".", "-", ":", "-")
unfoldable pub dashed : Text → Text
dashed [] = []
dashed (c ∷ s) = (if c == b'.' || c == b':' then b'-' else c) ∷ dashed s

abbrev pub is_empty : Text → Bool
is_empty [] = true
is_empty (_ ∷ _) = false

abbrev pub bmc_prefix : Text
bmc_prefix = b'b' ∷ b'm' ∷ b'c' ∷ b'-' ∷ []

-- ResourceName
unfoldable pub resource_name : Endpoint → Text
resource_name ep =
    let host = sanitize_name (before_dot ep.hostname) in
    let name = sanitize_name ep.instance_name in
    if not (is_empty host)
    then host
    else if not (is_empty name)
    then name
    else bmc_prefix ++ sanitize_name (dashed ep.ip)
