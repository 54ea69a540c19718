-- ===== src/Inventory.antt =====
-- ParseDefaults of internal/inventory/defaults.go. The text of its errors is not modelled: `none` is a
-- refusal.
pub mod Printed
pub mod Cuts
pub mod Accepted
pub mod Collector
mod Tests
use Prim.Native.Char.{Char, code}
use cluster_api_runtime_exte.Base.{
  ℕ, String, Bool, true, false, not, ◌&&◌, ◌||◌, Option, none, some, List, [], ◌∷◌, ◌==◌, string_eq,
  nat_eq, if◌then◌else◌,
}
use cluster_api_runtime_exte.Base.Dict.{Dict, insert}
use cluster_api_runtime_exte.Worker.{Credentials}

abbrev pub lead : Char → List String → List String
lead c [] = String.◌∷◌ c "" ∷ []
lead c (s ∷ rest) = String.◌∷◌ c s ∷ rest

-- strings.Split(s, ",")
unfoldable pub split : String → List String
split String.[] = "" ∷ []
split (String.◌∷◌ c s) = let rest = split s in if code c == b',' then "" ∷ rest else lead c rest

abbrev pub extend : Char → Option (String × String) → Option (String × String)
extend c none = none
extend c (some (before, after)) = some (String.◌∷◌ c before, after)

-- strings.Cut(s, sep), for a separator of one character: `none` where it is not found.
unfoldable pub cut : ℕ → String → Option (String × String)
cut sep String.[] = none
cut sep (String.◌∷◌ c s) =
    let rest = cut sep s in if code c == sep then some ("", s) else extend c rest

-- The test and the entry, once the user name is cut from the password.
abbrev pub accept : String → Option (String × String) → Option (String × Credentials)
accept service none = none
accept service (some (username, password)) =
    if service == "" || username == "" || password == ""
    then none
    else some (service, record { username = username; password = password })

abbrev pub cut_credentials : Option (String × String) → Option (String × Credentials)
cut_credentials none = none
cut_credentials (some (service, cred)) = accept service (cut b':' cred)

-- One turn of the loop of ParseDefaults.
unfoldable pub parse_entry : String → Option (String × Credentials)
parse_entry entry = cut_credentials (cut b'=' entry)

abbrev pub put : Option (String × Credentials) → Dict Credentials → Option (Dict Credentials)
put none defaults = none
put (some (service, creds)) defaults = some (insert service creds defaults)

abbrev pub then_parse :
    Option (Dict Credentials)
    → (Dict Credentials → Option (Dict Credentials))
    → Option (Dict Credentials)
then_parse none rest = none
then_parse (some defaults) rest = rest defaults

-- The loop of ParseDefaults.
unfoldable pub parse_entries : List String → Dict Credentials → Option (Dict Credentials)
unfolding parse_entry
parse_entries [] defaults = some defaults
parse_entries (entry ∷ rest) defaults =
    then_parse (put (parse_entry entry) defaults) (λ d. parse_entries rest d)

-- ParseDefaults
unfoldable pub parse_defaults : String → Option (Dict Credentials)
unfolding parse_entries split
parse_defaults s = if s == "" then some [] else parse_entries (split s) []
