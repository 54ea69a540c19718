-- ===== src/Sync/Template.antt =====
-- TemplateName of internal/sync/names.go, with the scan for the matches of `\$\{([a-z_]+)\}`.
pub mod Printed
use cluster_api_runtime_exte.Base.{
  ℕ, zero, suc, ◌+◌, Bool, true, false, ◌&&◌, ◌||◌, Option, none, some, List, [], ◌∷◌, ◌++◌, leb,
  ◌==◌, nat_eq, list_eq, if◌then◌else◌,
}
use cluster_api_runtime_exte.Base.Lists.{length}
use cluster_api_runtime_exte.Sync.{Text, Endpoint}
use cluster_api_runtime_exte.Sync.Names.{is_empty, before_dot, dashed, sanitize_name}
use cluster_api_runtime_exte.Sync.Mapping.{Device, primary_mac}

-- `[a-z_]`
abbrev pub is_name_char : ℕ → Bool
is_name_char c = (leb b'a' c && leb c b'z') || c == b'_'

abbrev pub longer : ℕ → Option Text → Option Text
longer c none = none
longer c (some name) = some (c ∷ name)

-- `[a-z_]*\}` at the start of the text: what stands before the brace.
unfoldable pub read_name : Text → Option Text
read_name [] = none
read_name (c ∷ s) =
    let rest = read_name s in
    if c == b'}' then some [] else if is_name_char c then longer c rest else none

abbrev pub not_empty : Option Text → Option Text
not_empty (some (c ∷ name)) = some (c ∷ name)
not_empty _ = none

-- The match of templateVar at the start of the text: the name in it.
unfoldable pub reference : Text → Option Text
reference (a ∷ b ∷ s) = if a == b'$' && b == b'{' then not_empty (read_name s) else none
reference _ = none

-- The map of TemplateName: "" for a name that it does not have.
unfoldable pub value_of : List (Text × Text) → Text → Text
value_of [] name = []
value_of ((known, value) ∷ rest) name =
    let other = value_of rest name in if known == name then value else other

-- What is written so far, and whether some reference has no value.
abbrev pub Rendered : Type 0
Rendered = Text × Bool

abbrev pub replaced : Text → Rendered → Rendered
replaced value (out, unresolved) = (value ++ out, is_empty value || unresolved)

abbrev pub kept : ℕ → Rendered → Rendered
kept c (out, unresolved) = (c ∷ out, unresolved)

module _ (vars : List (Text × Text)) where
  -- At a character outside every match so far: a reference, whose further characters are passed over,
  -- or the character itself.
  abbrev pub scan : ℕ → Option Text → (ℕ → Rendered) → Rendered
  scan c (some name) rest = replaced (value_of vars name) (rest (length name + 2))
  scan c none rest = kept c (rest 0)

  -- ReplaceAllStringFunc, with the number of characters of the last match that are still to come.
  unfoldable pub replace_all : ℕ → Text → Rendered
  replace_all skip [] = ([], false)
  replace_all (suc skip) (c ∷ s) = replace_all skip s
  replace_all zero (c ∷ s) = scan c (reference (c ∷ s)) (λ skip. replace_all skip s)

-- strings.ReplaceAll(s, ":", "")
unfoldable pub without_colons : Text → Text
without_colons [] = []
without_colons (c ∷ s) = let rest = without_colons s in if c == b':' then rest else c ∷ rest

-- strings.ReplaceAll(s, ":", "-")
unfoldable pub colons_as_dashes : Text → Text
colons_as_dashes [] = []
colons_as_dashes (c ∷ s) = (if c == b':' then b'-' else c) ∷ colons_as_dashes s

-- The names of the variables: "mac", "mac_dashes", "hostname", "instance", "serial", "ip".
abbrev pub mac_name : Text
mac_name = b'm' ∷ b'a' ∷ b'c' ∷ []

abbrev pub mac_dashes_name : Text
mac_dashes_name = b'm' ∷ b'a' ∷ b'c' ∷ b'_' ∷ b'd' ∷ b'a' ∷ b's' ∷ b'h' ∷ b'e' ∷ b's' ∷ []

abbrev pub hostname_name : Text
hostname_name = b'h' ∷ b'o' ∷ b's' ∷ b't' ∷ b'n' ∷ b'a' ∷ b'm' ∷ b'e' ∷ []

abbrev pub instance_name_name : Text
instance_name_name = b'i' ∷ b'n' ∷ b's' ∷ b't' ∷ b'a' ∷ b'n' ∷ b'c' ∷ b'e' ∷ []

abbrev pub serial_name : Text
serial_name = b's' ∷ b'e' ∷ b'r' ∷ b'i' ∷ b'a' ∷ b'l' ∷ []

abbrev pub ip_name : Text
ip_name = b'i' ∷ b'p' ∷ []

-- vars
unfoldable pub template_vars : Endpoint → Device → List (Text × Text)
template_vars ep dev =
    let mac = primary_mac dev in
    (mac_name, without_colons mac)
    ∷ (mac_dashes_name, colons_as_dashes mac)
    ∷ (hostname_name, before_dot ep.hostname)
    ∷ (instance_name_name, ep.instance_name)
    ∷ (serial_name, dev.serial)
    ∷ (ip_name, dashed ep.ip)
    ∷ []

abbrev pub checked : Rendered → Text
checked (out, true) = []
checked (out, false) = sanitize_name out

-- TemplateName
unfoldable pub template_name : Text → Endpoint → Device → Text
template_name tmpl ep dev =
    if is_empty tmpl then [] else checked (replace_all (template_vars ep dev) 0 tmpl)
