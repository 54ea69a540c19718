-- ===== src/Logging.antt =====
-- internal/logging/logging.go: the logger of a process, as its level, its format and the attributes that
-- every record bears. A level is Go's int, in two's complement of 64 bits.
mod Tests
use Prim.Native.Char.{code}
use cluster_api_runtime_exte.Base.{
  ℕ, ◌+◌, ◌-◌, ◌*◌, ◌%◌, String, Bool, ◌&&◌, ◌||◌, Option, none, some, List, [], ◌∷◌, ◌++◌, ◌==◌,
  string_eq, nat_eq, list_eq, leb, if◌then◌else◌,
}

abbrev pub word : ℕ
word = 18446744073709551616

-- The letters of a text in upper case, as code points: of those beyond ASCII, the dotless i is the one
-- that has a letter of a level's name for its upper case.
unfoldable pub upper : String → List ℕ
upper String.[] = []
upper (String.◌∷◌ c s) =
    let n = code c in
    (if leb 97 n && leb n 122 then n - 32 else if n == 0x131 then 73 else n) ∷ upper s

-- A text up to its first sign, and from it on.
unfoldable pub at_sign : String → String × String
at_sign String.[] = ("", "")
at_sign (String.◌∷◌ c s) =
    let (name, rest) = at_sign s in
    if code c == b'+' || code c == b'-' then ("", String.◌∷◌ c s) else (String.◌∷◌ c name, rest)

unfoldable pub digits : ℕ → String → Option ℕ
digits n String.[] = some n
digits n (String.◌∷◌ c s) =
    let more = digits (n * 10 + (code c - 48)) s in
    if leb 48 (code c) && leb (code c) 57 then more else none

abbrev pub in_range : ℕ → ℕ → (ℕ → ℕ) → Option ℕ → Option ℕ
in_range sign limit wrap none = none
in_range sign limit wrap (some n) = if leb n limit then some (wrap n) else none

-- strconv.Atoi of a text that starts with a sign, in two's complement; no offset is zero.
unfoldable pub offset : String → Option ℕ
unfolding digits
offset String.[] = some 0
offset (String.◌∷◌ c s) =
    if s == ""
    then none
    else if code c == b'-'
    then in_range b'-' 9223372036854775808 (λ n. (word - n) % word) (digits 0 s)
    else in_range b'+' 9223372036854775807 (λ n. n) (digits 0 s)

-- slog.LevelDebug, LevelInfo, LevelWarn and LevelError, by their names.
unfoldable pub named_level : String → Option ℕ
unfolding upper
named_level name =
    if upper name == upper "DEBUG"
    then some (word - 4)
    else if upper name == upper "INFO"
    then some 0
    else if upper name == upper "WARN"
    then some 4
    else if upper name == upper "ERROR"
    then some 8
    else none

abbrev pub add_level : Option ℕ → Option ℕ → Option ℕ
add_level (some base) (some by) = some ((base + by) % word)
add_level _ _ = none

-- slog.Level.UnmarshalText: a name in any case, with an offset such as in INFO+2.
unfoldable pub parse_level : String → Option ℕ
unfolding named_level at_sign offset
parse_level s = add_level (named_level (at_sign s).0) (offset (at_sign s).1)

pub data Format : Type 0 where
  json text : Format

pub record Logger : Type 0 where
  pub format : Format
  pub level : ℕ
  pub attrs : List (String × String)

-- What New returns: a logger or one of its two errors, of the text that was refused.
pub data Made : Type 0 where
  made : Logger → Made
  unknown_level unknown_format : String → Made

abbrev pub make : String → String → Option ℕ → Made
make level format none = unknown_level level
make level format (some l) =
    if format == "json"
    then made (record { format = json; level = l; attrs = [] })
    else if format == "text"
    then made (record { format = text; level = l; attrs = [] })
    else unknown_format format

-- New
unfoldable pub new : String → String → Made
unfolding parse_level
new level format = make level format (parse_level level)

-- Component
unfoldable pub component : Logger → String → Logger
component log name = record log { attrs = log.attrs ++ ("logger", name) ∷ [] }
