-- ===== src/Logging/Tests.antt =====
-- The levels and formats of the flags' help.
use cluster_api_runtime_exte.Base.{◌-◌, ◌≡◌, refl, none, some, [], ◌∷◌, string_eq, nat_eq, list_eq}
use cluster_api_runtime_exte.Logging.{
  word, parse_level, Logger, json, made, unknown_level, unknown_format, new, component,
}

abbrev quiet : Logger
quiet = record { format = json; level = 4; attrs = [] }

warns : new "warn" "json" ≡ made quiet
unfolding new string_eq nat_eq list_eq
warns = refl

below : parse_level "Debug+1" ≡ some (word - 3)
unfolding parse_level string_eq nat_eq list_eq
below = refl

yaml : new "info" "yaml" ≡ unknown_format "yaml"
unfolding new string_eq nat_eq list_eq
yaml = refl

loud : new "loud" "json" ≡ unknown_level "loud"
unfolding new string_eq nat_eq list_eq
loud = refl

named : component quiet "mdns" ≡ record quiet { attrs = ("logger", "mdns") ∷ [] }
unfolding component
named = refl

-- There is an offset without a number.
no_number : parse_level "info+" ≡ none
unfolding parse_level string_eq nat_eq list_eq
no_number = refl
