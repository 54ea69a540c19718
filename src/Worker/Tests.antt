-- ===== src/Worker/Tests.antt =====
-- A machine whose factory password still works, and an administrator's Secret.
use cluster_api_runtime_exte.Base.{
  String, ◌≡◌, refl, ◌||◌, none, some, [], ◌∷◌, ◌==◌, string_eq, if◌then◌else◌,
}
use cluster_api_runtime_exte.Base.Dict.{Dict, lookup}
use cluster_api_runtime_exte.Worker.{
  Credentials, wildcard_service, same_creds, add, credential_candidates, Answer, collected, refused,
  verify,
}
use cluster_api_runtime_exte.Worker.Candidates.{
  has_creds, IsDistinct, gives, secret_gives, credential_candidates-IsDistinct,
}
use cluster_api_runtime_exte.Worker.Verified.{IsVerified, verify-IsVerified}

abbrev admin : Credentials
admin = record { username = "admin"; password = "secret" }

abbrev factory : Credentials
factory = record { username = "root"; password = "0penBmc" }

abbrev defaults : Dict Credentials
defaults = ("_obmc_console._tcp", factory) ∷ ("*", admin) ∷ []

chain :
    credential_candidates (some admin) defaults "_obmc_console._tcp"
    ≡ record { creds = admin; source = "secret" }
      ∷ record { creds = factory; source = "service default" }
      ∷ []
unfolding credential_candidates add same_creds lookup string_eq
chain = refl

credential_candidates-IsDistinct_example :
    IsDistinct (credential_candidates (some admin) defaults "_obmc_console._tcp")
    × (has_creds factory (credential_candidates (some admin) defaults "_obmc_console._tcp") ≡ (
        secret_gives (some admin) factory
        || gives (lookup "_obmc_console._tcp" defaults) factory
        || gives (lookup wildcard_service defaults) factory))
credential_candidates-IsDistinct_example =
    credential_candidates-IsDistinct (some admin) defaults "_obmc_console._tcp" factory

abbrev accepts : Credentials → Answer String
accepts creds =
    if creds.password == "0penBmc" then collected "openbmc" else refused "401 Unauthorized"

verify-IsVerified_example :
    IsVerified accepts none
      (credential_candidates (some admin) defaults "_obmc_console._tcp")
      (verify accepts none (credential_candidates (some admin) defaults "_obmc_console._tcp"))
verify-IsVerified_example =
    verify-IsVerified accepts none
      (credential_candidates (some admin) defaults "_obmc_console._tcp")
