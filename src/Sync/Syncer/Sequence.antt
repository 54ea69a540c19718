-- ===== src/Sync/Syncer/Sequence.antt =====
-- The order of a sync, and its errors.
use cluster_api_runtime_exte.Base.{◌≡◌, refl, Option, none, some, List, [], ◌∷◌}
use cluster_api_runtime_exte.Base.Lists.{All, All-append}
use cluster_api_runtime_exte.Worker.{Credentials}
use cluster_api_runtime_exte.Sync.{Text, Endpoint}
use cluster_api_runtime_exte.Sync.Apply.{ApiError, Write, Sighting}
use cluster_api_runtime_exte.Sync.Netboot.{Hardware}
use cluster_api_runtime_exte.Sync.Mapping.{Device, SecretData, MachineSpec}
use cluster_api_runtime_exte.Sync.Syncer.{
  Syncer, Cluster, SyncError, SyncWrite, of_secret, of_machine, of_hardware, each, object_name,
  auth_name, Synced, step, sync, apply_secret, apply_machine, apply_hardware, syncing_secret,
  syncing_machine, syncing_hardware,
}

-- The three outcomes of a sync of a verified device, each as if it were made.
module _ (s : Syncer) (cluster : Cluster) (seen : Sighting) (ep : Endpoint) (dev : Device)
    (creds : Credentials) where
  abbrev pub name : Text
  name = object_name s ep dev

  abbrev pub secret_error : Option ApiError
  secret_error = (apply_secret s cluster seen ep (auth_name name) creds).0

  abbrev pub machine_error : Option ApiError
  machine_error = (apply_machine s cluster seen ep name (auth_name name)).0

  abbrev pub hardware_error : Option ApiError
  hardware_error = (apply_hardware s cluster seen ep name dev).0

  -- A write whose predecessors did not fail.
  abbrev pub IsDue : SyncWrite → Type 0
  IsDue (of_secret _) = Unit
  IsDue (of_machine _) = secret_error ≡ none
  IsDue (of_hardware _) = (secret_error ≡ none) × (machine_error ≡ none)

-- The error of the first apply that fails, if one fails.
abbrev pub first_error : Option ApiError → Option ApiError → Option ApiError → Option SyncError
first_error (some e) _ _ = some (syncing_secret e)
first_error none (some e) _ = some (syncing_machine e)
first_error none none (some e) = some (syncing_hardware e)
first_error none none none = none

step-first_error :
    (a : Option ApiError × List (Write SecretData)) (b : Option ApiError × List (Write MachineSpec))
    (c : Option ApiError × List (Write Hardware))
    → (step syncing_secret of_secret a
        (step syncing_machine of_machine b (step syncing_hardware of_hardware c (none, [])))).0
      ≡ first_error a.0 b.0 c.0
step-first_error (some e, _) b c = refl
step-first_error (none, _) (some e, _) c = refl
step-first_error (none, _) (none, _) (some e, _) = refl
step-first_error (none, _) (none, _) (none, _) = refl

pub All-each :
    {A B : Type 0} (P : B → Type 0) (f : A → B) (xs : List A)
    → All (λ x. P (f x)) xs
    → All P (each f xs)
All-each P f [] h = tt
All-each P f (x ∷ xs) (p, h) = (p, All-each P f xs h)

always : {A : Type 0} (P : A → Type 0) → ((x : A) → P x) → (xs : List A) → All P xs
always P h [] = tt
always P h (x ∷ xs) = (h x, always P h xs)

-- A step puts its own writes first, and the rest only if it did not fail.
pub step-All :
    {S : Type 0} (P : SyncWrite → Type 0) (failing : ApiError → SyncError)
    (of : Write S → SyncWrite) (a : Option ApiError × List (Write S)) (rest : Synced)
    → All (λ w. P (of w)) a.1
    → (a.0 ≡ none → All P rest.1)
    → All P (step failing of a rest).1
step-All P failing of (some e, writes) rest h k = All-each P of writes h
step-All P failing of (none, writes) (e, more) h k =
    All-append P (each of writes) more (All-each P of writes h) (k refl)

module _ (s : Syncer) (cluster : Cluster) (seen : Sighting) (ep : Endpoint) (dev : Device)
    (creds : Credentials) where
  -- The sync of a verified device ends in the error of the first of its three applies that fails, and
  -- in none if none fails. The Machine is written only if the Secret's apply did not fail, and the
  -- Hardware only if neither did.
  pub sync-IsDue :
      ((sync s cluster seen ep (some dev) creds).0
        ≡ first_error
            (secret_error s cluster seen ep dev creds)
            (machine_error s cluster seen ep dev creds)
            (hardware_error s cluster seen ep dev creds))
      × All (IsDue s cluster seen ep dev creds) (sync s cluster seen ep (some dev) creds).1
  unfolding sync
  sync-IsDue =
      let name = object_name s ep dev in
      let a = apply_secret s cluster seen ep (auth_name name) creds in
      let b = apply_machine s cluster seen ep name (auth_name name) in
      let c = apply_hardware s cluster seen ep name dev in
      let P = IsDue s cluster seen ep dev creds in
      (
        step-first_error a b c,
        step-All P syncing_secret of_secret a _ (always (λ w. P (of_secret w)) (λ w. tt) a.1) (λ e.
            step-All P syncing_machine of_machine b _ (always (λ w. P (of_machine w)) (λ w. e) b.1)
              (λ f.
                step-All P syncing_hardware of_hardware c (none, [])
                  (always (λ w. P (of_hardware w)) (λ w. (e, f)) c.1) (λ g. tt))),
      )
