-- ===== src/Sync/Syncer/Links.antt =====
-- The objects that a sync writes refer to each other by the names that they have.
use cluster_api_runtime_exte.Base.{
  String, ◌≡◌, ◌≢◌, refl, ap, ◌∙◌, ◌⊎◌, inl, inr, true, false, none, some, [], ◌∷◌, arith,
  if◌then◌else◌,
}
use cluster_api_runtime_exte.Base.Lists.{All, All-weaken}
use cluster_api_runtime_exte.Worker.{Credentials}
use cluster_api_runtime_exte.Sync.{Text, Endpoint}
use cluster_api_runtime_exte.Sync.Apply.{
  Object, Read, Write, create, apply, Sighting, Server, apply_managed,
}
use cluster_api_runtime_exte.Sync.Apply.Guard.{IsGuarded, apply_managed-IsGuarded}
use cluster_api_runtime_exte.Sync.Names.{is_empty, resource_name}
use cluster_api_runtime_exte.Sync.Names.Label.{IsLabel, sanitize_name-IsLabel}
use cluster_api_runtime_exte.Sync.Names.Resource.{IsAddressText, resource_name-IsLabel}
use cluster_api_runtime_exte.Sync.Netboot.{Hardware, carry_netboot}
use cluster_api_runtime_exte.Sync.Mapping.{
  Device, desired_auth_secret, desired_machine, desired_hardware,
}
use cluster_api_runtime_exte.Sync.Template.{Rendered, checked, template_name}
use cluster_api_runtime_exte.Sync.Syncer.Sequence.{step-All}
use cluster_api_runtime_exte.Sync.Syncer.{
  Syncer, Cluster, SyncWrite, of_secret, of_machine, of_hardware, object_name, auth_name, sync,
  apply_secret, apply_machine, apply_hardware, syncing_secret, syncing_machine, syncing_hardware,
}

-- What a write has for a name and a spec.
abbrev pub written : {S : Type 0} → Write S → Object S
written (create obj) = obj
written (apply obj) = obj

-- In the namespace, under the name.
abbrev pub IsAt : {S : Type 0} → Text → String → Write S → Type 0
IsAt name namespace w = ((written w).name ≡ name) × ((written w).namespace ≡ namespace)

-- The Secret holds the credentials, the Machine names the Secret for its credentials, and the Hardware the Machine for its controller,
-- each by the name and in the namespace that it is written under.
abbrev pub IsLinked : Credentials → Text → String → SyncWrite → Type 0
IsLinked creds name namespace (of_secret w) =
    IsAt (auth_name name) namespace w × ((written w).spec ≡ desired_auth_secret creds)
IsLinked creds name namespace (of_machine w) =
    IsAt name namespace w
    × ((written w).spec.auth_secret_ref ≡ record { name = auth_name name; namespace = namespace })
IsLinked creds name namespace (of_hardware w) =
    IsAt name namespace w × ((written w).spec.bmc_ref ≡ name)

module _ {S A : Type 0} (server : Server S) (seen : Sighting) (carry : S → S → S)
    (desired : Object S) (read : Read S) (f : S → A) where
  -- As asked for, by the name and by what `f` reads of the spec.
  abbrev IsAsked : Write S → Type 0
  IsAsked w = IsAt desired.name desired.namespace w × (f (written w).spec ≡ f desired.spec)

  guarded-IsAsked :
      ((live d : S) → f (carry live d) ≡ f d)
      → (w : Write S) → IsGuarded carry desired read w
      → IsAsked w
  guarded-IsAsked c (create obj) (r, p, l, n, m) = ((n, m), ap f p)
  guarded-IsAsked c (apply obj) (live, r, g, v, p, l, n, m) =
      ((n, m), ap f p ∙ c live.spec desired.spec)

  apply_managed-IsAsked :
      ((live d : S) → f (carry live d) ≡ f d)
      → All IsAsked (apply_managed server seen carry desired read).1
  apply_managed-IsAsked c =
      All-weaken (guarded-IsAsked c) _ (apply_managed-IsGuarded server seen carry desired read)

carried : (live d : Hardware) → (carry_netboot live d).bmc_ref ≡ d.bmc_ref
unfolding carry_netboot
carried live d = refl

module _ (s : Syncer) (cluster : Cluster) (seen : Sighting) (ep : Endpoint) (dev : Device)
    (creds : Credentials) where
  secret-IsLinked :
      (name : Text)
      → All
          (λ w. IsLinked creds name s.namespace (of_secret w))
          (apply_secret s cluster seen ep (auth_name name) creds).1
  secret-IsLinked name =
      apply_managed-IsAsked cluster.secrets.server seen _ _ _ (λ d. d) (λ live d. refl)

  machine-IsLinked :
      (name : Text)
      → All
          (λ w. IsLinked creds name s.namespace (of_machine w))
          (apply_machine s cluster seen ep name (auth_name name)).1
  unfolding desired_machine
  machine-IsLinked name =
      apply_managed-IsAsked cluster.machines.server seen _ _ _ (λ m. m.auth_secret_ref)
        (λ live d. refl)

  hardware-IsLinked :
      (name : Text)
      → All
          (λ w. IsLinked creds name s.namespace (of_hardware w))
          (apply_hardware s cluster seen ep name dev).1
  unfolding desired_hardware
  hardware-IsLinked name =
      apply_managed-IsAsked cluster.hardware.server seen carry_netboot _ _ (λ d. d.bmc_ref) carried

  -- Whatever the API server answers, what a sync writes is linked: all of it lies in the syncer's
  -- namespace, the Machine and the Hardware under the name of the machine and the Secret under that of
  -- its credentials, the Secret holds the credentials that were verified, the Machine refers to that
  -- Secret and the Hardware to that Machine.
  pub sync-IsLinked :
      All
        (IsLinked creds (object_name s ep dev) s.namespace)
        (sync s cluster seen ep (some dev) creds).1
  unfolding sync
  sync-IsLinked =
      let name = object_name s ep dev in
      let P = IsLinked creds name s.namespace in
      step-All P syncing_secret of_secret _ _ (secret-IsLinked name) (λ e.
        step-All P syncing_machine of_machine _ _ (machine-IsLinked name) (λ f.
          step-All P syncing_hardware of_hardware _ (none, []) (hardware-IsLinked name) (λ g. tt)))

checked-IsLabel : (r : Rendered) → IsLabel (checked r) ⊎ (checked r ≡ [])
checked-IsLabel (out, true) = inr refl
checked-IsLabel (out, false) = inl (sanitize_name-IsLabel out)

template_name-IsLabel :
    (tmpl : Text) (ep : Endpoint) (dev : Device)
    → IsLabel (template_name tmpl ep dev) ⊎ (template_name tmpl ep dev ≡ [])
unfolding template_name
template_name-IsLabel [] ep dev = inr refl
template_name-IsLabel (c ∷ tmpl) ep dev = checked-IsLabel _

-- Whatever the template and the inventory are, the name of the objects of an endpoint is a DNS label
-- and not empty, where the text of the address has a letter or a digit and at most 59 characters.
pub object_name-IsLabel :
    (s : Syncer) (ep : Endpoint) (dev : Device)
    → IsAddressText ep.ip
    → IsLabel (object_name s ep dev) × (object_name s ep dev ≢ [])
unfolding object_name
object_name-IsLabel s ep dev h =
    choose (template_name s.name_template ep dev) (template_name-IsLabel s.name_template ep dev)
  where
    choose :
        (name : Text)
        → IsLabel name ⊎ (name ≡ [])
        → let chosen = if is_empty name then resource_name ep else name in
          IsLabel chosen × (chosen ≢ [])
    choose [] l = resource_name-IsLabel ep h
    choose (c ∷ name) (inl l) = (l, λ e. absurd (ground arith))
    choose (c ∷ name) (inr e) = absurd (ground arith)
