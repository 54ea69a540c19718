-- ===== src/Sync/Runs.antt =====
-- The mapping and the sync of the machine of the scenario.
use cluster_api_runtime_exte.Base.{
  ◌≡◌, refl, ◌&&◌, Option, none, some, List, [], ◌∷◌, string_eq, nat_eq, list_eq, if◌then◌else◌,
}
use cluster_api_runtime_exte.Base.Lists.{any, All}
use cluster_api_runtime_exte.Sync.Apply.{ApiError, other}
use cluster_api_runtime_exte.Sync.Names.{to_lower, sanitize_name}
use cluster_api_runtime_exte.Sync.Mapping.{
  is_pairs, is_mac, lower, contains, take_mac, over_ports, over_nics, inband_macs, primary_mac,
  desired_hardware,
}
use cluster_api_runtime_exte.Sync.Mapping.Macs.{
  IsDistinct, on_nic, IsIdentified, inband_macs-IsDistinct, desired_hardware-IsIdentified,
}
use cluster_api_runtime_exte.Sync.Template.{
  reference, read_name, value_of, replace_all, without_colons, template_vars, template_name,
}
use cluster_api_runtime_exte.Sync.Template.Printed.{
  Piece, literal, variable, print, IsPiece, fill, has_unresolved, template_name-print,
}
use cluster_api_runtime_exte.Sync.Syncer.{object_name, sync}
use cluster_api_runtime_exte.Sync.Syncer.Sequence.{
  IsDue, first_error, secret_error, machine_error, hardware_error, sync-IsDue,
}
use cluster_api_runtime_exte.Sync.Syncer.Links.{IsLinked, sync-IsLinked}
use cluster_api_runtime_exte.Sync.Scenario.{
  small_mac, machine, discovered, by_mac, syncer, options, cluster, sighting, factory,
}

one_mac : inband_macs machine ≡ small_mac ∷ []
unfolding inband_macs over_nics over_ports take_mac is_mac is_pairs lower to_lower list_eq nat_eq
one_mac = refl

inband_macs-IsDistinct_example :
    IsDistinct (inband_macs machine)
    × (contains small_mac (inband_macs machine)
        ≡ (is_mac small_mac && any (on_nic small_mac) machine.nics))
inband_macs-IsDistinct_example = inband_macs-IsDistinct machine small_mac

desired_hardware-IsIdentified_example :
    IsIdentified machine options (desired_hardware machine options none)
desired_hardware-IsIdentified_example = desired_hardware-IsIdentified machine options none

abbrev pieces : List Piece
pieces = literal b't' ∷ literal b'-' ∷ variable (b'm' ∷ b'a' ∷ b'c' ∷ []) ∷ []

pieces-by_mac : print pieces ≡ by_mac
unfolding print
pieces-by_mac = refl

pieces-IsPiece : All IsPiece pieces
unfolding nat_eq
pieces-IsPiece = (refl, (refl, ((refl, (refl, (refl, (refl, tt)))), tt)))

template_name-print_example :
    let vars = template_vars discovered machine in
    template_name (print pieces) discovered machine
    ≡ (if has_unresolved vars pieces then [] else sanitize_name (fill vars pieces))
template_name-print_example =
    template_name-print (literal b't') (literal b'-' ∷ variable (b'm' ∷ b'a' ∷ b'c' ∷ []) ∷ [])
      discovered machine pieces-IsPiece

-- "t-aabbccddee01"
rendered :
    template_name by_mac discovered machine
    ≡ b't' ∷ b'-' ∷ b'a' ∷ b'a' ∷ b'b' ∷ b'b' ∷ b'c' ∷ b'c' ∷ b'd' ∷ b'd' ∷ b'e' ∷ b'e' ∷ b'0'
      ∷ b'1' ∷ []
unfolding template_name replace_all reference read_name value_of template_vars without_colons
    primary_mac inband_macs over_nics over_ports take_mac is_mac is_pairs lower to_lower
    sanitize_name list_eq nat_eq
rendered = refl

-- The Machine is refused.
abbrev quota : Option ApiError
quota = some (other "quota exceeded")

sync-IsDue_example :
    ((sync syncer (cluster quota) sighting discovered (some machine) factory).0
      ≡ first_error
          (secret_error syncer (cluster quota) sighting discovered machine factory)
          (machine_error syncer (cluster quota) sighting discovered machine factory)
          (hardware_error syncer (cluster quota) sighting discovered machine factory))
    × All
        (IsDue syncer (cluster quota) sighting discovered machine factory)
        (sync syncer (cluster quota) sighting discovered (some machine) factory).1
sync-IsDue_example = sync-IsDue syncer (cluster quota) sighting discovered machine factory

sync-IsLinked_example :
    All
      (IsLinked factory (object_name syncer discovered machine) "tinkerbell")
      (sync syncer (cluster none) sighting discovered (some machine) factory).1
sync-IsLinked_example = sync-IsLinked syncer (cluster none) sighting discovered machine factory
