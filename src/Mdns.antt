-- ===== src/Mdns.antt =====
-- internal/mdns/browser.go: the endpoints of advertised entries. The zeroconf library, the network
-- interfaces of the host and the time are parameters: what arrives at the forwarder is a list of turns.
pub mod Key
pub mod Cycle
pub mod Heard
pub mod Restricted
mod Tests
use cluster_api_runtime_exte.Base.{
  ℕ, String, ◌<>◌, Bool, true, false, Option, none, some, List, [], ◌∷◌, ◌==◌, nat_eq,
  if◌then◌else◌,
}

-- netip.Addr: the zero Addr, the four bytes of an IPv4 address, the sixteen of an IPv6 one.
pub data Addr : Type 0 where
  unset : Addr
  v4 : ℕ → ℕ → ℕ → ℕ → Addr
  v6 : List ℕ → Addr

-- Endpoint
pub record Endpoint : Type 0 where
  pub instance_name : String
  pub service : String
  pub hostname : String
  pub ip : Addr
  pub port : ℕ

-- Key
unfoldable pub key : Endpoint → String
key e = e.service <> ("/" <> e.instance_name)

-- zeroconf.ServiceEntry: `addr_ipv4` are its slices of bytes.
pub record Entry : Type 0 where
  pub instance_name : String
  pub service : String
  pub hostname : String
  pub port : ℕ
  pub addr_ipv4 : List (List ℕ)

-- netip.AddrFromSlice: four bytes or sixteen.
unfoldable pub addr_from_slice : List ℕ → Option Addr
addr_from_slice (a ∷ b ∷ c ∷ d ∷ []) = some (v4 a b c d)
addr_from_slice (a ∷ b ∷ c ∷ d ∷ e ∷ f ∷ g ∷ h ∷ i ∷ j ∷ k ∷ l ∷ m ∷ n ∷ o ∷ p ∷ []) =
    some (v6 (a ∷ b ∷ c ∷ d ∷ e ∷ f ∷ g ∷ h ∷ i ∷ j ∷ k ∷ l ∷ m ∷ n ∷ o ∷ p ∷ []))
addr_from_slice _ = none

-- The first twelve bytes of an IPv6 address that maps an IPv4 one.
abbrev pub mapped_prefix : List ℕ
mapped_prefix = 0 ∷ 0 ∷ 0 ∷ 0 ∷ 0 ∷ 0 ∷ 0 ∷ 0 ∷ 0 ∷ 0 ∷ 255 ∷ 255 ∷ []

unfoldable pub strip_prefix : List ℕ → List ℕ → Option (List ℕ)
strip_prefix [] s = some s
strip_prefix (p ∷ ps) [] = none
strip_prefix (p ∷ ps) (c ∷ s) = if p == c then strip_prefix ps s else none

abbrev pub or_last : Option (List ℕ) → List ℕ → Addr
or_last (some (a ∷ b ∷ c ∷ d ∷ [])) bytes = v4 a b c d
or_last _ bytes = v6 bytes

-- Unmap: of an IPv6 address that maps an IPv4 one, that one.
unfoldable pub unmap : Addr → Addr
unmap unset = unset
unmap (v4 a b c d) = v4 a b c d
unmap (v6 bytes) = or_last (strip_prefix mapped_prefix bytes) bytes

-- Is4
unfoldable pub is4 : Addr → Bool
is4 unset = false
is4 (v4 _ _ _ _) = true
is4 (v6 _) = false

-- The test of the loop of EntryToEndpoint: the IPv4 address of one slice.
abbrev pub usable : Option Addr → Option Addr
usable none = none
usable (some a) = if is4 (unmap a) then some (unmap a) else none

abbrev pub at_address : Entry → Addr → Endpoint
at_address e ip = record {
  instance_name = e.instance_name;
  service = e.service;
  hostname = e.hostname;
  ip = ip;
  port = e.port;
}

abbrev pub or_else : {A : Type 0} → Option A → Option A → Option A
or_else (some a) next = some a
or_else none next = next

-- The loop of EntryToEndpoint.
unfoldable pub first_ipv4 : List (List ℕ) → Option Addr
first_ipv4 [] = none
first_ipv4 (ip ∷ rest) = let next = first_ipv4 rest in or_else (usable (addr_from_slice ip)) next

abbrev pub placed : Entry → Option Addr → Option Endpoint
placed e none = none
placed e (some ip) = some (at_address e ip)

-- EntryToEndpoint
unfoldable pub entry_to_endpoint : Entry → Option Endpoint
entry_to_endpoint e = placed e (first_ipv4 e.addr_ipv4)

-- What one turn of forward's select meets: an entry, with whether the events channel takes its endpoint
-- before the context is done; the end of the entries; the end of the context.
pub data Turn : Type 0 where
  arrives : Entry → Bool → Turn
  ended : Turn
  cancelled : Turn

abbrev pub pass_on : Option Endpoint → Bool → List Endpoint → List Endpoint
pass_on none taken rest = rest
pass_on (some ep) true rest = ep ∷ rest
pass_on (some ep) false rest = []

-- forward: the endpoints that it sends.
unfoldable pub forward : List Turn → List Endpoint
forward [] = []
forward (arrives e taken ∷ rest) =
    let next = forward rest in pass_on (entry_to_endpoint e) taken next
forward (ended ∷ rest) = []
forward (cancelled ∷ rest) = []

-- The options of a browse: the addresses asked for are IPv4 ones; `none` for all interfaces.
pub record BrowseOptions (Interface : Type 0) : Type 0 where
  pub interfaces : Option (List Interface)

module _ {Interface : Type 0} (interface_by_name : String → Option Interface) where
  abbrev pub sorted_out :
      String → Option Interface → List Interface × List String → List Interface × List String
  sorted_out name none (interfaces, missing) = (interfaces, name ∷ missing)
  sorted_out name (some i) (interfaces, missing) = (i ∷ interfaces, missing)

  -- resolveInterfaces: those that exist, and the names of those that do not.
  unfoldable pub resolve_interfaces : List String → List Interface × List String
  resolve_interfaces [] = ([], [])
  resolve_interfaces (name ∷ rest) =
      let found = resolve_interfaces rest in sorted_out name (interface_by_name name) found

  abbrev pub selected : List Interface → Option (BrowseOptions Interface)
  selected [] = none
  selected (i ∷ rest) = some (record { interfaces = some (i ∷ rest) })

  -- clientOptions: `none` to skip the cycle.
  unfoldable pub client_options : List String → Option (BrowseOptions Interface)
  client_options [] = some (record { interfaces = none })
  client_options (name ∷ rest) = selected (resolve_interfaces (name ∷ rest)).0
