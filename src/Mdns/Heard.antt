-- ===== src/Mdns/Heard.antt =====
-- What of the advertisements reaches the worker.
pub mod Ipv4
use mathlib.Core.Option.{none-ne-some}
use cluster_api_runtime_exte.Base.{
  ℕ, ◌≡◌, refl, sym, ap, ◌∙◌, ◌↔◌, ◌⊎◌, inl, inr, Bool, true, false, Option, none, some, List, [],
  ◌∷◌, arith, Option-cases,
}
use cluster_api_runtime_exte.Base.Lists.{All}
use cluster_api_runtime_exte.Mdns.{
  Addr, Endpoint, Entry, addr_from_slice, is4, usable, at_address, first_ipv4, placed,
  entry_to_endpoint, Turn, arrives, ended, cancelled, pass_on, forward,
}
use cluster_api_runtime_exte.Mdns.Heard.Ipv4.{IsIpv4, IsIpv4-usable, usable-IsIpv4}

-- The slice holds no IPv4 address, mapped or not.
abbrev pub IsOther : List ℕ → Type 0
IsOther ip = (a : Addr) → ¬ IsIpv4 ip a

-- The address is that of the first slice that holds one.
pub data IsFirstIpv4 (a : Addr) : List (List ℕ) → Type 0 where
  now : {ip : List ℕ} {rest : List (List ℕ)} → IsIpv4 ip a → IsFirstIpv4 a (ip ∷ rest)
  later :
      {ip : List ℕ} {rest : List (List ℕ)}
      → IsOther ip
      → IsFirstIpv4 a rest
      → IsFirstIpv4 a (ip ∷ rest)

-- The endpoint has the entry's names and port, and the first IPv4 address of the entry.
pub record IsEndpointOf (e : Entry) (ep : Endpoint) : Type 0 where
  pub same_instance : ep.instance_name ≡ e.instance_name
  pub same_service : ep.service ≡ e.service
  pub same_hostname : ep.hostname ≡ e.hostname
  pub same_port : ep.port ≡ e.port
  pub first_ip : IsFirstIpv4 ep.ip e.addr_ipv4

-- The endpoint of the entry; or none, as no slice of it holds an IPv4 address.
abbrev pub IsConverted : Entry → Option Endpoint → Type 0
IsConverted e none = All IsOther e.addr_ipv4
IsConverted e (some ep) = IsEndpointOf e ep

abbrev IsFound : List (List ℕ) → Option Addr → Type 0
IsFound ips none = All IsOther ips
IsFound ips (some a) = IsFirstIpv4 a ips

-- A slice that the loop passes over holds no IPv4 address.
none-IsOther : (ip : List ℕ) → usable (addr_from_slice ip) ≡ none → IsOther ip
none-IsOther ip u a h = none-ne-some a (sym u ∙ IsIpv4-usable h)

IsFound-later :
    (ip : List ℕ) (ips : List (List ℕ)) (o : Option Addr)
    → IsOther ip
    → IsFound ips o
    → IsFound (ip ∷ ips) o
IsFound-later ip ips none u h = (u, h)
IsFound-later ip ips (some a) u h = later u h

first_ipv4-IsFound : (ips : List (List ℕ)) → IsFound ips (first_ipv4 ips)
unfolding first_ipv4
first_ipv4-IsFound [] = tt
first_ipv4-IsFound (ip ∷ ips) = elim (Option-cases (usable (addr_from_slice ip))) [
  | inl u ↦
      rw u (IsFound-later ip ips (first_ipv4 ips) (none-IsOther ip u) (first_ipv4-IsFound ips))
  | inr (a, u) ↦ rw u (now (usable-IsIpv4 ip a u))
]

placed-IsConverted :
    (e : Entry) (o : Option Addr) → IsFound e.addr_ipv4 o → IsConverted e (placed e o)
placed-IsConverted e none h = h
placed-IsConverted e (some a) h = record {
  same_instance = refl;
  same_service = refl;
  same_hostname = refl;
  same_port = refl;
  first_ip = h;
}

-- An entry is converted to an endpoint with its instance, service, host name and port, at the first
-- IPv4 address among its slices of bytes, four of them or the sixteen that map four; it is passed over
-- only if no slice holds one.
pub entry_to_endpoint-IsConverted : (e : Entry) → IsConverted e (entry_to_endpoint e)
unfolding entry_to_endpoint
entry_to_endpoint-IsConverted e =
    placed-IsConverted e (first_ipv4 e.addr_ipv4) (first_ipv4-IsFound e.addr_ipv4)

-- The entries of the turns up to the first at which the forwarder stops.
pub data IsHeard (ep : Endpoint) : List Turn → Type 0 where
  sent :
      {e : Entry} {rest : List Turn}
      → entry_to_endpoint e ≡ some ep
      → IsHeard ep (arrives e true ∷ rest)
  before :
      {e : Entry} {taken : Bool} {rest : List Turn}
      → (taken ≡ true) ⊎ (entry_to_endpoint e ≡ none)
      → IsHeard ep rest
      → IsHeard ep (arrives e taken ∷ rest)

-- An endpoint and its place in a list.
pub data IsAmong (ep : Endpoint) : List Endpoint → Type 0 where
  first : {rest : List Endpoint} → IsAmong ep (ep ∷ rest)
  next : {other : Endpoint} {rest : List Endpoint} → IsAmong ep rest → IsAmong ep (other ∷ rest)

pass_on-IsAmong :
    (ep : Endpoint) (o : Option Endpoint) (rest : List Endpoint)
    → IsAmong ep rest
    → IsAmong ep (pass_on o true rest)
pass_on-IsAmong ep none rest h = h
pass_on-IsAmong ep (some other) rest h = next h

heard : (ep : Endpoint) {turns : List Turn} → IsHeard ep turns → IsAmong ep (forward turns)
unfolding forward
heard ep (sent h) = rw h first
heard ep (before {e} {taken} {rest} (inr h) k) = rw h (heard ep k)
heard ep (before {e} {taken} {rest} (inl h) k) =
    rw h (pass_on-IsAmong ep (entry_to_endpoint e) (forward rest) (heard ep k))

one_of :
    (ep other : Endpoint) (rest : List Endpoint)
    → IsAmong ep (other ∷ rest)
    → (other ≡ ep) ⊎ IsAmong ep rest
one_of ep other rest first = inl refl
one_of ep other rest (next h) = inr h

passed :
    (ep : Endpoint) (e : Entry) (taken : Bool) (turns : List Turn) (o : Option Endpoint)
    → entry_to_endpoint e ≡ o
    → (IsAmong ep (forward turns) → IsHeard ep turns)
    → IsAmong ep (pass_on o taken (forward turns))
    → IsHeard ep (arrives e taken ∷ turns)
passed ep e taken turns none c k h = before (inr c) (k h)
passed ep e false turns (some other) c k h = elim h [ ]
passed ep e true turns (some other) c k h = elim (one_of ep other (forward turns) h) [
  | inl same ↦ sent (c ∙ ap some same)
  | inr more ↦ before (inl refl) (k more)
]

among : (ep : Endpoint) (turns : List Turn) → IsAmong ep (forward turns) → IsHeard ep turns
unfolding forward
among ep [] h = elim h [ ]
among ep (arrives e taken ∷ turns) h =
    passed ep e taken turns (entry_to_endpoint e) refl (among ep turns) h
among ep (ended ∷ turns) h = elim h [ ]
among ep (cancelled ∷ turns) h = elim h [ ]

-- None is lost and none is made up: the forwarder sends exactly the endpoints of the entries with an
-- IPv4 address that arrive before it has stopped, at the end of the entries or of the context.
pub forward-IsHeard :
    (ep : Endpoint) (turns : List Turn) → IsAmong ep (forward turns) ↔ IsHeard ep turns
forward-IsHeard ep turns = (among ep turns, heard ep)
