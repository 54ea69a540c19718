-- ===== src/Teardown/Address/Sourced.antt =====
-- resolveAddress of internal/teardown/address.go: its sources in their order, and what a failed read leaves.
use cluster_api_runtime_exte.Base.{
  String, ◌≡◌, refl, Bool, true, false, not, ◌&&◌, Option, none, some, List, [], ◌∷◌, ◌==◌,
  string_eq, if◌then◌else◌, inl, inr, Bool-cases, subst,
}
use cluster_api_runtime_exte.Base.Lists.{All}
use cluster_api_runtime_exte.Teardown.Api.{ClusterApi, ObjectKey, Address, Machine, InfraMachine}
use cluster_api_runtime_exte.Teardown.Effect.{
  Result, ok, err, wrap, Trace, World, Exec, pure, raise, handle, resume, is_not_found, ask, get,
  cases, infra_machine,
}
use cluster_api_runtime_exte.Teardown.Controller.{Reconciler}
use cluster_api_runtime_exte.Teardown.Address.{
  is_node_ip, machine_address, infra_address, first_dhcp, hardware_address, infra_machine_address,
  resolve_address,
}

-- The first element that passes the test.
pub data IsFirst {A : Type 0} (p : A → Bool) (a : A) : List A → Type 0 where
  now : {rest : List A} → p a ≡ true → IsFirst p a (a ∷ rest)
  later : {b : A} {rest : List A} → p b ≡ false → IsFirst p a rest → IsFirst p a (b ∷ rest)

-- None passes the test.
abbrev pub Misses : {A : Type 0} → (A → Bool) → List A → Type 0
Misses p xs = All (λ a. p a ≡ false) xs

abbrev pub is_ip : ClusterApi → Address → Bool
is_ip api a = is_node_ip api a.kind

abbrev pub is_full_ip : ClusterApi → Option Address → Bool
is_full_ip api none = false
is_full_ip api (some a) = is_ip api a && not (a.address == "")

-- What a read leads to: a missing object is no error.
abbrev pub AfterRead :
    {A : Type 0} → String → Result A → (A → Result String → Type 0) → Result String → Type 0
AfterRead message (ok a) P x = P a x
AfterRead message (err e) P x = x ≡ (if is_not_found e then ok "" else err (wrap message e))

abbrev hardware_key : InfraMachine → ObjectKey
hardware_key tm = record {
  namespace = if tm.target_namespace == "" then tm.namespace else tm.target_namespace;
  name = tm.hardware_name;
}

abbrev infra_key : Machine → ObjectKey
infra_key m = record { namespace = m.namespace; name = m.infrastructure.name }

module _ (r : Reconciler) where
  -- From the TinkerbellMachine: its own addresses, or those of the Hardware it names.
  pub data FromInfra (t : Trace) (tm : InfraMachine) : Result String → Type 0 where
    stated :
        {a : Address}
        → IsFirst (is_full_ip r.api) (some a) tm.addresses
        → FromInfra t tm (ok a.address)
    unnamed :
        Misses (is_full_ip r.api) tm.addresses
        → (tm.hardware_name == "") ≡ true
        → FromInfra t tm (ok "")
    named :
        {x : Result String}
        → Misses (is_full_ip r.api) tm.addresses
        → (tm.hardware_name == "") ≡ false
        → AfterRead "getting Hardware"
            (r.env.get_hardware t (hardware_key tm))
            (λ hw x. x ≡ ok (first_dhcp hw.interfaces))
            x
        → FromInfra t tm x

  -- From the Machine: its own addresses, or those of the TinkerbellMachine it refers to.
  pub data FromMachine (t : Trace) (m : Machine) : Result String → Type 0 where
    own : {a : Address} → IsFirst (is_ip r.api) a m.addresses → FromMachine t m (ok a.address)
    alone :
        Misses (is_ip r.api) m.addresses
        → (m.infrastructure.name == "") ≡ true
        → FromMachine t m (ok "")
    referred :
        {x : Result String}
        → Misses (is_ip r.api) m.addresses
        → (m.infrastructure.name == "") ≡ false
        → AfterRead "getting TinkerbellMachine"
            (r.env.get_infra_machine t (infra_key m))
            (FromInfra (get infra_machine (infra_key m) ∷ t))
            x
        → FromMachine t m x

-- The text of the first address that passes, or none passes.
abbrev Found : {A : Type 0} → (A → Bool) → (Address → A) → List A → Option String → Type 0
Found p g xs none = Misses p xs
Found p g xs (some x) = (a : Address) × IsFirst p (g a) xs × (a.address ≡ x)

found_later :
    {A : Type 0} (p : A → Bool) (g : Address → A) (b : A) (xs : List A) (o : Option String)
    → p b ≡ false
    → Found p g xs o
    → Found p g (b ∷ xs) o
found_later p g b xs none e h = (e, h)
found_later p g b xs (some x) e (a, h, k) = (a, later e h, k)

module _ (api : ClusterApi) where
  machine_address-Found :
      (xs : List Address) → Found (is_ip api) (λ a. a) xs (machine_address api xs)
  unfolding machine_address
  machine_address-Found [] = tt
  machine_address-Found (a ∷ xs) = elim (Bool-cases (is_node_ip api a.kind)) [
    | inl e ↦ rw e (a, now e, refl)
    | inr e ↦ rw e (found_later (is_ip api) (λ a. a) a xs _ e (machine_address-Found xs))
  ]

  infra_address-Found :
      (xs : List (Option Address)) → Found (is_full_ip api) some xs (infra_address api xs)
  unfolding infra_address
  infra_address-Found [] = tt
  infra_address-Found (none ∷ xs) =
      found_later (is_full_ip api) some none xs _ refl (infra_address-Found xs)
  infra_address-Found (some a ∷ xs) = elim (Bool-cases (is_full_ip api (some a))) [
    | inl e ↦ rw e (a, now e, refl)
    | inr e ↦ rw e (found_later (is_full_ip api) some (some a) xs _ e (infra_address-Found xs))
  ]

-- A read that is followed by a step, or wrapped.
after_read :
    {A : Type 0} (message : String) (x : Result A) (P : A → Result String → Type 0)
    (f : A → Exec String) (w : World)
    → ((a : A) → P a (f a w).0)
    → AfterRead message x P
        (resume x f (λ e. if is_not_found e then pure "" else raise (wrap message e)) w).0
unfolding pure raise
after_read message (ok a) P f w h = h a
after_read message (err e) P f w h = elim (Bool-cases (is_not_found e)) [
  | inl k ↦ rw k refl
  | inr k ↦ rw k refl
]

module _ (r : Reconciler) where
  hardware_address-FromInfra :
      (tm : InfraMachine) (w : World)
      → Misses (is_full_ip r.api) tm.addresses
      → FromInfra r w.trace tm (hardware_address r tm w).0
  unfolding hardware_address handle ask pure
  hardware_address-FromInfra tm w h = elim (Bool-cases (tm.hardware_name == "")) [
    | inl e ↦ rw e (unnamed h e)
    | inr e ↦ rw e (
        named h e (
          after_read "getting Hardware" (r.env.get_hardware w.trace (hardware_key tm))
            (λ hw x. x ≡ ok (first_dhcp hw.interfaces)) (λ hw. pure (first_dhcp hw.interfaces)) _
            (λ hw. refl)))
  ]

  infra_machine_address-FromInfra :
      (tm : InfraMachine) (w : World) → FromInfra r w.trace tm (infra_machine_address r tm w).0
  unfolding pure
  infra_machine_address-FromInfra tm w =
      from (infra_address r.api tm.addresses) (infra_address-Found r.api tm.addresses)
    where
      from :
          (o : Option String)
          → Found (is_full_ip r.api) some tm.addresses o
          → FromInfra r w.trace tm (cases o (λ x. pure x) (hardware_address r tm) w).0
      from none h = hardware_address-FromInfra tm w h
      from (some x) (a, h, e) = subst (λ y. FromInfra r w.trace tm (ok y)) e (stated h)

  -- The address comes from the first source that has one: the first IP address of the Machine, even
  -- an empty one; else the first IP address of the TinkerbellMachine that is not empty; else the DHCP
  -- address of the first interface of the Hardware. It is empty if the chain ends at a missing reference or
  -- object or at an interface without an address, and a read that fails otherwise is the error, wrapped.
  pub resolve_address-FromMachine :
      (m : Machine) (w : World) → FromMachine r w.trace m (resolve_address r m w).0
  unfolding resolve_address handle ask pure
  resolve_address-FromMachine m w =
      from (machine_address r.api m.addresses) (machine_address-Found r.api m.addresses)
    where
      rest : Exec String
      rest =
          if m.infrastructure.name == ""
          then pure ""
          else handle
              (ask (λ t. r.env.get_infra_machine t (infra_key m)) (get infra_machine (infra_key m)))
              (λ tm. infra_machine_address r tm)
              (λ e. if is_not_found e then pure "" else raise (wrap "getting TinkerbellMachine" e))

      rest-FromMachine : Misses (is_ip r.api) m.addresses → FromMachine r w.trace m (rest w).0
      rest-FromMachine h = elim (Bool-cases (m.infrastructure.name == "")) [
        | inl e ↦ rw e (alone h e)
        | inr e ↦ rw e (
            referred h e (
              after_read "getting TinkerbellMachine" (r.env.get_infra_machine w.trace (infra_key m))
                (FromInfra r (get infra_machine (infra_key m) ∷ w.trace)) (infra_machine_address r)
                _ (λ tm. infra_machine_address-FromInfra tm _)))
      ]

      from :
          (o : Option String)
          → Found (is_ip r.api) (λ a. a) m.addresses o
          → FromMachine r w.trace m (cases o (λ x. pure x) rest w).0
      from none h = rest-FromMachine h
      from (some x) (a, h, e) = subst (λ y. FromMachine r w.trace m (ok y)) e (own h)
