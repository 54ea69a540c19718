-- ===== src/Worker/Handle/Named.antt =====
-- The name under which a discovered machine is kept.
use cluster_api_runtime_exte.Base.{
  ℕ, ◌+◌, ◌≤◌, ◌<◌, ◌/◌, ◌≡◌, ◌≢◌, refl, subst, inl, inr, true, List, [], ◌∷◌, ◌++◌, arith, ltb,
  nat_eq, Bool-cases,
}
use cluster_api_runtime_exte.Base.Lists.{length}
use cluster_api_runtime_exte.Mdns.{v4, Endpoint}
use cluster_api_runtime_exte.Sync.{Text}
use cluster_api_runtime_exte.Sync.Names.{to_lower, is_alnum}
use cluster_api_runtime_exte.Sync.Names.Label.{IsLabel}
use cluster_api_runtime_exte.Sync.Names.Resource.{IsBare, IsAddressText}
use cluster_api_runtime_exte.Sync.Mapping.{Device}
use cluster_api_runtime_exte.Sync.Syncer.{object_name}
use cluster_api_runtime_exte.Sync.Syncer.Links.{object_name-IsLabel}
use cluster_api_runtime_exte.Worker.Handle.{Worker, decimal, addr_text, spelled}

length-append : (s t : Text) → length (s ++ t) ≡ length s + length t
length-append [] t = omega arith
length-append (c ∷ s) t = ground (arith, length-append s t)

length-decimal : (n : ℕ) → length (decimal n) ≤ 3
unfolding decimal
length-decimal n = ground arith

digit-is_alnum : (k : ℕ) → k < 10 → is_alnum (to_lower (b'0' + k)) ≡ true
unfolding is_alnum to_lower
digit-is_alnum k h = ground arith

decimal-head :
    (n : ℕ) → n < 256 → (k : ℕ) × (rest : Text) × (k < 10) × (decimal n ≡ (b'0' + k) ∷ rest)
unfolding decimal
decimal-head n h = elim (Bool-cases (ltb n 10)) [
  | inl e ↦ rw e (n, [], ground arith, refl)
  | inr e ↦ elim (Bool-cases (ltb n 100)) [
    | inl f ↦ rw (e, f) (n / 10, _, ground arith, refl)
    | inr f ↦ rw (e, f) (n / 100, _, omega arith, refl)
  ]
]

-- It begins with a digit.
decimal-told : (n : ℕ) (t : Text) → n < 256 → ¬ IsBare (decimal n ++ t)
decimal-told n t h b =
    let (k, rest, l, e) = decimal-head n h in
    let bare : IsBare ((b'0' + k) ∷ (rest ++ t)) = subst (λ s. IsBare (s ++ t)) e b in
    let told = digit-is_alnum k l in absurd (ground (arith, bare.0))

addr_text-IsAddressText :
    (ipv6 : List ℕ → Text) (a b c d : ℕ) → a < 256 → IsAddressText (addr_text ipv6 (v4 a b c d))
unfolding addr_text
addr_text-IsAddressText ipv6 a b c d h = record {
  told = decimal-told a _ h;
  brief = ground (
    arith,
    length-append (decimal a) (b'.' ∷ (decimal b ++ (b'.' ∷ (decimal c ++ (b'.' ∷ decimal d))))),
    length-append (decimal b) (b'.' ∷ (decimal c ++ (b'.' ∷ decimal d))),
    length-append (decimal c) (b'.' ∷ decimal d),
    length-decimal a,
    length-decimal b,
    length-decimal c,
    length-decimal d,
  );
}

module _ (w : Worker) where
  -- Whatever the template, the inventory and the advertised names are, the objects of an endpoint with
  -- an IPv4 address, whose first byte is below 256, are named by a DNS label that is not empty.
  pub object_name_ipv4-IsLabel :
      (ep : Endpoint) (dev : Device) (a b c d : ℕ)
      → a < 256
      → ep.ip ≡ v4 a b c d
      → let name = object_name w.syncer (spelled w ep) dev in IsLabel name × (name ≢ [])
  object_name_ipv4-IsLabel ep dev a b c d h e =
      object_name-IsLabel w.syncer (spelled w ep) dev
        (rw e (addr_text-IsAddressText w.ipv6_text a b c d h))
