-- ===== src/Mdns/Heard/Ipv4.antt =====
-- The test of the loop of EntryToEndpoint against the bytes of the addresses that it takes.
use mathlib.Core.Option.{some-injective, none-ne-some}
use cluster_api_runtime_exte.Base.{
  ℕ, ◌≡◌, refl, sym, ap, ◌∙◌, subst, inl, inr, Option, none, some, List, [], ◌∷◌, ◌++◌, arith, ◌==◌,
  nat_eq, Bool-cases, if◌then◌else◌,
}
use cluster_api_runtime_exte.Mdns.{
  Addr, v4, addr_from_slice, mapped_prefix, strip_prefix, or_last, unmap, is4, usable,
}

-- The bytes of an address: the four of an IPv4 one, or the sixteen of an IPv6 one that maps it, which are
-- ten zeros, 255 twice and the four.
pub data IsIpv4 : List ℕ → Addr → Type 0 where
  plain : {a b c d : ℕ} → IsIpv4 (a ∷ b ∷ c ∷ d ∷ []) (v4 a b c d)
  mapped :
      {a b c d : ℕ}
      → IsIpv4 (0 ∷ 0 ∷ 0 ∷ 0 ∷ 0 ∷ 0 ∷ 0 ∷ 0 ∷ 0 ∷ 0 ∷ 255 ∷ 255 ∷ a ∷ b ∷ c ∷ d ∷ []) (v4 a b c d)

pub IsIpv4-usable : {ip : List ℕ} {a : Addr} → IsIpv4 ip a → usable (addr_from_slice ip) ≡ some a
unfolding addr_from_slice strip_prefix unmap is4 nat_eq
IsIpv4-usable plain = refl
IsIpv4-usable mapped = refl

strip_prefix-append : (p s t : List ℕ) → strip_prefix p s ≡ some t → s ≡ p ++ t
unfolding strip_prefix
strip_prefix-append [] s t h = some-injective s t h
strip_prefix-append (p ∷ ps) [] t h = absurd (none-ne-some t h)
strip_prefix-append (p ∷ ps) (c ∷ s) t h = elim (Bool-cases (p == c)) [
  | inl e ↦
      let same : p ≡ c = ground (arith, e) in
      ap (λ x. x ∷ s) (sym same) ∙ ap (λ x. p ∷ x) (strip_prefix-append ps s t (rw e at h))
  | inr n ↦ absurd (none-ne-some t (rw n at h))
]

abbrev kept : Addr → Option Addr
kept a = if is4 a then some a else none

-- Unmap makes an IPv4 address of sixteen bytes only if they map it.
mapping-IsIpv4 :
    (bytes : List ℕ) (a : Addr) (o : Option (List ℕ))
    → strip_prefix mapped_prefix bytes ≡ o
    → kept (or_last o bytes) ≡ some a
    → IsIpv4 bytes a
unfolding is4
mapping-IsIpv4 bytes a none e h = absurd (none-ne-some a h)
mapping-IsIpv4 bytes a (some []) e h = absurd (none-ne-some a h)
mapping-IsIpv4 bytes a (some (w ∷ [])) e h = absurd (none-ne-some a h)
mapping-IsIpv4 bytes a (some (w ∷ x ∷ [])) e h = absurd (none-ne-some a h)
mapping-IsIpv4 bytes a (some (w ∷ x ∷ y ∷ [])) e h = absurd (none-ne-some a h)
mapping-IsIpv4 bytes a (some (w ∷ x ∷ y ∷ z ∷ [])) e h =
    subst (λ b. IsIpv4 b a) (sym (strip_prefix-append mapped_prefix bytes _ e))
      (subst (IsIpv4 _) (some-injective _ a h) mapped)
mapping-IsIpv4 bytes a (some (w ∷ x ∷ y ∷ z ∷ u ∷ t)) e h = absurd (none-ne-some a h)

pub usable-IsIpv4 : (ip : List ℕ) (a : Addr) → usable (addr_from_slice ip) ≡ some a → IsIpv4 ip a
unfolding addr_from_slice unmap is4
usable-IsIpv4 [] a h = absurd (none-ne-some a h)
usable-IsIpv4 (b0 ∷ []) a h = absurd (none-ne-some a h)
usable-IsIpv4 (b0 ∷ b1 ∷ []) a h = absurd (none-ne-some a h)
usable-IsIpv4 (b0 ∷ b1 ∷ b2 ∷ []) a h = absurd (none-ne-some a h)
usable-IsIpv4 (b0 ∷ b1 ∷ b2 ∷ b3 ∷ []) a h = subst (IsIpv4 _) (some-injective _ a h) plain
usable-IsIpv4 (b0 ∷ b1 ∷ b2 ∷ b3 ∷ b4 ∷ []) a h = absurd (none-ne-some a h)
usable-IsIpv4 (b0 ∷ b1 ∷ b2 ∷ b3 ∷ b4 ∷ b5 ∷ []) a h = absurd (none-ne-some a h)
usable-IsIpv4 (b0 ∷ b1 ∷ b2 ∷ b3 ∷ b4 ∷ b5 ∷ b6 ∷ []) a h = absurd (none-ne-some a h)
usable-IsIpv4 (b0 ∷ b1 ∷ b2 ∷ b3 ∷ b4 ∷ b5 ∷ b6 ∷ b7 ∷ []) a h = absurd (none-ne-some a h)
usable-IsIpv4 (b0 ∷ b1 ∷ b2 ∷ b3 ∷ b4 ∷ b5 ∷ b6 ∷ b7 ∷ b8 ∷ []) a h = absurd (none-ne-some a h)
usable-IsIpv4 (b0 ∷ b1 ∷ b2 ∷ b3 ∷ b4 ∷ b5 ∷ b6 ∷ b7 ∷ b8 ∷ b9 ∷ []) a h = absurd (none-ne-some a h)
usable-IsIpv4 (b0 ∷ b1 ∷ b2 ∷ b3 ∷ b4 ∷ b5 ∷ b6 ∷ b7 ∷ b8 ∷ b9 ∷ b10 ∷ []) a h =
    absurd (none-ne-some a h)
usable-IsIpv4 (b0 ∷ b1 ∷ b2 ∷ b3 ∷ b4 ∷ b5 ∷ b6 ∷ b7 ∷ b8 ∷ b9 ∷ b10 ∷ b11 ∷ []) a h =
    absurd (none-ne-some a h)
usable-IsIpv4 (b0 ∷ b1 ∷ b2 ∷ b3 ∷ b4 ∷ b5 ∷ b6 ∷ b7 ∷ b8 ∷ b9 ∷ b10 ∷ b11 ∷ b12 ∷ []) a h =
    absurd (none-ne-some a h)
usable-IsIpv4 (b0 ∷ b1 ∷ b2 ∷ b3 ∷ b4 ∷ b5 ∷ b6 ∷ b7 ∷ b8 ∷ b9 ∷ b10 ∷ b11 ∷ b12 ∷ b13 ∷ []) a h =
    absurd (none-ne-some a h)
usable-IsIpv4 (b0 ∷ b1 ∷ b2 ∷ b3 ∷ b4 ∷ b5 ∷ b6 ∷ b7 ∷ b8 ∷ b9 ∷ b10 ∷ b11 ∷ b12 ∷ b13 ∷ b14 ∷ []) a
      h =
    absurd (none-ne-some a h)
usable-IsIpv4
      (b0 ∷ b1 ∷ b2 ∷ b3 ∷ b4 ∷ b5 ∷ b6 ∷ b7 ∷ b8 ∷ b9 ∷ b10 ∷ b11 ∷ b12 ∷ b13 ∷ b14 ∷ b15 ∷ []) a
      h =
    mapping-IsIpv4
      (b0 ∷ b1 ∷ b2 ∷ b3 ∷ b4 ∷ b5 ∷ b6 ∷ b7 ∷ b8 ∷ b9 ∷ b10 ∷ b11 ∷ b12 ∷ b13 ∷ b14 ∷ b15 ∷ []) a _
      refl h
usable-IsIpv4
      (b0 ∷ b1 ∷ b2 ∷ b3 ∷ b4 ∷ b5 ∷ b6 ∷ b7 ∷ b8 ∷ b9 ∷ b10 ∷ b11 ∷ b12 ∷ b13 ∷ b14 ∷ b15 ∷ b16
        ∷ rest)
      a h =
    absurd (none-ne-some a h)
