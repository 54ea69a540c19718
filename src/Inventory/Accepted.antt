-- ===== src/Inventory/Accepted.antt =====
-- ParseDefaults of internal/inventory/defaults.go from an accepted text back to the entries it came from.
use Prim.Native.String.append
use mathlib.Core.Option.{some-injective, none-ne-some}
use cluster_api_runtime_exte.Base.{
  ℕ, String, ◌<>◌, ◌≡◌, refl, sym, subst, ap, ◌∙◌, ◌⊎◌, ◌↔◌, inl, inr, Bool, true, false, Option,
  none, some, List, [], ◌∷◌, arith, ◌==◌, string_eq, nat_eq, Bool-cases, Option-cases,
  if◌then◌else◌, differ,
}
use cluster_api_runtime_exte.Base.Dict.{Dict, insert}
use cluster_api_runtime_exte.Base.Lists.{All}
use cluster_api_runtime_exte.Worker.{Credentials}
use cluster_api_runtime_exte.Inventory.{
  split, cut, accept, cut_credentials, parse_entry, parse_entries, parse_defaults,
}
use cluster_api_runtime_exte.Inventory.Printed.{
  IsFree, Entry, print_entry, print_all, IsPrintable, insert_all, parse_defaults-print_all,
}
use cluster_api_runtime_exte.Inventory.Cuts.{cut-IsCutAt, joined, IsSplitOf, split-IsSplitOf}

IsFree-halves : (k : ℕ) (s t : String) → IsFree k (s <> t) → IsFree k s × IsFree k t
IsFree-halves k String.[] t h = (tt, subst (IsFree k) (append.nil t) h)
IsFree-halves k (String.◌∷◌ c s) t h =
    let (f, rest) = subst (IsFree k) (append.cons c s t) h in
    let (l, r) = IsFree-halves k s t rest in ((f, l), r)

not_refused {ℓ} :
    {A : Type ℓ} (b : Bool) (x y : A)
    → (if b then none else some x) ≡ some y
    → (b ≡ false) × (x ≡ y)
not_refused true x y e = ground arith
not_refused false x y e = (refl, some-injective x y e)

-- What an entry says of the text that it was parsed from.
abbrev IsEntryOf : String → Entry → Type 0
IsEntryOf text e = IsPrintable e × (text ≡ print_entry e)

accept-IsEntryOf :
    (service cred : String) (e : Entry) (o : Option (String × String))
    → cut b':' cred ≡ o
    → IsFree b',' (service <> ("=" <> cred))
    → IsFree b'=' service
    → accept service o ≡ some e
    → IsEntryOf (service <> ("=" <> cred)) e
unfolding print_entry
accept-IsEntryOf service cred e none c free f h = ground arith
accept-IsEntryOf service cred e (some (u, p)) c free f h =
    let (filled, same) = not_refused _ _ e h in
    let (u_free, text) = cut-IsCutAt _ cred (u, p) c in
    let (service_free, rest) = IsFree-halves b',' service _ free in
    let (_, cred_free) = IsFree-halves b',' "=" cred rest in
    let (u_comma, rest') = IsFree-halves b',' u _ (subst (IsFree b',') text cred_free) in
    let (_, p_comma) = IsFree-halves b',' ":" p rest' in
    subst (IsEntryOf (service <> ("=" <> cred))) same (
      record {
        service = (differ service "" (ground arith), service_free, f);
        username = (differ u "" (ground arith), u_comma, u_free);
        password = (differ p "" (ground arith), p_comma);
      },
      ap (λ t. service <> ("=" <> t)) text,
    )

entry-IsEntryOf :
    (entry : String) (e : Entry) (o : Option (String × String))
    → cut b'=' entry ≡ o
    → IsFree b',' entry
    → cut_credentials o ≡ some e
    → IsEntryOf entry e
entry-IsEntryOf entry e none c free h = ground arith
entry-IsEntryOf entry e (some (service, cred)) c free h =
    let (f, text) = cut-IsCutAt _ entry (service, cred) c in
    subst (λ t. IsEntryOf t e) (sym text)
      (accept-IsEntryOf service cred e (cut b':' cred) refl (subst (IsFree b',') text free) f h)

parse_entry-IsEntryOf :
    (entry : String) (e : Entry)
    → IsFree b',' entry
    → parse_entry entry ≡ some e
    → IsEntryOf entry e
unfolding parse_entry
parse_entry-IsEntryOf entry e free h = entry-IsEntryOf entry e (cut b'=' entry) refl free h

-- The text is a printed list, and the second map is the first one with its entries.
pub record IsPrinted (text : String) (start parsed : Dict Credentials) : Type 0 where
  pub first : Entry
  pub others : List Entry
  pub first_printable : IsPrintable first
  pub others_printable : All IsPrintable others
  pub is_text : text ≡ print_all first others
  pub is_parsed : parsed ≡ insert_all (first ∷ others) start

one_more :
    (p : String) (q : String) (qs : List String) (start d : Dict Credentials) (e : Entry)
    → IsEntryOf p e
    → IsPrinted (joined q qs) (insert e.0 e.1 start) d
    → IsPrinted (joined p (q ∷ qs)) start d
unfolding print_all
one_more p q qs start d e (printable, text) h = record {
  first = e;
  others = h.first ∷ h.others;
  first_printable = printable;
  others_printable = (h.first_printable, h.others_printable);
  is_text =
      ap (λ t. t <> ("," <> joined q qs)) text ∙ ap (λ t. print_entry e <> ("," <> t)) h.is_text;
  is_parsed = h.is_parsed;
}

last_one :
    (p : String) (start d : Dict Credentials) (e : Entry)
    → IsEntryOf p e
    → some (insert e.0 e.1 start) ≡ some d
    → IsPrinted p start d
unfolding print_all
last_one p start d e (printable, text) h = record {
  first = e;
  others = [];
  first_printable = printable;
  others_printable = tt;
  is_text = text;
  is_parsed = sym (some-injective _ d h);
}

entries-IsPrinted :
    (p : String) (ps : List String) (start d : Dict Credentials)
    → All (IsFree b',') (p ∷ ps)
    → parse_entries (p ∷ ps) start ≡ some d
    → IsPrinted (joined p ps) start d
unfolding parse_entries
entries-IsPrinted p [] start d (free, rest) h = elim (Option-cases (parse_entry p)) [
  | inl c ↦ absurd (none-ne-some d (rw c at h))
  | inr (e, c) ↦ last_one p start d e (parse_entry-IsEntryOf p e free c) (rw c at h)
]
entries-IsPrinted p (q ∷ qs) start d (free, rest) h = elim (Option-cases (parse_entry p)) [
  | inl c ↦ absurd (none-ne-some d (rw c at h))
  | inr (e, c) ↦
      one_more p q qs start d e (parse_entry-IsEntryOf p e free c)
        (entries-IsPrinted q qs (insert e.0 e.1 start) d rest (rw c at h))
]

parts-IsPrinted :
    (s : String) (d : Dict Credentials) (parts : List String)
    → IsSplitOf s parts
    → parse_entries parts [] ≡ some d
    → IsPrinted s [] d
parts-IsPrinted s d (p ∷ ps) (free, text) h =
    subst (λ t. IsPrinted t [] d) (sym text) (entries-IsPrinted p ps [] d free h)
parts-IsPrinted s d [] k h = absurd k

-- What ParseDefaults is to make of a text: the empty map of the empty text, or the map of a printed
-- list.
abbrev pub IsDefaults : String → Dict Credentials → Type 0
IsDefaults s d = ((s ≡ "") × (d ≡ [])) ⊎ IsPrinted s [] d

parsed : (s : String) (d : Dict Credentials) → parse_defaults s ≡ some d → IsDefaults s d
unfolding parse_defaults
parsed s d h = elim (Bool-cases (s == "")) [
  | inl t ↦ inl (ground arith, some-injective _ _ (sym (rw t at h)))
  | inr f ↦ inr (parts-IsPrinted s d (split s) (split-IsSplitOf s) (rw f at h))
]

printed : (s : String) (d : Dict Credentials) → IsDefaults s d → parse_defaults s ≡ some d
unfolding parse_defaults string_eq
printed s d (inl (empty, same)) = rw (empty, same) refl
printed s d (inr h) =
    ap (λ t. parse_defaults t) h.is_text
    ∙ parse_defaults-print_all h.first h.others h.first_printable h.others_printable
    ∙ ap some (sym h.is_parsed)

-- ParseDefaults takes the empty text, to the empty map, and the texts that are printed lists of
-- entries <service>=<username>:<password> separated by commas, in which nothing is empty and no service
-- has "=" or ",", no user name ":" or "," and no password ",", to the map of these entries, a later
-- one of a service replacing an earlier one. Every other text it refuses.
pub parse_defaults-IsDefaults :
    (s : String) (d : Dict Credentials) → (parse_defaults s ≡ some d) ↔ IsDefaults s d
parse_defaults-IsDefaults s d = (parsed s d, printed s d)
