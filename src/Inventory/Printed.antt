-- ===== src/Inventory/Printed.antt =====
-- The documented form of the lists that ParseDefaults of internal/inventory/defaults.go takes, as a printer.
use Prim.Native.Char.{Char, code}
use Prim.Native.String.append
use text.Mathlib.TextLemmas.{cons≢nil}
use cluster_api_runtime_exte.Base.{
  ℕ, String, ◌<>◌, ◌≡◌, ◌≢◌, refl, sym, subst, ap, ◌∙◌, true, false, some, List, [], ◌∷◌, arith,
  ◌==◌, string_eq, nat_eq,
}
use cluster_api_runtime_exte.Base.Dict.{Dict, insert}
use cluster_api_runtime_exte.Base.Lists.{All}
use cluster_api_runtime_exte.Worker.{Credentials}
use cluster_api_runtime_exte.Inventory.{split, cut, parse_entry, parse_entries, parse_defaults}

-- The character does not occur in the text.
abbrev pub IsFree : ℕ → String → Type 0
IsFree k String.[] = Unit
IsFree k (String.◌∷◌ c s) = ((code c == k) ≡ false) × IsFree k s

abbrev pub Entry : Type 0
Entry = String × Credentials

-- <service>=<username>:<password>
unfoldable pub print_entry : Entry → String
print_entry (service, creds) = service <> ("=" <> (creds.username <> (":" <> creds.password)))

-- A comma-separated list of entries.
unfoldable pub print_all : Entry → List Entry → String
unfolding print_entry
print_all e [] = print_entry e
print_all e (e' ∷ es) = print_entry e <> ("," <> print_all e' es)

-- An entry that the documents allow: nothing is empty, there is no comma, no "=" in the service and no
-- ":" in the user name.
pub record IsPrintable (e : Entry) : Type 0 where
  pub service : (e.0 ≢ "") × IsFree b',' e.0 × IsFree b'=' e.0
  pub username : (e.1.username ≢ "") × IsFree b',' e.1.username × IsFree b':' e.1.username
  pub password : (e.1.password ≢ "") × IsFree b',' e.1.password

pub lone : (c : Char) (t : String) → String.◌∷◌ c "" <> t ≡ String.◌∷◌ c t
lone c t = append.cons c "" t ∙ ap (λ u. String.◌∷◌ c u) (append.nil t)

cut-lone :
    (k : ℕ) (sep : Char) (t : String)
    → (code sep == k) ≡ true
    → cut k (String.◌∷◌ sep "" <> t) ≡ some ("", t)
unfolding cut
cut-lone k sep t h = rw (lone sep t, h) refl

pub cut-append :
    (k : ℕ) (sep : Char) (s t : String)
    → (code sep == k) ≡ true
    → IsFree k s
    → cut k (s <> (String.◌∷◌ sep "" <> t)) ≡ some (s, t)
unfolding cut
cut-append k sep String.[] t e h = rw (append.nil (String.◌∷◌ sep "" <> t)) (cut-lone k sep t e)
cut-append k sep (String.◌∷◌ c s) t e (f, h) =
    rw (append.cons c s (String.◌∷◌ sep "" <> t), f, cut-append k sep s t e h) refl

split-free : (s : String) → IsFree b',' s → split s ≡ s ∷ []
unfolding split
split-free String.[] h = refl
split-free (String.◌∷◌ c s) (f, h) = rw (f, split-free s h) refl

split-lone :
    (sep : Char) (t : String)
    → (code sep == b',') ≡ true
    → split (String.◌∷◌ sep "" <> t) ≡ "" ∷ split t
unfolding split
split-lone sep t h = rw (lone sep t, h) refl

split-append :
    (sep : Char) (s t : String)
    → (code sep == b',') ≡ true
    → IsFree b',' s
    → split (s <> (String.◌∷◌ sep "" <> t)) ≡ s ∷ split t
unfolding split
split-append sep String.[] t e h = rw (append.nil (String.◌∷◌ sep "" <> t)) (split-lone sep t e)
split-append sep (String.◌∷◌ c s) t e (f, h) =
    rw (append.cons c s (String.◌∷◌ sep "" <> t), f, split-append sep s t e h) refl

IsFree-append : (k : ℕ) (s t : String) → IsFree k s → IsFree k t → IsFree k (s <> t)
IsFree-append k String.[] t h g = rw (append.nil t) g
IsFree-append k (String.◌∷◌ c s) t (f, h) g =
    subst (IsFree k) (sym (append.cons c s t)) (f, IsFree-append k s t h g)

pub filled : (s : String) → s ≢ "" → (s == "") ≡ false
filled s n = ground arith

parse_entry-print_entry : (e : Entry) → IsPrintable e → parse_entry (print_entry e) ≡ some e
unfolding parse_entry print_entry nat_eq
parse_entry-print_entry (service, creds) h =
    rw
      (
        cut-append b'=' _ service (creds.username <> (":" <> creds.password)) refl h.service.2,
        cut-append b':' _ creds.username creds.password refl h.username.2,
        filled service h.service.0,
        filled creds.username h.username.0,
        filled creds.password h.password.0,
      )
      refl

print_entry-IsFree : (e : Entry) → IsPrintable e → IsFree b',' (print_entry e)
unfolding print_entry nat_eq
print_entry-IsFree (service, creds) h = IsFree-append b',' service _ h.service.1 (
    IsFree-append b',' "=" _ (refl, tt)
      (IsFree-append b',' creds.username _ h.username.1
        (IsFree-append b',' ":" _ (refl, tt) h.password.1)))

-- The entries written to the map in their order: a later entry of a service replaces an earlier one.
abbrev pub insert_all : List Entry → Dict Credentials → Dict Credentials
insert_all [] d = d
insert_all ((service, creds) ∷ es) d = insert_all es (insert service creds d)

print_all-parsed :
    (e : Entry) (es : List Entry) (d : Dict Credentials)
    → IsPrintable e
    → All IsPrintable es
    → parse_entries (split (print_all e es)) d ≡ some (insert_all (e ∷ es) d)
unfolding parse_entries print_all nat_eq
print_all-parsed e [] d h hs =
    rw (split-free (print_entry e) (print_entry-IsFree e h), parse_entry-print_entry e h) refl
print_all-parsed e (e' ∷ es) d h (h', hs) =
    rw
      (
        split-append _ (print_entry e) (print_all e' es) refl (print_entry-IsFree e h),
        parse_entry-print_entry e h,
      )
      (print_all-parsed e' es (insert e.0 e.1 d) h' hs)

append-ne : (s t : String) → s ≢ "" → s <> t ≢ ""
append-ne String.[] t n = absurd (n refl)
append-ne (String.◌∷◌ c s) t n = λ e. cons≢nil (sym (append.cons c s t) ∙ e)

print_all-ne : (e : Entry) (es : List Entry) → IsPrintable e → print_all e es ≢ ""
unfolding print_all print_entry
print_all-ne e [] h = append-ne e.0 _ h.service.0
print_all-ne e (e' ∷ es) h = append-ne (print_entry e) _ (append-ne e.0 _ h.service.0)

-- A list of entries printed as <service>=<username>:<password>, separated by commas, is parsed to the
-- map of these entries, if nothing in it is empty, no service has "=" or ",", no user name ":" or ","
-- and no password ",".
pub parse_defaults-print_all :
    (e : Entry) (es : List Entry)
    → IsPrintable e
    → All IsPrintable es
    → parse_defaults (print_all e es) ≡ some (insert_all (e ∷ es) [])
unfolding parse_defaults
parse_defaults-print_all e es h hs =
    rw (filled (print_all e es) (print_all-ne e es h)) (print_all-parsed e es [] h hs)
