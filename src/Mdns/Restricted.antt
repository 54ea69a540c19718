-- ===== src/Mdns/Restricted.antt =====
-- The interfaces that a browse cycle may use.
use cluster_api_runtime_exte.Base.{String, ◌≡◌, ◌≢◌, refl, Option, none, some, List, [], ◌∷◌, arith}
use cluster_api_runtime_exte.Base.Lists.{All}
use cluster_api_runtime_exte.Mdns.{
  sorted_out, resolve_interfaces, selected, BrowseOptions, client_options,
}

module _ {Interface : Type 0} (interface_by_name : String → Option Interface) where
  -- The interface exists under one of the names.
  pub data IsNamed (i : Interface) : List String → Type 0 where
    here :
        {name : String} {rest : List String}
        → interface_by_name name ≡ some i
        → IsNamed i (name ∷ rest)
    there : {name : String} {rest : List String} → IsNamed i rest → IsNamed i (name ∷ rest)

  abbrev pub IsMissing : String → Type 0
  IsMissing name = interface_by_name name ≡ none

  -- Some interfaces, each of which exists under one of the names.
  abbrev pub IsSelection : List String → List Interface → Type 0
  IsSelection names is = (is ≢ []) × All (λ i. IsNamed i names) is

  -- All interfaces if none is configured; else those of the configured names that exist, or no browse
  -- as all are missing.
  abbrev pub IsRestricted : List String → Option (BrowseOptions Interface) → Type 0
  IsRestricted [] o = o ≡ some (record { interfaces = none })
  IsRestricted (name ∷ rest) none = All IsMissing (name ∷ rest)
  IsRestricted (name ∷ rest) (some o) =
      (is : List Interface) × (o.interfaces ≡ some is) × IsSelection (name ∷ rest) is

  weaken :
      (name : String) (rest : List String) (is : List Interface)
      → All (λ i. IsNamed i rest) is
      → All (λ i. IsNamed i (name ∷ rest)) is
  weaken name rest [] h = tt
  weaken name rest (i ∷ is) (h, k) = (there h, weaken name rest is k)

  IsResolved : List String → List Interface → Type 0
  IsResolved names [] = All IsMissing names
  IsResolved names (i ∷ is) = All (λ j. IsNamed j names) (i ∷ is)

  sort_one :
      (name : String) (rest : List String) (o : Option Interface) (p : List Interface × List String)
      → interface_by_name name ≡ o
      → IsResolved rest p.0
      → IsResolved (name ∷ rest) (sorted_out interface_by_name name o p).0
  unfolding IsResolved
  sort_one name rest none ([], missing) e h = (e, h)
  sort_one name rest none (i ∷ is, missing) e h = weaken name rest (i ∷ is) h
  sort_one name rest (some j) ([], missing) e h = (here e, tt)
  sort_one name rest (some j) (i ∷ is, missing) e h = (here e, weaken name rest (i ∷ is) h)

  resolve_interfaces-IsResolved :
      (names : List String) → IsResolved names (resolve_interfaces interface_by_name names).0
  unfolding resolve_interfaces IsResolved
  resolve_interfaces-IsResolved [] = tt
  resolve_interfaces-IsResolved (name ∷ rest) =
      sort_one name rest (interface_by_name name) (resolve_interfaces interface_by_name rest) refl
        (resolve_interfaces-IsResolved rest)

  selected-IsRestricted :
      (name : String) (rest : List String) (is : List Interface)
      → IsResolved (name ∷ rest) is
      → IsRestricted (name ∷ rest) (selected interface_by_name is)
  unfolding IsResolved
  selected-IsRestricted name rest [] h = h
  selected-IsRestricted name rest (i ∷ is) h = (i ∷ is, refl, ((λ e. absurd (ground arith)), h))

  -- A browse uses all interfaces only if none is configured. Else it uses such as exist under a
  -- configured name, and is skipped only if none of the names has an interface.
  pub client_options-IsRestricted :
      (names : List String) → IsRestricted names (client_options interface_by_name names)
  unfolding client_options
  client_options-IsRestricted [] = refl
  client_options-IsRestricted (name ∷ rest) =
      selected-IsRestricted name rest _ (resolve_interfaces-IsResolved (name ∷ rest))
