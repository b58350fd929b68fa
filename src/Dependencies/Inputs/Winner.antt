-- ===== src/Dependencies/Inputs/Winner.antt =====
-- Which entry stands for a crate.
use rust_mcp.Prelude.{
  ◌≡◌, ◌≢◌, refl, sym, ap, subst, ◌∙◌, ◌↔◌, true, false, List, [], ◌∷◌, map, Option, none, some,
  is_empty, All, Bool-cases, inl, inr, In, here, there,
}
use rust_mcp.Prelude.Options.{or_else}
use rust_mcp.Order.{text_ord, text_lt, asym}
use rust_mcp.Order.Sort.{IsSorted, sort_by_sorted}
use rust_mcp.BTree.{
  get, alter, get-alter_self, get-alter_ne, IsAscending, IsAbove, alter-IsAscending, alter-All,
  In-get, get-In,
}
use rust_mcp.Text.{Text, trim, to_lower, text_eq, text_eq_iff}
use rust_mcp.Dependencies.Inputs.{
  InputDependency, NormalizedDependency, all_inputs, normalized, choose, Merged, key_of,
  merge_entries, sort_by_name, normalize_inputs, of_crate, last_override, first_required, head,
  fold_choices, fold_choices_lem, overrides,
}

-- The entry that stands for the entries of one crate: the last addition with a requirement, or else
-- the first entry with a requirement, or else the first entry.
abbrev pub winner : List NormalizedDependency → Option NormalizedDependency
winner es = or_else (last_override es) (or_else (first_required es) (head es))

get-merge_entries :
    (key : Text) (es : List NormalizedDependency) (m : Merged)
    → get text_ord key (merge_entries es m) ≡ fold_choices (of_crate key es) (get text_ord key m)
unfolding merge_entries
get-merge_entries key [] m = refl
get-merge_entries key (e ∷ es) m = elim (Bool-cases (is_empty (trim e.name))) [
  | inl n ↦ rw n (get-merge_entries key es m)
  | inr n ↦
      let c = choose (normalized e) in
      let m' = alter text_ord (key_of e) c m in
      elim (Bool-cases (text_eq (key_of e) key)) [
        | inl t ↦
            let k : key_of e ≡ key = (text_eq_iff (key_of e) key).0 t in
            let found : get text_ord key m' ≡ some (c (get text_ord key m)) =
              rw k (get-alter_self text_ord key c m) in
            rw (n, t) (get-merge_entries key es m' ∙ ap (fold_choices (of_crate key es)) found)
        | inr t ↦
            let k : key ≢ key_of e = λ p. cc ((text_eq_iff (key_of e) key).1 (sym p), t) in
            rw (n, t)
              (get-merge_entries key es m'
                ∙ ap (fold_choices (of_crate key es)) (get-alter_ne text_ord key (key_of e) c m k))
      ]
]

-- The entries stand under their own names.
abbrev IsKeyed : Merged → Type 0
IsKeyed m = All (λ e. to_lower e.1.name ≡ e.0) m

choose_keyed :
    (key : Text) (e x : NormalizedDependency)
    → to_lower e.name ≡ key
    → to_lower x.name ≡ key
    → to_lower (choose e (some x)).name ≡ key
choose_keyed key e x h k = elim (Bool-cases (overrides e x)) [ inl t ↦ rw t h | inr t ↦ rw t k ]

merge_entries-IsKeyed :
    (es : List NormalizedDependency) (m : Merged) → IsKeyed m → IsKeyed (merge_entries es m)
unfolding merge_entries normalized
merge_entries-IsKeyed [] m h = h
merge_entries-IsKeyed (e ∷ es) m h = elim (Bool-cases (is_empty (trim e.name))) [
  | inl n ↦ rw n (merge_entries-IsKeyed es m h)
  | inr n ↦ rw n (
      merge_entries-IsKeyed es _ (
        alter-All text_ord (λ x. to_lower x.1.name ≡ x.0) (key_of e) (choose (normalized e)) m refl
          (λ v k. choose_keyed (key_of e) (normalized e) v refl k) h))
]

merge_entries-IsAscending :
    (es : List NormalizedDependency) (m : Merged)
    → IsAscending text_ord m
    → IsAscending text_ord (merge_entries es m)
unfolding merge_entries
merge_entries-IsAscending [] m h = h
merge_entries-IsAscending (e ∷ es) m h = elim (Bool-cases (is_empty (trim e.name))) [
  | inl n ↦ rw n (merge_entries-IsAscending es m h)
  | inr n ↦ rw n (
      merge_entries-IsAscending es _
        (alter-IsAscending text_ord (key_of e) (choose (normalized e)) m h))
]

abbrev values : Merged → List NormalizedDependency
values m = map (λ e. e.1) m

-- The names ascend strictly.
abbrev pub AllAbove : Text → List NormalizedDependency → Type 0
AllAbove key es = All (λ e. text_lt key (to_lower e.name) ≡ true) es

abbrev InOrder : List NormalizedDependency → Type 0
InOrder [] = Unit
InOrder (e ∷ es) = AllAbove (to_lower e.name) es × InOrder es

values-AllAbove :
    (key : Text) (m : Merged) → IsKeyed m → IsAbove text_ord key m → AllAbove key (values m)
values-AllAbove key [] h a = tt
values-AllAbove key ((k, e) ∷ m) h a =
    (subst (λ x. text_lt key x ≡ true) (sym h.0) a.0, values-AllAbove key m h.1 a.1)

values-InOrder : (m : Merged) → IsKeyed m → IsAscending text_ord m → InOrder (values m)
values-InOrder [] h a = tt
values-InOrder ((k, e) ∷ m) h a = (
  subst (λ x. AllAbove x (values m)) (sym h.0) (values-AllAbove k m h.1 a.0),
  values-InOrder m h.1 a.1,
)

above_sorted :
    (key : Text) (es : List NormalizedDependency)
    → AllAbove key es
    → All (λ e. text_lt (to_lower e.name) key ≡ false) es
above_sorted key [] h = tt
above_sorted key (e ∷ es) h = (asym text_ord key (to_lower e.name) h.0, above_sorted key es h.1)

InOrder-IsSorted :
    (es : List NormalizedDependency) → InOrder es → IsSorted text_ord (λ e. to_lower e.name) es
InOrder-IsSorted [] h = tt
InOrder-IsSorted (e ∷ es) h = (above_sorted (to_lower e.name) es h.0, InOrder-IsSorted es h.1)

In-values : {e : NormalizedDependency} (m : Merged) → In e (values m) → (key : Text) × In (key, e) m
In-values [] i = elim i [ ]
In-values ((k, x) ∷ m) (here p) = (k, here (ap (λ y. (k, y)) p))
In-values ((k, x) ∷ m) (there i) = let (key, j) = In-values m i in (key, there j)

values-In : {e : NormalizedDependency} (key : Text) (m : Merged) → In (key, e) m → In e (values m)
values-In key [] i = elim i [ ]
values-In key ((k, x) ∷ m) (here p) = here (ap (λ (y : Text × NormalizedDependency). y.1) p)
values-In key ((k, x) ∷ m) (there i) = there (values-In key m i)

module _ (explicit_dependencies : Option (List InputDependency))
    (manifest_dependencies : List InputDependency) (additions : Option (List InputDependency)) where
  abbrev inputs : List NormalizedDependency
  inputs = all_inputs explicit_dependencies manifest_dependencies additions

  merged : Merged
  merged = merge_entries inputs []

  merged-IsAscending : IsAscending text_ord merged
  unfolding merged
  merged-IsAscending = merge_entries-IsAscending inputs [] tt

  merged-InOrder : InOrder (values merged)
  unfolding merged
  merged-InOrder = values-InOrder merged (merge_entries-IsKeyed inputs [] tt) merged-IsAscending

  normalize_inputs-values :
      normalize_inputs explicit_dependencies manifest_dependencies additions ≡ values merged
  unfolding normalize_inputs sort_by_name merged
  normalize_inputs-values =
      sort_by_sorted text_ord (λ e. to_lower e.name) (values merged)
        (InOrder-IsSorted (values merged) merged-InOrder)

  merged-winner : (key : Text) → get text_ord key merged ≡ winner (of_crate key inputs)
  unfolding merged
  merged-winner key =
      get-merge_entries key inputs [] ∙ (unfold get in fold_choices_lem (of_crate key inputs) none)

  -- The normalised inputs are exactly one entry for each crate that any input names: of the crate's
  -- entries, taken together by their trimmed names without case, the last addition with a
  -- requirement, or else the first entry with a requirement, or else the first entry.
  pub normalize_inputs-winner :
      (e : NormalizedDependency)
      → In e (normalize_inputs explicit_dependencies manifest_dependencies additions)
        ↔ ((key : Text) × (winner (of_crate key inputs) ≡ some e))
  normalize_inputs-winner e = (
    λ i.
        let (key, j) = In-values merged (subst (In e) normalize_inputs-values i) in
        (key, sym (merged-winner key) ∙ get-In text_ord merged merged-IsAscending j),
    λ x.
        subst (In e) (sym normalize_inputs-values)
          (values-In x.0 merged (In-get text_ord merged (merged-winner x.0 ∙ x.1))),
  )

  -- The normalised inputs stand in strictly ascending order of their names without case, so no crate
  -- stands twice.
  normalize_inputs-InOrder :
      InOrder (normalize_inputs explicit_dependencies manifest_dependencies additions)
  normalize_inputs-InOrder = subst InOrder (sym normalize_inputs-values) merged-InOrder
