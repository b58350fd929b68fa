-- ===== src/Fields/Dedupe.antt =====
-- What `dedupe_strings` returns.
use rust_mcp.Prelude.{
  ◌≡◌, refl, sym, ap, subst, ◌∙◌, ◌↔◌, true, false, not, List, [], ◌∷◌, map, arith, is_empty,
  select, In, here, there, In-select, select-In, All, All-In, In-All,
}
use rust_mcp.Order.{text_ord, text_lt, less, same, greater, comparison, lt-le}
use rust_mcp.Order.Sort.{
  In-dedup, dedup-In, sort_by, dedup, IsSorted, sort_by-IsSorted, In-sort_by, sort_by-In,
}
use rust_mcp.Text.{Text, trim}
use rust_mcp.Fields.{dedupe_strings, trimmed_nonempty}

module _ {x : Text} where
  In-map-trim :
      (values : List Text) → In x (map trim values) → (v : Text) × In v values × (x ≡ trim v)
  In-map-trim [] m = elim m [ ]
  In-map-trim (v ∷ values) (here e) = (v, here refl, e)
  In-map-trim (v ∷ values) (there m) = let (w, i, e) = In-map-trim values m in (w, there i, e)

  map-trim-In : (values : List Text) (v : Text) → In v values → x ≡ trim v → In x (map trim values)
  map-trim-In [] v m e = elim m [ ]
  map-trim-In (w ∷ values) v (here p) e = here (e ∙ ap trim p)
  map-trim-In (w ∷ values) v (there m) e = there (map-trim-In values v m e)

-- Each text is strictly below every later one.
abbrev pub IsAscending : List Text → Type 0
IsAscending [] = Unit
IsAscending (a ∷ xs) = All (λ b. text_lt a b ≡ true) xs × IsAscending xs

above_rest :
    (a b : Text) (xs : List Text)
    → text_lt a b ≡ true
    → IsSorted text_ord (λ v. v) (b ∷ xs)
    → (c : Text) → In c (b ∷ xs)
    → text_lt a c ≡ true
above_rest a b xs l s c (here e) = subst (λ y. text_lt a y ≡ true) (sym e) l
above_rest a b xs l s c (there m) =
    lt-le text_ord a b c l (All-In (λ y. text_lt y b ≡ false) xs s.0 m)

dedup-IsAscending :
    (xs : List Text) → IsSorted text_ord (λ v. v) xs → IsAscending (dedup text_ord xs)
unfolding dedup
dedup-IsAscending [] s = tt
dedup-IsAscending (a ∷ []) s = (tt, tt)
dedup-IsAscending (a ∷ b ∷ xs) s = elim (comparison text_ord a b) [
  | less l g ↦ rw l (
    In-All (λ c. text_lt a c ≡ true) (dedup text_ord (b ∷ xs))
        (λ c m. above_rest a b xs l s.1 c (In-dedup text_ord (b ∷ xs) m)),
    dedup-IsAscending (b ∷ xs) s.1,
  )
  | same e l g ↦ rw (l, g) (dedup-IsAscending (b ∷ xs) s.1)
  | greater l g ↦ cc (g, s.0.0)
]

module _ (values : List Text) where
  -- The texts that are returned are exactly the trimmed values that are not empty, and they ascend
  -- strictly, so none is returned twice.
  pub dedupe_strings_lem :
      ((x : Text)
        → In x (dedupe_strings values)
          ↔ ((v : Text) × In v values × (x ≡ trim v) × (is_empty x ≡ false)))
      × IsAscending (dedupe_strings values)
  unfolding dedupe_strings trimmed_nonempty
  dedupe_strings_lem =
      let kept = select (λ v. not (is_empty v)) (map trim values) in
      (
        λ x. (
          λ m.
              let (i, n) =
                In-select (λ v. not (is_empty v)) (map trim values)
                  (In-sort_by text_ord (λ v. v) kept
                    (In-dedup text_ord (sort_by text_ord (λ v. v) kept) m)) in
              let (v, j, e) = In-map-trim values i in (v, j, e, ground arith),
          λ y.
              let (v, j, e, n) = y in
              dedup-In text_ord (sort_by text_ord (λ v. v) kept) (
                sort_by-In text_ord (λ v. v) kept
                  (select-In (λ v. not (is_empty v)) (map trim values) (map-trim-In values v j e)
                    (ground arith))),
        ),
        dedup-IsAscending (sort_by text_ord (λ v. v) kept)
            (sort_by-IsSorted text_ord (λ v. v) kept),
      )
