-- ===== src/Discovery/Splits.antt =====
-- `parse_registry_dir_name` finds the one split of a directory's name.
use rust_mcp.Prelude.{
  ℕ, zero, suc, ◌+◌, ◌-◌, ◌≡◌, ◌↔◌, refl, ap, sym, ap₂, subst, ◌∙◌, ◌⊎◌, unwrap_or, Bool, true,
  false, [], ◌∷◌, ◌++◌, Option, some, length, take, drop, any, arith, length-append, inl, inr,
  Bool-cases,
}
use mathlib.Core.List.{append-nil}
use rust_mcp.Text.{Text}
use rust_mcp.Discovery.{foreign, dash_first, candidate, split_below, parse_registry_dir_name}

take-append : (xs ys : Text) (n : ℕ) → take (length xs + n) (xs ++ ys) ≡ xs ++ take n ys
take-append [] ys n = let e : 0 + n ≡ n = omega arith in rw e refl
take-append (x ∷ xs) ys n =
    let e : suc (length xs) + n ≡ suc (length xs + n) = omega arith in
    rw e (ap (λ l. x ∷ l) (take-append xs ys n))

drop-append : (xs ys : Text) (n : ℕ) → drop (length xs + n) (xs ++ ys) ≡ drop n ys
drop-append [] ys n = let e : 0 + n ≡ n = omega arith in rw e refl
drop-append (x ∷ xs) ys n =
    let e : suc (length xs) + n ≡ suc (length xs + n) = omega arith in rw e (drop-append xs ys n)

dash-split :
    (s : Text) (j : ℕ) → dash_first (drop j s) ≡ true → s ≡ take j s ++ (45 ∷ drop (suc j) s)
dash-split [] zero h = absurd (ground arith)
dash-split [] (suc j) h = absurd (ground arith)
dash-split (c ∷ s) zero h = let e : c ≡ 45 = ground arith in rw e refl
dash-split (c ∷ s) (suc j) h = ap (λ l. c ∷ l) (dash-split s j h)

any-append : (xs ys : Text) → any foreign ys ≡ true → any foreign (xs ++ ys) ≡ true
any-append [] ys h = h
any-append (x ∷ xs) ys h = elim (Bool-cases (foreign x)) [
  | inl e ↦ rw e refl
  | inr e ↦ rw e (any-append xs ys h)
]

module _ (parses : Text → Bool) where
  -- The name of a crate, a dash and a version.
  abbrev pub IsSplit : Text → Text → Text → Type 0
  IsSplit dir_name name version =
      (dir_name ≡ name ++ (45 ∷ version)) × (any foreign name ≡ false) × (parses version ≡ true)

  candidate_lem :
      (a b name version : Text) (rest : Option (Text × Text))
      → candidate parses a b rest ≡ some (name, version)
      → (rest ≡ some (name, version))
        ⊎ ((a ≡ name) × (b ≡ version) × (any foreign a ≡ false) × (parses b ≡ true))
  candidate_lem a b name version rest h = elim (Bool-cases (any foreign a)) [
    | inl e ↦ inl (rw e at h)
    | inr e ↦ elim (Bool-cases (parses b)) [
      | inl p ↦
          let q : some (a, b) ≡ some (name, version) = rw (e, p) at h in
          inr (
            ap (λ t. (unwrap_or {A = Text × Text} (a, b) t).0) q,
            ap (λ t. (unwrap_or {A = Text × Text} (a, b) t).1) q,
            e,
            p,
          )
      | inr p ↦ inl (rw (e, p) at h)
    ]
  ]

  split_below-IsSplit :
      (dir_name name version : Text) (i : ℕ)
      → split_below parses dir_name i ≡ some (name, version)
      → IsSplit dir_name name version
  unfolding split_below
  split_below-IsSplit d name version zero h = absurd (ground arith)
  split_below-IsSplit d name version (suc i) h = elim (Bool-cases (dash_first (drop i d))) [
    | inr e ↦ split_below-IsSplit d name version i (rw e at h)
    | inl e ↦
        elim (candidate_lem (take i d) (drop (suc i) d) name version (split_below parses d i)
          (rw e at h)) [
            | inl r ↦ split_below-IsSplit d name version i r
            | inr (a, b, f, p) ↦
                (dash-split d i e ∙ ap₂ (λ x y. x ++ (45 ∷ y)) a b, rw (sym a) f, rw (sym b) p)
          ]
  ]

  module _ (numbers_first : (a b : Text) → parses (a ++ (45 ∷ b)) ≡ true → any foreign a ≡ true)
      (name version : Text) (plain : any foreign name ≡ false)
      (parsed : parses version ≡ true) where
    -- A dash within the version is passed over.
    later_dash :
        (j : ℕ)
        → dash_first (drop j version) ≡ true
        → any foreign (name ++ (45 ∷ take j version)) ≡ true
    later_dash j e = any-append name (45 ∷ take j version) (
        numbers_first (take j version) (drop (suc j) version)
          (subst (λ v. parses v ≡ true) (dash-split version j e) parsed))

    split_below-here :
        split_below parses (name ++ (45 ∷ version)) (suc (length name)) ≡ some (name, version)
    unfolding split_below
    split_below-here =
        let d = name ++ (45 ∷ version) in
        let z : length name ≡ length name + 0 = omega arith in
        let o : suc (length name) ≡ length name + 1 = omega arith in
        let t : take (length name) d ≡ name =
          ap (λ n. take n d) z ∙ take-append name (45 ∷ version) 0 ∙ append-nil name in
        let h : drop (length name) d ≡ 45 ∷ version =
          ap (λ n. drop n d) z ∙ drop-append name (45 ∷ version) 0 in
        let r : drop (suc (length name)) d ≡ version =
          ap (λ n. drop n d) o ∙ drop-append name (45 ∷ version) 1 in
        rw (h, t, r, plain, parsed) refl

    split_below_later :
        (j : ℕ)
        → split_below parses (name ++ (45 ∷ version)) (suc (length name + j)) ≡ some (name, version)
    unfolding split_below
    split_below_later zero =
        let z : length name + 0 ≡ length name = omega arith in rw z split_below-here
    split_below_later (suc j) =
        let d = name ++ (45 ∷ version) in
        let i = length name + suc j in
        let s : length name + suc j ≡ suc (length name + j) = omega arith in
        let rest : split_below parses d i ≡ some (name, version) = rw s (split_below_later j) in
        let t : take i d ≡ name ++ (45 ∷ take j version) =
          take-append name (45 ∷ version) (suc j) in
        let h : drop i d ≡ drop j version = drop-append name (45 ∷ version) (suc j) in
        elim (Bool-cases (dash_first (drop j version))) [
          | inl e ↦ rw (h, e, t, later_dash j e) rest
          | inr e ↦ rw (h, e) rest
        ]

  found :
      (dir_name name version : Text)
      → ((a b : Text) → parses (a ++ (45 ∷ b)) ≡ true → any foreign a ≡ true)
      → parses [] ≡ false
      → IsSplit dir_name name version
      → parse_registry_dir_name parses dir_name ≡ some (name, version)
  unfolding parse_registry_dir_name
  found d name [] first none_empty (e, plain, parsed) = absurd (ground arith)
  found d name (c ∷ v) first none_empty (e, plain, parsed) =
      let n : length (name ++ (45 ∷ c ∷ v)) - 1 ≡ suc (length name + length v) =
        omega (arith, length-append name (45 ∷ c ∷ v)) in
      rw (e, n) (split_below_later first name (c ∷ v) plain parsed (length v))

  -- Where every version that parses has a dot or a plus before each of its dashes and the empty text
  -- is no version, a directory's name gives a name and a version exactly where it is that name, a
  -- dash and that version, the name has no dot and no plus, and the version parses; both may have
  -- dashes.
  pub parse_registry_dir_name-IsSplit :
      (numbers_first : (a b : Text) → parses (a ++ (45 ∷ b)) ≡ true → any foreign a ≡ true)
      (no_empty : parses [] ≡ false) (dir_name name version : Text)
      → (parse_registry_dir_name parses dir_name ≡ some (name, version))
        ↔ IsSplit dir_name name version
  unfolding parse_registry_dir_name
  parse_registry_dir_name-IsSplit numbers_first no_empty dir_name name version = (
    split_below-IsSplit dir_name name version (length dir_name - 1),
    λ split. found dir_name name version numbers_first no_empty split,
  )
