-- ===== src/Order/Sort.antt =====
-- The stable sort of `slice::sort` and `sort_by_key`, and `Vec::dedup`.
use rust_mcp.Prelude.{
  ◌≡◌, refl, ◌∙◌, ◌⊎◌, inl, inr, Bool, false, ◌||◌, List, [], ◌∷◌, arith, if◌then◌else◌, Bool-cases,
  All, In, here, there, any, length, select,
}
use rust_mcp.Order.{Ord, asym, le_trans, less, same, greater, comparison}

module _ {ℓ κ} {A : Type ℓ} {K : Type κ} (o : Ord K) (key : A → K) where
  -- `x` goes in front of what is not smaller, so equal keys keep their places.
  unfoldable pub insert_by : A → List A → List A
  insert_by x [] = x ∷ []
  insert_by x (y ∷ ys) =
      let rest = insert_by x ys in if o.lt (key y) (key x) then y ∷ rest else x ∷ y ∷ ys

  unfoldable pub sort_by : List A → List A
  unfolding insert_by
  sort_by [] = []
  sort_by (x ∷ xs) = insert_by x (sort_by xs)

  -- No later element is smaller.
  abbrev pub IsSorted : List A → Type 0
  IsSorted [] = Unit
  IsSorted (x ∷ xs) = All (λ y. o.lt (key y) (key x) ≡ false) xs × IsSorted xs

  insert_by-All : (P : A → Type 0) (x : A) (ys : List A) → P x → All P ys → All P (insert_by x ys)
  unfolding insert_by
  insert_by-All P x [] h a = (h, tt)
  insert_by-All P x (y ∷ ys) h a = elim (Bool-cases (o.lt (key y) (key x))) [
    | inl e ↦ rw e (a.0, insert_by-All P x ys h a.1)
    | inr e ↦ rw e (h, a)
  ]

  pub sort_by-All : (P : A → Type 0) (xs : List A) → All P xs → All P (sort_by xs)
  unfolding sort_by
  sort_by-All P [] h = tt
  sort_by-All P (x ∷ xs) h = insert_by-All P x (sort_by xs) h.0 (sort_by-All P xs h.1)

  pub any-insert_by :
      (p : A → Bool) (x : A) (ys : List A) → any p (insert_by x ys) ≡ (p x || any p ys)
  unfolding insert_by
  any-insert_by p x [] = refl
  any-insert_by p x (y ∷ ys) = ground (arith, any-insert_by p x ys)

  pub any-sort_by : (p : A → Bool) (xs : List A) → any p (sort_by xs) ≡ any p xs
  unfolding sort_by
  any-sort_by p [] = refl
  any-sort_by p (x ∷ xs) = ground (arith, any-insert_by p x (sort_by xs), any-sort_by p xs)

  In-front : {a x : A} {ys : List A} → In a (x ∷ ys) → (a ≡ x) ⊎ In a ys
  In-front (here e) = inl e
  In-front (there i) = inr i

  In-behind :
      {a x : A} (y : A) (ys : List A) {zs : List A}
      → (In a zs → (a ≡ x) ⊎ In a ys)
      → In a (y ∷ zs)
      → (a ≡ x) ⊎ In a (y ∷ ys)
  In-behind y ys f (here e) = inr (here e)
  In-behind y ys f (there i) = elim (f i) [ inl e ↦ inl e | inr j ↦ inr (there j) ]

  pub In-insert_by : {a x : A} (ys : List A) → In a (insert_by x ys) → (a ≡ x) ⊎ In a ys
  unfolding insert_by
  In-insert_by [] (here e) = inl e
  In-insert_by [] (there i) = elim i [ ]
  In-insert_by {a} {x} (y ∷ ys) h = elim (Bool-cases (o.lt (key y) (key x))) [
    | inl e ↦ In-behind y ys (In-insert_by ys) (rw e at h)
    | inr e ↦ In-front (rw e at h)
  ]

  pub In-sort_by : {a : A} (xs : List A) → In a (sort_by xs) → In a xs
  unfolding sort_by
  In-sort_by [] h = h
  In-sort_by (x ∷ xs) h = elim (In-insert_by (sort_by xs) h) [
    | inl e ↦ here e
    | inr i ↦ there (In-sort_by xs i)
  ]

  front-In : {a x : A} {ys : List A} → (a ≡ x) ⊎ In a ys → In a (x ∷ ys)
  front-In (inl e) = here e
  front-In (inr i) = there i

  behind-In :
      {a x : A} (y : A) (ys : List A) {zs : List A}
      → ((a ≡ x) ⊎ In a ys → In a zs)
      → (a ≡ x) ⊎ In a (y ∷ ys)
      → In a (y ∷ zs)
  behind-In y ys f (inl e) = there (f (inl e))
  behind-In y ys f (inr (here e)) = here e
  behind-In y ys f (inr (there i)) = there (f (inr i))

  insert_by-In : {a x : A} (ys : List A) → (a ≡ x) ⊎ In a ys → In a (insert_by x ys)
  unfolding insert_by
  insert_by-In [] (inl e) = here e
  insert_by-In [] (inr i) = elim i [ ]
  insert_by-In {a} {x} (y ∷ ys) h = elim (Bool-cases (o.lt (key y) (key x))) [
    | inl e ↦ rw e (behind-In y ys (insert_by-In ys) h)
    | inr e ↦ rw e (front-In h)
  ]

  pub sort_by-In : {a : A} (xs : List A) → In a xs → In a (sort_by xs)
  unfolding sort_by
  sort_by-In [] h = h
  sort_by-In (x ∷ xs) (here e) = insert_by-In (sort_by xs) (inl e)
  sort_by-In (x ∷ xs) (there i) = insert_by-In (sort_by xs) (inr (sort_by-In xs i))

  not_below :
      (x y : A) (ys : List A)
      → o.lt (key y) (key x) ≡ false
      → All (λ z. o.lt (key z) (key y) ≡ false) ys
      → All (λ z. o.lt (key z) (key x) ≡ false) ys
  not_below x y [] e h = tt
  not_below x y (z ∷ ys) e h = (le_trans o (key x) (key y) (key z) e h.0, not_below x y ys e h.1)

  insert_by-IsSorted : (x : A) (ys : List A) → IsSorted ys → IsSorted (insert_by x ys)
  unfolding insert_by
  insert_by-IsSorted x [] h = (tt, tt)
  insert_by-IsSorted x (y ∷ ys) h = elim (Bool-cases (o.lt (key y) (key x))) [
    | inl e ↦ rw e (
      insert_by-All (λ z. o.lt (key z) (key y) ≡ false) x ys (asym o (key y) (key x) e) h.0,
      insert_by-IsSorted x ys h.1,
    )
    | inr e ↦ rw e ((e, not_below x y ys e h.0), h)
  ]

  pub sort_by-IsSorted : (xs : List A) → IsSorted (sort_by xs)
  unfolding sort_by
  sort_by-IsSorted [] = tt
  sort_by-IsSorted (x ∷ xs) = insert_by-IsSorted x (sort_by xs) (sort_by-IsSorted xs)

  insert_by_least :
      (x : A) (ys : List A) → All (λ y. o.lt (key y) (key x) ≡ false) ys → insert_by x ys ≡ x ∷ ys
  unfolding insert_by
  insert_by_least x [] h = refl
  insert_by_least x (y ∷ ys) h = rw (h.0)

  -- What is sorted stays as it is.
  pub sort_by_sorted : (xs : List A) → IsSorted xs → sort_by xs ≡ xs
  unfolding sort_by
  sort_by_sorted [] h = refl
  sort_by_sorted (x ∷ xs) h = rw (sort_by_sorted xs h.1) (insert_by_least x xs h.0)

  length-select-insert_by :
      (p : A → Bool) (x : A) (ys : List A)
      → length (select p (insert_by x ys)) ≡ length (select p (x ∷ ys))
  unfolding insert_by
  length-select-insert_by p x [] = refl
  length-select-insert_by p x (y ∷ ys) = ground (arith, length-select-insert_by p x ys)

  pub length-select-sort_by :
      (p : A → Bool) (xs : List A) → length (select p (sort_by xs)) ≡ length (select p xs)
  unfolding sort_by
  length-select-sort_by p [] = refl
  length-select-sort_by p (x ∷ xs) =
      ground (arith, length-select-insert_by p x (sort_by xs), length-select-sort_by p xs)

-- `Vec::dedup`: of equal neighbours the first is kept.
module _ {ℓ} {A : Type ℓ} (o : Ord A) where
  unfoldable pub dedup : List A → List A
  dedup [] = []
  dedup (x ∷ []) = x ∷ []
  dedup (x ∷ y ∷ xs) = let rest = dedup (y ∷ xs) in if o.lt x y || o.lt y x then x ∷ rest else rest

-- `dedup` keeps the elements.
module _ {A : Type 0} (o : Ord A) {x : A} where
  in_front : (a : A) (xs ys : List A) → (In x xs → In x ys) → In x (a ∷ xs) → In x (a ∷ ys)
  in_front a xs ys f (here e) = here e
  in_front a xs ys f (there m) = there (f m)

  pub In-dedup : (xs : List A) → In x (dedup o xs) → In x xs
  unfolding dedup
  In-dedup [] m = m
  In-dedup (a ∷ []) m = m
  In-dedup (a ∷ b ∷ xs) m = elim (comparison o a b) [
    | less l g ↦ in_front a (dedup o (b ∷ xs)) (b ∷ xs) (In-dedup (b ∷ xs)) (rw l at m)
    | same e l g ↦ there (In-dedup (b ∷ xs) (rw (l, g) at m))
    | greater l g ↦ in_front a (dedup o (b ∷ xs)) (b ∷ xs) (In-dedup (b ∷ xs)) (rw (l, g) at m)
  ]

  drop_front : (a b : A) (xs : List A) → a ≡ b → In x (a ∷ b ∷ xs) → In x (b ∷ xs)
  drop_front a b xs e (here p) = here (p ∙ e)
  drop_front a b xs e (there m) = m

  pub dedup-In : (xs : List A) → In x xs → In x (dedup o xs)
  unfolding dedup
  dedup-In [] m = m
  dedup-In (a ∷ []) m = m
  dedup-In (a ∷ b ∷ xs) m = elim (comparison o a b) [
    | less l g ↦ rw l (in_front a (b ∷ xs) (dedup o (b ∷ xs)) (dedup-In (b ∷ xs)) m)
    | same e l g ↦ rw (l, g) (dedup-In (b ∷ xs) (drop_front a b xs e m))
    | greater l g ↦ rw (l, g) (in_front a (b ∷ xs) (dedup o (b ∷ xs)) (dedup-In (b ∷ xs)) m)
  ]
