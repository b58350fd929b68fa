-- ===== src/Prelude/Lists.antt =====
-- Lists measured and cut by native numbers, and Boolean searches, under the library's names.
use Prim.Native.Nat.{ℕ, zero, suc, ◌+◌, ◌-◌, ◌≤◌, min}
use Prim.Native.Nat.add
use mathlib.Core.Path.{◌≡◌, refl, ap, sym, subst}
use mathlib.Core.Bool.{Bool, true, false, ◌&&◌, ◌||◌}
use mathlib.Core.List.{List, [], ◌∷◌, ◌++◌}
use native.Mathlib.Omega.{arith}
use rust_mcp.Prelude.Tests.{if◌then◌else◌, Bool-cases}
use mathlib.Core.Logic.{◌⊎◌, inl, inr}

module _ {ℓ} {A : Type ℓ} where
  abbrev pub length : List A → ℕ
  length [] = 0
  length (x ∷ xs) = suc (length xs)

  abbrev pub take : ℕ → List A → List A
  take zero xs = []
  take (suc n) [] = []
  take (suc n) (x ∷ xs) = x ∷ take n xs

  abbrev pub drop : ℕ → List A → List A
  drop zero xs = xs
  drop (suc n) [] = []
  drop (suc n) (x ∷ xs) = drop n xs

  abbrev pub any : (A → Bool) → List A → Bool
  any p [] = false
  any p (x ∷ xs) = p x || any p xs

  abbrev pub all : (A → Bool) → List A → Bool
  all p [] = true
  all p (x ∷ xs) = p x && all p xs

  abbrev pub select : (A → Bool) → List A → List A
  select p [] = []
  select p (x ∷ xs) = let rest = select p xs in if p x then x ∷ rest else rest

  abbrev pub is_empty : List A → Bool
  is_empty [] = true
  is_empty (x ∷ xs) = false

  -- A predicate on every element, by recursion.
  abbrev pub All {κ} : (A → Type κ) → List A → Type κ
  All P [] = Unit
  All P (x ∷ xs) = P x × All P xs

  -- Membership with its position.
  pub data In (a : A) : List A → Type ℓ where
    here : {x : A} {xs : List A} → a ≡ x → In a (x ∷ xs)
    there : {x : A} {xs : List A} → In a xs → In a (x ∷ xs)

  kept :
      {a : A} (p : A → Bool) (x : A) (xs : List A)
      → p x ≡ true
      → (In a (select p xs) → In a xs × (p a ≡ true))
      → In a (x ∷ select p xs)
      → In a (x ∷ xs) × (p a ≡ true)
  kept p x xs e f (here q) = (here q, rw q e)
  kept p x xs e f (there m) = let (i, q) = f m in (there i, q)

  pub length-append : (xs ys : List A) → length (xs ++ ys) ≡ length xs + length ys
  length-append [] ys = omega arith
  length-append (x ∷ xs) ys = omega (arith, length-append xs ys)

  drop-nil : (n : ℕ) → drop n [] ≡ []
  drop-nil zero = refl
  drop-nil (suc n) = refl

  pub take-append-drop : (n : ℕ) (xs : List A) → take n xs ++ drop n xs ≡ xs
  take-append-drop zero xs = refl
  take-append-drop (suc n) [] = refl
  take-append-drop (suc n) (x ∷ xs) = ap (λ l. x ∷ l) (take-append-drop n xs)

  pub length-take : (n : ℕ) (xs : List A) → length (take n xs) ≡ min n (length xs)
  length-take zero xs = omega arith
  length-take (suc n) [] = omega arith
  length-take (suc n) (x ∷ xs) = omega (arith, length-take n xs)

  pub length-drop : (n : ℕ) (xs : List A) → length (drop n xs) ≡ length xs - n
  length-drop zero xs = omega arith
  length-drop (suc n) [] = omega arith
  length-drop (suc n) (x ∷ xs) = omega (arith, length-drop n xs)

  -- A list is cut to itself by its own length or more.
  pub take_all : (n : ℕ) (xs : List A) → length xs ≤ n → take n xs ≡ xs
  take_all zero [] h = refl
  take_all zero (x ∷ xs) h = absurd (omega arith)
  take_all (suc n) [] h = refl
  take_all (suc n) (x ∷ xs) h = ap (λ l. x ∷ l) (take_all n xs (omega arith))

  pub take-take : (n m : ℕ) (xs : List A) → n ≤ m → take n (take m xs) ≡ take n xs
  take-take zero m xs h = refl
  take-take (suc n) zero xs h = absurd (omega arith)
  take-take (suc n) (suc m) [] h = refl
  take-take (suc n) (suc m) (x ∷ xs) h = ap (λ l. x ∷ l) (take-take n m xs (omega arith))

  pub drop-drop : (n m : ℕ) (xs : List A) → drop n (drop m xs) ≡ drop (m + n) xs
  drop-drop n zero xs = rw add.zero
  drop-drop n (suc m) [] = rw add.suc (drop-nil n)
  drop-drop n (suc m) (x ∷ xs) = rw add.suc (drop-drop n m xs)

  pub In-append : {a : A} (xs ys : List A) → In a (xs ++ ys) → In a xs ⊎ In a ys
  In-append [] ys i = inr i
  In-append (x ∷ xs) ys (here e) = inl (here e)
  In-append (x ∷ xs) ys (there i) = elim (In-append xs ys i) [
    | inl l ↦ inl (there l)
    | inr r ↦ inr r
  ]

  pub append_left-In : {a : A} (xs ys : List A) → In a xs → In a (xs ++ ys)
  append_left-In [] ys i = elim i [ ]
  append_left-In (x ∷ xs) ys (here e) = here e
  append_left-In (x ∷ xs) ys (there i) = there (append_left-In xs ys i)

  pub append_right-In : {a : A} (xs ys : List A) → In a ys → In a (xs ++ ys)
  append_right-In [] ys i = i
  append_right-In (x ∷ xs) ys i = there (append_right-In xs ys i)

  pub In-select : {a : A} (p : A → Bool) (xs : List A) → In a (select p xs) → In a xs × (p a ≡ true)
  In-select p [] m = elim m [ ]
  In-select p (x ∷ xs) m = elim (Bool-cases (p x)) [
    | inl e ↦ kept p x xs e (In-select p xs) (rw e at m)
    | inr e ↦ let (i, q) = In-select p xs (rw e at m) in (there i, q)
  ]

  pub select-In : {a : A} (p : A → Bool) (xs : List A) → In a xs → p a ≡ true → In a (select p xs)
  select-In p [] m q = elim m [ ]
  select-In {a} p (x ∷ xs) (here e) q = rw (rw e at q) (here e)
  select-In {a} p (x ∷ xs) (there m) q = elim (Bool-cases (p x)) [
    | inl e ↦ rw e (there (select-In p xs m q))
    | inr e ↦ rw e (select-In p xs m q)
  ]

  pub All-In {κ} : (P : A → Type κ) {a : A} (xs : List A) → All P xs → In a xs → P a
  All-In P [] h m = elim m [ ]
  All-In P (x ∷ xs) h (here e) = subst P (sym e) h.0
  All-In P (x ∷ xs) h (there m) = All-In P xs h.1 m

  pub In-All {κ} : (P : A → Type κ) (xs : List A) → ((a : A) → In a xs → P a) → All P xs
  In-All P [] h = tt
  In-All P (x ∷ xs) h = (h x (here refl), In-All P xs (λ a m. h a (there m)))

  pub All-mono {κ μ} :
      (P : A → Type κ) (Q : A → Type μ) (xs : List A) → ((a : A) → P a → Q a) → All P xs → All Q xs
  All-mono P Q [] f h = tt
  All-mono P Q (x ∷ xs) f h = (f x h.0, All-mono P Q xs f h.1)

  pub length-select_none :
      (p : A → Bool) (xs : List A) → All (λ a. p a ≡ false) xs → length (select p xs) ≡ 0
  length-select_none p [] h = refl
  length-select_none p (x ∷ xs) h = rw h.0 (length-select_none p xs h.1)
