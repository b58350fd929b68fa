-- ===== src/Order.antt =====
-- Total orders as Rust's `Ord`, with the orders of numbers, texts, options and pairs, and the stable
-- sort of `slice::sort_by`.
pub mod Sort
use rust_mcp.Prelude.{
  ℕ, ◌≡◌, refl, ap, ap₂, sym, ◌⊎◌, inl, inr, Bool, true, false, not, ◌&&◌, ◌||◌, List, [], ◌∷◌,
  Option, none, some, arith, ltb, ◌==◌, if◌then◌else◌, Bool-cases,
}
use rust_mcp.Text.{Text}

pub record Ord {ℓ} (A : Type ℓ) : Type ℓ where
  pub lt : A → A → Bool
  pub irrefl : (a : A) → lt a a ≡ false
  pub trans : (a b c : A) → lt a b ≡ true → lt b c ≡ true → lt a c ≡ true
  pub connected : (a b : A) → lt a b ≡ false → lt b a ≡ false → a ≡ b

pub data Comparison {ℓ} {A : Type ℓ} (o : Ord A) (a b : A) : Type ℓ where
  less : o.lt a b ≡ true → o.lt b a ≡ false → Comparison o a b
  same : a ≡ b → o.lt a b ≡ false → o.lt b a ≡ false → Comparison o a b
  greater : o.lt a b ≡ false → o.lt b a ≡ true → Comparison o a b

module _ {ℓ} {A : Type ℓ} (o : Ord A) where
  pub asym : (a b : A) → o.lt a b ≡ true → o.lt b a ≡ false
  asym a b h = elim (Bool-cases (o.lt b a)) [
    | inl k ↦ ground (arith, o.irrefl a, o.trans a b a)
    | inr k ↦ k
  ]

  pub comparison : (a b : A) → Comparison o a b
  comparison a b = elim (Bool-cases (o.lt a b)) [
    | inl h ↦ less h (asym a b h)
    | inr h ↦ elim (Bool-cases (o.lt b a)) [
      | inl k ↦ greater h k
      | inr k ↦ same (o.connected a b h k) h k
    ]
  ]

  -- What is at most `a` is below all that `a` is below.
  pub le-lt : (a b c : A) → o.lt b a ≡ false → o.lt b c ≡ true → o.lt a c ≡ true
  le-lt a b c h k = elim (comparison a b) [
    | less l _ ↦ o.trans a b c l k
    | same e _ _ ↦ rw e k
    | greater _ g ↦ cc
  ]

  pub lt-le : (a b c : A) → o.lt a b ≡ true → o.lt c b ≡ false → o.lt a c ≡ true
  lt-le a b c h k = elim (comparison b c) [
    | less l _ ↦ o.trans a b c h l
    | same e _ _ ↦ rw (← e) h
    | greater _ g ↦ cc
  ]

  pub le_trans : (a b c : A) → o.lt b a ≡ false → o.lt c b ≡ false → o.lt c a ≡ false
  le_trans a b c h k = elim (Bool-cases (o.lt c a)) [
    | inl l ↦ ground (arith, lt-le c a b l h)
    | inr g ↦ g
  ]

unfoldable pub text_lt : Text → Text → Bool
text_lt [] [] = false
text_lt [] (d ∷ t) = true
text_lt (c ∷ s) [] = false
text_lt (c ∷ s) (d ∷ t) = ltb c d || (c == d && text_lt s t)

pub text_lt_irrefl : (s : Text) → text_lt s s ≡ false
unfolding text_lt
text_lt_irrefl [] = refl
text_lt_irrefl (c ∷ s) = ground (arith, text_lt_irrefl s)

pub text_lt_trans : (s t u : Text) → text_lt s t ≡ true → text_lt t u ≡ true → text_lt s u ≡ true
unfolding text_lt
text_lt_trans [] [] u h k = cc
text_lt_trans [] (d ∷ t) [] h k = cc
text_lt_trans [] (d ∷ t) (e ∷ u) h k = refl
text_lt_trans (c ∷ s) [] u h k = cc
text_lt_trans (c ∷ s) (d ∷ t) [] h k = cc
text_lt_trans (c ∷ s) (d ∷ t) (e ∷ u) h k = ground (arith, text_lt_trans s t u)

pub text_lt_connected : (s t : Text) → text_lt s t ≡ false → text_lt t s ≡ false → s ≡ t
unfolding text_lt
text_lt_connected [] [] h k = refl
text_lt_connected [] (d ∷ t) h k = cc
text_lt_connected (c ∷ s) [] h k = cc
text_lt_connected (c ∷ s) (d ∷ t) h k = ground (arith, text_lt_connected s t)

-- `str::cmp` on code points, which is the order of the UTF-8 bytes.
abbrev pub text_ord : Ord Text
text_ord = record {
  lt = text_lt;
  irrefl = text_lt_irrefl;
  trans = text_lt_trans;
  connected = text_lt_connected;
}

-- Pairs are compared by the first part, then by the second.
module _ {ℓ κ} {A : Type ℓ} {B : Type κ} (o : Ord A) (p : Ord B) where
  unfoldable pub pair_lt : A × B → A × B → Bool
  pair_lt x y = o.lt x.0 y.0 || (not (o.lt y.0 x.0) && p.lt x.1 y.1)

  pub pair_lt_irrefl : (x : A × B) → pair_lt x x ≡ false
  unfolding pair_lt
  pair_lt_irrefl x = ground (arith, o.irrefl x.0, p.irrefl x.1)

  pub pair_lt_connected : (x y : A × B) → pair_lt x y ≡ false → pair_lt y x ≡ false → x ≡ y
  unfolding pair_lt
  pair_lt_connected (a, b) (c, d) h k =
      ground (arith, o.connected a c, p.connected b d, asym o a c, asym o c a)

  pub pair_lt_trans : (x y z : A × B) → pair_lt x y ≡ true → pair_lt y z ≡ true → pair_lt x z ≡ true
  unfolding pair_lt
  pair_lt_trans (a, b) (c, d) (e, f) h k = ground (
    arith,
    o.trans a c e,
    p.trans b d f,
    le-lt o a c e,
    lt-le o a c e,
    asym o a c,
    asym o c e,
    o.connected a c,
    o.connected c e,
    o.connected a e,
    asym o a e,
    o.irrefl a,
  )

  abbrev pub pair_ord : Ord (A × B)
  pair_ord = record {
    lt = pair_lt;
    irrefl = pair_lt_irrefl;
    trans = pair_lt_trans;
    connected = pair_lt_connected;
  }

-- `none` is below every `some`.
module _ {ℓ} {A : Type ℓ} (o : Ord A) where
  unfoldable pub option_lt : Option A → Option A → Bool
  option_lt none none = false
  option_lt none (some b) = true
  option_lt (some a) none = false
  option_lt (some a) (some b) = o.lt a b

  pub option_lt_irrefl : (a : Option A) → option_lt a a ≡ false
  unfolding option_lt
  option_lt_irrefl none = refl
  option_lt_irrefl (some a) = o.irrefl a

  pub option_lt_trans :
      (a b c : Option A) → option_lt a b ≡ true → option_lt b c ≡ true → option_lt a c ≡ true
  unfolding option_lt
  option_lt_trans none none c h k = cc
  option_lt_trans none (some b) none h k = cc
  option_lt_trans none (some b) (some c) h k = refl
  option_lt_trans (some a) none c h k = cc
  option_lt_trans (some a) (some b) none h k = cc
  option_lt_trans (some a) (some b) (some c) h k = o.trans a b c h k

  pub option_lt_connected : (a b : Option A) → option_lt a b ≡ false → option_lt b a ≡ false → a ≡ b
  unfolding option_lt
  option_lt_connected none none h k = refl
  option_lt_connected none (some b) h k = cc
  option_lt_connected (some a) none h k = cc
  option_lt_connected (some a) (some b) h k = ap some (o.connected a b h k)

  abbrev pub option_ord : Ord (Option A)
  option_ord = record {
    lt = option_lt;
    irrefl = option_lt_irrefl;
    trans = option_lt_trans;
    connected = option_lt_connected;
  }

pub nat_lt_trans : (a b c : ℕ) → ltb a b ≡ true → ltb b c ≡ true → ltb a c ≡ true
nat_lt_trans a b c h k = ground arith

pub nat_lt_connected : (a b : ℕ) → ltb a b ≡ false → ltb b a ≡ false → a ≡ b
nat_lt_connected a b h k = ground arith

pub nat_lt_irrefl : (a : ℕ) → ltb a a ≡ false
nat_lt_irrefl a = ground arith

abbrev pub nat_ord : Ord ℕ
nat_ord = record {
  lt = ltb;
  irrefl = nat_lt_irrefl;
  trans = nat_lt_trans;
  connected = nat_lt_connected;
}
