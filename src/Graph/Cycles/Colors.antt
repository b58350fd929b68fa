-- ===== src/Graph/Cycles/Colors.antt =====
-- The colours of the depth-first search: how many nodes are white, and what a later colouring keeps.
use rust_mcp.Prelude.{
  ℕ, ◌+◌, ◌≤◌, ◌<◌, ◌≡◌, ◌≢◌, refl, subst, ◌⊎◌, inl, inr, List, [], ◌∷◌, In, here, there, arith,
}
use rust_mcp.Text.{Text, eq-text_eq}
use rust_mcp.Graph.Cycles.{Color, white, gray, black, Colors, painted}

abbrev pub whiteness : Color → ℕ
whiteness white = 1
whiteness gray = 0
whiteness black = 0

-- How many of the nodes are white.
abbrev pub whites : List Text → Colors → ℕ
whites [] c = 0
whites (n ∷ ns) c = whiteness (c n) + whites ns c

-- Grey stays as it was, and black stays black.
pub record Extends (c d : Colors) : Type 0 where
  pub grey_old : (n : Text) → d n ≡ gray → c n ≡ gray
  pub grey_new : (n : Text) → c n ≡ gray → d n ≡ gray
  pub black_new : (n : Text) → c n ≡ black → d n ≡ black

pub Extends-refl : (c : Colors) → Extends c c
Extends-refl c = record { grey_old = λ n h. h; grey_new = λ n h. h; black_new = λ n h. h }

pub Extends-trans : (a b c : Colors) → Extends a b → Extends b c → Extends a c
Extends-trans a b c p q = record {
  grey_old = λ n h. p.grey_old n (q.grey_old n h);
  grey_new = λ n h. q.grey_new n (p.grey_new n h);
  black_new = λ n h. q.black_new n (p.black_new n h);
}

whiteness-le :
    (x y : Color) → (x ≡ gray → y ≡ gray) → (x ≡ black → y ≡ black) → whiteness y ≤ whiteness x
whiteness-le white y g b = ground arith
whiteness-le gray y g b = rw (g refl) (omega arith)
whiteness-le black y g b = rw (b refl) (omega arith)

pub whites_mono : (ns : List Text) (c d : Colors) → Extends c d → whites ns d ≤ whites ns c
whites_mono [] c d h = omega arith
whites_mono (n ∷ ns) c d h =
    omega (arith, whiteness-le (c n) (d n) (h.grey_new n) (h.black_new n), whites_mono ns c d h)

whiteness-painted : (n m : Text) (c : Colors) → whiteness (painted n gray c m) ≤ whiteness (c m)
whiteness-painted n m c = ground arith

whites-painted_le :
    (ns : List Text) (n : Text) (c : Colors) → whites ns (painted n gray c) ≤ whites ns c
whites-painted_le [] n c = omega arith
whites-painted_le (m ∷ ns) n c = omega (arith, whiteness-painted n m c, whites-painted_le ns n c)

-- To paint a white node of the list grey lowers the count.
pub whites-painted :
    (ns : List Text) (n : Text) (c : Colors)
    → In n ns
    → c n ≡ white
    → whites ns (painted n gray c) < whites ns c
whites-painted [] n c i h = elim i [ ]
whites-painted (m ∷ ns) n c (here e) h =
    let grey : painted n gray c m ≡ gray = rw (eq-text_eq n m e) in
    let old : c m ≡ white = subst (λ x. c x ≡ white) e h in
    rw (grey, old) (omega (arith, whites-painted_le ns n c))
whites-painted (m ∷ ns) n c (there i) h =
    omega (arith, whiteness-painted n m c, whites-painted ns n c i h)

pub white-ne-black : ◌≢◌ {A = Color} white black
white-ne-black e = cc

pub white-ne-gray : ◌≢◌ {A = Color} white gray
white-ne-gray e = cc

pub gray-ne-black : ◌≢◌ {A = Color} gray black
gray-ne-black e = cc

pub Color-cases : (c : Color) → c ≡ white ⊎ (c ≡ gray ⊎ c ≡ black)
Color-cases white = inl refl
Color-cases gray = inr (inl refl)
Color-cases black = inr (inr refl)
