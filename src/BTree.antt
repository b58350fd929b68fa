-- ===== src/BTree.antt =====
-- `BTreeMap` as an association list in the order of its keys.
use rust_mcp.Prelude.{
  ◌≡◌, ◌≢◌, ap, true, List, [], ◌∷◌, Option, none, some, arith, if◌then◌else◌, All, In, here, there,
  All-In, sym, ◌∙◌,
}
use rust_mcp.Order.{Ord, less, same, greater, comparison, asym}

module _ {ℓ κ} {K : Type ℓ} {V : Type κ} (o : Ord K) where
  unfoldable pub get : K → List (K × V) → Option V
  get k [] = none
  get k ((j, v) ∷ m) =
      let rest = get k m in if o.lt k j then none else if o.lt j k then rest else some v

  -- The entry of `k` is given anew from what it was: `insert`, `or_insert` and `or_default` in one.
  unfoldable pub alter : K → (Option V → V) → List (K × V) → List (K × V)
  alter k f [] = (k, f none) ∷ []
  alter k f ((j, v) ∷ m) =
      let rest = alter k f m in
      if o.lt k j
      then (k, f none) ∷ (j, v) ∷ m
      else if o.lt j k
      then (j, v) ∷ rest
      else (j, f (some v)) ∷ m

  unfoldable pub insert : K → V → List (K × V) → List (K × V)
  unfolding alter
  insert k v m = alter k (λ _. v) m

  abbrev pub IsAbove : K → List (K × V) → Type 0
  IsAbove k m = All (λ e. o.lt k e.0 ≡ true) m

  -- The keys ascend strictly, so no key stands twice.
  abbrev pub IsAscending : List (K × V) → Type 0
  IsAscending [] = Unit
  IsAscending ((k, v) ∷ m) = IsAbove k m × IsAscending m

  pub get-alter_self :
      (k : K) (f : Option V → V) (m : List (K × V)) → get k (alter k f m) ≡ some (f (get k m))
  unfolding get alter
  get-alter_self k f [] = ground (arith, o.irrefl k)
  get-alter_self k f ((j, v) ∷ m) = ground (arith, o.irrefl k, get-alter_self k f m)

  pub get-alter_ne :
      (i k : K) (f : Option V → V) (m : List (K × V)) → i ≢ k → get i (alter k f m) ≡ get i m
  unfolding get alter
  get-alter_ne i k f [] n = elim (comparison o i k) [
    | less l g ↦ rw l
    | same e _ _ ↦ absurd (n e)
    | greater l g ↦ rw (l, g)
  ]
  get-alter_ne i k f ((j, v) ∷ m) n = elim (comparison o i k) [
    | less l g ↦ ground (arith, get-alter_ne i k f m n, o.trans i k j, o.connected k j)
    | same e _ _ ↦ absurd (n e)
    | greater l g ↦
        ground (arith, get-alter_ne i k f m n, o.trans k i j, asym o k i, o.connected k j)
  ]

  pub IsAbove-trans : (i j : K) (m : List (K × V)) → o.lt i j ≡ true → IsAbove j m → IsAbove i m
  IsAbove-trans i j [] h a = tt
  IsAbove-trans i j (e ∷ m) h a = (o.trans i j e.0 h a.0, IsAbove-trans i j m h a.1)

  -- What holds of every entry still does, if it holds of the entry that is given anew.
  pub alter-All :
      (P : K × V → Type 0) (k : K) (f : Option V → V) (m : List (K × V))
      → P (k, f none)
      → ((v : V) → P (k, v) → P (k, f (some v)))
      → All P m
      → All P (alter k f m)
  unfolding alter
  alter-All P k f [] new old h = (new, tt)
  alter-All P k f ((j, v) ∷ m) new old h = elim (comparison o k j) [
    | less l g ↦ rw l (new, h)
    | same e l g ↦ rw (l, g) (rw e at (old v (rw (← e) at h.0)), h.1)
    | greater l g ↦ rw (l, g) (h.0, alter-All P k f m new old h.1)
  ]

  IsAbove-alter :
      (i k : K) (f : Option V → V) (m : List (K × V))
      → o.lt i k ≡ true
      → IsAbove i m
      → IsAbove i (alter k f m)
  unfolding alter
  IsAbove-alter i k f [] h a = (h, tt)
  IsAbove-alter i k f ((j, v) ∷ m) h a = elim (comparison o k j) [
    | less l g ↦ rw l (h, a)
    | same e l g ↦ rw (l, g) a
    | greater l g ↦ rw (l, g) (a.0, IsAbove-alter i k f m h a.1)
  ]

  pub alter-IsAscending :
      (k : K) (f : Option V → V) (m : List (K × V)) → IsAscending m → IsAscending (alter k f m)
  unfolding alter
  alter-IsAscending k f [] s = (tt, tt)
  alter-IsAscending k f ((j, v) ∷ m) s = elim (comparison o k j) [
    | less l g ↦ rw l ((l, IsAbove-trans k j m l s.0), s)
    | same e l g ↦ rw (l, g) s
    | greater l g ↦ rw (l, g) (IsAbove-alter j k f m g s.0, alter-IsAscending k f m s.1)
  ]

  pub In-get : {k : K} {v : V} (m : List (K × V)) → get k m ≡ some v → In (k, v) m
  unfolding get
  In-get [] h = cc
  In-get {k} {v} ((j, w) ∷ m) h = elim (comparison o k j) [
    | less l g ↦ ground arith
    | same e l g ↦ here (ground arith)
    | greater l g ↦ there (In-get m (ground arith))
  ]

  pub get-In : {k : K} {v : V} (m : List (K × V)) → IsAscending m → In (k, v) m → get k m ≡ some v
  unfolding get
  get-In [] s i = elim i [ ]
  get-In {k} {v} ((j, w) ∷ m) s (here e) =
      ground (arith, o.irrefl k, ap (λ (x : K × V). x.0) e, ap (λ (x : K × V). x.1) e)
  get-In {k} {v} ((j, w) ∷ m) s (there i) =
      let above = All-In (λ (x : K × V). o.lt j x.0 ≡ true) m s.0 i in
      rw (above, asym o j k above) (get-In m s.1 i)

  pub In-alter :
      (i k : K) (f : Option V → V) (m : List (K × V)) {v : V}
      → IsAscending m
      → i ≢ k
      → In (i, v) (alter k f m)
      → In (i, v) m
  In-alter i k f m s n h =
      In-get m (sym (get-alter_ne i k f m n) ∙ get-In (alter k f m) (alter-IsAscending k f m s) h)
