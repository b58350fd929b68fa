-- ===== src/Graph/Cycles/Promises.antt =====
-- What a visit of the depth-first search promises, and the loop over the neighbours of a node.
use rust_mcp.Prelude.{
  ℕ, ◌<◌, ◌≡◌, refl, sym, subst, ◌⊎◌, inl, inr, List, [], ◌∷◌, In, here, there, arith, All,
}
use rust_mcp.Text.{Text}
use rust_mcp.Graph.Cycles.{
  white, gray, black, Colors, Outcome, cycle, clear, out_of_fuel, proceed, meet, visit_each,
}
use rust_mcp.Graph.Walks.{Walk, step, more}
use rust_mcp.Graph.Cycles.Colors.{
  whites, whites_mono, Extends, Extends-refl, Extends-trans, Color-cases,
}

module _ (next : Text → List Text) where
  -- Black nodes lead to black nodes only, and lie on no cycle.
  pub record IsSettled (c : Colors) : Type 0 where
    pub closed : (n m : Text) → c n ≡ black → In m (next n) → c m ≡ black
    pub acyclic : (n : Text) → c n ≡ black → ¬ Walk next n n

  -- The nodes that a walk from a black node meets are black.
  Walk-black : (c : Colors) → IsSettled c → {n m : Text} → c n ≡ black → Walk next n m → c m ≡ black
  Walk-black c settled {n} {m} h (step i) = settled.closed n m h i
  Walk-black c settled {n} {m} h (more {b} w i) = settled.closed b m (Walk-black c settled h w) i

  -- Of what an outcome promises: a cycle that is there, or colours that extend those before.
  abbrev pub Promises : Colors → (Colors → Type 0) → Outcome → Type 0
  Promises c P cycle = (n : Text) × Walk next n n
  Promises c P (clear d) = IsSettled d × Extends c d × P d
  Promises c P out_of_fuel = ⊥

  -- Every grey node leads to the node.
  abbrev pub Leads : Colors → Text → Type 0
  Leads c node = (n : Text) → c n ≡ gray → Walk next n node

  -- What visiting a white node promises.
  abbrev pub Visits : (Text → Colors → Outcome) → List Text → ℕ → Type 0
  Visits go nodes bound =
      (node : Text) (c : Colors)
      → In node nodes
      → IsSettled c
      → c node ≡ white
      → Leads c node
      → whites nodes c < bound
      → Promises c (λ d. d node ≡ black) (go node c)

  pub Promises-extend :
      (c d : Colors) (P Q : Colors → Type 0) (o : Outcome)
      → Extends c d
      → ((e : Colors) → Extends d e → P e → Q e)
      → Promises d P o
      → Promises c Q o
  Promises-extend c d P Q cycle x k h = h
  Promises-extend c d P Q (clear e) x k h = (h.0, Extends-trans c d e x h.1, k e h.1 h.2)
  Promises-extend c d P Q out_of_fuel x k h = h

  pub proceed-Promises :
      (c : Colors) (P Q : Colors → Type 0) (o : Outcome) (f : Colors → Outcome)
      → Promises c P o
      → ((d : Colors) → IsSettled d → Extends c d → P d → Promises c Q (f d))
      → Promises c Q (proceed o f)
  proceed-Promises c P Q cycle f h k = h
  proceed-Promises c P Q (clear d) f h k = k d h.0 h.1 h.2
  proceed-Promises c P Q out_of_fuel f h k = h

  -- Every grey node is the parent, or leads to it.
  abbrev LeadsToParent : Colors → Text → Type 0
  LeadsToParent c parent = (n : Text) → c n ≡ gray → n ≡ parent ⊎ Walk next n parent

  abbrev pub AllBlack : List Text → Colors → Type 0
  AllBlack ns d = All (λ n. d n ≡ black) ns

  grey_cycle :
      (parent n : Text)
      → In n (next parent)
      → n ≡ parent ⊎ Walk next n parent
      → (a : Text) × Walk next a a
  grey_cycle parent n i (inl e) = (parent, step (subst (λ t. In t (next parent)) e i))
  grey_cycle parent n i (inr w) = (n, more w i)

  onward :
      (parent n m : Text) → In n (next parent) → m ≡ parent ⊎ Walk next m parent → Walk next m n
  onward parent n m i (inl e) = step (subst (λ t. In n (next t)) (sym e) i)
  onward parent n m i (inr w) = more w i

  pub visit_each-Promises :
      (go : Text → Colors → Outcome) (nodes : List Text) (bound : ℕ)
      → Visits go nodes bound
      → (parent : Text) (ns : List Text) (c : Colors)
      → ((n : Text) → In n ns → In n (next parent) × In n nodes)
      → IsSettled c
      → LeadsToParent c parent
      → whites nodes c < bound
      → Promises c (AllBlack ns) (visit_each go ns c)
  unfolding visit_each meet
  visit_each-Promises go nodes bound visits parent [] c inside settled leads few =
      (settled, Extends-refl c, tt)
  visit_each-Promises go nodes bound visits parent (n ∷ ns) c inside settled leads few =
      let rest : (d : Colors)
          → IsSettled d
          → Extends c d
          → d n ≡ black
          → Promises c (AllBlack (n ∷ ns)) (visit_each go ns d) =
        λ d settled' x now.
          Promises-extend c d (AllBlack ns) (AllBlack (n ∷ ns)) (visit_each go ns d) x
            (λ e y all. (y.black_new n now, all))
            (visit_each-Promises go nodes bound visits parent ns d (λ m i. inside m (there i))
              settled' (λ m grey. leads m (x.grey_old m grey))
              (omega (arith, whites_mono nodes c d x))) in
      elim (Color-cases (c n)) [
        | inl is_white ↦ rw is_white (
            proceed-Promises c (λ d. d n ≡ black) (AllBlack (n ∷ ns)) (go n c) _
              (visits n c (inside n (here refl)).1 settled is_white
                (λ m grey. onward parent n m (inside n (here refl)).0 (leads m grey)) few)
              rest)
        | inr (inl is_gray) ↦
            rw is_gray (grey_cycle parent n (inside n (here refl)).0 (leads n is_gray))
        | inr (inr is_black) ↦ rw is_black (rest c settled (Extends-refl c) is_black)
      ]
