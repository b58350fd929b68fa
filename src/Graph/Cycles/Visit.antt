-- ===== src/Graph/Cycles/Visit.antt =====
-- What one visit of the depth-first search, and its outer loop, do to the colours.
use rust_mcp.Prelude.{
  ℕ, zero, suc, ◌<◌, ◌≡◌, ◌≢◌, refl, sym, ap, subst, ◌∙◌, ◌⊎◌, inl, inr, List, [], ◌∷◌, In, here,
  there, arith, All-In, Bool-cases,
}
use rust_mcp.Text.{Text, text_eq, text_eq-eq, eq-text_eq, text_eq_refl}
use rust_mcp.Graph.Cycles.{
  white, gray, black, Colors, painted, Outcome, cycle, clear, out_of_fuel, finish_node, visit,
  start_at, visit_keys,
}
use rust_mcp.Graph.Walks.{Walk, step, more}
use rust_mcp.Graph.Cycles.Colors.{
  whites, whites_mono, whites-painted, Extends, Extends-refl, Color-cases, white-ne-black,
  white-ne-gray, gray-ne-black,
}
use rust_mcp.Graph.Cycles.Promises.{
  IsSettled, Promises, Visits, Promises-extend, proceed-Promises, AllBlack, visit_each-Promises,
}

module _ (next : Text → List Text) where
  -- To paint a node grey.
  module _ (node : Text) (c : Colors) (fresh : c node ≡ white) where
    painted-black : (n : Text) → painted node gray c n ≡ black → c n ≡ black
    painted-black n h = elim (Bool-cases (text_eq node n)) [
      | inl same ↦ cc (rw same at h)
      | inr other ↦ rw other at h
    ]

    painted-keeps : (n : Text) → c n ≢ white → painted node gray c n ≡ c n
    painted-keeps n h = elim (Bool-cases (text_eq node n)) [
      | inl same ↦ absurd (h (ap c (sym (text_eq-eq node n same)) ∙ fresh))
      | inr other ↦ rw other
    ]

    painted-grey : (n : Text) → painted node gray c n ≡ gray → n ≡ node ⊎ (c n ≡ gray)
    painted-grey n h = elim (Bool-cases (text_eq node n)) [
      | inl same ↦ inl (sym (text_eq-eq node n same))
      | inr other ↦ inr (rw other at h)
    ]

    painted-IsSettled : IsSettled next c → IsSettled next (painted node gray c)
    painted-IsSettled settled = record {
      closed = λ n m h i.
          let old = settled.closed n m (painted-black n h) i in
          painted-keeps m (λ w. white-ne-black (sym w ∙ old)) ∙ old;
      acyclic = λ n h. settled.acyclic n (painted-black n h);
    }

    -- What is left of a visit once the neighbours are black.
    module _ (d : Colors) (settled : IsSettled next d) (x : Extends (painted node gray c) d)
        (all : (m : Text) → In m (next node) → d m ≡ black) where
      now : Colors
      now = painted node black d

      grey_node : d node ≡ gray
      grey_node = x.grey_new node (rw text_eq_refl)

      black_node : now node ≡ black
      unfolding now
      black_node = rw text_eq_refl

      black_kept : (m : Text) → d m ≡ black → now m ≡ black
      unfolding now
      black_kept m h = ground arith

      Walk-out-black : {m : Text} → Walk next node m → d m ≡ black
      Walk-out-black {m} (step i) = all m i
      Walk-out-black {m} (more {b} w i) = settled.closed b m (Walk-out-black w) i

      now-cases : (n : Text) → n ≡ node ⊎ ((now n ≡ d n) × (n ≢ node))
      unfolding now
      now-cases n = elim (Bool-cases (text_eq node n)) [
        | inl same ↦ inl (sym (text_eq-eq node n same))
        | inr other ↦ inr (rw other refl, λ e. cc (sym other ∙ eq-text_eq node n (sym e)))
      ]

      now-IsSettled : IsSettled next now
      now-IsSettled = record {
        closed = λ n m h i. elim (now-cases n) [
          | inl e ↦ black_kept m (all m (subst (λ t. In m (next t)) e i))
          | inr (same, _) ↦ black_kept m (settled.closed n m (sym same ∙ h) i)
        ];
        acyclic = λ n h w. elim (now-cases n) [
          | inl e ↦
              let back = Walk-out-black (subst (λ t. Walk next t t) e w) in
              gray-ne-black (sym grey_node ∙ back)
          | inr (same, _) ↦ settled.acyclic n (sym same ∙ h) w
        ];
      }

      now-Extends : Extends c now
      now-Extends = record {
        grey_old = λ n h. elim (now-cases n) [
          | inl e ↦ absurd (gray-ne-black (sym h ∙ (ap now e ∙ black_node)))
          | inr (same, other) ↦ elim (painted-grey n (x.grey_old n (sym same ∙ h))) [
            | inl e ↦ absurd (other e)
            | inr old ↦ old
          ]
        ];
        grey_new = λ n h. elim (now-cases n) [
          | inl e ↦ absurd (white-ne-gray (sym (ap c e ∙ fresh) ∙ h))
          | inr (same, other) ↦
              same ∙ x.grey_new n (painted-keeps n (λ w. white-ne-gray (sym w ∙ h)) ∙ h)
        ];
        black_new = λ n h.
            black_kept n (x.black_new n (painted-keeps n (λ w. white-ne-black (sym w ∙ h)) ∙ h));
      }

    finish_node-Promises :
        (o : Outcome)
        → Promises next (painted node gray c) (AllBlack next (next node)) o
        → Promises next c (λ d. d node ≡ black) (finish_node node o)
    unfolding now
    finish_node-Promises cycle h = h
    finish_node-Promises (clear d) (settled, x, all) =
        let every =
          λ (m : Text) (i : In m (next node)). All-In (λ n. d n ≡ black) (next node) all i in
        (
          now-IsSettled d settled x every,
          now-Extends d settled x every,
          black_node d settled x every,
        )
    finish_node-Promises out_of_fuel h = h

  visit-Visits :
      (nodes : List Text)
      → ((n m : Text) → In m (next n) → In m nodes)
      → (fuel : ℕ) → Visits next (visit next fuel) nodes fuel
  unfolding visit
  visit-Visits nodes known zero node c i settled fresh leads few = absurd (omega arith)
  visit-Visits nodes known (suc fuel) node c i settled fresh leads few =
      finish_node-Promises node c fresh _ (
        visit_each-Promises next (visit next fuel) nodes fuel (visit-Visits nodes known fuel) node
          (next node) (painted node gray c) (λ n m. (m, known node n m))
          (painted-IsSettled node c fresh settled)
          (λ n grey. elim (painted-grey node c fresh n grey) [
            | inl same ↦ inl same
            | inr old ↦ inr (leads n old)
          ])
          (omega (arith, whites-painted nodes node c i fresh)))

  -- From colours with no grey, the outer loop finds a cycle, or leaves every key black.
  pub visit_keys-Promises :
      (nodes : List Text)
      → ((n m : Text) → In m (next n) → In m nodes)
      → (fuel : ℕ) (ns : List Text) (c : Colors) → ((n : Text) → In n ns → In n nodes)
      → IsSettled next c
      → ((n : Text) → c n ≢ gray)
      → whites nodes c < fuel
      → Promises next c (AllBlack next ns) (visit_keys (visit next fuel) ns c)
  unfolding visit_keys start_at
  visit_keys-Promises nodes known fuel [] c inside settled clean few = (settled, Extends-refl c, tt)
  visit_keys-Promises nodes known fuel (n ∷ ns) c inside settled clean few =
      let rest : (d : Colors)
          → IsSettled next d
          → Extends c d
          → d n ≡ black
          → Promises next c (AllBlack next (n ∷ ns)) (visit_keys (visit next fuel) ns d) =
        λ d settled' x now.
          Promises-extend next c d (AllBlack next ns) (AllBlack next (n ∷ ns)) _ x
            (λ e y all. (y.black_new n now, all))
            (visit_keys-Promises nodes known fuel ns d (λ m i. inside m (there i)) settled'
              (λ m grey. clean m (x.grey_old m grey)) (omega (arith, whites_mono nodes c d x))) in
      elim (Color-cases (c n)) [
        | inl is_white ↦ rw is_white (
            proceed-Promises next c (λ d. d n ≡ black) (AllBlack next (n ∷ ns))
              (visit next fuel n c) _
              (visit-Visits nodes known fuel n c (inside n (here refl)) settled is_white
                (λ m grey. absurd (clean m grey)) few)
              rest)
        | inr (inl is_gray) ↦ absurd (clean n is_gray)
        | inr (inr is_black) ↦ rw is_black (rest c settled (Extends-refl c) is_black)
      ]
