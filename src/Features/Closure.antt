-- ===== src/Features/Closure.antt =====
-- The transitive enables are the features that walks along the direct ones reach.
use rust_mcp.Prelude.{
  ℕ, zero, suc, ◌+◌, ◌≤◌, ◌≡◌, ◌↔◌, refl, sym, ap, subst, ◌∙◌, ◌⊎◌, inl, inr, Bool, true, false,
  not, List, [], ◌∷◌, ◌++◌, Option, none, some, In, here, there, arith, if◌then◌else◌, length,
  select, unwrap_or, Bool-cases, In-select, select-In, length-append, In-append, append_left-In,
  append_right-In,
}
use rust_mcp.Order.{text_ord}
use rust_mcp.Order.Sort.{sort_by, In-sort_by, sort_by-In, IsSorted, sort_by-IsSorted}
use rust_mcp.Text.{Text, text_eq, text_eq-eq, eq-text_eq}
use rust_mcp.Graph.Walks.{Walk, step, more}
use rust_mcp.Features.{
  FeatureGraph, get, has, unseen_children, drain, targets_listed, transitive_feature_enables,
}

-- What a feature enables directly.
abbrev pub enabled : FeatureGraph → Text → List Text
enabled graph name = unwrap_or [] (get graph name)

has-In : (seen : List Text) (name : Text) → has seen name ≡ true → In name seen
has-In [] name h = cc
has-In (s ∷ seen) name h = elim (Bool-cases (text_eq name s)) [
  | inl same ↦ here (text_eq-eq name s same)
  | inr other ↦ there (has-In seen name (rw other at h))
]

In-has : (seen : List Text) (name : Text) → In name seen → has seen name ≡ true
In-has [] name i = elim i [ ]
In-has (s ∷ seen) name (here e) = rw (eq-text_eq name s e)
In-has (s ∷ seen) name (there i) = ground (arith, In-has seen name i)

-- The targets that the features not yet seen list.
abbrev unseen : FeatureGraph → List Text → ℕ
unseen [] seen = 0
unseen ((key, targets) ∷ graph) seen =
    (if has seen key then 0 else length targets) + unseen graph seen

unseen-le :
    (graph : FeatureGraph) (seen : List Text) (name : Text)
    → unseen graph (name ∷ seen) ≤ unseen graph seen
unseen-le [] seen name = omega arith
unseen-le ((key, targets) ∷ graph) seen name = ground (arith, unseen-le graph seen name)

unseen-enabled :
    (graph : FeatureGraph) (seen : List Text) (name : Text)
    → has seen name ≡ false
    → unseen graph (name ∷ seen) + length (enabled graph name) ≤ unseen graph seen
unfolding get
unseen-enabled [] seen name h = omega arith
unseen-enabled ((key, targets) ∷ graph) seen name h = elim (Bool-cases (text_eq key name)) [
  | inl same ↦
      let open_key : has seen key ≡ false = ap (has seen) (text_eq-eq key name same) ∙ h in
      rw (same, open_key) (omega (arith, unseen-le graph seen name))
  | inr other ↦ rw other (ground (arith, unseen-enabled graph seen name))
]

length-select-le : (p : Text → Bool) (xs : List Text) → length (select p xs) ≤ length xs
length-select-le p [] = omega arith
length-select-le p (x ∷ xs) = ground (arith, length-select-le p xs)

length-unseen_children :
    (seen : List Text) (children : Option (List Text))
    → length (unseen_children seen children) ≤ length (unwrap_or [] children)
length-unseen_children seen none = omega arith
length-unseen_children seen (some children) =
    length-select-le (λ child. not (has seen child)) children

In-unseen_children :
    {x : Text} (seen : List Text) (children : Option (List Text))
    → In x (unseen_children seen children)
    → In x (unwrap_or [] children)
In-unseen_children seen none i = elim i [ ]
In-unseen_children seen (some children) i = (In-select (λ child. not (has seen child)) children i).0

unseen_children-In :
    {x : Text} (seen : List Text) (children : Option (List Text))
    → In x (unwrap_or [] children)
    → In x seen ⊎ In x (unseen_children seen children)
unseen_children-In seen none i = elim i [ ]
unseen_children-In {x} seen (some children) i = elim (Bool-cases (has seen x)) [
  | inl old ↦ inl (has-In seen x old)
  | inr new ↦ inr (select-In (λ child. not (has seen child)) children i (rw new))
]

settled_now : (x : Text) (seen : List Text) → In x seen ⊎ In x [] → In x seen
settled_now x seen (inl i) = i
settled_now x seen (inr i) = elim i [ ]

module _ (graph : FeatureGraph) (root : Text) where
  -- The state of the search: all it holds is reached, and what the root and the seen features enable
  -- is seen or waits.
  record IsSearch (queue seen : List Text) : Type 0 where
    queued : (x : Text) → In x queue → Walk (enabled graph) root x
    sound : (x : Text) → In x seen → Walk (enabled graph) root x
    entered : (x : Text) → In x (enabled graph root) → In x seen ⊎ In x queue
    followed : (s x : Text) → In s seen → In x (enabled graph s) → In x seen ⊎ In x queue

  moved :
      (x feature : Text) (queue seen : List Text) (more_queue : List Text)
      → In x seen ⊎ In x (feature ∷ queue)
      → In x (feature ∷ seen) ⊎ In x (queue ++ more_queue)
  moved x feature queue seen more_queue (inl i) = inl (there i)
  moved x feature queue seen more_queue (inr (here e)) = inl (here e)
  moved x feature queue seen more_queue (inr (there i)) = inr (append_left-In queue more_queue i)

  skipped :
      (x feature : Text) (queue seen : List Text)
      → In feature seen
      → In x seen ⊎ In x (feature ∷ queue)
      → In x seen ⊎ In x queue
  skipped x feature queue seen known (inl i) = inl i
  skipped x feature queue seen known (inr (here e)) = inl (subst (λ t. In t seen) (sym e) known)
  skipped x feature queue seen known (inr (there i)) = inr i

  IsSearch-skip :
      (feature : Text) (queue seen : List Text)
      → In feature seen
      → IsSearch (feature ∷ queue) seen
      → IsSearch queue seen
  IsSearch-skip feature queue seen known h = record {
    queued = λ x i. h.queued x (there i);
    sound = h.sound;
    entered = λ x i. skipped x feature queue seen known (h.entered x i);
    followed = λ s x i j. skipped x feature queue seen known (h.followed s x i j);
  }

  IsSearch-visit :
      (feature : Text) (queue seen : List Text)
      → IsSearch (feature ∷ queue) seen
      → IsSearch (queue ++ unseen_children (feature ∷ seen) (get graph feature)) (feature ∷ seen)
  IsSearch-visit feature queue seen h =
      let next = unseen_children (feature ∷ seen) (get graph feature) in
      record {
        queued = λ x i. elim (In-append queue next i) [
          | inl old ↦ h.queued x (there old)
          | inr new ↦
              more (h.queued feature (here refl))
                (In-unseen_children (feature ∷ seen) (get graph feature) new)
        ];
        sound = λ x i. elim i [
          | here e ↦ subst (Walk (enabled graph) root) (sym e) (h.queued feature (here refl))
          | there j ↦ h.sound x j
        ];
        entered = λ x i. moved x feature queue seen next (h.entered x i);
        followed = λ s x i j. elim i [
          | here e ↦
              elim (unseen_children-In (feature ∷ seen) (get graph feature)
                (subst (λ t. In x (enabled graph t)) e j)) [
                  | inl old ↦ inl old
                  | inr new ↦ inr (append_right-In queue next new)
                ]
          | there k ↦ moved x feature queue seen next (h.followed s x k j)
        ];
      }

  all_seen :
      (seen : List Text) → IsSearch [] seen → {x : Text} → Walk (enabled graph) root x → In x seen
  all_seen seen h {x} (step i) = settled_now x seen (h.entered x i)
  all_seen seen h {x} (more {b = m} w i) = settled_now x seen (h.followed m x (all_seen seen h w) i)

  drain-closure :
      (fuel : ℕ) (queue seen : List Text)
      → IsSearch queue seen
      → length queue + unseen graph seen ≤ fuel
      → (out : List Text) × (drain graph fuel queue seen ≡ some out)
        × ((x : Text) → In x out ↔ Walk (enabled graph) root x)
  unfolding drain
  drain-closure fuel [] seen h enough = (seen, refl, λ x. (h.sound x, all_seen seen h))
  drain-closure zero (feature ∷ queue) seen h enough = absurd (omega arith)
  drain-closure (suc fuel) (feature ∷ queue) seen h enough = elim (Bool-cases (has seen feature)) [
    | inl old ↦ rw old (
        drain-closure fuel queue seen (IsSearch-skip feature queue seen (has-In seen feature old) h)
          (omega arith))
    | inr new ↦ rw new (
        drain-closure fuel (queue ++ unseen_children (feature ∷ seen) (get graph feature))
          (feature ∷ seen) (IsSearch-visit feature queue seen h)
          (omega (
            arith,
            length-append queue (unseen_children (feature ∷ seen) (get graph feature)),
            length-unseen_children (feature ∷ seen) (get graph feature),
            unseen-enabled graph seen feature new,
          )))
  ]

unseen_all : (graph : FeatureGraph) → unseen graph [] ≡ targets_listed graph
unseen_all [] = refl
unseen_all ((key, targets) ∷ graph) = omega (arith, unseen_all graph)

-- The closure of a feature always ends; it lists, in order, exactly the features that walks of one or
-- more enabling steps reach from it.
pub transitive_feature_enables-reach :
    (root : Text) (graph : FeatureGraph)
    → (out : List Text) × (transitive_feature_enables root graph ≡ some out)
      × IsSorted text_ord (λ name. name) out
      × ((name : Text) → In name out ↔ Walk (enabled graph) root name)
unfolding transitive_feature_enables
transitive_feature_enables-reach root graph =
    let (out, ends, reach) =
      drain-closure graph root (length (enabled graph root) + targets_listed graph)
        (enabled graph root) []
        (record {
          queued = λ x i. step i;
          sound = λ x i. elim i [ ];
          entered = λ x i. inr i;
          followed = λ s x i j. elim i [ ];
        })
        (omega (arith, unseen_all graph)) in
    (
      sort_by text_ord (λ name. name) out,
      rw ends,
      sort_by-IsSorted text_ord (λ name. name) out,
      λ name. (
        λ i. (reach name).0 (In-sort_by text_ord (λ name. name) out i),
        λ w. sort_by-In text_ord (λ name. name) out ((reach name).1 w),
      ),
    )
