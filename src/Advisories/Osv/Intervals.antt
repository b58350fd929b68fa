-- ===== src/Advisories/Osv/Intervals.antt =====
-- What the scan of a parsed OSV range decides, told without the scan.
use rust_mcp.Prelude.{
  ◌≡◌, refl, sym, subst, ◌↔◌, ◌⊎◌, inl, inr, Bool, true, false, List, [], ◌∷◌, Option, some, arith,
  if◌then◌else◌, any, is_empty, All-In, In, here, there, Bool-cases, Option-cases,
}
use rust_mcp.Order.{option_ord, pair_lt}
use rust_mcp.Order.Sort.{IsSorted, sort_by-IsSorted}
use rust_mcp.Text.{Text, codes}
use rust_mcp.Text.Pieces.{split}
use rust_mcp.Semver.{Semver}
use rust_mcp.Advisories.Osv.{
  introduced, fixed, last_affected, OsvRange, Event, event_order, event_key, sort_events,
  parse_each, checked, parse_osv_events, at_or_after, after, below_limit, transition, scan,
  osv_range_affects,
}

module _ (σ : Semver) where
  abbrev pub Sorted : List (Event σ) → Type 0
  Sorted = IsSorted (event_order σ) (event_key σ)

  abbrev earlier : Option σ.Version → Option σ.Version → Bool
  earlier = (option_ord σ.order).lt

  checked-Sorted : (r s : OsvRange σ) → checked σ r ≡ some s → Sorted s.events
  unfolding checked sort_events
  checked-Sorted r s h =
      subst Sorted (ground arith) (sort_by-IsSorted (event_order σ) (event_key σ) r.events)

  parse_osv_events-Sorted :
      (text : Text) (range : OsvRange σ)
      → parse_osv_events σ text ≡ some range
      → Sorted range.events
  unfolding parse_osv_events
  parse_osv_events-Sorted text range h =
      elim (Option-cases
        (parse_each σ (split (codes ",") text) (record { events = []; limits = [] }))) [
          | inl e ↦ ground arith
          | inr (r, e) ↦ checked-Sorted r range (ground arith)
        ]

  module _ (version : σ.Version) where
    -- The version is at or behind an introduction.
    abbrev pub opens : Event σ → Bool
    opens (bound, introduced) = at_or_after σ version bound
    opens (bound, fixed) = false
    opens (bound, last_affected) = false

    -- The version is at or behind a fix, or behind a last affected version.
    abbrev pub closes : Event σ → Bool
    closes (bound, introduced) = false
    closes (bound, fixed) = at_or_after σ version bound
    closes (bound, last_affected) = after σ version bound

    -- Some introduction is at or before the version, and whatever ends an interval for the version
    -- stands strictly before that introduction.
    abbrev pub IsExposed : List (Event σ) → Type 0
    IsExposed events =
        (i : Event σ) × In i events
        × (opens i ≡ true)
        × ((c : Event σ) → In c events → closes c ≡ true → earlier c.0 i.0 ≡ true)

    abbrev NoneCloses : List (Event σ) → Type 0
    NoneCloses events = (c : Event σ) → In c events → closes c ≡ true → ⊥

    transition_cases :
        (e : Event σ) (s : Bool)
        → transition σ version e s ≡ (if opens e then true else if closes e then false else s)
    unfolding transition
    transition_cases (b, introduced) s = refl
    transition_cases (b, fixed) s = refl
    transition_cases (b, last_affected) s = refl

    opens-closes : (e : Event σ) → opens e ≡ true → closes e ≡ true → ⊥
    opens-closes (b, introduced) o c = cc
    opens-closes (b, fixed) o c = cc
    opens-closes (b, last_affected) o c = cc

    -- In sorted order an introduction that comes after a closing event is strictly later.
    closes-opens :
        (c i : Event σ)
        → closes c ≡ true
        → opens i ≡ true
        → (event_order σ).lt (event_key σ i) (event_key σ c) ≡ false
        → earlier c.0 i.0 ≡ true
    unfolding pair_lt
    closes-opens (b, introduced) i c o h = cc
    closes-opens (b, fixed) (d, introduced) c o h = ground arith
    closes-opens (b, last_affected) (d, introduced) c o h = ground arith
    closes-opens (b, fixed) (d, fixed) c o h = cc
    closes-opens (b, fixed) (d, last_affected) c o h = cc
    closes-opens (b, last_affected) (d, fixed) c o h = cc
    closes-opens (b, last_affected) (d, last_affected) c o h = cc

    not_earlier :
        (c i : Event σ)
        → (event_order σ).lt (event_key σ c) (event_key σ i) ≡ false
        → earlier c.0 i.0 ≡ false
    unfolding pair_lt
    not_earlier c i h = ground arith

    NoneCloses-cons :
        (e : Event σ) (es : List (Event σ))
        → (closes e ≡ true → ⊥)
        → NoneCloses es
        → NoneCloses (e ∷ es)
    NoneCloses-cons e es n h c (here p) k = n (subst (λ x. closes x ≡ true) p k)
    NoneCloses-cons e es n h c (there m) k = h c m k

    -- An exposure of the tail is one of the whole list, if a closing head is strictly earlier.
    IsExposed-cons :
        (e : Event σ) (es : List (Event σ))
        → ((i : Event σ) → In i es → opens i ≡ true → closes e ≡ true → earlier e.0 i.0 ≡ true)
        → IsExposed es
        → IsExposed (e ∷ es)
    IsExposed-cons e es n (i, m, o, f) = (i, there m, o, before)
      where
        before : (c : Event σ) → In c (e ∷ es) → closes c ≡ true → earlier c.0 i.0 ≡ true
        before c (here p) k =
            subst (λ (x : Event σ). earlier x.0 i.0 ≡ true) (sym p)
              (n i m o (subst (λ x. closes x ≡ true) p k))
        before c (there m') k = f c m' k

    head-IsExposed :
        (e : Event σ) (es : List (Event σ)) → opens e ≡ true → NoneCloses es → IsExposed (e ∷ es)
    head-IsExposed e es o n =
        (e, here refl, o, λ c m k. absurd (NoneCloses-cons e es (opens-closes e o) n c m k))

    later_than_head :
        (e : Event σ) (es : List (Event σ)) (i : Event σ)
        → Sorted (e ∷ es)
        → In i es
        → (event_order σ).lt (event_key σ i) (event_key σ e) ≡ false
    later_than_head e es i h m =
        All-In (λ (y : Event σ). (event_order σ).lt (event_key σ y) (event_key σ e) ≡ false) es h.0
          m

    scan_cons :
        (e : Event σ) (es : List (Event σ)) (s s' : Bool)
        → Sorted (e ∷ es)
        → s' ≡ (if opens e then true else if closes e then false else s)
        → ((s' ≡ true) × NoneCloses es) ⊎ IsExposed es
        → ((s ≡ true) × NoneCloses (e ∷ es)) ⊎ IsExposed (e ∷ es)
    scan_cons e es s s' h q (inr x) =
        inr (IsExposed-cons e es (λ i m o k. closes-opens e i k o (later_than_head e es i h m)) x)
    scan_cons e es s s' h q (inl (t, n)) = elim (Bool-cases (opens e)) [
      | inl o ↦ inr (head-IsExposed e es o n)
      | inr o ↦ inl (ground arith, NoneCloses-cons e es (λ c. ground arith) n)
    ]

    scan-true :
        (es : List (Event σ)) (s : Bool)
        → Sorted es
        → scan σ version es s ≡ true
        → ((s ≡ true) × NoneCloses es) ⊎ IsExposed es
    unfolding scan
    scan-true [] s h t = inl (t, λ c m. elim m [ ])
    scan-true (e ∷ es) s h t =
        scan_cons e es s (transition σ version e s) h (transition_cases e s)
          (scan-true es (transition σ version e s) h.1 t)

    cons_scan :
        (e : Event σ) (es : List (Event σ)) (s s' : Bool)
        → Sorted (e ∷ es)
        → s' ≡ (if opens e then true else if closes e then false else s)
        → ((s ≡ true) × NoneCloses (e ∷ es)) ⊎ IsExposed (e ∷ es)
        → ((s' ≡ true) × NoneCloses es) ⊎ IsExposed es
    cons_scan e es s s' h q (inl (t, n)) = elim (Bool-cases (closes e)) [
      | inl c ↦ absurd (n e (here refl) c)
      | inr c ↦ inl (ground arith, λ x m. n x (there m))
    ]
    cons_scan e es s s' h q (inr (i, there m, o, f)) = inr (i, m, o, λ c m'. f c (there m'))
    cons_scan e es s s' h q (inr (i, here p, o, f)) = inl (opened, none_closes)
      where
        opened : s' ≡ true
        opened = ground (arith, subst (λ x. opens x ≡ true) p o)

        none_closes : NoneCloses es
        none_closes c m k = cc (
          f c (there m) k,
          subst (λ (x : Event σ). earlier c.0 x.0 ≡ false) (sym p)
              (not_earlier c e (later_than_head e es c h m)),
        )

    true-scan :
        (es : List (Event σ)) (s : Bool)
        → Sorted es
        → ((s ≡ true) × NoneCloses es) ⊎ IsExposed es
        → scan σ version es s ≡ true
    unfolding scan
    true-scan [] s h (inl (t, n)) = t
    true-scan [] s h (inr (i, m, o, f)) = elim m [ ]
    true-scan (e ∷ es) s h x =
        true-scan es (transition σ version e s) h.1
          (cons_scan e es s (transition σ version e s) h (transition_cases e s) x)

    false_start :
        (es : List (Event σ)) → ((false ≡ true) × NoneCloses es) ⊎ IsExposed es → IsExposed es
    false_start es (inl (t, n)) = cc
    false_start es (inr x) = x

    -- Some upper limit lies above the version, or the range has none.
    abbrev pub IsBelowLimit : OsvRange σ → Type 0
    IsBelowLimit range =
        (is_empty range.limits ≡ true) ⊎ (any (below_limit σ version) range.limits ≡ true)

    -- A range that was parsed from text affects a version exactly when the version is below one of
    -- its limits, if it has any, and an introduction at or before the version is strictly later
    -- than every event that ends an interval for the version.
    pub osv_range_affects_iff :
        (text : Text) (range : OsvRange σ)
        → parse_osv_events σ text ≡ some range
        → (osv_range_affects σ range version ≡ true) ↔ (IsBelowLimit range × IsExposed range.events)
    unfolding osv_range_affects
    osv_range_affects_iff text range h =
        let sorted = parse_osv_events-Sorted text range h in
        (
          λ t. (
            ground arith,
            false_start range.events (scan-true range.events false sorted (ground arith)),
          ),
          λ x. ground (arith, true-scan range.events false sorted (inr x.1), x.0),
        )
