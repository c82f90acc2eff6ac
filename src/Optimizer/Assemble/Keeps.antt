-- ===== src/Optimizer/Assemble/Keeps.antt =====
-- src/optimizer/optimizer.c, `optimizer_rewrite_from_where`: what the relations, the joins and the top of
-- an assembled plan take up of the conjuncts.
use compute_ql.Shared.{
  ℕ, zero, suc, ◌+◌, ◌<◌, ◌≤◌, ◌≡◌, refl, Bool, true, false, not, ◌&&◌, List, [], ◌∷◌,
  if◌then◌else◌, ◌==◌, arith, All, Bool-cases, inl, inr,
}
use compute_ql.Order.Laws.{count}
use compute_ql.Optimizer.{Conjunct, Destination}
use compute_ql.Optimizer.Assign.{is_dropped}
use compute_ql.Optimizer.Assemble.{
  pick, is_filter, is_on, is_residual, filter_conjuncts, on_conjuncts, residual_conjuncts,
}

unfoldable pub live_conjuncts : List Conjunct → List Conjunct
live_conjuncts [] = []
live_conjuncts (c ∷ cs) =
    if is_dropped c.destination then live_conjuncts cs else c ∷ live_conjuncts cs

-- A filter is for one relation of the order, and a condition of an ON clause for one of its joins.
abbrev pub InRange : List ℕ → ℕ → Destination → ℕ → ℕ → Type 0
InRange order joins Destination.filter target place = count target order ≡ 1
InRange order joins Destination.on_clause target place = (0 < place) × (place ≤ joins)
InRange order joins Destination.residual target place = Unit
InRange order joins Destination.dropped target place = Unit

abbrev pub once : Bool → ℕ → ℕ
once true k = k
once false k = 0

-- A number of every relation of the order, added up.
unfoldable pub sum_over : (ℕ → ℕ) → List ℕ → ℕ
sum_over f [] = 0
sum_over f (k ∷ ks) = f k + sum_over f ks

-- A number of every join from `position` on, added up.
unfoldable pub sum_from : (ℕ → ℕ) → ℕ → ℕ → ℕ
sum_from f position zero = 0
sum_from f position (suc joins) = f position + sum_from f (position + 1) joins

sum_over-none : (t w : ℕ) (ks : List ℕ) → count t ks ≡ 0 → sum_over (λ k. once (t == k) w) ks ≡ 0
unfolding sum_over count
sum_over-none t w [] h = refl
sum_over-none t w (k ∷ ks) h = elim (Bool-cases (t == k)) [
  | inl e ↦ absurd (ground arith)
  | inr e ↦ rw e (omega (arith, sum_over-none t w ks (ground arith)))
]

sum_over-one : (t w : ℕ) (ks : List ℕ) → count t ks ≡ 1 → sum_over (λ k. once (t == k) w) ks ≡ w
unfolding sum_over count
sum_over-one t w [] h = absurd (omega arith)
sum_over-one t w (k ∷ ks) h = elim (Bool-cases (t == k)) [
  | inl e ↦ rw e (omega (arith, sum_over-none t w ks (ground arith)))
  | inr e ↦ rw e (omega (arith, sum_over-one t w ks (ground arith)))
]

sum_from-past :
    (t w position joins : ℕ) → t < position → sum_from (λ k. once (t == k) w) position joins ≡ 0
unfolding sum_from
sum_from-past t w position zero h = refl
sum_from-past t w position (suc joins) h =
    ground (arith, sum_from-past t w (position + 1) joins (omega arith))

sum_from-one :
    (t w position joins : ℕ)
    → position ≤ t
    → t < position + joins
    → sum_from (λ k. once (t == k) w) position joins ≡ w
unfolding sum_from
sum_from-one t w position zero h k = absurd (omega arith)
sum_from-one t w position (suc joins) h k = elim (Bool-cases (t == position)) [
  | inl e ↦ rw e (omega (arith, sum_from-past t w (position + 1) joins (ground arith)))
  | inr e ↦ rw e (omega (arith, sum_from-one t w (position + 1) joins (ground arith) (omega arith)))
]

sum_from-none : (position joins : ℕ) → sum_from (λ k. 0) position joins ≡ 0
unfolding sum_from
sum_from-none position zero = refl
sum_from-none position (suc joins) = omega (arith, sum_from-none (position + 1) joins)

sum_over_none : (ks : List ℕ) → sum_over (λ k. 0) ks ≡ 0
unfolding sum_over
sum_over_none [] = refl
sum_over_none (k ∷ ks) = omega (arith, sum_over_none ks)

sum_over-add :
    (f g h : ℕ → ℕ) (ks : List ℕ)
    → ((k : ℕ) → h k ≡ f k + g k)
    → sum_over h ks ≡ sum_over f ks + sum_over g ks
unfolding sum_over
sum_over-add f g h [] e = refl
sum_over-add f g h (k ∷ ks) e = omega (arith, e k, sum_over-add f g h ks e)

sum_from-add :
    (f g h : ℕ → ℕ) (position joins : ℕ)
    → ((k : ℕ) → h k ≡ f k + g k)
    → sum_from h position joins ≡ sum_from f position joins + sum_from g position joins
unfolding sum_from
sum_from-add f g h position zero e = refl
sum_from-add f g h position (suc joins) e =
    omega (arith, e position, sum_from-add f g h (position + 1) joins e)

module _ (f : Conjunct → ℕ) where
  unfoldable pub weight : List Conjunct → ℕ
  weight [] = 0
  weight (c ∷ cs) = f c + weight cs

  weight-pick :
      (p : Conjunct → Bool) (c : Conjunct) (cs : List Conjunct)
      → weight (pick p (c ∷ cs)) ≡ once (p c) (f c) + weight (pick p cs)
  unfolding pick weight
  weight-pick p c cs = elim (Bool-cases (p c)) [ inl e ↦ rw e refl | inr e ↦ rw e (omega arith) ]

  weight-live :
      (c : Conjunct) (cs : List Conjunct)
      → weight (live_conjuncts (c ∷ cs))
        ≡ once (not (is_dropped c.destination)) (f c) + weight (live_conjuncts cs)
  unfolding live_conjuncts weight
  weight-live c cs = elim (Bool-cases (is_dropped c.destination)) [
    | inl e ↦ rw e (omega arith)
    | inr e ↦ rw e refl
  ]

  module _ (place : Conjunct → ℕ) (order : List ℕ) (joins : ℕ) where
    -- All that the relations of the order get as filters, and the joins in their ON clauses.
    unfoldable pub filters_weight : List Conjunct → ℕ
    filters_weight cs = sum_over (λ k. weight (filter_conjuncts k cs)) order

    unfoldable pub ons_weight : List Conjunct → ℕ
    ons_weight cs = sum_from (λ k. weight (on_conjuncts place k cs)) 1 joins

    -- In range, exactly one of the three parts counts a conjunct that is not dropped.
    one_part :
        (d : Destination) (t p w : ℕ)
        → InRange order joins d t p
        → sum_over (λ k. once (is_filter d && (t == k)) w) order
            + (sum_from (λ k. once (is_on d && (p == k)) w) 1 joins + once (is_residual d) w)
          ≡ once (not (is_dropped d)) w
    one_part Destination.filter t p w h =
        omega (arith, sum_over-one t w order h, sum_from-none 1 joins)
    one_part Destination.on_clause t p w (h, k) =
        omega (arith, sum_over_none order, sum_from-one p w 1 joins (omega arith) (omega arith))
    one_part Destination.residual t p w h =
        omega (arith, sum_over_none order, sum_from-none 1 joins)
    one_part Destination.dropped t p w h = omega (arith, sum_over_none order, sum_from-none 1 joins)

    filters_cons :
        (c : Conjunct) (cs : List Conjunct)
        → filters_weight (c ∷ cs)
          ≡ sum_over (λ k. once (is_filter c.destination && (c.target == k)) (f c)) order
            + filters_weight cs
    unfolding filters_weight filter_conjuncts
    filters_cons c cs =
        sum_over-add _ _ _ order
          (λ k. weight-pick (λ (d : Conjunct). is_filter d.destination && (d.target == k)) c cs)

    ons_cons :
        (c : Conjunct) (cs : List Conjunct)
        → ons_weight (c ∷ cs)
          ≡ sum_from (λ k. once (is_on c.destination && (place c == k)) (f c)) 1 joins
            + ons_weight cs
    unfolding ons_weight on_conjuncts
    ons_cons c cs =
        sum_from-add _ _ _ 1 joins
          (λ k. weight-pick (λ (d : Conjunct). is_on d.destination && (place d == k)) c cs)

    nothing_taken_up :
        filters_weight [] + (ons_weight [] + weight (residual_conjuncts []))
        ≡ weight (live_conjuncts [])
    unfolding filters_weight ons_weight residual_conjuncts live_conjuncts pick weight
        filter_conjuncts on_conjuncts
    nothing_taken_up = omega (arith, sum_over_none order, sum_from-none 1 joins)

    -- The filters of the relations, the ON clauses of the joins and the residual filter take up every
    -- conjunct that is not dropped exactly once, if each has a relation of the order or a join: any
    -- weight of the conjuncts has the same total over both.
    pub weight-taken_up :
        (cs : List Conjunct)
        → All (λ (c : Conjunct). InRange order joins c.destination c.target (place c)) cs
        → filters_weight cs + (ons_weight cs + weight (residual_conjuncts cs))
          ≡ weight (live_conjuncts cs)
    unfolding live_conjuncts residual_conjuncts
    weight-taken_up [] h = nothing_taken_up
    weight-taken_up (c ∷ cs) (h, hs) = omega (
      arith,
      filters_cons c cs,
      ons_cons c cs,
      weight-pick (λ (d : Conjunct). is_residual d.destination) c cs,
      weight-live c cs,
      one_part c.destination c.target (place c) (f c) h,
      weight-taken_up cs hs,
    )
