-- ===== src/Optimizer/Assign/Legal.antt =====
-- src/optimizer/optimizer.c: `optimizer_assign_destinations` puts each conjunct where it may stand.
use compute_ql.Shared.{
  ℕ, ◌≤◌, ◌<◌, ◌^◌, ◌≡◌, refl, ◌≢◌, ap, Bool, true, false, not, ◌&&◌, ◌||◌, List, arith, ◌==◌, ltb,
  ◌⊎◌, inl, inr, Bool-cases,
}
use compute_ql.Shared.Bits.{bit_at, bit_at-none}
use compute_ql.Text.{str8_lit, str8_match, match_any_case}
use compute_ql.Optimizer.{JoinStep, Conjunct, Destination}
use compute_ql.Optimizer.Refs.{optimizer_mask_popcount, optimizer_mask_highest}
use compute_ql.Optimizer.Refs.Masks.{mask_highest_lem, popcount_one, popcount_zero}
use compute_ql.Optimizer.Assign.{step_at, assign_where, assign_on, is_dropped, assign_destination}
use compute_ql.Optimizer.Assign.Convert.{may_be_null}

-- Every relation that the mask names is `t`, or comes no later than `t` in the FROM.
abbrev pub OnlyTouches : ℕ → ℕ → Type 0
OnlyTouches mask t = (k : ℕ) → bit_at k mask ≡ 1 → k ≡ t

abbrev pub TouchesUpTo : ℕ → ℕ → Type 0
TouchesUpTo mask t = (k : ℕ) → bit_at k mask ≡ 1 → k ≤ t

-- Where a WHERE conjunct may go, by its destination and target.
abbrev pub WherePlaced : List JoinStep → ℕ → Bool → Destination → ℕ → Type 0
WherePlaced steps mask unresolved Destination.filter t =
    OnlyTouches mask t × (0 < t → may_be_null steps t ≡ false)
WherePlaced steps mask unresolved Destination.on_clause t =
    TouchesUpTo mask t × (may_be_null steps t ≡ false)
WherePlaced steps mask unresolved Destination.residual t =
    (unresolved ≡ true) ⊎ (mask ≡ 0) ⊎ (may_be_null steps (optimizer_mask_highest mask) ≡ true)
WherePlaced steps mask unresolved Destination.dropped t = ⊥

-- Where a conjunct of the ON clause of `step` may go.
abbrev pub OnPlaced : List JoinStep → ℕ → ℕ → Destination → ℕ → Type 0
OnPlaced steps mask step Destination.filter t =
    OnlyTouches mask t
    × (t ≤ step)
    × (t ≢ step
        → (str8_match (step_at steps step).type (str8_lit "left") match_any_case ≡ false)
          × (0 < t → may_be_null steps t ≡ false))
OnPlaced steps mask step Destination.on_clause t = t ≡ step
OnPlaced steps mask step Destination.residual t = ⊥
OnPlaced steps mask step Destination.dropped t = ⊥

some_bit_nonzero : (k mask : ℕ) → bit_at k mask ≡ 1 → mask ≢ 0
some_bit_nonzero k mask b z = absurd (omega (arith, b, bit_at-none k, ap (bit_at k) z))

module _ (steps : List JoinStep) (c : Conjunct) (fits : c.mask < 2 ^ 64) where
  touched : ℕ
  touched = optimizer_mask_popcount c.mask

  highest : ℕ
  highest = optimizer_mask_highest c.mask

  only_highest : (touched == 1) ≡ true → OnlyTouches c.mask highest
  unfolding touched highest
  only_highest e k b = popcount_one c.mask k fits (ground arith) b

  up_to_highest : TouchesUpTo c.mask highest
  unfolding highest
  up_to_highest k b = (mask_highest_lem c.mask fits (some_bit_nonzero k c.mask b)).above k b

  no_touch : (touched == 0) ≡ true → c.mask ≡ 0
  unfolding touched
  no_touch e = popcount_zero c.mask fits (ground arith)

  where_placed :
      WherePlaced steps c.mask c.unresolved
        (assign_where steps c).destination
        (assign_where steps c).target
  unfolding assign_where touched highest
  where_placed = elim (Bool-cases (c.unresolved || (touched == 0))) [
    | inl e ↦ rw e (ground (arith, no_touch))
    | inr e ↦ elim (Bool-cases (touched == 1)) [
      | inl f ↦ elim (Bool-cases (ltb 0 highest && may_be_null steps highest)) [
        | inl g ↦ rw (e, f, g) (ground arith)
        | inr g ↦ rw (e, f, g) (only_highest f, λ p. ground arith)
      ]
      | inr f ↦ elim (Bool-cases (may_be_null steps highest)) [
        | inl g ↦ rw (e, f, g) (ground arith)
        | inr g ↦ rw (e, f, g) (up_to_highest, g)
      ]
    ]
  ]

  here_placed :
      (t : ℕ)
      → OnlyTouches c.mask t
      → t ≡ c.step
      → OnPlaced steps c.mask c.step Destination.filter t
  here_placed t only e = (only, omega (arith, e), λ n. absurd (n e))

  one_touched : ((c.unresolved || (touched == 0)) || ltb 1 touched) ≡ false → (touched == 1) ≡ true
  one_touched e = ground arith

  on_placed :
      OnPlaced steps c.mask c.step (assign_on steps c).destination (assign_on steps c).target
  unfolding assign_on touched highest
  on_placed = elim (Bool-cases (not c.unresolved && (touched == 0))) [
    | inl e ↦ rw e (
        here_placed c.step (λ k b. absurd (some_bit_nonzero k c.mask b (no_touch (ground arith))))
          refl)
    | inr e ↦ elim (Bool-cases ((c.unresolved || (touched == 0)) || ltb 1 touched)) [
      | inl f ↦ rw (e, f) refl
      | inr f ↦ elim (Bool-cases (ltb c.step highest)) [
        | inl g ↦ rw (e, f, g) refl
        | inr g ↦ elim (Bool-cases (highest == c.step)) [
          | inl h ↦
              rw (e, f, g, h) (here_placed highest (only_highest (one_touched f)) (ground arith))
          | inr h ↦
              elim (Bool-cases (
                not (str8_match (step_at steps c.step).type (str8_lit "left") match_any_case)
                && not (ltb 0 highest && may_be_null steps highest))) [
                  | inl i ↦
                      rw (e, f, g, h, i)
                        (
                          only_highest (one_touched f),
                          ground arith,
                          λ n. (ground arith, λ p. ground arith),
                        )
                  | inr i ↦ rw (e, f, g, h, i) refl
                ]
        ]
      ]
    ]
  ]

-- Where the conjunct `c` may go, by the clause that it comes from.
abbrev pub Placed : Bool → List JoinStep → Conjunct → Destination → ℕ → Type 0
Placed true steps c d t = WherePlaced steps c.mask c.unresolved d t
Placed false steps c d t = OnPlaced steps c.mask c.step d t

-- A conjunct whose mask is a U64 and that was not dropped is given a legal place. One of WHERE becomes
-- a filter only on the one relation that it touches, if no join supplies NULLs for it, and goes to an
-- ON clause only behind all that it touches, if that join supplies no NULLs; it stays residual only if
-- it is unresolved, touches nothing, or ends at a relation that a join supplies NULLs for. One of an
-- ON clause stays there, or becomes a filter on a relation no later than its step that is all it
-- touches, an earlier one only if the step is no LEFT JOIN and no join supplies NULLs for the
-- relation. Nothing else of the conjunct changes.
pub assign_destination_legal :
    (steps : List JoinStep) (c : Conjunct)
    → c.mask < 2 ^ 64
    → is_dropped c.destination ≡ false
    → Placed c.from_where steps c
        (assign_destination steps c).destination
        (assign_destination steps c).target
      × (record (assign_destination steps c) { destination = c.destination; target = c.target } ≡ c)
unfolding assign_destination
assign_destination_legal steps c fits live = elim (Bool-cases c.from_where) [
  | inl w ↦ simp (live, w) (where_placed steps c fits, unfold assign_where in ground arith)
  | inr o ↦ simp (live, o) (on_placed steps c fits, unfold assign_on in ground arith)
]
