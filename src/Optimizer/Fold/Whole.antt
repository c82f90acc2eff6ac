-- ===== src/Optimizer/Fold/Whole.antt =====
-- src/optimizer/optimizer.c, `optimizer_fold_constants`: what folding leaves of a list of conjuncts.
use compute_ql.Shared.{
  ◌≡◌, refl, ap, ◌⊎◌, inl, inr, Bool, true, false, not, ◌&&◌, List, [], ◌∷◌, none, some,
  if◌then◌else◌, arith, Bool-cases, Option-cases,
}
use compute_ql.Float.{Float}
use compute_ql.Ir.{Node}
use compute_ql.Optimizer.{JoinStep, Conjunct, Destination}
use compute_ql.Optimizer.Assign.{is_dropped, step_at}
use compute_ql.Optimizer.Logic.{Truth, no, unknown, holds, both, Row, meaning, all_hold}
use compute_ql.Optimizer.Fold.{
  optimizer_fold_comparison, on_left_join, fold_conjunct, optimizer_fold_constants,
}
use compute_ql.Optimizer.Fold.Symbols.{ComparesConstants}
use compute_ql.Optimizer.Fold.Sound.{fold_comparison_sound}

-- The conditions of the conjuncts that are not dropped.
unfoldable pub live : List Conjunct → List Node
live [] = []
live (c ∷ cs) = if is_dropped c.destination then live cs else c.node ∷ live cs

-- The conditions that every row of the result passes: those of WHERE, and those of the ON clauses of
-- joins that do not supply NULLs for a row without a partner.
unfoldable pub required : List JoinStep → List Conjunct → List Node
required steps [] = []
required steps (c ∷ cs) =
    if not c.from_where && (step_at steps c.step).null_supplying
    then required steps cs
    else c.node ∷ required steps cs

both_no_right : (a b : Truth) → b ≡ no → both a b ≡ no
both_no_right no b e = refl
both_no_right unknown no e = refl
both_no_right unknown unknown e = cc
both_no_right unknown holds e = cc
both_no_right holds b e = e

module _ (fl : Float) {V : Type 0} (row : Row V) (laws : ComparesConstants fl row)
    (steps : List JoinStep) where
  both_lists :
      (b : Bool) (n : Node) (ms ns : List Node)
      → all_hold row ms ≡ all_hold row ns
      → all_hold row (if b then ms else n ∷ ms) ≡ all_hold row (if b then ns else n ∷ ns)
  unfolding all_hold
  both_lists true n ms ns e = e
  both_lists false n ms ns e = ap (both (meaning row n)) e

  left_out :
      (b : Bool) (n : Node) (ms ns : List Node)
      → all_hold row ms ≡ all_hold row ns
      → meaning row n ≡ holds
      → all_hold row ms ≡ all_hold row (if b then ns else n ∷ ns)
  unfolding all_hold
  left_out true n ms ns e h = e
  left_out false n ms ns e h = rw h e

  conjunct_unfolded :
      (c : Conjunct) (empty : Bool)
      → optimizer_fold_comparison fl c.node ≡ none
      → fold_conjunct fl steps c empty ≡ (c, empty)
  unfolding fold_conjunct
  conjunct_unfolded c empty e = rw (fold_conjunct, e) refl

  conjunct_true :
      (c : Conjunct) (empty : Bool)
      → optimizer_fold_comparison fl c.node ≡ some true
      → fold_conjunct fl steps c empty ≡ (record c { destination = Destination.dropped }, empty)
  unfolding fold_conjunct
  conjunct_true c empty e = rw (fold_conjunct, e) refl

  conjunct_false :
      (c : Conjunct) (empty : Bool)
      → optimizer_fold_comparison fl c.node ≡ some false
      → fold_conjunct fl steps c empty ≡ (c, if on_left_join steps c then empty else true)
  unfolding fold_conjunct
  conjunct_false c empty e = rw (fold_conjunct, e) refl

  live_step :
      (c : Conjunct) (empty : Bool) (cs ds : List Conjunct)
      → all_hold row (live cs) ≡ all_hold row (live ds)
      → all_hold row (live ((fold_conjunct fl steps c empty).0 ∷ cs)) ≡ all_hold row (live (c ∷ ds))
  unfolding live
  live_step c empty cs ds same = elim (Option-cases (optimizer_fold_comparison fl c.node)) [
    | inl e ↦
        rw (conjunct_unfolded c empty e)
          (both_lists (is_dropped c.destination) c.node (live cs) (live ds) same)
    | inr (true, e) ↦ rw (conjunct_true c empty e) (
        left_out (is_dropped c.destination) c.node (live cs) (live ds) same
          (fold_comparison_sound fl row laws c.node true e))
    | inr (false, e) ↦
        rw (conjunct_false c empty e)
          (both_lists (is_dropped c.destination) c.node (live cs) (live ds) same)
  ]

  live_fold :
      (cs : List Conjunct) (empty : Bool)
      → all_hold row (live (optimizer_fold_constants fl steps cs empty).0) ≡ all_hold row (live cs)
  unfolding optimizer_fold_constants
  live_fold [] empty = refl
  live_fold (c ∷ cs) empty =
      live_step c empty (optimizer_fold_constants fl steps cs (fold_conjunct fl steps c empty).1).0
        cs (live_fold cs (fold_conjunct fl steps c empty).1)

  -- A flag that a step raises.
  raised :
      (c : Conjunct) (empty : Bool) (ns : List Node)
      → (fold_conjunct fl steps c empty).1 ≡ true
      → (empty ≡ true) ⊎ (all_hold row (if on_left_join steps c then ns else c.node ∷ ns) ≡ no)
  unfolding all_hold
  raised c empty ns up = elim (Option-cases (optimizer_fold_comparison fl c.node)) [
    | inl e ↦ inl (rw (conjunct_unfolded c empty e) at up)
    | inr (true, e) ↦ inl (rw (conjunct_true c empty e) at up)
    | inr (false, e) ↦ elim (Bool-cases (on_left_join steps c)) [
      | inl l ↦ inl (rw (conjunct_false c empty e, l) at up)
      | inr o ↦ inr (rw (o, fold_comparison_sound fl row laws c.node false e) refl)
    ]
  ]

  stays_no :
      (b : Bool) (n : Node) (ns : List Node)
      → all_hold row ns ≡ no
      → all_hold row (if b then ns else n ∷ ns) ≡ no
  unfolding all_hold
  stays_no true n ns e = e
  stays_no false n ns e = both_no_right (meaning row n) (all_hold row ns) e

  empty_fold :
      (cs : List Conjunct) (empty : Bool)
      → (optimizer_fold_constants fl steps cs empty).1 ≡ true
      → (empty ≡ true) ⊎ (all_hold row (required steps cs) ≡ no)
  unfolding optimizer_fold_constants required on_left_join
  empty_fold [] empty up = inl up
  empty_fold (c ∷ cs) empty up = elim (empty_fold cs (fold_conjunct fl steps c empty).1 up) [
    | inl e ↦ raised c empty (required steps cs) e
    | inr n ↦ inr (stays_no (on_left_join steps c) c.node (required steps cs) n)
  ]

  -- On every row that compares constants by their values, the conditions of the conjuncts that
  -- folding does not drop are together as true as those before it; and if folding says that the
  -- result is empty, the conditions of WHERE and of the inner joins are together false.
  pub fold_constants_sound :
      (cs : List Conjunct)
      → (all_hold row (live (optimizer_fold_constants fl steps cs false).0)
          ≡ all_hold row (live cs))
        × ((optimizer_fold_constants fl steps cs false).1 ≡ true
            → all_hold row (required steps cs) ≡ no)
  fold_constants_sound cs = (
    live_fold cs false,
    λ up. elim (empty_fold cs false up) [ inl e ↦ absurd (ground arith) | inr n ↦ n ],
  )
