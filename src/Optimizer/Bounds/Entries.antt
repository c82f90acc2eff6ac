-- ===== src/Optimizer/Bounds/Entries.antt =====
-- src/optimizer/optimizer.c: the bounds of a column against the values of a row.
use compute_ql.Shared.{
  ℕ, zero, suc, ◌≡◌, refl, subst, inl, inr, true, not, ◌&&◌, some, arith, if◌then◌else◌, Bool-cases,
  Option-cases, List, [], ◌∷◌, ◌++◌, All, set, get_or, length, ◌==◌, leb,
}
use compute_ql.Text.{Text, str8_match, match_any_case}
use compute_ql.Float.{Float}
use compute_ql.Ir.{Node}
use compute_ql.Optimizer.{Relation, Conjunct}
use compute_ql.Optimizer.Assign.{is_dropped}
use compute_ql.Optimizer.Load.{max_conjuncts}
use compute_ql.Optimizer.Logic.{Truth, no, unknown, holds, both, Row}
use compute_ql.Optimizer.Bounds.{ColumnBounds, no_bounds, bounds_index, optimizer_find_bounds}
use compute_ql.Optimizer.Bounds.Passes.{ReadsColumns}
use compute_ql.Optimizer.Bounds.Tighten.{within, spells, fits}

pub All-get_or {ℓ κ} :
    {A : Type ℓ} (P : A → Type κ) (xs : List A) (i : ℕ) (d : A) → All P xs → P d → P (get_or xs i d)
All-get_or P [] i d a p = p
All-get_or P (x ∷ xs) zero d (a, rest) p = a
All-get_or P (x ∷ xs) (suc i) d (a, rest) p = All-get_or P xs i d rest p

pub All-set {ℓ κ} :
    {A : Type ℓ} (P : A → Type κ) (xs : List A) (i : ℕ) (v : A)
    → All P xs
    → P v
    → All P (set xs i v)
All-set P [] i v a p = tt
All-set P (x ∷ xs) zero v (a, rest) p = (p, rest)
All-set P (x ∷ xs) (suc i) v (a, rest) p = (a, All-set P xs i v rest p)

All-snoc {ℓ κ} :
    {A : Type ℓ} (P : A → Type κ) (xs : List A) (v : A) → All P xs → P v → All P (xs ++ v ∷ [])
All-snoc P [] v a p = (p, tt)
All-snoc P (x ∷ xs) v (a, rest) p = (a, All-snoc P xs v rest p)

get_or-snoc {ℓ} : {A : Type ℓ} (xs : List A) (v d : A) → get_or (xs ++ v ∷ []) (length xs) d ≡ v
get_or-snoc [] v d = refl
get_or-snoc (x ∷ xs) v d = get_or-snoc xs v d

pub both_left : (a b : Truth) → both a b ≡ holds → a ≡ holds
both_left no b h = cc
both_left unknown no h = cc
both_left unknown unknown h = cc
both_left unknown holds h = cc
both_left holds b h = refl

pub both_right : (a b : Truth) → both a b ≡ holds → b ≡ holds
both_right no b h = cc
both_right unknown no h = cc
both_right unknown unknown h = cc
both_right unknown holds h = cc
both_right holds b h = h

-- The conditions of WHERE that are not dropped.
unfoldable pub where_live : List Conjunct → List Node
where_live [] = []
where_live (c ∷ cs) =
    if c.from_where && not (is_dropped c.destination) then c.node ∷ where_live cs else where_live cs

module _ (fl : Float) {V : Type 0} (row : Row V) (rs : List Relation)
    (reads : ReadsColumns fl row rs) where
  -- The column's values satisfy its entry.
  unfoldable pub Entry : ColumnBounds fl.F64 → Type 0
  Entry b = fits fl b (reads.number b.relation b.column) (reads.text b.relation b.column) ≡ true

  -- The entry is one of this column.
  abbrev pub IsOf : ColumnBounds fl.F64 → ℕ → Text → Type 0
  IsOf b relation column =
      (reads.number b.relation b.column ≡ reads.number relation column)
      × (reads.text b.relation b.column ≡ reads.text relation column)

  same_key :
      (b : ColumnBounds fl.F64) (relation : ℕ) (column : Text)
      → ((b.relation == relation) && str8_match b.column column match_any_case) ≡ true
      → IsOf b relation column
  same_key b relation column h =
      let same : b.relation ≡ relation = ground arith in
      let alike : str8_match b.column column match_any_case ≡ true = ground arith in
      rw same (
        reads.number_alike relation b.column column alike,
        reads.text_alike relation b.column column alike,
      )

  index_is :
      (bs : List (ColumnBounds fl.F64)) (relation : ℕ) (column : Text) (i : ℕ)
      → bounds_index fl bs relation column ≡ some i
      → IsOf (get_or bs i (no_bounds fl)) relation column
  unfolding bounds_index
  index_is [] relation column i e = cc
  index_is (b ∷ bs) relation column i e =
      elim (Bool-cases ((b.relation == relation) && str8_match b.column column match_any_case)) [
        | inl h ↦ rw (some_index 0 i (rw h at e)) (same_key b relation column h)
        | inr h ↦ elim (Option-cases (bounds_index fl bs relation column)) [
          | inl f ↦ absurd (ground arith)
          | inr (k, f) ↦
              rw (some_index (suc k) i (rw (h, f) at e)) (index_is bs relation column k f)
        ]
      ]
    where
      some_index : (k i : ℕ) → some k ≡ some i → i ≡ k
      some_index k i e = cc

  pub fresh-Entry :
      (relation : ℕ) (column : Text)
      → Entry (record (no_bounds fl) { relation = relation; column = column })
  unfolding Entry fits within spells
  fresh-Entry relation column = refl

  IsFound : ℕ → Text → List (ColumnBounds fl.F64) × ℕ → Type 0
  IsFound relation column (found, i) =
      All Entry found × IsOf (get_or found i (no_bounds fl)) relation column

  abbrev new_entry : ℕ → Text → ColumnBounds fl.F64
  new_entry relation column = record (no_bounds fl) { relation = relation; column = column }

  pair_same : (p q : List (ColumnBounds fl.F64) × ℕ) → some p ≡ some q → p ≡ q
  pair_same p q e = cc

  pub find_bounds_lem :
      (bs found : List (ColumnBounds fl.F64)) (relation : ℕ) (column : Text) (i : ℕ)
      → All Entry bs
      → optimizer_find_bounds fl bs relation column ≡ some (found, i)
      → All Entry found × IsOf (get_or found i (no_bounds fl)) relation column
  unfolding optimizer_find_bounds IsFound
  find_bounds_lem bs found relation column i h e =
      elim (Option-cases (bounds_index fl bs relation column)) [
        | inr (k, f) ↦
            subst (IsFound relation column)
              (pair_same (bs, k) (found, i) (rw (optimizer_find_bounds, f) at e))
              (h, index_is bs relation column k f)
        | inl f ↦ elim (Bool-cases (leb max_conjuncts (length bs))) [
          | inl full ↦ absurd (ground arith)
          | inr room ↦
              subst (IsFound relation column)
                (pair_same (bs ++ new_entry relation column ∷ [], length bs) (found, i)
                  (rw (optimizer_find_bounds, f, room) at e))
                (
                  All-snoc Entry bs (new_entry relation column) h (fresh-Entry relation column),
                  rw (get_or-snoc bs (new_entry relation column) (no_bounds fl)) (refl, refl),
                )
        ]
      ]
