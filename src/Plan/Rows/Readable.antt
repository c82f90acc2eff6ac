-- ===== src/Plan/Rows/Readable.antt =====
-- src/planner/planner.c: the arrays of a row set stay long enough for its count, and a reversed row set
-- shows the same rows from behind.
use compute_ql.Shared.{
  ℕ, zero, suc, ◌-◌, ◌^◌, ◌≤◌, ◌<◌, ◌≡◌, refl, sym, ap, ◌∙◌, inl, inr, Bool, true, false, List, [],
  ◌∷◌, ◌++◌, map, reverse, Option, none, some, if◌then◌else◌, leb, min, take, drop, get_or, length,
  All, length-drop, arith, Bool-cases, take_all,
}
use mathlib.Core.List.{reverse-append}
use compute_ql.Ir.{Node}
use compute_ql.Plan.Rows.{
  RowSet, AggColumn, Materialized, ExecResult, max_u64, clause_number, move, move_column,
  limit_materialized, limit_rows, plan_apply_limit, fill_reversed, plan_reverse_rowset,
}
use compute_ql.Plan.Rows.Page.{visible_rows, visible_array, take_zero, u64_sub_lem, CountsFit}

-- An array of at least `n` entries, or none.
abbrev pub Holds {ℓ} : {A : Type ℓ} → ℕ → Option (List A) → Type 0
Holds n none = Unit
Holds n (some xs) = n ≤ length xs

module _ {ℓ} {A : Type ℓ} where
  Holds-le : (m n : ℕ) (a : Option (List A)) → m ≤ n → Holds n a → Holds m a
  Holds-le m n none le h = h
  Holds-le m n (some xs) le h = omega arith

  Holds-move : (o l n : ℕ) (a : Option (List A)) → Holds n a → Holds (min (n - o) l) (move o a)
  Holds-move o l n none h = h
  Holds-move o l n (some xs) h = omega (arith, length-drop o xs)

  All-le :
      (m n : ℕ) (xss : List (List A))
      → m ≤ n
      → All (λ xs. n ≤ length xs) xss
      → All (λ xs. m ≤ length xs) xss
  All-le m n [] le h = h
  All-le m n (xs ∷ xss) le (h, hs) = (omega arith, All-le m n xss le hs)

  All-move :
      (o l n : ℕ) (xss : List (List A))
      → All (λ xs. n ≤ length xs) xss
      → All (λ xs. min (n - o) l ≤ length xs) (map (drop o) xss)
  All-move o l n [] h = h
  All-move o l n (xs ∷ xss) (h, hs) = (omega (arith, length-drop o xs), All-move o l n xss hs)

  take-get_or :
      (n : ℕ) (xs : List A) (d : A)
      → n < length xs
      → take (suc n) xs ≡ take n xs ++ (get_or xs n d ∷ [])
  take-get_or n [] d h = absurd (omega arith)
  take-get_or zero (x ∷ xs) d h = ap (λ ys. x ∷ ys) (take_zero 0 xs refl)
  take-get_or (suc n) (x ∷ xs) d h = ap (λ ys. x ∷ ys) (take-get_or n xs d (omega arith))

  fill_reversed_lem :
      (n : ℕ) (xs : List A) (d : A) → n ≤ length xs → fill_reversed d xs n ≡ reverse (take n xs)
  unfolding fill_reversed
  fill_reversed_lem zero xs d h = refl
  fill_reversed_lem (suc n) xs d h =
      ap (λ ys. get_or xs n d ∷ ys) (fill_reversed_lem n xs d (omega arith))
      ∙ sym (
          ap reverse (take-get_or n xs d (omega arith))
          ∙ reverse-append (take n xs) (get_or xs n d ∷ []))

  length-fill_reversed : (n : ℕ) (xs : List A) (d : A) → length (fill_reversed d xs n) ≡ n
  unfolding fill_reversed
  length-fill_reversed zero xs d = refl
  length-fill_reversed (suc n) xs d = ap suc (length-fill_reversed n xs d)

  visible-fill_reversed :
      (n : ℕ) (xs : List A) (d : A)
      → n ≤ length xs
      → take n (fill_reversed d xs n) ≡ reverse (take n xs)
  visible-fill_reversed n xs d h =
      take_all n (fill_reversed d xs n) (omega (arith, length-fill_reversed n xs d))
      ∙ fill_reversed_lem n xs d h

  abbrev pub reverse_array : Option (List A) → Option (List A)
  reverse_array none = none
  reverse_array (some xs) = some (reverse xs)

  All-reversed :
      (n : ℕ) (d : A) (xss : List (List A))
      → All (λ xs. n ≤ length xs) xss
      → map (take n) (map (λ xs. fill_reversed d xs n) xss) ≡ map reverse (map (take n) xss)
  All-reversed n d [] h = refl
  All-reversed n d (xs ∷ xss) (h, hs) = rw (visible-fill_reversed n xs d h, All-reversed n d xss hs)

-- Every array of the result has an entry for each row that the count promises.
module _ {F64 : Type 0} where
  abbrev pub RowsReadable : RowSet F64 → Type 0
  RowsReadable rs = All (λ xs. rs.count ≤ length xs) rs.row_indices × Holds rs.count rs.scores

  abbrev pub ColumnReadable : ℕ → AggColumn F64 → Type 0
  ColumnReadable n c = Holds n c.numeric_values × Holds n c.string_values × Holds n c.is_null

  abbrev pub ColumnsReadable : ℕ → List (AggColumn F64) → Type 0
  ColumnsReadable n [] = Unit
  ColumnsReadable n (c ∷ cs) = ColumnReadable n c × ColumnsReadable n cs

  abbrev pub Readable : ExecResult F64 → Type 0
  Readable r = RowsReadable r.rows × ColumnsReadable r.materialized.count r.materialized.columns

  columns_le :
      (m n : ℕ) (cs : List (AggColumn F64)) → m ≤ n → ColumnsReadable n cs → ColumnsReadable m cs
  columns_le m n [] le h = h
  columns_le m n (c ∷ cs) le ((hn, hs, hz), h) = (
    (
      Holds-le m n c.numeric_values le hn,
      Holds-le m n c.string_values le hs,
      Holds-le m n c.is_null le hz,
    ),
    columns_le m n cs le h,
  )

  columns-move :
      (o l n : ℕ) (cs : List (AggColumn F64))
      → ColumnsReadable n cs
      → ColumnsReadable (min (n - o) l) (map (move_column o) cs)
  unfolding move_column
  columns-move o l n [] h = h
  columns-move o l n (c ∷ cs) ((hn, hs, hz), h) = (
    (
      Holds-move o l n c.numeric_values hn,
      Holds-move o l n c.string_values hs,
      Holds-move o l n c.is_null hz,
    ),
    columns-move o l n cs h,
  )

  limit_rows-RowsReadable :
      (o l : ℕ) (rs : RowSet F64)
      → rs.count < 2 ^ 64
      → RowsReadable rs
      → RowsReadable (limit_rows o l rs)
  unfolding limit_rows
  limit_rows-RowsReadable o l rs fits (h, hs) = elim (Bool-cases (leb rs.count o)) [
    | inl e ↦ rw e (
      All-le 0 rs.count rs.row_indices (omega arith) h,
      Holds-le 0 rs.count rs.scores (omega arith) hs,
    )
    | inr e ↦
        rw (e, u64_sub_lem rs.count o (ground (arith, e)) fits)
          (
            All-move o l rs.count rs.row_indices h,
            Holds-le (min (rs.count - o) l) rs.count rs.scores (omega arith) hs,
          )
  ]

  limit_materialized-Readable :
      (o l : ℕ) (m : Materialized F64)
      → m.count < 2 ^ 64
      → ColumnsReadable m.count m.columns
      → ColumnsReadable (limit_materialized o l m).count (limit_materialized o l m).columns
  unfolding limit_materialized
  limit_materialized-Readable o l m fits h = elim (Bool-cases (leb m.count o)) [
    | inl e ↦ rw e (columns_le 0 m.count m.columns (omega arith) h)
    | inr e ↦
        rw (e, u64_sub_lem m.count o (ground (arith, e)) fits)
          (columns-move o l m.count m.columns h)
  ]

  if_Readable :
      (b : Bool) (r s : ExecResult F64) → Readable r → Readable s → Readable (if b then r else s)
  if_Readable true r s hr hs = hr
  if_Readable false r s hr hs = hs

  scores_reversed :
      (n : ℕ) (zero_value : F64) (a : Option (List F64))
      → Holds n a
      → visible_array n (elim a [ none ↦ none | some xs ↦ some (fill_reversed zero_value xs n) ])
        ≡ reverse_array (visible_array n a)
  scores_reversed n d none h = refl
  scores_reversed n d (some xs) h = ap some (visible-fill_reversed n xs d h)

  -- If the counts of a result fit in a U64 and every array has an entry for each of its rows, each
  -- has one after LIMIT and OFFSET too: no moved pointer leaves its array before the last row.
  pub apply_limit-Readable :
      (r : ExecResult F64) (offset_node limit_node : Option Node)
      → CountsFit r
      → Readable r
      → Readable (plan_apply_limit r offset_node limit_node)
  unfolding plan_apply_limit
  apply_limit-Readable r offset_node limit_node (fr, fm) (hr, hm) =
      let o : ℕ = clause_number offset_node 0 in
      let l : ℕ = clause_number limit_node max_u64 in
      if_Readable r.is_materialized
        (record r { materialized = limit_materialized o l r.materialized })
        (record r { rows = limit_rows o l r.rows })
        (hr, limit_materialized-Readable o l r.materialized fm hm)
        (limit_rows-RowsReadable o l r.rows fr hr, hm)

  -- A reversed row set shows the rows of each table from behind, and the scores with them, if the
  -- arrays have an entry for each row.
  pub reverse_rowset_lem :
      (zero_value : F64) (rs : RowSet F64)
      → RowsReadable rs
      → (visible_rows (plan_reverse_rowset zero_value rs) ≡ map reverse (visible_rows rs))
        × (visible_array rs.count (plan_reverse_rowset zero_value rs).scores
            ≡ reverse_array (visible_array rs.count rs.scores))
  unfolding plan_reverse_rowset visible_rows
  reverse_rowset_lem zero_value rs (h, hs) =
      (All-reversed rs.count 0 rs.row_indices h, scores_reversed rs.count zero_value rs.scores hs)
