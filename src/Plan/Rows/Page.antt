-- ===== src/Plan/Rows/Page.antt =====
-- src/planner/planner.c, `plan_apply_limit` and `plan_reverse_rowset`: what is left to be read.
use compute_ql.Shared.{
  ℕ, zero, suc, ◌-◌, ◌^◌, ◌≤◌, ◌<◌, ◌≡◌, refl, sym, ap, ◌∙◌, inl, inr, List, [], ◌∷◌, map, Option,
  none, some, if◌then◌else◌, leb, min, take, drop, arith, Bool-cases,
}
use compute_ql.Ir.{Node}
use compute_ql.Plan.Rows.{
  RowSet, AggColumn, Materialized, ExecResult, max_u64, u64_sub, clause_number, move, move_column,
  limit_materialized, limit_rows, plan_apply_limit, plan_result_row_count,
}

-- Where the offset is below the count, the difference of the two does not wrap around.
pub u64_sub_lem : (a b : ℕ) → b ≤ a → a < 2 ^ 64 → u64_sub a b ≡ a - b
unfolding u64_sub
u64_sub_lem a b h fits = omega arith

-- The rows of a page: `offset` are skipped and `limit` of the others are kept.
abbrev pub page {ℓ} : {A : Type ℓ} → ℕ → ℕ → List A → List A
page offset limit xs = take limit (drop offset xs)

abbrev pub visible_array {ℓ} : {A : Type ℓ} → ℕ → Option (List A) → Option (List A)
visible_array n none = none
visible_array n (some xs) = some (take n xs)

abbrev page_array {ℓ} : {A : Type ℓ} → ℕ → ℕ → Option (List A) → Option (List A)
page_array o l none = none
page_array o l (some xs) = some (page o l xs)

module _ {ℓ} {A : Type ℓ} where
  pub take_zero : (n : ℕ) (xs : List A) → n ≡ 0 → take n xs ≡ []
  take_zero zero xs e = refl
  take_zero (suc n) xs e = absurd (omega arith)

  take_nil : (n : ℕ) → take {A = A} n [] ≡ []
  take_nil zero = refl
  take_nil (suc n) = refl

  take_cong : (m n : ℕ) (xs : List A) → m ≡ n → take m xs ≡ take n xs
  take_cong m n xs e = ap (λ k. take k xs) e

  take-min : (n l : ℕ) (xs : List A) → take (min n l) xs ≡ take l (take n xs)
  take-min zero l xs = take_zero (min 0 l) xs (omega arith) ∙ sym (take_nil l)
  take-min (suc n) zero xs = take_zero (min (suc n) 0) xs (omega arith)
  take-min (suc n) (suc l) [] = take_nil (min (suc n) (suc l))
  take-min (suc n) (suc l) (x ∷ xs) =
      take_cong (min (suc n) (suc l)) (suc (min n l)) (x ∷ xs) (omega arith)
      ∙ ap (λ ys. x ∷ ys) (take-min n l xs)

  -- To take the rows of a page from the moved array is to page through the rows in sight.
  take-page : (o l n : ℕ) (xs : List A) → take (min (n - o) l) (drop o xs) ≡ page o l (take n xs)
  take-page zero l n xs = take_cong (min (n - 0) l) (min n l) xs (omega arith) ∙ take-min n l xs
  take-page (suc o) l zero xs =
      take_zero (min (0 - suc o) l) (drop (suc o) xs) (omega arith) ∙ sym (take_nil l)
  take-page (suc o) l (suc n) [] = take_nil (min (suc n - suc o) l) ∙ sym (take_nil l)
  take-page (suc o) l (suc n) (x ∷ xs) =
      take_cong (min (suc n - suc o) l) (min (n - o) l) (drop o xs) (omega arith)
      ∙ take-page o l n xs

  take-page_past : (o l n : ℕ) (xs : List A) → n ≤ o → [] ≡ page o l (take n xs)
  take-page_past o l n xs h =
      sym (take_zero (min (n - o) l) (drop o xs) (omega arith)) ∙ take-page o l n xs

  visible-move :
      (o l n : ℕ) (a : Option (List A))
      → visible_array (min (n - o) l) (move o a) ≡ page_array o l (visible_array n a)
  visible-move o l n none = refl
  visible-move o l n (some xs) = ap some (take-page o l n xs)

  visible_past :
      (o l n : ℕ) (a : Option (List A))
      → n ≤ o
      → visible_array 0 a ≡ page_array o l (visible_array n a)
  visible_past o l n none h = refl
  visible_past o l n (some xs) h = ap some (take-page_past o l n xs h)

map_cong {ℓ κ ν} :
    {A : Type ℓ} {B : Type κ} {C : Type ν} (f : B → C) (g : A → B) (h : A → C)
    → ((x : A) → h x ≡ f (g x))
    → (xs : List A) → map h xs ≡ map f (map g xs)
map_cong f g h e [] = refl
map_cong f g h e (x ∷ xs) = rw (e x, map_cong f g h e xs)

map_cong_moved {ℓ κ ν} :
    {A : Type ℓ} {B : Type κ} {C : Type ν} (f : B → C) (g : A → B) (h : A → C) (m : A → A)
    → ((x : A) → h (m x) ≡ f (g x))
    → (xs : List A) → map h (map m xs) ≡ map f (map g xs)
map_cong_moved f g h m e [] = refl
map_cong_moved f g h m e (x ∷ xs) = rw (e x, map_cong_moved f g h m e xs)

module _ {F64 : Type 0} where
  -- The part of an array that the row count lets be read.
  unfoldable pub visible_rows : RowSet F64 → List (List ℕ)
  visible_rows rs = map (take rs.count) rs.row_indices

  unfoldable visible_column : ℕ → AggColumn F64 → AggColumn F64
  visible_column n c = record c {
    numeric_values = visible_array n c.numeric_values;
    string_values = visible_array n c.string_values;
    is_null = visible_array n c.is_null;
  }

  unfoldable page_column : ℕ → ℕ → AggColumn F64 → AggColumn F64
  page_column o l c = record c {
    numeric_values = page_array o l c.numeric_values;
    string_values = page_array o l c.string_values;
    is_null = page_array o l c.is_null;
  }

  unfoldable pub visible_columns : Materialized F64 → List (AggColumn F64)
  unfolding visible_column
  visible_columns m = map (visible_column m.count) m.columns

  column-move :
      (o l n : ℕ) (c : AggColumn F64)
      → visible_column (min (n - o) l) (move_column o c) ≡ page_column o l (visible_column n c)
  unfolding visible_column page_column move_column
  column-move o l n c = rw (
    visible-move o l n c.numeric_values,
    visible-move o l n c.string_values,
    visible-move o l n c.is_null,
  )

  column_past :
      (o l n : ℕ) (c : AggColumn F64)
      → n ≤ o
      → visible_column 0 c ≡ page_column o l (visible_column n c)
  unfolding visible_column page_column
  column_past o l n c h = rw (
    visible_past o l n c.numeric_values h,
    visible_past o l n c.string_values h,
    visible_past o l n c.is_null h,
  )

  rows_page :
      (o l : ℕ) (rs : RowSet F64)
      → rs.count < 2 ^ 64
      → visible_rows (limit_rows o l rs) ≡ map (page o l) (visible_rows rs)
  unfolding visible_rows limit_rows
  rows_page o l rs h = elim (Bool-cases (leb rs.count o)) [
    | inl e ↦ rw e (
        map_cong (page o l) (take rs.count) (take 0)
          (λ xs. take-page_past o l rs.count xs (ground (arith, e))) rs.row_indices)
    | inr e ↦
        rw (e, u64_sub_lem rs.count o (ground (arith, e)) h)
          (map_cong_moved (page o l) (take rs.count) (take (min (rs.count - o) l)) (drop o)
            (take-page o l rs.count) rs.row_indices)
  ]

  columns_page :
      (o l : ℕ) (m : Materialized F64)
      → m.count < 2 ^ 64
      → visible_columns (limit_materialized o l m) ≡ map (page_column o l) (visible_columns m)
  unfolding visible_columns limit_materialized
  columns_page o l m h = elim (Bool-cases (leb m.count o)) [
    | inl e ↦ rw e (
        map_cong (page_column o l) (visible_column m.count) (visible_column 0)
          (λ c. column_past o l m.count c (ground (arith, e))) m.columns)
    | inr e ↦
        rw (e, u64_sub_lem m.count o (ground (arith, e)) h)
          (map_cong_moved (page_column o l) (visible_column m.count)
            (visible_column (min (m.count - o) l)) (move_column o) (column-move o l m.count)
            m.columns)
  ]

  count-limit_rows :
      (o l : ℕ) (rs : RowSet F64)
      → rs.count < 2 ^ 64
      → (limit_rows o l rs).count ≡ min (rs.count - o) l
  unfolding limit_rows
  count-limit_rows o l rs h = elim (Bool-cases (leb rs.count o)) [
    | inl e ↦ rw e (ground (arith, e))
    | inr e ↦ rw (e, u64_sub_lem rs.count o (ground (arith, e)) h) refl
  ]

  count-limit_materialized :
      (o l : ℕ) (m : Materialized F64)
      → m.count < 2 ^ 64
      → (limit_materialized o l m).count ≡ min (m.count - o) l
  unfolding limit_materialized
  count-limit_materialized o l m h = elim (Bool-cases (leb m.count o)) [
    | inl e ↦ rw e (ground (arith, e))
    | inr e ↦ rw (e, u64_sub_lem m.count o (ground (arith, e)) h) refl
  ]

  scores-limit_rows : (o l : ℕ) (rs : RowSet F64) → (limit_rows o l rs).scores ≡ rs.scores
  unfolding limit_rows
  scores-limit_rows o l rs = elim (Bool-cases (leb rs.count o)) [
    | inl e ↦ rw e refl
    | inr e ↦ rw e refl
  ]

-- The counts are U64.
abbrev pub CountsFit : {F64 : Type 0} → ExecResult F64 → Type 0
CountsFit r = (r.rows.count < 2 ^ 64) × (r.materialized.count < 2 ^ 64)

-- What a result shows: how many rows, and for each of them the rows it points to and its score, or
-- the values it holds.
pub data View (F64 : Type 0) : Type 0 where
  row_lists : ℕ → List (List ℕ) → Option (List F64) → View F64
  values : ℕ → List (AggColumn F64) → View F64

module _ {F64 : Type 0} where
  unfoldable pub view : ExecResult F64 → View F64
  view r =
      if r.is_materialized
      then values r.materialized.count (visible_columns r.materialized)
      else row_lists r.rows.count (visible_rows r.rows) (visible_array r.rows.count r.rows.scores)

  -- The scores are not moved: the first of them are kept.
  unfoldable pub view_page : ℕ → ℕ → View F64 → View F64
  unfolding page_column
  view_page o l (row_lists n rows scores) =
      row_lists (min (n - o) l) (map (page o l) rows) (visible_array (min (n - o) l) scores)
  view_page o l (values n columns) = values (min (n - o) l) (map (page_column o l) columns)

  visible_again :
      (m n : ℕ) (a : Option (List F64))
      → m ≤ n
      → visible_array m a ≡ visible_array m (visible_array n a)
  visible_again m n none h = refl
  visible_again m n (some xs) h = ap some (take_cong m (min n m) xs (omega arith) ∙ take-min n m xs)

  rows_view :
      (o l : ℕ) (rs : RowSet F64)
      → rs.count < 2 ^ 64
      → row_lists
          (limit_rows o l rs).count
          (visible_rows (limit_rows o l rs))
          (visible_array (limit_rows o l rs).count (limit_rows o l rs).scores)
        ≡ view_page o l (row_lists rs.count (visible_rows rs) (visible_array rs.count rs.scores))
  unfolding view_page
  rows_view o l rs h =
      rw (rows_page o l rs h, count-limit_rows o l rs h, scores-limit_rows o l rs)
        (ap (row_lists (min (rs.count - o) l) (map (page o l) (visible_rows rs)))
          (visible_again (min (rs.count - o) l) rs.count rs.scores (omega arith)))

  values_view :
      (o l : ℕ) (m : Materialized F64)
      → m.count < 2 ^ 64
      → values (limit_materialized o l m).count (visible_columns (limit_materialized o l m))
        ≡ view_page o l (values m.count (visible_columns m))
  unfolding view_page
  values_view o l m h = rw (columns_page o l m h, count-limit_materialized o l m h) refl

  -- If the counts of a result fit in a U64, LIMIT and OFFSET show the page of its row indices, or
  -- of the columns that it holds: of the rows in sight, the first `offset` are skipped and the next
  -- `limit` are kept, as the count says. The scores of a row set are not skipped: the first ones
  -- are shown beside the rows that are kept. Without a LIMIT clause the limit is the largest U64,
  -- without an OFFSET clause the offset is 0.
  pub apply_limit_page :
      (r : ExecResult F64) (offset_node limit_node : Option Node)
      → CountsFit r
      → view (plan_apply_limit r offset_node limit_node)
        ≡ view_page (clause_number offset_node 0) (clause_number limit_node max_u64) (view r)
  unfolding view plan_apply_limit
  apply_limit_page r offset_node limit_node (hr, hm) =
      let o : ℕ = clause_number offset_node 0 in
      let l : ℕ = clause_number limit_node max_u64 in
      elim (Bool-cases r.is_materialized) [
        | inl e ↦ rw e (values_view o l r.materialized hm)
        | inr e ↦ rw e (rows_view o l r.rows hr)
      ]

  -- The row count after LIMIT and OFFSET is the count before it less the offset, or 0, and at most
  -- the limit, if the counts fit in a U64.
  pub result_row_count-apply_limit :
      (r : ExecResult F64) (offset_node limit_node : Option Node)
      → CountsFit r
      → plan_result_row_count (plan_apply_limit r offset_node limit_node)
        ≡ min
            (plan_result_row_count r - clause_number offset_node 0)
            (clause_number limit_node max_u64)
  unfolding plan_result_row_count plan_apply_limit
  result_row_count-apply_limit r offset_node limit_node (hr, hm) =
      let o : ℕ = clause_number offset_node 0 in
      let l : ℕ = clause_number limit_node max_u64 in
      elim (Bool-cases r.is_materialized) [
        | inl e ↦ rw e (count-limit_materialized o l r.materialized hm)
        | inr e ↦ rw e (count-limit_rows o l r.rows hr)
      ]
