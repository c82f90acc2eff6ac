-- ===== src/Protocol/Rows.antt =====
-- src/server/pg_protocol.c: a data row says what the cells of the result set are. The reader here is
-- the other end's, by the description of the format: a count of 2 bytes, and for each cell a length
-- of 4 bytes, all ones for NULL, with that many bytes behind it.
use mathlib.Core.List.{append_assoc, append-nil}
use compute_ql.Shared.{
  ℕ, zero, suc, ◌+◌, ◌-◌, ◌*◌, ◌/◌, ◌%◌, ◌^◌, ◌<◌, ◌≡◌, refl, sym, ap, ◌∙◌, false, List, [], ◌∷◌,
  ◌++◌, Option, none, some, if◌then◌else◌, ltb, ◌==◌, length, get_or, take, drop, arith,
  length-append, Bool-cases, inl, inr, take_front, drop_front,
}
use compute_ql.Text.{Text}
use compute_ql.Protocol.{
  ResultSet, pg_be32, pg_be16, pg_read_be32, join, cell_parts, cells_parts, data_row_parts,
}
use compute_ql.Protocol.Frames.{read_be32-be32}

-- A cell of the result set, `none` for NULL.
abbrev pub cell_of : ResultSet → ℕ → Option Text
cell_of rs i = if get_or rs.cell_is_null i false then none else some (get_or rs.cell_text i [])

abbrev pub cells_from : ResultSet → ℕ → ℕ → List (Option Text)
cells_from rs i zero = []
cells_from rs i (suc count) = cell_of rs i ∷ cells_from rs (suc i) count

unfoldable pub read_cell : Text → Option (Option Text × Text)
read_cell s =
    let n : ℕ = pg_read_be32 s in
    let rest : Text = drop 4 s in
    if n == 2 ^ 32 - 1
    then some (none, rest)
    else if ltb (length rest) n
    then none
    else some (some (take n rest), drop n rest)

abbrev pub put_cell : Option Text → Option (List (Option Text)) → Option (List (Option Text))
put_cell c none = none
put_cell c (some cs) = some (c ∷ cs)

-- As many cells as the count says, and nothing behind them.
unfoldable pub read_cells : ℕ → Text → Option (List (Option Text))
read_cells zero [] = some []
read_cells zero (x ∷ s) = none
read_cells (suc count) s = elim (read_cell s) [
  | none ↦ none
  | some (c, rest) ↦ put_cell c (read_cells count rest)
]

unfoldable pub read_row : Text → Option (List (Option Text))
read_row (a ∷ (b ∷ s)) = read_cells (a * 256 + b) s
read_row _ = none

join-append : (ps qs : List Text) → join (ps ++ qs) ≡ join ps ++ join qs
unfolding join
join-append [] qs = refl
join-append (p ∷ ps) qs =
    ap (λ t. p ++ t) (join-append ps qs) ∙ sym (append_assoc p (join ps) (join qs))

behind_length : (v : ℕ) (s : Text) → drop 4 (pg_be32 v ++ s) ≡ s
unfolding pg_be32
behind_length v s = refl

read_text :
    (t rest : Text)
    → length t < 2 ^ 32 - 1
    → read_cell (pg_be32 (length t % 2 ^ 32) ++ (t ++ rest)) ≡ some (some t, rest)
unfolding read_cell
read_text t rest h =
    let n = length t in
    let small : n % 2 ^ 32 ≡ n = omega arith in
    rw
      (
        small,
        read_be32-be32 n (t ++ rest) (omega arith),
        behind_length n (t ++ rest),
        take_front t rest,
        drop_front t rest,
      )
      (ground (arith, length-append t rest))

read_null : (rest : Text) → read_cell (pg_be32 (2 ^ 32 - 1) ++ rest) ≡ some (none, rest)
unfolding read_cell
read_null rest =
    rw (read_be32-be32 (2 ^ 32 - 1) rest (omega arith), behind_length (2 ^ 32 - 1) rest) refl

-- Every cell is shorter than the length that stands for NULL.
abbrev pub SmallCells : ResultSet → Type 0
SmallCells rs = (i : ℕ) → length (get_or rs.cell_text i []) < 2 ^ 32 - 1

read_cell-cell_parts :
    (rs : ResultSet) (i : ℕ) (rest : Text)
    → SmallCells rs
    → read_cell (join (cell_parts rs i) ++ rest) ≡ some (cell_of rs i, rest)
unfolding cell_parts join
read_cell-cell_parts rs i rest small = elim (Bool-cases (get_or rs.cell_is_null i false)) [
  | inl e ↦ rw (e, append-nil (pg_be32 (2 ^ 32 - 1))) (read_null rest)
  | inr e ↦
      let t = get_or rs.cell_text i [] in
      rw (e, append-nil t, append_assoc (pg_be32 (length t % 2 ^ 32)) t rest)
        (read_text t rest (small i))
]

read_cells_step :
    (count : ℕ) (s rest : Text) (c : Option Text)
    → read_cell s ≡ some (c, rest)
    → read_cells (suc count) s ≡ put_cell c (read_cells count rest)
unfolding read_cells
read_cells_step count s rest c e = rw (read_cells, e) refl

nothing_left : read_cells 0 (join []) ≡ some []
unfolding read_cells join
nothing_left = refl

read_cells-cells_parts :
    (rs : ResultSet) (i count : ℕ)
    → SmallCells rs
    → read_cells count (join (cells_parts rs i count)) ≡ some (cells_from rs i count)
unfolding cells_parts
read_cells-cells_parts rs i zero small = nothing_left
read_cells-cells_parts rs i (suc count) small =
    let rest = join (cells_parts rs (suc i) count) in
    rw (join-append (cell_parts rs i) (cells_parts rs (suc i) count)) (
      read_cells_step count (join (cell_parts rs i) ++ rest) rest (cell_of rs i)
        (read_cell-cell_parts rs i rest small)
      ∙ ap (put_cell (cell_of rs i)) (read_cells-cells_parts rs (suc i) count small))

-- A reader of the format gets from the data row of row `r` the cells of that row, NULL where the
-- result set has it, for less than 2^16 columns and cells of less than 2^32 - 1 bytes.
pub read_row-data_row_parts :
    (rs : ResultSet) (r : ℕ)
    → length rs.columns < 2 ^ 16
    → SmallCells rs
    → read_row (join (data_row_parts rs r))
      ≡ some (cells_from rs (r * length rs.columns) (length rs.columns))
unfolding read_row data_row_parts join pg_be16
read_row-data_row_parts rs r h small =
    let count = length rs.columns in
    let whole : count % 2 ^ 16 / 2 ^ 8 % 256 * 256 + count % 2 ^ 16 % 256 ≡ count = omega arith in
    rw whole (read_cells-cells_parts rs (r * count) count small)
