-- ===== src/Order/Keys.antt =====
-- src/query_exec/query_exec.c: the comparison of rows by the keys of ORDER BY. The result of a
-- comparison, an S32 of which the code reads the sign, is that sign.
pub mod Laws
use Prim.Native.Nat.{compare, Ordering}
use compute_ql.Shared.{
  ℕ, zero, suc, ◌+◌, ◌-◌, ◌%◌, ◌^◌, min, Bool, true, false, List, [], ◌∷◌, ltb, if◌then◌else◌,
  length, take, drop, get_or,
}
use compute_ql.Text.{Text}
use compute_ql.Float.{Float}

-- `-cmp`.
abbrev pub opposite : Ordering → Ordering
opposite Ordering.lt = Ordering.gt
opposite Ordering.eq = Ordering.eq
opposite Ordering.gt = Ordering.lt

-- `MemoryCompare`: the sign of the first difference.
unfoldable pub memory_compare : ℕ → Text → Text → Ordering
memory_compare zero a b = Ordering.eq
memory_compare (suc n) [] b = Ordering.eq
memory_compare (suc n) (x ∷ a) [] = Ordering.eq
memory_compare (suc n) (x ∷ a) (y ∷ b) = elim (compare x y) [
  | Ordering.eq ↦ memory_compare n a b
  | Ordering.lt ↦ Ordering.lt
  | Ordering.gt ↦ Ordering.gt
]

unfoldable pub qe_str8_compare : Text → Text → Ordering
qe_str8_compare a b = elim (memory_compare (min (length a) (length b)) a b) [
  | Ordering.lt ↦ Ordering.lt
  | Ordering.gt ↦ Ordering.gt
  | Ordering.eq ↦
      if ltb (length a) (length b)
      then Ordering.lt
      else if ltb (length b) (length a)
      then Ordering.gt
      else Ordering.eq
]

-- CQL_StringDataChunk: where string `i` starts in the data, and after the last one the end.
pub record StringDataChunk : Type 0 where
  pub bytes : Text
  pub offsets : List ℕ

unfoldable pub chunk_string : StringDataChunk → ℕ → Text
chunk_string chunk i =
    let from : ℕ = get_or chunk.offsets i 0 in
    take ((get_or chunk.offsets (i + 1) 0 + 2 ^ 64 - from) % 2 ^ 64) (drop from chunk.bytes)

module _ (fl : Float) where
  -- QE_SortRowsCtx: an entry of its arrays.
  pub data KeyColumn : Type 0 where
    strings : StringDataChunk → KeyColumn
    numbers : List fl.F64 → KeyColumn

  pub record SortKey : Type 0 where
    pub column : KeyColumn
    pub descending : Bool

  -- `(va < vb) ? -1 : (va > vb) ? 1 : 0`.
  unfoldable pub compare_numbers : fl.F64 → fl.F64 → Ordering
  compare_numbers a b =
      if fl.lt a b then Ordering.lt else if fl.lt b a then Ordering.gt else Ordering.eq

  unfoldable pub number_at : List fl.F64 → ℕ → fl.F64
  number_at values i = get_or values i fl.zero_value

  unfoldable pub key_compare : KeyColumn → ℕ → ℕ → Ordering
  key_compare (strings chunk) a b = qe_str8_compare (chunk_string chunk a) (chunk_string chunk b)
  key_compare (numbers values) a b = compare_numbers (number_at values a) (number_at values b)

  unfoldable pub qe_sort_rows_compare_ctx : List SortKey → ℕ → ℕ → Ordering
  qe_sort_rows_compare_ctx [] a b = Ordering.eq
  qe_sort_rows_compare_ctx (k ∷ ks) a b = elim (key_compare k.column a b) [
    | Ordering.eq ↦ qe_sort_rows_compare_ctx ks a b
    | Ordering.lt ↦ if k.descending then Ordering.gt else Ordering.lt
    | Ordering.gt ↦ if k.descending then Ordering.lt else Ordering.gt
  ]

  unfoldable pub qe_sort_rows_less : List SortKey → ℕ → ℕ → Bool
  qe_sort_rows_less ks a b = elim (qe_sort_rows_compare_ctx ks a b) [
    | Ordering.lt ↦ true
    | Ordering.eq ↦ false
    | Ordering.gt ↦ false
  ]
