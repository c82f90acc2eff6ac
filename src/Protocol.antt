-- ===== src/Protocol.antt =====
-- src/server/pg_protocol.c: the framing of PostgreSQL messages and the messages that the server
-- sends. The connection with `os_net_recv_exact` and `os_net_send_exact` is an argument.
pub mod Frames
pub mod Rows
use Prim.Native.Nat.{bit_or}
use compute_ql.Shared.{
  ℕ, zero, suc, ◌+◌, ◌-◌, ◌*◌, ◌/◌, ◌%◌, ◌^◌, Bool, true, false, ◌||◌, List, [], ◌∷◌, ◌++◌, Option,
  none, some, if◌then◌else◌, ltb, length, get_or,
}
use compute_ql.Text.{Text}
use compute_ql.Catalog.{ColumnType}

-- A connection, what receiving a number of bytes gives, and whether sending went well.
pub record Net : Type 1 where
  pub Conn : Type 0
  pub recv_exact : Conn → ℕ → Option (Text × Conn)
  pub send_exact : Conn → Text → Conn × Bool

unfoldable pub pg_oid_for_column_type : ColumnType → ℕ
pg_oid_for_column_type ColumnType.u32 = 23
pg_oid_for_column_type ColumnType.u64 = 20
pg_oid_for_column_type ColumnType.f32 = 700
pg_oid_for_column_type ColumnType.f64 = 701
pg_oid_for_column_type ColumnType.string8 = 25
pg_oid_for_column_type ColumnType.bool = 16
pg_oid_for_column_type ColumnType.i32 = 23
pg_oid_for_column_type ColumnType.i64 = 20
pg_oid_for_column_type _ = 25

-- As the U16 that it is sent as: -1 is 65535.
unfoldable pub pg_typlen_for_column_type : ColumnType → ℕ
pg_typlen_for_column_type ColumnType.u32 = 4
pg_typlen_for_column_type ColumnType.u64 = 8
pg_typlen_for_column_type ColumnType.f32 = 4
pg_typlen_for_column_type ColumnType.f64 = 8
pg_typlen_for_column_type ColumnType.bool = 1
pg_typlen_for_column_type ColumnType.i32 = 4
pg_typlen_for_column_type ColumnType.i64 = 8
pg_typlen_for_column_type _ = 65535

unfoldable pub pg_be32 : ℕ → Text
pg_be32 v = v / 2 ^ 24 % 256 ∷ (v / 2 ^ 16 % 256 ∷ (v / 2 ^ 8 % 256 ∷ (v % 256 ∷ [])))

unfoldable pub pg_be16 : ℕ → Text
pg_be16 v = v / 2 ^ 8 % 256 ∷ (v % 256 ∷ [])

-- It reads four bytes; with fewer there is no call.
unfoldable pub pg_read_be32 : Text → ℕ
pg_read_be32 (a ∷ (b ∷ (c ∷ (d ∷ s)))) =
    bit_or (bit_or (bit_or (a * 2 ^ 24 % 2 ^ 32) (b * 2 ^ 16 % 2 ^ 32)) (c * 2 ^ 8 % 2 ^ 32)) d
pg_read_be32 _ = 0

unfoldable pub pg_cstr : Text → Text
pg_cstr s = s ++ 0 ∷ []

-- `str8_list_join` without separators.
unfoldable pub join : List Text → Text
join [] = []
join (p ∷ ps) = p ++ join ps

-- MB(1).
abbrev pub frame_limit : ℕ
frame_limit = 1048576

-- APP_ResultSet: the names and types of its columns, and the cells row by row.
pub record ResultColumn : Type 0 where
  pub name : Text
  pub type : ColumnType

pub record ResultSet : Type 0 where
  pub columns : List ResultColumn
  pub row_count : ℕ
  pub cell_is_null : List Bool
  pub cell_text : List Text

module _ (net : Net) where
  unfoldable pub pg_recv_untyped : net.Conn → Option (Text × net.Conn)
  pg_recv_untyped conn = elim (net.recv_exact conn 4) [
    | none ↦ none
    | some (len_bytes, after) ↦
        let len : ℕ = pg_read_be32 len_bytes in
        if ltb len 4 || ltb frame_limit len
        then none
        else if ltb 0 (len - 4)
        then net.recv_exact after (len - 4)
        else some ([], after)
  ]

  -- `type` is the first byte received.
  unfoldable pub pg_recv_typed : net.Conn → Option (ℕ × Text × net.Conn)
  pg_recv_typed conn = elim (net.recv_exact conn 1) [
    | none ↦ none
    | some (type, after) ↦ elim (pg_recv_untyped after) [
      | none ↦ none
      | some (body, rest) ↦ some (get_or type 0 0, body, rest)
    ]
  ]

  abbrev pub header : ℕ → Text → Text
  header type body = type ∷ pg_be32 ((length body + 4) % 2 ^ 32)

  unfoldable pub pg_send_msg : net.Conn → ℕ → List Text → net.Conn × Bool
  pg_send_msg conn type parts =
      let body : Text = join parts in
      let (after, ok) = net.send_exact conn (header type body) in
      if ok
      then (if ltb 0 (length body) then net.send_exact after body else (after, true))
      else (after, false)

  unfoldable pub pg_send_authentication_ok : net.Conn → net.Conn × Bool
  pg_send_authentication_ok conn = pg_send_msg conn b'R' (pg_be32 0 ∷ [])

  unfoldable pub pg_send_parameter_status : net.Conn → Text → Text → net.Conn × Bool
  pg_send_parameter_status conn name value =
      pg_send_msg conn b'S' (pg_cstr name ∷ (pg_cstr value ∷ []))

  unfoldable pub pg_send_backend_key_data : net.Conn → ℕ → ℕ → net.Conn × Bool
  pg_send_backend_key_data conn pid secret =
      pg_send_msg conn b'K' (pg_be32 pid ∷ (pg_be32 secret ∷ []))

  unfoldable pub pg_send_ready_for_query : net.Conn → ℕ → net.Conn × Bool
  pg_send_ready_for_query conn status = pg_send_msg conn b'Z' ((status ∷ []) ∷ [])

  abbrev pub error_parts : Text → Text → Text → List Text
  error_parts severity sqlstate message =
      (b'S' ∷ [])
      ∷ pg_cstr severity
      ∷ (b'C' ∷ [])
      ∷ pg_cstr sqlstate
      ∷ (b'M' ∷ [])
      ∷ pg_cstr message
      ∷ (0 ∷ [])
      ∷ []

  unfoldable pub pg_send_error_response : net.Conn → Text → Text → Text → net.Conn × Bool
  pg_send_error_response conn severity sqlstate message =
      pg_send_msg conn b'E' (error_parts severity sqlstate message)

  unfoldable pub pg_send_empty_query_response : net.Conn → net.Conn × Bool
  pg_send_empty_query_response conn = pg_send_msg conn b'I' []

  unfoldable pub pg_send_command_complete : net.Conn → Text → net.Conn × Bool
  pg_send_command_complete conn tag = pg_send_msg conn b'C' (pg_cstr tag ∷ [])

-- The fields of one column.
unfoldable pub column_parts : Text → ℕ → ℕ → List Text
column_parts name oid typlen =
    pg_cstr name
    ∷ pg_be32 0
    ∷ pg_be16 0
    ∷ pg_be32 oid
    ∷ pg_be16 typlen
    ∷ pg_be32 (2 ^ 32 - 1)
    ∷ pg_be16 0
    ∷ []

unfoldable pub description_parts : List ResultColumn → List Text
description_parts [] = []
description_parts (c ∷ cs) =
    column_parts c.name (pg_oid_for_column_type c.type) (pg_typlen_for_column_type c.type)
    ++ description_parts cs

-- One cell of a data row.
unfoldable pub cell_parts : ResultSet → ℕ → List Text
cell_parts rs i =
    let cell : Text = get_or rs.cell_text i [] in
    if get_or rs.cell_is_null i false
    then pg_be32 (2 ^ 32 - 1) ∷ []
    else pg_be32 (length cell % 2 ^ 32) ∷ (cell ∷ [])

-- The loop over the cells of a row: `count` of them from cell `i` on.
unfoldable pub cells_parts : ResultSet → ℕ → ℕ → List Text
cells_parts rs i zero = []
cells_parts rs i (suc count) = cell_parts rs i ++ cells_parts rs (suc i) count

unfoldable pub data_row_parts : ResultSet → ℕ → List Text
data_row_parts rs r =
    let count : ℕ = length rs.columns in pg_be16 (count % 2 ^ 16) ∷ cells_parts rs (r * count) count

module _ (net : Net) where
  unfoldable pub pg_send_row_description_from_result_set : net.Conn → ResultSet → net.Conn × Bool
  pg_send_row_description_from_result_set conn rs =
      pg_send_msg net conn b'T'
        (pg_be16 (length rs.columns % 2 ^ 16) ∷ description_parts rs.columns)

  unfoldable pub pg_send_row_description_single_text_column : net.Conn → Text → net.Conn × Bool
  pg_send_row_description_single_text_column conn name =
      pg_send_msg net conn b'T' (pg_be16 1 ∷ column_parts name 25 65535)

  -- `left` rows from row `r` on.
  unfoldable pub data_rows_loop : ℕ → net.Conn → ResultSet → ℕ → net.Conn × Bool
  data_rows_loop zero conn rs r = (conn, true)
  data_rows_loop (suc left) conn rs r =
      let (after, ok) = pg_send_msg net conn b'D' (data_row_parts rs r) in
      if ok then data_rows_loop left after rs (suc r) else (after, false)

  unfoldable pub pg_send_data_rows_from_result_set : net.Conn → ResultSet → net.Conn × Bool
  pg_send_data_rows_from_result_set conn rs = data_rows_loop rs.row_count conn rs 0

  unfoldable pub pg_send_data_row_single_text_column : net.Conn → Text → net.Conn × Bool
  pg_send_data_row_single_text_column conn value =
      pg_send_msg net conn b'D' (pg_be16 1 ∷ (pg_be32 (length value % 2 ^ 32) ∷ (value ∷ [])))
