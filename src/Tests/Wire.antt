-- ===== src/Tests/Wire.antt =====
-- The messages of src/server/pg_protocol.c on a connection of bytes.
use compute_ql.Shared.{
  ℕ, zero, suc, ◌+◌, ◌*◌, ◌≤◌, ◌≡◌, inl, refl, sym, ap, true, false, [], ◌∷◌, ◌++◌, none, some,
  if◌then◌else◌, ltb, length, take, drop, arith, lt→ltb,
}
use compute_ql.Text.{Text, str8_lit}
use compute_ql.Catalog.{ColumnType}
use compute_ql.Protocol.{
  Net, ResultSet, pg_cstr, pg_be32, join, frame_limit, pg_recv_typed, pg_recv_untyped, pg_send_msg,
  data_row_parts, header,
}
use compute_ql.Protocol.Frames.{Incoming, Outgoing, recv_typed-send_msg, recv_untyped-refused}
use compute_ql.Protocol.Rows.{read_row, cells_from, SmallCells, read_row-data_row_parts}

-- A connection is the bytes that were sent on it and not received yet.
abbrev pipe : Net
pipe = record {
  Conn = Text;
  recv_exact = λ c n. if ltb (length c) n then none else some (take n c, drop n c);
  send_exact = λ c s. (c ++ s, true);
}

not_below : (a b : ℕ) → b ≤ a → ltb a b ≡ false
not_below a b h = ground arith

abbrev pipe_incoming : Incoming pipe
pipe_incoming = record {
  waiting = λ c. c;
  received = λ c n h. (drop n c, rw (not_below (length c) n h) refl, refl);
  too_short = λ c n h. rw (lt→ltb (length c) n h) refl;
}

abbrev pipe_outgoing : Outgoing pipe
pipe_outgoing = record { sent = λ c. c; delivered = λ c d s e. sym (ap (λ p. p.0) e) }

abbrev tag : Text
tag = str8_lit "SELECT 2"

abbrev on_wire : Text
on_wire = header pipe b'C' (join (pg_cstr tag ∷ [])) ++ join (pg_cstr tag ∷ [])

tag_sent : pg_send_msg pipe [] b'C' (pg_cstr tag ∷ []) ≡ (on_wire, true)
unfolding pg_send_msg join pg_cstr
tag_sent = refl

wire_same : on_wire ++ [] ≡ [] ++ on_wire
unfolding pg_be32 join pg_cstr
wire_same = refl

tag_small : length (join (pg_cstr tag ∷ [])) + 4 ≤ frame_limit
unfolding join pg_cstr
tag_small = omega arith

recv_typed-send_msg_example :
    (f : Text) × (pg_recv_typed pipe on_wire ≡ some (b'C', join (pg_cstr tag ∷ []), f)) × (f ≡ [])
recv_typed-send_msg_example =
    recv_typed-send_msg pipe pipe pipe_outgoing pipe_incoming [] on_wire on_wire b'C'
      (pg_cstr tag ∷ []) [] tag_sent wire_same tag_small

short_waiting : pipe_incoming.waiting (pg_be32 3 ++ str8_lit "x") ≡ pg_be32 3 ++ str8_lit "x"
short_waiting = refl

recv_untyped-refused_example : pg_recv_untyped pipe (pg_be32 3 ++ str8_lit "x") ≡ none
recv_untyped-refused_example =
    recv_untyped-refused pipe pipe_incoming (pg_be32 3 ++ str8_lit "x") 3 (str8_lit "x")
      short_waiting (omega arith) (inl (omega arith))

abbrev two_cells : ResultSet
two_cells = record {
  columns =
      record { name = str8_lit "id"; type = ColumnType.u64 }
      ∷ record { name = str8_lit "name"; type = ColumnType.string8 }
      ∷ [];
  row_count = 1;
  cell_is_null = false ∷ true ∷ [];
  cell_text = str8_lit "7" ∷ [] ∷ [];
}

two_cells_small : SmallCells two_cells
two_cells_small zero = omega arith
two_cells_small (suc zero) = omega arith
two_cells_small (suc (suc i)) = omega arith

read_row-data_row_parts_example :
    read_row (join (data_row_parts two_cells 0)) ≡ some (cells_from two_cells (0 * 2) 2)
read_row-data_row_parts_example = read_row-data_row_parts two_cells 0 (omega arith) two_cells_small
