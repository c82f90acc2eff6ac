-- ===== src/Ir/Columns.antt =====
-- src/ir_gen/ir_gen.c: the columns that a query uses, and the expansion of `SELECT *`.
use compute_ql.Shared.{
  ◌≡◌, refl, ap, Bool, true, false, not, ◌&&◌, ◌||◌, List, [], ◌∷◌, ◌++◌, none, some, if◌then◌else◌,
  arith, Bool-cases, inl, inr,
}
use compute_ql.Text.{Text, str8_lit, str8_match, match_exact}
use compute_ql.Text.Match.{str8_match_exact_iff}
use compute_ql.Catalog.{
  ColumnType, Column, Database, cql_database_find_table, cql_database_find_table_or_catalog,
  cql_table_find_column,
}
use compute_ql.Ir.{
  NodeType, Node, Nodes, node, nil, cons, has_type, value_of, children_of, ir_node_find_child,
}

unfoldable pub ir_find_column_type : Database → Node → Text → ColumnType
ir_find_column_type db select name = elim (ir_node_find_child (some select) NodeType.table) [
  | none ↦ ColumnType.invalid
  | some t ↦ elim (cql_database_find_table db (value_of t)) [
    | none ↦ ColumnType.invalid
    | some table ↦ elim (cql_table_find_column table name) [
      | none ↦ ColumnType.invalid
      | some c ↦ c.type
    ]
  ]
]

-- The children that a bare star leaves: a list of the one column `*`.
unfoldable pub is_star : Nodes → Bool
is_star nil = false
is_star (cons c nil) =
    has_type c NodeType.column && str8_match (value_of c) (str8_lit "*") match_exact
is_star (cons c (cons d cs)) = false

unfoldable pub column_nodes : List Column → Nodes
column_nodes [] = nil
column_nodes (c ∷ cs) = cons (node NodeType.column c.name nil) (column_nodes cs)

-- What a write to the children of `ir_node_find_child(node, type)` makes of the chain.
unfoldable pub write_children : Nodes → NodeType → Nodes → Nodes
write_children nil kind new = nil
write_children (cons (node t v cs) rest) kind new =
    if has_type (node t v cs) kind
    then cons (node t v new) rest
    else cons (node t v cs) (write_children rest kind new)

unfoldable pub ir_expand_star_to_columns : Database → Node → Node
ir_expand_star_to_columns db (node t v cs) =
    elim (ir_node_find_child (some (node t v cs)) NodeType.table) [
      | none ↦ node t v cs
      | some from ↦ elim (ir_node_find_child (some (node t v cs)) NodeType.column_list) [
        | none ↦ node t v cs
        | some list ↦
            let columns : List Column =
              elim (cql_database_find_table_or_catalog db (value_of from)) [
                | none ↦ []
                | some table ↦ table.columns
              ] in
            if is_star (children_of list)
            then node t v (write_children cs NodeType.column_list (column_nodes columns))
            else node t v cs
      ]
    ]

-- The search for a name among those that are listed already.
unfoldable pub is_listed : List Text → Text → Bool
is_listed [] name = false
is_listed (u ∷ us) name = str8_match u name match_exact || is_listed us name

unfoldable pub note_column : List Text → Text → List Text
note_column used name = if is_listed used name then used else used ++ name ∷ []

unfoldable mutual
  pub ir_create_active_column_list : Node → List Text → List Text
  ir_create_active_column_list (node t v cs) used =
      active_children cs
        (if has_type (node t v cs) NodeType.column then note_column used v else used)

  pub active_children : Nodes → List Text → List Text
  active_children nil used = used
  active_children (cons c cs) used = active_children cs (ir_create_active_column_list c used)

-- A column of that name stands in the tree.
unfoldable mutual
  pub uses : Node → Text → Bool
  uses (node t v cs) name =
      (has_type (node t v cs) NodeType.column && str8_match v name match_exact)
      || child_uses cs name

  pub child_uses : Nodes → Text → Bool
  child_uses nil name = false
  child_uses (cons c cs) name = uses c name || child_uses cs name

-- No name is listed twice.
unfoldable pub distinct : List Text → Bool
distinct [] = true
distinct (u ∷ us) = not (is_listed us u) && distinct us

is_listed-snoc :
    (us : List Text) (v name : Text)
    → is_listed (us ++ v ∷ []) name ≡ (is_listed us name || str8_match v name match_exact)
unfolding is_listed
is_listed-snoc [] v name = ground arith
is_listed-snoc (u ∷ us) v name = ground (arith, is_listed-snoc us v name)

same_listed :
    (us : List Text) (v name : Text)
    → str8_match v name match_exact ≡ true
    → is_listed us v ≡ is_listed us name
same_listed us v name h = ap (is_listed us) ((str8_match_exact_iff v name).0 h)

is_listed-note :
    (us : List Text) (v name : Text)
    → is_listed (note_column us v) name ≡ (is_listed us name || str8_match v name match_exact)
unfolding note_column
is_listed-note us v name = elim (Bool-cases (is_listed us v)) [
  | inl e ↦ rw e (ground (arith, same_listed us v name))
  | inr e ↦ rw e (is_listed-snoc us v name)
]

distinct-snoc :
    (us : List Text) (v : Text)
    → is_listed us v ≡ false
    → distinct us ≡ true
    → distinct (us ++ v ∷ []) ≡ true
unfolding distinct is_listed
distinct-snoc [] v l d = refl
distinct-snoc (u ∷ us) v l d = ground (
  arith,
  is_listed-snoc us v u,
  distinct-snoc us v,
  str8_match_exact_iff u v,
  str8_match_exact_iff v u,
  same_listed us v u,
)

distinct-note :
    (us : List Text) (v : Text) → distinct us ≡ true → distinct (note_column us v) ≡ true
unfolding note_column
distinct-note us v d = elim (Bool-cases (is_listed us v)) [
  | inl e ↦ rw e d
  | inr e ↦ rw e (distinct-snoc us v e d)
]

own_column :
    (b : Bool) (used : List Text) (v name : Text)
    → is_listed (if b then note_column used v else used) name
      ≡ (is_listed used name || (b && str8_match v name match_exact))
own_column true used v name = is_listed-note used v name
own_column false used v name = ground arith

mutual
  unfolding ir_create_active_column_list uses

  active_listed :
      (n : Node) (used : List Text) (name : Text)
      → is_listed (ir_create_active_column_list n used) name ≡ (is_listed used name || uses n name)
  active_listed (node t v cs) used name =
      let b = has_type (node t v cs) NodeType.column in
      ground (
        arith,
        children_listed cs (if b then note_column used v else used) name,
        own_column b used v name,
      )

  children_listed :
      (cs : Nodes) (used : List Text) (name : Text)
      → is_listed (active_children cs used) name ≡ (is_listed used name || child_uses cs name)
  children_listed nil used name = ground arith
  children_listed (cons c cs) used name = ground (
    arith,
    children_listed cs (ir_create_active_column_list c used) name,
    active_listed c used name,
  )

distinct_if :
    (b : Bool) (used : List Text) (v : Text)
    → distinct used ≡ true
    → distinct (if b then note_column used v else used) ≡ true
distinct_if true used v d = distinct-note used v d
distinct_if false used v d = d

mutual
  unfolding ir_create_active_column_list

  active_distinct :
      (n : Node) (used : List Text)
      → distinct used ≡ true
      → distinct (ir_create_active_column_list n used) ≡ true
  active_distinct (node t v cs) used d =
      children_distinct cs _ (distinct_if (has_type (node t v cs) NodeType.column) used v d)

  children_distinct :
      (cs : Nodes) (used : List Text)
      → distinct used ≡ true
      → distinct (active_children cs used) ≡ true
  children_distinct nil used d = d
  children_distinct (cons c cs) used d =
      children_distinct cs (ir_create_active_column_list c used) (active_distinct c used d)

-- From a list without repetitions, the active columns are such a list again, and a name is in it
-- exactly when it was before or a column of that name stands in the tree.
pub active_column_list-exact :
    (n : Node) (used : List Text)
    → distinct used ≡ true
    → (distinct (ir_create_active_column_list n used) ≡ true)
      × ((name : Text)
          → is_listed (ir_create_active_column_list n used) name
            ≡ (is_listed used name || uses n name))
active_column_list-exact n used d = (active_distinct n used d, active_listed n used)
