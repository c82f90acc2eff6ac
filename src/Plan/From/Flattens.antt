-- ===== src/Plan/From/Flattens.antt =====
-- src/planner/planner.c and src/optimizer/optimizer.c: the FROM tree that the planner builds is one that
-- `optimizer_flatten_from` reads.
use compute_ql.Shared.{
  ℕ, suc, ◌+◌, ◌≤◌, ◌≡◌, refl, ap, ◌∙◌, subst, Bool, true, false, [], ◌∷◌, ◌++◌, some, leb, length,
  arith, length-append,
}
use compute_ql.Text.{Text, str8_lit}
use compute_ql.Ir.{NodeType, Node, Nodes, node, nil, cons, has_type, value_of, tag, same_type}
use compute_ql.Catalog.{Database, Table, cql_database_find_table_or_catalog}
use compute_ql.Plan.{Plan, PlanType, PlanFields, plan, absent, no_fields, same_plan_type, plan_tag}
use compute_ql.Plan.From.{plan_scan, cross_join, written_join, from_step, build_from}
use compute_ql.Optimizer.Load.{Flat, flatten_scan, note_step, optimizer_flatten_from, max_relations}
use compute_ql.Optimizer.{Relation}
use compute_ql.Optimizer.Assign.{zero_step}

-- A left-deep tree of joins over scans whose tables are known.
data LeftDeep : Plan → ℕ → Type 0 where
  one_scan :
      (l r : Plan) (f : PlanFields) (t : Table)
      → f.table ≡ some t
      → LeftDeep (plan PlanType.scan l r f) 1
  one_more :
      (p l r : Plan) (n : ℕ) (f g : PlanFields) (t : Table)
      → LeftDeep p n
      → f.table ≡ some t
      → LeftDeep (plan PlanType.join p (plan PlanType.scan l r f) g) (suc n)

-- The FROM items of a select's children, with the tables they name known; `started` says that
-- there was one before. The first is no JOIN, and a JOIN names its table first.
pub data FromItems (db : Database) : Bool → Nodes → ℕ → Type 0 where
  done : FromItems db true nil 0
  table_item :
      (b : Bool) (c : Node) (cs : Nodes) (n : ℕ) (t : Table)
      → has_type c NodeType.table ≡ true
      → cql_database_find_table_or_catalog db (value_of c) ≡ some t
      → FromItems db true cs n
      → FromItems db b (cons c cs) (suc n)
  join_item :
      (v : Text) (table_ir : Node) (rest cs : Nodes) (n : ℕ) (t : Table)
      → cql_database_find_table_or_catalog db (value_of table_ir) ≡ some t
      → FromItems db true cs n
      → FromItems db true (cons (node NodeType.join v (cons table_ir rest)) cs) (suc n)
  other_child :
      (b : Bool) (c : Node) (cs : Nodes) (n : ℕ)
      → has_type c NodeType.table ≡ false
      → has_type c NodeType.join ≡ false
      → FromItems db b cs n
      → FromItems db b (cons c cs) n

-- The tree before an item: none yet, or a left-deep one.
abbrev Before : Bool → Plan → ℕ → Type 0
Before false p n = (p ≡ absent) × (n ≡ 0)
Before true p n = LeftDeep p n

flatten_one :
    (l r : Plan) (f : PlanFields) (t : Table) (s : Flat)
    → f.table ≡ some t
    → length s.relations + 1 ≤ max_relations
    → (s' : Flat) × (optimizer_flatten_from (plan PlanType.scan l r f) s ≡ some s')
      × (length s'.relations ≡ length s.relations + 1)
unfolding optimizer_flatten_from flatten_scan same_plan_type plan_tag
flatten_one l r f t s e room =
    let new : Relation = record { scan = plan PlanType.scan l r f; table = t; alias = f.alias } in
    let free : leb max_relations (length s.relations) ≡ false = ground (arith, room) in
    (
      record { relations = s.relations ++ (new ∷ []); steps = s.steps ++ (zero_step ∷ []) },
      rw free (rw e refl),
      length-append s.relations (new ∷ []),
    )

relations-note_step : (g : PlanFields) (s : Flat) → (note_step g s).relations ≡ s.relations
unfolding note_step
relations-note_step g s = refl

flatten_LeftDeep :
    (p : Plan) (n : ℕ) (s : Flat)
    → LeftDeep p n
    → length s.relations + n ≤ max_relations
    → (s' : Flat) × (optimizer_flatten_from p s ≡ some s')
      × (length s'.relations ≡ length s.relations + n)
unfolding optimizer_flatten_from same_plan_type plan_tag
flatten_LeftDeep p n s (one_scan l r f t e) room = flatten_one l r f t s e room
flatten_LeftDeep p n s (one_more q l r m f g t d e) room =
    let free : leb max_relations (length s.relations) ≡ false = ground (arith, room) in
    let (a, read, grown) = flatten_LeftDeep q m s d (omega arith) in
    let (b, read', grown') = flatten_one l r f t a e (omega arith) in
    (
      note_step g b,
      rw (free, read, read') refl,
      ap length (relations-note_step g b) ∙ omega (arith, grown, grown'),
    )

-- A step with a tree in front of it.
cross_join_lem :
    (p l r : Plan) (n : ℕ) (f : PlanFields) (t : Table)
    → LeftDeep p n
    → f.table ≡ some t
    → LeftDeep (cross_join p (plan PlanType.scan l r f)) (suc n)
unfolding cross_join
cross_join_lem p l r n f t (one_scan l' r' f' t' e') e =
    one_more (plan PlanType.scan l' r' f') l r 1 f (record no_fields { value = str8_lit "cross" }) t
      (one_scan l' r' f' t' e') e
cross_join_lem p l r n f t (one_more q l' r' m f' g' t' d e') e =
    one_more (plan PlanType.join q (plan PlanType.scan l' r' f') g') l r (suc m) f
      (record no_fields { value = str8_lit "cross" }) t (one_more q l' r' m f' g' t' d e') e

the_sum : (k m : ℕ) → suc k + m ≡ k + suc m
the_sum k m = omega arith

table_LeftDeep :
    (db : Database) (b : Bool) (p : Plan) (k : ℕ) (c : Node) (t : Table)
    → cql_database_find_table_or_catalog db (value_of c) ≡ some t
    → Before b p k
    → LeftDeep (cross_join p (plan_scan db c)) (suc k)
unfolding cross_join plan_scan
table_LeftDeep db false p k c t e (none_yet, zero_k) =
    rw (none_yet, zero_k) (one_scan absent absent _ t e)
table_LeftDeep db true p k c t e d = cross_join_lem p absent absent k _ t d e

build_from-LeftDeep :
    (db : Database) (b : Bool) (cs : Nodes) (n k : ℕ) (p : Plan)
    → FromItems db b cs n
    → Before b p k
    → LeftDeep (build_from db p cs) (k + n)
unfolding build_from from_step written_join plan_scan tag same_type
build_from-LeftDeep db b cs n k p done d = subst (LeftDeep p) (omega arith) d
build_from-LeftDeep db b cs n k p (table_item _ c cs' m t is_table e items) d =
    subst (LeftDeep (build_from db p (cons c cs'))) (the_sum k m) (
      rw is_table (
        build_from-LeftDeep db true cs' m (suc k) (cross_join p (plan_scan db c)) items
          (table_LeftDeep db b p k c t e d)))
build_from-LeftDeep db b cs n k p (join_item v table_ir rest cs' m t e items) d =
    subst (LeftDeep (build_from db p (cons (node NodeType.join v (cons table_ir rest)) cs')))
      (the_sum k m)
      (build_from-LeftDeep db true cs' m (suc k)
        (written_join db p (node NodeType.join v (cons table_ir rest))) items
        (one_more p absent absent k _ _ t d e))
build_from-LeftDeep db b cs n k p (other_child _ c cs' m no_table no_join items) d =
    rw (no_table, no_join) (build_from-LeftDeep db b cs' m k p items d)

-- If the children of a select name at least one table and at most 32, every one of them known,
-- and a table comes before the first JOIN, the optimizer reads the FROM tree that the planner
-- builds of them, and it finds as many relations as the children name.
pub flatten_from-build_from :
    (db : Database) (cs : Nodes) (n : ℕ)
    → FromItems db false cs n
    → n ≤ 32
    → (t : Flat) × (optimizer_flatten_from
          (build_from db absent cs)
          (record { relations = []; steps = [] })
        ≡ some t)
      × (length t.relations ≡ n)
flatten_from-build_from db cs n items le =
    let tree : LeftDeep (build_from db absent cs) (0 + n) =
      build_from-LeftDeep db false cs n 0 absent items (refl, refl) in
    let (t, read, size) =
      flatten_LeftDeep (build_from db absent cs) (0 + n) (record { relations = []; steps = [] })
        tree (omega arith) in
    (t, read, omega (arith, size))
