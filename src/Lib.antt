-- ===== src/Lib.antt =====
-- ComputeQL: a database engine in C that reads SQL, plans a query and runs it on the CPU or the GPU.
-- This library models the way of a SELECT from its text to an optimized plan, how its rows are
-- put in order, and the way of its result back to a client.
--
-- The parts, and how they interact:
--   Text       src/base/base_strings.c. A String8 is the list of its bytes; slices, comparison under
--              flags, and numbers, with the wrap-around of a U64 written out.
--   Float      f64_from_str8 of the same file. The C type F64, its operations and `atof` are a
--              parameter, with the laws of IEEE 754 comparisons.
--   Sql        src/ir_gen/sql_parser.h: the syntax tree that the parser makes. Sql.Words has the word and
--              operator tables of sql_parser.c, Sql.Lex is its sql_tokenize_from_text, Sql.Cursor its
--              parse context, and Sql.Parse its parser of conditions, from expressions up to the WHERE
--              clause. Sql.Print is no code: it is how a condition is written.
--   Ir         src/ir_gen/ir_gen.h and ir_gen.c: the IR tree, on which all that follows works; Ir.Lower
--              is ir_generate_from_ast, which makes it from the syntax tree; Ir.Columns finds the columns
--              that a tree names.
--   Catalog    src/cql/cql.h and cql.c: tables and columns, found by name.
--   Plan       src/planner/plan_node.h and planner.c: the plan tree. Plan.From builds the FROM tree and
--              the semi joins, Plan.Build is plan_build_from_select up to the passes that set
--              strategies and estimates, Plan.Rows holds results, LIMIT and OFFSET
--              (plan_apply_limit) and plan_reverse_rowset.
--   Optimizer  src/optimizer/optimizer.c: Optimizer.Load reads a FROM tree of the planner and the
--              conditions into arrays (optimizer_flatten_from, optimizer_load_conjuncts);
--              Optimizer.Conjuncts splits and chains conditions; Optimizer.Refs finds the relations that
--              a condition touches; Optimizer.RejectsNull and Optimizer.Assign turn LEFT JOINs into
--              inner ones and give every conjunct its place; Optimizer.Fold folds constants;
--              Optimizer.Bounds tells when conditions contradict each other
--              (optimizer_detect_contradiction);
--              Optimizer.Assemble puts the plan together, in the order of the join search, which is a
--              parameter (the record Search).
--              Optimizer.Logic is no code: it is what a condition means in three-valued logic.
--   Protocol   src/server/pg_protocol.c: the framing of messages and the rows of a result as text. The
--              connection is a parameter, the interface Net.
--   Order      src/query_exec/query_exec.c: the order of rows: the merge sort, the heap that keeps the
--              first rows (qe_order_merge_sort, qe_order_select_top). Order.Keys compares by the keys of
--              ORDER BY, Order.TopK searches the first rows range by range, and Order.Native does it
--              over columns that are read in place.
--   ThreadPool src/thread_pool/thread_pool.c: tp_divide_work, the range of the work of each worker, which
--              Order.TopK uses; ThreadPool.Run is a batch of tasks, tp_for_parallel and tp_run_tasks, as
--              steps of the threads in any order.
--   Shared     list and bit lemmas; Tests has runs and the theorems at concrete inputs.
--
-- Functions keep the names of the C code. A pointer that may be NULL is an Option, a chain of nodes by
-- `next` is a list, an out-parameter is part of the result, an array and its count are a list, and
-- code that writes through a pointer returns the new value. The enumerators of a C enum are
-- constructors; C compares them by number, and so does the model. A function of a tree is structural
-- recursion. The fuels are: for the loops over the bits of a U64 mask 64, since they shift it to 0 in 64
-- rounds at most; for the tokenizer one more than the size of the text, since every round moves on; for
-- the loops of the parser and the depth of parentheses one more than the number of tokens, since each
-- round and each parenthesis takes one. The merge sort has the number of
-- rows for each of its outer loops, which grow by one at least in each round, and a sift the number of
-- rows of the heap. The statements on those loops show that they are enough; for the parser they
-- do so for conditions as they are written.
-- char_is_digit reads a table of 128 entries at any byte: what stands behind it is the parameter `past`.
--
-- Not modelled: the parsers of statements, select lists and window functions, which are the parameter
-- `Statements` of Sql.Parse; constant propagation; storage and import, statistics and cost estimates,
-- the join order search, execution, the server's sockets and sessions, and the GPU and operating system
-- layers. In Plan.Build the
-- optimizer's switch and its rewrite of FROM and WHERE are a parameter, and the passes behind it that
-- set strategies, estimates and orderings are left out; the switches come from a settings file. Memory
-- is not modelled: arenas are never freed while a query is planned, and a node is shared only where
-- the code says that it points back to the IR tree.
pub mod Order
pub mod Shared
pub mod Text
pub mod Sql
pub mod Ir
pub mod Catalog
pub mod Float
pub mod Plan
pub mod Optimizer
pub mod Protocol
pub mod ThreadPool
pub mod Tests
