-- ===== src/Sql.antt =====
-- src/ir_gen/sql_parser.h and src/ir_gen/sql_parser.c: the SQL front end.
pub mod Tree
pub mod Words
pub mod Lex
pub mod Print
pub mod Cursor
pub mod Parse
