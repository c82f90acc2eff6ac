-- ===== src/Sql/Parse/Comparison.antt =====
-- src/ir_gen/sql_parser.c: operands and comparisons are parsed as they are written.
use compute_ql.Shared.{
  ℕ, zero, suc, ◌≤◌, ◌≡◌, refl, ap, ◌∙◌, Bool, true, false, ◌&&◌, List, [], ◌∷◌, ◌++◌,
  if◌then◌else◌, length, arith,
}
use compute_ql.Text.{
  Text, str8_lit, str8_match, match_exact, match_loop, adjust_char, char_to_upper, char_is_lower,
}
use compute_ql.Sql.Tree.{SqlNodeType, SqlNode, SqlNodes, sql, nil, cons}
use compute_ql.Sql.Lex.{TokenType}
use compute_ql.Sql.Print.{
  Operand, plain_column, qualified_column, number_value, text_value, truth_value, Item, number_item,
  text_item, Spot, Spots, token_at, word, mark, operand_tokens, operand_node, item_node,
  item_tokens, item_nodes, null_words, in_words,
}
use compute_ql.Sql.Cursor.{
  Context, Parsed, sql_peek, is_type, symbol_at, sql_check, sql_check_paren_select,
  sql_parse_column_ref, in_items, snoc, second_is,
}
use compute_ql.Sql.Parse.{
  Statements, sql_parse_expression, sql_parse_comparison_expression, comparison_tail, operator_test,
  null_test, in_test, in_right,
}

-- What may follow an operand: no call and no qualified name goes on there.
pub data Stops : Context → Type 0 where
  at_end : Stops []
  before_word : (p : Spot) (v : Text) (rest : Context) → Stops (word p v ∷ rest)
  before_operator :
      (p : Spot) (v : Text) (rest : Context) → Stops (token_at p TokenType.operator v ∷ rest)
  before_close : (p : Spot) (rest : Context) → Stops (mark p (str8_lit ")") ∷ rest)

no_call :
    (rest : Context)
    → Stops rest
    → (is_type (sql_peek rest 0) TokenType.symbol
        && str8_match (sql_peek rest 0).value (str8_lit "(") match_exact)
      ≡ false
unfolding str8_match match_loop adjust_char
no_call _ at_end = refl
no_call _ (before_word p v rest) = refl
no_call _ (before_operator p v rest) = refl
no_call _ (before_close p rest) = refl

no_dot : (rest : Context) → Stops rest → symbol_at rest (str8_lit ".") ≡ false
unfolding sql_check str8_match match_loop adjust_char
no_dot _ at_end = refl
no_dot _ (before_word p v rest) = refl
no_dot _ (before_operator p v rest) = refl
no_dot _ (before_close p rest) = refl

abbrev joined : SqlNodes → SqlNodes → SqlNodes
joined nil ns = ns
joined (cons m ms) ns = cons m (joined ms ns)

joined-snoc :
    (ms : SqlNodes) (n : SqlNode) (ns : SqlNodes) → joined (snoc ms n) ns ≡ joined ms (cons n ns)
joined-snoc nil n ns = refl
joined-snoc (cons m ms) n ns = ap (cons m) (joined-snoc ms n ns)

snoc-joined : (ms : SqlNodes) (n : SqlNode) → snoc ms n ≡ joined ms (cons n nil)
snoc-joined nil n = refl
snoc-joined (cons m ms) n = ap (cons m) (snoc-joined ms n)

in_items_lem :
    (fuel : ℕ) (i : Item) (js : List Item) (kind : SqlNodeType) (v : Text) (acc : SqlNodes)
    (close : Spot) (rest : Context)
    → length js ≤ fuel
    → in_items (suc fuel) (sql kind v acc) (item_tokens i js ++ mark close (str8_lit ")") ∷ rest)
      ≡ Parsed.parsed (sql kind v (joined acc (item_nodes i js))) (mark close (str8_lit ")") ∷ rest)
unfolding in_items sql_check str8_match match_loop adjust_char char_to_upper char_is_lower
in_items_lem fuel (number_item p a) [] kind v acc close rest h =
    rw (snoc-joined acc (item_node (number_item p a))) refl
in_items_lem fuel (text_item p a) [] kind v acc close rest h =
    rw (snoc-joined acc (item_node (text_item p a))) refl
in_items_lem zero i (j ∷ js) kind v acc close rest h = absurd (omega arith)
in_items_lem (suc fuel) (number_item p a) (j ∷ js) kind v acc close rest h =
    in_items_lem fuel j js kind v (snoc acc (item_node (number_item p a))) close rest (omega arith)
    ∙ rw (joined-snoc acc (item_node (number_item p a)) (item_nodes j js)) refl
in_items_lem (suc fuel) (text_item p a) (j ∷ js) kind v acc close rest h =
    in_items_lem fuel j js kind v (snoc acc (item_node (text_item p a))) close rest (omega arith)
    ∙ rw (joined-snoc acc (item_node (text_item p a)) (item_nodes j js)) refl

items_length :
    (i : Item) (js : List Item) (ts : Context) → length js ≤ length (item_tokens i js ++ ts)
items_length i [] ts = omega arith
items_length i (j ∷ js) ts = omega (arith, items_length j js ts)

not_select :
    (first : Spot) (i : Item) (js : List Item) (ts : Context)
    → second_is (mark first (str8_lit "(") ∷ (item_tokens i js ++ ts)) (str8_lit "select") ≡ false
not_select first (number_item p a) [] ts = refl
not_select first (text_item p a) [] ts = refl
not_select first (number_item p a) (j ∷ js) ts = refl
not_select first (text_item p a) (j ∷ js) ts = refl

module _ (st : Statements) where
  pub expression_lem :
      (o : Operand) (rest : Context)
      → Stops rest
      → sql_parse_expression st (operand_tokens o ++ rest) ≡ Parsed.parsed (operand_node o) rest
  unfolding sql_parse_expression sql_check_paren_select sql_check sql_parse_column_ref str8_match
      match_loop adjust_char char_to_upper char_is_lower
  expression_lem (plain_column p c) rest s = rw (no_call rest s, no_dot rest s) refl
  expression_lem (qualified_column p t c) rest s = refl
  expression_lem (number_value p v) rest s = refl
  expression_lem (text_value p v) rest s = refl
  expression_lem (truth_value p true) rest s = refl
  expression_lem (truth_value p false) rest s = refl

  pub comparison_starts :
      (group : Context → Parsed) (o : Operand) (rest : Context)
      → Stops rest
      → sql_parse_comparison_expression st group (operand_tokens o ++ rest)
        ≡ comparison_tail st (operand_node o) rest
  unfolding sql_parse_comparison_expression sql_check_paren_select sql_check str8_match match_loop
      adjust_char char_to_upper char_is_lower
  comparison_starts group (plain_column p c) rest s =
      rw (expression_lem (plain_column p c) rest s) refl
  comparison_starts group (qualified_column p t c) rest s =
      rw (expression_lem (qualified_column p t c) rest s) refl
  comparison_starts group (number_value p v) rest s =
      rw (expression_lem (number_value p v) rest s) refl
  comparison_starts group (text_value p v) rest s = rw (expression_lem (text_value p v) rest s) refl
  comparison_starts group (truth_value p true) rest s =
      rw (expression_lem (truth_value p true) rest s) refl
  comparison_starts group (truth_value p false) rest s =
      rw (expression_lem (truth_value p false) rest s) refl

  pub operator_tail :
      (left : SqlNode) (p : Spot) (op : Text) (b : Operand) (rest : Context)
      → Stops rest
      → comparison_tail st left (token_at p TokenType.operator op ∷ (operand_tokens b ++ rest))
        ≡ Parsed.parsed (sql SqlNodeType.operator op (cons left (cons (operand_node b) nil))) rest
  unfolding comparison_tail sql_check operator_test
  operator_tail left p op b rest s = rw (expression_lem b rest s) refl

  pub null_tail :
      (left : SqlNode) (p : Spots) (negate : Bool) (rest : Context)
      → comparison_tail st left (null_words p negate ++ rest)
        ≡ Parsed.parsed
            (sql SqlNodeType.operator
              (if negate then str8_lit "is not null" else str8_lit "is null")
              (cons left nil))
            rest
  unfolding comparison_tail sql_check null_test str8_match match_loop adjust_char char_to_upper
      char_is_lower
  null_tail left p true rest = refl
  null_tail left p false rest = refl

  in_right_lem :
      (first close : Spot) (i : Item) (js : List Item) (rest : Context)
      → in_right st
          (mark first (str8_lit "(") ∷ (item_tokens i js ++ mark close (str8_lit ")") ∷ rest))
        ≡ Parsed.parsed (sql SqlNodeType.in_list [] (item_nodes i js)) rest
  unfolding in_right sql_check_paren_select sql_check str8_match match_loop adjust_char
      char_to_upper char_is_lower
  in_right_lem first close i js rest =
      let inner = item_tokens i js ++ mark close (str8_lit ")") ∷ rest in
      rw
        (
          not_select first i js (mark close (str8_lit ")") ∷ rest),
          in_items_lem (length inner) i js SqlNodeType.in_list [] nil close rest
              (items_length i js (mark close (str8_lit ")") ∷ rest)),
        )
        refl

  pub in_tail :
      (left : SqlNode) (p : Spots) (negate : Bool) (i : Item) (js : List Item) (rest : Context)
      → comparison_tail st left
          (in_words p negate ++ (item_tokens i js ++ mark (p 3) (str8_lit ")") ∷ rest))
        ≡ Parsed.parsed
            (sql SqlNodeType.operator
              (if negate then str8_lit "not in" else str8_lit "in")
              (cons left (cons (sql SqlNodeType.in_list [] (item_nodes i js)) nil)))
            rest
  unfolding comparison_tail sql_check in_test str8_match match_loop adjust_char char_to_upper
      char_is_lower
  in_tail left p true i js rest = rw (in_right_lem (p 2) (p 3) i js rest) refl
  in_tail left p false i js rest = rw (in_right_lem (p 2) (p 3) i js rest) refl
