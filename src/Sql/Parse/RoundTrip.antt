-- ===== src/Sql/Parse/RoundTrip.antt =====
-- src/ir_gen/sql_parser.c: `sql_parse_logical_expression` reads back the tokens of a condition.
use mathlib.Core.List.{append_assoc}
use compute_ql.Shared.{
  ℕ, suc, ◌≤◌, ◌≡◌, refl, ◌∙◌, Bool, true, false, List, [], ◌∷◌, ◌++◌, length, arith, length-append,
  ltb,
}
use compute_ql.Text.{
  Text, str8_lit, str8_match, match_loop, adjust_char, char_to_upper, char_is_lower,
}
use compute_ql.Sql.Tree.{SqlNodeType, sql, nil, cons}
use compute_ql.Sql.Lex.{TokenType}
use compute_ql.Sql.Print.{
  Operand, plain_column, qualified_column, number_value, text_value, truth_value, Item, Spot, Spots,
  token_at, word, mark, operand_tokens, operand_node, item_tokens, null_words, in_words, grouped,
  Condition, compare_with, null_check, member_of, conj, disj, condition_tokens, condition_node,
  apply,
}
use compute_ql.Sql.Cursor.{Context, Parsed, keyword_at, sql_check}
use compute_ql.Sql.Parse.{
  Statements, sql_parse_and_expression, sql_parse_logical_expression, sql_parse_where_clause,
}
use compute_ql.Sql.Parse.Levels.{
  AndReads-atom, OrReads-and, AndReads-conj, OrReads-disj, AtomReads-grouped, loop_stops, AtomReads,
  AndReads, OrReads, StartsPlain, group,
}
use compute_ql.Sql.Parse.Comparison.{
  Stops, before_word, before_operator, comparison_starts, operator_tail, null_tail, in_tail,
}

module _ (st : Statements) where
  StartsPlain-append : (ts us : Context) → StartsPlain st ts → StartsPlain st (ts ++ us)
  unfolding StartsPlain
  StartsPlain-append ts us plain q rest = rw (append_assoc ts us rest) (plain q (us ++ rest))

  StartsPlain-operand : (o : Operand) → StartsPlain st (operand_tokens o)
  unfolding StartsPlain str8_match match_loop adjust_char char_to_upper char_is_lower
  StartsPlain-operand (plain_column p c) q rest = refl
  StartsPlain-operand (qualified_column p t c) q rest = refl
  StartsPlain-operand (number_value p v) q rest = refl
  StartsPlain-operand (text_value p v) q rest = refl
  StartsPlain-operand (truth_value p true) q rest = refl
  StartsPlain-operand (truth_value p false) q rest = refl

  StartsPlain-grouped :
      (p : Spots) (b : Bool) (ts : Context) → StartsPlain st ts → StartsPlain st (grouped p b ts)
  unfolding StartsPlain
  StartsPlain-grouped p true ts plain q rest = refl
  StartsPlain-grouped p false ts plain q rest = plain q rest

  StartsPlain-condition : (level : ℕ) (c : Condition) → StartsPlain st (condition_tokens level c)
  StartsPlain-condition level (compare_with p op a b) =
      StartsPlain-append (operand_tokens a)
        (token_at (p 0) TokenType.operator op ∷ operand_tokens b) (StartsPlain-operand a)
  StartsPlain-condition level (null_check p negate a) =
      StartsPlain-append (operand_tokens a) (null_words p negate) (StartsPlain-operand a)
  StartsPlain-condition level (member_of p negate a i js) =
      StartsPlain-append (operand_tokens a)
        (in_words p negate ++ (item_tokens i js ++ mark (p 3) (str8_lit ")") ∷ []))
        (StartsPlain-operand a)
  StartsPlain-condition level (conj p a b) =
      StartsPlain-grouped p (ltb 1 level)
        (condition_tokens 1 a ++ (word (p 2) (str8_lit "and") ∷ condition_tokens 2 b))
        (StartsPlain-append (condition_tokens 1 a)
          (word (p 2) (str8_lit "and") ∷ condition_tokens 2 b) (StartsPlain-condition 1 a))
  StartsPlain-condition level (disj p a b) =
      StartsPlain-grouped p (ltb 0 level)
        (condition_tokens 0 a ++ (word (p 2) (str8_lit "or") ∷ condition_tokens 1 b))
        (StartsPlain-append (condition_tokens 0 a)
          (word (p 2) (str8_lit "or") ∷ condition_tokens 1 b) (StartsPlain-condition 0 a))

  AtomReads-compare :
      (p : Spots) (op : Text) (a b : Operand)
      → AtomReads st
          (operand_tokens a ++ (token_at (p 0) TokenType.operator op ∷ operand_tokens b))
          (apply op (operand_node a) (operand_node b))
  unfolding AtomReads
  AtomReads-compare p op a b n rest s h =
      rw
        (append_assoc (operand_tokens a) (token_at (p 0) TokenType.operator op ∷ operand_tokens b)
          rest)
        (comparison_starts st (group st n) a
            (token_at (p 0) TokenType.operator op ∷ (operand_tokens b ++ rest))
            (before_operator (p 0) op (operand_tokens b ++ rest))
          ∙ operator_tail st (operand_node a) (p 0) op b rest s)

  Stops-null : (p : Spots) (negate : Bool) (rest : Context) → Stops (null_words p negate ++ rest)
  Stops-null p true rest = before_word (p 0) (str8_lit "is") _
  Stops-null p false rest = before_word (p 0) (str8_lit "is") _

  Stops-in : (p : Spots) (negate : Bool) (rest : Context) → Stops (in_words p negate ++ rest)
  Stops-in p true rest = before_word (p 0) (str8_lit "not") _
  Stops-in p false rest = before_word (p 1) (str8_lit "in") _

  AtomReads-null :
      (p : Spots) (negate : Bool) (a : Operand)
      → AtomReads st
          (operand_tokens a ++ null_words p negate)
          (condition_node (null_check p negate a))
  unfolding AtomReads
  AtomReads-null p negate a n rest s h =
      rw (append_assoc (operand_tokens a) (null_words p negate) rest) (
        comparison_starts st (group st n) a (null_words p negate ++ rest) (Stops-null p negate rest)
        ∙ null_tail st (operand_node a) p negate rest)

  AtomReads-in :
      (p : Spots) (negate : Bool) (a : Operand) (i : Item) (js : List Item)
      → AtomReads st
          (operand_tokens a
            ++ (in_words p negate ++ (item_tokens i js ++ mark (p 3) (str8_lit ")") ∷ [])))
          (condition_node (member_of p negate a i js))
  unfolding AtomReads
  AtomReads-in p negate a i js n rest s h =
      let list = item_tokens i js ++ mark (p 3) (str8_lit ")") ∷ [] in
      rw
        (
          append_assoc (operand_tokens a) (in_words p negate ++ list) rest,
          append_assoc (in_words p negate) list rest,
          append_assoc (item_tokens i js) (mark (p 3) (str8_lit ")") ∷ []) rest,
        )
        (comparison_starts st (group st n) a
            (in_words p negate ++ (item_tokens i js ++ mark (p 3) (str8_lit ")") ∷ rest))
            (Stops-in p negate _)
          ∙ in_tail st (operand_node a) p negate i js rest)

  -- A condition is read at each of the three places.
  Reads : Condition → Type 0
  Reads c =
      AtomReads st (condition_tokens 2 c) (condition_node c)
      × AndReads st (condition_tokens 1 c) (condition_node c)
      × OrReads st (condition_tokens 0 c) (condition_node c)

  Reads-leaf :
      (c : Condition) (ts : Context)
      → ((level : ℕ) → condition_tokens level c ≡ ts)
      → AtomReads st ts (condition_node c)
      → Reads c
  unfolding Reads
  Reads-leaf c ts same atom =
      let v = condition_node c in
      let pair = AndReads-atom st ts v atom in
      (rw (same 2) atom, rw (same 1) pair, rw (same 0) (OrReads-and st ts v pair))

  reads : (c : Condition) → Reads c
  unfolding Reads
  reads (compare_with p op a b) =
      Reads-leaf (compare_with p op a b) _ (λ level. refl) (AtomReads-compare p op a b)
  reads (null_check p negate a) =
      Reads-leaf (null_check p negate a) _ (λ level. refl) (AtomReads-null p negate a)
  reads (member_of p negate a i js) =
      Reads-leaf (member_of p negate a i js) _ (λ level. refl) (AtomReads-in p negate a i js)
  reads (conj p a b) =
      let (atom_a, and_a, or_a) = reads a in
      let (atom_b, and_b, or_b) = reads b in
      let ts = condition_tokens 1 a ++ word (p 2) (str8_lit "and") ∷ condition_tokens 2 b in
      let v = condition_node (conj p a b) in
      let together =
        AndReads-conj st (p 2) (condition_tokens 1 a) (condition_tokens 2 b) (condition_node a)
          (condition_node b) and_a atom_b in
      let whole = OrReads-and st ts v together in
      (AtomReads-grouped st p ts v (StartsPlain-condition 0 (conj p a b)) whole, together, whole)
  reads (disj p a b) =
      let (atom_a, and_a, or_a) = reads a in
      let (atom_b, and_b, or_b) = reads b in
      let ts = condition_tokens 0 a ++ word (p 2) (str8_lit "or") ∷ condition_tokens 1 b in
      let v = condition_node (disj p a b) in
      let whole =
        OrReads-disj st (p 2) (condition_tokens 0 a) (condition_tokens 1 b) (condition_node a)
          (condition_node b) or_a and_b in
      let atom = AtomReads-grouped st p ts v (StartsPlain-condition 0 (disj p a b)) whole in
      (atom, AndReads-atom st (grouped p true ts) v atom, whole)

  -- Wherever its tokens stand in the text, a condition that is written with parentheses where its tree needs them, AND before OR and both
  -- to the left, is parsed to its tree, and what follows is left, where that is nothing, a closing
  -- parenthesis, an operator or a keyword other than AND and OR. The keywords of the condition are in
  -- lower case.
  pub logical_expression-condition :
      (c : Condition) (rest : Context) (fuel : ℕ)
      → Stops rest
      → keyword_at rest (str8_lit "and") ≡ false
      → keyword_at rest (str8_lit "or") ≡ false
      → length (condition_tokens 0 c) ≤ fuel
      → sql_parse_logical_expression st (suc fuel) (condition_tokens 0 c ++ rest)
        ≡ Parsed.parsed (condition_node c) rest
  unfolding Reads OrReads
  logical_expression-condition c rest fuel s k1 k2 h =
      let (atom, pair, whole) = reads c in
      let (f, l, e) = whole fuel rest s k1 h in
      e
      ∙ loop_stops st (str8_lit "or") (sql_parse_and_expression st (group st fuel)) f
          (condition_node c) rest (omega arith) k2

  -- WHERE and such a condition is parsed to a where node over its tree, by the fuel that the parser
  -- of WHERE takes, and what follows is left, under the same conditions on it.
  pub where_clause-condition :
      (p : Spot) (c : Condition) (rest : Context)
      → Stops rest
      → keyword_at rest (str8_lit "and") ≡ false
      → keyword_at rest (str8_lit "or") ≡ false
      → sql_parse_where_clause st (word p (str8_lit "where") ∷ (condition_tokens 0 c ++ rest))
        ≡ Parsed.parsed (sql SqlNodeType.where_clause [] (cons (condition_node c) nil)) rest
  unfolding sql_parse_where_clause sql_check str8_match match_loop adjust_char char_to_upper
      char_is_lower
  where_clause-condition p c rest s k1 k2 =
      rw
        (logical_expression-condition c rest (length (condition_tokens 0 c ++ rest)) s k1 k2
          (omega (arith, length-append (condition_tokens 0 c) rest)))
        refl
