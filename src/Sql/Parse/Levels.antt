-- ===== src/Sql/Parse/Levels.antt =====
-- src/ir_gen/sql_parser.c: how a reading of the operands becomes one of AND, OR and parentheses.
use mathlib.Core.List.{append_assoc}
use compute_ql.Shared.{
  ℕ, zero, suc, ◌≤◌, ◌<◌, ◌≡◌, refl, ◌∙◌, true, false, [], ◌∷◌, ◌++◌, length, arith, length-append,
}
use compute_ql.Text.{
  Text, str8_lit, str8_match, match_loop, adjust_char, char_to_upper, char_is_lower,
}
use compute_ql.Sql.Tree.{SqlNode}
use compute_ql.Sql.Lex.{Token}
use compute_ql.Sql.Print.{Spot, Spots, word, mark, grouped, apply}
use compute_ql.Sql.Cursor.{
  Context, Parsed, keyword_at, sql_check, sql_check_paren_select, connective_loop, second_is,
}
use compute_ql.Sql.Parse.{
  Statements, sql_parse_comparison_expression, sql_parse_and_expression,
  sql_parse_logical_expression,
}
use compute_ql.Sql.Parse.Comparison.{Stops, before_word, before_close}

module _ (st : Statements) where
  abbrev pub group : ℕ → Context → Parsed
  group n = sql_parse_logical_expression st n

  -- The tokens are read as the node where only a comparison may stand.
  unfoldable pub AtomReads : Context → SqlNode → Type 0
  AtomReads ts v =
      (n : ℕ) (rest : Context)
      → Stops rest
      → length ts ≤ n
      → sql_parse_comparison_expression st (group n) (ts ++ rest) ≡ Parsed.parsed v rest

  -- Where AND may stand, they are read up to the loop that looks for one.
  unfoldable pub AndReads : Context → SqlNode → Type 0
  AndReads ts v =
      (n : ℕ) (rest : Context)
      → Stops rest
      → length ts ≤ n
      → (f : ℕ) × (length rest < f)
        × (sql_parse_and_expression st (group n) (ts ++ rest)
            ≡ connective_loop (str8_lit "and") (sql_parse_comparison_expression st (group n)) f v
                rest)

  -- Where OR may stand, with no AND behind.
  unfoldable pub OrReads : Context → SqlNode → Type 0
  OrReads ts v =
      (n : ℕ) (rest : Context)
      → Stops rest
      → keyword_at rest (str8_lit "and") ≡ false
      → length ts ≤ n
      → (f : ℕ) × (length rest < f)
        × (sql_parse_logical_expression st (suc n) (ts ++ rest)
            ≡ connective_loop (str8_lit "or") (sql_parse_and_expression st (group n)) f v rest)

  pub AndReads-atom : (ts : Context) (v : SqlNode) → AtomReads ts v → AndReads ts v
  unfolding AtomReads AndReads sql_parse_and_expression
  AndReads-atom ts v atom n rest s h = (suc (length rest), omega arith, rw (atom n rest s h) refl)

  pub loop_stops :
      (name : Text) (next : Context → Parsed) (f : ℕ) (v : SqlNode) (rest : Context)
      → 0 < f
      → keyword_at rest name ≡ false
      → connective_loop name next f v rest ≡ Parsed.parsed v rest
  unfolding connective_loop
  loop_stops name next zero v rest p k = absurd (omega arith)
  loop_stops name next (suc f) v rest p k = rw (connective_loop, k) refl

  -- All of an operand of OR.
  and_whole :
      (ts : Context) (v : SqlNode) (n : ℕ) (rest : Context)
      → AndReads ts v
      → Stops rest
      → keyword_at rest (str8_lit "and") ≡ false
      → length ts ≤ n
      → sql_parse_and_expression st (group n) (ts ++ rest) ≡ Parsed.parsed v rest
  unfolding AndReads
  and_whole ts v n rest reads s k h =
      let (f, p, e) = reads n rest s h in
      e
      ∙ loop_stops (str8_lit "and") (sql_parse_comparison_expression st (group n)) f v rest
          (omega arith) k

  pub OrReads-and : (ts : Context) (v : SqlNode) → AndReads ts v → OrReads ts v
  unfolding OrReads sql_parse_logical_expression
  OrReads-and ts v reads n rest s k h =
      (suc (length rest), omega arith, rw (and_whole ts v n rest reads s k h) refl)

  loop_goes_on :
      (p : Spot) (name : Text) (next : Context → Parsed) (f : ℕ) (v w : SqlNode) (ts rest : Context)
      → keyword_at (word p name ∷ (ts ++ rest)) name ≡ true
      → next (ts ++ rest) ≡ Parsed.parsed w rest
      → connective_loop name next (suc f) v (word p name ∷ (ts ++ rest))
        ≡ connective_loop name next f (apply name v w) rest
  unfolding connective_loop
  loop_goes_on p name next f v w ts rest k e = rw (connective_loop, k, e) refl

  one_round :
      (p : Spot) (name : Text) (next : Context → Parsed) (f : ℕ) (v w : SqlNode) (us rest : Context)
      (before : Parsed)
      → before ≡ connective_loop name next f v (word p name ∷ (us ++ rest))
      → suc (length (us ++ rest)) < f
      → keyword_at (word p name ∷ (us ++ rest)) name ≡ true
      → next (us ++ rest) ≡ Parsed.parsed w rest
      → (g : ℕ) × (length rest < g) × (before ≡ connective_loop name next g (apply name v w) rest)
  one_round p name next zero v w us rest before e l k r = absurd (omega arith)
  one_round p name next (suc f) v w us rest before e l k r =
      (f, omega (arith, length-append us rest), e ∙ loop_goes_on p name next f v w us rest k r)

  split_first :
      (xs : Context) (t : Token) (ys rest : Context)
      → (xs ++ t ∷ ys) ++ rest ≡ xs ++ (t ∷ (ys ++ rest))
  split_first xs t ys rest = append_assoc xs (t ∷ ys) rest

  pub AndReads-conj :
      (p : Spot) (ts us : Context) (v w : SqlNode)
      → AndReads ts v
      → AtomReads us w
      → AndReads (ts ++ word p (str8_lit "and") ∷ us) (apply (str8_lit "and") v w)
  unfolding AndReads AtomReads sql_check str8_match match_loop adjust_char char_to_upper
      char_is_lower
  AndReads-conj p ts us v w left right n rest s h =
      let total = length-append ts (word p (str8_lit "and") ∷ us) in
      let (f, l, e) =
        left n (word p (str8_lit "and") ∷ (us ++ rest))
          (before_word p (str8_lit "and") (us ++ rest)) (omega arith) in
      rw (split_first ts (word p (str8_lit "and")) us rest) (
        one_round p (str8_lit "and") (sql_parse_comparison_expression st (group n)) f v w us rest _
          e l refl (right n rest s (omega arith)))

  pub OrReads-disj :
      (p : Spot) (ts us : Context) (v w : SqlNode)
      → OrReads ts v
      → AndReads us w
      → OrReads (ts ++ word p (str8_lit "or") ∷ us) (apply (str8_lit "or") v w)
  unfolding OrReads sql_check str8_match match_loop adjust_char char_to_upper char_is_lower
  OrReads-disj p ts us v w left right n rest s k h =
      let total = length-append ts (word p (str8_lit "or") ∷ us) in
      let (f, l, e) =
        left n (word p (str8_lit "or") ∷ (us ++ rest)) (before_word p (str8_lit "or") (us ++ rest))
          refl (omega arith) in
      rw (split_first ts (word p (str8_lit "or")) us rest) (
        one_round p (str8_lit "or") (sql_parse_and_expression st (group n)) f v w us rest _ e l refl
          (and_whole us w n rest right s k (omega arith)))

  -- A group begins with no SELECT.
  unfoldable pub StartsPlain : Context → Type 0
  StartsPlain ts =
      (p : Spot) (rest : Context)
      → second_is (mark p (str8_lit "(") ∷ (ts ++ rest)) (str8_lit "select") ≡ false

  pub AtomReads-grouped :
      (p : Spots) (ts : Context) (v : SqlNode)
      → StartsPlain ts
      → OrReads ts v
      → AtomReads (grouped p true ts) v
  unfolding AtomReads OrReads StartsPlain sql_parse_comparison_expression sql_check_paren_select
      sql_check str8_match match_loop adjust_char char_to_upper char_is_lower
  AtomReads-grouped p ts v plain reads zero rest s h =
      absurd (omega (arith, length-append ts (mark (p 1) (str8_lit ")") ∷ [])))
  AtomReads-grouped p ts v plain reads (suc n) rest s h =
      let total = length-append ts (mark (p 1) (str8_lit ")") ∷ []) in
      let (f, l, e) =
        reads n (mark (p 1) (str8_lit ")") ∷ rest) (before_close (p 1) rest) refl (omega arith) in
      let whole =
        e
        ∙ loop_stops (str8_lit "or") (sql_parse_and_expression st (group n)) f v
            (mark (p 1) (str8_lit ")") ∷ rest) (omega arith) refl in
      rw
        (
          append_assoc ts (mark (p 1) (str8_lit ")") ∷ []) rest,
          plain (p 0) (mark (p 1) (str8_lit ")") ∷ rest),
          whole,
        )
        refl
