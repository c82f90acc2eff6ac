-- ===== src/Sql/Print.antt =====
-- Conditions as a user writes them, and their tokens and trees: the reading that the parser of
-- src/ir_gen/sql_parser.c is measured by. OR binds weakest, then AND, then a comparison.
use compute_ql.Shared.{ℕ, Bool, true, false, List, [], ◌∷◌, ◌++◌, ltb, if◌then◌else◌}
use compute_ql.Text.{Text, str8_lit}
use compute_ql.Sql.Tree.{SqlNodeType, SqlNode, SqlNodes, sql, nil, cons}
use compute_ql.Sql.Lex.{TokenType, Token, token}

-- Where a token stands in the text: its range.
abbrev pub Spot : Type 0
Spot = ℕ × ℕ

-- Each part carries the ranges of its own tokens, numbered from 0.
abbrev pub Spots : Type 0
Spots = ℕ → Spot

abbrev pub token_at : Spot → TokenType → Text → Token
token_at p type value = token type value p.0 p.1

pub data Operand : Type 0 where
  plain_column : Spots → Text → Operand
  qualified_column : Spots → Text → Text → Operand
  number_value : Spots → Text → Operand
  text_value : Spots → Text → Operand
  truth_value : Spots → Bool → Operand

-- The comma before an item is its token 1.
pub data Item : Type 0 where
  number_item : Spots → Text → Item
  text_item : Spots → Text → Item

-- `null_check true` is IS NOT NULL and `member_of true` NOT IN; a list has a first item.
pub data Condition : Type 0 where
  compare_with : Spots → Text → Operand → Operand → Condition
  null_check : Spots → Bool → Operand → Condition
  member_of : Spots → Bool → Operand → Item → List Item → Condition
  conj : Spots → Condition → Condition → Condition
  disj : Spots → Condition → Condition → Condition

abbrev pub word : Spot → Text → Token
word p name = token_at p TokenType.keyword name

abbrev pub mark : Spot → Text → Token
mark p name = token_at p TokenType.symbol name

abbrev pub operand_tokens : Operand → List Token
operand_tokens (plain_column p c) = token_at (p 0) TokenType.identifier c ∷ []
operand_tokens (qualified_column p t c) =
    token_at (p 0) TokenType.identifier t
    ∷ mark (p 1) (str8_lit ".")
    ∷ token_at (p 2) TokenType.identifier c
    ∷ []
operand_tokens (number_value p v) = token_at (p 0) TokenType.number v ∷ []
operand_tokens (text_value p v) = token_at (p 0) TokenType.string v ∷ []
operand_tokens (truth_value p true) = word (p 0) (str8_lit "true") ∷ []
operand_tokens (truth_value p false) = word (p 0) (str8_lit "false") ∷ []

abbrev pub operand_node : Operand → SqlNode
operand_node (plain_column p c) = sql SqlNodeType.column c nil
operand_node (qualified_column p t c) = sql SqlNodeType.column (t ++ b'.' ∷ c) nil
operand_node (number_value p v) = sql SqlNodeType.numeric v nil
operand_node (text_value p v) = sql SqlNodeType.literal v nil
operand_node (truth_value p true) = sql SqlNodeType.numeric (str8_lit "1") nil
operand_node (truth_value p false) = sql SqlNodeType.numeric (str8_lit "0") nil

abbrev pub item_token : Item → Token
item_token (number_item p v) = token_at (p 0) TokenType.number v
item_token (text_item p v) = token_at (p 0) TokenType.string v

abbrev pub comma_spot : Item → Spot
comma_spot (number_item p v) = p 1
comma_spot (text_item p v) = p 1

abbrev pub comma : Item → Token
comma i = mark (comma_spot i) (str8_lit ",")

abbrev pub item_node : Item → SqlNode
item_node (number_item p v) = sql SqlNodeType.numeric v nil
item_node (text_item p v) = sql SqlNodeType.literal v nil

abbrev pub item_tokens : Item → List Item → List Token
item_tokens i [] = item_token i ∷ []
item_tokens i (j ∷ js) = item_token i ∷ (comma j ∷ item_tokens j js)

abbrev pub item_nodes : Item → List Item → SqlNodes
item_nodes i [] = cons (item_node i) nil
item_nodes i (j ∷ js) = cons (item_node i) (item_nodes j js)

abbrev pub grouped : Spots → Bool → List Token → List Token
grouped p true ts = mark (p 0) (str8_lit "(") ∷ (ts ++ mark (p 1) (str8_lit ")") ∷ [])
grouped p false ts = ts

abbrev pub null_words : Spots → Bool → List Token
null_words p true =
    word (p 0) (str8_lit "is") ∷ word (p 1) (str8_lit "not") ∷ word (p 2) (str8_lit "null") ∷ []
null_words p false = word (p 0) (str8_lit "is") ∷ word (p 2) (str8_lit "null") ∷ []

abbrev pub in_words : Spots → Bool → List Token
in_words p true =
    word (p 0) (str8_lit "not") ∷ word (p 1) (str8_lit "in") ∷ mark (p 2) (str8_lit "(") ∷ []
in_words p false = word (p 1) (str8_lit "in") ∷ mark (p 2) (str8_lit "(") ∷ []

-- The tokens at a place that takes OR (0), AND (1) or a comparison only (2).
abbrev pub condition_tokens : ℕ → Condition → List Token
condition_tokens level (compare_with p op a b) =
    operand_tokens a ++ (token_at (p 0) TokenType.operator op ∷ operand_tokens b)
condition_tokens level (null_check p negate a) = operand_tokens a ++ null_words p negate
condition_tokens level (member_of p negate a i js) =
    operand_tokens a ++ (in_words p negate ++ (item_tokens i js ++ mark (p 3) (str8_lit ")") ∷ []))
condition_tokens level (conj p a b) =
    grouped p (ltb 1 level)
      (condition_tokens 1 a ++ (word (p 2) (str8_lit "and") ∷ condition_tokens 2 b))
condition_tokens level (disj p a b) =
    grouped p (ltb 0 level)
      (condition_tokens 0 a ++ (word (p 2) (str8_lit "or") ∷ condition_tokens 1 b))

abbrev pub apply : Text → SqlNode → SqlNode → SqlNode
apply op a b = sql SqlNodeType.operator op (cons a (cons b nil))

abbrev pub condition_node : Condition → SqlNode
condition_node (compare_with p op a b) = apply op (operand_node a) (operand_node b)
condition_node (null_check p negate a) =
    sql SqlNodeType.operator (if negate then str8_lit "is not null" else str8_lit "is null")
      (cons (operand_node a) nil)
condition_node (member_of p negate a i js) =
    apply (if negate then str8_lit "not in" else str8_lit "in") (operand_node a)
      (sql SqlNodeType.in_list [] (item_nodes i js))
condition_node (conj p a b) = apply (str8_lit "and") (condition_node a) (condition_node b)
condition_node (disj p a b) = apply (str8_lit "or") (condition_node a) (condition_node b)
