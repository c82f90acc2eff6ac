-- ===== src/Optimizer/Fold/Symbols.antt =====
-- src/optimizer/optimizer.c: what the symbols of comparisons mean.
use compute_ql.Shared.{◌≡◌, refl, Bool, true, not, some}
use compute_ql.Text.{Text, str8_lit, str8_match, match_exact, adjust_char, match_loop}
use compute_ql.Float.{Float, f64_from_str8, le}
use compute_ql.Ir.{NodeType, Node, Nodes, node, cons, has_type, value_of, same_type}
use compute_ql.Optimizer.{is_operator}
use compute_ql.Optimizer.Logic.{Row, operand, leaf_meaning, is_comparison, meaning, test_pair}

-- The comparisons of numbers.
pub data Symbol : Text → Type 0 where
  equal : Symbol (str8_lit "=")
  equal_equal : Symbol (str8_lit "==")
  differs : Symbol (str8_lit "!=")
  below : Symbol (str8_lit "<")
  at_most : Symbol (str8_lit "<=")
  above : Symbol (str8_lit ">")
  at_least : Symbol (str8_lit ">=")

-- An operator with such a name means the test of its operands.
pub meaning-Symbol :
    {V : Type 0} (row : Row V) (t : NodeType) (v : Text) (l r : Node) (rest : Nodes)
    → Symbol v
    → same_type t NodeType.operator ≡ true
    → meaning row (node t v (cons l (cons r rest)))
      ≡ test_pair row (operand row (some l)) (operand row (some r)) (row.compare v)
unfolding meaning leaf_meaning is_operator is_comparison str8_match match_loop adjust_char
meaning-Symbol row t v l r rest equal h = rw h refl
meaning-Symbol row t v l r rest equal_equal h = rw h refl
meaning-Symbol row t v l r rest differs h = rw h refl
meaning-Symbol row t v l r rest below h = rw h refl
meaning-Symbol row t v l r rest at_most h = rw h refl
meaning-Symbol row t v l r rest above h = rw h refl
meaning-Symbol row t v l r rest at_least h = rw h refl

-- The row compares constants by their values: numbers as F64, string literals byte by byte.
pub record ComparesConstants (fl : Float) {V : Type 0} (row : Row V) : Type 0 where
  pub numbers :
      (l r : Node)
      → has_type l NodeType.numeric ≡ true
      → has_type r NodeType.numeric ≡ true
      → (row.compare (str8_lit "=") (row.constant l) (row.constant r)
          ≡ fl.eq (f64_from_str8 fl (value_of l)) (f64_from_str8 fl (value_of r)))
        × (row.compare (str8_lit "==") (row.constant l) (row.constant r)
            ≡ fl.eq (f64_from_str8 fl (value_of l)) (f64_from_str8 fl (value_of r)))
        × (row.compare (str8_lit "!=") (row.constant l) (row.constant r)
            ≡ not (fl.eq (f64_from_str8 fl (value_of l)) (f64_from_str8 fl (value_of r))))
        × (row.compare (str8_lit "<") (row.constant l) (row.constant r)
            ≡ fl.lt (f64_from_str8 fl (value_of l)) (f64_from_str8 fl (value_of r)))
        × (row.compare (str8_lit "<=") (row.constant l) (row.constant r)
            ≡ le fl (f64_from_str8 fl (value_of l)) (f64_from_str8 fl (value_of r)))
        × (row.compare (str8_lit ">") (row.constant l) (row.constant r)
            ≡ fl.lt (f64_from_str8 fl (value_of r)) (f64_from_str8 fl (value_of l)))
        × (row.compare (str8_lit ">=") (row.constant l) (row.constant r)
            ≡ le fl (f64_from_str8 fl (value_of r)) (f64_from_str8 fl (value_of l)))
  pub texts :
      (l r : Node)
      → has_type l NodeType.literal ≡ true
      → has_type r NodeType.literal ≡ true
      → (row.compare (str8_lit "=") (row.constant l) (row.constant r)
          ≡ str8_match (value_of l) (value_of r) match_exact)
        × (row.compare (str8_lit "==") (row.constant l) (row.constant r)
            ≡ str8_match (value_of l) (value_of r) match_exact)
        × (row.compare (str8_lit "!=") (row.constant l) (row.constant r)
            ≡ not (str8_match (value_of l) (value_of r) match_exact))

-- The name is one of the symbols, and its test on the operands gives `b`.
unfoldable pub Tests : {V : Type 0} → Row V → Text → V → V → Bool → Type 0
Tests row op v w b = Symbol op × (row.compare op v w ≡ b)
