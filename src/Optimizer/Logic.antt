-- ===== src/Optimizer/Logic.antt =====
-- What a condition means on a row: SQL's three-valued logic, written without the optimizer's code.
-- The tests on values are a parameter; NULL is `none`.
use compute_ql.Shared.{
  ◌≡◌, refl, Bool, true, false, not, ◌||◌, List, [], ◌∷◌, Option, none, some, if◌then◌else◌,
}
use compute_ql.Text.{Text, str8_lit}
use compute_ql.Ir.{NodeType, Node, Nodes, node, nil, cons, first, second, has_type, value_of}
use compute_ql.Optimizer.{is_operator, is_and, is_or}

pub data Truth : Type 0 where
  no unknown holds : Truth

abbrev pub both : Truth → Truth → Truth
both no b = no
both unknown no = no
both unknown unknown = unknown
both unknown holds = unknown
both holds b = b

abbrev pub either : Truth → Truth → Truth
either holds b = holds
either unknown holds = holds
either unknown unknown = unknown
either unknown no = unknown
either no b = b

abbrev pub of_bool : Bool → Truth
of_bool true = holds
of_bool false = no

-- A row and the tests on its values. `other` is the truth of what is no operator of the list below.
pub record Row (V : Type 0) : Type 0 where
  pub column : Text → Option V
  pub constant : Node → V
  pub compare : Text → V → V → Bool
  pub member : Option Node → V → Bool
  pub other : Node → Truth

unfoldable pub is_comparison : Node → Bool
is_comparison n =
    is_operator n (str8_lit "=")
    || is_operator n (str8_lit "==")
    || is_operator n (str8_lit "!=")
    || is_operator n (str8_lit "<")
    || is_operator n (str8_lit "<=")
    || is_operator n (str8_lit ">")
    || is_operator n (str8_lit ">=")
    || is_operator n (str8_lit "equals")
    || is_operator n (str8_lit "contains")

module _ {V : Type 0} (row : Row V) where
  unfoldable pub operand : Option Node → Option V
  operand none = none
  operand (some n) =
      if has_type n NodeType.column then row.column (value_of n) else some (row.constant n)

  abbrev pub is_null : Option V → Truth
  is_null none = holds
  is_null (some v) = no

  abbrev pub is_not_null : Option V → Truth
  is_not_null none = no
  is_not_null (some v) = holds

  -- A test on NULL is unknown.
  abbrev pub test : Option V → (V → Bool) → Truth
  test none p = unknown
  test (some v) p = of_bool (p v)

  abbrev pub test_pair : Option V → Option V → (V → V → Bool) → Truth
  test_pair none w p = unknown
  test_pair (some v) w p = test w (p v)

  -- A node that is no connective.
  unfoldable pub leaf_meaning : Node → Option Node → Option Node → Truth
  leaf_meaning n left right =
      if is_operator n (str8_lit "is null")
      then is_null (operand left)
      else if is_operator n (str8_lit "is not null")
      then is_not_null (operand left)
      else if is_operator n (str8_lit "in")
      then test (operand left) (row.member right)
      else if is_operator n (str8_lit "not in")
      then test (operand left) (λ v. not (row.member right v))
      else if is_comparison n
      then test_pair (operand left) (operand right) (row.compare (value_of n))
      else row.other n

  -- An operand that is missing holds, as a condition without it does.
  unfoldable mutual
    pub meaning : Node → Truth
    meaning (node t v cs) =
        let left : Truth = first_meaning cs in
        let right : Truth = second_meaning cs in
        if is_and (node t v cs)
        then both left right
        else if is_or (node t v cs)
        then either left right
        else leaf_meaning (node t v cs) (first cs) (second cs)

    pub first_meaning : Nodes → Truth
    first_meaning nil = holds
    first_meaning (cons c cs) = meaning c

    pub second_meaning : Nodes → Truth
    second_meaning nil = holds
    second_meaning (cons c nil) = holds
    second_meaning (cons c (cons d cs)) = meaning d

  -- The conjunction of a list of conditions.
  unfoldable pub all_hold : List Node → Truth
  all_hold [] = holds
  all_hold (n ∷ ns) = both (meaning n) (all_hold ns)

pub both_assoc : (a b c : Truth) → both (both a b) c ≡ both a (both b c)
both_assoc no b c = refl
both_assoc unknown no c = refl
both_assoc unknown unknown no = refl
both_assoc unknown unknown unknown = refl
both_assoc unknown unknown holds = refl
both_assoc unknown holds c = refl
both_assoc holds b c = refl

pub both-holds : (a : Truth) → both a holds ≡ a
both-holds no = refl
both-holds unknown = refl
both-holds holds = refl
