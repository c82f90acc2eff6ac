-- ===== src/Optimizer/RejectsNull/Sound.antt =====
-- src/optimizer/optimizer.c: `optimizer_rejects_null` is sound for SQL's three-valued logic.
use compute_ql.Shared.{
  ◌⊎◌, inl, inr, ℕ, ◌≡◌, refl, ◌≢◌, Bool, true, false, ◌&&◌, ◌||◌, List, Option, none, some,
  if◌then◌else◌, arith,
}
use compute_ql.Text.{Text}
use compute_ql.Ir.{Node, Nodes, node, nil, cons, first, second, value_of}
use compute_ql.Optimizer.{Relation, is_and, is_or}
use compute_ql.Optimizer.Refs.{optimizer_resolve_column}
use compute_ql.Optimizer.Logic.{
  Truth, no, unknown, holds, both, either, Row, operand, leaf_meaning, meaning, first_meaning,
  second_meaning,
}
use compute_ql.Optimizer.RejectsNull.{
  is_column_of, leaf_rejects_null, optimizer_rejects_null, first_rejects_null, second_rejects_null,
}

both_not_holds : (l r : Truth) → both l r ≡ holds → (l ≡ holds) × (r ≡ holds)
both_not_holds no r e = cc
both_not_holds unknown no e = cc
both_not_holds unknown unknown e = cc
both_not_holds unknown holds e = cc
both_not_holds holds r e = (refl, e)

either_not_holds : (l r : Truth) → either l r ≡ holds → (l ≡ holds) ⊎ (r ≡ holds)
either_not_holds holds r e = inl refl
either_not_holds unknown no e = cc
either_not_holds unknown unknown e = cc
either_not_holds unknown holds e = inr refl
either_not_holds no r e = inr e

-- The tests of one node, with the answers for its operands and for a leaf given.
connective_sound :
    (op conj disj l_rejects r_rejects leaf_rejects : Bool) (l r leaf : Truth)
    → (l_rejects ≡ true → l ≢ holds)
    → (r_rejects ≡ true → r ≢ holds)
    → (leaf_rejects ≡ true → leaf ≢ holds)
    → (if op
        then (if conj
            then l_rejects || r_rejects
            else if disj
            then l_rejects && r_rejects
            else leaf_rejects)
        else false)
      ≡ true
    → (if conj then both l r else if disj then either l r else leaf) ≢ holds
connective_sound false conj disj lr rr fr l r leaf hl hr hf e = cc
connective_sound true true disj true rr fr l r leaf hl hr hf e =
    λ m. hl refl (both_not_holds l r m).0
connective_sound true true disj false rr fr l r leaf hl hr hf e = λ m. hr e (both_not_holds l r m).1
connective_sound true false true true rr fr l r leaf hl hr hf e =
    λ m. elim (either_not_holds l r m) [ inl a ↦ hl refl a | inr b ↦ hr e b ]
connective_sound true false true false rr fr l r leaf hl hr hf e = cc
connective_sound true false false lr rr fr l r leaf hl hr hf e = hf e

module _ {V : Type 0} (row : Row V) (rs : List Relation) (relation : ℕ)
    (nulls : (name : Text)
      → optimizer_resolve_column rs name ≡ relation
      → row.column name ≡ none) where
  operand_null : (n : Option Node) → is_column_of rs relation n ≡ true → operand row n ≡ none
  unfolding is_column_of operand
  operand_null none e = cc
  operand_null (some n) e = ground (arith, nulls (value_of n))

  leaf_rejects_sound :
      (n : Node) (left right : Option Node)
      → leaf_rejects_null rs relation n left right ≡ true
      → leaf_meaning row n left right ≢ holds
  unfolding leaf_rejects_null leaf_meaning
  leaf_rejects_sound n left right e = ground (arith, operand_null left, operand_null right)

  mutual
    unfolding optimizer_rejects_null meaning

    rejects_sound : (n : Node) → optimizer_rejects_null rs relation n ≡ true → meaning row n ≢ holds
    rejects_sound (node t v cs) e =
        connective_sound _ (is_and (node t v cs)) (is_or (node t v cs)) _ _ _ _ _ _
          (first_rejects_sound cs) (second_rejects_sound cs)
          (leaf_rejects_sound (node t v cs) (first cs) (second cs)) e

    first_rejects_sound :
        (cs : Nodes) → first_rejects_null rs relation cs ≡ true → first_meaning row cs ≢ holds
    first_rejects_sound nil e = cc
    first_rejects_sound (cons c cs) e = rejects_sound c e

    second_rejects_sound :
        (cs : Nodes) → second_rejects_null rs relation cs ≡ true → second_meaning row cs ≢ holds
    second_rejects_sound nil e = cc
    second_rejects_sound (cons c nil) e = cc
    second_rejects_sound (cons c (cons d cs)) e = rejects_sound d e

-- A condition that the optimizer says rejects NULL of a relation is not true on a row where every
-- column that resolves to that relation is NULL, whatever the other columns hold.
pub rejects_null_sound :
    {V : Type 0} (row : Row V) (rs : List Relation) (relation : ℕ) (n : Node)
    → ((name : Text) → optimizer_resolve_column rs name ≡ relation → row.column name ≡ none)
    → optimizer_rejects_null rs relation n ≡ true
    → meaning row n ≢ holds
rejects_null_sound row rs relation n nulls e = rejects_sound row rs relation nulls n e
