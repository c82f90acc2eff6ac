-- ===== src/Optimizer/Bounds/Symbols.antt =====
-- src/optimizer/optimizer.c: the names of the comparisons, and `optimizer_flip_comparison`.
use compute_ql.Shared.{◌≡◌, refl, sym, subst, ◌∙◌, ◌⊎◌, inl, inr, false, none, arith, Bool-cases}
use compute_ql.Text.{Text, str8_lit, str8_match, match_exact}
use compute_ql.Text.Match.{str8_match_exact_iff}
use compute_ql.Float.{Float}
use compute_ql.Optimizer.Fold.{is_op, optimizer_compare_numbers, compare_strings}
use compute_ql.Optimizer.Fold.Symbols.{
  Symbol, equal, equal_equal, differs, below, at_most, above, at_least,
}
use compute_ql.Optimizer.Bounds.{optimizer_flip_comparison}

-- A name that is none of the comparisons.
pub record IsOther (op : Text) : Type 0 where
  pub not_equal : is_op op (str8_lit "=") ≡ false
  pub not_equal_equal : is_op op (str8_lit "==") ≡ false
  pub not_differs : is_op op (str8_lit "!=") ≡ false
  pub not_below : is_op op (str8_lit "<") ≡ false
  pub not_at_most : is_op op (str8_lit "<=") ≡ false
  pub not_above : is_op op (str8_lit ">") ≡ false
  pub not_at_least : is_op op (str8_lit ">=") ≡ false

named : (op name : Text) → Symbol name → Symbol op ⊎ (is_op op name ≡ false)
named op name s = elim (Bool-cases (is_op op name)) [
  | inl e ↦ inl (subst Symbol (sym ((str8_match_exact_iff op name).0 e)) s)
  | inr e ↦ inr e
]

-- Every name is one of the comparisons or none of them.
pub Symbol-cases : (op : Text) → Symbol op ⊎ IsOther op
Symbol-cases op = elim (named op (str8_lit "=") equal) [
  | inl s ↦ inl s
  | inr a ↦ elim (named op (str8_lit "==") equal_equal) [
    | inl s ↦ inl s
    | inr b ↦ elim (named op (str8_lit "!=") differs) [
      | inl s ↦ inl s
      | inr c ↦ elim (named op (str8_lit "<") below) [
        | inl s ↦ inl s
        | inr d ↦ elim (named op (str8_lit "<=") at_most) [
          | inl s ↦ inl s
          | inr e ↦ elim (named op (str8_lit ">") above) [
            | inl s ↦ inl s
            | inr f ↦ elim (named op (str8_lit ">=") at_least) [
              | inl s ↦ inl s
              | inr g ↦ inr (record {
                not_equal = a;
                not_equal_equal = b;
                not_differs = c;
                not_below = d;
                not_at_most = e;
                not_above = f;
                not_at_least = g;
              })
            ]
          ]
        ]
      ]
    ]
  ]
]

pub match_sym : (s t : Text) → str8_match s t match_exact ≡ str8_match t s match_exact
match_sym s t = elim (Bool-cases (str8_match s t match_exact)) [
  | inl e ↦
      let same : s ≡ t = (str8_match_exact_iff s t).0 e in
      e ∙ sym ((str8_match_exact_iff t s).1 (sym same))
  | inr e ↦ ground (arith, str8_match_exact_iff s t, str8_match_exact_iff t s)
]

module _ (fl : Float) where
  eq-sym : (a b : fl.F64) → fl.eq a b ≡ fl.eq b a
  eq-sym a b = ground (arith, fl.eq_symm a b, fl.eq_symm b a)

  pub compare_numbers-other :
      (op : Text) (a b : fl.F64) → IsOther op → optimizer_compare_numbers fl op a b ≡ none
  unfolding optimizer_compare_numbers
  compare_numbers-other op a b o = ground (
    arith, o.not_equal, o.not_equal_equal, o.not_differs, o.not_below, o.not_at_most, o.not_above,
    o.not_at_least,
  )

  flip-Symbol :
      (op : Text) (a b : fl.F64)
      → Symbol op
      → optimizer_compare_numbers fl (optimizer_flip_comparison op) a b
        ≡ optimizer_compare_numbers fl op b a
  unfolding optimizer_compare_numbers optimizer_flip_comparison str8_match
      compute_ql.Text.match_loop compute_ql.Text.adjust_char
  flip-Symbol _ a b equal = rw (eq-sym a b) refl
  flip-Symbol _ a b equal_equal = rw (eq-sym a b) refl
  flip-Symbol _ a b differs = rw (eq-sym a b) refl
  flip-Symbol _ a b below = refl
  flip-Symbol _ a b at_most = refl
  flip-Symbol _ a b above = refl
  flip-Symbol _ a b at_least = refl

  flip_other : (op : Text) → IsOther op → optimizer_flip_comparison op ≡ op
  unfolding optimizer_flip_comparison
  flip_other op o = rw (o.not_below, o.not_above, o.not_at_most, o.not_at_least) refl

  -- A flipped comparison tests the operands in the other order.
  pub compare_numbers-flip :
      (op : Text) (a b : fl.F64)
      → optimizer_compare_numbers fl (optimizer_flip_comparison op) a b
        ≡ optimizer_compare_numbers fl op b a
  compare_numbers-flip op a b = elim (Symbol-cases op) [
    | inl s ↦ flip-Symbol op a b s
    | inr o ↦
        rw (flip_other op o, compare_numbers-other op a b o, compare_numbers-other op b a o) refl
  ]

  text_flip-Symbol :
      (op s t : Text)
      → Symbol op
      → compare_strings fl (optimizer_flip_comparison op) s t ≡ compare_strings fl op t s
  unfolding compare_strings optimizer_flip_comparison str8_match compute_ql.Text.match_loop
      compute_ql.Text.adjust_char
  text_flip-Symbol _ s t equal = rw (match_sym s t) refl
  text_flip-Symbol _ s t equal_equal = rw (match_sym s t) refl
  text_flip-Symbol _ s t differs = rw (match_sym s t) refl
  text_flip-Symbol _ s t below = refl
  text_flip-Symbol _ s t at_most = refl
  text_flip-Symbol _ s t above = refl
  text_flip-Symbol _ s t at_least = refl

  pub compare_strings-other : (op s t : Text) → IsOther op → compare_strings fl op s t ≡ none
  unfolding compare_strings
  compare_strings-other op s t o = rw (o.not_equal, o.not_equal_equal, o.not_differs) refl

  pub compare_strings-flip :
      (op s t : Text)
      → compare_strings fl (optimizer_flip_comparison op) s t ≡ compare_strings fl op t s
  compare_strings-flip op s t = elim (Symbol-cases op) [
    | inl y ↦ text_flip-Symbol op s t y
    | inr o ↦
        rw (flip_other op o, compare_strings-other op s t o, compare_strings-other op t s o) refl
  ]
