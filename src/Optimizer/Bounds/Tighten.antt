-- ===== src/Optimizer/Bounds/Tighten.antt =====
-- src/optimizer/optimizer.c: a value that passes the comparisons keeps inside the bounds they make.
use compute_ql.Shared.{
  ◌≡◌, ◌≢◌, refl, inl, inr, Bool, true, false, not, ◌&&◌, ◌||◌, Option, none, some, arith,
  if◌then◌else◌, Bool-cases,
}
use compute_ql.Text.{Text, str8_lit, str8_match, match_exact}
use compute_ql.Text.Match.{str8_match_exact_iff}
use compute_ql.Float.{Float, f64_from_str8, le}
use compute_ql.Catalog.{ColumnType}
use compute_ql.Optimizer.Fold.Symbols.{
  Symbol, equal, equal_equal, differs, below, at_most, above, at_least,
}
use compute_ql.Optimizer.Bounds.Symbols.{IsOther, Symbol-cases}
use compute_ql.Ir.{NodeType, Node, has_type, value_of}
use compute_ql.Optimizer.Fold.{
  optimizer_compare_numbers, compare_strings, optimizer_number_from_literal,
}
use compute_ql.Optimizer.Bounds.{
  ColumnBounds, optimizer_bounds_are_contradictory, tighten, apply_string, checked,
  optimizer_bounds_apply, is_string8,
}

and_left : (a b : Bool) → (a && b) ≡ true → a ≡ true
and_left a b h = ground arith

and_right : (a b : Bool) → (a && b) ≡ true → b ≡ true
and_right a b h = ground arith

module _ (fl : Float) where
  -- The number `x` satisfies the bounds of a column.
  unfoldable pub within : ColumnBounds fl.F64 → fl.F64 → Bool
  within b x =
      (not b.has_lower || (if b.lower_strict then fl.lt b.lower x else le fl b.lower x))
      && (not b.has_upper || (if b.upper_strict then fl.lt x b.upper else le fl x b.upper))
      && (not b.has_equal || fl.eq x b.equal)

  -- The string `s` is the one that the bounds ask for.
  unfoldable pub spells : ColumnBounds fl.F64 → Text → Bool
  spells b s = not b.has_equal_string || str8_match s b.equal_string match_exact

  -- a ≤ x ≤ b leaves no room for b < a, and a strict one of the two not for a = b.
  not_crossed : (a b x : fl.F64) → le fl a x ≡ true → le fl x b ≡ true → fl.lt b a ≡ false
  not_crossed a b x p q = elim (Bool-cases (fl.lt b a)) [
    | inr e ↦ e
    | inl e ↦ ground (
      arith,
      fl.lt_irrefl a,
      fl.lt_irrefl b,
      fl.lt_irrefl x,
      fl.lt_trans a x b,
      fl.lt_trans a b a,
      fl.lt_trans x b a,
      fl.lt_trans x a x,
      fl.lt_eq a x b,
      fl.eq_lt a x b,
      fl.eq_trans a x b,
      fl.eq_lt a b a,
      fl.eq_lt x b a,
    )
  ]

  strict_left : (a b x : fl.F64) → fl.lt a x ≡ true → le fl x b ≡ true → fl.eq a b ≡ false
  strict_left a b x p q = elim (Bool-cases (fl.eq a b)) [
    | inr e ↦ e
    | inl e ↦
        ground
          (arith, fl.lt_irrefl b, fl.lt_trans a x b, fl.lt_eq a x b, fl.eq_symm a b, fl.eq_lt b a b)
  ]

  strict_right : (a b x : fl.F64) → le fl a x ≡ true → fl.lt x b ≡ true → fl.eq a b ≡ false
  strict_right a b x p q = elim (Bool-cases (fl.eq a b)) [
    | inr e ↦ e
    | inl e ↦
        ground
          (arith, fl.lt_irrefl b, fl.lt_trans a x b, fl.eq_lt a x b, fl.eq_symm a b, fl.eq_lt b a b)
  ]

  within-contradictory :
      (b : ColumnBounds fl.F64) (x : fl.F64)
      → within b x ≡ true
      → optimizer_bounds_are_contradictory fl b ≡ false
  unfolding within optimizer_bounds_are_contradictory
  within-contradictory b x h = ground (
    arith,
    not_crossed b.lower b.upper x,
    strict_left b.lower b.upper x,
    strict_right b.lower b.upper x,
    not_crossed b.lower b.equal x,
    strict_left b.lower b.equal x,
    strict_right b.lower b.equal x,
    fl.eq_symm b.equal b.lower,
    not_crossed b.equal b.upper x,
    strict_left b.equal b.upper x,
    strict_right b.equal b.upper x,
    fl.eq_symm x b.equal,
  )

  kept : Option (ColumnBounds fl.F64) → fl.F64 → Bool
  kept none x = false
  kept (some b) x = within b x

  kept-Symbol :
      (b : ColumnBounds fl.F64) (op : Text) (x value : fl.F64)
      → Symbol op
      → within b x ≡ true
      → optimizer_compare_numbers fl op x value ≢ some false
      → kept (tighten fl b op value) x ≡ true
  unfolding kept within tighten optimizer_compare_numbers str8_match compute_ql.Text.match_loop
      compute_ql.Text.adjust_char
  kept-Symbol b _ x value equal h holds =
      ground (arith, fl.eq_symm x b.equal, fl.eq_trans b.equal x value)
  kept-Symbol b _ x value equal_equal h holds =
      ground (arith, fl.eq_symm x b.equal, fl.eq_trans b.equal x value)
  kept-Symbol b _ x value differs h holds = h
  kept-Symbol b _ x value below h holds = ground arith
  kept-Symbol b _ x value at_most h holds = ground arith
  kept-Symbol b _ x value above h holds = ground arith
  kept-Symbol b _ x value at_least h holds = ground arith

  tighten-other :
      (b : ColumnBounds fl.F64) (op : Text) (value : fl.F64)
      → IsOther op
      → tighten fl b op value ≡ some b
  unfolding tighten
  tighten-other b op value o =
      rw (o.not_equal, o.not_equal_equal, o.not_below, o.not_at_most, o.not_above, o.not_at_least)
        refl

  tighten-kept :
      (b : ColumnBounds fl.F64) (op : Text) (x value : fl.F64)
      → within b x ≡ true
      → optimizer_compare_numbers fl op x value ≢ some false
      → kept (tighten fl b op value) x ≡ true
  unfolding kept
  tighten-kept b op x value h holds = elim (Symbol-cases op) [
    | inl s ↦ kept-Symbol b op x value s h holds
    | inr o ↦ rw (tighten-other b op value o) h
  ]

  -- An entry whose bounds the two values satisfy.
  unfoldable pub fits : ColumnBounds fl.F64 → fl.F64 → Text → Bool
  fits b x s = within b x && spells b s

  tighten-spells :
      (b : ColumnBounds fl.F64) (op : Text) (s : Text) (value : fl.F64)
      → spells b s ≡ true
      → spells (checked fl b (tighten fl b op value)).0 s ≡ true
  unfolding spells tighten
  tighten-spells b op s value h = ground arith

  checked-kept :
      (b : ColumnBounds fl.F64) (o : Option (ColumnBounds fl.F64)) (x : fl.F64)
      → kept o x ≡ true
      → (within (checked fl b o).0 x ≡ true) × ((checked fl b o).1 ≡ false)
  unfolding kept
  checked-kept b none x h = cc
  checked-kept b (some b') x h = (h, within-contradictory b' x h)

  apply_string-fits :
      (b : ColumnBounds fl.F64) (op : Text) (literal : Node) (x : fl.F64) (s : Text)
      → fits b x s ≡ true
      → (has_type literal NodeType.literal ≡ true
          → compare_strings fl op s (value_of literal) ≢ some false)
      → (fits (apply_string fl b op literal).0 x s ≡ true)
        × ((apply_string fl b op literal).1 ≡ false)
  unfolding fits within spells apply_string compare_strings
  apply_string-fits b op literal x s h holds = ground (
    arith,
    str8_match_exact_iff s b.equal_string,
    str8_match_exact_iff s (value_of literal),
    str8_match_exact_iff b.equal_string (value_of literal),
  )

  number_fits :
      (b : ColumnBounds fl.F64) (op : Text) (literal : Node) (x : fl.F64) (s : Text)
      → fits b x s ≡ true
      → (has_type literal NodeType.numeric ≡ true
          → optimizer_compare_numbers fl op x (f64_from_str8 fl (value_of literal)) ≢ some false)
      → let after : ColumnBounds fl.F64 × Bool =
          elim (optimizer_number_from_literal fl (some literal)) [
            | none ↦ (b, false)
            | some value ↦ checked fl b (tighten fl b op value)
          ] in
        (fits after.0 x s ≡ true) × (after.1 ≡ false)
  unfolding fits optimizer_number_from_literal
  number_fits b op literal x s h numbers = elim (Bool-cases (has_type literal NodeType.numeric)) [
    | inr e ↦ rw e (h, refl)
    | inl e ↦
        let value : fl.F64 = f64_from_str8 fl (value_of literal) in
        let (inside, quiet) =
          checked-kept b (tighten fl b op value) x
            (tighten-kept b op x value (and_left (within b x) (spells b s) h) (numbers e)) in
        rw e (
          rw (inside, tighten-spells b op s value (and_right (within b x) (spells b s) h)) refl,
          quiet,
        )
  ]

  pub apply-key :
      (b : ColumnBounds fl.F64) (op : Text) (literal : Node) (type : ColumnType)
      → ((optimizer_bounds_apply fl b op literal type).0.relation ≡ b.relation)
        × ((optimizer_bounds_apply fl b op literal type).0.column ≡ b.column)
  unfolding optimizer_bounds_apply tighten apply_string
  apply-key b op literal type = ground arith

  -- Values that satisfy the bounds and the comparison satisfy the new bounds, and no contradiction
  -- is reported.
  pub apply-fits :
      (b : ColumnBounds fl.F64) (op : Text) (literal : Node) (type : ColumnType) (x : fl.F64)
      (s : Text)
      → fits b x s ≡ true
      → (is_string8 type ≡ false
          → has_type literal NodeType.numeric ≡ true
          → optimizer_compare_numbers fl op x (f64_from_str8 fl (value_of literal)) ≢ some false)
      → (is_string8 type ≡ true
          → has_type literal NodeType.literal ≡ true
          → compare_strings fl op s (value_of literal) ≢ some false)
      → (fits (optimizer_bounds_apply fl b op literal type).0 x s ≡ true)
        × ((optimizer_bounds_apply fl b op literal type).1 ≡ false)
  unfolding optimizer_bounds_apply
  apply-fits b op literal type x s h numbers texts = elim (Bool-cases (is_string8 type)) [
    | inl e ↦ rw e (apply_string-fits b op literal x s h (texts e))
    | inr e ↦ rw e (number_fits b op literal x s h (numbers e))
  ]
