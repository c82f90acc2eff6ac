-- ===== src/Order/Keys/Laws.antt =====
-- src/query_exec/query_exec.c: the keys of ORDER BY order the rows.
use Prim.Native.Nat.{compare, Ordering}
use compute_ql.Shared.{ℕ, suc, ◌≡◌, refl, min, Bool, true, false, List, [], ◌∷◌, length, arith, All}
use compute_ql.Text.{Text}
use compute_ql.Float.{Float}
use compute_ql.Order.Laws.{IsWeakOrder}
use compute_ql.Order.Keys.{
  opposite, memory_compare, qe_str8_compare, KeyColumn, SortKey, strings, numbers, compare_numbers,
  number_at, chunk_string, key_compare, qe_sort_rows_compare_ctx, qe_sort_rows_less,
}

abbrev pub at_most : Ordering → Bool
at_most Ordering.lt = true
at_most Ordering.eq = true
at_most Ordering.gt = false

pub record IsComparison {A : Type 0} (cmp : A → A → Ordering) : Type 0 where
  pub turned : (a b : A) → cmp b a ≡ opposite (cmp a b)
  pub chained :
      (a b c : A) → at_most (cmp a b) ≡ true → at_most (cmp b c) ≡ true → at_most (cmp a c) ≡ true

-- The order of texts byte by byte, the shorter one first.
lexicographic : Text → Text → Ordering
lexicographic [] [] = Ordering.eq
lexicographic [] (y ∷ b) = Ordering.lt
lexicographic (x ∷ a) [] = Ordering.gt
lexicographic (x ∷ a) (y ∷ b) = elim (compare x y) [
  | Ordering.eq ↦ lexicographic a b
  | Ordering.lt ↦ Ordering.lt
  | Ordering.gt ↦ Ordering.gt
]

str8_compare_lem : (a b : Text) → qe_str8_compare a b ≡ lexicographic a b
unfolding qe_str8_compare memory_compare lexicographic
str8_compare_lem [] [] = ground arith
str8_compare_lem [] (y ∷ b) = ground arith
str8_compare_lem (x ∷ a) [] = ground arith
str8_compare_lem (x ∷ a) (y ∷ b) =
    let e : min (suc (length a)) (suc (length b)) ≡ suc (min (length a) (length b)) = omega arith in
    rw (e, qe_str8_compare) (ground (arith, str8_compare_lem a b))

lexicographic_turned : (a b : Text) → lexicographic b a ≡ opposite (lexicographic a b)
unfolding lexicographic
lexicographic_turned [] [] = refl
lexicographic_turned [] (y ∷ b) = refl
lexicographic_turned (x ∷ a) [] = refl
lexicographic_turned (x ∷ a) (y ∷ b) = ground (arith, lexicographic_turned a b)

lexicographic_chained :
    (a b c : Text)
    → at_most (lexicographic a b) ≡ true
    → at_most (lexicographic b c) ≡ true
    → at_most (lexicographic a c) ≡ true
unfolding lexicographic
lexicographic_chained [] b [] h k = refl
lexicographic_chained [] b (z ∷ c) h k = refl
lexicographic_chained (x ∷ a) [] c h k = cc
lexicographic_chained (x ∷ a) (y ∷ b) [] h k = cc
lexicographic_chained (x ∷ a) (y ∷ b) (z ∷ c) h k = ground (arith, lexicographic_chained a b c)

module _ (fl : Float) where
  -- No value is a NaN, with which `<` would not order the values.
  abbrev pub AreOrdered : (ℕ → fl.F64) → Type 0
  AreOrdered v =
      (a b c : ℕ)
      → fl.lt (v a) (v b) ≡ false
      → fl.lt (v b) (v c) ≡ false
      → fl.lt (v a) (v c) ≡ false

  pub values-IsComparison :
      (v : ℕ → fl.F64) → AreOrdered v → IsComparison (λ (a b : ℕ). compare_numbers fl (v a) (v b))
  unfolding compare_numbers
  values-IsComparison v h = record {
    turned = λ a b. ground (arith, fl.lt_irrefl (v a), fl.lt_trans (v a) (v b) (v a));
    chained = λ a b c p q. ground (
      arith,
      h c b a,
      h a b c,
      h b a c,
      h a c b,
      h c a b,
      h b c a,
      fl.lt_irrefl (v a),
      fl.lt_irrefl (v b),
      fl.lt_trans (v a) (v b) (v c),
      fl.lt_trans (v a) (v b) (v a),
      fl.lt_trans (v b) (v c) (v b),
      fl.lt_trans (v c) (v a) (v c),
    );
  }

  -- No number of the column is a NaN.
  abbrev pub IsOrdered : KeyColumn fl → Type 0
  IsOrdered (strings chunk) = Unit {0}
  IsOrdered (numbers values) = AreOrdered (number_at fl values)

  key_compare-IsComparison : (k : KeyColumn fl) → IsOrdered k → IsComparison (key_compare fl k)
  unfolding key_compare
  key_compare-IsComparison (strings chunk) h = record {
    turned = λ a b.
        rw
          (
            str8_compare_lem (chunk_string chunk a) (chunk_string chunk b),
            str8_compare_lem (chunk_string chunk b) (chunk_string chunk a),
          )
          (lexicographic_turned (chunk_string chunk a) (chunk_string chunk b));
    chained = λ a b c.
        rw
          (
            str8_compare_lem (chunk_string chunk a) (chunk_string chunk b),
            str8_compare_lem (chunk_string chunk b) (chunk_string chunk c),
            str8_compare_lem (chunk_string chunk a) (chunk_string chunk c),
          )
          (lexicographic_chained (chunk_string chunk a) (chunk_string chunk b)
            (chunk_string chunk c));
  }
  key_compare-IsComparison (numbers values) h = values-IsComparison (number_at fl values) h

  compare_ctx-IsComparison :
      (ks : List (SortKey fl))
      → All (λ k. IsOrdered k.column) ks
      → IsComparison (qe_sort_rows_compare_ctx fl ks)
  unfolding qe_sort_rows_compare_ctx
  compare_ctx-IsComparison [] h = record { turned = λ a b. refl; chained = λ a b c p q. refl }
  compare_ctx-IsComparison (k ∷ ks) h =
      let first : IsComparison (key_compare fl k.column) = key_compare-IsComparison k.column h.0 in
      let rest : IsComparison (qe_sort_rows_compare_ctx fl ks) = compare_ctx-IsComparison ks h.1 in
      record {
        turned = λ a b. ground (arith, first.turned a b, rest.turned a b);
        chained = λ a b c p q. ground (
          arith,
          first.turned a b,
          first.turned b c,
          first.turned a c,
          first.chained a b c,
          first.chained b c a,
          first.chained c a b,
          first.chained c b a,
          first.chained b a c,
          first.chained a c b,
          rest.chained a b c,
        );
      }

  -- ORDER BY orders the rows: of two rows at most one is in front, and rows that are not in front of
  -- one another are so along a chain, for every list of keys whose numbers are no NaN.
  pub sort_rows_less-IsWeakOrder :
      (ks : List (SortKey fl))
      → All (λ k. IsOrdered k.column) ks
      → IsWeakOrder (qe_sort_rows_less fl ks)
  unfolding qe_sort_rows_less
  sort_rows_less-IsWeakOrder ks h =
      let whole : IsComparison (qe_sort_rows_compare_ctx fl ks) = compare_ctx-IsComparison ks h in
      record {
        asym = λ a b p. ground (arith, whole.turned a b);
        apart = λ a b c p q.
            ground
              (arith, whole.turned a b, whole.turned b c, whole.turned a c, whole.chained c b a);
      }
