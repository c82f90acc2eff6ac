-- ===== src/Order/Native/Keys.antt =====
-- src/query_exec/query_exec.c: the comparison over columns that are read in place.
use Prim.Native.Nat.{Ordering}
use mathlib.Core.Path.{fun_ext}
use compute_ql.Shared.{ℕ, ◌<◌, ◌≡◌, refl, Bool, true, false, List, [], ◌∷◌, All, arith}
use compute_ql.Float.{Float}
use compute_ql.Order.{qe_order_before}
use compute_ql.Order.Laws.{IsWeakOrder}
use compute_ql.Order.Keys.{compare_numbers}
use compute_ql.Order.Keys.Laws.{IsComparison, AreOrdered, values-IsComparison}
use compute_ql.Order.Native.{
  TopKKey, qe_top_k_key_value, native_key_compare, qe_top_k_native_compare, qe_top_k_native_before,
  native_displaces,
}

module _ (fl : Float) where
  -- A row in front of another by the keys alone: `cmp < 0`.
  unfoldable pub native_less : List (TopKKey fl) → ℕ → ℕ → Bool
  native_less ks a b = elim (qe_top_k_native_compare fl ks a b) [
    | Ordering.lt ↦ true
    | Ordering.eq ↦ false
    | Ordering.gt ↦ false
  ]

  -- No value of a key is a NaN.
  abbrev pub KeysAreOrdered : List (TopKKey fl) → Type 0
  KeysAreOrdered ks = All (λ k. AreOrdered fl (qe_top_k_key_value fl k)) ks

  key-IsComparison :
      (k : TopKKey fl)
      → AreOrdered fl (qe_top_k_key_value fl k)
      → IsComparison (native_key_compare fl k)
  unfolding native_key_compare
  key-IsComparison k h =
      let v : IsComparison (λ (a b : ℕ).
        compare_numbers fl (qe_top_k_key_value fl k a) (qe_top_k_key_value fl k b)) =
        values-IsComparison fl (qe_top_k_key_value fl k) h in
      record {
        turned = λ a b. ground (arith, v.turned a b);
        chained = λ a b c p q.
            ground
              (arith, v.turned a b, v.turned b c, v.turned a c, v.chained a b c, v.chained c b a);
      }

  compare-IsComparison :
      (ks : List (TopKKey fl)) → KeysAreOrdered ks → IsComparison (qe_top_k_native_compare fl ks)
  unfolding qe_top_k_native_compare
  compare-IsComparison [] h = record { turned = λ a b. refl; chained = λ a b c p q. refl }
  compare-IsComparison (k ∷ ks) h =
      let first : IsComparison (native_key_compare fl k) = key-IsComparison k h.0 in
      let rest : IsComparison (qe_top_k_native_compare fl ks) = compare-IsComparison ks h.1 in
      record {
        turned = λ a b. ground (arith, first.turned a b, rest.turned a b);
        chained = λ a b c p q. ground (
          arith,
          first.turned a b,
          first.turned b c,
          first.turned a c,
          first.chained a b c,
          first.chained b c a,
          first.chained c a b,
          rest.chained a b c,
        );
      }

  pub native_less-IsWeakOrder :
      (ks : List (TopKKey fl)) → KeysAreOrdered ks → IsWeakOrder (native_less ks)
  unfolding native_less
  native_less-IsWeakOrder ks h =
      let whole : IsComparison (qe_top_k_native_compare fl ks) = compare-IsComparison ks h in
      record {
        asym = λ a b p. ground (arith, whole.turned a b);
        apart = λ a b c p q.
            ground
              (arith, whole.turned a b, whole.turned b c, whole.turned a c, whole.chained c b a);
      }

  pub native_before_lem :
      (ks : List (TopKKey fl))
      → KeysAreOrdered ks
      → qe_top_k_native_before fl ks ≡ qe_order_before (native_less ks)
  unfolding qe_top_k_native_before qe_order_before native_less
  native_before_lem ks h =
      let whole : IsComparison (qe_top_k_native_compare fl ks) = compare-IsComparison ks h in
      fun_ext λ a. fun_ext λ b. ground (arith, whole.turned a b)

  -- A position displaces an earlier root where it is in front of it by the keys.
  pub native_displaces_lem :
      (ks : List (TopKKey fl)) (position root : ℕ)
      → root < position
      → native_displaces fl ks position root ≡ native_less ks position root
  unfolding native_displaces native_less qe_top_k_native_before qe_top_k_native_compare
  native_displaces_lem [] position root h = refl
  native_displaces_lem (k ∷ []) position root h = ground arith
  native_displaces_lem (k ∷ l ∷ ks) position root h = ground arith
