-- ===== src/Order/Laws.antt =====
-- src/query_exec/query_exec.c: that `qe_order_before` is a total order, and what a sorted list is.
use compute_ql.Shared.{
  ℕ, zero, suc, ◌+◌, ◌<◌, ◌≡◌, refl, subst, Bool, true, false, List, [], ◌∷◌, ◌++◌, arith, ◌==◌,
  if◌then◌else◌, length, take, drop, set, All, Bool-cases, inl, inr,
}
use compute_ql.Order.{qe_order_before, at}

-- What a comparison has to be: rows that it does not tell apart are as good as equal for it.
pub record IsWeakOrder (less : ℕ → ℕ → Bool) : Type 0 where
  pub asym : (a b : ℕ) → less a b ≡ true → less b a ≡ false
  pub apart : (a b c : ℕ) → less a b ≡ false → less b c ≡ false → less a c ≡ false

-- How often a row stands in a list.
unfoldable pub count : ℕ → List ℕ → ℕ
count a [] = 0
count a (x ∷ xs) = (if a == x then 1 else 0) + count a xs

pub count-append : (a : ℕ) (xs ys : List ℕ) → count a (xs ++ ys) ≡ count a xs + count a ys
unfolding count
count-append a [] ys = omega arith
count-append a (x ∷ xs) ys = omega (arith, count-append a xs ys)

pub count-take : (a n : ℕ) (xs : List ℕ) → count a (take n xs) + count a (drop n xs) ≡ count a xs
unfolding count
count-take a zero xs = omega arith
count-take a (suc n) [] = omega arith
count-take a (suc n) (x ∷ xs) = omega (arith, count-take a n xs)

pub count-set :
    (a : ℕ) (xs : List ℕ) (i v : ℕ)
    → i < length xs
    → count a (set xs i v) + (if a == at xs i then 1 else 0)
      ≡ count a xs + (if a == v then 1 else 0)
unfolding count
count-set a [] i v h = elim h [ ]
count-set a (x ∷ xs) zero v h = omega arith
count-set a (x ∷ xs) (suc i) v h = omega (arith, count-set a xs i v (omega arith))

-- A predicate of the rows that a list counts.
pub All-count :
    (p : ℕ → Bool) (xs : List ℕ)
    → ((a : ℕ) → 0 < count a xs → p a ≡ true)
    → All (λ x. p x ≡ true) xs
unfolding count
All-count p [] h = tt
All-count p (x ∷ xs) h = (h x (ground arith), All-count p xs (λ a m. h a (omega arith)))

pub count-All :
    (p : ℕ → Bool) (xs : List ℕ) → All (λ x. p x ≡ true) xs → (a : ℕ) → 0 < count a xs → p a ≡ true
unfolding count
count-All p [] h a m = absurd (omega arith)
count-All p (x ∷ xs) h a m = elim (Bool-cases (a == x)) [
  | inl e ↦ ground (arith, h.0)
  | inr n ↦ count-All p xs h.1 a (ground arith)
]

same : (x a : ℕ) → (a == x) ≡ true → x ≡ a
same x a h = ground arith

counts_itself : (x : ℕ) (xs : List ℕ) → 0 < count x (x ∷ xs)
unfolding count
counts_itself x xs = ground arith

module _ (less : ℕ → ℕ → Bool) where
  -- `b` is not in front of `a`.
  abbrev pub ahead : ℕ → ℕ → Bool
  ahead a b = if qe_order_before less b a then false else true

  abbrev pub IsSorted : List ℕ → Type 0
  IsSorted [] = Unit {0}
  IsSorted (x ∷ xs) = All (λ y. ahead x y ≡ true) xs × IsSorted xs

  module _ (w : IsWeakOrder less) where
    pub ahead_refl : (a : ℕ) → ahead a a ≡ true
    unfolding qe_order_before
    ahead_refl a = ground (arith, w.asym a a)

    pub ahead_total : (a b : ℕ) → ahead a b ≡ false → ahead b a ≡ true
    unfolding qe_order_before
    ahead_total a b h = ground (arith, w.asym a b, w.asym b a)

    pub ahead_trans : (a b c : ℕ) → ahead a b ≡ true → ahead b c ≡ true → ahead a c ≡ true
    unfolding qe_order_before
    ahead_trans a b c h k = ground (
      arith,
      w.asym a b,
      w.asym b a,
      w.asym b c,
      w.asym c b,
      w.asym a c,
      w.asym c a,
      w.apart c b a,
      w.apart a b c,
      w.apart b a c,
      w.apart b c a,
      w.apart a c b,
      w.apart c a b,
    )

    pub ahead_antisym : (a b : ℕ) → ahead a b ≡ true → ahead b a ≡ true → a ≡ b
    unfolding qe_order_before
    ahead_antisym a b h k = ground (arith, w.asym a b, w.asym b a)

    -- A row of a sorted list is its first one or behind it.
    first_ahead :
        (x a : ℕ) (xs : List ℕ) → IsSorted (x ∷ xs) → 0 < count a (x ∷ xs) → ahead x a ≡ true
    unfolding count
    first_ahead x a xs s m = elim (Bool-cases (a == x)) [
      | inl e ↦ subst (λ b. ahead x b ≡ true) (same x a e) (ahead_refl x)
      | inr n ↦ count-All (ahead x) xs s.0 a (ground arith)
    ]

    -- Two sorted lists with the same rows are the same list.
    pub IsSorted-eq :
        (xs ys : List ℕ) → IsSorted xs → IsSorted ys → ((a : ℕ) → count a xs ≡ count a ys) → xs ≡ ys
    unfolding count
    IsSorted-eq [] [] s t h = refl
    IsSorted-eq [] (y ∷ ys) s t h = absurd (omega (arith, h y, counts_itself y ys))
    IsSorted-eq (x ∷ xs) [] s t h = absurd (omega (arith, h x, counts_itself x xs))
    IsSorted-eq (x ∷ xs) (y ∷ ys) s t h =
        let first : x ≡ y =
          ahead_antisym x y (first_ahead x y xs s (omega (arith, h y, counts_itself y ys)))
            (first_ahead y x ys t (omega (arith, h x, counts_itself x xs))) in
        let rest : xs ≡ ys = IsSorted-eq xs ys s.1 t.1 (λ a. ground (arith, h a, first)) in
        rw (first, rest) refl
