-- ===== src/Shared/Pieces.antt =====
-- Front and rest of a list, by native numbers.
-- No code of the repository is modelled here.
use Prim.Native.Nat.{ℕ, zero, suc, ◌+◌, ◌≤◌}
use mathlib.Core.Path.{◌≡◌, refl, sym, ap, ◌∙◌}
use mathlib.Core.List.{List, [], ◌∷◌, ◌++◌}
use native.Mathlib.Omega.{arith}
use compute_ql.Shared.Lists.{length, take, drop}

zero_plus : (n : ℕ) → 0 + n ≡ n
zero_plus n = omega arith

suc_plus : (m n : ℕ) → suc m + n ≡ suc (m + n)
suc_plus m n = omega arith

module _ {ℓ} {A : Type ℓ} where
  pub take_front : (xs ys : List A) → take (length xs) (xs ++ ys) ≡ xs
  take_front [] ys = refl
  take_front (x ∷ xs) ys = ap (λ zs. x ∷ zs) (take_front xs ys)

  pub drop_front : (xs ys : List A) → drop (length xs) (xs ++ ys) ≡ ys
  drop_front [] ys = refl
  drop_front (x ∷ xs) ys = drop_front xs ys

  pub take_whole : (n : ℕ) (xs ys : List A) → length xs ≡ n → take n (xs ++ ys) ≡ xs
  take_whole n xs ys h = ap (λ k. take k (xs ++ ys)) (sym h) ∙ take_front xs ys

  pub drop_whole : (n : ℕ) (xs ys : List A) → length xs ≡ n → drop n (xs ++ ys) ≡ ys
  drop_whole n xs ys h = ap (λ k. drop k (xs ++ ys)) (sym h) ∙ drop_front xs ys

  pub take_all : (n : ℕ) (xs : List A) → length xs ≤ n → take n xs ≡ xs
  take_all zero [] h = refl
  take_all zero (x ∷ xs) h = absurd (omega arith)
  take_all (suc n) [] h = refl
  take_all (suc n) (x ∷ xs) h = ap (λ ys. x ∷ ys) (take_all n xs (omega arith))

  pub drop_all : (n : ℕ) (xs : List A) → length xs ≤ n → drop n xs ≡ []
  drop_all zero [] h = refl
  drop_all zero (x ∷ xs) h = absurd (omega arith)
  drop_all (suc n) [] h = refl
  drop_all (suc n) (x ∷ xs) h = drop_all n xs (omega arith)

  drop_none : (n : ℕ) → let e : List A = [] in drop n e ≡ e
  drop_none n = drop_all n [] (omega arith)

  pub drop-drop : (m n : ℕ) (xs : List A) → drop (m + n) xs ≡ drop n (drop m xs)
  drop-drop zero n xs = rw (zero_plus n) refl
  drop-drop (suc m) n [] = rw (suc_plus m n, drop_none n) refl
  drop-drop (suc m) n (x ∷ xs) = rw (suc_plus m n) (drop-drop m n xs)

  pub take-take : (k j : ℕ) (xs : List A) → k ≤ j → take k (take j xs) ≡ take k xs
  take-take zero j xs h = refl
  take-take (suc k) zero xs h = absurd (omega arith)
  take-take (suc k) (suc j) [] h = refl
  take-take (suc k) (suc j) (x ∷ xs) h = ap (λ ys. x ∷ ys) (take-take k j xs (omega arith))
