-- ===== src/Base/Slices.antt =====
-- Lists put together and cut off.
use Prim.Native.Nat.{ℕ, zero, suc, ◌+◌, ◌≤◌}
use mathlib.Core.Path.{◌≡◌, refl, ap, ◌∙◌}
use mathlib.Core.List.{List, [], ◌∷◌, ◌++◌}
use native.Mathlib.Omega.{arith}
use qw_fnfer_xpu.Base.Lists.{length, take}

module _ {ℓ} {A : Type ℓ} where
  pub ++_nil : (xs : List A) → xs ++ [] ≡ xs
  ++_nil [] = refl
  ++_nil (x ∷ xs) = ap (λ l. x ∷ l) (++_nil xs)

  pub ++_assoc : (xs ys zs : List A) → (xs ++ ys) ++ zs ≡ xs ++ (ys ++ zs)
  ++_assoc [] ys zs = refl
  ++_assoc (x ∷ xs) ys zs = ap (λ l. x ∷ l) (++_assoc xs ys zs)

  pub ++_snoc : (xs : List A) (d : A) (ys : List A) → (xs ++ d ∷ []) ++ ys ≡ xs ++ d ∷ ys
  ++_snoc [] d ys = refl
  ++_snoc (x ∷ xs) d ys = ap (λ l. x ∷ l) (++_snoc xs d ys)

  pub take_nil : (n : ℕ) → take {A = A} n [] ≡ []
  take_nil zero = refl
  take_nil (suc n) = refl

  pub take_all : (n : ℕ) (xs : List A) → length xs ≤ n → take n xs ≡ xs
  take_all zero [] h = refl
  take_all (suc n) [] h = refl
  take_all zero (x ∷ xs) h = absurd (omega arith)
  take_all (suc n) (x ∷ xs) h = ap (λ l. x ∷ l) (take_all n xs (omega arith))

  pub take_past : (xs ys : List A) (j : ℕ) → take (length xs + j) (xs ++ ys) ≡ xs ++ take j ys
  take_past [] ys j = let e : 0 + j ≡ j = omega arith in ap (λ i. take i ys) e
  take_past (x ∷ xs) ys j =
      let e : suc (length xs) + j ≡ suc (length xs + j) = omega arith in
      ap (λ i. take i (x ∷ xs ++ ys)) e ∙ ap (λ l. x ∷ l) (take_past xs ys j)

  pub take-append : (xs ys : List A) → take (length xs) (xs ++ ys) ≡ xs
  take-append [] ys = refl
  take-append (x ∷ xs) ys = ap (λ l. x ∷ l) (take-append xs ys)
