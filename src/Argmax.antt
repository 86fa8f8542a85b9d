-- ===== src/Argmax.antt =====
-- `qwfn_argmax` of src/qwfn_argmax.h: the first index of the largest logit, found by way of eight
-- lanes, and the plain loop that its comment gives as its meaning.
use qw_fnfer_xpu.Base.{
  ℕ, zero, suc, true, false, List, [], ◌∷◌, length, take, drop, leb, if◌then◌else◌,
}
use qw_fnfer_xpu.Double.{Double}
pub mod Agrees
pub mod Examples

module _ (c : Double) where
  unfoldable pub larger : c.F → c.F → c.F
  larger m x = if c.less m x then x else m

  -- The eight lanes take in eight values.
  unfoldable pub take_in : List c.F → List c.F → List c.F
  take_in [] xs = []
  take_in (m ∷ ms) [] = m ∷ ms
  take_in (m ∷ ms) (x ∷ xs) = larger m x ∷ take_in ms xs

  unfoldable pub most : c.F → List c.F → c.F
  most m [] = m
  most m (x ∷ xs) = most (larger m x) xs

  -- What is left goes to the first lane, and then the lanes are compared.
  unfoldable pub finish : c.F → List c.F → List c.F → c.F
  finish d [] xs = d
  finish d (m ∷ ms) xs = most (most m xs) ms

  -- The loop over the values, eight at a time, on fuel.
  unfoldable pub run : c.F → ℕ → List c.F → List c.F → c.F
  run d zero lanes xs = finish d lanes xs
  run d (suc fuel) lanes xs = elim (leb 8 (length xs)) [
    | true ↦ run d fuel (take_in lanes (take 8 xs)) (drop 8 xs)
    | false ↦ finish d lanes xs
  ]

  -- The first index from `i` on whose value equals the maximum, 0 where there is none.
  unfoldable pub first_same : c.F → List c.F → ℕ → ℕ
  first_same mx [] i = 0
  first_same mx (x ∷ xs) i = let rest = first_same mx xs (suc i) in if c.same x mx then i else rest

  -- On the first value and the others.
  unfoldable pub argmax : c.F → List c.F → ℕ
  argmax v vs =
      let lanes = v ∷ v ∷ v ∷ v ∷ v ∷ v ∷ v ∷ v ∷ [] in
      first_same (run v (suc (length vs)) lanes (v ∷ vs)) (v ∷ vs) 0

  -- `for (v) if (lg[v] > lg[best]) best = v`.
  unfoldable pub best_from : ℕ → c.F → ℕ → List c.F → ℕ
  best_from best b i [] = best
  best_from best b i (x ∷ xs) =
      best_from (if c.less b x then i else best) (if c.less b x then x else b) (suc i) xs
