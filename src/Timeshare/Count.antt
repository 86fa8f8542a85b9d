-- ===== src/Timeshare/Count.antt =====
-- How often a ticket stands in a list.
use qw_fnfer_xpu.Base.{ℕ, ◌+◌, ◌<◌, ◌≡◌, List, [], ◌∷◌, ◌++◌, ◌==◌, if◌then◌else◌, length, arith}
use qw_fnfer_xpu.Timeshare.{remove}

abbrev pub count : ℕ → List ℕ → ℕ
count x [] = 0
count x (y ∷ ys) = (if y == x then 1 else 0) + count x ys

pub count-append : (x : ℕ) (xs ys : List ℕ) → count x (xs ++ ys) ≡ count x xs + count x ys
count-append x [] ys = omega arith
count-append x (y ∷ xs) ys = omega (arith, count-append x xs ys)

pub count-remove :
    (x y : ℕ) (xs : List ℕ)
    → 0 < count y xs
    → count x (remove y xs) + (if y == x then 1 else 0) ≡ count x xs
unfolding remove
count-remove x y [] h = absurd (omega arith)
count-remove x y (z ∷ xs) h = ground (arith, count-remove x y xs)

pub length-remove : (y : ℕ) (xs : List ℕ) → 0 < count y xs → length (remove y xs) + 1 ≡ length xs
unfolding remove
length-remove y [] h = absurd (omega arith)
length-remove y (z ∷ xs) h = ground (arith, length-remove y xs)
