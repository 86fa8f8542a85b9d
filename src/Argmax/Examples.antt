-- ===== src/Argmax/Examples.antt =====
-- Runs of the search for the largest logit.
use qw_fnfer_xpu.Base.{ℕ, ◌≡◌, refl, List, [], ◌∷◌}
use qw_fnfer_xpu.Double.{milli, milli-IsOrdered}
use qw_fnfer_xpu.Argmax.{larger, take_in, most, finish, run, first_same, argmax, best_from}
use qw_fnfer_xpu.Argmax.Agrees.{argmax-best_from}

abbrev logits : List ℕ
logits = 2 ∷ 9 ∷ 1 ∷ 4 ∷ 4 ∷ 4 ∷ 4 ∷ 4 ∷ 9 ∷ 3 ∷ 9 ∷ []

second : argmax milli 3 logits ≡ 2
unfolding larger take_in most finish run first_same argmax
second = refl

argmax-best_from_example : argmax milli 3 logits ≡ best_from milli 0 3 1 logits
argmax-best_from_example = argmax-best_from milli milli-IsOrdered 3 logits
