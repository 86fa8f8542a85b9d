-- ===== src/Lookup/Examples.antt =====
-- Runs of the n-gram drafter and of its policy: a history that repeats a phrase, and a policy with a
-- lookup window of three tokens beside a head window of two, over thousandths.

use qw_fnfer_xpu.Base.{ℕ, ◌+◌, ◌*◌, ◌≡◌, refl, true, false, List, [], ◌∷◌, ◌++◌, length, arith}
use qw_fnfer_xpu.Double.{milli}
use qw_fnfer_xpu.Lookup.Drafter.{
  Drafter, mix, grow, reset, init, key_at, probe, find_slot, push_pos, index_end, append_one,
  append, match_from, better, longest, continuation, propose_from, propose,
}
use qw_fnfer_xpu.Lookup.Policy.{
  Params, Policy, Step, same_size, bucket, lookup_q, shape, prior_q, prior_sums, cost_ms, rate_head,
  powers, expected_lookup, rate_lookup, pays, choose, turn, screen, take_sample, learn, observe,
}
use qw_fnfer_xpu.Lookup.Policy.{init as first_policy}
use qw_fnfer_xpu.Lookup.Policy.Hysteresis.{
  chosen, observed, restarted, run, IsSteady, run-IsSteady, choices, choices_leave,
}
use qw_fnfer_xpu.Lookup.Policy.Samples.{SameCosts, observes, observes_new_size}
use qw_fnfer_xpu.Lookup.Drafter.Matches.{Proposes, propose-Proposes}
use qw_fnfer_xpu.Lookup.Drafter.Index.{IsIndexed, append-IsIndexed}
use qw_fnfer_xpu.Lookup.Drafter.Recent.{Grown, Recent, reset-Grown, append_one-Recent}

program : Unit {0}
unfolding mix grow reset init key_at probe find_slot push_pos index_end append_one append match_from
    better longest continuation propose_from propose
program = tt

abbrev phrase : List ℕ
phrase = 5 ∷ 6 ∷ 7 ∷ 8 ∷ 5 ∷ 6 ∷ 7 ∷ []

abbrev fresh : Drafter
fresh = init 3 8

abbrev told : Drafter
told = append fresh phrase

proposes : (propose told 2).1 ≡ 8 ∷ 5 ∷ []
unfolding program
proposes = refl

propose-Proposes_example : Proposes told 2 (propose told 2)
unfolding program
propose-Proposes_example = propose-Proposes told 2 (omega arith)

fresh-IsIndexed : IsIndexed fresh
unfolding program
fresh-IsIndexed i = record { ends = tt; bounded = omega arith; full = refl; unused = λ e. refl }

append-IsIndexed_example : IsIndexed (append fresh phrase)
append-IsIndexed_example = append-IsIndexed fresh phrase fresh-IsIndexed

reset-Grown_example : Grown 1 (4096 * 2) ((reset fresh 4096).mask + 1)
reset-Grown_example = reset-Grown fresh 4096 (omega arith) (omega arith)

append_one-Recent_example :
    Recent (record told { hist = told.hist ++ 8 ∷ [] }) (append_one told 8) (length told.hist)
unfolding program
append_one-Recent_example = append_one-Recent told 8 (omega arith) (omega arith)

abbrev params : Params milli
params = record {
  k_max = 2;
  enter_match = 8;
  patience = 2;
  margin = 100;
  force = false;
  head_t = 2;
}

abbrev calm : Policy milli
calm = first_policy milli params

choosing : Unit {0}
unfolding first_policy same_size bucket lookup_q shape prior_q prior_sums cost_ms rate_head powers
    expected_lookup rate_lookup pays choose turn screen take_sample learn observe choices observes
    run
choosing = tt

calm-IsSteady : IsSteady milli calm
unfolding choosing
calm-IsSteady = record {
  sizes = refl;
  patient = omega arith;
  outside = λ e. refl;
  paired = omega arith;
}

abbrev slow_step : Step milli
slow_step = record {
  lookup = false;
  t = 2;
  drafted = 1;
  accepted = 0;
  matched = 9;
  step_ms = 30000;
  rebuilt = true;
}

run-IsSteady_example :
    IsSteady milli (run milli calm (chosen 2 9 ∷ observed slow_step ∷ restarted ∷ []))
run-IsSteady_example =
    run-IsSteady milli calm (chosen 2 9 ∷ observed slow_step ∷ restarted ∷ []) calm-IsSteady

abbrev inside : Policy milli
inside = record calm { lookup = true }

choices_leave_example :
    (choices milli inside ((0, 9) ∷ []) ≡ record inside { bad_steps = inside.bad_steps + 1 })
    × (choices milli inside ((0, 9) ∷ (0, 3) ∷ [])
        ≡ record inside { lookup = false; bad_steps = 0; exits = inside.exits + 1 })
unfolding choosing
choices_leave_example =
    choices_leave milli inside ((0, 9) ∷ []) 0 3 refl refl (refl, (refl, tt)) (omega arith)

observes_new_size_example : SameCosts milli calm (observes milli calm (slow_step ∷ slow_step ∷ []))
unfolding choosing
observes_new_size_example =
    observes_new_size milli calm 2 (slow_step ∷ slow_step ∷ []) (refl, (refl, tt))
      (λ e. absurd (omega arith)) (omega arith)
