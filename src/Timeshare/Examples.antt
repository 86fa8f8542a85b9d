-- ===== src/Timeshare/Examples.antt =====
-- Runs of the scheduler over thousandths of a second that never decay: two requests of sessions 7
-- and 8, at most two open, a quantum of 30 ticks.
use qw_fnfer_xpu.Base.{ℕ, ◌*◌, ◌≡◌, refl, true, false, none, some, [], ◌∷◌, arith}
use qw_fnfer_xpu.Double.{milli, milli-IsOrdered}
use qw_fnfer_xpu.Timeshare.{
  Sched, admit, enqueue, poll, take_turn, should_yield, park, pick, remove, charge, decayed,
  decayed_in, put_usage, forget, precedes, preceded, least_used, earliest,
}
use qw_fnfer_xpu.Timeshare.Pick.{Picks, pick-Picks}
use qw_fnfer_xpu.Timeshare.Charge.{IsStill}
use qw_fnfer_xpu.Timeshare.Yield.{Yields, should_yield-Yields}
use qw_fnfer_xpu.Timeshare.System.{World, here, next, admits, queues, polls, Inv, Reach-Inv}
use qw_fnfer_xpu.Timeshare.Fresh.{fresh, fresh-Inv}

abbrev secs : ℕ → ℕ
secs n = n * 1000

abbrev level : ℕ → ℕ
level _ = 1000

program : Unit {0}
unfolding admit enqueue poll take_turn should_yield park pick remove charge decayed decayed_in
    put_usage forget precedes preceded least_used earliest
program = tt

abbrev idle : Sched milli secs level
idle = fresh milli secs level 2 30000 1 300000

-- Both requests are admitted; the first runs, the second waits.
abbrev contended : Sched milli secs level
contended =
    enqueue milli secs level
      (take_turn milli secs level
        (enqueue milli secs level (admit milli secs level (admit milli secs level idle 7 1).0 8 2).0
          1)
        1 2)
      2

abbrev start : World milli secs level
start = record { q = idle; entering = [] }

third_refused : (admit milli secs level contended 9 3).1 ≡ none
unfolding program
third_refused = refl

yields : (should_yield milli secs level contended 1 40).1 ≡ true
unfolding program
yields = refl

keeps : (should_yield milli secs level contended 1 20).1 ≡ false
unfolding program
keeps = refl

pick-Picks_example : Picks milli secs level contended 40 (pick milli secs level contended 40)
pick-Picks_example = pick-Picks milli secs level milli-IsOrdered contended 40

level-IsStill : IsStill milli secs level contended.half_life
level-IsStill = record {
  secs_zero = refl;
  plus_zero = λ u. omega arith;
  no_decay = λ u. omega arith;
}

should_yield-Yields_example :
    Yields milli secs level contended 1 40 (should_yield milli secs level contended 1 40)
unfolding program
should_yield-Yields_example =
    should_yield-Yields milli secs level milli-IsOrdered contended 1 40 level-IsStill (omega arith)
      refl refl

abbrev first_open : World milli secs level
first_open = record { q = (admit milli secs level idle 7 1).0; entering = 1 ∷ [] }

-- The first request waits, and then it has the engine.
abbrev first_waits : World milli secs level
first_waits = record {
  q = enqueue milli secs level first_open.q 1;
  entering = remove 1 first_open.entering;
}

abbrev first_runs : World milli secs level
first_runs = record first_waits { q = poll milli secs level first_waits.q 1 2 3 false }

Reach-Inv_example : Inv milli secs level first_runs
unfolding program
Reach-Inv_example =
    Reach-Inv milli secs level
      (next (next (next here (admits 7 1 1 refl)) (queues 1 (omega arith)))
        (polls 1 2 3 false (omega arith)))
      (fresh-Inv milli secs level 2 30000 1 300000)

first_runs_now : first_runs.q.running ≡ some 1
unfolding program
first_runs_now = refl
