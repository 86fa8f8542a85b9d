-- ===== src/Timeshare/Fresh.antt =====
-- The scheduler before the first request.
use qw_fnfer_xpu.Base.{ℕ, refl, none, [], false, arith}
use qw_fnfer_xpu.Double.{Double}
use qw_fnfer_xpu.Timeshare.{Sched}
use qw_fnfer_xpu.Timeshare.System.{Inv}

module _ (c : Double) (secs : ℕ → c.F) (exp2 : c.F → c.F) where
  abbrev S : Type 0
  S = Sched c secs exp2

  abbrev pub fresh : ℕ → c.F → ℕ → c.F → S
  fresh max_open quantum linger half_life = record {
    max_open = max_open;
    quantum = quantum;
    linger = linger;
    half_life = half_life;
    tickets = λ _. record {
      session = 0;
      arrived = 0;
      parked = false;
      abandoned = false;
      used = c.num 0;
      n_parks = 0;
    };
    waiting = [];
    running = none;
    n_open = 0;
    next_id = 1;
    slice_start = 0;
    charged_at = 0;
    linger_until = 0;
    linger_slice = 0;
    linger_session = 0;
    usage = [];
    n_admitted = 0;
    n_rejected = 0;
    n_parks = 0;
    n_park_refused = 0;
    n_lingered = 0;
    n_abandoned = 0;
  }

  pub fresh-Inv :
      (max_open : ℕ) (quantum : c.F) (linger : ℕ) (half_life : c.F)
      → Inv c secs exp2 (record { q = fresh max_open quantum linger half_life; entering = [] })
  fresh-Inv max_open quantum linger half_life = record {
    counted = refl;
    capped = omega arith;
    once = λ i. omega arith;
    known = λ i p. absurd (omega arith);
    present = λ i p. refl;
    settled = λ p. refl;
  }
