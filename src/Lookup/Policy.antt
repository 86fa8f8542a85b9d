-- ===== src/Lookup/Policy.antt =====
-- `lookup_policy`: per step, the draft head's window or the lookup window. The doubles are the
-- interface `Double`; a decimal literal such as 1.45 is the quotient 145 / 100. `describe` is not
-- modelled.
pub mod Hysteresis
pub mod Samples
use qw_fnfer_xpu.Base.{
  ℕ, zero, suc, ◌+◌, ◌-◌, min, max, Bool, true, false, not, ◌&&◌, ◌||◌, ltb, leb, ◌==◌,
  if◌then◌else◌, update,
}
use qw_fnfer_xpu.Double.{Double}

abbrev pub max_t : ℕ
max_t = 4

abbrev pub warmup : ℕ
warmup = 6

abbrev pub regime : ℕ
regime = 4

abbrev pub clamp : ℕ → ℕ → ℕ → ℕ
clamp x lo hi = if ltb x lo then lo else if ltb hi x then hi else x

unfoldable pub bucket : ℕ → ℕ
bucket m = if ltb m 6 then 0 else if ltb m 12 then 1 else if ltb m 24 then 2 else 3

module _ (c : Double) where
  open c use {F, num, plus, minus, times, over, less, le}

  pub record Params : Type 0 where
    pub k_max : ℕ
    pub enter_match : ℕ
    pub patience : ℕ
    pub margin : F
    pub force : Bool
    pub head_t : ℕ

  pub record Policy : Type 0 where
    pub p : Params
    pub lookup : Bool
    pub bad_steps : ℕ
    pub cost : ℕ → F
    pub cost_n : ℕ → F
    pub head_tok : F
    pub head_n : F
    pub hits : ℕ → F
    pub misses : ℕ → F
    pub entries : ℕ
    pub exits : ℕ
    pub rebuilt : ℕ
    pub skipped : ℕ
    pub last_t : ℕ
    pub warm_left : ℕ
    pub outliers : ℕ → ℕ

  abbrev hundredths : ℕ → F
  hundredths n = over (num n) (num 100)

  unfoldable pub shape : ℕ → F
  shape t =
      if t == 1
      then num 1
      else if t == 2
      then hundredths 145
      else if t == 3
      then hundredths 177
      else if t == 4
      then hundredths 225
      else num 0

  unfoldable pub prior_q : ℕ → F
  prior_q b =
      if b == 0
      then hundredths 75
      else if b == 1
      then hundredths 88
      else if b == 2
      then hundredths 93
      else hundredths 96

  unfoldable pub init : Params → Policy
  init params = record {
    p = record params {
      k_max = clamp params.k_max 1 (max_t - 1);
      patience = max 1 params.patience;
      head_t = clamp params.head_t 2 max_t;
    };
    lookup = false;
    bad_steps = 0;
    cost = λ _. num 0;
    cost_n = λ _. num 0;
    head_tok = over (num 18) (num 10);
    head_n = num 0;
    hits = λ _. num 0;
    misses = λ _. num 0;
    entries = 0;
    exits = 0;
    rebuilt = 0;
    skipped = 0;
    last_t = 0;
    warm_left = 0;
    outliers = λ _. 0;
  }

  unfoldable pub new_sequence : Policy → Policy
  new_sequence s = record s { lookup = false; bad_steps = 0 }

  unfoldable pub same_size : Policy → Bool
  same_size s = s.p.head_t == 1 + s.p.k_max

  unfoldable pub lookup_q : Policy → ℕ → F
  lookup_q s m =
      let b = bucket m in
      over (plus (s.hits b) (times (num 4) (prior_q b)))
        (plus (plus (s.hits b) (s.misses b)) (num 4))

  -- The sums over the sizes measured, other than `t`: numerator and weight.
  unfoldable pub prior_sums : Policy → ℕ → ℕ → ℕ → F × F → F × F
  prior_sums s t zero u sums = sums
  prior_sums s t (suc rounds) u (top, den) =
      let w = if less (num 20) (s.cost_n u) then num 20 else s.cost_n u in
      prior_sums s t rounds (u + 1) (
        if not (u == t) && less (num 0) (s.cost_n u)
        then (plus top (over (times (times w (s.cost u)) (shape t)) (shape u)), plus den w)
        else (top, den))

  unfoldable pub cost_ms : Policy → ℕ → F
  cost_ms s size =
      let t = clamp size 1 max_t in
      let (top, den) = prior_sums s t max_t 1 (num 0, num 0) in
      let prior = if less (num 0) den then over top den else shape t in
      let trust = over (s.cost_n t) (num 8) in
      let w = if less trust (num 1) then trust else num 1 in
      if le (s.cost_n t) (num 0)
      then prior
      else if le den (num 0)
      then s.cost t
      else plus (times w (s.cost t)) (times (minus (num 1) w) prior)

  unfoldable pub rate_head : Policy → F
  rate_head s = over s.head_tok (cost_ms s s.p.head_t)

  -- `for (int i = 0; i < k; ++i) { qi *= q; e += qi; }`
  unfoldable pub powers : ℕ → F → F → F → F
  powers zero q qi e = e
  powers (suc k) q qi e = powers k q (times qi q) (plus e (times qi q))

  unfoldable pub expected_lookup : Policy → ℕ → ℕ → F
  expected_lookup s k m = powers (clamp k 0 s.p.k_max) (lookup_q s m) (num 1) (num 1)

  unfoldable pub rate_lookup : Policy → ℕ → ℕ → F
  rate_lookup s k m = over (expected_lookup s k m) (cost_ms s (1 + s.p.k_max))

  unfoldable pub pays : Policy → ℕ → ℕ → Bool
  pays s k m =
      ltb 0 k
      && (s.p.force
          || less (times (rate_head s) (if s.lookup then num 1 else plus (num 1) s.p.margin))
              (rate_lookup s k m))

  unfoldable pub choose : Policy → ℕ → ℕ → Policy
  choose s k m =
      if same_size s
      then record s { lookup = ltb 0 k && (s.p.force || less s.head_tok (expected_lookup s k m)) }
      else if not s.lookup
      then if pays s k m && (leb s.p.k_max k && leb s.p.enter_match m)
        then record s { lookup = true; bad_steps = 0; entries = s.entries + 1 }
        else s
      else if pays s k m
      then record s { bad_steps = 0 }
      else if leb s.p.patience (s.bad_steps + 1)
      then record s { lookup = false; bad_steps = 0; exits = s.exits + 1 }
      else record s { bad_steps = s.bad_steps + 1 }

  pub record Step : Type 0 where
    pub lookup : Bool
    pub t : ℕ
    pub drafted : ℕ
    pub accepted : ℕ
    pub matched : ℕ
    pub step_ms : F
    pub rebuilt : Bool

  -- A change of the window size starts a warm-up.
  unfoldable pub turn : Policy → ℕ → Policy
  turn s t = if s.last_t == t then s else record s { last_t = t; warm_left = warmup }

  -- Whether this step's time is a sample of its size's cost, the warm-up's count and the outliers'.
  unfoldable pub screen : Policy → ℕ → Step → Bool × Policy
  screen s t o =
      if ltb 0 s.warm_left
      then (false, record s { warm_left = s.warm_left - 1; skipped = s.skipped + 1 })
      else if less (num 0) o.step_ms && not o.rebuilt
      then if le (num 1) (s.cost_n t) && less (times (num 3) (s.cost t)) o.step_ms
        then if ltb (s.outliers t + 1) regime
          then (
            false,
            record s { outliers = update s.outliers t (s.outliers t + 1); skipped = s.skipped + 1 },
          )
          else (
            false,
            record s {
              outliers = update s.outliers t 0;
              cost = update s.cost t o.step_ms;
              cost_n = update s.cost_n t (num 1);
            },
          )
        else (true, record s { outliers = update s.outliers t 0 })
      else (false, s)

  unfoldable pub take_sample : Policy → ℕ → F → Policy
  take_sample s t ms = record s {
    cost = update s.cost t (
        if less (num 0) (s.cost_n t)
        then plus (times (minus (num 1) (over (num 1) (num 10))) (s.cost t))
            (times (over (num 1) (num 10)) ms)
        else ms);
    cost_n = update s.cost_n t (plus (s.cost_n t) (num 1));
  }

  -- What the step says of the drafts' acceptance.
  unfoldable pub learn : Policy → ℕ → Step → Policy
  learn s t o =
      if o.lookup
      then if ltb 0 o.drafted
        then (let b = bucket o.matched in
            record s {
              hits = update s.hits b (plus (times (hundredths 97) (s.hits b)) (num o.accepted));
              misses = update s.misses b (
                  plus (times (hundredths 97) (s.misses b))
                    (if ltb o.accepted o.drafted then num 1 else num 0));
            })
        else s
      else if t == s.p.head_t
      then (let got = plus (num o.accepted) (num 1) in
          record s {
            head_tok =
                if less (num 0) s.head_n
                then plus (times (minus (num 1) (hundredths 5)) s.head_tok)
                    (times (hundredths 5) got)
                else got;
            head_n = plus s.head_n (num 1);
          })
      else s

  unfoldable pub observe : Policy → Step → Policy
  observe s o =
      let t = clamp o.t 1 max_t in
      let counted = if o.rebuilt then record s { rebuilt = s.rebuilt + 1 } else s in
      let (sample, s') = screen (turn counted t) t o in
      learn (if sample then take_sample s' t o.step_ms else s') t o
