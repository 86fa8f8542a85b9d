-- ===== src/Lookup/Policy/Hysteresis.antt =====
-- The window of `lookup_policy`: when it switches, and what its counters say of the switches.
use qw_fnfer_xpu.Base.{
  ℕ, suc, ◌+◌, ◌≤◌, ◌<◌, ◌≡◌, refl, ap, ◌∙◌, true, false, List, [], ◌∷◌, ◌++◌, arith, if◌then◌else◌,
  length,
}
use qw_fnfer_xpu.Double.{Double}
use qw_fnfer_xpu.Lookup.Policy.{
  Policy, Step, same_size, pays, choose, observe, new_sequence, turn, screen, take_sample, learn,
  clamp, max_t, rate_head, rate_lookup, expected_lookup, cost_ms, prior_sums, lookup_q,
}

module _ (c : Double) where
  open c use {F}

  -- One request's step: the choice, the observation, or a new request.
  pub data Event : Type 0 where
    chosen : ℕ → ℕ → Event
    observed : Step c → Event
    restarted : Event

  unfoldable pub step : Policy c → Event → Policy c
  step s (chosen k m) = choose c s k m
  step s (observed o) = observe c s o
  step s restarted = new_sequence c s

  unfoldable pub run : Policy c → List Event → Policy c
  run s [] = s
  run s (e ∷ es) = run (step s e) es

  -- A counted switch into the lookup window is answered by at most one switch back, and the steps
  -- that did not pay stay below the patience, which is none outside the lookup window.
  pub record IsSteady (s : Policy c) : Type 0 where
    pub sizes : same_size c s ≡ false
    pub patient : s.bad_steps < s.p.patience
    pub outside : s.lookup ≡ false → s.bad_steps ≡ 0
    pub paired : s.exits + (if s.lookup then 1 else 0) ≤ s.entries

  -- The fields that the choice of the window reads and writes.
  abbrev SameWindow : Policy c → Policy c → Type 0
  SameWindow s s' =
      (s'.p ≡ s.p)
      × (s'.lookup ≡ s.lookup)
      × (s'.bad_steps ≡ s.bad_steps)
      × (s'.exits ≡ s.exits)
      × (s'.entries ≡ s.entries)

  SameWindow-trans : (s s' s'' : Policy c) → SameWindow s s' → SameWindow s' s'' → SameWindow s s''
  SameWindow-trans s s' s'' h k = (cc, cc, cc, cc, cc)

  turn-SameWindow : (s : Policy c) (t : ℕ) → SameWindow s (turn c s t)
  unfolding turn
  turn-SameWindow s t = ground arith

  screen-SameWindow : (s : Policy c) (t : ℕ) (o : Step c) → SameWindow s (screen c s t o).1
  unfolding screen
  screen-SameWindow s t o = ground arith

  learn-SameWindow : (s : Policy c) (t : ℕ) (o : Step c) → SameWindow s (learn c s t o)
  unfolding learn
  learn-SameWindow s t o = ground arith

  observe-SameWindow : (s : Policy c) (o : Step c) → SameWindow s (observe c s o)
  unfolding observe take_sample
  observe-SameWindow s o =
      let t = clamp o.t 1 max_t in
      let counted = if o.rebuilt then record s { rebuilt = s.rebuilt + 1 } else s in
      let turned = turn c counted t in
      let r = screen c turned t o in
      let sampled = if r.0 then take_sample c r.1 t o.step_ms else r.1 in
      let done = learn c sampled t o in
      SameWindow-trans s counted done (ground arith) (
        SameWindow-trans counted turned done (turn-SameWindow counted t) (
          SameWindow-trans turned r.1 done (screen-SameWindow turned t o)
            (SameWindow-trans r.1 sampled done (ground arith) (learn-SameWindow sampled t o))))

  choose-IsSteady : (s : Policy c) (k m : ℕ) → IsSteady s → IsSteady (choose c s k m)
  unfolding choose same_size
  choose-IsSteady s k m h = ground arith

  new_sequence-IsSteady : (s : Policy c) → IsSteady s → IsSteady (new_sequence c s)
  unfolding new_sequence same_size
  new_sequence-IsSteady s h = ground arith

  observe-IsSteady : (s : Policy c) (o : Step c) → IsSteady s → IsSteady (observe c s o)
  unfolding same_size
  observe-IsSteady s o h = ground (arith, observe-SameWindow s o)

  -- Where the two windows differ in size, every history of choices, observations and new requests
  -- keeps the policy steady: at most one counted exit for each counted entry, one less while it is
  -- in the lookup window, and a count of unpaid steps below the patience that is zero outside it.
  pub run-IsSteady : (s : Policy c) (es : List Event) → IsSteady s → IsSteady (run s es)
  unfolding run step
  run-IsSteady s [] h = h
  run-IsSteady s (chosen k m ∷ es) h = run-IsSteady (choose c s k m) es (choose-IsSteady s k m h)
  run-IsSteady s (observed o ∷ es) h = run-IsSteady (observe c s o) es (observe-IsSteady s o h)
  run-IsSteady s (restarted ∷ es) h = run-IsSteady (new_sequence c s) es (new_sequence-IsSteady s h)

  pays-bad_steps :
      (s : Policy c) (n k m : ℕ) → pays c (record s { bad_steps = n }) k m ≡ pays c s k m
  unfolding pays rate_head rate_lookup expected_lookup cost_ms prior_sums lookup_q
  pays-bad_steps s n k m = refl

  unfoldable pub choices : Policy c → List (ℕ × ℕ) → Policy c
  choices s [] = s
  choices s ((k, m) ∷ ps) = choices (choose c s k m) ps

  -- No proposal of the list pays for its lookup window.
  abbrev pub Unpaid : Policy c → List (ℕ × ℕ) → Type 0
  Unpaid s [] = Unit {0}
  Unpaid s ((k, m) ∷ ps) = (pays c s k m ≡ false) × Unpaid s ps

  Unpaid-bad_steps :
      (s : Policy c) (n : ℕ) (ps : List (ℕ × ℕ))
      → Unpaid s ps
      → Unpaid (record s { bad_steps = n }) ps
  Unpaid-bad_steps s n [] h = tt
  Unpaid-bad_steps s n ((k, m) ∷ ps) h = (pays-bad_steps s n k m ∙ h.0, Unpaid-bad_steps s n ps h.1)

  choose_unpaid :
      (s : Policy c) (k m : ℕ)
      → same_size c s ≡ false
      → s.lookup ≡ true
      → pays c s k m ≡ false
      → suc s.bad_steps < s.p.patience
      → choose c s k m ≡ record s { bad_steps = s.bad_steps + 1 }
  unfolding choose
  choose_unpaid s k m size inside no_pay more = ground arith

  -- In the lookup window, fewer unpaid steps than the patience leaves change only the count.
  choices_stay :
      (s : Policy c) (ps : List (ℕ × ℕ))
      → same_size c s ≡ false
      → s.lookup ≡ true
      → Unpaid s ps
      → s.bad_steps + length ps < s.p.patience
      → choices s ps ≡ record s { bad_steps = s.bad_steps + length ps }
  unfolding choices same_size
  choices_stay s [] size inside h more =
      ap (λ n. record s { bad_steps = n }) {y = s.bad_steps + 0} (omega arith)
  choices_stay s ((k, m) ∷ ps) size inside h more =
      rw (choose_unpaid s k m size inside h.0 (omega arith)) (
        choices_stay (record s { bad_steps = s.bad_steps + 1 }) ps size inside
          (Unpaid-bad_steps s (s.bad_steps + 1) ps h.1) (omega arith)
        ∙ ap (λ n. record s { bad_steps = n }) (omega arith))

  choices-append :
      (s : Policy c) (ps qs : List (ℕ × ℕ)) → choices s (ps ++ qs) ≡ choices (choices s ps) qs
  unfolding choices
  choices-append s [] qs = refl
  choices-append s ((k, m) ∷ ps) qs = choices-append (choose c s k m) ps qs

  Unpaid-init : (s : Policy c) (ps qs : List (ℕ × ℕ)) → Unpaid s (ps ++ qs) → Unpaid s ps
  Unpaid-init s [] qs h = tt
  Unpaid-init s ((k, m) ∷ ps) qs h = (h.0, Unpaid-init s ps qs h.1)

  Unpaid-last :
      (s : Policy c) (ps : List (ℕ × ℕ)) (k m : ℕ)
      → Unpaid s (ps ++ (k, m) ∷ [])
      → pays c s k m ≡ false
  Unpaid-last s [] k m h = h.0
  Unpaid-last s ((k', m') ∷ ps) k m h = Unpaid-last s ps k m h.1

  choose_out_of_patience :
      (s : Policy c) (k m : ℕ)
      → same_size c s ≡ false
      → s.lookup ≡ true
      → pays c s k m ≡ false
      → s.p.patience ≤ suc s.bad_steps
      → choose c s k m ≡ record s { lookup = false; bad_steps = 0; exits = s.exits + 1 }
  unfolding choose
  choose_out_of_patience s k m size inside no_pay enough = ground arith

  -- Where the two windows differ in size, a policy in the lookup window stays there through unpaid
  -- steps while their count is below the patience, and the unpaid step that reaches the patience
  -- takes it back to the head's window with the count cleared and one exit counted; nothing else
  -- changes.
  pub choices_leave :
      (s : Policy c) (ps : List (ℕ × ℕ)) (k m : ℕ)
      → same_size c s ≡ false
      → s.lookup ≡ true
      → Unpaid s (ps ++ (k, m) ∷ [])
      → s.bad_steps + length ps + 1 ≡ s.p.patience
      → (choices s ps ≡ record s { bad_steps = s.bad_steps + length ps })
        × (choices s (ps ++ (k, m) ∷ [])
            ≡ record s { lookup = false; bad_steps = 0; exits = s.exits + 1 })
  unfolding choices same_size
  choices_leave s ps k m size inside h enough =
      let stay = choices_stay s ps size inside (Unpaid-init s ps _ h) (omega arith) in
      (
        stay,
        choices-append s ps ((k, m) ∷ [])
            ∙ rw stay (
                choose_out_of_patience (record s { bad_steps = s.bad_steps + length ps }) k m size
                  inside (pays-bad_steps s (s.bad_steps + length ps) k m ∙ Unpaid-last s ps k m h)
                  (omega arith)),
      )
