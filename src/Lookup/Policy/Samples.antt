-- ===== src/Lookup/Policy/Samples.antt =====
-- What `lookup_policy::observe` takes for the cost of a window size.
use qw_fnfer_xpu.Base.{
  ℕ, ◌+◌, ◌-◌, ◌≤◌, ◌<◌, ◌≡◌, ◌≢◌, refl, ◌∙◌, true, false, List, [], ◌∷◌, arith, if◌then◌else◌,
  length,
}
use qw_fnfer_xpu.Double.{Double}
use qw_fnfer_xpu.Lookup.Policy.{Policy, Step, observe, turn, screen, learn, clamp, max_t, warmup}

module _ (c : Double) where
  open c use {F}

  -- The measured costs, and how many samples each rests on.
  abbrev pub SameCosts : Policy c → Policy c → Type 0
  SameCosts s s' = (s'.cost ≡ s.cost) × (s'.cost_n ≡ s.cost_n)

  learn-keeps :
      (s : Policy c) (t : ℕ) (o : Step c)
      → SameCosts s (learn c s t o)
        × ((learn c s t o).last_t ≡ s.last_t)
        × ((learn c s t o).warm_left ≡ s.warm_left)
  unfolding learn
  learn-keeps s t o = ground arith

  -- A step of a warm-up is no sample, and shortens the warm-up by one.
  observe_warm :
      (s : Policy c) (o : Step c)
      → s.last_t ≡ clamp o.t 1 max_t
      → 0 < s.warm_left
      → SameCosts s (observe c s o)
        × ((observe c s o).last_t ≡ s.last_t)
        × ((observe c s o).warm_left + 1 ≡ s.warm_left)
  unfolding observe turn screen
  observe_warm s o same warm =
      let t = clamp o.t 1 max_t in
      let counted = if o.rebuilt then record s { rebuilt = s.rebuilt + 1 } else s in
      let screened : Policy c = record counted {
        warm_left = s.warm_left - 1;
        skipped = s.skipped + 1;
      } in
      ground (arith, learn-keeps screened t o)

  -- The first step of a size starts its warm-up.
  observe_first :
      (s : Policy c) (o : Step c)
      → s.last_t ≢ clamp o.t 1 max_t
      → SameCosts s (observe c s o)
        × ((observe c s o).last_t ≡ clamp o.t 1 max_t)
        × ((observe c s o).warm_left + 1 ≡ warmup)
  unfolding observe turn screen
  observe_first s o other =
      let t = clamp o.t 1 max_t in
      let counted = if o.rebuilt then record s { rebuilt = s.rebuilt + 1 } else s in
      let screened : Policy c = record counted {
        last_t = t;
        warm_left = 5;
        skipped = s.skipped + 1;
      } in
      ground (arith, learn-keeps screened t o)

  unfoldable pub observes : Policy c → List (Step c) → Policy c
  observes s [] = s
  observes s (o ∷ os) = observes (observe c s o) os

  -- Every step of the list is of the window size `t`.
  abbrev pub OfSize : ℕ → List (Step c) → Type 0
  OfSize t [] = Unit {0}
  OfSize t (o ∷ os) = (clamp o.t 1 max_t ≡ t) × OfSize t os

  observes_warm :
      (s : Policy c) (t : ℕ) (os : List (Step c))
      → OfSize t os
      → s.last_t ≡ t
      → length os ≤ s.warm_left
      → SameCosts s (observes s os)
  unfolding observes
  observes_warm s t [] h same few = (refl, refl)
  observes_warm s t (o ∷ os) h same few =
      let now = observe_warm s o (ground (arith, h.0)) (omega arith) in
      let rest =
        observes_warm (observe c s o) t os h.1 (ground (arith, now)) (omega (arith, now.2)) in
      (rest.0 ∙ now.0.0, rest.1 ∙ now.0.1)

  -- After a change of the window size its first six steps leave every measured cost, and its count
  -- of samples, as it was, whatever they took and whatever they drafted.
  pub observes_new_size :
      (s : Policy c) (t : ℕ) (os : List (Step c))
      → OfSize t os
      → s.last_t ≢ t
      → length os ≤ warmup
      → SameCosts s (observes s os)
  unfolding observes
  observes_new_size s t [] h other few = (refl, refl)
  observes_new_size s t (o ∷ os) h other few =
      let now = observe_first s o (λ e. other (e ∙ h.0)) in
      let rest = observes_warm (observe c s o) t os h.1 (now.1 ∙ h.0) (omega (arith, now.2)) in
      (rest.0 ∙ now.0.0, rest.1 ∙ now.0.1)

  turn-costs : (s : Policy c) (t : ℕ) → SameCosts s (turn c s t)
  unfolding turn
  turn-costs s t = ground arith

  screen_rebuilt :
      (s : Policy c) (t : ℕ) (o : Step c)
      → o.rebuilt ≡ true
      → ((screen c s t o).0 ≡ false) × SameCosts s (screen c s t o).1
  unfolding screen
  screen_rebuilt s t o r = ground arith

  -- A step that rebuilt the layer graphs is never a sample, in a warm-up or outside it.
  pub observe_rebuilt : (s : Policy c) (o : Step c) → o.rebuilt ≡ true → SameCosts s (observe c s o)
  unfolding observe
  observe_rebuilt s o r =
      let t = clamp o.t 1 max_t in
      let counted = if o.rebuilt then record s { rebuilt = s.rebuilt + 1 } else s in
      let screened = screen_rebuilt (turn c counted t) t o r in
      let learned = (learn-keeps (screen c (turn c counted t) t o).1 t o).0 in
      rw screened.0 (
        learned.0 ∙ screened.1.0 ∙ (turn-costs counted t).0 ∙ ground arith,
        learned.1 ∙ screened.1.1 ∙ (turn-costs counted t).1 ∙ ground arith,
      )
