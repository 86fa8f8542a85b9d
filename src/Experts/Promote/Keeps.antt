-- ===== src/Experts/Promote/Keeps.antt =====
-- What `promote` keeps.
use qw_fnfer_xpu.Base.{
  ℕ, zero, suc, ◌*◌, ◌%◌, ◌<◌, ◌≡◌, refl, ◌∙◌, ap, subst, ◌⊎◌, inl, inr, Bool, true, false, not,
  ◌&&◌, Option, none, some, List, [], ◌∷◌, ltb, leb, ◌==◌, if◌then◌else◌, Bool-cases, Option-cases,
  arith,
}
use qw_fnfer_xpu.Experts.Cache.{Config, Pool, Cache, is_some}
use qw_fnfer_xpu.Experts.Victim.{xorshift, unused_for, choose_victim}
use qw_fnfer_xpu.Experts.Victim.Chooses.{choose_victim-Chooses}
use qw_fnfer_xpu.Experts.Promote.{
  Pick, Tried, settled, onward, try_slot, try_slots, no_pick, accepted, gpu_victim, pop_free,
  take_slot, ring_take, destination, stage,
}
use qw_fnfer_xpu.Experts.Kept.{Frame, framed, Frame-refl, Free, Eligible-Free}

-- A slot of the VRAM tier whose block may go: it is empty, or unused in the fetch in progress.
unfoldable pub Replaceable : Cache → ℕ → Type 0
Replaceable c g = (c.lp.g_slot_expert g ≡ none) ⊎ (c.lp.g_used g < c.fetch_epoch)

abbrev Picked : Cache → Option ℕ → Type 0
Picked c none = Unit
Picked c (some g) = Replaceable c g

abbrev Fair : Cache → Pick → Type 0
Fair c p = Picked c p.victim × Picked c p.stale

abbrev Trial : Cache → Tried → Type 0
Trial c (settled p) = Fair c p
Trial c (onward p) = Fair c p

if-Picked :
    (c : Cache) (b : Bool) (o o' : Option ℕ)
    → Picked c o
    → Picked c o'
    → Picked c (if b then o else o')
if-Picked c true o o' p q = p
if-Picked c false o o' p q = q

try_slot-Trial : (k : Config) (c : Cache) (g : ℕ) (p : Pick) → Fair c p → Trial c (try_slot k c g p)
unfolding try_slot Replaceable
try_slot-Trial k c g p ok = elim (Option-cases (c.lp.g_slot_expert g)) [
  | inl empty ↦ rw (empty, try_slot) (inl empty, tt)
  | inr (x, full) ↦ elim (Bool-cases (leb c.fetch_epoch (c.lp.g_used g))) [
    | inl fresh ↦ rw (full, fresh, try_slot) ok
    | inr old ↦
        let fair : Picked c (some g) = inr (ground arith) in
        elim (Bool-cases k.vram_lru) [
          | inl l ↦
              rw (full, old, l, try_slot)
                (if-Picked c (ltb (c.lp.g_used g) p.oldest) (some g) p.victim fair ok.0, ok.1)
          | inr l ↦
              rw (full, old, l, try_slot)
                (
                  if-Picked c (ltb (c.lp.ef x) p.worst) (some g) p.victim fair ok.0,
                  if-Picked c
                      (ltb (48 * 24) (unused_for c g) && ltb (c.lp.g_used_fetch g) p.stale_oldest)
                      (some g) p.stale fair ok.1,
                )
        ]
  ]
]

Tried-cases : (t : Tried) → ((p : Pick) × (t ≡ settled p)) ⊎ ((p : Pick) × (t ≡ onward p))
Tried-cases (settled p) = inl (p, refl)
Tried-cases (onward p) = inr (p, refl)

try_slots-Fair :
    (k : Config) (c : Cache) (n rng : ℕ) (p : Pick) → Fair c p → Fair c (try_slots k c n rng p).1
unfolding try_slots
try_slots-Fair k c zero rng p ok = ok
try_slots-Fair k c (suc n) rng p ok =
    let g = xorshift rng % c.lp.g_slots in
    let seen = try_slot-Trial k c g p ok in
    elim (Tried-cases (try_slot k c g p)) [
      | inl (q, f) ↦ rw (f, try_slots) (subst (Trial c) f seen)
      | inr (q, f) ↦
          rw (f, try_slots) (try_slots-Fair k c n (xorshift rng) q (subst (Trial c) f seen))
    ]

accepted-Picked :
    (k : Config) (c : Cache) (e : ℕ) (p : Pick) → Fair c p → Picked c (accepted k c e p)
unfolding accepted
accepted-Picked k c e p ok = elim (Option-cases p.stale) [
  | inr (g, st) ↦ rw (st, accepted) (subst (Picked c) st ok.1)
  | inl fresh ↦ elim (Option-cases p.victim) [
    | inl nobody ↦ rw (fresh, nobody, accepted) tt
    | inr (g, vi) ↦
        elim (Bool-cases
          (not k.vram_lru && (is_some (c.lp.g_slot_expert g) && leb (c.lp.ef e) p.worst))) [
            | inl refuse ↦ rw (fresh, vi, refuse, accepted) tt
            | inr accept ↦ rw (fresh, vi, accept, accepted) (subst (Picked c) vi ok.0)
          ]
  ]
]

-- The slot that `promote` fills was empty or unused in the fetch in progress.
pub gpu_victim-Replaceable :
    (k : Config) (c : Cache) (e g : ℕ) → gpu_victim k c e ≡ some g → Replaceable c g
unfolding gpu_victim
gpu_victim-Replaceable k c e g h = subst (Picked c) h (
    accepted-Picked k c e (try_slots k c 16 c.promote_rng no_pick).1
      (try_slots-Fair k c 16 c.promote_rng no_pick (tt, tt)))

pop_free-empty :
    (lp : Pool) (fs : List ℕ) (t : ℕ) → (pop_free lp fs).1 ≡ some t → lp.slot_expert t ≡ none
unfolding pop_free
pop_free-empty lp [] t h = ground arith
pop_free-empty lp (f ∷ fs) t h =
    elim (Bool-cases (not (is_some (lp.slot_expert f)) && not (lp.slot_pinned f))) [
      | inr skip ↦
          let rest : (pop_free lp fs).1 ≡ some t = rw (skip, pop_free) at h in
          pop_free-empty lp fs t rest
      | inl go ↦
          let same : some f ≡ some t = rw (go, pop_free) at h in
          elim (Option-cases (lp.slot_expert f)) [
            | inl empty ↦
                let eq : f ≡ t = ground arith in subst (λ x. lp.slot_expert x ≡ none) eq empty
            | inr (x, full) ↦ ground arith
          ]
    ]

take_slot-Frame : (k : Config) (c : Cache) (rs : ℕ) → Frame c (take_slot k c rs).0
unfolding take_slot
take_slot-Frame k c rs = framed refl (omega arith)

take_slot-Free :
    (k : Config) (c : Cache) (rs t : ℕ)
    → 0 < c.lp.n_slots
    → (take_slot k c rs).1 ≡ some t
    → Free c t
unfolding take_slot Free
take_slot-Free k c rs t has h = elim (Option-cases (pop_free c.lp c.lp.free_slots).1) [
  | inr (f, free) ↦
      let same : some f ≡ some t = rw (free, take_slot) at h in
      inl (pop_free-empty c.lp c.lp.free_slots t (free ∙ same))
  | inl dry ↦ elim (Option-cases (choose_victim k c).1) [
    | inl full ↦ let never : none ≡ some t = rw (dry, full, take_slot) at h in ground arith
    | inr (v, chosen) ↦
        let same : (if v == rs then none else some v) ≡ some t = rw (dry, chosen, take_slot) at h in
        let eq : v ≡ t = ground arith in
        Eligible-Free c t ((choose_victim-Chooses k c has).taken t (chosen ∙ ap (λ x. some x) eq))
  ]
]

pub destination-Frame : (k : Config) (c : Cache) (rs g : ℕ) → Frame c (destination k c rs g).0
unfolding destination
destination-Frame k c rs g =
    elim (Bool-cases (is_some (c.lp.g_slot_expert g) && not (c.lp.g_cold g))) [
      | inl b ↦ rw (b, destination) (take_slot-Frame k c rs)
      | inr b ↦ rw (b, destination) (Frame-refl c)
    ]

pub destination-Free :
    (k : Config) (c : Cache) (rs g t : ℕ)
    → 0 < c.lp.n_slots
    → (destination k c rs g).1 ≡ some t
    → Free c t
unfolding destination
destination-Free k c rs g t has h =
    elim (Bool-cases (is_some (c.lp.g_slot_expert g) && not (c.lp.g_cold g))) [
      | inl b ↦ take_slot-Free k c rs t has (rw (b, destination) at h)
      | inr b ↦ let never : none ≡ some t = rw (b, destination) at h in ground arith
    ]

pub stage-Frame : (k : Config) (c : Cache) (to : Option ℕ) → Frame c (stage k c to).0
unfolding stage ring_take
stage-Frame k c to = elim (Bool-cases (is_some to && k.d2d)) [
  | inl b ↦ rw (b, stage) (framed refl (omega arith))
  | inr b ↦ rw (b, stage) (Frame-refl c)
]
