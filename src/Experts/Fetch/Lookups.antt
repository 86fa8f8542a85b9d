-- ===== src/Experts/Fetch/Lookups.antt =====
-- What an answer of the three lookups says of the tiers.
use qw_fnfer_xpu.Base.{
  ℕ, ◌≡◌, subst, inl, inr, true, not, ◌&&◌, none, some, ◌==◌, if◌then◌else◌, Bool-cases,
  Option-cases, arith,
}
use qw_fnfer_xpu.Experts.Cache.{Config, Pool, holds}
use qw_fnfer_xpu.Experts.Names.{holds→some}
use qw_fnfer_xpu.Experts.Victim.{find_slot, vram_open}
use qw_fnfer_xpu.Experts.Kept.{Consistent}
use qw_fnfer_xpu.Experts.Fetch.{vram_slot, claimed}

-- What the three lookups say.
pub vram_slot-Holds :
    (k : Config) (lp : Pool) (e g : ℕ) → vram_slot k lp e ≡ some g → lp.g_slot_expert g ≡ some e
unfolding vram_slot
vram_slot-Holds k lp e g h = elim (Bool-cases (vram_open k lp)) [
  | inr shut ↦ let never : none ≡ some g = rw (shut, vram_slot) at h in ground arith
  | inl o ↦ elim (Option-cases (lp.g_expert_slot e)) [
    | inl nowhere ↦ let never : none ≡ some g = rw (o, nowhere, vram_slot) at h in ground arith
    | inr (g', at) ↦ elim (Bool-cases (lp.g_valid g' && holds (lp.g_slot_expert g') e)) [
      | inr bad ↦ let never : none ≡ some g = rw (o, at, bad, vram_slot) at h in ground arith
      | inl fine ↦
          let same : some g' ≡ some g = rw (o, at, fine, vram_slot) at h in
          let eq : g' ≡ g = ground arith in
          subst (λ x. lp.g_slot_expert x ≡ some e) eq
            (holds→some (lp.g_slot_expert g') e (ground arith))
    ]
  ]
]

pub vram_slot_absent :
    (k : Config) (lp : Pool) (e : ℕ)
    → Consistent lp
    → vram_open k lp ≡ true
    → vram_slot k lp e ≡ none
    → lp.g_expert_slot e ≡ none
unfolding vram_slot
vram_slot_absent k lp e ok o h = elim (Option-cases (lp.g_expert_slot e)) [
  | inl nowhere ↦ nowhere
  | inr (g, at) ↦
      let held = ok.vram e g at in
      let never : (if lp.g_valid g && holds (lp.g_slot_expert g) e then some g else none) ≡ none =
        rw (o, at, vram_slot) at h in
      let v = ok.valid g e held in
      let never' : (if true && (e == e) then some g else none) ≡ none = rw (v, held) at never in
      ground arith
]

pub claimed-Holds : (lp : Pool) (e s : ℕ) → claimed lp e ≡ some s → lp.slot_expert s ≡ some e
unfolding claimed
claimed-Holds lp e s h = elim (Option-cases (lp.expert_slot e)) [
  | inl nowhere ↦ let never : none ≡ some s = rw (nowhere, claimed) at h in ground arith
  | inr (t, at) ↦ elim (Bool-cases (holds (lp.slot_expert t) e && not (lp.slot_valid t))) [
    | inr bad ↦ let never : none ≡ some s = rw (at, bad, claimed) at h in ground arith
    | inl fine ↦
        let same : some t ≡ some s = rw (at, fine, claimed) at h in
        let eq : t ≡ s = ground arith in
        subst (λ x. lp.slot_expert x ≡ some e) eq (holds→some (lp.slot_expert t) e (ground arith))
  ]
]

pub find_slot-Holds :
    (lp : Pool) (e s : ℕ)
    → find_slot lp e ≡ some s
    → (lp.slot_expert s ≡ some e) × (lp.slot_valid s ≡ true)
unfolding find_slot
find_slot-Holds lp e s h = elim (Option-cases (lp.expert_slot e)) [
  | inl nowhere ↦ let never : none ≡ some s = rw (nowhere, find_slot) at h in ground arith
  | inr (t, at) ↦ elim (Bool-cases (holds (lp.slot_expert t) e && lp.slot_valid t)) [
    | inr bad ↦ let never : none ≡ some s = rw (at, bad, find_slot) at h in ground arith
    | inl fine ↦
        let same : some t ≡ some s = rw (at, fine, find_slot) at h in
        let eq : t ≡ s = ground arith in
        subst (λ x. (lp.slot_expert x ≡ some e) × (lp.slot_valid x ≡ true)) eq
          (holds→some (lp.slot_expert t) e (ground arith), ground arith)
  ]
]
