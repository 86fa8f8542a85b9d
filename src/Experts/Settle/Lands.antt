-- ===== src/Experts/Settle/Lands.antt =====
-- A swapped block is not lost: once its swap is finished it is resident, in its slot or elsewhere.
use qw_fnfer_xpu.Base.{
  ℕ, ◌≡◌, ◌≢◌, refl, sym, ap, ◌∙◌, subst, ◌⊎◌, inl, inr, Bool, true, false, not, ◌&&◌, ◌||◌, Option,
  none, some, ◌==◌, update, update_self, update_ne, Bool-cases, Option-cases, ==_refl, arith,
}
use mathlib.Core.Option.{some-injective}
use qw_fnfer_xpu.Experts.Cache.{Pool, PendingSwap, Named, is_some, holds}
use qw_fnfer_xpu.Experts.Names.{holds→some}
use qw_fnfer_xpu.Experts.Settle.{
  unindexed, release_slot, in_vram, give_back, Outcome, unplaced, stray, surplus, mapped_to,
  outcome, map_slot, place, swap_pool,
}
use qw_fnfer_xpu.Experts.Kept.{Consistent}

pub Named-unindexed :
    (index holder : ℕ → Option ℕ) (s : ℕ)
    → Named index holder
    → Named (unindexed index (holder s) s) (update holder s none)
unfolding unindexed
Named-unindexed index holder s named e t h = elim (Option-cases (holder s)) [
  | inl empty ↦
      let at : index e ≡ some t = rw (empty, unindexed) at h in
      let held = named e t at in update_ne holder s t none (λ same. ground arith) ∙ held
  | inr (x, full) ↦ elim (Bool-cases (holds (index x) s)) [
    | inl b ↦
        let at : update index x none e ≡ some t = rw (full, b, unindexed) at h in
        let at' : index e ≡ some t = ground arith in
        let held = named e t at' in update_ne holder s t none (λ same. ground arith) ∙ held
    | inr b ↦
        let at : index e ≡ some t = rw (full, b, unindexed) at h in
        let held = named e t at in update_ne holder s t none (λ same. ground arith) ∙ held
  ]
]

pub release_slot-Consistent : (lp : Pool) (s : ℕ) → Consistent lp → Consistent (release_slot lp s)
unfolding release_slot
release_slot-Consistent lp s ok = record {
  ram = Named-unindexed lp.expert_slot lp.slot_expert s ok.ram;
  vram = ok.vram;
  valid = ok.valid;
  has_slot = ok.has_slot;
}

pub map_slot-Consistent :
    (lp : Pool) (v t tick : ℕ)
    → lp.slot_expert t ≡ some v
    → Consistent lp
    → Consistent (map_slot lp v t tick)
unfolding map_slot
map_slot-Consistent lp v t tick held ok = record {
  ram = λ e s h. named e s h (ok.ram e s);
  vram = ok.vram;
  valid = ok.valid;
  has_slot = ok.has_slot;
}
  where
    named :
        (e s : ℕ)
        → update lp.expert_slot v (some t) e ≡ some s
        → (lp.expert_slot e ≡ some s → lp.slot_expert s ≡ some e)
        → lp.slot_expert s ≡ some e
    named e s h old = elim (Bool-cases (v == e)) [
      | inl same ↦ ground arith
      | inr other ↦ old (ground arith)
    ]

pub give_back-Consistent :
    (lp : Pool) (sw : PendingSwap) → Consistent lp → Consistent (give_back lp sw)
unfolding give_back
give_back-Consistent lp sw ok =
    elim (Bool-cases (
      holds (lp.slot_expert sw.from) sw.promoted
      && (holds (lp.expert_slot sw.promoted) sw.from && in_vram lp sw.promoted))) [
        | inl b ↦ rw (b, give_back) (release_slot-Consistent lp sw.from ok)
        | inr b ↦ rw (b, give_back) ok
      ]

-- The slot of an outcome holds the displaced block.
outcome-Holds :
    (lp : Pool) (sw : PendingSwap) (o : Option ℕ) (t : ℕ)
    → outcome lp sw o ≡ mapped_to t
    → lp.slot_expert t ≡ some sw.victim
unfolding outcome
outcome-Holds lp sw none t h = ground arith
outcome-Holds lp sw (some s) t h =
    elim (Bool-cases (not (holds (lp.slot_expert s) sw.victim) || lp.slot_valid s)) [
      | inl b ↦ let never : stray ≡ mapped_to t = rw (b, outcome) at h in ground arith
      | inr b ↦ elim (Bool-cases (is_some (lp.expert_slot sw.victim) || in_vram lp sw.victim)) [
        | inl r ↦ let never : surplus s ≡ mapped_to t = rw (b, r, outcome) at h in ground arith
        | inr r ↦
            let same : mapped_to s ≡ mapped_to t = rw (b, r, outcome) at h in
            let eq : s ≡ t = ground arith in
            subst (λ x. lp.slot_expert x ≡ some sw.victim) eq
              (holds→some (lp.slot_expert s) sw.victim (ground arith))
      ]
    ]

pub swap_pool-Consistent :
    (lp : Pool) (sw : PendingSwap) (tick : ℕ) → Consistent lp → Consistent (swap_pool lp sw tick)
unfolding swap_pool place
swap_pool-Consistent lp sw tick ok =
    let lp' = give_back lp sw in
    placed (outcome lp' sw sw.to) (λ t h. outcome-Holds lp' sw sw.to t h)
      (give_back-Consistent lp sw ok)
  where
    placed :
        (o : Outcome)
        → ((t : ℕ) → o ≡ mapped_to t → (give_back lp sw).slot_expert t ≡ some sw.victim)
        → Consistent (give_back lp sw)
        → Consistent (place (give_back lp sw) sw.victim tick o)
    placed unplaced held ok' = ok'
    placed stray held ok' = ok'
    placed (surplus t) held ok' = release_slot-Consistent (give_back lp sw) t ok'
    placed (mapped_to t) held ok' =
        map_slot-Consistent (give_back lp sw) sw.victim t tick (held t refl) ok'

-- The slot `t` has been marked for the block of `v`, which is on its way there and not yet mapped.
pub record Waits (lp : Pool) (v t : ℕ) : Type 0 where
  pub marked : lp.slot_expert t ≡ some v
  pub unread : lp.slot_valid t ≡ false
  pub unmapped : lp.expert_slot v ≢ some t

-- A lookup finds the expert, in the RAM tier's index or in the VRAM tier.
unfoldable pub resident : Pool → ℕ → Bool
resident lp v = is_some (lp.expert_slot v) || in_vram lp v

give_back-Waits :
    (lp : Pool) (sw : PendingSwap) (t : ℕ)
    → Waits lp sw.victim t
    → Waits (give_back lp sw) sw.victim t
unfolding give_back release_slot unindexed
give_back-Waits lp sw t w =
    elim (Bool-cases (
      holds (lp.slot_expert sw.from) sw.promoted
      && (holds (lp.expert_slot sw.promoted) sw.from && in_vram lp sw.promoted))) [
        | inr b ↦ rw (b, give_back) w
        | inl b ↦
            let from = holds→some (lp.slot_expert sw.from) sw.promoted (ground arith) in
            let at = holds→some (lp.expert_slot sw.promoted) sw.from (ground arith) in
            let apart : sw.from ≢ t = λ same. w.unmapped (mixed same from at) in
            rw (b, give_back)
              record {
                marked = update_ne lp.slot_expert sw.from t none apart ∙ w.marked;
                unread = update_ne lp.slot_valid sw.from t false apart ∙ w.unread;
                unmapped = λ h.
                    w.unmapped (cleared from at (rw (from, at, ==_refl sw.from, unindexed) at h));
              }
      ]
  where
    mixed :
        sw.from ≡ t
        → lp.slot_expert sw.from ≡ some sw.promoted
        → lp.expert_slot sw.promoted ≡ some sw.from
        → lp.expert_slot sw.victim ≡ some t
    mixed same from at =
        let one : some sw.promoted ≡ some sw.victim =
          sym from ∙ (ap lp.slot_expert same ∙ w.marked) in
        let eq = some-injective sw.promoted sw.victim one in
        subst (λ x. lp.expert_slot x ≡ some t) eq (at ∙ ap (λ x. some x) same)

    cleared :
        lp.slot_expert sw.from ≡ some sw.promoted
        → lp.expert_slot sw.promoted ≡ some sw.from
        → update lp.expert_slot sw.promoted none sw.victim ≡ some t
        → lp.expert_slot sw.victim ≡ some t
    cleared from at h = ground arith

holds_ne : (o : Option ℕ) (t : ℕ) → o ≢ some t → holds o t ≡ false
holds_ne none t h = refl
holds_ne (some x) t h = elim (Bool-cases (x == t)) [
  | inl same ↦ absurd (h (ground arith))
  | inr other ↦ other
]

release_slot-resident :
    (lp : Pool) (v t : ℕ)
    → Waits lp v t
    → resident lp v ≡ true
    → resident (release_slot lp t) v ≡ true
unfolding resident release_slot unindexed in_vram
release_slot-resident lp v t w h =
    let other = holds_ne (lp.expert_slot v) t w.unmapped in rw (w.marked, other, unindexed) h

-- The slot `t` is the block of `v`'s: the index has it, the slot names it and its bytes count as read.
pub record Mapped (lp : Pool) (v t : ℕ) : Type 0 where
  pub indexed : lp.expert_slot v ≡ some t
  pub named : lp.slot_expert t ≡ some v
  pub valid : lp.slot_valid t ≡ true

-- What a swap comes to, from the pool as it stands once the promoted block's slot is given back: the
-- slot is mapped, or the expert has been resident elsewhere, still is, and the slot is free again.
abbrev pub Landed : Pool → Pool → ℕ → ℕ → Type 0
Landed before after v t =
    ((resident before v ≡ false) × Mapped after v t)
    ⊎ ((resident before v ≡ true)
        × (resident after v ≡ true)
        × (after.slot_expert t ≡ none)
        × (after.slot_valid t ≡ false))

resident_lookup : (lp : Pool) (v : ℕ) → (is_some (lp.expert_slot v) || in_vram lp v) ≡ resident lp v
unfolding resident
resident_lookup lp v = refl

map_slot-Mapped :
    (lp : Pool) (v t tick : ℕ) → lp.slot_expert t ≡ some v → Mapped (map_slot lp v t tick) v t
unfolding map_slot
map_slot-Mapped lp v t tick held = record {
  indexed = update_self lp.expert_slot v (some t);
  named = held;
  valid = update_self lp.slot_valid t true;
}

release_slot-free :
    (lp : Pool) (t : ℕ)
    → ((release_slot lp t).slot_expert t ≡ none) × ((release_slot lp t).slot_valid t ≡ false)
unfolding release_slot
release_slot-free lp t = (update_self lp.slot_expert t none, update_self lp.slot_valid t false)

placed-Landed :
    (lp : Pool) (sw : PendingSwap) (t tick : ℕ)
    → Waits lp sw.victim t
    → Landed lp (place lp sw.victim tick (outcome lp sw (some t))) sw.victim t
unfolding outcome place
placed-Landed lp sw t tick w =
    let unread = w.unread in
    let here : (not (holds (lp.slot_expert t) sw.victim) || lp.slot_valid t) ≡ false =
      rw (w.marked, unread, ==_refl sw.victim) refl in
    elim (Bool-cases (resident lp sw.victim)) [
      | inr r ↦
          let r' = resident_lookup lp sw.victim ∙ r in
          rw (here, r', outcome, place) (inl (r, map_slot-Mapped lp sw.victim t tick w.marked))
      | inl r ↦
          let (freed, unset) = release_slot-free lp t in
          let kept = release_slot-resident lp sw.victim t w r in
          let r' = resident_lookup lp sw.victim ∙ r in
          rw (here, r', outcome, place) (inr (r, kept, freed, unset))
    ]

-- A displaced block that waits in its slot `t` lands once its swap is finished. Where the expert is
-- not resident when the promoted block's slot has been given back, `t` is mapped to it: the index has
-- it there, the slot names it and is valid. Where it is resident elsewhere already, it stays so, and
-- `t` is free.
pub swap_pool-Landed :
    (lp : Pool) (sw : PendingSwap) (t tick : ℕ)
    → sw.to ≡ some t
    → Waits lp sw.victim t
    → Landed (give_back lp sw) (swap_pool lp sw tick) sw.victim t
unfolding swap_pool
swap_pool-Landed lp sw t tick at waits =
    let before = give_back lp sw in
    subst (λ o. Landed before (place before sw.victim tick (outcome before sw o)) sw.victim t)
      (sym at) (placed-Landed before sw t tick (give_back-Waits lp sw t waits))
