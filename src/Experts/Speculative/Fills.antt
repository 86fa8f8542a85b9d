-- ===== src/Experts/Speculative/Fills.antt =====
-- A read that lands makes its slot valid and moves nothing.
use qw_fnfer_xpu.Base.{
  ℕ, zero, suc, ◌-◌, min, ◌≡◌, refl, ◌∙◌, subst, inl, inr, Bool, true, false, ◌&&◌, List, [], ◌∷◌,
  length, get_elem?, ltb, ◌==◌, if◌then◌else◌, update, Bool-cases, Option-cases, arith,
}
use qw_fnfer_xpu.Experts.Cache.{Pool, Cache, PfEntry}
use qw_fnfer_xpu.Experts.Kept.{Consistent}
use qw_fnfer_xpu.Experts.Speculative.{
  validated, land_entry, complete, complete_all, reap_round, drifted, reap_rounds, pf_reap,
  settle_for, prefetch_settle_for, waiting,
}

-- The two tiers hold the same experts, and what was valid is.
pub record Fills (lp lp' : Pool) : Type 0 where
  pub slot_expert : lp'.slot_expert ≡ lp.slot_expert
  pub expert_slot : lp'.expert_slot ≡ lp.expert_slot
  pub g_slot_expert : lp'.g_slot_expert ≡ lp.g_slot_expert
  pub g_expert_slot : lp'.g_expert_slot ≡ lp.g_expert_slot
  pub g_valid : lp'.g_valid ≡ lp.g_valid
  pub n_slots : lp'.n_slots ≡ lp.n_slots
  pub stays : (s : ℕ) → lp.slot_valid s ≡ true → lp'.slot_valid s ≡ true

pub Fills-refl : (lp : Pool) → Fills lp lp
Fills-refl lp = record {
  slot_expert = refl;
  expert_slot = refl;
  g_slot_expert = refl;
  g_expert_slot = refl;
  g_valid = refl;
  n_slots = refl;
  stays = λ s h. h;
}

pub Fills-trans : {lp lp' lp'' : Pool} → Fills lp lp' → Fills lp' lp'' → Fills lp lp''
Fills-trans f g = record {
  slot_expert = g.slot_expert ∙ f.slot_expert;
  expert_slot = g.expert_slot ∙ f.expert_slot;
  g_slot_expert = g.g_slot_expert ∙ f.g_slot_expert;
  g_expert_slot = g.g_expert_slot ∙ f.g_expert_slot;
  g_valid = g.g_valid ∙ f.g_valid;
  n_slots = g.n_slots ∙ f.n_slots;
  stays = λ s h. g.stays s (f.stays s h);
}

pub Consistent-Fills : {lp lp' : Pool} → Fills lp lp' → Consistent lp → Consistent lp'
Consistent-Fills f ok = record {
  ram = rw (f.expert_slot, f.slot_expert) ok.ram;
  vram = rw (f.g_expert_slot, f.g_slot_expert) ok.vram;
  valid = rw (f.g_slot_expert, f.g_valid) ok.valid;
  has_slot = rw f.n_slots ok.has_slot;
}

pub validated-Fills : (lp : Pool) (s e : ℕ) → Fills lp (validated lp s e)
unfolding validated
validated-Fills lp s e = record {
  slot_expert = refl;
  expert_slot = refl;
  g_slot_expert = refl;
  g_expert_slot = refl;
  g_valid = refl;
  n_slots = refl;
  stays = λ t h. ground arith;
}

-- The pool of one layer gives way to another.
pub update-Fills :
    (blk : ℕ → Pool) (i : ℕ) (lp : Pool)
    → Fills (blk i) lp
    → (il : ℕ) → Fills (blk il) (update blk i lp il)
update-Fills blk i lp f il = elim (Bool-cases (i == il)) [
  | inl same ↦ let eq : i ≡ il = ground arith in rw same (subst (λ x. Fills (blk x) lp) eq f)
  | inr other ↦ rw other (Fills-refl (blk il))
]

-- The speculative reads that have been reaped between `c` and `d`.
pub record Reaps (c d : Cache) : Type 0 where
  pub fills : (il : ℕ) → Fills (c.blk il) (d.blk il)
  pub pending : d.pending ≡ c.pending
  pub inflight : d.inflight ≡ c.inflight
  pub inflight_layer : d.inflight_layer ≡ c.inflight_layer

pub Reaps-refl : (c : Cache) → Reaps c c
Reaps-refl c = record {
  fills = λ il. Fills-refl (c.blk il);
  pending = refl;
  inflight = refl;
  inflight_layer = refl;
}

pub Reaps-trans : {b c d : Cache} → Reaps b c → Reaps c d → Reaps b d
Reaps-trans f g = record {
  fills = λ il. Fills-trans (f.fills il) (g.fills il);
  pending = g.pending ∙ f.pending;
  inflight = g.inflight ∙ f.inflight;
  inflight_layer = g.inflight_layer ∙ f.inflight_layer;
}

land_entry-Reaps : (c : Cache) (tag : ℕ) (x : PfEntry) → Reaps c (land_entry c tag x)
unfolding land_entry
land_entry-Reaps c tag x = record {
  fills = λ il. landed (x.remaining == 1) il;
  pending = refl;
  inflight = refl;
  inflight_layer = refl;
}
  where
    landed :
        (b : Bool) (il : ℕ)
        → Fills (c.blk il) (
            (if b then update c.blk x.layer (validated (c.blk x.layer) x.slot x.expert) else c.blk)
              il)
    landed true il =
        update-Fills c.blk x.layer (validated (c.blk x.layer) x.slot x.expert)
          (validated-Fills (c.blk x.layer) x.slot x.expert) il
    landed false il = Fills-refl (c.blk il)

complete-Reaps : (c : Cache) (tag : ℕ) → Reaps c (complete c tag)
unfolding complete
complete-Reaps c tag = elim (Option-cases (get_elem? c.pf_pending tag)) [
  | inl absent ↦ rw (absent, complete) (Reaps-refl c)
  | inr (x, at) ↦ rw (at, complete) (land_entry-Reaps c tag x)
]

complete_all-Reaps : (c : Cache) (tags : List ℕ) → Reaps c (complete_all c tags)
unfolding complete_all
complete_all-Reaps c [] = Reaps-refl c
complete_all-Reaps c (tag ∷ tags) =
    Reaps-trans (complete-Reaps c tag) (complete_all-Reaps (complete c tag) tags)

reap_round-Reaps : (c : Cache) (tags : List ℕ) → Reaps c (reap_round c tags)
unfolding reap_round
reap_round-Reaps c tags =
    let r = complete_all-Reaps c tags in
    record {
      fills = r.fills;
      pending = r.pending;
      inflight = r.inflight;
      inflight_layer = r.inflight_layer;
    }

drifted-Reaps : (c : Cache) (need : ℕ) → Reaps c (drifted c need)
unfolding drifted
drifted-Reaps c need = record {
  fills = λ il. Fills-refl (c.blk il);
  pending = refl;
  inflight = refl;
  inflight_layer = refl;
}

reap_rounds-Reaps :
    (c : Cache) (need : ℕ) (rounds : List (List ℕ)) → Reaps c (reap_rounds c need rounds).0
unfolding reap_rounds
reap_rounds-Reaps c need [] = drifted-Reaps c need
reap_rounds-Reaps c need ([] ∷ rounds) = drifted-Reaps c need
reap_rounds-Reaps c need ((tag ∷ tags) ∷ rounds) =
    let d = reap_round c (tag ∷ tags) in
    let r = reap_round-Reaps c (tag ∷ tags) in
    elim (Bool-cases (ltb 0 (need - length (tag ∷ tags)) && ltb 0 d.pf_reads_outstanding)) [
      | inr stop ↦ rw (stop, reap_rounds) r
      | inl go ↦
          rw (go, reap_rounds)
            (Reaps-trans r (reap_rounds-Reaps d (need - length (tag ∷ tags)) rounds))
    ]

pub pf_reap-Reaps : (c : Cache) (n : ℕ) (rounds : List (List ℕ)) → Reaps c (pf_reap c n rounds).0
unfolding pf_reap
pf_reap-Reaps c n rounds = elim (Bool-cases (c.pf_reads_outstanding == 0)) [
  | inl empty ↦ rw (empty, pf_reap) (Reaps-refl c)
  | inr more ↦ rw (more, pf_reap) (reap_rounds-Reaps c (min n c.pf_reads_outstanding) rounds)
]

settle_for-Reaps :
    (c : Cache) (il : ℕ) (ids : List ℕ) (fuel : ℕ) (rounds : List (List ℕ))
    → Reaps c (settle_for c il ids fuel rounds).0
unfolding settle_for
settle_for-Reaps c il ids zero rounds = Reaps-refl c
settle_for-Reaps c il ids (suc fuel) rounds = elim (Bool-cases (waiting c il ids)) [
  | inr stop ↦ rw (stop, settle_for) (Reaps-refl c)
  | inl go ↦
      rw (go, settle_for)
        (Reaps-trans (pf_reap-Reaps c 1 rounds)
          (settle_for-Reaps (pf_reap c 1 rounds).0 il ids fuel (pf_reap c 1 rounds).1))
]

pub prefetch_settle_for-Reaps :
    (c : Cache) (il : ℕ) (ids : List ℕ) (rounds : List (List ℕ))
    → Reaps c (prefetch_settle_for c il ids rounds).0
unfolding prefetch_settle_for
prefetch_settle_for-Reaps c il ids rounds =
    let r = settle_for-Reaps c il ids c.pf_reads_outstanding rounds in
    record {
      fills = r.fills;
      pending = r.pending;
      inflight = r.inflight;
      inflight_layer = r.inflight_layer;
    }
