-- ===== src/Experts/Session/Batches.antt =====
-- `fetch_batch`, `prefetch_start` and `prefetch_finish` keep the maps of the tiers in agreement.
use qw_fnfer_xpu.Base.{
  ℕ, zero, suc, ◌%◌, ◌≡◌, refl, subst, inl, inr, Bool, true, false, not, ◌&&◌, none, some, List, [],
  ◌∷◌, ltb, leb, if◌then◌else◌, update, Bool-cases, Option-cases, arith,
}
use mathlib.Core.Option.{some-injective}
use qw_fnfer_xpu.Experts.Cache.{Config, Pool, Cache, Claim, Named, without, is_some, enter, leave}
use qw_fnfer_xpu.Experts.Names.{Named-claim}
use qw_fnfer_xpu.Experts.Kept.{Consistent}
use qw_fnfer_xpu.Experts.Victim.{xorshift, find_slot, choose_victim}
use qw_fnfer_xpu.Experts.Fetch.{vram_slot}
use qw_fnfer_xpu.Experts.Settle.{land_layer}
use qw_fnfer_xpu.Experts.Settle.Keeps.{AllConsistent, AllConsistent-at, update-AllConsistent}
use qw_fnfer_xpu.Experts.Session.{
  sample_empty, adopt, full_slot, batch_miss, batch_one, batch_all, fetch_batch, claim_sync,
  claim_one, claim_each, prefetch_start, mark_valid, prefetch_finish,
}
use qw_fnfer_xpu.Experts.Session.Fetched.{
  AllConsistent-same, land_layer-blk, leave-AllConsistent, enter-AllConsistent,
}

-- The pool at work and the others.
pub record Sound (c : Cache) : Type 0 where
  pub pool : Consistent c.lp
  pub all : AllConsistent c

pub enter-Sound : (c : Cache) (il : ℕ) → AllConsistent c → Sound (enter il (land_layer c il))
enter-Sound c il all = let (a, p) = enter-AllConsistent c il all in record { pool = p; all = a }

pub leave-Sound : (c : Cache) → Sound c → AllConsistent (leave c)
leave-Sound c s = leave-AllConsistent c s.pool s.all

-- The maps as they were.
pub same-Sound :
    (c d : Cache) → (Consistent c.lp → Consistent d.lp) → d.blk ≡ c.blk → Sound c → Sound d
same-Sound c d f same s = record { pool = f s.pool; all = AllConsistent-same c d same s.all }

sample_empty-empty :
    (lp : Pool) (n rng s : ℕ) → (sample_empty lp n rng).1 ≡ some s → lp.slot_expert s ≡ none
unfolding sample_empty
sample_empty-empty lp zero rng s h = ground arith
sample_empty-empty lp (suc n) rng s h =
    let t = xorshift rng % lp.n_slots in
    elim (Bool-cases (not (is_some (lp.slot_expert t)) && not (lp.slot_pinned t))) [
      | inr taken ↦ sample_empty-empty lp n (xorshift rng) s (rw (taken, sample_empty) at h)
      | inl free ↦
          let same : some t ≡ some s = rw (free, sample_empty) at h in
          elim (Option-cases (lp.slot_expert t)) [
            | inl empty ↦ subst (λ x. lp.slot_expert x ≡ none) (some-injective t s same) empty
            | inr (x, full) ↦ ground arith
          ]
    ]

adopt-Consistent :
    (lp : Pool) (e s tick : ℕ)
    → lp.slot_expert s ≡ none
    → Consistent lp
    → Consistent (adopt lp e s tick)
unfolding adopt
adopt-Consistent lp e s tick empty ok = record {
  ram =
      subst
        (λ o.
          Named (update (without lp.expert_slot o) e (some s)) (update lp.slot_expert s (some e)))
        empty (Named-claim lp.expert_slot lp.slot_expert e s ok.ram);
  vram = ok.vram;
  valid = ok.valid;
  has_slot = ok.has_slot;
}

batch_miss-Sound :
    (ranges : Bool → ℕ → ℕ → Bool) (c : Cache) (e : ℕ) → Sound c → Sound (batch_miss ranges c e).0
unfolding batch_miss
batch_miss-Sound ranges c e s =
    let draws = if ltb 0 c.lp.n_slots then 16 else 0 in
    elim (Bool-cases (not (ranges false c.layer e))) [
      | inl bad ↦
          rw (bad, batch_miss)
            (same-Sound c (record c { batch_rng = (sample_empty c.lp draws c.batch_rng).0 })
              (λ ok. ok) refl s)
      | inr fine ↦ elim (Option-cases (sample_empty c.lp draws c.batch_rng).1) [
        | inl full ↦
            rw (fine, full, batch_miss)
              (same-Sound c (record c { batch_rng = (sample_empty c.lp draws c.batch_rng).0 })
                (λ ok. ok) refl s)
        | inr (v, at) ↦
            rw (fine, at, batch_miss)
              (same-Sound c
                (record c {
                  batch_rng = (sample_empty c.lp draws c.batch_rng).0;
                  tick = suc c.tick;
                  lp = adopt c.lp e v (suc c.tick);
                })
                (adopt-Consistent c.lp e v (suc c.tick)
                  (sample_empty-empty c.lp draws c.batch_rng v at))
                refl s)
      ]
    ]

batch_one-Sound :
    (k : Config) (n_expert : ℕ) (ranges : Bool → ℕ → ℕ → Bool) (c : Cache) (e : ℕ)
    → Sound c
    → Sound (batch_one k n_expert ranges c e).0
unfolding batch_one
batch_one-Sound k n_expert ranges c e s = elim (Bool-cases (leb n_expert e)) [
  | inl out ↦ rw (out, batch_one) s
  | inr within ↦ elim (Option-cases (vram_slot k c.lp e)) [
    | inr (g, at) ↦ rw (within, at, batch_one) s
    | inl absent ↦ elim (Option-cases (full_slot c.lp e)) [
      | inl miss ↦ rw (within, absent, miss, batch_one) (batch_miss-Sound ranges c e s)
      | inr (t, at) ↦
          rw (within, absent, at, batch_one)
            (same-Sound c
              (record c { lp = record c.lp { slot_soa = update c.lp.slot_soa t false } })
              (λ ok. record {
                ram = ok.ram;
                vram = ok.vram;
                valid = ok.valid;
                has_slot = ok.has_slot;
              })
              refl s)
    ]
  ]
]

batch_all-Sound :
    (k : Config) (n_expert : ℕ) (ranges : Bool → ℕ → ℕ → Bool) (c : Cache) (es : List ℕ)
    → Sound c
    → Sound (batch_all k n_expert ranges c es).0
unfolding batch_all
batch_all-Sound k n_expert ranges c [] s = s
batch_all-Sound k n_expert ranges c (e ∷ es) s =
    let s' = batch_one-Sound k n_expert ranges c e s in
    elim (Option-cases (batch_one k n_expert ranges c e).1) [
      | inl failed ↦ rw (failed, batch_all) s'
      | inr (p, got) ↦
          rw (got, batch_all)
            (batch_all-Sound k n_expert ranges (batch_one k n_expert ranges c e).0 es s')
    ]

pub fetch_batch-AllConsistent :
    (k : Config) (n_expert : ℕ) (ranges : Bool → ℕ → ℕ → Bool) (fits done : Bool) (c : Cache)
    (il : ℕ) (es : List ℕ)
    → AllConsistent c
    → AllConsistent (fetch_batch k n_expert ranges fits done c il es).0
unfolding fetch_batch
fetch_batch-AllConsistent k n_expert ranges fits done c il es all =
    elim (Bool-cases (not (ltb il c.n_blk))) [
      | inl out ↦ rw (out, fetch_batch) all
      | inr within ↦ elim (Bool-cases (not fits)) [
        | inl small ↦
            rw (within, small, fetch_batch)
              (AllConsistent-same c (land_layer c il) (land_layer-blk c il) all)
        | inr room ↦
            rw (within, room, fetch_batch)
              (leave-Sound (batch_all k n_expert ranges (enter il (land_layer c il)) es).0 (
                batch_all-Sound k n_expert ranges (enter il (land_layer c il)) es
                  (enter-Sound c il all)))
      ]
    ]

claim_one-Sound : (k : Config) (c : Cache) (e : ℕ) → Sound c → Sound (claim_one k c e).0
unfolding claim_one choose_victim claim_sync
claim_one-Sound k c e s = elim (Option-cases (find_slot c.lp e)) [
  | inr (t, at) ↦ rw (at, claim_one) s
  | inl absent ↦ elim (Option-cases (choose_victim k c).1) [
    | inl full ↦
        rw (absent, full, claim_one, choose_victim)
          (same-Sound c (choose_victim k c).0
            (λ ok. record {
              ram = ok.ram;
              vram = ok.vram;
              valid = ok.valid;
              has_slot = ok.has_slot;
            })
            refl s)
    | inr (v, at) ↦
        rw (absent, at, claim_one, choose_victim)
          (same-Sound c
            (record (choose_victim k c).0 { lp = claim_sync (choose_victim k c).0.lp e v })
            (λ ok. record {
              ram = Named-claim c.lp.expert_slot c.lp.slot_expert e v ok.ram;
              vram = ok.vram;
              valid = ok.valid;
              has_slot = ok.has_slot;
            })
            refl s)
  ]
]

claim_each-Sound : (k : Config) (c : Cache) (es : List ℕ) → Sound c → Sound (claim_each k c es).0
unfolding claim_each
claim_each-Sound k c [] s = s
claim_each-Sound k c (e ∷ es) s =
    claim_each-Sound k (claim_one k c e).0 es (claim_one-Sound k c e s)

pub prefetch_start-AllConsistent :
    (k : Config) (c : Cache) (il : ℕ) (es : List ℕ)
    → AllConsistent c
    → AllConsistent (prefetch_start k c il es).0
unfolding prefetch_start
prefetch_start-AllConsistent k c il es all = elim (Bool-cases (ltb il c.n_blk)) [
  | inr out ↦ rw (out, prefetch_start) all
  | inl within ↦
      rw (within, prefetch_start)
        (leave-Sound (claim_each k (enter il (land_layer c il)) es).0
          (claim_each-Sound k (enter il (land_layer c il)) es (enter-Sound c il all)))
]

mark_valid-Consistent :
    (lp : Pool) (ps : List Claim) → Consistent lp → Consistent (mark_valid lp ps)
unfolding mark_valid
mark_valid-Consistent lp [] ok = ok
mark_valid-Consistent lp (p ∷ ps) ok =
    mark_valid-Consistent (record lp { slot_valid = update lp.slot_valid p.slot true }) ps
      (record { ram = ok.ram; vram = ok.vram; valid = ok.valid; has_slot = ok.has_slot })

pub prefetch_finish-AllConsistent :
    (landed : Bool) (c : Cache) (il : ℕ) (claims : List Claim)
    → AllConsistent c
    → AllConsistent (prefetch_finish landed c il claims)
unfolding prefetch_finish
prefetch_finish-AllConsistent false c il claims all = all
prefetch_finish-AllConsistent true c il claims all =
    update-AllConsistent c (prefetch_finish true c il claims) il (mark_valid (c.blk il) claims) refl
      (mark_valid-Consistent (c.blk il) claims (AllConsistent-at c il all)) all
