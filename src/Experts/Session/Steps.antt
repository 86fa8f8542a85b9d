-- ===== src/Experts/Session/Steps.antt =====
-- The cache under any sequence of its calls.
use qw_fnfer_xpu.Base.{ℕ, ◌/◌, ◌%◌, ◌^◌, refl, inl, inr, Bool, ◌&&◌, List, ltb, update, Bool-cases}
use qw_fnfer_xpu.Experts.Cache.{Config, Cache, Claim}
use qw_fnfer_xpu.Experts.Kept.{Consistent}
use qw_fnfer_xpu.Experts.Settle.{settle_promotions, settle_promotions_layer}
use qw_fnfer_xpu.Experts.Settle.Keeps.{
  AllConsistent, AllConsistent-at, update-AllConsistent, settle_promotions-Settled,
  settle_promotions_layer-Settled,
}
use qw_fnfer_xpu.Experts.Speculative.{prefetch_begin}
use qw_fnfer_xpu.Experts.Session.{
  fetch_begin, fetch_end, fetch_batch, prefetch_start, prefetch_finish, pinned_at, pin,
}
use qw_fnfer_xpu.Experts.Session.Fetched.{fetch_begin-Begun}
use qw_fnfer_xpu.Experts.Session.Ends.{fetch_end-Ended}
use qw_fnfer_xpu.Experts.Session.Serves.{fetch_end-AllConsistent}
use qw_fnfer_xpu.Experts.Session.Batches.{
  fetch_batch-AllConsistent, prefetch_start-AllConsistent, prefetch_finish-AllConsistent,
}
use qw_fnfer_xpu.Experts.Session.Predicts.{prefetch_begin-AllConsistent}

-- One call, with what its reads come to.
pub data Step (k : Config) (n_expert : ℕ) (c : Cache) : Cache → Type 0 where
  begins :
      (ranges : Bool → ℕ → ℕ → Bool) (submitted : Bool) (il : ℕ) (es : List ℕ)
      → Step k n_expert c (fetch_begin k ranges submitted c il es).0
  ends :
      (reads : ℕ → Bool) (rounds : List (List ℕ)) (drained : Bool)
      → Step k n_expert c (fetch_end reads rounds drained c).0
  batches :
      (ranges : Bool → ℕ → ℕ → Bool) (fits done : Bool) (il : ℕ) (es : List ℕ)
      → Step k n_expert c (fetch_batch k n_expert ranges fits done c il es).0
  predicts :
      (pieces : Bool → ℕ → ℕ → ℕ) (sets : List (ℕ × List ℕ)) (accepted : List ℕ)
      (rounds : List (List ℕ))
      → Step k n_expert c (prefetch_begin k n_expert pieces c sets accepted rounds).0
  starts : (il : ℕ) (es : List ℕ) → Step k n_expert c (prefetch_start k c il es).0
  finishes :
      (landed : Bool) (il : ℕ) (claims : List Claim)
      → Step k n_expert c (prefetch_finish landed c il claims)
  settles : Step k n_expert c (settle_promotions k c)
  settles_layer : Step k n_expert c (settle_promotions_layer k c)
  pins : (key : ℕ) → Step k n_expert c (pin n_expert c key)

pin-AllConsistent :
    (n_expert : ℕ) (c : Cache) (key : ℕ) → AllConsistent c → AllConsistent (pin n_expert c key)
unfolding pin
pin-AllConsistent n_expert c key all =
    let il = key / 2 ^ 16 in
    let e = key % 2 ^ 16 in
    elim (Bool-cases (ltb il c.n_blk && ltb e n_expert)) [
      | inr out ↦ rw (out, pin) all
      | inl within ↦
          let lp = c.blk il in
          let ok = AllConsistent-at c il all in
          let lp' = record lp { slot_pinned = pinned_at lp.slot_pinned (lp.expert_slot e) } in
          let ok' : Consistent lp' = record {
            ram = ok.ram;
            vram = ok.vram;
            valid = ok.valid;
            has_slot = ok.has_slot;
          } in
          rw (within, pin)
            (update-AllConsistent c (record c { blk = update c.blk il lp' }) il lp' refl ok' all)
    ]

Step-AllConsistent :
    (k : Config) (n : ℕ) (c d : Cache) → Step k n c d → AllConsistent c → AllConsistent d
Step-AllConsistent k n c _ (begins ranges submitted il es) all =
    let b = fetch_begin-Begun k ranges submitted c il es all in b.all
Step-AllConsistent k n c _ (ends reads rounds drained) all =
    fetch_end-AllConsistent c (fetch_end reads rounds drained c).0
      (fetch_end reads rounds drained c).1 (fetch_end-Ended reads rounds drained c) all
Step-AllConsistent k n c _ (batches ranges fits done il es) all =
    fetch_batch-AllConsistent k n ranges fits done c il es all
Step-AllConsistent k n c _ (predicts pieces sets accepted rounds) all =
    prefetch_begin-AllConsistent k n pieces c sets accepted rounds all
Step-AllConsistent k n c _ (starts il es) all = prefetch_start-AllConsistent k c il es all
Step-AllConsistent k n c _ (finishes landed il claims) all =
    prefetch_finish-AllConsistent landed c il claims all
Step-AllConsistent k n c _ settles all = let s = settle_promotions-Settled k c all in s.all
Step-AllConsistent k n c _ settles_layer all =
    let s = settle_promotions_layer-Settled k c all in s.all
Step-AllConsistent k n c _ (pins key) all = pin-AllConsistent n c key all

-- Any sequence of calls.
pub data Steps (k : Config) (n_expert : ℕ) (c : Cache) : Cache → Type 0 where
  done : Steps k n_expert c c
  more : (d e : Cache) → Steps k n_expert c d → Step k n_expert d e → Steps k n_expert c e

-- Where in every layer an expert's index in the RAM tier and in the VRAM tier names a slot that holds
-- that expert, this is so after any sequence of calls, in any order: fetches and their ends, batches,
-- predictions, restores, settlings of promotions and pins, whatever the reads come to and also
-- where the calls fail; and every VRAM slot with an expert stays valid.
pub Steps-AllConsistent :
    (k : Config) (n_expert : ℕ) (c d : Cache)
    → Steps k n_expert c d
    → AllConsistent c
    → AllConsistent d
Steps-AllConsistent k n c _ done all = all
Steps-AllConsistent k n c _ (more d e steps step) all =
    Step-AllConsistent k n d e step (Steps-AllConsistent k n c d steps all)
