-- ===== src/Experts/Session.antt =====
-- The cache's calls as the engine makes them: `fetch_begin`, `settle_pending`, `fetch_end`,
-- `fetch_batch`, `prefetch_start`, `prefetch_finish`, `warm` and `pin`. What the io engines answer is a
-- parameter: whether requests could be submitted and drained, and the tags that each `reap` of the
-- speculative engine returns. Demand reads are outstanding exactly when misses are listed. A claim's
-- requests are named by the claim.
use qw_fnfer_xpu.Base.{
  ℕ, zero, suc, ◌+◌, ◌*◌, ◌/◌, ◌%◌, ◌^◌, min, Bool, true, false, not, ◌&&◌, ◌||◌, Option, none,
  some, List, [], ◌∷◌, ◌++◌, length, map, ltb, leb, ◌==◌, if◌then◌else◌, update,
}
use qw_fnfer_xpu.Experts.Cache.{
  Config, Pool, Cache, Claim, PendingRel, is_some, holds, without, enter, leave,
}
use qw_fnfer_xpu.Experts.Victim.{xorshift, find_slot, choose_victim}
use qw_fnfer_xpu.Experts.Promote.{promote}
use qw_fnfer_xpu.Experts.Fetch.{Handle, vram_slot, begin, serve_all}
use qw_fnfer_xpu.Experts.Settle.{land_layer}
use qw_fnfer_xpu.Experts.Speculative.{validated, prefetch_settle_for}
pub mod Fetched
pub mod Ends
pub mod Serves
pub mod Batches
pub mod Predicts
pub mod Steps

-- The misses of a loop that came to its end are in flight, once they are submitted.
unfoldable pub submit : Bool → Cache → List Handle → Cache × Option (List Handle)
submit submitted c hs = (
  record c { inflight_layer = c.layer; inflight = if submitted then c.misses else [] },
  if submitted then some hs else none,
)

abbrev pub no_claims : List Claim → Bool
no_claims [] = true
no_claims (x ∷ xs) = false

unfoldable pub fetch_begin :
    Config → (Bool → ℕ → ℕ → Bool) → Bool → Cache → ℕ → List ℕ → Cache × Option (List Handle)
fetch_begin k ranges submitted c il es =
    if not (ltb il c.n_blk)
    then (c, none)
    else let (d, o) = serve_all k ranges (begin k (enter il (land_layer c il)) es) es in
      elim o [
        | none ↦ (leave d, none)
        | some hs ↦ submit (no_claims d.misses || submitted) (leave d) hs
      ]

abbrev pub experts_of : List Claim → List ℕ
experts_of [] = []
experts_of (p ∷ ps) = p.expert ∷ experts_of ps

-- `read_block_now`, where its reads succeed.
unfoldable pub read_block_now : Pool → ℕ → Pool
read_block_now lp s = record lp {
  slot_valid = update lp.slot_valid s true;
  slot_cold = update lp.slot_cold s false;
}

-- The loop of `settle_pending`: each slot still holds its expert, and what has not landed is read now.
unfoldable pub settle_each : (ℕ → Bool) → Pool → List Claim → Pool × Bool
settle_each reads lp [] = (lp, true)
settle_each reads lp (p ∷ ps) = elim (holds (lp.slot_expert p.slot) p.expert) [
  | false ↦ (lp, false)
  | true ↦ elim (lp.slot_valid p.slot || reads p.expert) [
    | false ↦ (lp, false)
    | true ↦ settle_each reads (if lp.slot_valid p.slot then lp else read_block_now lp p.slot) ps
  ]
]

unfoldable pub settle_pending : (ℕ → Bool) → List (List ℕ) → Cache → Cache × Bool
settle_pending reads rounds c =
    if no_claims c.pending
    then (c, true)
    else let d = (prefetch_settle_for c c.inflight_layer (experts_of c.pending) rounds).0 in
      let (lp, ok) = settle_each reads (d.blk c.inflight_layer) c.pending in
      (
        record d { blk = update d.blk c.inflight_layer lp; pending = if ok then [] else d.pending },
        ok,
      )

unfoldable pub validate_all : Pool → List Claim → Pool
validate_all lp [] = lp
validate_all lp (p ∷ ps) = validate_all (validated lp p.slot p.expert) ps

unfoldable pub fetch_end : (ℕ → Bool) → List (List ℕ) → Bool → Cache → Cache × Bool
fetch_end reads rounds drained c =
    let (d, ok) = settle_pending reads rounds c in
    if not ok || no_claims d.inflight then (d, ok) else (
      record d {
        inflight = [];
        blk =
            if drained
            then update d.blk d.inflight_layer (validate_all (d.blk d.inflight_layer) d.inflight)
            else d.blk;
      },
      drained,
    )

unfoldable pub fetch :
    Config
    → (Bool → ℕ → ℕ → Bool)
    → Bool
    → (ℕ → Bool)
    → List (List ℕ)
    → Bool
    → Cache
    → ℕ
    → List ℕ
    → Cache × Option (List Handle)
fetch k ranges submitted reads rounds drained c il es =
    let (d, o) = fetch_begin k ranges submitted c il es in
    elim o [
      | none ↦ (d, none)
      | some hs ↦
          let (d', ok) = fetch_end reads rounds drained d in (d', if ok then some hs else none)
    ]

-- The samples of `fetch_batch` for an empty slot.
unfoldable pub sample_empty : Pool → ℕ → ℕ → ℕ × Option ℕ
sample_empty lp zero rng = (rng, none)
sample_empty lp (suc n) rng =
    let rng' = xorshift rng in
    let s = rng' % lp.n_slots in
    elim (not (is_some (lp.slot_expert s)) && not (lp.slot_pinned s)) [
      | true ↦ (rng', some s)
      | false ↦ sample_empty lp n rng'
    ]

-- The block goes to the empty slot, which counts as valid from then on.
unfoldable pub adopt : Pool → ℕ → ℕ → ℕ → Pool
adopt lp e s tick = record lp {
  slot_expert = update lp.slot_expert s (some e);
  slot_valid = update lp.slot_valid s true;
  slot_freq = update lp.slot_freq s 1;
  slot_used = update lp.slot_used s tick;
  slot_cold = update lp.slot_cold s false;
  slot_speculative = update lp.slot_speculative s false;
  slot_soa = update lp.slot_soa s false;
  expert_slot = update lp.expert_slot e (some s);
}

-- Where the block of an expert of a batch is.
pub data Place : Type 0 where
  vram : ℕ → Place
  ram : ℕ → Place
  bounce : Place

-- The slot of a resident at full precision.
unfoldable pub full_slot : Pool → ℕ → Option ℕ
full_slot lp e = elim (find_slot lp e) [
  | none ↦ none
  | some s ↦ if lp.slot_cold s then none else some s
]

unfoldable pub batch_miss : (Bool → ℕ → ℕ → Bool) → Cache → ℕ → Cache × Option Place
batch_miss ranges c e =
    let draws = if ltb 0 c.lp.n_slots then 16 else 0 in
    let (rng, s) = sample_empty c.lp draws c.batch_rng in
    let c' = record c { batch_rng = rng } in
    if not (ranges false c.layer e) then (c', none) else elim s [
      | none ↦ (c', some bounce)
      | some s' ↦
          (record c' { tick = suc c'.tick; lp = adopt c'.lp e s' (suc c'.tick) }, some (ram s'))
    ]

unfoldable pub batch_one : Config → ℕ → (Bool → ℕ → ℕ → Bool) → Cache → ℕ → Cache × Option Place
batch_one k n_expert ranges c e = if leb n_expert e then (c, none) else elim (vram_slot k c.lp e) [
  | some g ↦ (c, some (vram g))
  | none ↦ elim (full_slot c.lp e) [
    | some s ↦
        (record c { lp = record c.lp { slot_soa = update c.lp.slot_soa s false } }, some (ram s))
    | none ↦ batch_miss ranges c e
  ]
]

unfoldable pub batch_all :
    Config → ℕ → (Bool → ℕ → ℕ → Bool) → Cache → List ℕ → Cache × Option (List Place)
batch_all k n_expert ranges c [] = (c, some [])
batch_all k n_expert ranges c (e ∷ es) =
    let (c', p) = batch_one k n_expert ranges c e in
    elim p [
      | none ↦ (c', none)
      | some p' ↦
          let (d, ps) = batch_all k n_expert ranges c' es in
          (d, elim ps [ none ↦ none | some ps' ↦ some (p' ∷ ps') ])
    ]

-- `fits` is the test of the bounce buffer's size, `done` whether the reads came back.
unfoldable pub fetch_batch :
    Config
    → ℕ
    → (Bool → ℕ → ℕ → Bool)
    → Bool
    → Bool
    → Cache
    → ℕ
    → List ℕ
    → Cache × Option (List Place)
fetch_batch k n_expert ranges fits done c il es =
    if not (ltb il c.n_blk)
    then (c, none)
    else let c' = land_layer c il in
      if not fits
      then (c', none)
      else let (d, o) = batch_all k n_expert ranges (enter il c') es in
        (leave d, if done then o else none)

-- The claim that `prefetch_start` makes.
unfoldable pub claim_sync : Pool → ℕ → ℕ → Pool
claim_sync lp e v = record lp {
  expert_slot = update (without lp.expert_slot (lp.slot_expert v)) e (some v);
  slot_expert = update lp.slot_expert v (some e);
  slot_valid = update lp.slot_valid v false;
  slot_freq = update lp.slot_freq v 1;
}

unfoldable pub claim_one : Config → Cache → ℕ → Cache × List Claim
claim_one k c e = elim (find_slot c.lp e) [
  | some s ↦ (c, [])
  | none ↦
      let (d, v) = choose_victim k c in
      elim v [
        | none ↦ (d, [])
        | some v' ↦ (record d { lp = claim_sync d.lp e v' }, record { expert = e; slot = v' } ∷ [])
      ]
]

unfoldable pub claim_each : Config → Cache → List ℕ → Cache × List Claim
claim_each k c [] = (c, [])
claim_each k c (e ∷ es) =
    let (c', one) = claim_one k c e in let (d, more) = claim_each k c' es in (d, one ++ more)

-- `prefetch_start` on at most 64 experts, whose requests the queue has room for, with `sync_read`'s
-- claims; and `prefetch_finish`, where its reads land.
unfoldable pub prefetch_start : Config → Cache → ℕ → List ℕ → Cache × List Claim
prefetch_start k c il es =
    if ltb il c.n_blk
    then (let (d, claims) = claim_each k (enter il (land_layer c il)) es in (leave d, claims))
    else (c, [])

unfoldable pub mark_valid : Pool → List Claim → Pool
mark_valid lp [] = lp
mark_valid lp (p ∷ ps) = mark_valid (record lp { slot_valid = update lp.slot_valid p.slot true }) ps

unfoldable pub prefetch_finish : Bool → Cache → ℕ → List Claim → Cache
prefetch_finish landed c il claims =
    if landed then record c { blk = update c.blk il (mark_valid (c.blk il) claims) } else c

-- `pin` of one packed key.
abbrev pub pinned_at : (ℕ → Bool) → Option ℕ → ℕ → Bool
pinned_at pinned none = pinned
pinned_at pinned (some s) = update pinned s true

unfoldable pub pin : ℕ → Cache → ℕ → Cache
pin n_expert c key =
    let il = key / 2 ^ 16 in
    let e = key % 2 ^ 16 in
    let lp = c.blk il in
    if ltb il c.n_blk && ltb e n_expert
    then record c {
      blk =
          update c.blk il (record lp { slot_pinned = pinned_at lp.slot_pinned (lp.expert_slot e) });
    }
    else c
