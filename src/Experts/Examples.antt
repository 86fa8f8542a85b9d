-- ===== src/Experts/Examples.antt =====
-- Runs of an expert cache with one layer of four RAM slots and two VRAM slots: a fetch of two experts
-- that misses, a second one that hits and promotes, a full pool, a swap, and speculative reads.
use qw_fnfer_xpu.Base.{
  ℕ, ◌≡◌, refl, Bool, true, false, ◌&&◌, Option, none, some, List, [], ◌∷◌, update, arith,
}
use qw_fnfer_xpu.Experts.Cache.{Config, lru, Pool, Cache, PendingSwap, enter, leave}
use qw_fnfer_xpu.Experts.Victim.{
  xorshift, find_slot, in_flight, score, look, sample, scan, victim_of, choose_victim, would_sample,
  would_promote,
}
use qw_fnfer_xpu.Experts.Victim.Chooses.{Chooses, choose_victim-Chooses}
use qw_fnfer_xpu.Experts.Promote.{
  try_slot, try_slots, accepted, gpu_victim, pop_free, take_slot, idle, ring_take, mark,
  destination, stage, swap_out, displace, upload, install, promote,
}
use qw_fnfer_xpu.Experts.Promote.Installs.{Promotes, promote-Promotes}
use qw_fnfer_xpu.Experts.Kept.{Consistent, Good}
use qw_fnfer_xpu.Experts.Fetch.{
  Handle, vram_slot, touch_gpu, touch_all, list_live, count_use, serve_gpu, claimed, touch, ask,
  want_hot, serve_claimed, served, promote_hit, serve_hit, claim, drop_copy, read_into, find_room,
  serve_miss, serve_ram, serve, serve_all, begin,
}
use qw_fnfer_xpu.Experts.Fetch.Table.{Agrees, vram_table, serve-Agrees}
use qw_fnfer_xpu.Experts.Settle.{
  unindexed, release_slot, in_vram, give_back, outcome, map_slot, place, swap_pool, finish_swap,
  finish_swaps, issue_readbacks, ringed, idle_rings, land_swaps, land_layer, finish_all,
  settle_promotions,
}
use qw_fnfer_xpu.Experts.Settle.Lands.{Landed, resident, swap_pool-Landed}
use qw_fnfer_xpu.Experts.Settle.Keeps.{AllConsistent, Settled, settle_promotions-Settled}
use qw_fnfer_xpu.Experts.Speculative.{
  validated, land_entry, complete, complete_all, reap_round, drifted, reap_rounds, pf_reap,
  needed_pending, settle_for, prefetch_settle_for,
}
use qw_fnfer_xpu.Experts.Speculative.Waits.{prefetch_settle_for-ends}
use qw_fnfer_xpu.Experts.Session.{
  submit, fetch_begin, read_block_now, settle_each, settle_pending, validate_all, fetch_end, fetch,
  prefetch_start, claim_each, claim_one, claim_sync, mark_valid, prefetch_finish,
}
use qw_fnfer_xpu.Experts.Session.Serves.{Fetched, fetch-Fetched}
use qw_fnfer_xpu.Experts.Session.Steps.{begins, ends, settles, done, more, Steps-AllConsistent}

program : Unit {0}
unfolding xorshift find_slot in_flight score look sample scan victim_of choose_victim would_sample
    would_promote try_slot try_slots accepted gpu_victim pop_free take_slot idle ring_take mark
    destination stage swap_out displace upload install promote vram_slot touch_gpu touch_all
    list_live count_use serve_gpu claimed touch ask want_hot serve_claimed served promote_hit
    serve_hit claim drop_copy read_into find_room serve_miss serve_ram serve serve_all begin
    unindexed release_slot in_vram give_back outcome map_slot place swap_pool finish_swap
    finish_swaps issue_readbacks ringed idle_rings land_swaps land_layer finish_all
    settle_promotions resident validated land_entry complete complete_all reap_round drifted
    reap_rounds pf_reap settle_for prefetch_settle_for submit fetch_begin read_block_now settle_each
    settle_pending validate_all fetch_end fetch prefetch_start claim_each claim_one claim_sync
    mark_valid prefetch_finish enter leave AllConsistent
program = tt

abbrev small : Config
small = record {
  evict_samples = 2;
  policy = lru;
  age_every = 65536;
  max_promotions_per_layer = 1;
  has_vram = true;
  has_cold = false;
  exclusive = true;
  can_async = true;
  vram_lru = false;
  d2d = false;
}

abbrev empty_pool : Pool
empty_pool = record {
  n_slots = 4;
  slot_expert = λ s. none;
  slot_valid = λ s. false;
  slot_cold = λ s. false;
  slot_speculative = λ s. false;
  slot_pinned = λ s. false;
  slot_soa = λ s. false;
  free_slots = [];
  slot_freq = λ s. 0;
  ef = λ e. 0;
  slot_used = λ s. 0;
  expert_slot = λ e. none;
  seen = λ e. false;
  hotw = λ e. false;
  g_slots = 2;
  g_lent = false;
  g_slot_expert = λ g. none;
  g_valid = λ g. false;
  g_cold = λ g. false;
  g_freq = λ g. 0;
  g_used = λ g. 0;
  g_used_fetch = λ g. 0;
  g_expert_slot = λ e. none;
  g_ver = 1;
}

abbrev fresh : Cache
fresh = record {
  n_blk = 1;
  blk = λ il. empty_pool;
  layer = 0;
  lp = empty_pool;
  live = [];
  pending = [];
  pending_release = [];
  pending_swaps = [];
  landing = [];
  tick = 0;
  fetch_epoch = 0;
  fetch_count = 0;
  ef_ticks = 0;
  inflight = [];
  pf_pending = [];
  pf_reads_outstanding = 0;
  inflight_layer = 0;
  n_ring = 0;
  ring_busy = λ i. false;
  ring_next = 0;
  last_promote_async = false;
  victim_rng = 0x243F6A8885A308D3;
  would_rng = 0x2545F4914F6CDD1D;
  promote_rng = 0x853C49E6748FEA9B;
  batch_rng = 0x9E3779B97F4A7C15;
  promoted = 0;
  misses = [];
  n_req = 0;
}

empty_pool-Consistent : Consistent empty_pool
empty_pool-Consistent = record {
  ram = λ e s h. ground arith;
  vram = λ e s h. ground arith;
  valid = λ g e h. ground arith;
  has_slot = omega arith;
}

fresh-AllConsistent : AllConsistent fresh
unfolding program
fresh-AllConsistent il = empty_pool-Consistent

abbrev all_ranges : Bool → ℕ → ℕ → Bool
all_ranges cold il e = true

abbrev all_read : ℕ → Bool
all_read e = true

abbrev once : Cache × Option (List Handle)
once = fetch small all_ranges true all_read [] true fresh 0 (3 ∷ 5 ∷ [])

-- The first fetch reads both experts, the second has them and promotes one.
on_ram : Option (List Handle) → List Bool
on_ram none = []
on_ram (some []) = []
on_ram (some (h ∷ hs)) = h.on_gpu ∷ []

first_misses : on_ram once.1 ≡ false ∷ []
unfolding program on_ram
first_misses = refl

second_promotes :
    on_ram (fetch small all_ranges true all_read [] true once.0 0 (3 ∷ 5 ∷ [])).1 ≡ true ∷ []
unfolding program on_ram
second_promotes = refl

fetch-Fetched_example :
    Fetched
      (fetch small all_ranges true all_read [] true fresh 0 (3 ∷ 5 ∷ [])).0
      (3 ∷ 5 ∷ [])
      (fetch small all_ranges true all_read [] true fresh 0 (3 ∷ 5 ∷ [])).1
fetch-Fetched_example =
    fetch-Fetched small all_ranges true all_read [] true fresh 0 (3 ∷ 5 ∷ []) fresh-AllConsistent

abbrev begun : Cache
begun = (fetch_begin small all_ranges true fresh 0 (3 ∷ 5 ∷ [])).0

Steps-AllConsistent_example :
    AllConsistent (settle_promotions small (fetch_end all_read [] true begun).0)
Steps-AllConsistent_example =
    Steps-AllConsistent small 8 fresh (settle_promotions small (fetch_end all_read [] true begun).0)
      (more (fetch_end all_read [] true begun).0
        (settle_promotions small (fetch_end all_read [] true begun).0)
        (more begun (fetch_end all_read [] true begun).0
          (more fresh begun done (begins all_ranges true 0 (3 ∷ 5 ∷ []))) (ends all_read [] true))
        settles)
      fresh-AllConsistent

choose_victim-Chooses_example : Chooses fresh (choose_victim small fresh).1
choose_victim-Chooses_example = choose_victim-Chooses small fresh (omega arith)

-- Expert 3 in RAM slot 1.
abbrev one_resident : Cache
one_resident = record fresh {
  lp = record empty_pool {
    slot_expert = update (λ s. none) 1 (some 3);
    slot_valid = update (λ s. false) 1 true;
    expert_slot = update (λ e. none) 3 (some 1);
  };
}

one_resident-Good : Good one_resident
one_resident-Good = record {
  pool = record {
    ram = λ e s h. ground arith;
    vram = λ e s h. ground arith;
    valid = λ g e h. ground arith;
    has_slot = omega arith;
  };
  current = omega arith;
}

promote-Promotes_example :
    Promotes one_resident
      (promote small one_resident 3 (some 1)).0
      3
      (promote small one_resident 3 (some 1)).1
promote-Promotes_example = promote-Promotes small one_resident 3 (some 1) one_resident-Good

it_promotes : (promote small one_resident 3 (some 1)).1 ≡ true
unfolding program
it_promotes = refl

-- Expert 7 on its way to slot 2, where expert 3 was promoted from slot 1.
abbrev swapping : Pool
swapping = record empty_pool {
  slot_expert = update (update (λ s. none) 1 (some 3)) 2 (some 7);
  slot_valid = update (λ s. false) 1 true;
  expert_slot = update (λ e. none) 3 (some 1);
  g_slot_expert = update (λ g. none) 0 (some 3);
  g_valid = update (λ g. false) 0 true;
  g_expert_slot = update (λ e. none) 3 (some 0);
}

abbrev swap : PendingSwap
swap = record {
  layer = 0;
  promoted = 3;
  from = 1;
  victim = 7;
  to = some 2;
  ring = none;
  issued = false;
  mapped = false;
}

swap_pool-Landed_example : Landed (give_back swapping swap) (swap_pool swapping swap 9) 7 2
swap_pool-Landed_example =
    swap_pool-Landed swapping swap 2 9 refl
      (record { marked = refl; unread = refl; unmapped = λ h. ground arith })

settle_promotions-Settled_example : Settled small (settle_promotions small begun) false
settle_promotions-Settled_example = settle_promotions-Settled small begun (
    Steps-AllConsistent small 8 fresh begun
      (more fresh begun done (begins all_ranges true 0 (3 ∷ 5 ∷ []))) fresh-AllConsistent)

-- Two speculative reads of which one has landed when the engine falls idle.
abbrev reading : Cache
reading = record fresh {
  pf_pending =
      record { layer = 0; expert = 3; slot = 1; remaining = 3 }
      ∷ record { layer = 0; expert = 5; slot = 2; remaining = 1 }
      ∷ [];
  pf_reads_outstanding = 4;
}

prefetch_settle_for-ends_example :
    needed_pending
      (prefetch_settle_for reading 0 (3 ∷ []) ((1 ∷ []) ∷ (0 ∷ 0 ∷ []) ∷ [])).0.pf_pending
      0
      (3 ∷ [])
    ≡ false
prefetch_settle_for-ends_example =
    prefetch_settle_for-ends reading 0 (3 ∷ []) ((1 ∷ []) ∷ (0 ∷ 0 ∷ []) ∷ [])

-- A slot that held a block of the cold checkpoint still counts as cold when `prefetch_start` has given
-- it to another expert and the block, at full precision, has landed.
abbrev cold_slots : Cache
cold_slots = record fresh { blk = λ il. record empty_pool { slot_cold = λ s. true } }

abbrev restored : Cache
restored =
    let (d, claims) = prefetch_start small cold_slots 0 (3 ∷ []) in prefetch_finish true d 0 claims

abbrev cold_at : Pool → Option ℕ → Bool
cold_at lp none = false
cold_at lp (some s) = lp.slot_cold s && lp.slot_valid s

restored_still_cold : cold_at (restored.blk 0) (find_slot (restored.blk 0) 3) ≡ true
unfolding program
restored_still_cold = refl

serve-Agrees_example :
    Agrees
      (vram_table small one_resident.lp 8 3)
      (serve small all_ranges (begin small one_resident (3 ∷ [])) 3).1
serve-Agrees_example = serve-Agrees small all_ranges one_resident (3 ∷ []) 8 3 (omega arith)
