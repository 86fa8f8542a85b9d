-- ===== src/Experts/Cache.antt =====
-- The state of `expert_cache` (src/qwfn_expert_cache.h): the slots of a layer's RAM pool and of its
-- VRAM tier, and the bookkeeping of the fetch in progress. Byte copies, layouts, statistics and
-- timings are left out. The pool of the layer that an operation works on is the field `lp`, taken from
-- `blk` by `enter` and returned by `leave`. A slot without an expert (SLOT_EMPTY) is none, and so is
-- an index -1. Expert ids stay below 0xFFFF, so that their conversion to uint16_t keeps them.
-- Vectors are functions of the index; `free_slots` has its back first.
use qw_fnfer_xpu.Base.{
  ℕ, ◌≡◌, Bool, true, false, ◌&&◌, ◌||◌, Option, none, some, List, [], ◌∷◌, ◌==◌, update,
}

pub data EvictPolicy : Type 0 where
  lru : EvictPolicy
  lfu : EvictPolicy
  hybrid : EvictPolicy

-- `config`, and the switches that stay fixed while the program runs: whether a VRAM tier and a cold
-- checkpoint exist, whether the tiers are exclusive, whether promotions are asynchronous (the setting,
-- a backend and a pinned arena), QWFN_VRAM_LRU and QWFN_PROMOTE_D2D.
pub record Config : Type 0 where
  pub evict_samples : ℕ
  pub policy : EvictPolicy
  pub age_every : ℕ
  pub max_promotions_per_layer : ℕ
  pub has_vram : Bool
  pub has_cold : Bool
  pub exclusive : Bool
  pub can_async : Bool
  pub vram_lru : Bool
  pub d2d : Bool

pub record Pool : Type 0 where
  pub n_slots : ℕ
  pub slot_expert : ℕ → Option ℕ
  pub slot_valid : ℕ → Bool
  pub slot_cold : ℕ → Bool
  pub slot_speculative : ℕ → Bool
  pub slot_pinned : ℕ → Bool
  pub slot_soa : ℕ → Bool
  pub free_slots : List ℕ
  pub slot_freq : ℕ → ℕ
  pub ef : ℕ → ℕ
  pub slot_used : ℕ → ℕ
  pub expert_slot : ℕ → Option ℕ
  pub seen : ℕ → Bool
  pub hotw : ℕ → Bool
  pub g_slots : ℕ
  pub g_lent : Bool
  pub g_slot_expert : ℕ → Option ℕ
  pub g_valid : ℕ → Bool
  pub g_cold : ℕ → Bool
  pub g_freq : ℕ → ℕ
  pub g_used : ℕ → ℕ
  pub g_used_fetch : ℕ → ℕ
  pub g_expert_slot : ℕ → Option ℕ
  pub g_ver : ℕ

-- `pending_spec`, and the expert and the slot of a demand read.
pub record Claim : Type 0 where
  pub expert : ℕ
  pub slot : ℕ

-- A speculative read: how many of its requests have not landed.
pub record PfEntry : Type 0 where
  pub layer : ℕ
  pub expert : ℕ
  pub slot : ℕ
  pub remaining : ℕ

pub record PendingRel : Type 0 where
  pub layer : ℕ
  pub expert : ℕ
  pub slot : ℕ

pub record PendingSwap : Type 0 where
  pub layer : ℕ
  pub promoted : ℕ
  pub from : ℕ
  pub victim : ℕ
  pub to : Option ℕ
  pub ring : Option ℕ
  pub issued : Bool
  pub mapped : Bool

-- The fields of `expert_cache`; the states of the four generators of samples, which are static in the
-- functions that draw from them; and, last, locals of a call: of
-- `fetch_begin` the promotions so far and the misses (`miss_slot`, `miss_expert`), of `prefetch_begin`
-- the number of requests.
pub record Cache : Type 0 where
  pub n_blk : ℕ
  pub blk : ℕ → Pool
  pub layer : ℕ
  pub lp : Pool
  pub live : List ℕ
  pub pending : List Claim
  pub pending_release : List PendingRel
  pub pending_swaps : List PendingSwap
  pub landing : List PendingSwap
  pub tick : ℕ
  pub fetch_epoch : ℕ
  pub fetch_count : ℕ
  pub ef_ticks : ℕ
  pub inflight : List Claim
  pub pf_pending : List PfEntry
  pub pf_reads_outstanding : ℕ
  pub inflight_layer : ℕ
  pub n_ring : ℕ
  pub ring_busy : ℕ → Bool
  pub ring_next : ℕ
  pub last_promote_async : Bool
  pub victim_rng : ℕ
  pub would_rng : ℕ
  pub promote_rng : ℕ
  pub batch_rng : ℕ
  pub promoted : ℕ
  pub misses : List Claim
  pub n_req : ℕ

unfoldable pub enter : ℕ → Cache → Cache
enter il c = record c { layer = il; lp = c.blk il }

unfoldable pub leave : Cache → Cache
leave c = record c { blk = update c.blk c.layer c.lp }

abbrev pub is_some {ℓ} : {A : Type ℓ} → Option A → Bool
is_some none = false
is_some (some x) = true

-- The comparison of a slot's expert, or of an expert's slot, with a number.
abbrev pub holds : Option ℕ → ℕ → Bool
holds none e = false
holds (some x) e = x == e

abbrev pub elem : ℕ → List ℕ → Bool
elem x [] = false
elem x (y ∷ ys) = (y == x) || elem x ys

-- An expert as the code stores it, SLOT_EMPTY where there is none.
abbrev pub stored : Option ℕ → ℕ
stored none = 0xFFFF
stored (some e) = e

-- `index[other] = -1` for the expert `other` of a slot, where it has one.
abbrev pub without : (ℕ → Option ℕ) → Option ℕ → ℕ → Option ℕ
without index none = index
without index (some other) = update index other none

-- An index from names to places and the names that the places hold agree.
abbrev pub Named : (ℕ → Option ℕ) → (ℕ → Option ℕ) → Type 0
Named index holder = (e s : ℕ) → index e ≡ some s → holder s ≡ some e

-- A claim on a slot for an expert stands in a list of them.
abbrev pub lists : List Claim → ℕ → ℕ → Bool
lists [] e s = false
lists (x ∷ xs) e s = ((x.expert == e) && (x.slot == s)) || lists xs e s

-- The expert waits for a read into the slot, of this fetch or a speculative one.
abbrev pub asked : Cache → ℕ → ℕ → Bool
asked c e s = lists c.misses e s || lists c.pending e s
