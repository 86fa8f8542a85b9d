-- ===== src/Experts/Settle.antt =====
-- The settling of promotions: `release_slot`, `finish_swap`, `issue_readbacks`, `land_swaps` and
-- `settle_promotions`. The device queues are synchronised where the code says so; the model keeps the
-- bookkeeping, which follows the bytes. Swaps name their layer, so these work on `blk`.
use qw_fnfer_xpu.Base.{
  ℕ, suc, max, Bool, true, false, not, ◌&&◌, ◌||◌, Option, none, some, List, [], ◌∷◌, ◌++◌, length,
  ltb, ◌==◌, if◌then◌else◌, update,
}
use qw_fnfer_xpu.Experts.Cache.{Config, Pool, Cache, PendingSwap, is_some, holds}
pub mod Lands
pub mod Keeps

unfoldable pub unindexed : (ℕ → Option ℕ) → Option ℕ → ℕ → ℕ → Option ℕ
unindexed index none s = index
unindexed index (some e) s = if holds (index e) s then update index e none else index

unfoldable pub release_slot : Pool → ℕ → Pool
release_slot lp s = record lp {
  expert_slot = unindexed lp.expert_slot (lp.slot_expert s) s;
  slot_expert = update lp.slot_expert s none;
  slot_valid = update lp.slot_valid s false;
  slot_speculative = update lp.slot_speculative s false;
  slot_freq = update lp.slot_freq s 0;
  slot_soa = update lp.slot_soa s false;
  slot_pinned = update lp.slot_pinned s false;
  free_slots = if ltb (length lp.free_slots) lp.n_slots then s ∷ lp.free_slots else lp.free_slots;
}

unfoldable pub in_vram : Pool → ℕ → Bool
in_vram lp e = elim (lp.g_expert_slot e) [
  | none ↦ false
  | some g ↦ lp.g_valid g && holds (lp.g_slot_expert g) e
]

-- The slot that the promoted block came from is released while the block is in the VRAM tier.
unfoldable pub give_back : Pool → PendingSwap → Pool
give_back lp sw =
    if holds (lp.slot_expert sw.from) sw.promoted
      && (holds (lp.expert_slot sw.promoted) sw.from && in_vram lp sw.promoted)
    then release_slot lp sw.from
    else lp

-- What becomes of the displaced block: it has no slot, its slot is no longer its own, it is already
-- resident elsewhere, or its slot is mapped.
pub data Outcome : Type 0 where
  unplaced : Outcome
  stray : Outcome
  surplus : ℕ → Outcome
  mapped_to : ℕ → Outcome

unfoldable pub outcome : Pool → PendingSwap → Option ℕ → Outcome
outcome lp sw none = unplaced
outcome lp sw (some t) =
    if not (holds (lp.slot_expert t) sw.victim) || lp.slot_valid t
    then stray
    else if is_some (lp.expert_slot sw.victim) || in_vram lp sw.victim
    then surplus t
    else mapped_to t

unfoldable pub map_slot : Pool → ℕ → ℕ → ℕ → Pool
map_slot lp v t tick = record lp {
  expert_slot = update lp.expert_slot v (some t);
  slot_valid = update lp.slot_valid t true;
  slot_cold = update lp.slot_cold t false;
  slot_speculative = update lp.slot_speculative t false;
  slot_soa = update lp.slot_soa t true;
  slot_freq = update lp.slot_freq t (max 1 (lp.ef v));
  slot_used = update lp.slot_used t tick;
}

unfoldable pub place : Pool → ℕ → ℕ → Outcome → Pool
place lp v tick unplaced = lp
place lp v tick stray = lp
place lp v tick (surplus t) = release_slot lp t
place lp v tick (mapped_to t) = map_slot lp v t tick

abbrev is_dropped : Outcome → Bool
is_dropped unplaced = false
is_dropped stray = true
is_dropped (surplus t) = true
is_dropped (mapped_to t) = false

abbrev is_mapped : Outcome → Bool
is_mapped unplaced = false
is_mapped stray = false
is_mapped (surplus t) = false
is_mapped (mapped_to t) = true

abbrev idled : (ℕ → Bool) → Option ℕ → ℕ → Bool
idled busy none = busy
idled busy (some i) = update busy i false

unfoldable pub swap_pool : Pool → PendingSwap → ℕ → Pool
swap_pool lp sw tick = let lp' = give_back lp sw in place lp' sw.victim tick (outcome lp' sw sw.to)

unfoldable pub finish_swap : Cache → PendingSwap → Cache × PendingSwap
finish_swap c sw =
    let o = outcome (give_back (c.blk sw.layer) sw) sw sw.to in
    (
      record c {
        blk = update c.blk sw.layer (swap_pool (c.blk sw.layer) sw (suc c.tick));
        tick = if is_mapped o then suc c.tick else c.tick;
        ring_busy = if is_dropped o then idled c.ring_busy sw.ring else c.ring_busy;
      },
      record sw {
        ring = if is_dropped o then none else sw.ring;
        mapped = is_mapped o || sw.mapped;
      },
    )

unfoldable pub finish_swaps : Cache → List PendingSwap → Cache × List PendingSwap
finish_swaps c [] = (c, [])
finish_swaps c (sw ∷ sws) =
    let (c', sw') = finish_swap c sw in let (d, rest) = finish_swaps c' sws in (d, sw' ∷ rest)

unfoldable pub issue_readbacks : Config → List PendingSwap → List PendingSwap
issue_readbacks k [] = []
issue_readbacks k (sw ∷ sws) =
    record sw { issued = sw.issued || (k.d2d && is_some sw.ring) } ∷ issue_readbacks k sws

unfoldable pub ringed : List PendingSwap → List PendingSwap
ringed [] = []
ringed (sw ∷ sws) = let rest = ringed sws in if is_some sw.ring then sw ∷ rest else rest

unfoldable pub idle_rings : (ℕ → Bool) → List PendingSwap → ℕ → Bool
idle_rings busy [] = busy
idle_rings busy (sw ∷ sws) = idle_rings (idled busy sw.ring) sws

unfoldable pub land_swaps : Cache → Cache
land_swaps c = record c { ring_busy = idle_rings c.ring_busy c.landing; landing = [] }

abbrev pub lands_on : List PendingSwap → ℕ → Bool
lands_on [] il = false
lands_on (sw ∷ sws) il = (sw.layer == il) || lands_on sws il

unfoldable pub land_layer : Cache → ℕ → Cache
land_layer c il = if lands_on c.landing il then land_swaps c else c

abbrev pub is_nil {ℓ} : {A : Type ℓ} → List A → Bool
is_nil [] = true
is_nil (x ∷ xs) = false

-- Every pending swap is finished; those with a staged copy go on to `landing`.
unfoldable pub finish_all : Config → Cache → Cache
finish_all k c =
    let (d, sws) = finish_swaps c c.pending_swaps in
    record d { landing = d.landing ++ ringed (issue_readbacks k sws); pending_swaps = [] }

unfoldable pub settle_promotions : Config → Cache → Cache
settle_promotions k c =
    if is_nil c.pending_release && (is_nil c.pending_swaps && is_nil c.landing)
    then c
    else record (land_swaps (finish_all k c)) { pending_release = [] }

unfoldable pub settle_promotions_layer : Config → Cache → Cache
settle_promotions_layer k c =
    if not k.d2d
    then settle_promotions k c
    else if is_nil c.pending_release && (is_nil c.pending_swaps && is_nil c.landing)
    then c
    else finish_all k (land_swaps (record c { pending_release = [] }))
