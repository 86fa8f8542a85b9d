-- ===== src/Experts/Promote.antt =====
-- `promote` and `ring_take`: a block of the RAM tier goes to the VRAM tier, and the block that makes
-- room there goes, where the tiers are exclusive, to a slot of the RAM tier.
pub mod Keeps
pub mod Installs
use qw_fnfer_xpu.Base.{
  ℕ, zero, suc, ◌+◌, ◌-◌, ◌*◌, ◌%◌, ◌^◌, Bool, true, false, not, ◌&&◌, ◌||◌, Option, none, some,
  List, [], ◌∷◌, ◌++◌, ltb, leb, ◌==◌, if◌then◌else◌, update,
}
use qw_fnfer_xpu.Experts.Cache.{Config, Pool, Cache, PendingSwap, is_some, stored, without}
use qw_fnfer_xpu.Experts.Victim.{xorshift, vram_open, unused_for, choose_victim}

-- The locals of the loop over the samples; and whether the loop is left with them.
pub record Pick : Type 0 where
  pub victim : Option ℕ
  pub stale : Option ℕ
  pub oldest : ℕ
  pub stale_oldest : ℕ
  pub worst : ℕ

pub data Tried : Type 0 where
  settled : Pick → Tried
  onward : Pick → Tried

unfoldable pub try_slot : Config → Cache → ℕ → Pick → Tried
try_slot k c g p = elim (c.lp.g_slot_expert g) [
  | none ↦ settled (record p { victim = some g; stale = none })
  | some x ↦
      let older = ltb (c.lp.g_used g) p.oldest in
      let late = ltb (48 * 24) (unused_for c g) && ltb (c.lp.g_used_fetch g) p.stale_oldest in
      let rarer = ltb (c.lp.ef x) p.worst in
      onward (
        if leb c.fetch_epoch (c.lp.g_used g)
        then p
        else if k.vram_lru
        then record p {
          oldest = if older then c.lp.g_used g else p.oldest;
          victim = if older then some g else p.victim;
        }
        else record p {
          stale_oldest = if late then c.lp.g_used_fetch g else p.stale_oldest;
          stale = if late then some g else p.stale;
          worst = if rarer then c.lp.ef x else p.worst;
          victim = if rarer then some g else p.victim;
        })
]

unfoldable pub try_slots : Config → Cache → ℕ → ℕ → Pick → ℕ × Pick
try_slots k c zero rng p = (rng, p)
try_slots k c (suc n) rng p =
    let rng' = xorshift rng in
    elim (try_slot k c (rng' % c.lp.g_slots) p) [
      | settled q ↦ (rng', q)
      | onward q ↦ try_slots k c n rng' q
    ]

abbrev pub no_pick : Pick
no_pick = record {
  victim = none;
  stale = none;
  oldest = 2 ^ 64 - 1;
  stale_oldest = 2 ^ 64 - 1;
  worst = 2 ^ 32 - 1;
}

-- The slot that a pick settles on: the stale one, else the victim, unless its expert is used as much.
unfoldable pub accepted : Config → Cache → ℕ → Pick → Option ℕ
accepted k c e p = elim p.stale [
  | some g ↦ some g
  | none ↦ elim p.victim [
    | none ↦ none
    | some g ↦
        if not k.vram_lru && (is_some (c.lp.g_slot_expert g) && leb (c.lp.ef e) p.worst)
        then none
        else some g
  ]
]

unfoldable pub gpu_victim : Config → Cache → ℕ → Option ℕ
gpu_victim k c e = accepted k c e (try_slots k c 16 c.promote_rng no_pick).1

-- The first free slot from the back; a stale entry is dropped with those after it.
unfoldable pub pop_free : Pool → List ℕ → List ℕ × Option ℕ
pop_free lp [] = ([], none)
pop_free lp (f ∷ fs) = elim (not (is_some (lp.slot_expert f)) && not (lp.slot_pinned f)) [
  | true ↦ (fs, some f)
  | false ↦ pop_free lp fs
]

-- Where a displaced block may land: a free slot, else the slot of a victim.
unfoldable pub take_slot : Config → Cache → ℕ → Cache × Option ℕ
take_slot k c ram_slot =
    let (free, f) = pop_free c.lp c.lp.free_slots in
    let (chosen, v) = choose_victim k c in
    (
      record c {
        victim_rng = if is_some f then c.victim_rng else chosen.victim_rng;
        lp = record c.lp {
          free_slots = free;
          slot_soa = if is_some f then c.lp.slot_soa else chosen.lp.slot_soa;
        };
      },
      elim f [
        | some t ↦ some t
        | none ↦ elim v [ some t ↦ if t == ram_slot then none else some t | none ↦ none ]
      ],
    )

-- The first idle entry of the ring from `i` on.
unfoldable pub idle : Cache → ℕ → ℕ → Option ℕ
idle c zero k = none
idle c (suc n) k =
    let rest = idle c n (suc k) in
    let i = (c.ring_next + k) % c.n_ring in if c.ring_busy i then rest else some i

unfoldable pub ring_take : Cache → Cache × Option ℕ
ring_take c =
    let i = idle c c.n_ring 0 in
    (
      record c {
        ring_busy = elim i [ none ↦ c.ring_busy | some i' ↦ update c.ring_busy i' true ];
        ring_next = elim i [ none ↦ c.ring_next | some i' ↦ suc i' ];
      },
      i,
    )

-- The slot that a displaced block lands in is taken from its expert, and marked in flight.
unfoldable pub mark : Pool → Option ℕ → Option ℕ → Pool
mark lp x none = lp
mark lp x (some t) = record lp {
  expert_slot = without lp.expert_slot (lp.slot_expert t);
  slot_expert = update lp.slot_expert t x;
  slot_valid = update lp.slot_valid t false;
  slot_cold = update lp.slot_cold t false;
  slot_speculative = update lp.slot_speculative t false;
  slot_soa = update lp.slot_soa t false;
}

unfoldable pub destination : Config → Cache → ℕ → ℕ → Cache × Option ℕ
destination k c ram_slot g =
    if is_some (c.lp.g_slot_expert g) && not (c.lp.g_cold g)
    then take_slot k c ram_slot
    else (c, none)

unfoldable pub stage : Config → Cache → Option ℕ → Cache × Option ℕ
stage k c to = if is_some to && k.d2d then ring_take c else (c, none)

unfoldable pub swap_out : Config → Cache → ℕ → ℕ → ℕ → Cache
swap_out k c e ram_slot g =
    let (c', to) = destination k c ram_slot g in
    let (c'', ring) = stage k c' to in
    record c'' {
      lp = mark c''.lp (c.lp.g_slot_expert g) to;
      pending_swaps =
          c''.pending_swaps
          ++ (record {
            layer = c''.layer;
            promoted = e;
            from = ram_slot;
            victim = stored (c.lp.g_slot_expert g);
            to = to;
            ring = ring;
            issued = false;
            mapped = false;
          }
              ∷ []);
    }

unfoldable pub displace : Config → Cache → ℕ → Cache
displace k c g = record c {
  last_promote_async = k.can_async;
  lp = record c.lp { g_expert_slot = without c.lp.g_expert_slot (c.lp.g_slot_expert g) };
}

unfoldable pub upload : Cache → ℕ → ℕ → Cache
upload c e g = record c {
  lp = record c.lp {
    g_slot_expert = update c.lp.g_slot_expert g (some e);
    g_valid = update c.lp.g_valid g true;
    g_cold = update c.lp.g_cold g false;
    g_freq = update c.lp.g_freq g (c.lp.ef e);
    g_used = update c.lp.g_used g c.tick;
    g_used_fetch = update c.lp.g_used_fetch g c.fetch_count;
    g_expert_slot = update c.lp.g_expert_slot e (some g);
    g_ver = suc c.lp.g_ver;
  };
}

abbrev pub from_cold : Pool → ℕ → Bool
from_cold lp e = elim (lp.expert_slot e) [ none ↦ false | some s ↦ lp.slot_cold s ]

-- The whole of `promote` once it has sampled.
unfoldable pub install : Config → Cache → ℕ → ℕ → Option ℕ → Cache × Bool
install k c e ram_slot none = (c, false)
install k c e ram_slot (some g) =
    let c' = displace k c g in
    (upload (if k.exclusive && k.can_async then swap_out k c' e ram_slot g else c') e g, true)

unfoldable pub promote : Config → Cache → ℕ → Option ℕ → Cache × Bool
promote k c e none = (c, false)
promote k c e (some ram_slot) =
    if not (vram_open k c.lp) || from_cold c.lp e
    then (c, false)
    else install k (record c { promote_rng = (try_slots k c 16 c.promote_rng no_pick).0 }) e
        ram_slot (gpu_victim k c e)
