-- ===== src/Experts/Victim.antt =====
-- `find_slot`, `choose_victim` and `would_promote`: the lookup in the RAM tier and the two choices by
-- sampling, each with a generator of its own.
pub mod Chooses
use qw_fnfer_xpu.Base.{
  ℕ, zero, suc, ◌+◌, ◌-◌, ◌*◌, ◌/◌, ◌%◌, ◌^◌, ◌<◌, ◌≤◌, ◌≡◌, refl, subst, ◌⊎◌, inl, inr, Bool, true,
  false, not, ◌&&◌, ◌||◌, Option, none, some, List, [], ◌∷◌, ltb, leb, ◌==◌, if◌then◌else◌, update,
  min, Bool-cases, Option-cases, arith,
}
use Prim.Native.Nat.{bit_xor}
use qw_fnfer_xpu.Experts.Cache.{
  Config, lru, lfu, hybrid, Pool, Cache, PendingRel, is_some, holds, elem,
}
use native.Mathlib.Nat.{mod-lt}

unfoldable pub xorshift : ℕ → ℕ
xorshift s =
    let a = bit_xor s ((s * 2 ^ 13) % 2 ^ 64) in
    let b = bit_xor a (a / 2 ^ 7) in bit_xor b ((b * 2 ^ 17) % 2 ^ 64)

unfoldable pub find_slot : Pool → ℕ → Option ℕ
find_slot lp e = elim (lp.expert_slot e) [
  | none ↦ none
  | some s ↦ if holds (lp.slot_expert s) e && lp.slot_valid s then some s else none
]

abbrev pub awaits : ℕ → ℕ → List PendingRel → Bool
awaits il s [] = false
awaits il s (r ∷ rs) = ((r.slot == s) && (r.layer == il)) || awaits il s rs

-- A read into the slot is in flight, the fetch in progress has handed it out, or a promotion may still
-- be reading it.
unfoldable pub in_flight : Cache → ℕ → Bool
in_flight c s =
    (is_some (c.lp.slot_expert s) && not (c.lp.slot_valid s))
    || (elem s c.live || awaits c.layer s c.pending_release)

unfoldable pub score : Config → Pool → ℕ → ℕ → ℕ
score k lp s e = elim k.policy [
  | lfu ↦ lp.ef e
  | hybrid ↦ (lp.ef e * 4 + lp.slot_used s / 16) % 2 ^ 64
  | lru ↦ lp.slot_used s
]

-- The best slot so far and its score; and how the loop over the samples goes on from one.
pub record Best : Type 0 where
  pub slot : Option ℕ
  pub score : ℕ

pub data Look : Type 0 where
  found : ℕ → Look
  next : Best → Look

unfoldable pub look : Config → Cache → ℕ → Best → Look
look k c s b = if c.lp.slot_pinned s || in_flight c s then next b else elim (c.lp.slot_expert s) [
  | none ↦ found s
  | some e ↦
      let sc = score k c.lp s e in
      next (if ltb sc b.score then record { slot = some s; score = sc } else b)
]

unfoldable pub sample : Config → Cache → ℕ → ℕ → Best → ℕ × Option ℕ
sample k c zero rng b = (rng, b.slot)
sample k c (suc n) rng b =
    let rng' = xorshift rng in
    let s = rng' % c.lp.n_slots in
    elim (look k c s b) [ found s' ↦ (rng', some s') | next b' ↦ sample k c n rng' b' ]

unfoldable pub scan : Cache → ℕ → ℕ → Option ℕ
scan c zero s = none
scan c (suc n) s =
    let rest = scan c n (suc s) in
    if not (c.lp.slot_pinned s) && not (in_flight c s) then some s else rest

unfoldable pub victim_of : Config → Cache → Option ℕ
victim_of k c =
    elim (sample k c k.evict_samples c.victim_rng (record { slot = none; score = 2 ^ 64 - 1 })).1 [
      | some s ↦ some s
      | none ↦ scan c c.lp.n_slots 0
    ]

abbrev cleared : (ℕ → Bool) → Option ℕ → ℕ → Bool
cleared soa none = soa
cleared soa (some v) = update soa v false

unfoldable pub choose_victim : Config → Cache → Cache × Option ℕ
choose_victim k c =
    let v = victim_of k c in
    (
      record c {
        victim_rng =
            (sample k c k.evict_samples c.victim_rng
              (record { slot = none; score = 2 ^ 64 - 1 })).0;
        lp = record c.lp { slot_soa = cleared c.lp.slot_soa v };
      },
      v,
    )

-- `vram_buf_ && lp.g_slots > 0 && !lp.g_lent`.
abbrev pub vram_open : Config → Pool → Bool
vram_open k lp = k.has_vram && (ltb 0 lp.g_slots && not lp.g_lent)

-- How many fetches ago the VRAM slot was used, as uint64_t has it.
abbrev pub unused_for : Cache → ℕ → ℕ
unused_for c g = ((2 ^ 64 + c.fetch_count) - c.lp.g_used_fetch g) % 2 ^ 64

-- The loop of `would_promote` on its samples, with `worst` and `any`: the generator and the answer.
unfoldable pub would_sample : Config → Cache → ℕ → ℕ → ℕ → ℕ → Bool → ℕ × Bool
would_sample k c e zero rng worst any = (rng, any && ltb worst (c.lp.ef e))
would_sample k c e (suc n) rng worst any =
    let rng' = xorshift rng in
    let s = rng' % c.lp.g_slots in
    elim (c.lp.g_slot_expert s) [
      | none ↦ (rng', true)
      | some x ↦
          let fresh = leb c.fetch_epoch (c.lp.g_used s) in
          elim (not fresh && (k.vram_lru || ltb (48 * 24) (unused_for c s))) [
            | true ↦ (rng', true)
            | false ↦
                would_sample k c e n rng' (if fresh then worst else min worst (c.lp.ef x))
                  (any || not fresh)
          ]
    ]

unfoldable pub would_promote : Config → Cache → ℕ → Cache × Bool
would_promote k c e =
    let (rng, would) = would_sample k c e 16 c.would_rng (2 ^ 32 - 1) false in
    let open_ = vram_open k c.lp in
    (record c { would_rng = if open_ then rng else c.would_rng }, open_ && would)

pub would_promote-vram_open :
    (k : Config) (c : Cache) (e : ℕ) → (would_promote k c e).1 ≡ true → vram_open k c.lp ≡ true
unfolding would_promote
would_promote-vram_open k c e h = elim (Bool-cases (vram_open k c.lp)) [
  | inl o ↦ o
  | inr shut ↦ ground arith
]
