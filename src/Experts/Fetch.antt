-- ===== src/Experts/Fetch.antt =====
-- `fetch_begin`: the experts of one token, looked up in the VRAM tier, in the RAM tier and, where they
-- are in neither, given a slot that a read will fill. The model files' byte ranges and the io engines
-- are parameters: whether an expert's three ranges are valid in the cold or the full checkpoint, and
-- whether the requests could be submitted. The arrays of requests are named by the misses they serve.
pub mod Right
pub mod Lookups
pub mod Handlers
pub mod Hits
pub mod Misses
pub mod Serves
pub mod Table
use qw_fnfer_xpu.Base.{
  ℕ, suc, ◌+◌, ◌%◌, ◌^◌, ◌/◌, Bool, true, false, not, ◌&&◌, ◌||◌, Option, none, some, List, [], ◌∷◌,
  ◌++◌, ltb, leb, ◌==◌, if◌then◌else◌, update,
}
use qw_fnfer_xpu.Experts.Cache.{
  Config, Pool, Cache, Claim, PendingRel, is_some, holds, without, enter, leave,
}
use qw_fnfer_xpu.Experts.Victim.{find_slot, choose_victim, vram_open, would_promote}
use qw_fnfer_xpu.Experts.Promote.{promote}

-- `expert_handle`, less its addresses: on which tier, in which slot, whether a promotion has just put
-- it there (`late`) or its bytes are from the cold checkpoint; and the entry of `ready`.
pub record Handle : Type 0 where
  pub on_gpu : Bool
  pub slot : ℕ
  pub late : Bool
  pub cold : Bool
  pub is_ready : Bool

-- The slot of a resident of the VRAM tier, as the lookups test it.
unfoldable pub vram_slot : Config → Pool → ℕ → Option ℕ
vram_slot k lp e =
    if vram_open k lp
    then elim (lp.g_expert_slot e) [
      | none ↦ none
      | some g ↦ if lp.g_valid g && holds (lp.g_slot_expert g) e then some g else none
    ]
    else none

unfoldable pub touch_gpu : Cache → ℕ → Cache
touch_gpu c g = record c {
  lp = record c.lp {
    g_used = update c.lp.g_used g c.tick;
    g_used_fetch = update c.lp.g_used_fetch g c.fetch_count;
  };
}

-- The first loop: the token's residents of the VRAM tier are in use.
unfoldable pub touch_all : Config → Cache → List ℕ → Cache
touch_all k c [] = c
touch_all k c (e ∷ es) = elim (vram_slot k c.lp e) [
  | none ↦ touch_all k c es
  | some g ↦ touch_all k (touch_gpu c g) es
]

-- The second: the token's slots of the RAM tier are live.
unfoldable pub list_live : Cache → List ℕ → Cache
list_live c [] = c
list_live c (e ∷ es) = elim (c.lp.expert_slot e) [
  | none ↦ list_live c es
  | some s ↦
      list_live (if holds (c.lp.slot_expert s) e then record c { live = s ∷ c.live } else c) es
]

abbrev pub halved : Pool → Pool
halved lp = record lp { ef = λ e. lp.ef e / 2 }

-- The count of a use, and the halving of every count each `age_every` uses.
unfoldable pub count_use : Config → Cache → ℕ → Cache
count_use k c e =
    let lp = record c.lp { ef = update c.lp.ef e ((c.lp.ef e + 1) % 2 ^ 32) } in
    let t = suc c.ef_ticks in
    let old = leb k.age_every t in
    record c {
      ef_ticks = if old then 0 else t;
      lp = record lp { ef = if old then (halved lp).ef else lp.ef };
      blk = λ il. if old then halved (c.blk il) else c.blk il;
    }

unfoldable pub serve_gpu : Cache → ℕ → Cache × Option Handle
serve_gpu c g =
    let c' = touch_gpu c g in
    (
      record c' {
        lp = record c'.lp { g_freq = update c'.lp.g_freq g ((c'.lp.g_freq g + 1) % 2 ^ 32) };
      },
      some (record { on_gpu = true; slot = g; late = false; cold = false; is_ready = true }),
    )

-- The slot of an expert whose read has not landed.
unfoldable pub claimed : Pool → ℕ → Option ℕ
claimed lp e = elim (lp.expert_slot e) [
  | none ↦ none
  | some s ↦ if holds (lp.slot_expert s) e && not (lp.slot_valid s) then some s else none
]

-- A use of a slot of the RAM tier.
unfoldable pub touch : Cache → ℕ → Cache
touch c s = record c {
  tick = suc c.tick;
  live = s ∷ c.live;
  lp = record c.lp {
    slot_freq = update c.lp.slot_freq s ((c.lp.slot_freq s + 1) % 2 ^ 32);
    slot_used = update c.lp.slot_used s (suc c.tick);
    slot_speculative = update c.lp.slot_speculative s false;
  };
}

-- `would_promote`, asked where a condition holds.
unfoldable pub ask : Config → Cache → ℕ → Bool → Cache × Bool
ask k c e b = if b then would_promote k c e else (c, false)

unfoldable pub want_hot : Cache → ℕ → Bool → Cache
want_hot c e b = record c {
  lp = record c.lp { hotw = if b then update c.lp.hotw e true else c.lp.hotw };
}

unfoldable pub serve_claimed : Config → Cache → ℕ → ℕ → Cache × Option Handle
serve_claimed k c e s =
    let (c', would) = ask k c e (c.lp.slot_cold s && not (c.lp.hotw e)) in
    let c'' = touch (want_hot c' e would) s in
    (
      record c'' { pending = c''.pending ++ (record { expert = e; slot = s } ∷ []) },
      some (record {
        on_gpu = false;
        slot = s;
        late = false;
        cold = c''.lp.slot_cold s;
        is_ready = false;
      }),
    )

-- A hit of the RAM tier, promoted where the layer's quota allows it.
unfoldable pub served : Cache → ℕ → ℕ → Bool → Option ℕ → Cache × Option Handle
served c e s cold none = (
  record c { lp = record c.lp { slot_soa = update c.lp.slot_soa s false } },
  some (record { on_gpu = false; slot = s; late = false; cold = cold; is_ready = true }),
)
served c e s cold (some g) = (
  record c {
    pending_release =
        if c.last_promote_async
        then record { layer = c.layer; expert = e; slot = s } ∷ c.pending_release
        else c.pending_release;
  },
  some (record { on_gpu = true; slot = g; late = true; cold = false; is_ready = true }),
)

unfoldable pub promote_hit : Config → Cache → ℕ → ℕ → Cache × Bool
promote_hit k c e s =
    if ltb c.promoted k.max_promotions_per_layer then promote k c e (some s) else (c, false)

unfoldable pub serve_hit : Config → Cache → ℕ → ℕ → Cache × Option Handle
serve_hit k c e s =
    let (c', ok) = promote_hit k (touch c s) e s in
    served (record c' { promoted = if ok then suc c'.promoted else c'.promoted }) e s
      ((touch c s).lp.slot_cold s) (if ok then c'.lp.g_expert_slot e else none)

-- The slot `v` is given to `e`, and a read into it begins.
unfoldable pub claim : Pool → ℕ → ℕ → Bool → Bool → ℕ → Pool
claim lp e v upgrade cold tick = record lp {
  expert_slot =
      update (if upgrade then lp.expert_slot else without lp.expert_slot (lp.slot_expert v)) e
        (some v);
  slot_expert = update lp.slot_expert v (some e);
  slot_valid = update lp.slot_valid v false;
  slot_freq = update lp.slot_freq v 1;
  slot_used = update lp.slot_used v tick;
  slot_cold = update lp.slot_cold v cold;
  slot_speculative = update lp.slot_speculative v false;
}

-- An upgrade drops a copy in the VRAM tier.
unfoldable pub drop_copy : Pool → ℕ → Option ℕ → Pool
drop_copy lp e none = lp
drop_copy lp e (some g) = record lp {
  g_slot_expert = update lp.g_slot_expert g none;
  g_valid = update lp.g_valid g false;
  g_expert_slot = update lp.g_expert_slot e none;
  g_ver = suc lp.g_ver;
}

unfoldable pub read_into :
    (Bool → ℕ → ℕ → Bool) → Cache → ℕ → ℕ → Bool → Bool → Cache × Option Handle
read_into ranges c e v upgrade cold =
    let lp = claim c.lp e v upgrade cold (suc c.tick) in
    let c' = record c {
      tick = suc c.tick;
      live = v ∷ c.live;
      lp = if upgrade then drop_copy lp e (lp.g_expert_slot e) else lp;
    } in
    if ranges cold c.layer e
    then (
      record c' { misses = c'.misses ++ (record { expert = e; slot = v } ∷ []) },
      some (record { on_gpu = false; slot = v; late = false; cold = cold; is_ready = false }),
    )
    else (c', none)

-- An upgrade reads into the slot it has; any other miss takes a victim's.
unfoldable pub find_room : Config → Cache → Option ℕ → Cache × Option ℕ
find_room k c none = choose_victim k c
find_room k c (some s) = (c, some s)

unfoldable pub serve_miss :
    Config → (Bool → ℕ → ℕ → Bool) → Cache → ℕ → Option ℕ → Cache × Option Handle
serve_miss k ranges c e upgrade =
    let up = is_some upgrade in
    let (c', would) = ask k c e (k.has_cold && (not up && not (c.lp.hotw e))) in
    let c'' = want_hot c' e (up || would) in
    let cold = k.has_cold && (not up && not (c''.lp.hotw e)) in
    let seen = record c'' { lp = record c''.lp { seen = update c''.lp.seen e true } } in
    let (d, v) = find_room k seen upgrade in
    elim v [ none ↦ (d, none) | some v' ↦ read_into ranges d e v' up cold ]

unfoldable pub serve_ram : Config → (Bool → ℕ → ℕ → Bool) → Cache → ℕ → ℕ → Cache × Option Handle
serve_ram k ranges c e s =
    let (c', would) = ask k c e (c.lp.slot_cold s) in
    if would then serve_miss k ranges c' e (some s) else serve_hit k c' e s

unfoldable pub serve : Config → (Bool → ℕ → ℕ → Bool) → Cache → ℕ → Cache × Option Handle
serve k ranges c e = elim (vram_slot k c.lp e) [
  | some g ↦ serve_gpu c g
  | none ↦ elim (claimed c.lp e) [
    | some s ↦ serve_claimed k c e s
    | none ↦ elim (find_slot c.lp e) [
      | some s ↦ serve_ram k ranges c e s
      | none ↦ serve_miss k ranges c e none
    ]
  ]
]

unfoldable pub serve_all :
    Config → (Bool → ℕ → ℕ → Bool) → Cache → List ℕ → Cache × Option (List Handle)
serve_all k ranges c [] = (c, some [])
serve_all k ranges c (e ∷ es) =
    let (c', h) = serve k ranges (count_use k c e) e in
    elim h [
      | none ↦ (c', none)
      | some h' ↦
          let (d, hs) = serve_all k ranges c' es in
          (d, elim hs [ none ↦ none | some hs' ↦ some (h' ∷ hs') ])
    ]

-- The preamble of `fetch_begin`, up to the loop that serves the experts.
unfoldable pub begin : Config → Cache → List ℕ → Cache
begin k c es =
    list_live
      (touch_all k
        (record c {
          tick = suc c.tick;
          fetch_epoch = suc c.tick;
          fetch_count = suc c.fetch_count;
          live = [];
          pending = [];
          promoted = 0;
          misses = [];
        })
        es)
      es
