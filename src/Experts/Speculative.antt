-- ===== src/Experts/Speculative.antt =====
-- The speculative reads: `prefetch_begin` claims slots for predicted experts, `pf_reap` marks a block
-- valid when its last read lands, and `prefetch_settle_for` waits for the blocks that a fetch needs.
-- What the io engine returns is a parameter, the list of the tags of each call of `reap`; a list that
-- has come to its end is an engine that is idle. The pieces of a block's reads are their number.
use qw_fnfer_xpu.Base.{
  ℕ, zero, suc, ◌+◌, ◌-◌, ◌*◌, min, Bool, true, false, not, ◌&&◌, ◌||◌, Option, none, some, List,
  [], ◌∷◌, ◌++◌, length, get_elem?, ltb, leb, ◌==◌, if◌then◌else◌, update,
}
use qw_fnfer_xpu.Experts.Cache.{
  Config, Pool, Cache, PfEntry, is_some, holds, elem, without, enter, leave,
}
use qw_fnfer_xpu.Experts.Victim.{choose_victim}
use qw_fnfer_xpu.Experts.Fetch.{ask, want_hot}
use qw_fnfer_xpu.Experts.Settle.{land_layer}
pub mod Waits
pub mod Fills

abbrev pub set_elem : List PfEntry → ℕ → PfEntry → List PfEntry
set_elem [] i x = []
set_elem (y ∷ ys) zero x = x ∷ ys
set_elem (y ∷ ys) (suc i) x = y ∷ set_elem ys i x

-- The block of a claim is there, if the slot is still its own.
unfoldable pub validated : Pool → ℕ → ℕ → Pool
validated lp s e = record lp {
  slot_valid = if holds (lp.slot_expert s) e then update lp.slot_valid s true else lp.slot_valid;
}

unfoldable pub land_entry : Cache → ℕ → PfEntry → Cache
land_entry c tag x = record c {
  pf_pending =
      if ltb 0 x.remaining
      then set_elem c.pf_pending tag (record x { remaining = x.remaining - 1 })
      else c.pf_pending;
  blk =
      if x.remaining == 1
      then update c.blk x.layer (validated (c.blk x.layer) x.slot x.expert)
      else c.blk;
}

unfoldable pub complete : Cache → ℕ → Cache
complete c tag = elim (get_elem? c.pf_pending tag) [ none ↦ c | some x ↦ land_entry c tag x ]

unfoldable pub complete_all : Cache → List ℕ → Cache
complete_all c [] = c
complete_all c (tag ∷ tags) = complete_all (complete c tag) tags

-- One round of `pf_reap` that got some tags.
unfoldable pub reap_round : Cache → List ℕ → Cache
reap_round c tags =
    let d = complete_all c tags in
    record d {
      pf_reads_outstanding = d.pf_reads_outstanding - min (length tags) d.pf_reads_outstanding;
    }

-- A reap that got none, though one was asked for: the count is reset.
unfoldable pub drifted : Cache → ℕ → Cache
drifted c need = record c {
  pf_reads_outstanding = if ltb 0 need then 0 else c.pf_reads_outstanding;
}

unfoldable pub reap_rounds : Cache → ℕ → List (List ℕ) → Cache × List (List ℕ)
reap_rounds c need [] = (drifted c need, [])
reap_rounds c need ([] ∷ rounds) = (drifted c need, rounds)
reap_rounds c need ((tag ∷ tags) ∷ rounds) =
    let d = reap_round c (tag ∷ tags) in
    let left = need - length (tag ∷ tags) in
    elim (ltb 0 left && ltb 0 d.pf_reads_outstanding) [
      | true ↦ reap_rounds d left rounds
      | false ↦ (d, rounds)
    ]

unfoldable pub pf_reap : Cache → ℕ → List (List ℕ) → Cache × List (List ℕ)
pf_reap c min_complete rounds =
    if c.pf_reads_outstanding == 0
    then (c, rounds)
    else reap_rounds c (min min_complete c.pf_reads_outstanding) rounds

abbrev pub needed_pending : List PfEntry → ℕ → List ℕ → Bool
needed_pending [] il ids = false
needed_pending (x ∷ xs) il ids =
    ((x.layer == il) && (ltb 0 x.remaining && elem x.expert ids)) || needed_pending xs il ids

-- The condition of the loop of `prefetch_settle_for`, and the loop, on fuel.
abbrev pub waiting : Cache → ℕ → List ℕ → Bool
waiting c il ids = ltb 0 c.pf_reads_outstanding && needed_pending c.pf_pending il ids

unfoldable pub settle_for : Cache → ℕ → List ℕ → ℕ → List (List ℕ) → Cache × List (List ℕ)
settle_for c il ids zero rounds = (c, rounds)
settle_for c il ids (suc fuel) rounds = elim (waiting c il ids) [
  | false ↦ (c, rounds)
  | true ↦ let (d, rest) = pf_reap c 1 rounds in settle_for d il ids fuel rest
]

abbrev pub emptied : Cache → Cache
emptied c = record c { pf_pending = if c.pf_reads_outstanding == 0 then [] else c.pf_pending }

-- Each round lowers the count of outstanding reads, which is the fuel.
unfoldable pub prefetch_settle_for : Cache → ℕ → List ℕ → List (List ℕ) → Cache × List (List ℕ)
prefetch_settle_for c il ids rounds =
    let (d, rest) = settle_for c il ids c.pf_reads_outstanding rounds in (emptied d, rest)

-- The loop of `prefetch_settle`, on fuel, which is again the count.
unfoldable pub settle_count : Cache → ℕ → List (List ℕ) → Cache × List (List ℕ)
settle_count c zero rounds = (c, rounds)
settle_count c (suc fuel) rounds = elim (ltb 0 c.pf_reads_outstanding) [
  | false ↦ (c, rounds)
  | true ↦ let (d, rest) = pf_reap c 1 rounds in settle_count d fuel rest
]

unfoldable pub prefetch_settle : Cache → List (List ℕ) → Cache × List (List ℕ)
prefetch_settle c rounds =
    let (d, rest) = settle_count c c.pf_reads_outstanding rounds in
    (record d { pf_pending = [] }, rest)

-- The claim that `prefetch_begin` makes on the slot `v` for `e`, and the read it lists, of which
-- `pieces` tells the number of requests.
unfoldable pub expect : Config → (Bool → ℕ → ℕ → ℕ) → Cache → ℕ → ℕ → Cache
expect k pieces c e v =
    let lp = record c.lp {
      expert_slot = update (without c.lp.expert_slot (c.lp.slot_expert v)) e (some v);
      slot_expert = update c.lp.slot_expert v (some e);
      slot_valid = update c.lp.slot_valid v false;
      slot_freq = update c.lp.slot_freq v 1;
      slot_used = update c.lp.slot_used v (suc c.tick);
      slot_speculative = update c.lp.slot_speculative v true;
      seen = update c.lp.seen e true;
    } in
    let c' = record c { tick = suc c.tick; lp = lp } in
    let (c'', would) = ask k c' e (k.has_cold && not (c'.lp.hotw e)) in
    let d = want_hot c'' e would in
    let cold = k.has_cold && not (d.lp.hotw e) in
    let n = pieces cold c.layer e in
    record d {
      n_req = d.n_req + n;
      lp = record d.lp {
        slot_cold = update d.lp.slot_cold v cold;
        slot_valid = if n == 0 then update d.lp.slot_valid v true else d.lp.slot_valid;
      };
      pf_pending =
          if n == 0
          then d.pf_pending
          else d.pf_pending
            ++ (record { layer = c.layer; expert = e; slot = v; remaining = n } ∷ []);
    }

-- An expert that is in the VRAM tier, resident or inbound is not claimed again.
unfoldable pub expected : Pool → ℕ → Bool
expected lp e =
    (ltb 0 lp.g_slots && is_some (lp.g_expert_slot e))
    || elim (lp.expert_slot e) [ none ↦ false | some s ↦ holds (lp.slot_expert s) e ]

unfoldable pub predict : Config → ℕ → (Bool → ℕ → ℕ → ℕ) → Cache → ℕ → Cache
predict k n_expert pieces c e =
    if leb n_expert e || expected c.lp e
    then c
    else let (d, v) = choose_victim k c in elim v [ none ↦ d | some v' ↦ expect k pieces d e v' ]

-- The ids of one set, while the array of requests has room for one more block.
unfoldable pub predict_all : Config → ℕ → (Bool → ℕ → ℕ → ℕ) → Cache → List ℕ → Cache
predict_all k n_expert pieces c [] = c
predict_all k n_expert pieces c (e ∷ es) = elim (leb (c.n_req + 3 * 8) (128 * 3 * 8)) [
  | true ↦ predict_all k n_expert pieces (predict k n_expert pieces c e) es
  | false ↦ c
]

unfoldable pub predict_set : Config → ℕ → (Bool → ℕ → ℕ → ℕ) → Cache → ℕ → List ℕ → Cache
predict_set k n_expert pieces c il es =
    let c' = land_layer c il in
    if ltb il c.n_blk then leave (predict_all k n_expert pieces (enter il c') es) else c'

unfoldable pub predict_sets : Config → ℕ → (Bool → ℕ → ℕ → ℕ) → Cache → List (ℕ × List ℕ) → Cache
predict_sets k n_expert pieces c [] = c
predict_sets k n_expert pieces c ((il, es) ∷ sets) =
    predict_sets k n_expert pieces (predict_set k n_expert pieces c il es) sets

-- The last loop: the engine accepts so many requests at each call, and where it accepts none a
-- completion is waited for.
unfoldable pub submit_reads : Cache → List ℕ → List (List ℕ) → Cache × List (List ℕ)
submit_reads c [] rounds = (c, rounds)
submit_reads c (zero ∷ more) rounds = let (d, rest) = pf_reap c 1 rounds in submit_reads d more rest
submit_reads c (suc n ∷ more) rounds =
    submit_reads (record c { pf_reads_outstanding = c.pf_reads_outstanding + suc n }) more rounds

unfoldable pub make_room : Cache → List (List ℕ) → Cache × List (List ℕ)
make_room c rounds =
    let (d, rest) = pf_reap c 0 rounds in
    let d' = emptied d in
    if ltb 4096 (length d'.pf_pending) then prefetch_settle d' rest else (d', rest)

unfoldable pub prefetch_begin :
    Config
    → ℕ
    → (Bool → ℕ → ℕ → ℕ)
    → Cache
    → List (ℕ × List ℕ)
    → List ℕ
    → List (List ℕ)
    → Cache × List (List ℕ)
prefetch_begin k n_expert pieces c sets accepted rounds =
    let (d, rest) = make_room c rounds in
    submit_reads (predict_sets k n_expert pieces (record d { n_req = 0 }) sets) accepted rest
