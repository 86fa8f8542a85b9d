-- ===== src/Lookup/Drafter.antt =====
-- `lookup_drafter`: an index of every trigram of the token history, and the proposal drawn from it.
-- A token is the 32-bit pattern of the source's int32_t; `none` is the null slot pointer.
pub mod Matches
pub mod Index
pub mod Recent
use Prim.Native.Nat.{bit_and, bit_or, bit_xor}
use qw_fnfer_xpu.Base.{
  ℕ, zero, suc, ◌+◌, ◌-◌, ◌*◌, ◌/◌, ◌%◌, ◌^◌, max, Bool, true, false, ◌&&◌, ◌||◌, Option, none,
  some, List, [], ◌∷◌, ◌++◌, ltb, leb, ◌==◌, if◌then◌else◌, length, get_or, take, update,
}

abbrev pub u64 : ℕ
u64 = 2 ^ 64

abbrev pub ways : ℕ
ways = 4

unfoldable pub mix : ℕ → ℕ
mix x =
    let a = bit_xor x (x / 2 ^ 33) in
    let b = (a * 0xff51afd7ed558ccd) % u64 in
    let c = bit_xor b (b / 2 ^ 33) in
    let d = (c * 0xc4ceb9fe1a85ec53) % u64 in bit_xor d (d / 2 ^ 33)

pub record Slot : Type 0 where
  pub key : ℕ
  pub pos : List ℕ
  pub n : ℕ

abbrev pub empty_slot : Slot
empty_slot = record { key = 0; pos = 0 ∷ 0 ∷ 0 ∷ 0 ∷ []; n = 0 }

pub record Drafter : Type 0 where
  pub min_match : ℕ
  pub max_match : ℕ
  pub hist : List ℕ
  pub table : ℕ → Slot
  pub mask : ℕ
  pub last_match : ℕ

-- `while (cap < capacity_tokens * 2) cap <<= 1;` on a 64-bit size, on rounds. From 1 the size is 0 after
-- 64 shifts, and then the code's loop never ends: of a run that uses up its rounds nothing is claimed.
unfoldable pub grow : ℕ → ℕ → ℕ → ℕ
grow zero cap wanted = cap
grow (suc rounds) cap wanted = elim (ltb cap wanted) [
  | true ↦ grow rounds ((cap * 2) % u64) wanted
  | false ↦ cap
]

unfoldable pub reset : Drafter → ℕ → Drafter
reset d capacity_tokens =
    let cap = grow 64 1 ((capacity_tokens * 2) % u64) in
    record d { hist = []; table = λ _. empty_slot; mask = cap - 1; last_match = 0 }

unfoldable pub init : ℕ → ℕ → Drafter
init min_match max_match =
    reset
      (record {
        min_match = max 3 min_match;
        max_match = max (max 3 min_match) max_match;
        hist = [];
        table = λ _. empty_slot;
        mask = 0;
        last_match = 0;
      })
      4096

abbrev pub at : List ℕ → ℕ → ℕ
at hist i = get_or hist i 0

unfoldable pub key_at : List ℕ → ℕ → ℕ
key_at hist e =
    let a = at hist (e - 2) % 2 ^ 32 in
    let b = at hist (e - 1) % 2 ^ 32 in
    let c = at hist e % 2 ^ 32 in
    bit_or
      (mix (
        bit_xor (bit_xor ((a * 0x9e3779b97f4a7c15) % u64) (mix ((b + 0x632be59bd9b4e019) % u64)))
          ((c * 2) % u64)))
      1

-- The probing loop of `find_slot`: `rounds` of the 64 probes are left, `probes` are done.
unfoldable pub probe : ℕ → ℕ → ℕ → (ℕ → Slot) → ℕ → ℕ → Bool → Option ℕ
probe zero i probes table mask key insert = none
probe (suc rounds) i probes table mask key insert =
    let next = probe rounds (bit_and (i + 1) mask) (probes + 1) table mask key insert in
    if leb probes mask
    then if (table i).key == key
      then some i
      else if (table i).key == 0
      then if insert then some i else none
      else next
    else none

-- The slot, and the table with the key written into it where `insert` claims an empty one.
unfoldable pub find_slot : Drafter → ℕ → Bool → Option ℕ × (ℕ → Slot)
find_slot d key insert = elim (probe 64 (bit_and key d.mask) 0 d.table d.mask key insert) [
  | none ↦ (none, d.table)
  | some i ↦ (
    some i,
    if (d.table i).key == key then d.table else update d.table i (record (d.table i) { key = key }),
  )
]

-- The shift of `pos` and the new end position in front.
unfoldable pub push_pos : Slot → ℕ → Slot
push_pos s e = record s {
  pos = e ∷ take (ways - 1) s.pos;
  n = if ltb s.n ways then s.n + 1 else s.n;
}

abbrev pub u32_max : ℕ
u32_max = 2 ^ 32 - 1

-- The index step of `append` for the history's last position.
unfoldable pub index_end : Drafter → ℕ → Drafter
index_end d e =
    if ltb e 2 || ltb u32_max e
    then d
    else let (found, table) = find_slot d (key_at d.hist e) true in
      elim found [
        | none ↦ record d { table = table }
        | some i ↦ record d { table = update table i (push_pos (table i) e) }
      ]

unfoldable pub append_one : Drafter → ℕ → Drafter
append_one d token =
    let pushed : Drafter = record d { hist = d.hist ++ token ∷ [] } in
    index_end pushed (length pushed.hist - 1)

unfoldable pub append : Drafter → List ℕ → Drafter
append d [] = d
append d (t ∷ tokens) = append (append_one d t) tokens

-- `while (len < max_match_ && len <= p && hist_[p - len] == hist_[cur - len]) ++len;`
unfoldable pub match_from : ℕ → List ℕ → ℕ → ℕ → ℕ → ℕ
match_from zero hist p cur len = len
match_from (suc rounds) hist p cur len =
    elim (leb len p && (at hist (p - len) == at hist (cur - len))) [
      | true ↦ match_from rounds hist p cur (len + 1)
      | false ↦ len
    ]

pub record Best : Type 0 where
  pub end_pos : ℕ
  pub len : ℕ

unfoldable pub better : ℕ → List ℕ → ℕ → ℕ → Best → Best
better max_match hist cur p best =
    if leb cur p
    then best
    else let len = match_from max_match hist p cur 0 in
      if ltb best.len len then record { end_pos = p; len = len } else best

unfoldable pub longest : ℕ → List ℕ → ℕ → List ℕ → Best → Best
longest max_match hist cur [] best = best
longest max_match hist cur (p ∷ ps) best =
    longest max_match hist cur ps (better max_match hist cur p best)

-- `for (q = best_end + 1; q <= cur && k < max_k; ++q) out[k++] = hist_[q];`
unfoldable pub continuation : ℕ → List ℕ → ℕ → ℕ → List ℕ
continuation zero hist q cur = []
continuation (suc k) hist q cur = elim (leb q cur) [
  | true ↦ at hist q ∷ continuation k hist (q + 1) cur
  | false ↦ []
]

-- The proposal of the candidate list of the slot that was found.
unfoldable pub propose_from : Drafter → ℕ → ℕ → Slot → Drafter × List ℕ
propose_from d max_k cur s =
    let best = longest d.max_match d.hist cur (take s.n s.pos) (record { end_pos = 0; len = 0 }) in
    if ltb best.len d.min_match
    then (d, [])
    else (record d { last_match = best.len }, continuation max_k d.hist (best.end_pos + 1) cur)

unfoldable pub propose : Drafter → ℕ → Drafter × List ℕ
propose d max_k =
    let cleared : Drafter = record d { last_match = 0 } in
    let n = length d.hist in
    if ltb n 4 || (max_k == 0)
    then (cleared, [])
    else let cur = n - 1 in
      elim (find_slot cleared (key_at d.hist cur) false).0 [
        | none ↦ (cleared, [])
        | some i ↦ propose_from cleared max_k cur (d.table i)
      ]
