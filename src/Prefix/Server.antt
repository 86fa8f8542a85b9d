-- ===== src/Prefix/Server.antt =====
-- The server's state that the prefix cache reads and writes, and the cache's functions.
use Prim.Native.Nat.{bit_xor}
use qw_fnfer_xpu.Base.{
  ℕ, zero, suc, ◌+◌, ◌-◌, ◌*◌, ◌%◌, ◌^◌, Bool, true, false, not, ◌&&◌, ◌||◌, Option, none, some,
  List, [], ◌∷◌, ◌++◌, ltb, leb, ◌==◌, if◌then◌else◌, length, take,
}
use qw_fnfer_xpu.Prefix.Engine.{Engine, Json}

-- FNV-1a over bytes.
unfoldable pub hash_from : ℕ → List ℕ → ℕ
hash_from h [] = h
hash_from h (b ∷ bs) = hash_from ((bit_xor h b * 1099511628211) % 2 ^ 64) bs

unfoldable pub hash_bytes : List ℕ → ℕ
hash_bytes = hash_from 1469598103934665603

-- `std::equal(xs.begin(), xs.end(), ys.begin())`, where `ys` is at least as long.
unfoldable pub equal_prefix : List ℕ → List ℕ → Bool
equal_prefix [] ys = true
equal_prefix (x ∷ xs) [] = false
equal_prefix (x ∷ xs) (y ∷ ys) = x == y && equal_prefix xs ys

unfoldable pub find_img : ℕ → List (ℕ × ℕ) → Option ℕ
find_img p [] = none
find_img p ((q, h) ∷ img) = if q == p then some h else find_img p img

unfoldable pub imgs_before : ℕ → List (ℕ × ℕ) → List (ℕ × ℕ)
imgs_before n [] = []
imgs_before n ((p, h) ∷ img) = if ltb p n then (p, h) ∷ imgs_before n img else imgs_before n img

pub record Prompt : Type 0 where
  pub tok : List ℕ
  pub splices : List (ℕ × List ℕ)
  pub via : ℕ

module _ (g : Engine) (j : Json) where
  open g use {E, C}

  pub record Reply : Type 0 where
    pub gen : List ℕ
    pub prompt : List ℕ
    pub msgs : j.J
    pub content : List ℕ
    pub reasoning : List ℕ
    pub tool_key : List ℕ
    pub thinking : Bool

  abbrev pub no_reply : Reply
  no_reply = record {
    gen = [];
    prompt = [];
    msgs = j.null;
    content = [];
    reasoning = [];
    tool_key = [];
    thinking = true;
  }

  unfoldable pub meta_bytes : List ℕ → List (ℕ × ℕ) → Reply → ℕ
  meta_bytes tok img r =
      (length tok + length r.gen + length r.prompt) * 4
      + length img * 32
      + (if j.is_null r.msgs then 0 else j.dump_size r.msgs)
      + length r.content
      + length r.reasoning
      + length r.tool_key

  pub record Entry : Type 0 where
    pub tok : List ℕ
    pub img : List (ℕ × ℕ)
    pub last : Reply
    pub ck : C
    pub id : ℕ
    pub used : ℕ
    pub boundary : Bool
    pub meta : ℕ

  abbrev pub entry_bytes : Entry → ℕ
  entry_bytes pe = g.size pe.ck + pe.meta

  pub record Server : Type 0 where
    pub eng : E
    pub consumed : List ℕ
    pub consumed_img : List (ℕ × ℕ)
    pub last : Reply
    pub pool : List Entry
    pub pool_budget : ℕ
    pub pool_bytes : ℕ
    pub pool_min : ℕ
    pub pool_clock : ℕ
    pub pool_next_id : ℕ
    pub parked_bytes : ℕ

  -- The images that the prompt splices inside the consumed prefix are those that were consumed.
  unfoldable pub same_images : List (ℕ × ℕ) → ℕ → List (ℕ × List ℕ) → Bool
  same_images img n [] = true
  same_images img n ((p, emb) ∷ sps) =
      (if ltb p n
        then elim (find_img p img) [ none ↦ false | some h ↦ h == hash_bytes emb ]
        else true)
      && same_images img n sps

  unfoldable pub prefix_reuse : Server → Prompt → ℕ
  prefix_reuse s p =
      if (length s.consumed == 0)
        || (leb (length p.tok) (length s.consumed) || not (equal_prefix s.consumed p.tok))
      then 0
      else if same_images s.consumed_img (length s.consumed) p.splices
      then length s.consumed
      else 0

  unfoldable pub pool_find : ℕ → List Entry → Option Entry
  pool_find id [] = none
  pool_find id (pe ∷ pool) = if pe.id == id then some pe else pool_find id pool

  -- The scan for the least recently used entry other than `keep`: its index and stamp.
  unfoldable pub lru_from : ℕ → ℕ → List Entry → Option (ℕ × ℕ) → Option (ℕ × ℕ)
  lru_from keep i [] best = best
  lru_from keep i (pe ∷ pool) best = lru_from keep (suc i) pool (
      if pe.id == keep then best else elim best [
        | none ↦ some (i, pe.used)
        | some (b, u) ↦ if ltb pe.used u then some (i, pe.used) else some (b, u)
      ])

  unfoldable pub erase_at : ℕ → List Entry → List Entry
  erase_at i [] = []
  erase_at zero (pe ∷ pool) = pool
  erase_at (suc i) (pe ∷ pool) = pe ∷ erase_at i pool

  unfoldable pub bytes_at : ℕ → List Entry → ℕ
  bytes_at i [] = 0
  bytes_at zero (pe ∷ pool) = entry_bytes pe
  bytes_at (suc i) (pe ∷ pool) = bytes_at i pool

  unfoldable pub pool_erase : Server → ℕ → Server
  pool_erase s i = record s {
    pool_bytes = s.pool_bytes - bytes_at i s.pool;
    pool = erase_at i s.pool;
  }

  -- `pool_evict_to`: each round erases an entry, so the pool's length bounds the rounds.
  unfoldable pub evict_rounds : ℕ → Server → ℕ → ℕ → Server × Bool
  evict_rounds zero s need keep =
      (s, not (ltb s.pool_budget (s.pool_bytes + s.parked_bytes + need)))
  evict_rounds (suc rounds) s need keep =
      elim (ltb s.pool_budget (s.pool_bytes + s.parked_bytes + need)) [
        | false ↦ (s, true)
        | true ↦ elim (lru_from keep 0 s.pool none) [
          | none ↦ (s, false)
          | some (i, u) ↦ evict_rounds rounds (pool_erase s i) need keep
        ]
      ]

  unfoldable pub pool_evict_to : Server → ℕ → ℕ → Server × Bool
  pool_evict_to s need keep = evict_rounds (length s.pool) s need keep

  -- What the loop of a save leaves: the pool, its bytes, and whether it ended at an identical entry
  -- or passed a boundary checkpoint of the sequence.
  pub record Scan : Type 0 where
    pub pool : List Entry
    pub bytes : ℕ
    pub covered : Bool
    pub touched : Bool

  abbrev held_back : Entry → Scan → Scan
  held_back pe r = record r { pool = pe ∷ r.pool }

  abbrev pub of_consumed : List ℕ → Entry → Bool
  of_consumed tok pe = leb (length pe.tok) (length tok) && equal_prefix pe.tok tok

  -- An identical entry is touched, and takes over a reply that is this sequence's.
  unfoldable pub touch : Server → Entry → Entry
  touch s pe =
      let used = s.pool_clock + 1 in
      if j.is_array s.last.msgs
      then record pe { used = used; last = s.last; meta = meta_bytes pe.tok pe.img s.last }
      else record pe { used = used }

  unfoldable pub supersede : Server → ℕ → ℕ → List Entry → Scan
  supersede s keep bytes [] = record { pool = []; bytes = bytes; covered = false; touched = false }
  supersede s keep bytes (pe ∷ pool) =
      let rest = supersede s keep bytes pool in
      let without = supersede s keep (bytes - entry_bytes pe) pool in
      if of_consumed s.consumed pe
      then if pe.boundary && ltb (length pe.tok) (length s.consumed)
        then record (held_back pe rest) { covered = true }
        else if length pe.tok == length s.consumed
        then record {
          pool = touch s pe ∷ pool;
          bytes = bytes - entry_bytes pe + entry_bytes (touch s pe);
          covered = false;
          touched = true;
        }
        else if pe.id == keep
        then held_back pe rest
        else without
      else held_back pe rest

  -- The new entry at the end of the pool.
  unfoldable pub push : Server → List ℕ → List (ℕ × ℕ) → Reply → C → Bool → Server
  push s tok img last ck boundary =
      let pe : Entry = record {
        tok = tok;
        img = img;
        last = last;
        ck = ck;
        id = s.pool_next_id;
        used = s.pool_clock + 1;
        boundary = boundary;
        meta = meta_bytes tok img last;
      } in
      record s {
        pool = s.pool ++ pe ∷ [];
        pool_bytes = s.pool_bytes + entry_bytes pe;
        pool_clock = s.pool_clock + 1;
        pool_next_id = s.pool_next_id + 1;
      }

  -- Room is made, the engine is saved, and the entry pushed.
  unfoldable pub save_into : Server → ℕ → ℕ → List ℕ → List (ℕ × ℕ) → Reply → Bool → Server
  save_into s need keep tok img last boundary =
      let (evicted, room) = pool_evict_to s need keep in
      if room
      then elim (g.save s.eng) [ none ↦ evicted | some ck ↦ push evicted tok img last ck boundary ]
      else evicted

  unfoldable pub pool_save : Server → ℕ → Server
  pool_save s keep =
      let n = g.n_past s.eng in
      let need = g.checkpoint_bytes s.eng + meta_bytes s.consumed s.consumed_img s.last in
      let r = supersede s keep s.pool_bytes s.pool in
      let scanned = record s { pool = r.pool; pool_bytes = r.bytes } in
      if (n == 0) || not (n == length s.consumed)
      then s
      else if ltb n s.pool_min
      then s
      else if ltb s.pool_budget need
      then s
      else if r.touched
      then record scanned { pool_clock = s.pool_clock + 1 }
      else if r.covered && ltb s.pool_budget (r.bytes + s.parked_bytes + need)
      then scanned
      else save_into scanned need keep s.consumed s.consumed_img
          (if j.is_array s.last.msgs then s.last else no_reply) false

  -- The loop of `pool_boundary_save`: every prefix goes, an identical entry is touched.
  unfoldable pub supersede_all : ℕ → List ℕ → ℕ → List Entry → Scan
  supersede_all clock tok bytes [] = record {
    pool = [];
    bytes = bytes;
    covered = false;
    touched = false;
  }
  supersede_all clock tok bytes (pe ∷ pool) =
      let rest = supersede_all clock tok bytes pool in
      let without = supersede_all clock tok (bytes - entry_bytes pe) pool in
      if of_consumed tok pe
      then if length pe.tok == length tok
        then record {
          pool = record pe { used = clock + 1 } ∷ pool;
          bytes = bytes;
          covered = false;
          touched = true;
        }
        else without
      else held_back pe rest

  unfoldable pub pool_boundary_save : Server → List ℕ → ℕ → Server
  pool_boundary_save s hist n =
      let img = imgs_before n s.consumed_img in
      let tok = take n hist in
      let need = g.checkpoint_bytes s.eng + meta_bytes tok img no_reply in
      let r = supersede_all s.pool_clock tok s.pool_bytes s.pool in
      let scanned = record s { pool = r.pool; pool_bytes = r.bytes } in
      if not (g.n_past s.eng == n)
      then s
      else if ltb s.pool_budget need
      then s
      else if r.touched
      then record scanned { pool_clock = s.pool_clock + 1 }
      else save_into scanned need 0 tok img no_reply true

  -- The splices inside an entry's tokens that are its images: how many, or none where one differs.
  unfoldable pub covered_by : Entry → List (ℕ × List ℕ) → Option ℕ
  covered_by pe [] = some 0
  covered_by pe ((p, emb) ∷ sps) =
      let rest = covered_by pe sps in
      if leb (length pe.tok) p then rest else elim (find_img p pe.img) [
        | none ↦ none
        | some h ↦
            if h == hash_bytes emb then elim rest [ none ↦ none | some k ↦ some (k + 1) ] else none
      ]

  unfoldable pub matches : Prompt → Entry → Bool
  matches p pe =
      not (leb (length p.tok) (length pe.tok))
      && (equal_prefix pe.tok p.tok && elim (covered_by pe p.splices) [
        | none ↦ false
        | some k ↦ k == length pe.img || p.via == pe.id
      ])

  -- The longest entry that the prompt continues, the first of equals.
  unfoldable pub longest : Prompt → List Entry → Option Entry → Option Entry
  longest p [] best = best
  longest p (pe ∷ pool) best = longest p pool (
      if matches p pe
      then elim best [
        | none ↦ some pe
        | some b ↦ if leb (length pe.tok) (length b.tok) then some b else some pe
      ]
      else best)

  -- The entry's stamp is renewed where it stands.
  unfoldable pub stamp : ℕ → ℕ → List Entry → List Entry
  stamp id used [] = []
  stamp id used (pe ∷ pool) =
      if pe.id == id then record pe { used = used } ∷ pool else pe ∷ stamp id used pool

  unfoldable pub restore_hit : Server → Entry → E → Server
  restore_hit s hit e = record s {
    eng = e;
    consumed = hit.tok;
    consumed_img = hit.img;
    last = hit.last;
    pool_clock = s.pool_clock + 1;
    pool = stamp hit.id (s.pool_clock + 1) s.pool;
  }

  unfoldable pub id_of : Option Entry → ℕ
  id_of none = 0
  id_of (some pe) = pe.id

  -- `pool_switch` after its search: the sequence is saved, and the entry of that id restored.
  unfoldable pub switch_to : Server → ℕ → Server × Bool
  switch_to s best_id =
      let saved = pool_save s best_id in
      elim (if best_id == 0 then none else pool_find best_id saved.pool) [
        | none ↦ (saved, false)
        | some hit ↦ elim (g.restore saved.eng hit.ck) [
          | none ↦ (saved, false)
          | some e ↦ (restore_hit saved hit e, true)
        ]
      ]

  unfoldable pub pool_switch : Server → Prompt → Server × Bool
  pool_switch s p = switch_to s (id_of (longest p s.pool none))

  -- The head of `generate`: continue, switch, or start afresh. `clear_embeddings` belongs to `reset`.
  unfoldable pub settle_sequence : Server → Prompt → Server
  settle_sequence s p =
      let (switched, restored) = if ltb 0 s.pool_budget then pool_switch s p else (s, false) in
      if prefix_reuse s p == 0
      then if restored
        then switched
        else record switched { eng = g.reset switched.eng; consumed = []; consumed_img = [] }
      else s
