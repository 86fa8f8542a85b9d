-- ===== src/Prefix/Accounts.antt =====
-- The accounts of the prefix cache: the pool's bytes, the order of its ids and the budget.
use qw_fnfer_xpu.Base.{
  ℕ, suc, ◌+◌, ◌-◌, ◌≤◌, ◌≡◌, refl, ap, sym, ◌∙◌, Bool, true, false, ◌&&◌, List, [], ◌∷◌, ◌++◌, ltb,
  ◌==◌, Bool-cases, inl, inr, length, take, arith,
}
use qw_fnfer_xpu.Prefix.Engine.{Engine, Json}
use qw_fnfer_xpu.Prefix.Server.{
  Entry, Server, Prompt, Reply, no_reply, meta_bytes, entry_bytes, of_consumed, supersede,
  supersede_all, push, pool_save, pool_boundary_save, imgs_before, pool_evict_to, stamp,
  settle_sequence, restore_hit,
}
use qw_fnfer_xpu.Prefix.Evict.{total, IsExact, pool_evict_to-Evicted}
use qw_fnfer_xpu.Prefix.Saves.{
  after, scan, scan_all, kept_reply, need_of, boundary_need, Filling, gives_up, pushes, Saving,
  declines, touches, covered, saves, pool_save-Saving, BoundarySaving, declines, touches, saves,
  pool_boundary_save-Saving,
}
use qw_fnfer_xpu.Prefix.Switches.{
  Switching, misses, restores, Settling, continues, resets, starts_over, switches, best_id,
  settle_sequence-Settling,
}
use qw_fnfer_xpu.Prefix.Kept.{
  Kept, drops, keeps, supersede-Kept, supersede_all-Kept, stamp-Kept, pool_evict_to-Kept,
}

module _ (g : Engine) (j : Json) where
  abbrev S : Type 0
  S = Server g j

  abbrev Pool : Type 0
  Pool = List (Entry g j)

  -- The ids grow along the pool from `lo` on and stay below `n`.
  abbrev pub Growing : ℕ → ℕ → Pool → Type 0
  Growing lo n [] = lo ≤ n
  Growing lo n (pe ∷ pool) = (lo ≤ pe.id) × Growing (suc pe.id) n pool

  -- Exact accounts, and ids that grow from 1 to the next one to be given.
  abbrev pub Inv : S → Type 0
  Inv s = IsExact g j s × Growing 1 s.pool_next_id s.pool

  Growing-lower : (lo lo' n : ℕ) (pool : Pool) → lo ≤ lo' → Growing lo' n pool → Growing lo n pool
  Growing-lower lo lo' n [] le h = omega arith
  Growing-lower lo lo' n (pe ∷ pool) le h = (omega (arith, h.0), h.1)

  Growing-end : (lo n : ℕ) (pool : Pool) → Growing lo n pool → lo ≤ n
  Growing-end lo n [] h = h
  Growing-end lo n (pe ∷ pool) h = omega (arith, h.0, Growing-end (suc pe.id) n pool h.1)

  Growing-Kept :
      (lo n : ℕ) (new old : Pool) → Kept g j new old → Growing lo n old → Growing lo n new
  Growing-Kept lo n [] old k h = Growing-end lo n old h
  Growing-Kept lo n (pe' ∷ new) [] k h = elim k [ ]
  Growing-Kept lo n new (pe ∷ old) (drops k) h =
      Growing-lower lo (suc pe.id) n new (omega (arith, h.0))
        (Growing-Kept (suc pe.id) n new old k h.1)
  Growing-Kept lo n (pe' ∷ new) (pe ∷ old) (keeps (a, b, c, d) k) h = (
    omega (arith, h.0, d),
    Growing-lower (suc pe'.id) (suc pe.id) n new (omega (arith, d))
        (Growing-Kept (suc pe.id) n new old k h.1),
  )

  Growing-push :
      (lo n : ℕ) (pool : Pool) (pe : Entry g j)
      → pe.id ≡ n
      → Growing lo n pool
      → Growing lo (n + 1) (pool ++ pe ∷ [])
  Growing-push lo n [] pe e h = (omega arith, omega arith)
  Growing-push lo n (x ∷ pool) pe e h = (h.0, Growing-push (suc x.id) n pool pe e h.1)

  total-push :
      (pool : Pool) (pe : Entry g j)
      → total g j (pool ++ pe ∷ []) ≡ total g j pool + entry_bytes g j pe
  total-push [] pe = omega arith
  total-push (x ∷ pool) pe = omega (arith, total-push pool pe)

  -- What the loops subtract and add is what the entries that go and change account for.
  supersede-total :
      (s : S) (keep extra bytes : ℕ) (pool : Pool)
      → bytes ≡ extra + total g j pool
      → (supersede g j s keep bytes pool).bytes
        ≡ extra + total g j (supersede g j s keep bytes pool).pool
  unfolding supersede
  supersede-total s keep extra bytes [] h = h
  supersede-total s keep extra bytes (pe ∷ pool) h =
      let rest = supersede-total s keep (extra + entry_bytes g j pe) bytes pool (omega arith) in
      let without = supersede-total s keep extra (bytes - entry_bytes g j pe) pool (omega arith) in
      elim (Bool-cases (of_consumed g j s.consumed pe)) [
        | inr a ↦ rw (a, supersede) (omega (arith, rest))
        | inl a ↦ elim (Bool-cases (pe.boundary && ltb (length pe.tok) (length s.consumed))) [
          | inl b ↦ rw (a, b, supersede) (omega (arith, rest))
          | inr b ↦ elim (Bool-cases (length pe.tok == length s.consumed)) [
            | inl c ↦ rw (a, b, c, supersede) (omega arith)
            | inr c ↦ elim (Bool-cases (pe.id == keep)) [
              | inl d ↦ rw (a, b, c, d, supersede) (omega (arith, rest))
              | inr d ↦ rw (a, b, c, d, supersede) without
            ]
          ]
        ]
      ]

  supersede_all-total :
      (clock : ℕ) (tok : List ℕ) (extra bytes : ℕ) (pool : Pool)
      → bytes ≡ extra + total g j pool
      → (supersede_all g j clock tok bytes pool).bytes
        ≡ extra + total g j (supersede_all g j clock tok bytes pool).pool
  unfolding supersede_all
  supersede_all-total clock tok extra bytes [] h = h
  supersede_all-total clock tok extra bytes (pe ∷ pool) h =
      let rest =
        supersede_all-total clock tok (extra + entry_bytes g j pe) bytes pool (omega arith) in
      let without =
        supersede_all-total clock tok extra (bytes - entry_bytes g j pe) pool (omega arith) in
      elim (Bool-cases (of_consumed g j tok pe)) [
        | inr a ↦ rw (a, supersede_all) (omega (arith, rest))
        | inl a ↦ elim (Bool-cases (length pe.tok == length tok)) [
          | inl c ↦ rw (a, c, supersede_all) (omega arith)
          | inr c ↦ rw (a, c, supersede_all) without
        ]
      ]

  pool_evict_to-Inv : (s : S) (need keep : ℕ) → Inv s → Inv (pool_evict_to g j s need keep).0
  pool_evict_to-Inv s need keep h =
      let r = pool_evict_to-Evicted g j s need keep h.0 in
      let out = (pool_evict_to g j s need keep).0 in
      let next : out.pool_next_id ≡ s.pool_next_id = ap (λ (x : S). x.pool_next_id) r.frame in
      (
        r.exact,
        rw next (
            Growing-Kept 1 s.pool_next_id out.pool s.pool (pool_evict_to-Kept g j s need keep) h.1),
      )

  push-Inv :
      (s : S) (tok : List ℕ) (img : List (ℕ × ℕ)) (last : Reply g j) (ck : g.C) (boundary : Bool)
      → Inv s
      → Inv (push g j s tok img last ck boundary)
  unfolding push
  push-Inv s tok img last ck boundary h =
      let pe : Entry g j = record {
        tok = tok;
        img = img;
        last = last;
        ck = ck;
        id = s.pool_next_id;
        used = s.pool_clock + 1;
        boundary = boundary;
        meta = meta_bytes g j tok img last;
      } in
      (omega (arith, h.0, total-push s.pool pe), Growing-push 1 s.pool_next_id s.pool pe refl h.1)

  Filling-Inv :
      (s : S) (need keep : ℕ) (tok : List ℕ) (img : List (ℕ × ℕ)) (last : Reply g j)
      (boundary : Bool) (t : S)
      → Filling g j s need keep tok img last boundary t
      → Inv s
      → Inv t
  Filling-Inv s need keep tok img last boundary _ gives_up h = pool_evict_to-Inv s need keep h
  Filling-Inv s need keep tok img last boundary _ (pushes ck room e) h =
      push-Inv (pool_evict_to g j s need keep).0 tok img last ck boundary
        (pool_evict_to-Inv s need keep h)

  pub scanned-Inv : (s : S) (keep : ℕ) → Inv s → Inv (after g j s (scan g j s keep))
  scanned-Inv s keep h = (
    omega (arith, supersede-total s keep 0 s.pool_bytes s.pool (omega (arith, h.0))),
    Growing-Kept 1 s.pool_next_id (scan g j s keep).pool s.pool
        (supersede-Kept g j s keep s.pool_bytes s.pool) h.1,
  )

  pub scanned_all-Inv :
      (s : S) (hist : List ℕ) (n : ℕ) → Inv s → Inv (after g j s (scan_all g j s hist n))
  scanned_all-Inv s hist n h = (
    omega (
      arith,
      supersede_all-total s.pool_clock (take n hist) 0 s.pool_bytes s.pool (omega (arith, h.0)),
    ),
    Growing-Kept 1 s.pool_next_id (scan_all g j s hist n).pool s.pool
        (supersede_all-Kept g j s.pool_clock (take n hist) s.pool_bytes s.pool) h.1,
  )

  Saving-Inv : (s : S) (keep : ℕ) (t : S) → Saving g j s keep t → Inv s → Inv t
  Saving-Inv s keep _ declines h = h
  Saving-Inv s keep _ (touches d) h = scanned-Inv s keep h
  Saving-Inv s keep _ (covered d) h = scanned-Inv s keep h
  Saving-Inv s keep t (saves d a b f) h =
      Filling-Inv (after g j s (scan g j s keep)) (need_of g j s) keep s.consumed s.consumed_img
        (kept_reply g j s) false t f (scanned-Inv s keep h)

  -- `pool_save` keeps the accounts exact and the ids growing.
  pub pool_save-Inv : (s : S) (keep : ℕ) → Inv s → Inv (pool_save g j s keep)
  pool_save-Inv s keep = Saving-Inv s keep (pool_save g j s keep) (pool_save-Saving g j s keep)

  BoundarySaving-Inv :
      (s : S) (hist : List ℕ) (n : ℕ) (t : S) → BoundarySaving g j s hist n t → Inv s → Inv t
  BoundarySaving-Inv s hist n _ declines h = h
  BoundarySaving-Inv s hist n _ (touches d) h = scanned_all-Inv s hist n h
  BoundarySaving-Inv s hist n t (saves d e f) h =
      Filling-Inv (after g j s (scan_all g j s hist n)) (boundary_need g j s hist n) 0 (take n hist)
        (imgs_before n s.consumed_img) (no_reply g j) true t f (scanned_all-Inv s hist n h)

  -- `pool_boundary_save` keeps the accounts exact and the ids growing.
  pub pool_boundary_save-Inv :
      (s : S) (hist : List ℕ) (n : ℕ) → Inv s → Inv (pool_boundary_save g j s hist n)
  pool_boundary_save-Inv s hist n =
      BoundarySaving-Inv s hist n (pool_boundary_save g j s hist n)
        (pool_boundary_save-Saving g j s hist n)

  total-stamp : (id used : ℕ) (pool : Pool) → total g j (stamp g j id used pool) ≡ total g j pool
  unfolding stamp
  total-stamp id used [] = refl
  total-stamp id used (pe ∷ pool) = ground (arith, total-stamp id used pool)

  -- A restored entry is renewed in place.
  pub restore_hit-Inv : (s : S) (hit : Entry g j) (e : g.E) → Inv s → Inv (restore_hit g j s hit e)
  unfolding restore_hit
  restore_hit-Inv s hit e h = (
    h.0 ∙ sym (total-stamp hit.id (s.pool_clock + 1) s.pool),
    Growing-Kept 1 s.pool_next_id (stamp g j hit.id (s.pool_clock + 1) s.pool) s.pool
        (stamp-Kept g j hit.id (s.pool_clock + 1) s.pool) h.1,
  )

  Switching-Inv : (s : S) (id : ℕ) (r : S × Bool) → Switching g j s id r → Inv s → Inv r.0
  Switching-Inv s id _ (misses m) h = pool_save-Inv s id h
  Switching-Inv s id _ (restores hit e z f r) h =
      restore_hit-Inv (pool_save g j s id) hit e (pool_save-Inv s id h)

  Settling-Inv : (s : S) (p : Prompt) (t : S) → Settling g j s p t → Inv s → Inv t
  Settling-Inv s p _ (continues n) h = h
  Settling-Inv s p _ (resets n z) h = h
  Settling-Inv s p _ (starts_over {t} n sw) h = Switching-Inv s (best_id g j s p) (t, false) sw h
  Settling-Inv s p t (switches n sw) h = Switching-Inv s (best_id g j s p) (t, true) sw h

  -- The head of `generate` keeps the prefix cache's accounts: the pool's bytes are the sum of its
  -- entries' sizes, and the ids grow along the pool from 1 on and stay below the next one.
  pub settle_sequence-Inv : (s : S) (p : Prompt) → Inv s → Inv (settle_sequence g j s p)
  settle_sequence-Inv s p =
      Settling-Inv s p (settle_sequence g j s p) (settle_sequence-Settling g j s p)
