-- ===== src/Prefix/Room.antt =====
-- The budget of the prefix cache.
use qw_fnfer_xpu.Base.{
  ℕ, ◌+◌, ◌-◌, ◌≤◌, ◌≡◌, ◌≢◌, refl, ap, Bool, true, false, ◌&&◌, List, [], ◌∷◌, ltb, ◌==◌,
  Bool-cases, inl, inr, length, take, arith,
}
use qw_fnfer_xpu.Prefix.Engine.{Engine, Faithful, Json}
use qw_fnfer_xpu.Prefix.Server.{
  Entry, Server, Reply, no_reply, meta_bytes, entry_bytes, equal_prefix, of_consumed, supersede,
  supersede_all, push, pool_save, pool_boundary_save, imgs_before, pool_evict_to,
}
use qw_fnfer_xpu.Prefix.Evict.{IsExact, pool_evict_to-Evicted}
use qw_fnfer_xpu.Prefix.Saves.{
  after, scan, scan_all, kept_reply, Filling, gives_up, pushes, Saving, declines, touches, covered,
  saves, pool_save-Saving, BoundarySaving, declines, touches, saves, pool_boundary_save-Saving,
}
use qw_fnfer_xpu.Prefix.Accounts.{Inv, scanned-Inv, scanned_all-Inv}

module _ (g : Engine) (j : Json) (seq : g.E → List ℕ) where
  abbrev S : Type 0
  S = Server g j

  -- The pool and the parked checkpoints fit the budget.
  abbrev pub Fits : S → Type 0
  Fits s = s.pool_bytes + s.parked_bytes ≤ s.pool_budget

  equal_prefix-equal :
      (xs ys : List ℕ) → equal_prefix xs ys ≡ true → length xs ≡ length ys → xs ≡ ys
  unfolding equal_prefix
  equal_prefix-equal [] [] e n = refl
  equal_prefix-equal [] (y ∷ ys) e n = absurd (omega arith)
  equal_prefix-equal (x ∷ xs) [] e n = absurd (omega arith)
  equal_prefix-equal (x ∷ xs) (y ∷ ys) e n = ground (arith, equal_prefix-equal xs ys)

  -- No entry of the pool has these tokens.
  abbrev pub NoneOf : List ℕ → List (Entry g j) → Type 0
  NoneOf tok [] = Unit {0}
  NoneOf tok (pe ∷ pool) = (pe.tok ≢ tok) × NoneOf tok pool

  supersede-fewer :
      (s : S) (keep bytes : ℕ) (pool : List (Entry g j))
      → NoneOf s.consumed pool
      → ((supersede g j s keep bytes pool).bytes ≤ bytes)
        × ((supersede g j s keep bytes pool).touched ≡ false)
  unfolding supersede
  supersede-fewer s keep bytes [] h = (omega arith, refl)
  supersede-fewer s keep bytes (pe ∷ pool) (ne, h) =
      let rest = supersede-fewer s keep bytes pool h in
      let without = supersede-fewer s keep (bytes - entry_bytes g j pe) pool h in
      elim (Bool-cases (of_consumed g j s.consumed pe)) [
        | inr a ↦ rw (a, supersede) rest
        | inl a ↦ elim (Bool-cases (pe.boundary && ltb (length pe.tok) (length s.consumed))) [
          | inl b ↦ rw (a, b, supersede) rest
          | inr b ↦ elim (Bool-cases (length pe.tok == length s.consumed)) [
            | inl c ↦
                absurd (ne (equal_prefix-equal pe.tok s.consumed (ground arith) (ground arith)))
            | inr c ↦ elim (Bool-cases (pe.id == keep)) [
              | inl d ↦ rw (a, b, c, d, supersede) rest
              | inr d ↦ rw (a, b, c, d, supersede) (omega (arith, without.0), without.1)
            ]
          ]
        ]
      ]

  supersede_all-fewer :
      (clock : ℕ) (tok : List ℕ) (bytes : ℕ) (pool : List (Entry g j))
      → (supersede_all g j clock tok bytes pool).bytes ≤ bytes
  unfolding supersede_all
  supersede_all-fewer clock tok bytes [] = omega arith
  supersede_all-fewer clock tok bytes (pe ∷ pool) = ground (
    arith,
    supersede_all-fewer clock tok bytes pool,
    supersede_all-fewer clock tok (bytes - entry_bytes g j pe) pool,
  )

  Filling-Fits :
      (s : S) (keep size : ℕ) (tok : List ℕ) (img : List (ℕ × ℕ)) (last : Reply g j)
      (boundary : Bool) (t : S)
      → Faithful g seq
      → meta_bytes g j tok img last ≤ size
      → Filling g j s (g.checkpoint_bytes s.eng + size) keep tok img last boundary t
      → IsExact g j s
      → Fits s
      → Fits t
  unfolding push
  Filling-Fits s keep size tok img last boundary _ fa le gives_up h fits =
      let need = g.checkpoint_bytes s.eng + size in
      let out = (pool_evict_to g j s need keep).0 in
      let r = pool_evict_to-Evicted g j s need keep h in
      let parked : out.parked_bytes ≡ s.parked_bytes = ap (λ (x : S). x.parked_bytes) r.frame in
      let budget : out.pool_budget ≡ s.pool_budget = ap (λ (x : S). x.pool_budget) r.frame in
      omega (arith, parked, budget, r.fewer)
  Filling-Fits s keep size tok img last boundary _ fa le (pushes ck room e) h fits =
      let need = g.checkpoint_bytes s.eng + size in
      let out = (pool_evict_to g j s need keep).0 in
      let r = pool_evict_to-Evicted g j s need keep h in
      let parked : out.parked_bytes ≡ s.parked_bytes = ap (λ (x : S). x.parked_bytes) r.frame in
      let budget : out.pool_budget ≡ s.pool_budget = ap (λ (x : S). x.pool_budget) r.frame in
      omega (arith, parked, budget, r.made room, fa.save_size s.eng ck e)

  meta_bytes-kept_reply :
      (s : S) (tok : List ℕ) (img : List (ℕ × ℕ))
      → j.is_null j.null ≡ true
      → meta_bytes g j tok img (kept_reply g j s) ≤ meta_bytes g j tok img s.last
  unfolding meta_bytes
  meta_bytes-kept_reply s tok img nul = elim (Bool-cases (j.is_array s.last.msgs)) [
    | inl e ↦ rw e (omega arith)
    | inr e ↦ rw (e, nul) (omega arith)
  ]

  Saving-Fits :
      (s : S) (keep : ℕ) (t : S)
      → Faithful g seq
      → j.is_null j.null ≡ true
      → NoneOf s.consumed s.pool
      → Saving g j s keep t
      → Inv g j s
      → Fits s
      → Fits t
  Saving-Fits s keep _ fa nul new declines h fits = fits
  Saving-Fits s keep _ fa nul new (touches d) h fits =
      absurd (ground (arith, supersede-fewer s keep s.pool_bytes s.pool new))
  Saving-Fits s keep _ fa nul new (covered d) h fits =
      omega (arith, (supersede-fewer s keep s.pool_bytes s.pool new).0)
  Saving-Fits s keep t fa nul new (saves d a b f) h fits =
      Filling-Fits (after g j s (scan g j s keep)) keep
        (meta_bytes g j s.consumed s.consumed_img s.last) s.consumed s.consumed_img
        (kept_reply g j s) false t fa (meta_bytes-kept_reply s s.consumed s.consumed_img nul) f
        (scanned-Inv g j s keep h).0
        (omega (arith, (supersede-fewer s keep s.pool_bytes s.pool new).0))

  -- Where the accounts are exact, the pool and the parked checkpoints fit the budget and no entry has
  -- the live sequence's tokens, they still fit after `pool_save`, for an engine whose checkpoints are
  -- no larger than announced and a null that is null.
  pub pool_save-Fits :
      (s : S) (keep : ℕ)
      → Faithful g seq
      → j.is_null j.null ≡ true
      → NoneOf s.consumed s.pool
      → Inv g j s
      → Fits s
      → Fits (pool_save g j s keep)
  pool_save-Fits s keep fa nul new =
      Saving-Fits s keep (pool_save g j s keep) fa nul new (pool_save-Saving g j s keep)

  BoundarySaving-Fits :
      (s : S) (hist : List ℕ) (n : ℕ) (t : S)
      → Faithful g seq
      → BoundarySaving g j s hist n t
      → Inv g j s
      → Fits s
      → Fits t
  BoundarySaving-Fits s hist n _ fa declines h fits = fits
  BoundarySaving-Fits s hist n _ fa (touches d) h fits =
      omega (arith, supersede_all-fewer s.pool_clock (take n hist) s.pool_bytes s.pool)
  BoundarySaving-Fits s hist n t fa (saves d e f) h fits =
      let img = imgs_before n s.consumed_img in
      Filling-Fits (after g j s (scan_all g j s hist n)) 0
        (meta_bytes g j (take n hist) img (no_reply g j)) (take n hist) img (no_reply g j) true t fa
        (omega arith) f (scanned_all-Inv g j s hist n h).0
        (omega (arith, supersede_all-fewer s.pool_clock (take n hist) s.pool_bytes s.pool))

  -- Where the accounts are exact and the pool and the parked checkpoints fit the budget, they still
  -- fit after `pool_boundary_save`, for an engine whose checkpoints are no larger than announced.
  pub pool_boundary_save-Fits :
      (s : S) (hist : List ℕ) (n : ℕ)
      → Faithful g seq
      → Inv g j s
      → Fits s
      → Fits (pool_boundary_save g j s hist n)
  pool_boundary_save-Fits s hist n fa =
      BoundarySaving-Fits s hist n (pool_boundary_save g j s hist n) fa
        (pool_boundary_save-Saving g j s hist n)
