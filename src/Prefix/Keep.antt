-- ===== src/Prefix/Keep.antt =====
-- A save spares the entry that is about to be restored.
use qw_fnfer_xpu.Base.{
  ℕ, ◌-◌, ◌≡◌, subst, ◌∙◌, Bool, false, ◌&&◌, some, List, [], ◌∷◌, ◌++◌, ltb, ◌==◌, Bool-cases, inl,
  inr, length, arith,
}
use qw_fnfer_xpu.Prefix.Engine.{Engine, Json}
use qw_fnfer_xpu.Prefix.Server.{
  Entry, Server, Reply, of_consumed, entry_bytes, touch, supersede, push, pool_find, pool_save,
  pool_evict_to,
}
use qw_fnfer_xpu.Prefix.Evict.{pool_evict_to-Evicted}
use qw_fnfer_xpu.Prefix.Kept.{Renewed, same, Renewed-trans, touch-Renewed}
use qw_fnfer_xpu.Prefix.Saves.{
  after, scan, kept_reply, need_of, Filling, gives_up, pushes, Saving, declines, touches, covered,
  saves, pool_save-Saving,
}
use qw_fnfer_xpu.Prefix.Accounts.{Inv, scanned-Inv}

module _ (g : Engine) (j : Json) where
  abbrev S : Type 0
  S = Server g j

  abbrev Pool : Type 0
  Pool = List (Entry g j)

  -- Whatever entry the id names in the old pool, it names a renewal of it in the new one.
  abbrev pub Finds : ℕ → Pool → Pool → Type 0
  Finds id new old =
      (pe : Entry g j)
      → pool_find g j id old ≡ some pe
      → (pe' : Entry g j) × (pool_find g j id new ≡ some pe') × Renewed g j pe' pe

  Finds-refl : (id : ℕ) (pool : Pool) → Finds id pool pool
  Finds-refl id pool pe e = (pe, e, same g j pe)

  Finds-trans : (id : ℕ) (x y z : Pool) → Finds id x y → Finds id y z → Finds id x z
  Finds-trans id x y z f h pe e =
      let (b, eb, rb) = h pe e in
      let (a, ea, ra) = f b eb in (a, ea, Renewed-trans g j a b pe ra rb)

  Finds-keep :
      (id : ℕ) (x' x : Entry g j) (new old : Pool)
      → Renewed g j x' x
      → Finds id new old
      → Finds id (x' ∷ new) (x ∷ old)
  unfolding pool_find
  Finds-keep id x' x new old r f pe e = elim (Bool-cases (x.id == id)) [
    | inl a ↦
        let q : x ≡ pe = ground arith in
        (x', ground (arith, r.3), subst (λ y. Renewed g j x' y) q r)
    | inr a ↦
        let q : pool_find g j id old ≡ some pe = ground arith in
        let (pe', e', r') = f pe q in (pe', ground (arith, r.3), r')
  ]

  Finds-drop :
      (id : ℕ) (x : Entry g j) (new old : Pool)
      → (x.id == id) ≡ false
      → Finds id new old
      → Finds id new (x ∷ old)
  unfolding pool_find
  Finds-drop id x new old a f pe e = f pe (ground (arith, a))

  Finds-push : (id : ℕ) (pool : Pool) (x : Entry g j) → Finds id (pool ++ x ∷ []) pool
  unfolding pool_find
  Finds-push id [] x pe e = absurd (ground arith)
  Finds-push id (y ∷ pool) x pe e =
      Finds-keep id y y (pool ++ x ∷ []) pool (same g j y) (Finds-push id pool x) pe e

  supersede-Finds :
      (s : S) (keep bytes : ℕ) (pool : Pool)
      → Finds keep (supersede g j s keep bytes pool).pool pool
  unfolding supersede
  supersede-Finds s keep bytes [] = Finds-refl keep []
  supersede-Finds s keep bytes (x ∷ pool) =
      let rest = supersede-Finds s keep bytes pool in
      let without = supersede-Finds s keep (bytes - entry_bytes g j x) pool in
      let kept =
        Finds-keep keep x x (supersede g j s keep bytes pool).pool pool (same g j x) rest in
      elim (Bool-cases (of_consumed g j s.consumed x)) [
        | inr a ↦ rw (a, supersede) kept
        | inl a ↦ elim (Bool-cases (x.boundary && ltb (length x.tok) (length s.consumed))) [
          | inl b ↦ rw (a, b, supersede) kept
          | inr b ↦ elim (Bool-cases (length x.tok == length s.consumed)) [
            | inl c ↦
                rw (a, b, c, supersede)
                  (Finds-keep keep (touch g j s x) x pool pool (touch-Renewed g j s x)
                    (Finds-refl keep pool))
            | inr c ↦ elim (Bool-cases (x.id == keep)) [
              | inl d ↦ rw (a, b, c, d, supersede) kept
              | inr d ↦
                  rw (a, b, c, d, supersede)
                    (Finds-drop keep x (supersede g j s keep (bytes - entry_bytes g j x) pool).pool
                      pool d without)
            ]
          ]
        ]
      ]

  evicted-Finds :
      (s : S) (need keep : ℕ) → Inv g j s → Finds keep (pool_evict_to g j s need keep).0.pool s.pool
  evicted-Finds s need keep h pe e =
      let r = pool_evict_to-Evicted g j s need keep h.0 in (pe, r.kept ∙ e, same g j pe)

  Filling-Finds :
      (s : S) (need keep : ℕ) (tok : List ℕ) (img : List (ℕ × ℕ)) (last : Reply g j)
      (boundary : Bool) (t : S)
      → Filling g j s need keep tok img last boundary t
      → Inv g j s
      → Finds keep t.pool s.pool
  unfolding push
  Filling-Finds s need keep tok img last boundary _ gives_up h = evicted-Finds s need keep h
  Filling-Finds s need keep tok img last boundary t (pushes ck room e) h =
      let out = (pool_evict_to g j s need keep).0 in
      Finds-trans keep t.pool out.pool s.pool (Finds-push keep out.pool _)
        (evicted-Finds s need keep h)

  Saving-Finds :
      (s : S) (keep : ℕ) (t : S) → Saving g j s keep t → Inv g j s → Finds keep t.pool s.pool
  Saving-Finds s keep _ declines h = Finds-refl keep s.pool
  Saving-Finds s keep _ (touches d) h = supersede-Finds s keep s.pool_bytes s.pool
  Saving-Finds s keep _ (covered d) h = supersede-Finds s keep s.pool_bytes s.pool
  Saving-Finds s keep t (saves d a b f) h =
      let scanned = after g j s (scan g j s keep) in
      Finds-trans keep t.pool scanned.pool s.pool
        (Filling-Finds scanned (need_of g j s) keep s.consumed s.consumed_img (kept_reply g j s)
          false t f (scanned-Inv g j s keep h))
        (supersede-Finds s keep s.pool_bytes s.pool)

  -- A save neither evicts nor supersedes the entry that `pool_switch` is about to restore: what its id
  -- named before has the same tokens, images and checkpoint afterwards, on exact accounts.
  pub pool_save-Finds :
      (s : S) (keep : ℕ) → Inv g j s → Finds keep (pool_save g j s keep).pool s.pool
  pool_save-Finds s keep = Saving-Finds s keep (pool_save g j s keep) (pool_save-Saving g j s keep)
