-- ===== src/Prefix/Saves.antt =====
-- The ways in which a save of the prefix cache can end.
use qw_fnfer_xpu.Base.{
  ℕ, ◌+◌, ◌<◌, ◌≡◌, Bool, true, false, not, ◌&&◌, ◌||◌, some, List, ltb, ◌==◌, if◌then◌else◌,
  Bool-cases, Option-cases, inl, inr, length, take, arith,
}
use qw_fnfer_xpu.Prefix.Engine.{Engine, Json}
use qw_fnfer_xpu.Prefix.Server.{
  Server, Reply, Scan, no_reply, meta_bytes, supersede, supersede_all, push, save_into, pool_save,
  pool_boundary_save, imgs_before, pool_evict_to,
}

module _ (g : Engine) (j : Json) where
  abbrev S : Type 0
  S = Server g j

  -- The server after a loop over the pool.
  abbrev pub after : S → Scan g j → S
  after s r = record s { pool = r.pool; pool_bytes = r.bytes }

  abbrev pub scan : S → ℕ → Scan g j
  scan s keep = supersede g j s keep s.pool_bytes s.pool

  abbrev pub scan_all : S → List ℕ → ℕ → Scan g j
  scan_all s hist n = supersede_all g j s.pool_clock (take n hist) s.pool_bytes s.pool

  abbrev pub ticked : S → S
  ticked s = record s { pool_clock = s.pool_clock + 1 }

  abbrev pub kept_reply : S → Reply g j
  kept_reply s = if j.is_array s.last.msgs then s.last else no_reply g j

  abbrev pub need_of : S → ℕ
  need_of s = g.checkpoint_bytes s.eng + meta_bytes g j s.consumed s.consumed_img s.last

  abbrev pub boundary_need : S → List ℕ → ℕ → ℕ
  boundary_need s hist n =
      g.checkpoint_bytes s.eng
      + meta_bytes g j (take n hist) (imgs_before n s.consumed_img) (no_reply g j)

  pub data Filling (s : S) (need keep : ℕ) (tok : List ℕ) (img : List (ℕ × ℕ)) (last : Reply g j)
      (boundary : Bool) : S → Type 0 where
    gives_up : Filling s need keep tok img last boundary (pool_evict_to g j s need keep).0
    pushes :
        (ck : g.C)
        → (pool_evict_to g j s need keep).1 ≡ true
        → g.save s.eng ≡ some ck
        → Filling s need keep tok img last boundary
            (push g j (pool_evict_to g j s need keep).0 tok img last ck boundary)

  pub save_into-Filling :
      (s : S) (need keep : ℕ) (tok : List ℕ) (img : List (ℕ × ℕ)) (last : Reply g j)
      (boundary : Bool)
      → Filling s need keep tok img last boundary (save_into g j s need keep tok img last boundary)
  unfolding save_into
  save_into-Filling s need keep tok img last boundary =
      elim (Bool-cases (pool_evict_to g j s need keep).1) [
        | inr full ↦ rw (full, save_into) gives_up
        | inl room ↦ elim (Option-cases (g.save s.eng)) [
          | inl e ↦ rw (room, e, save_into) gives_up
          | inr (ck, e) ↦ rw (room, e, save_into) (pushes ck room e)
        ]
      ]

  pub data Saving (s : S) (keep : ℕ) : S → Type 0 where
    declines : Saving s keep s
    touches : (scan s keep).touched ≡ true → Saving s keep (ticked (after s (scan s keep)))
    covered : (scan s keep).touched ≡ false → Saving s keep (after s (scan s keep))
    saves :
        {t : S}
        → (scan s keep).touched ≡ false
        → 0 < g.n_past s.eng
        → g.n_past s.eng ≡ length s.consumed
        → Filling
            (after s (scan s keep))
            (need_of s)
            keep
            s.consumed
            s.consumed_img
            (kept_reply s)
            false
            t
        → Saving s keep t

  pub pool_save-Saving : (s : S) (keep : ℕ) → Saving s keep (pool_save g j s keep)
  unfolding pool_save
  pool_save-Saving s keep =
      elim (Bool-cases ((g.n_past s.eng == 0) || not (g.n_past s.eng == length s.consumed))) [
        | inl a ↦ rw (a, pool_save) declines
        | inr a ↦ elim (Bool-cases (ltb (g.n_past s.eng) s.pool_min)) [
          | inl b ↦ rw (a, b, pool_save) declines
          | inr b ↦ elim (Bool-cases (ltb s.pool_budget (need_of s))) [
            | inl c ↦ rw (a, b, c, pool_save) declines
            | inr c ↦ elim (Bool-cases (scan s keep).touched) [
              | inl d ↦ rw (a, b, c, d, pool_save) (touches d)
              | inr d ↦
                  elim (Bool-cases (
                    (scan s keep).covered
                    && ltb s.pool_budget ((scan s keep).bytes + s.parked_bytes + need_of s))) [
                      | inl e ↦ rw (a, b, c, d, e, pool_save) (covered d)
                      | inr e ↦
                          rw (a, b, c, d, e, pool_save)
                            (saves d (ground arith) (ground arith) (
                              save_into-Filling (after s (scan s keep)) (need_of s) keep s.consumed
                                s.consumed_img (kept_reply s) false))
                    ]
            ]
          ]
        ]
      ]

  pub data BoundarySaving (s : S) (hist : List ℕ) (n : ℕ) : S → Type 0 where
    declines : BoundarySaving s hist n s
    touches :
        (scan_all s hist n).touched ≡ true
        → BoundarySaving s hist n (ticked (after s (scan_all s hist n)))
    saves :
        {t : S}
        → (scan_all s hist n).touched ≡ false
        → g.n_past s.eng ≡ n
        → Filling
            (after s (scan_all s hist n))
            (boundary_need s hist n)
            0
            (take n hist)
            (imgs_before n s.consumed_img)
            (no_reply g j)
            true
            t
        → BoundarySaving s hist n t

  pub pool_boundary_save-Saving :
      (s : S) (hist : List ℕ) (n : ℕ) → BoundarySaving s hist n (pool_boundary_save g j s hist n)
  unfolding pool_boundary_save
  pool_boundary_save-Saving s hist n = elim (Bool-cases (g.n_past s.eng == n)) [
    | inr a ↦ rw (a, pool_boundary_save) declines
    | inl a ↦ elim (Bool-cases (ltb s.pool_budget (boundary_need s hist n))) [
      | inl c ↦ rw (a, c, pool_boundary_save) declines
      | inr c ↦ elim (Bool-cases (scan_all s hist n).touched) [
        | inl d ↦ rw (a, c, d, pool_boundary_save) (touches d)
        | inr d ↦
            rw (a, c, d, pool_boundary_save)
              (saves d (ground arith) (
                save_into-Filling (after s (scan_all s hist n)) (boundary_need s hist n) 0
                  (take n hist) (imgs_before n s.consumed_img) (no_reply g j) true))
      ]
    ]
  ]
