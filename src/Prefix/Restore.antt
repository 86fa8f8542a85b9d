-- ===== src/Prefix/Restore.antt =====
-- What the engine continues from: the live sequence's tokens and the entries' checkpoints.
use qw_fnfer_xpu.Base.{
  ℕ, ◌<◌, ◌≡◌, refl, ap, sym, subst, ◌∙◌, inl, inr, Bool, true, false, some, List, [], ◌∷◌, ◌++◌,
  ◌==◌, Bool-cases, length, take, arith,
}
use qw_fnfer_xpu.Prefix.Engine.{Engine, Faithful, Json}
use qw_fnfer_xpu.Prefix.Server.{
  Entry, Server, Reply, no_reply, equal_prefix, push, pool_save, pool_boundary_save, imgs_before,
  pool_evict_to, pool_find,
}
use qw_fnfer_xpu.Prefix.Evict.{pool_evict_to-Evicted}
use qw_fnfer_xpu.Prefix.Kept.{
  Kept, drops, keeps, supersede-Kept, supersede_all-Kept, pool_evict_to-Kept,
}
use qw_fnfer_xpu.Prefix.Saves.{
  after, scan, scan_all, kept_reply, need_of, boundary_need, Filling, gives_up, pushes, Saving,
  declines, touches, covered, saves, pool_save-Saving, BoundarySaving, declines, touches, saves,
  pool_boundary_save-Saving,
}
use qw_fnfer_xpu.Prefix.Accounts.{Inv, scanned-Inv, scanned_all-Inv}

-- The tokens are `xs` and at least one more.
abbrev pub Extends : List ℕ → List ℕ → Type 0
Extends ys xs = (y : ℕ) × (rest : List ℕ) × (ys ≡ xs ++ y ∷ rest)

pub equal_prefix-Extends :
    (xs ys : List ℕ) → equal_prefix xs ys ≡ true → length xs < length ys → Extends ys xs
unfolding equal_prefix
equal_prefix-Extends [] [] e n = absurd (omega arith)
equal_prefix-Extends [] (y ∷ ys) e n = (y, ys, refl)
equal_prefix-Extends (x ∷ xs) [] e n = absurd (omega arith)
equal_prefix-Extends (x ∷ xs) (y ∷ ys) e n =
    let (z, rest, q) = equal_prefix-Extends xs ys (ground arith) (omega arith) in
    let same : x ≡ y = ground arith in (z, rest, rw (same, q) refl)

module _ (g : Engine) (j : Json) (seq : g.E → List ℕ) where
  abbrev S : Type 0
  S = Server g j

  abbrev Pool : Type 0
  Pool = List (Entry g j)

  -- Restoring the entry's checkpoint brings back exactly its tokens.
  abbrev pub Stored : Entry g j → Type 0
  Stored pe = (e e' : g.E) → g.restore e pe.ck ≡ some e' → seq e' ≡ pe.tok

  abbrev pub AllStored : Pool → Type 0
  AllStored [] = Unit {0}
  AllStored (pe ∷ pool) = Stored pe × AllStored pool

  -- The engine has consumed what the server believes, and every entry is stored.
  abbrev pub Agrees : S → Type 0
  Agrees s = (seq s.eng ≡ s.consumed) × AllStored s.pool

  pub AllStored-Kept : (new old : Pool) → Kept g j new old → AllStored old → AllStored new
  AllStored-Kept [] old k h = tt
  AllStored-Kept (x ∷ new) [] k h = elim k [ ]
  AllStored-Kept new (pe ∷ old) (drops k) h = AllStored-Kept new old k h.1
  AllStored-Kept (x ∷ new) (pe ∷ old) (keeps (tok, img, ck, id) k) h = (
    λ e e' r. h.0 e e' (subst (λ c. g.restore e c ≡ some e') ck r) ∙ sym tok,
    AllStored-Kept new old k h.1,
  )

  AllStored-push :
      (pool : Pool) (pe : Entry g j) → AllStored pool → Stored pe → AllStored (pool ++ pe ∷ [])
  AllStored-push [] pe h s = (s, tt)
  AllStored-push (x ∷ pool) pe h s = (h.0, AllStored-push pool pe h.1 s)

  pub AllStored-pool_find :
      (id : ℕ) (pool : Pool) (pe : Entry g j)
      → AllStored pool
      → pool_find g j id pool ≡ some pe
      → Stored pe
  unfolding pool_find
  AllStored-pool_find id [] pe h e = absurd (ground arith)
  AllStored-pool_find id (x ∷ pool) pe h e = elim (Bool-cases (x.id == id)) [
    | inl a ↦ let q : x ≡ pe = ground arith in subst (λ y. Stored y) q h.0
    | inr a ↦ AllStored-pool_find id pool pe h.1 (ground arith)
  ]

  -- The live sequence is left alone, and the entries are stored.
  abbrev pub Undisturbed : S → S → Type 0
  Undisturbed s t = (t.eng ≡ s.eng) × (t.consumed ≡ s.consumed) × AllStored t.pool

  Filling-Undisturbed :
      (s : S) (need keep : ℕ) (tok : List ℕ) (img : List (ℕ × ℕ)) (last : Reply g j)
      (boundary : Bool) (t : S)
      → Faithful g seq
      → seq s.eng ≡ tok
      → Filling g j s need keep tok img last boundary t
      → Inv g j s
      → AllStored s.pool
      → Undisturbed s t
  unfolding push
  Filling-Undisturbed s need keep tok img last boundary _ fa same gives_up h st =
      let out = (pool_evict_to g j s need keep).0 in
      let r = pool_evict_to-Evicted g j s need keep h.0 in
      (
        ap (λ (x : S). x.eng) r.frame,
        ap (λ (x : S). x.consumed) r.frame,
        AllStored-Kept out.pool s.pool (pool_evict_to-Kept g j s need keep) st,
      )
  Filling-Undisturbed s need keep tok img last boundary t fa same (pushes ck room e) h st =
      let out = (pool_evict_to g j s need keep).0 in
      let r = pool_evict_to-Evicted g j s need keep h.0 in
      (
        ap (λ (x : S). x.eng) r.frame,
        ap (λ (x : S). x.consumed) r.frame,
        AllStored-push out.pool _
            (AllStored-Kept out.pool s.pool (pool_evict_to-Kept g j s need keep) st)
            (λ a b q. fa.restore_save s.eng a b ck e q ∙ same),
      )

  Saving-Undisturbed :
      (s : S) (keep : ℕ) (t : S)
      → Faithful g seq
      → Saving g j s keep t
      → Inv g j s
      → Agrees s
      → Undisturbed s t
  Saving-Undisturbed s keep _ fa declines h ag = (refl, refl, ag.1)
  Saving-Undisturbed s keep _ fa (touches d) h ag = (
    refl,
    refl,
    AllStored-Kept (scan g j s keep).pool s.pool (supersede-Kept g j s keep s.pool_bytes s.pool)
        ag.1,
  )
  Saving-Undisturbed s keep _ fa (covered d) h ag = (
    refl,
    refl,
    AllStored-Kept (scan g j s keep).pool s.pool (supersede-Kept g j s keep s.pool_bytes s.pool)
        ag.1,
  )
  Saving-Undisturbed s keep t fa (saves d a b f) h ag =
      Filling-Undisturbed (after g j s (scan g j s keep)) (need_of g j s) keep s.consumed
        s.consumed_img (kept_reply g j s) false t fa ag.0 f (scanned-Inv g j s keep h)
        (AllStored-Kept (scan g j s keep).pool s.pool
          (supersede-Kept g j s keep s.pool_bytes s.pool) ag.1)

  pub pool_save-Undisturbed :
      (s : S) (keep : ℕ)
      → Faithful g seq
      → Inv g j s
      → Agrees s
      → Undisturbed s (pool_save g j s keep)
  pool_save-Undisturbed s keep fa =
      Saving-Undisturbed s keep (pool_save g j s keep) fa (pool_save-Saving g j s keep)

  BoundarySaving-Undisturbed :
      (s : S) (hist : List ℕ) (n : ℕ) (t : S)
      → Faithful g seq
      → (g.n_past s.eng ≡ n → seq s.eng ≡ take n hist)
      → BoundarySaving g j s hist n t
      → Inv g j s
      → AllStored s.pool
      → Undisturbed s t
  BoundarySaving-Undisturbed s hist n _ fa same declines h st = (refl, refl, st)
  BoundarySaving-Undisturbed s hist n _ fa same (touches d) h st = (
    refl,
    refl,
    AllStored-Kept (scan_all g j s hist n).pool s.pool
        (supersede_all-Kept g j s.pool_clock (take n hist) s.pool_bytes s.pool) st,
  )
  BoundarySaving-Undisturbed s hist n t fa same (saves d e f) h st =
      Filling-Undisturbed (after g j s (scan_all g j s hist n)) (boundary_need g j s hist n) 0
        (take n hist) (imgs_before n s.consumed_img) (no_reply g j) true t fa (same e) f
        (scanned_all-Inv g j s hist n h)
        (AllStored-Kept (scan_all g j s hist n).pool s.pool
          (supersede_all-Kept g j s.pool_clock (take n hist) s.pool_bytes s.pool) st)

  -- Where a prefill has brought the engine to the first `n` tokens of the prompt's history and every
  -- entry is stored, `pool_boundary_save` leaves the live sequence alone and every entry stored.
  pub pool_boundary_save-Undisturbed :
      (s : S) (hist : List ℕ) (n : ℕ)
      → Faithful g seq
      → (g.n_past s.eng ≡ n → seq s.eng ≡ take n hist)
      → Inv g j s
      → AllStored s.pool
      → Undisturbed s (pool_boundary_save g j s hist n)
  pool_boundary_save-Undisturbed s hist n fa same =
      BoundarySaving-Undisturbed s hist n (pool_boundary_save g j s hist n) fa same
        (pool_boundary_save-Saving g j s hist n)
