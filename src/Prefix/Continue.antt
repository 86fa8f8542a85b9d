-- ===== src/Prefix/Continue.antt =====
-- The sequence that `generate` continues once its head has settled it.
use qw_fnfer_xpu.Base.{
  ℕ, suc, ◌+◌, ◌≤◌, ◌≡◌, ◌≢◌, refl, ap, sym, subst, ◌∙◌, ◌⊎◌, inl, inr, Bool, true, false, some,
  List, [], ◌∷◌, length, arith,
}
use qw_fnfer_xpu.Prefix.Engine.{Engine, Faithful, Json}
use qw_fnfer_xpu.Prefix.Server.{
  Entry, Server, Prompt, pool_save, matches, id_of, pool_find, stamp, restore_hit, prefix_reuse,
  settle_sequence,
}
use qw_fnfer_xpu.Prefix.Kept.{Renewed, stamp-Kept}
use qw_fnfer_xpu.Prefix.Accounts.{Inv, Growing}
use qw_fnfer_xpu.Prefix.Keep.{pool_save-Finds}
use qw_fnfer_xpu.Prefix.Longest.{In, UpTo, NoMatch, longest-IsLongest}
use qw_fnfer_xpu.Prefix.Restore.{
  Extends, equal_prefix-Extends, Agrees, AllStored-Kept, AllStored-pool_find, pool_save-Undisturbed,
}
use qw_fnfer_xpu.Prefix.Switches.{
  Missing, unnamed, lost, refused, Switching, misses, restores, Settling, continues, resets,
  starts_over, switches, best_id, settle_sequence-Settling,
}

module _ (g : Engine) (j : Json) where
  abbrev S : Type 0
  S = Server g j

  abbrev Pool : Type 0
  Pool = List (Entry g j)

  prefix_reuse-Extends : (s : S) (p : Prompt) → prefix_reuse g j s p ≢ 0 → Extends p.tok s.consumed
  unfolding prefix_reuse
  prefix_reuse-Extends s p n = equal_prefix-Extends s.consumed p.tok (ground arith) (ground arith)

  matches-Extends : (p : Prompt) (pe : Entry g j) → matches g j p pe ≡ true → Extends p.tok pe.tok
  unfolding matches
  matches-Extends p pe m = equal_prefix-Extends pe.tok p.tok (ground arith) (ground arith)

  -- In a pool whose ids grow from above 0, an entry is found by its own id.
  pool_find-In :
      (lo n : ℕ) (pool : Pool) (pe : Entry g j)
      → Growing g j lo n pool
      → In g j pe pool
      → (lo ≤ pe.id) × (pool_find g j pe.id pool ≡ some pe)
  unfolding pool_find
  pool_find-In lo n [] pe h i = absurd i
  pool_find-In lo n (x ∷ pool) pe h (inl e) =
      subst (λ y. (lo ≤ y.id) × (pool_find g j y.id (x ∷ pool) ≡ some y)) (sym e)
        (h.0, ground arith)
  pool_find-In lo n (x ∷ pool) pe h (inr i) =
      let r = pool_find-In (suc x.id) n pool pe h.1 i in
      (omega (arith, h.0, r.0), ground (arith, r.0, r.1))

  -- A pool's longest match, which an id names.
  abbrev BestOf : S → Prompt → ℕ → Type 0
  BestOf s p id =
      (best : Entry g j) × In g j best s.pool
      × (matches g j p best ≡ true)
      × UpTo g j p (length best.tok) s.pool
      × (best.id ≡ id)
      × (id ≢ 0)
      × (pool_find g j id s.pool ≡ some best)

  best_id-BestOf :
      (s : S) (p : Prompt)
      → Inv g j s
      → ((best_id g j s p ≡ 0) × NoMatch g j p s.pool) ⊎ BestOf s p (best_id g j s p)
  unfolding id_of
  best_id-BestOf s p h = elim (longest-IsLongest g j p s.pool) [
    | inl (e, nm) ↦ inl (ap (id_of g j) e, nm)
    | inr (best, e, i, m, up) ↦
        let q : best_id g j s p ≡ best.id = ap (id_of g j) e in
        let f = pool_find-In 1 s.pool_next_id s.pool best h.1 i in
        inr (
          best,
          i,
          m,
          up,
          sym q,
          (λ z. omega (arith, q, z, f.0)),
          ap (λ k. pool_find g j k s.pool) q ∙ f.1,
        )
  ]

  -- What a switch restores is a renewal of the longest match.
  hit-Renewed :
      (s : S) (p : Prompt) (hit : Entry g j)
      → Inv g j s
      → best_id g j s p ≢ 0
      → pool_find g j (best_id g j s p) (pool_save g j s (best_id g j s p)).pool ≡ some hit
      → (best : Entry g j) × In g j best s.pool
        × (matches g j p best ≡ true)
        × UpTo g j p (length best.tok) s.pool
        × Renewed g j hit best
  hit-Renewed s p hit h nz e = elim (best_id-BestOf s p h) [
    | inl (z, nm) ↦ absurd (nz z)
    | inr (best, i, m, up, q, nz', f) ↦
        let (hit', e', r) = pool_save-Finds g j s (best_id g j s p) h best f in
        let same : hit' ≡ hit = ground arith in
        (best, i, m, up, subst (λ y. Renewed g j y best) same r)
  ]

  abbrev Continued : Prompt → S × Bool → Type 0
  Continued p r = r.1 ≡ true → Extends p.tok r.0.consumed

  Switching-Agrees :
      (s : S) (p : Prompt) (seq : g.E → List ℕ) (r : S × Bool)
      → Faithful g seq
      → Switching g j s (best_id g j s p) r
      → Inv g j s
      → Agrees g j seq s
      → Agrees g j seq r.0 × Continued p r
  unfolding restore_hit
  Switching-Agrees s p seq _ fa (misses m) h ag =
      let id = best_id g j s p in
      let (eng, con, st) = pool_save-Undisturbed g j seq s id fa h ag in
      ((ap seq eng ∙ ag.0 ∙ sym con, st), (λ e. absurd (ground arith)))
  Switching-Agrees s p seq _ fa (restores hit e nz f r) h ag =
      let id = best_id g j s p in
      let saved = pool_save g j s id in
      let (eng, con, st) = pool_save-Undisturbed g j seq s id fa h ag in
      let (best, i, m, up, ren) = hit-Renewed s p hit h nz f in
      (
        (
          AllStored-pool_find g j seq id saved.pool hit st f saved.eng e r,
          AllStored-Kept g j seq (stamp g j hit.id (saved.pool_clock + 1) saved.pool) saved.pool
              (stamp-Kept g j hit.id (saved.pool_clock + 1) saved.pool) st,
        ),
        (λ t. subst (λ xs. Extends p.tok xs) (sym ren.0) (matches-Extends p best m)),
      )

  Settling-Agrees :
      (s : S) (p : Prompt) (seq : g.E → List ℕ) (t : S)
      → Faithful g seq
      → Settling g j s p t
      → Inv g j s
      → Agrees g j seq s
      → Agrees g j seq t × ((t.consumed ≡ []) ⊎ Extends p.tok t.consumed)
  Settling-Agrees s p seq _ fa (continues n) h ag = (ag, inr (prefix_reuse-Extends s p n))
  Settling-Agrees s p seq _ fa (resets n z) h ag = ((fa.reset_empties s.eng, ag.1), inl refl)
  Settling-Agrees s p seq _ fa (starts_over {t} n sw) h ag =
      let r = Switching-Agrees s p seq (t, false) fa sw h ag in
      ((fa.reset_empties t.eng, r.0.1), inl refl)
  Settling-Agrees s p seq t fa (switches n sw) h ag =
      let r = Switching-Agrees s p seq (t, true) fa sw h ag in (r.0, inr (r.1 refl))

  -- Where the accounts are in order, the engine has consumed what the server believes and restoring any
  -- entry brings back its tokens, the same holds after the head of `generate`; and the engine has then
  -- consumed nothing, or tokens that the prompt continues with at least one more. The engine is any
  -- whose checkpoints are faithful.
  pub settle_sequence-Agrees :
      (s : S) (p : Prompt) (seq : g.E → List ℕ)
      → Faithful g seq
      → Inv g j s
      → Agrees g j seq s
      → Agrees g j seq (settle_sequence g j s p)
        × (((settle_sequence g j s p).consumed ≡ [])
            ⊎ Extends p.tok (settle_sequence g j s p).consumed)
  settle_sequence-Agrees s p seq fa =
      Settling-Agrees s p seq (settle_sequence g j s p) fa (settle_sequence-Settling g j s p)

  abbrev pub Longest : S → Prompt → S → Type 0
  Longest s p t =
      (best : Entry g j) × In g j best s.pool
      × (matches g j p best ≡ true)
      × UpTo g j p (length best.tok) s.pool
      × (t.consumed ≡ best.tok)

  NoMatch-In :
      (p : Prompt) (pool : Pool) (pe : Entry g j)
      → NoMatch g j p pool
      → In g j pe pool
      → matches g j p pe ≡ false
  NoMatch-In p [] pe nm i = absurd i
  NoMatch-In p (x ∷ pool) pe nm (inl e) = ap (matches g j p) e ∙ nm.0
  NoMatch-In p (x ∷ pool) pe nm (inr i) = NoMatch-In p pool pe nm.1 i

  Missing-absurd :
      (s : S) (p : Prompt) (pe : Entry g j)
      → ((e : g.E) (k : g.C) → (e' : g.E) × (g.restore e k ≡ some e'))
      → Inv g j s
      → In g j pe s.pool
      → matches g j p pe ≡ true
      → Missing g j s (best_id g j s p)
      → ⊥
  Missing-absurd s p pe total h i m miss = elim (best_id-BestOf s p h) [
    | inl (z, nm) ↦ let q = NoMatch-In p s.pool pe nm i in cc
    | inr (best, i', m', up, q, nz, f) ↦
        let (hit', e', r) = pool_save-Finds g j s (best_id g j s p) h best f in
        elim miss [
          | unnamed z ↦ nz z
          | lost l ↦ ground arith
          | refused hit e no_e ↦
              let (x, y) = total (pool_save g j s (best_id g j s p)).eng hit.ck in ground arith
        ]
  ]

  Settling-Longest :
      (s : S) (p : Prompt) (pe : Entry g j) (t : S)
      → ((e : g.E) (k : g.C) → (e' : g.E) × (g.restore e k ≡ some e'))
      → prefix_reuse g j s p ≡ 0
      → s.pool_budget ≢ 0
      → Inv g j s
      → In g j pe s.pool
      → matches g j p pe ≡ true
      → Settling g j s p t
      → Longest s p t
  unfolding restore_hit
  Settling-Longest s p pe _ total z on h i m (continues n) = absurd (n z)
  Settling-Longest s p pe _ total z on h i m (resets n off) = absurd (on off)
  Settling-Longest s p pe _ total z on h i m (starts_over n (misses miss)) =
      absurd (Missing-absurd s p pe total h i m miss)
  Settling-Longest s p pe _ total z on h i m (switches n (restores hit e nz f r)) =
      let (best, i', m', up, ren) = hit-Renewed s p hit h nz f in (best, i', m', up, ren.0)

  -- Where the prompt does not continue the live sequence, the cache is on and some entry matches the
  -- prompt, the head of `generate` leaves the server at the tokens of a longest matching entry of the
  -- pool as it was before the save, for accounts in order and an engine that restores any checkpoint.
  pub settle_sequence-Longest :
      (s : S) (p : Prompt) (pe : Entry g j)
      → ((e : g.E) (k : g.C) → (e' : g.E) × (g.restore e k ≡ some e'))
      → prefix_reuse g j s p ≡ 0
      → s.pool_budget ≢ 0
      → Inv g j s
      → In g j pe s.pool
      → matches g j p pe ≡ true
      → Longest s p (settle_sequence g j s p)
  settle_sequence-Longest s p pe total z on h i m =
      Settling-Longest s p pe (settle_sequence g j s p) total z on h i m
        (settle_sequence-Settling g j s p)
