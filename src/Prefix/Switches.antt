-- ===== src/Prefix/Switches.antt =====
-- The ways in which the head of `generate` can settle which sequence the engine continues.
use qw_fnfer_xpu.Base.{
  ℕ, ◌≡◌, ◌≢◌, subst, Bool, true, false, none, some, [], ltb, ◌==◌, Bool-cases, Option-cases, inl,
  inr, arith,
}
use qw_fnfer_xpu.Prefix.Engine.{Engine, Json}
use qw_fnfer_xpu.Prefix.Server.{
  Entry, Server, Prompt, pool_save, pool_find, longest, restore_hit, id_of, switch_to, pool_switch,
  prefix_reuse, settle_sequence,
}

module _ (g : Engine) (j : Json) where
  abbrev S : Type 0
  S = Server g j

  -- Why the entry of an id is not restored: there is none, the pool has lost it, or the engine refuses.
  pub data Missing (s : S) (id : ℕ) : Type 0 where
    unnamed : id ≡ 0 → Missing s id
    lost : pool_find g j id (pool_save g j s id).pool ≡ none → Missing s id
    refused :
        (hit : Entry g j)
        → pool_find g j id (pool_save g j s id).pool ≡ some hit
        → g.restore (pool_save g j s id).eng hit.ck ≡ none
        → Missing s id

  pub data Switching (s : S) (id : ℕ) : S × Bool → Type 0 where
    misses : Missing s id → Switching s id (pool_save g j s id, false)
    restores :
        (hit : Entry g j) (e : g.E)
        → id ≢ 0
        → pool_find g j id (pool_save g j s id).pool ≡ some hit
        → g.restore (pool_save g j s id).eng hit.ck ≡ some e
        → Switching s id (restore_hit g j (pool_save g j s id) hit e, true)

  pub switch_to-Switching : (s : S) (id : ℕ) → Switching s id (switch_to g j s id)
  unfolding switch_to
  switch_to-Switching s id = elim (Bool-cases (id == 0)) [
    | inl z ↦ rw (z, switch_to) (misses (unnamed (ground arith)))
    | inr z ↦ elim (Option-cases (pool_find g j id (pool_save g j s id).pool)) [
      | inl f ↦ rw (z, f, switch_to) (misses (lost f))
      | inr (hit, f) ↦ elim (Option-cases (g.restore (pool_save g j s id).eng hit.ck)) [
        | inl r ↦ rw (z, f, r, switch_to) (misses (refused hit f r))
        | inr (e, r) ↦ rw (z, f, r, switch_to) (restores hit e (λ n. ground arith) f r)
      ]
    ]
  ]

  abbrev pub best_id : S → Prompt → ℕ
  best_id s p = id_of g j (longest g j p s.pool none)

  abbrev pub emptied : S → S
  emptied s = record s { eng = g.reset s.eng; consumed = []; consumed_img = [] }

  pub data Settling (s : S) (p : Prompt) : S → Type 0 where
    continues : prefix_reuse g j s p ≢ 0 → Settling s p s
    resets : prefix_reuse g j s p ≡ 0 → s.pool_budget ≡ 0 → Settling s p (emptied s)
    starts_over :
        {t : S}
        → prefix_reuse g j s p ≡ 0
        → Switching s (best_id s p) (t, false)
        → Settling s p (emptied t)
    switches :
        {t : S} → prefix_reuse g j s p ≡ 0 → Switching s (best_id s p) (t, true) → Settling s p t

  pub settle_sequence-Settling : (s : S) (p : Prompt) → Settling s p (settle_sequence g j s p)
  unfolding settle_sequence pool_switch
  settle_sequence-Settling s p = elim (Bool-cases (prefix_reuse g j s p == 0)) [
    | inr more ↦ rw (more, settle_sequence) (continues (λ n. ground arith))
    | inl fresh ↦ elim (Bool-cases (ltb 0 s.pool_budget)) [
      | inr off ↦ rw (fresh, off, settle_sequence) (resets (ground arith) (ground arith))
      | inl on ↦
          let sw = switch_to-Switching s (best_id s p) in
          elim (Bool-cases (pool_switch g j s p).1) [
            | inl b ↦
                rw (fresh, on, b, settle_sequence, pool_switch)
                  (switches (ground arith) (
                    subst (λ x. Switching s (best_id s p) ((switch_to g j s (best_id s p)).0, x)) b
                      sw))
            | inr b ↦
                rw (fresh, on, b, settle_sequence, pool_switch)
                  (starts_over (ground arith) (
                    subst (λ x. Switching s (best_id s p) ((switch_to g j s (best_id s p)).0, x)) b
                      sw))
          ]
    ]
  ]
