-- ===== src/Decode/Prefill.antt =====
-- The prefill of `generate` in tools/qwfn_server.cpp: the prompt is fed in passes, with a stop at the
-- prompt's boundary where a checkpoint is kept there. Its yield points are left out.
use qw_fnfer_xpu.Base.{
  ℕ, zero, suc, ◌+◌, ◌-◌, ◌≤◌, ◌<◌, ◌≡◌, refl, ap, sym, ◌∙◌, subst, min, max, Bool, true, false,
  ◌&&◌, Option, none, some, List, [], ◌∷◌, ◌++◌, length, length-take, length-drop, take, drop, ltb,
  leb, ◌==◌, if◌then◌else◌, arith,
}
use qw_fnfer_xpu.Decode.Parts.{Parts}
pub mod Feeds

module _ (m : Parts) where
  -- The engine after the passes, the last pass's logits, and each call of `pool_boundary_save`: the
  -- engine as it stood, and the tokens fed.
  pub record Fed : Type 0 where
    pub eng : m.E
    pub lg : Option m.L
    pub saves : List (m.E × ℕ)

  module _ (n_batch : ℕ) (hist : List ℕ) (at_boundary : Bool) (boundary : ℕ) where
    unfoldable pub stop_at : ℕ → ℕ
    stop_at fed = if at_boundary && ltb fed boundary then boundary else length hist

    unfoldable pub pass_size : ℕ → ℕ
    pass_size fed = min n_batch (stop_at fed - fed)

    unfoldable pub note_save : m.E → ℕ → List (m.E × ℕ) → List (m.E × ℕ)
    note_save e fed saves =
        if at_boundary && (fed == boundary) then saves ++ (e, fed) ∷ [] else saves

    -- `while (fed < hist.size())`, on fuel.
    unfoldable pub prefill : ℕ → ℕ → Fed → Option Fed
    prefill zero fed s = if ltb fed (length hist) then none else some s
    prefill (suc fuel) fed s = elim (ltb fed (length hist)) [
      | false ↦ some s
      | true ↦ elim (m.eval s.eng (take (fed + pass_size fed) hist) (pass_size fed)) [
        | none ↦ none
        | some (e, lg) ↦
            prefill fuel (fed + pass_size fed)
              (record { eng = e; lg = some lg; saves = note_save e (fed + pass_size fed) s.saves })
      ]
    ]

-- The tokens that the reply may have.
unfoldable pub budget_of : ℕ → ℕ → List ℕ → ℕ
budget_of n_ctx max_tok hist =
    let room = n_ctx - length hist - 2 in if ltb 0 max_tok then min max_tok room else room

-- Whether the prefill stops at the boundary: `pool_budget`, `pool_boundary` and `pool_min` are the
-- server's, `fed` the tokens that the engine holds already.
unfoldable pub stops_at_boundary : ℕ → ℕ → ℕ → ℕ → ℕ → List ℕ → Bool
stops_at_boundary pool_budget pool_boundary pool_min boundary fed hist =
    ltb 0 pool_budget
    && ltb 0 pool_boundary
    && leb (max pool_boundary pool_min) boundary
    && ltb fed boundary
    && ltb boundary (length hist)
