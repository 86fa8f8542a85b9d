-- ===== src/Decode/Reference.antt =====
-- Generation without drafts and without an engine, as the decode loop is meant to come out: each token
-- is picked from the model's logits on all the tokens before it.
use qw_fnfer_xpu.Base.{ℕ, zero, suc, ◌+◌, Bool, true, false, List, [], ◌∷◌, ◌++◌, length, ltb}
use qw_fnfer_xpu.Decode.Parts.{Parts}
use qw_fnfer_xpu.Decode.Reply.{Reply, by_length, over, cut_off, goes_on, take_token, fresh, closed}

module _ (m : Parts) (model : List ℕ → m.L) where
  unfoldable pub plain : ℕ → List ℕ → m.S → ℕ → ℕ → Reply → Reply × ℕ
  plain zero hist smp tok n r = (r, n)
  plain (suc left) hist smp tok n r = elim (m.is_eog tok) [
    | true ↦ (r, n + 1)
    | false ↦
        let h = hist ++ tok ∷ [] in
        let s = m.gen_push smp tok in
        elim (take_token m r n tok) [
          | over r' ↦ (r', n + 1)
          | cut_off r' ↦
              let (y, s') = m.pick s (model (h ++ m.cut_tokens)) in
              let r'' : Reply = record r' { in_think = false; reasoning_budget_hit = true } in
              elim (ltb m.n_ctx (length (h ++ m.cut_tokens) + 1)) [
                | true ↦ (record r' { finish = by_length }, n + 1)
                | false ↦ plain left (h ++ m.cut_tokens) s' y (n + 1) r''
              ]
          | goes_on r' ↦
              let (y, s') = m.pick s (model h) in
              elim (ltb m.n_ctx (length h + 1)) [
                | true ↦ (record r' { finish = by_length }, n + 1)
                | false ↦ plain left h s' y (n + 1) r'
              ]
        ]
  ]

  unfoldable pub plain_decode : m.S → List ℕ → Bool → Reply × ℕ
  plain_decode smp hist thinking =
      let (tok, smp') = m.pick smp (model hist) in
      closed m.budget (plain m.budget hist smp' tok 0 (fresh thinking))
