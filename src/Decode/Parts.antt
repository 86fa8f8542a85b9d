-- ===== src/Decode/Parts.antt =====
-- What the decode loop calls: `engine` of src/qwfn_engine.h, the sampler, the vocabulary, the client's
-- `on_delta` and the windows' policy.
use qw_fnfer_xpu.Base.{
  ℕ, suc, ◌+◌, ◌-◌, ◌≤◌, ◌≡◌, Bool, Option, some, List, [], ◌∷◌, ◌++◌, length, take,
}

-- What a verify step tells the policy. The time that it took is in `observe` itself.
pub record Observed : Type 0 where
  pub lookup : Bool
  pub t : ℕ
  pub drafted : ℕ
  pub accepted : ℕ
  pub match_len : ℕ
  pub rebuilt : Bool

-- A call of the engine that can fail returns an Option; -1 for no draft is `none`.
-- `mtp_drafts` are the drafts of the step, in order, up to the first one under the gate.
pub record Parts : Type 1 where
  pub E : Type 0
  pub L : Type 0
  pub S : Type 0
  pub P : Type 0
  pub eval : E → List ℕ → ℕ → Option (E × L)
  pub eval_decode : E → List ℕ → ℕ → Option E
  pub logits_pos : E → ℕ → L
  pub rollback_n : E → ℕ → Option E
  pub spec_layer0 : E → List ℕ → ℕ → E
  pub mtp_on : E → Bool
  pub mtp_step : E → List ℕ → Option E
  pub mtp_draft_id : E → Option ℕ
  pub mtp_draft_more : E → ℕ → Option E
  pub mtp_drafts : E → List ℕ
  pub n_past : E → ℕ
  pub n_replay : E → ℕ
  pub n_layer : ℕ
  pub gen_push : S → ℕ → S
  pub pick : S → L → ℕ × S
  pub is_eog : ℕ → Bool
  pub piece : ℕ → List ℕ
  pub cut_tokens : List ℕ
  pub on_delta : List (List ℕ × Bool) → List ℕ → Bool → Bool
  pub new_sequence : P → P
  pub drafts_wanted : P → ℕ
  pub judged : P → ℕ → Bool → P
  pub choose : P → ℕ → ℕ → Bool × P
  pub observe : P → Observed → P
  pub n_ctx : ℕ
  pub budget : ℕ
  pub reasoning_budget : ℕ
  pub lookup_drafts : ℕ
  pub lookup_on : Bool
  pub stops : List (List ℕ)

-- The engine as its header documents it: it holds a sequence of tokens; `eval` and `eval_decode` take
-- in the end of the history within the context, the logits of a position are the model's on the
-- tokens up to it, whether it came alone or in a batch, and `rollback_n` takes the last positions
-- of a multi-token step back. The head and the reads ahead leave the sequence alone.
pub record Exact (m : Parts) (seq : m.E → List ℕ) (model : List ℕ → m.L) (max_drafts : ℕ)
    : Type 0 where
  pub past : (e : m.E) → m.n_past e ≡ length (seq e)
  pub evals :
      (e : m.E) (hist : List ℕ) (t : ℕ) (ts : List ℕ) (n : ℕ)
      → hist ≡ seq e ++ t ∷ ts
      → n ≡ suc (length ts)
      → length hist ≤ m.n_ctx
      → (e' : m.E) × (m.eval e hist n ≡ some (e', model hist)) × (seq e' ≡ hist)
  pub decodes :
      (e : m.E) (hist : List ℕ) (t : ℕ) (ds : List ℕ)
      → hist ≡ seq e ++ t ∷ []
      → length ds ≤ max_drafts
      → length hist + length ds ≤ m.n_ctx
      → (e' : m.E) × (m.eval_decode e (hist ++ ds) (length ds + 1) ≡ some e')
        × (seq e' ≡ hist ++ ds)
        × ((xs ys : List ℕ) → ds ≡ xs ++ ys → m.logits_pos e' (length xs) ≡ model (hist ++ xs))
        × ((k : ℕ)
            → 1 ≤ k
            → k ≤ length ds
            → (e'' : m.E) × (m.rollback_n e' k ≡ some e'')
              × (seq e'' ≡ hist ++ take (length ds - k) ds))
  pub steps : (e : m.E) (ts : List ℕ) → (e' : m.E) × (m.mtp_step e ts ≡ some e') × (seq e' ≡ seq e)
  pub drafts_more :
      (e : m.E) (k : ℕ) → (e' : m.E) × (m.mtp_draft_more e k ≡ some e') × (seq e' ≡ seq e)
  pub reads_ahead : (e : m.E) (h : List ℕ) (t : ℕ) → seq (m.spec_layer0 e h t) ≡ seq e
  pub few_drafts : (e : m.E) → length (m.mtp_drafts e) ≤ max_drafts
