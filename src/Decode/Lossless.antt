-- ===== src/Decode/Lossless.antt =====
-- The decode loop of `generate` in tools/qwfn_server.cpp against generation without drafts.
use qw_fnfer_xpu.Base.{
  if_true, if_false, ℕ, zero, suc, ◌+◌, ◌≤◌, ◌≡◌, ◌⊎◌, refl, sym, ap, ◌∙◌, inl, inr, Bool-cases,
  Bool, true, false, Option, some, List, [], ◌∷◌, ◌++◌, length, ltb, ltb→lt, ltb→ge,
}
use qw_fnfer_xpu.Lookup.Drafter.{Drafter}
use qw_fnfer_xpu.Decode.Parts.{Parts, Exact}
use qw_fnfer_xpu.Decode.Reply.{Reply, After, over, cut_off, goes_on, by_length, take_token, closed}
use qw_fnfer_xpu.Decode.Loop.{
  Loop, ended, next, after_text, entered, iteration, run, go_on, start, started, decode,
}
use qw_fnfer_xpu.Decode.Loop.Moves.{Sim}
use qw_fnfer_xpu.Decode.Loop.Turns.{Kept, take_token-Kept, room_Moves, no_room_Ends}
use qw_fnfer_xpu.Decode.Reference.{plain, plain_decode}

After-cases : (a : After) → Kept a → ((r : Reply) × (a ≡ over r)) ⊎ ((r : Reply) × (a ≡ goes_on r))
After-cases (over r) h = inl (r, refl)
After-cases (cut_off r) h = absurd h
After-cases (goes_on r) h = inr (r, refl)

pair : {r r' : Reply} {n n' : ℕ} → r ≡ r' → n ≡ n' → ◌≡◌ {A = Reply × ℕ} (r, n) (r', n')
pair {r} {r'} {n} {n'} e e' =
    let f : Reply → ℕ → Reply × ℕ = λ a b. (a, b) in ap (λ z. f z n) e ∙ ap (λ z. f r' z) e'

module _ (m : Parts) {seq : m.E → List ℕ} {model : List ℕ → m.L} {k : ℕ} (x : Exact m seq model k)
    (one : 1 ≤ k) (few : m.lookup_drafts ≤ k) (unbounded : m.reasoning_budget ≡ 0) where
  abbrev Comes : Option (Loop m) → Reply × ℕ → Type 0
  Comes o p = (l : Loop m) × (o ≡ some l) × ((l.reply, l.n) ≡ p)

  ends : (left : ℕ) (l l' : Loop m) → iteration m l ≡ ended l' → run m (suc left) l ≡ some l'
  unfolding run
  ends left l l' e = rw (e, run) refl

  goes : (left : ℕ) (l l' : Loop m) → iteration m l ≡ next l' → run m (suc left) l ≡ run m left l'
  unfolding run
  goes left l l' e = rw (e, run) refl

  on_eog :
      (l : Loop m)
      → m.is_eog l.tok ≡ true
      → iteration m l ≡ ended (record (entered m l) { n = l.n + 1 })
  unfolding iteration
  on_eog l eog = if_true _ _ _ eog

  on_text :
      (l : Loop m) (a : After)
      → m.is_eog l.tok ≡ false
      → take_token m l.reply l.n l.tok ≡ a
      → iteration m l ≡ after_text m (entered m l) a
  unfolding iteration
  on_text l a eog t = if_false _ _ _ eog ∙ ap (λ z. after_text m (entered m l) z) t

  module _ (left : ℕ) (h : List ℕ) (s : m.S) (tok n : ℕ) (r r' : Reply) where
    plain_eog : m.is_eog tok ≡ true → plain m model (suc left) h s tok n r ≡ (r, n + 1)
    unfolding plain
    plain_eog eog = rw (eog, plain) refl

    plain_over :
        m.is_eog tok ≡ false
        → take_token m r n tok ≡ over r'
        → plain m model (suc left) h s tok n r ≡ (r', n + 1)
    unfolding plain
    plain_over eog t = rw (eog, t, plain) refl

    plain_full :
        m.is_eog tok ≡ false
        → take_token m r n tok ≡ goes_on r'
        → ltb m.n_ctx (length (h ++ tok ∷ []) + 1) ≡ true
        → plain m model (suc left) h s tok n r ≡ (record r' { finish = by_length }, n + 1)
    unfolding plain
    plain_full eog t full = rw (eog, t, full, plain) refl

    plain_goes :
        (y : ℕ) (s' : m.S)
        → m.is_eog tok ≡ false
        → take_token m r n tok ≡ goes_on r'
        → ltb m.n_ctx (length (h ++ tok ∷ []) + 1) ≡ false
        → m.pick (m.gen_push s tok) (model (h ++ tok ∷ [])) ≡ (y, s')
        → plain m model (suc left) h s tok n r ≡ plain m model left (h ++ tok ∷ []) s' y (n + 1) r'
    unfolding plain
    plain_goes y s' eog t room p = rw (eog, t, room, p, plain) refl

  after_goes :
      (l : Loop m) (r : Reply)
      → after_text m (entered m l) (goes_on r) ≡ go_on m (record (entered m l) { reply = r })
  unfolding after_text
  after_goes l r = refl

  after_over :
      (l : Loop m) (r : Reply)
      → after_text m (entered m l) (over r)
        ≡ ended (record (entered m l) { n = l.n + 1; reply = r })
  unfolding after_text entered
  after_over l r = refl

  run-plain :
      (left : ℕ) (l : Loop m) (h : List ℕ) (s : m.S)
      → Sim m x l.tok_in l h s
      → Comes (run m left l) (plain m model left h s l.tok l.n l.reply)
  unfolding run plain entered
  run-plain zero l h s sim = (l, refl, refl)
  run-plain (suc left) l h s sim = elim (Bool-cases (m.is_eog l.tok)) [
    | inl eog ↦ (
      _,
      ends left l (record (entered m l) { n = l.n + 1 }) (on_eog l eog),
      sym (plain_eog left h s l.tok l.n l.reply l.reply eog),
    )
    | inr eog ↦
        elim (After-cases (take_token m l.reply l.n l.tok)
          (take_token-Kept m l.reply l.n l.tok unbounded)) [
            | inl (r, t) ↦ (
              _,
              ends left l (record (entered m l) { n = l.n + 1; reply = r })
                  (on_text l (over r) eog t ∙ after_over l r),
              sym (plain_over left h s l.tok l.n l.reply r eog t),
            )
            | inr (r, t) ↦
                let it = on_text l (goes_on r) eog t ∙ after_goes l r in
                elim (Bool-cases (ltb m.n_ctx (length (h ++ l.tok ∷ []) + 1))) [
                  | inl full ↦
                      let (l', e, er, en) =
                        no_room_Ends m x one few l h s r l.tok_in refl sim eog
                          (ltb→lt m.n_ctx (length (h ++ l.tok ∷ []) + 1) full) in
                      (
                        l',
                        ends left l l' (it ∙ e),
                        pair er en ∙ sym (plain_full left h s l.tok l.n l.reply r eog t full),
                      )
                  | inr room ↦
                      let (l', s1, e, en, er, p, sim') =
                        room_Moves m x one few l h s r l.tok_in refl sim eog
                          (ltb→ge m.n_ctx (length (h ++ l.tok ∷ []) + 1) room) in
                      let (l'', f, c) = run-plain left l' (h ++ l.tok ∷ []) s1 sim' in
                      (
                        l'',
                        goes left l l' (it ∙ e) ∙ f,
                        c
                            ∙ ap (λ z. plain m model left (h ++ l.tok ∷ []) s1 l'.tok z l'.reply) en
                            ∙ ap (λ z. plain m model left (h ++ l.tok ∷ []) s1 l'.tok (l.n + 1) z)
                                er
                            ∙ sym (plain_goes left h s l.tok l.n l.reply r l'.tok s1 eog t room p),
                      )
                ]
          ]
  ]

  -- The decode loop with drafts gives the reply that generation without drafts gives: the same text,
  -- deltas, finish and count of tokens. This is so from an engine that has taken in the prompt, for any
  -- drafts that the head or the lookup propose, a sampler with any state of its own, and a thinking
  -- without a budget, where the engine's logits are the model's on the tokens before and its calls
  -- succeed within the context. A step has room for one draft and for the lookup's.
  pub decode-plain_decode :
      (e : m.E) (smp : m.S) (hist : List ℕ) (lookup : Drafter) (policy : m.P) (thinking : Bool)
      → seq e ≡ hist
      → (l : Loop m) × (decode m e (model hist) smp hist lookup policy thinking ≡ some l)
        × ((l.reply, l.n) ≡ plain_decode m model smp hist thinking)
  unfolding decode start started plain_decode closed
  decode-plain_decode e smp hist lookup policy thinking held =
      let r = m.pick smp (model hist) in
      let (e1, st, q) = x.steps e (r.0 ∷ []) in
      let l0 = (started m e1 r.1 hist lookup policy thinking r.0) in
      let (l, f, c) = run-plain m.budget l0 hist r.1 (q ∙ held, refl, refl) in
      rw (st, f, decode, start) (_, refl, ap (closed m.budget) c)
