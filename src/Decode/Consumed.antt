-- ===== src/Decode/Consumed.antt =====
-- What the engine holds when the decode loop of `generate` in tools/qwfn_server.cpp is over.
use qw_fnfer_xpu.Base.{
  ++_assoc, take-append, ++_nil, ++_snoc, if_true, if_false, ℕ, zero, suc, ◌+◌, ◌≤◌, ◌≡◌, ◌⊎◌, refl,
  sym, ap, ◌∙◌, subst, inl, inr, Bool, true, false, Option, some, List, [], ◌∷◌, ◌++◌, length, take,
  ltb, if◌then◌else◌, arith, ltb→ge,
}
use qw_fnfer_xpu.Lookup.Drafter.{Drafter}
use qw_fnfer_xpu.Decode.Parts.{Parts, Exact}
use qw_fnfer_xpu.Decode.Reply.{After, over, cut_off, goes_on, take_token}
use qw_fnfer_xpu.Decode.Loop.{
  Loop, Turn, failed, ended, next, after_text, entered, iteration, run, go_on, inject, start,
  started, decode, consumed, next_accepted, decode_step,
}
use qw_fnfer_xpu.Decode.Loop.Moves.{Sim, decode_step-Moves}

abbrev Within : Bool → List ℕ → ℕ → List ℕ → Type 0
Within false held tok hist = hist ≡ held ++ tok ∷ []
Within true held tok hist = hist ≡ held

module _ (m : Parts) {seq : m.E → List ℕ} {model : List ℕ → m.L} {k : ℕ} (x : Exact m seq model k)
    (one : 1 ≤ k) (few : m.lookup_drafts ≤ k) (c : ℕ) (cs : List ℕ)
    (phrase : m.cut_tokens ≡ c ∷ cs) where
  -- The engine holds the history, or the history up to its last tokens.
  abbrev Holds : Loop m → Type 0
  Holds l = seq l.eng ≡ l.hist

  abbrev HoldsStart : Loop m → Type 0
  HoldsStart l = (rest : List ℕ) × (l.hist ≡ seq l.eng ++ rest)

  abbrev Held : Turn m → Type 0
  Held failed = ⊥
  Held (ended l) = HoldsStart l
  Held (next l) = Holds l

  -- Once the token is in the history.
  abbrev In : Bool → Loop m → Type 0
  In b l = Within b (seq l.eng) l.tok l.hist

  In-Start : (b : Bool) (l : Loop m) → In b l → HoldsStart l
  In-Start false l h = (l.tok ∷ [], h)
  In-Start true l h = ([], h ∙ sym (++_nil (seq l.eng)))

  Sim-Holds : (b : Bool) (l : Loop m) (h : List ℕ) (s : m.S) → Sim m x b l h s → Holds l
  Sim-Holds false l h s sim = sim.0
  Sim-Holds true l h s sim = sim.0

  if-Held :
      (b : Bool) (u v : Turn m)
      → (b ≡ true → Held u)
      → (b ≡ false → Held v)
      → Held (if b then u else v)
  if-Held true u v h h' = h refl
  if-Held false u v h h' = h' refl

  next_accepted-Holds : (l : Loop m) (ds : List ℕ) → Holds l → Holds (next_accepted m l ds)
  unfolding next_accepted
  next_accepted-Holds l [] h = h
  next_accepted-Holds l (d ∷ ds) h = h

  decode_step-Held :
      (l : Loop m)
      → In false l
      → l.tok_in ≡ false
      → length l.hist ≤ m.n_ctx
      → Held (decode_step m l)
  decode_step-Held l h out fits =
      let (l', s1, e, _, _, _, sim) = decode_step-Moves m x one few l (h, out, fits) in
      subst Held (sym e) (Sim-Holds l'.tok_in l' l.hist s1 sim)

  go_on-Held : (l : Loop m) (b : Bool) → l.tok_in ≡ b → In b l → Held (go_on m l)
  unfolding go_on
  go_on-Held l b t h =
      if-Held (ltb m.n_ctx (length l.hist + 1)) _ _ (λ e. In-Start b l h)
        (λ e.
          if-Held l.tok_in _ _
            (λ is_in. next_accepted-Holds l l.evald (sym (subst (λ z. In z l) (sym t ∙ is_in) h)))
            (λ out.
              decode_step-Held l (subst (λ z. In z l) (sym t ∙ out) h) out
                (let room = ltb→ge m.n_ctx (length l.hist + 1) e in omega arith)))

  fed :
      (b : Bool) (l : Loop m)
      → In b l
      → (t : ℕ) × (ts : List ℕ) × (l.hist ++ m.cut_tokens ≡ seq l.eng ++ t ∷ ts)
        × (length m.cut_tokens + (if b then 0 else 1) ≡ suc (length ts))
  fed false l h = (
    l.tok,
    m.cut_tokens,
    ap (λ z. z ++ m.cut_tokens) h ∙ ++_snoc (seq l.eng) l.tok m.cut_tokens,
    omega arith,
  )
  fed true l h = (
    c,
    cs,
    ap (λ z. z ++ m.cut_tokens) h ∙ ap (λ z. seq l.eng ++ z) phrase,
    omega (arith, ap length phrase),
  )

  inject-Held : (l : Loop m) (b : Bool) → l.tok_in ≡ b → In b l → Held (inject m l)
  unfolding inject
  inject-Held l b t h =
      let (rest, e) = In-Start b l h in
      let hist = l.hist ++ m.cut_tokens in
      let (u, us, same, n) = fed b l h in
      let n' : length m.cut_tokens + (if l.tok_in then 0 else 1) ≡ suc (length us) =
        ap (λ z. length m.cut_tokens + (if z then 0 else 1)) t ∙ n in
      if-Held (ltb m.n_ctx (length hist + 1)) _ _
        (λ full. (
          rest ++ m.cut_tokens,
          ap (λ z. z ++ m.cut_tokens) e ∙ ++_assoc (seq l.eng) rest m.cut_tokens,
        ))
        (λ room.
          let fits = ltb→ge m.n_ctx (length hist + 1) room in
          let (e1, ev, q1) =
            x.evals l.eng hist u us (length m.cut_tokens + (if l.tok_in then 0 else 1)) same n'
              (omega arith) in
          let r = m.pick l.smp (model hist) in
          let (e2, st, q2) = x.steps e1 (r.0 ∷ []) in rw (ev, st) (q2 ∙ q1))

  after_text-Held :
      (l : Loop m) (a : After) (b : Bool) → l.tok_in ≡ b → In b l → Held (after_text m l a)
  unfolding after_text
  after_text-Held l (over r) b t h = In-Start b l h
  after_text-Held l (cut_off r) b t h = inject-Held (record l { reply = r }) b t h
  after_text-Held l (goes_on r) b t h = go_on-Held (record l { reply = r }) b t h

  entered_hist : (l : Loop m) (b : Bool) → l.tok_in ≡ b → Holds l → In b (entered m l)
  unfolding entered
  entered_hist l false t h = if_false l.tok_in _ _ t ∙ ap (λ z. z ++ l.tok ∷ []) (sym h)
  entered_hist l true t h = if_true l.tok_in _ _ t ∙ sym h

  entered_tok_in : (l : Loop m) → (entered m l).tok_in ≡ l.tok_in
  unfolding entered
  entered_tok_in l = refl

  iteration-Held : (l : Loop m) → Holds l → Held (iteration m l)
  unfolding iteration
  iteration-Held l h =
      let h' = entered_hist l l.tok_in refl h in
      if-Held (m.is_eog l.tok) _ _ (λ e. In-Start l.tok_in (entered m l) h')
        (λ e.
          after_text-Held (entered m l) (take_token m l.reply l.n l.tok) l.tok_in (entered_tok_in l)
            h')

  abbrev Returns : Option (Loop m) → Type 0
  Returns o = (l' : Loop m) × (o ≡ some l') × HoldsStart l'

  Turn-cases :
      (t : Turn m)
      → Held t
      → ((l : Loop m) × (t ≡ ended l) × HoldsStart l) ⊎ ((l : Loop m) × (t ≡ next l) × Holds l)
  Turn-cases failed h = absurd h
  Turn-cases (ended l) h = inl (l, refl, h)
  Turn-cases (next l) h = inr (l, refl, h)

  run-Held : (left : ℕ) (l : Loop m) → Holds l → Returns (run m left l)
  unfolding run
  run-Held zero l h = (l, refl, ([], sym h ∙ sym (++_nil (seq l.eng))))
  run-Held (suc left) l h = elim (Turn-cases (iteration m l) (iteration-Held l h)) [
    | inl (l', e, rest) ↦ rw (e, run) (l', refl, rest)
    | inr (l', e, h') ↦ rw (e, run) (run-Held left l' h')
  ]

  -- When the loop is over, what the server takes for consumed, the history's first `n_past` tokens, is
  -- what the engine holds, and the loop does end with a reply: from an engine that has taken in the
  -- prompt, whatever the drafts, the sampler and the client do, with thinking cut off or not. The
  -- engine's calls succeed within the context, a step has room for one draft and for the lookup's,
  -- and the phrase that cuts thinking off is some tokens.
  pub decode-consumed :
      (e : m.E) (smp : m.S) (hist : List ℕ) (lookup : Drafter) (policy : m.P) (thinking : Bool)
      → seq e ≡ hist
      → (l : Loop m) × (decode m e (model hist) smp hist lookup policy thinking ≡ some l)
        × (consumed m l ≡ seq l.eng)
  unfolding decode start started consumed
  decode-consumed e smp hist lookup policy thinking held =
      let r = m.pick smp (model hist) in
      let (e1, st, q) = x.steps e (r.0 ∷ []) in
      let l0 = started m e1 r.1 hist lookup policy thinking r.0 in
      let (l, f, (rest, h)) = run-Held m.budget l0 (q ∙ held) in
      rw (st, f, decode, start)
        (
          _,
          refl,
          ap (λ z. take z l.hist) (x.past l.eng)
              ∙ ap (λ z. take (length (seq l.eng)) z) h
              ∙ take-append (seq l.eng) rest,
        )
