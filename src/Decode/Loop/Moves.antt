-- ===== src/Decode/Loop/Moves.antt =====
-- What a step of the decode loop comes to: the loop is again where a generation without drafts would
-- be, or ahead of it by drafts that it would pick.
use qw_fnfer_xpu.Base.{
  ++_nil, ++_snoc, take_all, take_past, if_false, ℕ, ◌+◌, ◌-◌, ◌≤◌, ◌≡◌, ◌⊎◌, refl, sym, ap, ◌∙◌,
  subst, inl, inr, Bool, true, false, some, List, [], ◌∷◌, ◌++◌, length, length-append, length-take,
  take, ltb, if◌then◌else◌, arith, ge→ltb,
}
use qw_fnfer_xpu.Decode.Parts.{Parts, Exact}
use qw_fnfer_xpu.Decode.Drafts.{Drafted, clipped}
use qw_fnfer_xpu.Decode.Drafts.Few.{choose_drafts-Chooses, clipped_fits, length-clipped}
use qw_fnfer_xpu.Decode.Verify.{Verdict, verify}
use qw_fnfer_xpu.Decode.Verify.Agrees.{Ahead, Verified, verify-Verified, AreModel}
use qw_fnfer_xpu.Decode.Loop.{
  Loop, Turn, next, spec_l0, single_step, moved_on, after_verify, settled, verify_step, step_with,
  decode_step, next_accepted, go_on,
}

pub take_back :
    (h ds : List ℕ) (j : ℕ)
    → j ≤ length ds
    → take (length (h ++ ds) - (length ds - j)) (h ++ ds) ≡ h ++ take j ds
take_back h ds j fits =
    let e : length (h ++ ds) - (length ds - j) ≡ length h + j = omega (arith, length-append h ds) in
    ap (λ i. take i (h ++ ds)) e ∙ take_past h ds j

module _ (m : Parts) {seq : m.E → List ℕ} {model : List ℕ → m.L} {k : ℕ}
    (x : Exact m seq model k) where
  -- Where a generation without drafts has the history `h`, the token just picked left out, and the
  -- sampler `s`, the loop is there too; or the token and the drafts after it are in already.
  abbrev pub Sim : Bool → Loop m → List ℕ → m.S → Type 0
  Sim false l h s = (seq l.eng ≡ l.hist) × (l.hist ≡ h) × (l.smp ≡ s)
  Sim true l h s =
      (seq l.eng ≡ l.hist)
      × (l.hist ≡ (h ++ l.tok ∷ []) ++ l.evald)
      × Ahead m model (h ++ l.tok ∷ []) (m.gen_push s l.tok) l.evald l.tok_next l.smp
      × (length l.hist + 1 ≤ m.n_ctx)

  -- The turn goes on where picking after `h` with the sampler `s` goes on.
  abbrev pub Moves : List ℕ → m.S → Loop m → Turn m → Type 0
  Moves h s l t =
      (l' : Loop m) × (s1 : m.S) × (t ≡ next l')
      × (l'.n ≡ l.n + 1)
      × (l'.reply ≡ l.reply)
      × (m.pick s (model h) ≡ (l'.tok, s1))
      × Sim l'.tok_in l' h s1

  -- Ready for a decode step: the token is in the history and not in the engine.
  abbrev pub Ready : Loop m → Type 0
  Ready l = (l.hist ≡ seq l.eng ++ l.tok ∷ []) × (l.tok_in ≡ false) × (length l.hist ≤ m.n_ctx)

  if_same : (b : Bool) (e e' : m.E) → seq e ≡ seq e' → seq (if b then e else e') ≡ seq e'
  if_same true e e' h = h
  if_same false e e' h = refl

  single_step-Moves : (l : Loop m) → Ready l → Moves l.hist l.smp l (single_step m l)
  unfolding single_step spec_l0
  single_step-Moves l (hh, out, fits) =
      let (e1, ev, q1) = x.evals l.eng l.hist l.tok [] 1 hh refl fits in
      let r = m.pick l.smp (model l.hist) in
      let e2 = if m.mtp_on e1 then m.spec_layer0 e1 (l.hist ++ r.0 ∷ []) 1 else e1 in
      let q2 =
        if_same (m.mtp_on e1) (m.spec_layer0 e1 (l.hist ++ r.0 ∷ []) 1) e1
          (x.reads_ahead e1 (l.hist ++ r.0 ∷ []) 1) in
      let (e3, st, q3) = x.steps e2 (r.0 ∷ []) in
      let l' : Loop m = record l { eng = e3; smp = r.1; tok = r.0; n = l.n + 1 } in
      rw (ev, single_step, st)
        (
          l',
          r.1,
          refl,
          refl,
          refl,
          refl,
          subst (λ b. Sim b l' l.hist r.1) (sym out) (q3 ∙ q2 ∙ q1, refl, refl),
        )

  -- After a verify step: `kept` stands after `h`, and `y` comes after it.
  moved_on-Moves :
      (h : List ℕ) (s : m.S) (kept : List ℕ) (y : ℕ) (l : Loop m)
      → l.tok_in ≡ false
      → seq l.eng ≡ l.hist
      → l.hist ≡ h ++ kept
      → length l.hist + 1 ≤ m.n_ctx
      → Ahead m model h s kept y l.smp
      → Moves h s l (next (moved_on m l kept y))
  unfolding moved_on
  moved_on-Moves h s [] y l out q e fits a =
      let l' : Loop m = record l { tok = y; n = l.n + 1 } in
      (
        l',
        l.smp,
        refl,
        refl,
        refl,
        a,
        subst (λ b. Sim b l' h l.smp) (sym out) (q, e ∙ ++_nil h, refl),
      )
  moved_on-Moves h s (d ∷ ds) y l out q e fits (s1, p, a) =
      (_, s1, refl, refl, refl, p, (q, e ∙ sym (++_snoc h d ds), a, fits))

  after_verify-Moves :
      (h : List ℕ) (s : m.S) (l : Loop m) (d : Drafted m) (ds : List ℕ) (v : Verdict m) (smp : m.S)
      (e : m.E) (hist : List ℕ) (y : ℕ)
      → l.tok_in ≡ false
      → seq e ≡ hist
      → hist ≡ h ++ take v.accepted ds
      → length hist + 1 ≤ m.n_ctx
      → Ahead m model h s (take v.accepted ds) y smp
      → Moves h s l (after_verify m l d ds v smp e hist y)
  unfolding after_verify spec_l0
  after_verify-Moves h s l d ds v smp e hist y out q same fits a =
      let kept = take v.accepted ds in
      let e1 = m.spec_layer0 e (hist ++ y ∷ []) 1 in
      let (e2, st, q2) = x.steps e1 (kept ++ y ∷ []) in
      rw (st, after_verify)
        (moved_on-Moves h s kept y _ out (q2 ∙ x.reads_ahead e (hist ++ y ∷ []) 1 ∙ q) same fits a)

  from_zero : (e : m.E) (i : ℕ) → m.logits_pos e (0 + i) ≡ m.logits_pos e i
  from_zero e i = let c : 0 + i ≡ i = omega arith in ap (λ j. m.logits_pos e j) c

  -- What `eval_decode` of the history and `ds` gives.
  abbrev Decoded : List ℕ → List ℕ → m.E → Type 0
  Decoded h ds e =
      (seq e ≡ h ++ ds)
      × AreModel m model e ds 0 h
      × ((b : ℕ)
          → 1 ≤ b
          → b ≤ length ds
          → (e' : m.E) × (m.rollback_n e b ≡ some e') × (seq e' ≡ h ++ take (length ds - b) ds))

  settled-Moves :
      (l : Loop m) (d : Drafted m) (ds : List ℕ) (e : m.E) (v : Verdict m)
      → l.tok_in ≡ false
      → length l.hist + 1 + length ds ≤ m.n_ctx
      → Decoded l.hist ds e
      → Verified m model l.hist l.smp ds v
      → Moves l.hist l.smp l (settled m l d ds e v)
  unfolding settled
  settled-Moves l d ds e v out fits (q, f, undo) (inl (r, a, g)) =
      let all : take v.accepted ds ≡ ds =
        ap (λ i. take i ds) a ∙ take_all (length ds) ds (omega arith) in
      let lg : m.logits_pos e (length ds) ≡ model (l.hist ++ ds) =
        sym (from_zero e (length ds)) ∙ f ds [] (sym (++_nil ds)) in
      let p = m.pick v.smp (m.logits_pos e (length ds)) in
      rw (r, settled)
        (after_verify-Moves l.hist l.smp l d ds v p.1 e (l.hist ++ ds) p.0 out q
          (ap (λ t. l.hist ++ t) (sym all)) (omega (arith, length-append l.hist ds))
          (subst (λ t. Ahead m model l.hist l.smp t p.0 p.1) (sym all)
            (g p.0 p.1 (ap (λ z. m.pick v.smp z) (sym lg)))))
  settled-Moves l d ds e v out fits (q, f, undo) (inr (y, r, a, g)) =
      let back = length ds - v.accepted in
      let (e', un, q') = undo back (omega arith) (omega arith) in
      let cut = take_back l.hist ds v.accepted (omega arith) in
      let j : length ds - back ≡ v.accepted = omega arith in
      let hist = take (length (l.hist ++ ds) - back) (l.hist ++ ds) in
      rw (r, un, settled)
        (after_verify-Moves l.hist l.smp l d ds v v.smp e' hist y out
          (q' ∙ ap (λ i. l.hist ++ take i ds) j ∙ sym cut) cut
          (omega (
            arith,
            ap length cut,
            length-append l.hist (take v.accepted ds),
            length-take v.accepted ds,
          ))
          g)

  verify_step-Moves :
      (l : Loop m) (d : Drafted m) (ds : List ℕ)
      → Ready l
      → seq d.eng ≡ seq l.eng
      → length ds ≤ k
      → length l.hist + 1 + length ds ≤ m.n_ctx
      → Moves l.hist l.smp l (verify_step m l d ds)
  unfolding verify_step spec_l0
  verify_step-Moves l d ds (hh, out, _) q few fits =
      let e1 = m.spec_layer0 d.eng (l.hist ++ ds) (length ds + 1) in
      let q1 = x.reads_ahead d.eng (l.hist ++ ds) (length ds + 1) ∙ q in
      let (e2, ev, q2, f, undo) =
        x.decodes e1 l.hist l.tok ds (hh ∙ ap (λ z. z ++ l.tok ∷ []) (sym q1)) few (omega arith) in
      let g : AreModel m model e2 ds 0 l.hist = λ xs ys c. from_zero e2 (length xs) ∙ f xs ys c in
      rw (ev, verify_step)
        (settled-Moves l d ds e2 (verify m e2 d.lk_step ds 0 l.smp d.policy) out fits (q2, g, undo)
          (verify-Verified m model e2 d.lk_step ds 0 l.hist l.smp d.policy g))

  step_with-Moves :
      (l : Loop m) (d : Drafted m) (ds : List ℕ)
      → Ready l
      → seq d.eng ≡ seq l.eng
      → length ds ≤ k
      → ds ≡ [] ⊎ (length l.hist + 1 + length ds ≤ m.n_ctx)
      → Moves l.hist l.smp l (step_with m l d ds)
  unfolding step_with
  step_with-Moves l d [] (hh, out, fits) q few room =
      let l' : Loop m = record l { eng = d.eng; lookup = d.lookup; policy = d.policy } in
      single_step-Moves l' (hh ∙ ap (λ z. z ++ l.tok ∷ []) (sym q), out, fits)
  step_with-Moves l d (t ∷ ts) ready q few room = elim room [
    | inl none_left ↦ absurd (cc)
    | inr fits ↦ verify_step-Moves l d (t ∷ ts) ready q few fits
  ]

  module _ (one : 1 ≤ k) (few : m.lookup_drafts ≤ k) where
    pub decode_step-Moves : (l : Loop m) → Ready l → Moves l.hist l.smp l (decode_step m l)
    unfolding decode_step
    decode_step-Moves l ready =
        let (d, c, q, n) = choose_drafts-Chooses m x one few l.eng l.lookup l.policy l.hist in
        rw (c, decode_step)
          (step_with-Moves l d (clipped m d.drafts l.n (length l.hist)) ready q
            (omega (arith, length-clipped m d.drafts l.n (length l.hist)))
            (clipped_fits m d.drafts l.n (length l.hist)))

    pub go_on-Moves :
        (l : Loop m) → Ready l → length l.hist + 1 ≤ m.n_ctx → Moves l.hist l.smp l (go_on m l)
    unfolding go_on
    go_on-Moves l (hh, out, fits) room =
        let e : ltb m.n_ctx (length l.hist + 1) ≡ false = ge→ltb m.n_ctx (length l.hist + 1) room in
        rw (e, go_on)
          (subst (λ t. Moves l.hist l.smp l t)
            (sym (if_false l.tok_in (next (next_accepted m l l.evald)) (decode_step m l) out))
            (decode_step-Moves l (hh, out, fits)))

  -- The next accepted draft, or the token after them, is what picking gives.
  pub next_accepted-Moves :
      (l : Loop m) (h : List ℕ) (s : m.S) (tok : ℕ) (evald : List ℕ)
      → l.tok_in ≡ true
      → seq l.eng ≡ l.hist
      → l.hist ≡ h ++ evald
      → Ahead m model h s evald l.tok_next l.smp
      → length l.hist + 1 ≤ m.n_ctx
      → Moves h s l (next (next_accepted m l evald))
  unfolding next_accepted
  next_accepted-Moves l h s tok [] is_in q e a room =
      (_, l.smp, refl, refl, refl, a, (q, e ∙ ++_nil h, refl))
  next_accepted-Moves l h s tok (d ∷ ds) is_in q e (s1, p, a) room =
      let l' : Loop m = record l { tok = d; evald = ds; n = l.n + 1 } in
      (
        l',
        s1,
        refl,
        refl,
        refl,
        p,
        subst (λ b. Sim b l' h s1) (sym is_in) (q, e ∙ sym (++_snoc h d ds), a, room),
      )
