-- ===== src/Decode/Prefill/Feeds.antt =====
-- What the prefill of `generate` in tools/qwfn_server.cpp feeds and where it saves.
use qw_fnfer_xpu.Base.{
  take_nil, take_all, ℕ, zero, suc, ◌+◌, ◌-◌, ◌≤◌, ◌<◌, ◌≡◌, ◌⊎◌, inl, inr, refl, ap, sym, ◌∙◌,
  subst, min, Bool, true, false, Option, some, List, [], ◌∷◌, ◌++◌, length, length-take,
  length-drop, take, drop, ltb, ◌==◌, ==_refl, arith, lt→ltb, ge→ltb, if_true, if_false, Bool-cases,
  ltb→lt, ltb→ge,
}
use qw_fnfer_xpu.Decode.Parts.{Parts, Exact}
use qw_fnfer_xpu.Decode.Prefill.{Fed, stop_at, pass_size, note_save, prefill, stops_at_boundary}

take_more : (i j : ℕ) (xs : List ℕ) → take (i + j) xs ≡ take i xs ++ take j (drop i xs)
take_more zero j xs = let e : 0 + j ≡ j = omega arith in ap (λ n. take n xs) e
take_more (suc i) j [] = take_nil (suc i + j) ∙ sym (take_nil j)
take_more (suc i) j (x ∷ xs) =
    let e : suc i + j ≡ suc (i + j) = omega arith in
    ap (λ n. take n (x ∷ xs)) e ∙ ap (λ l. x ∷ l) (take_more i j xs)

uncons :
    (ys : List ℕ) (t : ℕ)
    → length ys ≡ t
    → 1 ≤ t
    → (y : ℕ) × (rest : List ℕ) × (ys ≡ y ∷ rest) × (t ≡ suc (length rest))
uncons [] t h pos = absurd (omega arith)
uncons (y ∷ ys) t h pos = (y, ys, refl, sym h)

-- A pass of `t` tokens or more than none, from the tokens fed on.
split_off :
    (fed t : ℕ) (hist : List ℕ)
    → 1 ≤ t
    → fed + t ≤ length hist
    → (x : ℕ) × (xs : List ℕ) × (take (fed + t) hist ≡ take fed hist ++ x ∷ xs)
      × (t ≡ suc (length xs))
split_off fed t hist pos fits =
    let ys = take t (drop fed hist) in
    let (y, rest, e, n) =
      uncons ys t (omega (arith, length-take t (drop fed hist), length-drop fed hist)) pos in
    (y, rest, take_more fed t hist ∙ ap (λ z. take fed hist ++ z) e, n)

module _ (m : Parts) {seq : m.E → List ℕ} {model : List ℕ → m.L} {k : ℕ} (x : Exact m seq model k)
    (n_batch : ℕ) (hist : List ℕ) (boundary : ℕ) (some_batch : 1 ≤ n_batch)
    (fits : length hist ≤ m.n_ctx) where
  abbrev stop : Bool → ℕ → ℕ
  stop b fed = stop_at m n_batch hist b boundary fed

  abbrev size : Bool → ℕ → ℕ
  size b fed = pass_size m n_batch hist b boundary fed

  abbrev run : Bool → ℕ → ℕ → Fed m → Option (Fed m)
  run b fuel fed s = prefill m n_batch hist b boundary fuel fed s

  abbrev noted : Bool → m.E → ℕ → List (m.E × ℕ) → List (m.E × ℕ)
  noted b e fed saves = note_save m n_batch hist b boundary e fed saves

  -- A pass brings the engine to `f` tokens.
  abbrev Passes : Bool → ℕ → ℕ → ℕ → Fed m → Type 0
  Passes b fuel fed f s =
      (e : m.E) × (seq e ≡ take f hist)
      × (run b (suc fuel) fed s
          ≡ run b fuel f
              (record { eng = e; lg = some (model (take f hist)); saves = noted b e f s.saves }))

  one_pass :
      (b : Bool) (fuel fed : ℕ) (s : Fed m)
      → seq s.eng ≡ take fed hist
      → fed < stop b fed
      → stop b fed ≤ length hist
      → Passes b fuel fed (fed + size b fed) s
  unfolding prefill pass_size
  one_pass b fuel fed s held lt room =
      let t = size b fed in
      let (y, rest, e, n) = split_off fed t hist (omega arith) (omega arith) in
      let inside : ltb fed (length hist) ≡ true = lt→ltb fed (length hist) (omega arith) in
      let (e', ev, q) =
        x.evals s.eng (take (fed + t) hist) y rest t (e ∙ ap (λ z. z ++ y ∷ rest) (sym held)) n
          (omega (arith, length-take (fed + t) hist)) in
      (e', q, rw (inside, ev, prefill) refl)

  -- The boundary is behind, or there is no stop at it.
  Beyond : Bool → ℕ → Type 0
  Beyond b fed = (b ≡ false) ⊎ (boundary ≤ fed)

  stop_past : (b : Bool) (fed : ℕ) → Beyond b fed → stop b fed ≡ length hist
  unfolding stop_at Beyond
  stop_past b fed (inl off) = ground arith
  stop_past b fed (inr le) = ground arith

  noted_past :
      (b : Bool) (e : m.E) (fed f : ℕ) (saves : List (m.E × ℕ))
      → Beyond b fed
      → fed < f
      → noted b e f saves ≡ saves
  unfolding note_save Beyond
  noted_past b e fed f saves (inl off) lt = ground arith
  noted_past b e fed f saves (inr le) lt = ground arith

  -- The prefill ends with the whole prompt in the engine and these calls of the save.
  abbrev pub Feeds : Option (Fed m) → List (m.E × ℕ) → Type 0
  Feeds o saves =
      (s : Fed m) × (o ≡ some s)
      × (seq s.eng ≡ hist)
      × (s.lg ≡ some (model hist))
      × (s.saves ≡ saves)

  finished :
      (b : Bool) (fuel fed : ℕ) (s : Fed m)
      → length hist ≤ fed
      → seq s.eng ≡ take fed hist
      → s.lg ≡ some (model (take fed hist))
      → Feeds (run b fuel fed s) s.saves
  unfolding prefill
  finished b zero fed s le held lg =
      let whole = take_all fed hist le in
      (
        s,
        if_false _ _ _ (ge→ltb fed (length hist) le),
        held ∙ whole,
        lg ∙ ap (λ z. some (model z)) whole,
        refl,
      )
  finished b (suc fuel) fed s le held lg =
      let whole = take_all fed hist le in
      rw (ge→ltb fed (length hist) le, prefill)
        (s, refl, held ∙ whole, lg ∙ ap (λ z. some (model z)) whole, refl)

  Beyond-more : (b : Bool) (fed f : ℕ) → Beyond b fed → fed ≤ f → Beyond b f
  unfolding Beyond
  Beyond-more b fed f (inl off) le = inl off
  Beyond-more b fed f (inr past) le = inr (omega arith)

  pass_min : (b : Bool) (fed : ℕ) → size b fed ≡ min n_batch (stop b fed - fed)
  unfolding pass_size
  pass_min b fed = refl

  -- A prefill that goes on as another one does ends as that one does.
  as_after :
      (o o' : Option (Fed m)) (saves saves' : List (m.E × ℕ))
      → o ≡ o'
      → saves ≡ saves'
      → Feeds o' saves
      → Feeds o saves'
  as_after o o' saves saves' e f (s, r, q, lg, c) = (s, e ∙ r, q, lg, c ∙ f)

  Last : ℕ → Fed m → Type 0
  Last fed s = (fed < length hist) ⊎ (s.lg ≡ some (model (take fed hist)))

  logits_of :
      (fed : ℕ) (s : Fed m) → length hist ≤ fed → Last fed s → s.lg ≡ some (model (take fed hist))
  unfolding Last
  logits_of fed s le (inl lt) = absurd (omega arith)
  logits_of fed s le (inr lg) = lg

  fed_past :
      (b : Bool) (fuel fed : ℕ) (s : Fed m)
      → Beyond b fed
      → length hist ≤ fed + fuel
      → seq s.eng ≡ take fed hist
      → Last fed s
      → Feeds (run b fuel fed s) s.saves
  unfolding Last
  fed_past b zero fed s past enough held last =
      finished b zero fed s (omega arith) held (logits_of fed s (omega arith) last)
  fed_past b (suc fuel) fed s past enough held last = elim (Bool-cases (ltb fed (length hist))) [
    | inr ge ↦
        let le = ltb→ge fed (length hist) ge in
        finished b (suc fuel) fed s le held (logits_of fed s le last)
    | inl inside ↦
        let lt = ltb→lt fed (length hist) inside in
        let end = stop_past b fed past in
        let t = pass_min b fed in
        let f = fed + size b fed in
        let (e, q, r) = one_pass b fuel fed s held (omega arith) (omega arith) in
        as_after _ _ _ _ r (noted_past b e fed f s.saves past (omega arith)) (
          fed_past b fuel f
            (record { eng = e; lg = some (model (take f hist)); saves = noted b e f s.saves })
            (Beyond-more b fed f past (omega arith)) (omega arith) q (inr refl))
  ]

  stop_before : (fed : ℕ) → fed < boundary → stop true fed ≡ boundary
  unfolding stop_at
  stop_before fed lt = ground arith

  noted_before :
      (e : m.E) (f : ℕ) (saves : List (m.E × ℕ)) → f < boundary → noted true e f saves ≡ saves
  unfolding note_save
  noted_before e f saves lt = ground arith

  noted_at :
      (e : m.E) (saves : List (m.E × ℕ)) → noted true e boundary saves ≡ saves ++ (e, boundary) ∷ []
  unfolding note_save
  noted_at e saves = if_true (boundary == boundary) _ _ (==_refl boundary)

  -- One save, with the engine at the boundary.
  abbrev pub FeedsAtBoundary : Option (Fed m) → List (m.E × ℕ) → Type 0
  FeedsAtBoundary o saves =
      (e : m.E) × (seq e ≡ take boundary hist) × Feeds o (saves ++ (e, boundary) ∷ [])

  fed_before :
      (fuel fed : ℕ) (s : Fed m)
      → fed < boundary
      → boundary < length hist
      → length hist ≤ fed + fuel
      → seq s.eng ≡ take fed hist
      → FeedsAtBoundary (run true fuel fed s) s.saves
  unfolding Beyond Last
  fed_before zero fed s lt inside enough held = absurd (omega arith)
  fed_before (suc fuel) fed s lt inside enough held =
      let end = stop_before fed lt in
      let t = pass_min true fed in
      let f = fed + size true fed in
      let (e, q, r) = one_pass true fuel fed s held (omega arith) (omega arith) in
      let s' : Fed m = record {
        eng = e;
        lg = some (model (take f hist));
        saves = noted true e f s.saves;
      } in
      elim (Bool-cases (ltb f boundary)) [
        | inl more ↦
            let (e', q', rest) =
              fed_before fuel f s' (ltb→lt f boundary more) inside (omega arith) q in
            (
              e',
              q',
              as_after _ _ _ _ r
                  (ap (λ z. z ++ (e', boundary) ∷ [])
                    (noted_before e f s.saves (ltb→lt f boundary more)))
                  rest,
            )
        | inr there ↦
            let reached = ltb→ge f boundary there in
            let same : f ≡ boundary = omega arith in
            (
              e,
              q ∙ ap (λ z. take z hist) same,
              as_after _ _ _ _ r (ap (λ z. noted true e z s.saves) same ∙ noted_at e s.saves)
                  (fed_past true fuel f s' (inr reached) (omega arith) q (inr refl)),
            )
      ]

  stops_inside :
      (pool_budget pool_boundary pool_min fed : ℕ)
      → stops_at_boundary pool_budget pool_boundary pool_min boundary fed hist ≡ true
      → (fed < boundary) × (boundary < length hist)
  unfolding stops_at_boundary
  stops_inside pool_budget pool_boundary pool_min fed on = (ground arith, ground arith)

  -- From an engine that holds the first `fed` tokens of the prompt, with at least one left, the passes
  -- come to an end and leave it with the whole prompt and the model's logits on it, as many passes as
  -- tokens being enough. Where the settings and the boundary's place say so, `pool_boundary_save` is
  -- called once, with the engine at the boundary's tokens exactly, and otherwise never. The passes
  -- have one token or more, and the prompt is within the context.
  pub prefill-Feeds :
      (pool_budget pool_boundary pool_min fed : ℕ) (s : Fed m)
      → fed < length hist
      → seq s.eng ≡ take fed hist
      → let b = stops_at_boundary pool_budget pool_boundary pool_min boundary fed hist in
        ((b ≡ false) × Feeds (run b (length hist) fed s) s.saves)
        ⊎ ((b ≡ true) × FeedsAtBoundary (run b (length hist) fed s) s.saves)
  unfolding Beyond Last
  prefill-Feeds pool_budget pool_boundary pool_min fed s lt held =
      let b = stops_at_boundary pool_budget pool_boundary pool_min boundary fed hist in
      elim (Bool-cases b) [
        | inr off ↦ inl (off, fed_past b (length hist) fed s (inl off) (omega arith) held (inl lt))
        | inl on ↦
            let (before, inside) = stops_inside pool_budget pool_boundary pool_min fed on in
            inr (
              on,
              subst (λ c. FeedsAtBoundary (run c (length hist) fed s) s.saves) (sym on)
                  (fed_before (length hist) fed s before inside (omega arith) held),
            )
      ]
