-- ===== src/Decode/Verify/Agrees.antt =====
-- What the verification of drafts comes to: the picks of a generation without drafts.
use qw_fnfer_xpu.Base.{
  ++_nil, ++_snoc, ℕ, suc, ◌+◌, ◌<◌, ◌≡◌, ◌⊎◌, refl, sym, ap, ◌∙◌, subst, inl, inr, Bool-cases,
  Bool, true, none, some, List, [], ◌∷◌, ◌++◌, length, take, ◌==◌, ==_iff, arith,
}
use qw_fnfer_xpu.Decode.Parts.{Parts}
use qw_fnfer_xpu.Decode.Verify.{Verdict, noted, verify}

module _ (m : Parts) (model : List ℕ → m.L) where
  -- Picking after `h`, and after each pick in turn, gives the tokens `ds`, then `y`.
  abbrev pub Ahead : List ℕ → m.S → List ℕ → ℕ → m.S → Type 0
  Ahead h s [] y s' = m.pick s (model h) ≡ (y, s')
  Ahead h s (d ∷ ds) y s' =
      (s1 : m.S) × (m.pick s (model h) ≡ (d, s1)) × Ahead (h ++ d ∷ []) (m.gen_push s1 d) ds y s'

  -- The verdict on `ds`: all of them stand, and so does the token picked after them; or the ones before
  -- the rejected one do, and the token picked in its place.
  abbrev pub Verified : List ℕ → m.S → List ℕ → Verdict m → Type 0
  Verified h s ds v =
      ((v.rejected ≡ none)
        × (v.accepted ≡ length ds)
        × ((y : ℕ) (s' : m.S) → m.pick v.smp (model (h ++ ds)) ≡ (y, s') → Ahead h s ds y s'))
      ⊎ ((y : ℕ) × (v.rejected ≡ some y)
          × (v.accepted < length ds)
          × Ahead h s (take v.accepted ds) y v.smp)

  one_more-Verified :
      (h : List ℕ) (s s1 : m.S) (d : ℕ) (ds : List ℕ) (v : Verdict m)
      → m.pick s (model h) ≡ (d, s1)
      → Verified (h ++ d ∷ []) (m.gen_push s1 d) ds v
      → Verified h s (d ∷ ds) (record v { accepted = suc v.accepted })
  one_more-Verified h s s1 d ds v p (inl (r, a, f)) = inl (
    r,
    omega arith,
    λ y s' q.
        (s1, p, f y s' (subst (λ z. m.pick v.smp (model z) ≡ (y, s')) (sym (++_snoc h d ds)) q)),
  )
  one_more-Verified h s s1 d ds v p (inr (y, r, a, f)) = inr (y, r, omega arith, (s1, p, f))

  abbrev pub AreModel : m.E → List ℕ → ℕ → List ℕ → Type 0
  AreModel e ds j h =
      (xs ys : List ℕ) → ds ≡ xs ++ ys → m.logits_pos e (j + length xs) ≡ model (h ++ xs)

  at_head :
      (e : m.E) (d : ℕ) (ds : List ℕ) (j : ℕ) (h : List ℕ)
      → AreModel e (d ∷ ds) j h
      → m.logits_pos e j ≡ model h
  at_head e d ds j h f =
      ap (λ i. m.logits_pos e i) (omega arith) ∙ f [] (d ∷ ds) refl ∙ ap model (++_nil h)

  beyond :
      (e : m.E) (d : ℕ) (ds : List ℕ) (j : ℕ) (h : List ℕ)
      → AreModel e (d ∷ ds) j h
      → AreModel e ds (suc j) (h ++ d ∷ [])
  beyond e d ds j h f xs ys q =
      ap (λ i. m.logits_pos e i) (omega arith)
      ∙ f (d ∷ xs) ys (ap (λ l. d ∷ l) q)
      ∙ ap model (sym (++_snoc h d xs))

  pub verify-Verified :
      (e : m.E) (lk_step : Bool) (ds : List ℕ) (j : ℕ) (h : List ℕ) (s : m.S) (p : m.P)
      → AreModel e ds j h
      → Verified h s ds (verify m e lk_step ds j s p)
  unfolding verify
  verify-Verified e lk_step [] j h s p f =
      inl (refl, refl, λ y s' q. subst (λ z. m.pick s (model z) ≡ (y, s')) (++_nil h) q)
  verify-Verified e lk_step (d ∷ ds) j h s p f =
      let lg = at_head e d ds j h f in
      let r = m.pick s (m.logits_pos e j) in
      elim (Bool-cases (r.0 == d)) [
        | inl t ↦
            let same : m.pick s (model h) ≡ (d, r.1) =
              ap (λ z. m.pick s z) (sym lg) ∙ ap (λ z. (z, r.1)) ((==_iff r.0 d).0 t) in
            let rest =
              verify-Verified e lk_step ds (suc j) (h ++ d ∷ []) (m.gen_push r.1 d)
                (noted m lk_step p j true) (beyond e d ds j h f) in
            rw (t, verify)
              (one_more-Verified h s r.1 d ds
                (verify m e lk_step ds (suc j) (m.gen_push r.1 d) (noted m lk_step p j true)) same
                rest)
        | inr t ↦ rw (t, verify) (inr (r.0, refl, omega arith, ap (λ z. m.pick s z) (sym lg)))
      ]
