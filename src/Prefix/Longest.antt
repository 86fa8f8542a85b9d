-- ===== src/Prefix/Longest.antt =====
-- The search of `pool_switch` for the entry to restore.
use qw_fnfer_xpu.Base.{
  ℕ, ◌≤◌, ◌≡◌, refl, ap, ◌∙◌, ◌⊎◌, inl, inr, true, false, Option, none, some, List, [], ◌∷◌, leb,
  Bool-cases, length, arith,
}
use qw_fnfer_xpu.Prefix.Engine.{Engine, Json}
use qw_fnfer_xpu.Prefix.Server.{Entry, Prompt, matches, longest}

module _ (g : Engine) (j : Json) where
  abbrev Pool : Type 0
  Pool = List (Entry g j)

  abbrev pub In : Entry g j → Pool → Type 0
  In pe [] = ⊥
  In pe (x ∷ pool) = (pe ≡ x) ⊎ In pe pool

  -- No entry that the prompt matches is longer than `n`.
  abbrev pub UpTo : Prompt → ℕ → Pool → Type 0
  UpTo p n [] = Unit {0}
  UpTo p n (pe ∷ pool) = (matches g j p pe ≡ true → length pe.tok ≤ n) × UpTo p n pool

  abbrev pub NoMatch : Prompt → Pool → Type 0
  NoMatch p [] = Unit {0}
  NoMatch p (pe ∷ pool) = (matches g j p pe ≡ false) × NoMatch p pool

  -- The search finds a longest match, or nothing where nothing matches.
  abbrev pub IsLongest : Prompt → Pool → Option (Entry g j) → Type 0
  IsLongest p pool r =
      ((r ≡ none) × NoMatch p pool)
      ⊎ ((pe : Entry g j) × (r ≡ some pe)
          × In pe pool
          × (matches g j p pe ≡ true)
          × UpTo p (length pe.tok) pool)

  longest-some :
      (p : Prompt) (pool : Pool) (b : Entry g j)
      → (pe : Entry g j) × (longest g j p pool (some b) ≡ some pe)
        × (length b.tok ≤ length pe.tok)
        × ((pe ≡ b) ⊎ (In pe pool × (matches g j p pe ≡ true)))
        × UpTo p (length pe.tok) pool
  unfolding longest
  longest-some p [] b = (b, refl, omega arith, inl refl, tt)
  longest-some p (x ∷ pool) b = elim (Bool-cases (matches g j p x)) [
    | inr m ↦
        let (pe, e, le, at, up) = longest-some p pool b in
        rw m (pe, e, le, deeper pe at, (λ m'. cc, up))
    | inl m ↦ elim (Bool-cases (leb (length x.tok) (length b.tok))) [
      | inl small ↦
          let (pe, e, le, at, up) = longest-some p pool b in
          rw (m, small) (pe, e, le, deeper pe at, (λ m'. ground arith, up))
      | inr big ↦
          let (pe, e, le, at, up) = longest-some p pool x in
          rw (m, big) (pe, e, ground arith, inr (here m pe at), (λ m'. le, up))
    ]
  ]
    where
      deeper :
          (pe : Entry g j)
          → (pe ≡ b) ⊎ (In pe pool × (matches g j p pe ≡ true))
          → (pe ≡ b) ⊎ (In pe (x ∷ pool) × (matches g j p pe ≡ true))
      deeper pe (inl e) = inl e
      deeper pe (inr (i, e)) = inr (inr i, e)

      here :
          matches g j p x ≡ true
          → (pe : Entry g j) → (pe ≡ x) ⊎ (In pe pool × (matches g j p pe ≡ true))
          → In pe (x ∷ pool) × (matches g j p pe ≡ true)
      here m pe (inl e) = (inl e, ap (matches g j p) e ∙ m)
      here m pe (inr (i, e)) = (inr i, e)

  pub longest-IsLongest : (p : Prompt) (pool : Pool) → IsLongest p pool (longest g j p pool none)
  unfolding longest
  longest-IsLongest p [] = inl (refl, tt)
  longest-IsLongest p (x ∷ pool) = elim (Bool-cases (matches g j p x)) [
    | inr m ↦ rw m (elim (longest-IsLongest p pool) [
      | inl (e, none_of) ↦ inl (e, (refl, none_of))
      | inr (pe, e, i, m', up) ↦ inr (pe, e, inr i, m', (λ t. cc, up))
    ])
    | inl m ↦
        let (pe, e, le, at, up) = longest-some p pool x in
        rw m (elim at [
          | inl q ↦ inr (pe, e, inl q, ap (matches g j p) q ∙ m, (λ t. le, up))
          | inr (i, m') ↦ inr (pe, e, inr i, m', (λ t. le, up))
        ])
  ]
