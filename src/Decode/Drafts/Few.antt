-- ===== src/Decode/Drafts/Few.antt =====
-- How many drafts a step has, and that choosing them leaves the engine's sequence alone.
use qw_fnfer_xpu.Base.{
  ℕ, zero, suc, ◌+◌, ◌-◌, ◌≤◌, ◌<◌, max, ◌≡◌, ◌⊎◌, refl, ap, inl, inr, Bool-cases, Option-cases,
  Bool, true, false, Option, some, List, [], ◌∷◌, length, length-take, take, leb, ltb, ◌==◌, ◌||◌,
  if◌then◌else◌, arith,
}
use qw_fnfer_xpu.Lookup.Drafter.{
  Drafter, Slot, continuation, propose_from, propose, longest, find_slot, key_at,
}
use qw_fnfer_xpu.Decode.Parts.{Parts, Exact}
use qw_fnfer_xpu.Decode.Drafts.{
  Drafted, repeated, padded, lookup_caught_up, looked_up, head_drafts, lookup_or_head, before_eog,
  fitting, clipped, choose_drafts,
}

length-repeated : (n d : ℕ) → length (repeated n d) ≡ n
unfolding repeated
length-repeated zero d = refl
length-repeated (suc n) d = ap suc (length-repeated n d)

length-padded : (n d : ℕ) (xs : List ℕ) → length (padded n d xs) ≡ max n (length xs)
unfolding padded
length-padded n d [] = omega (arith, length-repeated n d)
length-padded n d (x ∷ xs) = omega (arith, length-padded (n - 1) x xs)

length-continuation : (k : ℕ) (hist : List ℕ) (q cur : ℕ) → length (continuation k hist q cur) ≤ k
unfolding continuation
length-continuation zero hist q cur = omega arith
length-continuation (suc k) hist q cur = elim (Bool-cases (leb q cur)) [
  | inl e ↦ rw (e, continuation) (omega (arith, length-continuation k hist (q + 1) cur))
  | inr e ↦ rw (e, continuation) (omega arith)
]

length-propose_from : (d : Drafter) (k cur : ℕ) (s : Slot) → length (propose_from d k cur s).1 ≤ k
unfolding propose_from
length-propose_from d k cur s =
    let best = longest d.max_match d.hist cur (take s.n s.pos) (record { end_pos = 0; len = 0 }) in
    elim (Bool-cases (ltb best.len d.min_match)) [
      | inl e ↦ rw (e, propose_from) (omega arith)
      | inr e ↦ rw (e, propose_from) (length-continuation k d.hist (best.end_pos + 1) cur)
    ]

length-propose : (d : Drafter) (k : ℕ) → length (propose d k).1 ≤ k
unfolding propose
length-propose d k =
    let cleared : Drafter = record d { last_match = 0 } in
    let cur = length d.hist - 1 in
    elim (Bool-cases (ltb (length d.hist) 4 || (k == 0))) [
      | inl e ↦ rw (e, propose) (omega arith)
      | inr e ↦ elim (Option-cases (find_slot cleared (key_at d.hist cur) false).0) [
        | inl f ↦ rw (e, f, propose) (omega arith)
        | inr (i, f) ↦ rw (e, f, propose) (length-propose_from cleared k cur (d.table i))
      ]
    ]

module _ (m : Parts) where
  length-before_eog : (ds : List ℕ) → length (before_eog m ds) ≤ length ds
  unfolding before_eog
  length-before_eog [] = omega arith
  length-before_eog (d ∷ ds) = elim (Bool-cases (m.is_eog d)) [
    | inl e ↦ rw (e, before_eog) (omega arith)
    | inr e ↦ rw (e, before_eog) (omega (arith, length-before_eog ds))
  ]

  fitting_le : (k n h : ℕ) → fitting m k n h ≤ k
  unfolding fitting
  fitting_le zero n h = omega arith
  fitting_le (suc k) n h = ground (arith, fitting_le k n h)

  fitting_fits :
      (k n h : ℕ)
      → 0 < fitting m k n h
      → (h + 1 + fitting m k n h ≤ m.n_ctx) × (n + fitting m k n h < m.budget)
  unfolding fitting
  fitting_fits zero n h pos = absurd (omega arith)
  fitting_fits (suc k) n h pos = ground (arith, fitting_fits k n h)

  pub length-clipped : (ds : List ℕ) (n h : ℕ) → length (clipped m ds n h) ≤ length ds
  unfolding clipped
  length-clipped ds n h =
      let k = length (before_eog m ds) in
      omega (arith, length-take (fitting m k n h) (before_eog m ds), length-before_eog ds)

  take_fits :
      (f : ℕ) (xs : List ℕ) (h : ℕ)
      → (0 < f → h + 1 + f ≤ m.n_ctx)
      → take f xs ≡ [] ⊎ (h + 1 + length (take f xs) ≤ m.n_ctx)
  take_fits zero xs h fits = inl refl
  take_fits (suc f) xs h fits = inr (omega (arith, fits (omega arith), length-take (suc f) xs))

  pub clipped_fits :
      (ds : List ℕ) (n h : ℕ)
      → clipped m ds n h ≡ [] ⊎ (h + 1 + length (clipped m ds n h) ≤ m.n_ctx)
  unfolding clipped
  clipped_fits ds n h =
      take_fits (fitting m (length (before_eog m ds)) n h) (before_eog m ds) h
        (λ pos. (fitting_fits (length (before_eog m ds)) n h pos).0)

  abbrev pub Chooses : (m.E → List ℕ) → ℕ → m.E → Option (Drafted m) → Type 0
  Chooses seq k e o = (d : Drafted m) × (o ≡ some d) × (seq d.eng ≡ seq e) × (length d.drafts ≤ k)

  module _ {seq : m.E → List ℕ} {model : List ℕ → m.L} {k : ℕ} (x : Exact m seq model k)
      (one : 1 ≤ k) (few : m.lookup_drafts ≤ k) where
    length-looked_up :
        (id : ℕ) (props : List ℕ)
        → length props ≤ m.lookup_drafts
        → length (looked_up m id props) ≤ k
    unfolding looked_up
    length-looked_up id [] h = omega (arith, length-repeated (m.lookup_drafts - 1) id)
    length-looked_up id (p ∷ ps) h = omega (arith, length-padded m.lookup_drafts p (p ∷ ps))

    head_drafts-Chooses :
        (e : m.E) (d : Drafter) (p : m.P) (l : ℕ) → Chooses seq k e (head_drafts m e d p l)
    unfolding head_drafts
    head_drafts-Chooses e d p l =
        let (e', r, s) = x.drafts_more e (m.drafts_wanted p) in
        rw (r, head_drafts) (_, refl, s, x.few_drafts e')

    lookup_or_head-Chooses :
        (e : m.E) (d : Drafter) (p : m.P) (hist : List ℕ) (id : ℕ)
        → Chooses seq k e (lookup_or_head m e d p hist id)
    unfolding lookup_or_head
    lookup_or_head-Chooses e d p hist id =
        let r = propose (lookup_caught_up m d hist) m.lookup_drafts in
        let c = m.choose p (length r.1) r.0.last_match in
        elim (Bool-cases c.0) [
          | inl t ↦
              rw (t, lookup_or_head)
                (
                  _,
                  refl,
                  refl,
                  length-looked_up id r.1
                      (length-propose (lookup_caught_up m d hist) m.lookup_drafts),
                )
          | inr t ↦ rw (t, lookup_or_head) (head_drafts-Chooses e r.0 c.1 r.0.last_match)
        ]

    if-Chooses :
        (e : m.E) (b : Bool) (o o' : Option (Drafted m))
        → Chooses seq k e o
        → Chooses seq k e o'
        → Chooses seq k e (if b then o else o')
    if-Chooses e true o o' h h' = h
    if-Chooses e false o o' h h' = h'

    pub choose_drafts-Chooses :
        (e : m.E) (d : Drafter) (p : m.P) (hist : List ℕ)
        → Chooses seq k e (choose_drafts m e d p hist)
    unfolding choose_drafts
    choose_drafts-Chooses e d p hist = elim (Option-cases (m.mtp_draft_id e)) [
      | inl t ↦ rw (t, choose_drafts) (_, refl, refl, omega arith)
      | inr (id, t) ↦
          rw (t, choose_drafts)
            (if-Chooses e m.lookup_on (lookup_or_head m e d p hist id) (head_drafts m e d p 0)
              (lookup_or_head-Chooses e d p hist id) (head_drafts-Chooses e d p 0))
    ]
