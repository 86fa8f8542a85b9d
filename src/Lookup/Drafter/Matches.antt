-- ===== src/Lookup/Drafter/Matches.antt =====
-- What `lookup_drafter::propose` promises of the tokens that it returns.
use qw_fnfer_xpu.Base.{
  ℕ, zero, suc, ◌+◌, ◌-◌, ◌≤◌, ◌<◌, ◌≡◌, refl, false, ◌&&◌, ◌⊎◌, inl, inr, List, [], ◌∷◌, drop, ap,
  ◌||◌, arith, ltb, leb, ◌==◌, Bool-cases, Option-cases, length, take,
}
use native.Mathlib.Numerals.{add-one}
use qw_fnfer_xpu.Lookup.Drafter.{
  Drafter, Slot, Best, at, match_from, better, longest, continuation, propose_from, propose,
  find_slot, key_at,
}

-- The `len` tokens that end at `p` are the `len` tokens that end at `cur`.
abbrev pub Occurs : List ℕ → ℕ → ℕ → ℕ → Type 0
Occurs hist p cur len = (i : ℕ) → i < len → (i ≤ p) × (at hist (p - i) ≡ at hist (cur - i))

match_from-Occurs :
    (rounds : ℕ) (hist : List ℕ) (p cur len : ℕ)
    → Occurs hist p cur len
    → Occurs hist p cur (match_from rounds hist p cur len)
unfolding match_from
match_from-Occurs zero hist p cur len h = h
match_from-Occurs (suc rounds) hist p cur len h =
    elim (Bool-cases (leb len p && (at hist (p - len) == at hist (cur - len)))) [
      | inl more ↦
          rw (more, match_from)
            (match_from-Occurs rounds hist p cur (len + 1) (λ i lt. elim (Bool-cases (i == len)) [
              | inl here ↦ let e : i ≡ len = ground arith in rw e (ground arith)
              | inr before ↦ h i (ground arith)
            ]))
      | inr stop ↦ rw (stop, match_from) h
    ]

-- What the candidate loop keeps: no match yet, or an earlier occurrence of the suffix.
abbrev pub Earlier : List ℕ → ℕ → Best → Type 0
Earlier hist cur b = (b.len ≡ 0) ⊎ ((b.end_pos < cur) × Occurs hist b.end_pos cur b.len)

better-Earlier :
    (max_match : ℕ) (hist : List ℕ) (cur p : ℕ) (b : Best)
    → Earlier hist cur b
    → Earlier hist cur (better max_match hist cur p b)
unfolding better
better-Earlier max_match hist cur p b h = elim (Bool-cases (leb cur p)) [
  | inl late ↦ rw (late, better) h
  | inr early ↦ elim (Bool-cases (ltb b.len (match_from max_match hist p cur 0))) [
    | inl longer ↦
        rw (early, longer, better)
          (inr
            (ground arith, match_from-Occurs max_match hist p cur 0 (λ i lt. absurd (omega arith))))
    | inr kept ↦ rw (early, kept, better) h
  ]
]

longest-Earlier :
    (max_match : ℕ) (hist : List ℕ) (cur : ℕ) (ps : List ℕ) (b : Best)
    → Earlier hist cur b
    → Earlier hist cur (longest max_match hist cur ps b)
unfolding longest
longest-Earlier max_match hist cur [] b h = h
longest-Earlier max_match hist cur (p ∷ ps) b h =
    longest-Earlier max_match hist cur ps _ (better-Earlier max_match hist cur p b h)

better-len :
    (max_match : ℕ) (hist : List ℕ) (cur p : ℕ) (b : Best)
    → (b.len ≤ (better max_match hist cur p b).len)
      × (p < cur → match_from max_match hist p cur 0 ≤ (better max_match hist cur p b).len)
unfolding better
better-len max_match hist cur p b = (ground arith, λ h. ground arith)

-- Every candidate before the suffix matches at most `n` tokens.
abbrev pub AtMost : ℕ → List ℕ → ℕ → ℕ → List ℕ → Type 0
AtMost max_match hist cur n [] = Unit {0}
AtMost max_match hist cur n (p ∷ ps) =
    (p < cur → match_from max_match hist p cur 0 ≤ n) × AtMost max_match hist cur n ps

longest-AtMost :
    (max_match : ℕ) (hist : List ℕ) (cur : ℕ) (ps : List ℕ) (b : Best)
    → (b.len ≤ (longest max_match hist cur ps b).len)
      × AtMost max_match hist cur (longest max_match hist cur ps b).len ps
unfolding longest
longest-AtMost max_match hist cur [] b = (omega arith, tt)
longest-AtMost max_match hist cur (p ∷ ps) b =
    let step = better-len max_match hist cur p b in
    let rest = longest-AtMost max_match hist cur ps (better max_match hist cur p b) in
    (omega arith, (λ h. omega (arith, step.1 h), rest.1))

drop-at : (hist : List ℕ) (q : ℕ) → q < length hist → drop q hist ≡ at hist q ∷ drop (suc q) hist
drop-at [] q h = absurd (omega arith)
drop-at (x ∷ xs) zero h = refl
drop-at (x ∷ xs) (suc q) h = drop-at xs q (omega arith)

drop-end : (hist : List ℕ) (q : ℕ) → length hist ≤ q → drop q hist ≡ []
drop-end [] zero h = refl
drop-end [] (suc q) h = refl
drop-end (x ∷ xs) zero h = absurd (omega arith)
drop-end (x ∷ xs) (suc q) h = drop-end xs q (omega arith)

continuation-take :
    (k : ℕ) (hist : List ℕ) (q cur : ℕ)
    → cur + 1 ≡ length hist
    → continuation k hist q cur ≡ take k (drop q hist)
unfolding continuation
continuation-take zero hist q cur e = refl
continuation-take (suc k) hist q cur e = elim (Bool-cases (leb q cur)) [
  | inl inside ↦
      rw (inside, continuation, drop-at hist q (ground arith))
        (ap (◌∷◌ (at hist q)) (rw (add-one q) (continuation-take k hist (suc q) cur e)))
  | inr past ↦ rw (past, continuation, drop-end hist q (ground arith))
]

-- A proposal of `r.1` from the drafter `d`: nothing, or what followed an earlier occurrence.
abbrev pub Proposes : Drafter → ℕ → Drafter × List ℕ → Type 0
Proposes d max_k r =
    ((r.1 ≡ []) × (r.0.last_match ≡ 0))
    ⊎ ((p : ℕ) × (p < length d.hist - 1)
        × Occurs d.hist p (length d.hist - 1) r.0.last_match
        × (d.min_match ≤ r.0.last_match)
        × (r.1 ≡ take max_k (drop (suc p) d.hist)))

propose_from-Proposes :
    (d : Drafter) (max_k : ℕ) (s : Slot)
    → 0 < d.min_match
    → 0 < length d.hist
    → d.last_match ≡ 0
    → Proposes d max_k (propose_from d max_k (length d.hist - 1) s)
unfolding propose_from
propose_from-Proposes d max_k s h nonempty clear = elim (Bool-cases (ltb best.len d.min_match)) [
  | inl short ↦ rw (short, propose_from) (inl (refl, clear))
  | inr enough ↦ elim (longest-Earlier d.max_match d.hist cur (take s.n s.pos) start (inl refl)) [
    | inl zero_len ↦ absurd (ground arith)
    | inr found ↦
        rw (enough, propose_from)
          (inr (
            best.end_pos,
            found.0,
            found.1,
            ground arith,
            rw (add-one best.end_pos)
                (continuation-take max_k d.hist (suc best.end_pos) cur (omega arith)),
          ))
  ]
]
  where
    cur : ℕ
    cur = length d.hist - 1

    start : Best
    start = record { end_pos = 0; len = 0 }

    best : Best
    best = longest d.max_match d.hist cur (take s.n s.pos) start

-- With a `min_match` above zero, every proposal is empty, or the up to `max_k` tokens that followed an earlier position `p` of the
-- history whose last `last_match` tokens, at least `min_match` of them, are the history's own last
-- `last_match` tokens.
pub propose-Proposes :
    (d : Drafter) (max_k : ℕ) → 0 < d.min_match → Proposes d max_k (propose d max_k)
unfolding propose
propose-Proposes d max_k h = elim (Bool-cases (ltb (length d.hist) 4 || (max_k == 0))) [
  | inl no_room ↦ rw (no_room, propose) (inl (refl, refl))
  | inr room ↦ elim (Option-cases (find_slot cleared (key_at d.hist (length d.hist - 1)) false).0) [
    | inl missing ↦ rw (room, missing, propose) (inl (refl, refl))
    | inr (i, found) ↦
        rw (room, found, propose)
          (propose_from-Proposes cleared max_k (d.table i) h (ground arith) refl)
  ]
]
  where
    cleared : Drafter
    cleared = record d { last_match = 0 }
