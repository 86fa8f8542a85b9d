-- ===== src/Experts/Victim/Chooses.antt =====
-- What `choose_victim` may take, and that it takes a slot where it can.
use qw_fnfer_xpu.Base.{
  ℕ, zero, suc, ◌+◌, ◌-◌, ◌%◌, ◌^◌, ◌<◌, ◌≤◌, ◌≡◌, refl, subst, ◌⊎◌, inl, inr, true, false, ◌||◌,
  Option, none, some, ltb, ◌==◌, Bool-cases, Option-cases, arith,
}
use qw_fnfer_xpu.Experts.Cache.{Config, Cache}
use native.Mathlib.Nat.{mod-lt}
use qw_fnfer_xpu.Experts.Victim.{
  Best, Look, choose_victim, found, in_flight, look, next, sample, scan, score, victim_of, xorshift,
}

-- A slot that may be taken: it is in the pool, not pinned, and nothing uses it.
pub record Eligible (c : Cache) (s : ℕ) : Type 0 where
  pub within : s < c.lp.n_slots
  pub unpinned : c.lp.slot_pinned s ≡ false
  pub unused : in_flight c s ≡ false

abbrev Chosen : Cache → Option ℕ → Type 0
Chosen c none = Unit
Chosen c (some s) = Eligible c s

abbrev Looked : Cache → Look → Type 0
Looked c (found s) = Eligible c s
Looked c (next b) = Chosen c b.slot

Look-cases : (l : Look) → ((s : ℕ) × (l ≡ found s)) ⊎ ((b : Best) × (l ≡ next b))
Look-cases (found s) = inl (s, refl)
Look-cases (next b) = inr (b, refl)

look-Looked :
    (k : Config) (c : Cache) (s : ℕ) (b : Best)
    → s < c.lp.n_slots
    → Chosen c b.slot
    → Looked c (look k c s b)
unfolding look
look-Looked k c s b within so = elim (Bool-cases (c.lp.slot_pinned s)) [
  | inl p ↦ rw (p, look) so
  | inr p ↦ elim (Bool-cases (in_flight c s)) [
    | inl f ↦ rw (p, f, look) so
    | inr f ↦ elim (Option-cases (c.lp.slot_expert s)) [
      | inl x ↦ rw (p, f, x, look) (record { within = within; unpinned = p; unused = f })
      | inr (e, x) ↦ elim (Bool-cases (ltb (score k c.lp s e) b.score)) [
        | inl l ↦ rw (p, f, x, l, look) (record { within = within; unpinned = p; unused = f })
        | inr l ↦ rw (p, f, x, l, look) so
      ]
    ]
  ]
]

sample-Chosen :
    (k : Config) (c : Cache) (n rng : ℕ) (b : Best)
    → 0 < c.lp.n_slots
    → Chosen c b.slot
    → Chosen c (sample k c n rng b).1
unfolding sample
sample-Chosen k c zero rng b some_slot so = so
sample-Chosen k c (suc n) rng b some_slot so =
    let s = xorshift rng % c.lp.n_slots in
    let seen = look-Looked k c s b (mod-lt (xorshift rng) some_slot) so in
    elim (Look-cases (look k c s b)) [
      | inl (s', f) ↦ rw (f, sample) (subst (Looked c) f seen)
      | inr (b', f) ↦
          rw (f, sample) (sample-Chosen k c n (xorshift rng) b' some_slot (subst (Looked c) f seen))
    ]

scan-Chosen : (c : Cache) (n s : ℕ) → s + n ≡ c.lp.n_slots → Chosen c (scan c n s)
unfolding scan
scan-Chosen c zero s h = tt
scan-Chosen c (suc n) s h = elim (Bool-cases (c.lp.slot_pinned s)) [
  | inl p ↦ rw (p, scan) (scan-Chosen c n (suc s) (omega (arith, h)))
  | inr p ↦ elim (Bool-cases (in_flight c s)) [
    | inl f ↦ rw (p, f, scan) (scan-Chosen c n (suc s) (omega (arith, h)))
    | inr f ↦ rw (p, f, scan) (record { within = omega (arith, h); unpinned = p; unused = f })
  ]
]

-- Where the scan finds nothing, no slot can be taken.
scan-none :
    (c : Cache) (n s : ℕ)
    → scan c n s ≡ none
    → (t : ℕ) → s ≤ t
    → t < s + n
    → (c.lp.slot_pinned t || in_flight c t) ≡ true
unfolding scan
scan-none c zero s h t a b = ground arith
scan-none c (suc n) s h t a b = elim (Bool-cases (s == t)) [
  | inl same ↦
      let eq : s ≡ t = ground arith in
      subst (λ x. (c.lp.slot_pinned x || in_flight c x) ≡ true) eq (ground arith)
  | inr other ↦ scan-none c n (suc s) (ground arith) t (ground arith) (omega (arith, b))
]

victim_of-Chosen : (k : Config) (c : Cache) → 0 < c.lp.n_slots → Chosen c (victim_of k c)
unfolding victim_of
victim_of-Chosen k c some_slot =
    or_scan (sample k c k.evict_samples c.victim_rng start).1
      (sample-Chosen k c k.evict_samples c.victim_rng start some_slot tt)
  where
    start : Best
    start = record { slot = none; score = 2 ^ 64 - 1 }

    or_scan :
        (o : Option ℕ)
        → Chosen c o
        → Chosen c (elim o [ some s ↦ some s | none ↦ scan c c.lp.n_slots 0 ])
    or_scan none so = scan-Chosen c c.lp.n_slots 0 (omega arith)
    or_scan (some s) so = so

-- What `choose_victim` answers about the pool it was given.
pub record Chooses (c : Cache) (v : Option ℕ) : Type 0 where
  pub taken : (s : ℕ) → v ≡ some s → Eligible c s
  pub full : v ≡ none → (s : ℕ) → s < c.lp.n_slots → (c.lp.slot_pinned s || in_flight c s) ≡ true

-- Where the pool has a slot, the slot that `choose_victim` takes is one of the pool's, not pinned and
-- not in flight: no read into it is under way, the fetch in progress has not handed it out, and no
-- promotion awaits its release. It takes none only where every slot is pinned or in flight, whatever
-- the samples, the policy and the frequencies are.
pub choose_victim-Chooses :
    (k : Config) (c : Cache) → 0 < c.lp.n_slots → Chooses c (choose_victim k c).1
unfolding choose_victim victim_of
choose_victim-Chooses k c some_slot = record {
  taken = λ s h. subst (Chosen c) h (victim_of-Chosen k c some_slot);
  full = λ h s within.
      scan-none c c.lp.n_slots 0
        (scanned
          (sample k c k.evict_samples c.victim_rng (record { slot = none; score = 2 ^ 64 - 1 })).1
          h)
        s (omega arith) (omega (arith, within));
}
  where
    scanned :
        (o : Option ℕ)
        → elim o [ some s ↦ some s | none ↦ scan c c.lp.n_slots 0 ] ≡ none
        → scan c c.lp.n_slots 0 ≡ none
    scanned none h = h
    scanned (some s) h = ground arith
