-- ===== src/Prefix/Evict.antt =====
-- Making room in the prefix cache: `pool_evict_to` and the scan for the least recently used entry.
use qw_fnfer_xpu.Base.{
  ℕ, zero, suc, ◌+◌, ◌≤◌, ◌<◌, ◌≡◌, ◌≢◌, refl, ap, sym, subst, ◌∙◌, ◌⊎◌, inl, inr, Bool, true,
  false, Option, none, some, List, [], ◌∷◌, ltb, ◌==◌, Bool-cases, length, arith,
}
use qw_fnfer_xpu.Prefix.Engine.{Engine, Json}
use qw_fnfer_xpu.Prefix.Server.{
  Entry, Server, entry_bytes, pool_find, lru_from, erase_at, bytes_at, pool_erase, evict_rounds,
  pool_evict_to,
}

module _ (g : Engine) (j : Json) where
  abbrev S : Type 0
  S = Server g j

  abbrev Pool : Type 0
  Pool = List (Entry g j)

  abbrev pub total : Pool → ℕ
  total [] = 0
  total (pe ∷ pool) = entry_bytes g j pe + total pool

  -- The pool's bytes are those of its entries.
  abbrev pub IsExact : S → Type 0
  IsExact s = s.pool_bytes ≡ total s.pool

  total-erase_at :
      (i : ℕ) (pool : Pool) → total (erase_at g j i pool) + bytes_at g j i pool ≡ total pool
  unfolding erase_at bytes_at
  total-erase_at i [] = omega arith
  total-erase_at zero (pe ∷ pool) = omega arith
  total-erase_at (suc i) (pe ∷ pool) = omega (arith, total-erase_at i pool)

  pool_erase-IsExact : (s : S) (i : ℕ) → IsExact s → IsExact (pool_erase g j s i)
  unfolding pool_erase
  pool_erase-IsExact s i h = omega (arith, total-erase_at i s.pool)

  -- No entry but `keep` is older than the stamp `u`.
  abbrev pub Oldest : ℕ → ℕ → Pool → Type 0
  Oldest keep u [] = Unit {0}
  Oldest keep u (pe ∷ pool) = (pe.id ≢ keep → u ≤ pe.used) × Oldest keep u pool

  -- The entry at the index is another than `keep` and has the stamp `u`.
  abbrev pub VictimAt : ℕ → ℕ → ℕ → Pool → Type 0
  VictimAt keep u d [] = ⊥
  VictimAt keep u zero (pe ∷ pool) = (pe.id ≢ keep) × (pe.used ≡ u)
  VictimAt keep u (suc d) (pe ∷ pool) = VictimAt keep u d pool

  abbrev pub OnlyKeep : ℕ → Pool → Type 0
  OnlyKeep keep [] = Unit {0}
  OnlyKeep keep (pe ∷ pool) = (pe.id ≡ keep) × OnlyKeep keep pool

  -- With a candidate at hand the scan ends at it or at an older entry, the oldest of all.
  lru_from-some :
      (keep i : ℕ) (pool : Pool) (b u : ℕ)
      → (k : ℕ) × (v : ℕ) × (lru_from g j keep i pool (some (b, u)) ≡ some (k, v))
        × (v ≤ u)
        × (((k ≡ b) × (v ≡ u)) ⊎ ((d : ℕ) × (k ≡ i + d) × VictimAt keep v d pool))
        × Oldest keep v pool
  unfolding lru_from
  lru_from-some keep i [] b u = (b, u, refl, omega arith, inl (refl, refl), tt)
  lru_from-some keep i (pe ∷ pool) b u = elim (Bool-cases (pe.id == keep)) [
    | inl kept ↦
        let (k, v, e, le, at, old) = lru_from-some keep (suc i) pool b u in
        rw kept (k, v, e, le, later k v at, (λ ne. absurd (ne (ground arith)), old))
    | inr other ↦ elim (Bool-cases (ltb pe.used u)) [
      | inl older ↦
          let (k, v, e, le, at, old) = lru_from-some keep (suc i) pool i pe.used in
          rw (other, older)
            (
              k,
              v,
              e,
              ground arith,
              elim at [
                | inl (p, q) ↦ inr (0, omega arith, (ground arith, sym q))
                | inr (d, p, m) ↦ inr (suc d, omega arith, m)
              ],
              (λ ne. le, old),
            )
      | inr younger ↦
          let (k, v, e, le, at, old) = lru_from-some keep (suc i) pool b u in
          rw (other, younger) (k, v, e, le, later k v at, (λ ne. ground arith, old))
    ]
  ]
    where
      later :
          (k v : ℕ)
          → ((k ≡ b) × (v ≡ u)) ⊎ ((d : ℕ) × (k ≡ suc i + d) × VictimAt keep v d pool)
          → ((k ≡ b) × (v ≡ u)) ⊎ ((d : ℕ) × (k ≡ i + d) × VictimAt keep v d (pe ∷ pool))
      later k v (inl h) = inl h
      later k v (inr (d, e, m)) = inr (suc d, omega arith, m)

  -- The scan finds nothing where there is only `keep`, and the oldest other entry where there is one.
  abbrev Found : ℕ → ℕ → Pool → Option (ℕ × ℕ) → Type 0
  Found keep i pool r =
      ((r ≡ none) × OnlyKeep keep pool)
      ⊎ ((d : ℕ) × (u : ℕ) × (r ≡ some (i + d, u)) × VictimAt keep u d pool × Oldest keep u pool)

  lru_from-Found : (keep i : ℕ) (pool : Pool) → Found keep i pool (lru_from g j keep i pool none)
  unfolding lru_from
  lru_from-Found keep i [] = inl (refl, tt)
  lru_from-Found keep i (pe ∷ pool) = elim (Bool-cases (pe.id == keep)) [
    | inl kept ↦ rw kept (elim (lru_from-Found keep (suc i) pool) [
      | inl (e, only) ↦ inl (e, (ground arith, only))
      | inr (d, u, e, m, old) ↦ inr (
        suc d,
        u,
        e ∙ ap (λ k. some (k, u)) (omega arith),
        m,
        (λ ne. absurd (ne (ground arith)), old),
      )
    ])
    | inr other ↦
        let (k, v, e, le, at, old) = lru_from-some keep (suc i) pool i pe.used in
        rw other (elim at [
          | inl (p, q) ↦ inr (
            0,
            v,
            e ∙ ap (λ k. some (k, v)) (omega arith),
            (ground arith, sym q),
            (λ ne. le, old),
          )
          | inr (d, p, m) ↦
              inr (suc d, v, e ∙ ap (λ k. some (k, v)) (omega arith), m, (λ ne. le, old))
        ])
  ]

  length-erase_at :
      (keep u d : ℕ) (pool : Pool)
      → VictimAt keep u d pool
      → length (erase_at g j d pool) + 1 ≡ length pool
  unfolding erase_at
  length-erase_at keep u d [] m = absurd m
  length-erase_at keep u zero (pe ∷ pool) m = omega arith
  length-erase_at keep u (suc d) (pe ∷ pool) m = omega (arith, length-erase_at keep u d pool m)

  pool_find-erase_at :
      (keep u d : ℕ) (pool : Pool)
      → VictimAt keep u d pool
      → pool_find g j keep (erase_at g j d pool) ≡ pool_find g j keep pool
  unfolding erase_at pool_find
  pool_find-erase_at keep u d [] m = absurd m
  pool_find-erase_at keep u zero (pe ∷ pool) m = ground (arith, m.0)
  pool_find-erase_at keep u (suc d) (pe ∷ pool) m =
      ground (arith, pool_find-erase_at keep u d pool m)

  -- What `pool_evict_to` leaves of the server, and what its answer means.
  pub record Evicted (s : S) (need keep : ℕ) (r : S × Bool) : Type 0 where
    pub frame : r.0 ≡ record s { pool = r.0.pool; pool_bytes = r.0.pool_bytes }
    pub exact : IsExact r.0
    pub made : r.1 ≡ true → r.0.pool_bytes + s.parked_bytes + need ≤ s.pool_budget
    pub full :
        r.1 ≡ false
        → (s.pool_budget < r.0.pool_bytes + s.parked_bytes + need) × OnlyKeep keep r.0.pool
    pub fewer : r.0.pool_bytes ≤ s.pool_bytes
    pub kept : pool_find g j keep r.0.pool ≡ pool_find g j keep s.pool

  evict_rounds-Evicted :
      (rounds : ℕ) (s : S) (need keep : ℕ)
      → length s.pool ≤ rounds
      → IsExact s
      → Evicted s need keep (evict_rounds g j rounds s need keep)
  unfolding evict_rounds pool_erase
  evict_rounds-Evicted zero s need keep few h = record {
    frame = refl;
    exact = h;
    made = λ e. ground arith;
    full = λ e. (ground arith, only s.pool few);
    fewer = omega arith;
    kept = refl;
  }
    where
      only : (pool : Pool) → length pool ≤ 0 → OnlyKeep keep pool
      only [] k = tt
      only (pe ∷ pool) k = absurd (omega arith)
  evict_rounds-Evicted (suc rounds) s need keep few h =
      elim (Bool-cases (ltb s.pool_budget (s.pool_bytes + s.parked_bytes + need))) [
        | inr fits ↦
            rw (fits, evict_rounds)
              (record {
                frame = refl;
                exact = h;
                made = λ e. ground arith;
                full = λ e. cc;
                fewer = omega arith;
                kept = refl;
              })
        | inl over ↦ elim (lru_from-Found keep 0 s.pool) [
          | inl (e, only) ↦
              rw (over, e, evict_rounds)
                (record {
                  frame = refl;
                  exact = h;
                  made = λ e'. cc;
                  full = λ e'. (ground arith, only);
                  fewer = omega arith;
                  kept = refl;
                })
          | inr (d, u, e, m, old) ↦
              let at : 0 + d ≡ d = omega arith in
              let m' : VictimAt keep u (0 + d) s.pool =
                subst (λ i. VictimAt keep u i s.pool) (sym at) m in
              rw (over, e, evict_rounds)
                (erased (0 + d) u m' (
                  evict_rounds-Evicted rounds (pool_erase g j s (0 + d)) need keep
                    (ground (arith, length-erase_at keep u (0 + d) s.pool m'))
                    (pool_erase-IsExact s (0 + d) h)))
        ]
      ]
    where
      erased :
          (d u : ℕ)
          → VictimAt keep u d s.pool
          → Evicted
              (pool_erase g j s d)
              need
              keep
              (evict_rounds g j rounds (pool_erase g j s d) need keep)
          → Evicted s need keep (evict_rounds g j rounds (pool_erase g j s d) need keep)
      erased d u m r = record {
        frame = r.frame;
        exact = r.exact;
        made = r.made;
        full = r.full;
        fewer = omega (arith, r.fewer);
        kept = r.kept ∙ pool_find-erase_at keep u d s.pool m;
      }

  -- `pool_evict_to` on exact accounts ends within as many rounds as the pool has entries. It changes
  -- the pool and its bytes only, keeps the accounts exact and the entry `keep` as it was; it answers
  -- true only where the needed bytes then fit the budget, and false only where they do not fit and no
  -- entry but `keep` is left.
  pub pool_evict_to-Evicted :
      (s : S) (need keep : ℕ) → IsExact s → Evicted s need keep (pool_evict_to g j s need keep)
  unfolding pool_evict_to
  pool_evict_to-Evicted s need keep h =
      evict_rounds-Evicted (length s.pool) s need keep (omega arith) h
