-- ===== src/Prefix/Kept.antt =====
-- What the functions of the prefix cache leave of the pool: entries dropped, and entries renewed with
-- the same tokens, images and checkpoint.
use qw_fnfer_xpu.Base.{
  ℕ, zero, suc, ◌+◌, ◌-◌, ◌≡◌, refl, ◌∙◌, ◌&&◌, none, List, [], ◌∷◌, ltb, ◌==◌, Bool-cases,
  Option-cases, inl, inr, length,
}
use qw_fnfer_xpu.Prefix.Engine.{Engine, Json}
use qw_fnfer_xpu.Prefix.Server.{
  Entry, Server, entry_bytes, of_consumed, touch, supersede, supersede_all, stamp, lru_from,
  erase_at, pool_erase, evict_rounds, pool_evict_to,
}

module _ (g : Engine) (j : Json) where
  abbrev Pool : Type 0
  Pool = List (Entry g j)

  -- The entry with another stamp, reply and size.
  abbrev pub Renewed : Entry g j → Entry g j → Type 0
  Renewed new old =
      (new.tok ≡ old.tok) × (new.img ≡ old.img) × (new.ck ≡ old.ck) × (new.id ≡ old.id)

  pub data Kept : Pool → Pool → Type 0 where
    end : Kept [] []
    drops : {pe : Entry g j} {new old : Pool} → Kept new old → Kept new (pe ∷ old)
    keeps :
        {pe' pe : Entry g j} {new old : Pool}
        → Renewed pe' pe
        → Kept new old
        → Kept (pe' ∷ new) (pe ∷ old)

  abbrev pub same : (pe : Entry g j) → Renewed pe pe
  same pe = (refl, refl, refl, refl)

  pub Kept-refl : (pool : Pool) → Kept pool pool
  Kept-refl [] = end
  Kept-refl (pe ∷ pool) = keeps (same pe) (Kept-refl pool)

  pub Renewed-trans : (x y z : Entry g j) → Renewed x y → Renewed y z → Renewed x z
  Renewed-trans x y z (a, b, c, d) (a', b', c', d') = (a ∙ a', b ∙ b', c ∙ c', d ∙ d')

  pub Kept-trans : (x y z : Pool) → Kept x y → Kept y z → Kept x z
  Kept-trans x y (c ∷ z) p (drops q) = drops (Kept-trans x y z p q)
  Kept-trans x (b ∷ y) (c ∷ z) (drops p) (keeps e q) = drops (Kept-trans x y z p q)
  Kept-trans (a ∷ x) (b ∷ y) (c ∷ z) (keeps d p) (keeps e q) =
      keeps (Renewed-trans a b c d e) (Kept-trans x y z p q)
  Kept-trans x [] [] p q = p
  Kept-trans x (b ∷ y) [] p q = elim q [ ]

  erase_at-Kept : (i : ℕ) (pool : Pool) → Kept (erase_at g j i pool) pool
  unfolding erase_at
  erase_at-Kept i [] = end
  erase_at-Kept zero (pe ∷ pool) = drops (Kept-refl pool)
  erase_at-Kept (suc i) (pe ∷ pool) = keeps (same pe) (erase_at-Kept i pool)

  pub evict_rounds-Kept :
      (rounds : ℕ) (s : Server g j) (need keep : ℕ)
      → Kept (evict_rounds g j rounds s need keep).0.pool s.pool
  unfolding evict_rounds pool_erase
  evict_rounds-Kept zero s need keep = Kept-refl s.pool
  evict_rounds-Kept (suc rounds) s need keep =
      elim (Bool-cases (ltb s.pool_budget (s.pool_bytes + s.parked_bytes + need))) [
        | inr fits ↦ rw (fits, evict_rounds) (Kept-refl s.pool)
        | inl over ↦ elim (Option-cases (lru_from g j keep 0 s.pool none)) [
          | inl e ↦ rw (over, e, evict_rounds) (Kept-refl s.pool)
          | inr ((i, u), e) ↦
              rw (over, e, evict_rounds)
                (Kept-trans (evict_rounds g j rounds (pool_erase g j s i) need keep).0.pool
                  (erase_at g j i s.pool) s.pool
                  (evict_rounds-Kept rounds (pool_erase g j s i) need keep)
                  (erase_at-Kept i s.pool))
        ]
      ]

  pub touch-Renewed : (s : Server g j) (pe : Entry g j) → Renewed (touch g j s pe) pe
  unfolding touch
  touch-Renewed s pe = elim (Bool-cases (j.is_array s.last.msgs)) [
    | inl e ↦ rw (e, touch) (refl, refl, refl, refl)
    | inr e ↦ rw (e, touch) (refl, refl, refl, refl)
  ]

  pub supersede-Kept :
      (s : Server g j) (keep bytes : ℕ) (pool : Pool)
      → Kept (supersede g j s keep bytes pool).pool pool
  unfolding supersede
  supersede-Kept s keep bytes [] = end
  supersede-Kept s keep bytes (pe ∷ pool) =
      let rest = supersede-Kept s keep bytes pool in
      let without = supersede-Kept s keep (bytes - entry_bytes g j pe) pool in
      elim (Bool-cases (of_consumed g j s.consumed pe)) [
        | inr a ↦ rw (a, supersede) (keeps (same pe) rest)
        | inl a ↦ elim (Bool-cases (pe.boundary && ltb (length pe.tok) (length s.consumed))) [
          | inl b ↦ rw (a, b, supersede) (keeps (same pe) rest)
          | inr b ↦ elim (Bool-cases (length pe.tok == length s.consumed)) [
            | inl c ↦ rw (a, b, c, supersede) (keeps (touch-Renewed s pe) (Kept-refl pool))
            | inr c ↦ elim (Bool-cases (pe.id == keep)) [
              | inl d ↦ rw (a, b, c, d, supersede) (keeps (same pe) rest)
              | inr d ↦ rw (a, b, c, d, supersede) (drops without)
            ]
          ]
        ]
      ]

  pub supersede_all-Kept :
      (clock : ℕ) (tok : List ℕ) (bytes : ℕ) (pool : Pool)
      → Kept (supersede_all g j clock tok bytes pool).pool pool
  unfolding supersede_all
  supersede_all-Kept clock tok bytes [] = end
  supersede_all-Kept clock tok bytes (pe ∷ pool) =
      let rest = supersede_all-Kept clock tok bytes pool in
      let without = supersede_all-Kept clock tok (bytes - entry_bytes g j pe) pool in
      elim (Bool-cases (of_consumed g j tok pe)) [
        | inr a ↦ rw (a, supersede_all) (keeps (same pe) rest)
        | inl a ↦ elim (Bool-cases (length pe.tok == length tok)) [
          | inl c ↦ rw (a, c, supersede_all) (keeps (refl, refl, refl, refl) (Kept-refl pool))
          | inr c ↦ rw (a, c, supersede_all) (drops without)
        ]
      ]

  pub stamp-Kept : (id used : ℕ) (pool : Pool) → Kept (stamp g j id used pool) pool
  unfolding stamp
  stamp-Kept id used [] = end
  stamp-Kept id used (pe ∷ pool) = elim (Bool-cases (pe.id == id)) [
    | inl e ↦ rw (e, stamp) (keeps (refl, refl, refl, refl) (Kept-refl pool))
    | inr e ↦ rw (e, stamp) (keeps (same pe) (stamp-Kept id used pool))
  ]

  pub pool_evict_to-Kept :
      (s : Server g j) (need keep : ℕ) → Kept (pool_evict_to g j s need keep).0.pool s.pool
  unfolding pool_evict_to
  pool_evict_to-Kept s need keep = evict_rounds-Kept (length s.pool) s need keep
