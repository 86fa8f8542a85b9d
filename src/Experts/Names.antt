-- ===== src/Experts/Names.antt =====
-- The two maps of a tier, from experts to slots and from slots to experts, under the changes that the
-- operations make to them.
use qw_fnfer_xpu.Base.{
  ℕ, ◌≡◌, ◌≢◌, true, false, Option, none, some, List, ◌==◌, update, Bool-cases, inl, inr, arith,
}
use qw_fnfer_xpu.Experts.Cache.{Named, without, holds, elem}

-- What is left of an index without a name.
pub without-Kept :
    (index : ℕ → Option ℕ) (x : Option ℕ) (e s : ℕ)
    → without index x e ≡ some s
    → (index e ≡ some s) × (x ≢ some e)
without-Kept index none e s h = (h, λ ne. ground arith)
without-Kept index (some o) e s h = (ground arith, λ same. ground arith)

-- A slot is taken over: the name of its last holder goes, the new name comes.
pub Named-claim :
    (index holder : ℕ → Option ℕ) (e v : ℕ)
    → Named index holder
    → Named (update (without index (holder v)) e (some v)) (update holder v (some e))
Named-claim index holder e v named e' s h = elim (Bool-cases (e == e')) [
  | inl same ↦ ground arith
  | inr other ↦
      let (at, gone) = without-Kept index (holder v) e' s (ground arith) in
      ground (arith, named e' s at, gone)
]

pub Named-mark :
    (index holder : ℕ → Option ℕ) (x : Option ℕ) (v : ℕ)
    → Named index holder
    → Named (without index (holder v)) (update holder v x)
Named-mark index holder x v named e' s h =
    let (at, gone) = without-Kept index (holder v) e' s h in ground (arith, named e' s at, gone)

pub Named-again :
    (index holder : ℕ → Option ℕ) (e v : ℕ)
    → holder v ≡ some e
    → Named index holder
    → Named (update index e (some v)) (update holder v (some e))
Named-again index holder e v at named e' s h = ground (arith, named e' s)

pub Named-release :
    (index holder : ℕ → Option ℕ) (v : ℕ)
    → Named index holder
    → (e : ℕ) → holder v ≡ some e
    → holds (index e) v ≡ false
    → Named index (update holder v none)
Named-release index holder v named e at other e' s h = ground (arith, named e' s)

pub elem_ne : (x y : ℕ) (ys : List ℕ) → elem x ys ≡ true → elem y ys ≡ false → x ≢ y
elem_ne x y ys i o same = ground arith

pub holds→some : (o : Option ℕ) (e : ℕ) → holds o e ≡ true → o ≡ some e
holds→some none e h = ground arith
holds→some (some x) e h = ground arith
