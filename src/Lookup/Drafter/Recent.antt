-- ===== src/Lookup/Drafter/Recent.antt =====
-- The size of the trigram table, and the trigram that `append` has just indexed.
use Prim.Native.Nat.{bit_and}
use native.Mathlib.Nat.{pow-suc}
use qw_fnfer_xpu.Base.{
  ℕ, zero, suc, ◌+◌, ◌-◌, ◌*◌, ◌%◌, ◌^◌, max, sym, ◌≤◌, ◌<◌, ◌≡◌, ◌≢◌, refl, ◌∙◌, Bool, true, false,
  ◌||◌, ◌⊎◌, inl, inr, [], ◌∷◌, ◌++◌, some, none, arith, ltb, ltb→lt, ◌==◌, Bool-cases,
  Option-cases, length, length-append, take, update, update_self, update_ne, ap,
}
use qw_fnfer_xpu.Lookup.Drafter.{
  Drafter, Slot, key_at, probe, find_slot, push_pos, index_end, append_one, grow, reset, u64,
  u32_max,
}

-- With enough rounds the doubling loop ends by its test, at the first power of two that suffices.
abbrev pub Grown : ℕ → ℕ → ℕ → Type 0
Grown low wanted g = (k : ℕ) × (g ≡ low * 2 ^ k) × (wanted ≤ g) × (g ≤ max low (2 * wanted))

double : (low k : ℕ) → low * 2 ^ suc k ≡ low * 2 * 2 ^ k
double low k = rw (pow-suc 2 k) (omega arith)

doubled_le : (low k : ℕ) → low ≤ low * 2 ^ k
doubled_le low zero = omega arith
doubled_le low (suc k) = omega (arith, double low k, doubled_le (low * 2) k)

-- A size that some shifts take to 2^64, and that is not there yet, has room for one of them.
room_to_shift : (low k : ℕ) → low * 2 ^ k ≡ 2 ^ 64 → low < 2 ^ 64 → low ≤ 2 ^ 63
room_to_shift low zero h below = absurd (omega arith)
room_to_shift low (suc k) h below =
    let twice : low * 2 ^ suc k ≡ low * 2 ^ k * 2 = rw (pow-suc 2 k) (omega arith) in
    omega (arith, h, twice, doubled_le low k)

grow-Grown :
    (rounds low wanted : ℕ)
    → low * 2 ^ rounds ≡ 2 ^ 64
    → low ≤ 2 ^ 63
    → wanted ≤ 2 ^ 63
    → Grown low wanted (grow rounds low wanted)
unfolding grow
grow-Grown zero low wanted h half fits = absurd (omega arith)
grow-Grown (suc rounds) low wanted h half fits = elim (Bool-cases (ltb low wanted)) [
  | inl small ↦
      let less = ltb→lt low wanted small in
      let kept : (low * 2) % u64 ≡ low * 2 = omega arith in
      let (k, e, enough, tight) =
        grow-Grown rounds (low * 2) wanted (sym (double low rounds) ∙ h)
          (room_to_shift (low * 2) rounds (sym (double low rounds) ∙ h) (omega arith)) fits in
      rw (small, kept, grow) (suc k, e ∙ sym (double low k), enough, ground arith)
  | inr large ↦ rw (large, grow) (0, omega arith, ground arith, omega arith)
]

-- A second probe, over a table where only the slot `j` has changed and holds the key, finds `j`.
probe-again :
    (table later : ℕ → Slot) (mask key j : ℕ)
    → (later j).key ≡ key
    → ((i : ℕ) → j ≢ i → (later i).key ≡ (table i).key)
    → (rounds i probes : ℕ) → probe rounds i probes table mask key true ≡ some j
    → probe rounds i probes later mask key false ≡ some j
unfolding probe
probe-again table later mask key j k same zero i probes h = cc
probe-again table later mask key j k same (suc rounds) i probes h = ground (
  arith,
  same i,
  probe-again table later mask key j k same rounds (bit_and (i + 1) mask) (probes + 1),
)

find_slot-probe :
    (d : Drafter) (key : ℕ) (insert : Bool)
    → (find_slot d key insert).0 ≡ probe 64 (bit_and key d.mask) 0 d.table d.mask key insert
unfolding find_slot
find_slot-probe d key insert =
    elim (Option-cases (probe 64 (bit_and key d.mask) 0 d.table d.mask key insert)) [
      | inl e ↦ rw (e, find_slot)
      | inr (j, e) ↦ rw (e, find_slot)
    ]

-- The claim gives the slot the key, changes no other slot's key, and no positions.
find_slot-table :
    (d : Drafter) (key j i : ℕ)
    → (find_slot d key true).0 ≡ some j
    → (((find_slot d key true).1 i).pos ≡ (d.table i).pos)
      × (((find_slot d key true).1 j).key ≡ key)
      × (j ≢ i → ((find_slot d key true).1 i).key ≡ (d.table i).key)
unfolding find_slot
find_slot-table d key j i e =
    let found = sym (find_slot-probe d key true) ∙ e in
    elim (Bool-cases ((d.table j).key == key)) [
      | inl there ↦ rw (found, find_slot, there) (refl, ground arith, λ _. refl)
      | inr new ↦ rw (found, find_slot, new) (ground arith, ground arith, λ ne. ground arith)
    ]

-- For a capacity above zero whose double is no more than 2^63, the doubling ends before the size can
-- wrap to 0: the table is sized to a power of two that holds twice the tokens asked for, and is no
-- more than twice that.
pub reset-Grown :
    (d : Drafter) (capacity : ℕ)
    → 0 < capacity
    → capacity * 2 ≤ 2 ^ 63
    → Grown 1 (capacity * 2) ((reset d capacity).mask + 1)
unfolding reset
reset-Grown d capacity h fits =
    let e : (capacity * 2) % u64 ≡ capacity * 2 = omega arith in
    let g = grow-Grown 64 1 (capacity * 2) refl (omega arith) fits in
    let back : grow 64 1 (capacity * 2) - 1 + 1 ≡ grow 64 1 (capacity * 2) = omega (arith, g.2) in
    rw (e, back) g

push_pos-pos : (s : Slot) (e : ℕ) → (push_pos s e).pos ≡ e ∷ take 3 s.pos
unfolding push_pos
push_pos-pos s e = refl

push_pos-key : (s : Slot) (e : ℕ) → (push_pos s e).key ≡ s.key
unfolding push_pos
push_pos-key s e = refl

abbrev pub Recent : Drafter → Drafter → ℕ → Type 0
Recent old d e =
    ((find_slot old (key_at d.hist e) true).0 ≡ none)
    ⊎ ((j : ℕ) × ((find_slot d (key_at d.hist e) false).0 ≡ some j)
        × ((d.table j).pos ≡ e ∷ take 3 (old.table j).pos))

index_end-Recent : (d : Drafter) (e : ℕ) → 2 ≤ e → e < u32_max → Recent d (index_end d e) e
unfolding index_end
index_end-Recent d e two fits = elim (Option-cases (find_slot d (key_at d.hist e) true).0) [
  | inl missing ↦ rw (missing, index_end) (ground (arith, missing))
  | inr (j, found) ↦
      let key = key_at d.hist e in
      let claimed = (find_slot d key true).1 in
      let skip : (ltb e 2 || ltb u32_max e) ≡ false = ground arith in
      rw (skip, found, index_end)
        (inr (
          j,
          find_slot-probe (record d { table = update claimed j (push_pos (claimed j) e) }) key false
              ∙ probe-again d.table (update claimed j (push_pos (claimed j) e)) d.mask key j
                  (rw (update_self claimed j (push_pos (claimed j) e))
                    (push_pos-key (claimed j) e ∙ (find_slot-table d key j j found).1))
                  (λ i ne.
                    rw (update_ne claimed j i (push_pos (claimed j) e) ne)
                      ((find_slot-table d key j i found).2 ne))
                  64 _ 0 (sym (find_slot-probe d key true) ∙ found),
          rw (update_self claimed j (push_pos (claimed j) e)) (
              push_pos-pos (claimed j) e
              ∙ ap (λ ps. e ∷ take 3 ps) (find_slot-table d key j j found).0),
        ))
]

-- After a token is appended to two or more, and fewer than 2^32 - 1, either the bounded probing found no slot for the new
-- trigram, or `find_slot` finds the trigram's slot, with the token's position in front of the three
-- most recent that the slot held before.
pub append_one-Recent :
    (d : Drafter) (t : ℕ)
    → 2 ≤ length d.hist
    → length d.hist < u32_max
    → Recent (record d { hist = d.hist ++ t ∷ [] }) (append_one d t) (length d.hist)
unfolding append_one
append_one-Recent d t two fits =
    let e : length (d.hist ++ t ∷ []) - 1 ≡ length d.hist =
      omega (arith, length-append d.hist (t ∷ [])) in
    rw e (index_end-Recent (record d { hist = d.hist ++ t ∷ [] }) (length d.hist) two fits)
