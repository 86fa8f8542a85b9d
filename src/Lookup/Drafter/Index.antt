-- ===== src/Lookup/Drafter/Index.antt =====
-- The trigram table of `lookup_drafter`: what `append` and `find_slot` keep of it.
use Prim.Native.Nat.{bit_and, bit_or, bit_or-bitwise}
use qw_fnfer_xpu.Base.{
  ℕ, zero, suc, ◌+◌, ◌-◌, ◌≤◌, ◌<◌, ◌≡◌, refl, sym, ap, ◌∙◌, Bool, true, ◌||◌, ◌⊎◌, inl, inr, List,
  [], ◌∷◌, ◌++◌, some, none, Option, arith, ltb, ◌==◌, ==_iff, Bool-cases, Option-cases, length,
  length-append, length-take, take, update_self,
}
use native.Mathlib.Numerals.{add-one}
use qw_fnfer_xpu.Lookup.Drafter.{
  Drafter, Slot, at, ways, key_at, probe, find_slot, push_pos, index_end, append_one, append,
  u32_max,
}

bit_or_one-pos : (a : ℕ) → 0 < bit_or a 1
bit_or_one-pos zero = omega (arith, bit_or-bitwise 0 1)
bit_or_one-pos (suc a) = omega (arith, bit_or-bitwise (suc a) 1)

-- The hash of a trigram is never the key 0 of an empty slot.
key_at-pos : (hist : List ℕ) (e : ℕ) → 0 < key_at hist e
unfolding key_at
key_at-pos hist e = bit_or_one-pos _

at-append : (xs ys : List ℕ) (i : ℕ) → i < length xs → at (xs ++ ys) i ≡ at xs i
at-append [] ys i h = absurd (omega arith)
at-append (x ∷ xs) ys zero h = refl
at-append (x ∷ xs) ys (suc i) h = at-append xs ys i (omega arith)

key_at-append : (xs ys : List ℕ) (e : ℕ) → e < length xs → key_at (xs ++ ys) e ≡ key_at xs e
unfolding key_at
key_at-append xs ys e h = rw (
  at-append xs ys e h,
  at-append xs ys (e - 1) (omega arith),
  at-append xs ys (e - 2) (omega arith),
)

-- Every position names a trigram of the history whose hash is the key.
abbrev pub Ends : List ℕ → ℕ → List ℕ → Type 0
Ends hist key [] = Unit {0}
Ends hist key (p ∷ ps) = ((2 ≤ p) × (p < length hist) × (key_at hist p ≡ key)) × Ends hist key ps

pub record SlotIndexed (hist : List ℕ) (s : Slot) : Type 0 where
  pub ends : Ends hist s.key (take s.n s.pos)
  pub bounded : s.n ≤ ways
  pub full : length s.pos ≡ ways
  pub unused : s.key ≡ 0 → s.n ≡ 0

abbrev pub IsIndexed : Drafter → Type 0
IsIndexed d = (i : ℕ) → SlotIndexed d.hist (d.table i)

Ends-append :
    (hist more : List ℕ) (key : ℕ) (ps : List ℕ) → Ends hist key ps → Ends (hist ++ more) key ps
Ends-append hist more key [] h = tt
Ends-append hist more key (p ∷ ps) h = (
  (h.0.0, omega (arith, length-append hist more), key_at-append hist more p h.0.1 ∙ h.0.2),
  Ends-append hist more key ps h.1,
)

SlotIndexed-append :
    (hist more : List ℕ) (s : Slot) → SlotIndexed hist s → SlotIndexed (hist ++ more) s
SlotIndexed-append hist more s h = record {
  ends = Ends-append hist more s.key (take s.n s.pos) h.ends;
  bounded = h.bounded;
  full = h.full;
  unused = h.unused;
}

Ends-take :
    (hist : List ℕ) (key n m : ℕ) (ps : List ℕ)
    → Ends hist key (take n ps)
    → Ends hist key (take n (take m ps))
Ends-take hist key zero m ps h = tt
Ends-take hist key (suc n) zero ps h = tt
Ends-take hist key (suc n) (suc m) [] h = tt
Ends-take hist key (suc n) (suc m) (p ∷ ps) h = (h.0, Ends-take hist key n m ps h.1)

-- A shorter prefix of the positions.
Ends-shorter :
    (hist : List ℕ) (key n m : ℕ) (ps : List ℕ)
    → n ≤ m
    → Ends hist key (take m ps)
    → Ends hist key (take n ps)
Ends-shorter hist key zero m ps le h = tt
Ends-shorter hist key (suc n) zero ps le h = absurd (omega arith)
Ends-shorter hist key (suc n) (suc m) [] le h = tt
Ends-shorter hist key (suc n) (suc m) (p ∷ ps) le h =
    (h.0, Ends-shorter hist key n m ps (omega arith) h.1)

push_pos-SlotIndexed :
    (hist : List ℕ) (s : Slot) (e : ℕ)
    → SlotIndexed hist s
    → 2 ≤ e
    → e < length hist
    → key_at hist e ≡ s.key
    → SlotIndexed hist (push_pos s e)
unfolding push_pos
push_pos-SlotIndexed hist s e h two inside k = record {
  ends = elim (Bool-cases (ltb s.n ways)) [
    | inl room ↦ rw (room, add-one s.n) ((two, inside, k), Ends-take hist s.key s.n 3 s.pos h.ends)
    | inr no_room ↦
        let four : s.n ≡ 4 = ground (arith, h.bounded) in
        rw (no_room, four)
          (
            (two, inside, k),
            Ends-take hist s.key 3 3 s.pos
                (Ends-shorter hist s.key 3 s.n s.pos (omega arith) h.ends),
          )
  ];
  bounded = ground (arith, h.bounded);
  full = omega (arith, length-take 3 s.pos, h.full);
  unused = λ z. absurd (omega (arith, key_at-pos hist e));
}

pub probe-key :
    (rounds i probes : ℕ) (table : ℕ → Slot) (mask key : ℕ) (insert : Bool) (j : ℕ)
    → probe rounds i probes table mask key insert ≡ some j
    → ((table j).key ≡ key) ⊎ ((insert ≡ true) × ((table j).key ≡ 0))
unfolding probe
probe-key zero i probes table mask key insert j h = cc
probe-key (suc rounds) i probes table mask key insert j h =
    ground (arith, probe-key rounds (bit_and (i + 1) mask) (probes + 1) table mask key insert j)

claimed :
    (hist : List ℕ) (s : Slot) (key : ℕ)
    → s.key ≡ 0
    → SlotIndexed hist s
    → SlotIndexed hist (record s { key = key })
claimed hist s key e h = record {
  ends = rw (h.unused e) tt;
  bounded = h.bounded;
  full = h.full;
  unused = λ z. h.unused e;
}

-- What `find_slot` with `insert` returns: no slot and the table as it was, or a slot that holds the
-- key, in a table that is as good as before.
abbrev Claims : Drafter → ℕ → Option ℕ × (ℕ → Slot) → Type 0
Claims d key r =
    ((r.0 ≡ none) × (r.1 ≡ d.table))
    ⊎ ((j : ℕ) × (r.0 ≡ some j) × ((r.1 j).key ≡ key) × ((i : ℕ) → SlotIndexed d.hist (r.1 i)))

find_slot-Claims : (d : Drafter) (key : ℕ) → IsIndexed d → Claims d key (find_slot d key true)
unfolding find_slot
find_slot-Claims d key h = elim (Option-cases found) [
  | inl missing ↦ rw (missing, find_slot) (inl (refl, refl))
  | inr (j, e) ↦ elim (Bool-cases ((d.table j).key == key)) [
    | inl there ↦ rw (e, find_slot, there) (inr (j, refl, (==_iff _ _).0 there, h))
    | inr new ↦ elim (probe-key 64 _ 0 d.table d.mask key true j e) [
      | inl same ↦ absurd (ground arith)
      | inr (_, z) ↦
          rw (e, find_slot, new)
            (inr (
              j,
              refl,
              ap (λ (s : Slot). s.key) (update_self d.table j _),
              λ i. elim (Bool-cases (j == i)) [
                | inl here ↦ rw here (claimed d.hist (d.table j) key z (h j))
                | inr other ↦ rw other (h i)
              ],
            ))
    ]
  ]
]
  where
    found : Option ℕ
    found = probe 64 (bit_and key d.mask) 0 d.table d.mask key true

index_end-IsIndexed :
    (d : Drafter) (e : ℕ) → e < length d.hist → IsIndexed d → IsIndexed (index_end d e)
unfolding index_end
index_end-IsIndexed d e inside h = elim (Bool-cases (ltb e 2 || ltb u32_max e)) [
  | inl skip ↦ rw (skip, index_end) h
  | inr go ↦ elim (find_slot-Claims d (key_at d.hist e) h) [
    | inl (full, same) ↦ rw (go, full, same, index_end) h
    | inr (j, found, k, keep) ↦
        rw (go, found, index_end)
          (λ i. elim (Bool-cases (j == i)) [
            | inl here ↦
                rw here (push_pos-SlotIndexed d.hist _ e (keep j) (ground arith) inside (sym k))
            | inr other ↦ rw other (keep i)
          ])
  ]
]

append_one-IsIndexed : (d : Drafter) (t : ℕ) → IsIndexed d → IsIndexed (append_one d t)
unfolding append_one
append_one-IsIndexed d t h =
    index_end-IsIndexed (record d { hist = d.hist ++ t ∷ [] }) (length (d.hist ++ t ∷ []) - 1)
      (omega (arith, length-append d.hist (t ∷ [])))
      (λ i. SlotIndexed-append d.hist (t ∷ []) (d.table i) (h i))

-- Where every position in the table names a trigram of the history with the slot's hash, it still does
-- after any tokens are appended.
pub append-IsIndexed : (d : Drafter) (ts : List ℕ) → IsIndexed d → IsIndexed (append d ts)
unfolding append
append-IsIndexed d [] h = h
append-IsIndexed d (t ∷ ts) h = append-IsIndexed (append_one d t) ts (append_one-IsIndexed d t h)
