-- ===== src/Ple/Asks.antt =====
-- What the look-up of a gather's rows leaves: the slots it hands out and the reads it asks for.
use qw_fnfer_xpu.Base.{
  ℕ, ◌≡◌, refl, ap, sym, subst, ◌∙◌, ◌⊎◌, inl, inr, true, false, Option, some, List, [], ◌∷◌, map,
  ◌==◌, Bool-cases, Option-cases, arith,
}
use qw_fnfer_xpu.Ple.Cache.{Table, Request, slot_of, cached, admit, look_up}

abbrev pub In : ℕ → List ℕ → Type 0
In r [] = ⊥
In r (x ∷ rows) = (r ≡ x) ⊎ In r rows

abbrev pub Asked : Request → List Request → Type 0
Asked q [] = ⊥
Asked q (x ∷ qs) = (q ≡ x) ⊎ Asked q qs

-- An indexed row is indexed at its own slot, and a valid slot holds the row it names.
abbrev pub Inv : Table → Type 0
Inv t =
    ((r s : ℕ) → t.index r ≡ some s → s ≡ slot_of t.n_slots r)
    × ((s : ℕ) → t.slot_valid s ≡ true → t.mem s ≡ t.slot_row s)

-- Different rows of the list fall into different slots.
abbrev pub Apart : ℕ → List ℕ → Type 0
Apart n rows = (r r' : ℕ) → In r rows → In r' rows → slot_of n r ≡ slot_of n r' → r ≡ r'

-- The reads of every list of requests land, each of them once or more often, in some order.
abbrev pub Completes : (List Request → Option (List Request)) → Type 0
Completes io =
    (qs : List Request)
    → (order : List Request) × (io qs ≡ some order)
      × ((q : Request) → Asked q qs → Asked q order)
      × ((q : Request) → Asked q order → Asked q qs)

cached-slot :
    (t : Table) (row s : ℕ)
    → Inv t
    → cached t row ≡ some s
    → (s ≡ slot_of t.n_slots row) × (t.mem s ≡ row)
unfolding cached
cached-slot t row s inv e = elim (Option-cases (t.index row)) [
  | inl i ↦ absurd (ground (arith, i))
  | inr (s', i) ↦
      let same : s' ≡ s = ground arith in
      let valid : t.slot_valid s ≡ true = ground arith in
      let named : t.slot_row s ≡ row = ground arith in
      (sym same ∙ inv.0 row s' i, inv.1 s valid ∙ named)
]

admit-Inv : (t : Table) (row : ℕ) → Inv t → Inv (admit t row)
unfolding admit
admit-Inv t row inv = (
  (λ r s e. elim (Bool-cases (row == r)) [
    | inl same ↦ ground (arith, same, e)
    | inr other ↦ inv.0 r s (erased r s other e)
  ]),
  (λ s v. elim (Bool-cases (slot_of t.n_slots row == s)) [
    | inl same ↦ absurd (ground (arith, same, v))
    | inr other ↦ rw other (inv.1 s (ground (arith, other, v)))
  ]),
)
  where
    erased : (r s : ℕ) → (row == r) ≡ false → (admit t row).index r ≡ some s → t.index r ≡ some s
    erased r s other e = ground (arith, other, e)

-- What the first loop leaves, beside its slots and requests.
pub record LookedUp (t : Table) (rows : List ℕ) (out : Table × (List ℕ × List Request))
    : Type 0 where
  pub inv : Inv out.0
  pub size : out.0.n_slots ≡ t.n_slots
  pub mem : out.0.mem ≡ t.mem
  pub outs : out.1.0 ≡ map (slot_of t.n_slots) rows
  pub asked : (q : Request) → Asked q out.1.1 → (q.slot ≡ slot_of t.n_slots q.row) × In q.row rows
  pub served :
      (r : ℕ)
      → In r rows
      → ((q : Request) × Asked q out.1.1 × (q.row ≡ r)) ⊎ (t.mem (slot_of t.n_slots r) ≡ r)
  pub invalid : (s : ℕ) → t.slot_valid s ≡ false → out.0.slot_valid s ≡ false

pub look_up-LookedUp : (t : Table) (rows : List ℕ) → Inv t → LookedUp t rows (look_up t rows)
unfolding look_up admit
look_up-LookedUp t [] h = record {
  inv = h;
  size = refl;
  mem = refl;
  outs = refl;
  asked = λ q a. absurd a;
  served = λ r a. absurd a;
  invalid = λ s v. v;
}
look_up-LookedUp t (row ∷ rows) h = elim (Option-cases (cached t row)) [
  | inr (s, e) ↦
      let rest = look_up-LookedUp t rows h in
      let c = cached-slot t row s h e in rw (e, look_up) (hit s c rest)
  | inl e ↦
      let rest = look_up-LookedUp (admit t row) rows (admit-Inv t row h) in
      rw (e, look_up) (miss rest)
]
  where
    hit :
        (s : ℕ)
        → (s ≡ slot_of t.n_slots row) × (t.mem s ≡ row)
        → LookedUp t rows (look_up t rows)
        → LookedUp t
            (row ∷ rows)
            ((look_up t rows).0, (s ∷ (look_up t rows).1.0, (look_up t rows).1.1))
    hit s c rest = record {
      inv = rest.inv;
      size = rest.size;
      mem = rest.mem;
      outs = rw (c.0, rest.outs) refl;
      asked = λ q a. ((rest.asked q a).0, inr (rest.asked q a).1);
      served = λ r a. elim a [
        | inl x ↦ inr (rw x (subst (λ k. t.mem k ≡ row) c.0 c.1))
        | inr y ↦ rest.served r y
      ];
      invalid = rest.invalid;
    }

    miss :
        LookedUp (admit t row) rows (look_up (admit t row) rows)
        → LookedUp t (row ∷ rows) (
          (look_up (admit t row) rows).0,
          (
            slot_of t.n_slots row ∷ (look_up (admit t row) rows).1.0,
            record { row = row; slot = slot_of t.n_slots row } ∷ (look_up (admit t row) rows).1.1,
          ),
        )
    miss rest = record {
      inv = rest.inv;
      size = rest.size;
      mem = rest.mem;
      outs = ap (λ xs. slot_of t.n_slots row ∷ xs) rest.outs;
      asked = λ q a. elim a [
        | inl x ↦ (
          ap (λ (k : Request). k.slot) x ∙ sym (ap (λ (k : Request). slot_of t.n_slots k.row) x),
          inl (ap (λ (k : Request). k.row) x),
        )
        | inr y ↦ ((rest.asked q y).0, inr (rest.asked q y).1)
      ];
      served = λ r a. elim a [
        | inl x ↦ inl (record { row = row; slot = slot_of t.n_slots row }, inl refl, sym x)
        | inr y ↦ elim (rest.served r y) [ inl (q, b, c) ↦ inl (q, inr b, c) | inr m ↦ inr m ]
      ];
      invalid = λ s v. rest.invalid s (ground (arith, v));
    }

-- A slot that is not valid, and whose rows in the list are all one, keeps that row's name.
look_up-named :
    (t : Table) (rows : List ℕ) (s x : ℕ)
    → ((r : ℕ) → In r rows → slot_of t.n_slots r ≡ s → r ≡ x)
    → t.slot_row s ≡ x
    → (look_up t rows).0.slot_row s ≡ x
unfolding look_up admit
look_up-named t [] s x one e = e
look_up-named t (row ∷ rows) s x one e = elim (Option-cases (cached t row)) [
  | inr (s', c) ↦ rw (c, look_up) (look_up-named t rows s x (λ r i. one r (inr i)) e)
  | inl c ↦
      rw (c, look_up)
        (look_up-named (admit t row) rows s x (λ r i. one r (inr i))
          (elim (Bool-cases (slot_of t.n_slots row == s)) [
            | inl same ↦ rw same (one row (inl refl) (ground (arith, same)))
            | inr other ↦ rw other e
          ]))
]

-- Each request's slot is invalid after the loop, and names the request's row.
pub look_up-pending :
    (t : Table) (rows : List ℕ)
    → Inv t
    → Apart t.n_slots rows
    → (q : Request) → Asked q (look_up t rows).1.1
    → ((look_up t rows).0.slot_valid q.slot ≡ false) × ((look_up t rows).0.slot_row q.slot ≡ q.row)
unfolding look_up admit
look_up-pending t [] h apart q = λ a. absurd a
look_up-pending t (row ∷ rows) h apart q = elim (Option-cases (cached t row)) [
  | inr (s', c) ↦
      rw (c, look_up) (look_up-pending t rows h (λ r r' i i'. apart r r' (inr i) (inr i')) q)
  | inl c ↦
      rw (c, look_up)
        (λ a. elim a [
          | inl x ↦
              subst
                (λ (k : Request).
                  (after.slot_valid k.slot ≡ false) × (after.slot_row k.slot ≡ k.row))
                (sym x) first
          | inr y ↦
              look_up-pending (admit t row) rows (admit-Inv t row h)
                (λ r r' i i'. apart r r' (inr i) (inr i')) q y
        ])
]
  where
    s0 : ℕ
    s0 = slot_of t.n_slots row

    after : Table
    after = (look_up (admit t row) rows).0

    first : (after.slot_valid s0 ≡ false) × (after.slot_row s0 ≡ row)
    first = (
      (look_up-LookedUp (admit t row) rows (admit-Inv t row h)).invalid s0 (ground arith),
      look_up-named (admit t row) rows s0 row (λ r i e. apart r row (inr i) (inl refl) e)
          (ground arith),
    )
