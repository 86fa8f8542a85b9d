-- ===== src/Ple/Gather.antt =====
-- What a gather serves.
use qw_fnfer_xpu.Base.{
  ℕ, ◌≡◌, ◌≢◌, refl, ap, sym, subst, ◌∙◌, ◌⊎◌, inl, inr, Bool, true, false, Option, some, List, [],
  ◌∷◌, map, ◌==◌, Bool-cases, Option-cases, update, arith,
}
use qw_fnfer_xpu.Ple.Cache.{Table, Request, slot_of, look_up, land, validate, finish, gather}
use qw_fnfer_xpu.Ple.Asks.{
  In, Asked, Inv, Apart, Completes, LookedUp, look_up-LookedUp, look_up-pending,
}

-- After the reads a slot holds what it held, where none of them is for it, or the row of one that is.
land-Holds :
    (mem : ℕ → ℕ) (order : List Request) (s : ℕ)
    → ((land mem order s ≡ mem s) × ((q : Request) → Asked q order → q.slot ≢ s))
      ⊎ ((q : Request) × Asked q order × (q.slot ≡ s) × (land mem order s ≡ q.row))
unfolding land
land-Holds mem [] s = inl (refl, (λ q a. absurd a))
land-Holds mem (x ∷ order) s = elim (land-Holds (update mem x.slot x.row) order s) [
  | inr (q, a, e, r) ↦ inr (q, inr a, e, r)
  | inl (e, none_of) ↦ elim (Bool-cases (x.slot == s)) [
    | inl same ↦ inr (x, inl refl, ground (arith, same), e ∙ rw same refl)
    | inr other ↦ inl (
      e ∙ rw other refl,
      (λ q a. elim a [
        | inl y ↦ (λ z. ground (arith, other, y, z, ap (λ (k : Request). k.slot) y))
        | inr y ↦ none_of q y
      ]),
    )
  ]
]

validate-valid :
    (t : Table) (qs : List Request) (s : ℕ)
    → (validate t qs).slot_valid s ≡ true
    → (t.slot_valid s ≡ true) ⊎ ((q : Request) × Asked q qs × (t.index q.row ≡ some s))
unfolding validate
validate-valid t [] s = λ v. inl v
validate-valid t (x ∷ qs) s = elim (Option-cases (t.index x.row)) [
  | inl e ↦
      rw (e, validate)
        (λ v. elim (validate-valid t qs s v) [ inl w ↦ inl w | inr (q, a, i) ↦ inr (q, inr a, i) ])
  | inr (s', e) ↦
      let t' : Table = record t { slot_valid = update t.slot_valid s' true } in
      rw (e, validate)
        (λ v. elim (validate-valid t' qs s v) [
          | inl w ↦ elim (Bool-cases (s' == s)) [
            | inl same ↦ inr (x, inl refl, ground (arith, e, same))
            | inr other ↦ inl (ground (arith, other, w))
          ]
          | inr (q, a, i) ↦ inr (q, inr a, i)
        ])
]

validate-frame :
    (t : Table) (qs : List Request)
    → validate t qs ≡ record t { slot_valid = (validate t qs).slot_valid }
unfolding validate
validate-frame t [] = refl
validate-frame t (x ∷ qs) = elim (Option-cases (t.index x.row)) [
  | inl e ↦ rw (e, validate) (validate-frame t qs)
  | inr (s, e) ↦
      rw (e, validate) (validate-frame (record t { slot_valid = update t.slot_valid s true }) qs)
]

-- The rows are served: their slots are the payloads', and hold them.
abbrev pub Serves : Table → List ℕ → (Table × Bool) × List ℕ → Type 0
Serves t rows r =
    (r.0.1 ≡ true)
    × (r.1 ≡ map (slot_of t.n_slots) rows)
    × ((row : ℕ) → In row rows → r.0.0.mem (slot_of t.n_slots row) ≡ row)
    × Inv r.0.0

landed :
    (t : Table) (rows : List ℕ) (order : List Request)
    → Inv t
    → Apart t.n_slots rows
    → ((q : Request) → Asked q (look_up t rows).1.1 → Asked q order)
    → ((q : Request) → Asked q order → Asked q (look_up t rows).1.1)
    → (row : ℕ) → In row rows
    → land t.mem order (slot_of t.n_slots row) ≡ row
landed t rows order h apart there back row i =
    let r = look_up-LookedUp t rows h in
    elim (land-Holds t.mem order (slot_of t.n_slots row)) [
      | inr (q, a, e, m) ↦
          let (slot, asked_row) = r.asked q (back q a) in
          m ∙ apart q.row row asked_row i (sym slot ∙ e)
      | inl (m, none_of) ↦ elim (r.served row i) [
        | inl (q, a, e) ↦
            absurd (none_of q (there q a) ((r.asked q a).0 ∙ ap (slot_of t.n_slots) e))
        | inr old ↦ m ∙ old
      ]
    ]

validated-Inv :
    (t : Table) (rows : List ℕ) (order : List Request)
    → Inv t
    → Apart t.n_slots rows
    → ((q : Request) → Asked q (look_up t rows).1.1 → Asked q order)
    → ((q : Request) → Asked q order → Asked q (look_up t rows).1.1)
    → Inv (validate (record (look_up t rows).0 { mem = land t.mem order }) (look_up t rows).1.1)
validated-Inv t rows order h apart there back = (
  (λ r s e.
      (rest.inv.0 r s (sym (ap (λ (x : Table). x.index r) frame) ∙ e))
      ∙ ap (λ (x : Table). slot_of x.n_slots r) (sym frame)),
  (λ s v.
      ap (λ (x : Table). x.mem s) frame ∙ holds s v ∙ ap (λ (x : Table). x.slot_row s) (sym frame)),
)
  where
    qs : List Request
    qs = (look_up t rows).1.1

    out : Table
    out = (look_up t rows).0

    rest : LookedUp t rows (look_up t rows)
    rest = look_up-LookedUp t rows h

    read : Table
    read = record out { mem = land t.mem order }

    frame : validate read qs ≡ record read { slot_valid = (validate read qs).slot_valid }
    frame = validate-frame read qs

    holds : (s : ℕ) → (validate read qs).slot_valid s ≡ true → land t.mem order s ≡ out.slot_row s
    holds s v = elim (validate-valid read qs s v) [
      | inl w ↦ elim (land-Holds t.mem order s) [
        | inl (m, none_of) ↦ m ∙ sym (ap (λ f. f s) rest.mem) ∙ rest.inv.1 s w
        | inr (q, a, e, m) ↦
            let off = (look_up-pending t rows h apart q (back q a)).0 in
            let off' : out.slot_valid s ≡ false = subst (λ k. out.slot_valid k ≡ false) e off in
            absurd (ground arith)
      ]
      | inr (q, a, i) ↦
          let (slot, asked_row) = rest.asked q a in
          let own : s ≡ q.slot =
            rest.inv.0 q.row s i ∙ ap (λ n. slot_of n q.row) rest.size ∙ sym slot in
          let named = (look_up-pending t rows h apart q a).1 in
          ap (land t.mem order) (own ∙ slot)
          ∙ landed t rows order h apart there back q.row asked_row
          ∙ sym named
          ∙ ap out.slot_row (sym own)
    ]

finish-some :
    (t : Table) (qs order : List Request)
    → ((q : Request) → Asked q order → Asked q qs)
    → finish t qs (some order) ≡ (validate (record t { mem = land t.mem order }) qs, true)
unfolding finish land validate
finish-some t [] [] back = refl
finish-some t [] (x ∷ order) back = absurd (back x (inl refl))
finish-some t (q ∷ qs) order back = refl

-- A gather of rows that fall into different slots returns true; its payloads are the rows' slots, each
-- of them holds its row's bytes by then, and the cache is sound again, where it was sound before and
-- the reads of every list of requests land, in any order.
pub gather-Serves :
    (io : List Request → Option (List Request)) (t : Table) (rows : List ℕ)
    → Completes io
    → Inv t
    → Apart t.n_slots rows
    → Serves t rows (gather io t rows)
unfolding gather
gather-Serves io t rows ok h apart =
    let (order, e, there, back) = ok qs in
    let served = landed t rows order h apart there back in
    let sound = validated-Inv t rows order h apart there back in
    let path =
      ap (finish out qs) e
      ∙ finish-some out qs order back
      ∙ ap (λ (m : ℕ → ℕ). (validate (record out { mem = land m order }) qs, true)) rest.mem in
    let frame = validate-frame (record out { mem = land t.mem order }) qs in
    subst (λ (r : Table × Bool). Serves t rows (r, (look_up t rows).1.0)) (sym path)
      (
        refl,
        rest.outs,
        (λ row i. ap (λ (x : Table). x.mem (slot_of t.n_slots row)) frame ∙ served row i),
        sound,
      )
  where
    qs : List Request
    qs = (look_up t rows).1.1

    out : Table
    out = (look_up t rows).0

    rest : LookedUp t rows (look_up t rows)
    rest = look_up-LookedUp t rows h
