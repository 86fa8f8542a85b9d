-- ===== src/Ple/Rows.antt =====
-- `ple_rows_for`: the rows of the table that a token position reads. A token is the 32-bit pattern of
-- the source's int32_t, so a negative one is 2^31 or more.
use Prim.Native.Nat.{bit_xor}
use native.Mathlib.Nat.{mod-lt}
use qw_fnfer_xpu.Base.{
  ℕ, zero, suc, ◌+◌, ◌-◌, ◌*◌, ◌%◌, ◌^◌, ◌≤◌, ◌<◌, ◌≡◌, refl, ap, ◌∙◌, subst, ◌⊎◌, inl, inr, Bool,
  true, false, ◌||◌, List, [], ◌∷◌, ◌++◌, ltb, leb, ◌==◌, if◌then◌else◌, Bool-cases, length,
  length-append, get_or, arith,
}

pub record Hparams : Type 0 where
  pub ngram_size : ℕ
  pub heads_per_ngram : ℕ
  pub eos : ℕ
  pub multipliers : ℕ → ℕ
  pub vocab_sizes : ℕ → ℕ
  pub offsets : ℕ → ℕ

abbrev pub negative : ℕ → Bool
negative t = leb (2 ^ 31) t

-- `(uint64_t) (int64_t) t`.
abbrev pub extended : ℕ → ℕ
extended t = if negative t then t + (2 ^ 64 - 2 ^ 32) else t

-- The loop over the predecessors: `cut` once an end of sequence or the start has been met.
unfoldable pub context_from : Hparams → List ℕ → ℕ → ℕ → ℕ → Bool → List ℕ
context_from hp tokens i zero s cut = []
context_from hp tokens i (suc rounds) s cut =
    let t = get_or tokens (i - s) 0 in
    let cut' = cut || (ltb i s || (negative t || t == hp.eos)) in
    (if cut' then hp.eos else t) ∷ context_from hp tokens i rounds (s + 1) cut'

unfoldable pub context : Hparams → List ℕ → ℕ → List ℕ
context hp tokens i =
    extended (get_or tokens i 0) ∷ context_from hp tokens i (hp.ngram_size - 1) 1 false

-- `for (j = 1; j < n; j++) mixed ^= ctx[j] * multipliers[j];`
unfoldable pub mixed_from : Hparams → List ℕ → ℕ → ℕ → ℕ → ℕ
mixed_from hp ctx zero k mixed = mixed
mixed_from hp ctx (suc rounds) k mixed =
    mixed_from hp ctx rounds (k + 1) (bit_xor mixed ((get_or ctx k 0 * hp.multipliers k) % 2 ^ 64))

unfoldable pub mixed : Hparams → List ℕ → ℕ → ℕ
mixed hp ctx n = mixed_from hp ctx (n - 1) 1 ((get_or ctx 0 0 * hp.multipliers 0) % 2 ^ 64)

unfoldable pub head_rows : Hparams → ℕ → ℕ → ℕ → List ℕ
head_rows hp m zero h = []
head_rows hp m (suc rounds) h =
    ((m % hp.vocab_sizes h + hp.offsets h) % 2 ^ 64) ∷ head_rows hp m rounds (h + 1)

unfoldable pub order_rows : Hparams → List ℕ → ℕ → ℕ → List ℕ
order_rows hp ctx zero n = []
order_rows hp ctx (suc rounds) n =
    head_rows hp (mixed hp ctx n) hp.heads_per_ngram ((n - 2) * hp.heads_per_ngram)
    ++ order_rows hp ctx rounds (n + 1)

unfoldable pub ple_rows_for : Hparams → List ℕ → ℕ → List ℕ
ple_rows_for hp tokens i = order_rows hp (context hp tokens i) (hp.ngram_size - 1) 2

-- The rows are, head for head from `h` on, inside their heads' ranges.
abbrev pub Within : Hparams → ℕ → List ℕ → Type 0
Within hp h [] = Unit {0}
Within hp h (r ∷ rows) =
    ((hp.offsets h ≤ r) × (r < hp.offsets h + hp.vocab_sizes h)) × Within hp (suc h) rows

-- Every head has rows, and its range ends below 2^64.
abbrev pub HasRows : Hparams → Type 0
HasRows hp = (h : ℕ) → (0 < hp.vocab_sizes h) × (hp.offsets h + hp.vocab_sizes h < 2 ^ 64)

Within-append :
    (hp : Hparams) (h : ℕ) (xs ys : List ℕ)
    → Within hp h xs
    → Within hp (h + length xs) ys
    → Within hp h (xs ++ ys)
Within-append hp h [] ys a b = subst (λ k. Within hp k ys) (omega arith) b
Within-append hp h (x ∷ xs) ys a b =
    (a.0, Within-append hp (suc h) xs ys a.1 (subst (λ k. Within hp k ys) (omega arith) b))

head_rows-Within :
    (hp : Hparams) (m rounds h : ℕ)
    → HasRows hp
    → Within hp h (head_rows hp m rounds h) × (length (head_rows hp m rounds h) ≡ rounds)
unfolding head_rows
head_rows-Within hp m zero h ok = (tt, refl)
head_rows-Within hp m (suc rounds) h ok =
    let rest = head_rows-Within hp m rounds (h + 1) ok in
    let below : m % hp.vocab_sizes h < hp.vocab_sizes h = mod-lt m (ok h).0 in
    let fits : (m % hp.vocab_sizes h + hp.offsets h) % 2 ^ 64
        ≡ m % hp.vocab_sizes h + hp.offsets h =
      omega (arith, below, (ok h).1) in
    (
      (
        (omega (arith, fits), omega (arith, fits, below)),
        subst (λ k. Within hp k (head_rows hp m rounds (h + 1))) (omega arith) rest.0,
      ),
      omega (arith, rest.1),
    )

order_rows-Within :
    (hp : Hparams) (ctx : List ℕ) (rounds k : ℕ)
    → HasRows hp
    → Within hp (k * hp.heads_per_ngram) (order_rows hp ctx rounds (k + 2))
      × (length (order_rows hp ctx rounds (k + 2)) ≡ rounds * hp.heads_per_ngram)
unfolding order_rows
order_rows-Within hp ctx zero k ok = (tt, omega arith)
order_rows-Within hp ctx (suc rounds) k ok =
    let p = hp.heads_per_ngram in
    let back : k + 2 - 2 ≡ k = omega arith in
    let next : k + 2 + 1 ≡ suc k + 2 = omega arith in
    let here = head_rows hp (mixed hp ctx (k + 2)) p (k * p) in
    let rest = order_rows hp ctx rounds (suc k + 2) in
    let first = head_rows-Within hp (mixed hp ctx (k + 2)) p (k * p) ok in
    let later = order_rows-Within hp ctx rounds (suc k) ok in
    let start : suc k * p ≡ k * p + length here = omega (arith, first.1) in
    rw (back, next)
      (
        Within-append hp (k * p) here rest first.0 (subst (λ h. Within hp h rest) start later.0),
        omega (arith, length-append here rest, first.1, later.1),
      )

-- The table's rows for a position are one for each head of each n-gram order, in the order of the
-- heads, each inside its head's range of rows; every head has rows and its range ends below 2^64.
pub ple_rows_for-Within :
    (hp : Hparams) (tokens : List ℕ) (i : ℕ)
    → HasRows hp
    → Within hp 0 (ple_rows_for hp tokens i)
      × (length (ple_rows_for hp tokens i) ≡ (hp.ngram_size - 1) * hp.heads_per_ngram)
unfolding ple_rows_for
ple_rows_for-Within hp tokens i ok =
    let r = order_rows-Within hp (context hp tokens i) (hp.ngram_size - 1) 0 ok in
    (
      subst (λ h. Within hp h (order_rows hp (context hp tokens i) (hp.ngram_size - 1) 2))
          (omega arith) r.0,
      r.1,
    )

-- What at distance `k` hides the tokens from there on: the start, a negative token, or the end of
-- sequence. `Sees`: the value at distance `s` when the distances from `low` on are looked at.
abbrev pub Hides : Hparams → List ℕ → ℕ → ℕ → Type 0
Hides hp tokens i k =
    (i < k) ⊎ ((negative (get_or tokens (i - k) 0) ≡ true) ⊎ (get_or tokens (i - k) 0 ≡ hp.eos))

abbrev pub Sees : Hparams → List ℕ → ℕ → ℕ → ℕ → ℕ → Type 0
Sees hp tokens i low s c =
    (((k : ℕ) → low ≤ k → k ≤ s → ¬ Hides hp tokens i k) × (c ≡ get_or tokens (i - s) 0))
    ⊎ (((k : ℕ) × (low ≤ k) × (k ≤ s) × Hides hp tokens i k) × (c ≡ hp.eos))

context_from_cut :
    (hp : Hparams) (tokens : List ℕ) (i rounds s d : ℕ)
    → d < rounds
    → get_or (context_from hp tokens i rounds s true) d 0 ≡ hp.eos
unfolding context_from
context_from_cut hp tokens i zero s d h = absurd (omega arith)
context_from_cut hp tokens i (suc rounds) s zero h = refl
context_from_cut hp tokens i (suc rounds) s (suc d) h =
    context_from_cut hp tokens i rounds (s + 1) d (omega arith)

hides :
    (hp : Hparams) (tokens : List ℕ) (i s : ℕ)
    → (Hides hp tokens i s
        × ((ltb i s || (negative (get_or tokens (i - s) 0) || get_or tokens (i - s) 0 == hp.eos))
            ≡ true))
      ⊎ ((¬ Hides hp tokens i s)
          × ((ltb i s || (negative (get_or tokens (i - s) 0) || get_or tokens (i - s) 0 == hp.eos))
              ≡ false))
hides hp tokens i s = elim (Bool-cases (ltb i s)) [
  | inl a ↦ inl (inl (ground arith), ground arith)
  | inr a ↦ elim (Bool-cases (negative (get_or tokens (i - s) 0))) [
    | inl b ↦ inl (inr (inl b), rw (a, b) refl)
    | inr b ↦ elim (Bool-cases (get_or tokens (i - s) 0 == hp.eos)) [
      | inl c ↦ inl (inr (inr (ground arith)), rw (a, b, c) refl)
      | inr c ↦ inr (
        (λ x. elim x [ inl u ↦ ground arith | inr (inl u) ↦ cc | inr (inr u) ↦ ground arith ]),
        rw (a, b, c) refl,
      )
    ]
  ]
]

Sees-further :
    (hp : Hparams) (tokens : List ℕ) (i s d c : ℕ)
    → ¬ Hides hp tokens i s
    → Sees hp tokens i (s + 1) (s + 1 + d) c
    → Sees hp tokens i s (s + suc d) c
Sees-further hp tokens i s d c x (inl (clear, e)) =
    let same : s + 1 + d ≡ s + suc d = omega arith in
    inl (
      (λ k a b. elim (Bool-cases (k == s)) [
        | inl q ↦ (λ y. x (subst (λ n. Hides hp tokens i n) (ground arith) y))
        | inr q ↦ clear k (ground arith) (omega arith)
      ]),
      e ∙ ap (λ n. get_or tokens (i - n) 0) same,
    )
Sees-further hp tokens i s d c x (inr ((k, a, b, y), e)) = inr ((k, omega arith, omega arith, y), e)

context_from-Sees :
    (hp : Hparams) (tokens : List ℕ) (i rounds s d : ℕ)
    → d < rounds
    → Sees hp tokens i s (s + d) (get_or (context_from hp tokens i rounds s false) d 0)
unfolding context_from
context_from-Sees hp tokens i zero s d h = absurd (omega arith)
context_from-Sees hp tokens i (suc rounds) s zero h = elim (hides hp tokens i s) [
  | inl (x, e) ↦ rw e (inr ((s, omega arith, omega arith, x), refl))
  | inr (x, e) ↦
      let same : s + 0 ≡ s = omega arith in
      rw (e, same) (inl ((λ k a b y. x (subst (λ n. Hides hp tokens i n) (omega arith) y)), refl))
]
context_from-Sees hp tokens i (suc rounds) s (suc d) h = elim (hides hp tokens i s) [
  | inl (x, e) ↦ rw e (
      inr (
        (s, omega arith, omega arith, x),
        context_from_cut hp tokens i rounds (s + 1) d (omega arith),
      ))
  | inr (x, e) ↦ rw e (
      Sees-further hp tokens i s d _ x
        (context_from-Sees hp tokens i rounds (s + 1) d (omega arith)))
]

-- The context of a position holds, at each distance inside the n-gram, the token that far back where
-- neither the start, a negative token nor the end of sequence is met at that distance or nearer, and
-- the end of sequence where one of them is.
pub context-Sees :
    (hp : Hparams) (tokens : List ℕ) (i s : ℕ)
    → 0 < s
    → s < hp.ngram_size
    → Sees hp tokens i 1 s (get_or (context hp tokens i) s 0)
unfolding context
context-Sees hp tokens i zero a b = absurd (omega arith)
context-Sees hp tokens i (suc s) a b =
    subst
      (λ n.
        Sees hp tokens i 1 n (get_or (context_from hp tokens i (hp.ngram_size - 1) 1 false) s 0))
      (omega arith) (context_from-Sees hp tokens i (hp.ngram_size - 1) 1 s (omega arith))
