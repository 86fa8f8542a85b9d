-- ===== src/Text/Cut.antt =====
-- Where text is cut: `append_file` of src/qwfn_files.cpp keeps at most so many bytes of a file, and
-- does not end inside a character.
use qw_fnfer_xpu.Base.{
  take_past, ℕ, zero, suc, ◌+◌, ◌-◌, ◌/◌, ◌%◌, ◌≤◌, ◌<◌, ◌≡◌, refl, ap, sym, subst, ◌∙◌, ◌⊎◌, inl,
  inr, true, false, ◌&&◌, List, [], ◌∷◌, ◌++◌, ltb, if◌then◌else◌, min, Bool-cases, length,
  length-append, get_or, take, arith,
}
use qw_fnfer_xpu.Text.Utf8.{continuation_byte}
use qw_fnfer_xpu.Text.Accepts.{encode_some}
use qw_fnfer_xpu.Text.Encoding.{encode, encode_all, IsScalar, AllScalar, IsText}

-- `while (take < n && take > 0 && (d[take] & 0xC0) == 0x80) take--;`
unfoldable pub cut_back : List ℕ → ℕ → ℕ
cut_back ds zero = 0
cut_back ds (suc k) =
    let earlier = cut_back ds k in
    if ltb (suc k) (length ds) && continuation_byte (get_or ds (suc k) 0) then earlier else suc k

unfoldable pub kept_bytes : List ℕ → ℕ → ℕ
kept_bytes ds cap = cut_back ds (min (length ds) cap)

cut_back_le : (ds : List ℕ) (k : ℕ) → cut_back ds k ≤ k
unfolding cut_back
cut_back_le ds zero = omega arith
cut_back_le ds (suc k) = ground (arith, cut_back_le ds k)

pub kept_bytes_le : (ds : List ℕ) (cap : ℕ) → kept_bytes ds cap ≤ cap
unfolding kept_bytes
kept_bytes_le ds cap = omega (arith, cut_back_le ds (min (length ds) cap))

-- The position is the end, the start, or that of a byte which continues no character.
abbrev Boundary : List ℕ → ℕ → Type 0
Boundary ds k =
    (k ≡ 0) ⊎ ((k ≡ length ds) ⊎ ((k < length ds) × (continuation_byte (get_or ds k 0) ≡ false)))

cut_back-Boundary :
    (ds : List ℕ) (k : ℕ) → k ≤ length ds → Boundary ds (cut_back ds k) × (cut_back ds k ≤ k)
unfolding cut_back
cut_back-Boundary ds zero h = (inl refl, omega arith)
cut_back-Boundary ds (suc k) h = elim (Bool-cases (ltb (suc k) (length ds))) [
  | inr last ↦ rw (last, cut_back) (inr (inl (ground arith)), omega arith)
  | inl inside ↦ elim (Bool-cases (continuation_byte (get_or ds (suc k) 0))) [
    | inr start ↦ rw (inside, start, cut_back) (inr (inr (ground arith, start)), omega arith)
    | inl goes_on ↦
        let rest = cut_back-Boundary ds k (omega arith) in
        rw (inside, goes_on, cut_back) (rest.0, omega (arith, rest.1))
  ]
]

-- Inside an encoded character, past its first byte, every byte continues it.
encode-inside :
    (u : ℕ) (r : List ℕ) (k : ℕ)
    → IsScalar u
    → 0 < k
    → k < length (encode u)
    → continuation_byte (get_or (encode u ++ r) k 0) ≡ true
unfolding encode continuation_byte
encode-inside u r zero ok pos = absurd (omega arith)
encode-inside u r (suc k) (p, ok) pos = elim (Bool-cases (ltb u 0x80)) [
  | inl a ↦ rw (a, encode) (λ h. absurd (omega arith))
  | inr a ↦ elim (Bool-cases (ltb u 0x800)) [
    | inl b ↦ rw (a, b, encode) (λ h. two k (omega arith))
    | inr b ↦ elim (Bool-cases (ltb u 0x10000)) [
      | inl c ↦ rw (a, b, c, encode) (λ h. three k (omega arith))
      | inr c ↦ rw (a, b, c, encode) (λ h. four k (omega arith))
    ]
  ]
]
  where
    high : (n : ℕ) → continuation_byte (0x80 + n % 64) ≡ true
    high n = let e : (0x80 + n % 64) / 64 ≡ 2 = omega arith in rw (continuation_byte, e) refl

    two : (k : ℕ) → k < 1 → continuation_byte (get_or (((0x80 + u % 64) ∷ []) ++ r) k 0) ≡ true
    two zero h = high u
    two (suc k) h = absurd (omega arith)

    three :
        (k : ℕ)
        → k < 2
        → continuation_byte (get_or (((0x80 + u / 64 % 64) ∷ (0x80 + u % 64) ∷ []) ++ r) k 0) ≡ true
    three zero h = high (u / 64)
    three (suc zero) h = high u
    three (suc (suc k)) h = absurd (omega arith)

    four :
        (k : ℕ)
        → k < 3
        → continuation_byte (
            get_or
              (((0x80 + u / 4096 % 64) ∷ (0x80 + u / 64 % 64) ∷ (0x80 + u % 64) ∷ []) ++ r)
              k
              0)
          ≡ true
    four zero h = high (u / 4096)
    four (suc zero) h = high (u / 64)
    four (suc (suc zero)) h = high u
    four (suc (suc (suc k))) h = absurd (omega arith)

cut_back-greatest :
    (ds : List ℕ) (m k : ℕ)
    → cut_back ds m < k
    → k ≤ m
    → (k < length ds) × (continuation_byte (get_or ds k 0) ≡ true)
unfolding cut_back
cut_back-greatest ds zero k = λ a b. absurd (omega arith)
cut_back-greatest ds (suc m) k =
    elim (Bool-cases (ltb (suc m) (length ds) && continuation_byte (get_or ds (suc m) 0))) [
      | inr stop ↦ rw (stop, cut_back) (λ a b. absurd (omega arith))
      | inl on ↦
          rw (on, cut_back)
            (λ a b. elim (Bool-cases (ltb m k)) [
              | inl last ↦
                  let same : suc m ≡ k = ground arith in
                  subst (λ i. (i < length ds) × (continuation_byte (get_or ds i 0) ≡ true)) same
                    (ground arith, ground arith)
              | inr sooner ↦ cut_back-greatest ds m k a (ground arith)
            ])
    ]

get_past : (xs ys : List ℕ) (k : ℕ) → get_or (xs ++ ys) (length xs + k) 0 ≡ get_or ys k 0
get_past [] ys k = ap (λ i. get_or ys i 0) (omega arith)
get_past (x ∷ xs) ys k =
    let e : suc (length xs) + k ≡ suc (length xs + k) = omega arith in rw e (get_past xs ys k)

Boundary-past :
    (xs ys : List ℕ) (k : ℕ) → 0 < length xs → Boundary (xs ++ ys) (length xs + k) → Boundary ys k
Boundary-past xs ys k some_x (inl z) = absurd (omega arith)
Boundary-past xs ys k some_x (inr (inl e)) = inr (inl (omega (arith, length-append xs ys)))
Boundary-past xs ys k some_x (inr (inr (lt, c))) =
    inr
      (inr (omega (arith, length-append xs ys), sym (ap continuation_byte (get_past xs ys k)) ∙ c))

take-IsText :
    (us : List ℕ) (k : ℕ)
    → AllScalar us
    → Boundary (encode_all us) k
    → IsText (take k (encode_all us))
unfolding encode_all
take-IsText us zero all b = ([], tt, refl)
take-IsText [] (suc k) all b = ([], tt, refl)
take-IsText (u ∷ us) (suc k) all b = elim (Bool-cases (ltb (suc k) (length (encode u)))) [
  | inl inside ↦ absurd (no_boundary (ground arith) b)
  | inr past ↦
      let k' = suc k - length (encode u) in
      let e : suc k ≡ length (encode u) + k' = ground arith in
      let b' =
        Boundary-past (encode u) (encode_all us) k' (encode_some u)
          (subst (λ i. Boundary (encode u ++ encode_all us) i) e b) in
      let (vs, all', q) = take-IsText us k' all.1 b' in
      (
        u ∷ vs,
        (all.0, all'),
        ap (λ i. take i (encode u ++ encode_all us)) e
            ∙ take_past (encode u) (encode_all us) k'
            ∙ ap (λ xs. encode u ++ xs) q,
      )
]
  where
    no_boundary : suc k < length (encode u) → Boundary (encode u ++ encode_all us) (suc k) → ⊥
    no_boundary inside (inl z) = omega arith
    no_boundary inside (inr (inl e)) = omega (arith, length-append (encode u) (encode_all us))
    no_boundary inside (inr (inr (lt, c))) =
        let goes_on = encode-inside u (encode_all us) (suc k) all.0 (omega arith) inside in
        ground arith

-- What `append_file` keeps of text is text: it ends at no more than `cap` bytes, at the last place up
-- to there that is not inside a character.
pub kept_bytes-IsText :
    (ds : List ℕ) (cap : ℕ)
    → IsText ds
    → IsText (take (kept_bytes ds cap) ds)
      × (kept_bytes ds cap ≤ cap)
      × ((k : ℕ)
          → kept_bytes ds cap < k
          → k ≤ min (length ds) cap
          → (k < length ds) × (continuation_byte (get_or ds k 0) ≡ true))
unfolding kept_bytes
kept_bytes-IsText ds cap (us, all, e) =
    let c = cut_back-Boundary ds (min (length ds) cap) (omega arith) in
    (
      subst (λ xs. IsText (take (kept_bytes ds cap) xs)) (sym e)
          (take-IsText us (kept_bytes ds cap) all
            (subst (λ xs. Boundary xs (kept_bytes ds cap)) e c.0)),
      omega (arith, c.1),
      cut_back-greatest ds (min (length ds) cap),
    )
