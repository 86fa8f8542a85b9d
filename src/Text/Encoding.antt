-- ===== src/Text/Encoding.antt =====
-- The encoding of Unicode, written apart from the check, and the characters that the check accepts.
use qw_fnfer_xpu.Base.{
  ℕ, zero, suc, ◌+◌, ◌-◌, ◌*◌, ◌/◌, ◌%◌, ◌≤◌, ◌<◌, ◌≡◌, ◌≢◌, refl, ap, ◌∙◌, ◌⊎◌, inl, inr, true,
  false, ◌&&◌, List, [], ◌∷◌, ◌++◌, ltb, leb, ◌==◌, if◌then◌else◌, Bool-cases, get_or, drop, arith,
}
use qw_fnfer_xpu.Text.Utf8.{
  continuation_byte, lead_length, all_continue, ill_formed, char_ok, text_from,
}

unfoldable pub encode : ℕ → List ℕ
encode u =
    if ltb u 0x80
    then u ∷ []
    else if ltb u 0x800
    then (0xC0 + u / 64) ∷ (0x80 + u % 64) ∷ []
    else if ltb u 0x10000
    then (0xE0 + u / 4096) ∷ (0x80 + u / 64 % 64) ∷ (0x80 + u % 64) ∷ []
    else (0xF0 + u / 262144) ∷ (0x80 + u / 4096 % 64) ∷ (0x80 + u / 64 % 64) ∷ (0x80 + u % 64) ∷ []

-- A scalar value of Unicode other than zero.
abbrev pub IsScalar : ℕ → Type 0
IsScalar u = (0 < u) × ((u < 0xD800) ⊎ ((0xDFFF < u) × (u < 0x110000)))

abbrev pub AllScalar : List ℕ → Type 0
AllScalar [] = Unit {0}
AllScalar (u ∷ us) = IsScalar u × AllScalar us

unfoldable pub encode_all : List ℕ → List ℕ
encode_all [] = []
encode_all (u ∷ us) = encode u ++ encode_all us

-- The bytes are the encoding of some scalar values.
abbrev pub IsText : List ℕ → Type 0
IsText ds = (us : List ℕ) × AllScalar us × (ds ≡ encode_all us)

-- A character starts the bytes, and the rest is what the check goes on with.
abbrev pub Starts : ℕ → List ℕ → List ℕ → Type 0
Starts c rest more = (u : ℕ) × IsScalar u × (c ∷ rest ≡ encode u ++ more)

two : (c b : ℕ) (r : List ℕ) → 0xC2 ≤ c → c ≤ 0xDF → b / 64 ≡ 2 → Starts c (b ∷ r) r
unfolding encode
two c b r lo hi e =
    let u = (c - 0xC0) * 64 + (b - 0x80) in
    let small : ltb u 0x80 ≡ false = ground arith in
    let mid : ltb u 0x800 ≡ true = ground arith in
    let first : 0xC0 + u / 64 ≡ c = omega arith in
    let second : 0x80 + u % 64 ≡ b = omega arith in
    (u, (omega arith, inl (omega arith)), rw (encode, small, mid, first, second) refl)

three :
    (c b d : ℕ) (r : List ℕ)
    → 0xE0 ≤ c
    → c ≤ 0xEF
    → b / 64 ≡ 2
    → d / 64 ≡ 2
    → ill_formed c b ≡ false
    → Starts c (b ∷ d ∷ r) r
unfolding encode ill_formed
three c b d r lo hi e f ok =
    let u = (c - 0xE0) * 4096 + (b - 0x80) * 64 + (d - 0x80) in
    let not_short : (c ≡ 0xE0) → 0xA0 ≤ b = (λ q. ground (arith, q)) in
    let no_surrogate : (c ≡ 0xED) → b < 0xA0 = (λ q. ground (arith, q)) in
    let low : 0x800 ≤ u = elim (Bool-cases (c == 0xE0)) [
      | inl q ↦ let q' : c ≡ 0xE0 = ground arith in let k = not_short q' in omega arith
      | inr q ↦
          let q' : c ≢ 0xE0 = (λ x. ground arith) in
          let k : 0xE0 < c = ground (arith, q') in omega arith
    ] in
    let range : (u < 0xD800) ⊎ ((0xDFFF < u) × (u < 0x110000)) = elim (Bool-cases (c == 0xED)) [
      | inl q ↦ let q' : c ≡ 0xED = ground arith in let k = no_surrogate q' in inl (omega arith)
      | inr q ↦ elim (Bool-cases (ltb c 0xED)) [
        | inl w ↦ let k : c < 0xED = ground arith in inl (omega arith)
        | inr w ↦ let k : 0xED < c = ground arith in inr (omega arith, omega arith)
      ]
    ] in
    let small : ltb u 0x80 ≡ false = ground arith in
    let mid : ltb u 0x800 ≡ false = ground arith in
    let large : ltb u 0x10000 ≡ true = ground arith in
    let first : 0xE0 + u / 4096 ≡ c = omega arith in
    let second : 0x80 + u / 64 % 64 ≡ b = omega arith in
    let third : 0x80 + u % 64 ≡ d = omega arith in
    (u, (omega arith, range), rw (encode, small, mid, large, first, second, third) refl)

four :
    (c b d f : ℕ) (r : List ℕ)
    → 0xF0 ≤ c
    → c ≤ 0xF4
    → b / 64 ≡ 2
    → d / 64 ≡ 2
    → f / 64 ≡ 2
    → ill_formed c b ≡ false
    → Starts c (b ∷ d ∷ f ∷ r) r
unfolding encode ill_formed
four c b d f r lo hi e e' e'' ok =
    let u = (c - 0xF0) * 262144 + (b - 0x80) * 4096 + (d - 0x80) * 64 + (f - 0x80) in
    let not_short : (c ≡ 0xF0) → 0x90 ≤ b = (λ q. ground (arith, q)) in
    let in_range : (c ≡ 0xF4) → b < 0x90 = (λ q. ground (arith, q)) in
    let low : 0x10000 ≤ u = elim (Bool-cases (c == 0xF0)) [
      | inl q ↦ let q' : c ≡ 0xF0 = ground arith in let k = not_short q' in omega arith
      | inr q ↦
          let q' : c ≢ 0xF0 = (λ x. ground arith) in
          let k : 0xF0 < c = ground (arith, q') in omega arith
    ] in
    let high : u < 0x110000 = elim (Bool-cases (c == 0xF4)) [
      | inl q ↦ let q' : c ≡ 0xF4 = ground arith in let k = in_range q' in omega arith
      | inr q ↦
          let q' : c ≢ 0xF4 = (λ x. ground arith) in
          let k : c < 0xF4 = ground (arith, q') in omega arith
    ] in
    let small : ltb u 0x80 ≡ false = ground arith in
    let mid : ltb u 0x800 ≡ false = ground arith in
    let large : ltb u 0x10000 ≡ false = ground arith in
    let first : 0xF0 + u / 262144 ≡ c = omega arith in
    let second : 0x80 + u / 4096 % 64 ≡ b = omega arith in
    let third : 0x80 + u / 64 % 64 ≡ d = omega arith in
    let fourth : 0x80 + u % 64 ≡ f = omega arith in
    (
      u,
      (omega arith, inr (omega arith, high)),
      rw (encode, small, mid, large, first, second, third, fourth) refl,
    )

Starts-two :
    (c : ℕ) (rest : List ℕ)
    → 0xC2 ≤ c
    → c ≤ 0xDF
    → all_continue 1 rest ≡ true
    → Starts c rest (drop 1 rest)
unfolding all_continue continuation_byte
Starts-two c [] lo hi e = absurd (ground arith)
Starts-two c (b ∷ r) lo hi e = two c b r lo hi (ground arith)

Starts-three :
    (c : ℕ) (rest : List ℕ)
    → 0xE0 ≤ c
    → c ≤ 0xEF
    → all_continue 2 rest ≡ true
    → ill_formed c (get_or rest 0 0) ≡ false
    → Starts c rest (drop 2 rest)
unfolding all_continue continuation_byte
Starts-three c [] lo hi e ok = absurd (ground arith)
Starts-three c (b ∷ []) lo hi e ok = absurd (ground arith)
Starts-three c (b ∷ d ∷ r) lo hi e ok = three c b d r lo hi (ground arith) (ground arith) ok

Starts-four :
    (c : ℕ) (rest : List ℕ)
    → 0xF0 ≤ c
    → c ≤ 0xF4
    → all_continue 3 rest ≡ true
    → ill_formed c (get_or rest 0 0) ≡ false
    → Starts c rest (drop 3 rest)
unfolding all_continue continuation_byte
Starts-four c [] lo hi e ok = absurd (ground arith)
Starts-four c (b ∷ []) lo hi e ok = absurd (ground arith)
Starts-four c (b ∷ d ∷ []) lo hi e ok = absurd (ground arith)
Starts-four c (b ∷ d ∷ f ∷ r) lo hi e ok =
    four c b d f r lo hi (ground arith) (ground arith) (ground arith) ok

lead_length-cases :
    (c : ℕ)
    → ((lead_length c ≡ 2) × (0xC2 ≤ c) × (c ≤ 0xDF))
      ⊎ (((lead_length c ≡ 3) × (0xE0 ≤ c) × (c ≤ 0xEF))
          ⊎ (((lead_length c ≡ 4) × (0xF0 ≤ c) × (c ≤ 0xF4)) ⊎ (lead_length c ≡ 0)))
unfolding lead_length
lead_length-cases c = elim (Bool-cases (leb 0xC2 c && leb c 0xDF)) [
  | inl a ↦ inl (rw (a, lead_length) refl, ground arith, ground arith)
  | inr a ↦ elim (Bool-cases (leb 0xE0 c && leb c 0xEF)) [
    | inl b ↦ inr (inl (rw (a, b, lead_length) refl, ground arith, ground arith))
    | inr b ↦ elim (Bool-cases (leb 0xF0 c && leb c 0xF4)) [
      | inl d ↦ inr (inr (inl (rw (a, b, d, lead_length) refl, ground arith, ground arith)))
      | inr d ↦ inr (inr (inr (rw (a, b, d, lead_length) refl)))
    ]
  ]
]

char_ok-Starts :
    (c : ℕ) (rest : List ℕ) → char_ok c rest ≡ true → Starts c rest (drop (lead_length c - 1) rest)
unfolding char_ok
char_ok-Starts c rest ok =
    let cont : all_continue (lead_length c - 1) rest ≡ true = ground arith in
    let form : ill_formed c (get_or rest 0 0) ≡ false = ground arith in
    let some_lead : (lead_length c == 0) ≡ false = ground arith in
    elim (lead_length-cases c) [
      | inl (e, lo, hi) ↦ rw e (Starts-two c rest lo hi (rw e at cont))
      | inr (inl (e, lo, hi)) ↦ rw e (Starts-three c rest lo hi (rw e at cont) form)
      | inr (inr (inl (e, lo, hi))) ↦ rw e (Starts-four c rest lo hi (rw e at cont) form)
      | inr (inr (inr e)) ↦ absurd (ground (arith, e, some_lead))
    ]

encode_plain : (c : ℕ) → ltb c 0x80 ≡ true → encode c ≡ c ∷ []
unfolding encode
encode_plain c plain = rw (encode, plain) refl

pub text_from-IsText : (rounds : ℕ) (ds : List ℕ) → text_from rounds ds ≡ true → IsText ds
unfolding text_from encode_all
text_from-IsText zero [] e = ([], tt, refl)
text_from-IsText zero (c ∷ rest) e = absurd (ground arith)
text_from-IsText (suc rounds) [] e = ([], tt, refl)
text_from-IsText (suc rounds) (c ∷ rest) e = elim (Bool-cases (ltb c 0x80)) [
  | inl plain ↦
      let (us, all, q) = text_from-IsText rounds rest (ground arith) in
      let single : encode c ≡ c ∷ [] = encode_plain c plain in
      (c ∷ us, ((ground arith, inl (ground arith)), all), rw single (ap (λ xs. c ∷ xs) q))
  | inr other ↦
      let more = drop (lead_length c - 1) rest in
      let (us, all, q) = text_from-IsText rounds more (ground arith) in
      let (u, scalar, q') = char_ok-Starts c rest (ground arith) in
      (u ∷ us, (scalar, all), q' ∙ ap (λ xs. encode u ++ xs) q)
]
