-- ===== src/Text/Accepts.antt =====
-- Encoded text and the check of text.
use qw_fnfer_xpu.Base.{
  ℕ, zero, suc, ◌+◌, ◌-◌, ◌/◌, ◌%◌, ◌≤◌, ◌<◌, ◌≡◌, ◌↔◌, refl, ap, sym, subst, ◌∙◌, ◌⊎◌, inl, inr,
  true, false, List, [], ◌∷◌, ◌++◌, ltb, ◌==◌, Bool-cases, length, length-append, get_or, drop,
  arith,
}
use qw_fnfer_xpu.Text.Utf8.{
  continuation_byte, lead_length, all_continue, ill_formed, char_ok, text_from, has_bom,
  without_bom, looks_like_text,
}
use qw_fnfer_xpu.Text.Encoding.{encode, encode_all, IsScalar, AllScalar, IsText, text_from-IsText}

accepts :
    (c n f : ℕ) (rest : List ℕ)
    → lead_length c ≡ n
    → 1 < n
    → n ≤ suc (length rest)
    → all_continue (n - 1) rest ≡ true
    → ill_formed c (get_or rest 0 0) ≡ false
    → 0x80 ≤ c
    → text_from (suc f) (c ∷ rest) ≡ text_from f (drop (n - 1) rest)
unfolding text_from char_ok
accepts c n f rest e some_lead room cont form high =
    let z : (c == 0) ≡ false = ground arith in
    let p : ltb c 0x80 ≡ false = ground arith in
    let cont' : all_continue (lead_length c - 1) rest ≡ true = rw e cont in
    let ok : char_ok c rest ≡ true = ground (arith, e, cont', form) in
    rw (z, p, ok, text_from, e) refl

plain_accepted :
    (u f : ℕ) (r : List ℕ) → 0 < u → ltb u 0x80 ≡ true → text_from (suc f) (u ∷ r) ≡ text_from f r
unfolding text_from
plain_accepted u f r pos p = let z : (u == 0) ≡ false = ground arith in rw (z, p, text_from) refl

lead_two : (c : ℕ) → 0xC2 ≤ c → c ≤ 0xDF → lead_length c ≡ 2
unfolding lead_length
lead_two c lo hi = ground arith

lead_three : (c : ℕ) → 0xE0 ≤ c → c ≤ 0xEF → lead_length c ≡ 3
unfolding lead_length
lead_three c lo hi = ground arith

lead_four : (c : ℕ) → 0xF0 ≤ c → c ≤ 0xF4 → lead_length c ≡ 4
unfolding lead_length
lead_four c lo hi = ground arith

well_formed :
    (c b : ℕ)
    → (c ≡ 0xE0 → 0xA0 ≤ b)
    → (c ≡ 0xED → b < 0xA0)
    → (c ≡ 0xF0 → 0x90 ≤ b)
    → (c ≡ 0xF4 → b < 0x90)
    → ill_formed c b ≡ false
unfolding ill_formed
well_formed c b p q r s = ground arith

continues :
    (b k : ℕ) (r : List ℕ)
    → b / 64 ≡ 2
    → all_continue k r ≡ true
    → all_continue (suc k) (b ∷ r) ≡ true
unfolding all_continue continuation_byte
continues b k r e rest = ground (arith, e, rest)

nothing : (r : List ℕ) → all_continue 0 r ≡ true
unfolding all_continue
nothing r = refl

encode_accepted :
    (u f : ℕ) (r : List ℕ) → IsScalar u → text_from (suc f) (encode u ++ r) ≡ text_from f r
unfolding encode
encode_accepted u f r (pos, scalar) = elim (Bool-cases (ltb u 0x80)) [
  | inl a ↦ rw (a, encode) (plain_accepted u f r pos a)
  | inr a ↦ elim (Bool-cases (ltb u 0x800)) [
    | inl b ↦
        let low : 0x80 ≤ u = ground arith in
        let high : u < 0x800 = ground arith in
        let c = 0xC0 + u / 64 in
        let d = 0x80 + u % 64 in
        rw (a, b, encode)
          (accepts c 2 f (d ∷ r) (lead_two c (omega arith) (omega arith)) (omega arith)
            (omega arith) (continues d 0 r (omega arith) (nothing r))
            (well_formed c d (λ x. omega arith) (λ x. omega arith) (λ x. omega arith)
              (λ x. omega arith))
            (omega arith))
    | inr b ↦ elim (Bool-cases (ltb u 0x10000)) [
      | inl k ↦
          let low : 0x800 ≤ u = ground arith in
          let high : u < 0x10000 = ground arith in
          let no_surrogate : (u < 0xD800) ⊎ (0xDFFF < u) = elim scalar [
            | inl x ↦ inl x
            | inr (x, y) ↦ inr x
          ] in
          let c = 0xE0 + u / 4096 in
          let d = 0x80 + u / 64 % 64 in
          let e = 0x80 + u % 64 in
          rw (a, b, k, encode)
            (accepts c 3 f (d ∷ e ∷ r) (lead_three c (omega arith) (omega arith)) (omega arith)
              (omega arith)
              (continues d 1 (e ∷ r) (omega arith) (continues e 0 r (omega arith) (nothing r)))
              (well_formed c d (λ x. omega arith)
                (λ x. elim no_surrogate [ inl y ↦ omega arith | inr y ↦ omega arith ])
                (λ x. omega arith) (λ x. omega arith))
              (omega arith))
      | inr k ↦
          let low : 0x10000 ≤ u = ground arith in
          let high : u < 0x110000 = elim scalar [ inl x ↦ omega arith | inr (x, y) ↦ y ] in
          let c = 0xF0 + u / 262144 in
          let d = 0x80 + u / 4096 % 64 in
          let e = 0x80 + u / 64 % 64 in
          let h = 0x80 + u % 64 in
          rw (a, b, k, encode)
            (accepts c 4 f (d ∷ e ∷ h ∷ r) (lead_four c (omega arith) (omega arith)) (omega arith)
              (omega arith)
              (continues d 2 (e ∷ h ∷ r) (omega arith)
                (continues e 1 (h ∷ r) (omega arith) (continues h 0 r (omega arith) (nothing r))))
              (well_formed c d (λ x. omega arith) (λ x. omega arith) (λ x. omega arith)
                (λ x. omega arith))
              (omega arith))
    ]
  ]
]

pub encode_some : (u : ℕ) → 0 < length (encode u)
unfolding encode
encode_some u = ground arith

text_from-encode_all :
    (us : List ℕ) (f : ℕ)
    → AllScalar us
    → length (encode_all us) ≤ f
    → text_from f (encode_all us) ≡ true
unfolding text_from encode_all
text_from-encode_all [] zero all fits = refl
text_from-encode_all [] (suc f) all fits = refl
text_from-encode_all (u ∷ us) zero all fits =
    absurd (omega (arith, encode_some u, length-append (encode u) (encode_all us)))
text_from-encode_all (u ∷ us) (suc f) all fits =
    encode_accepted u f (encode_all us) all.0
    ∙ text_from-encode_all us f all.1
        (omega (arith, encode_some u, length-append (encode u) (encode_all us)))

IsText-text_from : (ds : List ℕ) (f : ℕ) → IsText ds → length ds ≤ f → text_from f ds ≡ true
IsText-text_from ds f (us, all, e) fits =
    ap (text_from f) e ∙ text_from-encode_all us f all (subst (λ xs. length xs ≤ f) e fits)

has_bom-encode : (ds : List ℕ) → has_bom ds ≡ true → ds ≡ encode 0xFEFF ++ drop 3 ds
unfolding has_bom encode
has_bom-encode [] e = absurd (ground arith)
has_bom-encode (a ∷ []) e = absurd (ground arith)
has_bom-encode (a ∷ b ∷ []) e = absurd (ground arith)
has_bom-encode (a ∷ b ∷ c ∷ ds) e =
    let x : a ≡ 0xEF = ground arith in
    let y : b ≡ 0xBB = ground arith in let z : c ≡ 0xBF = ground arith in rw (x, y, z) refl

bom-IsScalar : IsScalar 0xFEFF
bom-IsScalar = (omega arith, inr (omega arith, omega arith))

bom-IsText : (ds : List ℕ) → has_bom ds ≡ true → IsText ds → IsText (drop 3 ds)
bom-IsText ds b t =
    let e = has_bom-encode ds b in
    let whole = IsText-text_from ds (suc (length ds)) t (omega arith) in
    text_from-IsText (length ds) (drop 3 ds) (
      sym (encode_accepted 0xFEFF (length ds) (drop 3 ds) bom-IsScalar)
      ∙ ap (text_from (suc (length ds))) (sym e)
      ∙ whole)

-- `looks_like_text` accepts exactly the encodings of Unicode scalar values other than zero, one after
-- another; a byte order mark in front counts as one of them.
pub looks_like_text-IsText : (ds : List ℕ) → (looks_like_text ds ≡ true) ↔ IsText ds
unfolding looks_like_text without_bom encode_all
looks_like_text-IsText ds = elim (Bool-cases (has_bom ds)) [
  | inr b ↦
      rw (b, looks_like_text, without_bom)
        (text_from-IsText (length ds) ds, (λ t. IsText-text_from ds (length ds) t (omega arith)))
  | inl b ↦
      rw (b, looks_like_text, without_bom)
        (
          (λ a. with_bom b (text_from-IsText (length (drop 3 ds)) (drop 3 ds) a)),
          (λ t.
              IsText-text_from (drop 3 ds) (length (drop 3 ds)) (bom-IsText ds b t) (omega arith)),
        )
]
  where
    with_bom : has_bom ds ≡ true → IsText (drop 3 ds) → IsText ds
    with_bom b (us, all, q) =
        (0xFEFF ∷ us, (bom-IsScalar, all), has_bom-encode ds b ∙ ap (λ xs. encode 0xFEFF ++ xs) q)
