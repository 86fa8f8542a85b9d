-- ===== src/Text/Utf8.antt =====
-- `looks_like_text`: whether a file's bytes are UTF-8 text without a zero byte.
use qw_fnfer_xpu.Base.{
  ℕ, zero, suc, ◌-◌, ◌/◌, Bool, true, false, not, ◌&&◌, ◌||◌, List, [], ◌∷◌, ltb, leb, ◌==◌,
  if◌then◌else◌, length, get_or, drop,
}

-- `(c & 0xC0) == 0x80` of a byte: its two top bits are 10.
unfoldable pub continuation_byte : ℕ → Bool
continuation_byte c = c / 64 == 2

unfoldable pub lead_length : ℕ → ℕ
lead_length c =
    if leb 0xC2 c && leb c 0xDF
    then 2
    else if leb 0xE0 c && leb c 0xEF
    then 3
    else if leb 0xF0 c && leb c 0xF4
    then 4
    else 0

unfoldable pub all_continue : ℕ → List ℕ → Bool
all_continue zero ds = true
all_continue (suc k) [] = false
all_continue (suc k) (d ∷ ds) = continuation_byte d && all_continue k ds

-- Overlong forms, UTF-16 surrogates, past U+10FFFF.
unfoldable pub ill_formed : ℕ → ℕ → Bool
ill_formed c d =
    ((c == 0xE0) && ltb d 0xA0)
    || (((c == 0xED) && leb 0xA0 d) || (((c == 0xF0) && ltb d 0x90) || ((c == 0xF4) && leb 0x90 d)))

-- A character of two bytes or more: its lead `c`, and the bytes after it.
unfoldable pub char_ok : ℕ → List ℕ → Bool
char_ok c rest =
    not (lead_length c == 0 || ltb (suc (length rest)) (lead_length c))
    && (all_continue (lead_length c - 1) rest && not (ill_formed c (get_or rest 0 0)))

-- The loop over the bytes from `i` on; each round takes one or more of them.
unfoldable pub text_from : ℕ → List ℕ → Bool
text_from zero [] = true
text_from zero (c ∷ rest) = false
text_from (suc rounds) [] = true
text_from (suc rounds) (c ∷ rest) =
    let plain = text_from rounds rest in
    let after = text_from rounds (drop (lead_length c - 1) rest) in
    if c == 0 then false else if ltb c 0x80 then plain else if char_ok c rest then after else false

unfoldable pub has_bom : List ℕ → Bool
has_bom (a ∷ b ∷ c ∷ ds) = (a == 0xEF) && ((b == 0xBB) && (c == 0xBF))
has_bom ds = false

unfoldable pub without_bom : List ℕ → List ℕ
without_bom ds = if has_bom ds then drop 3 ds else ds

unfoldable pub looks_like_text : List ℕ → Bool
looks_like_text ds = text_from (length (without_bom ds)) (without_bom ds)
