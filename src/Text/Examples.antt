-- ===== src/Text/Examples.antt =====
-- Runs of the text check: a euro sign, a surrogate, an overlong slash.
use qw_fnfer_xpu.Base.{
  ℕ, ◌≡◌, ◌≤◌, ◌<◌, ◌↔◌, refl, inl, true, false, List, [], ◌∷◌, length, take, get_or, min, arith,
}
use qw_fnfer_xpu.Text.Utf8.{
  continuation_byte, lead_length, all_continue, ill_formed, char_ok, text_from, has_bom,
  without_bom, looks_like_text,
}
use qw_fnfer_xpu.Text.Encoding.{encode, encode_all, IsText}
use qw_fnfer_xpu.Text.Accepts.{looks_like_text-IsText}
use qw_fnfer_xpu.Text.Cut.{cut_back, kept_bytes, kept_bytes-IsText}

program : Unit {0}
unfolding continuation_byte lead_length all_continue ill_formed char_ok text_from has_bom
    without_bom looks_like_text cut_back kept_bytes encode encode_all
program = tt

abbrev euro : List ℕ
euro = 0xE2 ∷ 0x82 ∷ 0xAC ∷ []

euro_text : looks_like_text euro ≡ true
unfolding program
euro_text = refl

surrogate : looks_like_text (0xED ∷ 0xA0 ∷ 0x80 ∷ []) ≡ false
unfolding program
surrogate = refl

overlong : looks_like_text (0xC0 ∷ 0xAF ∷ []) ≡ false
unfolding program
overlong = refl

looks_like_text-IsText_example : (looks_like_text euro ≡ true) ↔ IsText euro
looks_like_text-IsText_example = looks_like_text-IsText euro

-- A letter and a euro sign, of which three bytes fit: only the letter is kept.
abbrev priced : List ℕ
priced = 0x41 ∷ 0xE2 ∷ 0x82 ∷ 0xAC ∷ []

only_letter : kept_bytes priced 3 ≡ 1
unfolding program
only_letter = refl

priced-IsText : IsText priced
unfolding program
priced-IsText = (
  0x41 ∷ 0x20AC ∷ [],
  ((omega arith, inl (omega arith)), ((omega arith, inl (omega arith)), tt)),
  refl,
)

kept_bytes-IsText_example :
    IsText (take (kept_bytes priced 3) priced)
    × (kept_bytes priced 3 ≤ 3)
    × ((k : ℕ)
        → kept_bytes priced 3 < k
        → k ≤ min (length priced) 3
        → (k < length priced) × (continuation_byte (get_or priced k 0) ≡ true))
kept_bytes-IsText_example = kept_bytes-IsText priced 3 priced-IsText
