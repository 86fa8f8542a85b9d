-- ===== src/Archive/Attachment.antt =====
-- `file_as_text` of src/qwfn_files.cpp: an attachment is an archive, text, or named as neither.
use qw_fnfer_xpu.Base.{
  ℕ, ◌≤◌, ◌≡◌, min, Bool, false, ◌&&◌, ◌||◌, Option, List, [], ◌∷◌, length, get_or, take, leb, ◌==◌,
  if◌then◌else◌,
}
use qw_fnfer_xpu.Text.Utf8.{without_bom, looks_like_text}
use qw_fnfer_xpu.Text.Cut.{kept_bytes}
use qw_fnfer_xpu.Archive.{Read, Literals, Limits, Listing, append_file, zip_as_text}
use qw_fnfer_xpu.Archive.Account.{Accounted}

unfoldable pub is_zip : List ℕ → Bool
is_zip d =
    leb 4 (length d)
    && (get_or d 0 0 == 80)
    && (get_or d 1 0 == 75)
    && ((get_or d 2 0 == 3) && (get_or d 3 0 == 4) || ((get_or d 2 0 == 5) && (get_or d 3 0 == 6)))

-- "attachment" stands for a missing name.
unfoldable pub name_or_default : List ℕ → List ℕ
name_or_default [] = 97 ∷ 116 ∷ 116 ∷ 97 ∷ 99 ∷ 104 ∷ 109 ∷ 101 ∷ 110 ∷ 116 ∷ []
name_or_default (c ∷ cs) = c ∷ cs

-- Of text, the part that is shown and the lines that show it.
pub data Attachment : Type 0 where
  archive : Read Listing → Attachment
  text_file : List ℕ → List ℕ → Attachment
  not_read : Attachment

unfoldable pub shown_text : Literals → List ℕ → List ℕ → ℕ → Attachment
shown_text l name d cap =
    text_file (take (kept_bytes (without_bom d) cap) (without_bom d)) (append_file l name d cap)

unfoldable pub file_as_text :
    (ℕ → List ℕ → Option (List ℕ)) → Literals → Limits → List ℕ → List ℕ → Attachment
file_as_text inflate l lim name_in d =
    let name = name_or_default name_in in
    if is_zip d
    then archive (zip_as_text inflate l lim name d)
    else if looks_like_text d
    then shown_text l name d (min lim.max_file lim.max_total)
    else not_read

module _ (inflate : ℕ → List ℕ → Option (List ℕ)) (l : Literals) (lim : Limits) where
  -- What is shown keeps the limits, and nothing is left out without a reason.
  abbrev pub WithinLimits : List ℕ → List ℕ → Attachment → Type 0
  WithinLimits name d (archive r) = Accounted inflate l lim name d r
  WithinLimits name d (text_file t lines) = (length t ≤ lim.max_file) × (length t ≤ lim.max_total)
  WithinLimits name d not_read = (is_zip d ≡ false) × (looks_like_text d ≡ false)
