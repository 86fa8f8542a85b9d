-- ===== src/Archive/Examples.antt =====
-- Runs of the archive reader: an empty archive, one file stored as it is, and a file too short.
use qw_fnfer_xpu.Base.{ℕ, ◌≡◌, refl, Option, none, List, [], ◌∷◌, ◌++◌}
use qw_fnfer_xpu.Text.Utf8.{looks_like_text, without_bom, has_bom, text_from}
use qw_fnfer_xpu.Text.Cut.{cut_back, kept_bytes}
use qw_fnfer_xpu.Archive.{
  Read, fault, bad, got, too_short, rd16, rd32, span, find_end, read_entry, entries, from_end,
  zip_directory, base_of, starts_with, ends_with, ignored, unpack, room_left, read_member, Literals,
  digits, append_file, Listing, Limits, path_of, note_skip, note_text, read_all, zip_as_text,
}
use qw_fnfer_xpu.Archive.Reads.{Inside, zip_directory-Inside}

program : Unit {0}
unfolding rd16 rd32 span find_end read_entry entries from_end zip_directory base_of starts_with
    ends_with ignored unpack room_left read_member digits append_file path_of note_skip note_text
    read_all zip_as_text looks_like_text without_bom has_bom text_from cut_back kept_bytes
program = tt

-- The local header of the file "a" with the content "hi", its bytes, its directory entry and the end
-- record.
abbrev archive : List ℕ
archive =
    (0x50 ∷ 0x4b ∷ 3 ∷ 4 ∷ 0 ∷ 0 ∷ 0 ∷ 0 ∷ 0 ∷ 0 ∷ 0 ∷ 0 ∷ 0 ∷ 0 ∷ 0 ∷ 0 ∷ 0 ∷ 0 ∷ 2 ∷ 0 ∷ 0 ∷ 0 ∷ 2
      ∷ 0 ∷ 0 ∷ 0 ∷ 1 ∷ 0 ∷ 0 ∷ 0 ∷ 97 ∷ 104 ∷ 105 ∷ [])
    ++ ((0x50 ∷ 0x4b ∷ 1 ∷ 2 ∷ 0 ∷ 0 ∷ 0 ∷ 0 ∷ 0 ∷ 0 ∷ 0 ∷ 0 ∷ 0 ∷ 0 ∷ 0 ∷ 0 ∷ 0 ∷ 0 ∷ 0 ∷ 0 ∷ 2 ∷ 0
          ∷ 0 ∷ 0 ∷ 2 ∷ 0 ∷ 0 ∷ 0 ∷ 1 ∷ 0 ∷ 0 ∷ 0 ∷ 0 ∷ 0 ∷ 0 ∷ 0 ∷ 0 ∷ 0 ∷ 0 ∷ 0 ∷ 0 ∷ 0 ∷ 0 ∷ 0
          ∷ 0 ∷ 0 ∷ 97 ∷ [])
        ++ (0x50 ∷ 0x4b ∷ 5 ∷ 6 ∷ 0 ∷ 0 ∷ 0 ∷ 0 ∷ 1 ∷ 0 ∷ 1 ∷ 0 ∷ 47 ∷ 0 ∷ 0 ∷ 0 ∷ 33 ∷ 0 ∷ 0 ∷ 0
            ∷ 0 ∷ 0 ∷ []))

abbrev words : Literals
words = record {
  file = 45 ∷ [];
  dashes = 45 ∷ [];
  cut = 91 ∷ [];
  of = 32 ∷ [];
  bytes = 93 ∷ [];
  end_of = 45 ∷ [];
}

abbrev limits : Limits
limits = record { max_file = 100; max_total = 1000 }

abbrev no_inflate : ℕ → List ℕ → Option (List ℕ)
no_inflate n src = none

texts : Read Listing → List (List ℕ × List ℕ)
texts fault = []
texts (bad w) = []
texts (got x) = x.kept

reads_hi :
    texts (zip_as_text no_inflate words limits (122 ∷ []) archive)
    ≡ (122 ∷ 47 ∷ 97 ∷ [], 104 ∷ 105 ∷ []) ∷ []
unfolding program texts
reads_hi = refl

short : zip_directory (1 ∷ 2 ∷ []) ≡ bad too_short
unfolding program
short = refl

zip_directory-Inside_example : Inside (zip_directory archive)
zip_directory-Inside_example = zip_directory-Inside archive
