-- ===== src/Archive.antt =====
-- The zip archives of src/qwfn_files.cpp: `zip_directory`, `zip_as_text` and `append_file`. A file is
-- the list of its bytes. A read of a byte outside the file is a fault of its own, which the code would
-- not notice. The inflate of stb_image is a parameter: none where it answers less than zero.
use qw_fnfer_xpu.Base.{
  ℕ, zero, suc, ◌+◌, ◌-◌, ◌*◌, ◌/◌, ◌%◌, ◌^◌, min, max, Bool, true, false, not, ◌&&◌, ◌||◌, Option,
  none, some, List, [], ◌∷◌, ◌++◌, length, get_or, take, drop, ltb, leb, ◌==◌, if◌then◌else◌,
}
use qw_fnfer_xpu.Text.Utf8.{without_bom, looks_like_text}
use qw_fnfer_xpu.Text.Cut.{kept_bytes}
pub mod Reads
pub mod Explains
pub mod Room
pub mod Account
pub mod Attachment
pub mod Examples

pub data Why : Type 0 where
  too_short : Why
  no_directory : Why
  zip64 : Why
  damaged : Why

-- A reading of the archive: it leaves the file, it stops with a reason, or it has a result.
pub data Read (A : Type 0) : Type 0 where
  fault : Read A
  bad : Why → Read A
  got : A → Read A

-- `rd16` and `rd32`, followed by what is done with the number.
unfoldable pub rd16 : {A : Type 0} → List ℕ → ℕ → (ℕ → Read A) → Read A
rd16 d p go = elim (leb (p + 2) (length d)) [
  | false ↦ fault
  | true ↦ go (get_or d p 0 + get_or d (p + 1) 0 * 2 ^ 8)
]

unfoldable pub rd32 : {A : Type 0} → List ℕ → ℕ → (ℕ → Read A) → Read A
rd32 d p go = elim (leb (p + 4) (length d)) [
  | false ↦ fault
  | true ↦ go (
      get_or d p 0
      + (get_or d (p + 1) 0 * 2 ^ 8 + (get_or d (p + 2) 0 * 2 ^ 16 + get_or d (p + 3) 0 * 2 ^ 24)))
]

-- So many bytes from a position on.
unfoldable pub span : {A : Type 0} → List ℕ → ℕ → ℕ → (List ℕ → Read A) → Read A
span d p n go = elim (leb (p + n) (length d)) [ false ↦ fault | true ↦ go (take n (drop p d)) ]

pub record ZipEntry : Type 0 where
  pub name : List ℕ
  pub flags : ℕ
  pub method : ℕ
  pub csize : ℕ
  pub usize : ℕ
  pub local : ℕ

-- The search for the end record, from the position `lo + n - 1` down to `lo`.
unfoldable pub find_end : List ℕ → ℕ → ℕ → Read ℕ
find_end d lo zero = bad no_directory
find_end d lo (suc n) =
    rd32 d (lo + n) (λ v. elim (v == 0x06054b50) [ true ↦ got (lo + n) | false ↦ find_end d lo n ])

abbrev pub and_then : {A B : Type 0} → Read A → (A → Read B) → Read B
and_then fault go = fault
and_then (bad w) go = bad w
and_then (got x) go = go x

unfoldable pub read_entry : List ℕ → ℕ → ℕ → Read (ZipEntry × ℕ)
read_entry d eocd p = rd16 d (p + 8) (λ flags. rd16 d (p + 10) (λ method. rd32 d (p + 20) (λ csize.
    rd32 d (p + 24) (λ usize. rd32 d (p + 42) (λ local. rd16 d (p + 28) (λ nl.
      rd16 d (p + 30) (λ xl. rd16 d (p + 32) (λ cl. elim (ltb eocd (p + 46 + nl)) [
        | true ↦ bad damaged
        | false ↦ span d (p + 46) nl (λ name. got (
          record {
            name = name;
            flags = flags;
            method = method;
            csize = csize;
            usize = usize;
            local = local;
          },
          p + (46 + nl + xl + cl),
        ))
      ]))))))))

-- The loop over the entries of the directory.
unfoldable pub entries : List ℕ → ℕ → ℕ → ℕ → Read (List ZipEntry)
entries d eocd zero p = got []
entries d eocd (suc count) p = elim (ltb eocd (p + 46)) [
  | true ↦ bad damaged
  | false ↦ rd32 d p (λ sig. elim (sig == 0x02014b50) [
    | false ↦ bad damaged
    | true ↦
        and_then (read_entry d eocd p)
          (λ e. and_then (entries d eocd count e.1) (λ es. got (e.0 ∷ es)))
  ])
]

unfoldable pub from_end : List ℕ → ℕ → Read (List ZipEntry)
from_end d eocd = rd16 d (eocd + 10) (λ count. rd32 d (eocd + 12) (λ cd_size.
    rd32 d (eocd + 16) (λ cd_off.
      elim (count == 0xFFFF || (cd_size == 0xFFFFFFFF || cd_off == 0xFFFFFFFF)) [
        | true ↦ bad zip64
        | false ↦ elim (ltb eocd (cd_off + cd_size)) [
          | true ↦ bad damaged
          | false ↦ entries d eocd count cd_off
        ]
      ])))

unfoldable pub zip_directory : List ℕ → Read (List ZipEntry)
zip_directory d = elim (ltb (length d) 22) [
  | true ↦ bad too_short
  | false ↦
      let lo = length d - (22 + 65535) in
      and_then (find_end d lo (suc (length d - 22 - lo))) (λ eocd. from_end d eocd)
]

-- `/`, and the part of a name after its last one.
abbrev pub slash : ℕ
slash = 47

unfoldable pub base_of : List ℕ → List ℕ → List ℕ
base_of base [] = base
base_of base (c ∷ cs) = if c == slash then base_of cs cs else base_of base cs

unfoldable pub starts_with : List ℕ → List ℕ → Bool
starts_with [] cs = true
starts_with (x ∷ xs) [] = false
starts_with (x ∷ xs) (c ∷ cs) = (x == c) && starts_with xs cs

unfoldable pub ends_with : List ℕ → List ℕ → Bool
ends_with xs cs = ltb (length xs) (length cs) && starts_with xs (drop (length cs - length xs) cs)

-- "__MACOSX/", "._", ".zip" and ".ZIP".
abbrev pub macosx : List ℕ
macosx = 95 ∷ 95 ∷ 77 ∷ 65 ∷ 67 ∷ 79 ∷ 83 ∷ 88 ∷ 47 ∷ []

abbrev pub fork : List ℕ
fork = 46 ∷ 95 ∷ []

abbrev pub dot_zip : List ℕ
dot_zip = 46 ∷ 122 ∷ 105 ∷ 112 ∷ []

abbrev pub dot_zip_upper : List ℕ
dot_zip_upper = 46 ∷ 90 ∷ 73 ∷ 80 ∷ []

-- A directory, or a resource fork of macOS.
unfoldable pub ignored : List ℕ → Bool
ignored name =
    length name == 0
    || (get_or name (length name - 1) 0 == slash
        || (starts_with macosx name || starts_with fork (base_of name name)))

-- Why an entry is not read.
pub data Skip : Type 0 where
  encrypted : Skip
  unknown_method : ℕ → Skip
  zip64_entry : Skip
  nested : Skip
  past_total : ℕ → Skip
  damaged_entry : Skip
  binary : Skip

pub data Member : Type 0 where
  skipped : Skip → Member
  text : List ℕ → Member

-- The bytes of an entry: as they stand, or inflated into a buffer of the size declared.
unfoldable pub unpack : (ℕ → List ℕ → Option (List ℕ)) → List ℕ → ZipEntry → ℕ → Read Member
unpack inflate d e data_at = elim (e.method == 0) [
  | true ↦ elim (e.csize == e.usize) [
    | false ↦ got (skipped damaged_entry)
    | true ↦
        span d data_at e.usize
          (λ bytes. got (if looks_like_text bytes then text bytes else skipped binary))
  ]
  | false ↦ span d data_at e.csize (λ src.
      got
        (elim (if e.csize == 0 then some [] else inflate (max e.usize 1) (take (2 ^ 31 - 1) src)) [
          | none ↦ skipped damaged_entry
          | some bytes ↦
              if length bytes == e.usize
              then (if looks_like_text bytes then text bytes else skipped binary)
              else skipped damaged_entry
        ]))
]

unfoldable pub room_left : ℕ → ℕ → ℕ
room_left max_total total = min (max_total - min total max_total) (2 ^ 31 - 2)

-- The checks of one entry in the order of the loop's body, and its bytes.
unfoldable pub read_member : (ℕ → List ℕ → Option (List ℕ)) → List ℕ → ℕ → ZipEntry → Read Member
read_member inflate d room e =
    if e.flags % 2 == 1
    then got (skipped encrypted)
    else if not (e.method == 0) && not (e.method == 8)
    then got (skipped (unknown_method e.method))
    else if e.csize == 0xFFFFFFFF || e.usize == 0xFFFFFFFF
    then got (skipped zip64_entry)
    else if ends_with dot_zip (base_of e.name e.name)
        || ends_with dot_zip_upper (base_of e.name e.name)
    then got (skipped nested)
    else if ltb room e.usize
    then got (skipped (past_total e.usize))
    else elim (leb (e.local + 30) (length d)) [
      | false ↦ got (skipped damaged_entry)
      | true ↦ rd32 d e.local (λ sig. elim (sig == 0x04034b50) [
        | false ↦ got (skipped damaged_entry)
        | true ↦ rd16 d (e.local + 26) (λ nl. rd16 d (e.local + 28) (λ xl.
            elim (leb (e.local + 30 + nl + xl + e.csize) (length d)) [
              | false ↦ got (skipped damaged_entry)
              | true ↦ unpack inflate d e (e.local + 30 + nl + xl)
            ]))
      ])
    ]

-- `to_string` of a number, on as many rounds as it has bits and one more.
unfoldable pub digits : ℕ → ℕ → List ℕ
digits zero n = []
digits (suc rounds) n =
    let more = digits rounds (n / 10) in
    let last = (48 + n % 10) ∷ [] in if ltb n 10 then last else more ++ last

-- The literals of `append_file`: "--- file: ", " ---", "[... cut: the first ", " of ", " bytes]" and
-- "--- end of ", and the line feed.
pub record Literals : Type 0 where
  pub file : List ℕ
  pub dashes : List ℕ
  pub cut : List ℕ
  pub of : List ℕ
  pub bytes : List ℕ
  pub end_of : List ℕ

abbrev pub newline : List ℕ
newline = 10 ∷ []

unfoldable pub append_file : Literals → List ℕ → List ℕ → ℕ → List ℕ
append_file l name ds cap =
    let d = without_bom ds in
    let n = length d in
    let k = kept_bytes d cap in
    let ended = k == 0 || (get_or d (k - 1) 0 == 10) in
    l.file
    ++ (name
        ++ (l.dashes
            ++ (newline
                ++ (take k d
                    ++ ((if ended then [] else newline)
                        ++ ((if ltb k n
                              then l.cut
                                ++ (digits 65 k ++ (l.of ++ (digits 65 n ++ (l.bytes ++ newline))))
                              else [])
                            ++ (l.end_of ++ (name ++ (l.dashes ++ newline)))))))))

-- The loop of `zip_as_text`: how many bytes of text the body has, how many files there are and how
-- many are read, the path and what is kept of each of these, and the path of each other and why it is
-- not read.
pub record Listing : Type 0 where
  pub total : ℕ
  pub n_files : ℕ
  pub n_read : ℕ
  pub kept : List (List ℕ × List ℕ)
  pub skips : List (List ℕ × Skip)

pub record Limits : Type 0 where
  pub max_file : ℕ
  pub max_total : ℕ

unfoldable pub path_of : List ℕ → ZipEntry → List ℕ
path_of name e = name ++ (slash ∷ e.name)

unfoldable pub note_skip : List ℕ → Listing → ZipEntry → Skip → Listing
note_skip name x e why = record x {
  n_files = suc x.n_files;
  skips = x.skips ++ ((path_of name e, why) ∷ []);
}

unfoldable pub note_text : Literals → Limits → List ℕ → Listing → ZipEntry → List ℕ → Listing
note_text l lim name x e bytes =
    let cap = min lim.max_file (room_left lim.max_total x.total) in
    let d = without_bom bytes in
    record x {
      n_files = suc x.n_files;
      n_read = suc x.n_read;
      total = x.total + length (append_file l (path_of name e) bytes cap);
      kept = x.kept ++ ((path_of name e, take (kept_bytes d cap) d) ∷ []);
    }

unfoldable pub read_all :
    (ℕ → List ℕ → Option (List ℕ))
    → Literals
    → Limits
    → List ℕ
    → List ℕ
    → Listing
    → List ZipEntry
    → Read Listing
read_all inflate l lim name d x [] = got x
read_all inflate l lim name d x (e ∷ es) = elim (ignored e.name) [
  | true ↦ read_all inflate l lim name d x es
  | false ↦ elim (read_member inflate d (room_left lim.max_total x.total) e) [
    | fault ↦ fault
    | bad w ↦ bad w
    | got m ↦ elim m [
      | skipped why ↦ read_all inflate l lim name d (note_skip name x e why) es
      | text bytes ↦ read_all inflate l lim name d (note_text l lim name x e bytes) es
    ]
  ]
]

abbrev pub no_files : Listing
no_files = record { total = 0; n_files = 0; n_read = 0; kept = []; skips = [] }

unfoldable pub zip_as_text :
    (ℕ → List ℕ → Option (List ℕ)) → Literals → Limits → List ℕ → List ℕ → Read Listing
zip_as_text inflate l lim name d =
    and_then (zip_directory d) (λ es. read_all inflate l lim name d no_files es)

-- The bytes of all the texts.
abbrev pub text_bytes : List (List ℕ × List ℕ) → ℕ
text_bytes [] = 0
text_bytes (t ∷ ts) = length t.1 + text_bytes ts
