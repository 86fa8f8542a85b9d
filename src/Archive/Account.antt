-- ===== src/Archive/Account.antt =====
-- What becomes of each of the files of an archive, and how much text they come to.
use qw_fnfer_xpu.Base.{
  ℕ, subst, sym, ++_nil, ++_snoc, true, false, ◌+◌, ◌≤◌, ◌≡◌, refl, inl, inr, ◌⊎◌, Option, List, [],
  ◌∷◌, ◌++◌, length, min, take, if◌then◌else◌, Bool-cases, length-append, arith,
}
use qw_fnfer_xpu.Text.Utf8.{without_bom}
use qw_fnfer_xpu.Text.Cut.{kept_bytes}
use qw_fnfer_xpu.Archive.{
  Read, fault, bad, got, Why, ZipEntry, Skip, Member, skipped, text, ignored, room_left, path_of,
  read_member, Literals, append_file, Listing, Limits, note_skip, note_text, read_all, no_files,
  zip_as_text, zip_directory, text_bytes,
}
use qw_fnfer_xpu.Archive.Reads.{Inside, zip_directory-Inside}
use qw_fnfer_xpu.Archive.Explains.{Reasoned, Explained, read_member-Explained}
use qw_fnfer_xpu.Archive.Room.{length-append_file, kept-le}

text_bytes-append :
    (xs ys : List (List ℕ × List ℕ)) → text_bytes (xs ++ ys) ≡ text_bytes xs + text_bytes ys
text_bytes-append [] ys = omega arith
text_bytes-append (x ∷ xs) ys = rw (text_bytes-append xs ys) (omega arith)

-- How many of the entries are files to be read.
abbrev pub file_count : List ZipEntry → ℕ
file_count [] = 0
file_count (e ∷ es) = (if ignored e.name then 0 else 1) + file_count es

file_count-append : (xs ys : List ZipEntry) → file_count (xs ++ ys) ≡ file_count xs + file_count ys
file_count-append [] ys = omega arith
file_count-append (x ∷ xs) ys = rw (file_count-append xs ys) (omega arith)

Read-cases :
    {A : Type 0} (r : Read A) → Inside r → ((w : Why) × (r ≡ bad w)) ⊎ ((x : A) × (r ≡ got x))
Read-cases fault i = absurd i
Read-cases (bad w) i = inl (w, refl)
Read-cases (got x) i = inr (x, refl)

Explained-cases :
    (room : ℕ) (e : ZipEntry) (r : Read Member)
    → Explained room e r
    → ((why : Skip) × (r ≡ got (skipped why)) × Reasoned room e (skipped why))
      ⊎ ((bytes : List ℕ) × (r ≡ got (text bytes)) × Reasoned room e (text bytes))
Explained-cases room e fault i = absurd i
Explained-cases room e (bad w) i = absurd i
Explained-cases room e (got (skipped why)) i = inl (why, refl, i)
Explained-cases room e (got (text bytes)) i = inr (bytes, refl, i)

module _ (inflate : ℕ → List ℕ → Option (List ℕ)) (l : Literals) (lim : Limits)
    (name d : List ℕ) where
  -- What may be kept of a file after so many bytes of text.
  abbrev pub cap_at : ℕ → ℕ
  cap_at total = min lim.max_file (room_left lim.max_total total)

  abbrev pub kept_of : List ℕ → ℕ → List ℕ
  kept_of bytes total = let t = without_bom bytes in take (kept_bytes t (cap_at total)) t

  -- Entries sorted into the files that are read and those that are named, both in the entries' order
  -- and by their paths, with the bytes of text so far. A directory or a resource fork is neither. A
  -- file that is read has its text, cut to what may be kept of it; one that is not has its reason.
  pub data Sorted : List ZipEntry → List (List ℕ × List ℕ) → List (List ℕ × Skip) → ℕ → Type 0 where
    nothing : Sorted [] [] [] 0
    passed :
        {es : List ZipEntry} {ks : List (List ℕ × List ℕ)} {ss : List (List ℕ × Skip)} {total : ℕ}
        → Sorted es ks ss total
        → (e : ZipEntry) → ignored e.name ≡ true
        → Sorted (es ++ e ∷ []) ks ss total
    read :
        {es : List ZipEntry} {ks : List (List ℕ × List ℕ)} {ss : List (List ℕ × Skip)} {total : ℕ}
        → Sorted es ks ss total
        → (e : ZipEntry) (bytes : List ℕ) → ignored e.name ≡ false
        → read_member inflate d (room_left lim.max_total total) e ≡ got (text bytes)
        → Reasoned (room_left lim.max_total total) e (text bytes)
        → Sorted
            (es ++ e ∷ [])
            (ks ++ (path_of name e, kept_of bytes total) ∷ [])
            ss
            (total + length (append_file l (path_of name e) bytes (cap_at total)))
    named :
        {es : List ZipEntry} {ks : List (List ℕ × List ℕ)} {ss : List (List ℕ × Skip)} {total : ℕ}
        → Sorted es ks ss total
        → (e : ZipEntry) (why : Skip) → ignored e.name ≡ false
        → read_member inflate d (room_left lim.max_total total) e ≡ got (skipped why)
        → Reasoned (room_left lim.max_total total) e (skipped why)
        → Sorted (es ++ e ∷ []) ks (ss ++ (path_of name e, why) ∷ []) total

  -- A listing accounts for every one of the entries it has met, and keeps at most so many bytes of
  -- text.
  pub record Accounts (seen : List ZipEntry) (x : Listing) : Type 0 where
    pub sorted : Sorted seen x.kept x.skips x.total
    pub in_total : text_bytes x.kept ≤ x.total
    pub in_limit : text_bytes x.kept ≤ lim.max_total
    pub reads : length x.kept ≡ x.n_read
    pub files : x.n_read + length x.skips ≡ x.n_files
    pub all : x.n_files ≡ file_count seen

  passed-Accounts :
      (seen : List ZipEntry) (x : Listing) (e : ZipEntry)
      → ignored e.name ≡ true
      → Accounts seen x
      → Accounts (seen ++ e ∷ []) x
  passed-Accounts seen x e skip a = record {
    sorted = passed a.sorted e skip;
    in_total = a.in_total;
    in_limit = a.in_limit;
    reads = a.reads;
    files = a.files;
    all =
        let k = file_count-append seen (e ∷ []) in
        let n = a.all in
        let one : file_count (e ∷ []) ≡ 0 = rw skip refl in omega (arith, k, n, one);
  }

  note_skip-Accounts :
      (seen : List ZipEntry) (x : Listing) (e : ZipEntry) (why : Skip)
      → ignored e.name ≡ false
      → read_member inflate d (room_left lim.max_total x.total) e ≡ got (skipped why)
      → Reasoned (room_left lim.max_total x.total) e (skipped why)
      → Accounts seen x
      → Accounts (seen ++ e ∷ []) (note_skip name x e why)
  unfolding note_skip
  note_skip-Accounts seen x e why file at reason a = record {
    sorted = named a.sorted e why file at reason;
    in_total = a.in_total;
    in_limit = a.in_limit;
    reads = a.reads;
    files = let f = a.files in omega (arith, f, length-append x.skips ((path_of name e, why) ∷ []));
    all =
        let k = file_count-append seen (e ∷ []) in
        let n = a.all in
        let one : file_count (e ∷ []) ≡ 1 = rw file refl in omega (arith, k, n, one);
  }

  note_text-Accounts :
      (seen : List ZipEntry) (x : Listing) (e : ZipEntry) (bytes : List ℕ)
      → ignored e.name ≡ false
      → read_member inflate d (room_left lim.max_total x.total) e ≡ got (text bytes)
      → Reasoned (room_left lim.max_total x.total) e (text bytes)
      → Accounts seen x
      → Accounts (seen ++ e ∷ []) (note_text l lim name x e bytes)
  unfolding note_text
  note_text-Accounts seen x e bytes file at reason a =
      let t = kept_of bytes x.total in
      let total = a.in_total in
      let limit = a.in_limit in
      let reads = a.reads in
      let files = a.files in
      let n = a.all in
      let app = length-append_file l (path_of name e) bytes (cap_at x.total) in
      let one = text_bytes-append x.kept ((path_of name e, t) ∷ []) in
      let k = file_count-append seen (e ∷ []) in
      let single : file_count (e ∷ []) ≡ 1 = rw file refl in
      record {
        sorted = read a.sorted e bytes file at reason;
        in_total = omega (arith, total, app, one);
        in_limit = omega (arith, total, limit, kept-le lim x.total (without_bom bytes), one);
        reads = omega (arith, reads, length-append x.kept ((path_of name e, t) ∷ []));
        files = omega (arith, files);
        all = omega (arith, k, n, single);
      }

  -- What reading the archive comes to: the directory's reason where it cannot be read, and otherwise
  -- an account of all its entries. No byte outside the file is read.
  abbrev pub Accounted : Read Listing → Type 0
  Accounted fault = ⊥
  Accounted (bad w) = zip_directory d ≡ bad w
  Accounted (got x) = (es : List ZipEntry) × (zip_directory d ≡ got es) × Accounts es x

  read_all-Accounted :
      (es : List ZipEntry) (seen : List ZipEntry) (x : Listing)
      → zip_directory d ≡ got (seen ++ es)
      → Accounts seen x
      → Accounted (read_all inflate l lim name d x es)
  unfolding read_all
  read_all-Accounted [] seen x at a =
      (seen, subst (λ v. zip_directory d ≡ got v) (++_nil seen) at, a)
  read_all-Accounted (e ∷ es) seen x at a =
      let rest : zip_directory d ≡ got ((seen ++ e ∷ []) ++ es) =
        subst (λ v. zip_directory d ≡ got v) (sym (++_snoc seen e es)) at in
      elim (Bool-cases (ignored e.name)) [
        | inl skip ↦
            rw (skip, read_all)
              (read_all-Accounted es (seen ++ e ∷ []) x rest (passed-Accounts seen x e skip a))
        | inr file ↦
            let room = room_left lim.max_total x.total in
            elim (Explained-cases room e (read_member inflate d room e)
              (read_member-Explained inflate d room e)) [
                | inl (why, no_text, reason) ↦
                    rw (file, no_text, read_all)
                      (read_all-Accounted es (seen ++ e ∷ []) (note_skip name x e why) rest
                        (note_skip-Accounts seen x e why file no_text reason a))
                | inr (bytes, some_text, reason) ↦
                    rw (file, some_text, read_all)
                      (read_all-Accounted es (seen ++ e ∷ []) (note_text l lim name x e bytes) rest
                        (note_text-Accounts seen x e bytes file some_text reason a))
              ]
      ]

  pub zip_as_text-Accounted : Accounted (zip_as_text inflate l lim name d)
  unfolding zip_as_text
  zip_as_text-Accounted = elim (Read-cases (zip_directory d) (zip_directory-Inside d)) [
    | inl (w, stop) ↦ rw (stop, zip_as_text) stop
    | inr (es, at) ↦
        rw (at, zip_as_text)
          (read_all-Accounted es [] no_files at (record {
            sorted = nothing;
            in_total = omega arith;
            in_limit = omega arith;
            reads = refl;
            files = refl;
            all = refl;
          }))
  ]
