-- ===== src/Archive/Explains.antt =====
-- `read_member` ends with a text or with a reason, and the reason is one.
use qw_fnfer_xpu.Base.{
  ℕ, ◌+◌, ◌<◌, ◌≤◌, ◌≡◌, ◌≢◌, refl, ◌⊎◌, inl, inr, true, false, not, ◌-◌, ◌^◌, max, ◌&&◌, ◌||◌,
  Option, none, some, List, [], length, take, ltb, leb, ◌==◌, ◌%◌, if◌then◌else◌, Bool-cases, arith,
}
use qw_fnfer_xpu.Text.Utf8.{looks_like_text}
use qw_fnfer_xpu.Archive.{
  Read, fault, bad, got, rd16, rd32, ZipEntry, unpack, ends_with, base_of, dot_zip, dot_zip_upper,
  read_member, Member, skipped, text, encrypted, unknown_method, zip64_entry, nested, past_total,
  damaged_entry, binary,
}
use qw_fnfer_xpu.Archive.Reads.{rd16_within, rd32_within, span_within, cases_within, if_within}

-- What each reason says of the entry (of a damaged one, only that there was room for it), and that a
-- text is text, of the size declared and no larger than the room there was for it.
abbrev pub Reasoned : ℕ → ZipEntry → Member → Type 0
Reasoned room e (text bytes) =
    (looks_like_text bytes ≡ true) × (length bytes ≡ e.usize) × (e.usize ≤ room) × (e.flags % 2 ≢ 1)
Reasoned room e (skipped encrypted) = e.flags % 2 ≡ 1
Reasoned room e (skipped (unknown_method m)) = (m ≡ e.method) × (m ≢ 0) × (m ≢ 8)
Reasoned room e (skipped zip64_entry) = (e.csize ≡ 0xFFFFFFFF) ⊎ (e.usize ≡ 0xFFFFFFFF)
Reasoned room e (skipped nested) =
    (ends_with dot_zip (base_of e.name e.name) ≡ true)
    ⊎ (ends_with dot_zip_upper (base_of e.name e.name) ≡ true)
Reasoned room e (skipped (past_total n)) = (n ≡ e.usize) × (room < n)
Reasoned room e (skipped damaged_entry) = e.usize ≤ room
Reasoned room e (skipped binary) =
    (bytes : List ℕ) × (looks_like_text bytes ≡ false) × (length bytes ≡ e.usize)

abbrev pub Explained : ℕ → ZipEntry → Read Member → Type 0
Explained room e fault = ⊥
Explained room e (bad w) = ⊥
Explained room e (got m) = Reasoned room e m

text_or_binary-Reasoned :
    (room : ℕ) (e : ZipEntry) (bytes : List ℕ)
    → length bytes ≡ e.usize
    → e.usize ≤ room
    → e.flags % 2 ≢ 1
    → Reasoned room e (if looks_like_text bytes then text bytes else skipped binary)
text_or_binary-Reasoned room e bytes sized small open_now =
    elim (Bool-cases (looks_like_text bytes)) [
      | inl t ↦ rw t (t, sized, small, open_now)
      | inr b ↦ rw b (bytes, b, sized)
    ]

unpack-Explained :
    (inflate : ℕ → List ℕ → Option (List ℕ)) (d : List ℕ) (room : ℕ) (e : ZipEntry) (at : ℕ)
    → at + e.csize ≤ length d
    → e.usize ≤ room
    → e.flags % 2 ≢ 1
    → Explained room e (unpack inflate d e at)
unfolding unpack
unpack-Explained inflate d room e at fits small plain =
    cases_within (Explained room e) (e.method == 0) _ _
      (λ y. elim (Bool-cases (e.csize == e.usize)) [
        | inr differ ↦ rw differ small
        | inl same ↦ rw same (
            span_within (Explained room e) d at e.usize _ (ground arith)
              (λ bytes sized. text_or_binary-Reasoned room e bytes sized small plain))
      ])
      (λ n. span_within (Explained room e) d at e.csize _ fits (λ src whole.
        inflated
          (if e.csize == 0 then some [] else inflate (max e.usize 1) (take (2 ^ 31 - 1) src))))
  where
    inflated :
        (o : Option (List ℕ))
        → Reasoned room e (elim o [
          | none ↦ skipped damaged_entry
          | some bytes ↦
              if length bytes == e.usize
              then (if looks_like_text bytes then text bytes else skipped binary)
              else skipped damaged_entry
        ])
    inflated none = small
    inflated (some bytes) = elim (Bool-cases (length bytes == e.usize)) [
      | inr differ ↦ rw differ small
      | inl same ↦ rw same (text_or_binary-Reasoned room e bytes (ground arith) small plain)
    ]

member_at-Explained :
    (inflate : ℕ → List ℕ → Option (List ℕ)) (d : List ℕ) (room : ℕ) (e : ZipEntry)
    → e.usize ≤ room
    → e.flags % 2 ≢ 1
    → Explained room e (elim (leb (e.local + 30) (length d)) [
      | false ↦ got (skipped damaged_entry)
      | true ↦ rd32 d e.local (λ sig. elim (sig == 0x04034b50) [
        | false ↦ got (skipped damaged_entry)
        | true ↦ rd16 d (e.local + 26) (λ nl. rd16 d (e.local + 28) (λ xl.
            elim (leb (e.local + 30 + nl + xl + e.csize) (length d)) [
              | false ↦ got (skipped damaged_entry)
              | true ↦ unpack inflate d e (e.local + 30 + nl + xl)
            ]))
      ])
    ])
member_at-Explained inflate d room e small plain =
    let E = Explained room e in
    cases_within E (leb (e.local + 30) (length d)) _ _
      (λ fits. rd32_within E d e.local _ (ground arith) (λ sig.
        cases_within E (sig == 0x04034b50) _ _
          (λ y. rd16_within E d (e.local + 26) _ (ground arith) (λ nl.
            rd16_within E d (e.local + 28) _ (ground arith) (λ xl.
              cases_within E (leb (e.local + 30 + nl + xl + e.csize) (length d)) _ _
                (λ all.
                  unpack-Explained inflate d room e (e.local + 30 + nl + xl) (ground arith) small
                    plain)
                (λ n7. small))))
          (λ n6. small)))
      (λ n8. small)

-- Reading the bytes of an entry reads none outside the file, whatever the entry says of itself, and
-- ends with its text or with a reason why it is not read.
pub read_member-Explained :
    (inflate : ℕ → List ℕ → Option (List ℕ)) (d : List ℕ) (room : ℕ) (e : ZipEntry)
    → Explained room e (read_member inflate d room e)
unfolding read_member
read_member-Explained inflate d room e =
    let E = Explained room e in
    if_within E (e.flags % 2 == 1) _ _ (λ y. ground arith)
      (λ n1.
        if_within E (not (e.method == 0) && not (e.method == 8)) _ _
          (λ y. (refl, ground arith, ground arith))
          (λ n2.
            if_within E (e.csize == 0xFFFFFFFF || e.usize == 0xFFFFFFFF) _ _
              (λ y. elim (Bool-cases (e.csize == 0xFFFFFFFF)) [
                | inl c ↦ inl (ground arith)
                | inr u ↦ inr (ground arith)
              ])
              (λ n3.
                if_within E
                  (ends_with dot_zip (base_of e.name e.name)
                    || ends_with dot_zip_upper (base_of e.name e.name))
                  _ _
                  (λ y. elim (Bool-cases (ends_with dot_zip (base_of e.name e.name))) [
                    | inl c ↦ inl c
                    | inr u ↦ inr (ground arith)
                  ])
                  (λ n4.
                    if_within E (ltb room e.usize) _ _ (λ y. (refl, ground arith))
                      (λ n5. member_at-Explained inflate d room e (ground arith) (ground arith))))))
