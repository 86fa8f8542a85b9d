-- ===== src/Archive/Reads.antt =====
-- No byte outside an archive is read, whatever its bytes are.
use qw_fnfer_xpu.Base.{
  ℕ, zero, suc, ◌+◌, ◌-◌, ◌<◌, ◌≤◌, ◌≡◌, refl, inl, inr, Bool, true, false, ◌||◌, List, length,
  length-take, length-drop, get_or, drop, ◌*◌, ltb, leb, ◌==◌, ◌^◌, take, if◌then◌else◌, Bool-cases,
  arith,
}
use qw_fnfer_xpu.Archive.{
  Read, fault, bad, got, rd16, rd32, span, find_end, and_then, read_entry, entries, from_end,
  zip_directory,
}

-- The reading stays inside the file.
abbrev pub Inside : {A : Type 0} → Read A → Type 0
Inside fault = ⊥
Inside (bad w) = Unit
Inside (got x) = Unit

-- What holds of a reading however it goes on holds of it after a read inside the file.
module _ {A : Type 0} (P : Read A → Type 0) where
  pub rd16_within :
      (d : List ℕ) (p : ℕ) (go : ℕ → Read A)
      → p + 2 ≤ length d
      → ((v : ℕ) → P (go v))
      → P (rd16 d p go)
  unfolding rd16
  rd16_within d p go fits ok =
      let b : leb (p + 2) (length d) ≡ true = ground arith in
      rw (b, rd16) (ok (get_or d p 0 + get_or d (p + 1) 0 * 2 ^ 8))

  pub rd32_within :
      (d : List ℕ) (p : ℕ) (go : ℕ → Read A)
      → p + 4 ≤ length d
      → ((v : ℕ) → P (go v))
      → P (rd32 d p go)
  unfolding rd32
  rd32_within d p go fits ok =
      let b : leb (p + 4) (length d) ≡ true = ground arith in
      rw (b, rd32)
        (ok (
          get_or d p 0
          + (get_or d (p + 1) 0 * 2 ^ 8
              + (get_or d (p + 2) 0 * 2 ^ 16 + get_or d (p + 3) 0 * 2 ^ 24))))

  pub span_within :
      (d : List ℕ) (p n : ℕ) (go : List ℕ → Read A)
      → p + n ≤ length d
      → ((v : List ℕ) → length v ≡ n → P (go v))
      → P (span d p n go)
  unfolding span
  span_within d p n go fits ok =
      let b : leb (p + n) (length d) ≡ true = ground arith in
      let t = take n (drop p d) in
      let whole : length t ≡ n = omega (arith, fits, length-take n (drop p d), length-drop p d) in
      rw (b, span) (ok t whole)

  pub cases_within :
      (b : Bool) (x y : Read A)
      → (b ≡ true → P x)
      → (b ≡ false → P y)
      → P (elim b [ true ↦ x | false ↦ y ])
  cases_within true x y f g = f refl
  cases_within false x y f g = g refl

  pub if_within :
      (b : Bool) (x y : Read A) → (b ≡ true → P x) → (b ≡ false → P y) → P (if b then x else y)
  if_within true x y f g = f refl
  if_within false x y f g = g refl

find_end-Inside : (d : List ℕ) (lo n : ℕ) → lo + n + 21 ≤ length d → Inside (find_end d lo n)
unfolding find_end
find_end-Inside d lo zero fits = tt
find_end-Inside d lo (suc n) fits =
    rd32_within Inside d (lo + n)
      (λ v. elim (v == 0x06054b50) [ true ↦ got (lo + n) | false ↦ find_end d lo n ]) (omega arith)
      (λ v.
        cases_within Inside (v == 0x06054b50) (got (lo + n)) (find_end d lo n) (λ y. tt)
          (λ n'. find_end-Inside d lo n (omega arith)))

find_end-Before : (d : List ℕ) (lo n p : ℕ) → find_end d lo n ≡ got p → p < lo + n
unfolding find_end rd32
find_end-Before d lo zero p h = ground arith
find_end-Before d lo (suc n) p h = elim (Bool-cases (leb (lo + n + 4) (length d))) [
  | inr out ↦ let never : fault ≡ got p = rw (out, find_end, rd32) at h in ground arith
  | inl fits ↦
      let v =
        get_or d (lo + n) 0
        + (get_or d (lo + n + 1) 0 * 2 ^ 8
            + (get_or d (lo + n + 2) 0 * 2 ^ 16 + get_or d (lo + n + 3) 0 * 2 ^ 24)) in
      elim (Bool-cases (v == 0x06054b50)) [
        | inl found ↦
            let same : got (lo + n) ≡ got p = rw (fits, found, find_end, rd32) at h in ground arith
        | inr other ↦
            let rest : find_end d lo n ≡ got p = rw (fits, other, find_end, rd32) at h in
            omega (arith, find_end-Before d lo n p rest)
      ]
]

and_then-Inside :
    {A B : Type 0} (x : Read A) (go : A → Read B)
    → Inside x
    → ((a : A) → x ≡ got a → Inside (go a))
    → Inside (and_then x go)
and_then-Inside fault go i f = i
and_then-Inside (bad w) go i f = tt
and_then-Inside (got a) go i f = f a refl

read_entry-Inside :
    (d : List ℕ) (eocd p : ℕ) → eocd ≤ length d → p + 46 ≤ eocd → Inside (read_entry d eocd p)
unfolding read_entry
read_entry-Inside d eocd p whole fits =
    rd16_within Inside d (p + 8) _ (omega (arith, whole, fits)) (λ flags.
      rd16_within Inside d (p + 10) _ (omega (arith, whole, fits)) (λ method.
        rd32_within Inside d (p + 20) _ (omega (arith, whole, fits)) (λ csize.
          rd32_within Inside d (p + 24) _ (omega (arith, whole, fits)) (λ usize.
            rd32_within Inside d (p + 42) _ (omega (arith, whole, fits)) (λ local.
              rd16_within Inside d (p + 28) _ (omega (arith, whole, fits)) (λ nl.
                rd16_within Inside d (p + 30) _ (omega (arith, whole, fits)) (λ xl.
                  rd16_within Inside d (p + 32) _ (omega (arith, whole, fits)) (λ cl.
                    cases_within Inside (ltb eocd (p + 46 + nl)) _ _ (λ y. tt)
                      (λ n.
                        span_within Inside d (p + 46) nl _ (ground arith) (λ name same. tt))))))))))

entries-Inside : (d : List ℕ) (eocd count p : ℕ) → eocd ≤ length d → Inside (entries d eocd count p)
unfolding entries
entries-Inside d eocd zero p whole = tt
entries-Inside d eocd (suc count) p whole =
    cases_within Inside (ltb eocd (p + 46)) _ _ (λ y. tt)
      (λ n. rd32_within Inside d p _ (ground arith) (λ sig.
        cases_within Inside (sig == 0x02014b50) _ _
          (λ y.
            and_then-Inside (read_entry d eocd p) _
              (read_entry-Inside d eocd p whole (ground arith))
              (λ e same.
                and_then-Inside (entries d eocd count e.1) _ (entries-Inside d eocd count e.1 whole)
                  (λ es same'. tt)))
          (λ n'. tt)))

from_end-Inside : (d : List ℕ) (eocd : ℕ) → eocd + 22 ≤ length d → Inside (from_end d eocd)
unfolding from_end
from_end-Inside d eocd fits = rd16_within Inside d (eocd + 10) _ (omega (arith, fits)) (λ count.
    rd32_within Inside d (eocd + 12) _ (omega (arith, fits)) (λ cd_size.
      rd32_within Inside d (eocd + 16) _ (omega (arith, fits)) (λ cd_off.
        cases_within Inside (count == 0xFFFF || (cd_size == 0xFFFFFFFF || cd_off == 0xFFFFFFFF)) _ _
          (λ y. tt)
          (λ n.
            cases_within Inside (ltb eocd (cd_off + cd_size)) _ _ (λ y. tt)
              (λ n'. entries-Inside d eocd count cd_off (omega (arith, fits)))))))

-- Whatever the bytes of a file are, reading its zip directory reads no byte outside the file: it ends
-- with the entries or with a reason.
pub zip_directory-Inside : (d : List ℕ) → Inside (zip_directory d)
unfolding zip_directory
zip_directory-Inside d =
    cases_within Inside (ltb (length d) 22) _ _ (λ y. tt)
      (λ n.
        let lo = length d - (22 + 65535) in
        and_then-Inside (find_end d lo (suc (length d - 22 - lo))) _
          (find_end-Inside d lo (suc (length d - 22 - lo)) (ground arith))
          (λ eocd same.
            let before = find_end-Before d lo (suc (length d - 22 - lo)) eocd same in
            from_end-Inside d eocd (ground arith)))
