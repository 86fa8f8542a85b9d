-- ===== src/Archive/Room.antt =====
-- How much text of a file can be kept.
use qw_fnfer_xpu.Base.{
  ℕ, zero, suc, ◌-◌, ◌≤◌, inl, inr, ◌&&◌, ◌||◌, List, [], ◌++◌, length, min, ltb, ◌==◌, get_or,
  take, if◌then◌else◌, Bool-cases, length-append, length-take, arith,
}
use qw_fnfer_xpu.Text.Utf8.{without_bom, continuation_byte}
use qw_fnfer_xpu.Text.Cut.{cut_back, kept_bytes}
use qw_fnfer_xpu.Archive.{room_left, Literals, newline, digits, append_file, Limits}

cut_back-le : (ds : List ℕ) (k : ℕ) → cut_back ds k ≤ k
unfolding cut_back
cut_back-le ds zero = omega arith
cut_back-le ds (suc k) =
    elim (Bool-cases (ltb (suc k) (length ds) && continuation_byte (get_or ds (suc k) 0))) [
      | inl back ↦ rw (back, cut_back) (omega (arith, cut_back-le ds k))
      | inr stay ↦ rw (stay, cut_back) (omega arith)
    ]

-- What is kept of a file is part of what is appended.
pub length-append_file :
    (l : Literals) (name ds : List ℕ) (cap : ℕ)
    → length (take (kept_bytes (without_bom ds) cap) (without_bom ds))
      ≤ length (append_file l name ds cap)
unfolding append_file
length-append_file l name ds cap =
    let d = without_bom ds in
    let t = take (kept_bytes d cap) d in
    let k = kept_bytes d cap in
    let ended = k == 0 || (get_or d (k - 1) 0 == 10) in
    let rest =
      (if ended then [] else newline)
      ++ ((if ltb k (length d)
            then l.cut ++ (digits 65 k ++ (l.of ++ (digits 65 (length d) ++ (l.bytes ++ newline))))
            else [])
          ++ (l.end_of ++ (name ++ (l.dashes ++ newline)))) in
    rw
      (
        length-append l.file (name ++ (l.dashes ++ (newline ++ (t ++ rest)))),
        length-append name (l.dashes ++ (newline ++ (t ++ rest))),
        length-append l.dashes (newline ++ (t ++ rest)),
        length-append t rest,
      )
      (omega arith)

pub kept-le :
    (lim : Limits) (total : ℕ) (d : List ℕ)
    → length (take (kept_bytes d (min lim.max_file (room_left lim.max_total total))) d)
      ≤ lim.max_total - total
unfolding kept_bytes room_left
kept-le lim total d =
    let cap = min lim.max_file (room_left lim.max_total total) in
    rw (length-take (kept_bytes d cap) d) (omega (arith, cut_back-le d (min (length d) cap)))
