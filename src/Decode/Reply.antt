-- ===== src/Decode/Reply.antt =====
-- What one token does to the reply: the text part of an iteration of the decode loop of `generate` in
-- tools/qwfn_server.cpp. Text is its bytes.
use qw_fnfer_xpu.Base.{
  ℕ, ◌+◌, ◌-◌, Bool, true, false, not, ◌&&◌, ◌||◌, List, [], ◌∷◌, ◌++◌, length, take, drop, leb,
  ltb, ◌==◌, if◌then◌else◌,
}
use qw_fnfer_xpu.Decode.Parts.{Parts}

pub data Finish : Type 0 where
  by_stop by_length : Finish

-- `gen_result`'s text fields and the two flags, with every delta that was sent, the newest first.
pub record Reply : Type 0 where
  pub reasoning : List ℕ
  pub content : List ℕ
  pub finish : Finish
  pub stop_seq : List ℕ
  pub reasoning_budget_hit : Bool
  pub in_think : Bool
  pub content_started : Bool
  pub sent : List (List ℕ × Bool)

unfoldable pub same_bytes : List ℕ → List ℕ → Bool
same_bytes [] [] = true
same_bytes [] (y ∷ ys) = false
same_bytes (x ∷ xs) [] = false
same_bytes (x ∷ xs) (y ∷ ys) = (x == y) && same_bytes xs ys

-- `s.find(part) != npos`.
unfoldable pub contains : List ℕ → List ℕ → Bool
contains part [] = same_bytes part []
contains part (x ∷ s) = same_bytes part (take (length part) (x ∷ s)) || contains part s

unfoldable pub ends_with : List ℕ → List ℕ → Bool
ends_with s part = leb (length part) (length s) && same_bytes (drop (length s - length part) s) part

unfoldable pub is_space : ℕ → Bool
is_space b = (b == 32) || (b == 9) || (b == 13) || (b == 10)

unfoldable pub skip_spaces : List ℕ → List ℕ
skip_spaces [] = []
skip_spaces (b ∷ bs) = let rest = skip_spaces bs in if is_space b then rest else b ∷ bs

unfoldable pub is_none : List ℕ → Bool
is_none [] = true
is_none (x ∷ xs) = false

-- "</think>"
abbrev pub end_of_think : List ℕ
end_of_think = 60 ∷ 47 ∷ 116 ∷ 104 ∷ 105 ∷ 110 ∷ 107 ∷ 62 ∷ []

-- "\n\n[thinking budget reached]"
abbrev pub budget_reached : List ℕ
budget_reached =
    10 ∷ 10 ∷ 91 ∷ 116 ∷ 104 ∷ 105 ∷ 110 ∷ 107 ∷ 105 ∷ 110 ∷ 103 ∷ 32 ∷ 98 ∷ 117 ∷ 100 ∷ 103 ∷ 101
    ∷ 116 ∷ 32 ∷ 114 ∷ 101 ∷ 97 ∷ 99 ∷ 104 ∷ 101 ∷ 100 ∷ 93 ∷ []

-- The first of the stop sequences that ends the content, taken off it.
unfoldable pub hit_stop : List (List ℕ) → Reply → Reply × Bool
hit_stop [] r = (r, false)
hit_stop (s ∷ ss) r = elim (not (is_none s) && ends_with r.content s) [
  | true ↦ (
    record r {
      content = take (length r.content - length s) r.content;
      stop_seq = s;
      finish = by_stop;
    },
    true,
  )
  | false ↦ hit_stop ss r
]

-- What comes after a token's text: the reply is over, its thinking is cut off, or it goes on.
pub data After : Type 0 where
  over cut_off goes_on : Reply → After

unfoldable pub fresh : Bool → Reply
fresh thinking = record {
  reasoning = [];
  content = [];
  finish = by_stop;
  stop_seq = [];
  reasoning_budget_hit = false;
  in_think = thinking;
  content_started = false;
  sent = [];
}

-- `if (n >= budget && budget > 0) R.finish = "length"`.
unfoldable pub closed : ℕ → Reply × ℕ → Reply × ℕ
closed budget (r, n) =
    (if leb budget n && ltb 0 budget then record r { finish = by_length } else r, n)

module _ (m : Parts) where
  unfoldable pub append_to : Bool → List ℕ → Reply → Reply
  append_to true bytes r = record r { reasoning = r.reasoning ++ bytes }
  append_to false bytes r = record r { content = r.content ++ bytes }

  -- A call of `on_delta`: the client goes on reading, or not.
  unfoldable pub send : List ℕ → Bool → Reply → Reply × Bool
  send bytes think r = (record r { sent = (bytes, think) ∷ r.sent }, m.on_delta r.sent bytes think)

  unfoldable pub stopped : Reply → Reply
  stopped r = record r { finish = by_stop }

  -- The answer does not start with white space.
  unfoldable pub opened : List ℕ → Reply → List ℕ × Reply
  opened bytes r =
      if not r.in_think && not r.content_started
      then (skip_spaces bytes, record r { content_started = not (is_none (skip_spaces bytes)) })
      else (bytes, r)

  unfoldable pub check_stops : Reply → After
  check_stops r = let (r', hit) = hit_stop m.stops r in if hit then over r' else goes_on r'

  unfoldable pub emit : List ℕ → Reply → After
  emit bytes r =
      let r1 = append_to r.in_think bytes r in
      if is_none bytes
      then check_stops r1
      else let (r2, reads) = send bytes r.in_think r1 in
        if reads then check_stops r2 else over (stopped r2)

  unfoldable pub close_thinking : List ℕ → Reply → After
  close_thinking bytes r =
      let (r', reads) = send bytes true (append_to r.in_think bytes r) in
      if reads
      then cut_off (record r' { reasoning = r'.reasoning ++ budget_reached })
      else over (stopped r')

  -- The text of the token that is the reply's number `n`, from 0.
  unfoldable pub take_token : Reply → ℕ → ℕ → After
  take_token r n tok =
      let bytes = m.piece tok in
      if r.in_think && contains end_of_think bytes
      then goes_on (record r { in_think = false })
      else if r.in_think && ltb 0 m.reasoning_budget && leb m.reasoning_budget (n + 1)
      then close_thinking bytes r
      else let (bytes', r') = opened bytes r in emit bytes' r'
