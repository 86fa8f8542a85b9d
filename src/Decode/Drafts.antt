-- ===== src/Decode/Drafts.antt =====
-- The drafts of a verify step: in the decode loop of `generate` in tools/qwfn_server.cpp. The branch
-- that samples drafts at a temperature is left out: drafts are the head's, or looked up.
pub mod Few
use qw_fnfer_xpu.Base.{
  ℕ, zero, suc, ◌+◌, ◌-◌, ◌≤◌, ◌≡◌, refl, Bool, true, false, ◌||◌, Option, none, some, List, [],
  ◌∷◌, ◌++◌, length, take, drop, leb, ltb, ◌==◌, if◌then◌else◌, min, arith,
}
use qw_fnfer_xpu.Lookup.Drafter.{Drafter}
use qw_fnfer_xpu.Lookup.Drafter
use qw_fnfer_xpu.Decode.Parts.{Parts}

-- `while (drafts.size() < n) drafts.push_back(drafts.back())`, with the last draft at hand.
unfoldable pub repeated : ℕ → ℕ → List ℕ
repeated zero d = []
repeated (suc n) d = d ∷ repeated n d

unfoldable pub padded : ℕ → ℕ → List ℕ → List ℕ
padded n d [] = repeated n d
padded n d (x ∷ xs) = x ∷ padded (n - 1) x xs

module _ (m : Parts) where
  -- The drafts and the lookup's state once they are chosen.
  pub record Drafted : Type 0 where
    pub eng : m.E
    pub lookup : Drafter
    pub policy : m.P
    pub lk_step : Bool
    pub lk_real : ℕ
    pub lk_match : ℕ
    pub drafts : List ℕ

  unfoldable pub lookup_rebuild : Drafter → List ℕ → Drafter
  lookup_rebuild d hist =
      Drafter.append (Drafter.reset d (min m.n_ctx (length hist + m.budget + 64))) hist

  unfoldable pub lookup_caught_up : Drafter → List ℕ → Drafter
  lookup_caught_up d hist =
      if ltb (length hist) (length d.hist)
      then lookup_rebuild d hist
      else Drafter.append d (drop (length d.hist) hist)

  unfoldable pub looked_up : ℕ → List ℕ → List ℕ
  looked_up id [] = id ∷ repeated (m.lookup_drafts - 1) id
  looked_up id (p ∷ ps) = padded m.lookup_drafts p (p ∷ ps)

  unfoldable pub head_drafts : m.E → Drafter → m.P → ℕ → Option Drafted
  head_drafts e d p lk_match = elim (m.mtp_draft_more e (m.drafts_wanted p)) [
    | none ↦ none
    | some e' ↦ some (record {
      eng = e';
      lookup = d;
      policy = p;
      lk_step = false;
      lk_real = 0;
      lk_match = lk_match;
      drafts = m.mtp_drafts e';
    })
  ]

  unfoldable pub lookup_or_head : m.E → Drafter → m.P → List ℕ → ℕ → Option Drafted
  lookup_or_head e d p hist id =
      let (d', props) = Drafter.propose (lookup_caught_up d hist) m.lookup_drafts in
      let (lk_step, p') = m.choose p (length props) d'.last_match in
      if lk_step
      then some (record {
        eng = e;
        lookup = d';
        policy = p';
        lk_step = true;
        lk_real = length props;
        lk_match = d'.last_match;
        drafts = looked_up id props;
      })
      else head_drafts e d' p' d'.last_match

  -- No draft past an end-of-generation token.
  unfoldable pub before_eog : List ℕ → List ℕ
  before_eog [] = []
  before_eog (d ∷ ds) = let rest = before_eog ds in if m.is_eog d then [] else d ∷ rest

  -- `while (drafts and too many) drafts.pop_back()`: how many of `k` drafts stay after `h` tokens
  -- of history, the reply's token number `n` among them.
  unfoldable pub fitting : ℕ → ℕ → ℕ → ℕ
  fitting zero n h = 0
  fitting (suc k) n h =
      let fewer = fitting k n h in
      if leb m.budget (n + suc k) || ltb m.n_ctx (h + 1 + suc k) then fewer else suc k

  unfoldable pub clipped : List ℕ → ℕ → ℕ → List ℕ
  clipped ds n h = take (fitting (length (before_eog ds)) n h) (before_eog ds)

  unfoldable pub choose_drafts : m.E → Drafter → m.P → List ℕ → Option Drafted
  choose_drafts e d p hist = elim (m.mtp_draft_id e) [
    | none ↦ some (record {
      eng = e;
      lookup = d;
      policy = p;
      lk_step = false;
      lk_real = 0;
      lk_match = 0;
      drafts = [];
    })
    | some id ↦ if m.lookup_on then lookup_or_head e d p hist id else head_drafts e d p 0
  ]
