-- ===== src/Decode/Examples.antt =====
-- A reply of four tokens after a prompt of four, with a head whose first draft is always right and
-- whose second is always wrong.
use qw_fnfer_xpu.Base.{
  take-append, take_past, ◌⊎◌, none, false, ℕ, ◌+◌, ◌-◌, ◌%◌, ◌≤◌, ◌≡◌, refl, ap, ◌∙◌, true, some,
  List, [], ◌∷◌, ◌++◌, length, length-append, take, ◌==◌, arith,
}
use qw_fnfer_xpu.Lookup.Drafter.{Drafter, init}
use qw_fnfer_xpu.Decode.Parts.{Parts, Exact}
use qw_fnfer_xpu.Decode.Loop.{Loop, decode, consumed}
use qw_fnfer_xpu.Decode.Loop.Moves.{take_back}
use qw_fnfer_xpu.Decode.Prefill.{Fed, prefill, stops_at_boundary}
use qw_fnfer_xpu.Decode.Prefill.Feeds.{Feeds, FeedsAtBoundary, prefill-Feeds}
use qw_fnfer_xpu.Decode.Reference.{plain_decode}
use qw_fnfer_xpu.Decode.Lossless.{decode-plain_decode}
use qw_fnfer_xpu.Decode.Consumed.{decode-consumed}

record Toy : Type 0 where
  held : List ℕ
  base : ℕ

abbrev toy : Parts
toy = record {
  E = Toy;
  L = List ℕ;
  S = ℕ;
  P = ℕ;
  eval = λ e hist n. some (record { held = hist; base = length hist }, hist);
  eval_decode = λ e hist n. some (record { held = hist; base = length hist + 1 - n });
  logits_pos = λ e i. take (e.base + i) e.held;
  rollback_n = λ e k. some (record e { held = take (length e.held - k) e.held });
  spec_layer0 = λ e hist t. e;
  mtp_on = λ e. true;
  mtp_step = λ e ts. some e;
  mtp_draft_id = λ e. some 1;
  mtp_draft_more = λ e k. some e;
  mtp_drafts = λ e. (length e.held + 1) % 4 ∷ 9 ∷ [];
  n_past = λ e. length e.held;
  n_replay = λ e. 0;
  n_layer = 1;
  gen_push = λ s t. s + t;
  pick = λ s lg. (length lg % 4, s + 100);
  is_eog = λ t. t == 3;
  piece = λ t. (65 + t) ∷ [];
  cut_tokens = 7 ∷ [];
  on_delta = λ sent bytes think. true;
  new_sequence = λ p. p;
  drafts_wanted = λ p. 2;
  judged = λ p j accept. p + 1;
  choose = λ p k n. (false, p);
  observe = λ p o. p;
  n_ctx = 64;
  budget = 10;
  reasoning_budget = 0;
  lookup_drafts = 0;
  lookup_on = false;
  stops = [];
}

toy_logits :
    (hist ds : List ℕ) (n : ℕ) (xs ys : List ℕ)
    → n ≡ length hist
    → ds ≡ xs ++ ys
    → take (n + length xs) (hist ++ ds) ≡ hist ++ xs
toy_logits hist ds n xs ys same split =
    let e : n + length xs ≡ length hist + length xs = omega (arith, same) in
    ap (λ i. take i (hist ++ ds)) e
    ∙ take_past hist ds (length xs)
    ∙ ap (λ z. hist ++ take (length xs) z) split
    ∙ ap (λ z. hist ++ z) (take-append xs ys)

toy_undo :
    (hist ds : List ℕ) (b : ℕ)
    → b ≤ length ds
    → take (length (hist ++ ds) - b) (hist ++ ds) ≡ hist ++ take (length ds - b) ds
toy_undo hist ds b h =
    let e : length (hist ++ ds) - b ≡ length (hist ++ ds) - (length ds - (length ds - b)) =
      omega (arith, length-append hist ds) in
    ap (λ i. take i (hist ++ ds)) e ∙ take_back hist ds (length ds - b) (omega arith)

toy-Exact : Exact toy (λ e. e.held) (λ hist. hist) 2
toy-Exact = record {
  past = λ e. refl;
  evals = λ e hist t ts n same count fits. (_, refl, refl);
  decodes = λ e hist t ds same few fits. (
    _,
    refl,
    refl,
    λ xs ys split.
        toy_logits hist ds (length (hist ++ ds) + 1 - (length ds + 1)) xs ys
          (omega (arith, length-append hist ds)) split,
    λ b pos le. (_, refl, toy_undo hist ds b le),
  );
  steps = λ e ts. (_, refl, refl);
  drafts_more = λ e n. (_, refl, refl);
  reads_ahead = λ e h t. refl;
  few_drafts = λ e. omega arith;
}

abbrev prompt : List ℕ
prompt = 5 ∷ 6 ∷ 7 ∷ 8 ∷ []

abbrev engine : Toy
engine = record { held = prompt; base = 4 }

abbrev drafter : Drafter
drafter = init 3 8

decode-plain_decode_example :
    (l : Loop toy) × (decode toy engine prompt 0 prompt drafter 0 false ≡ some l)
    × ((l.reply, l.n) ≡ plain_decode toy (λ hist. hist) 0 prompt false)
decode-plain_decode_example =
    decode-plain_decode toy toy-Exact (omega arith) (omega arith) refl engine 0 prompt drafter 0
      false refl

decode-consumed_example :
    (l : Loop toy) × (decode toy engine prompt 0 prompt drafter 0 false ≡ some l)
    × (consumed toy l ≡ l.eng.held)
decode-consumed_example =
    decode-consumed toy toy-Exact (omega arith) (omega arith) 7 [] refl engine 0 prompt drafter 0
      false refl

abbrev begun : Fed toy
begun = record { eng = record { held = 5 ∷ []; base = 1 }; lg = none; saves = [] }

prefill-Feeds_example :
    ((stops_at_boundary 9 1 1 3 1 prompt ≡ false)
      × Feeds toy toy-Exact 2 prompt 3
          (omega arith)
          (omega arith)
          (prefill toy 2 prompt (stops_at_boundary 9 1 1 3 1 prompt) 3 4 1 begun)
          [])
    ⊎ ((stops_at_boundary 9 1 1 3 1 prompt ≡ true)
        × FeedsAtBoundary toy toy-Exact 2 prompt 3
            (omega arith)
            (omega arith)
            (prefill toy 2 prompt (stops_at_boundary 9 1 1 3 1 prompt) 3 4 1 begun)
            [])
prefill-Feeds_example =
    prefill-Feeds toy toy-Exact 2 prompt 3 (omega arith) (omega arith) 9 1 1 1 begun (omega arith)
      refl
