-- ===== src/Decode/Loop.antt =====
-- The decode loop of `generate` in tools/qwfn_server.cpp. Its yield points, the counters that other
-- threads read, and the client's leaving are left out.
pub mod Moves
pub mod Turns
use qw_fnfer_xpu.Base.{
  ℕ, zero, suc, ◌+◌, ◌-◌, ◌*◌, ◌≤◌, Bool, true, false, not, ◌&&◌, ◌||◌, Option, none, some, List,
  [], ◌∷◌, ◌++◌, length, take, leb, ltb, ◌==◌, if◌then◌else◌, min,
}
use qw_fnfer_xpu.Lookup.Drafter.{Drafter}
use qw_fnfer_xpu.Decode.Parts.{Parts, Observed}
use qw_fnfer_xpu.Decode.Reply.{
  Reply, After, by_length, over, cut_off, goes_on, take_token, fresh, closed,
}
use qw_fnfer_xpu.Decode.Drafts.{Drafted, choose_drafts, clipped, lookup_rebuild}
use qw_fnfer_xpu.Decode.Verify.{Verdict, verify}

pub record Counts : Type 0 where
  pub n_pairs : ℕ
  pub n_drafted : ℕ
  pub n_accepted : ℕ
  pub n_lookup_steps : ℕ
  pub n_lookup_drafted : ℕ
  pub n_lookup_accepted : ℕ

module _ (m : Parts) where
  -- `tok` is the reply's next token; `tok_in` marks one that the engine has taken in as a draft, with
  -- the accepted drafts after it in `evald` and the token after those in `tok_next`.
  pub record Loop : Type 0 where
    pub eng : m.E
    pub smp : m.S
    pub lookup : Drafter
    pub policy : m.P
    pub hist : List ℕ
    pub tok : ℕ
    pub tok_in : Bool
    pub tok_next : ℕ
    pub evald : List ℕ
    pub n : ℕ
    pub reply : Reply
    pub counts : Counts

  pub data Turn : Type 0 where
    failed : Turn
    ended next : Loop → Turn

  unfoldable pub spec_l0 : m.E → List ℕ → List ℕ → ℕ → m.E
  spec_l0 e hist toks t = m.spec_layer0 e (hist ++ toks) t

  unfoldable pub single_step : Loop → Turn
  single_step l = elim (m.eval l.eng l.hist 1) [
    | none ↦ failed
    | some (e1, lg) ↦
        let (tok, smp) = m.pick l.smp lg in
        let e2 = if m.mtp_on e1 then spec_l0 e1 l.hist (tok ∷ []) 1 else e1 in
        elim (m.mtp_step e2 (tok ∷ [])) [
          | none ↦ failed
          | some e3 ↦ next (record l { eng = e3; smp = smp; tok = tok; n = l.n + 1 })
        ]
  ]

  unfoldable pub counted : Counts → Bool → ℕ → ℕ → ℕ → Counts
  counted r lk_step k real j = record {
    n_pairs = r.n_pairs + 1;
    n_drafted = r.n_drafted + k;
    n_accepted = r.n_accepted + j;
    n_lookup_steps = r.n_lookup_steps + (if lk_step then 1 else 0);
    n_lookup_drafted = r.n_lookup_drafted + (if lk_step then real else 0);
    n_lookup_accepted = r.n_lookup_accepted + (if lk_step then min j real else 0);
  }

  unfoldable pub observed : Drafted m → ℕ → ℕ → Bool → m.P → m.P
  observed d k j rebuilt p =
      let real = min d.lk_real k in
      if m.lookup_on
      then m.observe p (record {
        lookup = d.lk_step;
        t = k + 1;
        drafted = if d.lk_step then real else k;
        accepted = if d.lk_step then min j real else j;
        match_len = d.lk_match;
        rebuilt = rebuilt;
      })
      else p

  -- The accepted drafts are emitted one by one before the token that follows them.
  unfoldable pub moved_on : Loop → List ℕ → ℕ → Loop
  moved_on l [] y = record l { tok = y; n = l.n + 1 }
  moved_on l (d ∷ ds) y = record l { tok = d; tok_in = true; tok_next = y; evald = ds; n = l.n + 1 }

  -- With `hist` the history that stands, and `y` the token after it.
  unfoldable pub after_verify :
      Loop → Drafted m → List ℕ → Verdict m → m.S → m.E → List ℕ → ℕ → Turn
  after_verify l d ds v smp e hist y =
      let k = length ds in
      let kept = take v.accepted ds in
      elim (m.mtp_step (spec_l0 e hist (y ∷ []) 1) (kept ++ y ∷ [])) [
        | none ↦ failed
        | some e' ↦
            let rebuilt = ltb (m.n_replay e' - m.n_replay d.eng) m.n_layer in
            let l' : Loop = record l {
              eng = e';
              smp = smp;
              hist = hist;
              lookup = d.lookup;
              policy = observed d k v.accepted rebuilt v.policy;
              counts = counted l.counts (m.lookup_on && d.lk_step) k (min d.lk_real k) v.accepted;
            } in
            next (moved_on l' kept y)
      ]

  -- All drafts stand, and the last position gives the token after them; or the rest is rolled back.
  unfoldable pub settled : Loop → Drafted m → List ℕ → m.E → Verdict m → Turn
  settled l d ds e v =
      let hist = l.hist ++ ds in
      elim v.rejected [
        | none ↦
            let (y, smp) = m.pick v.smp (m.logits_pos e (length ds)) in
            after_verify l d ds v smp e hist y
        | some y ↦
            let back = length ds - v.accepted in
            elim (m.rollback_n e back) [
              | none ↦ failed
              | some e' ↦ after_verify l d ds v v.smp e' (take (length hist - back) hist) y
            ]
      ]

  unfoldable pub verify_step : Loop → Drafted m → List ℕ → Turn
  verify_step l d ds =
      let e1 = spec_l0 d.eng l.hist ds (length ds + 1) in
      elim (m.eval_decode e1 (l.hist ++ ds) (length ds + 1)) [
        | none ↦ failed
        | some e2 ↦ settled l d ds e2 (verify m e2 d.lk_step ds 0 l.smp d.policy)
      ]

  unfoldable pub step_with : Loop → Drafted m → List ℕ → Turn
  step_with l d [] = single_step (record l { eng = d.eng; lookup = d.lookup; policy = d.policy })
  step_with l d (t ∷ ts) = verify_step l d (t ∷ ts)

  unfoldable pub decode_step : Loop → Turn
  decode_step l = elim (choose_drafts m l.eng l.lookup l.policy l.hist) [
    | none ↦ failed
    | some d ↦ step_with l d (clipped m d.drafts l.n (length l.hist))
  ]

  -- A token that came in as a draft is not evaluated again.
  unfoldable pub next_accepted : Loop → List ℕ → Loop
  next_accepted l [] = record l { tok = l.tok_next; tok_in = false; n = l.n + 1 }
  next_accepted l (d ∷ ds) = record l { tok = d; evald = ds; n = l.n + 1 }

  -- The thinking is cut off: the phrase that ends it goes in, with the token if it is not in yet.
  unfoldable pub inject : Loop → Turn
  inject l =
      let hist = l.hist ++ m.cut_tokens in
      if ltb m.n_ctx (length hist + 1)
      then ended
          (record l { hist = hist; n = l.n + 1; reply = record l.reply { finish = by_length } })
      else elim (m.eval l.eng hist (length m.cut_tokens + (if l.tok_in then 0 else 1))) [
        | none ↦ failed
        | some (e1, lg) ↦
            let (tok, smp) = m.pick l.smp lg in
            elim (m.mtp_step e1 (tok ∷ [])) [
              | none ↦ failed
              | some e2 ↦ next (record l {
                eng = e2;
                smp = smp;
                hist = hist;
                tok = tok;
                tok_in = false;
                n = l.n + 1;
                reply = record l.reply { in_think = false; reasoning_budget_hit = true };
              })
            ]
      ]

  unfoldable pub go_on : Loop → Turn
  go_on l =
      if ltb m.n_ctx (length l.hist + 1)
      then ended (record l { n = l.n + 1; reply = record l.reply { finish = by_length } })
      else if l.tok_in
      then next (next_accepted l l.evald)
      else decode_step l

  unfoldable pub after_text : Loop → After → Turn
  after_text l (over r) = ended (record l { n = l.n + 1; reply = r })
  after_text l (cut_off r) = inject (record l { reply = r })
  after_text l (goes_on r) = go_on (record l { reply = r })

  -- The token enters the history and the sampler's, if it is not in already.
  unfoldable pub entered : Loop → Loop
  entered l = record l {
    hist = if l.tok_in then l.hist else l.hist ++ l.tok ∷ [];
    smp = if l.tok_in || m.is_eog l.tok then l.smp else m.gen_push l.smp l.tok;
  }

  unfoldable pub iteration : Loop → Turn
  iteration l =
      if m.is_eog l.tok
      then ended (record (entered l) { n = l.n + 1 })
      else after_text (entered l) (take_token m l.reply l.n l.tok)

  -- `for (; n < budget; n++)`, on the tokens left.
  unfoldable pub run : ℕ → Loop → Option Loop
  run zero l = some l
  run (suc left) l = elim (iteration l) [
    | failed ↦ none
    | ended l' ↦ some l'
    | next l' ↦ run left l'
  ]

  -- Before the loop: the first token is picked from the prompt's last logits.
  unfoldable pub started : m.E → m.S → List ℕ → Drafter → m.P → Bool → ℕ → Loop
  started e smp hist lookup policy thinking tok = record {
    eng = e;
    smp = smp;
    lookup = if m.lookup_on then lookup_rebuild m lookup hist else lookup;
    policy = if m.lookup_on then m.new_sequence policy else policy;
    hist = hist;
    tok = tok;
    tok_in = false;
    tok_next = 0;
    evald = [];
    n = 0;
    reply = fresh thinking;
    counts = record {
      n_pairs = 0;
      n_drafted = 0;
      n_accepted = 0;
      n_lookup_steps = 0;
      n_lookup_drafted = 0;
      n_lookup_accepted = 0;
    };
  }

  unfoldable pub start : m.E → m.L → m.S → List ℕ → Drafter → m.P → Bool → Option Loop
  start e lg smp hist lookup policy thinking =
      let (tok, smp') = m.pick smp lg in
      elim (m.mtp_step e (tok ∷ [])) [
        | none ↦ none
        | some e' ↦ some (started e' smp' hist lookup policy thinking tok)
      ]

  -- The whole of the generation after the prompt, and what the server then believes the engine holds.
  unfoldable pub decode : m.E → m.L → m.S → List ℕ → Drafter → m.P → Bool → Option Loop
  decode e lg smp hist lookup policy thinking = elim (start e lg smp hist lookup policy thinking) [
    | none ↦ none
    | some l ↦ elim (run m.budget l) [
      | none ↦ none
      | some l' ↦ some (record l' { reply = (closed m.budget (l'.reply, l'.n)).0 })
    ]
  ]

  unfoldable pub consumed : Loop → List ℕ
  consumed l = take (m.n_past l.eng) l.hist
