-- ===== src/Experts/Session/Predicts.antt =====
-- `prefetch_begin` keeps the maps of the tiers in agreement.
use qw_fnfer_xpu.Base.{
  ℕ, zero, suc, ◌+◌, ◌*◌, ◌≡◌, refl, inl, inr, Bool, true, false, not, ◌&&◌, ◌||◌, some, List, [],
  ◌∷◌, length, ltb, leb, update, Bool-cases, Option-cases,
}
use qw_fnfer_xpu.Experts.Cache.{Config, Cache, without, enter}
use qw_fnfer_xpu.Experts.Names.{Named-claim}
use qw_fnfer_xpu.Experts.Kept.{Consistent}
use qw_fnfer_xpu.Experts.Victim.{choose_victim, would_promote}
use qw_fnfer_xpu.Experts.Fetch.{ask, want_hot}
use qw_fnfer_xpu.Experts.Settle.{land_layer}
use qw_fnfer_xpu.Experts.Settle.Keeps.{AllConsistent}
use qw_fnfer_xpu.Experts.Speculative.{
  expect, expected, predict, predict_all, predict_set, predict_sets, emptied, settle_count,
  prefetch_settle, submit_reads, make_room, prefetch_begin, pf_reap,
}
use qw_fnfer_xpu.Experts.Speculative.Fills.{Consistent-Fills, Reaps, pf_reap-Reaps}
use qw_fnfer_xpu.Experts.Session.Fetched.{AllConsistent-same, land_layer-blk}
use qw_fnfer_xpu.Experts.Session.Batches.{Sound, enter-Sound, leave-Sound, same-Sound}

ask-blk : (k : Config) (c : Cache) (e : ℕ) (b : Bool) → (ask k c e b).0.blk ≡ c.blk
unfolding ask would_promote
ask-blk k c e true = refl
ask-blk k c e false = refl

ask-Consistent :
    (k : Config) (c : Cache) (e : ℕ) (b : Bool) → Consistent c.lp → Consistent (ask k c e b).0.lp
unfolding ask would_promote
ask-Consistent k c e true ok = ok
ask-Consistent k c e false ok = ok

expect-Sound :
    (k : Config) (pieces : Bool → ℕ → ℕ → ℕ) (c : Cache) (e v : ℕ)
    → Sound c
    → Sound (expect k pieces c e v)
unfolding expect want_hot
expect-Sound k pieces c e v s =
    let lp = record c.lp {
      expert_slot = update (without c.lp.expert_slot (c.lp.slot_expert v)) e (some v);
      slot_expert = update c.lp.slot_expert v (some e);
      slot_valid = update c.lp.slot_valid v false;
      slot_freq = update c.lp.slot_freq v 1;
      slot_used = update c.lp.slot_used v (suc c.tick);
      slot_speculative = update c.lp.slot_speculative v true;
      seen = update c.lp.seen e true;
    } in
    let c' = record c { tick = suc c.tick; lp = lp } in
    let b = k.has_cold && not (c'.lp.hotw e) in
    let p = s.pool in
    let claimed : Consistent lp = record {
      ram = Named-claim c.lp.expert_slot c.lp.slot_expert e v p.ram;
      vram = p.vram;
      valid = p.valid;
      has_slot = p.has_slot;
    } in
    let q = ask-Consistent k c' e b claimed in
    record {
      pool = record { ram = q.ram; vram = q.vram; valid = q.valid; has_slot = q.has_slot };
      all = AllConsistent-same c (expect k pieces c e v) (ask-blk k c' e b) s.all;
    }

predict-Sound :
    (k : Config) (n : ℕ) (pieces : Bool → ℕ → ℕ → ℕ) (c : Cache) (e : ℕ)
    → Sound c
    → Sound (predict k n pieces c e)
unfolding predict choose_victim
predict-Sound k n pieces c e s = elim (Bool-cases (leb n e || expected c.lp e)) [
  | inl skip ↦ rw (skip, predict) s
  | inr new ↦
      let s' =
        same-Sound c (choose_victim k c).0
          (λ ok. record { ram = ok.ram; vram = ok.vram; valid = ok.valid; has_slot = ok.has_slot })
          refl s in
      elim (Option-cases (choose_victim k c).1) [
        | inl full ↦ rw (new, full, predict, choose_victim) s'
        | inr (v, at) ↦
            rw (new, at, predict, choose_victim)
              (expect-Sound k pieces (choose_victim k c).0 e v s')
      ]
]

predict_all-Sound :
    (k : Config) (n : ℕ) (pieces : Bool → ℕ → ℕ → ℕ) (c : Cache) (es : List ℕ)
    → Sound c
    → Sound (predict_all k n pieces c es)
unfolding predict_all
predict_all-Sound k n pieces c [] s = s
predict_all-Sound k n pieces c (e ∷ es) s =
    elim (Bool-cases (leb (c.n_req + 3 * 8) (128 * 3 * 8))) [
      | inr full ↦ rw (full, predict_all) s
      | inl room ↦
          rw (room, predict_all)
            (predict_all-Sound k n pieces (predict k n pieces c e) es
              (predict-Sound k n pieces c e s))
    ]

predict_sets-AllConsistent :
    (k : Config) (n : ℕ) (pieces : Bool → ℕ → ℕ → ℕ) (c : Cache) (sets : List (ℕ × List ℕ))
    → AllConsistent c
    → AllConsistent (predict_sets k n pieces c sets)
unfolding predict_sets predict_set
predict_sets-AllConsistent k n pieces c [] all = all
predict_sets-AllConsistent k n pieces c ((il, es) ∷ sets) all =
    predict_sets-AllConsistent k n pieces (predict_set k n pieces c il es) sets
      (elim (Bool-cases (ltb il c.n_blk)) [
        | inr out ↦
            rw (out, predict_set) (AllConsistent-same c (land_layer c il) (land_layer-blk c il) all)
        | inl within ↦
            rw (within, predict_set)
              (leave-Sound (predict_all k n pieces (enter il (land_layer c il)) es) (
                predict_all-Sound k n pieces (enter il (land_layer c il)) es
                  (enter-Sound c il all)))
      ])

pub Reaps-AllConsistent : (c d : Cache) → Reaps c d → AllConsistent c → AllConsistent d
unfolding AllConsistent
Reaps-AllConsistent c d r all il = Consistent-Fills (r.fills il) (all il)

settle_count-AllConsistent :
    (c : Cache) (fuel : ℕ) (rounds : List (List ℕ))
    → AllConsistent c
    → AllConsistent (settle_count c fuel rounds).0
unfolding settle_count
settle_count-AllConsistent c zero rounds all = all
settle_count-AllConsistent c (suc fuel) rounds all =
    elim (Bool-cases (ltb 0 c.pf_reads_outstanding)) [
      | inr done ↦ rw (done, settle_count) all
      | inl go ↦
          rw (go, settle_count)
            (settle_count-AllConsistent (pf_reap c 1 rounds).0 fuel (pf_reap c 1 rounds).1
              (Reaps-AllConsistent c (pf_reap c 1 rounds).0 (pf_reap-Reaps c 1 rounds) all))
    ]

make_room-AllConsistent :
    (c : Cache) (rounds : List (List ℕ)) → AllConsistent c → AllConsistent (make_room c rounds).0
unfolding make_room prefetch_settle
make_room-AllConsistent c rounds all =
    let d = (pf_reap c 0 rounds).0 in
    let rest = (pf_reap c 0 rounds).1 in
    let all' = Reaps-AllConsistent c d (pf_reap-Reaps c 0 rounds) all in
    let all'' = AllConsistent-same d (emptied d) refl all' in
    elim (Bool-cases (ltb 4096 (length (emptied d).pf_pending))) [
      | inr few ↦ rw (few, make_room) all''
      | inl many ↦
          let e = settle_count (emptied d) (emptied d).pf_reads_outstanding rest in
          rw (many, make_room)
            (AllConsistent-same e.0 (record e.0 { pf_pending = [] }) refl
              (settle_count-AllConsistent (emptied d) (emptied d).pf_reads_outstanding rest all''))
    ]

submit_reads-AllConsistent :
    (c : Cache) (accepted : List ℕ) (rounds : List (List ℕ))
    → AllConsistent c
    → AllConsistent (submit_reads c accepted rounds).0
unfolding submit_reads
submit_reads-AllConsistent c [] rounds all = all
submit_reads-AllConsistent c (zero ∷ more) rounds all =
    submit_reads-AllConsistent (pf_reap c 1 rounds).0 more (pf_reap c 1 rounds).1
      (Reaps-AllConsistent c (pf_reap c 1 rounds).0 (pf_reap-Reaps c 1 rounds) all)
submit_reads-AllConsistent c (suc n ∷ more) rounds all =
    submit_reads-AllConsistent (record c { pf_reads_outstanding = c.pf_reads_outstanding + suc n })
      more rounds
      (AllConsistent-same c (record c { pf_reads_outstanding = c.pf_reads_outstanding + suc n })
        refl all)

pub prefetch_begin-AllConsistent :
    (k : Config) (n : ℕ) (pieces : Bool → ℕ → ℕ → ℕ) (c : Cache) (sets : List (ℕ × List ℕ))
    (accepted : List ℕ) (rounds : List (List ℕ))
    → AllConsistent c
    → AllConsistent (prefetch_begin k n pieces c sets accepted rounds).0
unfolding prefetch_begin
prefetch_begin-AllConsistent k n pieces c sets accepted rounds all =
    let d = (make_room c rounds).0 in
    let start = record d { n_req = 0 } in
    submit_reads-AllConsistent (predict_sets k n pieces start sets) accepted (make_room c rounds).1
      (predict_sets-AllConsistent k n pieces start sets
        (AllConsistent-same d start refl (make_room-AllConsistent c rounds all)))
