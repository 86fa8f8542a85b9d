-- ===== src/Experts/Speculative/Waits.antt =====
-- The wait for speculative reads ends.
use qw_fnfer_xpu.Base.{
  ℕ, zero, suc, ◌-◌, ◌<◌, ◌≤◌, min, ◌≡◌, refl, ◌∙◌, inl, inr, false, ◌&&◌, List, [], ◌∷◌, length,
  get_elem?, ltb, ◌==◌, Bool-cases, Option-cases, arith,
}
use qw_fnfer_xpu.Experts.Cache.{Cache}
use qw_fnfer_xpu.Experts.Speculative.{
  land_entry, complete, complete_all, reap_round, drifted, reap_rounds, pf_reap, needed_pending,
  waiting, settle_for, prefetch_settle_for,
}

abbrev outstanding : Cache → ℕ
outstanding c = c.pf_reads_outstanding

complete-outstanding : (c : Cache) (tag : ℕ) → outstanding (complete c tag) ≡ outstanding c
unfolding complete land_entry
complete-outstanding c tag = elim (Option-cases (get_elem? c.pf_pending tag)) [
  | inl absent ↦ rw (absent, complete) refl
  | inr (x, at) ↦ rw (at, complete) refl
]

complete_all-outstanding :
    (c : Cache) (tags : List ℕ) → outstanding (complete_all c tags) ≡ outstanding c
unfolding complete_all
complete_all-outstanding c [] = refl
complete_all-outstanding c (tag ∷ tags) =
    complete_all-outstanding (complete c tag) tags ∙ complete-outstanding c tag

reap_round-outstanding :
    (c : Cache) (tags : List ℕ)
    → outstanding (reap_round c tags) ≡ outstanding c - min (length tags) (outstanding c)
unfolding reap_round
reap_round-outstanding c tags = rw (complete_all-outstanding c tags) refl

-- A reap that asks for a completion lowers the count of outstanding reads.
reap_rounds-less :
    (c : Cache) (need : ℕ) (rounds : List (List ℕ))
    → 0 < need
    → 0 < outstanding c
    → outstanding (reap_rounds c need rounds).0 < outstanding c
unfolding reap_rounds drifted
reap_rounds-less c need [] asks any = ground arith
reap_rounds-less c need ([] ∷ rounds) asks any = ground arith
reap_rounds-less c need ((tag ∷ tags) ∷ rounds) asks any =
    let d = reap_round c (tag ∷ tags) in
    let o = reap_round-outstanding c (tag ∷ tags) in
    let fewer : outstanding d < outstanding c = omega (arith, o, any) in
    elim (Bool-cases (ltb 0 (need - length (tag ∷ tags)) && ltb 0 (outstanding d))) [
      | inr stop ↦ rw (stop, reap_rounds) fewer
      | inl go ↦
          let rest =
            reap_rounds-less d (need - length (tag ∷ tags)) rounds (ground arith) (ground arith) in
          rw (go, reap_rounds) (omega (arith, rest, fewer))
    ]

pf_reap-less :
    (c : Cache) (rounds : List (List ℕ))
    → 0 < outstanding c
    → outstanding (pf_reap c 1 rounds).0 < outstanding c
unfolding pf_reap
pf_reap-less c rounds out = elim (Bool-cases (c.pf_reads_outstanding == 0)) [
  | inl empty ↦ ground arith
  | inr more ↦
      rw (more, pf_reap)
        (reap_rounds-less c (min 1 (outstanding c)) rounds (omega (arith, out)) out)
]

settle_for-waiting :
    (c : Cache) (il : ℕ) (ids : List ℕ) (fuel : ℕ) (rounds : List (List ℕ))
    → outstanding c ≤ fuel
    → waiting (settle_for c il ids fuel rounds).0 il ids ≡ false
unfolding settle_for
settle_for-waiting c il ids zero rounds enough = ground arith
settle_for-waiting c il ids (suc fuel) rounds enough = elim (Bool-cases (waiting c il ids)) [
  | inr stop ↦ rw (stop, settle_for) stop
  | inl go ↦
      let less = pf_reap-less c rounds (ground arith) in
      rw (go, settle_for)
        (settle_for-waiting (pf_reap c 1 rounds).0 il ids fuel (pf_reap c 1 rounds).1
          (omega (arith, less, enough)))
]

-- The wait for the speculative reads that a fetch needs comes to its end whatever the io engine
-- returns, an engine that has lost reads included: afterwards the table lists no read that the fetch
-- needs. The fuel, the count of outstanding reads, is enough.
pub prefetch_settle_for-ends :
    (c : Cache) (il : ℕ) (ids : List ℕ) (rounds : List (List ℕ))
    → needed_pending (prefetch_settle_for c il ids rounds).0.pf_pending il ids ≡ false
unfolding prefetch_settle_for
prefetch_settle_for-ends c il ids rounds =
    let d = (settle_for c il ids c.pf_reads_outstanding rounds).0 in
    let done = settle_for-waiting c il ids c.pf_reads_outstanding rounds (omega arith) in
    elim (Bool-cases (d.pf_reads_outstanding == 0)) [
      | inl none_left ↦ rw none_left refl
      | inr left ↦ rw left (ground arith)
    ]
