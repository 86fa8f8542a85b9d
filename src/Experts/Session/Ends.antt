-- ===== src/Experts/Session/Ends.antt =====
-- A fetch that succeeds has every block in the slot of its handle.
use qw_fnfer_xpu.Base.{
  ℕ, ◌≡◌, refl, sym, subst, inl, inr, Bool, true, false, not, ◌||◌, some, List, [], ◌∷◌,
  if◌then◌else◌, update_self, Bool-cases, arith,
}
use qw_fnfer_xpu.Experts.Cache.{Pool, Cache, Claim, holds, lists}
use qw_fnfer_xpu.Experts.Speculative.{validated, prefetch_settle_for}
use qw_fnfer_xpu.Experts.Speculative.Fills.{
  Fills, Fills-refl, Fills-trans, validated-Fills, update-Fills, prefetch_settle_for-Reaps,
}
use qw_fnfer_xpu.Experts.Session.{
  no_claims, experts_of, read_block_now, settle_each, settle_pending, validate_all, fetch_end,
}

read_block_now-Fills : (lp : Pool) (s : ℕ) → Fills lp (read_block_now lp s)
unfolding read_block_now
read_block_now-Fills lp s = record {
  slot_expert = refl;
  expert_slot = refl;
  g_slot_expert = refl;
  g_expert_slot = refl;
  g_valid = refl;
  n_slots = refl;
  stays = λ t h. ground arith;
}

settled : Pool → ℕ → Pool
settled lp s = if lp.slot_valid s then lp else read_block_now lp s

settled-Fills : (lp : Pool) (s : ℕ) → Fills lp (settled lp s)
unfolding settled
settled-Fills lp s = elim (Bool-cases (lp.slot_valid s)) [
  | inl v ↦ rw (v, settled) (Fills-refl lp)
  | inr v ↦ rw (v, settled) (read_block_now-Fills lp s)
]

settled_valid : (lp : Pool) (s : ℕ) → (settled lp s).slot_valid s ≡ true
unfolding settled read_block_now
settled_valid lp s = elim (Bool-cases (lp.slot_valid s)) [
  | inl v ↦ rw (v, settled) v
  | inr v ↦ rw (v, settled) (update_self lp.slot_valid s true)
]

settle_each-Fills :
    (reads : ℕ → Bool) (lp : Pool) (ps : List Claim) → Fills lp (settle_each reads lp ps).0
unfolding settle_each settled
settle_each-Fills reads lp [] = Fills-refl lp
settle_each-Fills reads lp (p ∷ ps) = elim (Bool-cases (holds (lp.slot_expert p.slot) p.expert)) [
  | inr lost ↦ rw (lost, settle_each) (Fills-refl lp)
  | inl own ↦ elim (Bool-cases (lp.slot_valid p.slot || reads p.expert)) [
    | inr failed ↦ rw (own, failed, settle_each) (Fills-refl lp)
    | inl done ↦
        rw (own, done, settle_each)
          (Fills-trans (settled-Fills lp p.slot) (settle_each-Fills reads (settled lp p.slot) ps))
  ]
]

settle_each-Lands :
    (reads : ℕ → Bool) (lp : Pool) (ps : List Claim) (e s : ℕ)
    → (settle_each reads lp ps).1 ≡ true
    → lists ps e s ≡ true
    → (settle_each reads lp ps).0.slot_valid s ≡ true
unfolding settle_each settled
settle_each-Lands reads lp [] e s ok m = ground arith
settle_each-Lands reads lp (p ∷ ps) e s ok m =
    elim (Bool-cases (holds (lp.slot_expert p.slot) p.expert)) [
      | inr lost ↦ let never : false ≡ true = rw (lost, settle_each) at ok in ground arith
      | inl own ↦ elim (Bool-cases (lp.slot_valid p.slot || reads p.expert)) [
        | inr failed ↦
            let never : false ≡ true = rw (own, failed, settle_each) at ok in ground arith
        | inl done ↦
            let rest : (settle_each reads (settled lp p.slot) ps).1 ≡ true =
              rw (own, done, settle_each) at ok in
            elim (Bool-cases (lists ps e s)) [
              | inl later ↦
                  rw (own, done, settle_each)
                    (settle_each-Lands reads (settled lp p.slot) ps e s rest later)
              | inr here ↦
                  let eq : p.slot ≡ s = ground arith in
                  rw (own, done, settle_each)
                    ((settle_each-Fills reads (settled lp p.slot) ps).stays s (
                      subst (λ x. (settled lp p.slot).slot_valid x ≡ true) eq
                        (settled_valid lp p.slot)))
            ]
      ]
    ]

validate_all-Fills : (lp : Pool) (ps : List Claim) → Fills lp (validate_all lp ps)
unfolding validate_all
validate_all-Fills lp [] = Fills-refl lp
validate_all-Fills lp (p ∷ ps) =
    Fills-trans (validated-Fills lp p.slot p.expert)
      (validate_all-Fills (validated lp p.slot p.expert) ps)

validated_valid :
    (lp : Pool) (s e : ℕ) → lp.slot_expert s ≡ some e → (validated lp s e).slot_valid s ≡ true
unfolding validated
validated_valid lp s e held = ground arith

validate_all-Lands :
    (lp : Pool) (ps : List Claim) (e s : ℕ)
    → lp.slot_expert s ≡ some e
    → lists ps e s ≡ true
    → (validate_all lp ps).slot_valid s ≡ true
unfolding validate_all
validate_all-Lands lp [] e s held m = ground arith
validate_all-Lands lp (p ∷ ps) e s held m = elim (Bool-cases (lists ps e s)) [
  | inl later ↦
      validate_all-Lands (validated lp p.slot p.expert) ps e s
        (rw (validated-Fills lp p.slot p.expert).slot_expert held) later
  | inr here ↦
      let eq : p.slot ≡ s = ground arith in
      let eq' : p.expert ≡ e = ground arith in
      (validate_all-Fills (validated lp p.slot p.expert) ps).stays s
        (rw (eq, eq') (validated_valid lp s e held))
]

-- What has settled between `c` and `d`: where all went well, what was pending is valid.
record Settles (c d : Cache) (ok : Bool) : Type 0 where
  pub fills : (il : ℕ) → Fills (c.blk il) (d.blk il)
  pub inflight : d.inflight ≡ c.inflight
  pub inflight_layer : d.inflight_layer ≡ c.inflight_layer
  pub lands :
      ok ≡ true
      → (e s : ℕ) → lists c.pending e s ≡ true
      → (d.blk c.inflight_layer).slot_valid s ≡ true

no_claims-lists : (ps : List Claim) (e s : ℕ) → no_claims ps ≡ true → lists ps e s ≡ false
no_claims-lists [] e s h = refl
no_claims-lists (p ∷ ps) e s h = ground arith

settle_pending-Settles :
    (reads : ℕ → Bool) (rounds : List (List ℕ)) (c : Cache)
    → Settles c (settle_pending reads rounds c).0 (settle_pending reads rounds c).1
unfolding settle_pending
settle_pending-Settles reads rounds c = elim (Bool-cases (no_claims c.pending)) [
  | inl nothing ↦
      rw (nothing, settle_pending)
        record {
          fills = λ il. Fills-refl (c.blk il);
          inflight = refl;
          inflight_layer = refl;
          lands = λ ok e s m. let never = no_claims-lists c.pending e s nothing in ground arith;
        }
  | inr something ↦
      let d = (prefetch_settle_for c c.inflight_layer (experts_of c.pending) rounds).0 in
      let r = prefetch_settle_for-Reaps c c.inflight_layer (experts_of c.pending) rounds in
      let lp = d.blk c.inflight_layer in
      let f = settle_each-Fills reads lp c.pending in
      rw (something, settle_pending)
        record {
          fills = λ il.
              Fills-trans (r.fills il)
                (update-Fills d.blk c.inflight_layer (settle_each reads lp c.pending).0 f il);
          inflight = r.inflight;
          inflight_layer = r.inflight_layer;
          lands = λ ok e s m.
              subst (λ (x : Pool). x.slot_valid s ≡ true)
                (sym (update_self d.blk c.inflight_layer (settle_each reads lp c.pending).0))
                (settle_each-Lands reads lp c.pending e s ok m);
        }
]

-- The same of `fetch_end`, for the demand reads too.
pub record Ended (c d : Cache) (ok : Bool) : Type 0 where
  pub fills : (il : ℕ) → Fills (c.blk il) (d.blk il)
  pub inflight_layer : d.inflight_layer ≡ c.inflight_layer
  pub lands :
      ok ≡ true
      → (e s : ℕ) → (c.blk c.inflight_layer).slot_expert s ≡ some e
      → (lists c.inflight e s || lists c.pending e s) ≡ true
      → (d.blk d.inflight_layer).slot_valid s ≡ true

pub fetch_end-Ended :
    (reads : ℕ → Bool) (rounds : List (List ℕ)) (drained : Bool) (c : Cache)
    → Ended c (fetch_end reads rounds drained c).0 (fetch_end reads rounds drained c).1
unfolding fetch_end
fetch_end-Ended reads rounds drained c =
    let (d, ok) = settle_pending reads rounds c in
    let st = settle_pending-Settles reads rounds c in
    elim (Bool-cases (not ok || no_claims d.inflight)) [
      | inl early ↦
          rw (early, fetch_end)
            record {
              fills = st.fills;
              inflight_layer = st.inflight_layer;
              lands = λ good e s held m.
                  let nothing : no_claims d.inflight ≡ true = ground arith in
                  let nothing' : no_claims c.inflight ≡ true = rw (← st.inflight) nothing in
                  let none_left = no_claims-lists c.inflight e s nothing' in
                  rw st.inflight_layer (st.lands good e s (ground arith));
            }
      | inr go ↦ elim (Bool-cases drained) [
        | inr short ↦
            rw (go, short, fetch_end)
              record {
                fills = st.fills;
                inflight_layer = st.inflight_layer;
                lands = λ never e s held m. ground arith;
              }
        | inl all ↦
            let lp = d.blk d.inflight_layer in
            let v = validate_all-Fills lp d.inflight in
            rw (go, all, fetch_end)
              record {
                fills = λ il.
                    Fills-trans (st.fills il)
                      (update-Fills d.blk d.inflight_layer (validate_all lp d.inflight) v il);
                inflight_layer = st.inflight_layer;
                lands = λ good e s held m.
                    subst (λ (x : Pool). x.slot_valid s ≡ true)
                      (sym (update_self d.blk d.inflight_layer (validate_all lp d.inflight)))
                      (elim (Bool-cases (lists c.inflight e s)) [
                        | inl demanded ↦
                            validate_all-Lands lp d.inflight e s
                              (rw (st.inflight_layer, (st.fills c.inflight_layer).slot_expert) held)
                              (rw st.inflight demanded)
                        | inr other ↦
                            v.stays s
                              (rw st.inflight_layer (st.lands (ground arith) e s (ground arith)))
                      ]);
              }
      ]
    ]
