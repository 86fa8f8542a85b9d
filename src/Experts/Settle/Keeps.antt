-- ===== src/Experts/Settle/Keeps.antt =====
-- Every settling keeps the two maps of each tier in agreement, and leaves no promotion pending.
use qw_fnfer_xpu.Base.{
  ℕ, suc, ◌≡◌, refl, sym, subst, inl, inr, Bool, true, false, not, ◌&&◌, List, [], ◌∷◌, ◌==◌,
  if◌then◌else◌, update, Bool-cases, arith,
}
use qw_fnfer_xpu.Experts.Cache.{Config, Pool, Cache, PendingSwap}
use qw_fnfer_xpu.Experts.Kept.{Consistent}
use qw_fnfer_xpu.Experts.Settle.{
  is_nil, swap_pool, finish_swap, finish_swaps, finish_all, land_swaps, settle_promotions,
  settle_promotions_layer,
}
use qw_fnfer_xpu.Experts.Settle.Lands.{swap_pool-Consistent}

-- Every layer's tiers are consistent.
unfoldable pub AllConsistent : Cache → Type 0
AllConsistent c = (il : ℕ) → Consistent (c.blk il)

pub AllConsistent-at : (c : Cache) (il : ℕ) → AllConsistent c → Consistent (c.blk il)
unfolding AllConsistent
AllConsistent-at c il all = all il

-- One layer's pool gives way to another.
pub update-AllConsistent :
    (c d : Cache) (i : ℕ) (lp : Pool)
    → d.blk ≡ update c.blk i lp
    → Consistent lp
    → AllConsistent c
    → AllConsistent d
unfolding AllConsistent
update-AllConsistent c d i lp same ok all il = elim (Bool-cases (i == il)) [
  | inl here ↦ rw (same, here) ok
  | inr other ↦ rw (same, other) (all il)
]

finish_swap-AllConsistent :
    (c : Cache) (sw : PendingSwap) → AllConsistent c → AllConsistent (finish_swap c sw).0
unfolding finish_swap
finish_swap-AllConsistent c sw all =
    update-AllConsistent c (finish_swap c sw).0 sw.layer
      (swap_pool (c.blk sw.layer) sw (suc c.tick)) refl
      (swap_pool-Consistent (c.blk sw.layer) sw (suc c.tick) (AllConsistent-at c sw.layer all)) all

finish_swaps-AllConsistent :
    (c : Cache) (sws : List PendingSwap) → AllConsistent c → AllConsistent (finish_swaps c sws).0
unfolding finish_swaps
finish_swaps-AllConsistent c [] all = all
finish_swaps-AllConsistent c (sw ∷ sws) all =
    finish_swaps-AllConsistent (finish_swap c sw).0 sws (finish_swap-AllConsistent c sw all)

finish_swaps-release :
    (c : Cache) (sws : List PendingSwap)
    → (finish_swaps c sws).0.pending_release ≡ c.pending_release
unfolding finish_swaps finish_swap
finish_swaps-release c [] = refl
finish_swaps-release c (sw ∷ sws) = finish_swaps-release (finish_swap c sw).0 sws

finish_all-AllConsistent :
    (k : Config) (c : Cache) → AllConsistent c → AllConsistent (finish_all k c)
unfolding finish_all AllConsistent
finish_all-AllConsistent k c all = finish_swaps-AllConsistent c c.pending_swaps all

-- After a settling.
pub record Settled (k : Config) (d : Cache) (staged : Bool) : Type 0 where
  pub all : AllConsistent d
  pub no_release : d.pending_release ≡ []
  pub no_swaps : d.pending_swaps ≡ []
  pub no_landing : staged ≡ false → d.landing ≡ []

is_nil-nil {ℓ} : {A : Type ℓ} (xs : List A) → is_nil xs ≡ true → xs ≡ []
is_nil-nil [] h = refl
is_nil-nil (x ∷ xs) h = ground arith

-- Settling keeps the maps of every layer in agreement, and afterwards no release, no swap and no
-- landing is pending.
pub settle_promotions-Settled :
    (k : Config) (c : Cache) → AllConsistent c → Settled k (settle_promotions k c) false
unfolding settle_promotions land_swaps finish_all AllConsistent
settle_promotions-Settled k c all =
    elim (Bool-cases (is_nil c.pending_release && (is_nil c.pending_swaps && is_nil c.landing))) [
      | inl idle ↦
          rw (idle, settle_promotions)
            record {
              all = all;
              no_release = is_nil-nil c.pending_release (ground arith);
              no_swaps = is_nil-nil c.pending_swaps (ground arith);
              no_landing = λ s. is_nil-nil c.landing (ground arith);
            }
      | inr busy ↦
          rw (busy, settle_promotions)
            record {
              all = finish_all-AllConsistent k c all;
              no_release = refl;
              no_swaps = refl;
              no_landing = λ s. refl;
            }
    ]

pub settle_promotions_layer-Settled :
    (k : Config) (c : Cache) → AllConsistent c → Settled k (settle_promotions_layer k c) k.d2d
unfolding settle_promotions_layer finish_all land_swaps AllConsistent
settle_promotions_layer-Settled k c all =
    let staged =
      if is_nil c.pending_release && (is_nil c.pending_swaps && is_nil c.landing)
      then c
      else finish_all k (land_swaps (record c { pending_release = [] })) in
    elim (Bool-cases k.d2d) [
      | inr plain ↦
          let s = settle_promotions-Settled k c all in
          subst (λ b. Settled k (if not b then settle_promotions k c else staged) b) (sym plain) s
      | inl ring ↦
          elim (Bool-cases
            (is_nil c.pending_release && (is_nil c.pending_swaps && is_nil c.landing))) [
              | inl idle ↦
                  rw (ring, idle, settle_promotions_layer)
                    record {
                      all = all;
                      no_release = is_nil-nil c.pending_release (ground arith);
                      no_swaps = is_nil-nil c.pending_swaps (ground arith);
                      no_landing = λ s. is_nil-nil c.landing (ground arith);
                    }
              | inr busy ↦
                  rw (ring, busy, settle_promotions_layer)
                    record {
                      all =
                          finish_all-AllConsistent k
                            (land_swaps (record c { pending_release = [] })) all;
                      no_release =
                          finish_swaps-release (land_swaps (record c { pending_release = [] }))
                            c.pending_swaps;
                      no_swaps = refl;
                      no_landing = λ never. ground arith;
                    }
            ]
    ]
