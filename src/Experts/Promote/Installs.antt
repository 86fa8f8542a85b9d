-- ===== src/Experts/Promote/Installs.antt =====
-- `promote` as a whole: the tiers stay consistent, and what the fetch has handed out stays.
use qw_fnfer_xpu.Base.{
  ℕ, ◌<◌, ◌≤◌, ◌≡◌, ◌≢◌, refl, ◌∙◌, ◌⊎◌, inl, inr, Bool, true, false, not, ◌&&◌, ◌||◌, Option, none,
  some, [], if◌then◌else◌, update, update_self, update_ne, Bool-cases, arith,
}
use qw_fnfer_xpu.Experts.Cache.{Config, Pool, Cache}
use qw_fnfer_xpu.Experts.Names.{without-Kept, Named-mark, Named-claim}
use qw_fnfer_xpu.Experts.Victim.{vram_open}
use qw_fnfer_xpu.Experts.Promote.{
  try_slots, no_pick, gpu_victim, mark, destination, stage, swap_out, displace, upload, install,
  promote, from_cold,
}
use qw_fnfer_xpu.Experts.Promote.Keeps.{
  Replaceable, gpu_victim-Replaceable, destination-Frame, destination-Free, stage-Frame,
}
use qw_fnfer_xpu.Experts.Kept.{
  Consistent, Good, Kept, Kept-refl, Kept-trans, framed, Frame-trans, Good-Frame, Kept-Frame, Free,
  Free-ne, Free-Frame,
}

-- A slot that is not handed out may be marked.
mark-Consistent : (lp : Pool) (x to : Option ℕ) → Consistent lp → Consistent (mark lp x to)
unfolding mark
mark-Consistent lp x none ok = ok
mark-Consistent lp x (some t) ok = record {
  ram = Named-mark lp.expert_slot lp.slot_expert x t ok.ram;
  vram = ok.vram;
  valid = ok.valid;
  has_slot = ok.has_slot;
}

-- What stands beside the pool is the same.
record Beside (c d : Cache) : Type 0 where
  pub blk : d.blk ≡ c.blk
  pub layer : d.layer ≡ c.layer
  pub pending : d.pending ≡ c.pending
  pub misses : d.misses ≡ c.misses

mark-Kept :
    (c d : Cache) (x to : Option ℕ)
    → ((t : ℕ) → to ≡ some t → Free c t)
    → d.lp ≡ mark c.lp x to
    → d.live ≡ c.live
    → d.fetch_epoch ≡ c.fetch_epoch
    → Beside c d
    → Kept [] c d
unfolding mark
mark-Kept c d x none free same live epoch be = record {
  ram = λ s e m h. rw same h;
  fill = λ s e m h n. (rw same refl, rw same refl);
  live = λ s m. rw live m;
  gpu = λ g e u h. (rw same h, rw same u);
  epoch = epoch;
  others = λ il ok. rw be.blk ok;
  layer = be.layer;
  waits = λ e s m. rw (be.misses, be.pending) m;
}
mark-Kept c d x (some t) free same live epoch be = record {
  ram =
      λ s e m h. rw (same, update_ne c.lp.slot_expert t s x (Free-ne c t s e (free t refl) m h)) h;
  fill = λ s e m h n.
      let apart = Free-ne c t s e (free t refl) m h in
      (
        rw (same, update_ne c.lp.slot_valid t s false apart) refl,
        rw (same, update_ne c.lp.slot_cold t s false apart) refl,
      );
  live = λ s m. rw live m;
  gpu = λ g e u h. (rw same h, rw same u);
  epoch = epoch;
  others = λ il ok. rw be.blk ok;
  layer = be.layer;
  waits = λ e s m. rw (be.misses, be.pending) m;
}

mark-tier :
    (lp : Pool) (x to : Option ℕ)
    → ((mark lp x to).g_slot_expert ≡ lp.g_slot_expert)
      × (((mark lp x to).g_used ≡ lp.g_used) × ((mark lp x to).g_expert_slot ≡ lp.g_expert_slot))
unfolding mark
mark-tier lp x none = (refl, (refl, refl))
mark-tier lp x (some t) = (refl, (refl, refl))

-- The tiers of `d` are consistent again, if those of `c` were, and nothing handed out has changed.
pub record Goes (c d : Cache) : Type 0 where
  pub good : Good d
  pub kept : Kept [] c d
  pub live : d.live ≡ c.live
  pub tier : (d.lp.g_slot_expert ≡ c.lp.g_slot_expert) × (d.lp.g_used ≡ c.lp.g_used)
  pub index : d.lp.g_expert_slot ≡ c.lp.g_expert_slot

swap_out-Goes : (k : Config) (c : Cache) (e rs g : ℕ) → Good c → Goes c (swap_out k c e rs g)
unfolding swap_out
swap_out-Goes k c e rs g ok =
    let fr = destination-Frame k c rs g in
    let to = (destination k c rs g).1 in
    let fr' = stage-Frame k (destination k c rs g).0 to in
    let all = Frame-trans fr fr' in
    let good = Good-Frame all ok in
    let x = c.lp.g_slot_expert g in
    let (d, ring) = stage k (destination k c rs g).0 to in
    record {
      good = record { pool = mark-Consistent d.lp x to good.pool; current = good.current };
      kept = Kept-trans (Kept-Frame all []) (
          mark-Kept d (swap_out k c e rs g) x to
            (λ t h. Free-Frame t all (destination-Free k c rs g t ok.pool.has_slot h)) refl refl
            refl (record { blk = refl; layer = refl; pending = refl; misses = refl }));
      live = all.live;
      tier = ((mark-tier d.lp x to).0 ∙ all.g_slot_expert, (mark-tier d.lp x to).1.0 ∙ all.g_used);
      index = (mark-tier d.lp x to).1.1 ∙ all.g_expert_slot;
    }

swapped : Config → Cache → ℕ → ℕ → ℕ → Cache
swapped k c e rs g = if k.exclusive && k.can_async then swap_out k c e rs g else c

swapped-Goes : (k : Config) (c : Cache) (e rs g : ℕ) → Good c → Goes c (swapped k c e rs g)
unfolding swapped
swapped-Goes k c e rs g ok = elim (Bool-cases (k.exclusive && k.can_async)) [
  | inl b ↦ rw (b, swapped) (swap_out-Goes k c e rs g ok)
  | inr b ↦
      rw (b, swapped)
        record { good = ok; kept = Kept-refl [] c; live = refl; tier = (refl, refl); index = refl }
]

displace-Good : (k : Config) (c : Cache) (g : ℕ) → Good c → Good (displace k c g)
unfolding displace
displace-Good k c g ok = record {
  pool = record {
    ram = ok.pool.ram;
    vram =
        λ e s h. ok.pool.vram e s (without-Kept c.lp.g_expert_slot (c.lp.g_slot_expert g) e s h).0;
    valid = ok.pool.valid;
    has_slot = ok.pool.has_slot;
  };
  current = ok.current;
}

displace-Kept : (k : Config) (c : Cache) (g : ℕ) → Kept [] c (displace k c g)
unfolding displace
displace-Kept k c g = record {
  ram = λ s e m h. h;
  fill = λ s e m h n. (refl, refl);
  live = λ s m. m;
  gpu = λ g e u h. (h, u);
  epoch = refl;
  others = λ il ok. ok;
  layer = refl;
  waits = λ e s m. m;
}

upload-Kept :
    (c : Cache) (e g : ℕ) → c.fetch_epoch ≤ c.tick → Replaceable c g → Kept [] c (upload c e g)
unfolding upload Replaceable
upload-Kept c e g current rep = record {
  ram = λ s e m h. h;
  fill = λ s e m h n. (refl, refl);
  live = λ s m. m;
  gpu = λ g' e' u h.
      let apart : g ≢ g' = λ same. untouched rep g' e' u h same in
      (
        update_ne c.lp.g_slot_expert g g' (some e) apart ∙ h,
        rw (update_ne c.lp.g_used g g' c.tick apart) u,
      );
  epoch = refl;
  others = λ il ok. ok;
  layer = refl;
  waits = λ e s m. m;
}
  where
    untouched :
        (c.lp.g_slot_expert g ≡ none) ⊎ (c.lp.g_used g < c.fetch_epoch)
        → (g' e' : ℕ) → c.fetch_epoch ≤ c.lp.g_used g'
        → c.lp.g_slot_expert g' ≡ some e'
        → g ≢ g'
    untouched (inl empty) g' e' u h same = ground arith
    untouched (inr old) g' e' u h same = ground arith

-- The expert `e` is in the VRAM tier, in a slot used in this fetch.
pub record Landed (c : Cache) (e : ℕ) : Type 0 where
  pub slot : ℕ
  pub named : c.lp.g_expert_slot e ≡ some slot
  pub held : c.lp.g_slot_expert slot ≡ some e
  pub fresh : c.fetch_epoch ≤ c.lp.g_used slot

-- What `promote` comes to.
pub record Promotes (c d : Cache) (e : ℕ) (ok : Bool) : Type 0 where
  pub good : Good d
  pub kept : Kept [] c d
  pub live : d.live ≡ c.live
  pub landed : ok ≡ true → Landed d e

install-Promotes :
    (k : Config) (c : Cache) (e rs : ℕ) (v : Option ℕ)
    → Good c
    → ((g : ℕ) → v ≡ some g → Replaceable c g)
    → Promotes c (install k c e rs v).0 e (install k c e rs v).1
unfolding install swapped Replaceable displace upload
install-Promotes k c e rs none ok rep = record {
  good = ok;
  kept = Kept-refl [] c;
  live = refl;
  landed = λ never. ground arith;
}
install-Promotes k c e rs (some g) ok rep =
    let c1 = displace k c g in
    let d = swapped k c1 e rs g in
    let goes = swapped-Goes k c1 e rs g (displace-Good k c g ok) in
    let there = replace d goes.tier.0 goes.tier.1 goes.kept.epoch (rep g refl) in
    let current : d.fetch_epoch ≤ d.tick = goes.good.current in
    record {
      good = record {
        pool = record {
          ram = goes.good.pool.ram;
          vram =
              rw (goes.index, goes.tier.0)
                (Named-claim c.lp.g_expert_slot c.lp.g_slot_expert e g ok.pool.vram);
          valid = λ g' e' h. filled d goes.good.pool.valid g' e' h;
          has_slot = goes.good.pool.has_slot;
        };
        current = current;
      };
      kept =
          Kept-trans (displace-Kept k c g) (Kept-trans goes.kept (upload-Kept d e g current there));
      live = goes.live;
      landed = λ done. record {
        slot = g;
        named = update_self d.lp.g_expert_slot e (some g);
        held = update_self d.lp.g_slot_expert g (some e);
        fresh = rw (update_self d.lp.g_used g d.tick) current;
      };
    }
  where
    replace :
        (d : Cache)
        → d.lp.g_slot_expert ≡ c.lp.g_slot_expert
        → d.lp.g_used ≡ c.lp.g_used
        → d.fetch_epoch ≡ c.fetch_epoch
        → (c.lp.g_slot_expert g ≡ none) ⊎ (c.lp.g_used g < c.fetch_epoch)
        → Replaceable d g
    replace d a b f (inl empty) = inl (rw a empty)
    replace d a b f (inr old) = inr (rw (b, f) old)

    filled :
        (d : Cache)
        → ((g' e' : ℕ) → d.lp.g_slot_expert g' ≡ some e' → d.lp.g_valid g' ≡ true)
        → (g' e' : ℕ) → update d.lp.g_slot_expert g (some e) g' ≡ some e'
        → update d.lp.g_valid g true g' ≡ true
    filled d valid g' e' h = ground (arith, valid g' e')

-- Where the maps of the tiers agree and the fetch's epoch is not past the clock, `promote` keeps it
-- so, and every slot that the fetch in progress has handed out, in either tier, keeps its expert, whether it is
-- valid and which checkpoint its bytes are from. Where it answers true, the expert is in the VRAM
-- tier, indexed, in a slot of its own that counts as used in this fetch.
pub promote-Promotes :
    (k : Config) (c : Cache) (e : ℕ) (rs : Option ℕ)
    → Good c
    → Promotes c (promote k c e rs).0 e (promote k c e rs).1
unfolding promote Replaceable
promote-Promotes k c e none ok = record {
  good = ok;
  kept = Kept-refl [] c;
  live = refl;
  landed = λ never. ground arith;
}
promote-Promotes k c e (some rs) ok =
    elim (Bool-cases (not (vram_open k c.lp) || from_cold c.lp e)) [
      | inl b ↦
          rw (b, promote)
            record { good = ok; kept = Kept-refl [] c; live = refl; landed = λ never. ground arith }
      | inr b ↦ rw (b, promote) again
    ]
  where
    c1 : Cache
    c1 = record c { promote_rng = (try_slots k c 16 c.promote_rng no_pick).0 }

    again :
        Promotes c
          (install k c1 e rs (gpu_victim k c e)).0
          e
          (install k c1 e rs (gpu_victim k c e)).1
    again =
        let p =
          install-Promotes k c1 e rs (gpu_victim k c e)
            (record { pool = ok.pool; current = ok.current })
            (λ g h. gpu_victim-Replaceable k c e g h) in
        record {
          good = p.good;
          kept = Kept-trans (Kept-Frame (framed refl (omega arith)) []) p.kept;
          live = p.live;
          landed = p.landed;
        }
