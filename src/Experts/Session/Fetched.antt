-- ===== src/Experts/Session/Fetched.antt =====
-- What `fetch_begin` leaves to `fetch_end`.
use qw_fnfer_xpu.Base.{
  ℕ, suc, ◌≡◌, refl, ◌∙◌, inl, inr, Bool, true, false, not, ◌||◌, Option, some, List, [], ◌∷◌, ltb,
  ◌==◌, if◌then◌else◌, update_self, Bool-cases, Option-cases, arith,
}
use qw_fnfer_xpu.Experts.Cache.{Config, Cache, holds, enter, leave}
use qw_fnfer_xpu.Experts.Kept.{Consistent, Good}
use qw_fnfer_xpu.Experts.Settle.Keeps.{AllConsistent}
use qw_fnfer_xpu.Experts.Settle.{land_swaps, land_layer, lands_on}
use qw_fnfer_xpu.Experts.Fetch.{
  Handle, vram_slot, touch_gpu, touch_all, list_live, begin, serve_all,
}
use qw_fnfer_xpu.Experts.Fetch.Handlers.{touch_gpu-Good}
use qw_fnfer_xpu.Experts.Fetch.Right.{Right}
use qw_fnfer_xpu.Experts.Fetch.Serves.{Distinct, AllRight, serve_all-ServesAll}
use qw_fnfer_xpu.Experts.Session.{no_claims, submit, fetch_begin}

-- The layer's pool is worked on, and the others are as they were.
pub record Within (c d : Cache) : Type 0 where
  pub good : Good d
  pub blk : d.blk ≡ c.blk
  pub layer : d.layer ≡ c.layer

touch_all-Within :
    (k : Config) (c d : Cache) (es : List ℕ) → Within c d → Within c (touch_all k d es)
unfolding touch_all touch_gpu
touch_all-Within k c d [] w = w
touch_all-Within k c d (e ∷ es) w = elim (Option-cases (vram_slot k d.lp e)) [
  | inl absent ↦ rw (absent, touch_all) (touch_all-Within k c d es w)
  | inr (g, at) ↦
      rw (at, touch_all)
        (touch_all-Within k c (touch_gpu d g) es
          (record { good = touch_gpu-Good d g w.good; blk = w.blk; layer = w.layer }))
]

lived :
    (c d : Cache) (s : ℕ) (b : Bool)
    → Within c d
    → Within c (if b then record d { live = s ∷ d.live } else d)
lived c d s true w = record {
  good = record { pool = let p = w.good in p.pool; current = let p = w.good in p.current };
  blk = w.blk;
  layer = w.layer;
}
lived c d s false w = w

list_live-Within : (c d : Cache) (es : List ℕ) → Within c d → Within c (list_live d es)
unfolding list_live
list_live-Within c d [] w = w
list_live-Within c d (e ∷ es) w = elim (Option-cases (d.lp.expert_slot e)) [
  | inl absent ↦ rw (absent, list_live) (list_live-Within c d es w)
  | inr (s, at) ↦
      rw (at, list_live)
        (list_live-Within c
          (if holds (d.lp.slot_expert s) e then record d { live = s ∷ d.live } else d) es
          (lived c d s (holds (d.lp.slot_expert s) e) w))
]

begin-Within : (k : Config) (c : Cache) (es : List ℕ) → Consistent c.lp → Within c (begin k c es)
unfolding begin
begin-Within k c es ok =
    let start = record c {
      tick = suc c.tick;
      fetch_epoch = suc c.tick;
      fetch_count = suc c.fetch_count;
      live = [];
      pending = [];
      promoted = 0;
      misses = [];
    } in
    list_live-Within c (touch_all k start es) es (
      touch_all-Within k c start es
        (record { good = record { pool = ok; current = omega arith }; blk = refl; layer = refl }))

pub land_layer-blk : (c : Cache) (il : ℕ) → (land_layer c il).blk ≡ c.blk
unfolding land_layer land_swaps
land_layer-blk c il = elim (Bool-cases (lands_on c.landing il)) [
  | inl b ↦ rw (b, land_layer) refl
  | inr b ↦ rw (b, land_layer) refl
]

pub AllConsistent-same : (c d : Cache) → d.blk ≡ c.blk → AllConsistent c → AllConsistent d
unfolding AllConsistent
AllConsistent-same c d same all il = rw same (all il)

-- A layer is taken up and put back.
pub leave-AllConsistent : (c : Cache) → Consistent c.lp → AllConsistent c → AllConsistent (leave c)
unfolding leave AllConsistent
leave-AllConsistent c ok all il = elim (Bool-cases (c.layer == il)) [
  | inl same ↦ rw same ok
  | inr other ↦ rw other (all il)
]

pub enter-AllConsistent :
    (c : Cache) (il : ℕ)
    → AllConsistent c
    → AllConsistent (enter il (land_layer c il)) × Consistent (enter il (land_layer c il)).lp
unfolding enter AllConsistent
enter-AllConsistent c il all = (rw (land_layer-blk c il) all, rw (land_layer-blk c il) (all il))

AllRight-map :
    (c d : Cache)
    → ((e : ℕ) (h : Handle) → Right c e h → Right d e h)
    → (es : List ℕ) (hs : List Handle) → AllRight c es hs
    → AllRight d es hs
AllRight-map c d f [] [] a = tt
AllRight-map c d f [] (h ∷ hs) a = a
AllRight-map c d f (e ∷ es) [] a = a
AllRight-map c d f (e ∷ es) (h ∷ hs) a = (f e h a.0, AllRight-map c d f es hs a.1)

-- The cache after `fetch_begin`: consistent, with the handles right and what is still to be read listed.
pub record Begun (d : Cache) (es : List ℕ) (o : Option (List Handle)) : Type 0 where
  pub all : AllConsistent d
  pub right : (hs : List Handle) → o ≡ some hs → Distinct es → AllRight d es hs
  pub here : (hs : List Handle) → o ≡ some hs → d.blk d.inflight_layer ≡ d.lp
  pub listed : (hs : List Handle) → o ≡ some hs → d.inflight ≡ d.misses

pub fetch_begin-Begun :
    (k : Config) (ranges : Bool → ℕ → ℕ → Bool) (submitted : Bool) (c : Cache) (il : ℕ)
    (es : List ℕ)
    → AllConsistent c
    → Begun (fetch_begin k ranges submitted c il es).0 es (fetch_begin k ranges submitted c il es).1
unfolding fetch_begin submit leave AllConsistent
fetch_begin-Begun k ranges submitted c il es all = elim (Bool-cases (not (ltb il c.n_blk))) [
  | inl out ↦
      rw (out, fetch_begin)
        record {
          all = all;
          right = λ hs never. ground arith;
          here = λ hs never. ground arith;
          listed = λ hs never. ground arith;
        }
  | inr within ↦
      let c1 = enter il (land_layer c il) in
      let (all1, ok1) = enter-AllConsistent c il all in
      let w = begin-Within k c1 es ok1 in
      let sv = serve_all-ServesAll k ranges (begin k c1 es) es w.good in
      let (d, o) = serve_all k ranges (begin k c1 es) es in
      let all2 : AllConsistent (begin k c1 es) = AllConsistent-same c1 (begin k c1 es) w.blk all1 in
      let all3 : AllConsistent d = λ i. sv.kept.others i (all2 i) in
      let all4 = leave-AllConsistent d sv.good.pool all3 in
      elim (Option-cases o) [
        | inl failed ↦
            rw (within, failed, fetch_begin)
              record {
                all = all4;
                right = λ hs never. ground arith;
                here = λ hs never. ground arith;
                listed = λ hs never. ground arith;
              }
        | inr (hs', got) ↦ elim (Bool-cases (no_claims d.misses || submitted)) [
          | inr refused ↦
              rw (within, got, refused, fetch_begin, submit)
                record {
                  all = all4;
                  right = λ hs never. ground arith;
                  here = λ hs never. ground arith;
                  listed = λ hs never. ground arith;
                }
          | inl accepted ↦
              rw (within, got, accepted, fetch_begin, submit)
                record {
                  all = all4;
                  right = λ hs same di.
                      AllRight-map d _
                        (λ e h r. record {
                          vram = r.vram;
                          ram = r.ram;
                          cold = r.cold;
                          full = r.full;
                          waits = r.waits;
                        })
                        es hs (sv.right hs (got ∙ same) di);
                  here = λ hs same. update_self d.blk d.layer d.lp;
                  listed = λ hs same. refl;
                }
        ]
      ]
]
