-- ===== src/Experts/Session/Serves.antt =====
-- A whole fetch, as the engine relies on it.
use qw_fnfer_xpu.Base.{
  ℕ, ◌≡◌, refl, ◌∙◌, subst, inl, inr, Bool, true, false, Option, some, List, [], ◌∷◌, Bool-cases,
  Option-cases, arith,
}
use qw_fnfer_xpu.Experts.Cache.{Config, Pool, Cache}
use qw_fnfer_xpu.Experts.Kept.{Consistent}
use qw_fnfer_xpu.Experts.Fetch.{Handle}
use qw_fnfer_xpu.Experts.Fetch.Right.{Right}
use qw_fnfer_xpu.Experts.Fetch.Serves.{Distinct, AllRight}
use qw_fnfer_xpu.Experts.Speculative.Fills.{Consistent-Fills}
use qw_fnfer_xpu.Experts.Settle.Keeps.{AllConsistent}
use qw_fnfer_xpu.Experts.Session.{fetch_begin, fetch_end, fetch}
use qw_fnfer_xpu.Experts.Session.Fetched.{fetch_begin-Begun}
use qw_fnfer_xpu.Experts.Session.Ends.{Ended, fetch_end-Ended}

-- The slot of the handle holds the expert's block, and the block is there.
pub record Held (lp : Pool) (e : ℕ) (h : Handle) : Type 0 where
  pub vram : h.on_gpu ≡ true → (lp.g_slot_expert h.slot ≡ some e) × (lp.g_valid h.slot ≡ true)
  pub ram : h.on_gpu ≡ false → (lp.slot_expert h.slot ≡ some e) × (lp.slot_valid h.slot ≡ true)

-- There are as many handles as experts, and each is held.
abbrev pub AllHeld : Pool → List ℕ → List Handle → Type 0
AllHeld lp [] [] = Unit
AllHeld lp [] (h ∷ hs) = ⊥
AllHeld lp (e ∷ es) [] = ⊥
AllHeld lp (e ∷ es) (h ∷ hs) = Held lp e h × AllHeld lp es hs

-- A right handle is held once its reads have ended.
Right-Held :
    (c d : Cache) (e : ℕ) (h : Handle)
    → Consistent (d.blk d.inflight_layer)
    → Ended c d true
    → c.blk c.inflight_layer ≡ c.lp
    → c.inflight ≡ c.misses
    → Right c e h
    → Held (d.blk d.inflight_layer) e h
Right-Held c d e h ok en here listed r =
    let f = en.fills c.inflight_layer in
    record {
      vram = λ on.
          let held : (c.blk c.inflight_layer).g_slot_expert h.slot ≡ some e =
            rw here (r.vram on).0 in
          let held' : (d.blk d.inflight_layer).g_slot_expert h.slot ≡ some e =
            rw (en.inflight_layer, f.g_slot_expert) held in
          (held', ok.valid h.slot e held');
      ram = λ off.
          let held : (c.blk c.inflight_layer).slot_expert h.slot ≡ some e = rw here (r.ram off).0 in
          let held' : (d.blk d.inflight_layer).slot_expert h.slot ≡ some e =
            rw (en.inflight_layer, f.slot_expert) held in
          (
            held',
            elim (Bool-cases h.is_ready) [
              | inl now ↦ rw en.inflight_layer (f.stays h.slot (rw here (r.full off now)))
              | inr later ↦ en.lands refl e h.slot held (rw listed (r.waits off later))
            ],
          );
    }

AllRight-AllHeld :
    (c d : Cache)
    → Consistent (d.blk d.inflight_layer)
    → Ended c d true
    → c.blk c.inflight_layer ≡ c.lp
    → c.inflight ≡ c.misses
    → (es : List ℕ) (hs : List Handle) → AllRight c es hs
    → AllHeld (d.blk d.inflight_layer) es hs
AllRight-AllHeld c d ok en here listed [] [] a = tt
AllRight-AllHeld c d ok en here listed [] (h ∷ hs) a = a
AllRight-AllHeld c d ok en here listed (e ∷ es) [] a = a
AllRight-AllHeld c d ok en here listed (e ∷ es) (h ∷ hs) a =
    (Right-Held c d e h ok en here listed a.0, AllRight-AllHeld c d ok en here listed es hs a.1)

-- The cache after a fetch.
pub record Fetched (d : Cache) (es : List ℕ) (o : Option (List Handle)) : Type 0 where
  pub all : AllConsistent d
  pub held : (hs : List Handle) → o ≡ some hs → Distinct es → AllHeld (d.blk d.inflight_layer) es hs

pub fetch_end-AllConsistent :
    (c d : Cache) (ok : Bool) → Ended c d ok → AllConsistent c → AllConsistent d
unfolding AllConsistent
fetch_end-AllConsistent c d ok en all il = Consistent-Fills (en.fills il) (all il)

-- Where the two maps of each tier agree in every layer, they agree again after a fetch, whether it
-- succeeds or fails. Where a fetch of different experts succeeds, it returns a handle for each, in
-- their order, and each handle's slot holds the expert's block and is valid: no block that another
-- expert of the token needed was evicted for it, whichever of the hits, the promotions, the swaps, the
-- upgrades, the demand reads and the speculative reads served it, and in whatever rounds the reads
-- came back.
pub fetch-Fetched :
    (k : Config) (ranges : Bool → ℕ → ℕ → Bool) (submitted : Bool) (reads : ℕ → Bool)
    (rounds : List (List ℕ)) (drained : Bool) (c : Cache) (il : ℕ) (es : List ℕ)
    → AllConsistent c
    → Fetched
        (fetch k ranges submitted reads rounds drained c il es).0
        es
        (fetch k ranges submitted reads rounds drained c il es).1
unfolding fetch AllConsistent
fetch-Fetched k ranges submitted reads rounds drained c il es all =
    let (d, o) = fetch_begin k ranges submitted c il es in
    let b = fetch_begin-Begun k ranges submitted c il es all in
    let (d', ok) = fetch_end reads rounds drained d in
    let en = fetch_end-Ended reads rounds drained d in
    let all' = fetch_end-AllConsistent d d' ok en b.all in
    elim (Option-cases o) [
      | inl failed ↦ rw (failed, fetch) record { all = b.all; held = λ hs never di. ground arith }
      | inr (hs', got) ↦ elim (Bool-cases ok) [
        | inr short ↦
            rw (got, short, fetch) record { all = all'; held = λ hs never di. ground arith }
        | inl fine ↦
            rw (got, fine, fetch)
              record {
                all = all';
                held = λ hs same di.
                    AllRight-AllHeld d d' (all' d'.inflight_layer)
                      (subst (λ x. Ended d d' x) fine en) (b.here hs' got) (b.listed hs' got) es hs
                      (b.right hs (got ∙ same) di);
              }
      ]
    ]
