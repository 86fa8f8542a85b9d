-- ===== src/Experts/Fetch/Right.antt =====
-- What a handle promises, and how that lasts while the other experts of the token are served.
use qw_fnfer_xpu.Base.{
  ℕ, ◌≤◌, ◌≡◌, refl, ◌∙◌, subst, true, false, Option, none, some, List, [], ◌∷◌, arith,
}
use mathlib.Core.Option.{some-injective}
use qw_fnfer_xpu.Experts.Cache.{Cache, elem, asked}
use qw_fnfer_xpu.Experts.Kept.{Good, Kept, Kept-trans, Frame, Kept-Frame}
use qw_fnfer_xpu.Experts.Fetch.{Handle}

-- The slot of the handle holds the expert. In the VRAM tier it was used in this fetch; in the RAM tier
-- it is live, its bytes are of the checkpoint that the handle says, and are there if it is ready.
pub record Right (c : Cache) (e : ℕ) (h : Handle) : Type 0 where
  pub vram :
      h.on_gpu ≡ true → (c.lp.g_slot_expert h.slot ≡ some e) × (c.fetch_epoch ≤ c.lp.g_used h.slot)
  pub ram : h.on_gpu ≡ false → (c.lp.slot_expert h.slot ≡ some e) × (elem h.slot c.live ≡ true)
  pub cold : h.on_gpu ≡ false → c.lp.slot_cold h.slot ≡ h.cold
  pub full : h.on_gpu ≡ false → h.is_ready ≡ true → c.lp.slot_valid h.slot ≡ true
  pub waits : h.on_gpu ≡ false → h.is_ready ≡ false → asked c e h.slot ≡ true

pub Right-Kept :
    {js : List ℕ} {c d : Cache} {e : ℕ} {h : Handle}
    → Kept js c d
    → elem e js ≡ false
    → Right c e h
    → Right d e h
Right-Kept {js} {c} {d} {e} {h} k other r = record {
  vram = λ on.
      let (a, u) = r.vram on in
      let (a', u') = k.gpu h.slot e u a in (a', omega (arith, u', k.epoch));
  ram = λ off. let (a, l) = r.ram off in (k.ram h.slot e l a, k.live h.slot l);
  cold = λ off. let (a, l) = r.ram off in (k.fill h.slot e l a other).1 ∙ r.cold off;
  full = λ off go. let (a, l) = r.ram off in (k.fill h.slot e l a other).0 ∙ r.full off go;
  waits = λ off go. k.waits e h.slot (r.waits off go);
}

-- One expert is served: the tiers stay consistent, the others' slots stay as they are, and the handle
-- is right.
pub record Served (c d : Cache) (e : ℕ) (h : Option Handle) : Type 0 where
  pub good : Good d
  pub kept : Kept (e ∷ []) c d
  pub right : (h' : Handle) → h ≡ some h' → Right d e h'

-- After steps that change nothing that matters here.
pub Served-Frame :
    {c c' d : Cache} {e : ℕ} {h : Option Handle} → Frame c c' → Served c' d e h → Served c d e h
Served-Frame fr s = record {
  good = s.good;
  kept = Kept-trans (Kept-Frame fr []) s.kept;
  right = s.right;
}

-- A slot becomes live.
abbrev pub pushed : Cache → ℕ → Cache
pushed c s = record c { live = s ∷ c.live }

pub pushed-Good : {c : Cache} (s : ℕ) → Good c → Good (pushed c s)
pushed-Good s ok = record { pool = ok.pool; current = ok.current }

pub pushed-Kept : (c : Cache) (s : ℕ) → Kept [] c (pushed c s)
pushed-Kept c s = record {
  ram = λ t e m h. h;
  fill = λ t e m h n. (refl, refl);
  live = λ t m. ground arith;
  gpu = λ g e u h. (h, u);
  epoch = refl;
  others = λ il ok. ok;
  layer = refl;
  waits = λ e s m. m;
}

pub pushed-elem : (c : Cache) (s : ℕ) → elem s (pushed c s).live ≡ true
pushed-elem c s = ground arith

pub the_handle :
    {c : Cache} {e : ℕ} (h : Handle) → Right c e h → (h' : Handle) → some h ≡ some h' → Right c e h'
the_handle {c} {e} h r h' same = subst (Right c e) (some-injective h h' same) r

pub no_handle : {c : Cache} {e : ℕ} (h' : Handle) → none ≡ some h' → Right c e h'
no_handle h' never = ground arith
