-- ===== src/Experts/Kept.antt =====
-- What the operations keep of an expert cache: the two maps of each tier agree, and what a fetch in
-- progress has handed out stays as it is.
use qw_fnfer_xpu.Base.{
  ℕ, ◌<◌, ◌≤◌, ◌≡◌, ◌≢◌, refl, sym, ap, ◌∙◌, subst, ◌⊎◌, inl, inr, Bool, true, false, ◌||◌, Option,
  none, some, List, [], ◌∷◌, ◌++◌, arith,
}
use qw_fnfer_xpu.Experts.Cache.{Pool, Cache, Claim, Named, elem, lists, asked}
use qw_fnfer_xpu.Experts.Victim.{in_flight}
use qw_fnfer_xpu.Experts.Victim.Chooses.{Eligible}

-- The two maps of each tier name each other, and a VRAM slot with an expert is valid.
pub record Consistent (lp : Pool) : Type 0 where
  pub ram : Named lp.expert_slot lp.slot_expert
  pub vram : Named lp.g_expert_slot lp.g_slot_expert
  pub valid : (g e : ℕ) → lp.g_slot_expert g ≡ some e → lp.g_valid g ≡ true
  pub has_slot : 0 < lp.n_slots

pub record Good (c : Cache) : Type 0 where
  pub pool : Consistent c.lp
  pub current : c.fetch_epoch ≤ c.tick

-- From `c` to `d`, while the experts of `ids` are fetched: a slot of the RAM tier that was handed out
-- keeps its expert, and unless that is one of `ids`, whether it is valid and where its bytes are from; a slot of the VRAM tier that was
-- used in this fetch keeps its expert.
pub record Kept (ids : List ℕ) (c d : Cache) : Type 0 where
  pub ram :
      (s e : ℕ) → elem s c.live ≡ true → c.lp.slot_expert s ≡ some e → d.lp.slot_expert s ≡ some e
  pub fill :
      (s e : ℕ)
      → elem s c.live ≡ true
      → c.lp.slot_expert s ≡ some e
      → elem e ids ≡ false
      → (d.lp.slot_valid s ≡ c.lp.slot_valid s) × (d.lp.slot_cold s ≡ c.lp.slot_cold s)
  pub live : (s : ℕ) → elem s c.live ≡ true → elem s d.live ≡ true
  pub gpu :
      (g e : ℕ)
      → c.fetch_epoch ≤ c.lp.g_used g
      → c.lp.g_slot_expert g ≡ some e
      → (d.lp.g_slot_expert g ≡ some e) × (c.fetch_epoch ≤ d.lp.g_used g)
  pub epoch : d.fetch_epoch ≡ c.fetch_epoch
  pub others : (il : ℕ) → Consistent (c.blk il) → Consistent (d.blk il)
  pub layer : d.layer ≡ c.layer
  pub waits : (e s : ℕ) → asked c e s ≡ true → asked d e s ≡ true

pub Kept-refl : (ids : List ℕ) (c : Cache) → Kept ids c c
Kept-refl ids c = record {
  ram = λ s e m h. h;
  fill = λ s e m h n. (refl, refl);
  live = λ s m. m;
  gpu = λ g e u h. (h, u);
  epoch = refl;
  others = λ il ok. ok;
  layer = refl;
  waits = λ e s m. m;
}

-- An operation that leaves these fields alone.
pub record Frame (c d : Cache) : Type 0 where
  pub n_slots : d.lp.n_slots ≡ c.lp.n_slots
  pub slot_expert : d.lp.slot_expert ≡ c.lp.slot_expert
  pub expert_slot : d.lp.expert_slot ≡ c.lp.expert_slot
  pub slot_valid : d.lp.slot_valid ≡ c.lp.slot_valid
  pub slot_cold : d.lp.slot_cold ≡ c.lp.slot_cold
  pub g_slot_expert : d.lp.g_slot_expert ≡ c.lp.g_slot_expert
  pub g_expert_slot : d.lp.g_expert_slot ≡ c.lp.g_expert_slot
  pub g_valid : d.lp.g_valid ≡ c.lp.g_valid
  pub g_used : d.lp.g_used ≡ c.lp.g_used
  pub live : d.live ≡ c.live
  pub fetch_epoch : d.fetch_epoch ≡ c.fetch_epoch
  pub tick : c.tick ≤ d.tick
  pub others : (il : ℕ) → Consistent (c.blk il) → Consistent (d.blk il)
  pub layer : d.layer ≡ c.layer
  pub pending : d.pending ≡ c.pending
  pub misses : d.misses ≡ c.misses

-- Those fields together.
pub record Core : Type 0 where
  pub n_slots : ℕ
  pub slot_expert : ℕ → Option ℕ
  pub expert_slot : ℕ → Option ℕ
  pub slot_valid : ℕ → Bool
  pub slot_cold : ℕ → Bool
  pub g_slot_expert : ℕ → Option ℕ
  pub g_expert_slot : ℕ → Option ℕ
  pub g_valid : ℕ → Bool
  pub g_used : ℕ → ℕ
  pub live : List ℕ
  pub fetch_epoch : ℕ
  pub blk : ℕ → Pool
  pub layer : ℕ
  pub pending : List Claim
  pub misses : List Claim

abbrev pub core : Cache → Core
core c = record {
  n_slots = c.lp.n_slots;
  slot_expert = c.lp.slot_expert;
  expert_slot = c.lp.expert_slot;
  slot_valid = c.lp.slot_valid;
  slot_cold = c.lp.slot_cold;
  g_slot_expert = c.lp.g_slot_expert;
  g_expert_slot = c.lp.g_expert_slot;
  g_valid = c.lp.g_valid;
  g_used = c.lp.g_used;
  live = c.live;
  fetch_epoch = c.fetch_epoch;
  blk = c.blk;
  layer = c.layer;
  pending = c.pending;
  misses = c.misses;
}

pub framed : {c d : Cache} → core d ≡ core c → c.tick ≤ d.tick → Frame c d
framed same later = record {
  n_slots = ap (λ (x : Core). x.n_slots) same;
  slot_expert = ap (λ (x : Core). x.slot_expert) same;
  expert_slot = ap (λ (x : Core). x.expert_slot) same;
  slot_valid = ap (λ (x : Core). x.slot_valid) same;
  slot_cold = ap (λ (x : Core). x.slot_cold) same;
  g_slot_expert = ap (λ (x : Core). x.g_slot_expert) same;
  g_expert_slot = ap (λ (x : Core). x.g_expert_slot) same;
  g_valid = ap (λ (x : Core). x.g_valid) same;
  g_used = ap (λ (x : Core). x.g_used) same;
  live = ap (λ (x : Core). x.live) same;
  fetch_epoch = ap (λ (x : Core). x.fetch_epoch) same;
  tick = later;
  others =
      λ il ok. subst (λ (f : ℕ → Pool). Consistent (f il)) (sym (ap (λ (x : Core). x.blk) same)) ok;
  layer = ap (λ (x : Core). x.layer) same;
  pending = ap (λ (x : Core). x.pending) same;
  misses = ap (λ (x : Core). x.misses) same;
}

pub Frame-refl : (c : Cache) → Frame c c
Frame-refl c = framed refl (omega arith)

pub Frame-trans : {b c d : Cache} → Frame b c → Frame c d → Frame b d
Frame-trans f g = record {
  n_slots = g.n_slots ∙ f.n_slots;
  slot_expert = g.slot_expert ∙ f.slot_expert;
  expert_slot = g.expert_slot ∙ f.expert_slot;
  slot_valid = g.slot_valid ∙ f.slot_valid;
  slot_cold = g.slot_cold ∙ f.slot_cold;
  g_slot_expert = g.g_slot_expert ∙ f.g_slot_expert;
  g_expert_slot = g.g_expert_slot ∙ f.g_expert_slot;
  g_valid = g.g_valid ∙ f.g_valid;
  g_used = g.g_used ∙ f.g_used;
  live = g.live ∙ f.live;
  fetch_epoch = g.fetch_epoch ∙ f.fetch_epoch;
  tick = omega (arith, f.tick, g.tick);
  others = λ il ok. g.others il (f.others il ok);
  layer = g.layer ∙ f.layer;
  pending = g.pending ∙ f.pending;
  misses = g.misses ∙ f.misses;
}

module _ {c d : Cache} (fr : Frame c d) where
  pub Consistent-Frame : Consistent c.lp → Consistent d.lp
  Consistent-Frame ok = record {
    ram = rw (fr.expert_slot, fr.slot_expert) ok.ram;
    vram = rw (fr.g_expert_slot, fr.g_slot_expert) ok.vram;
    valid = rw (fr.g_slot_expert, fr.g_valid) ok.valid;
    has_slot = rw fr.n_slots ok.has_slot;
  }

  pub Good-Frame : Good c → Good d
  Good-Frame ok = record {
    pool = Consistent-Frame ok.pool;
    current = omega (arith, ok.current, fr.tick, fr.fetch_epoch);
  }

  pub Kept-Frame : (ids : List ℕ) → Kept ids c d
  Kept-Frame ids = record {
    ram = λ s e m h. rw fr.slot_expert h;
    fill = λ s e m h n. (rw fr.slot_valid refl, rw fr.slot_cold refl);
    live = λ s m. rw fr.live m;
    gpu = λ g e u h. (rw fr.g_slot_expert h, rw fr.g_used u);
    epoch = fr.fetch_epoch;
    others = fr.others;
    layer = fr.layer;
    waits = λ e s m. rw (fr.misses, fr.pending) m;
  }

pub elem-append : (x : ℕ) (xs ys : List ℕ) → elem x (xs ++ ys) ≡ (elem x xs || elem x ys)
elem-append x [] ys = refl
elem-append x (y ∷ xs) ys = rw (elem-append x xs ys) (ground arith)

-- One fetch after another.
pub Kept-trans :
    {ids js : List ℕ} {b c d : Cache} → Kept ids b c → Kept js c d → Kept (ids ++ js) b d
Kept-trans {ids} {js} {b} {c} {d} k l = record {
  ram = λ s e m h. l.ram s e (k.live s m) (k.ram s e m h);
  fill = λ s e m h n.
      let split : (elem e ids || elem e js) ≡ false = sym (elem-append e ids js) ∙ n in
      let (v, w) = k.fill s e m h (ground arith) in
      let (v', w') = l.fill s e (k.live s m) (k.ram s e m h) (ground arith) in (v' ∙ v, w' ∙ w);
  live = λ s m. l.live s (k.live s m);
  gpu = λ g e u h.
      let (a, w) = k.gpu g e u h in
      let (a', w') = l.gpu g e (omega (arith, w, k.epoch)) a in (a', omega (arith, w', k.epoch));
  epoch = l.epoch ∙ k.epoch;
  others = λ il ok. l.others il (k.others il ok);
  layer = l.layer ∙ k.layer;
  waits = λ e s m. l.waits e s (k.waits e s m);
}

-- A slot that is taken for a block: it is empty or not handed out.
unfoldable pub Free : Cache → ℕ → Type 0
Free c t = (c.lp.slot_expert t ≡ none) ⊎ (elem t c.live ≡ false)

pub Eligible-Free : (c : Cache) (t : ℕ) → Eligible c t → Free c t
unfolding Free in_flight
Eligible-Free c t el = inr (let h = el.unused in ground arith)

pub Free-ne :
    (c : Cache) (t s e : ℕ) → Free c t → elem s c.live ≡ true → c.lp.slot_expert s ≡ some e → t ≢ s
unfolding Free
Free-ne c t s e (inl empty) m h same = ground arith
Free-ne c t s e (inr gone) m h same = ground arith

pub Free-Frame : {c d : Cache} (t : ℕ) → Frame c d → Free c t → Free d t
unfolding Free
Free-Frame t fr (inl empty) = inl (rw fr.slot_expert empty)
Free-Frame t fr (inr gone) = inr (rw fr.live gone)

pub lists-append :
    (xs ys : List Claim) (e s : ℕ) → lists (xs ++ ys) e s ≡ (lists xs e s || lists ys e s)
lists-append [] ys e s = refl
lists-append (x ∷ xs) ys e s = rw (lists-append xs ys e s) (ground arith)

-- One more claim.
pub listed_last :
    (xs : List Claim) (e s : ℕ) → lists (xs ++ (record { expert = e; slot = s } ∷ [])) e s ≡ true
listed_last xs e s = rw (lists-append xs (record { expert = e; slot = s } ∷ []) e s) (ground arith)

module _ (c : Cache) (x : Claim) where
  pub pends-Good : Good c → Good (record c { pending = c.pending ++ (x ∷ []) })
  pends-Good ok = record { pool = ok.pool; current = ok.current }

  pub pends-Kept : (ids : List ℕ) → Kept ids c (record c { pending = c.pending ++ (x ∷ []) })
  pends-Kept ids = record {
    ram = λ s e m h. h;
    fill = λ s e m h n. (refl, refl);
    live = λ s m. m;
    gpu = λ g e u h. (h, u);
    epoch = refl;
    others = λ il ok. ok;
    layer = refl;
    waits = λ e s m. rw (lists-append c.pending (x ∷ []) e s) (ground arith);
  }

  pub misses-Kept : (ids : List ℕ) → Kept ids c (record c { misses = c.misses ++ (x ∷ []) })
  misses-Kept ids = record {
    ram = λ s e m h. h;
    fill = λ s e m h n. (refl, refl);
    live = λ s m. m;
    gpu = λ g e u h. (h, u);
    epoch = refl;
    others = λ il ok. ok;
    layer = refl;
    waits = λ e s m. rw (lists-append c.misses (x ∷ []) e s) (ground arith);
  }
