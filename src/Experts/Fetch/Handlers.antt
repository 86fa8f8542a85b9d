-- ===== src/Experts/Fetch/Handlers.antt =====
-- Each way in which an expert is served gives a right handle.
use qw_fnfer_xpu.Base.{
  ℕ, suc, ◌≤◌, ◌≡◌, refl, Bool, true, false, not, leb, ◌&&◌, some, [], ◌∷◌, if◌then◌else◌, update,
  update_self, arith,
}
use qw_fnfer_xpu.Experts.Cache.{Config, Cache, Claim}
use qw_fnfer_xpu.Experts.Victim.{vram_open, would_promote, would_promote-vram_open}
use qw_fnfer_xpu.Experts.Kept.{
  Consistent, Good, Kept, Kept-trans, Frame, framed, Frame-refl, Frame-trans, Good-Frame,
  Kept-Frame, pends-Good, pends-Kept, listed_last,
}
use qw_fnfer_xpu.Experts.Fetch.{
  halved, touch_gpu, count_use, serve_gpu, touch, ask, want_hot, serve_claimed,
}
use qw_fnfer_xpu.Experts.Fetch.Right.{
  Served, Served-Frame, pushed, pushed-Good, pushed-Kept, pushed-elem, the_handle,
}

pub touch_gpu-Good : (c : Cache) (g : ℕ) → Good c → Good (touch_gpu c g)
unfolding touch_gpu
touch_gpu-Good c g ok = record {
  pool = record {
    ram = ok.pool.ram;
    vram = ok.pool.vram;
    valid = ok.pool.valid;
    has_slot = ok.pool.has_slot;
  };
  current = ok.current;
}

pub touch_gpu-Kept : (c : Cache) (g : ℕ) → Good c → Kept [] c (touch_gpu c g)
unfolding touch_gpu
touch_gpu-Kept c g ok = record {
  ram = λ s e m h. h;
  fill = λ s e m h n. (refl, refl);
  live = λ s m. m;
  gpu = λ g' e u h. (h, newer g' u);
  epoch = refl;
  others = λ il ok. ok;
  layer = refl;
  waits = λ e s m. m;
}
  where
    newer :
        (g' : ℕ) → c.fetch_epoch ≤ c.lp.g_used g' → c.fetch_epoch ≤ update c.lp.g_used g c.tick g'
    newer g' u = let current = ok.current in ground arith

pub serve_gpu-Served :
    (c : Cache) (e g : ℕ)
    → Good c
    → c.lp.g_slot_expert g ≡ some e
    → Served c (serve_gpu c g).0 e (serve_gpu c g).1
unfolding serve_gpu touch_gpu
serve_gpu-Served c e g ok held =
    let fr : Frame (touch_gpu c g) (serve_gpu c g).0 = framed refl (omega arith) in
    let good = touch_gpu-Good c g ok in
    record {
      good = Good-Frame fr good;
      kept = Kept-trans (touch_gpu-Kept c g ok) (Kept-Frame fr (e ∷ []));
      right =
          the_handle
            (record { on_gpu = true; slot = g; late = false; cold = false; is_ready = true })
            (record {
              vram = λ on. (held, rw (update_self c.lp.g_used g c.tick) ok.current);
              ram = λ off. ground arith;
              cold = λ off. ground arith;
              full = λ off. ground arith;
              waits = λ off. ground arith;
            });
    }

-- A use of a slot of the RAM tier makes it live, and changes nothing else that matters.
pub touch-Frame : (c : Cache) (s : ℕ) → Frame (pushed c s) (touch c s)
unfolding touch
touch-Frame c s = framed refl (omega arith)

pub ask-Frame : (k : Config) (c : Cache) (e : ℕ) (b : Bool) → Frame c (ask k c e b).0
unfolding ask would_promote
ask-Frame k c e true = framed refl (omega arith)
ask-Frame k c e false = Frame-refl c

pub ask-vram_open :
    (k : Config) (c : Cache) (e : ℕ) (b : Bool) → (ask k c e b).1 ≡ true → vram_open k c.lp ≡ true
unfolding ask
ask-vram_open k c e true h = would_promote-vram_open k c e h
ask-vram_open k c e false h = ground arith

pub want_hot-Frame : (c : Cache) (e : ℕ) (b : Bool) → Frame c (want_hot c e b)
unfolding want_hot
want_hot-Frame c e b = framed refl (omega arith)

pub count_use-Frame : (k : Config) (c : Cache) (e : ℕ) → Frame c (count_use k c e)
unfolding count_use
count_use-Frame k c e = record {
  n_slots = refl;
  slot_expert = refl;
  expert_slot = refl;
  slot_valid = refl;
  slot_cold = refl;
  g_slot_expert = refl;
  g_expert_slot = refl;
  g_valid = refl;
  g_used = refl;
  live = refl;
  fetch_epoch = refl;
  tick = omega arith;
  others = λ il ok. aged (leb k.age_every (suc c.ef_ticks)) il ok;
  layer = refl;
  pending = refl;
  misses = refl;
}
  where
    aged :
        (b : Bool) (il : ℕ)
        → Consistent (c.blk il)
        → Consistent (if b then halved (c.blk il) else c.blk il)
    aged true il ok = record {
      ram = ok.ram;
      vram = ok.vram;
      valid = ok.valid;
      has_slot = ok.has_slot;
    }
    aged false il ok = ok

pub serve_claimed-Served :
    (k : Config) (c : Cache) (e s : ℕ)
    → Good c
    → c.lp.slot_expert s ≡ some e
    → Served c (serve_claimed k c e s).0 e (serve_claimed k c e s).1
unfolding serve_claimed
serve_claimed-Served k c e s ok held =
    let b = c.lp.slot_cold s && not (c.lp.hotw e) in
    let fr = ask-Frame k c e b in
    let c' = (ask k c e b).0 in
    let hot = want_hot c' e (ask k c e b).1 in
    let fr' = Frame-trans fr (want_hot-Frame c' e (ask k c e b).1) in
    let fr'' = touch-Frame hot s in
    let t = touch hot s in
    let x : Claim = record { expert = e; slot = s } in
    let good = pushed-Good s (Good-Frame fr' ok) in
    Served-Frame fr' (record {
      good = pends-Good t x (Good-Frame fr'' good);
      kept =
          Kept-trans (pushed-Kept hot s)
            (Kept-trans (Kept-Frame fr'' []) (pends-Kept t x (e ∷ [])));
      right = the_handle _ (record {
        vram = λ on. ground arith;
        ram =
            λ off. (rw (fr''.slot_expert, fr'.slot_expert) held, rw fr''.live (pushed-elem hot s));
        cold = λ off. refl;
        full = λ off. λ never. ground arith;
        waits = λ off never. rw (listed_last t.pending e s) (ground arith);
      });
    })
