-- ===== src/Experts/Fetch/Hits.antt =====
-- A hit of the RAM tier, with the promotion that may follow it.
use qw_fnfer_xpu.Base.{
  ℕ, suc, ◌≤◌, ◌≡◌, refl, sym, ◌∙◌, subst, inl, inr, Bool, true, false, Option, none, some, [], ◌∷◌,
  ltb, if◌then◌else◌, Bool-cases, arith,
}
use mathlib.Core.Option.{some-injective}
use qw_fnfer_xpu.Experts.Cache.{Config, Cache, elem}
use qw_fnfer_xpu.Experts.Kept.{Good, Kept-refl, Kept-trans, Frame, framed, Good-Frame, Kept-Frame}
use qw_fnfer_xpu.Experts.Promote.Installs.{Promotes, promote-Promotes, Landed}
use qw_fnfer_xpu.Experts.Fetch.{touch, served, promote_hit, serve_hit}
use qw_fnfer_xpu.Experts.Fetch.Right.{Served, pushed-Good, pushed-Kept, pushed-elem, the_handle}
use qw_fnfer_xpu.Experts.Fetch.Handlers.{touch-Frame}

promote_hit-Promotes :
    (k : Config) (c : Cache) (e s : ℕ)
    → Good c
    → Promotes c (promote_hit k c e s).0 e (promote_hit k c e s).1
unfolding promote_hit
promote_hit-Promotes k c e s ok = elim (Bool-cases (ltb c.promoted k.max_promotions_per_layer)) [
  | inl b ↦ rw (b, promote_hit) (promote-Promotes k c e (some s) ok)
  | inr b ↦
      rw (b, promote_hit)
        record { good = ok; kept = Kept-refl [] c; live = refl; landed = λ never. ground arith }
]

-- The handle of a hit: of the RAM tier, or of the slot of the VRAM tier where the block has landed.
served-Served :
    (c : Cache) (e s : ℕ) (cold : Bool) (o : Option ℕ)
    → Good c
    → c.lp.slot_expert s ≡ some e
    → elem s c.live ≡ true
    → c.lp.slot_cold s ≡ cold
    → c.lp.slot_valid s ≡ true
    → ((g : ℕ) → o ≡ some g → (c.lp.g_slot_expert g ≡ some e) × (c.fetch_epoch ≤ c.lp.g_used g))
    → Served c (served c e s cold o).0 e (served c e s cold o).1
unfolding served
served-Served c e s cold none ok held l co va landed =
    let fr : Frame c (served c e s cold none).0 = framed refl (omega arith) in
    record {
      good = Good-Frame fr ok;
      kept = Kept-Frame fr (e ∷ []);
      right = the_handle _ (record {
        vram = λ on. ground arith;
        ram = λ off. (held, l);
        cold = λ off. co;
        full = λ off go. va;
        waits = λ off. λ never. ground arith;
      });
    }
served-Served c e s cold (some g) ok held l co va landed =
    let fr : Frame c (served c e s cold (some g)).0 = framed refl (omega arith) in
    record {
      good = Good-Frame fr ok;
      kept = Kept-Frame fr (e ∷ []);
      right = the_handle _ (record {
        vram = λ on. landed g refl;
        ram = λ off. ground arith;
        cold = λ off. ground arith;
        full = λ off go. ground arith;
        waits = λ off. ground arith;
      });
    }

pub serve_hit-Served :
    (k : Config) (c : Cache) (e s : ℕ)
    → Good c
    → c.lp.slot_expert s ≡ some e
    → c.lp.slot_valid s ≡ true
    → Served c (serve_hit k c e s).0 e (serve_hit k c e s).1
unfolding serve_hit
serve_hit-Served k c e s ok held va =
    let t = touch c s in
    let fr = touch-Frame c s in
    let held' : t.lp.slot_expert s ≡ some e = rw fr.slot_expert held in
    let in_live : elem s t.live ≡ true = rw fr.live (pushed-elem c s) in
    let p = promote_hit-Promotes k t e s (Good-Frame fr (pushed-Good s ok)) in
    let (d, done) = promote_hit k t e s in
    let d' = record d { promoted = if done then suc d.promoted else d.promoted } in
    let fr' : Frame d d' = framed refl (omega arith) in
    let (same_valid, same_cold) = p.kept.fill s e in_live held' refl in
    let last =
      served-Served d' e s (t.lp.slot_cold s) (if done then d.lp.g_expert_slot e else none)
        (Good-Frame fr' p.good) (p.kept.ram s e in_live held') (p.kept.live s in_live) same_cold
        (same_valid ∙ rw fr.slot_valid va) (at_landing d done p.landed) in
    record {
      good = last.good;
      kept = Kept-trans (pushed-Kept c s) (
          Kept-trans (Kept-Frame fr [])
            (Kept-trans p.kept (Kept-trans (Kept-Frame fr' []) last.kept)));
      right = last.right;
    }
  where
    at_landing :
        (d : Cache) (done : Bool)
        → (done ≡ true → Landed d e)
        → (g : ℕ) → (if done then d.lp.g_expert_slot e else none) ≡ some g
        → (d.lp.g_slot_expert g ≡ some e) × (d.fetch_epoch ≤ d.lp.g_used g)
    at_landing d false land g h = ground arith
    at_landing d true land g h =
        let there = land refl in
        let eq : there.slot ≡ g = some-injective there.slot g (sym there.named ∙ h) in
        subst (λ x. (d.lp.g_slot_expert x ≡ some e) × (d.fetch_epoch ≤ d.lp.g_used x)) eq
          (there.held, there.fresh)
