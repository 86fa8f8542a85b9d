-- ===== src/Experts/Fetch/Serves.antt =====
-- What the loop over the token's experts serves.
use qw_fnfer_xpu.Base.{
  ℕ, ◌≡◌, subst, inl, inr, Bool, false, Option, none, some, List, [], ◌∷◌, Bool-cases, Option-cases,
  arith,
}
use mathlib.Core.Option.{some-injective}
use qw_fnfer_xpu.Experts.Cache.{Config, Cache, elem}
use qw_fnfer_xpu.Experts.Victim.{find_slot}
use qw_fnfer_xpu.Experts.Kept.{Good, Kept, Kept-refl, Kept-trans, Frame, Good-Frame}
use qw_fnfer_xpu.Experts.Fetch.{
  Handle, serve_all, vram_slot, claimed, count_use, ask, serve_ram, serve,
}
use qw_fnfer_xpu.Experts.Fetch.Right.{Right, Right-Kept, Served, Served-Frame}
use qw_fnfer_xpu.Experts.Fetch.Lookups.{
  vram_slot-Holds, vram_slot_absent, claimed-Holds, find_slot-Holds,
}
use qw_fnfer_xpu.Experts.Fetch.Handlers.{
  ask-Frame, ask-vram_open, count_use-Frame, serve_gpu-Served, serve_claimed-Served,
}
use qw_fnfer_xpu.Experts.Fetch.Hits.{serve_hit-Served}
use qw_fnfer_xpu.Experts.Fetch.Misses.{Owns, serve_miss-Served}

serve_ram-Served :
    (k : Config) (ranges : Bool → ℕ → ℕ → Bool) (c : Cache) (e s : ℕ)
    → Good c
    → vram_slot k c.lp e ≡ none
    → find_slot c.lp e ≡ some s
    → Served c (serve_ram k ranges c e s).0 e (serve_ram k ranges c e s).1
unfolding serve_ram Owns
serve_ram-Served k ranges c e s ok absent at =
    let (held, full) = find_slot-Holds c.lp e s at in
    let fr = ask-Frame k c e (c.lp.slot_cold s) in
    let (c', would) = ask k c e (c.lp.slot_cold s) in
    elim (Bool-cases would) [
      | inr b ↦
          rw (b, serve_ram)
            (Served-Frame fr (
              serve_hit-Served k c' e s (Good-Frame fr ok) (rw fr.slot_expert held)
                (rw fr.slot_valid full)))
      | inl b ↦
          let nowhere =
            vram_slot_absent k c.lp e ok.pool (ask-vram_open k c e (c.lp.slot_cold s) b) absent in
          rw (b, serve_ram)
            (Served-Frame fr (
              serve_miss-Served k ranges c' e (some s) (Good-Frame fr ok)
                (owns c' fr held nowhere)))
    ]
  where
    owns :
        (d : Cache)
        → Frame c d
        → c.lp.slot_expert s ≡ some e
        → c.lp.g_expert_slot e ≡ none
        → (t : ℕ) → some s ≡ some t
        → (d.lp.slot_expert t ≡ some e) × (d.lp.g_expert_slot e ≡ none)
    owns d fr held nowhere t same = (
      subst (λ x. d.lp.slot_expert x ≡ some e) (some-injective s t same) (rw fr.slot_expert held),
      rw fr.g_expert_slot nowhere,
    )

serve-Served :
    (k : Config) (ranges : Bool → ℕ → ℕ → Bool) (c : Cache) (e : ℕ)
    → Good c
    → Served c (serve k ranges c e).0 e (serve k ranges c e).1
unfolding serve Owns
serve-Served k ranges c e ok = elim (Option-cases (vram_slot k c.lp e)) [
  | inr (g, at) ↦ rw (at, serve) (serve_gpu-Served c e g ok (vram_slot-Holds k c.lp e g at))
  | inl absent ↦ elim (Option-cases (claimed c.lp e)) [
    | inr (s, at) ↦
        rw (absent, at, serve) (serve_claimed-Served k c e s ok (claimed-Holds c.lp e s at))
    | inl landed ↦ elim (Option-cases (find_slot c.lp e)) [
      | inr (s, at) ↦ rw (absent, landed, at, serve) (serve_ram-Served k ranges c e s ok absent at)
      | inl miss ↦
          rw (absent, landed, miss, serve)
            (serve_miss-Served k ranges c e none ok (λ s never. ground arith))
    ]
  ]
]

-- The experts of a token are different, as a router's top choices are.
abbrev pub Distinct : List ℕ → Type 0
Distinct [] = Unit
Distinct (e ∷ es) = (elem e es ≡ false) × Distinct es

-- The handles, one for each expert, are right.
abbrev pub AllRight : Cache → List ℕ → List Handle → Type 0
AllRight c [] [] = Unit
AllRight c [] (h ∷ hs) = ⊥
AllRight c (e ∷ es) [] = ⊥
AllRight c (e ∷ es) (h ∷ hs) = Right c e h × AllRight c es hs

-- The loop from `c` to `d` keeps the tiers consistent, and where it comes to its end with different
-- experts, every handle is right.
pub record ServesAll (c d : Cache) (es : List ℕ) (o : Option (List Handle)) : Type 0 where
  pub good : Good d
  pub kept : Kept es c d
  pub right : (hs : List Handle) → o ≡ some hs → Distinct es → AllRight d es hs

pub serve_all-ServesAll :
    (k : Config) (ranges : Bool → ℕ → ℕ → Bool) (c : Cache) (es : List ℕ)
    → Good c
    → ServesAll c (serve_all k ranges c es).0 es (serve_all k ranges c es).1
unfolding serve_all
serve_all-ServesAll k ranges c [] ok = record {
  good = ok;
  kept = Kept-refl [] c;
  right = λ hs same di. subst (AllRight c []) (some-injective [] hs same) tt;
}
serve_all-ServesAll k ranges c (e ∷ es) ok =
    let fr = count_use-Frame k c e in
    let c1 = count_use k c e in
    let sv = Served-Frame fr (serve-Served k ranges c1 e (Good-Frame fr ok)) in
    let (c', h) = serve k ranges c1 e in
    elim (Option-cases h) [
      | inl failed ↦
          rw (failed, serve_all)
            record {
              good = sv.good;
              kept = Kept-trans sv.kept (Kept-refl es c');
              right = λ hs never di. ground arith;
            }
      | inr (h', got) ↦
          let rest = serve_all-ServesAll k ranges c' es sv.good in
          let (d, o) = serve_all k ranges c' es in
          let kept = Kept-trans sv.kept rest.kept in
          elim (Option-cases o) [
            | inl failed ↦
                rw (got, failed, serve_all)
                  record { good = rest.good; kept = kept; right = λ hs never di. ground arith }
            | inr (hs', all) ↦
                rw (got, all, serve_all)
                  record {
                    good = rest.good;
                    kept = kept;
                    right = λ hs same di.
                        subst (AllRight d (e ∷ es)) (some-injective (h' ∷ hs') hs same)
                          (Right-Kept rest.kept di.0 (sv.right h' got), rest.right hs' all di.1);
                  }
          ]
    ]
