-- ===== src/Experts/Fetch/Misses.antt =====
-- A miss: the slot that the block is read into, and the upgrade of a block of the cold checkpoint.
use qw_fnfer_xpu.Base.{
  ℕ, suc, ◌≡◌, ◌≢◌, refl, ◌∙◌, inl, inr, Bool, true, false, not, ◌&&◌, ◌||◌, Option, none, some, [],
  ◌∷◌, ◌==◌, if◌then◌else◌, update, update_self, update_ne, Bool-cases, Option-cases, arith,
}
use qw_fnfer_xpu.Experts.Cache.{Config, Cache, Claim, elem, is_some}
use qw_fnfer_xpu.Experts.Names.{Named-claim, Named-again}
use qw_fnfer_xpu.Experts.Victim.{choose_victim}
use qw_fnfer_xpu.Experts.Victim.Chooses.{choose_victim-Chooses}
use qw_fnfer_xpu.Experts.Kept.{
  Consistent, Good, Kept, Kept-trans, Frame, framed, Frame-refl, Frame-trans, Good-Frame,
  Kept-Frame, Free, Free-ne, Free-Frame, Eligible-Free, misses-Kept, listed_last,
}
use qw_fnfer_xpu.Experts.Fetch.{ask, want_hot, claim, drop_copy, read_into, find_room, serve_miss}
use qw_fnfer_xpu.Experts.Fetch.Right.{Served, Served-Frame, the_handle, no_handle}
use qw_fnfer_xpu.Experts.Fetch.Handlers.{ask-Frame, want_hot-Frame}

-- The slot is the expert's own in an upgrade, and free otherwise.
pub record Room (c : Cache) (e v : ℕ) (upgrade : Bool) : Type 0 where
  pub own : upgrade ≡ true → (c.lp.slot_expert v ≡ some e) × (c.lp.g_expert_slot e ≡ none)
  pub free : upgrade ≡ false → Free c v

Room-ne :
    (c : Cache) (e v : ℕ) (upgrade : Bool)
    → Room c e v upgrade
    → (s e' : ℕ) → elem s c.live ≡ true
    → c.lp.slot_expert s ≡ some e'
    → elem e' (e ∷ []) ≡ false
    → v ≢ s
Room-ne c e v true r s e' m h n same = let (own, absent) = r.own refl in ground arith
Room-ne c e v false r s e' m h n same = Free-ne c v s e' (r.free refl) m h same

claim-Consistent :
    (c : Cache) (e v tick : ℕ) (upgrade cold : Bool)
    → Room c e v upgrade
    → Consistent c.lp
    → Consistent (claim c.lp e v upgrade cold tick)
unfolding claim
claim-Consistent c e v tick true cold r ok = record {
  ram = Named-again c.lp.expert_slot c.lp.slot_expert e v (r.own refl).0 ok.ram;
  vram = ok.vram;
  valid = ok.valid;
  has_slot = ok.has_slot;
}
claim-Consistent c e v tick false cold r ok = record {
  ram = Named-claim c.lp.expert_slot c.lp.slot_expert e v ok.ram;
  vram = ok.vram;
  valid = ok.valid;
  has_slot = ok.has_slot;
}

-- A cache after a claim.
claimed_to : Cache → ℕ → ℕ → Bool → Bool → Cache
claimed_to c e v upgrade cold = record c {
  tick = suc c.tick;
  live = v ∷ c.live;
  lp = claim c.lp e v upgrade cold (suc c.tick);
}

claimed_to-Kept :
    (c : Cache) (e v : ℕ) (upgrade cold : Bool)
    → Room c e v upgrade
    → Kept (e ∷ []) c (claimed_to c e v upgrade cold)
unfolding claimed_to claim
claimed_to-Kept c e v upgrade cold r = record {
  ram = λ s e' m h. stays s e' m h;
  fill = λ s e' m h n.
      let apart = Room-ne c e v upgrade r s e' m h n in
      (update_ne c.lp.slot_valid v s false apart, update_ne c.lp.slot_cold v s cold apart);
  live = λ s m. ground arith;
  gpu = λ g e' u h. (h, u);
  epoch = refl;
  others = λ il ok. ok;
  layer = refl;
  waits = λ e' s m. m;
}
  where
    stays :
        (s e' : ℕ)
        → elem s c.live ≡ true
        → c.lp.slot_expert s ≡ some e'
        → update c.lp.slot_expert v (some e) s ≡ some e'
    stays s e' m h = elim (Bool-cases (e == e')) [
      | inl same ↦ ground arith
      | inr other ↦
          update_ne c.lp.slot_expert v s (some e) (Room-ne c e v upgrade r s e' m h (ground arith))
          ∙ h
    ]

-- No copy is dropped, since the VRAM tier has none.
dropped :
    (c : Cache) (e v tick : ℕ) (upgrade cold : Bool)
    → Room c e v upgrade
    → (if upgrade
        then drop_copy (claim c.lp e v upgrade cold tick) e (c.lp.g_expert_slot e)
        else claim c.lp e v upgrade cold tick)
      ≡ claim c.lp e v upgrade cold tick
unfolding drop_copy
dropped c e v tick true cold r = rw ((r.own refl).1, drop_copy) refl
dropped c e v tick false cold r = refl

claimed_to-Good :
    (c : Cache) (e v : ℕ) (upgrade cold : Bool)
    → Room c e v upgrade
    → Good c
    → Good (claimed_to c e v upgrade cold)
unfolding claimed_to
claimed_to-Good c e v upgrade cold r ok = record {
  pool = claim-Consistent c e v (suc c.tick) upgrade cold r ok.pool;
  current = let current = ok.current in omega (arith, current);
}

read_into-Served :
    (ranges : Bool → ℕ → ℕ → Bool) (c : Cache) (e v : ℕ) (upgrade cold : Bool)
    → Good c
    → Room c e v upgrade
    → Served c (read_into ranges c e v upgrade cold).0 e (read_into ranges c e v upgrade cold).1
unfolding read_into claim claimed_to
read_into-Served ranges c e v upgrade cold ok r =
    let lp = claim c.lp e v upgrade cold (suc c.tick) in
    let same = dropped c e v (suc c.tick) upgrade cold r in
    let good = claimed_to-Good c e v upgrade cold r ok in
    let kept = claimed_to-Kept c e v upgrade cold r in
    elim (Bool-cases (ranges cold c.layer e)) [
      | inr b ↦ rw (b, same, read_into) record { good = good; kept = kept; right = no_handle }
      | inl b ↦
          let d = claimed_to c e v upgrade cold in
          let x : Claim = record { expert = e; slot = v } in
          rw (b, same, read_into)
            record {
              good = record { pool = good.pool; current = good.current };
              kept = Kept-trans kept (misses-Kept d x []);
              right = the_handle _ (record {
                vram = λ on. ground arith;
                ram = λ off. (update_self c.lp.slot_expert v (some e), ground arith);
                cold = λ off. update_self c.lp.slot_cold v cold;
                full = λ off. λ never. ground arith;
                waits = λ off go. rw (listed_last c.misses e v) (ground arith);
              });
            }
    ]

Room-Frame :
    {c d : Cache} {e v : ℕ} {upgrade : Bool} → Frame c d → Room c e v upgrade → Room d e v upgrade
Room-Frame {c} {d} {e} {v} fr r = record {
  own = λ u. let (a, b) = r.own u in (rw fr.slot_expert a, rw fr.g_expert_slot b);
  free = λ u. Free-Frame v fr (r.free u);
}

find_room-Frame : (k : Config) (c : Cache) (o : Option ℕ) → Frame c (find_room k c o).0
unfolding find_room choose_victim
find_room-Frame k c none = framed refl (omega arith)
find_room-Frame k c (some s) = Frame-refl c

-- The slot that the expert of an upgrade has, where there is an upgrade.
unfoldable pub Owns : Cache → ℕ → Option ℕ → Type 0
Owns c e o = (s : ℕ) → o ≡ some s → (c.lp.slot_expert s ≡ some e) × (c.lp.g_expert_slot e ≡ none)

find_room-Room :
    (k : Config) (c : Cache) (e v : ℕ) (o : Option ℕ)
    → Good c
    → Owns c e o
    → (find_room k c o).1 ≡ some v
    → Room c e v (is_some o)
unfolding find_room Owns
find_room-Room k c e v none ok own h = record {
  own = λ never. ground arith;
  free = λ u. Eligible-Free c v ((choose_victim-Chooses k c ok.pool.has_slot).taken v h);
}
find_room-Room k c e v (some s) ok own h = record {
  own = λ u. own v h;
  free = λ never. ground arith;
}

pub serve_miss-Served :
    (k : Config) (ranges : Bool → ℕ → ℕ → Bool) (c : Cache) (e : ℕ) (o : Option ℕ)
    → Good c
    → Owns c e o
    → Served c (serve_miss k ranges c e o).0 e (serve_miss k ranges c e o).1
unfolding serve_miss Owns
serve_miss-Served k ranges c e o ok own =
    let b = k.has_cold && (not (is_some o) && not (c.lp.hotw e)) in
    let (c', would) = ask k c e b in
    let c'' = want_hot c' e (is_some o || would) in
    let seen = record c'' { lp = record c''.lp { seen = update c''.lp.seen e true } } in
    let fr : Frame c seen =
      Frame-trans (ask-Frame k c e b)
        (Frame-trans (want_hot-Frame c' e (is_some o || would)) (framed refl (omega arith))) in
    let good = Good-Frame fr ok in
    let d = (find_room k seen o).0 in
    let fr' = find_room-Frame k seen o in
    elim (Option-cases (find_room k seen o).1) [
      | inl full ↦
          rw (full, serve_miss)
            (Served-Frame fr (record {
              good = Good-Frame fr' good;
              kept = Kept-Frame fr' (e ∷ []);
              right = no_handle;
            }))
      | inr (v, at) ↦
          let owned : Owns seen e o =
            λ s h. let (a, g) = own s h in (rw fr.slot_expert a, rw fr.g_expert_slot g) in
          let room = Room-Frame fr' (find_room-Room k seen e v o good owned at) in
          rw (at, serve_miss)
            (Served-Frame (Frame-trans fr fr') (
              read_into-Served ranges d e v (is_some o)
                (k.has_cold && (not (is_some o) && not (c''.lp.hotw e))) (Good-Frame fr' good)
                room))
    ]
