-- ===== src/Experts/Fetch/Table.antt =====
-- `vram_table`, which a graph reads before the fetch, and what the fetch serves from the VRAM tier.
use qw_fnfer_xpu.Base.{
  ℕ, suc, update, ◌<◌, ◌≡◌, refl, sym, ap, ◌∙◌, subst, List, [], ◌∷◌, inl, inr, Bool, true, false,
  not, ◌&&◌, ◌||◌, Option, none, some, ltb, ◌==◌, if◌then◌else◌, Bool-cases, Option-cases, arith,
}
use mathlib.Core.Option.{some-injective}
use qw_fnfer_xpu.Experts.Cache.{Config, Pool, Cache, is_some, holds}
use qw_fnfer_xpu.Experts.Victim.{find_slot, vram_open}
use qw_fnfer_xpu.Experts.Fetch.{
  Handle, vram_slot, serve_gpu, claimed, serve_claimed, served, promote_hit, serve_hit, read_into,
  find_room, serve_miss, serve_ram, serve, ask, want_hot, touch, touch_all, touch_gpu, list_live,
  begin,
}

-- The entry of an expert: its slot, and whether the mask lets it through. The tests are the loop's
-- own, apart from those of the fetch.
unfoldable pub vram_table : Config → Pool → ℕ → ℕ → ℕ × Bool
vram_table k lp n_expert e =
    if not k.has_vram || (lp.g_slots == 0) || lp.g_lent || not (ltb e n_expert)
    then (0, false)
    else elim (lp.g_expert_slot e) [
      | none ↦ (0, false)
      | some g ↦ if lp.g_valid g && holds (lp.g_slot_expert g) e then (g, true) else (0, false)
    ]

-- The table's tests let an expert through exactly where those of the fetch find it in the VRAM tier.
found : Option ℕ → ℕ × Bool
found none = (0, false)
found (some g) = (g, true)

table-slot :
    (k : Config) (lp : Pool) (n_expert e : ℕ)
    → e < n_expert
    → vram_table k lp n_expert e ≡ found (vram_slot k lp e)
unfolding vram_table vram_slot found
table-slot k lp n_expert e within = elim (Bool-cases (vram_open k lp)) [
  | inr closed ↦
      let a : (not k.has_vram || (lp.g_slots == 0) || lp.g_lent || not (ltb e n_expert)) ≡ true =
        ground arith in
      rw (a, closed, vram_table, vram_slot) refl
  | inl open_now ↦
      let a : (not k.has_vram || (lp.g_slots == 0) || lp.g_lent || not (ltb e n_expert)) ≡ false =
        ground arith in
      elim (Option-cases (lp.g_expert_slot e)) [
        | inl absent ↦ rw (a, open_now, absent, vram_table, vram_slot) refl
        | inr (g, at) ↦ elim (Bool-cases (lp.g_valid g && holds (lp.g_slot_expert g) e)) [
          | inl here ↦ rw (a, open_now, at, here, vram_table, vram_slot) refl
          | inr gone ↦ rw (a, open_now, at, gone, vram_table, vram_slot) refl
        ]
      ]
]

-- A handle of a block that was in the VRAM tier before the fetch.
abbrev settled : Handle → Bool
settled h = h.on_gpu && not h.late

-- None of the other ways of serving an expert gives such a handle.
Late : Option Handle → Type 0
Late o = (h : Handle) → o ≡ some h → settled h ≡ false

one-Late : (x : Handle) → settled x ≡ false → Late (some x)
unfolding Late
one-Late x late h same = subst (λ y. settled y ≡ false) (some-injective x h same) late

none-Late : Late none
unfolding Late
none-Late h never = ground arith

served-Late : (c : Cache) (e s : ℕ) (cold : Bool) (o : Option ℕ) → Late (served c e s cold o).1
unfolding served
served-Late c e s cold none = one-Late _ refl
served-Late c e s cold (some g) = one-Late _ refl

read_into-Late :
    (ranges : Bool → ℕ → ℕ → Bool) (c : Cache) (e v : ℕ) (up cold : Bool)
    → Late (read_into ranges c e v up cold).1
unfolding read_into
read_into-Late ranges c e v up cold = elim (Bool-cases (ranges cold c.layer e)) [
  | inl b ↦ rw (b, read_into) (one-Late _ refl)
  | inr b ↦ rw (b, read_into) none-Late
]

serve_miss-Late :
    (k : Config) (ranges : Bool → ℕ → ℕ → Bool) (c : Cache) (e : ℕ) (o : Option ℕ)
    → Late (serve_miss k ranges c e o).1
unfolding serve_miss
serve_miss-Late k ranges c e o =
    let b = k.has_cold && (not (is_some o) && not (c.lp.hotw e)) in
    let (c', would) = ask k c e b in
    let c'' = want_hot c' e (is_some o || would) in
    let seen = record c'' { lp = record c''.lp { seen = update c''.lp.seen e true } } in
    elim (Option-cases (find_room k seen o).1) [
      | inl full ↦ rw (full, serve_miss) none-Late
      | inr (v, at) ↦
          rw (at, serve_miss)
            (read_into-Late ranges (find_room k seen o).0 e v (is_some o)
              (k.has_cold && (not (is_some o) && not (c''.lp.hotw e))))
    ]

serve_ram-Late :
    (k : Config) (ranges : Bool → ℕ → ℕ → Bool) (c : Cache) (e s : ℕ)
    → Late (serve_ram k ranges c e s).1
unfolding serve_ram serve_hit
serve_ram-Late k ranges c e s =
    let (c', would) = ask k c e (c.lp.slot_cold s) in
    elim (Bool-cases would) [
      | inl b ↦ rw (b, serve_ram) (serve_miss-Late k ranges c' e (some s))
      | inr b ↦
          let (d, ok) = promote_hit k (touch c' s) e s in
          rw (b, serve_ram)
            (served-Late (record d { promoted = if ok then suc d.promoted else d.promoted }) e s
              ((touch c' s).lp.slot_cold s) (if ok then d.lp.g_expert_slot e else none))
    ]

-- What a graph that ran before the fetch has seen of an expert, and what the fetch then hands back.
pub record Agrees (t : ℕ × Bool) (o : Option Handle) : Type 0 where
  pub seen :
      t.1 ≡ true
      → o ≡ some (record { on_gpu = true; slot = t.0; late = false; cold = false; is_ready = true })
  pub unseen : t.1 ≡ false → (h : Handle) → o ≡ some h → (h.on_gpu && not h.late) ≡ false

-- The preamble of a fetch leaves the VRAM tier's residents where they are.
vram_slot-touch_gpu :
    (k : Config) (c : Cache) (e g : ℕ) → vram_slot k (touch_gpu c g).lp e ≡ vram_slot k c.lp e
unfolding touch_gpu vram_slot
vram_slot-touch_gpu k c e g = refl

vram_slot-touch_all :
    (k : Config) (c : Cache) (e : ℕ) (es : List ℕ)
    → vram_slot k (touch_all k c es).lp e ≡ vram_slot k c.lp e
unfolding touch_all
vram_slot-touch_all k c e [] = refl
vram_slot-touch_all k c e (x ∷ es) = elim (Option-cases (vram_slot k c.lp x)) [
  | inl absent ↦ rw (absent, touch_all) (vram_slot-touch_all k c e es)
  | inr (g, at) ↦
      rw (at, touch_all) (vram_slot-touch_all k (touch_gpu c g) e es ∙ vram_slot-touch_gpu k c e g)
]

lp-list_live : (c : Cache) (es : List ℕ) → (list_live c es).lp ≡ c.lp
unfolding list_live
lp-list_live c [] = refl
lp-list_live c (e ∷ es) = elim (Option-cases (c.lp.expert_slot e)) [
  | inl absent ↦ rw (absent, list_live) (lp-list_live c es)
  | inr (s, at) ↦ elim (Bool-cases (holds (c.lp.slot_expert s) e)) [
    | inl y ↦ rw (at, y, list_live) (lp-list_live (record c { live = s ∷ c.live }) es)
    | inr n ↦ rw (at, n, list_live) (lp-list_live c es)
  ]
]

vram_slot-begin :
    (k : Config) (c : Cache) (e : ℕ) (es : List ℕ)
    → vram_slot k (begin k c es).lp e ≡ vram_slot k c.lp e
unfolding begin
vram_slot-begin k c e es =
    let started = record c {
      tick = suc c.tick;
      fetch_epoch = suc c.tick;
      fetch_count = suc c.fetch_count;
      live = [];
      pending = [];
      promoted = 0;
      misses = [];
    } in
    ap (λ lp. vram_slot k lp e) (lp-list_live (touch_all k started es) es)
    ∙ vram_slot-touch_all k started e es

serve_now-Agrees :
    (k : Config) (ranges : Bool → ℕ → ℕ → Bool) (c : Cache) (e : ℕ)
    → Agrees (found (vram_slot k c.lp e)) (serve k ranges c e).1
unfolding serve serve_gpu serve_claimed Late found
serve_now-Agrees k ranges c e = (elim (Option-cases (vram_slot k c.lp e)) [
  | inr (g, at) ↦ rw (at, serve) record { seen = λ y. refl; unseen = λ never. ground arith }
  | inl absent ↦ elim (Option-cases (claimed c.lp e)) [
    | inr (s, at) ↦
        rw (absent, at, serve)
          record { seen = λ never. ground arith; unseen = λ y. one-Late _ refl }
    | inl landed ↦ elim (Option-cases (find_slot c.lp e)) [
      | inr (s, at) ↦
          rw (absent, landed, at, serve)
            record { seen = λ never. ground arith; unseen = λ y. serve_ram-Late k ranges c e s }
      | inl miss ↦
          rw (absent, landed, miss, serve)
            record { seen = λ never. ground arith; unseen = λ y. serve_miss-Late k ranges c e none }
    ]
  ]
])

-- For an expert of the model, and the table read before a fetch: where the table's mask lets the expert
-- through, serving it next once the fetch has begun hands back a ready handle of the table's slot of
-- the VRAM tier, not marked late; where the mask does not, no handle of the VRAM tier is handed back
-- but one that is marked late.
pub serve-Agrees :
    (k : Config) (ranges : Bool → ℕ → ℕ → Bool) (c : Cache) (es : List ℕ) (n_expert e : ℕ)
    → e < n_expert
    → Agrees (vram_table k c.lp n_expert e) (serve k ranges (begin k c es) e).1
serve-Agrees k ranges c es n_expert e within =
    subst (λ t. Agrees t (serve k ranges (begin k c es) e).1)
      (sym (table-slot k c.lp n_expert e within ∙ ap found (sym (vram_slot-begin k c e es))))
      (serve_now-Agrees k ranges (begin k c es) e)
