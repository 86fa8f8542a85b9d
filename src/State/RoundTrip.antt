-- ===== src/State/RoundTrip.antt =====
-- A checkpoint saved and restored.
use qw_fnfer_xpu.Base.{
  ++_assoc, ++_nil, take_all, ℕ, suc, zero, ◌*◌, ◌≤◌, ◌≡◌, refl, ap, sym, ◌∙◌, Option, none, some,
  List, [], ◌∷◌, ◌++◌, length, take, drop, arith,
}
use qw_fnfer_xpu.State.{
  Cache, Attention, Layer, State, visit_cache, visit_attention, visit_whole, visit_layers,
  for_checkpoint, getting, setting, save, restore,
}

pub take_front : (b : ℕ) (t r : List ℕ) → b ≤ length t → take b (take b t ++ r) ≡ take b t
take_front zero t r h = refl
take_front (suc b) [] r h = absurd (omega arith)
take_front (suc b) (x ∷ t) r h = ap (λ l. x ∷ l) (take_front b t r (omega arith))

drop_front : (b : ℕ) (t r : List ℕ) → b ≤ length t → drop b (take b t ++ r) ≡ r
drop_front zero t r h = refl
drop_front (suc b) [] r h = absurd (omega arith)
drop_front (suc b) (x ∷ t) r h = drop_front b t r (omega arith)

module _ (n : ℕ) where
  -- The bytes that a checkpoint holds of each part, written apart from the traversal.
  abbrev pub cache_bytes : Cache → List ℕ
  cache_bytes c = take (c.row_bytes * n) c.bytes

  abbrev pub attention_bytes : Option Attention → List ℕ
  attention_bytes none = []
  attention_bytes (some a) = cache_bytes a.k ++ (cache_bytes a.v ++ cache_bytes a.idx)

  abbrev pub whole_bytes : Option (List ℕ) → List ℕ
  whole_bytes none = []
  whole_bytes (some t) = take (length t) t

  abbrev pub layer_bytes : List Layer → List ℕ
  layer_bytes [] = []
  layer_bytes (l ∷ ls) =
      attention_bytes l.attention ++ (whole_bytes l.rs ++ (whole_bytes l.conv ++ layer_bytes ls))

  -- The same layout, with room for `n` tokens.
  abbrev pub CacheLike : Cache → Cache → Type 0
  CacheLike c c' = (c'.row_bytes ≡ c.row_bytes) × (c.row_bytes * n ≤ length c.bytes)

  abbrev pub AttentionLike : Option Attention → Option Attention → Type 0
  AttentionLike none none = Unit {0}
  AttentionLike none (some b) = ⊥
  AttentionLike (some a) none = ⊥
  AttentionLike (some a) (some b) = CacheLike a.k b.k × (CacheLike a.v b.v × CacheLike a.idx b.idx)

  abbrev pub WholeLike : Option (List ℕ) → Option (List ℕ) → Type 0
  WholeLike none none = Unit {0}
  WholeLike none (some u) = ⊥
  WholeLike (some t) none = ⊥
  WholeLike (some t) (some u) = length u ≡ length t

  abbrev pub LayersLike : List Layer → List Layer → Type 0
  LayersLike [] [] = Unit {0}
  LayersLike [] (l ∷ ls) = ⊥
  LayersLike (l ∷ ls) [] = ⊥
  LayersLike (l ∷ ls) (m ∷ ms) =
      AttentionLike l.attention m.attention
      × (WholeLike l.rs m.rs × (WholeLike l.conv m.conv × LayersLike ls ms))

  abbrev pub Like : State → State → Type 0
  Like s t = LayersLike s.layers t.layers × WholeLike s.ple_conv t.ple_conv

  save_cache : (c : Cache) (dst : List ℕ) → visit_cache getting n c dst ≡ (c, dst ++ cache_bytes c)
  unfolding visit_cache
  save_cache c dst = refl

  save_attention :
      (a : Option Attention) (dst : List ℕ)
      → (visit_attention getting n a dst).1 ≡ dst ++ attention_bytes a
  unfolding visit_attention visit_cache
  save_attention none dst = sym (++_nil dst)
  save_attention (some a) dst =
      ++_assoc (dst ++ cache_bytes a.k) (cache_bytes a.v) (cache_bytes a.idx)
      ∙ ++_assoc dst (cache_bytes a.k) (cache_bytes a.v ++ cache_bytes a.idx)

  save_whole :
      (t : Option (List ℕ)) (dst : List ℕ) → (visit_whole getting n t dst).1 ≡ dst ++ whole_bytes t
  unfolding visit_whole
  save_whole none dst = sym (++_nil dst)
  save_whole (some t) dst = refl

  save_layers :
      (ls : List Layer) (dst : List ℕ) → (visit_layers getting n ls dst).1 ≡ dst ++ layer_bytes ls
  unfolding visit_layers
  save_layers [] dst = sym (++_nil dst)
  save_layers (l ∷ ls) dst =
      let d1 = (visit_attention getting n l.attention dst).1 in
      let d2 = (visit_whole getting n l.rs d1).1 in
      let d3 = (visit_whole getting n l.conv d2).1 in
      let a = attention_bytes l.attention in
      let b = whole_bytes l.rs in
      let c = whole_bytes l.conv in
      save_layers ls d3
      ∙ ap (λ x. x ++ layer_bytes ls)
          (save_whole l.conv d2
            ∙ ap (λ x. x ++ c)
                (save_whole l.rs d1 ∙ ap (λ x. x ++ b) (save_attention l.attention dst)))
      ∙ ++_assoc ((dst ++ a) ++ b) c (layer_bytes ls)
      ∙ ++_assoc (dst ++ a) b (c ++ layer_bytes ls)
      ∙ ++_assoc dst a (b ++ (c ++ layer_bytes ls))

  pub save-bytes : (s : State) → save n s ≡ layer_bytes s.layers ++ whole_bytes s.ple_conv
  unfolding save for_checkpoint
  save-bytes s =
      save_whole s.ple_conv (visit_layers getting n s.layers []).1
      ∙ ap (λ x. x ++ whole_bytes s.ple_conv) (save_layers s.layers [])

  -- The old part's tensors with the first `n` rows of the saved ones.
  abbrev pub merged_cache : Cache → Cache → Cache
  merged_cache c c' = record c' {
    bytes = take (c.row_bytes * n) c.bytes ++ drop (c.row_bytes * n) c'.bytes;
  }

  abbrev pub merged_attention : Option Attention → Option Attention → Option Attention
  merged_attention none b = none
  merged_attention (some a) none = none
  merged_attention (some a) (some b) = some (record {
    k = merged_cache a.k b.k;
    v = merged_cache a.v b.v;
    idx = merged_cache a.idx b.idx;
  })

  abbrev pub merged_layers : List Layer → List Layer → List Layer
  merged_layers [] ms = []
  merged_layers (l ∷ ls) [] = []
  merged_layers (l ∷ ls) (m ∷ ms) =
      record { attention = merged_attention l.attention m.attention; rs = l.rs; conv = l.conv }
      ∷ merged_layers ls ms

  abbrev pub merged : State → State → State
  merged s t = record { layers = merged_layers s.layers t.layers; ple_conv = s.ple_conv }

  restore_cache :
      (c c' : Cache) (r : List ℕ)
      → CacheLike c c'
      → visit_cache setting n c' (cache_bytes c ++ r) ≡ (merged_cache c c', r)
  unfolding visit_cache
  restore_cache c c' r (e, h) =
      let same : c'.row_bytes * n ≡ c.row_bytes * n = ap (λ k. k * n) e in
      rw (same, take_front (c.row_bytes * n) c.bytes r h, drop_front (c.row_bytes * n) c.bytes r h)
        refl

  restore_attention :
      (a b : Option Attention) (r : List ℕ)
      → AttentionLike a b
      → visit_attention setting n b (attention_bytes a ++ r) ≡ (merged_attention a b, r)
  unfolding visit_attention
  restore_attention none none r h = refl
  restore_attention none (some b) r h = absurd h
  restore_attention (some a) none r h = absurd h
  restore_attention (some a) (some b) r (hk, (hv, hi)) =
      let ek = restore_cache a.k b.k (cache_bytes a.v ++ (cache_bytes a.idx ++ r)) hk in
      let ev = restore_cache a.v b.v (cache_bytes a.idx ++ r) hv in
      let ei = restore_cache a.idx b.idx r hi in
      rw
        (
          ++_assoc (cache_bytes a.k) (cache_bytes a.v ++ cache_bytes a.idx) r,
          ++_assoc (cache_bytes a.v) (cache_bytes a.idx) r,
          visit_attention,
          ek,
          ev,
          ei,
        )
        refl

  drop_all : (t : List ℕ) → drop (length t) t ≡ []
  drop_all [] = refl
  drop_all (x ∷ t) = drop_all t

  restore_whole :
      (a b : Option (List ℕ)) (r : List ℕ)
      → WholeLike a b
      → visit_whole setting n b (whole_bytes a ++ r) ≡ (a, r)
  unfolding visit_whole
  restore_whole none none r h = refl
  restore_whole none (some u) r h = absurd h
  restore_whole (some t) none r h = absurd h
  restore_whole (some t) (some u) r h =
      rw
        (
          drop_all u,
          h,
          take_front (length t) t r (omega arith),
          drop_front (length t) t r (omega arith),
          take_all (length t) t (omega arith),
          ++_nil t,
        )
        refl

  restore_layers :
      (ls ms : List Layer) (r : List ℕ)
      → LayersLike ls ms
      → visit_layers setting n ms (layer_bytes ls ++ r) ≡ (merged_layers ls ms, r)
  unfolding visit_layers
  restore_layers [] [] r h = refl
  restore_layers [] (m ∷ ms) r h = absurd h
  restore_layers (l ∷ ls) [] r h = absurd h
  restore_layers (l ∷ ls) (m ∷ ms) r (ha, (hr, (hc, hl))) =
      let a = attention_bytes l.attention in
      let b = whole_bytes l.rs in
      let c = whole_bytes l.conv in
      let d = layer_bytes ls in
      let ea = restore_attention l.attention m.attention (b ++ (c ++ (d ++ r))) ha in
      let er = restore_whole l.rs m.rs (c ++ (d ++ r)) hr in
      let ec = restore_whole l.conv m.conv (d ++ r) hc in
      let el = restore_layers ls ms r hl in
      rw
        (
          ++_assoc a (b ++ (c ++ d)) r,
          ++_assoc b (c ++ d) r,
          ++_assoc c d r,
          visit_layers,
          ea,
          er,
          ec,
          el,
        )
        refl

  -- Restoring what `save` wrote for the first `n` tokens, into a state of the same layout, brings back
  -- the recurrent and convolution states and the first `n` rows of every cache; the later rows stay as
  -- they were. The saved caches have room for `n` rows.
  pub restore-save : (s t : State) → Like s t → restore n (save n s) t ≡ merged s t
  unfolding restore for_checkpoint
  restore-save s t h =
      let el = restore_layers s.layers t.layers (whole_bytes s.ple_conv) h.0 in
      let ep = restore_whole s.ple_conv t.ple_conv [] h.1 in
      let ep' =
        ap (λ x. visit_whole setting n t.ple_conv x) (sym (++_nil (whole_bytes s.ple_conv))) ∙ ep in
      rw (save-bytes s, el, ep') refl
