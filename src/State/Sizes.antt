-- ===== src/State/Sizes.antt =====
-- The room that a checkpoint takes.
use qw_fnfer_xpu.Base.{
  ℕ, ◌+◌, ◌*◌, ◌≡◌, ap, Option, none, some, List, [], ◌∷◌, ◌++◌, take_all, length, length-append,
  length-take, arith,
}
use qw_fnfer_xpu.State.{
  Cache, Attention, Layer, State, visit_cache, visit_attention, visit_whole, visit_layers,
  for_checkpoint, counting, checkpoint_bytes, save,
}
use qw_fnfer_xpu.State.RoundTrip.{
  cache_bytes, attention_bytes, whole_bytes, layer_bytes, CacheLike, AttentionLike, LayersLike,
  Like, save-bytes,
}

module _ (n : ℕ) where
  length-cache_bytes :
      (c c' : Cache) → CacheLike n c c' → length (cache_bytes n c) ≡ c.row_bytes * n
  length-cache_bytes c c' (e, h) = omega (arith, length-take (c.row_bytes * n) c.bytes)

  count_attention :
      (a b : Option Attention) (k : ℕ)
      → AttentionLike n a b
      → (visit_attention counting n a k).1 ≡ k + length (attention_bytes n a)
  unfolding visit_attention visit_cache
  count_attention none b k h = omega arith
  count_attention (some a) none k h = absurd h
  count_attention (some a) (some b) k (hk, (hv, hi)) = omega (
    arith,
    length-append (cache_bytes n a.k) (cache_bytes n a.v ++ cache_bytes n a.idx),
    length-append (cache_bytes n a.v) (cache_bytes n a.idx),
    length-cache_bytes a.k b.k hk,
    length-cache_bytes a.v b.v hv,
    length-cache_bytes a.idx b.idx hi,
  )

  count_whole :
      (t : Option (List ℕ)) (k : ℕ) → (visit_whole counting n t k).1 ≡ k + length (whole_bytes n t)
  unfolding visit_whole
  count_whole none k = omega arith
  count_whole (some t) k = omega (arith, ap length (take_all (length t) t (omega arith)))

  count_layers :
      (ls ms : List Layer) (k : ℕ)
      → LayersLike n ls ms
      → (visit_layers counting n ls k).1 ≡ k + length (layer_bytes n ls)
  unfolding visit_layers
  count_layers [] ms k h = omega arith
  count_layers (l ∷ ls) [] k h = absurd h
  count_layers (l ∷ ls) (m ∷ ms) k (ha, (hr, (hc, hl))) =
      let k1 = (visit_attention counting n l.attention k).1 in
      let k2 = (visit_whole counting n l.rs k1).1 in
      let k3 = (visit_whole counting n l.conv k2).1 in
      omega (
        arith,
        count_attention l.attention m.attention k ha,
        count_whole l.rs k1,
        count_whole l.conv k2,
        count_layers ls ms k3 hl,
        length-append (attention_bytes n l.attention)
            (whole_bytes n l.rs ++ (whole_bytes n l.conv ++ layer_bytes n ls)),
        length-append (whole_bytes n l.rs) (whole_bytes n l.conv ++ layer_bytes n ls),
        length-append (whole_bytes n l.conv) (layer_bytes n ls),
      )

  -- `save` writes exactly the bytes that `checkpoint_bytes` announces, where the caches have room for
  -- `n` rows.
  pub length-save : (s t : State) → Like n s t → length (save n s) ≡ checkpoint_bytes n s
  unfolding checkpoint_bytes for_checkpoint
  length-save s t h = omega (
    arith,
    ap length (save-bytes n s),
    length-append (layer_bytes n s.layers) (whole_bytes n s.ple_conv),
    count_layers s.layers t.layers 0 h.0,
    count_whole s.ple_conv (visit_layers counting n s.layers 0).1,
  )
