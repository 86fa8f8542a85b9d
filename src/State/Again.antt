-- ===== src/State/Again.antt =====
-- A state that was reset and restored, saved again.
use qw_fnfer_xpu.Base.{
  ℕ, suc, ◌+◌, ◌*◌, ◌≡◌, refl, ap, sym, ◌∙◌, Option, none, some, List, [], ◌∷◌, ◌++◌, length, take,
  drop,
}
use qw_fnfer_xpu.State.{
  Cache, Attention, Layer, State, visit_cache, visit_attention, visit_whole, visit_layers,
  for_checkpoint, counting, checkpoint_bytes, save, restore, zeros, zeroed, reset_layers, reset,
}
use qw_fnfer_xpu.State.RoundTrip.{
  cache_bytes, attention_bytes, whole_bytes, layer_bytes, CacheLike, AttentionLike, WholeLike,
  LayersLike, Like, merged_cache, merged_attention, merged_layers, merged, save-bytes, restore-save,
  take_front,
}

length-zeros : (t : List ℕ) → length (zeros t) ≡ length t
unfolding zeros
length-zeros [] = refl
length-zeros (x ∷ t) = ap suc (length-zeros t)

module _ (n : ℕ) where
  merged_cache-bytes :
      (c c' : Cache) → CacheLike n c c' → cache_bytes n (merged_cache n c c') ≡ cache_bytes n c
  merged_cache-bytes c c' (e, h) =
      let b = c.row_bytes * n in
      let same : c'.row_bytes * n ≡ b = ap (λ k. k * n) e in
      ap (λ k. take k (take b c.bytes ++ drop b c'.bytes)) same
      ∙ take_front b c.bytes (drop b c'.bytes) h

  merged_attention-bytes :
      (a b : Option Attention)
      → AttentionLike n a b
      → attention_bytes n (merged_attention n a b) ≡ attention_bytes n a
  merged_attention-bytes none b h = refl
  merged_attention-bytes (some a) none h = absurd h
  merged_attention-bytes (some a) (some b) (hk, (hv, hi)) =
      rw
        (
          merged_cache-bytes a.k b.k hk,
          merged_cache-bytes a.v b.v hv,
          merged_cache-bytes a.idx b.idx hi,
        )
        refl

  merged_layers-bytes :
      (ls ms : List Layer)
      → LayersLike n ls ms
      → layer_bytes n (merged_layers n ls ms) ≡ layer_bytes n ls
  merged_layers-bytes [] ms h = refl
  merged_layers-bytes (l ∷ ls) [] h = absurd h
  merged_layers-bytes (l ∷ ls) (m ∷ ms) (ha, (hr, (hc, hl))) =
      rw (merged_attention-bytes l.attention m.attention ha, merged_layers-bytes ls ms hl) refl

  -- Saving what was restored from a save gives the same bytes again.
  pub save-restore-save : (s t : State) → Like n s t → save n (restore n (save n s) t) ≡ save n s
  save-restore-save s t h =
      ap (save n) (restore-save n s t h)
      ∙ save-bytes n (merged n s t)
      ∙ ap (λ z. z ++ whole_bytes n s.ple_conv) (merged_layers-bytes s.layers t.layers h.0)
      ∙ sym (save-bytes n s)

  zeroed-Like : (a b : Option (List ℕ)) → WholeLike n a b → WholeLike n a (zeroed b)
  unfolding zeroed
  zeroed-Like none none h = tt
  zeroed-Like none (some u) h = absurd h
  zeroed-Like (some t) none h = absurd h
  zeroed-Like (some t) (some u) h = length-zeros u ∙ h

  reset_layers-Like : (ls ms : List Layer) → LayersLike n ls ms → LayersLike n ls (reset_layers ms)
  unfolding reset_layers
  reset_layers-Like [] [] h = tt
  reset_layers-Like [] (m ∷ ms) h = absurd h
  reset_layers-Like (l ∷ ls) [] h = absurd h
  reset_layers-Like (l ∷ ls) (m ∷ ms) (ha, (hr, (hc, hl))) =
      (ha, (zeroed-Like l.rs m.rs hr, (zeroed-Like l.conv m.conv hc, reset_layers-Like ls ms hl)))

  pub reset-Like : (s t : State) → Like n s t → Like n s (reset t)
  unfolding reset
  reset-Like s t (hl, hp) =
      (reset_layers-Like s.layers t.layers hl, zeroed-Like s.ple_conv t.ple_conv hp)

  -- States of the same layout announce the same room.
  same_cache :
      (c c' : Cache) (r : ℕ)
      → CacheLike n c c'
      → (visit_cache counting n c' r).1 ≡ (visit_cache counting n c r).1
  unfolding visit_cache
  same_cache c c' r (e, h) = ap (λ k. r + k * n) e

  same_attention :
      (a b : Option Attention) (r : ℕ)
      → AttentionLike n a b
      → (visit_attention counting n b r).1 ≡ (visit_attention counting n a r).1
  unfolding visit_attention visit_cache
  same_attention none none r h = refl
  same_attention none (some b) r h = absurd h
  same_attention (some a) none r h = absurd h
  same_attention (some a) (some b) r ((ek, _), ((ev, _), (ei, _))) = rw (ek, ev, ei) refl

  same_whole :
      (a b : Option (List ℕ)) (r : ℕ)
      → WholeLike n a b
      → (visit_whole counting n b r).1 ≡ (visit_whole counting n a r).1
  unfolding visit_whole
  same_whole none none r h = refl
  same_whole none (some u) r h = absurd h
  same_whole (some t) none r h = absurd h
  same_whole (some t) (some u) r h = ap (λ k. r + k) h

  same_layers :
      (ls ms : List Layer) (r : ℕ)
      → LayersLike n ls ms
      → (visit_layers counting n ms r).1 ≡ (visit_layers counting n ls r).1
  unfolding visit_layers
  same_layers [] [] r h = refl
  same_layers [] (m ∷ ms) r h = absurd h
  same_layers (l ∷ ls) [] r h = absurd h
  same_layers (l ∷ ls) (m ∷ ms) r (ha, (hr, (hc, hl))) =
      let w : Option (List ℕ) → ℕ → ℕ = λ o j. (visit_whole counting n o j).1 in
      let a = (visit_attention counting n l.attention r).1 in
      ap (λ j. (visit_layers counting n ms (w m.conv (w m.rs j))).1)
        (same_attention l.attention m.attention r ha)
      ∙ ap (λ j. (visit_layers counting n ms (w m.conv j)).1) (same_whole l.rs m.rs a hr)
      ∙ ap (λ j. (visit_layers counting n ms j).1) (same_whole l.conv m.conv (w l.rs a) hc)
      ∙ same_layers ls ms (w l.conv (w l.rs a)) hl

  pub same_room : (s t : State) → Like n s t → checkpoint_bytes n t ≡ checkpoint_bytes n s
  unfolding checkpoint_bytes for_checkpoint
  same_room s t (hl, hp) =
      let a = (visit_layers counting n s.layers 0).1 in
      ap (λ j. (visit_whole counting n t.ple_conv j).1) (same_layers s.layers t.layers 0 hl)
      ∙ same_whole s.ple_conv t.ple_conv a hp
