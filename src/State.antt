-- ===== src/State.antt =====
-- `state` of src/qwfn_state.h and src/qwfn_state.cpp: the device's per-sequence tensors, and the
-- checkpoints of their first tokens. A tensor is its bytes. Its allocation is ggml's.
pub mod RoundTrip
pub mod Sizes
pub mod Again
pub mod Examples
use qw_fnfer_xpu.Base.{ℕ, ◌+◌, ◌*◌, Option, none, some, List, [], ◌∷◌, ◌++◌, length, take, drop}

-- A flat cache, and the bytes of one of its rows: `ggml_row_size` of a token's part.
pub record Cache : Type 0 where
  pub row_bytes : ℕ
  pub bytes : List ℕ

pub record Attention : Type 0 where
  pub k : Cache
  pub v : Cache
  pub idx : Cache

pub record Layer : Type 0 where
  pub attention : Option Attention
  pub rs : Option (List ℕ)
  pub conv : Option (List ℕ)

pub record State : Type 0 where
  pub layers : List Layer
  pub ple_conv : Option (List ℕ)

-- The callback of `for_checkpoint`: a tensor and its bytes to visit, with what the callback captures.
abbrev pub Visit : Type 0 → Type 0
Visit R = List ℕ → ℕ → R → List ℕ × R

module _ {R : Type 0} (f : Visit R) (n_tokens : ℕ) where
  unfoldable pub visit_cache : Cache → R → Cache × R
  visit_cache c r =
      let (bytes, r') = f c.bytes (c.row_bytes * n_tokens) r in (record c { bytes = bytes }, r')

  unfoldable pub visit_attention : Option Attention → R → Option Attention × R
  visit_attention none r = (none, r)
  visit_attention (some a) r =
      let (k, r1) = visit_cache a.k r in
      let (v, r2) = visit_cache a.v r1 in
      let (idx, r3) = visit_cache a.idx r2 in (some (record { k = k; v = v; idx = idx }), r3)

  unfoldable pub visit_whole : Option (List ℕ) → R → Option (List ℕ) × R
  visit_whole none r = (none, r)
  visit_whole (some t) r = let (t', r') = f t (length t) r in (some t', r')

  unfoldable pub visit_layers : List Layer → R → List Layer × R
  visit_layers [] r = ([], r)
  visit_layers (l ∷ ls) r =
      let (attention, r1) = visit_attention l.attention r in
      let (rs, r2) = visit_whole l.rs r1 in
      let (conv, r3) = visit_whole l.conv r2 in
      let (ls', r4) = visit_layers ls r3 in
      (record { attention = attention; rs = rs; conv = conv } ∷ ls', r4)

  unfoldable pub for_checkpoint : State → R → State × R
  for_checkpoint s r =
      let (layers, r1) = visit_layers s.layers r in
      let (ple_conv, r2) = visit_whole s.ple_conv r1 in
      (record { layers = layers; ple_conv = ple_conv }, r2)

abbrev pub counting : Visit ℕ
counting t b n = (t, n + b)

-- `ggml_backend_tensor_get` of the tensor's first bytes, appended.
abbrev pub getting : Visit (List ℕ)
getting t b dst = (t, dst ++ take b t)

-- `ggml_backend_tensor_set` of the tensor's first bytes, and the pointer moved on.
abbrev pub setting : Visit (List ℕ)
setting t b src = (take b src ++ drop b t, drop b src)

unfoldable pub checkpoint_bytes : ℕ → State → ℕ
checkpoint_bytes n_tokens s = (for_checkpoint counting n_tokens s 0).1

unfoldable pub save : ℕ → State → List ℕ
save n_tokens s = (for_checkpoint getting n_tokens s []).1

unfoldable pub restore : ℕ → List ℕ → State → State
restore n_tokens src s = (for_checkpoint setting n_tokens s src).0

-- `ggml_backend_tensor_memset` of a whole tensor to 0.
unfoldable pub zeros : List ℕ → List ℕ
zeros [] = []
zeros (x ∷ xs) = 0 ∷ zeros xs

unfoldable pub zeroed : Option (List ℕ) → Option (List ℕ)
zeroed none = none
zeroed (some t) = some (zeros t)

unfoldable pub reset_layers : List Layer → List Layer
reset_layers [] = []
reset_layers (l ∷ ls) = record l { rs = zeroed l.rs; conv = zeroed l.conv } ∷ reset_layers ls

unfoldable pub reset : State → State
reset s = record { layers = reset_layers s.layers; ple_conv = zeroed s.ple_conv }
