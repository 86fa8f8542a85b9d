-- ===== src/Engine/Examples.antt =====
-- A checkpoint at one token with a draft head that is ready, restored into an engine that stood
-- elsewhere.
use qw_fnfer_xpu.Base.{ℕ, ◌≤◌, ◌≡◌, refl, true, false, none, some, [], ◌∷◌, arith}
use qw_fnfer_xpu.State.{State, Cache, save}
use qw_fnfer_xpu.State.RoundTrip.{Like}
use qw_fnfer_xpu.Engine.{
  Engine, bytes, mtp_ready, checkpoint_bytes, checkpoint_save, checkpoint_restore, restored,
}
use qw_fnfer_xpu.Engine.Restores.{Alike, checkpoint_restore-save}
use qw_fnfer_xpu.Engine.Bytes.{HasRoom, bytes-checkpoint_save}

abbrev rows : ℕ → Cache
rows x = record { row_bytes = 2; bytes = x ∷ x ∷ 0 ∷ 0 ∷ [] }

abbrev state_of : ℕ → State
state_of x = record {
  layers =
      record {
        attention = some (record { k = rows x; v = rows x; idx = rows x });
        rs = some (x ∷ []);
        conv = none;
      }
      ∷ [];
  ple_conv = some (x ∷ []);
}

abbrev head_of : ℕ → State
head_of x = record { layers = []; ple_conv = some (x ∷ x ∷ []) }

abbrev engine_of : ℕ → ℕ → Engine
engine_of x n = record {
  config = record { n_ctx = 2; type_k = 1; type_v = 1; kv_host = true; idx_host = false };
  row = 2;
  mtp_on = true;
  st = state_of x;
  n_past = n;
  st_mtp = head_of x;
  t_hlast = λ i. x ∷ i ∷ [];
  mtp_have_h = true;
  mtp_h_rows = 1;
  mtp_kv_valid = true;
  mtp_draft = some 3;
  rb_valid = true;
  sc_n = 1;
  pool_dirty = false;
  bias = some (0 ∷ []);
  ov = [];
  ov_pos = 1 ∷ [];
}

state_Like : Like 1 (state_of 7) (state_of 5)
state_Like =
    ((((refl, omega arith), ((refl, omega arith), (refl, omega arith))), (refl, (tt, tt))), refl)

alike : Alike (engine_of 7 1) (engine_of 5 2)
alike = record {
  config = refl;
  row = refl;
  mtp_on = refl;
  st = state_Like;
  st_mtp = (tt, refl);
  within = omega arith;
  rows = λ i. refl;
  has_row = omega arith;
  has_floats = omega arith;
}

checkpoint_restore-save_example :
    (e'' : Engine) × (checkpoint_restore (checkpoint_save (engine_of 7 1)) (engine_of 5 2)
      ≡ restored e'')
    × (e''.n_past ≡ 1)
    × (save 1 e''.st ≡ save 1 (state_of 7))
    × (mtp_ready e'' ≡ mtp_ready (engine_of 7 1))
    × (e''.ov_pos ≡ [])
    × (mtp_ready (engine_of 7 1) ≡ true → checkpoint_save e'' ≡ checkpoint_save (engine_of 7 1))
checkpoint_restore-save_example = checkpoint_restore-save (engine_of 7 1) (engine_of 5 2) alike

own_room : HasRoom 1 (state_of 7)
own_room =
    ((((refl, omega arith), ((refl, omega arith), (refl, omega arith))), (refl, (tt, tt))), refl)

bytes-checkpoint_save_example :
    bytes (checkpoint_save (engine_of 7 1)) ≤ checkpoint_bytes (engine_of 7 1)
bytes-checkpoint_save_example = bytes-checkpoint_save (engine_of 7 1) own_room (λ on. (tt, refl))
