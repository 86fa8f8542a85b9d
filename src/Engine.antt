-- ===== src/Engine.antt =====
-- `engine::reset`, `checkpoint_bytes`, `checkpoint_save` and `checkpoint_restore` of src/qwfn_engine.cpp,
-- over the part of the engine that they read and write. A float is its bit pattern.
pub mod Restores
pub mod Bytes
pub mod Examples
use qw_fnfer_xpu.Base.{
  ℕ, suc, zero, ◌+◌, ◌-◌, ◌*◌, ◌≤◌, Bool, true, false, not, ◌&&◌, Option, none, some, List, [], ◌∷◌,
  length, take, leb, ◌==◌, if◌then◌else◌, update,
}
use qw_fnfer_xpu.State.{State}
use qw_fnfer_xpu.State

-- `state_config`, as far as a checkpoint depends on it.
pub record Config : Type 0 where
  pub n_ctx : ℕ
  pub type_k : ℕ
  pub type_v : ℕ
  pub kv_host : Bool
  pub idx_host : Bool

-- `t_hlast` is the wide residuals by row; a row is `n_embd * hc_count` floats.
pub record Engine : Type 0 where
  pub config : Config
  pub row : ℕ
  pub mtp_on : Bool
  pub st : State
  pub n_past : ℕ
  pub st_mtp : State
  pub t_hlast : ℕ → List ℕ
  pub mtp_have_h : Bool
  pub mtp_h_rows : ℕ
  pub mtp_kv_valid : Bool
  pub mtp_draft : Option ℕ
  pub rb_valid : Bool
  pub sc_n : ℕ
  pub pool_dirty : Bool
  pub bias : Option (List ℕ)
  pub ov : List ℕ
  pub ov_pos : List ℕ

-- `engine::checkpoint`.
pub record Checkpoint : Type 0 where
  pub n_past : ℕ
  pub config : Config
  pub st : List ℕ
  pub mtp_st : List ℕ
  pub mtp_h : List ℕ
  pub mtp_kv_valid : Bool

unfoldable pub bytes : Checkpoint → ℕ
bytes k = length k.st + length k.mtp_st + length k.mtp_h * 4

-- The float minus infinity, for every block.
unfoldable pub ninf : List ℕ → List ℕ
ninf [] = []
ninf (x ∷ xs) = 0xff800000 ∷ ninf xs

unfoldable pub ninf_bias : Option (List ℕ) → Option (List ℕ)
ninf_bias none = none
ninf_bias (some xs) = some (ninf xs)

unfoldable pub reset : Engine → Engine
reset e = record e {
  mtp_have_h = false;
  mtp_kv_valid = true;
  mtp_draft = none;
  rb_valid = false;
  st = State.reset e.st;
  n_past = 0;
  sc_n = 0;
  pool_dirty = true;
  bias = ninf_bias e.bias;
}

unfoldable pub clear_embeddings : Engine → Engine
clear_embeddings e = record e { ov = []; ov_pos = [] }

unfoldable pub mtp_ready : Engine → Bool
mtp_ready e = e.mtp_on && e.mtp_have_h && e.mtp_kv_valid

unfoldable pub checkpoint_bytes : Engine → ℕ
checkpoint_bytes e =
    State.checkpoint_bytes e.n_past e.st
    + (if e.mtp_on then State.checkpoint_bytes e.n_past e.st_mtp + e.row * 4 else 0)

unfoldable pub checkpoint_save : Engine → Checkpoint
checkpoint_save e = record {
  n_past = e.n_past;
  config = e.config;
  st = State.save e.n_past e.st;
  mtp_st = if e.mtp_on then State.save e.n_past e.st_mtp else [];
  mtp_h =
      if e.mtp_on && e.mtp_have_h && leb 1 e.mtp_h_rows
      then take e.row (e.t_hlast (e.mtp_h_rows - 1))
      else [];
  mtp_kv_valid = e.mtp_on && e.mtp_kv_valid;
}

unfoldable pub same_flag : Bool → Bool → Bool
same_flag true b = b
same_flag false b = not b

unfoldable pub same_config : Config → Config → Bool
same_config c d =
    (c.n_ctx == d.n_ctx)
    && (c.type_k == d.type_k)
    && (c.type_v == d.type_v)
    && same_flag c.kv_host d.kv_host
    && same_flag c.idx_host d.idx_host

unfoldable pub right_size : Checkpoint → Engine → Bool
right_size k e =
    leb k.n_past e.config.n_ctx && (length k.st == State.checkpoint_bytes k.n_past e.st)

unfoldable pub has_head : Checkpoint → Engine → Bool
has_head k e =
    (length k.mtp_st == State.checkpoint_bytes k.n_past e.st_mtp)
    && (length k.mtp_h == e.row)
    && k.mtp_kv_valid

-- The draft head goes on from its own state, or drafts no more for this sequence.
unfoldable pub restore_head : Checkpoint → Engine → Engine
restore_head k e =
    if has_head k e
    then (record e {
      st_mtp = State.restore k.n_past k.mtp_st e.st_mtp;
      t_hlast = update e.t_hlast 0 k.mtp_h;
      mtp_have_h = true;
      mtp_h_rows = 1;
      mtp_kv_valid = true;
    })
    else (record e { mtp_kv_valid = false })

unfoldable pub restore_all : Checkpoint → Engine → Engine
restore_all k e =
    let r = reset e in
    let r' : Engine =
      record (clear_embeddings (record r { st = State.restore k.n_past k.st r.st })) {
        n_past = k.n_past;
        sc_n = 0;
      } in
    if e.mtp_on then restore_head k r' else r'

-- A restore is refused, and then the engine is as it was, or it succeeds.
pub data Outcome : Type 0 where
  other_configuration wrong_size : Outcome
  restored : Engine → Outcome

unfoldable pub checkpoint_restore : Checkpoint → Engine → Outcome
checkpoint_restore k e =
    if not (same_config k.config e.config)
    then other_configuration
    else if not (right_size k e)
    then wrong_size
    else restored (restore_all k e)
