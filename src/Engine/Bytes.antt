-- ===== src/Engine/Bytes.antt =====
-- The room that a checkpoint of the engine takes.
use qw_fnfer_xpu.Base.{
  ℕ, ◌+◌, ◌-◌, ◌*◌, ◌≤◌, ◌≡◌, refl, Bool, true, false, ◌&&◌, List, [], length, take, leb,
  if◌then◌else◌, length-take, arith,
}
use qw_fnfer_xpu.State.{State}
use qw_fnfer_xpu.State
use qw_fnfer_xpu.State.RoundTrip.{Like}
use qw_fnfer_xpu.State.Sizes.{length-save}
use qw_fnfer_xpu.Engine.{Engine, bytes, checkpoint_bytes, checkpoint_save}

-- Every cache of the state has room for `n` rows: its layout is its own.
abbrev pub HasRoom : ℕ → State → Type 0
HasRoom n s = Like n s s

length-if : (b : Bool) (xs : List ℕ) → length (if b then xs else []) ≤ length xs
length-if true xs = omega arith
length-if false xs = omega arith

module _ (e : Engine) where
  abbrev head_row : List ℕ
  head_row = take e.row (e.t_hlast (e.mtp_h_rows - 1))

  -- What the head's part of a checkpoint comes to, with the head on or off.
  head_part :
      (on : Bool)
      → (on ≡ true → HasRoom e.n_past e.st_mtp)
      → length (if on then State.save e.n_past e.st_mtp else [])
          + length (if on && e.mtp_have_h && leb 1 e.mtp_h_rows then head_row else []) * 4
        ≤ (if on then State.checkpoint_bytes e.n_past e.st_mtp + e.row * 4 else 0)
  head_part false room = omega arith
  head_part true room = omega (
    arith,
    length-save e.n_past e.st_mtp e.st_mtp (room refl),
    length-if (e.mtp_have_h && leb 1 e.mtp_h_rows) head_row,
    length-take e.row (e.t_hlast (e.mtp_h_rows - 1)),
  )

  -- A checkpoint takes no more room than `checkpoint_bytes` announced before it was made, for an engine
  -- whose caches have room for its position, and those of its draft head too where it has one.
  pub bytes-checkpoint_save :
      HasRoom e.n_past e.st
      → (e.mtp_on ≡ true → HasRoom e.n_past e.st_mtp)
      → bytes (checkpoint_save e) ≤ checkpoint_bytes e
  unfolding bytes checkpoint_save checkpoint_bytes
  bytes-checkpoint_save room head_room =
      omega (arith, length-save e.n_past e.st e.st room, head_part e.mtp_on head_room)
