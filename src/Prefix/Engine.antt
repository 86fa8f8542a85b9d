-- ===== src/Prefix/Engine.antt =====
-- What the prefix cache uses of the engine and of the JSON library.
use qw_fnfer_xpu.Base.{ℕ, ◌≤◌, ◌≡◌, Bool, Option, some, List, [], length}

-- `engine` as the server sees it: `save` is none where `checkpoint_save` fails or runs out of memory,
-- `restore` where `checkpoint_restore` refuses. `size` is `checkpoint::bytes()`.
pub record Engine : Type 1 where
  pub E : Type 0
  pub C : Type 0
  pub n_past : E → ℕ
  pub checkpoint_bytes : E → ℕ
  pub size : C → ℕ
  pub save : E → Option C
  pub restore : E → C → Option E
  pub reset : E → E

-- The tokens that an engine's state has consumed, and what a checkpoint does with them: it takes no
-- more room than was announced, and its restoring brings the tokens back;
-- a reset engine has consumed none.
pub record Faithful (g : Engine) (seq : g.E → List ℕ) : Type 0 where
  pub past : (e : g.E) → g.n_past e ≡ length (seq e)
  pub save_size : (e : g.E) (k : g.C) → g.save e ≡ some k → g.size k ≤ g.checkpoint_bytes e
  pub restore_save :
      (e e' e'' : g.E) (k : g.C) → g.save e ≡ some k → g.restore e' k ≡ some e'' → seq e'' ≡ seq e
  pub reset_empties : (e : g.E) → seq (g.reset e) ≡ []

-- A request's message list, of which the server asks whether it is an array or null, and its size.
pub record Json : Type 1 where
  pub J : Type 0
  pub null : J
  pub is_array : J → Bool
  pub is_null : J → Bool
  pub dump_size : J → ℕ
