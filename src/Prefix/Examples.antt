-- ===== src/Prefix/Examples.antt =====
-- Runs of the prefix cache over an engine whose state is its token list, saved and restored as it is,
-- ten bytes a token, and message lists that are a null or an array of some size.

use qw_fnfer_xpu.Base.{
  ℕ, ◌*◌, ◌≡◌, refl, sym, ap, ◌∙◌, ◌⊎◌, inl, false, some, List, [], ◌∷◌, length, ltb, ◌==◌, arith,
}
use qw_fnfer_xpu.Prefix.Engine.{Engine, Faithful, Json}
use qw_fnfer_xpu.Prefix.Server.{
  Entry, Server, Prompt, no_reply, equal_prefix, meta_bytes, find_img, imgs_before, same_images,
  prefix_reuse, pool_find, lru_from, erase_at, bytes_at, pool_erase, evict_rounds, pool_evict_to,
  touch, supersede, push, save_into, pool_save, supersede_all, pool_boundary_save, covered_by,
  matches, longest, stamp, restore_hit, id_of, switch_to, pool_switch, settle_sequence,
}
use qw_fnfer_xpu.Prefix.Evict.{Evicted, pool_evict_to-Evicted}
use qw_fnfer_xpu.Prefix.Kept.{Renewed}
use qw_fnfer_xpu.Prefix.Accounts.{Inv, settle_sequence-Inv}
use qw_fnfer_xpu.Prefix.Room.{Fits, pool_save-Fits, pool_boundary_save-Fits}
use qw_fnfer_xpu.Prefix.Keep.{pool_save-Finds}
use qw_fnfer_xpu.Prefix.Restore.{Extends, Agrees, Undisturbed, pool_boundary_save-Undisturbed}
use qw_fnfer_xpu.Prefix.Continue.{Longest, settle_sequence-Agrees, settle_sequence-Longest}

abbrev tape : Engine
tape = record {
  E = List ℕ;
  C = List ℕ;
  n_past = length;
  checkpoint_bytes = λ e. length e * 10;
  size = λ k. length k * 10;
  save = λ e. some e;
  restore = λ e k. some k;
  reset = λ e. [];
}

abbrev messages : Json
messages = record {
  J = ℕ;
  null = 0;
  is_array = λ n. ltb 0 n;
  is_null = λ n. n == 0;
  dump_size = λ n. n;
}

abbrev tokens : List ℕ → List ℕ
tokens e = e

some_injective : (x y : List ℕ) → some x ≡ some y → x ≡ y
some_injective x y e = cc

tape-Faithful : Faithful tape tokens
tape-Faithful = record {
  past = λ e. refl;
  save_size = λ e k h. omega (arith, ap length (some_injective e k h));
  restore_save = λ e e' e'' k h r. sym (some_injective e k h ∙ some_injective k e'' r);
  reset_empties = λ e. refl;
}

cache : Unit {0}
unfolding meta_bytes equal_prefix find_img imgs_before same_images prefix_reuse pool_find lru_from
    erase_at bytes_at pool_erase evict_rounds pool_evict_to touch supersede push save_into pool_save
    supersede_all pool_boundary_save covered_by matches longest stamp restore_hit id_of switch_to
    pool_switch settle_sequence
cache = tt

-- An earlier conversation, cached, and a live one of four tokens; a thousand bytes of budget.
abbrev earlier : Entry tape messages
earlier = record {
  tok = 1 ∷ 2 ∷ 3 ∷ [];
  img = [];
  last = no_reply tape messages;
  ck = 1 ∷ 2 ∷ 3 ∷ [];
  id = 1;
  used = 1;
  boundary = false;
  meta = 12;
}

abbrev live : Server tape messages
live = record {
  eng = 1 ∷ 5 ∷ 6 ∷ 7 ∷ [];
  consumed = 1 ∷ 5 ∷ 6 ∷ 7 ∷ [];
  consumed_img = [];
  last = no_reply tape messages;
  pool = earlier ∷ [];
  pool_budget = 1000;
  pool_bytes = 42;
  pool_min = 2;
  pool_clock = 1;
  pool_next_id = 2;
  parked_bytes = 0;
}

abbrev returning : Prompt
returning = record { tok = 1 ∷ 2 ∷ 3 ∷ 4 ∷ []; splices = []; via = 0 }

restored : (settle_sequence tape messages live returning).eng ≡ 1 ∷ 2 ∷ 3 ∷ []
unfolding cache
restored = refl

filed : length (settle_sequence tape messages live returning).pool ≡ 2
unfolding cache
filed = refl

live-Inv : Inv tape messages live
live-Inv = (refl, (omega arith, omega arith))

live-Agrees : Agrees tape messages tokens live
live-Agrees = (refl, ((λ e e' r. sym (some_injective (1 ∷ 2 ∷ 3 ∷ []) e' r)), tt))

pool_evict_to-Evicted_example :
    Evicted tape messages live 990 0 (pool_evict_to tape messages live 990 0)
pool_evict_to-Evicted_example = pool_evict_to-Evicted tape messages live 990 0 refl

settle_sequence-Inv_example : Inv tape messages (settle_sequence tape messages live returning)
settle_sequence-Inv_example = settle_sequence-Inv tape messages live returning live-Inv

pool_save-Fits_example : Fits tape messages tokens (pool_save tape messages live 1)
pool_save-Fits_example =
    pool_save-Fits tape messages tokens live 1 tape-Faithful refl
      ((λ e. absurd (omega (arith, ap length e))), tt) live-Inv (omega arith)

pool_boundary_save-Fits_example :
    Fits tape messages tokens (pool_boundary_save tape messages live (1 ∷ 5 ∷ 6 ∷ 7 ∷ 8 ∷ []) 4)
pool_boundary_save-Fits_example =
    pool_boundary_save-Fits tape messages tokens live (1 ∷ 5 ∷ 6 ∷ 7 ∷ 8 ∷ []) 4 tape-Faithful
      live-Inv (omega arith)

pool_save-Finds_example :
    (pe' : Entry tape messages) × (pool_find tape messages 1 (pool_save tape messages live 1).pool
      ≡ some pe')
    × Renewed tape messages pe' earlier
unfolding cache
pool_save-Finds_example = pool_save-Finds tape messages live 1 live-Inv earlier refl

pool_boundary_save-Undisturbed_example :
    Undisturbed tape messages tokens live
      (pool_boundary_save tape messages live (1 ∷ 5 ∷ 6 ∷ 7 ∷ 8 ∷ []) 4)
pool_boundary_save-Undisturbed_example =
    pool_boundary_save-Undisturbed tape messages tokens live (1 ∷ 5 ∷ 6 ∷ 7 ∷ 8 ∷ []) 4
      tape-Faithful (λ e. refl) live-Inv live-Agrees.1

settle_sequence-Agrees_example :
    Agrees tape messages tokens (settle_sequence tape messages live returning)
    × (((settle_sequence tape messages live returning).consumed ≡ [])
        ⊎ Extends (1 ∷ 2 ∷ 3 ∷ 4 ∷ []) (settle_sequence tape messages live returning).consumed)
settle_sequence-Agrees_example =
    settle_sequence-Agrees tape messages live returning tokens tape-Faithful live-Inv live-Agrees

settle_sequence-Longest_example :
    Longest tape messages live returning (settle_sequence tape messages live returning)
unfolding cache
settle_sequence-Longest_example =
    settle_sequence-Longest tape messages live returning earlier (λ e k. (k, refl)) refl
      (λ e. absurd (omega arith)) live-Inv (inl refl) refl
