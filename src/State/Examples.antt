-- ===== src/State/Examples.antt =====
-- A checkpoint of one token of a state with an attention layer and a recurrent one.
use qw_fnfer_xpu.Base.{ℕ, ◌≡◌, refl, none, some, [], ◌∷◌, arith}
use qw_fnfer_xpu.State.{
  Cache, State, visit_cache, visit_attention, visit_whole, visit_layers, for_checkpoint,
  checkpoint_bytes, save, restore,
}
use qw_fnfer_xpu.State.RoundTrip.{Like, merged, restore-save}

program : Unit {0}
unfolding visit_cache visit_attention visit_whole visit_layers for_checkpoint checkpoint_bytes save
    restore
program = tt

abbrev rows : ℕ → Cache
rows x = record { row_bytes = 2; bytes = x ∷ x ∷ 0 ∷ 0 ∷ [] }

abbrev state_of : ℕ → State
state_of x = record {
  layers =
      record {
        attention = some (record { k = rows x; v = rows x; idx = rows x });
        rs = none;
        conv = none;
      }
      ∷ record { attention = none; rs = some (x ∷ []); conv = some (x ∷ x ∷ []) }
      ∷ [];
  ple_conv = some (x ∷ []);
}

announced : checkpoint_bytes 1 (state_of 7) ≡ 10
unfolding program
announced = refl

same_layout : Like 1 (state_of 7) (state_of 5)
same_layout = (
  (
    ((refl, omega arith), ((refl, omega arith), (refl, omega arith))),
    (tt, (tt, (tt, (refl, (refl, tt))))),
  ),
  refl,
)

restore-save_example :
    restore 1 (save 1 (state_of 7)) (state_of 5) ≡ merged 1 (state_of 7) (state_of 5)
restore-save_example = restore-save 1 (state_of 7) (state_of 5) same_layout
