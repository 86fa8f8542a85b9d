-- ===== src/Ple/Examples.antt =====
-- Runs of the embedding table: trigrams of a sequence with an end of sequence in it, a gather of two
-- rows over 1024 slots, and one over a single slot that two rows share.

use qw_fnfer_xpu.Base.{
  ℕ, ◌+◌, ◌-◌, ◌*◌, ◌≡◌, ◌≢◌, refl, ap, sym, ◌∙◌, inl, inr, Bool, Option, some, List, [], ◌∷◌,
  get_or, length, arith,
}
use qw_fnfer_xpu.Ple.Rows.{
  Hparams, context_from, context, mixed_from, mixed, head_rows, order_rows, ple_rows_for, Within,
  HasRows, ple_rows_for-Within, Sees, context-Sees,
}
use qw_fnfer_xpu.Ple.Cache.{
  Table, Request, init, slot_of, cached, admit, look_up, land, validate, finish, gather,
}
use qw_fnfer_xpu.Ple.Asks.{Inv, Apart, Completes}
use qw_fnfer_xpu.Ple.Gather.{Serves, gather-Serves}

program : Unit {0}
unfolding context_from context mixed_from mixed head_rows order_rows ple_rows_for init slot_of
    cached admit look_up land validate finish gather
program = tt

-- Trigrams, two heads for each order, a hundred rows for each head.
abbrev small : Hparams
small = record {
  ngram_size = 3;
  heads_per_ngram = 2;
  eos = 9;
  multipliers = λ k. k + 3;
  vocab_sizes = λ h. 100;
  offsets = λ h. 0;
}

abbrev sequence : List ℕ
sequence = 4 ∷ 9 ∷ 5 ∷ 6 ∷ []

cut_context : context small sequence 3 ≡ 6 ∷ 5 ∷ 9 ∷ []
unfolding program
cut_context = refl

small-HasRows : HasRows small
small-HasRows h = (omega arith, omega arith)

ple_rows_for-Within_example :
    Within small 0 (ple_rows_for small sequence 3)
    × (length (ple_rows_for small sequence 3) ≡ (3 - 1) * 2)
ple_rows_for-Within_example = ple_rows_for-Within small sequence 3 small-HasRows

context-Sees_example : Sees small sequence 3 1 2 (get_or (context small sequence 3) 2 0)
context-Sees_example = context-Sees small sequence 3 2 (omega arith) (omega arith)

-- Reads that all land, in the order of the requests.
abbrev in_order : List Request → Option (List Request)
in_order qs = some qs

in_order-Completes : Completes in_order
in_order-Completes qs = (qs, refl, (λ q a. a), (λ q a. a))

abbrev fresh : Table
fresh = init 4194304 4096

fresh-Inv : Inv fresh
unfolding program
fresh-Inv = ((λ r s e. absurd (ground arith)), (λ s e. absurd (ground arith)))

parted : slot_of fresh.n_slots 1 ≢ slot_of fresh.n_slots 2
unfolding program
parted e = absurd (omega arith)

pair-Apart : Apart fresh.n_slots (1 ∷ 2 ∷ [])
pair-Apart r r' (inl a) (inl b) e = a ∙ sym b
pair-Apart r r' (inl a) (inr (inl b)) e =
    absurd (parted (sym (ap (slot_of fresh.n_slots) a) ∙ e ∙ ap (slot_of fresh.n_slots) b))
pair-Apart r r' (inr (inl a)) (inl b) e =
    absurd (parted (sym (ap (slot_of fresh.n_slots) b) ∙ sym e ∙ ap (slot_of fresh.n_slots) a))
pair-Apart r r' (inr (inl a)) (inr (inl b)) e = a ∙ sym b
pair-Apart r r' (inl a) (inr (inr b)) e = absurd b
pair-Apart r r' (inr (inl a)) (inr (inr b)) e = absurd b
pair-Apart r r' (inr (inr a)) b e = absurd a

gather-Serves_example : Serves fresh (1 ∷ 2 ∷ []) (gather in_order fresh (1 ∷ 2 ∷ []))
gather-Serves_example =
    gather-Serves in_order fresh (1 ∷ 2 ∷ []) in_order-Completes fresh-Inv pair-Apart

-- With one slot the rows 7 and 8 meet in it. The reads land in the other order, the gather returns
-- true, and the cache then finds row 8 in a slot that holds row 7.
abbrev other_order : List Request → Option (List Request)
other_order (a ∷ b ∷ []) = some (b ∷ a ∷ [])
other_order qs = some qs

abbrev shared : (Table × Bool) × List ℕ
shared = gather other_order (init 4096 4096) (7 ∷ 8 ∷ [])

shared_stale : cached shared.0.0 8 ≡ some 0
unfolding program
shared_stale = refl

shared_wrong : shared.0.0.mem 0 ≡ 7
unfolding program
shared_wrong = refl
