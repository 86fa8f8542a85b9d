-- ===== src/Ple/Cache.antt =====
-- `ple_table`: the direct-mapped cache of rows and the gathering of one position's rows. A slot's
-- memory is the row whose bytes it holds; the reads of a gather land in an order that the io engine
-- decides, a parameter: none where submitting or reaping fails.
use qw_fnfer_xpu.Base.{
  ℕ, ◌-◌, ◌*◌, ◌/◌, ◌%◌, ◌^◌, Bool, true, false, not, ◌&&◌, ◌||◌, Option, none, some, List, [], ◌∷◌,
  ◌==◌, if◌then◌else◌, update,
}

pub record Table : Type 0 where
  pub n_slots : ℕ
  pub slot_row : ℕ → ℕ
  pub slot_valid : ℕ → Bool
  pub index : ℕ → Option ℕ
  pub mem : ℕ → ℕ

pub record Request : Type 0 where
  pub row : ℕ
  pub slot : ℕ

-- `init`: no slot is valid, and no row indexed.
unfoldable pub init : ℕ → ℕ → Table
init row_cache_bytes slot_bytes =
    let n = row_cache_bytes / slot_bytes in
    record {
      n_slots = if n == 0 then 1 else n;
      slot_row = λ _. 2 ^ 64 - 1;
      slot_valid = λ _. false;
      index = λ _. none;
      mem = λ _. 0;
    }

unfoldable pub slot_of : ℕ → ℕ → ℕ
slot_of n_slots row = ((row * 0x9E3779B97F4A7C15) % 2 ^ 64 / 2 ^ 40) % n_slots

unfoldable pub cached : Table → ℕ → Option ℕ
cached t row = elim (t.index row) [
  | none ↦ none
  | some s ↦ if not (t.slot_valid s) || not (t.slot_row s == row) then none else some s
]

unfoldable pub admit : Table → ℕ → Table
admit t row =
    let s = slot_of t.n_slots row in
    let erased =
      if t.slot_valid s && not (t.slot_row s == row)
      then update t.index (t.slot_row s) none
      else t.index in
    record t {
      index = update erased row (some s);
      slot_row = update t.slot_row s row;
      slot_valid = update t.slot_valid s false;
    }

-- The first loop of `gather`: the table, the slots of the payloads, and the requests in their order.
unfoldable pub look_up : Table → List ℕ → Table × (List ℕ × List Request)
look_up t [] = (t, ([], []))
look_up t (row ∷ rows) = elim (cached t row) [
  | some s ↦ let (t', (outs, reqs)) = look_up t rows in (t', (s ∷ outs, reqs))
  | none ↦
      let s = slot_of t.n_slots row in
      let (t', (outs, reqs)) = look_up (admit t row) rows in
      (t', (s ∷ outs, record { row = row; slot = s } ∷ reqs))
]

-- The reads write into their slots.
unfoldable pub land : (ℕ → ℕ) → List Request → ℕ → ℕ
land mem [] = mem
land mem (q ∷ qs) = land (update mem q.slot q.row) qs

-- The last loop: the rows that were needed are valid where they are indexed.
unfoldable pub validate : Table → List Request → Table
validate t [] = t
validate t (q ∷ qs) =
    validate
      (elim (t.index q.row) [
        | none ↦ t
        | some s ↦ record t { slot_valid = update t.slot_valid s true }
      ])
      qs

unfoldable pub finish : Table → List Request → Option (List Request) → Table × Bool
finish t [] order = (t, true)
finish t (q ∷ qs) none = (t, false)
finish t (q ∷ qs) (some order) = (validate (record t { mem = land t.mem order }) (q ∷ qs), true)

unfoldable pub gather :
    (List Request → Option (List Request)) → Table → List ℕ → (Table × Bool) × List ℕ
gather io t rows = let (t', (outs, reqs)) = look_up t rows in (finish t' reqs (io reqs), outs)
