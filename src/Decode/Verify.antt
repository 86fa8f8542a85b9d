-- ===== src/Decode/Verify.antt =====
-- The verification of the drafts, position by position: in the decode loop of `generate` in
-- tools/qwfn_server.cpp, where a draft is accepted when the trunk's own pick is the draft.
pub mod Agrees
use qw_fnfer_xpu.Base.{
  ℕ, suc, Bool, true, false, Option, none, some, List, [], ◌∷◌, ◌==◌, if◌then◌else◌,
}
use qw_fnfer_xpu.Decode.Parts.{Parts}

module _ (m : Parts) where
  -- How many drafts were accepted, and the token picked in place of the first that was not.
  pub record Verdict : Type 0 where
    pub accepted : ℕ
    pub smp : m.S
    pub policy : m.P
    pub rejected : Option ℕ

  abbrev pub one_more : Verdict → Verdict
  one_more v = record v { accepted = suc v.accepted }

  -- The means of acceptance are the head's: a lookup step leaves them alone.
  unfoldable pub noted : Bool → m.P → ℕ → Bool → m.P
  noted lk_step p j accept = if lk_step then p else m.judged p j accept

  unfoldable pub verify : m.E → Bool → List ℕ → ℕ → m.S → m.P → Verdict
  verify e lk_step [] j smp p = record { accepted = 0; smp = smp; policy = p; rejected = none }
  verify e lk_step (d ∷ ds) j smp p =
      let (y, smp') = m.pick smp (m.logits_pos e j) in
      elim (y == d) [
        | true ↦ one_more (verify e lk_step ds (suc j) (m.gen_push smp' d) (noted lk_step p j true))
        | false ↦ record {
          accepted = 0;
          smp = smp';
          policy = noted lk_step p j false;
          rejected = some y;
        }
      ]
