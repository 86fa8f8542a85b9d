-- ===== src/Engine/Restores.antt =====
-- A checkpoint of the engine, restored.
use qw_fnfer_xpu.Base.{
  take_all, and_true, if_true, if_false, ℕ, ◌-◌, ◌≤◌, ◌≡◌, refl, ap, sym, ◌∙◌, subst, Bool, true,
  false, not, ◌&&◌, List, [], length, take, leb, ◌==◌, ==_iff, ==_refl, if◌then◌else◌, update,
  length-take, arith,
}
use qw_fnfer_xpu.State.{State}
use qw_fnfer_xpu.State
use qw_fnfer_xpu.State.RoundTrip.{Like}
use qw_fnfer_xpu.State.Sizes.{length-save}
use qw_fnfer_xpu.State.Again.{save-restore-save, reset-Like, same_room}
use qw_fnfer_xpu.Engine.{
  Config, Engine, Checkpoint, reset, clear_embeddings, mtp_ready, checkpoint_save, same_flag,
  same_config, right_size, has_head, restore_head, restore_all, restored, checkpoint_restore,
}

-- Engines that were set up alike, the first of them with a sequence within the context.
pub record Alike (e e' : Engine) : Type 0 where
  pub config : e'.config ≡ e.config
  pub row : e'.row ≡ e.row
  pub mtp_on : e'.mtp_on ≡ e.mtp_on
  pub st : Like e.n_past e.st e'.st
  pub st_mtp : Like e.n_past e.st_mtp e'.st_mtp
  pub within : e.n_past ≤ e.config.n_ctx
  pub rows : (i : ℕ) → length (e.t_hlast i) ≡ e.row
  pub has_row : 1 ≤ e.mtp_h_rows
  pub has_floats : 1 ≤ e.row

same_flag_refl : (b : Bool) → same_flag b b ≡ true
unfolding same_flag
same_flag_refl true = refl
same_flag_refl false = refl

same_config_refl : (c : Config) → same_config c c ≡ true
unfolding same_config
same_config_refl c =
    rw
      (
        ==_refl c.n_ctx,
        ==_refl c.type_k,
        ==_refl c.type_v,
        same_flag_refl c.kv_host,
        same_flag_refl c.idx_host,
      )
      refl

same_config-same : (c d : Config) → d ≡ c → same_config c d ≡ true
same_config-same c d h = subst (λ z. same_config c z ≡ true) (sym h) (same_config_refl c)

module _ (e e' : Engine) (h : Alike e e') where
  -- The checkpoint, on the three flags of the head.
  abbrev saved : Bool → Bool → Bool → Checkpoint
  saved on have valid = record {
    n_past = e.n_past;
    config = e.config;
    st = State.save e.n_past e.st;
    mtp_st = if on then State.save e.n_past e.st_mtp else [];
    mtp_h =
        if on && have && leb 1 e.mtp_h_rows then take e.row (e.t_hlast (e.mtp_h_rows - 1)) else [];
    mtp_kv_valid = on && valid;
  }

  -- The engine before the head is looked at.
  abbrev bare : Engine
  bare =
      let r = reset e' in
      record (clear_embeddings
        (record r { st = State.restore e.n_past (State.save e.n_past e.st) r.st })) {
          n_past = e.n_past;
          sc_n = 0;
        }

  within : e.n_past ≤ e'.config.n_ctx
  within = subst (λ c. e.n_past ≤ c.n_ctx) (sym h.config) h.within

  st_size :
      (s t : State)
      → Like e.n_past s t
      → (length (State.save e.n_past s) == State.checkpoint_bytes e.n_past t) ≡ true
  st_size s t like =
      (==_iff (length (State.save e.n_past s)) (State.checkpoint_bytes e.n_past t)).1
        (length-save e.n_past s t like ∙ sym (same_room e.n_past s t like))

  right_size-true : (on have valid : Bool) → right_size (saved on have valid) e' ≡ true
  unfolding right_size
  right_size-true on have valid =
      let w = within in
      and_true (leb e.n_past e'.config.n_ctx) _ (ground arith) (st_size e.st e'.st h.st)

  restores :
      (on have valid : Bool)
      → checkpoint_restore (saved on have valid) e'
        ≡ restored (restore_all (saved on have valid) e')
  unfolding checkpoint_restore
  restores on have valid =
      if_false _ _ _ (ap not (same_config-same e.config e'.config h.config))
      ∙ if_false _ _ _ (ap not (right_size-true on have valid))

  length-row_bytes : length (take e.row (e.t_hlast (e.mtp_h_rows - 1))) ≡ e'.row
  length-row_bytes =
      omega
        (arith, length-take e.row (e.t_hlast (e.mtp_h_rows - 1)), h.rows (e.mtp_h_rows - 1), h.row)

  abbrev Resumes : Bool → Bool → Bool → Engine → Type 0
  Resumes on have valid e'' =
      (e''.n_past ≡ e.n_past)
      × (State.save e.n_past e''.st ≡ State.save e.n_past e.st)
      × (mtp_ready e'' ≡ (on && have && valid))
      × (e''.ov_pos ≡ [])
      × ((on && have && valid) ≡ true → checkpoint_save e'' ≡ saved on have valid)

  same_st :
      State.save e.n_past (State.restore e.n_past (State.save e.n_past e.st) (State.reset e'.st))
      ≡ State.save e.n_past e.st
  same_st =
      save-restore-save e.n_past e.st (State.reset e'.st) (reset-Like e.n_past e.st e'.st h.st)

  counted : leb 1 e.mtp_h_rows ≡ true
  counted = let r = h.has_row in ground arith

  abbrev head_row : List ℕ
  head_row = take e.row (e.t_hlast (e.mtp_h_rows - 1))

  saved_row : (saved true true true).mtp_h ≡ head_row
  saved_row = if_true _ _ _ counted

  length-saved_row : length (saved true true true).mtp_h ≡ e'.row
  length-saved_row = ap length saved_row ∙ length-row_bytes

  has_head-true : has_head (saved true true true) bare ≡ true
  unfolding has_head reset clear_embeddings
  has_head-true =
      and_true _ true
        (and_true _ _ (st_size e.st_mtp e'.st_mtp h.st_mtp)
          ((==_iff (length (saved true true true).mtp_h) e'.row).1 length-saved_row))
        refl

  and_false : (b : Bool) → (b && false) ≡ false
  and_false true = refl
  and_false false = refl

  no_head :
      (have valid : Bool) → (have && valid) ≡ false → has_head (saved true have valid) bare ≡ false
  unfolding has_head reset clear_embeddings
  no_head true true off = absurd (cc)
  no_head true false off = and_false _
  no_head false valid off =
      let f = h.has_floats in
      let e1 : (0 == e'.row) ≡ false = (let r = h.row in ground arith) in
      let size =
        length (State.save e.n_past e.st_mtp) == State.checkpoint_bytes e.n_past e'.st_mtp in
      ap (λ z. size && z && valid) e1 ∙ ap (λ z. z && valid) (and_false size)

  without_head :
      (have valid : Bool)
      → (have && valid) ≡ false
      → e'.mtp_on ≡ true
      → Resumes true have valid (record bare { mtp_kv_valid = false })
  unfolding reset clear_embeddings mtp_ready
  without_head have valid off on =
      (refl, same_st, ap (λ z. z && false && false) on ∙ sym off, refl, λ yes'. absurd (cc))

  abbrev with_row : Engine
  with_row = record bare {
    st_mtp = State.restore e.n_past (saved true true true).mtp_st e'.st_mtp;
    t_hlast = update e'.t_hlast 0 (saved true true true).mtp_h;
    mtp_have_h = true;
    mtp_h_rows = 1;
    mtp_kv_valid = true;
  }

  with_head : e'.mtp_on ≡ true → Resumes true true true with_row
  unfolding reset clear_embeddings mtp_ready checkpoint_save
  with_head on =
      let again : Bool → Config → List ℕ → List ℕ → List ℕ → Checkpoint = λ b c st mtp_st mtp_h.
        record {
          n_past = e.n_past;
          config = c;
          st = st;
          mtp_st = if b then mtp_st else [];
          mtp_h = if b && true && true then mtp_h else [];
          mtp_kv_valid = b && true;
        } in
      let s1 =
        State.save e.n_past
          (State.restore e.n_past (State.save e.n_past e.st) (State.reset e'.st)) in
      let s2 =
        State.save e.n_past (State.restore e.n_past (State.save e.n_past e.st_mtp) e'.st_mtp) in
      let row = (saved true true true).mtp_h in
      (
        refl,
        same_st,
        ap (λ z. z && true && true) on,
        refl,
        λ yes'.
            ap (λ b. again b e'.config s1 s2 (take e'.row row)) on
            ∙ ap (λ c. again true c s1 s2 (take e'.row row)) h.config
            ∙ ap (λ z. again true e.config z s2 (take e'.row row)) same_st
            ∙ ap (λ z. again true e.config (State.save e.n_past e.st) z (take e'.row row))
                (save-restore-save e.n_past e.st_mtp e'.st_mtp h.st_mtp)
            ∙ ap
                (λ z.
                  again true e.config (State.save e.n_past e.st) (State.save e.n_past e.st_mtp) z)
                (take_all e'.row row (omega (arith, length-saved_row))),
      )

  head_off : e'.mtp_on ≡ false → (have valid : Bool) → Resumes false have valid bare
  unfolding reset clear_embeddings mtp_ready
  head_off off have valid =
      (refl, same_st, ap (λ z. z && false && true) off, refl, λ yes'. absurd (cc))

  all_on :
      (have valid : Bool)
      → e'.mtp_on ≡ true
      → restore_all (saved true have valid) e' ≡ restore_head (saved true have valid) bare
  unfolding restore_all
  all_on have valid on = if_true _ _ _ on

  all_off : (have valid : Bool) → e'.mtp_on ≡ false → restore_all (saved false have valid) e' ≡ bare
  unfolding restore_all
  all_off have valid off = if_false _ _ _ off

  headed : restore_head (saved true true true) bare ≡ with_row
  unfolding restore_head clear_embeddings reset
  headed =
      if_true (has_head (saved true true true) bare) with_row (record bare { mtp_kv_valid = false })
        has_head-true

  head_on : e'.mtp_on ≡ true → Resumes true true true (restore_head (saved true true true) bare)
  head_on on = subst (Resumes true true true) (sym headed) (with_head on)

  head_dropped :
      (have valid : Bool)
      → (have && valid) ≡ false
      → e'.mtp_on ≡ true
      → Resumes true have valid (restore_head (saved true have valid) bare)
  unfolding restore_head
  head_dropped have valid off on =
      subst (Resumes true have valid) (sym (if_false _ _ _ (no_head have valid off)))
        (without_head have valid off on)

  resumes :
      (on have valid : Bool)
      → e'.mtp_on ≡ on
      → Resumes on have valid (restore_all (saved on have valid) e')
  resumes false have valid off =
      subst (Resumes false have valid) (sym (all_off have valid off)) (head_off off have valid)
  resumes true true true on =
      subst (Resumes true true true) (sym (all_on true true on)) (head_on on)
  resumes true true false on =
      subst (Resumes true true false) (sym (all_on true false on)) (head_dropped true false refl on)
  resumes true false valid on =
      subst (Resumes true false valid) (sym (all_on false valid on))
        (head_dropped false valid refl on)

-- A checkpoint of an engine is restored into an engine set up alike, whatever that one held: it stands at
-- the same position, its state saves the same bytes, no image embedding of before is left, and
-- the draft head is ready exactly where it was. Where it was ready, a save gives the same checkpoint
-- again. Alike are engines of the same configuration and layout; the caches have room for the
-- position, which is within the context, and the head's residuals have one row or more, each of
-- `row` floats, one or more.
pub checkpoint_restore-save :
    (e e' : Engine)
    → Alike e e'
    → (e'' : Engine) × (checkpoint_restore (checkpoint_save e) e' ≡ restored e'')
      × (e''.n_past ≡ e.n_past)
      × (State.save e.n_past e''.st ≡ State.save e.n_past e.st)
      × (mtp_ready e'' ≡ mtp_ready e)
      × (e''.ov_pos ≡ [])
      × (mtp_ready e ≡ true → checkpoint_save e'' ≡ checkpoint_save e)
unfolding checkpoint_save mtp_ready
checkpoint_restore-save e e' h =
    let (past, st, ready, none_left, again) =
      resumes e e' h e.mtp_on e.mtp_have_h e.mtp_kv_valid h.mtp_on in
    (
      restore_all (checkpoint_save e) e',
      restores e e' h e.mtp_on e.mtp_have_h e.mtp_kv_valid,
      past,
      st,
      ready,
      none_left,
      again,
    )
