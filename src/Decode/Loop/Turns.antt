-- ===== src/Decode/Loop/Turns.antt =====
-- The turns of the decode loop of `generate` in tools/qwfn_server.cpp, where its thinking is not
-- bounded: over, out of room, or on to the token that picking gives.
use qw_fnfer_xpu.Base.{
  if_true, if_false, ℕ, ◌+◌, ◌≤◌, ◌<◌, ◌≡◌, refl, sym, ap, ◌∙◌, subst, Bool, true, false, ◌||◌,
  ◌&&◌, leb, List, [], ◌∷◌, ◌++◌, length, length-append, ltb, if◌then◌else◌, arith, ge→ltb, lt→ltb,
}
use qw_fnfer_xpu.Decode.Parts.{Parts, Exact}
use qw_fnfer_xpu.Decode.Reply.{
  Reply, After, over, cut_off, goes_on, by_length, take_token, emit, check_stops, hit_stop, is_none,
  send, append_to, contains, end_of_think,
}
use qw_fnfer_xpu.Decode.Loop.{Loop, Turn, ended, next, go_on, entered, next_accepted}
use qw_fnfer_xpu.Decode.Loop.Moves.{Sim, Moves, go_on-Moves, next_accepted-Moves}

abbrev pub Kept : After → Type 0
Kept (over r) = Unit {0}
Kept (cut_off r) = ⊥
Kept (goes_on r) = Unit {0}

if-Kept :
    (b : Bool) (u v : After)
    → (b ≡ true → Kept u)
    → (b ≡ false → Kept v)
    → Kept (if b then u else v)
if-Kept true u v h h' = h refl
if-Kept false u v h h' = h' refl

module _ (m : Parts) where
  unbudgeted : (t : Bool) (b : ℕ) (c : Bool) → b ≡ 0 → ¬ ((t && ltb 0 b && c) ≡ true)
  unbudgeted t b c off h = ground arith

  check_stops-Kept : (r : Reply) → Kept (check_stops m r)
  unfolding check_stops
  check_stops-Kept r =
      if-Kept (hit_stop m.stops r).1 (over (hit_stop m.stops r).0) (goes_on (hit_stop m.stops r).0)
        (λ e. tt) (λ e. tt)

  emit-Kept : (bytes : List ℕ) (r : Reply) → Kept (emit m bytes r)
  unfolding emit
  emit-Kept bytes r =
      if-Kept (is_none bytes) _ _ (λ e. check_stops-Kept _)
        (λ e.
          if-Kept (send m bytes r.in_think (append_to m r.in_think bytes r)).1 _ _
            (λ c. check_stops-Kept _) (λ c. tt))

  pub take_token-Kept :
      (r : Reply) (n tok : ℕ) → m.reasoning_budget ≡ 0 → Kept (take_token m r n tok)
  unfolding take_token
  take_token-Kept r n tok off =
      if-Kept (r.in_think && contains end_of_think (m.piece tok)) _ _ (λ e. tt)
        (λ e.
          if-Kept (r.in_think && ltb 0 m.reasoning_budget && leb m.reasoning_budget (n + 1)) _ _
            (λ c.
              absurd
                (unbudgeted r.in_think m.reasoning_budget (leb m.reasoning_budget (n + 1)) off c))
            (λ c. emit-Kept _ _))

module _ (m : Parts) {seq : m.E → List ℕ} {model : List ℕ → m.L} {k : ℕ} (x : Exact m seq model k)
    (one : 1 ≤ k) (few : m.lookup_drafts ≤ k) where
  pub entered_out :
      (l : Loop m)
      → l.tok_in ≡ false
      → m.is_eog l.tok ≡ false
      → entered m l ≡ record l { hist = l.hist ++ l.tok ∷ []; smp = m.gen_push l.smp l.tok }
  unfolding entered
  entered_out l out eog =
      let f : Bool → Bool → Loop m = λ b c. record l {
        hist = if b then l.hist else l.hist ++ l.tok ∷ [];
        smp = if c then l.smp else m.gen_push l.smp l.tok;
      } in
      ap (λ b. f b (b || m.is_eog l.tok)) out ∙ ap (λ c. f false c) eog

  pub entered_in : (l : Loop m) → l.tok_in ≡ true → entered m l ≡ l
  unfolding entered
  entered_in l is_in =
      let f : Bool → Loop m = λ b. record l {
        hist = if b then l.hist else l.hist ++ l.tok ∷ [];
        smp = if b || m.is_eog l.tok then l.smp else m.gen_push l.smp l.tok;
      } in
      ap f is_in

  pub accepted_goes :
      (l : Loop m)
      → ltb m.n_ctx (length l.hist + 1) ≡ false
      → l.tok_in ≡ true
      → go_on m l ≡ next (next_accepted m l l.evald)
  unfolding go_on
  accepted_goes l room is_in = if_false _ _ _ room ∙ if_true _ _ _ is_in

  pub full_goes :
      (l : Loop m)
      → ltb m.n_ctx (length l.hist + 1) ≡ true
      → go_on m l ≡ ended (record l { n = l.n + 1; reply = record l.reply { finish = by_length } })
  unfolding go_on
  full_goes l full = if_true _ _ _ full

  out_Moves :
      (l : Loop m) (r : Reply)
      → l.tok_in ≡ false
      → seq l.eng ≡ l.hist
      → m.is_eog l.tok ≡ false
      → length (l.hist ++ l.tok ∷ []) + 1 ≤ m.n_ctx
      → Moves m x
          (l.hist ++ l.tok ∷ [])
          (m.gen_push l.smp l.tok)
          (record l { reply = r })
          (go_on m (record (entered m l) { reply = r }))
  out_Moves l r out q eog room =
      let h = l.hist ++ l.tok ∷ [] in
      let s = m.gen_push l.smp l.tok in
      let l1 : Loop m = record l { hist = h; smp = s; reply = r } in
      subst (λ z. Moves m x h s (record l { reply = r }) (go_on m (record z { reply = r })))
        (sym (entered_out l out eog))
        (go_on-Moves m x one few l1 (ap (λ z. z ++ l.tok ∷ []) (sym q), out, omega arith) room)

  in_Moves :
      (l : Loop m) (h : List ℕ) (s : m.S) (r : Reply)
      → l.tok_in ≡ true
      → Sim m x true l h s
      → Moves m x
          (h ++ l.tok ∷ [])
          (m.gen_push s l.tok)
          (record l { reply = r })
          (go_on m (record (entered m l) { reply = r }))
  in_Moves l h s r is_in (q, e, a, fits) =
      let l1 : Loop m = record l { reply = r } in
      let room : ltb m.n_ctx (length l.hist + 1) ≡ false =
        ge→ltb m.n_ctx (length l.hist + 1) fits in
      let moved =
        next_accepted-Moves m x l1 (h ++ l.tok ∷ []) (m.gen_push s l.tok) l.tok l.evald is_in q e a
          fits in
      let went : go_on m l1 ≡ next (next_accepted m l1 l.evald) = accepted_goes l1 room is_in in
      subst
        (λ z.
          Moves m x (h ++ l.tok ∷ []) (m.gen_push s l.tok) l1 (go_on m (record z { reply = r })))
        (sym (entered_in l is_in))
        (subst (λ t. Moves m x (h ++ l.tok ∷ []) (m.gen_push s l.tok) l1 t) (sym went) moved)

  -- The turn of a token that the text lets pass, while there is room for another.
  pub room_Moves :
      (l : Loop m) (h : List ℕ) (s : m.S) (r : Reply) (b : Bool)
      → l.tok_in ≡ b
      → Sim m x b l h s
      → m.is_eog l.tok ≡ false
      → length (h ++ l.tok ∷ []) + 1 ≤ m.n_ctx
      → Moves m x
          (h ++ l.tok ∷ [])
          (m.gen_push s l.tok)
          (record l { reply = r })
          (go_on m (record (entered m l) { reply = r }))
  room_Moves l h s r false out (q, e, e') eog room =
      subst
        (λ z.
          Moves m x (h ++ l.tok ∷ []) (m.gen_push z l.tok) (record l { reply = r })
            (go_on m (record (entered m l) { reply = r })))
        e'
        (subst
          (λ z.
            Moves m x (z ++ l.tok ∷ []) (m.gen_push l.smp l.tok) (record l { reply = r })
              (go_on m (record (entered m l) { reply = r })))
          e
          (out_Moves l r out q eog
            (subst (λ z. length (z ++ l.tok ∷ []) + 1 ≤ m.n_ctx) (sym e) room)))
  room_Moves l h s r true is_in sim eog room = in_Moves l h s r is_in sim

  abbrev pub Ends : ℕ → Reply → Turn m → Type 0
  Ends n r t = (l' : Loop m) × (t ≡ ended l') × (l'.reply ≡ r) × (l'.n ≡ n)

  -- Without room for another token the reply is over; no draft is waiting then.
  pub no_room_Ends :
      (l : Loop m) (h : List ℕ) (s : m.S) (r : Reply) (b : Bool)
      → l.tok_in ≡ b
      → Sim m x b l h s
      → m.is_eog l.tok ≡ false
      → m.n_ctx < length (h ++ l.tok ∷ []) + 1
      → Ends
          (l.n + 1)
          (record r { finish = by_length })
          (go_on m (record (entered m l) { reply = r }))
  no_room_Ends l h s r false out (q, e, e') eog full =
      let l1 : Loop m = record l {
        hist = l.hist ++ l.tok ∷ [];
        smp = m.gen_push l.smp l.tok;
        reply = r;
      } in
      let over' : m.n_ctx < length l1.hist + 1 =
        subst (λ z. m.n_ctx < length (z ++ l.tok ∷ []) + 1) (sym e) full in
      let l2 : Loop m = record l1 { n = l.n + 1; reply = record r { finish = by_length } } in
      (
        l2,
        ap (λ z. go_on m (record z { reply = r })) (entered_out l out eog)
            ∙ full_goes l1 (lt→ltb m.n_ctx (length l1.hist + 1) over'),
        refl,
        refl,
      )
  no_room_Ends l h s r true is_in (q, e, a, fits) eog full =
      absurd (omega (arith, ap length e, length-append (h ++ l.tok ∷ []) l.evald))
