-- ===== src/Timeshare/Yield.antt =====
-- `timeshare::should_yield` against the rule that `pick` applies once the request has parked.
use qw_fnfer_xpu.Base.{
  ℕ, ◌-◌, ◌≤◌, ◌≡◌, ◌≢◌, refl, sym, ap, ◌∙◌, subst, ◌+◌, ltb, ◌==◌, ◌&&◌, ◌||◌, update, update_self,
  update_ne, ◌⊎◌, inl, inr, Bool, true, false, some, List, [], ◌∷◌, ◌++◌, Bool-cases, arith,
}
use mathlib.Core.Option.{some-injective}
use qw_fnfer_xpu.Double.{Double, IsOrdered}
use qw_fnfer_xpu.Timeshare.{
  Sched, decayed, precedes, pick, should_yield, preceded, charge, is_picked, park, enqueue,
  decayed_in, Ticket, Usage,
}
use qw_fnfer_xpu.Timeshare.Charge.{IsStill, waited, charge-charge}
use qw_fnfer_xpu.Timeshare.Pick.{OneOf, NoneBefore, pick-Picks}

module _ (c : Double) (secs : ℕ → c.F) (exp2 : c.F → c.F) where
  abbrev S : Type 0
  S = Sched c secs exp2

  preceded-cases :
      (q : S) (id now : ℕ) (ws : List ℕ)
      → ((preceded c secs exp2 q id now ws ≡ true)
          × ((w : ℕ) × OneOf c secs exp2 w ws × (precedes c secs exp2 q now w id ≡ true)))
        ⊎ ((preceded c secs exp2 q id now ws ≡ false) × NoneBefore c secs exp2 q now ws id)
  unfolding preceded
  preceded-cases q id now [] = inr (refl, tt)
  preceded-cases q id now (w ∷ ws) = elim (Bool-cases (precedes c secs exp2 q now w id)) [
    | inl before ↦ rw before (inl (refl, (w, inl refl, before)))
    | inr after ↦ rw after (elim (preceded-cases q id now ws) [
      | inl (e, (v, m, before)) ↦ inl (e, (v, inr m, before))
      | inr (e, rest) ↦ inr (e, (refl, rest))
    ])
  ]

  abbrev session : S → ℕ → ℕ
  session q x = (q.tickets x).session

  abbrev arrived : S → ℕ → ℕ
  arrived q x = (q.tickets x).arrived

  -- The order of `precedes`, of what it reads.
  abbrev order : c.F → ℕ → List (ℕ × Usage c secs exp2) → ℕ → ℕ → ℕ → ℕ → Bool
  order half_life now us s t x y =
      let u = decayed_in c secs exp2 half_life s now us in
      let v = decayed_in c secs exp2 half_life t now us in c.less u v || (c.same u v && ltb x y)

  -- A ticket put in the place of one with the same session and arrival.
  update_ticket :
      (ts : ℕ → Ticket c secs exp2) (id x : ℕ) (t : Ticket c secs exp2)
      → t.session ≡ (ts id).session
      → t.arrived ≡ (ts id).arrived
      → ((update ts id t x).session ≡ (ts x).session)
        × ((update ts id t x).arrived ≡ (ts x).arrived)
  update_ticket ts id x t s a = elim (Bool-cases (id == x)) [
    | inr other ↦
        let e = update_ne ts id x t (λ same. ground arith) in
        (ap (λ y. y.session) e, ap (λ y. y.arrived) e)
    | inl own ↦
        let eq : id ≡ x = ground arith in
        subst
          (λ y.
            ((update ts id t y).session ≡ (ts y).session)
            × ((update ts id t y).arrived ≡ (ts y).arrived))
          eq
          (
            ap (λ y. y.session) (update_self ts id t) ∙ s,
            ap (λ y. y.arrived) (update_self ts id t) ∙ a,
          )
  ]

  park_ticket :
      (q : S) (id now x : ℕ)
      → (session (park c secs exp2 q id now) x ≡ session q x)
        × (arrived (park c secs exp2 q id now) x ≡ arrived q x)
  unfolding park enqueue charge
  park_ticket q id now x =
      let d = charge c secs exp2 q id now in
      let t = d.tickets id in
      let (s1, a1) =
        update_ticket d.tickets id x (record t { parked = true; n_parks = t.n_parks + 1 }) refl
          refl in
      let (s2, a2) =
        update_ticket q.tickets id x
          (record (q.tickets id) {
            used = c.plus (q.tickets id).used (waited c secs exp2 now q.charged_at);
          })
          refl refl in
      (s1 ∙ s2, a1 ∙ a2)

  NoneBefore-lookup :
      (q : S) (now b w : ℕ) (ws more : List ℕ)
      → NoneBefore c secs exp2 q now (ws ++ more) b
      → OneOf c secs exp2 w ws
      → precedes c secs exp2 q now w b ≡ false
  NoneBefore-lookup q now b w [] more h m = absurd m
  NoneBefore-lookup q now b w (x ∷ ws) more h (inl e) = rw e h.0
  NoneBefore-lookup q now b w (x ∷ ws) more h (inr m) = NoneBefore-lookup q now b w ws more h.1 m

  -- What `should_yield` answers about the running request, whose slice has lasted its quantum.
  abbrev pub Yields : S → ℕ → ℕ → S × Bool → Type 0
  Yields q id now r =
      (((r.1 ≡ true) × (r.0 ≡ charge c secs exp2 q id now))
        × ((w : ℕ) × OneOf c secs exp2 w q.waiting × (precedes c secs exp2 r.0 now w id ≡ true))
        × (pick c secs exp2 (park c secs exp2 r.0 id now) now ≢ some id))
      ⊎ (((r.1 ≡ false) × (r.0 ≡ record (charge c secs exp2 q id now) { slice_start = now }))
          × NoneBefore c secs exp2 r.0 now q.waiting id)

  module _ (o : IsOrdered c) where
    -- Parking at the instant of the last charge changes none of what `precedes` reads.
    precedes-park :
        (q : S) (id now a b : ℕ)
        → IsStill c secs exp2 q.half_life
        → precedes c secs exp2 (park c secs exp2 (charge c secs exp2 q id now) id now) now a b
          ≡ precedes c secs exp2 (charge c secs exp2 q id now) now a b
    unfolding precedes decayed park enqueue charge
    precedes-park q id now a b still =
        let d = charge c secs exp2 q id now in
        let p = park c secs exp2 d id now in
        let hl = q.half_life in
        let (sa, ta) = park_ticket d id now a in
        let (sb, tb) = park_ticket d id now b in
        ap (λ us. order hl now us (session p a) (session p b) (arrived p a) (arrived p b))
          (charge-charge c secs exp2 o q id now still)
        ∙ (ap (λ s. order hl now d.usage s (session p b) (arrived p a) (arrived p b)) sa
            ∙ (ap (λ s. order hl now d.usage (session d a) s (arrived p a) (arrived p b)) sb
                ∙ (ap (λ t. order hl now d.usage (session d a) (session d b) t (arrived p b)) ta
                    ∙ ap (λ t. order hl now d.usage (session d a) (session d b) (arrived d a) t)
                        tb)))

    pick_parked :
        (q : S) (id now w : ℕ)
        → IsStill c secs exp2 q.half_life
        → q.linger_until ≤ now
        → OneOf c secs exp2 w q.waiting
        → precedes c secs exp2 (charge c secs exp2 q id now) now w id ≡ true
        → pick c secs exp2 (park c secs exp2 (charge c secs exp2 q id now) id now) now ≢ some id
    unfolding park enqueue charge
    pick_parked q id now w still over m before e =
        let charged = charge c secs exp2 q id now in
        let p = park c secs exp2 charged id now in
        let same = precedes-park q id now w id still in
        elim (pick-Picks c secs exp2 o p now) [
          | inl (nobody, _) ↦ cc
          | inr (b, found, free, _, why) ↦ elim why [
            | inl (early, _, _) ↦ absurd (omega (arith, early, over))
            | inr (_, rest) ↦
                let h = NoneBefore-lookup p now b w q.waiting (id ∷ []) rest m in
                let eq : b ≡ id = some-injective b id (sym found ∙ e) in
                let after : precedes c secs exp2 p now w id ≡ false =
                  subst (λ x. precedes c secs exp2 p now w x ≡ false) eq h in
                ground (arith, before, same, after)
          ]
        ]

    charge-waiting : (q : S) (id now : ℕ) → (charge c secs exp2 q id now).waiting ≡ q.waiting
    unfolding charge
    charge-waiting q id now = refl

    -- Where usages compare as doubles without a NaN do, no time and no seconds leave a usage as it is
    -- and no linger lasts: at the end of its quantum the running request yields exactly where, with its
    -- slice charged, a waiting request comes before it, and then `pick` does not choose it once it has
    -- parked at that instant; where none does, it goes on with a fresh quantum.
    pub should_yield-Yields :
        (q : S) (id now : ℕ)
        → IsStill c secs exp2 q.half_life
        → q.linger_until ≤ now
        → q.running ≡ some id
        → c.less (secs (now - q.slice_start)) q.quantum ≡ false
        → Yields q id now (should_yield c secs exp2 q id now)
    unfolding should_yield charge precedes decayed
    should_yield-Yields q id now still over held up =
        let charged = charge c secs exp2 q id now in
        let mine : is_picked c secs exp2 q.running id ≡ true = rw held (ground arith) in
        elim (preceded-cases charged id now q.waiting) [
          | inl (e, (w, m, before)) ↦
              rw (mine, up, e, should_yield)
                (inl ((refl, refl), (w, m, before), pick_parked q id now w still over m before))
          | inr (e, rest) ↦ rw (mine, up, e, should_yield) (inr ((refl, refl), rest))
        ]
