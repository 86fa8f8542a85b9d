-- ===== src/Timeshare/Pick.antt =====
-- Whom `timeshare::pick` chooses.
use qw_fnfer_xpu.Base.{
  ℕ, ◌≤◌, ◌<◌, ◌≡◌, ◌≢◌, refl, ◌⊎◌, inl, inr, Bool, true, false, ◌&&◌, ◌||◌, Option, none, some,
  List, [], ◌∷◌, ltb, ◌==◌, Bool-cases, Option-cases, arith,
}
use qw_fnfer_xpu.Double.{Double, IsOrdered}
use qw_fnfer_xpu.Timeshare.{Sched, precedes, least_used, earliest, pick}

-- The order by a number of usage, then by arrival.
abbrev lex : (c : Double) → c.F → ℕ → c.F → ℕ → Bool
lex c u a v b = c.less u v || (c.same u v && ltb a b)

module _ (c : Double) (o : IsOrdered c) where
  lex-asym : (u v : c.F) (a b : ℕ) → lex c u a v b ≡ true → lex c v b u a ≡ false
  lex-asym u v a b h =
      ground (arith, o.less_asym u v, o.less_asym v u, o.same_less u v, o.same_less v u)

  lex-skip :
      (u v w : c.F) (x y z : ℕ)
      → lex c u x v y ≡ false
      → lex c v y w z ≡ false
      → lex c u x w z ≡ false
  lex-skip u v w x y z h k = ground (
    arith,
    o.less_skip u v w,
    o.less_skip v u w,
    o.less_skip v w u,
    o.less_skip w u v,
    o.less_asym u v,
    o.less_asym v w,
    o.less_asym u w,
    o.same_less u v,
    o.same_less v w,
    o.same_less u w,
  )

module _ (c : Double) (secs : ℕ → c.F) (exp2 : c.F → c.F) where
  abbrev S : Type 0
  S = Sched c secs exp2

  -- `x` is one of the list.
  abbrev pub OneOf : ℕ → List ℕ → Type 0
  OneOf x [] = ⊥
  OneOf x (y ∷ ys) = (x ≡ y) ⊎ OneOf x ys

  -- No ticket of the list comes before `b`.
  abbrev pub NoneBefore : S → ℕ → List ℕ → ℕ → Type 0
  NoneBefore q now [] b = Unit {0}
  NoneBefore q now (t ∷ ts) b = (precedes c secs exp2 q now t b ≡ false) × NoneBefore q now ts b

  module _ (o : IsOrdered c) where
    precedes-asym :
        (q : S) (now a b : ℕ)
        → precedes c secs exp2 q now a b ≡ true
        → precedes c secs exp2 q now b a ≡ false
    unfolding precedes
    precedes-asym q now a b h = lex-asym c o _ _ _ _ h

    precedes_irrefl : (q : S) (now a : ℕ) → precedes c secs exp2 q now a a ≡ false
    precedes_irrefl q now a = elim (Bool-cases (precedes c secs exp2 q now a a)) [
      | inl h ↦ precedes-asym q now a a h
      | inr h ↦ h
    ]

    precedes-skip :
        (q : S) (now a b d : ℕ)
        → precedes c secs exp2 q now a b ≡ false
        → precedes c secs exp2 q now b d ≡ false
        → precedes c secs exp2 q now a d ≡ false
    unfolding precedes
    precedes-skip q now a b d h k = lex-skip c o _ _ _ _ _ _ h k

    -- The scan of the waiting tickets ends at one of them that none comes before.
    least_used-first :
        (q : S) (now : ℕ) (ts : List ℕ) (b : ℕ)
        → (r : ℕ) × (least_used c secs exp2 q now ts (some b) ≡ some r)
          × ((r ≡ b) ⊎ OneOf r ts)
          × (precedes c secs exp2 q now b r ≡ false)
          × NoneBefore q now ts r
    unfolding least_used
    least_used-first q now [] b = (b, refl, inl refl, precedes_irrefl q now b, tt)
    least_used-first q now (t ∷ ts) b = elim (Bool-cases (precedes c secs exp2 q now t b)) [
      | inl before ↦
          let (r, e, m, first, rest) = least_used-first q now ts t in
          rw before (
            r,
            e,
            inr m,
            precedes-skip q now b t r (precedes-asym q now t b before) first,
            (first, rest),
          )
      | inr after ↦
          let (r, e, m, first, rest) = least_used-first q now ts b in
          rw after (
            r,
            e,
            elim m [ inl h ↦ inl h | inr h ↦ inr (inr h) ],
            first,
            (precedes-skip q now t b r after first, rest),
          )
    ]

  abbrev arrived : S → ℕ → ℕ
  arrived q t = (q.tickets t).arrived

  abbrev session : S → ℕ → ℕ
  session q t = (q.tickets t).session

  -- No ticket of the lingering session in the list arrived before `r`.
  abbrev pub FirstOfSession : S → List ℕ → ℕ → Type 0
  FirstOfSession q [] r = Unit {0}
  FirstOfSession q (t ∷ ts) r =
      (session q t ≡ q.linger_session → arrived q r ≤ arrived q t) × FirstOfSession q ts r

  -- The list has no ticket of the lingering session.
  abbrev pub NoneOfSession : S → List ℕ → Type 0
  NoneOfSession q [] = Unit {0}
  NoneOfSession q (t ∷ ts) = (session q t ≢ q.linger_session) × NoneOfSession q ts

  earliest-some :
      (q : S) (ts : List ℕ) (b : ℕ)
      → session q b ≡ q.linger_session
      → (r : ℕ) × (earliest c secs exp2 q ts (some b) ≡ some r)
        × ((r ≡ b) ⊎ OneOf r ts)
        × (session q r ≡ q.linger_session)
        × (arrived q r ≤ arrived q b)
        × FirstOfSession q ts r
  unfolding earliest
  earliest-some q [] b h = (b, refl, inl refl, h, omega arith, tt)
  earliest-some q (t ∷ ts) b h = elim (Bool-cases (session q t == q.linger_session)) [
    | inl own ↦ elim (Bool-cases (ltb (arrived q t) (arrived q b))) [
      | inl before ↦
          let (r, e, m, s, le, rest) = earliest-some q ts t (ground arith) in
          rw (own, before) (r, e, inr m, s, ground arith, (λ _. le, rest))
      | inr after ↦
          let (r, e, m, s, le, rest) = earliest-some q ts b h in
          rw (own, after)
            (r, e, elim m [ inl k ↦ inl k | inr k ↦ inr (inr k) ], s, le, (λ _. ground arith, rest))
    ]
    | inr other ↦
        let (r, e, m, s, le, rest) = earliest-some q ts b h in
        rw other (
          r,
          e,
          elim m [ inl k ↦ inl k | inr k ↦ inr (inr k) ],
          s,
          le,
          (λ k. absurd (ground arith), rest),
        )
  ]

  earliest-none :
      (q : S) (ts : List ℕ)
      → ((earliest c secs exp2 q ts none ≡ none) × NoneOfSession q ts)
        ⊎ ((r : ℕ) × (earliest c secs exp2 q ts none ≡ some r)
            × OneOf r ts
            × (session q r ≡ q.linger_session)
            × FirstOfSession q ts r)
  unfolding earliest
  earliest-none q [] = inl (refl, tt)
  earliest-none q (t ∷ ts) = elim (Bool-cases (session q t == q.linger_session)) [
    | inl own ↦
        let (r, e, m, s, le, rest) = earliest-some q ts t (ground arith) in
        rw own (inr (r, e, m, s, (λ _. le, rest)))
    | inr other ↦ rw other (elim (earliest-none q ts) [
      | inl (e, others) ↦ inl (e, (ground arith, others))
      | inr (r, e, m, s, rest) ↦ inr (r, e, inr m, s, (λ k. absurd (ground arith), rest))
    ])
  ]

  -- The choice that the scheduler's description asks for.
  abbrev pub Picks : S → ℕ → Option ℕ → Type 0
  Picks q now r =
      ((r ≡ none)
        × ((q.running ≢ none)
            ⊎ (q.waiting ≡ [])
            ⊎ ((now < q.linger_until) × NoneOfSession q q.waiting)))
      ⊎ ((b : ℕ) × (r ≡ some b)
          × (q.running ≡ none)
          × OneOf b q.waiting
          × (((now < q.linger_until)
                × (session q b ≡ q.linger_session)
                × FirstOfSession q q.waiting b)
              ⊎ ((q.linger_until ≤ now) × NoneBefore q now q.waiting b)))

  module _ (o : IsOrdered c) where
    least_used-Picks :
        (q : S) (now : ℕ) (ts : List ℕ)
        → ((ts ≡ []) × (least_used c secs exp2 q now ts none ≡ none))
          ⊎ ((b : ℕ) × (least_used c secs exp2 q now ts none ≡ some b)
              × OneOf b ts
              × NoneBefore q now ts b)
    unfolding least_used
    least_used-Picks q now [] = inl (refl, refl)
    least_used-Picks q now (t ∷ ts) =
        let (r, e, m, first, rest) = least_used-first o q now ts t in inr (r, e, m, (first, rest))

    pick_lingering :
        (q : S) (now : ℕ)
        → q.running ≡ none
        → ltb now q.linger_until ≡ true
        → pick c secs exp2 q now ≡ earliest c secs exp2 q q.waiting none
    unfolding pick
    pick_lingering q now free lingers = rw (free, lingers)

    pick_open :
        (q : S) (now : ℕ)
        → q.running ≡ none
        → ltb now q.linger_until ≡ false
        → pick c secs exp2 q now ≡ least_used c secs exp2 q now q.waiting none
    unfolding pick
    pick_open q now free over = rw (free, over)

    pick_held : (q : S) (now r : ℕ) → q.running ≡ some r → pick c secs exp2 q now ≡ none
    unfolding pick
    pick_held q now r held = rw held

    -- Where usages compare as doubles without a NaN do: `pick` chooses nobody only where the engine is held, nobody waits, or a linger runs and
    -- nobody of its session waits. It chooses a waiting ticket otherwise: in a linger the session's
    -- earliest arrival, and after it a ticket that no waiting one precedes by usage, then arrival.
    pub pick-Picks : (q : S) (now : ℕ) → Picks q now (pick c secs exp2 q now)
    pick-Picks q now = elim (Option-cases q.running) [
      | inr (r, held) ↦ rw (pick_held q now r held) (inl (refl, inl (λ e. cc)))
      | inl free ↦ elim (Bool-cases (ltb now q.linger_until)) [
        | inl lingers ↦ rw (pick_lingering q now free lingers) (elim (earliest-none q q.waiting) [
          | inl (e, others) ↦ inl (e, inr (inr (ground arith, others)))
          | inr (b, e, m, s, rest) ↦ inr (b, e, free, m, inl (ground arith, s, rest))
        ])
        | inr over ↦ rw (pick_open q now free over) (elim (least_used-Picks q now q.waiting) [
          | inl (none_waits, e) ↦ inl (e, inr (inl none_waits))
          | inr (b, e, m, rest) ↦ inr (b, e, free, m, inr (ground arith, rest))
        ])
      ]
    ]
