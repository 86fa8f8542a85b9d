-- ===== src/Argmax/Agrees.antt =====
-- The eight lanes find what the plain loop finds.
use qw_fnfer_xpu.Base.{
  ℕ, zero, suc, ◌≤◌, ◌≡◌, refl, sym, ◌∙◌, subst, ap, ◌⊎◌, inl, inr, Bool, true, false, List, [],
  ◌∷◌, ◌++◌, length, take, drop, take-append-drop, length-take, leb, if◌then◌else◌, Bool-cases,
  arith,
}
use qw_fnfer_xpu.Double.{Double, IsOrdered}
use qw_fnfer_xpu.Argmax.{larger, take_in, most, finish, run, first_same, argmax, best_from}

module _ (c : Double) where
  abbrev F : Type 0
  F = c.F

  -- Of every value of a list.
  abbrev Each : (F → Type 0) → List F → Type 0
  Each p [] = Unit
  Each p (x ∷ xs) = p x × Each p xs

  Each-append : (p : F → Type 0) (xs ys : List F) → Each p xs → Each p ys → Each p (xs ++ ys)
  Each-append p [] ys a b = b
  Each-append p (x ∷ xs) ys a b = (a.0, Each-append p xs ys a.1 b)

  Each-map : (p q : F → Type 0) → ((x : F) → p x → q x) → (xs : List F) → Each p xs → Each q xs
  Each-map p q f [] a = tt
  Each-map p q f (x ∷ xs) a = (f x a.0, Each-map p q f xs a.1)

  -- Some lane is no less than the value.
  abbrev Covers : List F → F → Type 0
  Covers [] y = ⊥
  Covers (m ∷ ms) y = (c.less m y ≡ false) ⊎ Covers ms y

  -- Some value of the list is the maximum.
  abbrev Attains : F → List F → Type 0
  Attains mx [] = ⊥
  Attains mx (x ∷ xs) = (c.same x mx ≡ true) ⊎ Attains mx xs

  module _ (ord : IsOrdered c) where
    less_refl : (x : F) → c.less x x ≡ false
    less_refl x = elim (Bool-cases (c.less x x)) [ inl y ↦ ord.less_asym x x y | inr n ↦ n ]

    larger_keeps : (m x y : F) → c.less m y ≡ false → c.less (larger c m x) y ≡ false
    unfolding larger
    larger_keeps m x y h = elim (Bool-cases (c.less m x)) [
      | inl up ↦ rw (up, larger) (ord.less_skip x m y (ord.less_asym m x up) h)
      | inr down ↦ rw (down, larger) h
    ]

    larger_new : (m x : F) → c.less (larger c m x) x ≡ false
    unfolding larger
    larger_new m x = elim (Bool-cases (c.less m x)) [
      | inl up ↦ rw (up, larger) (less_refl x)
      | inr down ↦ rw (down, larger) down
    ]

    most_keeps : (m : F) (xs : List F) (y : F) → c.less m y ≡ false → c.less (most c m xs) y ≡ false
    unfolding most
    most_keeps m [] y h = h
    most_keeps m (x ∷ xs) y h = most_keeps (larger c m x) xs y (larger_keeps m x y h)

    most-Each : (m : F) (xs : List F) → Each (λ x. c.less (most c m xs) x ≡ false) xs
    unfolding most
    most-Each m [] = tt
    most-Each m (x ∷ xs) =
        (most_keeps (larger c m x) xs x (larger_new m x), most-Each (larger c m x) xs)

    -- A value that some lane is no less than is no more than the comparison of the lanes.
    most-Covers : (m : F) (ms : List F) (y : F) → Covers ms y → c.less (most c m ms) y ≡ false
    unfolding most
    most-Covers m [] y h = absurd h
    most-Covers m (x ∷ xs) y (inl h) =
        most_keeps (larger c m x) xs y (ord.less_skip (larger c m x) x y (larger_new m x) h)
    most-Covers m (x ∷ xs) y (inr h) = most-Covers (larger c m x) xs y h

    take_in_keeps : (ms xs : List F) (y : F) → Covers ms y → Covers (take_in c ms xs) y
    unfolding take_in
    take_in_keeps [] xs y h = absurd h
    take_in_keeps (m ∷ ms) [] y h = h
    take_in_keeps (m ∷ ms) (x ∷ xs) y (inl h) = inl (larger_keeps m x y h)
    take_in_keeps (m ∷ ms) (x ∷ xs) y (inr h) = inr (take_in_keeps ms xs y h)

    take_in_new : (ms xs : List F) → length xs ≤ length ms → Each (Covers (take_in c ms xs)) xs
    unfolding take_in
    take_in_new ms [] fits = tt
    take_in_new [] (x ∷ xs) fits = ground arith
    take_in_new (m ∷ ms) (x ∷ xs) fits = (
      inl (larger_new m x),
      Each-map (Covers (take_in c ms xs)) (Covers (take_in c (m ∷ ms) (x ∷ xs))) (λ y h. inr h) xs
          (take_in_new ms xs (omega (arith, fits))),
    )

    length-take_in : (ms xs : List F) → length (take_in c ms xs) ≡ length ms
    unfolding take_in
    length-take_in [] xs = refl
    length-take_in (m ∷ ms) [] = refl
    length-take_in (m ∷ ms) (x ∷ xs) = ap suc (length-take_in ms xs)

    finish-Covers :
        (d : F) (ms xs : List F) (y : F) → Covers ms y → c.less (finish c d ms xs) y ≡ false
    unfolding finish
    finish-Covers d [] xs y h = absurd h
    finish-Covers d (m ∷ ms) xs y (inl h) = most_keeps (most c m xs) ms y (most_keeps m xs y h)
    finish-Covers d (m ∷ ms) xs y (inr h) = most-Covers (most c m xs) ms y h

    finish-Each :
        (d : F) (ms xs : List F)
        → 8 ≤ length ms
        → Each (λ x. c.less (finish c d ms xs) x ≡ false) xs
    unfolding finish
    finish-Each d [] xs some_lane = ground arith
    finish-Each d (m ∷ ms) xs some_lane =
        Each-map (λ x. c.less (most c m xs) x ≡ false)
          (λ x. c.less (most c (most c m xs) ms) x ≡ false) (λ x h. most_keeps (most c m xs) ms x h)
          xs (most-Each m xs)

    run-Covers :
        (d : F) (fuel : ℕ) (ms xs : List F) (y : F)
        → Covers ms y
        → c.less (run c d fuel ms xs) y ≡ false
    unfolding run
    run-Covers d zero ms xs y h = finish-Covers d ms xs y h
    run-Covers d (suc fuel) ms xs y h = elim (Bool-cases (leb 8 (length xs))) [
      | inl wide ↦
          rw (wide, run)
            (run-Covers d fuel (take_in c ms (take 8 xs)) (drop 8 xs) y
              (take_in_keeps ms (take 8 xs) y h))
      | inr rest ↦ rw (rest, run) (finish-Covers d ms xs y h)
    ]

    -- No value is more than the maximum.
    run-Each :
        (d : F) (fuel : ℕ) (ms xs : List F)
        → 8 ≤ length ms
        → Each (λ x. c.less (run c d fuel ms xs) x ≡ false) xs
    unfolding run
    run-Each d zero ms xs lanes = finish-Each d ms xs lanes
    run-Each d (suc fuel) ms xs lanes = elim (Bool-cases (leb 8 (length xs))) [
      | inr rest ↦ rw (rest, run) (finish-Each d ms xs lanes)
      | inl wide ↦
          let ms' = take_in c ms (take 8 xs) in
          let p : F → Type 0 = λ x. c.less (run c d fuel ms' (drop 8 xs)) x ≡ false in
          let old =
            Each-map (Covers ms') p (λ y h. run-Covers d fuel ms' (drop 8 xs) y h) (take 8 xs)
              (take_in_new ms (take 8 xs) (omega (arith, lanes, length-take 8 xs))) in
          let new =
            run-Each d fuel ms' (drop 8 xs) (omega (arith, lanes, length-take_in ms (take 8 xs))) in
          rw (wide, run)
            (subst (Each p) (take-append-drop 8 xs) (Each-append p (take 8 xs) (drop 8 xs) old new))
    ]

    differ : (t : Bool) → t ≡ true → t ≡ false → ⊥
    differ true p q = ground arith
    differ false p q = ground arith

    -- A value that is less than another is not the maximum, and a value that is no maximum is less.
    below : (b mx x : F) → c.less b x ≡ true → c.less mx x ≡ false → c.same b mx ≡ false
    below b mx x up top = elim (Bool-cases (c.less b mx)) [
      | inl l ↦ ord.same_less b mx ∙ rw l refl
      | inr n ↦ absurd (differ (c.less b x) up (ord.less_skip b mx x n top))
    ]

    not_same : (b mx : F) → c.same b mx ≡ false → c.less mx b ≡ false → c.less b mx ≡ true
    not_same b mx apart top = elim (Bool-cases (c.less b mx)) [
      | inl l ↦ l
      | inr n ↦ absurd (differ (c.same b mx) (ord.same_less b mx ∙ rw (n, top) refl) apart)
    ]

    below_too :
        (b x mx : F)
        → c.less b mx ≡ true
        → c.less b x ≡ false
        → c.less mx x ≡ false
        → c.same x mx ≡ false
    below_too b x mx under down top = elim (Bool-cases (c.less x mx)) [
      | inl l ↦ ord.same_less x mx ∙ rw l refl
      | inr n ↦ absurd (differ (c.less b mx) under (ord.less_skip b x mx down n))
    ]

    -- The first value that equals the maximum is the one that the loop settles on.
    best_from-first_same :
        (mx : F) (best : ℕ) (b : F) (i : ℕ) (xs : List F)
        → c.less mx b ≡ false
        → Each (λ x. c.less mx x ≡ false) xs
        → Attains mx (b ∷ xs)
        → best_from c best b i xs ≡ (if c.same b mx then best else first_same c mx xs i)
    unfolding best_from first_same
    best_from-first_same mx best b i [] top each (inl at) = rw at refl
    best_from-first_same mx best b i [] top each (inr never) = absurd never
    best_from-first_same mx best b i (x ∷ xs) top each at = elim (Bool-cases (c.less b x)) [
      | inl up ↦
          let past = below b mx x up each.0 in
          rw (up, past)
            (best_from-first_same mx i x (suc i) xs each.0 each.1
              (elim at [ inl same ↦ absurd (differ (c.same b mx) same past) | inr later ↦ later ]))
      | inr down ↦ elim (Bool-cases (c.same b mx)) [
        | inl same ↦
            let rest = best_from-first_same mx best b (suc i) xs top each.1 (inl same) in
            rw (down, same)
              (subst
                (λ t.
                  best_from c best b (suc i) xs ≡ (if t then best else first_same c mx xs (suc i)))
                same rest)
        | inr apart ↦
            let under = not_same b mx apart top in
            let other = below_too b x mx under down each.0 in
            let rest = best_from-first_same mx best b (suc i) xs top each.1 (elim at [
              | inl same ↦ absurd (differ (c.same b mx) same apart)
              | inr later ↦ elim later [
                | inl same ↦ absurd (differ (c.same x mx) same other)
                | inr much_later ↦ inr much_later
              ]
            ]) in
            rw (down, apart, other)
              (subst
                (λ t.
                  best_from c best b (suc i) xs ≡ (if t then best else first_same c mx xs (suc i)))
                apart rest)
      ]
    ]

    -- The maximum is one of the values.
    larger_is : (p : F → Type 0) (m x : F) → p m → p x → p (larger c m x)
    unfolding larger
    larger_is p m x a b = elim (Bool-cases (c.less m x)) [
      | inl up ↦ rw (up, larger) b
      | inr down ↦ rw (down, larger) a
    ]

    most_is : (p : F → Type 0) (m : F) (xs : List F) → p m → Each p xs → p (most c m xs)
    unfolding most
    most_is p m [] a b = a
    most_is p m (x ∷ xs) a b = most_is p (larger c m x) xs (larger_is p m x a b.0) b.1

    take_in_is :
        (p : F → Type 0) (ms xs : List F) → Each p ms → Each p xs → Each p (take_in c ms xs)
    unfolding take_in
    take_in_is p [] xs a b = tt
    take_in_is p (m ∷ ms) [] a b = a
    take_in_is p (m ∷ ms) (x ∷ xs) a b = (larger_is p m x a.0 b.0, take_in_is p ms xs a.1 b.1)

    finish_is :
        (p : F → Type 0) (d : F) (ms xs : List F)
        → p d
        → Each p ms
        → Each p xs
        → p (finish c d ms xs)
    unfolding finish
    finish_is p d [] xs o a b = o
    finish_is p d (m ∷ ms) xs o a b = most_is p (most c m xs) ms (most_is p m xs a.0 b) a.1

    Each-take : (p : F → Type 0) (n : ℕ) (xs : List F) → Each p xs → Each p (take n xs)
    Each-take p zero xs a = tt
    Each-take p (suc n) [] a = tt
    Each-take p (suc n) (x ∷ xs) a = (a.0, Each-take p n xs a.1)

    Each-drop : (p : F → Type 0) (n : ℕ) (xs : List F) → Each p xs → Each p (drop n xs)
    Each-drop p zero xs a = a
    Each-drop p (suc n) [] a = tt
    Each-drop p (suc n) (x ∷ xs) a = Each-drop p n xs a.1

    run_is :
        (p : F → Type 0) (d : F) (fuel : ℕ) (ms xs : List F)
        → p d
        → Each p ms
        → Each p xs
        → p (run c d fuel ms xs)
    unfolding run
    run_is p d zero ms xs o a b = finish_is p d ms xs o a b
    run_is p d (suc fuel) ms xs o a b = elim (Bool-cases (leb 8 (length xs))) [
      | inr rest ↦ rw (rest, run) (finish_is p d ms xs o a b)
      | inl wide ↦
          rw (wide, run)
            (run_is p d fuel (take_in c ms (take 8 xs)) (drop 8 xs) o
              (take_in_is p ms (take 8 xs) a (Each-take p 8 xs b)) (Each-drop p 8 xs b))
    ]

    -- A value is one of a list, and then the list attains it.
    abbrev In : List F → F → Type 0
    In [] y = ⊥
    In (x ∷ xs) y = (x ≡ y) ⊎ In xs y

    In-Attains : (y : F) (xs : List F) → In xs y → Attains y xs
    In-Attains y [] h = h
    In-Attains y (x ∷ xs) (inl same) = inl (rw same (ord.same_less y y ∙ rw (less_refl y) refl))
    In-Attains y (x ∷ xs) (inr later) = inr (In-Attains y xs later)

    Each-In : (xs : List F) → Each (In xs) xs
    Each-In [] = tt
    Each-In (x ∷ xs) = (inl refl, Each-map (In xs) (In (x ∷ xs)) (λ y h. inr h) xs (Each-In xs))

    -- On values of which none is a NaN, the index found by way of the eight lanes is the one that the
    -- plain loop settles on, the first index of the largest value, whatever their number is.
    pub argmax-best_from : (v : F) (vs : List F) → argmax c v vs ≡ best_from c 0 v 1 vs
    unfolding argmax first_same
    argmax-best_from v vs =
        let lanes = v ∷ v ∷ v ∷ v ∷ v ∷ v ∷ v ∷ v ∷ [] in
        let fuel = suc (length vs) in
        let mx = run c v fuel lanes (v ∷ vs) in
        let each = run-Each v fuel lanes (v ∷ vs) (omega arith) in
        let here : In (v ∷ vs) v = inl refl in
        let is =
          run_is (In (v ∷ vs)) v fuel lanes (v ∷ vs) here
            (here, (here, (here, (here, (here, (here, (here, (here, tt)))))))) (Each-In (v ∷ vs)) in
        sym (best_from-first_same mx 0 v 1 vs each.0 each.1 (In-Attains mx (v ∷ vs) is))
