-- ===== src/Timeshare/System.antt =====
-- The requests' calls of `timeshare` in any order: each step is one section under its mutex, taken
-- by a request at a point where the program calls it (`hold_engine` and `engine_hold`: admit, then
-- acquire, then park and resume any number of times, then release).
use qw_fnfer_xpu.Base.{
  ℕ, ◌+◌, ◌≤◌, ◌<◌, ◌≡◌, ◌≢◌, refl, ap, inl, inr, Bool, true, false, not, ◌&&◌, Option, none, some,
  List, [], ◌∷◌, leb, if◌then◌else◌, Bool-cases, length, length-append, arith,
}
use qw_fnfer_xpu.Double.{Double}
use qw_fnfer_xpu.Timeshare.{
  Sched, admit, enqueue, poll, take_turn, give_up, should_yield, refused, park, release, charge,
  is_picked, pick, remove,
}
use qw_fnfer_xpu.Timeshare.Count.{count, count-append, count-remove, length-remove}

module _ (c : Double) (secs : ℕ → c.F) (exp2 : c.F → c.F) where
  abbrev S : Type 0
  S = Sched c secs exp2

  -- The scheduler, and the requests that are admitted and have not called `acquire` yet.
  pub record World : Type 0 where
    pub q : S
    pub entering : List ℕ

  pub data Step (w : World) : World → Type 0 where
    admits :
        (session now id : ℕ)
        → (admit c secs exp2 w.q session now).1 ≡ some id
        → Step w (record { q = (admit c secs exp2 w.q session now).0; entering = id ∷ w.entering })
    rejects :
        (session now : ℕ)
        → (admit c secs exp2 w.q session now).1 ≡ none
        → Step w (record w { q = (admit c secs exp2 w.q session now).0 })
    queues :
        (id : ℕ)
        → 0 < count id w.entering
        → Step w (record { q = enqueue c secs exp2 w.q id; entering = remove id w.entering })
    polls :
        (id now later : ℕ) (gone : Bool)
        → 0 < count id w.q.waiting
        → Step w (record w { q = poll c secs exp2 w.q id now later gone })
    checks :
        (id now : ℕ)
        → w.q.running ≡ some id
        → Step w (record w { q = (should_yield c secs exp2 w.q id now).0 })
    refuses :
        (id now : ℕ)
        → w.q.running ≡ some id
        → Step w (record w { q = refused c secs exp2 w.q id now })
    parks :
        (id now : ℕ) → w.q.running ≡ some id → Step w (record w { q = park c secs exp2 w.q id now })
    releases :
        (id now : ℕ)
        → w.q.running ≡ some id
        → Step w (record w { q = release c secs exp2 w.q id now })
    leaves :
        (id now : ℕ)
        → (w.q.tickets id).abandoned ≡ true
        → Step w (record w { q = release c secs exp2 w.q id now })

  pub data Reach (w : World) : World → Type 0 where
    here : Reach w w
    next : {v u : World} → Reach w v → Step v u → Reach w u

  abbrev pub holds : Option ℕ → ℕ → ℕ
  holds r id = if is_picked c secs exp2 r id then 1 else 0

  -- How often a request is open: running, waiting or about to wait.
  abbrev pub open_as : World → ℕ → ℕ
  open_as w id = holds w.q.running id + count id w.q.waiting + count id w.entering

  abbrev pub held : Option ℕ → ℕ
  held none = 0
  held (some r) = 1

  pub record Inv (w : World) : Type 0 where
    pub counted : w.q.n_open ≡ held w.q.running + length w.q.waiting + length w.entering
    pub capped : w.q.n_open ≤ w.q.max_open
    pub once : (id : ℕ) → open_as w id ≤ 1
    pub known : (id : ℕ) → 0 < open_as w id → id < w.q.next_id
    pub present : (id : ℕ) → 0 < open_as w id → (w.q.tickets id).abandoned ≡ false
    pub settled : w.q.running ≢ none → w.q.linger_until ≡ 0

  take_turn-Inv :
      (w : World) (id now : ℕ)
      → w.q.running ≡ none
      → 0 < count id w.q.waiting
      → Inv w
      → Inv (record w { q = take_turn c secs exp2 w.q id now })
  unfolding take_turn
  take_turn-Inv w id now free m h = record {
    counted = omega (arith, ap held free, h.counted, length-remove id w.q.waiting m);
    capped = h.capped;
    once = λ i. ground (arith, h.once i, count-remove i id w.q.waiting m, free);
    known = λ i p. ground (arith, h.known i, count-remove i id w.q.waiting m, free);
    present =
        λ i p. ground (arith, h.present i, h.present id, count-remove i id w.q.waiting m, free);
    settled = λ _. refl;
  }

  give_up-Inv :
      (w : World) (id : ℕ)
      → 0 < count id w.q.waiting
      → Inv w
      → Inv (record w { q = give_up c secs exp2 w.q id })
  unfolding give_up
  give_up-Inv w id m h = record {
    counted = omega (arith, h.counted, length-remove id w.q.waiting m);
    capped = omega (arith, h.capped);
    once = λ i. ground (arith, h.once i, count-remove i id w.q.waiting m);
    known = λ i p. ground (arith, h.known i, count-remove i id w.q.waiting m);
    present = λ i p. ground (arith, h.present i, h.once i, count-remove i id w.q.waiting m);
    settled = h.settled;
  }

  pick-free :
      (q : S) (now id : ℕ)
      → is_picked c secs exp2 (pick c secs exp2 q now) id ≡ true
      → q.running ≡ none
  unfolding pick
  pick-free q now id h = ground arith

  poll-Inv :
      (w : World) (id now later : ℕ) (gone : Bool)
      → 0 < count id w.q.waiting
      → Inv w
      → Inv (record w { q = poll c secs exp2 w.q id now later gone })
  unfolding poll
  poll-Inv w id now later gone m h =
      let turn = is_picked c secs exp2 (pick c secs exp2 w.q now) id in
      let leave = gone && not (is_picked c secs exp2 (pick c secs exp2 w.q later) id) in
      elim (Bool-cases turn) [
        | inl yes_turn ↦
            rw (yes_turn, poll) (take_turn-Inv w id later (pick-free w.q now id yes_turn) m h)
        | inr no_turn ↦ elim (Bool-cases leave) [
          | inl goes ↦ rw (no_turn, goes, poll) (give_up-Inv w id m h)
          | inr stays ↦ rw (no_turn, stays, poll) h
        ]
      ]

  -- The fields that the invariant reads.
  abbrev SamePlaces : S → S → Type 0
  SamePlaces q q' =
      (q'.running ≡ q.running)
      × (q'.waiting ≡ q.waiting)
      × (q'.n_open ≡ q.n_open)
      × (q'.max_open ≡ q.max_open)
      × (q'.next_id ≡ q.next_id)
      × ((i : ℕ) → (q'.tickets i).abandoned ≡ (q.tickets i).abandoned)
      × (q'.linger_until ≡ q.linger_until)

  SamePlaces-Inv : (w : World) (q : S) → SamePlaces w.q q → Inv w → Inv (record w { q = q })
  SamePlaces-Inv w q (running, waiting, n_open, max_open, next_id, abandoned, linger) h = record {
    counted = ground (arith, h.counted, running, waiting, n_open);
    capped = ground (arith, h.capped, n_open, max_open);
    once = λ i. ground (arith, h.once i, running, waiting);
    known = λ i p. ground (arith, h.known i, running, waiting, next_id);
    present = λ i p. ground (arith, h.present i, running, waiting, abandoned i);
    settled = λ p. ground (arith, h.settled, running, linger);
  }

  charge-SamePlaces : (q : S) (id now : ℕ) → SamePlaces q (charge c secs exp2 q id now)
  unfolding charge
  charge-SamePlaces q id now = (refl, refl, refl, refl, refl, (λ i. ground arith), refl)

  should_yield-SamePlaces :
      (q : S) (id now : ℕ) → SamePlaces q (should_yield c secs exp2 q id now).0
  unfolding should_yield
  should_yield-SamePlaces q id now =
      let same = charge-SamePlaces q id now in
      (
        ground (arith, same.0),
        ground (arith, same.1),
        ground (arith, same.2),
        ground (arith, same.3),
        ground (arith, same.4),
        (λ i. ground (arith, same.5 i)),
        ground (arith, same.6),
      )

  refused-SamePlaces : (q : S) (id now : ℕ) → SamePlaces q (refused c secs exp2 q id now)
  unfolding refused
  refused-SamePlaces q id now = (refl, refl, refl, refl, refl, (λ i. refl), refl)

  admit-Inv :
      (w : World) (session now id : ℕ)
      → (admit c secs exp2 w.q session now).1 ≡ some id
      → Inv w
      → Inv (record { q = (admit c secs exp2 w.q session now).0; entering = id ∷ w.entering })
  unfolding admit
  admit-Inv w session now id e h = elim (Bool-cases (leb w.q.max_open w.q.n_open)) [
    | inl full ↦ absurd (ground arith)
    | inr room ↦
        let own : w.q.next_id ≡ id = ground arith in
        rw (room, own)
          (record {
            counted = omega (arith, h.counted);
            capped = ground (arith, h.capped);
            once = λ i. ground (arith, h.once i, h.known i, own);
            known = λ i p. ground (arith, h.known i, own);
            present = λ i p. ground (arith, h.present i, own);
            settled = h.settled;
          })
  ]

  park-Inv :
      (w : World) (id now : ℕ)
      → w.q.running ≡ some id
      → Inv w
      → Inv (record w { q = park c secs exp2 w.q id now })
  unfolding park enqueue
  park-Inv w id now holds_it h =
      let (running, waiting, n_open, max_open, next_id, abandoned, linger) =
        charge-SamePlaces w.q id now in
      record {
        counted = omega (
          arith,
          h.counted,
          ap held holds_it,
          n_open,
          ap length waiting,
          length-append (charge c secs exp2 w.q id now).waiting (id ∷ []),
        );
        capped = omega (arith, h.capped, n_open, max_open);
        once = λ i. ground (
          arith,
          h.once i,
          holds_it,
          waiting,
          count-append i (charge c secs exp2 w.q id now).waiting (id ∷ []),
        );
        known = λ i p. ground (
          arith,
          h.known i,
          holds_it,
          waiting,
          next_id,
          count-append i (charge c secs exp2 w.q id now).waiting (id ∷ []),
        );
        present = λ i p. ground (
          arith,
          h.present i,
          holds_it,
          waiting,
          abandoned i,
          count-append i (charge c secs exp2 w.q id now).waiting (id ∷ []),
        );
        settled = λ p. absurd (p refl);
      }

  release-Inv :
      (w : World) (id now : ℕ)
      → w.q.running ≡ some id
      → Inv w
      → Inv (record w { q = release c secs exp2 w.q id now })
  unfolding release
  release-Inv w id now holds_it h =
      let (running, waiting, n_open, max_open, next_id, abandoned, linger) =
        charge-SamePlaces w.q id now in
      let there : (w.q.tickets id).abandoned ≡ false = ground (arith, h.present id) in
      let mine : is_picked c secs exp2 w.q.running id ≡ true = rw holds_it (ground arith) in
      rw (there, mine, release)
        (record {
          counted = omega (arith, h.counted, ap held holds_it, ap length waiting);
          capped = omega (arith, h.capped, max_open);
          once = λ i. ground (arith, h.once i, waiting);
          known = λ i p. ground (arith, h.known i, waiting, next_id);
          present = λ i p. ground (arith, h.present i, waiting, abandoned i);
          settled = λ p. absurd (p refl);
        })

  enqueue-Inv :
      (w : World) (id : ℕ)
      → 0 < count id w.entering
      → Inv w
      → Inv (record { q = enqueue c secs exp2 w.q id; entering = remove id w.entering })
  unfolding enqueue
  enqueue-Inv w id m h = record {
    counted =
        omega
          (arith, h.counted, length-append w.q.waiting (id ∷ []), length-remove id w.entering m);
    capped = h.capped;
    once = λ i.
        ground
          (arith, h.once i, count-append i w.q.waiting (id ∷ []), count-remove i id w.entering m);
    known = λ i p.
        ground
          (arith, h.known i, count-append i w.q.waiting (id ∷ []), count-remove i id w.entering m);
    present = λ i p.
        ground (
          arith,
          h.present i,
          count-append i w.q.waiting (id ∷ []),
          count-remove i id w.entering m,
        );
    settled = h.settled;
  }

  reject-same :
      (q : S) (session now : ℕ)
      → (admit c secs exp2 q session now).1 ≡ none
      → SamePlaces q (admit c secs exp2 q session now).0
  unfolding admit
  reject-same q session now e = elim (Bool-cases (leb q.max_open q.n_open)) [
    | inl full ↦ rw full (refl, refl, refl, refl, refl, (λ i. refl), refl)
    | inr room ↦ absurd (ground arith)
  ]

  leave-same :
      (q : S) (id now : ℕ) → (q.tickets id).abandoned ≡ true → release c secs exp2 q id now ≡ q
  unfolding release
  leave-same q id now gone = rw gone

  Step-Inv : {w v : World} → Step w v → Inv w → Inv v
  Step-Inv {w} (admits session now id e) h = admit-Inv w session now id e h
  Step-Inv {w} (rejects session now e) h = SamePlaces-Inv w _ (reject-same w.q session now e) h
  Step-Inv {w} (queues id m) h = enqueue-Inv w id m h
  Step-Inv {w} (polls id now later gone m) h = poll-Inv w id now later gone m h
  Step-Inv {w} (checks id now e) h = SamePlaces-Inv w _ (should_yield-SamePlaces w.q id now) h
  Step-Inv {w} (refuses id now e) h = SamePlaces-Inv w _ (refused-SamePlaces w.q id now) h
  Step-Inv {w} (parks id now e) h = park-Inv w id now e h
  Step-Inv {w} (releases id now e) h = release-Inv w id now e h
  Step-Inv {w} (leaves id now gone) h = rw (leave-same w.q id now gone) h

  -- From a state where it holds, in whatever order the requests' calls interleave: at most `max_open` requests are open, each
  -- of them exactly once (running, waiting, or between admission and its first wait) under an id
  -- that was given out and was not given up; the count of open requests is theirs, and no linger
  -- runs while a request holds the engine.
  pub Reach-Inv : {w v : World} → Reach w v → Inv w → Inv v
  Reach-Inv here h = h
  Reach-Inv (next r s) h = Step-Inv s (Reach-Inv r h)
