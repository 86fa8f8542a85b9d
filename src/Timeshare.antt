-- ===== src/Timeshare.antt =====
-- `struct timeshare` of tools/qwfn_server.cpp: the requests that share the engine in turns. Each
-- function is one section under the mutex `m`. A ticket is its id, a session key a number, a time
-- point a count of clock ticks with 0 for `tp{}`; `secs` and `exp2` stand for the library's.
pub mod Pick
pub mod Charge
pub mod Yield
pub mod Count
pub mod System
pub mod Fresh
mod Examples
use qw_fnfer_xpu.Base.{
  ℕ, ◌+◌, ◌-◌, Bool, true, false, not, ◌&&◌, ◌||◌, Option, none, some, List, [], ◌∷◌, ◌++◌, ltb,
  leb, ◌==◌, if◌then◌else◌, length, update,
}
use qw_fnfer_xpu.Double.{Double}

-- `std::find` and `erase` of one element.
unfoldable pub remove : ℕ → List ℕ → List ℕ
remove x [] = []
remove x (y ∷ ys) = if y == x then ys else y ∷ remove x ys

module _ (c : Double) (secs : ℕ → c.F) (exp2 : c.F → c.F) where
  open c use {F, num, plus, minus, times, over, less, same}

  pub record Ticket : Type 0 where
    pub session : ℕ
    pub arrived : ℕ
    pub parked : Bool
    pub abandoned : Bool
    pub used : F
    pub n_parks : ℕ

  pub record Usage : Type 0 where
    pub s : F
    pub t : ℕ

  pub record Sched : Type 0 where
    pub max_open : ℕ
    pub quantum : F
    pub linger : ℕ
    pub half_life : F
    pub tickets : ℕ → Ticket
    pub waiting : List ℕ
    pub running : Option ℕ
    pub n_open : ℕ
    pub next_id : ℕ
    pub slice_start : ℕ
    pub charged_at : ℕ
    pub linger_until : ℕ
    pub linger_slice : ℕ
    pub linger_session : ℕ
    pub usage : List (ℕ × Usage)
    pub n_admitted : ℕ
    pub n_rejected : ℕ
    pub n_parks : ℕ
    pub n_park_refused : ℕ
    pub n_lingered : ℕ
    pub n_abandoned : ℕ

  abbrev pub faded : F → Usage → ℕ → F
  faded half_life u now = times u.s (exp2 (over (minus (num 0) (secs (now - u.t))) half_life))

  unfoldable pub decayed_in : F → ℕ → ℕ → List (ℕ × Usage) → F
  decayed_in half_life session now [] = num 0
  decayed_in half_life session now ((k, u) ∷ us) =
      if k == session then faded half_life u now else decayed_in half_life session now us

  unfoldable pub decayed : Sched → ℕ → ℕ → F
  decayed q session now = decayed_in q.half_life session now q.usage

  unfoldable pub put_usage : ℕ → Usage → List (ℕ × Usage) → List (ℕ × Usage)
  put_usage session u [] = (session, u) ∷ []
  put_usage session u ((k, v) ∷ us) =
      if k == session then (k, u) ∷ us else (k, v) ∷ put_usage session u us

  -- Sessions whose usage has decayed away are forgotten, but for the one given.
  unfoldable pub forget : F → ℕ → ℕ → List (ℕ × Usage) → List (ℕ × Usage)
  forget half_life session now [] = []
  forget half_life session now ((k, u) ∷ us) =
      if less (faded half_life u now) (over (num 1) (num 100)) && not (k == session)
      then forget half_life session now us
      else (k, u) ∷ forget half_life session now us

  unfoldable pub charge : Sched → ℕ → ℕ → Sched
  charge q id now =
      let t = q.tickets id in
      let dt =
        if less (num 0) (secs (now - q.charged_at)) then secs (now - q.charged_at) else num 0 in
      let us =
        put_usage t.session (record { s = plus (decayed q t.session now) dt; t = now }) q.usage in
      record q {
        tickets = update q.tickets id (record t { used = plus t.used dt });
        charged_at = now;
        usage = if ltb 256 (length us) then forget q.half_life t.session now us else us;
      }

  -- The loop of `pick` within a linger: the session's earliest arrival.
  unfoldable pub earliest : Sched → List ℕ → Option ℕ → Option ℕ
  earliest q [] best = best
  earliest q (t ∷ ts) best = earliest q ts (
      if (q.tickets t).session == q.linger_session
      then elim best [
        | none ↦ some t
        | some b ↦ if ltb (q.tickets t).arrived (q.tickets b).arrived then some t else some b
      ]
      else best)

  -- The rule of `pick`: the session used least, then the earliest arrival.
  unfoldable pub precedes : Sched → ℕ → ℕ → ℕ → Bool
  precedes q now a b =
      let u = decayed q (q.tickets a).session now in
      let v = decayed q (q.tickets b).session now in
      less u v || (same u v && ltb (q.tickets a).arrived (q.tickets b).arrived)

  unfoldable pub least_used : Sched → ℕ → List ℕ → Option ℕ → Option ℕ
  least_used q now [] best = best
  least_used q now (t ∷ ts) best =
      least_used q now ts
        (elim best [ none ↦ some t | some b ↦ if precedes q now t b then some t else some b ])

  unfoldable pub pick : Sched → ℕ → Option ℕ
  pick q now = elim q.running [
    | some r ↦ none
    | none ↦
        if ltb now q.linger_until
        then earliest q q.waiting none
        else least_used q now q.waiting none
  ]

  unfoldable pub admit : Sched → ℕ → ℕ → Sched × Option ℕ
  admit q session now =
      if leb q.max_open q.n_open then (record q { n_rejected = q.n_rejected + 1 }, none) else (
        record q {
          n_open = q.n_open + 1;
          n_admitted = q.n_admitted + 1;
          next_id = q.next_id + 1;
          tickets = update q.tickets q.next_id (record {
            session = session;
            arrived = now;
            parked = false;
            abandoned = false;
            used = num 0;
            n_parks = 0;
          });
        },
        some q.next_id,
      )

  -- `wait_turn` begins: the ticket joins the waiting ones.
  unfoldable pub enqueue : Sched → ℕ → Sched
  enqueue q id = record q { waiting = q.waiting ++ id ∷ [] }

  abbrev pub is_picked : Option ℕ → ℕ → Bool
  is_picked none id = false
  is_picked (some b) id = b == id

  -- The rest of `wait_turn` once the loop has ended.
  unfoldable pub take_turn : Sched → ℕ → ℕ → Sched
  take_turn q id now =
      let continues = ltb now q.linger_until && ((q.tickets id).session == q.linger_session) in
      record q {
        waiting = remove id q.waiting;
        running = some id;
        tickets = update q.tickets id (record (q.tickets id) { parked = false });
        charged_at = now;
        slice_start = if continues then q.linger_slice else now;
        n_lingered = if continues then q.n_lingered + 1 else q.n_lingered;
        linger_until = 0;
      }

  -- The idle call returned false: the client left while the ticket waited.
  unfoldable pub give_up : Sched → ℕ → Sched
  give_up q id = record q {
    waiting = remove id q.waiting;
    tickets = update q.tickets id (record (q.tickets id) { abandoned = true });
    n_abandoned = q.n_abandoned + 1;
    n_open = q.n_open - 1;
  }

  -- One pass of the waiting loop: at `now` the turn is taken if it is this ticket's (the clock is
  -- read again, `later`), or else, where an idle call is due and says that the client has gone, the
  -- place is given up. `gone`: an idle call was due and it returned false.
  unfoldable pub poll : Sched → ℕ → ℕ → ℕ → Bool → Sched
  poll q id now later gone =
      if is_picked (pick q now) id
      then take_turn q id later
      else if gone && not (is_picked (pick q later) id)
      then give_up q id
      else q

  -- Whether a waiting ticket comes before the running one once its slice is charged.
  unfoldable pub preceded : Sched → ℕ → ℕ → List ℕ → Bool
  preceded q id now [] = false
  preceded q id now (w ∷ ws) = if precedes q now w id then true else preceded q id now ws

  unfoldable pub should_yield : Sched → ℕ → ℕ → Sched × Bool
  should_yield q id now =
      if not (is_picked q.running id) || less (secs (now - q.slice_start)) q.quantum
      then (q, false)
      else let charged = charge q id now in
        if preceded charged id now charged.waiting
        then (charged, true)
        else (record charged { slice_start = now }, false)

  unfoldable pub refused : Sched → ℕ → ℕ → Sched
  refused q id now = record q {
    slice_start = if is_picked q.running id then now else q.slice_start;
    n_park_refused = q.n_park_refused + 1;
  }

  unfoldable pub park : Sched → ℕ → ℕ → Sched
  park q id now =
      let charged = charge q id now in
      let t = charged.tickets id in
      enqueue
        (record charged {
          tickets = update charged.tickets id (record t { parked = true; n_parks = t.n_parks + 1 });
          n_parks = q.n_parks + 1;
          running = none;
        })
        id

  unfoldable pub release : Sched → ℕ → ℕ → Sched
  release q id now =
      if (q.tickets id).abandoned
      then q
      else if is_picked q.running id
      then (let charged = charge q id now in
          record charged {
            running = none;
            linger_until = now + q.linger;
            linger_session = (q.tickets id).session;
            linger_slice = q.slice_start;
            n_open = q.n_open - 1;
          })
      else record q { waiting = remove id q.waiting; n_open = q.n_open - 1 }
