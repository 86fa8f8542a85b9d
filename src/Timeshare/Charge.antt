-- ===== src/Timeshare/Charge.antt =====
-- `timeshare::charge` once more at the instant of the last charge: no usage changes.
use qw_fnfer_xpu.Base.{
  ℕ, ◌-◌, ◌≡◌, refl, sym, ap, ◌∙◌, inl, inr, Bool, false, not, ◌&&◌, Option, none, some, List, [],
  ◌∷◌, length, ltb, ◌==◌, ==_refl, if◌then◌else◌, update_self, Bool-cases, arith,
}
use mathlib.Core.Option.{some-injective}
use qw_fnfer_xpu.Double.{Double, IsOrdered}
use qw_fnfer_xpu.Timeshare.{Sched, Usage, faded, decayed_in, decayed, put_usage, forget, charge}

module _ (c : Double) (secs : ℕ → c.F) (exp2 : c.F → c.F) where
  open c use {F, num, plus, minus, times, over, less}

  abbrev S : Type 0
  S = Sched c secs exp2

  abbrev U : Type 0
  U = Usage c secs exp2

  -- What the clock and the doubles give where no time has passed, the two zeros taken as one: no
  -- seconds, a sum with them, and a product with `exp2` of none of them in half-lives.
  pub record IsStill (half_life : F) : Type 0 where
    pub secs_zero : secs 0 ≡ num 0
    pub plus_zero : (u : F) → plus u (num 0) ≡ u
    pub no_decay : (u : F) → times u (exp2 (over (minus (num 0) (num 0)) half_life)) ≡ u

  -- The usage of a session as the list has it.
  unfoldable entry : ℕ → List (ℕ × U) → Option U
  entry s [] = none
  entry s ((k, v) ∷ us) = if k == s then some v else entry s us

  entry-put_usage :
      (s : ℕ) (v : U) (us : List (ℕ × U)) → entry s (put_usage c secs exp2 s v us) ≡ some v
  unfolding entry put_usage
  entry-put_usage s v [] = rw (==_refl s) refl
  entry-put_usage s v ((k, w) ∷ us) = elim (Bool-cases (k == s)) [
    | inl own ↦ rw (own, own) refl
    | inr other ↦ rw (other, other) (entry-put_usage s v us)
  ]

  put_usage_same :
      (s : ℕ) (v : U) (us : List (ℕ × U)) → entry s us ≡ some v → put_usage c secs exp2 s v us ≡ us
  unfolding entry put_usage
  put_usage_same s v [] h = ground arith
  put_usage_same s v ((k, w) ∷ us) h = elim (Bool-cases (k == s)) [
    | inl own ↦
        let same : some w ≡ some v = rw (own, entry) at h in
        rw (own, put_usage) (ap (λ x. (k, x) ∷ us) (sym (some-injective w v same)))
    | inr other ↦
        let rest : entry s us ≡ some v = rw (other, entry) at h in
        rw (other, put_usage) (ap (λ xs. (k, w) ∷ xs) (put_usage_same s v us rest))
  ]

  decayed_in-entry :
      (half_life : F) (s now : ℕ) (v : U) (us : List (ℕ × U))
      → entry s us ≡ some v
      → decayed_in c secs exp2 half_life s now us ≡ faded c secs exp2 half_life v now
  unfolding entry decayed_in
  decayed_in-entry half_life s now v [] h = ground arith
  decayed_in-entry half_life s now v ((k, w) ∷ us) h = elim (Bool-cases (k == s)) [
    | inl own ↦
        let same : some w ≡ some v = rw (own, entry) at h in
        rw (own, decayed_in) (ap (λ x. faded c secs exp2 half_life x now) (some-injective w v same))
    | inr other ↦
        let rest : entry s us ≡ some v = rw (other, entry) at h in
        rw (other, decayed_in) (decayed_in-entry half_life s now v us rest)
  ]

  module _ (half_life : F) (s now : ℕ) where
    abbrev gone : ℕ → U → Bool
    gone k v = less (faded c secs exp2 half_life v now) (over (num 1) (num 100)) && not (k == s)

    entry-forget :
        (us : List (ℕ × U)) → entry s (forget c secs exp2 half_life s now us) ≡ entry s us
    unfolding entry forget
    entry-forget [] = refl
    entry-forget ((k, v) ∷ us) = elim (Bool-cases (gone k v)) [
      | inl old ↦
          let other : k == s ≡ false = ground arith in
          rw (old, other, forget, entry) (entry-forget us)
      | inr new ↦ elim (Bool-cases (k == s)) [
        | inl own ↦ rw (new, own, forget, entry) refl
        | inr other ↦ rw (new, other, forget, entry) (entry-forget us)
      ]
    ]

    forget_twice :
        (us : List (ℕ × U))
        → forget c secs exp2 half_life s now (forget c secs exp2 half_life s now us)
          ≡ forget c secs exp2 half_life s now us
    unfolding forget
    forget_twice [] = refl
    forget_twice ((k, v) ∷ us) = elim (Bool-cases (gone k v)) [
      | inl old ↦ rw (old, forget) (forget_twice us)
      | inr new ↦ rw (new, forget) (rw (new, forget) (ap (λ xs. (k, v) ∷ xs) (forget_twice us)))
    ]

    abbrev bounded : List (ℕ × U) → List (ℕ × U)
    bounded us = if ltb 256 (length us) then forget c secs exp2 half_life s now us else us

    bounded_twice : (us : List (ℕ × U)) → bounded (bounded us) ≡ bounded us
    bounded_twice us = elim (Bool-cases (ltb 256 (length us))) [
      | inr few ↦ rw (few, few) refl
      | inl many ↦
          rw many (elim (Bool-cases (ltb 256 (length (forget c secs exp2 half_life s now us)))) [
            | inr few ↦ rw few refl
            | inl still ↦ rw still (forget_twice us)
          ])
    ]

    entry-bounded : (us : List (ℕ × U)) → entry s (bounded us) ≡ entry s us
    entry-bounded us = elim (Bool-cases (ltb 256 (length us))) [
      | inr few ↦ rw few refl
      | inl many ↦ rw many (entry-forget us)
    ]

  -- The seconds charged, and the usages once they are.
  abbrev pub waited : ℕ → ℕ → F
  waited now at = if less (num 0) (secs (now - at)) then secs (now - at) else num 0

  abbrev charged : F → ℕ → ℕ → ℕ → List (ℕ × U) → List (ℕ × U)
  charged half_life s now at us = bounded half_life s now (
      put_usage c secs exp2 s
        (record { s = plus (decayed_in c secs exp2 half_life s now us) (waited now at); t = now })
        us)

  module _ (o : IsOrdered c) where
    waited_zero : (half_life : F) (now : ℕ) → IsStill half_life → waited now now ≡ num 0
    waited_zero half_life now still =
        let none_passed : now - now ≡ 0 = omega arith in
        let zero_secs = still.secs_zero in
        let not_less : less (num 0) (num 0) ≡ false = elim (Bool-cases (less (num 0) (num 0))) [
          | inl b ↦ o.less_asym (num 0) (num 0) b
          | inr b ↦ b
        ] in
        rw (none_passed, zero_secs, not_less) refl

    charged_same :
        (half_life : F) (s now : ℕ) (x : F) (us : List (ℕ × U))
        → IsStill half_life
        → entry s us ≡ some (record { s = x; t = now })
        → bounded half_life s now us ≡ us
        → charged half_life s now now us ≡ us
    charged_same half_life s now x us still held fits =
        let v : U = record { s = x; t = now } in
        let none_passed : now - now ≡ 0 = omega arith in
        let zero_secs = still.secs_zero in
        let kept : faded c secs exp2 half_life v now ≡ x =
          ap (λ n. times x (exp2 (over (minus (num 0) (secs n)) half_life))) none_passed
          ∙ (ap (λ z. times x (exp2 (over (minus (num 0) z) half_life))) zero_secs
              ∙ still.no_decay x) in
        let now_x : plus (decayed_in c secs exp2 half_life s now us) (waited now now) ≡ x =
          ap (λ y. plus y (waited now now)) (decayed_in-entry half_life s now v us held ∙ kept)
          ∙ (ap (λ y. plus x y) (waited_zero half_life now still) ∙ still.plus_zero x) in
        ap (λ y. bounded half_life s now (put_usage c secs exp2 s (record { s = y; t = now }) us))
          now_x
        ∙ (ap (λ ys. bounded half_life s now ys) (put_usage_same s v us held) ∙ fits)

    -- A second charge at the same instant leaves every session's usage as the first has it.
    pub charge-charge :
        (q : S) (id now : ℕ)
        → IsStill q.half_life
        → (charge c secs exp2 (charge c secs exp2 q id now) id now).usage
          ≡ (charge c secs exp2 q id now).usage
    unfolding charge decayed
    charge-charge q id now still =
        let s = (q.tickets id).session in
        let x = plus (decayed c secs exp2 q s now) (waited now q.charged_at) in
        let us = charged q.half_life s now q.charged_at q.usage in
        let put = put_usage c secs exp2 s (record { s = x; t = now }) q.usage in
        let held : entry s us ≡ some (record { s = x; t = now }) =
          entry-bounded q.half_life s now put
          ∙ entry-put_usage s (record { s = x; t = now }) q.usage in
        let own : ((charge c secs exp2 q id now).tickets id).session ≡ s =
          ap (λ t. t.session) (update_self q.tickets id _) in
        ap (λ z. charged q.half_life z now now us) own
        ∙ charged_same q.half_life s now x us still held (bounded_twice q.half_life s now put)
