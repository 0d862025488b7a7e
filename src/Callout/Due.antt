-- ===== src/Callout/Due.antt =====
-- What `calltimeout` calls and when it stops, and what `timeleft` tells the event loop.
use ppp.Prelude.{
  ℕ, zero, suc, ◌+◌, ◌<◌, ◌≤◌, ◌≡◌, inl, inr, refl, true, false, Option, none, some, List, [], ◌∷◌,
  arith, Bool-cases, if◌then◌else◌,
}
use mathlib.Core.Path.{subst}
use ppp.Callout.Defs.{Time, Callout, Outcome, is_due, timeleft, calltimeout_from, calltimeout}
use ppp.Callout.Order.{micros, IsCarried}

module _ {K : Type 0} where
  -- The wait that `timeleft` gives for a list ends exactly when its head falls due: it is 0 if the
  -- head is due, and otherwise the difference of the two times, to the microsecond; and its
  -- microseconds are fewer than a million. The condition: those of the two times are too.
  pub timeleft_lem :
      (now : Time) (p : Callout K) (ps : List (Callout K)) {t : Time}
      → IsCarried now
      → IsCarried p.time
      → timeleft now (p ∷ ps) ≡ some t
      → (is_due p.time now ≡ true → micros t ≡ 0)
        × (is_due p.time now ≡ false → micros now + micros t ≡ micros p.time)
        × IsCarried t
  unfolding timeleft is_due
  timeleft_lem now p ps cn cp e = ground arith

module _ {K S : Type 0} (clock : ℕ → Time)
    (handler : K → S → List (Callout K) → S × List (Callout K)) where
  -- Each entry was due at one of the readings.
  abbrev pub AllDue : List (Callout K) → Type 0
  AllDue [] = Unit
  AllDue (p ∷ ps) = ((n : ℕ) × (is_due p.time (clock n) ≡ true)) × AllDue ps

  -- The list is empty, or its head was not due at the last reading.
  abbrev pub IsDone : List (Callout K) → Type 0
  IsDone [] = Unit
  IsDone (p ∷ ps) = (n : ℕ) × (is_due p.time (clock n) ≡ false)

  -- Of a run that has not used up its fuel.
  abbrev pub Correct : Option (Outcome K S) → Type 0
  Correct none = Unit
  Correct (some r) = AllDue r.called × IsDone r.list

  calltimeout_from-Correct :
      (fuel n : ℕ) (o : Outcome K S) (cs : List (Callout K))
      → AllDue o.called
      → Correct (calltimeout_from clock handler fuel n o cs)
  unfolding calltimeout_from
  calltimeout_from-Correct zero n o cs h = tt
  calltimeout_from-Correct (suc fuel) n o [] h = (h, tt)
  calltimeout_from-Correct (suc fuel) n o (p ∷ ps) h = elim (Bool-cases (is_due p.time (clock n))) [
    | inl d ↦
        let (s, cs) = handler p.key o.state ps in
        rw d (
          calltimeout_from-Correct fuel (n + 1)
            (record { list = cs; state = s; called = p ∷ o.called }) cs ((n, d), h))
    | inr d ↦ rw d (h, (n, d))
  ]

  -- What becomes of a list from the `n`th reading of the clock on, with the state `s` and the
  -- callouts `before` that were called already, the last first: a head that is due is taken off and
  -- called, with the state and the list behind it, and the next round has what it leaves of these;
  -- a list that is empty, or whose head is not due, stays as it is.
  pub data Rounds : ℕ → S → List (Callout K) → List (Callout K) → Outcome K S → Type 0 where
    is_empty :
        {n : ℕ} {s : S} {before : List (Callout K)}
        → Rounds n s [] before (record { list = []; state = s; called = before })
    is_early :
        {n : ℕ} {s : S} {before : List (Callout K)} (p : Callout K) (ps : List (Callout K))
        → is_due p.time (clock n) ≡ false
        → Rounds n s (p ∷ ps) before (record { list = p ∷ ps; state = s; called = before })
    then_called :
        {n : ℕ} {s : S} {before : List (Callout K)} (p : Callout K) (ps : List (Callout K))
        {r : Outcome K S}
        → is_due p.time (clock n) ≡ true
        → Rounds (n + 1) (handler p.key s ps).0 (handler p.key s ps).1 (p ∷ before) r
        → Rounds n s (p ∷ ps) before r

  -- How many of the callouts are due at a time.
  abbrev pub due_count : Time → List (Callout K) → ℕ
  due_count t [] = 0
  due_count t (p ∷ ps) = (if is_due p.time t then 1 else 0) + due_count t ps

  calltimeout_from_ends :
      (horizon : Time)
      → ((n : ℕ) (t : Time) → is_due t (clock n) ≡ true → is_due t horizon ≡ true)
      → ((key : K) (s : S) (cs : List (Callout K))
          → due_count horizon (handler key s cs).1 ≤ due_count horizon cs)
      → (fuel n : ℕ) (o : Outcome K S) (cs : List (Callout K)) → due_count horizon cs < fuel
      → (r : Outcome K S) × (calltimeout_from clock handler fuel n o cs ≡ some r)
        × Rounds n o.state cs o.called r
  unfolding calltimeout_from
  calltimeout_from_ends horizon ticks fewer zero n o cs h = absurd (omega (arith, h))
  calltimeout_from_ends horizon ticks fewer (suc fuel) n o [] h =
      (record o { list = [] }, refl, is_empty)
  calltimeout_from_ends horizon ticks fewer (suc fuel) n o (p ∷ ps) h =
      let (s, cs) = handler p.key o.state ps in
      elim (Bool-cases (is_due p.time (clock n))) [
        | inl d ↦
            let late = ticks n p.time d in
            let (r, e, run) =
              calltimeout_from_ends horizon ticks fewer fuel (n + 1)
                (record { list = cs; state = s; called = p ∷ o.called }) cs
                (ground (arith, late, h, fewer p.key o.state ps)) in
            (r, rw d e, then_called p ps d run)
        | inr d ↦ (record o { list = p ∷ ps }, rw d refl, is_early p ps d)
      ]

  -- No reading of the clock is later than `horizon`, and what a handler schedules, itself again or
  -- others, is due after it: no handler leaves more callouts due by then than it found. Then the
  -- loop ends, and one round for each callout due by then and one more are enough. In each round
  -- the head, if it is due, is taken off and called with the list behind it, and the loop goes on
  -- with the list that the handler leaves; at the end the list is empty or its head was not due at
  -- the last reading, and every callout that was called had been due at a reading.
  pub calltimeout_ends :
      (horizon : Time) (s : S) (cs : List (Callout K))
      → ((n : ℕ) (t : Time) → is_due t (clock n) ≡ true → is_due t horizon ≡ true)
      → ((key : K) (t : S) (ds : List (Callout K))
          → due_count horizon (handler key t ds).1 ≤ due_count horizon ds)
      → (r : Outcome K S) × (calltimeout clock handler (due_count horizon cs + 1) s cs ≡ some r)
        × Rounds 0 s cs [] r
        × AllDue r.called
        × IsDone r.list
  unfolding calltimeout
  calltimeout_ends horizon s cs ticks fewer =
      let o : Outcome K S = record { list = cs; state = s; called = [] } in
      let n = due_count horizon cs + 1 in
      let (r, e, run) = calltimeout_from_ends horizon ticks fewer n 0 o cs (omega arith) in
      let good = subst Correct e (calltimeout_from-Correct n 0 o cs tt) in
      (r, e, run, good.0, good.1)
