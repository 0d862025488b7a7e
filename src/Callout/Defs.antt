-- ===== src/Callout/Defs.antt =====
-- pppd/main.c: the list of pending timeouts, its clock readings and its handlers.
use ppp.Prelude.{
  ℕ, zero, suc, ◌+◌, ◌-◌, ◌*◌, ◌/◌, ◌%◌, Bool, ◌&&◌, ◌||◌, Option, none, some, List, [], ◌∷◌,
  if◌then◌else◌, ltb, leb, ◌==◌,
}

-- `struct timeval`, after the epoch.
pub record Time : Type 0 where
  pub sec : ℕ
  pub usec : ℕ

-- `struct callout`. The key stands for the routine and its argument.
pub record Callout (K : Type 0) : Type 0 where
  pub time : Time
  pub key : K

-- The two comparisons of times that the code writes out.
unfoldable pub before : Time → Time → Bool
before a b = ltb a.sec b.sec || (a.sec == b.sec && ltb a.usec b.usec)

unfoldable pub is_due : Time → Time → Bool
is_due a now = ltb a.sec now.sec || (a.sec == now.sec && leb a.usec now.usec)

-- The time `secs` and `usecs` from now, with the microseconds carried.
unfoldable pub deadline : Time → ℕ → ℕ → Time
deadline now secs usecs =
    let s = now.sec + secs in
    let u = now.usec + usecs in
    if leb 1000000 u
    then record { sec = s + u / 1000000; usec = u % 1000000 }
    else record { sec = s; usec = u }

module _ {K : Type 0} where
  -- The loop that links a callout in: before the first entry that is later.
  unfoldable pub link : Callout K → List (Callout K) → List (Callout K)
  unfolding before
  link new [] = new ∷ []
  link new (p ∷ ps) = if before new.time p.time then new ∷ p ∷ ps else p ∷ link new ps

  unfoldable pub timeout : Time → K → ℕ → ℕ → List (Callout K) → List (Callout K)
  timeout now key secs usecs cs = link (record { time = deadline now secs usecs; key = key }) cs

  -- The first entry that matches goes.
  unfoldable pub untimeout : (K → K → Bool) → K → List (Callout K) → List (Callout K)
  untimeout same key [] = []
  untimeout same key (p ∷ ps) = if same p.key key then ps else p ∷ untimeout same key ps

  -- How long until the head is due, at the reading `now`; nothing for an empty list.
  unfoldable pub timeleft : Time → List (Callout K) → Option Time
  timeleft now [] = none
  timeleft now (p ∷ ps) =
      let borrow : ℕ = if ltb p.time.usec now.usec then 1 else 0 in
      some (
        if ltb p.time.sec (now.sec + borrow) then record { sec = 0; usec = 0 } else record {
          sec = p.time.sec - now.sec - borrow;
          usec = p.time.usec + borrow * 1000000 - now.usec;
        })

-- What `calltimeout` leaves: the list, the rest of the program's state, and the keys called, the
-- last first.
pub record Outcome (K S : Type 0) : Type 0 where
  pub list : List (Callout K)
  pub state : S
  pub called : List (Callout K)

module _ {K S : Type 0} (clock : ℕ → Time)
    (handler : K → S → List (Callout K) → S × List (Callout K)) where
  -- `calltimeout` with fuel; `clock n` is the `n`th reading of the time, and a handler may
  -- schedule and cancel callouts. `none` means that the fuel ran out.
  unfoldable pub calltimeout_from : ℕ → ℕ → Outcome K S → List (Callout K) → Option (Outcome K S)
  calltimeout_from zero n o cs = none
  calltimeout_from (suc fuel) n o [] = some (record o { list = [] })
  calltimeout_from (suc fuel) n o (p ∷ ps) =
      let (s, cs) = handler p.key o.state ps in
      let rest =
        calltimeout_from fuel (n + 1) (record { list = cs; state = s; called = p ∷ o.called }) cs in
      if is_due p.time (clock n) then rest else some (record o { list = p ∷ ps })

  unfoldable pub calltimeout : ℕ → S → List (Callout K) → Option (Outcome K S)
  calltimeout fuel s cs = calltimeout_from fuel 0 (record { list = cs; state = s; called = [] }) cs
