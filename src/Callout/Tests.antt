-- ===== src/Callout/Tests.antt =====
-- Callouts at concrete times, and the theorems there.
use ppp.Prelude.{
  ℕ, zero, suc, ◌≤◌, ◌≡◌, refl, Bool, true, false, some, List, [], ◌∷◌, ◌==◌, arith, ◌+◌,
}
use ppp.Callout.Defs.{
  Time, Callout, Outcome, link, deadline, timeout, timeleft, calltimeout, is_due,
}
use ppp.Callout.Order.{micros, IsCarried, IsSorted, Placed, timeout-Placed}
use ppp.Callout.Due.{AllDue, IsDone, Rounds, due_count, timeleft_lem, calltimeout_ends}

abbrev at : ℕ → ℕ → Time
at s u = record { sec = s; usec = u }

abbrev nat_eq : ℕ → ℕ → Bool
nat_eq a b = a == b

abbrev two : List (Callout ℕ)
two = record { time = at 5 0; key = 1 } ∷ record { time = at 9 700000; key = 2 } ∷ []

-- The carry, and the place behind an equal time.
carried :
    timeout (at 6 900000) 3 2 800000 two
    ≡ record { time = at 5 0; key = 1 }
      ∷ record { time = at 9 700000; key = 2 }
      ∷ record { time = at 9 700000; key = 3 }
      ∷ []
unfolding timeout deadline link
carried = refl

two-IsSorted : IsSorted two
two-IsSorted = omega arith

timeout-Placed_example :
    Placed (record { time = deadline (at 6 0) 1 0; key = 3 }) two (timeout (at 6 0) 3 1 0 two)
timeout-Placed_example = timeout-Placed (at 6 0) 3 1 0 two two-IsSorted

abbrev soon : Callout ℕ
soon = record { time = at 5 100; key = 1 }

-- The first reading is behind the first callout, and the later ones are a little later.
abbrev ticks : ℕ → Time
ticks zero = at 6 0
ticks (suc n) = at 6 500

-- Each callout schedules itself again for five seconds later, as the periodic ones do.
abbrev again : ℕ → ℕ → List (Callout ℕ) → ℕ × List (Callout ℕ)
again k s cs = (s + k, timeout (at 6 0) k 5 0 cs)

in_time : (n : ℕ) (t : Time) → is_due t (ticks n) ≡ true → is_due t (at 6 500) ≡ true
unfolding is_due
in_time zero t d = ground arith
in_time (suc n) t d = d

link-late :
    (k : ℕ) (ds : List (Callout ℕ))
    → due_count ticks again (at 6 500) (link (record { time = at 11 0; key = k }) ds)
      ≡ due_count ticks again (at 6 500) ds
unfolding link is_due
link-late k [] = refl
link-late k (p ∷ ps) = ground (arith, link-late k ps)

later :
    (k s : ℕ) (ds : List (Callout ℕ))
    → due_count ticks again (at 6 500) (again k s ds).1 ≤ due_count ticks again (at 6 500) ds
unfolding timeout deadline
later k s ds = omega (arith, link-late k ds)

calltimeout_ends_example :
    (r : Outcome ℕ ℕ) × (calltimeout ticks again (due_count ticks again (at 6 500) two + 1) 0 two
      ≡ some r)
    × Rounds ticks again 0 0 two [] r
    × AllDue ticks again r.called
    × IsDone ticks again r.list
calltimeout_ends_example = calltimeout_ends ticks again (at 6 500) 0 two in_time later

timeleft_lem_example :
    (is_due (at 9 700000) (at 6 900000) ≡ true → micros (at 2 800000) ≡ 0)
    × (is_due (at 9 700000) (at 6 900000) ≡ false
        → micros (at 6 900000) + micros (at 2 800000) ≡ micros (at 9 700000))
    × IsCarried (at 2 800000)
unfolding timeleft
timeleft_lem_example =
    timeleft_lem {K = ℕ} (at 6 900000) (record { time = at 9 700000; key = 2 }) [] (omega arith)
      (omega arith) refl
