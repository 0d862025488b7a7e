-- ===== src/Callout/History.antt =====
-- Histories of the callout list of pppd/main.c.
use ppp.Prelude.{ℕ, Bool, List, [], ◌∷◌}
use ppp.Callout.Defs.{Time, Callout, timeout, untimeout}
use ppp.Callout.Order.{IsSorted, timeout-IsSorted, untimeout-IsSorted}

-- What happens to the list: the clock is read at each scheduling, and a call takes the first entry
-- off.
pub data Op (K : Type 0) : Type 0 where
  schedule : Time → K → ℕ → ℕ → Op K
  cancel : K → Op K
  call : Op K

module _ {K : Type 0} (same : K → K → Bool) where
  unfoldable pub op_step : Op K → List (Callout K) → List (Callout K)
  op_step (schedule now key secs usecs) cs = timeout now key secs usecs cs
  op_step (cancel key) cs = untimeout same key cs
  op_step call [] = []
  op_step call (c ∷ cs) = cs

  unfoldable pub op_run : List (Op K) → List (Callout K) → List (Callout K)
  op_run [] cs = cs
  op_run (o ∷ os) cs = op_run os (op_step o cs)

  op_step-IsSorted : (o : Op K) (cs : List (Callout K)) → IsSorted cs → IsSorted (op_step o cs)
  unfolding op_step
  op_step-IsSorted (schedule now key secs usecs) cs h = timeout-IsSorted now key secs usecs cs h
  op_step-IsSorted (cancel key) cs h = untimeout-IsSorted same key cs h
  op_step-IsSorted call [] h = tt
  op_step-IsSorted call (c ∷ cs) h = h.2

  -- Any sequence of schedulings, at any readings of the clock, of cancellations and of calls of the
  -- first entry keeps a list in order that was in order.
  op_run-IsSorted :
      (os : List (Op K)) (cs : List (Callout K)) → IsSorted cs → IsSorted (op_run os cs)
  unfolding op_run
  op_run-IsSorted [] cs h = h
  op_run-IsSorted (o ∷ os) cs h = op_run-IsSorted os (op_step o cs) (op_step-IsSorted o cs h)
