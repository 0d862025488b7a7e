-- ===== src/Callout/Order.antt =====
-- The list is kept in the order of the times, and a new callout stands behind its equals.
use ppp.Prelude.{
  ℕ, ◌+◌, ◌*◌, ◌<◌, ◌≤◌, ◌≡◌, refl, Bool, true, false, List, [], ◌∷◌, ◌++◌, arith, ap, inl, inr,
  Bool-cases,
}
use ppp.Callout.Defs.{Time, Callout, before, deadline, link, timeout, untimeout}

-- A time in microseconds.
abbrev pub micros : Time → ℕ
micros t = t.sec * 1000000 + t.usec

-- As every time in the list is, after the carry.
abbrev pub IsCarried : Time → Type 0
IsCarried t = t.usec < 1000000

module _ {K : Type 0} where
  -- All entries are at `t` or later.
  abbrev pub AllFrom : ℕ → List (Callout K) → Type 0
  AllFrom t [] = Unit
  AllFrom t (p ∷ ps) = (t ≤ micros p.time) × AllFrom t ps

  abbrev pub IsSorted : List (Callout K) → Type 0
  IsSorted [] = Unit
  IsSorted (p ∷ ps) = IsCarried p.time × AllFrom (micros p.time) ps × IsSorted ps

  AllFrom-link :
      (t : ℕ) (new : Callout K) (cs : List (Callout K))
      → t ≤ micros new.time
      → AllFrom t cs
      → AllFrom t (link new cs)
  unfolding link
  AllFrom-link t new [] h k = (h, tt)
  AllFrom-link t new (p ∷ ps) h k = ground (arith, AllFrom-link t new ps h k.1)

  AllFrom-mono : (t u : ℕ) (cs : List (Callout K)) → t ≤ u → AllFrom u cs → AllFrom t cs
  AllFrom-mono t u [] h k = tt
  AllFrom-mono t u (p ∷ ps) h k = (omega arith, AllFrom-mono t u ps h k.1)

  pub link-IsSorted :
      (new : Callout K) (cs : List (Callout K))
      → IsCarried new.time
      → IsSorted cs
      → IsSorted (link new cs)
  unfolding link
  link-IsSorted new [] c h = (c, tt, tt)
  link-IsSorted new (p ∷ ps) c h = ground (
    arith,
    AllFrom-link (micros p.time) new ps,
    link-IsSorted new ps c h.2,
    AllFrom-mono (micros new.time) (micros p.time) ps,
  )

  -- Scheduling keeps the list in order of time, at any reading of the clock.
  pub timeout-IsSorted :
      (now : Time) (key : K) (secs usecs : ℕ) (cs : List (Callout K))
      → IsSorted cs
      → IsSorted (timeout now key secs usecs cs)
  unfolding timeout deadline
  timeout-IsSorted now key secs usecs cs h =
      link-IsSorted (record { time = deadline now secs usecs; key = key }) cs (ground arith) h

  AllFrom-untimeout :
      (same : K → K → Bool) (t : ℕ) (key : K) (cs : List (Callout K))
      → AllFrom t cs
      → AllFrom t (untimeout same key cs)
  unfolding untimeout
  AllFrom-untimeout same t key [] h = tt
  AllFrom-untimeout same t key (p ∷ ps) h = ground (arith, AllFrom-untimeout same t key ps h.1)

  -- Cancelling keeps the order.
  pub untimeout-IsSorted :
      (same : K → K → Bool) (key : K) (cs : List (Callout K))
      → IsSorted cs
      → IsSorted (untimeout same key cs)
  unfolding untimeout
  untimeout-IsSorted same key [] h = tt
  untimeout-IsSorted same key (p ∷ ps) h =
      ground (
        arith,
        AllFrom-untimeout same (micros p.time) key ps h.1,
        untimeout-IsSorted same key ps h.2,
      )

  -- No entry has the key.
  abbrev pub Absent : (K → K → Bool) → K → List (Callout K) → Type 0
  Absent same key [] = Unit
  Absent same key (p ∷ ps) = (same p.key key ≡ false) × Absent same key ps

  untimeout-link :
      (same : K → K → Bool) (new : Callout K) (cs : List (Callout K))
      → same new.key new.key ≡ true
      → Absent same new.key cs
      → untimeout same new.key (link new cs) ≡ cs
  unfolding untimeout link
  untimeout-link same new [] r h = ground arith
  untimeout-link same new (p ∷ ps) r h = ground (arith, untimeout-link same new ps r h.1)

  -- A callout that is cancelled before it fires leaves no trace, if none had its key before.
  untimeout-timeout :
      (same : K → K → Bool) (now : Time) (key : K) (secs usecs : ℕ) (cs : List (Callout K))
      → same key key ≡ true
      → Absent same key cs
      → untimeout same key (timeout now key secs usecs cs) ≡ cs
  unfolding timeout
  untimeout-timeout same now key secs usecs cs r h =
      untimeout-link same (record { time = deadline now secs usecs; key = key }) cs r h

  -- All entries are at `t` or earlier.
  abbrev pub AllTo : ℕ → List (Callout K) → Type 0
  AllTo t [] = Unit
  AllTo t (p ∷ ps) = (micros p.time ≤ t) × AllTo t ps

  -- Where a new callout stands: in front of it all that is due no later, behind it all that is
  -- due later.
  pub record Placed (new : Callout K) (cs out : List (Callout K)) : Type 0 where
    pub front : List (Callout K)
    pub back : List (Callout K)
    pub parts : cs ≡ front ++ back
    pub result : out ≡ front ++ (new ∷ back)
    pub no_later : AllTo (micros new.time) front
    pub later : AllFrom (micros new.time + 1) back

  link-Placed :
      (new : Callout K) (cs : List (Callout K))
      → IsCarried new.time
      → IsSorted cs
      → Placed new cs (link new cs)
  unfolding link before
  link-Placed new [] c h = record {
    front = [];
    back = [];
    parts = refl;
    result = refl;
    no_later = tt;
    later = tt;
  }
  link-Placed new (p ∷ ps) c h = elim (Bool-cases (before new.time p.time)) [
    | inl e ↦ record {
      front = [];
      back = p ∷ ps;
      parts = refl;
      result = rw e refl;
      no_later = tt;
      later =
          (ground arith, AllFrom-mono (micros new.time + 1) (micros p.time) ps (ground arith) h.1);
    }
    | inr e ↦
        let r = link-Placed new ps c h.2 in
        record {
          front = p ∷ r.front;
          back = r.back;
          parts = ap (λ xs. p ∷ xs) r.parts;
          result = rw e (ap (λ xs. p ∷ xs) r.result);
          no_later = (ground arith, r.no_later);
          later = r.later;
        }
  ]

  -- In a list in order, a new callout goes behind everything that is due no later than it, its
  -- equals too, and in front of everything that is due later; nothing else moves.
  pub timeout-Placed :
      (now : Time) (key : K) (secs usecs : ℕ) (cs : List (Callout K))
      → IsSorted cs
      → Placed
          (record { time = deadline now secs usecs; key = key })
          cs
          (timeout now key secs usecs cs)
  unfolding timeout deadline
  timeout-Placed now key secs usecs cs h =
      link-Placed (record { time = deadline now secs usecs; key = key }) cs (ground arith) h
