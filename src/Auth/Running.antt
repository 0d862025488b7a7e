-- ===== src/Auth/Running.antt =====
-- pppd/auth.c: the limits are watched while a network protocol is up, each by one callout.
use ppp.Prelude.{
  if-both, ℕ, zero, suc, ◌+◌, ◌-◌, ◌≡◌, ◌≤◌, ◌<◌, refl, ℤ, pos, negsuc, pred_ℤ, nonpos, is_zero,
  is_neg, true, false, Option, none, some, ltb, arith,
}
use ppp.Auth.Defs.{
  World, Env, Reason, no_networks, link_inactive, traffic_limit, connect_time_expired, new_phase,
}
use ppp.Auth.Networks.{
  first_up, np_up, last_down, np_down, np_finished, idle_left, check_idle, connect_expired,
  check_maxoctets,
}

module _ {C : Type 0} where
  -- Of the variables that the limits depend on, `v` has the values of `w`.
  pub record SameLimits (w v : World C) : Type 0 where
    pub num_np_up : v.num_np_up ≡ w.num_np_up
    pub idle_timers : v.idle_timers ≡ w.idle_timers
    pub connect_timers : v.connect_timers ≡ w.connect_timers
    pub octets_timers : v.octets_timers ≡ w.octets_timers

  -- `num_np_up` is not negative; no callout is pending while no protocol is up, and each at
  -- most once otherwise.
  pub record IsWatched (w : World C) : Type 0 where
    pub counted : is_neg w.num_np_up ≡ false
    pub none_up :
        is_zero w.num_np_up ≡ true → w.idle_timers + w.connect_timers + w.octets_timers ≡ 0
    pub idle : w.idle_timers ≤ 1
    pub connect : w.connect_timers ≤ 1
    pub octets : w.octets_timers ≤ 1

module _ {C : Type 0} (env : Env C) where
  -- Protocols that are up go down, and the rest of pppd changes something else.
  pub data Lowered (w : World C) : World C → Type 0 where
    here : Lowered w w
    down :
        {v : World C} (n : ℕ) → Lowered w v → v.num_np_up ≡ pos (suc n) → Lowered w (np_down env v)
    elsewhere : {v u : World C} → Lowered w v → SameLimits v u → Lowered w u

  -- The entry points: a protocol comes up or has finished, protocols go down, a pending callout fires.
  pub data Step (w : World C) : World C → Type 0 where
    up : Step w (np_up env w)
    lowered : {v : World C} → Lowered w v → Step w v
    finished : Step w (np_finished env w)
    idle :
        0 < w.idle_timers → Step w (check_idle env (record w { idle_timers = w.idle_timers - 1 }))
    connect :
        0 < w.connect_timers
        → Step w (connect_expired env (record w { connect_timers = w.connect_timers - 1 }))
    octets :
        0 < w.octets_timers
        → Step w (check_maxoctets env (record w { octets_timers = w.octets_timers - 1 }))

  pub data Reach (w : World C) : World C → Type 0 where
    start : Reach w w
    next : {v u : World C} → Reach w v → Step v u → Reach w u

module _ {C : Type 0} (env : Env C) where
  first_up-at_most_one :
      (w : World C)
      → w.idle_timers + w.connect_timers + w.octets_timers ≡ 0
      → let v = first_up env w in
        (v.num_np_up ≡ w.num_np_up)
        × (v.idle_timers ≤ 1)
        × (v.connect_timers ≤ 1)
        × (v.octets_timers ≤ 1)
  unfolding first_up new_phase
  first_up-at_most_one w h = ground arith

  np_up_at : (w : World C) (z : ℤ) → w.num_np_up ≡ z → IsWatched w → IsWatched (np_up env w)
  unfolding np_up
  np_up_at w (pos zero) e h = ground (arith, first_up-at_most_one w, e)
  np_up_at w (pos (suc n)) e h = ground (arith, e)
  np_up_at w (negsuc n) e h = ground (arith, e)

  np_up-IsWatched : (w : World C) → IsWatched w → IsWatched (np_up env w)
  np_up-IsWatched w h = np_up_at w w.num_np_up refl h

  np_down-IsWatched :
      (w : World C) (n : ℕ) → w.num_np_up ≡ pos (suc n) → IsWatched w → IsWatched (np_down env w)
  unfolding np_down last_down new_phase
  np_down-IsWatched w zero e h = ground (arith, e)
  np_down-IsWatched w (suc n) e h = ground (arith, e)

  same-IsWatched : (w v : World C) → SameLimits w v → IsWatched w → IsWatched v
  same-IsWatched w v s h = ground arith

  Lowered-IsWatched : {w v : World C} → Lowered env w v → IsWatched w → IsWatched v
  Lowered-IsWatched here h = h
  Lowered-IsWatched (down {v = v} n l e) h = np_down-IsWatched v n e (Lowered-IsWatched l h)
  Lowered-IsWatched (elsewhere {v = v} {u = u} l s) h = same-IsWatched v u s (Lowered-IsWatched l h)

-- `lcp_close` changes these variables only by protocols that go down.
module _ {C : Type 0} (env : Env C)
    (closing : (r : Reason) (w : World C) → Lowered env w (env.lcp_close r w)) where
  close-IsWatched : (r : Reason) (w : World C) → IsWatched w → IsWatched (env.lcp_close r w)
  close-IsWatched r w h = Lowered-IsWatched env (closing r w) h

  -- Closed for a reason, with an exit status and perhaps without holdoff.
  closed-IsWatched :
      (r : Reason) (n : ℕ) (w : World C)
      → IsWatched w
      → IsWatched (record (env.lcp_close r (record w { status = n })) { need_holdoff = false })
  closed-IsWatched r n w h =
      let v = record w { status = n } in
      let e : IsWatched v = ground arith in
      same-IsWatched env (env.lcp_close r v) (record (env.lcp_close r v) { need_holdoff = false })
        (record {
          num_np_up = refl;
          idle_timers = refl;
          connect_timers = refl;
          octets_timers = refl;
        })
        (close-IsWatched r v e)

  idle_left-IsWatched :
      (o : Option ℤ) (w : World C)
      → IsWatched w
      → w.idle_timers ≡ 0
      → is_zero w.num_np_up ≡ false
      → IsWatched (idle_left env o w)
  unfolding idle_left
  idle_left-IsWatched none w h e k = h
  idle_left-IsWatched (some t) w h e k =
      if-both IsWatched (nonpos t) _ _ (closed-IsWatched link_inactive 12 w h) (ground arith)

  check_maxoctets-IsWatched :
      (w : World C)
      → IsWatched w
      → w.octets_timers ≡ 0
      → is_zero w.num_np_up ≡ false
      → IsWatched (check_maxoctets env w)
  unfolding check_maxoctets
  check_maxoctets-IsWatched w h e k =
      if-both IsWatched (ltb (env.maxoctets w.client) (env.octets_used w.client)) _ _
        (closed-IsWatched traffic_limit 20 w h) (ground arith)

  np_finished-IsWatched : (w : World C) → IsWatched w → IsWatched (np_finished env w)
  unfolding np_finished
  np_finished-IsWatched w h =
      let v = record w { num_np_open = pred_ℤ w.num_np_open } in
      let e : IsWatched v = ground arith in
      if-both IsWatched (nonpos v.num_np_open) _ _ (close-IsWatched no_networks v e) e

  Step-IsWatched : {w v : World C} → Step env w v → IsWatched w → IsWatched v
  unfolding check_idle connect_expired
  Step-IsWatched {w} up h = np_up-IsWatched env w h
  Step-IsWatched {w} (lowered l) h = Lowered-IsWatched env l h
  Step-IsWatched {w} finished h = np_finished-IsWatched w h
  Step-IsWatched {w} (idle k) h =
      idle_left-IsWatched (env.get_idle_time w.client)
        (record w { idle_timers = w.idle_timers - 1 }) (ground arith) (omega arith) (ground arith)
  Step-IsWatched {w} (connect k) h =
      close-IsWatched connect_time_expired
        (record w { connect_timers = w.connect_timers - 1; status = 13 }) (ground arith)
  Step-IsWatched {w} (octets k) h =
      check_maxoctets-IsWatched (record w { octets_timers = w.octets_timers - 1 }) (ground arith)
        (omega arith) (ground arith)

  -- Say `lcp_close` changes the count of the protocols that are up and the three callouts only by
  -- calls of `np_down` for protocols that are up. Wherever protocols come up, go down and finish
  -- and callouts fire, in any order, from a state where it is so: each of the callouts of
  -- `check_idle`, `connect_time_expired` and `check_maxoctets` is pending at most once, and none
  -- while no protocol is up, and the count is not negative.
  pub Reach-IsWatched : {w v : World C} → Reach env w v → IsWatched w → IsWatched v
  Reach-IsWatched start h = h
  Reach-IsWatched (next r s) h = Step-IsWatched s (Reach-IsWatched r h)
