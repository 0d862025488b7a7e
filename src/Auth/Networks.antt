-- ===== src/Auth/Networks.antt =====
-- pppd/auth.c: the network protocols that use the link, and the limits of time and traffic.
use ppp.Prelude.{
  ◌+◌, ◌-◌, ℤ, pred_ℤ, nonpos, is_zero, false, not, ◌&&◌, Option, none, some, ltb, if◌then◌else◌,
}
use ppp.Auth.Defs.{
  World, Env, running, network, no_networks, traffic_limit, link_inactive, connect_time_expired,
  new_phase,
}
use ppp.Auth.Established.{suc_ℤ}

module _ {C : Type 0} (env : Env C) where
  -- `np_up`: the first network protocol is up.
  unfoldable pub first_up : World C → World C
  unfolding new_phase
  first_up w =
      let v = new_phase env running (record w { status = 0; unsuccess = 0 }) in
      record v {
        idle_timers = if nonpos (env.idle_limit v.client) then v.idle_timers else v.idle_timers + 1;
        connect_timers =
            if nonpos (env.max_connect_time v.client)
            then v.connect_timers
            else v.connect_timers + 1;
        octets_timers =
            if ltb 0 (env.maxoctets v.client) then v.octets_timers + 1 else v.octets_timers;
        client = if env.set.updetach && not env.set.nodetach then env.detach v.client else v.client;
      }

  -- `np_up`.
  unfoldable pub np_up : World C → World C
  unfolding first_up
  np_up w =
      let v = if is_zero w.num_np_up then first_up w else w in
      record v { num_np_up = suc_ℤ v.num_np_up }

  -- `np_down`: the last network protocol is down.
  unfoldable pub last_down : World C → World C
  unfolding new_phase
  last_down w = new_phase env network (record w {
    idle_timers = w.idle_timers - 1;
    connect_timers = w.connect_timers - 1;
    octets_timers = w.octets_timers - 1;
  })

  -- `np_down`.
  unfoldable pub np_down : World C → World C
  unfolding last_down
  np_down w =
      let v = record w { num_np_up = pred_ℤ w.num_np_up } in
      if is_zero v.num_np_up then last_down v else v

  -- `np_finished`.
  unfoldable pub np_finished : World C → World C
  np_finished w =
      let v = record w { num_np_open = pred_ℤ w.num_np_open } in
      if nonpos v.num_np_open then env.lcp_close no_networks v else v

  -- `check_idle`, by what `get_idle_time` has given: the seconds that are left.
  unfoldable pub idle_left : Option ℤ → World C → World C
  idle_left none w = w
  idle_left (some tlim) w =
      if nonpos tlim
      then record (env.lcp_close link_inactive (record w { status = 12 })) { need_holdoff = false }
      else record w { idle_timers = w.idle_timers + 1 }

  unfoldable pub check_idle : World C → World C
  unfolding idle_left
  check_idle w = idle_left (env.get_idle_time w.client) w

  -- `connect_time_expired`.
  unfoldable pub connect_expired : World C → World C
  connect_expired w = env.lcp_close connect_time_expired (record w { status = 13 })

  -- `check_maxoctets`. `octets_used` is `used`, also where the code leaves it without a value.
  unfoldable pub check_maxoctets : World C → World C
  check_maxoctets w =
      if ltb (env.maxoctets w.client) (env.octets_used w.client)
      then record (env.lcp_close traffic_limit (record w { status = 20 })) { need_holdoff = false }
      else record w { octets_timers = w.octets_timers + 1 }
