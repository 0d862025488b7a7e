-- ===== src/Auth/Channel.antt =====
-- pppd/auth.c: the channel, from `start_link` to `link_terminated`.
use ppp.Prelude.{ℕ, Bool, false, ◌&&◌, ◌||◌, List, ◌∷◌, if◌then◌else◌}
use ppp.Auth.Defs.{Phase, dead, master, serialconn, establish, disconnect, is_dead, is_master}

-- The members of `struct channel` that are called.
pub data ChannelCall : Type 0 where
  connect establish_ppp disestablish_ppp disconnect_channel cleanup : ChannelCall

-- `devfd` and `fd_ppp` say whether the variable of that name is not -1; `calls` holds the calls of
-- the channel, the newest first.
pub record Line (C : Type 0) : Type 0 where
  pub phase : Phase
  pub status : ℕ
  pub hungup : Bool
  pub devfd : Bool
  pub fd_ppp : Bool
  pub calls : List ChannelCall
  pub client : C

-- What the two functions call. `connects` and `establishes` say whether the channel's functions
-- succeed; `has_disconnect` and `has_cleanup` whether it has these.
pub record Channel (C : Type 0) : Type 0 where
  pub connects : C → Bool
  pub establishes : C → Bool
  pub has_disconnect : Bool
  pub has_cleanup : Bool
  pub mp_on : C → Bool
  pub mp_master : C → Bool
  pub bundle_terminating : C → Bool
  pub mp_exit_bundle : C → C
  pub mp_bundle_terminated : Line C → Line C
  pub lcp_lowerup : Line C → Line C
  pub lcp_lowerdown : Line C → Line C
  pub new_phase_hook : Phase → C → C

module _ {C : Type 0} (ch : Channel C) where
  unfoldable pub set_phase : Phase → Line C → Line C
  set_phase p w = record w { phase = p; client = ch.new_phase_hook p w.client }

  abbrev pub called : ChannelCall → Line C → Line C
  called x w = record w { calls = x ∷ w.calls }

  abbrev pub cleaned : Line C → Line C
  cleaned w = if ch.has_cleanup then called cleanup w else w

  -- `start_link`: the label `fail`.
  unfoldable pub fail : Line C → Line C
  unfolding set_phase
  fail w = cleaned (set_phase dead w)

  -- `start_link`: the label `disconnect`.
  unfoldable pub fail_connected : Line C → Line C
  unfolding set_phase fail
  fail_connected w =
      let v = set_phase disconnect w in
      fail (if ch.has_disconnect then called disconnect_channel v else v)

  -- `start_link`, with the device open.
  unfoldable pub start_ppp : Line C → Line C
  unfolding fail_connected set_phase
  start_ppp w =
      let ok = ch.establishes w.client in
      let v = record (called establish_ppp w) { fd_ppp = ok } in
      if ok
      then ch.lcp_lowerup (set_phase establish (record v { status = 10 }))
      else fail_connected (record v { status = 1 })

  -- `start_link`.
  unfoldable pub start_link : Line C → Line C
  unfolding set_phase start_ppp fail
  start_link w =
      let v = set_phase serialconn (record w { status = 8 }) in
      let ok = ch.connects v.client in
      let u = record (called connect v) { hungup = false; devfd = ok } in
      if ok then start_ppp u else fail u

  -- `link_terminated`: the interface and LCP.
  unfoldable pub release : Line C → Line C
  release w =
      let left = if ch.mp_on w.client then ch.mp_exit_bundle w.client else w.client in
      let v =
        if w.fd_ppp
        then record (called disestablish_ppp w) { fd_ppp = false; client = left }
        else w in
      if v.hungup then v else ch.lcp_lowerdown v

  -- `link_terminated`: the device.
  unfoldable pub hang_up : Line C → Line C
  hang_up w = cleaned (
      if w.devfd && ch.has_disconnect
      then record (called disconnect_channel w) { devfd = false }
      else w)

  -- `link_terminated`.
  unfoldable pub link_terminated : Line C → Line C
  unfolding set_phase release hang_up
  link_terminated w =
      let v = hang_up (release (set_phase disconnect w)) in
      if is_dead w.phase || is_master w.phase
      then w
      else if ch.mp_on v.client && ch.mp_master v.client
      then if ch.bundle_terminating v.client then ch.mp_bundle_terminated v else set_phase master v
      else set_phase dead v
