-- ===== src/Upap/Run.antt =====
-- Histories of a PAP unit: any sequence of the entry points of pppd/upap.c.
use ppp.Prelude.{ℕ, zero, suc, ◌-◌, ◌==◌, if◌then◌else◌, List, [], ◌∷◌}
use ppp.Upap.Defs.{Upap, World, Auth, init}
use ppp.Upap.Ops.{authwithpeer, authpeer, lowerup, lowerdown, timeout, reqtimeout, protrej, input}

-- `elsewhere` is a change of the rest of pppd.
pub data Event (C : Type 0) : Type 0 where
  with_peer : List ℕ → List ℕ → Event C
  peer up down expire req_expire reject : Event C
  receive : List ℕ → Event C
  elsewhere : (C → C) → Event C

module _ {C : Type 0} where
  unfoldable pub start : Upap → C → World C
  unfolding init
  start u c = record { upap = init u; timers = 0; req_timers = 0; sent = []; client = c }

module _ {C : Type 0} (auth : Auth C) where
  -- A pending callout fires: it is taken off the list, and its routine is called.
  unfoldable pub fire : World C → World C
  fire w = if w.timers == 0 then w else timeout auth (record w { timers = w.timers - 1 })

  unfoldable pub fire_req : World C → World C
  fire_req w =
      if w.req_timers == 0 then w else reqtimeout auth (record w { req_timers = w.req_timers - 1 })

  unfoldable pub step : Event C → World C → World C
  step (with_peer user passwd) w = authwithpeer user passwd w
  step peer w = authpeer w
  step up w = lowerup w
  step down w = lowerdown w
  step expire w = fire w
  step req_expire w = fire_req w
  step reject w = protrej auth w
  step (receive packet) w = input auth packet w
  step (elsewhere g) w = record w { client = g w.client }

  unfoldable pub run : List (Event C) → World C → World C
  run [] w = w
  run (e ∷ es) w = run es (step e w)

  unfoldable pub expiries : ℕ → World C → World C
  expiries zero w = w
  expiries (suc n) w = expiries n (fire w)
