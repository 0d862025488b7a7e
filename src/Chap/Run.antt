-- ===== src/Chap/Run.antt =====
-- Histories of CHAP on one link: any sequence of the entry points of pppd/chap.c.
use ppp.Prelude.{ℕ, ◌-◌, ◌==◌, if◌then◌else◌, Option, none, some, List, [], ◌∷◌}
use ppp.Chap.Defs.{Digest, World, Auth, register_digest}
use ppp.Chap.Server.{server_timeout, auth_peer}
use ppp.Chap.Client.{auth_with_peer, client_timeout, lowerup, lowerdown, input, protrej}

-- `elsewhere` is a change of the rest of pppd. The link comes up only when it is down.
pub data Event (C : Type 0) : Type 0 where
  register : Digest C → Event C
  peer with_peer : List ℕ → ℕ → Event C
  up down server_expire client_expire reject : Event C
  receive : List ℕ → Event C
  elsewhere : (C → C) → Event C

module _ {C : Type 0} (auth : Auth C) where
  -- A pending callout fires: it is taken off the list, and its routine is called.
  unfoldable pub fire_server : World C → World C
  fire_server w =
      if w.server_timers == 0
      then w
      else server_timeout auth (record w { server_timers = w.server_timers - 1 })

  unfoldable pub fire_client : World C → World C
  fire_client w =
      if w.client_timers == 0
      then w
      else client_timeout auth (record w { client_timers = w.client_timers - 1 })

  -- `none` is the end of the program by `fatal`.
  unfoldable pub step : Event C → World C → Option (World C)
  step (register dp) w = some (register_digest dp w)
  step (peer name code) w = auth_peer auth name code w
  step (with_peer name code) w = auth_with_peer name code w
  step up w = some (if w.server.flags.lowerup then w else lowerup auth w)
  step down w = some (lowerdown w)
  step server_expire w = some (fire_server w)
  step client_expire w = some (fire_client w)
  step reject w = some (protrej auth w)
  step (receive packet) w = some (input auth packet w)
  step (elsewhere g) w = some (record w { env = g w.env })

  unfoldable pub run : List (Event C) → World C → Option (World C)
  run [] w = some w
  run (e ∷ es) w = elim (step e w) [ none ↦ none | some w' ↦ run es w' ]
