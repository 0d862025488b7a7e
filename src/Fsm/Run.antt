-- ===== src/Fsm/Run.antt =====
-- Histories of one machine: any sequence of the entry points of pppd/fsm.c, from `fsm_init` on.
use ppp.Prelude.{ℕ, zero, suc, ◌==◌, if◌then◌else◌, List, [], ◌∷◌}
use ppp.Fsm.Defs.{Fsm, World, Callbacks}
use ppp.Fsm.Send.{clear_timer}
use ppp.Fsm.Events.{init, lowerup, lowerdown, open_layer, close_layer, timeout, protreject}
use ppp.Fsm.Input.{input}

-- What can happen to a machine. `elsewhere` is a change of the client's state by other code.
pub data Event (C : Type 0) : Type 0 where
  up down open' expire reject : Event C
  close' : List ℕ → Event C
  receive : List ℕ → Event C
  elsewhere : (C → C) → Event C

module _ {C : Type 0} where
  -- The machine after `fsm_init`, with nothing pending and nothing sent.
  unfoldable pub start : Fsm → C → World C
  unfolding init
  start f c = record { fsm = init f; timers = 0; sent = []; client = c }

module _ {C : Type 0} (cb : Callbacks C) where
  -- The callout list runs `fsm_timeout` if one is pending, having taken it off.
  unfoldable pub fire : World C → World C
  fire w = if w.timers == 0 then w else timeout cb (clear_timer w)

  unfoldable pub step : Event C → World C → World C
  step up w = lowerup cb w
  step down w = lowerdown cb w
  step open' w = open_layer cb w
  step expire w = fire w
  step reject w = protreject cb w
  step (close' reason) w = close_layer cb reason w
  step (receive packet) w = input cb packet w
  step (elsewhere g) w = record w { client = g w.client }

  unfoldable pub run : List (Event C) → World C → World C
  run [] w = w
  run (e ∷ es) w = run es (step e w)

  -- `n` expiries in a row, with nothing from the peer or the layers between them.
  unfoldable pub expiries : ℕ → World C → World C
  expiries zero w = w
  expiries (suc n) w = expiries n (fire w)
