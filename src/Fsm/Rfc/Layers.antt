-- ===== src/Fsm/Rfc/Layers.antt =====
-- The entry points of pppd/fsm.c for other layers and for the timer, against the table.
use ppp.Prelude.{◌≡◌, ◌≢◌, true, false, List, arith, nonpos, is_zero, ℕ}
use ppp.Fsm.Defs.{starting, closed, stopped, World, Callbacks}
use ppp.Fsm.Send.{
  tell, set_state, clear_timer, has_flag, opt_passive, opt_restart, opt_silent, send_termreq,
  terminate_layer,
}
use ppp.Fsm.Events.{lowerup, lowerdown, open_layer, close_layer, timeout, protreject}
use ppp.Fsm.Rfc.Table.{Layer, table, up, down, timeout_plus, timeout_minus, rxj_minus, Event}
use ppp.Fsm.Rfc.Laws.{
  Logs, Follows, sconfreq-Follows, begin_terminate_log, begin_terminate_codes, begin_terminate_max,
}

module _ {C : Type 0} (cb : Callbacks C) (log : C → List Layer) (laws : Logs cb log) where
  -- From any state, `fsm_lowerup` takes the step of the RFC's table for Up: its next state, its
  -- notices to other layers and the codes of the packets it sends; if the machine has no `silent`
  -- option, and the callbacks leave the machine alone and write the log as their names say.
  pub lowerup-Follows :
      (w : World C)
      → has_flag w.fsm opt_silent ≡ false
      → Follows log w (lowerup cb w) (table up w.fsm.state)
  unfolding lowerup
  lowerup-Follows w loud = ground (arith, sconfreq-Follows cb log laws false w)

  -- From any state, `fsm_lowerdown` takes the step of the RFC's table for Down (next state,
  -- notices, packets), if the callbacks leave the machine alone and write the log as their names
  -- say.
  pub lowerdown-Follows : (w : World C) → Follows log w (lowerdown cb w) (table down w.fsm.state)
  unfolding lowerdown
  lowerdown-Follows w =
      let s = set_state starting w in ground (arith, laws.down_log w, laws.starting s)

  -- From any state, `fsm_open` takes the step of the RFC's table for Open (next state, notices,
  -- packets), if the machine has neither the `silent` nor the `restart` option, and the callbacks
  -- leave the machine alone and write the log as their names say.
  pub open_layer-Follows :
      (w : World C)
      → has_flag w.fsm opt_silent ≡ false
      → has_flag w.fsm opt_restart ≡ false
      → Follows log w (open_layer cb w) (table Event.open_layer w.fsm.state)
  unfolding open_layer
  open_layer-Follows w loud once =
      let s = set_state starting w in
      ground (arith, sconfreq-Follows cb log laws false w, laws.starting s)

  -- From any state but `starting`, `fsm_close` takes the step of the RFC's table for Close (next
  -- state, notices, packets), if the limit of Terminate-Requests is not 0, and the callbacks
  -- leave the machine alone and write the log as their names say.
  pub close_layer-Follows :
      (reason : List ℕ) (w : World C)
      → is_zero w.fsm.maxtermtransmits ≡ false
      → w.fsm.state ≢ starting
      → Follows log w (close_layer cb reason w) (table Event.close_layer w.fsm.state)
  unfolding close_layer terminate_layer
  close_layer-Follows reason w some_term ns =
      let f = w.fsm in
      let v = record w { fsm = record f { term_reason = reason } } in
      ground (
        arith,
        begin_terminate_log cb log laws v,
        begin_terminate_codes cb log laws v,
        begin_terminate_max cb log laws v,
      )

  -- From any state, `fsm_timeout` with transmissions left takes the step of the RFC's table for a
  -- timeout with a positive counter (next state, notices, packets), if the callbacks leave the
  -- machine alone and write the log as their names say.
  pub timeout_plus-Follows :
      (w : World C)
      → nonpos w.fsm.retransmits ≡ false
      → Follows log w (timeout cb w) (table timeout_plus w.fsm.state)
  unfolding timeout send_termreq
  timeout_plus-Follows w left =
      ground
        (arith, sconfreq-Follows cb log laws true (tell cb.retransmit w), laws.retransmit_log w)

  -- From any state, `fsm_timeout` with no transmission left takes the step of the RFC's table for
  -- an expired counter (next state, notices, packets), if the machine has no `passive` option,
  -- and the callbacks leave the machine alone and write the log as their names say.
  pub timeout_minus-Follows :
      (w : World C)
      → nonpos w.fsm.retransmits ≡ true
      → has_flag w.fsm opt_passive ≡ false
      → Follows log w (timeout cb w) (table timeout_minus w.fsm.state)
  unfolding timeout
  timeout_minus-Follows w out eager =
      let c = set_state closed w in
      let s = set_state stopped w in ground (arith, laws.finished c, laws.finished s)

  -- From any state, `fsm_protreject` takes the step of the RFC's table for a catastrophic reject
  -- (next state, notices, packets), if the limit of Terminate-Requests is not 0, and the
  -- callbacks leave the machine alone and write the log as their names say.
  pub protreject-Follows :
      (w : World C)
      → is_zero w.fsm.maxtermtransmits ≡ false
      → Follows log w (protreject cb w) (table rxj_minus w.fsm.state)
  unfolding protreject terminate_layer
  protreject-Follows w some_term =
      let c = set_state closed w in
      let c' = set_state closed (clear_timer w) in
      let s = set_state stopped w in
      let s' = set_state stopped (clear_timer w) in
      ground (
        arith,
        begin_terminate_log cb log laws w,
        begin_terminate_codes cb log laws w,
        begin_terminate_max cb log laws w,
        laws.finished c,
        laws.finished c',
        laws.finished s,
        laws.finished s',
      )
