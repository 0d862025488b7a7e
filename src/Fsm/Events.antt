-- ===== src/Fsm/Events.antt =====
-- pppd/fsm.c: the events of the layers below and above, the timer, and `fsm_protreject`.
use ppp.Prelude.{ℕ, pos, true, false, List, [], if◌then◌else◌, nonpos, pred_ℤ}
use ppp.Fsm.Defs.{
  State, initial, starting, closed, stopped, closing, stopping, req_sent, ack_rcvd, ack_sent,
  opened, Fsm, World, Callbacks,
}
use ppp.Fsm.Send.{
  has_flag, opt_passive, opt_restart, opt_silent, is_ack_rcvd, set_state, set_timer, clear_timer,
  call, tell, sconfreq, send_termreq, terminate_layer,
}

-- `fsm_init`; the owner has set the protocol. `retransmits`, `reqid`, `seen_ack` and the counts of
-- Naks keep what is in the structure, which is static and so starts as zeros.
unfoldable pub init : Fsm → Fsm
init f = record f {
  state = initial;
  flags = 0;
  id = 0;
  timeouttime = 3;
  maxconfreqtransmits = pos 10;
  maxtermtransmits = pos 2;
  maxnakloops = pos 5;
  term_reason = [];
}

module _ {C : Type 0} (cb : Callbacks C) where
  -- An initial Configure-Request, or silence.
  abbrev pub start_or_wait : World C → World C
  start_or_wait w =
      if has_flag w.fsm opt_silent
      then set_state stopped w
      else set_state req_sent (sconfreq cb false w)

  lowerup_at : State → World C → World C
  lowerup_at initial w = set_state closed w
  lowerup_at starting w = start_or_wait w
  lowerup_at _ w = w

  unfoldable pub lowerup : World C → World C
  unfolding lowerup_at
  lowerup w = lowerup_at w.fsm.state w

  lowerdown_at : State → World C → World C
  lowerdown_at closed w = set_state initial w
  lowerdown_at stopped w = call cb.starting (set_state starting w)
  lowerdown_at closing w = clear_timer (set_state initial w)
  lowerdown_at stopping w = clear_timer (set_state starting w)
  lowerdown_at req_sent w = clear_timer (set_state starting w)
  lowerdown_at ack_rcvd w = clear_timer (set_state starting w)
  lowerdown_at ack_sent w = clear_timer (set_state starting w)
  lowerdown_at opened w = set_state starting (tell cb.down w)
  lowerdown_at _ w = w

  unfoldable pub lowerdown : World C → World C
  unfolding lowerdown_at
  lowerdown w = lowerdown_at w.fsm.state w

  -- A second Open, with the `restart` option: Down, then Up.
  abbrev pub restart : World C → World C
  restart w = if has_flag w.fsm opt_restart then lowerup (lowerdown w) else w

  open_at : State → World C → World C
  open_at initial w = call cb.starting (set_state starting w)
  open_at closed w = start_or_wait w
  open_at closing w = restart (set_state stopping w)
  open_at stopped w = restart w
  open_at opened w = restart w
  open_at _ w = w

  unfoldable pub open_layer : World C → World C
  unfolding open_at
  open_layer w = open_at w.fsm.state w

  close_at : State → World C → World C
  close_at starting w = set_state initial w
  close_at stopped w = set_state closed w
  close_at stopping w = set_state closing w
  close_at req_sent w = terminate_layer cb closing w
  close_at ack_rcvd w = terminate_layer cb closing w
  close_at ack_sent w = terminate_layer cb closing w
  close_at opened w = terminate_layer cb closing w
  close_at _ w = w

  -- A null `reason` is the empty one.
  unfoldable pub close_layer : List ℕ → World C → World C
  unfolding close_at
  close_layer reason w =
      let f = w.fsm in close_at f.state (record w { fsm = record f { term_reason = reason } })

  -- In `closing` or `stopping`, with the state `rest` in which the machine comes to rest.
  timeout_terminating : State → World C → World C
  timeout_terminating rest w =
      let w1 = set_timer (send_termreq cb w) in
      let f1 = w1.fsm in
      if nonpos w.fsm.retransmits
      then call cb.finished (set_state rest w)
      else record w1 { fsm = record f1 { retransmits = pred_ℤ f1.retransmits } }

  timeout_negotiating : World C → World C
  timeout_negotiating w =
      let w1 = set_state stopped w in
      let w2 = sconfreq cb true (tell cb.retransmit w) in
      if nonpos w.fsm.retransmits
      then if has_flag w1.fsm opt_passive then w1 else call cb.finished w1
      else if is_ack_rcvd w2.fsm.state
      then set_state req_sent w2
      else w2

  timeout_at : State → World C → World C
  unfolding timeout_terminating timeout_negotiating
  timeout_at closing w = timeout_terminating closed w
  timeout_at stopping w = timeout_terminating stopped w
  timeout_at req_sent w = timeout_negotiating w
  timeout_at ack_rcvd w = timeout_negotiating w
  timeout_at ack_sent w = timeout_negotiating w
  timeout_at _ w = w

  -- `fsm_timeout`, which the callout list calls after it has dropped the callout.
  unfoldable pub timeout : World C → World C
  unfolding timeout_at
  timeout w = timeout_at w.fsm.state w

  protreject_at : State → World C → World C
  protreject_at closing w = call cb.finished (set_state closed (clear_timer w))
  protreject_at closed w = call cb.finished (set_state closed w)
  protreject_at stopping w = call cb.finished (set_state stopped (clear_timer w))
  protreject_at req_sent w = call cb.finished (set_state stopped (clear_timer w))
  protreject_at ack_rcvd w = call cb.finished (set_state stopped (clear_timer w))
  protreject_at ack_sent w = call cb.finished (set_state stopped (clear_timer w))
  protreject_at stopped w = call cb.finished (set_state stopped w)
  protreject_at opened w = terminate_layer cb stopping w
  protreject_at _ w = w

  unfoldable pub protreject : World C → World C
  unfolding protreject_at
  protreject w = protreject_at w.fsm.state w
