-- ===== src/Fsm/Tests.antt =====
-- A protocol of one option on top of pppd/fsm.c, runs of it, and the theorems at these inputs.
use ppp.Prelude.{
  ℕ, newest, pos, ◌≡◌, refl, true, false, none, some, List, [], ◌∷◌, length, take, drop, ◌==◌,
  arith,
}
use ppp.Fsm.Defs.{State, initial, req_sent, ack_sent, opened, Fsm, World, Callbacks}
use ppp.Fsm.Send.{sdata, sconfreq, own_options}
use ppp.Fsm.Events.{lowerup, open_layer}
use ppp.Fsm.Input.{input, dispatch, rconfreq, answer_confreq, rconfack_at, rconfack}
use ppp.Fsm.Timers.{IsSound, KeepsSound}
use ppp.Fsm.Run.{up, open', receive, Event, start, step, run, expiries}
use ppp.Fsm.Reachable.{run-IsSound, IsResting, expiries-IsResting}
use ppp.Fsm.Framing.{input-sdata}
use ppp.Fsm.Rfc.Table.{Layer, tlu, tld, tls, tlf, table}
use ppp.Fsm.Rfc.Laws.{Logs, Follows}
use ppp.Fsm.Rfc.Steps.{
  closes, call_step, call_event, packet_event, is_taken, call_step-Follows, dispatch-Follows,
}

record Demo : Type 0 where
  log : List Layer
  mru : ℕ

abbrev note : Layer → World Demo → World Demo
note a w = let c = w.client in record w { client = record c { log = a ∷ c.log } }

abbrev demo : Callbacks Demo
demo = record {
  peer_mru = λ c. c.mru;
  resetci = some (λ f c. c);
  cilen = some (λ f c. 4);
  addci = some (λ f c n. (take n (1 ∷ 4 ∷ 5 ∷ 220 ∷ []), c));
  ackci = some (λ f c body. (length body == 4, c));
  nakci = some (λ f c body b. (pos 1, c));
  rejci = some (λ f c body. (pos 1, c));
  reqci = some (λ f c body b. record { code = 2; options = body; client = c });
  up = some (note tlu);
  down = some (λ f c. record c { log = tld ∷ c.log });
  starting = some (note tls);
  finished = some (note tlf);
  retransmit = none;
  extcode = none;
}

abbrev raw : Fsm
raw = record {
  protocol = 0xc021;
  state = initial;
  flags = 0;
  id = 0;
  reqid = 0;
  seen_ack = false;
  timeouttime = 0;
  maxconfreqtransmits = pos 0;
  retransmits = pos 0;
  maxtermtransmits = pos 0;
  nakloops = 0;
  rnakloops = 0;
  maxnakloops = pos 0;
  term_reason = [];
}

demo-KeepsSound : KeepsSound demo
demo-KeepsSound = record {
  up = λ w h. ground arith;
  starting = λ w h. ground arith;
  finished = λ w h. ground arith;
  extcode = λ code id body w h. h;
}

demo-Logs : Logs demo (λ c. c.log)
unfolding own_options
demo-Logs = record {
  up = λ w. record { same_fsm = refl; same_sent = refl; logged = refl };
  starting = λ w. record { same_fsm = refl; same_sent = refl; logged = refl };
  finished = λ w. record { same_fsm = refl; same_sent = refl; logged = refl };
  down_log = λ w. refl;
  resetci_log = λ w. refl;
  retransmit_log = λ w. refl;
  addci_log = λ f c. refl;
  reqci_log = λ f c body. refl;
  ackci_log = λ f c body. refl;
  nakci_log = λ f c body. refl;
  rejci_log = λ f c body. refl;
}

-- A negotiation from both sides, up to `opened`.
abbrev story : List (Event Demo)
story =
    open' ∷ up ∷ receive (1 ∷ 7 ∷ 0 ∷ 4 ∷ []) ∷ receive (2 ∷ 1 ∷ 0 ∷ 8 ∷ 1 ∷ 4 ∷ 5 ∷ 220 ∷ []) ∷ []

abbrev fresh : World Demo
fresh = start raw (record { log = []; mru = 1500 })

story_opens : (run demo story fresh).fsm.state ≡ opened
unfolding run step start input lowerup open_layer dispatch rconfreq answer_confreq sdata rconfack
    sconfreq rconfack_at
story_opens = refl

-- The same machine in a given state, with two transmissions left.
abbrev at : State → World Demo
at s = record {
  fsm = record raw {
    state = s;
    reqid = 1;
    maxconfreqtransmits = pos 10;
    retransmits = pos 2;
    maxtermtransmits = pos 2;
    maxnakloops = pos 5;
  };
  timers = 1;
  sent = [];
  client = record { log = []; mru = 1500 };
}

abbrev log : Demo → List Layer
log c = c.log

at-IsSound : IsSound (at req_sent)
at-IsSound = record { one_timer = refl; acked = λ e. cc }

run-IsSound_example : IsSound (run demo story fresh)
run-IsSound_example = run-IsSound demo demo-KeepsSound raw (record { log = []; mru = 1500 }) story

expiries-IsResting_example : IsResting demo (expiries demo 3 (at req_sent))
expiries-IsResting_example =
    expiries-IsResting demo (λ w. (refl, refl)) 2 (at req_sent) at-IsSound refl refl

abbrev done : World Demo
done =
    let w = at opened in
    let f = w.fsm in record w { fsm = record f { seen_ack = true }; timers = 0 }

input-sdata_example :
    let packet = drop 4 (newest (sdata demo 5 9 (1 ∷ 2 ∷ []) (at opened)).sent) in
    input demo packet (at req_sent) ≡ dispatch demo 5 9 (1 ∷ 2 ∷ []) packet (at req_sent)
input-sdata_example =
    input-sdata demo demo 5 9 (1 ∷ 2 ∷ []) (at opened) (at req_sent) (omega arith) (omega arith)
      (omega arith) (omega arith) refl

call_step-Follows_example :
    Follows log
      (at opened)
      (call_step demo (closes (98 ∷ [])) (at opened))
      (table (call_event demo (closes (98 ∷ [])) (at opened)) opened)
call_step-Follows_example =
    call_step-Follows demo log demo-Logs (closes (98 ∷ [])) (at opened) (refl, λ e. cc)

dispatch-Follows_example :
    Follows log
      (at ack_sent)
      (dispatch demo 2 1 (1 ∷ 4 ∷ 5 ∷ 220 ∷ []) [] (at ack_sent))
      (table (packet_event demo log demo-Logs 2 (1 ∷ 4 ∷ 5 ∷ 220 ∷ []) (at ack_sent)) ack_sent)
unfolding is_taken
dispatch-Follows_example =
    dispatch-Follows demo log demo-Logs 2 1 (1 ∷ 4 ∷ 5 ∷ 220 ∷ []) [] (at ack_sent) refl refl
