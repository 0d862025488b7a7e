-- ===== src/Fsm/Send.antt =====
-- pppd/fsm.c: what the handlers share. Packets sent, timers, `fsm_sconfreq`, `terminate_layer`.
use ppp.Prelude.{
  ℕ, ◌+◌, ◌-◌, ◌/◌, ◌%◌, not, Bool, true, false, Option, none, some, List, [], ◌∷◌, length, take,
  ltb, ◌==◌, if◌then◌else◌, pred_ℤ, is_zero, bit_and,
}
use ppp.Fsm.Defs.{
  State, closed, stopped, closing, req_sent, ack_rcvd, ack_sent, opened, Fsm, World, Callbacks,
}

-- The codes of fsm.h.
abbrev pub confreq : ℕ
confreq = 1

abbrev pub confack : ℕ
confack = 2

abbrev pub confnak : ℕ
confnak = 3

abbrev pub confrej : ℕ
confrej = 4

abbrev pub termreq : ℕ
termreq = 5

abbrev pub termack : ℕ
termack = 6

abbrev pub coderej : ℕ
coderej = 7

abbrev pub headerlen : ℕ
headerlen = 4

-- The option bits of fsm.h, and their test.
abbrev pub opt_passive : ℕ
opt_passive = 1

abbrev pub opt_restart : ℕ
opt_restart = 2

abbrev pub opt_silent : ℕ
opt_silent = 4

abbrev pub has_flag : Fsm → ℕ → Bool
has_flag f opt = not (bit_and f.flags opt == 0)

abbrev pub is_negotiating : State → Bool
is_negotiating req_sent = true
is_negotiating ack_rcvd = true
is_negotiating ack_sent = true
is_negotiating _ = false

abbrev pub is_opened : State → Bool
is_opened opened = true
is_opened _ = false

abbrev pub is_ack_rcvd : State → Bool
is_ack_rcvd ack_rcvd = true
is_ack_rcvd _ = false

abbrev pub is_closing : State → Bool
is_closing closing = true
is_closing _ = false

-- `f->reqid = ++f->id`.
abbrev pub next_reqid : Fsm → Fsm
next_reqid f = record f { id = (f.id + 1) % 256; reqid = (f.id + 1) % 256 }

module _ {C : Type 0} where
  abbrev pub set_state : State → World C → World C
  set_state s w = let f = w.fsm in record w { fsm = record f { state = s } }

  -- `TIMEOUT (fsm_timeout, f, f->timeouttime)`.
  abbrev pub set_timer : World C → World C
  set_timer w = record w { timers = w.timers + 1 }

  -- `UNTIMEOUT (fsm_timeout, f)` takes the first such callout off the list, if there is one.
  abbrev pub clear_timer : World C → World C
  clear_timer w = record w { timers = w.timers - 1 }

  abbrev pub call : Option (World C → World C) → World C → World C
  call none w = w
  call (some g) w = g w

  abbrev pub tell : Option (Fsm → C → C) → World C → World C
  tell none w = w
  tell (some g) w = record w { client = g w.fsm w.client }

  abbrev pub new_request : World C → World C
  new_request w =
      let f = w.fsm in
      record w { fsm = next_reqid (record f { retransmits = f.maxconfreqtransmits }) }

-- The frame that `fsm_sdata` builds: address, control, protocol, code, id, length, data.
abbrev pub frame : ℕ → ℕ → ℕ → List ℕ → List ℕ
frame protocol code id body =
    let outlen = length body + headerlen in
    0xff
    ∷ 0x03
    ∷ (protocol / 256 % 256)
    ∷ (protocol % 256)
    ∷ (code % 256)
    ∷ (id % 256)
    ∷ (outlen / 256 % 256)
    ∷ (outlen % 256)
    ∷ body

module _ {C : Type 0} (cb : Callbacks C) where
  -- `datalen`, cut down to the peer's MRU.
  abbrev pub fit : C → ℕ → ℕ
  fit c n = if ltb (cb.peer_mru c - headerlen) n then cb.peer_mru c - headerlen else n

  unfoldable pub sdata : ℕ → ℕ → List ℕ → World C → World C
  sdata code id body w =
      let body' = take (fit w.client (length body)) body in
      record w { sent = frame w.fsm.protocol code id body' ∷ w.sent }

  -- The options of a Configure-Request, and the client that `addci` leaves.
  unfoldable pub own_options :
      Option (Fsm → C → ℕ) → Option (Fsm → C → ℕ → List ℕ × C) → Fsm → C → List ℕ × C
  own_options (some cilen) (some addci) f c = addci f c (fit c (cilen f c))
  own_options _ _ f c = ([], c)

  abbrev pub reset_unless_negotiating : World C → World C
  reset_unless_negotiating w =
      let w' = tell cb.resetci w in
      let f = w'.fsm in
      if is_negotiating w.fsm.state
      then w
      else record w' { fsm = record f { nakloops = 0; rnakloops = 0 } }

  -- `fsm_sconfreq` up to the making of the packet.
  unfoldable pub prepare_request : Bool → World C → World C
  prepare_request retransmit w =
      let w1 = reset_unless_negotiating w in
      let w2 = if retransmit then w1 else new_request w1 in
      let f2 = w2.fsm in record w2 { fsm = record f2 { seen_ack = false } }

  unfoldable pub sconfreq : Bool → World C → World C
  unfolding prepare_request sdata own_options
  sconfreq retransmit w =
      let w3 = prepare_request retransmit w in
      let (body, c) = own_options cb.cilen cb.addci w3.fsm w3.client in
      let w4 = record w3 { client = c } in
      let w5 = sdata confreq w4.fsm.reqid body w4 in
      let f5 = w5.fsm in
      set_timer (record w5 { fsm = record f5 { retransmits = pred_ℤ f5.retransmits } })

  -- A Terminate-Request under a new id.
  unfoldable pub send_termreq : World C → World C
  unfolding sdata
  send_termreq w =
      let w' = record w { fsm = next_reqid w.fsm } in
      sdata termreq w'.fsm.reqid w'.fsm.term_reason w'

  -- `terminate_layer` up to the test of the count: the layer is down, a Terminate-Request is sent.
  unfoldable pub begin_terminate : World C → World C
  unfolding send_termreq
  begin_terminate w =
      let w1 = if is_opened w.fsm.state then tell cb.down w else clear_timer w in
      let f1 = w1.fsm in
      send_termreq (record w1 { fsm = record f1 { retransmits = f1.maxtermtransmits } })

  unfoldable pub terminate_layer : State → World C → World C
  terminate_layer nextstate w =
      let w2 = begin_terminate w in
      let f2 = w2.fsm in
      let waiting = record f2 { retransmits = pred_ℤ f2.retransmits; state = nextstate } in
      let rest = if is_closing nextstate then closed else stopped in
      if is_zero f2.retransmits
      then call cb.finished (set_state rest w2)
      else set_timer (record w2 { fsm = waiting })
