-- ===== src/Fsm/Input.antt =====
-- pppd/fsm.c: `fsm_input` and the handlers of the packets that it receives.
use ppp.Prelude.{
  ℕ, pos, ℤ, ◌+◌, ◌-◌, ◌*◌, ◌%◌, not, ◌||◌, Bool, true, false, Option, none, some, List, [], ◌∷◌,
  if◌then◌else◌, ltb, ◌==◌, length, take, is_zero, is_neg, reaches,
}
use ppp.Fsm.Defs.{
  State, initial, starting, closed, stopped, closing, stopping, req_sent, ack_rcvd, ack_sent,
  opened, Fsm, World, Callbacks, Reply,
}
use ppp.Fsm.Send.{
  confreq, confack, confnak, confrej, termreq, termack, coderej, headerlen, is_ack_rcvd, set_state,
  set_timer, clear_timer, call, tell, sdata, sconfreq,
}

abbrev pub is_down : State → Bool
is_down initial = true
is_down starting = true
is_down _ = false

-- The test of the identifier that Acks, Naks and Rejects share.
abbrev pub is_stale : ℕ → Fsm → Bool
is_stale id f = not (id == f.reqid) || f.seen_ack

module _ {C : Type 0} where
  abbrev pub reply_to : Option (Fsm → C → List ℕ → Bool → Reply C) → Fsm → C → List ℕ → Reply C
  reply_to (some reqci) f c body = reqci f c body (reaches f.nakloops f.maxnakloops)
  reply_to none f c [] = record { code = confack; options = []; client = c }
  reply_to none f c (x ∷ xs) = record { code = confrej; options = x ∷ xs; client = c }

  abbrev pub checked_ack : Option (Fsm → C → List ℕ → Bool × C) → Fsm → C → List ℕ → Bool × C
  checked_ack (some ackci) f c body = ackci f c body
  checked_ack none f c body = (length body == 0, c)

  abbrev pub checked_nak : Option (Fsm → C → List ℕ → Bool → ℤ × C) → Fsm → C → List ℕ → ℤ × C
  checked_nak (some nakci) f c body = nakci f c body (reaches f.rnakloops f.maxnakloops)
  checked_nak none f c body = (pos 0, c)

  abbrev pub checked_rej : Option (Fsm → C → List ℕ → ℤ × C) → Fsm → C → List ℕ → ℤ × C
  checked_rej (some rejci) f c body = rejci f c body
  checked_rej none f c body = (pos 0, c)

  -- The count of Naks received, which a Reject resets.
  abbrev pub count_nak : ℕ → World C → World C
  count_nak code w =
      let f = w.fsm in
      record w { fsm = record f { rnakloops = if code == confnak then f.rnakloops + 1 else 0 } }

  -- The next state, with the count of requests left reset.
  abbrev pub accept_ack : State → World C → World C
  accept_ack s w =
      let f = w.fsm in
      record w { fsm = record f { state = s; retransmits = f.maxconfreqtransmits } }

  abbrev pub extended :
      Option (ℕ → ℕ → List ℕ → World C → Bool × World C) → ℕ → ℕ → List ℕ → World C → Bool × World C
  extended none code id body w = (false, w)
  extended (some extcode) code id body w = extcode code id body w

module _ {C : Type 0} (cb : Callbacks C) where
  -- Go down, if the layer was up, and negotiate anew.
  abbrev pub renegotiate : World C → World C
  renegotiate w = set_state req_sent (sconfreq cb false w)

  -- What follows the reply, by its code: `fsm_rconfreq` from `if (code == CONFACK)` on.
  unfoldable pub after_reply : ℕ → World C → World C
  after_reply code w =
      let up = call cb.up (set_state opened (clear_timer w)) in
      let acked = if is_ack_rcvd w.fsm.state then up else set_state ack_sent w in
      let f1 = acked.fsm in
      let w2 = if is_ack_rcvd w.fsm.state then w else set_state req_sent w in
      let f2 = w2.fsm in
      if code == confack
      then record acked { fsm = record f1 { nakloops = 0 } }
      else if code == confnak
      then record w2 { fsm = record f2 { nakloops = f2.nakloops + 1 } }
      else w2

  -- `fsm_rconfreq` from the check of the options on.
  unfoldable pub answer_confreq : ℕ → List ℕ → World C → World C
  unfolding after_reply
  answer_confreq id body w =
      let r = reply_to cb.reqci w.fsm w.client body in
      after_reply r.code (sdata cb r.code id r.options (record w { client = r.client }))

  rconfreq_at : State → ℕ → List ℕ → World C → World C
  rconfreq_at closed id body w = sdata cb termack id [] w
  rconfreq_at closing id body w = w
  rconfreq_at stopping id body w = w
  rconfreq_at opened id body w = answer_confreq id body (renegotiate (tell cb.down w))
  rconfreq_at stopped id body w = answer_confreq id body (renegotiate w)
  rconfreq_at _ id body w = answer_confreq id body w

  unfoldable pub rconfreq : ℕ → List ℕ → World C → World C
  unfolding rconfreq_at
  rconfreq id body w = rconfreq_at w.fsm.state id body w

  unfoldable pub rconfack_at : State → ℕ → World C → World C
  rconfack_at closed id w = sdata cb termack id [] w
  rconfack_at stopped id w = sdata cb termack id [] w
  rconfack_at req_sent id w = accept_ack ack_rcvd w
  rconfack_at ack_rcvd id w = renegotiate (clear_timer w)
  rconfack_at ack_sent id w = call cb.up (accept_ack opened (clear_timer w))
  rconfack_at opened id w = renegotiate (tell cb.down w)
  rconfack_at _ id w = w

  unfoldable pub rconfack : ℕ → List ℕ → World C → World C
  rconfack id body w =
      let (good, c) = checked_ack cb.ackci w.fsm w.client body in
      let f = w.fsm in
      let w' = record w { fsm = record f { seen_ack = true; rnakloops = 0 }; client = c } in
      if is_stale id w.fsm
      then w
      else if good
      then rconfack_at w.fsm.state id w'
      else record w { client = c }

  unfoldable pub rconfnakrej_at : State → Bool → ℕ → World C → World C
  rconfnakrej_at closed stop id w = sdata cb termack id [] w
  rconfnakrej_at stopped stop id w = sdata cb termack id [] w
  rconfnakrej_at req_sent stop id w =
      let w' = clear_timer w in if stop then set_state stopped w' else sconfreq cb false w'
  rconfnakrej_at ack_sent stop id w =
      let w' = clear_timer w in if stop then set_state stopped w' else sconfreq cb false w'
  rconfnakrej_at ack_rcvd stop id w = renegotiate (clear_timer w)
  rconfnakrej_at opened stop id w = renegotiate (tell cb.down w)
  rconfnakrej_at _ stop id w = w

  unfoldable pub rconfnakrej : ℕ → ℕ → List ℕ → World C → World C
  rconfnakrej code id body w =
      let w1 = count_nak code w in
      let (ret, c) =
        if code == confnak
        then checked_nak cb.nakci w1.fsm w1.client body
        else checked_rej cb.rejci w1.fsm w1.client body in
      let w2 = record w1 { client = c } in
      let f2 = w2.fsm in
      let w3 = record w2 { fsm = record f2 { seen_ack = true } } in
      if is_stale id w.fsm
      then w
      else if is_zero ret
      then w2
      else rconfnakrej_at w.fsm.state (is_neg ret) id w3

  rtermreq_at : State → World C → World C
  rtermreq_at ack_rcvd w = set_state req_sent w
  rtermreq_at ack_sent w = set_state req_sent w
  rtermreq_at opened w =
      let f = w.fsm in
      set_timer
        (tell cb.down (record w { fsm = record f { retransmits = pos 0; state = stopping } }))
  rtermreq_at _ w = w

  -- The log lines aside, the packet's body is not read.
  unfoldable pub rtermreq : ℕ → World C → World C
  unfolding rtermreq_at
  rtermreq id w = sdata cb termack id [] (rtermreq_at w.fsm.state w)

  rtermack_at : State → World C → World C
  rtermack_at closing w = call cb.finished (set_state closed (clear_timer w))
  rtermack_at stopping w = call cb.finished (set_state stopped (clear_timer w))
  rtermack_at ack_rcvd w = set_state req_sent w
  rtermack_at opened w = renegotiate (tell cb.down w)
  rtermack_at _ w = w

  unfoldable pub rtermack : World C → World C
  unfolding rtermack_at
  rtermack w = rtermack_at w.fsm.state w

  unfoldable pub rcoderej : List ℕ → World C → World C
  rcoderej body w =
      if ltb (length body) headerlen
      then w
      else if is_ack_rcvd w.fsm.state
      then set_state req_sent w
      else w

  -- A code of the owner's own protocol, or else a Code-Reject of the packet.
  unfoldable pub unknown_code : ℕ → ℕ → List ℕ → List ℕ → World C → World C
  unknown_code code id body packet w =
      let (taken, w1) = extended cb.extcode code id body w in
      let f1 = w1.fsm in
      let w2 = record w1 { fsm = record f1 { id = (f1.id + 1) % 256 } } in
      if taken then w1 else sdata cb coderej w2.fsm.id packet w2

  unfoldable pub dispatch : ℕ → ℕ → List ℕ → List ℕ → World C → World C
  dispatch code id body packet w =
      if code == confreq
      then rconfreq id body w
      else if code == confack
      then rconfack id body w
      else if code == confnak
      then rconfnakrej confnak id body w
      else if code == confrej
      then rconfnakrej confrej id body w
      else if code == termreq
      then rtermreq id w
      else if code == termack
      then rtermack w
      else if code == coderej
      then rcoderej body w
      else unknown_code code id body packet w

  -- `fsm_input`: a packet is a list of bytes, and what is short, ill-formed or early is dropped.
  unfoldable pub input : List ℕ → World C → World C
  input (code ∷ id ∷ hi ∷ lo ∷ rest) w =
      let len = hi * 256 + lo in
      if ltb len headerlen
      then w
      else if ltb (length rest + headerlen) len
      then w
      else if is_down w.fsm.state
      then w
      else let body = take (len - headerlen) rest in
        dispatch code id body (code ∷ id ∷ hi ∷ lo ∷ body) w
  input _ w = w
