-- ===== src/Fsm/Rfc/Packets.antt =====
-- The packets that `fsm_input` takes, against the table.
use ppp.Prelude.{
  ◌≡◌, if◌then◌else◌, ltb, ◌==◌, length, true, false, List, arith, pos, ℤ, none, is_zero, is_neg, ℕ,
}
use ppp.Fsm.Defs.{State, closed, stopped, stopping, opened, World, Callbacks}
use ppp.Fsm.Send.{is_negotiating, tell, set_state, clear_timer, confack, confnak, headerlen, sdata}
use ppp.Fsm.Input.{
  is_down, is_stale, reply_to, checked_ack, checked_nak, checked_rej, count_nak, accept_ack,
  renegotiate, answer_confreq, rconfack_at, rconfnakrej_at, rconfreq, rconfack, rconfnakrej,
  rtermreq, rtermack, rcoderej, unknown_code,
}
use ppp.Fsm.Rfc.Table.{Layer, table, rcr_plus, rcr_minus, rca, rcn, rtr, rta, ruc, rxj_plus, Event}
use ppp.Fsm.Rfc.Laws.{Logs, Follows, sconfreq-Follows}

-- The table's event for a Configure-Request that is answered with the code.
abbrev pub rcr : ℕ → Event
rcr k = if k == confack then rcr_plus else rcr_minus k

module _ {C : Type 0} (cb : Callbacks C) (log : C → List Layer) (laws : Logs cb log) where
  -- The machine when the peer's options are checked.
  ready_at : State → World C → World C
  ready_at opened w = renegotiate cb (tell cb.down w)
  ready_at stopped w = renegotiate cb w
  ready_at _ w = w

  abbrev code_for : List ℕ → World C → ℕ
  code_for body w = (reply_to cb.reqci w.fsm w.client body).code

  -- The code of the answer to a Configure-Request.
  unfoldable pub answer_code : List ℕ → World C → ℕ
  unfolding ready_at
  answer_code body w = code_for body (ready_at w.fsm.state w)

  answer_confreq-Follows :
      (id : ℕ) (body : List ℕ) (w : World C)
      → is_negotiating w.fsm.state ≡ true
      → Follows log w (answer_confreq cb id body w) (table (rcr (code_for body w)) w.fsm.state)
  unfolding answer_confreq sdata
  answer_confreq-Follows id body w n =
      let r = reply_to cb.reqci w.fsm w.client body in
      let w1 = sdata cb r.code id r.options (record w { client = r.client }) in
      ground
        (arith, laws.reqci_log w.fsm w.client body, laws.up (set_state opened (clear_timer w1)))

  -- From any state but `initial` and `starting`, `fsm_rconfreq` takes the step of the RFC's table
  -- for a Configure-Request that is acceptable, or that is answered with another code, as `reqci`
  -- decides (next state, notices, packets); if the callbacks leave the machine alone and write
  -- the log as their names say.
  pub rconfreq-Follows :
      (id : ℕ) (body : List ℕ) (w : World C)
      → is_down w.fsm.state ≡ false
      → Follows log w (rconfreq cb id body w) (table (rcr (answer_code body w)) w.fsm.state)
  unfolding rconfreq answer_code sdata
  rconfreq-Follows id body w d =
      let v = tell cb.down w in
      ground (
        arith,
        laws.down_log w,
        sconfreq-Follows cb log laws false w,
        sconfreq-Follows cb log laws false v,
        answer_confreq-Follows id body w,
        answer_confreq-Follows id body (renegotiate cb w),
        answer_confreq-Follows id body (renegotiate cb v),
      )

  -- From any state but `initial` and `starting`, `fsm_rtermreq` takes the step of the RFC's table
  -- for a Terminate-Request (next state, notices, packets), if the callbacks leave the machine
  -- alone and write the log as their names say.
  pub rtermreq-Follows :
      (id : ℕ) (w : World C)
      → is_down w.fsm.state ≡ false
      → Follows log w (rtermreq cb id w) (table rtr w.fsm.state)
  unfolding rtermreq sdata
  rtermreq-Follows id w d =
      let f = w.fsm in
      let w' = record w { fsm = record f { retransmits = pos 0; state = stopping } } in
      ground (arith, laws.down_log w')

  -- From any state, `fsm_rtermack` takes the step of the RFC's table for a Terminate-Ack (next
  -- state, notices, packets), if the callbacks leave the machine alone and write the log as their
  -- names say.
  pub rtermack-Follows : (w : World C) → Follows log w (rtermack cb w) (table rta w.fsm.state)
  unfolding rtermack
  rtermack-Follows w =
      let c = set_state closed (clear_timer w) in
      let s = set_state stopped (clear_timer w) in
      ground (
        arith,
        laws.finished c,
        laws.finished s,
        laws.down_log w,
        sconfreq-Follows cb log laws false (tell cb.down w),
      )

  -- From any state, `fsm_rcoderej` takes the step of the RFC's table for a permitted Code-Reject
  -- (next state, notices, packets), if the body holds the header of the packet that was rejected.
  pub rcoderej-Follows :
      (body : List ℕ) (w : World C)
      → ltb (length body) headerlen ≡ false
      → Follows log w (rcoderej cb body w) (table rxj_plus w.fsm.state)
  unfolding rcoderej
  rcoderej-Follows body w fits = ground arith

  rconfack_at-Follows :
      (id : ℕ) (w : World C)
      → Follows log w (rconfack_at cb w.fsm.state id w) (table rca w.fsm.state)
  unfolding rconfack_at sdata
  rconfack_at-Follows id w = ground (
    arith,
    laws.up (accept_ack opened (clear_timer w)),
    laws.down_log w,
    sconfreq-Follows cb log laws false (tell cb.down w),
    sconfreq-Follows cb log laws false (clear_timer w),
  )

  -- From any state, `fsm_rconfack` takes the step of the RFC's table for a Configure-Ack (next
  -- state, notices, packets), if it has the identifier of the last request, is the first reply to
  -- it and is good; and if the callbacks leave the machine alone and write the log as their names
  -- say.
  pub rconfack-Follows :
      (id : ℕ) (body : List ℕ) (w : World C)
      → is_stale id w.fsm ≡ false
      → (checked_ack cb.ackci w.fsm w.client body).0 ≡ true
      → Follows log w (rconfack cb id body w) (table rca w.fsm.state)
  unfolding rconfack
  rconfack-Follows id body w fresh good =
      let f = w.fsm in
      let c = (checked_ack cb.ackci w.fsm w.client body).1 in
      ground (
        arith,
        laws.ackci_log w.fsm w.client body,
        rconfack_at-Follows id
            (record w { fsm = record f { seen_ack = true; rnakloops = 0 }; client = c }),
      )

  rconfnakrej_at-Follows :
      (id : ℕ) (w : World C)
      → Follows log w (rconfnakrej_at cb w.fsm.state false id w) (table rcn w.fsm.state)
  unfolding rconfnakrej_at sdata
  rconfnakrej_at-Follows id w = ground (
    arith,
    laws.down_log w,
    sconfreq-Follows cb log laws false (tell cb.down w),
    sconfreq-Follows cb log laws false (clear_timer w),
  )

  -- What `nakci` or `rejci` returns for the packet.
  unfoldable pub nak_result : ℕ → List ℕ → World C → ℤ × C
  nak_result code body w =
      let w1 = count_nak code w in
      if code == confnak
      then checked_nak cb.nakci w1.fsm w1.client body
      else checked_rej cb.rejci w1.fsm w1.client body

  -- From any state, `fsm_rconfnakrej` takes the step of the RFC's table for a Configure-Nak or
  -- -Reject (next state, notices, packets), if it has the identifier of the last request, is the
  -- first reply to it, and `nakci` or `rejci` accepts it and does not stop the machine; and if
  -- the callbacks leave the machine alone and write the log as their names say.
  pub rconfnakrej-Follows :
      (code id : ℕ) (body : List ℕ) (w : World C)
      → is_stale id w.fsm ≡ false
      → is_zero (nak_result code body w).0 ≡ false
      → is_neg (nak_result code body w).0 ≡ false
      → Follows log w (rconfnakrej cb code id body w) (table rcn w.fsm.state)
  unfolding rconfnakrej nak_result
  rconfnakrej-Follows code id body w fresh good goes_on =
      let w1 = count_nak code w in
      let f = w1.fsm in
      ground (
        arith,
        laws.nakci_log w1.fsm w1.client body,
        laws.rejci_log w1.fsm w1.client body,
        rconfnakrej_at-Follows id
            (record w1 { fsm = record f { seen_ack = true }; client = (nak_result code body w).1 }),
      )

  -- From any state, a packet of an unknown code takes the step of the RFC's table for it (next
  -- state, notices, packets), if the machine has no `extcode` callback.
  pub unknown_code-Follows :
      (code id : ℕ) (body packet : List ℕ) (w : World C)
      → cb.extcode ≡ none
      → Follows log w (unknown_code cb code id body packet w) (table ruc w.fsm.state)
  unfolding unknown_code sdata
  unknown_code-Follows code id body packet w plain = ground arith
