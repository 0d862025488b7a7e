-- ===== src/Fsm/Received.antt =====
-- Every packet that `fsm_input` accepts keeps the machine's invariant.
use ppp.Prelude.{
  ℕ, ◌+◌, ◌-◌, ◌≡◌, ◌≢◌, if◌then◌else◌, Bool, true, false, List, [], ◌∷◌, ◌*◌, is_neg, ◌==◌, take,
  arith,
}
use ppp.Fsm.Defs.{closed, stopped, closing, stopping, opened, World, Callbacks}
use ppp.Fsm.Send.{set_state, clear_timer, tell, sdata, headerlen, confnak, confrej}
use ppp.Fsm.Input.{
  is_down, reply_to, checked_ack, checked_nak, checked_rej, count_nak, accept_ack, rconfack_at,
  rconfnakrej_at, renegotiate, answer_confreq, after_reply, rconfreq, rconfack, rconfnakrej,
  rtermreq, rtermack, rcoderej, unknown_code, dispatch, input,
}
use ppp.Fsm.Timers.{IsSound, KeepsSound, timed, sconfreq_effect}

module _ {C : Type 0} (cb : Callbacks C) (keeps : KeepsSound cb) where
  sdata-IsSound :
      (code id : ℕ) (body : List ℕ) (w : World C) → IsSound w → IsSound (sdata cb code id body w)
  unfolding sdata
  sdata-IsSound code id body w h = ground arith

  renegotiate-IsSound : (w : World C) → w.timers ≡ 0 → IsSound (renegotiate cb w)
  renegotiate-IsSound w h = ground (arith, sconfreq_effect cb false w)

  after_reply-IsSound :
      (code : ℕ) (w : World C)
      → IsSound w
      → timed w.fsm.state ≡ 1
      → w.fsm.state ≢ closing
      → w.fsm.state ≢ stopping
      → IsSound (after_reply cb code w)
  unfolding after_reply
  after_reply-IsSound code w h t nc ns = ground (arith, keeps.up (set_state opened (clear_timer w)))

  answer_confreq-IsSound :
      (id : ℕ) (body : List ℕ) (w : World C)
      → IsSound w
      → timed w.fsm.state ≡ 1
      → w.fsm.state ≢ closing
      → w.fsm.state ≢ stopping
      → IsSound (answer_confreq cb id body w)
  unfolding answer_confreq sdata
  answer_confreq-IsSound id body w h t nc ns =
      let r = reply_to cb.reqci w.fsm w.client body in
      let w1 = sdata cb r.code id r.options (record w { client = r.client }) in
      after_reply-IsSound r.code w1 (record { one_timer = h.one_timer; acked = h.acked }) t nc ns

  rconfreq-IsSound :
      (id : ℕ) (body : List ℕ) (w : World C)
      → IsSound w
      → is_down w.fsm.state ≡ false
      → IsSound (rconfreq cb id body w)
  unfolding rconfreq
  rconfreq-IsSound id body w h d = ground (
    arith,
    answer_confreq-IsSound id body w h,
    sdata-IsSound 6 id [] w h,
    renegotiate-IsSound w,
    renegotiate-IsSound (tell cb.down w),
    answer_confreq-IsSound id body (renegotiate cb w),
    answer_confreq-IsSound id body (renegotiate cb (tell cb.down w)),
  )

  rtermreq-IsSound : (id : ℕ) (w : World C) → IsSound w → IsSound (rtermreq cb id w)
  unfolding rtermreq sdata
  rtermreq-IsSound id w h = ground arith

  rtermack-IsSound : (w : World C) → IsSound w → IsSound (rtermack cb w)
  unfolding rtermack
  rtermack-IsSound w h = ground (
    arith,
    keeps.finished (set_state closed (clear_timer w)),
    keeps.finished (set_state stopped (clear_timer w)),
    renegotiate-IsSound (tell cb.down w),
  )

  rcoderej-IsSound : (body : List ℕ) (w : World C) → IsSound w → IsSound (rcoderej cb body w)
  unfolding rcoderej
  rcoderej-IsSound body w h = ground arith

  unknown_code-IsSound :
      (code id : ℕ) (body packet : List ℕ) (w : World C)
      → IsSound w
      → IsSound (unknown_code cb code id body packet w)
  unfolding unknown_code sdata
  unknown_code-IsSound code id body packet w h = ground (arith, keeps.extcode code id body w h)

  rconfack_at-IsSound :
      (id : ℕ) (w : World C)
      → IsSound w
      → w.fsm.seen_ack ≡ true
      → IsSound (rconfack_at cb w.fsm.state id w)
  unfolding rconfack_at sdata
  rconfack_at-IsSound id w h seen = ground (
    arith,
    keeps.up (accept_ack opened (clear_timer w)),
    renegotiate-IsSound (clear_timer w),
    renegotiate-IsSound (tell cb.down w),
  )

  rconfack-IsSound :
      (id : ℕ) (body : List ℕ) (w : World C) → IsSound w → IsSound (rconfack cb id body w)
  unfolding rconfack
  rconfack-IsSound id body w h =
      let r = checked_ack cb.ackci w.fsm w.client body in
      let f = w.fsm in
      ground (
        arith,
        rconfack_at-IsSound id
            (record w { fsm = record f { seen_ack = true; rnakloops = 0 }; client = r.1 }),
      )

  rconfnakrej_at-IsSound :
      (stop : Bool) (id : ℕ) (w : World C)
      → IsSound w
      → w.fsm.seen_ack ≡ true
      → IsSound (rconfnakrej_at cb w.fsm.state stop id w)
  unfolding rconfnakrej_at sdata
  rconfnakrej_at-IsSound stop id w h seen = ground (
    arith,
    sconfreq_effect cb false (clear_timer w),
    renegotiate-IsSound (clear_timer w),
    renegotiate-IsSound (tell cb.down w),
  )

  rconfnakrej-IsSound :
      (code id : ℕ) (body : List ℕ) (w : World C)
      → IsSound w
      → IsSound (rconfnakrej cb code id body w)
  unfolding rconfnakrej
  rconfnakrej-IsSound code id body w h =
      let w1 = count_nak code w in
      let r =
        if code == confnak
        then checked_nak cb.nakci w1.fsm w1.client body
        else checked_rej cb.rejci w1.fsm w1.client body in
      let f = w1.fsm in
      ground (
        arith,
        rconfnakrej_at-IsSound (is_neg r.0) id
            (record w1 { fsm = record f { seen_ack = true }; client = r.1 }),
      )

  dispatch-IsSound :
      (code id : ℕ) (body packet : List ℕ) (w : World C)
      → IsSound w
      → is_down w.fsm.state ≡ false
      → IsSound (dispatch cb code id body packet w)
  unfolding dispatch
  dispatch-IsSound code id body packet w h d = ground (
    arith,
    rconfreq-IsSound id body w h d,
    rconfack-IsSound id body w h,
    rconfnakrej-IsSound confnak id body w h,
    rconfnakrej-IsSound confrej id body w h,
    rtermreq-IsSound id w h,
    rtermack-IsSound w h,
    rcoderej-IsSound body w h,
    unknown_code-IsSound code id body packet w h,
  )

  pub input-IsSound : (packet : List ℕ) (w : World C) → IsSound w → IsSound (input cb packet w)
  unfolding input
  input-IsSound (code ∷ id ∷ hi ∷ lo ∷ rest) w h =
      let body = take (hi * 256 + lo - headerlen) rest in
      ground (arith, dispatch-IsSound code id body (code ∷ id ∷ hi ∷ lo ∷ body) w h)
  input-IsSound _ w h = h
